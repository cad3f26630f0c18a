-- ===== src/Kernel/Arch.antt =====
-- src/kernel/arch/idt.c and irq.c: gate descriptors, end of interrupt and the mask registers.
-- The handlers' addresses come from assembly and are parameters.
use bonfire_os.Base.{
  ℕ, suc, ◌+◌, ◌-◌, ◌*◌, ◌/◌, ◌%◌, ◌^◌, ◌≤◌, ◌<◌, ◌≡◌, refl, Bool, false, ◌&&◌, List, [], ◌∷◌,
  arith, ltb, leb, ◌==◌, if◌then◌else◌, u8, u16, u32, bit, update, zero, some, subst, sym, ◌∙◌,
  length, get_elem?, get_elem?-lt,
}
use Prim.Native.Nat.{bit_or, bit_and}

-- `struct idt_entry`
pub record IdtEntry : Type 0 where
  pub offset_low : ℕ
  pub selector : ℕ
  pub ist : ℕ
  pub type_attr : ℕ
  pub offset_mid : ℕ
  pub offset_high : ℕ

abbrev Idt : Type 0
Idt = ℕ → IdtEntry

abbrev idt_type_intr : ℕ
idt_type_intr = 0x0e

abbrev irq_base : ℕ
irq_base = 32

unfoldable pub set_gate : ℕ → ℕ → ℕ → ℕ → Idt → Idt
set_gate n handler sel type idt = update idt n (record {
  offset_low = u16 handler;
  selector = sel;
  ist = 0;
  type_attr = bit_or type 0x60;
  offset_mid = u16 (handler / 2 ^ 16);
  offset_high = u32 (handler / 2 ^ 32);
})

-- for (i = 0; i < count; i++) set_gate(base + i, handlers[i], 0x08, IDT_TYPE_INTR)
unfoldable pub set_gates : ℕ → List ℕ → Idt → Idt
set_gates base [] idt = idt
set_gates base (h ∷ hs) idt = set_gates (base + 1) hs (set_gate base h 0x08 idt_type_intr idt)

-- The gates that `idt_init` installs, from the 32 exception and the 16 IRQ handlers.
unfoldable pub idt_init : List ℕ → List ℕ → Idt → Idt
idt_init exc_handlers irq_handlers idt =
    set_gates irq_base irq_handlers (set_gates 0 exc_handlers idt)

-- Port writes, the latest first.
abbrev pub Ports : Type 0
Ports = List (ℕ × ℕ)

unfoldable pub irq_eoi : ℕ → Ports → Ports
irq_eoi irq out = let out' = (if leb 8 irq then (0xa0, 0x20) ∷ out else out) in (0x20, 0x20) ∷ out'

-- What `idt_irq_handler` does: the acknowledgements, and whether the keyboard handler is called.
unfoldable pub idt_irq_handler : ℕ → Ports → Ports × Bool
unfolding irq_eoi
idt_irq_handler vector out = (
  (if leb irq_base vector && ltb vector (irq_base + 16)
      then irq_eoi (vector - irq_base) out
      else out),
  vector == irq_base + 1,
)

-- The value that `irq_mask_set` and `irq_mask_clear` write back, from the value read.
unfoldable irq_mask_set : ℕ → ℕ → ℕ × ℕ
irq_mask_set irq mask = ((if ltb irq 8 then 0x21 else 0xa1), u8 (bit_or mask (2 ^ (irq % 8))))

unfoldable irq_mask_clear : ℕ → ℕ → ℕ × ℕ
irq_mask_clear irq mask = ((if ltb irq 8 then 0x21 else 0xa1), bit_and mask (255 - 2 ^ (irq % 8)))

-- The address that the processor jumps to through a gate.
abbrev target : IdtEntry → ℕ
target e = e.offset_low + e.offset_mid * 2 ^ 16 + e.offset_high * 2 ^ 32

set_gates_other :
    (base : ℕ) (hs : List ℕ) (idt : Idt) (n : ℕ) → n < base → set_gates base hs idt n ≡ idt n
unfolding set_gates set_gate
set_gates_other base [] idt n h = refl
set_gates_other base (x ∷ hs) idt n h =
    ground (arith, set_gates_other (base + 1) hs (set_gate base x 8 14 idt) n)

set_gates_at :
    (base k : ℕ) (hs : List ℕ) (idt : Idt) {h : ℕ}
    → get_elem? hs k ≡ some h
    → set_gates base hs idt (base + k) ≡ set_gate (base + k) h 0x08 idt_type_intr idt (base + k)
unfolding set_gates set_gate
set_gates_at base k [] idt e = cc
set_gates_at base zero (x ∷ hs) idt e =
    ground (arith, set_gates_other (base + 1) hs (set_gate base x 8 14 idt) base)
set_gates_at base (suc k) (x ∷ hs) idt e =
    ground (arith, set_gates_at (base + 1) k hs (set_gate base x 8 14 idt) e)

-- What a gate that `set_gate` wrote for `h` holds: the processor would jump to `h` in code segment
-- 8, but descriptor bit 7 (present) is clear and the privilege level, bits 5 and 6, is 3.
pub record Gate (h : ℕ) (e : IdtEntry) : Type 0 where
  pub jumps : target e ≡ h
  pub code_segment : e.selector ≡ 0x08
  pub absent : bit e.type_attr 7 ≡ false
  pub user_level : e.type_attr / 2 ^ 5 % 4 ≡ 3

set_gate-Gate : (n h : ℕ) (idt : Idt) → h < 2 ^ 64 → Gate h (set_gate n h 0x08 idt_type_intr idt n)
unfolding set_gate
set_gate-Gate n h idt b = ground arith

-- After `idt_init` with 32 exception handlers, exception vector `n` has the gate of handler `n` and
-- vector 32 + `m` that of IRQ handler `m`; every gate is marked not present, at level 3.
pub idt_init-Gate :
    (exc irq : List ℕ) (idt : Idt) (n m : ℕ) {h g : ℕ}
    → length exc ≡ 32
    → get_elem? exc n ≡ some h
    → get_elem? irq m ≡ some g
    → h < 2 ^ 64
    → g < 2 ^ 64
    → Gate h (idt_init exc irq idt n) × Gate g (idt_init exc irq idt (32 + m))
unfolding idt_init
idt_init-Gate exc irq idt n m {h} {g} len e f bh bg = (
  subst (Gate h) (sym exception) (set_gate-Gate n h idt bh),
  subst (Gate g) (sym interrupt) (set_gate-Gate (32 + m) g (set_gates 0 exc idt) bg),
)
  where
    below : n < 32
    below = omega (arith, get_elem?-lt exc n e)

    at : set_gates 0 exc idt n ≡ set_gate n h 0x08 idt_type_intr idt n
    at =
        subst (λ k. set_gates 0 exc idt k ≡ set_gate k h 0x08 idt_type_intr idt k) (omega arith)
          (set_gates_at 0 n exc idt e)

    exception : set_gates 32 irq (set_gates 0 exc idt) n ≡ set_gate n h 0x08 idt_type_intr idt n
    exception = set_gates_other 32 irq (set_gates 0 exc idt) n below ∙ at

    interrupt :
        set_gates 32 irq (set_gates 0 exc idt) (32 + m)
        ≡ set_gate (32 + m) g 0x08 idt_type_intr (set_gates 0 exc idt) (32 + m)
    interrupt = set_gates_at 32 m irq (set_gates 0 exc idt) f

-- Interrupt vectors 32 to 47 are acknowledged at the first controller, those from 40 on at the
-- second too and first; every other vector writes no port. The keyboard is served at 33 only.
idt_irq_handler-acknowledges :
    (vector : ℕ) (out : Ports)
    → (vector < 32 → idt_irq_handler vector out ≡ (out, false))
      × (32 ≤ vector
          → vector < 40
          → idt_irq_handler vector out ≡ ((0x20, 0x20) ∷ out, vector == 33))
      × (40 ≤ vector
          → vector < 48
          → idt_irq_handler vector out ≡ ((0x20, 0x20) ∷ (0xa0, 0x20) ∷ out, false))
      × (48 ≤ vector → idt_irq_handler vector out ≡ (out, false))
unfolding idt_irq_handler
idt_irq_handler-acknowledges vector out =
    (λ a. ground arith, λ a b. ground arith, λ a b. ground arith, λ a. ground arith)
