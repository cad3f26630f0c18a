-- ===== src/Kernel/Process/Stack.antt =====
-- The first stack of a process, and what the switch to it (arch/context_switch.asm) takes from it.
use bonfire_os.Base.{
  ℕ, zero, suc, ◌+◌, ◌-◌, ◌*◌, ◌^◌, ◌≤◌, ◌<◌, ◌≡◌, refl, arith, ◌∙◌, ap, ◌∷◌, replicate,
}
use mathlib.Core.Path.{ap₂}
use bonfire_os.Kernel.Process.{
  clear_registers, stack_top, write_frame, process_setup_stack, pop_registers, context_switch_to,
}

clear_registers_above :
    (i saved : ℕ) (memory : ℕ → ℕ) (a : ℕ)
    → saved + i * 8 ≤ a
    → clear_registers i saved memory a ≡ memory a
unfolding clear_registers
clear_registers_above zero saved memory a h = refl
clear_registers_above (suc i) saved memory a h =
    ground (arith, clear_registers_above i saved memory a)

clear_registers_below :
    (i saved : ℕ) (memory : ℕ → ℕ) (a : ℕ) → a < saved → clear_registers i saved memory a ≡ memory a
unfolding clear_registers
clear_registers_below zero saved memory a h = refl
clear_registers_below (suc i) saved memory a h =
    ground (arith, clear_registers_below i saved memory a)

clear_registers_zero :
    (i saved : ℕ) (memory : ℕ → ℕ) (j : ℕ)
    → j < i
    → clear_registers i saved memory (saved + j * 8) ≡ 0
unfolding clear_registers
clear_registers_zero zero saved memory j h = absurd (omega arith)
clear_registers_zero (suc i) saved memory j h =
    ground (arith, clear_registers_zero i saved memory j)

-- For a stack in the lower half of the addresses, above address 0: the saved pointer is 120 bytes
-- below the aligned stack top, the fifteen register words from it on are 0, and the entry point,
-- the code segment, the flags and the stack segment lie in the words below it.
process_setup_stack-layout :
    (stack entry : ℕ) (memory : ℕ → ℕ) (j : ℕ)
    → stack < 2 ^ 63
    → j < 15
    → let (m, saved) = process_setup_stack stack entry memory in
      (saved + 120 ≡ stack_top stack)
      × (m (saved + j * 8) ≡ 0)
      × (m (saved - 8) ≡ 32)
      × (m (saved - 16) ≡ entry)
      × (m (saved - 24) ≡ 0x08)
      × (m (saved - 32) ≡ 0x202)
      × (m (saved - 48) ≡ 0x10)
unfolding process_setup_stack
process_setup_stack-layout stack entry memory j low h = (
  omega arith,
  clear_registers_zero 15 saved frame j h,
  clear_registers_below 15 saved frame (saved - 8) (omega arith) ∙ ground arith,
  clear_registers_below 15 saved frame (saved - 16) (omega arith) ∙ ground arith,
  clear_registers_below 15 saved frame (saved - 24) (omega arith) ∙ ground arith,
  clear_registers_below 15 saved frame (saved - 32) (omega arith) ∙ ground arith,
  clear_registers_below 15 saved frame (saved - 48) (omega arith) ∙ ground arith,
)
  where
    saved : ℕ
    saved = stack_top stack - 120

    frame : ℕ → ℕ
    frame = write_frame saved entry memory

pop_registers_rsp :
    (n : ℕ) (memory : ℕ → ℕ) (rsp : ℕ) → (pop_registers n memory rsp).1 ≡ rsp + n * 8
unfolding pop_registers
pop_registers_rsp zero memory rsp = omega arith
pop_registers_rsp (suc n) memory rsp = pop_registers_rsp n memory (rsp + 8) ∙ omega arith

pop_registers_zero :
    (n : ℕ) (memory : ℕ → ℕ) (rsp : ℕ)
    → ((j : ℕ) → j < n → memory (rsp + j * 8) ≡ 0)
    → (pop_registers n memory rsp).0 ≡ replicate n 0
unfolding pop_registers
pop_registers_zero zero memory rsp h = refl
pop_registers_zero (suc n) memory rsp h =
    ap₂ (λ w ws. w ∷ ws) (ap memory (omega arith) ∙ h 0 (omega arith))
      (pop_registers_zero n memory (rsp + 8)
        (λ j less. ap memory (omega arith) ∙ h (suc j) (omega (arith, less))))

-- Words from the stack top on are not written.
process_setup_stack-above :
    (stack entry : ℕ) (memory : ℕ → ℕ) (d : ℕ)
    → stack < 2 ^ 63
    → let (m, saved) = process_setup_stack stack entry memory in
      m (stack_top stack + d) ≡ memory (stack_top stack + d)
unfolding process_setup_stack
process_setup_stack-above stack entry memory d low =
    clear_registers_above 15 saved (write_frame saved entry memory) (stack_top stack + d)
      (omega arith)
    ∙ ground arith
  where
    saved : ℕ
    saved = stack_top stack - 120

-- For a stack in the lower half of the addresses, `context_switch_to` of what `process_setup_stack`
-- leaves gives fifteen registers that are 0, and takes rip, cs, rflags, rsp and ss from the words at 8,
-- 16, 24, 32 and 40 above the stack top as they were before, whatever the entry point.
pub process_setup_stack-switch :
    (stack entry : ℕ) (memory : ℕ → ℕ)
    → stack < 2 ^ 63
    → let (m, saved) = process_setup_stack stack entry memory in
      let top = stack_top stack in
      let cpu = context_switch_to saved m in
      (cpu.registers ≡ replicate 15 0)
      × (cpu.rip ≡ memory (top + 8))
      × (cpu.cs ≡ memory (top + 16))
      × (cpu.rflags ≡ memory (top + 24))
      × (cpu.rsp ≡ memory (top + 32))
      × (cpu.ss ≡ memory (top + 40))
unfolding context_switch_to
process_setup_stack-switch stack entry memory low = (
  pop_registers_zero 15 m saved
      (λ j less. (process_setup_stack-layout stack entry memory j low less).1),
  at 8 _ (omega (arith, popped, top)),
  at 16 _ (omega (arith, popped, top)),
  at 24 _ (omega (arith, popped, top)),
  at 32 _ (omega (arith, popped, top)),
  at 40 _ (omega (arith, popped, top)),
)
  where
    m : ℕ → ℕ
    m = (process_setup_stack stack entry memory).0

    saved : ℕ
    saved = (process_setup_stack stack entry memory).1

    popped : (pop_registers 15 m saved).1 ≡ saved + 120
    popped = pop_registers_rsp 15 m saved

    top : saved + 120 ≡ stack_top stack
    top = (process_setup_stack-layout stack entry memory 0 low (omega arith)).0

    at : (d a : ℕ) → a ≡ stack_top stack + d → m a ≡ memory (stack_top stack + d)
    at d a e = ap m e ∙ process_setup_stack-above stack entry memory d low
