-- ===== src/Drivers/Vga/Decimal.antt =====
-- `vga_putdec` prints the decimal numeral of its argument.
use native.Mathlib.Nat.{pow-suc}
use bonfire_os.Base.{
  ℕ, zero, suc, ◌+◌, ◌-◌, ◌*◌, ◌/◌, ◌%◌, ◌^◌, ◌≤◌, ◌<◌, ◌≡◌, List, [], ◌∷◌, arith, length, ◌==◌,
  Bool-cases, inl, inr, All, ap,
}
use bonfire_os.Drivers.Vga.{Vga, dec_digits, vga_putdec, vga_puts}

-- The number that a row of ASCII digits stands for, read behind the number `acc`.
abbrev pub value : ℕ → List ℕ → ℕ
value acc [] = acc
value acc (d ∷ ds) = value (acc * 10 + (d - b'0')) ds

abbrev pub IsDigits : List ℕ → Type 0
IsDigits = All (λ d. (b'0' ≤ d) × (d ≤ b'9'))

value-dec_digits :
    (fuel n : ℕ) (out : List ℕ) → n < 10 ^ fuel → value 0 (dec_digits fuel n out) ≡ value n out
unfolding dec_digits
value-dec_digits zero n out h = ap (λ k. value k out) (omega arith)
value-dec_digits (suc fuel) n out h = ground (
  arith,
  value-dec_digits fuel (n / 10) ((b'0' + n % 10) ∷ out) (omega (arith, pow-suc 10 fuel)),
  ap (λ k. value k out) (tenfold n),
)
  where
    tenfold : (n : ℕ) → n / 10 * 10 + (b'0' + n % 10 - b'0') ≡ n
    tenfold n = omega arith

dec_digits-IsDigits : (fuel n : ℕ) (out : List ℕ) → IsDigits out → IsDigits (dec_digits fuel n out)
unfolding dec_digits
dec_digits-IsDigits zero n out h = h
dec_digits-IsDigits (suc fuel) n out h = elim (Bool-cases (n == 0)) [
  | inl e ↦ rw e h
  | inr e ↦
      rw e
        (dec_digits-IsDigits fuel (n / 10) ((b'0' + n % 10) ∷ out) ((omega arith, omega arith), h))
]

length-dec_digits :
    (k fuel n : ℕ) (out : List ℕ) → n < 10 ^ k → length (dec_digits fuel n out) ≤ length out + k
unfolding dec_digits
length-dec_digits k zero n out h = omega arith
length-dec_digits zero (suc fuel) n out h = ground arith
length-dec_digits (suc k) (suc fuel) n out h =
    ground (
      arith,
      length-dec_digits k fuel (n / 10) ((b'0' + n % 10) ∷ out) (omega (arith, pow-suc 10 k)),
    )

-- For every 32-bit number, `vga_putdec` puts a row of decimal digits on the screen that reads back
-- as the number, and that fits into the 12 bytes of its buffer.
pub vga_putdec-value :
    (n : ℕ) (v : Vga)
    → n < 2 ^ 32
    → (ds : List ℕ) × (vga_putdec n v ≡ vga_puts ds v)
      × IsDigits ds
      × (value 0 ds ≡ n)
      × (length ds ≤ 10)
unfolding vga_putdec vga_puts
vga_putdec-value n v h = elim (Bool-cases (n == 0)) [
  | inl e ↦ (b'0' ∷ [], rw e, ((omega arith, omega arith), tt), ground arith, omega arith)
  | inr e ↦ (
    dec_digits 12 n [],
    rw e,
    dec_digits-IsDigits 12 n [] tt,
    value-dec_digits 12 n [] (omega arith),
    length-dec_digits 10 12 n [] (omega arith),
  )
]
