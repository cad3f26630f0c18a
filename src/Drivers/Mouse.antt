-- ===== src/Drivers/Mouse.antt =====
-- src/kernel/drivers/mouse.c: three-byte packets from the PS/2 mouse. The bytes that the status
-- port announces, in order, are an argument; the set-up dialogue with the controller is not modelled.
use bonfire_os.Base.{
  ℕ, ◌-◌, ◌%◌, ◌≡◌, refl, true, false, List, [], ◌∷◌, ◌++◌, arith, ltb, ◌==◌, if◌then◌else◌, bit,
  All, ap, ◌∙◌,
}
use bonfire_os.Base.Int.{ℤ, pos, negsuc, ◌+ℤ◌, ◌-ℤ◌}

-- The static variables of mouse.c.
pub record Mouse : Type 0 where
  pub mouse_dx : ℤ
  pub mouse_dy : ℤ
  pub mouse_buttons : ℕ
  pub buf0 : ℕ
  pub buf1 : ℕ
  pub buf2 : ℕ
  pub mouse_phase : ℕ

-- (int)(int8_t)b
abbrev signed8 : ℕ → ℤ
signed8 b = if ltb b 128 then pos b else negsuc (255 - b)

-- One round of the loop of `mouse_poll`.
unfoldable mouse_byte : ℕ → Mouse → Mouse
mouse_byte b m =
    if m.mouse_phase == 0
    then (if bit b 3 then record m { buf0 = b; mouse_phase = 1 } else m)
    else if m.mouse_phase == 1
    then record m { buf1 = b; mouse_phase = 2 }
    else record m {
      buf2 = b;
      mouse_phase = 0;
      mouse_buttons = m.buf0 % 8;
      mouse_dx = m.mouse_dx +ℤ signed8 m.buf1;
      mouse_dy = m.mouse_dy -ℤ signed8 b;
    }

unfoldable mouse_bytes : List ℕ → Mouse → Mouse
unfolding mouse_byte
mouse_bytes [] m = m
mouse_bytes (b ∷ bs) m = mouse_bytes bs (mouse_byte b m)

-- `mouse_poll`: dx, dy, buttons, and the state after.
unfoldable mouse_poll : List ℕ → Mouse → (ℤ × ℤ × ℕ) × Mouse
unfolding mouse_bytes
mouse_poll bs m =
    let m' = mouse_bytes bs m in
    ((m'.mouse_dx, m'.mouse_dy, m'.mouse_buttons), record m' { mouse_dx = pos 0; mouse_dy = pos 0 })

-- `mouse_clear` also drains the bytes that wait.
unfoldable mouse_clear : Mouse → Mouse
mouse_clear m = record m { mouse_dx = pos 0; mouse_dy = pos 0; mouse_buttons = 0; mouse_phase = 0 }

-- A packet: flags with bit 3 set, then the two movements.
abbrev IsPacket : ℕ × ℕ × ℕ → Type 0
IsPacket (f, x, y) = bit f 3 ≡ true

abbrev pub bytes_of : List (ℕ × ℕ × ℕ) → List ℕ
bytes_of [] = []
bytes_of ((f, x, y) ∷ ps) = f ∷ x ∷ y ∷ bytes_of ps

-- The movement that packets stand for: the first coordinate is added, the second taken away.
abbrev move_x : ℤ → List (ℕ × ℕ × ℕ) → ℤ
move_x a [] = a
move_x a ((f, x, y) ∷ ps) = move_x (a +ℤ signed8 x) ps

abbrev move_y : ℤ → List (ℕ × ℕ × ℕ) → ℤ
move_y a [] = a
move_y a ((f, x, y) ∷ ps) = move_y (a -ℤ signed8 y) ps

abbrev last_buttons : ℕ → List (ℕ × ℕ × ℕ) → ℕ
last_buttons b [] = b
last_buttons b ((f, x, y) ∷ ps) = last_buttons (f % 8) ps

mouse_byte_skip : (b : ℕ) (m : Mouse) → m.mouse_phase ≡ 0 → bit b 3 ≡ false → mouse_byte b m ≡ m
unfolding mouse_byte
mouse_byte_skip b m h n = ground arith

-- Bytes with bit 3 clear, seen between packets, change nothing.
mouse_bytes_skip :
    (noise bs : List ℕ) (m : Mouse)
    → m.mouse_phase ≡ 0
    → All (λ b. bit b 3 ≡ false) noise
    → mouse_bytes (noise ++ bs) m ≡ mouse_bytes bs m
unfolding mouse_bytes
mouse_bytes_skip [] bs m h n = refl
mouse_bytes_skip (b ∷ noise) bs m h n =
    ap (mouse_bytes (noise ++ bs)) (mouse_byte_skip b m h n.0) ∙ mouse_bytes_skip noise bs m h n.1

packet_lem :
    (f x y : ℕ) (m : Mouse)
    → m.mouse_phase ≡ 0
    → bit f 3 ≡ true
    → let m' = mouse_byte y (mouse_byte x (mouse_byte f m)) in
      (m'.mouse_phase ≡ 0)
      × (m'.mouse_dx ≡ m.mouse_dx +ℤ signed8 x)
      × (m'.mouse_dy ≡ m.mouse_dy -ℤ signed8 y)
      × (m'.mouse_buttons ≡ f % 8)
unfolding mouse_byte
packet_lem f x y m h e = ground arith

-- Between packets, `mouse_bytes` over a row of whole packets adds up their movements, keeps the
-- buttons of the last one, and ends between packets.
mouse_bytes-packets :
    (ps : List (ℕ × ℕ × ℕ)) (m : Mouse)
    → m.mouse_phase ≡ 0
    → All IsPacket ps
    → let m' = mouse_bytes (bytes_of ps) m in
      (m'.mouse_phase ≡ 0)
      × (m'.mouse_dx ≡ move_x m.mouse_dx ps)
      × (m'.mouse_dy ≡ move_y m.mouse_dy ps)
      × (m'.mouse_buttons ≡ last_buttons m.mouse_buttons ps)
unfolding mouse_bytes
mouse_bytes-packets [] m h a = (h, refl, refl, refl)
mouse_bytes-packets ((f, x, y) ∷ ps) m h a =
    let (p, dx, dy, b) = packet_lem f x y m h a.0 in
    let (p', dx', dy', b') =
      mouse_bytes-packets ps (mouse_byte y (mouse_byte x (mouse_byte f m))) p a.1 in
    (p', rw (← dx) dx', rw (← dy) dy', rw (← b) b')
