-- ===== src/Gateway/Frames.antt =====
-- The front of a buffer does not change when more bytes arrive behind it.
use ctreader.Prelude.{
  ℕ, zero, suc, ◌+◌, ◌*◌, ◌%◌, ◌≡◌, ◌≤◌, ◌<◌, refl, ap, inl, inr, Bool, true, false, List, [], ◌∷◌,
  ◌++◌, arith, ltb, leb, ◌==◌, length, length-append, take, drop, Bool-cases,
}
use ctreader.Gateway.{Front, incomplete, refused, frame, byte_at, read_be, read_body, read_front}

drop-append : (n : ℕ) (xs ys : List ℕ) → n ≤ length xs → drop n (xs ++ ys) ≡ drop n xs ++ ys
drop-append zero xs ys h = refl
drop-append (suc n) [] ys h = absurd (omega arith)
drop-append (suc n) (x ∷ xs) ys h = drop-append n xs ys (omega arith)

take-append : (n : ℕ) (xs ys : List ℕ) → n ≤ length xs → take n (xs ++ ys) ≡ take n xs
take-append zero xs ys h = refl
take-append (suc n) [] ys h = absurd (omega arith)
take-append (suc n) (x ∷ xs) ys h = ap (λ t. x ∷ t) (take-append n xs ys (omega arith))

pub length-drop : (n : ℕ) (xs : List ℕ) → n ≤ length xs → n + length (drop n xs) ≡ length xs
length-drop zero xs h = omega arith
length-drop (suc n) [] h = absurd (omega arith)
length-drop (suc n) (x ∷ xs) h = omega (arith, length-drop n xs (omega arith))

byte_at-append : (i : ℕ) (xs ys : List ℕ) → i < length xs → byte_at i (xs ++ ys) ≡ byte_at i xs
byte_at-append i [] ys h = absurd (omega arith)
byte_at-append zero (x ∷ xs) ys h = refl
byte_at-append (suc i) (x ∷ xs) ys h = byte_at-append i xs ys (omega arith)

read_be-append :
    (n acc : ℕ) (xs ys : List ℕ) → n ≤ length xs → read_be n acc (xs ++ ys) ≡ read_be n acc xs
unfolding read_be
read_be-append zero acc xs ys h = refl
read_be-append (suc n) acc [] ys h = absurd (omega arith)
read_be-append (suc n) acc (x ∷ xs) ys h = read_be-append n (acc * 256 + x) xs ys (omega arith)

enough_append :
    (k : ℕ) (xs ys : List ℕ)
    → ltb (length xs) k ≡ false
    → (k ≤ length xs) × (ltb (length (xs ++ ys)) k ≡ false)
enough_append k xs ys h = (ground arith, ground (arith, length-append xs ys))

-- The same front, with more bytes behind it.
abbrev pub longer : List ℕ → Front → Front
longer ys incomplete = incomplete
longer ys (refused code) = refused code
longer ys (frame fin opcode payload rest) = frame fin opcode payload (rest ++ ys)

read_body-append :
    (fin : Bool) (opcode : ℕ) (masked : Bool) (size offset : ℕ) (xs ys : List ℕ)
    → ¬ (read_body fin opcode masked size offset xs ≡ incomplete)
    → read_body fin opcode masked size offset (xs ++ ys)
      ≡ longer ys (read_body fin opcode masked size offset xs)
unfolding read_body
read_body-append fin opcode false size offset xs ys whole = refl
read_body-append fin opcode true size offset xs ys whole =
    elim (Bool-cases (ltb (length xs) (offset + 4 + size))) [
      | inl short ↦ absurd (whole (rw short refl))
      | inr enough ↦
          let le : offset + 4 + size ≤ length xs = ground arith in
          let more : ltb (length (xs ++ ys)) (offset + 4 + size) ≡ false =
            ground (arith, length-append xs ys) in
          let d = length-drop offset xs (omega arith) in
          let e = length-drop (offset + 4) xs (omega arith) in
          rw
            (
              enough,
              more,
              drop-append offset xs ys (omega arith),
              drop-append (offset + 4) xs ys (omega arith),
              byte_at-append 0 (drop offset xs) ys (omega arith),
              byte_at-append 1 (drop offset xs) ys (omega arith),
              byte_at-append 2 (drop offset xs) ys (omega arith),
              byte_at-append 3 (drop offset xs) ys (omega arith),
              take-append size (drop (offset + 4) xs) ys (omega arith),
              drop-append size (drop (offset + 4) xs) ys (omega arith),
            )
            refl
    ]

-- Bytes that arrive behind a whole frame, or behind a reason to close, do not change it.
pub read_front-append :
    (xs ys : List ℕ)
    → ¬ (read_front xs ≡ incomplete)
    → read_front (xs ++ ys) ≡ longer ys (read_front xs)
unfolding read_front
read_front-append [] ys whole = absurd (whole refl)
read_front-append (a ∷ []) ys whole = absurd (whole refl)
read_front-append (a ∷ b ∷ xs) ys whole = elim (Bool-cases (b % 128 == 126)) [
  | inl two ↦ elim (Bool-cases (ltb (length (a ∷ b ∷ xs)) 4)) [
    | inl short ↦ absurd (whole (rw (two, short) refl))
    | inr enough ↦
        let (le, more) = enough_append 4 (a ∷ b ∷ xs) ys enough in
        rw (two, enough, more, read_be-append 2 0 xs ys (omega arith))
          (read_body-append (leb 128 a) (a % 16) (leb 128 b) (read_be 2 0 xs) 4 (a ∷ b ∷ xs) ys
            (λ e. whole (rw (two, enough) e)))
  ]
  | inr other ↦ elim (Bool-cases (b % 128 == 127)) [
    | inl eight ↦ elim (Bool-cases (ltb (length (a ∷ b ∷ xs)) 10)) [
      | inl short ↦ absurd (whole (rw (other, eight, short) refl))
      | inr enough ↦
          let (le, more) = enough_append 10 (a ∷ b ∷ xs) ys enough in
          elim (Bool-cases (ltb 1048576 (read_be 8 0 xs))) [
            | inl large ↦
                rw (other, eight, enough, more, read_be-append 8 0 xs ys (omega arith), large) refl
            | inr small ↦
                rw (other, eight, enough, more, read_be-append 8 0 xs ys (omega arith), small)
                  (read_body-append (leb 128 a) (a % 16) (leb 128 b) (read_be 8 0 xs) 10
                    (a ∷ b ∷ xs) ys (λ e. whole (rw (other, eight, enough, small) e)))
          ]
    ]
    | inr small ↦
        rw (other, small)
          (read_body-append (leb 128 a) (a % 16) (leb 128 b) (b % 128) 2 (a ∷ b ∷ xs) ys
            (λ e. whole (rw (other, small) e)))
  ]
]
