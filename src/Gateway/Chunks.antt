-- ===== src/Gateway/Chunks.antt =====
-- The effects of a connection do not depend on how its bytes are cut into chunks.
use ctreader.Prelude.{
  ℕ, ◌+◌, ◌≡◌, ◌<◌, ◌%◌, ap, inl, inr, Bool, true, false, Option, some, List, [], ◌∷◌, ◌++◌, arith,
  ltb, leb, ◌==◌, length, drop, Bool-cases, Option-cases,
}
use ctreader.Gateway.{
  WsConnection, Effect, Outcome, goes_on, stops, incomplete, refused, frame, read_body, read_be,
  read_front, add_fragment, take_frame, extend,
}
use ctreader.Gateway.Frames.{length-drop}

-- A frame takes bytes off the buffer.
body_shorter :
    (fin : Bool) (opcode : ℕ) (masked : Bool) (size offset : ℕ) (xs : List ℕ) (f : Bool) (op : ℕ)
    (payload rest : List ℕ)
    → read_body fin opcode masked size offset xs ≡ frame f op payload rest
    → length rest < length xs
unfolding read_body
body_shorter fin opcode false size offset xs f op payload rest h = absurd (ground arith)
body_shorter fin opcode true size offset xs f op payload rest h =
    elim (Bool-cases (ltb (length xs) (offset + 4 + size))) [
      | inl short ↦ absurd (ground arith)
      | inr enough ↦
          let d = length-drop (offset + 4) xs (ground arith) in
          let e = length-drop size (drop (offset + 4) xs) (ground arith) in
          let same : drop size (drop (offset + 4) xs) ≡ rest = ground arith in
          ground (arith, ap length same)
    ]

incomplete_not_frame :
    {f : Bool} {op : ℕ} {payload rest : List ℕ} → ¬ (incomplete ≡ frame f op payload rest)
incomplete_not_frame e = cc

refused_not_frame :
    {code : ℕ} {f : Bool} {op : ℕ} {payload rest : List ℕ}
    → ¬ (refused code ≡ frame f op payload rest)
refused_not_frame e = cc

pub front_shorter :
    (xs : List ℕ) (f : Bool) (op : ℕ) (payload rest : List ℕ)
    → read_front xs ≡ frame f op payload rest
    → length rest < length xs
unfolding read_front
front_shorter [] f op payload rest h = absurd (ground arith)
front_shorter (a ∷ []) f op payload rest h = absurd (ground arith)
front_shorter (a ∷ b ∷ xs) f op payload rest h = elim (Bool-cases (b % 128 == 126)) [
  | inl two ↦ elim (Bool-cases (ltb (length (a ∷ b ∷ xs)) 4)) [
    | inl short ↦ absurd (incomplete_not_frame (rw (two, short) at h))
    | inr enough ↦
        body_shorter (leb 128 a) (a % 16) (leb 128 b) (read_be 2 0 xs) 4 (a ∷ b ∷ xs) f op payload
          rest (rw (two, enough) at h)
  ]
  | inr other ↦ elim (Bool-cases (b % 128 == 127)) [
    | inl eight ↦ elim (Bool-cases (ltb (length (a ∷ b ∷ xs)) 10)) [
      | inl short ↦ absurd (incomplete_not_frame (rw (other, eight, short) at h))
      | inr enough ↦ elim (Bool-cases (ltb 1048576 (read_be 8 0 xs))) [
        | inl large ↦ absurd (refused_not_frame (rw (other, eight, enough, large) at h))
        | inr small ↦
            body_shorter (leb 128 a) (a % 16) (leb 128 b) (read_be 8 0 xs) 10 (a ∷ b ∷ xs) f op
              payload rest (rw (other, eight, enough, small) at h)
      ]
    ]
    | inr small ↦
        body_shorter (leb 128 a) (a % 16) (leb 128 b) (b % 128) 2 (a ∷ b ∷ xs) f op payload rest
          (rw (other, small) at h)
  ]
]

-- What a frame leaves in the buffer is what stood behind it.
add_buffer :
    (fin : Bool) (fragments : List (List ℕ)) (opcode : Option ℕ) (rest : List ℕ) (es : List Effect)
    (d : WsConnection)
    → add_fragment fin fragments opcode rest ≡ goes_on es d
    → d.buffer ≡ rest
unfolding add_fragment
add_buffer fin fragments opcode rest es d h = ground arith

pub frame_buffer :
    (c : WsConnection) (fin : Bool) (op : ℕ) (payload rest : List ℕ) (es : List Effect)
    (d : WsConnection)
    → take_frame c fin op payload rest ≡ goes_on es d
    → d.buffer ≡ rest
unfolding take_frame
frame_buffer c fin op payload rest es d h = ground (
  arith,
  add_buffer fin (payload ∷ []) (some 1) rest es d,
  λ (known : ℕ). add_buffer fin (c.fragments ++ payload ∷ []) (some known) rest es d,
)

abbrev pub map_connection : (WsConnection → WsConnection) → Outcome → Outcome
map_connection f (goes_on es c) = goes_on es (f c)
map_connection f (stops es) = stops es

add_extend :
    (fin : Bool) (fragments : List (List ℕ)) (opcode : Option ℕ) (rest ys : List ℕ)
    → add_fragment fin fragments opcode (rest ++ ys)
      ≡ map_connection (extend ys) (add_fragment fin fragments opcode rest)
unfolding add_fragment
add_extend fin fragments opcode rest ys = ground arith

pub frame_extend :
    (c : WsConnection) (fin : Bool) (op : ℕ) (payload rest ys : List ℕ)
    → take_frame (extend ys c) fin op payload (rest ++ ys)
      ≡ map_connection (extend ys) (take_frame c fin op payload rest)
unfolding take_frame
frame_extend c fin op payload rest ys = elim (Option-cases c.fragment_opcode) [
  | inl missing ↦ ground (arith, add_extend fin (payload ∷ []) (some 1) rest ys)
  | inr (known, found) ↦ ground (
    arith,
    add_extend fin (payload ∷ []) (some 1) rest ys,
    add_extend fin (c.fragments ++ payload ∷ []) (some known) rest ys,
  )
]
