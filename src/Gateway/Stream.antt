-- ===== src/Gateway/Stream.antt =====
-- The loop of `consume` over a stream of bytes.
use ctreader.Prelude.{
  ℕ, zero, suc, ◌≡◌, ◌≤◌, refl, sym, ap, ◌∙◌, ◌⊎◌, inl, inr, Bool, List, [], ◌∷◌, ◌++◌, arith,
  length, length-append,
}
use ctreader.Gateway.{
  WsConnection, Effect, Outcome, goes_on, stops, Front, incomplete, refused, frame, read_front,
  take_frame, consume, receive, extend, prepend, and_then, close_with,
}
use ctreader.Gateway.Frames.{longer, read_front-append}
use ctreader.Gateway.Chunks.{front_shorter, frame_buffer, frame_extend}

Front-cases :
    (f : Front)
    → (f ≡ incomplete)
      ⊎ ((code : ℕ) × (f ≡ refused code))
      ⊎ ((fin : Bool) × (op : ℕ) × (payload : List ℕ) × (rest : List ℕ) × (f
            ≡ frame fin op payload rest))
Front-cases incomplete = inl refl
Front-cases (refused code) = inr (inl (code, refl))
Front-cases (frame fin op payload rest) = inr (inr (fin, op, payload, rest, refl))

Outcome-cases :
    (o : Outcome)
    → ((es : List Effect) × (d : WsConnection) × (o ≡ goes_on es d))
      ⊎ ((es : List Effect) × (o ≡ stops es))
Outcome-cases (goes_on es d) = inl (es, d, refl)
Outcome-cases (stops es) = inr (es, refl)

consume_incomplete :
    (n : ℕ) (c : WsConnection) → read_front c.buffer ≡ incomplete → consume n c ≡ goes_on [] c
unfolding consume
consume_incomplete zero c h = refl
consume_incomplete (suc n) c h = rw (h, consume) refl

consume_refused :
    (n : ℕ) (c : WsConnection) (code : ℕ)
    → read_front c.buffer ≡ refused code
    → consume (suc n) c ≡ stops (close_with code ∷ [])
unfolding consume
consume_refused n c code h = rw (h, consume) refl

consume_frame :
    (n : ℕ) (c : WsConnection) (fin : Bool) (op : ℕ) (payload rest : List ℕ)
    → read_front c.buffer ≡ frame fin op payload rest
    → consume (suc n) c ≡ and_then (consume n) (take_frame c fin op payload rest)
unfolding consume
consume_frame n c fin op payload rest h = rw (h, consume) refl

-- A front that is whole or refused leaves bytes to consume.
empty_incomplete : (xs : List ℕ) → length xs ≤ 0 → read_front xs ≡ incomplete
unfolding read_front
empty_incomplete [] h = refl
empty_incomplete (x ∷ xs) h = absurd (omega arith)

-- The loop over the frames ends: any two amounts of fuel that are not less than the length of the
-- buffer give the same outcome.
pub consume_same :
    (n m : ℕ) (c : WsConnection)
    → length c.buffer ≤ n
    → length c.buffer ≤ m
    → consume n c ≡ consume m c
consume_same zero m c h k =
    consume_incomplete zero c (empty_incomplete c.buffer h)
    ∙ sym (consume_incomplete m c (empty_incomplete c.buffer h))
consume_same (suc n) zero c h k =
    consume_incomplete (suc n) c (empty_incomplete c.buffer k)
    ∙ sym (consume_incomplete zero c (empty_incomplete c.buffer k))
consume_same (suc n) (suc m) c h k = elim (Front-cases (read_front c.buffer)) [
  | inl e ↦ consume_incomplete (suc n) c e ∙ sym (consume_incomplete (suc m) c e)
  | inr (inl (code, e)) ↦ consume_refused n c code e ∙ sym (consume_refused m c code e)
  | inr (inr (fin, op, payload, rest, e)) ↦
      rw (consume_frame n c fin op payload rest e, consume_frame m c fin op payload rest e)
        (elim (Outcome-cases (take_frame c fin op payload rest)) [
          | inr (es, stopped) ↦ rw stopped refl
          | inl (es, d, on) ↦
              let left = frame_buffer c fin op payload rest es d on in
              let shorter = front_shorter c.buffer fin op payload rest e in
              let size : length d.buffer ≡ length rest = ap length left in
              rw on (ap (prepend es) (consume_same n m d (omega arith) (omega arith)))
        ])
]

abbrev run : WsConnection → Outcome
run c = consume (length c.buffer) c

run-suc :
    (c : WsConnection)
    → ¬ (read_front c.buffer ≡ incomplete)
    → (n : ℕ) × (length c.buffer ≤ suc n) × (run c ≡ consume (suc n) c)
run-suc c whole = (
  length c.buffer,
  omega arith,
  consume_same (length c.buffer) (suc (length c.buffer)) c (omega arith) (omega arith),
)

prepend-nil : (o : Outcome) → prepend [] o ≡ o
prepend-nil (goes_on es c) = refl
prepend-nil (stops es) = refl

append_assoc : {A : Type 0} (es fs gs : List A) → (es ++ fs) ++ gs ≡ es ++ (fs ++ gs)
append_assoc [] fs gs = refl
append_assoc (e ∷ es) fs gs = ap (λ t. e ∷ t) (append_assoc es fs gs)

and_then-prepend :
    (next : WsConnection → Outcome) (es : List Effect) (o : Outcome)
    → and_then next (prepend es o) ≡ prepend es (and_then next o)
and_then-prepend next es (stops fs) = refl
and_then-prepend next es (goes_on fs c) = elim (Outcome-cases (next c)) [
  | inl (gs, d, on) ↦ rw (on, append_assoc es fs gs) refl
  | inr (gs, stopped) ↦ rw (stopped, append_assoc es fs gs) refl
]

abbrev more : List ℕ → WsConnection → Outcome
more ys d = run (extend ys d)

refused_whole : {code : ℕ} → ¬ (refused code ≡ incomplete)
refused_whole e = cc

frame_whole : {f : Bool} {op : ℕ} {payload rest : List ℕ} → ¬ (frame f op payload rest ≡ incomplete)
frame_whole e = cc

resumed :
    (n : ℕ) (ys : List ℕ) (c : WsConnection)
    → length c.buffer ≤ n
    → and_then (more ys) (consume n c) ≡ more ys c
resumed zero ys c h =
    rw (consume_incomplete zero c (empty_incomplete c.buffer h)) (prepend-nil (more ys c))
resumed (suc n) ys c h = elim (Front-cases (read_front c.buffer)) [
  | inl e ↦ rw (consume_incomplete (suc n) c e) (prepend-nil (more ys c))
  | inr (inl (code, e)) ↦
      let still : read_front (extend ys c).buffer ≡ refused code =
        read_front-append c.buffer ys (λ i. refused_whole (sym e ∙ i)) ∙ ap (longer ys) e in
      let (m, le, same) = run-suc (extend ys c) (λ i. refused_whole (sym still ∙ i)) in
      rw (consume_refused n c code e, same, consume_refused m (extend ys c) code still) refl
  | inr (inr (fin, op, payload, rest, e)) ↦
      let still : read_front (extend ys c).buffer ≡ frame fin op payload (rest ++ ys) =
        read_front-append c.buffer ys (λ i. frame_whole (sym e ∙ i)) ∙ ap (longer ys) e in
      let (m, le, same) = run-suc (extend ys c) (λ i. frame_whole (sym still ∙ i)) in
      rw
        (
          consume_frame n c fin op payload rest e,
          same,
          consume_frame m (extend ys c) fin op payload (rest ++ ys) still,
          frame_extend c fin op payload rest ys,
        )
        (elim (Outcome-cases (take_frame c fin op payload rest)) [
          | inr (es, stopped) ↦ rw stopped refl
          | inl (es, d, on) ↦
              let left = frame_buffer c fin op payload rest es d on in
              let shorter = front_shorter c.buffer fin op payload rest e in
              let size : length d.buffer ≡ length rest = ap length left in
              let longer_size = length-append d.buffer ys in
              let whole_size = length-append c.buffer ys in
              rw on (
                and_then-prepend (more ys) es (consume n d)
                ∙ ap (prepend es) (
                    resumed n ys d (omega arith)
                    ∙ consume_same (length (d.buffer ++ ys)) m (extend ys d) (omega arith)
                        (omega arith)))
        ])
]

and_then_congr :
    (f g : WsConnection → Outcome) (o : Outcome)
    → ((c : WsConnection) → f c ≡ g c)
    → and_then f o ≡ and_then g o
and_then_congr f g (stops es) h = refl
and_then_congr f g (goes_on es c) h = ap (prepend es) (h c)

receive-more : (ys : List ℕ) (c : WsConnection) → receive ys c ≡ more ys c
unfolding receive
receive-more ys c = refl

-- However the bytes of a connection are cut into chunks, the effects and the connection after them
-- are the same, up to the effect that closes it: to receive one chunk and then, if the connection
-- goes on, the next does what receiving both at once does.
pub receive-append :
    (xs ys : List ℕ) (c : WsConnection)
    → and_then (receive ys) (receive xs c) ≡ receive (xs ++ ys) c
receive-append xs ys c =
    and_then_congr (receive ys) (more ys) (receive xs c) (receive-more ys)
    ∙ ap (and_then (more ys)) (receive-more xs c)
    ∙ resumed (length (c.buffer ++ xs)) ys (extend xs c) (omega arith)
    ∙ ap (λ b. run (record c { buffer = b })) (append_assoc c.buffer xs ys)
    ∙ sym (receive-more (xs ++ ys) c)
