-- ===== src/Gateway/RoundTrip.antt =====
-- What a client sends, by RFC 6455, is what the gateway reads: a masked frame whose length stands in
-- seven bits, in two bytes or in eight.
use ctreader.Prelude.{
  ℕ, zero, suc, ◌+◌, ◌*◌, ◌/◌, ◌%◌, ◌≡◌, ◌≤◌, ◌<◌, refl, sym, ap, ◌∙◌, inl, inr, true, false, List,
  [], ◌∷◌, ◌++◌, arith, length, length-append, ltb, leb, ◌==◌, All, Bool-cases, take, drop,
  if◌then◌else◌,
}
use ctreader.Gateway.{frame, xor_bits, xor_byte, read_be, write_be, unmask, read_body, read_front}

low_bits : ℕ → ℕ → ℕ
low_bits zero a = 0
low_bits (suc n) a = a % 2 + 2 * low_bits n (a / 2)

-- The `n` lowest bits of `masked` are those of `a` and `b`, exclusive or.
abbrev pub IsXor : ℕ → ℕ → ℕ → ℕ → Type 0
IsXor zero a b masked = Unit
IsXor (suc n) a b masked = (masked % 2 ≡ (a % 2 + b % 2) % 2) × IsXor n (a / 2) (b / 2) (masked / 2)

-- Octet `i` of the masked payload is octet `i` of the payload XOR octet `i % 4` of the key, by section
-- 5.3 of RFC 6455: the key's octets take turns.
abbrev pub IsMasked : ℕ → ℕ → ℕ → ℕ → List ℕ → List ℕ → Type 0
IsMasked a b c d [] masked = masked ≡ []
IsMasked a b c d (x ∷ payload) masked =
    (y : ℕ) × (ys : List ℕ) × (masked ≡ y ∷ ys) × IsXor 8 x a y × IsMasked b c d a payload ys

bit_back : (a b y : ℕ) → y % 2 ≡ (a % 2 + b % 2) % 2 → (y % 2 + b % 2) % 2 ≡ a % 2
bit_back a b y h = omega arith

-- The mask is taken off.
xor_back : (n a b y : ℕ) → IsXor n a b y → xor_bits n y b ≡ low_bits n a
unfolding xor_bits low_bits
xor_back zero a b y h = refl
xor_back (suc n) a b y (bit, rest) =
    rw (bit_back a b y bit, xor_back n (a / 2) (b / 2) (y / 2) rest) refl

low_byte : (a : ℕ) → a < 256 → low_bits 8 a ≡ a
unfolding low_bits
low_byte a h = omega arith

xor_byte_back : (a b y : ℕ) → a < 256 → IsXor 8 a b y → xor_byte y b ≡ a
unfolding xor_byte
xor_byte_back a b y h bits = xor_back 8 a b y bits ∙ low_byte a h

abbrev pub IsByte : ℕ → Type 0
IsByte b = b < 256

unmask_back :
    (a b c d : ℕ) (xs ys : List ℕ) → All IsByte xs → IsMasked a b c d xs ys → unmask a b c d ys ≡ xs
unfolding unmask
unmask_back a b c d [] ys h masked = rw masked refl
unmask_back a b c d (x ∷ xs) ys (here, rest) (y, zs, e, bits, masked) =
    rw (e, xor_byte_back x a y here bits, unmask_back b c d a xs zs rest masked) refl

length-IsMasked : (a b c d : ℕ) (xs ys : List ℕ) → IsMasked a b c d xs ys → length ys ≡ length xs
length-IsMasked a b c d [] ys masked = rw masked refl
length-IsMasked a b c d (x ∷ xs) ys (y, zs, e, _, masked) =
    rw e (ap suc (length-IsMasked b c d a xs zs masked))

high_bytes : ℕ → ℕ → ℕ
high_bytes zero n = n
high_bytes (suc k) n = high_bytes k (n / 256)

length-write_be : (k n : ℕ) → length (write_be k n) ≡ k
unfolding write_be
length-write_be zero n = refl
length-write_be (suc k) n =
    omega
      (arith, length-append (write_be k (n / 256)) ((n % 256) ∷ []), length-write_be k (n / 256))

read_be-snoc :
    (k acc : ℕ) (xs : List ℕ) (b : ℕ) (ys : List ℕ)
    → length xs ≡ k
    → read_be (suc k) acc ((xs ++ (b ∷ [])) ++ ys) ≡ read_be k acc (xs ++ []) * 256 + b
unfolding read_be
read_be-snoc zero acc [] b ys h = refl
read_be-snoc zero acc (x ∷ xs) b ys h = absurd (omega arith)
read_be-snoc (suc k) acc [] b ys h = absurd (omega arith)
read_be-snoc (suc k) acc (x ∷ xs) b ys h = read_be-snoc k (acc * 256 + x) xs b ys (omega arith)

read_be-write_be :
    (k n : ℕ) (ys : List ℕ) → high_bytes k n ≡ 0 → read_be k 0 (write_be k n ++ ys) ≡ n
unfolding read_be write_be high_bytes
read_be-write_be zero n ys h = sym h
read_be-write_be (suc k) n ys h =
    read_be-snoc k 0 (write_be k (n / 256)) (n % 256) ys (length-write_be k (n / 256))
    ∙ ap (λ m. m * 256 + n % 256) (read_be-write_be k (n / 256) [] h)
    ∙ omega arith

-- The header of a client's frame by RFC 6455.
abbrev pub client_header : ℕ → ℕ → List ℕ
client_header opcode size =
    if ltb size 126
    then (128 + opcode) ∷ (128 + size) ∷ []
    else if leb size 65535
    then (128 + opcode) ∷ 254 ∷ write_be 2 size
    else (128 + opcode) ∷ 255 ∷ write_be 8 size

drop-length : (xs ys : List ℕ) → drop (length xs) (xs ++ ys) ≡ ys
drop-length [] ys = refl
drop-length (x ∷ xs) ys = drop-length xs ys

take-length : (xs ys : List ℕ) → take (length xs) (xs ++ ys) ≡ xs
take-length [] ys = refl
take-length (x ∷ xs) ys = ap (λ t. x ∷ t) (take-length xs ys)

drop-past :
    (header : List ℕ) (a b c d : ℕ) (masked_tail : List ℕ)
    → drop (length header + 4) (header ++ (a ∷ b ∷ c ∷ d ∷ masked_tail)) ≡ masked_tail
drop-past [] a b c d masked_tail = refl
drop-past (x ∷ header) a b c d masked_tail =
    let e : suc (length header) + 4 ≡ suc (length header + 4) = omega arith in
    ap (λ m. drop m (x ∷ header ++ (a ∷ b ∷ c ∷ d ∷ masked_tail))) e
    ∙ drop-past header a b c d masked_tail

whole_long :
    (header masked rest : List ℕ) (a b c d offset size : ℕ)
    → offset ≡ length header
    → size ≡ length masked
    → ltb (length (header ++ (a ∷ b ∷ c ∷ d ∷ (masked ++ rest)))) (offset + 4 + size) ≡ false
whole_long header masked rest a b c d offset size o s =
    ground
      (arith, length-append header (a ∷ b ∷ c ∷ d ∷ (masked ++ rest)), length-append masked rest)

-- A masked body behind a header of any length is read back.
body_back :
    (opcode a b c d : ℕ) (header payload masked rest : List ℕ) (size offset : ℕ)
    → All IsByte payload
    → IsMasked a b c d payload masked
    → size ≡ length payload
    → offset ≡ length header
    → read_body true opcode true size offset (header ++ (a ∷ b ∷ c ∷ d ∷ (masked ++ rest)))
      ≡ frame true opcode payload rest
unfolding read_body
body_back opcode a b c d header payload masked rest size offset bytes mask s o =
    let same : size ≡ length masked = s ∙ sym (length-IsMasked a b c d payload masked mask) in
    let masked_tail = a ∷ b ∷ c ∷ d ∷ (masked ++ rest) in
    let whole : ltb (length (header ++ masked_tail)) (offset + 4 + size) ≡ false =
      whole_long header masked rest a b c d offset size o same in
    rw
      (
        whole,
        o,
        drop-length header masked_tail,
        drop-past header a b c d (masked ++ rest),
        same,
        take-length masked rest,
        drop-length masked rest,
        unmask_back a b c d payload masked bytes mask,
      )
      refl

first_byte :
    (opcode : ℕ) → opcode < 16 → (leb 128 (128 + opcode) ≡ true) × ((128 + opcode) % 16 ≡ opcode)
first_byte opcode h = (ground arith, omega arith)

seven_bits :
    (n : ℕ)
    → ltb n 126 ≡ true
    → (leb 128 (128 + n) ≡ true)
      × ((128 + n) % 128 ≡ n)
      × ((n == 126) ≡ false)
      × ((n == 127) ≡ false)
seven_bits n h = (ground arith, ground arith, ground arith, ground arith)

-- The three headers.
front_seven :
    (opcode n : ℕ) (xs : List ℕ)
    → opcode < 16
    → ltb n 126 ≡ true
    → read_front ((128 + opcode) ∷ (128 + n) ∷ xs)
      ≡ read_body true opcode true n 2 ((128 + opcode) ∷ (128 + n) ∷ xs)
unfolding read_front
front_seven opcode n xs h k =
    let (fin, op) = first_byte opcode h in
    let (masked, same, a, b) = seven_bits n k in rw (same, a, b, fin, op, masked) refl

front_two :
    (opcode : ℕ) (xs : List ℕ)
    → opcode < 16
    → ltb (length xs) 2 ≡ false
    → read_front ((128 + opcode) ∷ 254 ∷ xs)
      ≡ read_body true opcode true (read_be 2 0 xs) 4 ((128 + opcode) ∷ 254 ∷ xs)
unfolding read_front
front_two opcode xs h k =
    let (fin, op) = first_byte opcode h in
    let enough : ltb (suc (suc (length xs))) 4 ≡ false = ground arith in rw (enough, fin, op) refl

front_eight :
    (opcode : ℕ) (xs : List ℕ)
    → opcode < 16
    → ltb (length xs) 8 ≡ false
    → ltb 1048576 (read_be 8 0 xs) ≡ false
    → read_front ((128 + opcode) ∷ 255 ∷ xs)
      ≡ read_body true opcode true (read_be 8 0 xs) 10 ((128 + opcode) ∷ 255 ∷ xs)
unfolding read_front
front_eight opcode xs h k small =
    let (fin, op) = first_byte opcode h in
    let enough : ltb (suc (suc (length xs))) 10 ≡ false = ground arith in
    rw (enough, small, fin, op) refl

-- The bytes of a length, read back.
length_back :
    (k n : ℕ) (ys : List ℕ)
    → high_bytes k n ≡ 0
    → (read_be k 0 (write_be k n ++ ys) ≡ n) × (ltb (length (write_be k n ++ ys)) k ≡ false)
length_back k n ys h = (
  read_be-write_be k n ys h,
  ground (arith, length-append (write_be k n) ys, length-write_be k n),
)

high_two : (n : ℕ) → n ≤ 65535 → high_bytes 2 n ≡ 0
unfolding high_bytes
high_two n h = omega arith

high_eight : (n : ℕ) → n ≤ 1048576 → high_bytes 8 n ≡ 0
unfolding high_bytes
high_eight n h = omega arith

module _ (opcode a b c d : ℕ) (payload masked rest : List ℕ) where
  abbrev pub masked_tail : List ℕ
  masked_tail = a ∷ b ∷ c ∷ d ∷ (masked ++ rest)

  back_seven :
      opcode < 16
      → All IsByte payload
      → IsMasked a b c d payload masked
      → ltb (length payload) 126 ≡ true
      → read_front ((128 + opcode) ∷ (128 + length payload) ∷ masked_tail)
        ≡ frame true opcode payload rest
  back_seven small bytes mask h =
      front_seven opcode (length payload) masked_tail small h
      ∙ body_back opcode a b c d ((128 + opcode) ∷ (128 + length payload) ∷ []) payload masked rest
          (length payload) 2 bytes mask refl refl

  back_two :
      opcode < 16
      → All IsByte payload
      → IsMasked a b c d payload masked
      → length payload ≤ 65535
      → read_front ((128 + opcode) ∷ 254 ∷ (write_be 2 (length payload) ++ masked_tail))
        ≡ frame true opcode payload rest
  back_two small bytes mask h =
      let n = length payload in
      let (back, enough) = length_back 2 n masked_tail (high_two n h) in
      front_two opcode (write_be 2 n ++ masked_tail) small enough
      ∙ body_back opcode a b c d ((128 + opcode) ∷ 254 ∷ write_be 2 n) payload masked rest
          (read_be 2 0 (write_be 2 n ++ masked_tail)) 4 bytes mask back
          (ap (λ m. suc (suc m)) (sym (length-write_be 2 n)))

  back_eight :
      opcode < 16
      → All IsByte payload
      → IsMasked a b c d payload masked
      → length payload ≤ 1048576
      → read_front ((128 + opcode) ∷ 255 ∷ (write_be 8 (length payload) ++ masked_tail))
        ≡ frame true opcode payload rest
  back_eight small bytes mask h =
      let n = length payload in
      let (back, enough) = length_back 8 n masked_tail (high_eight n h) in
      let fits : ltb 1048576 (read_be 8 0 (write_be 8 n ++ masked_tail)) ≡ false =
        rw back (ground arith) in
      front_eight opcode (write_be 8 n ++ masked_tail) small enough fits
      ∙ body_back opcode a b c d ((128 + opcode) ∷ 255 ∷ write_be 8 n) payload masked rest
          (read_be 8 0 (write_be 8 n ++ masked_tail)) 10 bytes mask back
          (ap (λ m. suc (suc m)) (sym (length-write_be 8 n)))

  -- A whole frame of a client, with at most a mebibyte of payload, each octet of it XOR the octet of the
  -- key whose turn it is, is read from the front of the buffer as the payload before it was masked,
  -- and what stands behind it is left.
  pub read_front-client_frame :
      opcode < 16
      → All IsByte payload
      → IsMasked a b c d payload masked
      → length payload ≤ 1048576
      → read_front (client_header opcode (length payload) ++ masked_tail)
        ≡ frame true opcode payload rest
  read_front-client_frame small bytes mask limit = elim (Bool-cases (ltb (length payload) 126)) [
    | inl seven ↦ rw seven (back_seven small bytes mask seven)
    | inr larger ↦ elim (Bool-cases (leb (length payload) 65535)) [
      | inl two ↦ rw (larger, two) (back_two small bytes mask (ground arith))
      | inr eight ↦ rw (larger, eight) (back_eight small bytes mask limit)
    ]
  ]
