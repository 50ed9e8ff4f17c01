-- ===== src/Crypto.antt =====
-- src/common/crypto.ts: how a pairing code is made of random bytes, and what a claim makes of the
-- text that a terminal sends. A text is the list of the codes of its characters. The HMAC of
-- `hashSecret` with the server's pepper is a parameter wherever it is used; tokens are random and
-- only their hashes are kept.
use ctreader.Prelude.{
  ℕ, ◌-◌, ◌%◌, ◌<◌, ◌≡◌, refl, Bool, true, ◌&&◌, ◌||◌, List, [], ◌∷◌, zero, suc, arith, leb, ◌==◌,
  all, length, if◌then◌else◌, ap,
}

-- "ABCDEFGHJKLMNPQRSTUVWXYZ23456789": the letters without I and O, the digits without 0 and 1.
abbrev pub pairing_alphabet : List ℕ
pairing_alphabet =
    65 ∷ 66 ∷ 67 ∷ 68 ∷ 69 ∷ 70 ∷ 71 ∷ 72 ∷ 74 ∷ 75 ∷ 76 ∷ 77 ∷ 78 ∷ 80 ∷ 81 ∷ 82 ∷ 83 ∷ 84 ∷ 85
    ∷ 86 ∷ 87 ∷ 88 ∷ 89 ∷ 90 ∷ 50 ∷ 51 ∷ 52 ∷ 53 ∷ 54 ∷ 55 ∷ 56 ∷ 57 ∷ []

-- The entry at an index; past the end there is none, and the source would add "undefined".
unfoldable pub char_at : List ℕ → ℕ → ℕ
char_at [] i = 0
char_at (c ∷ cs) zero = c
char_at (c ∷ cs) (suc i) = char_at cs i

-- `createPairingCode`, from its random bytes.
unfoldable pub create_pairing_code : List ℕ → List ℕ
unfolding char_at
create_pairing_code [] = []
create_pairing_code (byte ∷ bytes) =
    char_at pairing_alphabet (byte % length pairing_alphabet) ∷ create_pairing_code bytes

-- `/[A-Z2-9]/` of the claims' dto.
abbrev pub is_code_char : ℕ → Bool
is_code_char c = (leb 65 c && leb c 90) || (leb 50 c && leb c 57)

-- `@Length(8, 8) @Matches(/^[A-Z2-9]+$/)`.
abbrev pub is_pairing_code : List ℕ → Bool
is_pairing_code code = length code == 8 && all is_code_char code

-- `toUpperCase`, on ASCII; the dto lets no other text through.
unfoldable pub to_upper_case : List ℕ → List ℕ
to_upper_case [] = []
to_upper_case (c ∷ cs) = (if leb 97 c && leb c 122 then c - 32 else c) ∷ to_upper_case cs

all-char_at :
    (p : ℕ → Bool) (cs : List ℕ) (i : ℕ) → all p cs ≡ true → i < length cs → p (char_at cs i) ≡ true
unfolding char_at
all-char_at p [] i h lt = absurd (omega arith)
all-char_at p (c ∷ cs) zero h lt = ground arith
all-char_at p (c ∷ cs) (suc i) h lt = all-char_at p cs i (ground arith) (omega arith)

create_pairing_code-all : (bytes : List ℕ) → all is_code_char (create_pairing_code bytes) ≡ true
unfolding create_pairing_code
create_pairing_code-all [] = refl
create_pairing_code-all (byte ∷ bytes) = ground (
  arith,
  all-char_at is_code_char pairing_alphabet (byte % 32) refl (omega arith),
  create_pairing_code-all bytes,
)

create_pairing_code-length : (bytes : List ℕ) → length (create_pairing_code bytes) ≡ length bytes
unfolding create_pairing_code
create_pairing_code-length [] = refl
create_pairing_code-length (byte ∷ bytes) = ap suc (create_pairing_code-length bytes)

to_upper_case-keeps : (cs : List ℕ) → all is_code_char cs ≡ true → to_upper_case cs ≡ cs
unfolding to_upper_case
to_upper_case-keeps [] h = refl
to_upper_case-keeps (c ∷ cs) h = ground (arith, to_upper_case-keeps cs)

-- A code made of eight bytes passes the claims' validation, and the claim looks it up as it is.
pub create_pairing_code-valid :
    (bytes : List ℕ)
    → length bytes ≡ 8
    → (is_pairing_code (create_pairing_code bytes) ≡ true)
      × (to_upper_case (create_pairing_code bytes) ≡ create_pairing_code bytes)
create_pairing_code-valid bytes h = (
  ground (arith, create_pairing_code-length bytes, create_pairing_code-all bytes),
  to_upper_case-keeps (create_pairing_code bytes) (create_pairing_code-all bytes),
)
