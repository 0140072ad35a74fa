-- ===== src/Profiles/Id/Shape.antt =====
-- Generated identifiers have the shape that the manifest's checks ask for.
use tunnelfolio.Prelude.{ℕ, zero, suc, ◌+◌, ◌*◌, ◌≤◌, ◌<◌, true, List, [], ◌∷◌, ◌≡◌, refl, arith}
use tunnelfolio.Prelude.Lists.{length, take, All}
use tunnelfolio.Prelude.Text.{Text}
use tunnelfolio.Profiles.Model.{is_base32, all_bytes, id_pattern, identifier_pattern}
use tunnelfolio.Profiles.Id.{base32_letter, letters, quintets, generated_id, runtime_identifier}

abbrev pub AreBytes : Text → Type 0
AreBytes = All (λ b. b < 256)

quintets-lt : (bytes : Text) → AreBytes bytes → All (λ n. n < 32) (quintets bytes)
unfolding quintets
quintets-lt [] h = tt
quintets-lt (a ∷ []) h = omega arith
quintets-lt (a ∷ b ∷ []) h = omega arith
quintets-lt (a ∷ b ∷ c ∷ []) h = omega arith
quintets-lt (a ∷ b ∷ c ∷ d ∷ []) h = omega arith
quintets-lt (a ∷ b ∷ c ∷ d ∷ e ∷ rest) h = (
  omega arith,
  (
    omega arith,
    (
      omega arith,
      (
        omega arith,
        (omega arith, (omega arith, (omega arith, (omega arith, quintets-lt rest h.1.1.1.1.1)))),
      ),
    ),
  ),
)

-- Eight bits of a byte are spread over letters of five.
length-quintets :
    (bytes : Text)
    → (8 * length bytes ≤ 5 * length (quintets bytes))
      × (5 * length (quintets bytes) < 8 * length bytes + 5)
unfolding quintets
length-quintets [] = omega arith
length-quintets (a ∷ []) = omega arith
length-quintets (a ∷ b ∷ []) = omega arith
length-quintets (a ∷ b ∷ c ∷ []) = omega arith
length-quintets (a ∷ b ∷ c ∷ d ∷ []) = omega arith
length-quintets (a ∷ b ∷ c ∷ d ∷ e ∷ rest) = omega (arith, length-quintets rest)

length-letters : (ns : List ℕ) → length (letters ns) ≡ length ns
unfolding letters
length-letters [] = refl
length-letters (n ∷ ns) = omega (arith, length-letters ns)

is_base32-base32_letter : (n : ℕ) → n < 32 → is_base32 (base32_letter n) ≡ true
unfolding is_base32 base32_letter
is_base32-base32_letter n h = ground arith

all_bytes-letters : (ns : List ℕ) → All (λ n. n < 32) ns → all_bytes is_base32 (letters ns) ≡ true
unfolding all_bytes letters
all_bytes-letters [] h = refl
all_bytes-letters (n ∷ ns) h =
    ground (arith, is_base32-base32_letter n h.0, all_bytes-letters ns h.1)

all_bytes-take :
    (k : ℕ) (s : Text) → all_bytes is_base32 s ≡ true → all_bytes is_base32 (take k s) ≡ true
unfolding all_bytes
all_bytes-take zero s h = refl
all_bytes-take (suc k) [] h = refl
all_bytes-take (suc k) (c ∷ s) h = ground (arith, all_bytes-take k s)

-- The ID made of any 16 bytes passes the pattern of profile IDs.
pub generated_id-id_pattern :
    (raw : Text) → AreBytes raw → length raw ≡ 16 → id_pattern (generated_id raw) ≡ true
unfolding id_pattern generated_id
generated_id-id_pattern raw bytes sixteen = ground (
  arith,
  length-letters (quintets raw),
  length-quintets raw,
  all_bytes-letters (quintets raw) (quintets-lt raw bytes),
)

length-take_eq : (k : ℕ) (s : Text) → k ≤ length s → length (take k s) ≡ k
length-take_eq zero s h = refl
length-take_eq (suc k) [] h = absurd (omega arith)
length-take_eq (suc k) (c ∷ s) h = omega (arith, length-take_eq k s)

-- The runtime identifier made of any digest of 32 bytes passes the pattern of identifiers and has 14
-- bytes.
pub runtime_identifier-identifier_pattern :
    (digest : Text)
    → AreBytes digest
    → length digest ≡ 32
    → (identifier_pattern (runtime_identifier digest) ≡ true)
      × (length (runtime_identifier digest) ≡ 14)
unfolding identifier_pattern runtime_identifier
runtime_identifier-identifier_pattern digest bytes size = ground (
  arith,
  length-letters (quintets digest),
  length-quintets digest,
  length-take_eq 12 (letters (quintets digest)),
  all_bytes-take 12 (letters (quintets digest))
      (all_bytes-letters (quintets digest) (quintets-lt digest bytes)),
)
