-- ===== src/Profiles/Id.antt =====
-- internal/profiles/model.go: `GenerateID` and `RuntimeIdentifier`, over Go's unpadded base32 with
-- its letters in lower case. The random bytes and the digest are arguments.
pub mod Shape
use tunnelfolio.Prelude.{
  ℕ, zero, suc, ◌+◌, ◌-◌, ◌*◌, ◌/◌, ◌%◌, Bool, true, false, List, [], ◌∷◌, ◌++◌, ltb, if◌then◌else◌,
}
use tunnelfolio.Prelude.Lists.{take}
use tunnelfolio.Prelude.Text.{Text, codes}

-- The letter of five bits: `strings.ToLower` of the standard alphabet.
unfoldable pub base32_letter : ℕ → ℕ
base32_letter n = if ltb n 26 then n + 97 else n + 24

-- The letters of a list of five-bit numbers.
unfoldable pub letters : List ℕ → Text
unfolding base32_letter
letters [] = []
letters (n ∷ ns) = base32_letter n ∷ letters ns

-- The five-bit numbers of the bytes, the last one filled with zero bits.
unfoldable pub quintets : Text → List ℕ
quintets [] = []
quintets (a ∷ []) = a / 8 ∷ a % 8 * 4 ∷ []
quintets (a ∷ b ∷ []) = a / 8 ∷ (a % 8 * 4 + b / 64) ∷ b / 2 % 32 ∷ b % 2 * 16 ∷ []
quintets (a ∷ b ∷ c ∷ []) =
    a / 8 ∷ (a % 8 * 4 + b / 64) ∷ b / 2 % 32 ∷ (b % 2 * 16 + c / 16) ∷ c % 16 * 2 ∷ []
quintets (a ∷ b ∷ c ∷ d ∷ []) =
    a / 8
    ∷ (a % 8 * 4 + b / 64)
    ∷ b / 2 % 32
    ∷ (b % 2 * 16 + c / 16)
    ∷ (c % 16 * 2 + d / 128)
    ∷ d / 4 % 32
    ∷ d % 4 * 8
    ∷ []
quintets (a ∷ b ∷ c ∷ d ∷ e ∷ rest) =
    a / 8
    ∷ (a % 8 * 4 + b / 64)
    ∷ b / 2 % 32
    ∷ (b % 2 * 16 + c / 16)
    ∷ (c % 16 * 2 + d / 128)
    ∷ d / 4 % 32
    ∷ (d % 4 * 8 + e / 32)
    ∷ e % 32
    ∷ quintets rest

unfoldable pub base32 : Text → Text
unfolding letters quintets
base32 bytes = letters (quintets bytes)

-- `GenerateID` from the 16 bytes that it reads.
unfoldable pub generated_id : Text → Text
unfolding base32
generated_id raw = codes "tf_" ++ base32 raw

-- `RuntimeIdentifier` from the 32 bytes of the digest.
unfoldable pub runtime_identifier : Text → Text
unfolding base32
runtime_identifier digest = codes "tf" ++ take 12 (base32 digest)
