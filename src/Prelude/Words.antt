-- ===== src/Prelude/Words.antt =====
-- What the code uses of Go's `encoding/binary` and of the raw URL alphabet of `encoding/base64`, over
-- texts of bytes.
pub mod RoundTrip
use Prim.Native.Nat.{ℕ, zero, suc, ◌+◌, ◌-◌, ◌*◌, ◌/◌, ◌%◌, ◌^◌, ◌<◌}
use mathlib.Core.Bool.{Bool, ◌&&◌, ◌||◌, not}
use mathlib.Core.List.{List, [], ◌∷◌, ◌++◌}
use mathlib.Core.Option.{Option, none, some}
use tunnelfolio.Prelude.Tests.{ltb, leb, ◌==◌, if◌then◌else◌}
use tunnelfolio.Prelude.Text.{Text}
use tunnelfolio.Prelude.Lists.{All, keep}

abbrev pub AreBytes : Text → Type 0
AreBytes = All (λ b. b < 256)

-- `binary.BigEndian.PutUint64`
unfoldable pub put_uint64 : ℕ → Text
put_uint64 v =
    v / 2 ^ 56 % 256
    ∷ v / 2 ^ 48 % 256
    ∷ v / 2 ^ 40 % 256
    ∷ v / 2 ^ 32 % 256
    ∷ v / 2 ^ 24 % 256
    ∷ v / 2 ^ 16 % 256
    ∷ v / 2 ^ 8 % 256
    ∷ v % 256
    ∷ []

-- `binary.BigEndian.Uint64` of the first eight bytes; a shorter text is a panic, which is 0 here.
unfoldable pub uint64_of : Text → ℕ
uint64_of (a ∷ b ∷ c ∷ d ∷ e ∷ f ∷ g ∷ h ∷ rest) =
    a * 2 ^ 56 + b * 2 ^ 48 + c * 2 ^ 40 + d * 2 ^ 32 + e * 2 ^ 24 + f * 2 ^ 16 + g * 2 ^ 8 + h
uint64_of _ = 0

-- `base64.RawURLEncoding`: the letter of six bits, and the six bits of a letter.
unfoldable pub url_letter : ℕ → ℕ
url_letter n =
    if ltb n 26
    then n + 65
    else if ltb n 52
    then n + 71
    else if ltb n 62
    then n - 4
    else if n == 62
    then b'-'
    else b'_'

unfoldable pub url_value : ℕ → Option ℕ
url_value c =
    if leb b'A' c && leb c b'Z'
    then some (c - 65)
    else if leb b'a' c && leb c b'z'
    then some (c - 71)
    else if leb b'0' c && leb c b'9'
    then some (c + 4)
    else if c == b'-'
    then some 62
    else if c == b'_'
    then some 63
    else none

-- `EncodeToString`
unfoldable pub url_encode : Text → Text
url_encode [] = []
url_encode (a ∷ []) = url_letter (a / 4) ∷ url_letter (a % 4 * 16) ∷ []
url_encode (a ∷ b ∷ []) =
    url_letter (a / 4) ∷ url_letter (a % 4 * 16 + b / 16) ∷ url_letter (b % 16 * 4) ∷ []
url_encode (a ∷ b ∷ c ∷ rest) =
    url_letter (a / 4)
    ∷ url_letter (a % 4 * 16 + b / 16)
    ∷ url_letter (b % 16 * 4 + c / 64)
    ∷ url_letter (c % 64)
    ∷ url_encode rest

-- The values of the letters, if each is one.
unfoldable pub url_values : Text → Option (List ℕ)
url_values [] = some []
url_values (c ∷ cs) = elim (url_value c) [
  | none ↦ none
  | some v ↦ elim (url_values cs) [ none ↦ none | some vs ↦ some (v ∷ vs) ]
]

-- The bytes of the values: bits left over at the end are dropped, a single value left over is an error.
unfoldable pub url_bytes : List ℕ → Option Text
url_bytes [] = some []
url_bytes (x ∷ []) = none
url_bytes (x ∷ y ∷ []) = some ((x * 4 + y / 16) ∷ [])
url_bytes (x ∷ y ∷ z ∷ []) = some ((x * 4 + y / 16) ∷ (y % 16 * 16 + z / 4) ∷ [])
url_bytes (x ∷ y ∷ z ∷ w ∷ rest) = elim (url_bytes rest) [
  | none ↦ none
  | some bytes ↦ some ((x * 4 + y / 16) ∷ (y % 16 * 16 + z / 4) ∷ (z % 4 * 64 + w) ∷ bytes)
]

abbrev pub is_break : ℕ → Bool
is_break c = c == 10 || c == 13

-- `DecodeString`, which skips line breaks wherever they stand.
unfoldable pub url_decode : Text → Option Text
unfolding url_values url_bytes
url_decode text = elim (url_values (keep (λ c. not (is_break c)) text)) [
  | none ↦ none
  | some vs ↦ url_bytes vs
]
