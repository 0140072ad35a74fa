-- ===== src/Prelude/Unicode.antt =====
-- What the code uses of Go's `unicode`, `utf8` and `strings` packages. A string is its bytes; a
-- string that is valid UTF-8 is decoded once, and is then the list of its runes.
use Prim.Native.Nat.{ℕ, zero, suc, ◌+◌, ◌-◌, ◌*◌}
use mathlib.Core.Bool.{Bool, true, false, ◌&&◌, ◌||◌}
use mathlib.Core.List.{List, [], ◌∷◌, ◌++◌}
use mathlib.Core.Option.{Option, none, some}
use tunnelfolio.Prelude.Tests.{ltb, leb, ◌==◌, if◌then◌else◌}
use tunnelfolio.Prelude.Text.{Text}

-- Where the decoder stands: between two runes, or inside one with `left` bytes to come, the next of
-- them from `low` to `high`, and the bits read so far.
pub data Utf8 : Type 0 where
  ready : Utf8
  inside : ℕ → ℕ → ℕ → ℕ → Utf8

-- The first byte of a rune, by the table of the `utf8` package. `none` is an invalid byte.
first_byte : ℕ → Option (List ℕ × Utf8)
first_byte b =
    if ltb b 0x80
    then some (b ∷ [], ready)
    else if ltb b 0xC2
    then none
    else if ltb b 0xE0
    then some ([], inside 0 0x80 0xBF (b - 0xC0))
    else if b == 0xE0
    then some ([], inside 1 0xA0 0xBF 0)
    else if b == 0xED
    then some ([], inside 1 0x80 0x9F 13)
    else if ltb b 0xF0
    then some ([], inside 1 0x80 0xBF (b - 0xE0))
    else if b == 0xF0
    then some ([], inside 2 0x90 0xBF 0)
    else if ltb b 0xF4
    then some ([], inside 2 0x80 0xBF (b - 0xF0))
    else if b == 0xF4
    then some ([], inside 2 0x80 0x8F 4)
    else none

-- One byte, with the rune that it completes.
utf8_step : Utf8 → ℕ → Option (List ℕ × Utf8)
unfolding first_byte
utf8_step ready b = first_byte b
utf8_step (inside zero low high bits) b =
    if leb low b && leb b high then some ((bits * 64 + (b - 0x80)) ∷ [], ready) else none
utf8_step (inside (suc left) low high bits) b =
    if leb low b && leb b high
    then some ([], inside left 0x80 0xBF (bits * 64 + (b - 0x80)))
    else none

utf8_run : Utf8 → Text → Option (List ℕ)
unfolding utf8_step
utf8_run ready [] = some []
utf8_run (inside _ _ _ _) [] = none
utf8_run state (b ∷ bytes) = elim (utf8_step state b) [
  | none ↦ none
  | some (runes, next) ↦ elim (utf8_run next bytes) [
    | none ↦ none
    | some rest ↦ some (runes ++ rest)
  ]
]

-- The runes of a string, if `utf8.ValidString` accepts it.
unfoldable pub decode : Text → Option (List ℕ)
unfolding utf8_run
decode = utf8_run ready

-- The rune at the start of a string, with the number of bytes behind its first: `none` where
-- `utf8.DecodeRuneInString` finds no rune.
rune_from : Utf8 → ℕ → Text → Option (ℕ × ℕ)
unfolding utf8_step
rune_from state n [] = none
rune_from state n (b ∷ bytes) = elim (utf8_step state b) [
  | none ↦ none
  | some (runes, next) ↦ elim runes [ [] ↦ rune_from next (suc n) bytes | r ∷ _ ↦ some (r, n) ]
]

-- The runes behind some bytes that are skipped.
runes_behind : ℕ → Text → List ℕ
unfolding rune_from
runes_behind skip [] = []
runes_behind (suc skip) (b ∷ bytes) = runes_behind skip bytes
runes_behind zero (b ∷ bytes) = elim (rune_from ready 0 (b ∷ bytes)) [
  | none ↦ 0xFFFD ∷ runes_behind 0 bytes
  | some (r, more) ↦ r ∷ runes_behind more bytes
]

-- The runes that `range` and `strings.Map` see: an invalid byte is U+FFFD.
unfoldable pub runes_of : Text → List ℕ
unfolding runes_behind
runes_of text = runes_behind 0 text

-- `len` of the string that encodes these runes: `utf8.RuneLen` added up.
unfoldable pub byte_length : List ℕ → ℕ
byte_length [] = 0
byte_length (r ∷ runes) =
    (if ltb r 0x80 then 1 else if ltb r 0x800 then 2 else if ltb r 0x10000 then 3 else 4)
    + byte_length runes

-- `unicode.IsControl`
unfoldable pub is_control : ℕ → Bool
is_control r = ltb r 0x20 || leb 0x7F r && ltb r 0xA0

-- `unicode.IsSpace`
unfoldable pub is_space : ℕ → Bool
is_space r =
    leb 0x09 r && leb r 0x0D
    || r == 0x20
    || r == 0x85
    || r == 0xA0
    || r == 0x1680
    || leb 0x2000 r && leb r 0x200A
    || r == 0x2028
    || r == 0x2029
    || r == 0x202F
    || r == 0x205F
    || r == 0x3000

-- `strings.TrimLeftFunc`
unfoldable pub trim_left : (ℕ → Bool) → List ℕ → List ℕ
trim_left drops [] = []
trim_left drops (r ∷ runes) =
    let rest = trim_left drops runes in if drops r then rest else r ∷ runes

-- `strings.TrimRightFunc`
unfoldable pub trim_right : (ℕ → Bool) → List ℕ → List ℕ
trim_right drops [] = []
trim_right drops (r ∷ runes) =
    let rest = trim_right drops runes in
    elim rest [ [] ↦ if drops r then [] else r ∷ [] | x ∷ xs ↦ r ∷ x ∷ xs ]

-- `strings.TrimSpace`
unfoldable pub trim_space : List ℕ → List ℕ
unfolding trim_left trim_right is_space
trim_space runes = trim_right is_space (trim_left is_space runes)

-- `strings.HasPrefix`, `strings.HasSuffix` and `strings.TrimPrefix`
unfoldable pub has_prefix : List ℕ → List ℕ → Bool
has_prefix runes [] = true
has_prefix [] (_ ∷ _) = false
has_prefix (r ∷ runes) (p ∷ prefix) = r == p && has_prefix runes prefix

-- `strings.Contains`
unfoldable pub includes : List ℕ → List ℕ → Bool
unfolding has_prefix
includes [] word = has_prefix [] word
includes (r ∷ runes) word = has_prefix (r ∷ runes) word || includes runes word

-- `strings.HasSuffix` with one byte, and what is in front of it.
unfoldable pub cut_suffix : List ℕ → ℕ → Option (List ℕ)
cut_suffix [] c = none
cut_suffix (r ∷ []) c = if r == c then some [] else none
cut_suffix (r ∷ s ∷ runes) c = elim (cut_suffix (s ∷ runes) c) [
  | none ↦ none
  | some front ↦ some (r ∷ front)
]

-- `strings.TrimSuffix` with one byte.
unfoldable pub trim_suffix : List ℕ → ℕ → List ℕ
unfolding cut_suffix
trim_suffix runes c = elim (cut_suffix runes c) [ none ↦ runes | some front ↦ front ]

-- `unicode.ToLower`, exact wherever the result is ASCII: İ and the Kelvin sign have ASCII letters.
-- Every other rune outside ASCII lowers to one outside ASCII and stands for itself here; the code
-- compares lowered text with ASCII words alone.
unfoldable pub lower : ℕ → ℕ
lower r =
    if leb b'A' r && leb r b'Z'
    then r + 32
    else if r == 0x130
    then b'i'
    else if r == 0x212A
    then b'k'
    else r

-- `strings.ToLower`
unfoldable pub to_lower : List ℕ → List ℕ
unfolding lower
to_lower [] = []
to_lower (r ∷ runes) = lower r ∷ to_lower runes

-- The ASCII letter, in lower case, that a rune folds to: the long s and the Kelvin sign do too.
unfoldable pub fold : ℕ → ℕ
fold r =
    if leb b'A' r && leb r b'Z'
    then r + 32
    else if r == 0x17F
    then b's'
    else if r == 0x212A
    then b'k'
    else r

-- `strings.EqualFold` against a text that is ASCII and in lower case.
unfoldable pub equal_fold : List ℕ → List ℕ → Bool
unfolding fold
equal_fold [] [] = true
equal_fold (r ∷ runes) (t ∷ target) = fold r == t && equal_fold runes target
equal_fold _ _ = false
