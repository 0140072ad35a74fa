-- ===== src/Prelude/Net.antt =====
-- What the code uses of Go's `net`, `strconv` and `encoding/base64` packages, over texts.
use Prim.Native.Nat.{ℕ, ◌+◌, ◌-◌, ◌*◌, ◌/◌, ◌%◌, ◌^◌}
use mathlib.Core.Bool.{Bool, false, ◌&&◌, ◌||◌, not}
use mathlib.Core.List.{List, [], ◌∷◌}
use mathlib.Core.Option.{Option, none, some}
use tunnelfolio.Prelude.Tests.{ltb, leb, ◌==◌, if◌then◌else◌}
use tunnelfolio.Prelude.Text.{Text, is_empty}

-- `strings.IndexByte(s, c) >= 0`
unfoldable pub has_byte : ℕ → Text → Bool
has_byte c [] = false
has_byte c (x ∷ xs) = x == c || has_byte c xs

-- `strings.Cut` at one byte: `none` where it is not found.
unfoldable pub cut : ℕ → Text → Option (Text × Text)
cut c [] = none
cut c (x ∷ xs) =
    let rest = cut c xs in
    if x == c then some ([], xs) else (elim rest [ none ↦ none | some (a, b) ↦ some (x ∷ a, b) ])

-- `strings.Split` at one byte.
unfoldable pub split : ℕ → Text → List Text
split c [] = [] ∷ []
split c (x ∷ xs) =
    let rest = split c xs in
    if x == c then [] ∷ rest else (elim rest [ [] ↦ (x ∷ []) ∷ [] | l ∷ ls ↦ (x ∷ l) ∷ ls ])

-- `net.SplitHostPort`: host and port, or `none` for its error.
abbrev pub bracketed : Text → Option (Text × Text)
bracketed rest = elim (cut b']' rest) [
  | none ↦ none
  | some (host, tail) ↦ elim (cut b':' tail) [
    | none ↦ none
    | some (between, port) ↦
        if not (is_empty between) || has_byte b':' port || has_byte b'[' rest || has_byte b']' tail
        then none
        else some (host, port)
  ]
]

abbrev pub unbracketed : Text → Option (Text × Text)
unbracketed address = elim (cut b':' address) [
  | none ↦ none
  | some (host, port) ↦
      if has_byte b':' port || has_byte b'[' address || has_byte b']' address
      then none
      else some (host, port)
]

unfoldable pub split_host_port : Text → Option (Text × Text)
unfolding cut has_byte
split_host_port [] = none
split_host_port (c ∷ rest) = if c == b'[' then bracketed rest else unbracketed (c ∷ rest)

abbrev pub uint64_mod : ℕ
uint64_mod = 2 ^ 64

-- `strconv.ParseUint(value, 10, 64)`: `none` on an empty text, another byte or an overflow.
unfoldable pub parse_digits : ℕ → Text → Option ℕ
parse_digits n [] = some n
parse_digits n (c ∷ cs) =
    let next = n * 10 + (c - b'0') in
    let rest = parse_digits next cs in
    if leb b'0' c && leb c b'9' && ltb next uint64_mod then rest else none

unfoldable pub parse_uint : Text → Option ℕ
unfolding parse_digits
parse_uint value = if is_empty value then none else parse_digits 0 value

-- `base64.StdEncoding`: the six bits of a letter, and the letter of six bits.
unfoldable pub base64_value : ℕ → Option ℕ
base64_value c =
    if leb b'A' c && leb c b'Z'
    then some (c - 65)
    else if leb b'a' c && leb c b'z'
    then some (c - 71)
    else if leb b'0' c && leb c b'9'
    then some (c + 4)
    else if c == b'+'
    then some 62
    else if c == b'/'
    then some 63
    else none

unfoldable pub base64_letter : ℕ → ℕ
base64_letter n =
    if ltb n 26
    then n + 65
    else if ltb n 52
    then n + 71
    else if ltb n 62
    then n - 4
    else if n == 62
    then b'+'
    else b'/'

unfoldable pub base64_encode : Text → Text
unfolding base64_letter
base64_encode [] = []
base64_encode (a ∷ []) = base64_letter (a / 4) ∷ base64_letter (a % 4 * 16) ∷ b'=' ∷ b'=' ∷ []
base64_encode (a ∷ b ∷ []) =
    base64_letter (a / 4)
    ∷ base64_letter (a % 4 * 16 + b / 16)
    ∷ base64_letter (b % 16 * 4)
    ∷ b'='
    ∷ []
base64_encode (a ∷ b ∷ c ∷ rest) =
    base64_letter (a / 4)
    ∷ base64_letter (a % 4 * 16 + b / 16)
    ∷ base64_letter (b % 16 * 4 + c / 64)
    ∷ base64_letter (c % 64)
    ∷ base64_encode rest

abbrev pub bits : Option ℕ → Option ℕ → (ℕ → ℕ → Option Text) → Option Text
bits (some a) (some b) f = f a b
bits _ _ f = none

-- `DecodeString` on a text with no line break, which the decoder would skip.
unfoldable pub base64_decode : Text → Option Text
unfolding base64_value
base64_decode [] = some []
base64_decode (a ∷ b ∷ c ∷ d ∷ rest) =
    let more = base64_decode rest in
    bits (base64_value a) (base64_value b) λ x y.
      if d == b'='
      then (if not (is_empty rest)
          then none
          else if c == b'='
          then some ((x * 4 + y / 16) ∷ [])
          else bits (base64_value c) (some 0)
              λ z _. some ((x * 4 + y / 16) ∷ (y % 16 * 16 + z / 4) ∷ []))
      else bits (base64_value c) (base64_value d) λ z w. elim more [
        | none ↦ none
        | some bytes ↦ some ((x * 4 + y / 16) ∷ (y % 16 * 16 + z / 4) ∷ (z % 4 * 64 + w) ∷ bytes)
      ]
base64_decode _ = none
