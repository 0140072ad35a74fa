-- ===== src/Prelude/Words/RoundTrip.antt =====
-- A number that was written is read back, and so is a text.
use Prim.Native.Nat.{ℕ, ◌+◌, ◌*◌, ◌/◌, ◌%◌, ◌^◌, ◌<◌, ◌≤◌}
use mathlib.Core.Path.{◌≡◌, refl}
use mathlib.Core.Bool.{false, not}
use mathlib.Core.List.{List, [], ◌∷◌, ◌++◌}
use mathlib.Core.Option.{Option, some, none, some-injective}
use native.Mathlib.Omega.{arith}
use tunnelfolio.Prelude.Text.{Text}
use tunnelfolio.Prelude.Lists.{All, keep, length, drop}
use tunnelfolio.Prelude.Words.{
  AreBytes, put_uint64, uint64_of, url_letter, url_value, url_encode, url_values, url_bytes,
  url_decode, is_break,
}

pub uint64_of-put_uint64 : (v : ℕ) (rest : Text) → v < 2 ^ 64 → uint64_of (put_uint64 v ++ rest) ≡ v
unfolding uint64_of put_uint64
uint64_of-put_uint64 v rest h = omega arith

pub put_uint64-AreBytes : (v : ℕ) → AreBytes (put_uint64 v)
unfolding put_uint64
put_uint64-AreBytes v = omega arith

url_value-url_letter : (n : ℕ) → n < 64 → url_value (url_letter n) ≡ some n
unfolding url_value url_letter
url_value-url_letter n h = ground arith

is_break-url_letter : (n : ℕ) → is_break (url_letter n) ≡ false
unfolding url_letter
is_break-url_letter n = ground arith

-- The six-bit numbers of the bytes.
sextets : Text → List ℕ
sextets [] = []
sextets (a ∷ []) = a / 4 ∷ a % 4 * 16 ∷ []
sextets (a ∷ b ∷ []) = a / 4 ∷ (a % 4 * 16 + b / 16) ∷ b % 16 * 4 ∷ []
sextets (a ∷ b ∷ c ∷ rest) =
    a / 4 ∷ (a % 4 * 16 + b / 16) ∷ (b % 16 * 4 + c / 64) ∷ c % 64 ∷ sextets rest

url_letters : List ℕ → Text
url_letters [] = []
url_letters (n ∷ ns) = url_letter n ∷ url_letters ns

url_encode-sextets : (bytes : Text) → url_encode bytes ≡ url_letters (sextets bytes)
unfolding url_encode sextets url_letters
url_encode-sextets [] = refl
url_encode-sextets (a ∷ []) = refl
url_encode-sextets (a ∷ b ∷ []) = refl
url_encode-sextets (a ∷ b ∷ c ∷ rest) = rw (url_encode-sextets rest)

sextets-lt : (bytes : Text) → AreBytes bytes → All (λ n. n < 64) (sextets bytes)
unfolding sextets
sextets-lt [] h = tt
sextets-lt (a ∷ []) h = omega arith
sextets-lt (a ∷ b ∷ []) h = omega arith
sextets-lt (a ∷ b ∷ c ∷ rest) h =
    (omega arith, (omega arith, (omega arith, (omega arith, sextets-lt rest h.1.1.1))))

keep-url_letters : (ns : List ℕ) → keep (λ c. not (is_break c)) (url_letters ns) ≡ url_letters ns
unfolding url_letters
keep-url_letters [] = refl
keep-url_letters (n ∷ ns) = rw (is_break-url_letter n, keep-url_letters ns)

url_values-url_letters :
    (ns : List ℕ) → All (λ n. n < 64) ns → url_values (url_letters ns) ≡ some ns
unfolding url_values url_letters
url_values-url_letters [] h = refl
url_values-url_letters (n ∷ ns) h =
    ground (arith, url_value-url_letter n h.0, url_values-url_letters ns h.1)

url_bytes-sextets : (bytes : Text) → AreBytes bytes → url_bytes (sextets bytes) ≡ some bytes
unfolding url_bytes sextets
url_bytes-sextets [] h = refl
url_bytes-sextets (a ∷ []) h = ground arith
url_bytes-sextets (a ∷ b ∷ []) h = ground arith
url_bytes-sextets (a ∷ b ∷ c ∷ rest) h = rw (url_bytes-sextets rest h.1.1.1) (ground arith)

pub url_decode-url_encode :
    (bytes : Text) → AreBytes bytes → url_decode (url_encode bytes) ≡ some bytes
unfolding url_decode
url_decode-url_encode bytes h = ground (
  arith,
  url_encode-sextets bytes,
  keep-url_letters (sextets bytes),
  url_values-url_letters (sextets bytes) (sextets-lt bytes h),
  url_bytes-sextets bytes h,
)

url_value-lt : (c : ℕ) {v : ℕ} → url_value c ≡ some v → v < 64
unfolding url_value
url_value-lt c h = ground arith

url_values-lt : (cs : Text) {vs : List ℕ} → url_values cs ≡ some vs → All (λ n. n < 64) vs
unfolding url_values
url_values-lt [] {vs} h = rw (← some-injective _ _ h) tt
url_values-lt (c ∷ cs) {vs} h =
    values (url_value c) (url_values cs) (λ v. url_value-lt c) (λ ws. url_values-lt cs) h
  where
    values :
        (v : Option ℕ) (ws : Option (List ℕ))
        → ((n : ℕ) → v ≡ some n → n < 64)
        → ((ns : List ℕ) → ws ≡ some ns → All (λ n. n < 64) ns)
        → (elim v [ none ↦ none | some n ↦ elim ws [ none ↦ none | some ns ↦ some (n ∷ ns) ] ])
          ≡ some vs
        → All (λ n. n < 64) vs
    values none ws p q e = cc
    values (some n) none p q e = cc
    values (some n) (some ns) p q e = rw (← some-injective _ _ e) (p n refl, q ns refl)

url_bytes-AreBytes :
    (vs : List ℕ) {bytes : Text} → All (λ n. n < 64) vs → url_bytes vs ≡ some bytes → AreBytes bytes
unfolding url_bytes
url_bytes-AreBytes [] h e = rw (← some-injective _ _ e) tt
url_bytes-AreBytes (x ∷ []) h e = cc
url_bytes-AreBytes (x ∷ y ∷ []) h e = rw (← some-injective _ _ e) (omega arith)
url_bytes-AreBytes (x ∷ y ∷ z ∷ []) h e = rw (← some-injective _ _ e) (omega arith)
url_bytes-AreBytes (x ∷ y ∷ z ∷ w ∷ rest) {bytes} h e =
    last (url_bytes rest) (λ bs. url_bytes-AreBytes rest h.1.1.1.1) e
  where
    last :
        (more : Option Text)
        → ((bs : Text) → more ≡ some bs → AreBytes bs)
        → (elim more [
          | none ↦ none
          | some bs ↦ some ((x * 4 + y / 16) ∷ (y % 16 * 16 + z / 4) ∷ (z % 4 * 64 + w) ∷ bs)
        ])
          ≡ some bytes
        → AreBytes bytes
    last none p q = cc
    last (some bs) p q =
        rw (← some-injective _ _ q) (omega arith, (omega arith, (omega arith, p bs refl)))

pub url_decode-AreBytes :
    (text : Text) {bytes : Text} → url_decode text ≡ some bytes → AreBytes bytes
unfolding url_decode
url_decode-AreBytes text {bytes} h = decoded (url_values _) (λ vs. url_values-lt _) h
  where
    decoded :
        (vs : Option (List ℕ))
        → ((ns : List ℕ) → vs ≡ some ns → All (λ n. n < 64) ns)
        → (elim vs [ none ↦ none | some ns ↦ url_bytes ns ]) ≡ some bytes
        → AreBytes bytes
    decoded none p q = cc
    decoded (some ns) p q = url_bytes-AreBytes ns (p ns refl) q

-- The first eight bytes are the number that they are read as.
pub put_uint64-uint64_of :
    (bytes : Text)
    → AreBytes bytes
    → 8 ≤ length bytes
    → put_uint64 (uint64_of bytes) ++ drop 8 bytes ≡ bytes
unfolding put_uint64 uint64_of
put_uint64-uint64_of (a ∷ b ∷ c ∷ d ∷ e ∷ f ∷ g ∷ h ∷ rest) bytes long = ground arith
put_uint64-uint64_of short bytes long = absurd (omega arith)
