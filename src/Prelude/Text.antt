-- ===== src/Prelude/Text.antt =====
-- Go strings as lists of bytes, their equality, and the lists of identifiers that stand for the
-- source's `map[string]struct{}` sets.
use Prim.Native.Char.{code}
use Prim.Native.String.{String}
use Prim.Native.Nat.{ℕ}
use mathlib.Core.Path.{◌≡◌, refl, sym}
use mathlib.Core.Logic.{◌↔◌, inl, inr, ◌≢◌}
use mathlib.Core.Logic.Or
use mathlib.Core.List.{List, [], ◌∷◌, Mem, mem-cons, not-mem-nil, Nodup, Nodup-cons, Nodup-nil}
use mathlib.Core.Bool.{Bool, true, false, ◌&&◌, ◌||◌}
use native.Mathlib.Omega.{arith}
use mathlib.Core.HLevel.{hedberg}
use tunnelfolio.Prelude.Tests.{◌==◌, if◌then◌else◌, Bool-cases}

abbrev pub Text : Type 0
Text = List ℕ

-- The bytes of an ASCII literal.
abbrev pub codes : String → Text
codes String.[] = []
codes (String.◌∷◌ c s) = code c ∷ codes s

-- `left == right` on strings.
unfoldable pub eq_text : Text → Text → Bool
eq_text [] [] = true
eq_text (x ∷ xs) (y ∷ ys) = x == y && eq_text xs ys
eq_text _ _ = false

pub eq_text_iff : (s t : Text) → (eq_text s t ≡ true) ↔ (s ≡ t)
unfolding eq_text
eq_text_iff [] [] = ground arith
eq_text_iff (x ∷ xs) (y ∷ ys) = ground (arith, eq_text_iff xs ys)
eq_text_iff [] (y ∷ ys) = ground arith
eq_text_iff (x ∷ xs) [] = ground arith

pub eq_text_refl : (s : Text) → eq_text s s ≡ true
eq_text_refl s = (eq_text_iff s s).1 refl

pub eq_text_of_ne : (s t : Text) → s ≢ t → eq_text s t ≡ false
eq_text_of_ne s t ne = elim (Bool-cases (eq_text s t)) [
  | inl e ↦ absurd (ne ((eq_text_iff s t).0 e))
  | inr e ↦ e
]

pub ne_of_eq_text : (s t : Text) → eq_text s t ≡ false → s ≢ t
ne_of_eq_text s t e = ground (arith, eq_text_iff s t)

-- `value != ""`
abbrev pub is_empty : Text → Bool
is_empty [] = true
is_empty (_ ∷ _) = false

pub is_empty→nil : (s : Text) → is_empty s ≡ true → s ≡ []
is_empty→nil [] h = refl
is_empty→nil (c ∷ s) h = cc

-- Membership in a set of strings, and the manager's `contains`.
unfoldable pub contains : List Text → Text → Bool
contains [] value = false
contains (candidate ∷ values) value = eq_text candidate value || contains values value

pub contains-cons :
    (x : Text) (xs : List Text) (v : Text)
    → contains (x ∷ xs) v ≡ (if eq_text x v then true else contains xs v)
unfolding contains
contains-cons x xs v = ground arith

Text-set : IsSet Text
Text-set = hlevel

-- The Boolean test decides the library's membership.
pub contains_iff : (xs : List Text) (v : Text) → (contains xs v ≡ true) ↔ Mem v xs
unfolding contains
contains_iff [] v = (λ h. cc, λ m. absurd (not-mem-nil m))
contains_iff (x ∷ xs) v = (
  λ h. elim (Bool-cases (eq_text x v)) [
    | inl e ↦ mem-cons.1 (Or.inl (sym ((eq_text_iff x v).0 e)))
    | inr e ↦ mem-cons.1 (Or.inr ((contains_iff xs v).0 (ground arith)))
  ],
  λ m.
      Or.elim (hedberg (hlevel) _ _) (mem-cons.0 m)
        (λ e. ground (arith, (eq_text_iff x v).1 (sym e)))
        (λ t. ground (arith, (contains_iff xs v).1 t)),
)

-- No string stands twice: the shape that the duplicate checks of the source compute.
abbrev pub IsDistinct : List Text → Type 0
IsDistinct [] = Unit
IsDistinct (x ∷ xs) = (contains xs x ≡ false) × IsDistinct xs

pub IsDistinct→Nodup : (xs : List Text) → IsDistinct xs → Nodup xs
IsDistinct→Nodup [] h = Nodup-nil
IsDistinct→Nodup (x ∷ xs) h =
    Nodup-cons.1 (λ m. ground (arith, (contains_iff xs x).1 m, h.0), IsDistinct→Nodup xs h.1)

pub Nodup→IsDistinct : (xs : List Text) → Nodup xs → IsDistinct xs
Nodup→IsDistinct [] h = tt
Nodup→IsDistinct (x ∷ xs) h = (absent, Nodup→IsDistinct xs (Nodup-cons.0 h).1)
  where
    absent : contains xs x ≡ false
    absent = elim (Bool-cases (contains xs x)) [
      | inl e ↦ absurd ((Nodup-cons.0 h).0 ((contains_iff xs x).0 e))
      | inr e ↦ e
    ]
