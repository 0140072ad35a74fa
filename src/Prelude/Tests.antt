-- ===== src/Prelude/Tests.antt =====
-- Boolean tests on the native numbers, and the case split that keeps its equation.
use Prim.Native.Nat.{ℕ, ◌<◌, ◌≤◌, compare, Ordering}
use mathlib.Core.Path.{◌≡◌, refl, subst}
use mathlib.Core.Logic.{◌⊎◌, inl, inr, ◌↔◌}
use mathlib.Core.Bool.{Bool, true, false, ◌&&◌, ◌||◌, not}
use native.Mathlib.Omega.{arith}

abbrev pub ltb : ℕ → ℕ → Bool
ltb a b = elim (compare a b) [ Ordering.lt ↦ true | _ ↦ false ]

abbrev pub leb : ℕ → ℕ → Bool
leb a b = elim (compare a b) [ Ordering.gt ↦ false | _ ↦ true ]

infix 50 ◌==◌
abbrev pub ◌==◌ : ℕ → ℕ → Bool
a == b = elim (compare a b) [ Ordering.eq ↦ true | _ ↦ false ]

infix 1 if◌then◌else◌
abbrev pub if◌then◌else◌ {ℓ} : {A : Type ℓ} → Bool → A → A → A
if true then x else y = x
if false then x else y = y

pub Bool-cases : (b : Bool) → (b ≡ true) ⊎ (b ≡ false)
Bool-cases true = inl refl
Bool-cases false = inr refl

-- Nothing is both.
pub from_false : {A : Type 0} → false ≡ true → A
from_false {A} h = subst (λ b. if b then A else Unit {0}) h tt

pub ltb→lt : (a b : ℕ) → ltb a b ≡ true → a < b
ltb→lt a b h = ground arith

pub leb→le : (a b : ℕ) → leb a b ≡ true → a ≤ b
leb→le a b h = ground arith

pub ltb-false→le : (a b : ℕ) → ltb a b ≡ false → b ≤ a
ltb-false→le a b h = ground arith

-- Two tests that hold together are one equation.
pub Bool-ext : (b c : Bool) → (b ≡ true) ↔ (c ≡ true) → b ≡ c
Bool-ext true c h = ground (arith, h.0 refl)
Bool-ext false true h = ground (arith, h.1 refl)
Bool-ext false false h = refl

pub &&-eq-true : (b c : Bool) → (b && c) ≡ true → (b ≡ true) × (c ≡ true)
&&-eq-true b c h = ground arith

pub ||-eq-false : (b c : Bool) → (b || c) ≡ false → (b ≡ false) × (c ≡ false)
||-eq-false b c h = ground arith

pub not-eq-true : (b : Bool) → not b ≡ true → b ≡ false
not-eq-true b h = ground arith
