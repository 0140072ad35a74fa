-- ===== src/Prelude/Exec.antt =====
-- Stateful Go methods: a state goes in, and the result comes back with the state that the call left.
-- The rules below reason about a block from its last statement to its first.
use mathlib.Core.Path.{◌≡◌, refl}
use mathlib.Core.Bool.{Bool, true, false}
use mathlib.Core.List.{[]}
use tunnelfolio.Prelude.Tests.{if◌then◌else◌}
use tunnelfolio.Prelude.Err.{Err, is_nil, eq-nil}

abbrev pub Exec {ℓ κ} : Type ℓ → Type κ → Type (ℓ ⊔ κ)
Exec S A = S → A × S

unfoldable pub pure {ℓ κ} : {S : Type ℓ} {A : Type κ} → A → Exec S A
pure a s = (a, s)

unfoldable pub gets {ℓ κ} : {S : Type ℓ} {A : Type κ} → (S → A) → Exec S A
gets f s = (f s, s)

unfoldable pub modify {ℓ} : {S : Type ℓ} → (S → S) → Exec S (Unit {0})
modify f s = (tt, f s)

infixl 5 ◌>>=◌ ◌>>◌
-- Opening this opens the ways to build a block too.
unfoldable pub ◌>>=◌ {ℓ κ μ} :
    {S : Type ℓ} {A : Type κ} {B : Type μ} → Exec S A → (A → Exec S B) → Exec S B
unfolding pure gets modify
◌>>=◌ m f s = let r = m s in f r.0 r.1

abbrev pub ◌>>◌ {ℓ κ μ} : {S : Type ℓ} {A : Type κ} {B : Type μ} → Exec S A → Exec S B → Exec S B
m >> n = m >>= λ _. n

-- `if err != nil { return …, err }`, with the result that goes with the error.
unfoldable pub unless_err {ℓ κ} : {S : Type ℓ} {A : Type κ} → Err → (Err → A) → Exec S A → Exec S A
unfolding pure
unless_err e give rest = if is_nil e then rest else pure (give e)

-- The run of `m` from `s` ends in a result and a state that `Q` relates.
pub record Post {ℓ κ μ} {S : Type ℓ} {A : Type κ} (m : Exec S A) (Q : A → S → Type μ) (s : S)
    : Type μ where
  pub holds : Q (m s).0 (m s).1

module _ {ℓ κ μ} {S : Type ℓ} {A : Type κ} where
  pub Post-pure : (a : A) (Q : A → S → Type μ) (s : S) → Q a s → Post (pure a) Q s
  unfolding pure
  Post-pure a Q s q = record { holds = q }

  pub Post-gets : (f : S → A) (Q : A → S → Type μ) (s : S) → Q (f s) s → Post (gets f) Q s
  unfolding gets
  Post-gets f Q s q = record { holds = q }

  pub Post-if :
      (b : Bool) (m n : Exec S A) (Q : A → S → Type μ) (s : S)
      → (b ≡ true → Post m Q s)
      → (b ≡ false → Post n Q s)
      → Post (if b then m else n) Q s
  Post-if true m n Q s h k = h refl
  Post-if false m n Q s h k = k refl

  pub Post-unless :
      (e : Err) (give : Err → A) (m : Exec S A) (Q : A → S → Type μ) (s : S)
      → (is_nil e ≡ false → Q (give e) s)
      → (e ≡ [] → Post m Q s)
      → Post (unless_err e give m) Q s
  unfolding unless_err
  Post-unless e give m Q s h k =
      Post-if (is_nil e) m (pure (give e)) Q s (λ nil. k (eq-nil e nil))
        (λ bad. Post-pure (give e) Q s (h bad))

  pub Post-mono {ν} :
      (m : Exec S A) (R : A → S → Type ν) (Q : A → S → Type μ) (s : S)
      → Post m R s
      → ((a : A) (t : S) → R a t → Q a t)
      → Post m Q s
  Post-mono m R Q s p k = record { holds = k (m s).0 (m s).1 p.holds }

-- Two things that a run leaves.
pub Post-both {ℓ κ μ ν} :
    {S : Type ℓ} {A : Type κ} {m : Exec S A} {Q : A → S → Type μ} {R : A → S → Type ν} {s : S}
    → Post m Q s
    → Post m R s
    → Post m (λ a t. Q a t × R a t) s
Post-both p q = record { holds = (p.holds, q.holds) }

module _ {ℓ κ μ ν ξ} {S : Type ℓ} {A : Type κ} {B : Type μ} where
  -- What the first call leaves is all that the rest may use.
  pub Post-bind :
      (m : Exec S A) (f : A → Exec S B) (R : A → S → Type ν) (Q : B → S → Type ξ) (s : S)
      → Post m R s
      → ((a : A) (t : S) → R a t → Post (f a) Q t)
      → Post (m >>= f) Q s
  unfolding ◌>>=◌
  Post-bind m f R Q s p k = record { holds = (k (m s).0 (m s).1 p.holds).holds }

module _ {ℓ κ μ ξ} {S : Type ℓ} {A : Type κ} {B : Type μ} where
  -- A block that begins by reading the state.
  pub Post-get :
      (g : S → A) (f : A → Exec S B) (Q : B → S → Type ξ) (s : S)
      → Post (f (g s)) Q s
      → Post (gets g >>= f) Q s
  unfolding ◌>>=◌
  Post-get g f Q s p = record { holds = p.holds }

module _ {ℓ μ ξ} {S : Type ℓ} {B : Type μ} where
  -- A block that begins by writing to it.
  pub Post-modify :
      (g : S → S) (f : Unit {0} → Exec S B) (Q : B → S → Type ξ) (s : S)
      → Post (f tt) Q (g s)
      → Post (modify g >>= f) Q s
  unfolding ◌>>=◌
  Post-modify g f Q s p = record { holds = p.holds }
