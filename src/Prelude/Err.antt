-- ===== src/Prelude/Err.antt =====
-- Go error values. An error is the list of the sentinel errors at the leaves of its tree, which is
-- what `errors.Is` reads; `nil` is the empty list, `errors.Join` is concatenation and wrapping by
-- `%w` keeps the leaves. An error made on the spot by `errors.New` is the leaf `other`.
use mathlib.Core.Path.{◌≡◌, refl}
use mathlib.Core.List.{List, [], ◌∷◌, ◌++◌}
use mathlib.Core.Bool.{Bool, true, false, ◌||◌}
use tunnelfolio.Prelude.Tests.{if◌then◌else◌}
use native.Mathlib.Omega.{arith}

-- The sentinels of manager.go, profiles/model.go and tunnel/types.go.
pub data Sentinel : Type 0 where
  transition_in_progress managed_state_conflict active_profile transition_failed : Sentinel
  not_found capacity conflict outcome_ambiguous invalid_manifest cleanup_pending : Sentinel
  read_only stale_inspection invalid_receipt expired_receipt import_busy : Sentinel
  policy_rejected protocol_ambiguous invalid_metadata : Sentinel
  unavailable identity_conflict observation_failed output_limit cleanup_unproved : Sentinel
  exists not_exist : Sentinel
  other : Sentinel

abbrev pub Err : Type 0
Err = List Sentinel

-- `err == nil`
abbrev pub is_nil : Err → Bool
is_nil [] = true
is_nil (_ ∷ _) = false

pub Sentinel-discrete : Discrete Sentinel
Sentinel-discrete = hlevel

-- `errors.Is(err, sentinel)`
unfoldable pub is_err : Err → Sentinel → Bool
is_err [] s = false
is_err (e ∷ es) s = elim (Sentinel-discrete e s) [ yes _ ↦ true | no _ ↦ is_err es s ]

pub is_err-cons_self : (s : Sentinel) (es : Err) → is_err (s ∷ es) s ≡ true
unfolding is_err
is_err-cons_self s es =
    elim (Sentinel-discrete s s) as (λ d. elim d [ yes _ ↦ true | no _ ↦ is_err es s ] ≡ true) [
      | yes _ ↦ refl
      | no ne ↦ absurd (ne refl)
    ]

-- An error that `errors.Is` finds something in is not nil.
pub is_nil-of-is_err : (e : Err) (s : Sentinel) → is_err e s ≡ true → is_nil e ≡ false
unfolding is_err
is_nil-of-is_err [] s h = ground arith
is_nil-of-is_err (x ∷ e) s h = refl

-- `errors.Is` looks into each joined error.
pub is_err-append : (d e : Err) (s : Sentinel) → is_err (d ++ e) s ≡ (is_err d s || is_err e s)
unfolding is_err
is_err-append [] e s = refl
is_err-append (x ∷ d) e s =
    elim (Sentinel-discrete x s)
      as (λ w.
        elim w [ yes _ ↦ true | no _ ↦ is_err (d ++ e) s ]
        ≡ (elim w [ yes _ ↦ true | no _ ↦ is_err d s ] || is_err e s)) [
          | yes _ ↦ refl
          | no _ ↦ is_err-append d e s
        ]

-- `errors.Join` is nil only of nils.
pub is_nil-append : (d e : Err) → is_nil (d ++ e) ≡ true → (d ≡ []) × (e ≡ [])
is_nil-append [] [] h = (refl, refl)
is_nil-append [] (x ∷ e) h = ground arith
is_nil-append (x ∷ d) e h = ground arith

pub is_nil-append_left : (d e : Err) → is_nil d ≡ false → is_nil (d ++ e) ≡ false
is_nil-append_left [] e h = ground arith
is_nil-append_left (x ∷ d) e h = refl

pub eq-nil : (e : Err) → is_nil e ≡ true → e ≡ []
eq-nil [] h = refl
eq-nil (x ∷ e) h = ground arith

-- A call that returns a value or an error.
pub data Result {ℓ} (A : Type ℓ) : Type ℓ where
  ok : A → Result A
  fail : Err → Result A

pub ok-injective {ℓ} : {A : Type ℓ} {a b : A} → ok a ≡ ok b → a ≡ b
ok-injective h = cc

-- A guard that did not fail was not taken.
pub ok-if {ℓ} :
    {A : Type ℓ} (b : Bool) (e : Err) (m : Result A) {a : A}
    → (if b then fail e else m) ≡ ok a
    → (b ≡ false) × (m ≡ ok a)
ok-if true e m h = cc
ok-if false e m h = (refl, h)
