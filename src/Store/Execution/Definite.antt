-- ===== src/Store/Execution/Definite.antt =====
-- internal/profiles/store.go: `PrepareExecution` gives a copy or an error, never neither.
use tunnelfolio.Prelude.{false, not, Option, none, some, ◌≡◌, refl, arith}
use tunnelfolio.Prelude.Text.{Text}
use tunnelfolio.Prelude.Err.{Err, is_nil, Result, ok, fail}
use tunnelfolio.Prelude.Exec.{
  Exec, ◌>>=◌, Post, Post-pure, Post-bind, Post-if, Post-unless, Post-get,
}
use tunnelfolio.Profiles.Model.{Profile, find_profile}
use tunnelfolio.Store.Host.{Host}
use tunnelfolio.Store.State.{Store, Post-on_host}
use tunnelfolio.Store.Execution.{make_copy, copy_found, prepare_execution}

-- A result, or an error that is not nil.
pub data IsDefinite {ℓ} {A : Type ℓ} : Result A → Type ℓ where
  succeeds : {a : A} → IsDefinite (ok a)
  fails : {e : Err} → is_nil e ≡ false → IsDefinite (fail e)

pub fails-not_nil {ℓ} : {A : Type ℓ} (e : Err) → IsDefinite {A = A} (fail e) → is_nil e ≡ false
fails-not_nil e (fails bad) = bad

module _ (H : Host) where
  -- A block that goes on whatever a call answers.
  any_answer {ℓ κ} :
      {S : Type ℓ} {A : Type κ} {B : Type 0} (m : Exec S A) (f : A → Exec S (Result B)) (s : S)
      → ((a : A) (t : S) → Post (f a) (λ r _. IsDefinite r) t)
      → Post (m >>= f) (λ r _. IsDefinite r) s
  any_answer m f s k = Post-bind m f (λ _ _. Unit {0}) _ s (record { holds = tt }) λ a t _. k a t

  make_copy-IsDefinite : (p : Profile) (w : H.World) → Post (make_copy H p) (λ r _. IsDefinite r) w
  unfolding make_copy
  make_copy-IsDefinite p w = any_answer _ _ w λ object w1.
      Post-unless object.1 _ _ _ w1 (λ bad. fails bad)
        λ _. any_answer _ _ w1 λ name w2.
          Post-unless name.1 _ _ _ w2 (λ bad. fails bad)
            λ _. any_answer _ _ w2 λ opened w3.
              Post-unless opened _ _ _ w3 (λ bad. fails bad)
                λ _. any_answer _ _ w3 λ made w4.
                  Post-if (not (is_nil made)) _ _ _ w4
                    (λ bad.
                      any_answer _ _ w4 λ _ w5. Post-pure _ _ w5 (fails (ground (arith, bad))))
                    λ _. any_answer _ _ w4 λ filled w5.
                      Post-unless filled _ _ _ w5 (λ bad. fails bad) λ _. Post-pure _ _ w5 succeeds

  copy_found-IsDefinite :
      (p : Option Profile) (s : Store H) → Post (copy_found H p) (λ r _. IsDefinite r) s
  unfolding copy_found
  copy_found-IsDefinite none s = Post-pure _ _ s (fails refl)
  copy_found-IsDefinite (some p) s =
      Post-on_host H _ _ _ s (make_copy-IsDefinite p s.world) (λ r w definite. definite)

  pub prepare_execution-IsDefinite :
      (id : Text) (s : Store H) → Post (prepare_execution H id) (λ r _. IsDefinite r) s
  unfolding prepare_execution
  prepare_execution-IsDefinite id s =
      Post-if H.read_only _ _ _ s (λ _. Post-pure _ _ s (fails refl))
        λ _. Post-get _ _ _ s (copy_found-IsDefinite (find_profile s.manifest.profiles id) s)
