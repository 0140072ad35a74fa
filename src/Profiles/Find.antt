-- ===== src/Profiles/Find.antt =====
-- internal/profiles/model.go: what `Manifest.Profile` finds.
use mathlib.Core.Option.{some-injective}
use tunnelfolio.Prelude.{Bool, true, false, some, List, [], ◌∷◌, ◌≡◌, refl, subst, if◌then◌else◌}
use tunnelfolio.Prelude.Text.{Text, eq_text, eq_text_iff}
use tunnelfolio.Profiles.Model.{Profile, find_profile}

pub find_profile-id :
    (ps : List Profile) (id : Text) {p : Profile} → find_profile ps id ≡ some p → p.id ≡ id
unfolding find_profile
find_profile-id [] id h = cc
find_profile-id (q ∷ ps) id {p} h = by_test (find_profile-id ps id) (eq_text q.id id) refl h
  where
    by_test :
        (find_profile ps id ≡ some p → p.id ≡ id)
        → (b : Bool) → eq_text q.id id ≡ b
        → (if b then some q else find_profile ps id) ≡ some p
        → p.id ≡ id
    by_test rest true same is =
        subst (λ x. x.id ≡ id) (some-injective _ _ is) ((eq_text_iff q.id id).0 same)
    by_test rest false other is = rest is
