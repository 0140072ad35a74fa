-- ===== src/Store/Removal/Run.antt =====
-- The outcome of `Remove`, on every branch.
use tunnelfolio.Prelude.{true, false, Option, none, some, [], ◌∷◌, ◌≡◌, refl, ◌∙◌, arith}
use tunnelfolio.Prelude.Text.{Text}
use tunnelfolio.Prelude.Err.{Err, is_nil, Result, ok, fail, outcome_ambiguous}
use tunnelfolio.Prelude.Exec.{Post, Post-pure, Post-get, Post-unless, Post-bind}
use tunnelfolio.Profiles.Find.{find_profile-id}
use tunnelfolio.Profiles.Model.{Profile, Manifest, find_profile}
use tunnelfolio.Profiles.Manifest.{validate_manifest}
use tunnelfolio.Store.Host.{Host}
use tunnelfolio.Store.State.{Store, Post-host}
use tunnelfolio.Store.State.Repair.{IsSound, SameMemory, Repaired}
use tunnelfolio.Store.State.Write.{
  Published, durable, ambiguous_outcome, refused, publish_manifest-Published,
}
use tunnelfolio.Store.State.Mutation.{prepare_mutation-Prepared}
use tunnelfolio.Store.Removal.{RemovalResult, removal_candidate, collected, remove_found, remove}

module _ (H : Host) where
  -- `base` is the manifest that the profile was removed from.
  pub data Removed (s : Store H) (id : Text) : Result RemovalResult → Store H → Type 0 where
    gone :
        {x : RemovalResult} {t : Store H} (base : Manifest)
        → (s.durability_unknown ≡ false → base ≡ s.manifest)
        → x.profile.id ≡ id
        → t.manifest ≡ removal_candidate id base
        → validate_manifest t.manifest ≡ []
        → t.durability_unknown ≡ false
        → Removed s id (ok x) t
    unsure :
        {t : Store H} (e : Err) (base : Manifest)
        → (s.durability_unknown ≡ false → base ≡ s.manifest)
        → t.manifest ≡ removal_candidate id base
        → validate_manifest t.manifest ≡ []
        → t.durability_unknown ≡ true
        → Removed s id (fail (outcome_ambiguous ∷ e)) t
    kept :
        {e : Err} {t : Store H}
        → is_nil e ≡ false
        → (s.durability_unknown ≡ false → SameMemory s t)
        → (IsSound s → IsSound t)
        → Removed s id (fail e) t

  Removed-fail :
      (s t : Store H) (id : Text) {e : Err} {u : Store H}
      → Repaired H s [] t
      → validate_manifest (removal_candidate id t.manifest) ≡ []
      → Published H t (removal_candidate id t.manifest) e u
      → is_nil e ≡ false
      → Removed s id (fail e) u
  Removed-fail s t id r valid (durable m k) bad = cc
  Removed-fail s t id r valid (ambiguous_outcome e m k) bad =
      unsure e t.manifest (λ k. (r.not_needed k).1.manifest) m (rw m valid) k
  Removed-fail s t id r valid (refused b same) bad =
      kept b
        (λ k. record {
          manifest = same.manifest ∙ (r.not_needed k).1.manifest;
          unknown = same.unknown ∙ (r.not_needed k).1.unknown;
        })
        (λ h. rw same.manifest (r.sound h))

  Removed-ok :
      (s t : Store H) (id : Text) (p : Profile) {e : Err} {u : Store H}
      → Repaired H s [] t
      → p.id ≡ id
      → validate_manifest (removal_candidate id t.manifest) ≡ []
      → Published H t (removal_candidate id t.manifest) e u
      → e ≡ []
      → Post (collected H p) (Removed s id) u
  Removed-ok s t id p {u} r named valid (durable m k) nil = Post-get _ _ _ u (
      Post-host H _ _ _ u λ e w.
        Post-pure _ _ _ (gone t.manifest (λ k. (r.not_needed k).1.manifest) named m (rw m valid) k))
  Removed-ok s t id p r named valid (ambiguous_outcome e m k) nil = cc
  Removed-ok s t id p r named valid (refused b same) nil = ground arith

  remove_found-Removed :
      (s t : Store H) (id : Text) (found : Option Profile)
      → Repaired H s [] t
      → find_profile t.manifest.profiles id ≡ found
      → Post (remove_found H id t.manifest found) (Removed s id) t
  unfolding remove_found
  remove_found-Removed s t id none r is =
      Post-pure _ _ t (kept refl (λ k. (r.not_needed k).1) r.sound)
  remove_found-Removed s t id (some p) r is =
      Post-unless (validate_manifest (removal_candidate id t.manifest)) _ _ _ t
        (λ bad. kept bad (λ k. (r.not_needed k).1) r.sound)
        λ valid.
          Post-bind _ _ _ _ t (publish_manifest-Published H t (removal_candidate id t.manifest))
            λ e u q.
              Post-unless e _ _ _ u (Removed-fail s t id r valid q)
                (Removed-ok s t id p r (find_profile-id t.manifest.profiles id is) valid q)

  -- The outcome of the store's `Remove` on every branch: success with that profile removed from a
  -- valid, durable manifest, which was the one in memory unless a repair came first; an ambiguous
  -- outcome with the removal in memory; or a failure that leaves the memory as it was, but for a
  -- repair.
  pub remove-Removed : (s : Store H) (id : Text) → Post (remove H id) (Removed s id) s
  unfolding remove
  remove-Removed s id = Post-bind _ _ _ _ s (prepare_mutation-Prepared H s) λ e t r.
      Post-unless e _ _ _ t (λ bad. kept bad (r.gives_up bad).0 (r.gives_up bad).1)
        λ nil. Post-get _ _ _ t (remove_found-Removed s t id _ (r.goes_on nil) refl)
