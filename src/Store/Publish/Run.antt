-- ===== src/Store/Publish/Run.antt =====
-- The outcome of `Publish`, on every branch.
use tunnelfolio.Prelude.{
  ℕ, Bool, true, false, not, List, [], ◌∷◌, ◌≡◌, refl, ap, ◌∙◌, arith, ◌==◌, ltb, if◌then◌else◌,
  ◌+◌,
}
use tunnelfolio.Prelude.Lists.{length, All}
use tunnelfolio.Prelude.Err.{
  Err, is_nil, is_err, Result, ok, fail, outcome_ambiguous, is_nil-append_left, eq-nil,
}
use tunnelfolio.Prelude.Exec.{◌>>=◌, Post, Post-pure, Post-get, Post-if, Post-unless, Post-bind}
use tunnelfolio.Prelude.Text.{Text}
use tunnelfolio.Profiles.Model.{Profile, Manifest, max_profiles}
use tunnelfolio.Profiles.Manifest.{validate_manifest, profile_ids}
use tunnelfolio.Profiles.Manifest.Sound.{contents}
use tunnelfolio.Store.Host.{Host, FilePath}
use tunnelfolio.Store.State.{Store, next_revision, on_host, Post-host}
use tunnelfolio.Store.State.Repair.{IsSound, SameMemory, Repaired}
use tunnelfolio.Store.State.Write.{
  Published, durable, ambiguous_outcome, refused, publish_manifest-Published,
}
use tunnelfolio.Store.State.Mutation.{prepare_mutation-Prepared}
use tunnelfolio.Store.Publish.{
  pending, no_publication, PublicationResult, publish, append_objects, publish_at,
  publish_candidate, run_publication, publish_within, finish_publication,
}
use tunnelfolio.Store.Staging.{leave, transactions_dir, NewObject}
use tunnelfolio.Store.Publish.Appended.{
  with_objects, IsImportable, append_objects-ok, append_objects-fail,
}

pub nil_of : (objects : List NewObject) → (length objects == 0) ≡ true → objects ≡ []
nil_of [] h = refl
nil_of (o ∷ os) h = absurd (ground arith)

module _ (H : Host) where
  leave_bad :
      (s : Store H) (path : FilePath) (e : Err)
      → is_nil e ≡ false
      → Post (on_host H (leave H path e)) (λ d t. (is_nil d ≡ false) × SameMemory s t) s
  unfolding on_host ◌>>=◌
  leave_bad s path e bad = record {
    holds = (is_nil-append_left e _ bad, record { manifest = refl; unknown = refl });
  }

  -- `base` is the manifest that the profiles were added to.
  pub data Publication (s : Store H) (revision : ℕ) (objects : List NewObject)
      : PublicationResult × Err → Store H → Type 0 where
    empty :
        {x : PublicationResult} {t : Store H}
        → objects ≡ []
        → x.manifest ≡ t.manifest
        → t.manifest.library_revision ≡ revision
        → (s.durability_unknown ≡ false → SameMemory s t)
        → (IsSound s → IsSound t)
        → Publication s revision objects (x, []) t
    added :
        {x : PublicationResult} {t : Store H} (base : Manifest)
        → (s.durability_unknown ≡ false → base ≡ s.manifest)
        → base.library_revision ≡ revision
        → All (IsImportable H.platform) objects
        → x.manifest ≡ t.manifest
        → t.manifest ≡ with_objects base objects
        → validate_manifest t.manifest ≡ []
        → t.durability_unknown ≡ false
        → Publication s revision objects (x, []) t
    unsure :
        {x : PublicationResult} {t : Store H} (e : Err) (base : Manifest)
        → (s.durability_unknown ≡ false → base ≡ s.manifest)
        → base.library_revision ≡ revision
        → All (IsImportable H.platform) objects
        → t.manifest ≡ with_objects base objects
        → validate_manifest t.manifest ≡ []
        → t.durability_unknown ≡ true
        → Publication s revision objects (x, outcome_ambiguous ∷ e) t
    kept :
        {x : PublicationResult} {e : Err} {t : Store H}
        → is_nil e ≡ false
        → (s.durability_unknown ≡ false → SameMemory s t)
        → (IsSound s → IsSound t)
        → Publication s revision objects (x, e) t

  module _ (s t : Store H) (revision : ℕ) (objects : List NewObject) (r : Repaired H s [] t) where
    -- The memory is still what the repair left.
    kept_here :
        (u : Store H) (x : PublicationResult) (e : Err)
        → SameMemory t u
        → is_nil e ≡ false
        → Publication s revision objects (x, e) u
    kept_here u x e same bad =
        kept bad
          (λ k. record {
            manifest = same.manifest ∙ (r.not_needed k).1.manifest;
            unknown = same.unknown ∙ (r.not_needed k).1.unknown;
          })
          (λ h. rw same.manifest (r.sound h))

    module _ (at : t.manifest.library_revision ≡ revision)
        (each : All (IsImportable H.platform) objects)
        (valid : validate_manifest (with_objects t.manifest objects) ≡ []) where
      added_here :
          (u : Store H) (x : PublicationResult)
          → u.manifest ≡ with_objects t.manifest objects
          → u.durability_unknown ≡ false
          → x.manifest ≡ u.manifest
          → Publication s revision objects (x, []) u
      added_here u x m k same =
          added t.manifest (λ k. (r.not_needed k).1.manifest) at each same m (rw m valid) k

      finish_publication-Publication :
          (u : Store H) (name : Text)
          → u.manifest ≡ with_objects t.manifest objects
          → u.durability_unknown ≡ false
          → Post (finish_publication H name) (Publication s revision objects) u
      unfolding finish_publication
      finish_publication-Publication u name m k = Post-host H _ _ _ u λ closed w.
          Post-if (not (is_nil closed)) _ _ _ _
            (λ _.
              Post-get _ _ _ _
                (Post-host H _ _ _ _ λ e w1. Post-pure _ _ _ (added_here _ _ m k refl)))
            (λ _.
              Post-host H _ _ _ _
                λ e w1. Post-get _ _ _ _ (Post-pure _ _ _ (added_here _ _ m k refl)))

      ambiguous_here :
          (u : Store H) (x : PublicationResult) (e : Err)
          → u.manifest ≡ with_objects t.manifest objects
          → u.durability_unknown ≡ true
          → Publication s revision objects (x, outcome_ambiguous ∷ e) u
      ambiguous_here u x e m k =
          unsure e t.manifest (λ k. (r.not_needed k).1.manifest) at each m (rw m valid) k

      refused_here :
          (u v : Store H) (w : H.World) (x : PublicationResult) {e : Err}
          → SameMemory t u
          → Published H u (with_objects t.manifest objects) e v
          → is_nil e ≡ false
          → Publication s revision objects (x, e) (record v { world = w })
      refused_here u v w x same (durable m k) bad = cc
      refused_here u v w x same (ambiguous_outcome e m k) bad = ambiguous_here _ x e m k
      refused_here u v w x same (refused {e} b still) bad =
          kept_here _ x e
            (record {
              manifest = still.manifest ∙ same.manifest;
              unknown = still.unknown ∙ same.unknown;
            })
            b

      Published-finish :
          (u v : Store H) (name : Text) {e : Err}
          → Published H u (with_objects t.manifest objects) e v
          → e ≡ []
          → Post (finish_publication H name) (Publication s revision objects) v
      Published-finish u v name (durable m k) nil = finish_publication-Publication v name m k
      Published-finish u v name (ambiguous_outcome e m k) nil = cc
      Published-finish u v name (refused b still) nil = ground arith

      either_result :
          (b : Bool) (x y : PublicationResult) (e : Err) (u : Store H)
          → Publication s revision objects (x, e) u
          → Publication s revision objects (y, e) u
          → Publication s revision objects (if b then (x, e) else (y, e)) u
      either_result true x y e u p q = p
      either_result false x y e u p q = q

      publish_within-Publication :
          (u : Store H) (name : Text)
          → SameMemory t u
          → Post
              (publish_within H (with_objects t.manifest objects) name objects)
              (Publication s revision objects)
              u
      unfolding publish_within
      publish_within-Publication u name same = Post-host H _ _ _ u λ files w.
          Post-if (not (is_nil files)) _ _ _ _
            (λ bad. Post-host H _ _ _ _ λ _ w1. Post-pure _ _ _ (
              kept_here _ _ _ (record { manifest = same.manifest; unknown = same.unknown })
                (ground arith)))
            λ _. Post-bind _ _ _ _ _ (publish_manifest-Published H _ _) λ e v p.
              Post-if (not (is_nil e)) _ _ _ _
                (λ bad. Post-get _ _ _ _ (
                  Post-host H _ _ _ _ λ _ w2. Post-pure _ _ _ (
                    either_result (is_err e outcome_ambiguous) (pending true v.manifest)
                      no_publication e _
                      (refused_here _ v w2 _
                        (record { manifest = same.manifest; unknown = same.unknown }) p
                        (ground arith))
                      (refused_here _ v w2 _
                        (record { manifest = same.manifest; unknown = same.unknown }) p
                        (ground arith)))))
                (λ good. Published-finish _ v name p (eq-nil e (ground arith)))

      run_publication-Publication :
          Post
            (run_publication H (with_objects t.manifest objects) objects)
            (Publication s revision objects)
            t
      unfolding run_publication
      run_publication-Publication = Post-host H _ _ _ t λ name w0.
          Post-unless _ _ _ _ _
            (λ bad. kept_here _ _ _ (record { manifest = refl; unknown = refl }) bad)
            λ _. Post-host H _ _ _ _ λ opened w1.
              Post-unless opened _ _ _ _
                (λ bad. kept_here _ _ _ (record { manifest = refl; unknown = refl }) bad)
                λ _. Post-host H _ _ _ _ λ after w2.
                  Post-if (not (is_nil after)) _ _ _ _
                    (λ bad.
                      Post-bind _ _ _ _ _
                        (leave_bad (record t { world = w2 }) transactions_dir after (ground arith))
                        λ e v p. Post-pure _ _ _ (
                          kept_here _ _ _
                            (record { manifest = p.1.manifest; unknown = p.1.unknown }) p.0))
                    λ _. Post-host H _ _ _ _ λ made w3.
                      Post-if (not (is_nil made)) _ _ _ _
                        (λ bad. Post-host H _ _ _ _ λ _ w4. Post-pure _ _ _ (
                          kept_here _ _ _ (record { manifest = refl; unknown = refl })
                            (ground arith)))
                        (λ _.
                          publish_within-Publication _ name.0
                            (record { manifest = refl; unknown = refl }))

    publish_candidate-Publication :
        (a : Result (List Profile))
        → t.manifest.library_revision ≡ revision
        → append_objects H.platform
            (profile_ids t.manifest.profiles)
            (contents t.manifest.profiles)
            t.manifest.profiles
            objects
          ≡ a
        → Post (publish_candidate H t.manifest objects a) (Publication s revision objects) t
    unfolding publish_candidate
    publish_candidate-Publication (fail e) at is = Post-pure _ _ t (
        kept_here t _ e (record { manifest = refl; unknown = refl })
          (append_objects-fail _ _ _ _ objects is))
    publish_candidate-Publication (ok ps) at is =
        let (same, each) = append_objects-ok _ _ _ t.manifest.profiles objects is in
        let whole : next_revision (record t.manifest { profiles = ps })
            ≡ with_objects t.manifest objects =
          ap (λ qs. next_revision (record t.manifest { profiles = qs })) same in
        rw whole (
          Post-unless (validate_manifest (with_objects t.manifest objects)) _ _ _ t
            (λ bad. kept_here t _ _ (record { manifest = refl; unknown = refl }) bad)
            λ valid. run_publication-Publication at each valid)

    publish_at-Publication :
        Post (publish_at H revision objects t.manifest) (Publication s revision objects) t
    unfolding publish_at
    publish_at-Publication =
        Post-if (not (t.manifest.library_revision == revision)) _ _ _ t
          (λ _. Post-pure _ _ t (kept_here t _ _ (record { manifest = refl; unknown = refl }) refl))
          λ same.
            let at : t.manifest.library_revision ≡ revision = ground (arith, same) in
            Post-if (length objects == 0) _ _ _ t
              (λ none_.
                Post-pure _ _ t
                  (empty (nil_of objects none_) refl at (λ k. (r.not_needed k).1) r.sound))
              λ _.
                Post-if (ltb max_profiles (length t.manifest.profiles + length objects)) _ _ _ t
                  (λ _.
                    Post-pure _ _ t
                      (kept_here t _ _ (record { manifest = refl; unknown = refl }) refl))
                  (λ _. publish_candidate-Publication _ at refl)

  -- The outcome of the store's `Publish` on every branch: nothing to do; success with the profiles
  -- of the objects added to a valid, durable manifest of the expected revision, one revision on,
  -- every object checked; an ambiguous outcome with that manifest in memory; or a failure that
  -- leaves the memory as it was, but for a repair.
  pub publish-Publication :
      (s : Store H) (revision : ℕ) (objects : List NewObject)
      → Post (publish H revision objects) (Publication s revision objects) s
  unfolding publish
  publish-Publication s revision objects =
      Post-bind _ _ _ _ s (prepare_mutation-Prepared H s) λ e t r.
        Post-unless e _ _ _ t (λ bad. kept bad (r.gives_up bad).0 (r.gives_up bad).1)
          λ nil. Post-get _ _ _ t (publish_at-Publication s t revision objects (r.goes_on nil))

  -- A publication without an error returns the manifest in memory.
  pub Publication-manifest :
      (s : Store H) (revision : ℕ) (objects : List NewObject) {r : PublicationResult × Err}
      {t : Store H}
      → Publication s revision objects r t
      → r.1 ≡ []
      → r.0.manifest ≡ t.manifest
  Publication-manifest s revision objects (empty none_ is at same sound) nil = is
  Publication-manifest s revision objects (added base b at each is m valid k) nil = is
  Publication-manifest s revision objects (unsure e base b at each m valid k) nil = cc
  Publication-manifest s revision objects (kept bad same sound) nil = ground arith
