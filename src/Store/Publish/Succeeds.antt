-- ===== src/Store/Publish/Succeeds.antt =====
-- `Publish` succeeds on a machine whose calls succeed, with objects that may be added.
use tunnelfolio.Prelude.{
  ◌≤◌, false, not, List, [], ◌++◌, ◌≡◌, ◌≢◌, refl, sym, subst, arith, ltb, ◌==◌, ◌+◌,
}
use tunnelfolio.Prelude.Lists.{length, length-append, All}
use tunnelfolio.Prelude.Text.{Text, codes}
use tunnelfolio.Prelude.Err.{Err, ok}
use tunnelfolio.Prelude.Exec.{Post, Post-pure, Post-get, Post-if, Post-bind, Post-modify}
use tunnelfolio.Profiles.Model.{Manifest, max_profiles}
use tunnelfolio.Profiles.Manifest.{validate_manifest, profile_ids}
use tunnelfolio.Profiles.Manifest.Sound.{contents, IsValid, validate_manifest_iff}
use tunnelfolio.Store.Host.{Host}
use tunnelfolio.Store.Calm.{no_call, call_then, in_turn-Quiet, Calm, Post-nil, Post-not_nil}
use tunnelfolio.Store.State.{
  Store, Post-host_by, settle, publish_manifest, prepare_mutation, repair_durability,
}
use tunnelfolio.Store.Publish.{
  PublicationResult, pending, append_objects, finish_publication, publish_within, run_publication,
  publish_candidate, publish_at, publish,
}
use tunnelfolio.Store.Staging.{NewObject}
use tunnelfolio.Store.Execution.{random_name}
use tunnelfolio.Store.Publish.Appended.{profiles_of, length-profiles_of, with_objects, IsImportable}
use tunnelfolio.Store.Publish.Fresh.{ids-IsFresh, contents-IsFresh, append_objects-succeeds}
use tunnelfolio.Store.Publish.Run.{nil_of}
use tunnelfolio.Store.Publish.Quiet.{
  close_boundary-Quiet, publish_files-Quiet, clean_transaction-Quiet,
}

module _ (H : Host) (calm : Calm H) (s : Store H) (objects : List NewObject) where
  -- The manifest with the objects is published, durably and with nothing left to clean up.
  pub record Succeeds (r : PublicationResult × Err) (t : Store H) : Type 0 where
    pub result : r ≡ (pending false (with_objects s.manifest objects), [])
    pub manifest : t.manifest ≡ with_objects s.manifest objects
    pub durable : t.durability_unknown ≡ false

  random_name-fine : (prefix : Text) (w : H.World) → Post (random_name H prefix) (λ n v. n.1 ≡ []) w
  random_name-fine prefix w = Post-bind _ _ _ _ w (calm.random w) λ raw v fine. Post-pure _ _ v fine

  prepared :
      s.durability_unknown ≡ false
      → Post (prepare_mutation H) (λ e t. (e ≡ []) × (t.manifest ≡ s.manifest)) s
  unfolding prepare_mutation repair_durability
  prepared known =
      Post-if H.read_only _ _ _ s (λ bad. absurd (ground (arith, calm.writable, bad)))
        λ _. Post-get _ _ _ s (
          Post-if (not s.durability_unknown) _ _ _ s (λ _. Post-pure _ _ s (refl, refl))
            (λ bad. absurd (ground (arith, known, bad))))

  publish_manifest-durable :
      (c : Manifest) (t : Store H)
      → Post
          (publish_manifest H c)
          (λ e u. (e ≡ []) × (u.manifest ≡ c) × (u.durability_unknown ≡ false))
          t
  unfolding publish_manifest settle
  publish_manifest-durable c t =
      Post-host_by H _ _ _ _ t (calm.write_json_atomic c t.world) λ r w fine.
        Post-not_nil r.err _ _ _ _ fine.0 (
          Post-if (not r.durable) _ _ _ _ (λ bad. absurd (ground (arith, fine.1, bad)))
            (λ _. Post-modify _ _ _ _ (Post-pure _ _ _ (refl, refl, refl))))

  finish_publication-Succeeds :
      (t : Store H) (name : Text)
      → t.manifest ≡ with_objects s.manifest objects
      → t.durability_unknown ≡ false
      → Post (finish_publication H name) Succeeds t
  unfolding finish_publication
  finish_publication-Succeeds t name m k =
      Post-host_by H _ _ _ _ t (close_boundary-Quiet H calm _ _ _ t.world) λ closed w nil.
        Post-not_nil closed _ _ _ _ nil (
          Post-host_by H _ _ _ _ _ (clean_transaction-Quiet H calm name w) λ e v fine.
            Post-get _ _ _ _
              (Post-pure _ _ _ (record { result = rw (fine, m); manifest = m; durable = k })))

  publish_within-Succeeds :
      (t : Store H) (name : Text)
      → Post (publish_within H (with_objects s.manifest objects) name objects) Succeeds t
  unfolding publish_within
  publish_within-Succeeds t name =
      Post-host_by H _ _ _ _ t (publish_files-Quiet H calm _ objects t.world) λ files w nil.
        Post-not_nil files _ _ _ _ nil (
          Post-bind _ _ _ _ _ (publish_manifest-durable (with_objects s.manifest objects) _)
            λ e u written.
              Post-not_nil e _ _ _ u written.0
                (finish_publication-Succeeds u name written.1 written.2))

  run_publication-Succeeds :
      (t : Store H) → Post (run_publication H (with_objects s.manifest objects) objects) Succeeds t
  unfolding run_publication
  run_publication-Succeeds t =
      Post-host_by H _ _ (λ n _. n.1 ≡ []) _ t (random_name-fine (codes "txn-") t.world)
        λ name w named. Post-nil name.1 _ _ _ _ named (
          Post-host_by H _ _ _ _ _
            (in_turn-Quiet _
              (call_then (calm.checkpoint _) (call_then (calm.open_private_dir _) no_call)) w)
            λ opened v nil. Post-nil opened _ _ _ _ nil (
              Post-host_by H _ _ _ _ _ (calm.checkpoint _ v) λ after u nil'.
                Post-not_nil after _ _ _ _ nil' (
                  Post-host_by H _ _ _ _ _
                    (in_turn-Quiet _
                      (call_then (calm.checkpoint _) (call_then (calm.mkdir_exclusive _ _) no_call))
                      u)
                    λ made x fine.
                      Post-not_nil made _ _ _ _ fine (publish_within-Succeeds _ name.0))))

  module _ (each : All (IsImportable H.platform) objects)
      (valid : validate_manifest (with_objects s.manifest objects) ≡ [])
      (some_object : objects ≢ []) where
    is_valid : IsValid (with_objects s.manifest objects)
    is_valid = (validate_manifest_iff (with_objects s.manifest objects)).0 valid

    appended :
        append_objects H.platform
          (profile_ids s.manifest.profiles)
          (contents s.manifest.profiles)
          s.manifest.profiles
          objects
        ≡ ok (s.manifest.profiles ++ profiles_of objects)
    appended =
        append_objects-succeeds _ _ _ s.manifest.profiles objects each
          (ids-IsFresh s.manifest.profiles (profiles_of objects) is_valid.ids)
          (contents-IsFresh s.manifest.profiles (profiles_of objects) is_valid.contents_distinct)

    publish_at-Succeeds :
        (t : Store H)
        → Post (publish_at H s.manifest.library_revision objects s.manifest) Succeeds t
    unfolding publish_at publish_candidate
    publish_at-Succeeds t =
        Post-if (not (s.manifest.library_revision == s.manifest.library_revision)) _ _ _ t
          (λ bad. absurd (ground (arith, bad)))
          λ _.
            Post-if (length objects == 0) _ _ _ t (λ bad. absurd (some_object (nil_of objects bad)))
              λ _.
                Post-if (ltb max_profiles (length s.manifest.profiles + length objects)) _ _ _ t
                  (λ bad. absurd (ground (arith, bad, fits)))
                  λ _. rw appended (
                    Post-nil (validate_manifest (with_objects s.manifest objects)) _ _ _ t valid
                      (run_publication-Succeeds t))
      where
        fits : length s.manifest.profiles + length objects ≤ max_profiles
        fits = omega (
          arith,
          is_valid.fits,
          length-append s.manifest.profiles (profiles_of objects),
          length-profiles_of objects,
        )

    -- On a machine whose calls succeed, `Publish` at the revision of a durable library, with at
    -- least one object, all of them well-formed and such that the new manifest is valid, returns nil
    -- with that manifest, durable in memory and with no clean-up pending.
    pub publish-Succeeds :
        s.durability_unknown ≡ false
        → Post (publish H s.manifest.library_revision objects) Succeeds s
    unfolding publish
    publish-Succeeds known =
        Post-bind _ _ (λ e t. (e ≡ []) × (t.manifest ≡ s.manifest)) _ s (prepared known)
          λ e t ready. Post-nil e _ _ _ t ready.0 (
            Post-get _ _ _ t (
              subst (λ m. Post (publish_at H s.manifest.library_revision objects m) Succeeds t)
                (sym ready.1) (publish_at-Succeeds t)))
