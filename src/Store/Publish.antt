-- ===== src/Store/Publish.antt =====
-- internal/profiles/store.go: `Publish`, which moves the files of new profiles into the library by
-- way of a transaction directory and then publishes the manifest that names them.
pub mod Appended
pub mod Run
pub mod Fresh
pub mod Quiet
pub mod Succeeds
use tunnelfolio.Prelude.{
  ℕ, ◌+◌, String, Bool, true, false, not, ◌||◌, List, [], ◌∷◌, ◌++◌, map, ltb, ◌==◌, if◌then◌else◌,
}
use tunnelfolio.Prelude.Lists.{length}
use tunnelfolio.Prelude.Text.{Text, codes, eq_text, is_empty, contains}
use tunnelfolio.Prelude.Int.{pos}
use tunnelfolio.Prelude.Err.{
  Err, is_nil, is_err, Result, ok, fail, exists, capacity, conflict, stale_inspection,
  outcome_ambiguous, other,
}
use tunnelfolio.Prelude.Exec.{Exec, ◌>>=◌, ◌>>◌, pure, unless_err}
use tunnelfolio.Prelude.Platform.{Platform}
use tunnelfolio.Policy.{Checked, pass, reject, max_profile_bytes}
use tunnelfolio.Profiles.Model.{Profile, Manifest, max_profiles, validate_profile}
use tunnelfolio.Profiles.Manifest.{validate_manifest, profile_ids}
use tunnelfolio.Profiles.Manifest.Sound.{contents}
use tunnelfolio.Profiles.Import.{validate_imported_profile}
use tunnelfolio.Store.Host.{Host, FilePath}
use tunnelfolio.Store.Objects.{object_filename, validate_object}
use tunnelfolio.Store.State.{
  Store, next_revision, on_host, snapshot, publish_manifest, prepare_mutation,
}
use tunnelfolio.Store.Removal.{in_turn, id_err, library_dir}
use tunnelfolio.Store.Execution.{random_name}
use tunnelfolio.Store.Staging.{
  NewObject, transactions_dir, transaction_dir, close_boundary, leave, stage_object, publish_object,
  publish_files, clean_transaction,
}

pub record PublicationResult : Type 0 where
  pub manifest : Manifest
  pub cleanup_pending : Bool

-- `PublicationResult{}`
unfoldable pub no_publication : PublicationResult
no_publication = record {
  manifest = record {
    version = pos 0;
    library_revision = 0;
    profiles = [];
    favorites = [];
    recents = [];
    startup_mode = [];
    desired_profile = [];
    connected_at = pos 0;
  };
  cleanup_pending = false;
}

abbrev pub no_result : Err → PublicationResult × Err
no_result e = (no_publication, e)

abbrev pub pending : Bool → Manifest → PublicationResult
pending cleanup m = record { manifest = m; cleanup_pending = cleanup }

-- The identity that the policy finds in the bytes is the profile's.
unfoldable pub identity_err : Profile → Checked Text → Err
identity_err p (reject _ _) = other ∷ []
identity_err p (pass identity) =
    if eq_text identity p.wireguard_public_key_sha256 then [] else other ∷ []

-- The checks of one object, against the IDs and the fingerprints seen before it.
unfoldable pub check_new_object : Platform → List Text → List Text → NewObject → Err
check_new_object P seen_ids seen_contents o =
    if is_empty o.bytes || ltb max_profile_bytes (length o.bytes)
    then other ∷ []
    else if not (is_nil (validate_profile o.profile))
    then validate_profile o.profile
    else if not (eq_text (P.sha256_hex o.bytes) o.profile.content_sha256)
    then other ∷ []
    else let identity =
        identity_err o.profile (validate_imported_profile P o.profile.protocol o.bytes) in
      if not (is_nil identity)
      then identity
      else if contains seen_ids o.profile.id
      then conflict ∷ []
      else if contains seen_contents o.profile.content_sha256
      then conflict ∷ []
      else []

-- The loop that checks the objects and appends their profiles to the candidate's.
unfoldable pub append_objects :
    Platform → List Text → List Text → List Profile → List NewObject → Result (List Profile)
append_objects P seen_ids seen_contents profiles [] = ok profiles
append_objects P seen_ids seen_contents profiles (o ∷ os) =
    let e = check_new_object P seen_ids seen_contents o in
    let rest =
      append_objects P (o.profile.id ∷ seen_ids) (o.profile.content_sha256 ∷ seen_contents)
        (profiles ++ o.profile ∷ []) os in
    if is_nil e then rest else fail e

module _ (H : Host) where
  -- The two deferred closes.
  abbrev close_both : Text → Exec H.World (Unit {0})
  close_both name = do H.close (transaction_dir name); H.close transactions_dir; pure tt

  abbrev refused_manifest : Err → Manifest → PublicationResult × Err
  refused_manifest e m = if is_err e outcome_ambiguous then (pending true m, e) else no_result e

  -- The manifest is published: what is left is clean-up, which is reported and never an error.
  unfoldable pub finish_publication : Text → Exec (Store H) (PublicationResult × Err)
  unfolding close_boundary clean_transaction
  finish_publication name = do
    closed ← on_host H (
        close_boundary H "before_transaction_close" "after_transaction_close"
          (transaction_dir name))
    if not (is_nil closed)
        then (do m ← snapshot H; on_host H (H.close transactions_dir); pure (pending true m, []))
        else do
          e ← on_host H (clean_transaction H name)
          m ← snapshot H
          pure (pending (not (is_nil e)) m, [])

  -- The transaction is there and open.
  unfoldable pub publish_within :
      Manifest → Text → List NewObject → Exec (Store H) (PublicationResult × Err)
  unfolding publish_files finish_publication
  publish_within candidate name objects = do
    files ← on_host H (publish_files H (transaction_dir name) objects)
    if not (is_nil files) then (do on_host H (close_both name); pure (no_result files)) else do
      e ← publish_manifest H candidate
      if not (is_nil e)
          then (do m ← snapshot H; on_host H (close_both name); pure (refused_manifest e m))
          else finish_publication name

  -- The candidate is valid.
  unfoldable pub run_publication :
      Manifest → List NewObject → Exec (Store H) (PublicationResult × Err)
  unfolding publish_within in_turn
  run_publication candidate objects = do
    name ← on_host H (random_name H (codes "txn-"))
    unless_err name.1 no_result do
      opened ← on_host H (
          in_turn
            (H.checkpoint "before_transactions_open" ∷ H.open_private_dir transactions_dir ∷ []))
      unless_err opened no_result do
        after ← on_host H (H.checkpoint "after_transactions_open")
        if not (is_nil after)
            then (do e ← on_host H (leave H transactions_dir after); pure (no_result e))
            else do
              made ← on_host H (
                  in_turn (
                    H.checkpoint "before_transaction_create"
                    ∷ H.mkdir_exclusive transactions_dir name.0
                    ∷ []))
              if not (is_nil made)
                  then (do on_host H (H.close transactions_dir); pure (no_result made))
                  else publish_within candidate name.0 objects

  unfoldable pub publish_candidate :
      Manifest → List NewObject → Result (List Profile) → Exec (Store H) (PublicationResult × Err)
  unfolding run_publication
  publish_candidate m objects (fail e) = pure (no_result e)
  publish_candidate m objects (ok profiles) =
      let candidate = next_revision (record m { profiles = profiles }) in
      unless_err (validate_manifest candidate) no_result (run_publication candidate objects)

  -- What `Publish` does behind the repair.
  unfoldable pub publish_at :
      ℕ → List NewObject → Manifest → Exec (Store H) (PublicationResult × Err)
  unfolding publish_candidate append_objects
  publish_at revision objects m =
      if not (m.library_revision == revision)
      then pure (no_result (stale_inspection ∷ []))
      else if length objects == 0
      then pure (pending false m, [])
      else if ltb max_profiles (length m.profiles + length objects)
      then pure (no_result (capacity ∷ []))
      else publish_candidate m objects (
          append_objects H.platform (profile_ids m.profiles) (contents m.profiles) m.profiles
            objects)

  -- `Publish`
  unfoldable pub publish : ℕ → List NewObject → Exec (Store H) (PublicationResult × Err)
  unfolding publish_at
  publish revision objects = do
    prepared ← prepare_mutation H
    unless_err prepared no_result do m ← snapshot H; publish_at revision objects m
