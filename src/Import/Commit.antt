-- ===== src/Import/Commit.antt =====
-- internal/profiles/import.go: `Commit`, which checks a receipt against the files that it was signed
-- for and publishes the new ones.
pub mod Bound
pub mod Effect
pub mod Outcome
pub mod Planned
pub mod Replayed
use tunnelfolio.Prelude.{
  ℕ, zero, suc, Bool, true, false, not, ◌&&◌, ◌||◌, Option, none, some, List, [], ◌∷◌, ◌++◌, ◌==◌,
  if◌then◌else◌,
}
use tunnelfolio.Prelude.Lists.{length}
use tunnelfolio.Prelude.Text.{Text, codes, eq_text}
use tunnelfolio.Prelude.Err.{
  Err, is_nil, Result, ok, fail, invalid_receipt, expired_receipt, stale_inspection, other,
}
use tunnelfolio.Prelude.Int.{ℤ, pos}
use tunnelfolio.Prelude.Exec.{Exec, ◌>>=◌, ◌>>◌, pure, gets, unless_err}
use tunnelfolio.Policy.{Checked, pass, reject}
use tunnelfolio.Profiles.Model.{
  Profile, Manifest, Metadata, protocol_wireguard, id_pattern, valid_protocol, validate_metadata,
  metadata_err, validate_original_filename, find_profile,
}
use tunnelfolio.Profiles.Id.{runtime_identifier}
use tunnelfolio.Profiles.Import.{validate_imported_profile}
use tunnelfolio.Store.Host.{Host}
use tunnelfolio.Store.State.{on_host, snapshot, repair_durability}
use tunnelfolio.Store.Publish.{PublicationResult, publish}
use tunnelfolio.Store.Staging.{NewObject}
use tunnelfolio.Import.Model.{ImportFile, InspectionRecord, Instant, eqℤ, is_after, utc_time}
use tunnelfolio.Import.Detect.{
  Detected, detected, undetected, validate_import_envelope, detect_protocol,
}
use tunnelfolio.Import.Receipt.{invalid, decode_receipt}
use tunnelfolio.Import.Service.{Collaborators, ImportService, on_store, exclusive, receipt_mac}
use tunnelfolio.Import.Plan.{
  CommitRequest, find_metadata, record_matches_profile, Plan, stale, empty_metadata,
  metadata_or_empty, new_profile, plan_existing, plan_prior, plan_new, plan_record, plan_rest,
  plan_records,
}
use tunnelfolio.Import.Reinspect.{
  is_empty_list, is_well_bound, rebound, reinspect_policy, reinspect_detected, reinspect_file,
  cons_result, reinspect_rest, reinspect_bound,
}
use tunnelfolio.Import.Inspect.{disposition_new, already_imported}

-- `ImportResult`
pub record ImportResult : Type 0 where
  pub ordinal : ℕ
  pub result : Text
  pub profile : Profile

-- `CommitResult`
pub record CommitResult : Type 0 where
  pub records : List ImportResult
  pub replayed : Bool
  pub revision : ℕ

unfoldable pub metadata_found : Option Metadata → Err
metadata_found none = other ∷ []
metadata_found (some m) = metadata_err (validate_metadata m)

-- The loop over `request.Metadata`, for the files from an ordinal on.
unfoldable pub check_metadata : List (ℤ × Metadata) → ℕ → List ImportFile → Err
unfolding metadata_found find_metadata
check_metadata entries ordinal [] = []
check_metadata entries ordinal (file ∷ files) =
    let e = metadata_found (find_metadata entries (pos ordinal)) in
    if not (is_nil e) then e else check_metadata entries (suc ordinal) files

unfoldable pub replay_found :
    ℕ → InspectionRecord → Option Profile → Option (List ImportResult) → Option (List ImportResult)
replay_found index r none rest = none
replay_found index r (some p) none = none
replay_found index r (some p) (some results) =
    if record_matches_profile r p
    then some (record { ordinal = index; result = already_imported; profile = p } ∷ results)
    else none

-- `exactReplay`, for the records from an index on.
unfoldable pub exact_replay : List Profile → ℕ → List InspectionRecord → Option (List ImportResult)
unfolding replay_found record_matches_profile
exact_replay profiles index [] = some []
exact_replay profiles index (r ∷ rs) =
    replay_found index r (find_profile profiles r.id) (exact_replay profiles (suc index) rs)

-- `Profile{}`
unfoldable pub no_profile : Profile
no_profile = record {
  id = [];
  protocol = [];
  display_name = [];
  group = [];
  location = [];
  emoji = [];
  identifier = [];
  original_filename = [];
  imported_at = record { seconds = 0; is_utc = true };
  content_sha256 = [];
  wireguard_public_key_sha256 = [];
}

abbrev or_no_profile : Option Profile → Profile
or_no_profile none = no_profile
or_no_profile (some p) = p

abbrev published_profile : Option Profile → Option Profile → Profile
published_profile (some p) planned = p
published_profile none planned = or_no_profile planned

-- The records of the result, for those from an index on.
unfoldable pub commit_results :
    Manifest → List Profile → ℕ → List InspectionRecord → List ImportResult
commit_results m planned index [] = []
commit_results m planned index (r ∷ rs) =
    record {
      ordinal = index;
      result =
          if eq_text r.disposition already_imported then already_imported else codes "imported";
      profile = published_profile (find_profile m.profiles r.id) (find_profile planned r.id);
    }
    ∷ commit_results m planned (suc index) rs

module _ {H : Host} (C : Collaborators H) where
  unfoldable pub replayed_by : Manifest → Option (List ImportResult) → Result CommitResult
  replayed_by m none = stale
  replayed_by m (some results) =
      ok (record { records = results; replayed = true; revision = m.library_revision })

  -- The library has changed since the inspection.
  unfoldable pub replay : List InspectionRecord → Exec (ImportService H) (Result CommitResult)
  unfolding replayed_by exact_replay
  replay records = do
    repaired ← on_store H (repair_durability H)
    unless_err repaired fail
        do m ← on_store H (snapshot H); pure (replayed_by m (exact_replay m.profiles 0 records))

  unfoldable pub publish_plan :
      CommitRequest
      → List InspectionRecord
      → Result Plan
      → Exec (ImportService H) (Result CommitResult)
  unfolding commit_results
  publish_plan request records (fail e) = pure (fail e)
  publish_plan request records (ok plan) = do
    publication ← on_store H (publish H request.library_revision plan.objects)
    unless_err publication.1 fail (
        pure (
          ok (record {
            records = commit_results publication.0.manifest plan.planned 0 records;
            replayed = false;
            revision = publication.0.manifest.library_revision;
          })))

  -- The records are the ones that were signed.
  unfoldable pub commit_records :
      CommitRequest → List InspectionRecord → Exec (ImportService H) (Result CommitResult)
  unfolding replay publish_plan plan_records
  commit_records request records = do
    m ← on_store H (snapshot H)
    if not (m.library_revision == request.library_revision) then replay records else do
      plan ← on_store H (
          on_host H (
            plan_records C request m 0 (record { objects = []; planned = [] }) records
              request.files))
      publish_plan request records plan

  unfoldable pub commit_reinspected :
      CommitRequest
      → ℤ
      → Text
      → Result (List InspectionRecord)
      → Exec (ImportService H) (Result CommitResult)
  unfolding commit_records
  commit_reinspected request expiry signature (fail e) = pure (fail e)
  commit_reinspected request expiry signature (ok records) = do
    key ← gets (λ s. s.key)
    if not (eq_text signature (receipt_mac C key request.library_revision expiry records))
        then pure (fail (invalid_receipt ∷ []))
        else commit_records request records

  unfoldable pub commit_decoded :
      CommitRequest → Result (ℤ × Text) → Exec (ImportService H) (Result CommitResult)
  unfolding commit_reinspected reinspect_bound
  commit_decoded request (fail e) = pure (fail e)
  commit_decoded request (ok (expiry, signature)) = do
    now ← on_store H (on_host H C.now)
    if is_after now expiry then pure (fail (expired_receipt ∷ [])) else do
      records ←
          on_store H (on_host H (reinspect_bound C 0 request.files request.inspection_records))
      commit_reinspected request expiry signature records

  -- What `Commit` does behind the admission.
  unfoldable pub commit_admitted : CommitRequest → Exec (ImportService H) (Result CommitResult)
  unfolding commit_decoded check_metadata
  commit_admitted request = unless_err (validate_import_envelope request.files) fail (
      if not (length request.inspection_records == length request.files)
      then pure (fail (invalid_receipt ∷ []))
      else if not (length request.metadata == length request.files)
      then pure (fail (other ∷ []))
      else unless_err (check_metadata request.metadata 0 request.files) fail
          (commit_decoded request (decode_receipt request.receipt)))

  -- The admission is asked for where there is one; the deferred release follows what it admits.
  unfoldable pub with_admission {ℓ} :
      {A : Type ℓ}
      → Exec (ImportService H) (Result A)
      → Option (Exec H.World (Bool × Err))
      → Exec (ImportService H) (Result A)
  with_admission body none = body
  with_admission body (some ask) = do
    admission ← on_store H (on_host H ask)
    unless_err admission.1 fail do
      if not admission.0
          then pure (fail (other ∷ []))
          else do r ← body; on_store H (on_host H C.release_admission); pure r

  -- `Commit`
  unfoldable pub commit : CommitRequest → Exec (ImportService H) (Result CommitResult)
  unfolding commit_admitted with_admission
  commit request = exclusive H (
      if not request.trust_profile_policy
      then pure (fail (other ∷ []))
      else with_admission (commit_admitted request) C.commit_admission)
