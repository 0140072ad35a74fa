-- ===== src/Import/Plan.antt =====
-- internal/profiles/import.go: the request of a commit, and the loop of `Commit` that plans what to
-- publish.
use tunnelfolio.Prelude.{
  ℕ, suc, Bool, not, ◌&&◌, ◌||◌, Option, none, some, List, [], ◌∷◌, ◌++◌, if◌then◌else◌,
}
use tunnelfolio.Prelude.Text.{Text, eq_text}
use tunnelfolio.Prelude.Err.{Result, ok, fail, stale_inspection}
use tunnelfolio.Prelude.Int.{ℤ, pos}
use tunnelfolio.Prelude.Exec.{Exec, ◌>>=◌, pure}
use tunnelfolio.Profiles.Model.{Profile, Manifest, Metadata, find_profile}
use tunnelfolio.Store.Host.{Host}
use tunnelfolio.Store.Staging.{NewObject}
use tunnelfolio.Import.Model.{ImportFile, InspectionRecord, Instant, eqℤ, utc_time}
use tunnelfolio.Import.Service.{Collaborators}
use tunnelfolio.Import.Inspect.{already_imported}

-- `CommitRequest`; the metadata is a map, which has one entry for a key.
pub record CommitRequest : Type 0 where
  pub files : List ImportFile
  pub library_revision : ℕ
  pub inspection_records : List InspectionRecord
  pub metadata : List (ℤ × Metadata)
  pub receipt : Text
  pub trust_profile_policy : Bool

unfoldable pub find_metadata : List (ℤ × Metadata) → ℤ → Option Metadata
find_metadata [] ordinal = none
find_metadata ((key, m) ∷ entries) ordinal =
    if eqℤ key ordinal then some m else find_metadata entries ordinal

-- `recordMatchesProfile`
unfoldable pub record_matches_profile : InspectionRecord → Profile → Bool
record_matches_profile r p =
    eq_text r.id p.id
    && eq_text r.protocol p.protocol
    && eq_text r.identifier p.identifier
    && eq_text r.digest p.content_sha256
    && eq_text r.wireguard_public_key_digest p.wireguard_public_key_sha256

-- The lists `objects` and `planned` of the loop, the latter with its last entry first.
pub record Plan : Type 0 where
  pub objects : List NewObject
  pub planned : List Profile

abbrev pub stale {ℓ} : {A : Type ℓ} → Result A
stale = fail (stale_inspection ∷ [])

unfoldable pub empty_metadata : Metadata
empty_metadata = record { display_name = []; group = []; location = []; emoji = [] }

abbrev pub metadata_or_empty : Option Metadata → Metadata
metadata_or_empty none = empty_metadata
metadata_or_empty (some m) = m

unfoldable pub new_profile : InspectionRecord → Metadata → ImportFile → Instant → Profile
new_profile r m file now = record {
  id = r.id;
  protocol = r.protocol;
  display_name = m.display_name;
  group = m.group;
  location = m.location;
  emoji = m.emoji;
  identifier = r.identifier;
  original_filename = file.name;
  imported_at = utc_time now;
  content_sha256 = r.digest;
  wireguard_public_key_sha256 = r.wireguard_public_key_digest;
}

unfoldable pub plan_existing : Plan → InspectionRecord → Profile → Result Plan
unfolding record_matches_profile
plan_existing plan r existing =
    if not (eq_text r.disposition already_imported) || not (record_matches_profile r existing)
    then stale
    else ok (record plan { planned = existing ∷ plan.planned })

unfoldable pub plan_prior : Plan → InspectionRecord → Option Profile → Result Plan
unfolding record_matches_profile
plan_prior plan r none = stale
plan_prior plan r (some prior) = if record_matches_profile r prior then ok plan else stale

module _ {H : Host} (C : Collaborators H) where
  unfoldable pub plan_new :
      CommitRequest → ℕ → Plan → InspectionRecord → ImportFile → Exec H.World (Result Plan)
  unfolding find_metadata new_profile
  plan_new request index plan r file = do
    now ← C.now
    let profile =
        new_profile r (metadata_or_empty (find_metadata request.metadata (pos index))) file now
    pure (
        ok (record {
          objects = plan.objects ++ record { profile = profile; bytes = file.bytes } ∷ [];
          planned = profile ∷ plan.planned;
        }))

  -- The body of the loop over the records, by the profile that has the record's ID.
  unfoldable pub plan_record :
      CommitRequest
      → ℕ
      → Plan
      → InspectionRecord
      → ImportFile
      → Option Profile
      → Exec H.World (Result Plan)
  unfolding plan_existing plan_prior plan_new
  plan_record request index plan r file (some existing) = pure (plan_existing plan r existing)
  plan_record request index plan r file none =
      if eq_text r.disposition already_imported
      then pure (plan_prior plan r (find_profile plan.planned r.id))
      else plan_new request index plan r file

  unfoldable pub plan_rest :
      (Plan → Exec H.World (Result Plan)) → Result Plan → Exec H.World (Result Plan)
  plan_rest next (fail e) = pure (fail e)
  plan_rest next (ok plan) = next plan

  -- The loop; there are as many files as records.
  unfoldable pub plan_records :
      CommitRequest
      → Manifest
      → ℕ
      → Plan
      → List InspectionRecord
      → List ImportFile
      → Exec H.World (Result Plan)
  unfolding plan_record plan_rest
  plan_records request m index plan (r ∷ rs) (file ∷ files) = do
    planned ← plan_record request index plan r file (find_profile m.profiles r.id)
    plan_rest (λ next. plan_records request m (suc index) next rs files) planned
  plan_records request m index plan _ _ = pure (ok plan)
