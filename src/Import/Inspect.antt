-- ===== src/Import/Inspect.antt =====
-- internal/profiles/import.go: `Inspect`. The suggested display names, which nothing else reads, are
-- left out.
pub mod Batch
pub mod Outcome
pub mod Ready
use tunnelfolio.Prelude.{
  ℕ, zero, suc, Bool, true, false, not, ◌&&◌, Option, none, some, List, [], ◌∷◌, if◌then◌else◌,
}
use tunnelfolio.Prelude.Text.{Text, codes, eq_text}
use tunnelfolio.Prelude.Err.{Err, is_nil, Result, ok, fail}
use tunnelfolio.Prelude.Int.{ℤ, pos}
use tunnelfolio.Prelude.Exec.{Exec, ◌>>=◌, ◌>>◌, pure, gets, unless_err}
use tunnelfolio.Policy.{Checked, pass, reject}
use tunnelfolio.Profiles.Model.{Profile, Manifest, protocol_wireguard, validate_original_filename}
use tunnelfolio.Profiles.Import.{validate_imported_profile}
use tunnelfolio.Store.Host.{Host}
use tunnelfolio.Store.State.{on_host, snapshot}
use tunnelfolio.Import.Model.{
  ImportFile, InspectionRecord, Issue, invalid_filename, wg_quick_incompatible, policy, expiry_of,
}
use tunnelfolio.Import.Detect.{
  Detected, detected, undetected, validate_import_envelope, detect_protocol,
}
use tunnelfolio.Import.Service.{
  Collaborators, ImportService, on_store, exclusive, sign, generate_identity,
}

-- `Inspection`
pub record Inspection : Type 0 where
  pub library_revision : ℕ
  pub inspection_records : List InspectionRecord
  pub receipt : Text
  pub expires_at : Option ℤ
  pub commit_ready : Bool

abbrev pub disposition_new : Text
disposition_new = codes "new"

abbrev pub already_imported : Text
already_imported = codes "already_imported"

-- The maps `byDigest` and `identifiers`, the last entry first.
pub record Known : Type 0 where
  pub by_digest : List Profile
  pub identifiers : List Text

-- `byDigest[digest]`
unfoldable pub find_content : List Profile → Text → Option Profile
find_content [] digest = none
find_content (p ∷ ps) digest =
    if eq_text p.content_sha256 digest then some p else find_content ps digest

unfoldable pub know_profiles : Known → List Profile → Known
know_profiles known [] = known
know_profiles known (p ∷ ps) =
    know_profiles
      (record { by_digest = p ∷ known.by_digest; identifiers = p.identifier ∷ known.identifiers })
      ps

unfoldable pub known_of : Manifest → Known
unfolding know_profiles
known_of m = know_profiles (record { by_digest = []; identifiers = [] }) m.profiles

-- What one file adds: its record, what is known behind it, and whether it has no issue.
pub record Inspected : Type 0 where
  pub entry : InspectionRecord
  pub known : Known
  pub ready : Bool

unfoldable pub empty_record : ℕ → ImportFile → InspectionRecord
empty_record ordinal file = record {
  ordinal = pos ordinal;
  id = [];
  protocol = [];
  identifier = [];
  disposition = [];
  issues = [];
  digest = [];
  wireguard_public_key_digest = [];
  protocol_override = file.protocol_override;
}

abbrev pub rejected : Known → InspectionRecord → Issue → Inspected
rejected known r issue = record {
  entry = record r { issues = issue ∷ [] };
  known = known;
  ready = false;
}

-- The bytes are those of a profile that is known.
unfoldable pub take_existing : Known → InspectionRecord → Profile → Inspected
take_existing known r existing = record {
  entry = record r {
    id = existing.id;
    protocol = existing.protocol;
    identifier = existing.identifier;
    wireguard_public_key_digest = existing.wireguard_public_key_sha256;
    disposition = already_imported;
  };
  known = known;
  ready = true;
}

abbrev draft : InspectionRecord → Text → Text → Profile
draft r id identifier = record {
  id = id;
  protocol = r.protocol;
  display_name = [];
  group = [];
  location = [];
  emoji = [];
  identifier = identifier;
  original_filename = [];
  imported_at = record { seconds = 0; is_utc = true };
  content_sha256 = r.digest;
  wireguard_public_key_sha256 = r.wireguard_public_key_digest;
}

unfoldable pub take_new : Known → InspectionRecord → Result (Text × Text) → Result Inspected
take_new known r (fail e) = fail e
take_new known r (ok (id, identifier)) = ok (record {
  entry = record r { id = id; identifier = identifier; disposition = disposition_new };
  known = record {
    by_digest = draft r id identifier ∷ known.by_digest;
    identifiers = identifier ∷ known.identifiers;
  };
  ready = true;
})

unfoldable pub join_inspected :
    Inspected → Result (List InspectionRecord × Bool) → Result (List InspectionRecord × Bool)
join_inspected inspected (fail e) = fail e
join_inspected inspected (ok (records, ready)) =
    ok (inspected.entry ∷ records, inspected.ready && ready)

module _ {H : Host} (C : Collaborators H) where
  unfoldable pub identify_new : Known → InspectionRecord → Exec H.World (Result Inspected)
  unfolding take_new
  identify_new known r = do
    identity ← generate_identity C r.protocol known.identifiers
    pure (take_new known r identity)

  unfoldable pub identify :
      Known → InspectionRecord → Option Profile → Exec H.World (Result Inspected)
  unfolding take_existing identify_new
  identify known r (some existing) = pure (ok (take_existing known r existing))
  identify known r none = identify_new known r

  -- The file passed the policy, with the fingerprint of its key.
  unfoldable pub inspect_accepted :
      Text → Known → InspectionRecord → Text → Exec H.World (Result Inspected)
  unfolding identify
  inspect_accepted bytes known r fingerprint =
      if eq_text r.protocol protocol_wireguard
      then (do
        e ← C.check_wireguard bytes
        if not (is_nil e)
            then pure (ok (rejected known r wg_quick_incompatible))
            else identify known (record r { wireguard_public_key_digest = fingerprint })
                (find_content known.by_digest r.digest))
      else identify known r (find_content known.by_digest r.digest)

  unfoldable pub inspect_policy :
      Text → Known → InspectionRecord → Checked Text → Exec H.World (Result Inspected)
  unfolding inspect_accepted
  inspect_policy bytes known r (reject _ code) = pure (ok (rejected known r (policy code)))
  inspect_policy bytes known r (pass fingerprint) = inspect_accepted bytes known r fingerprint

  unfoldable pub inspect_detected :
      Text → Known → InspectionRecord → Detected → Exec H.World (Result Inspected)
  unfolding inspect_policy
  inspect_detected bytes known r (undetected issue) = pure (ok (rejected known r issue))
  inspect_detected bytes known r (detected protocol) =
      inspect_policy bytes known (record r { protocol = protocol })
        (validate_imported_profile H.platform protocol bytes)

  -- The body of the loop.
  unfoldable pub inspect_file : ℕ → Known → ImportFile → Exec H.World (Result Inspected)
  unfolding inspect_detected empty_record
  inspect_file ordinal known file =
      let r = empty_record ordinal file in
      if not (is_nil (validate_original_filename file.name))
      then pure (ok (rejected known r invalid_filename))
      else inspect_detected file.bytes known
          (record r { digest = H.platform.sha256_hex file.bytes }) (detect_protocol H.platform file)

  -- The rest of the loop behind one file.
  unfoldable pub inspect_rest :
      (Known → Exec H.World (Result (List InspectionRecord × Bool)))
      → Result Inspected
      → Exec H.World (Result (List InspectionRecord × Bool))
  unfolding join_inspected
  inspect_rest next (fail e) = pure (fail e)
  inspect_rest next (ok inspected) = do
    rest ← next inspected.known
    pure (join_inspected inspected rest)

  -- The loop, with the records of the files and whether all of them are ready.
  unfoldable pub inspect_files :
      ℕ → Known → List ImportFile → Exec H.World (Result (List InspectionRecord × Bool))
  unfolding inspect_file inspect_rest
  inspect_files ordinal known [] = pure (ok ([], true))
  inspect_files ordinal known (file ∷ files) = do
    r ← inspect_file ordinal known file
    inspect_rest (λ after. inspect_files (suc ordinal) after files) r

  -- The receipt is signed when every file is ready.
  unfoldable pub finish_inspection :
      Text → ℕ → Result (List InspectionRecord × Bool) → Exec H.World (Result Inspection)
  finish_inspection key revision (fail e) = pure (fail e)
  finish_inspection key revision (ok (records, ready)) =
      if ready
      then (do
        now ← C.now
        let expiry = expiry_of now
        pure (
            ok (record {
              library_revision = revision;
              inspection_records = records;
              receipt = sign C key revision expiry records;
              expires_at = some expiry;
              commit_ready = true;
            })))
      else pure (
          ok (record {
            library_revision = revision;
            inspection_records = records;
            receipt = [];
            expires_at = none;
            commit_ready = false;
          }))

  unfoldable pub inspect_admitted : List ImportFile → Exec (ImportService H) (Result Inspection)
  unfolding finish_inspection inspect_files known_of
  inspect_admitted files = unless_err (validate_import_envelope files) fail do
    m ← on_store H (snapshot H)
    key ← gets (λ s. s.key)
    walked ← on_store H (on_host H (inspect_files 0 (known_of m) files))
    on_store H (on_host H (finish_inspection key m.library_revision walked))

  -- `Inspect`
  unfoldable pub inspect : List ImportFile → Exec (ImportService H) (Result Inspection)
  unfolding inspect_admitted
  inspect files = exclusive H (inspect_admitted files)
