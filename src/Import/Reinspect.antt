-- ===== src/Import/Reinspect.antt =====
-- internal/profiles/import.go: `reinspectBound`, which reads the files of a commit again.
use tunnelfolio.Prelude.{ℕ, suc, Bool, true, false, not, ◌&&◌, ◌||◌, List, [], ◌∷◌, if◌then◌else◌}
use tunnelfolio.Prelude.Text.{Text, eq_text}
use tunnelfolio.Prelude.Err.{is_nil, Result, ok, fail}
use tunnelfolio.Prelude.Int.{pos}
use tunnelfolio.Prelude.Exec.{Exec, ◌>>=◌, pure}
use tunnelfolio.Policy.{Checked, pass, reject}
use tunnelfolio.Profiles.Model.{
  protocol_wireguard, id_pattern, valid_protocol, validate_original_filename,
}
use tunnelfolio.Profiles.Id.{runtime_identifier}
use tunnelfolio.Profiles.Import.{validate_imported_profile}
use tunnelfolio.Store.Host.{Host}
use tunnelfolio.Import.Model.{ImportFile, InspectionRecord, eqℤ}
use tunnelfolio.Import.Detect.{Detected, detected, undetected, detect_protocol}
use tunnelfolio.Import.Receipt.{invalid}
use tunnelfolio.Import.Service.{Collaborators}
use tunnelfolio.Import.Inspect.{disposition_new, already_imported}

abbrev pub is_empty_list {ℓ} : {A : Type ℓ} → List A → Bool
is_empty_list [] = true
is_empty_list (_ ∷ _) = false

module _ {H : Host} (C : Collaborators H) where
  -- What the client may choose is as `Inspect` writes it.
  unfoldable pub is_well_bound : ℕ → InspectionRecord → Bool
  is_well_bound index bound =
      eqℤ bound.ordinal (pos index)
      && id_pattern bound.id
      && valid_protocol bound.protocol
      && eq_text bound.identifier (runtime_identifier (C.sha256 bound.id))
      && (eq_text bound.disposition disposition_new || eq_text bound.disposition already_imported)
      && is_empty_list bound.issues

  abbrev pub rebound : ImportFile → InspectionRecord → Text → InspectionRecord
  rebound file bound fingerprint = record bound {
    digest = H.platform.sha256_hex file.bytes;
    wireguard_public_key_digest = fingerprint;
    protocol_override = file.protocol_override;
    issues = [];
  }

  unfoldable pub reinspect_policy :
      ImportFile → InspectionRecord → Text → Checked Text → Exec H.World (Result InspectionRecord)
  reinspect_policy file bound protocol (reject _ _) = pure invalid
  reinspect_policy file bound protocol (pass fingerprint) =
      if eq_text protocol protocol_wireguard
      then (do
        e ← C.check_wireguard file.bytes
        if not (is_nil e) then pure invalid else pure (ok (rebound file bound fingerprint)))
      else pure (ok (rebound file bound fingerprint))

  unfoldable pub reinspect_detected :
      ImportFile → InspectionRecord → Detected → Exec H.World (Result InspectionRecord)
  unfolding reinspect_policy
  reinspect_detected file bound (undetected _) = pure invalid
  reinspect_detected file bound (detected protocol) =
      if not (eq_text protocol bound.protocol)
      then pure invalid
      else reinspect_policy file bound protocol
          (validate_imported_profile H.platform protocol file.bytes)

  -- The body of the loop of `reinspectBound`.
  unfoldable pub reinspect_file :
      ℕ → ImportFile → InspectionRecord → Exec H.World (Result InspectionRecord)
  unfolding reinspect_detected is_well_bound
  reinspect_file index file bound =
      if not (is_well_bound index bound)
      then pure invalid
      else if not (is_nil (validate_original_filename file.name))
      then pure invalid
      else reinspect_detected file bound (detect_protocol H.platform file)

  abbrev pub cons_result :
      InspectionRecord → Result (List InspectionRecord) → Result (List InspectionRecord)
  cons_result r (fail e) = fail e
  cons_result r (ok rs) = ok (r ∷ rs)

  unfoldable pub reinspect_rest :
      Exec H.World (Result (List InspectionRecord))
      → Result InspectionRecord
      → Exec H.World (Result (List InspectionRecord))
  reinspect_rest next (fail e) = pure (fail e)
  reinspect_rest next (ok r) = do rest ← next; pure (cons_result r rest)

  -- `reinspectBound`; there are as many records as files.
  unfoldable pub reinspect_bound :
      ℕ → List ImportFile → List InspectionRecord → Exec H.World (Result (List InspectionRecord))
  unfolding reinspect_file reinspect_rest
  reinspect_bound index (file ∷ files) (bound ∷ supplied) = do
    r ← reinspect_file index file bound
    reinspect_rest (reinspect_bound (suc index) files supplied) r
  reinspect_bound index _ _ = pure (ok [])
