-- ===== src/Import/Inspect/Ready.antt =====
-- What an inspection records of its files.
use tunnelfolio.Prelude.{
  ℕ, suc, Bool, false, not, Option, none, some, List, [], ◌∷◌, ◌≡◌, refl, arith,
}
use tunnelfolio.Prelude.Lists.{length}
use tunnelfolio.Prelude.Text.{Text, eq_text}
use tunnelfolio.Prelude.Int.{pos}
use tunnelfolio.Prelude.Err.{Err, is_nil, Result, ok, fail}
use tunnelfolio.Prelude.Exec.{Post, Post-pure, Post-if, Post-bind}
use tunnelfolio.Policy.{Checked, pass, reject}
use tunnelfolio.Profiles.Model.{Profile, protocol_wireguard, validate_original_filename}
use tunnelfolio.Store.Host.{Host}
use tunnelfolio.Import.Model.{ImportFile, InspectionRecord, Issue, invalid_filename}
use tunnelfolio.Import.Detect.{Detected, detected, undetected}
use tunnelfolio.Import.Service.{Collaborators}
use tunnelfolio.Import.Service.Identity.{
  IsIdentity, fresh, no_identity, generate_identity-IsIdentity,
}
use tunnelfolio.Import.Inspect.Batch.{
  IsBatch, IsInspected, with_issue, existing, new, IsBatch-cons, IsBatch-nil, contains-contents,
}
use tunnelfolio.Import.Inspect.{
  Known, Inspected, find_content, rejected, take_existing, take_new, identify_new, identify,
  inspect_accepted, inspect_policy, inspect_detected, inspect_file, inspect_rest, join_inspected,
  inspect_files, empty_record,
}

-- An inspection of one file that returns a record.
data FileOutcome (n : ℕ) (known : Known) : Result Inspected → Type 0 where
  recorded : {i : Inspected} → IsInspected n known i → FileOutcome n known (ok i)
  file_failed : {e : Err} → is_nil e ≡ false → FileOutcome n known (fail e)

module _ {H : Host} (C : Collaborators H) (n : ℕ) (known : Known) where
  take_new-FileOutcome :
      (r : InspectionRecord) (identity : Result (Text × Text))
      → r.ordinal ≡ pos n
      → r.issues ≡ []
      → find_content known.by_digest r.digest ≡ none
      → IsIdentity C r.protocol known.identifiers identity
      → FileOutcome n known (take_new known r identity)
  unfolding take_new
  take_new-FileOutcome r identity ordinal issues unseen (fresh raw drawn_at drawn free unused) =
      recorded (
        new ordinal issues refl refl unused (contains-contents known.by_digest r.digest unseen) refl
          refl)
  take_new-FileOutcome r identity ordinal issues unseen (no_identity bad) = file_failed bad

  identify-FileOutcome :
      (r : InspectionRecord) (found : Option Profile) (w : H.World)
      → r.ordinal ≡ pos n
      → r.issues ≡ []
      → find_content known.by_digest r.digest ≡ found
      → Post (identify C known r found) (λ o v. FileOutcome n known o) w
  unfolding identify identify_new take_existing
  identify-FileOutcome r (some p) w ordinal issues is =
      Post-pure _ _ w (recorded (existing ordinal issues refl refl refl))
  identify-FileOutcome r none w ordinal issues is =
      Post-bind _ _ _ _ w (generate_identity-IsIdentity C r.protocol known.identifiers w)
        λ identity v made. Post-pure _ _ v (take_new-FileOutcome r identity ordinal issues is made)

  rejected-FileOutcome :
      (r : InspectionRecord) (issue : Issue)
      → r.ordinal ≡ pos n
      → r.disposition ≡ []
      → FileOutcome n known (ok (rejected known r issue))
  rejected-FileOutcome r issue ordinal undisposed =
      recorded (with_issue issue ordinal refl undisposed refl refl)

  inspect_accepted-FileOutcome :
      (bytes : Text) (r : InspectionRecord) (fingerprint : Text) (w : H.World)
      → r.ordinal ≡ pos n
      → r.issues ≡ []
      → r.disposition ≡ []
      → Post (inspect_accepted C bytes known r fingerprint) (λ o v. FileOutcome n known o) w
  unfolding inspect_accepted
  inspect_accepted-FileOutcome bytes r fingerprint w ordinal issues undisposed =
      Post-if (eq_text r.protocol protocol_wireguard) _ _ _ w
        (λ _.
          Post-bind _ _ (λ _ _. Unit {0}) _ w (record { holds = tt })
            λ e v _.
              Post-if (not (is_nil e)) _ _ _ v
                (λ _. Post-pure _ _ v (rejected-FileOutcome r _ ordinal undisposed))
                (λ _.
                  identify-FileOutcome (record r { wireguard_public_key_digest = fingerprint }) _ v
                    ordinal issues refl))
        (λ _. identify-FileOutcome r _ w ordinal issues refl)

  inspect_policy-FileOutcome :
      (bytes : Text) (r : InspectionRecord) (c : Checked Text) (w : H.World)
      → r.ordinal ≡ pos n
      → r.issues ≡ []
      → r.disposition ≡ []
      → Post (inspect_policy C bytes known r c) (λ o v. FileOutcome n known o) w
  unfolding inspect_policy
  inspect_policy-FileOutcome bytes r (reject _ code) w ordinal issues undisposed =
      Post-pure _ _ w (rejected-FileOutcome r _ ordinal undisposed)
  inspect_policy-FileOutcome bytes r (pass fingerprint) w ordinal issues undisposed =
      inspect_accepted-FileOutcome bytes r fingerprint w ordinal issues undisposed

  inspect_detected-FileOutcome :
      (bytes : Text) (r : InspectionRecord) (d : Detected) (w : H.World)
      → r.ordinal ≡ pos n
      → r.issues ≡ []
      → r.disposition ≡ []
      → Post (inspect_detected C bytes known r d) (λ o v. FileOutcome n known o) w
  unfolding inspect_detected
  inspect_detected-FileOutcome bytes r (undetected issue) w ordinal issues undisposed =
      Post-pure _ _ w (rejected-FileOutcome r issue ordinal undisposed)
  inspect_detected-FileOutcome bytes r (detected protocol) w ordinal issues undisposed =
      inspect_policy-FileOutcome bytes (record r { protocol = protocol }) _ w ordinal issues
        undisposed

  inspect_file-FileOutcome :
      (file : ImportFile) (w : H.World)
      → Post (inspect_file C n known file) (λ o v. FileOutcome n known o) w
  unfolding inspect_file empty_record
  inspect_file-FileOutcome file w =
      Post-if (not (is_nil (validate_original_filename file.name))) _ _ _ w
        (λ _.
          Post-pure _ _ w (rejected-FileOutcome (empty_record n file) invalid_filename refl refl))
        (λ _.
          inspect_detected-FileOutcome file.bytes
            (record (empty_record n file) { digest = H.platform.sha256_hex file.bytes }) _ w refl
            refl refl)

-- An inspection of files that returns their records.
pub data FilesOutcome (n : ℕ) (known : Known) (files : List ImportFile)
    : Result (List InspectionRecord × Bool) → Type 0 where
  all_recorded :
      {rs : List InspectionRecord} {ready : Bool}
      → length rs ≡ length files
      → IsBatch n known rs ready
      → FilesOutcome n known files (ok (rs, ready))
  files_failed : {e : Err} → is_nil e ≡ false → FilesOutcome n known files (fail e)

join_inspected-FilesOutcome :
    (n : ℕ) (known : Known) (file : ImportFile) (files : List ImportFile) (i : Inspected)
    (rest : Result (List InspectionRecord × Bool))
    → IsInspected n known i
    → FilesOutcome (suc n) i.known files rest
    → FilesOutcome n known (file ∷ files) (join_inspected i rest)
unfolding join_inspected
join_inspected-FilesOutcome n known file files i rest one (all_recorded {rs} {ready} size batch) =
    all_recorded (omega (arith, size)) (IsBatch-cons n known i rs ready one batch)
join_inspected-FilesOutcome n known file files i rest one (files_failed bad) = files_failed bad

module _ {H : Host} (C : Collaborators H) where
  inspect_rest-FilesOutcome :
      (n : ℕ) (known : Known) (file : ImportFile) (files : List ImportFile)
      → ((k : Known) (v : H.World)
          → Post (inspect_files C (suc n) k files) (λ o u. FilesOutcome (suc n) k files o) v)
      → (o : Result Inspected) (v : H.World) → FileOutcome n known o
      → Post
          (inspect_rest C (λ k. inspect_files C (suc n) k files) o)
          (λ o u. FilesOutcome n known (file ∷ files) o)
          v
  unfolding inspect_rest
  inspect_rest-FilesOutcome n known file files ih o v (file_failed bad) =
      Post-pure _ _ v (files_failed bad)
  inspect_rest-FilesOutcome n known file files ih o v (recorded {i} one) =
      Post-bind _ _ _ _ v (ih i.known v) λ rest u after.
        Post-pure _ _ u (join_inspected-FilesOutcome n known file files i rest one after)

  -- The records of an inspection are numbered from the given ordinal, one for each file; the new
  -- ones have pairwise different identifiers and contents that no profile known before has; and all
  -- of them are ready exactly if none has an issue.
  pub inspect_files-FilesOutcome :
      (n : ℕ) (known : Known) (files : List ImportFile) (w : H.World)
      → Post (inspect_files C n known files) (λ o v. FilesOutcome n known files o) w
  unfolding inspect_files
  inspect_files-FilesOutcome n known [] w =
      Post-pure _ _ w (all_recorded refl (IsBatch-nil n known))
  inspect_files-FilesOutcome n known (file ∷ files) w =
      Post-bind _ _ _ _ w (inspect_file-FileOutcome C n known file w) λ o v one.
        inspect_rest-FilesOutcome n known file files
          (λ k. inspect_files-FilesOutcome (suc n) k files) o v one
