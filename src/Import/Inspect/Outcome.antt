-- ===== src/Import/Inspect/Outcome.antt =====
-- The outcome of `Inspect`, on every branch.
use tunnelfolio.Prelude.{ap, ℕ, subst, Bool, true, false, none, some, List, [], ◌∷◌, ◌≡◌, refl}
use tunnelfolio.Prelude.Lists.{length}
use tunnelfolio.Prelude.Text.{Text}
use tunnelfolio.Prelude.Err.{Err, is_nil, Result, ok, fail, import_busy}
use tunnelfolio.Prelude.Exec.{Post, Post-pure, Post-get, Post-if, Post-unless, Post-gets, Post-bind}
use tunnelfolio.Store.Host.{Host}
use tunnelfolio.Store.State.{Store, Post-on_host}
use tunnelfolio.Store.State.Repair.{SameMemory}
use tunnelfolio.Import.Model.{ImportFile, InspectionRecord, Instant, expiry_of}
use tunnelfolio.Import.Detect.{validate_import_envelope}
use tunnelfolio.Import.Detect.Limits.{IsEnvelope, validate_import_envelope_iff}
use tunnelfolio.Import.Service.{Collaborators, ImportService, sign}
use tunnelfolio.Import.Service.Gate.{Post-exclusive, Post-on_store, Post-on_store_last}
use tunnelfolio.Import.Inspect.{
  Known, Inspection, inspect, inspect_admitted, finish_inspection, known_of,
}
use tunnelfolio.Import.Inspect.Ready.{
  FilesOutcome, all_recorded, files_failed, inspect_files-FilesOutcome,
}
use tunnelfolio.Import.Inspect.Batch.{IsBatch}

module _ {H : Host} (C : Collaborators H) where
  -- What an inspection shows, for the key, the revision and the profiles that it was made with.
  pub record IsInspection (key : Text) (revision : ℕ) (known : Known) (files : List ImportFile)
      (x : Inspection) : Type 0 where
    pub revision_is : x.library_revision ≡ revision
    pub size : length x.inspection_records ≡ length files
    pub batch : IsBatch 0 known x.inspection_records x.commit_ready
    pub signed :
        x.commit_ready ≡ true
        → (now : Instant) × (x.expires_at ≡ some (expiry_of now))
          × (x.receipt ≡ sign C key revision (expiry_of now) x.inspection_records)
    pub unsigned : x.commit_ready ≡ false → (x.receipt ≡ []) × (x.expires_at ≡ none)

  data Inspects (key : Text) (revision : ℕ) (known : Known) (files : List ImportFile)
      : Result Inspection → Type 0 where
    inspects :
        {x : Inspection}
        → IsInspection key revision known files x
        → Inspects key revision known files (ok x)
    inspects_nothing : {e : Err} → is_nil e ≡ false → Inspects key revision known files (fail e)

  finish_inspection-Inspects :
      (key : Text) (revision : ℕ) (known : Known) (files : List ImportFile)
      (o : Result (List InspectionRecord × Bool)) (w : H.World)
      → FilesOutcome 0 known files o
      → Post (finish_inspection C key revision o) (λ r v. Inspects key revision known files r) w
  unfolding finish_inspection
  finish_inspection-Inspects key revision known files o w (files_failed bad) =
      Post-pure _ _ w (inspects_nothing bad)
  finish_inspection-Inspects key revision known files o w (all_recorded {rs} {ready} size batch) =
      Post-if ready _ _ _ w
        (λ yes_.
          Post-bind _ _ (λ _ _. Unit {0}) _ w (record { holds = tt })
            λ now v _. Post-pure _ _ v (
              inspects (record {
                revision_is = refl;
                size = size;
                batch = subst (λ b. IsBatch 0 known rs b) yes_ batch;
                signed = λ _. (now, refl, refl);
                unsigned = λ no_. cc;
              })))
        (λ no_. Post-pure _ _ w (
          inspects (record {
            revision_is = refl;
            size = size;
            batch = subst (λ b. IsBatch 0 known rs b) no_ batch;
            signed = λ yes_. cc;
            unsigned = λ _. (refl, refl);
          })))

  -- The outcome of `Inspect` from a service to a service.
  pub data Inspected (s : ImportService H) (files : List ImportFile)
      : Result Inspection → ImportService H → Type 0 where
    busy : s.gate_free ≡ false → Inspected s files (fail (import_busy ∷ [])) s
    inspected :
        {x : Inspection} {t : ImportService H}
        → IsEnvelope files
        → IsInspection s.key s.store.manifest.library_revision (known_of s.store.manifest) files x
        → t.gate_free ≡ true
        → SameMemory s.store t.store
        → Inspected s files (ok x) t
    not_inspected :
        {e : Err} {t : ImportService H}
        → is_nil e ≡ false
        → t.gate_free ≡ true
        → SameMemory s.store t.store
        → Inspected s files (fail e) t

  inspected_by :
      (s t : ImportService H) (files : List ImportFile) (r : Result Inspection)
      → IsEnvelope files
      → Inspects s.key s.store.manifest.library_revision (known_of s.store.manifest) files r
      → t.gate_free ≡ true
      → SameMemory s.store t.store
      → Inspected s files r t
  inspected_by s t files r envelope (inspects is) free same = inspected envelope is free same
  inspected_by s t files r envelope (inspects_nothing bad) free same = not_inspected bad free same

  -- The outcome of `Inspect`: a busy service refuses and changes nothing; otherwise the gate is free
  -- again and the store's memory is untouched, and a result shows the library's revision and one
  -- record for each file of a request within the limits, is ready exactly if no record has an issue,
  -- and carries a receipt, signed for these records, exactly if it is ready.
  pub inspect-Inspected :
      (s : ImportService H) (files : List ImportFile) → Post (inspect C files) (Inspected s files) s
  unfolding inspect inspect_admitted
  inspect-Inspected s files = Post-exclusive H _ _ s busy λ _.
      Post-unless (validate_import_envelope files) _ _ _ _
        (λ bad. not_inspected bad refl (record { manifest = refl; unknown = refl }))
        λ nil.
          let envelope = (validate_import_envelope_iff files).0 (rw nil) in
          Post-on_store H _ _ (λ m u. (m ≡ s.store.manifest) × (u ≡ s.store)) _ _
            (Post-gets _ _ _ (refl, refl))
            λ m u same. Post-get _ _ _ _ (
              Post-on_store H _ _
                (λ o v. FilesOutcome 0 (known_of m) files o × SameMemory s.store v) _ _
                (Post-on_host H _ _ _ _ (inspect_files-FilesOutcome C 0 (known_of m) files u.world)
                  λ o w all. (
                    all,
                    record {
                      manifest = ap (λ (x : Store H). x.manifest) same.1;
                      unknown = ap (λ (x : Store H). x.durability_unknown) same.1;
                    },
                  ))
                λ o v all.
                  Post-on_store_last H _
                    (λ r x.
                      Inspects s.key s.store.manifest.library_revision (known_of s.store.manifest)
                        files r
                      × SameMemory s.store x)
                    _ _
                    (Post-on_host H _ _ _ _
                      (finish_inspection-Inspects s.key m.library_revision (known_of m) files o
                        v.world all.0)
                      λ r w is. (
                        subst (λ k. Inspects s.key k.library_revision (known_of k) files r) same.0
                            is,
                        record { manifest = all.1.manifest; unknown = all.1.unknown },
                      ))
                    λ r x is. inspected_by s _ files r envelope is.0 refl is.1)
