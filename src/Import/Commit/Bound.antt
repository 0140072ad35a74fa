-- ===== src/Import/Commit/Bound.antt =====
-- What `reinspectBound` has checked of the records that it returns.
use tunnelfolio.Prelude.{
  ℕ, suc, true, false, not, List, [], ◌∷◌, ◌≡◌, refl, sym, ap, ◌∙◌, subst, arith,
}
use tunnelfolio.Prelude.Lists.{length}
use tunnelfolio.Prelude.Text.{Text, eq_text, eq_text_iff}
use tunnelfolio.Prelude.Err.{Err, is_nil, eq-nil, Result, ok, fail}
use tunnelfolio.Prelude.Exec.{Post, Post-pure, Post-if, Post-bind}
use tunnelfolio.Policy.{Checked, pass, reject}
use tunnelfolio.Profiles.Model.{protocol_wireguard, validate_original_filename}
use tunnelfolio.Profiles.Import.{validate_imported_profile}
use tunnelfolio.Store.Host.{Host}
use tunnelfolio.Import.Model.{ImportFile, InspectionRecord}
use tunnelfolio.Import.Detect.{Detected, detected, undetected, detect_protocol}
use tunnelfolio.Import.Service.{Collaborators}
use tunnelfolio.Import.Reinspect.{
  is_well_bound, rebound, cons_result, reinspect_policy, reinspect_detected, reinspect_file,
  reinspect_rest, reinspect_bound,
}

module _ {H : Host} (C : Collaborators H) where
  -- The record of a file, made of the one that the client sent: its ordinal, ID and identifier are
  -- well-formed, and the rest is read from the file.
  pub record IsRebound (index : ℕ) (file : ImportFile) (bound r : InspectionRecord) : Type 0 where
    pub well_bound : is_well_bound C index bound ≡ true
    pub named : validate_original_filename file.name ≡ []
    pub protocol : detect_protocol H.platform file ≡ detected bound.protocol
    pub accepted :
        validate_imported_profile H.platform bound.protocol file.bytes
        ≡ pass r.wireguard_public_key_digest
    pub is : r ≡ rebound C file bound r.wireguard_public_key_digest

  -- One record for each file, in their order.
  pub data AreRebound
      : ℕ → List ImportFile → List InspectionRecord → List InspectionRecord → Type 0 where
    no_files : {n : ℕ} → AreRebound n [] [] []
    next_file :
        {n : ℕ} {file : ImportFile} {files : List ImportFile} {bound r : InspectionRecord}
        {supplied rs : List InspectionRecord}
        → IsRebound n file bound r
        → AreRebound (suc n) files supplied rs
        → AreRebound n (file ∷ files) (bound ∷ supplied) (r ∷ rs)

  data FileRebound (index : ℕ) (file : ImportFile) (bound : InspectionRecord)
      : Result InspectionRecord → Type 0 where
    file_rebound :
        {r : InspectionRecord} → IsRebound index file bound r → FileRebound index file bound (ok r)
    file_refused : {e : Err} → is_nil e ≡ false → FileRebound index file bound (fail e)

  module _ (index : ℕ) (file : ImportFile) (bound : InspectionRecord)
      (well : is_well_bound C index bound ≡ true)
      (named : validate_original_filename file.name ≡ []) where
    rebound_here :
        (fingerprint : Text)
        → detect_protocol H.platform file ≡ detected bound.protocol
        → validate_imported_profile H.platform bound.protocol file.bytes ≡ pass fingerprint
        → FileRebound index file bound (ok (rebound C file bound fingerprint))
    rebound_here fingerprint protocol accepted = file_rebound (record {
      well_bound = well;
      named = named;
      protocol = protocol;
      accepted = accepted;
      is = refl;
    })

    reinspect_policy-FileRebound :
        (c : Checked Text) (w : H.World)
        → detect_protocol H.platform file ≡ detected bound.protocol
        → validate_imported_profile H.platform bound.protocol file.bytes ≡ c
        → Post
            (reinspect_policy C file bound bound.protocol c)
            (λ r v. FileRebound index file bound r)
            w
    unfolding reinspect_policy
    reinspect_policy-FileRebound (reject _ _) w protocol is = Post-pure _ _ w (file_refused refl)
    reinspect_policy-FileRebound (pass fingerprint) w protocol is =
        Post-if (eq_text bound.protocol protocol_wireguard) _ _ _ w
          (λ _.
            Post-bind _ _ (λ _ _. Unit {0}) _ w (record { holds = tt })
              λ e v _.
                Post-if (not (is_nil e)) _ _ _ v (λ _. Post-pure _ _ v (file_refused refl))
                  (λ _. Post-pure _ _ v (rebound_here fingerprint protocol is)))
          (λ _. Post-pure _ _ w (rebound_here fingerprint protocol is))

    reinspect_detected-FileRebound :
        (d : Detected) (w : H.World)
        → detect_protocol H.platform file ≡ d
        → Post (reinspect_detected C file bound d) (λ r v. FileRebound index file bound r) w
    unfolding reinspect_detected
    reinspect_detected-FileRebound (undetected _) w is = Post-pure _ _ w (file_refused refl)
    reinspect_detected-FileRebound (detected protocol) w is =
        Post-if (not (eq_text protocol bound.protocol)) _ _ _ w
          (λ _. Post-pure _ _ w (file_refused refl))
          λ same.
            let e = (eq_text_iff protocol bound.protocol).0 (ground (arith, same)) in
            subst
              (λ p.
                Post
                  (reinspect_policy C file bound p
                    (validate_imported_profile H.platform p file.bytes))
                  (λ r v. FileRebound index file bound r) w)
              (sym e) (reinspect_policy-FileRebound _ w (is ∙ ap detected e) refl)

  reinspect_file-FileRebound :
      (index : ℕ) (file : ImportFile) (bound : InspectionRecord) (w : H.World)
      → Post (reinspect_file C index file bound) (λ r v. FileRebound index file bound r) w
  unfolding reinspect_file
  reinspect_file-FileRebound index file bound w =
      Post-if (not (is_well_bound C index bound)) _ _ _ w (λ _. Post-pure _ _ w (file_refused refl))
        λ well.
          Post-if (not (is_nil (validate_original_filename file.name))) _ _ _ w
            (λ _. Post-pure _ _ w (file_refused refl))
            λ named.
              reinspect_detected-FileRebound index file bound (ground (arith, well))
                (eq-nil _ (ground (arith, named))) _ w refl

  pub data BoundOutcome (index : ℕ) (files : List ImportFile) (supplied : List InspectionRecord)
      : Result (List InspectionRecord) → Type 0 where
    rebound_all :
        {rs : List InspectionRecord}
        → AreRebound index files supplied rs
        → BoundOutcome index files supplied (ok rs)
    not_rebound : {e : Err} → is_nil e ≡ false → BoundOutcome index files supplied (fail e)

  cons_result-BoundOutcome :
      (index : ℕ) (file : ImportFile) (files : List ImportFile) (bound r : InspectionRecord)
      (supplied : List InspectionRecord) (rest : Result (List InspectionRecord))
      → IsRebound index file bound r
      → BoundOutcome (suc index) files supplied rest
      → BoundOutcome index (file ∷ files) (bound ∷ supplied) (cons_result C r rest)
  cons_result-BoundOutcome index file files bound r supplied rest one (rebound_all all) =
      rebound_all (next_file one all)
  cons_result-BoundOutcome index file files bound r supplied rest one (not_rebound bad) =
      not_rebound bad

  reinspect_rest-BoundOutcome :
      (index : ℕ) (file : ImportFile) (files : List ImportFile) (bound : InspectionRecord)
      (supplied : List InspectionRecord)
      → ((v : H.World)
          → Post
              (reinspect_bound C (suc index) files supplied)
              (λ r u. BoundOutcome (suc index) files supplied r)
              v)
      → (o : Result InspectionRecord) (v : H.World) → FileRebound index file bound o
      → Post
          (reinspect_rest C (reinspect_bound C (suc index) files supplied) o)
          (λ r u. BoundOutcome index (file ∷ files) (bound ∷ supplied) r)
          v
  unfolding reinspect_rest
  reinspect_rest-BoundOutcome index file files bound supplied ih o v (file_refused bad) =
      Post-pure _ _ v (not_rebound bad)
  reinspect_rest-BoundOutcome index file files bound supplied ih o v (file_rebound {r} one) =
      Post-bind _ _ _ _ v (ih v) λ rest u after.
        Post-pure _ _ u (cons_result-BoundOutcome index file files bound r supplied rest one after)

  -- Records that are returned are made of the files, one for each.
  pub reinspect_bound-BoundOutcome :
      (index : ℕ) (files : List ImportFile) (supplied : List InspectionRecord) (w : H.World)
      → length supplied ≡ length files
      → Post (reinspect_bound C index files supplied) (λ r v. BoundOutcome index files supplied r) w
  unfolding reinspect_bound
  reinspect_bound-BoundOutcome index [] [] w same = Post-pure _ _ w (rebound_all no_files)
  reinspect_bound-BoundOutcome index [] (bound ∷ supplied) w same = absurd (omega (arith, same))
  reinspect_bound-BoundOutcome index (file ∷ files) [] w same = absurd (omega (arith, same))
  reinspect_bound-BoundOutcome index (file ∷ files) (bound ∷ supplied) w same =
      Post-bind _ _ _ _ w (reinspect_file-FileRebound index file bound w) λ o v one.
        reinspect_rest-BoundOutcome index file files bound supplied
          (λ u. reinspect_bound-BoundOutcome (suc index) files supplied u (omega (arith, same))) o v
          one
