-- ===== src/Import/Commit/Outcome.antt =====
-- The outcome of `Commit`, on every branch.
use tunnelfolio.Prelude.{
  Bool, true, false, not, Option, none, some, List, [], ◌∷◌, ◌≡◌, refl, sym, ap, ◌∙◌, subst, arith,
  ◌==◌,
}
use tunnelfolio.Prelude.Lists.{length, All}
use tunnelfolio.Prelude.Int.{ℤ}
use tunnelfolio.Prelude.Text.{Text, eq_text, eq_text_iff}
use tunnelfolio.Prelude.Err.{Err, is_nil, Result, ok, fail, import_busy}
use tunnelfolio.Prelude.Exec.{
  Exec, Post, Post-pure, Post-get, Post-if, Post-unless, Post-bind, Post-mono,
}
use tunnelfolio.Profiles.Model.{Manifest}
use tunnelfolio.Store.Host.{Host}
use tunnelfolio.Store.State.{Store}
use tunnelfolio.Store.State.Repair.{
  SameMemory, SameMemory-trans, SameMemory-then, Repaired, repair_durability-Repaired,
}
use tunnelfolio.Store.Publish.Run.{Publication, Publication-manifest, publish-Publication}
use tunnelfolio.Import.Model.{InspectionRecord, Instant, is_after}
use tunnelfolio.Import.Detect.{validate_import_envelope}
use tunnelfolio.Import.Detect.Limits.{IsEnvelope, validate_import_envelope_iff}
use tunnelfolio.Import.Receipt.{decode_receipt}
use tunnelfolio.Import.Receipt.RoundTrip.{decode_receipt-fail}
use tunnelfolio.Import.Service.{Collaborators, ImportService, receipt_mac}
use tunnelfolio.Import.Service.Gate.{
  Post-exclusive, Post-on_store, Post-manifest, Post-machine, Post-machine_by,
}
use tunnelfolio.Import.Commit.Effect.{
  IsAuthorised, Commits, published, replayed, not_published, refused, Commits-then,
}
use tunnelfolio.Import.Commit.{
  CommitResult, ImportResult, check_metadata, exact_replay, replayed_by, replay, publish_plan,
  commit_records, commit_reinspected, commit_decoded, commit_admitted, with_admission, commit,
}
use tunnelfolio.Import.Plan.{CommitRequest, Plan}
use tunnelfolio.Import.Commit.Bound.{
  BoundOutcome, rebound_all, not_rebound, reinspect_bound-BoundOutcome,
}
use tunnelfolio.Import.Commit.Planned.{IsOfOne, Planned, planned, not_planned, plan_records-Planned}
use tunnelfolio.Import.Commit.Replayed.{exact_replay-IsReplay}

module _ {H : Host} (C : Collaborators H) where
  module _ (s : Store H) (request : CommitRequest) where
    -- Nothing has been done to the store.
    refused_here :
        (key : Text) (t : Store H) (e : Err)
        → SameMemory s t
        → is_nil e ≡ false
        → Commits C key s request (fail e) t
    refused_here key t e same bad = refused bad (λ _. same) (λ h. rw same.manifest h)

    replayed_by-Commits :
        (key : Text) (records : List InspectionRecord) (before t : Store H)
        (replay : Option (List ImportResult))
        → IsAuthorised C key request records
        → (s.manifest.library_revision == request.library_revision) ≡ false
        → SameMemory s before
        → Repaired H before [] t
        → exact_replay t.manifest.profiles 0 records ≡ replay
        → Commits C key s request (replayed_by C t.manifest replay) t
    unfolding replayed_by
    replayed_by-Commits key records before t none authorised stale same repaired is =
        refused refl (λ known. SameMemory-trans same (repaired.not_needed (same.unknown ∙ known)).1)
          (λ h. repaired.sound (rw same.manifest h))
    replayed_by-Commits key records before t (some results) authorised stale same repaired is =
        replayed records before t authorised stale same repaired
          (record { manifest = refl; unknown = refl })
          (exact_replay-IsReplay t.manifest.profiles 0 records is) refl refl

    replay-Commits :
        (t : ImportService H) (records : List InspectionRecord)
        → IsAuthorised C t.key request records
        → (s.manifest.library_revision == request.library_revision) ≡ false
        → SameMemory s t.store
        → Post (replay C records) (λ r u. Commits C t.key s request r u.store) t
    unfolding replay
    replay-Commits t records authorised stale same =
        Post-on_store H _ _ _ _ t (repair_durability-Repaired H t.store) λ e u repaired.
          Post-unless e _ _ _ _
            (λ bad. refused_here t.key u e (SameMemory-trans same (repaired.failed bad).1) bad)
            λ nil. Post-manifest H _ _ _ (
              Post-pure _ _ _ (
                replayed_by-Commits t.key records t.store u _ authorised stale same
                  (subst (λ d. Repaired H t.store d u) nil repaired) refl))

    publish_plan-Commits :
        (t : ImportService H) (records : List InspectionRecord) (o : Result Plan)
        → IsAuthorised C t.key request records
        → s.manifest.library_revision ≡ request.library_revision
        → SameMemory s t.store
        → Planned s.manifest records request.files [] o
        → Post (publish_plan C request records o) (λ r u. Commits C t.key s request r u.store) t
    unfolding publish_plan
    publish_plan-Commits t records o authorised at same (not_planned bad) =
        Post-pure _ _ t (refused_here t.key t.store _ same bad)
    publish_plan-Commits t records o authorised at same (planned {plan} new is all) =
        Post-on_store H _ _ _ _ t
          (publish-Publication H t.store request.library_revision plan.objects)
          λ p u outcome.
            Post-unless p.1 _ _ _ _
              (λ bad.
                not_published records plan.objects p.0 t.store u bad authorised at
                  (subst (All (IsOfOne s.manifest records request.files)) (sym is) all) same outcome
                  (record { manifest = refl; unknown = refl }))
              λ nil. Post-pure _ _ _ (
                published records plan.objects p.0 t.store u authorised at
                  (subst (All (IsOfOne s.manifest records request.files)) (sym is) all) same
                  (subst
                    (λ e. Publication H t.store request.library_revision plan.objects (p.0, e) u)
                    nil outcome)
                  (record { manifest = refl; unknown = refl }) refl
                  (ap (λ (m : Manifest). m.library_revision)
                    (Publication-manifest H t.store _ _ outcome nil)))

    commit_records-Commits :
        (t : ImportService H) (records : List InspectionRecord)
        → IsAuthorised C t.key request records
        → SameMemory s t.store
        → Post (commit_records C request records) (λ r u. Commits C t.key s request r u.store) t
    unfolding commit_records
    commit_records-Commits t records authorised same = Post-manifest H _ _ t (
        Post-if (not (t.store.manifest.library_revision == request.library_revision)) _ _ _ t
          (λ moved.
            replay-Commits t records authorised
              (subst (λ (m : Manifest). (m.library_revision == request.library_revision) ≡ false)
                same.manifest (ground (arith, moved)))
              same)
          λ still.
            Post-machine_by H _ _ _ _ t
              (plan_records-Planned C request t.store.manifest 0 _ records request.files
                t.store.world)
              λ o w plan.
                publish_plan-Commits _ records o authorised
                  (subst (λ (m : Manifest). m.library_revision ≡ request.library_revision)
                    same.manifest (ground (arith, still)))
                  (SameMemory-then w same)
                  (subst (λ m. Planned m records request.files [] o) same.manifest plan))

    -- What is known once the receipt is read.
    module _ (expiry : ℤ) (mac : Text) (now : Instant)
        (trusted : request.trust_profile_policy ≡ true) (envelope : IsEnvelope request.files)
        (described : check_metadata request.metadata 0 request.files ≡ [])
        (readable : decode_receipt request.receipt ≡ ok (expiry, mac))
        (in_time : is_after now expiry ≡ false) (world : H.World)
        (clock : (C.now world).0 ≡ now) where
      commit_reinspected-Commits :
          (t : ImportService H) (o : Result (List InspectionRecord))
          → SameMemory s t.store
          → BoundOutcome C 0 request.files request.inspection_records o
          → Post
              (commit_reinspected C request expiry mac o)
              (λ r u. Commits C t.key s request r u.store)
              t
      unfolding commit_reinspected
      commit_reinspected-Commits t o same (not_rebound bad) =
          Post-pure _ _ t (refused_here t.key t.store _ same bad)
      commit_reinspected-Commits t o same (rebound_all {rs = records} rebound) = Post-get _ _ _ t (
          Post-if (not (eq_text mac (receipt_mac C t.key request.library_revision expiry records)))
            _ _ _ t (λ _. Post-pure _ _ t (refused_here t.key t.store _ same refl))
            λ signed.
              commit_records-Commits t records
                (record {
                  expiry = expiry;
                  mac = mac;
                  now = now;
                  world = world;
                  clock = clock;
                  trusted = trusted;
                  envelope = envelope;
                  described = described;
                  readable = readable;
                  in_time = in_time;
                  rebound = rebound;
                  signed = (eq_text_iff mac _).0 (ground (arith, signed));
                })
                same)

    module _ (trusted : request.trust_profile_policy ≡ true) where
      commit_decoded-Commits :
          (t : ImportService H) (d : Result (ℤ × Text))
          → SameMemory s t.store
          → IsEnvelope request.files
          → check_metadata request.metadata 0 request.files ≡ []
          → length request.inspection_records ≡ length request.files
          → decode_receipt request.receipt ≡ d
          → Post (commit_decoded C request d) (λ r u. Commits C t.key s request r u.store) t
      unfolding commit_decoded
      commit_decoded-Commits t (fail e) same envelope described size is =
          Post-pure _ _ t
            (refused_here t.key t.store e same (decode_receipt-fail request.receipt is))
      commit_decoded-Commits t (ok (expiry, mac)) same envelope described size is =
          Post-machine_by H _ _ (λ now _. (C.now t.store.world).0 ≡ now) _ t
            (record { holds = refl })
            λ now w clock.
              Post-if (is_after now expiry) _ _ _ _
                (λ _. Post-pure _ _ _ (refused_here t.key _ _ (SameMemory-then w same) refl))
                λ in_time.
                  Post-machine_by H _ _ _ _ _
                    (reinspect_bound-BoundOutcome C 0 request.files request.inspection_records w
                      size)
                    λ o v bound.
                      commit_reinspected-Commits expiry mac now trusted envelope described is
                        in_time t.store.world clock _ o (SameMemory-then v same) bound

      commit_admitted-Commits :
          (t : ImportService H)
          → SameMemory s t.store
          → Post (commit_admitted C request) (λ r u. Commits C t.key s request r u.store) t
      unfolding commit_admitted
      commit_admitted-Commits t same =
          Post-unless (validate_import_envelope request.files) _ _ _ t
            (λ bad. refused_here t.key t.store _ same bad)
            λ nil.
              Post-if (not (length request.inspection_records == length request.files)) _ _ _ t
                (λ _. Post-pure _ _ t (refused_here t.key t.store _ same refl))
                λ size.
                  Post-if (not (length request.metadata == length request.files)) _ _ _ t
                    (λ _. Post-pure _ _ t (refused_here t.key t.store _ same refl))
                    λ _.
                      Post-unless (check_metadata request.metadata 0 request.files) _ _ _ t
                        (λ bad. refused_here t.key t.store _ same bad)
                        λ described.
                          commit_decoded-Commits t _ same
                            ((validate_import_envelope_iff request.files).0 (rw nil)) described
                            (ground (arith, size)) refl

      with_admission-Commits :
          (t : ImportService H) (admission : Option (Exec H.World (Bool × Err)))
          → SameMemory s t.store
          → Post
              (with_admission C (commit_admitted C request) admission)
              (λ r u. Commits C t.key s request r u.store)
              t
      unfolding with_admission
      with_admission-Commits t none same = commit_admitted-Commits t same
      with_admission-Commits t (some ask) same = Post-machine H _ _ _ t λ answer w.
          Post-unless answer.1 _ _ _ _ (λ bad. refused_here t.key _ _ (SameMemory-then w same) bad)
            λ _.
              Post-if (not answer.0) _ _ _ _
                (λ _. Post-pure _ _ _ (refused_here t.key _ _ (SameMemory-then w same) refl))
                λ _.
                  Post-bind _ _ _ _ _ (commit_admitted-Commits _ (SameMemory-then w same))
                    λ r u did.
                      Post-machine H _ _ _ u λ _ v. Post-pure _ _ _ (Commits-then C _ _ _ v did)

  -- The outcome of `Commit` from a service to a service.
  pub data Committed (s : ImportService H) (request : CommitRequest)
      : Result CommitResult → ImportService H → Type 0 where
    busy : s.gate_free ≡ false → Committed s request (fail (import_busy ∷ [])) s
    ran :
        {r : Result CommitResult} {t : ImportService H}
        → t.gate_free ≡ true
        → Commits C s.key s.store request r t.store
        → Committed s request r t

  -- `Commit` of the import on every branch: it publishes or replays only for a client that trusts
  -- the policy and holds a readable receipt, not expired at the time that the service's clock gave,
  -- whose MAC the service's key gives for these records of these files at this revision; then, at
  -- the revision of the receipt, it publishes only files that the library does not have, described
  -- as their records say, and at another revision it answers only with saved profiles that the
  -- records describe; otherwise it fails, and the memory of the store changes only by a repair or by
  -- what a failing publication of such files does. The gate is free again, and a busy service
  -- changes nothing.
  pub commit-Committed :
      (s : ImportService H) (request : CommitRequest)
      → Post (commit C request) (Committed s request) s
  unfolding commit
  commit-Committed s request = Post-exclusive H _ _ s busy λ _.
      Post-if (not request.trust_profile_policy) _ _ _ _
        (λ _. Post-pure _ _ _ (
          ran refl (
            refused_here s.store request s.key s.store _
              (record { manifest = refl; unknown = refl }) refl)))
        λ trusted.
          Post-mono _ _ _ _
            (with_admission-Commits s.store request (ground (arith, trusted))
              (record s { gate_free = false }) C.commit_admission
              (record { manifest = refl; unknown = refl }))
            (λ r t did. ran refl did)
