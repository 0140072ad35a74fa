-- ===== src/Import/Commit/Effect.antt =====
-- What a commit is authorised by, and what it does to the store.
use tunnelfolio.Prelude.{true, false, List, [], ◌≡◌, ◌==◌}
use tunnelfolio.Prelude.Lists.{All}
use tunnelfolio.Prelude.Int.{ℤ}
use tunnelfolio.Prelude.Text.{Text}
use tunnelfolio.Prelude.Err.{Err, is_nil, Result, ok, fail}
use tunnelfolio.Store.Host.{Host}
use tunnelfolio.Store.State.{Store}
use tunnelfolio.Store.State.Repair.{IsSound, SameMemory, SameMemory-then, Repaired}
use tunnelfolio.Store.Publish.{PublicationResult}
use tunnelfolio.Store.Staging.{NewObject}
use tunnelfolio.Store.Publish.Run.{Publication}
use tunnelfolio.Import.Model.{InspectionRecord, Instant, is_after}
use tunnelfolio.Import.Detect.Limits.{IsEnvelope}
use tunnelfolio.Import.Receipt.{decode_receipt}
use tunnelfolio.Import.Service.{Collaborators, receipt_mac}
use tunnelfolio.Import.Commit.{CommitResult, check_metadata}
use tunnelfolio.Import.Plan.{CommitRequest}
use tunnelfolio.Import.Commit.Bound.{AreRebound}
use tunnelfolio.Import.Commit.Planned.{IsOfOne}
use tunnelfolio.Import.Commit.Replayed.{IsReplay}

module _ {H : Host} (C : Collaborators H) where
  -- The client trusts the policy, and holds a receipt that the service signed for these records of
  -- these files at this revision and that had not expired when the service read its clock.
  pub record IsAuthorised (key : Text) (request : CommitRequest) (records : List InspectionRecord)
      : Type 0 where
    pub expiry : ℤ
    pub mac : Text
    pub now : Instant
    pub world : H.World
    pub clock : (C.now world).0 ≡ now
    pub trusted : request.trust_profile_policy ≡ true
    pub envelope : IsEnvelope request.files
    pub described : check_metadata request.metadata 0 request.files ≡ []
    pub readable : decode_receipt request.receipt ≡ ok (expiry, mac)
    pub in_time : is_after now expiry ≡ false
    pub rebound : AreRebound C 0 request.files request.inspection_records records
    pub signed : mac ≡ receipt_mac C key request.library_revision expiry records

  -- What a commit does to the store. `before` and `after` differ from the ends in the machine alone.
  pub data Commits (key : Text) (s : Store H) (request : CommitRequest)
      : Result CommitResult → Store H → Type 0 where
    published :
        {x : CommitResult} {t : Store H} (records : List InspectionRecord)
        (objects : List NewObject) (p : PublicationResult) (before after : Store H)
        → IsAuthorised key request records
        → s.manifest.library_revision ≡ request.library_revision
        → All (IsOfOne s.manifest records request.files) objects
        → SameMemory s before
        → Publication H before request.library_revision objects (p, []) after
        → SameMemory after t
        → x.replayed ≡ false
        → x.revision ≡ t.manifest.library_revision
        → Commits key s request (ok x) t
    replayed :
        {x : CommitResult} {t : Store H} (records : List InspectionRecord) (before after : Store H)
        → IsAuthorised key request records
        → (s.manifest.library_revision == request.library_revision) ≡ false
        → SameMemory s before
        → Repaired H before [] after
        → SameMemory after t
        → IsReplay t.manifest.profiles 0 records x.records
        → x.replayed ≡ true
        → x.revision ≡ t.manifest.library_revision
        → Commits key s request (ok x) t
    not_published :
        {e : Err} {t : Store H} (records : List InspectionRecord) (objects : List NewObject)
        (p : PublicationResult) (before after : Store H)
        → is_nil e ≡ false
        → IsAuthorised key request records
        → s.manifest.library_revision ≡ request.library_revision
        → All (IsOfOne s.manifest records request.files) objects
        → SameMemory s before
        → Publication H before request.library_revision objects (p, e) after
        → SameMemory after t
        → Commits key s request (fail e) t
    refused :
        {e : Err} {t : Store H}
        → is_nil e ≡ false
        → (s.durability_unknown ≡ false → SameMemory s t)
        → (IsSound s → IsSound t)
        → Commits key s request (fail e) t

  -- Only the machine has moved on since.
  pub Commits-then :
      (key : Text) (s : Store H) (request : CommitRequest) {r : Result CommitResult} {t : Store H}
      (w : H.World)
      → Commits key s request r t
      → Commits key s request r (record t { world = w })
  Commits-then key s request w (published records objects p before after a b c d e f g h) =
      published records objects p before after a b c d e (SameMemory-then w f) g h
  Commits-then key s request w (replayed records before after a b c d e f g h) =
      replayed records before after a b c d (SameMemory-then w e) f g h
  Commits-then key s request w (not_published records objects p before after a b c d e f g) =
      not_published records objects p before after a b c d e f (SameMemory-then w g)
  Commits-then key s request w (refused a b c) = refused a (λ k. SameMemory-then w (b k)) c
