-- ===== src/Import/Commit/Planned.antt =====
-- The objects that `Commit` plans to publish.
use mathlib.Core.List.{append_assoc, append-nil}
use tunnelfolio.Prelude.{
  ℕ, suc, Bool, true, false, not, ◌||◌, ◌⊎◌, inl, inr, Option, none, some, List, [], ◌∷◌, ◌++◌, ◌≡◌,
  refl, sym, ap, ◌∙◌, if◌then◌else◌,
}
use tunnelfolio.Prelude.Lists.{All}
use tunnelfolio.Prelude.Text.{eq_text}
use tunnelfolio.Prelude.Err.{Err, is_nil, Result, ok, fail}
use tunnelfolio.Prelude.Exec.{Post, Post-pure, Post-if, Post-bind, Post-mono}
use tunnelfolio.Profiles.Model.{Profile, Manifest, find_profile}
use tunnelfolio.Store.Host.{Host}
use tunnelfolio.Store.Staging.{NewObject}
use tunnelfolio.Import.Model.{ImportFile, InspectionRecord}
use tunnelfolio.Import.Service.{Collaborators}
use tunnelfolio.Import.Inspect.{already_imported}
use tunnelfolio.Import.Plan.{
  CommitRequest, Plan, record_matches_profile, plan_existing, plan_prior, plan_new, plan_record,
  plan_rest, plan_records, new_profile,
}

-- The object is a file that the library does not have, described as its record says.
pub record IsOf (m : Manifest) (r : InspectionRecord) (file : ImportFile) (o : NewObject)
    : Type 0 where
  pub absent : find_profile m.profiles r.id ≡ none
  pub undecided : eq_text r.disposition already_imported ≡ false
  pub bytes : o.bytes ≡ file.bytes
  pub filename : o.profile.original_filename ≡ file.name
  pub id : o.profile.id ≡ r.id
  pub protocol : o.profile.protocol ≡ r.protocol
  pub identifier : o.profile.identifier ≡ r.identifier
  pub digest : o.profile.content_sha256 ≡ r.digest
  pub key : o.profile.wireguard_public_key_sha256 ≡ r.wireguard_public_key_digest

-- It is of one of the files, with the record at the same place.
abbrev pub IsOfOne : Manifest → List InspectionRecord → List ImportFile → NewObject → Type 0
IsOfOne m [] _ o = ⊥
IsOfOne m (r ∷ rs) [] o = ⊥
IsOfOne m (r ∷ rs) (file ∷ files) o = IsOf m r file o ⊎ IsOfOne m rs files o

All-IsOfOne :
    (m : Manifest) (r : InspectionRecord) (rs : List InspectionRecord) (file : ImportFile)
    (files : List ImportFile) (os : List NewObject)
    → All (IsOfOne m rs files) os
    → All (IsOfOne m (r ∷ rs) (file ∷ files)) os
All-IsOfOne m r rs file files [] h = tt
All-IsOfOne m r rs file files (o ∷ os) h = (inr h.0, All-IsOfOne m r rs file files os h.1)

-- What a part of the loop adds to the plan.
pub data Planned (m : Manifest) (rs : List InspectionRecord) (files : List ImportFile)
    (before : List NewObject) : Result Plan → Type 0 where
  planned :
      {plan : Plan} (new : List NewObject)
      → plan.objects ≡ before ++ new
      → All (IsOfOne m rs files) new
      → Planned m rs files before (ok plan)
  not_planned : {e : Err} → is_nil e ≡ false → Planned m rs files before (fail e)

-- What one record adds.
data PlannedOne (m : Manifest) (r : InspectionRecord) (file : ImportFile) (before : List NewObject)
    : Result Plan → Type 0 where
  same_plan : {plan : Plan} → plan.objects ≡ before → PlannedOne m r file before (ok plan)
  one_more :
      {plan : Plan} (o : NewObject)
      → plan.objects ≡ before ++ o ∷ []
      → IsOf m r file o
      → PlannedOne m r file before (ok plan)
  not_one : {e : Err} → is_nil e ≡ false → PlannedOne m r file before (fail e)

PlannedOne-if :
    (m : Manifest) (r : InspectionRecord) (file : ImportFile) (before : List NewObject) (b : Bool)
    (x y : Result Plan)
    → PlannedOne m r file before x
    → PlannedOne m r file before y
    → PlannedOne m r file before (if b then x else y)
PlannedOne-if m r file before true x y p q = p
PlannedOne-if m r file before false x y p q = q

plan_prior-PlannedOne :
    (m : Manifest) (r : InspectionRecord) (file : ImportFile) (plan : Plan) (found : Option Profile)
    → PlannedOne m r file plan.objects (plan_prior plan r found)
unfolding plan_prior
plan_prior-PlannedOne m r file plan none = not_one refl
plan_prior-PlannedOne m r file plan (some prior) =
    PlannedOne-if m r file plan.objects (record_matches_profile r prior) _ _ (same_plan refl)
      (not_one refl)

module _ {H : Host} (C : Collaborators H) (request : CommitRequest) (m : Manifest) where
  plan_record-PlannedOne :
      (index : ℕ) (plan : Plan) (r : InspectionRecord) (file : ImportFile) (found : Option Profile)
      (w : H.World)
      → find_profile m.profiles r.id ≡ found
      → Post
          (plan_record C request index plan r file found)
          (λ o v. PlannedOne m r file plan.objects o)
          w
  unfolding plan_record plan_existing plan_new new_profile
  plan_record-PlannedOne index plan r file (some existing) w is = Post-pure _ _ w (
      PlannedOne-if m r file plan.objects
        (not (eq_text r.disposition already_imported) || not (record_matches_profile r existing)) _
        _ (not_one refl) (same_plan refl))
  plan_record-PlannedOne index plan r file none w is =
      Post-if (eq_text r.disposition already_imported) _ _ _ w
        (λ _.
          Post-pure _ _ w (plan_prior-PlannedOne m r file plan (find_profile plan.planned r.id)))
        λ new.
          Post-bind _ _ (λ _ _. Unit {0}) _ w (record { holds = tt })
            λ now v _. Post-pure _ _ v (
              one_more _ refl (record {
                absent = is;
                undecided = new;
                bytes = refl;
                filename = refl;
                id = refl;
                protocol = refl;
                identifier = refl;
                digest = refl;
                key = refl;
              }))

  plan_rest-Planned :
      (index : ℕ) (r : InspectionRecord) (rs : List InspectionRecord) (file : ImportFile)
      (files : List ImportFile) (before : List NewObject)
      → ((plan : Plan) (v : H.World)
          → Post
              (plan_records C request m (suc index) plan rs files)
              (λ o u. Planned m rs files plan.objects o)
              v)
      → (o : Result Plan) (v : H.World) → PlannedOne m r file before o
      → Post
          (plan_rest C (λ next. plan_records C request m (suc index) next rs files) o)
          (λ o u. Planned m (r ∷ rs) (file ∷ files) before o)
          v
  unfolding plan_rest
  plan_rest-Planned index r rs file files before ih o v (not_one bad) =
      Post-pure _ _ v (not_planned bad)
  plan_rest-Planned index r rs file files before ih o v (same_plan {plan} same) =
      Post-mono _ _ _ v (ih plan v) (λ o u p. wider o p)
    where
      wider :
          (o : Result Plan)
          → Planned m rs files plan.objects o
          → Planned m (r ∷ rs) (file ∷ files) before o
      wider o (planned new is all) =
          planned new (is ∙ ap (λ (os : List NewObject). os ++ new) same)
            (All-IsOfOne m r rs file files new all)
      wider o (not_planned bad) = not_planned bad
  plan_rest-Planned index r rs file files before ih o v (one_more {plan} one is of) =
      Post-mono _ _ _ v (ih plan v) (λ o u p. wider o p)
    where
      wider :
          (o : Result Plan)
          → Planned m rs files plan.objects o
          → Planned m (r ∷ rs) (file ∷ files) before o
      wider o (planned new same all) =
          planned (one ∷ new)
            (same ∙ ap (λ (os : List NewObject). os ++ new) is ∙ append_assoc before (one ∷ []) new)
            (inl of, All-IsOfOne m r rs file files new all)
      wider o (not_planned bad) = not_planned bad

  pub plan_records-Planned :
      (index : ℕ) (plan : Plan) (rs : List InspectionRecord) (files : List ImportFile) (w : H.World)
      → Post
          (plan_records C request m index plan rs files)
          (λ o v. Planned m rs files plan.objects o)
          w
  unfolding plan_records
  plan_records-Planned index plan [] files w =
      Post-pure _ _ w (planned [] (sym (append-nil plan.objects)) tt)
  plan_records-Planned index plan (r ∷ rs) [] w =
      Post-pure _ _ w (planned [] (sym (append-nil plan.objects)) tt)
  plan_records-Planned index plan (r ∷ rs) (file ∷ files) w =
      Post-bind _ _ _ _ w
        (plan_record-PlannedOne index plan r file (find_profile m.profiles r.id) w refl)
        λ o v one.
          plan_rest-Planned index r rs file files plan.objects
            (λ p u. plan_records-Planned (suc index) p rs files u) o v one
