-- ===== src/Store/Changes/Preserve.antt =====
-- The edits keep a manifest well formed, so that the check behind them rejects nothing that it need
-- not.
use mathlib.Core.Option.{some-injective}
use tunnelfolio.Prelude.{
  ◌≤◌, Bool, true, false, not, ◌||◌, ◌&&◌, Option, none, some, List, [], ◌∷◌, ◌≡◌, ◌≢◌, refl, sym,
  ap, arith, ◌⊎◌, inl, inr, suc, Bool-cases, if◌then◌else◌, subst,
}
use tunnelfolio.Prelude.Lists.{length, All}
use tunnelfolio.Prelude.Text.{Text, eq_text, eq_text_iff, ne_of_eq_text, is_empty, contains}
use tunnelfolio.Prelude.Int.{ℤ, is_negative}
use tunnelfolio.Prelude.Err.{ok, fail, ok-injective}
use tunnelfolio.Profiles.Model.{
  Profile, Manifest, MetadataPatch, max_profiles, max_recents, validate_profile, validate_metadata,
  metadata_of, MetadataError, metadata_err,
}
use tunnelfolio.Profiles.Manifest.{profile_ids}
use tunnelfolio.Profiles.Manifest.Sound.{IsValid, IsIdList, identifiers, contents}
use tunnelfolio.Store.State.{next_revision}
use tunnelfolio.Store.Changes.{
  prepend_unique, remove_id, connection_change, Edited, cons_edited, apply_patch, patch_profiles,
  patched_manifest, metadata_change,
}
use tunnelfolio.Store.Changes.Lists.{
  prepend_unique-take, prepend_unique-IsRecents, All-take, All-keep,
}

-- The new recents of a saved profile are a list of saved profiles again.
IsIdList-prepend_unique :
    (ids before : List Text) (id : Text)
    → contains ids id ≡ true
    → IsIdList ids max_recents before
    → IsIdList ids max_recents (prepend_unique before id max_recents)
IsIdList-prepend_unique ids before id saved l = record {
  fits = (prepend_unique-IsRecents before id l.distinct).fits;
  known =
      rw (prepend_unique-take before id 3)
        (saved, All-take _ 4 _ (unfold remove_id in All-keep _ _ before l.known));
  distinct = (prepend_unique-IsRecents before id l.distinct).distinct;
}

-- Recording a connection to a saved profile or to none, at a time that is not negative, keeps a
-- valid manifest valid.
pub connection_change-IsValid :
    (m : Manifest) (desired : Text) (at : ℤ) (add : Bool)
    → IsValid m
    → is_empty desired || contains (profile_ids m.profiles) desired ≡ true
    → is_negative at ≡ false
    → IsValid (next_revision (connection_change desired at add m))
unfolding connection_change
connection_change-IsValid m desired at add v saved past = record {
  version = v.version;
  fits = v.fits;
  startup = v.startup;
  connected = past;
  each = v.each;
  ids = v.ids;
  identifiers_distinct = v.identifiers_distinct;
  contents_distinct = v.contents_distinct;
  favorites = v.favorites;
  recents = new_recents add desired saved;
  desired = named desired saved;
}
  where
    named :
        (d : Text)
        → is_empty d || contains (profile_ids m.profiles) d ≡ true
        → (d ≡ []) ⊎ (contains (profile_ids m.profiles) d ≡ true)
    named [] h = inl refl
    named (c ∷ d) h = inr h

    new_recents :
        (b : Bool) (d : Text)
        → is_empty d || contains (profile_ids m.profiles) d ≡ true
        → IsIdList
            (profile_ids m.profiles)
            max_recents
            (if b && not (is_empty d) then prepend_unique m.recents d max_recents else m.recents)
    new_recents false d h = v.recents
    new_recents true [] h = v.recents
    new_recents true (c ∷ d) h = IsIdList-prepend_unique _ _ (c ∷ d) h v.recents

-- A patch leaves all but the four fields of the metadata.
pub record SameIdentity (p q : Profile) : Type 0 where
  pub id : q.id ≡ p.id
  pub protocol : q.protocol ≡ p.protocol
  pub identifier : q.identifier ≡ p.identifier
  pub original_filename : q.original_filename ≡ p.original_filename
  pub imported_at : q.imported_at ≡ p.imported_at
  pub content_sha256 : q.content_sha256 ≡ p.content_sha256
  pub wireguard : q.wireguard_public_key_sha256 ≡ p.wireguard_public_key_sha256

pub apply_patch-SameIdentity :
    (patch : MetadataPatch) (p : Profile) → SameIdentity p (apply_patch patch p)
unfolding apply_patch
apply_patch-SameIdentity patch p = ground arith

-- A patched profile is valid once its metadata is.
validate_profile-apply_patch :
    (patch : MetadataPatch) (p : Profile)
    → validate_profile p ≡ []
    → validate_metadata (metadata_of (apply_patch patch p)) ≡ none
    → validate_profile (apply_patch patch p) ≡ []
unfolding validate_profile apply_patch
validate_profile-apply_patch patch p ok_ good = ground arith

-- What `patch_profiles` returns: the same profiles in the same order, but for the first with the ID.
pub data Patched (id : Text) (patch : MetadataPatch)
    : List Profile → List Profile → Profile → Type 0 where
  here :
      {p : Profile} {ps qs : List Profile} {q : Profile}
      → p.id ≡ id
      → q ≡ apply_patch patch p
      → qs ≡ q ∷ ps
      → Patched id patch (p ∷ ps) qs q
  there :
      {p : Profile} {ps qs rs : List Profile} {q : Profile}
      → p.id ≢ id
      → Patched id patch ps qs q
      → rs ≡ p ∷ qs
      → Patched id patch (p ∷ ps) rs q

pub patch_profiles-Patched :
    (ps : List Profile) (id : Text) (patch : MetadataPatch) {e : Edited}
    → patch_profiles ps id patch ≡ some e
    → Patched id patch ps e.profiles e.updated
unfolding patch_profiles
patch_profiles-Patched [] id patch h = cc
patch_profiles-Patched (p ∷ ps) id patch {e} h = elim (Bool-cases (eq_text p.id id)) [
  | inl same ↦
      subst (λ x. Patched id patch (p ∷ ps) x.profiles x.updated)
        (some-injective _ _ (rw same at h)) (here ((eq_text_iff p.id id).0 same) refl refl)
  | inr other ↦
      miss (ne_of_eq_text p.id id other) (patch_profiles ps id patch)
        (λ d is. patch_profiles-Patched ps id patch is) (rw other at h)
]
  where
    miss :
        p.id ≢ id
        → (found : Option Edited)
        → ((d : Edited) → found ≡ some d → Patched id patch ps d.profiles d.updated)
        → cons_edited p found ≡ some e
        → Patched id patch (p ∷ ps) e.profiles e.updated
    miss other none ih is = cc
    miss other (some d) ih is =
        subst (λ x. Patched id patch (p ∷ ps) x.profiles x.updated) (some-injective _ _ is)
          (there other (ih d refl) refl)

-- The identifying columns of the list stay as they are.
record SameColumns (ps qs : List Profile) : Type 0 where
  ids : profile_ids qs ≡ profile_ids ps
  idents : identifiers qs ≡ identifiers ps
  conts : contents qs ≡ contents ps
  size : length qs ≡ length ps

Patched-SameColumns :
    {id : Text} {patch : MetadataPatch} {ps qs : List Profile} {q : Profile}
    → Patched id patch ps qs q
    → SameColumns ps qs
unfolding profile_ids apply_patch
Patched-SameColumns (here same is at) =
    rw (at, is) (record { ids = refl; idents = refl; conts = refl; size = refl })
Patched-SameColumns (there {p} other rest at) =
    let c = Patched-SameColumns rest in
    rw at (record {
      ids = ap (◌∷◌ p.id) c.ids;
      idents = ap (◌∷◌ p.identifier) c.idents;
      conts = ap (◌∷◌ p.content_sha256) c.conts;
      size = ap suc c.size;
    })

Patched-valid :
    {id : Text} {patch : MetadataPatch} {ps qs : List Profile} {q : Profile}
    → Patched id patch ps qs q
    → validate_metadata (metadata_of q) ≡ none
    → All (λ p. validate_profile p ≡ []) ps
    → All (λ p. validate_profile p ≡ []) qs
Patched-valid {patch = patch} (here {p} same is at) good v =
    rw (at, is)
      (
        validate_profile-apply_patch patch p v.0
            (subst (λ x. validate_metadata (metadata_of x) ≡ none) is good),
        v.1,
      )
Patched-valid (there other rest at) good v = rw at (v.0, Patched-valid rest good v.1)

-- A change of metadata edits one saved profile and keeps the manifest well formed.
pub record IsMetadataEdit (id : Text) (patch : MetadataPatch) (m next : Manifest) : Type 0 where
  pub updated : Profile
  pub edited : Patched id patch m.profiles next.profiles updated
  pub checked : validate_metadata (metadata_of updated) ≡ none
  pub elsewhere : next ≡ record m { profiles = next.profiles }
  pub valid : IsValid m → IsValid (next_revision next)

IsValid-Patched :
    (m : Manifest) {id : Text} {patch : MetadataPatch} (qs : List Profile) {q : Profile}
    → Patched id patch m.profiles qs q
    → validate_metadata (metadata_of q) ≡ none
    → IsValid m
    → IsValid (next_revision (record m { profiles = qs }))
IsValid-Patched m qs edit good v =
    let c = Patched-SameColumns edit in
    record {
      version = v.version;
      fits = subst (λ n. n ≤ max_profiles) (sym c.size) v.fits;
      startup = v.startup;
      connected = v.connected;
      each = Patched-valid edit good v.each;
      ids = rw c.ids v.ids;
      identifiers_distinct = rw c.idents v.identifiers_distinct;
      contents_distinct = rw c.conts v.contents_distinct;
      favorites = rw c.ids v.favorites;
      recents = rw c.ids v.recents;
      desired = rw c.ids v.desired;
    }

-- A metadata change that succeeds edits the first profile of that ID and nothing else, its new
-- metadata is valid, and a valid manifest stays valid.
pub metadata_change-IsMetadataEdit :
    (id : Text) (patch : MetadataPatch) (m : Manifest) {next : Manifest}
    → metadata_change id patch m ≡ ok next
    → IsMetadataEdit id patch m next
unfolding metadata_change
metadata_change-IsMetadataEdit id patch m {next} h =
    found (patch_profiles m.profiles id patch) refl h
  where
    checked :
        (e : Edited) (code : Option MetadataError)
        → Patched id patch m.profiles e.profiles e.updated
        → validate_metadata (metadata_of e.updated) ≡ code
        → (elim code [
          | none ↦ ok (record m { profiles = e.profiles })
          | some bad ↦ fail (metadata_err (some bad))
        ])
          ≡ ok next
        → IsMetadataEdit id patch m next
    checked e (some bad) edit c is = cc
    checked e none edit c is =
        subst (λ n. IsMetadataEdit id patch m n) (ok-injective is)
          (record {
            updated = e.updated;
            edited = edit;
            checked = c;
            elsewhere = refl;
            valid = IsValid-Patched m e.profiles edit c;
          })

    found :
        (f : Option Edited)
        → patch_profiles m.profiles id patch ≡ f
        → patched_manifest m f ≡ ok next
        → IsMetadataEdit id patch m next
    found none p is = cc
    found (some e) p is =
        checked e (validate_metadata (metadata_of e.updated))
          (patch_profiles-Patched m.profiles id patch p) refl is
