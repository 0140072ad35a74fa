-- ===== src/Store/Publish/Appended.antt =====
-- What the loop over the new objects of `Publish` appends, and what it has checked.
use tunnelfolio.Prelude.{
  ◌≤◌, Bool, true, false, List, [], ◌∷◌, ◌++◌, ◌≡◌, refl, sym, ◌∙◌, arith, if◌then◌else◌,
}
use mathlib.Core.List.{append_assoc, append-nil}
use tunnelfolio.Prelude.Lists.{length, All}
use tunnelfolio.Prelude.Text.{Text, eq_text_iff, is_empty}
use tunnelfolio.Prelude.Err.{Err, is_nil, eq-nil, ok, fail, ok-injective}
use tunnelfolio.Prelude.Platform.{Platform}
use tunnelfolio.Policy.{Checked, pass, reject, max_profile_bytes}
use tunnelfolio.Profiles.Model.{Profile, Manifest, validate_profile}
use tunnelfolio.Profiles.Import.{validate_imported_profile}
use tunnelfolio.Store.State.{next_revision}
use tunnelfolio.Store.Publish.{identity_err, check_new_object, append_objects}
use tunnelfolio.Store.Staging.{NewObject}

abbrev pub profiles_of : List NewObject → List Profile
profiles_of [] = []
profiles_of (o ∷ os) = o.profile ∷ profiles_of os

pub length-profiles_of : (os : List NewObject) → length (profiles_of os) ≡ length os
length-profiles_of [] = refl
length-profiles_of (o ∷ os) = omega (arith, length-profiles_of os)

-- The manifest with the profiles of the objects, one revision on.
abbrev pub with_objects : Manifest → List NewObject → Manifest
with_objects m objects = next_revision (record m { profiles = m.profiles ++ profiles_of objects })

-- The profile is well-formed and the bytes are the ones that it describes.
pub record IsImportable (P : Platform) (o : NewObject) : Type 0 where
  pub full : is_empty o.bytes ≡ false
  pub fits : length o.bytes ≤ max_profile_bytes
  pub valid : validate_profile o.profile ≡ []
  pub fingerprint : P.sha256_hex o.bytes ≡ o.profile.content_sha256
  pub accepted :
      validate_imported_profile P o.profile.protocol o.bytes
      ≡ pass o.profile.wireguard_public_key_sha256

identity_err-nil :
    (p : Profile) (c : Checked Text)
    → is_nil (identity_err p c) ≡ true
    → c ≡ pass p.wireguard_public_key_sha256
unfolding identity_err
identity_err-nil p (reject line code) h = cc
identity_err-nil p (pass identity) h =
    ground (arith, eq_text_iff identity p.wireguard_public_key_sha256)

check_new_object-IsImportable :
    (P : Platform) (ids contents : List Text) (o : NewObject)
    → is_nil (check_new_object P ids contents o) ≡ true
    → IsImportable P o
unfolding check_new_object
check_new_object-IsImportable P ids contents o h = ground (
  arith,
  eq_text_iff (P.sha256_hex o.bytes) o.profile.content_sha256,
  eq-nil (validate_profile o.profile),
  identity_err-nil o.profile (validate_imported_profile P o.profile.protocol o.bytes),
)

pub append_objects-ok :
    (P : Platform) (ids contents : List Text) (profiles : List Profile) (objects : List NewObject)
    {r : List Profile}
    → append_objects P ids contents profiles objects ≡ ok r
    → (r ≡ profiles ++ profiles_of objects) × All (IsImportable P) objects
unfolding append_objects
append_objects-ok P ids contents profiles [] h =
    (sym (ok-injective h) ∙ sym (append-nil profiles), tt)
append_objects-ok P ids contents profiles (o ∷ os) {r} h =
    split (is_nil (check_new_object P ids contents o)) refl h (
      append_objects-ok P (o.profile.id ∷ ids) (o.profile.content_sha256 ∷ contents)
        (profiles ++ o.profile ∷ []) os {r = r})
  where
    split :
        (b : Bool)
        → is_nil (check_new_object P ids contents o) ≡ b
        → (if b
            then append_objects P
                (o.profile.id ∷ ids)
                (o.profile.content_sha256 ∷ contents)
                (profiles ++ o.profile ∷ [])
                os
            else fail (check_new_object P ids contents o))
          ≡ ok r
        → (append_objects P
                (o.profile.id ∷ ids)
                (o.profile.content_sha256 ∷ contents)
                (profiles ++ o.profile ∷ [])
                os
              ≡ ok r
            → (r ≡ (profiles ++ o.profile ∷ []) ++ profiles_of os) × All (IsImportable P) os)
        → (r ≡ profiles ++ o.profile ∷ profiles_of os)
          × (IsImportable P o × All (IsImportable P) os)
    split false is q ih = cc
    split true is q ih = (
      (ih q).0 ∙ append_assoc profiles (o.profile ∷ []) (profiles_of os),
      (check_new_object-IsImportable P ids contents o is, (ih q).1),
    )

pub append_objects-fail :
    (P : Platform) (ids contents : List Text) (profiles : List Profile) (objects : List NewObject)
    {e : Err}
    → append_objects P ids contents profiles objects ≡ fail e
    → is_nil e ≡ false
unfolding append_objects
append_objects-fail P ids contents profiles [] h = cc
append_objects-fail P ids contents profiles (o ∷ os) {e} h = ground (
  arith,
  append_objects-fail P (o.profile.id ∷ ids) (o.profile.content_sha256 ∷ contents)
      (profiles ++ o.profile ∷ []) os {e = e},
)
