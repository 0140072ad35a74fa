-- ===== src/Store/Publish/Fresh.antt =====
-- Objects whose profiles fit into a well-formed manifest are all appended.
use mathlib.Core.List.{append_assoc, append-nil}
use tunnelfolio.Prelude.{
  true, false, ◌||◌, List, [], ◌∷◌, ◌++◌, ◌≡◌, refl, sym, ap, ◌∙◌, subst, arith,
}
use tunnelfolio.Prelude.Lists.{All}
use tunnelfolio.Prelude.Text.{Text, eq_text_iff, eq_text_refl, contains, IsDistinct}
use tunnelfolio.Prelude.Err.{is_nil, ok}
use tunnelfolio.Prelude.Platform.{Platform}
use tunnelfolio.Policy.{pass}
use tunnelfolio.Profiles.Import.{validate_imported_profile}
use tunnelfolio.Profiles.Model.{Profile}
use tunnelfolio.Profiles.Manifest.{profile_ids}
use tunnelfolio.Profiles.Manifest.Sound.{contents, Avoids, Avoids-cons, Avoids-nil}
use tunnelfolio.Store.Publish.{identity_err, check_new_object, append_objects}
use tunnelfolio.Store.Staging.{NewObject}
use tunnelfolio.Store.Publish.Appended.{profiles_of, IsImportable}

contains-append :
    (xs ys : List Text) (v : Text) → contains (xs ++ ys) v ≡ (contains xs v || contains ys v)
unfolding contains
contains-append [] ys v = refl
contains-append (x ∷ xs) ys v = ground (arith, contains-append xs ys v)

-- The parts of a list without repetition do not overlap.
IsDistinct-append : (xs ys : List Text) → IsDistinct (xs ++ ys) → IsDistinct ys × Avoids xs ys
IsDistinct-append [] ys h = (h, Avoids-nil ys)
IsDistinct-append (x ∷ xs) ys h =
    let (distinct, apart) = IsDistinct-append xs ys h.1 in
    (distinct, (Avoids-cons x xs ys).1 (apart, ground (arith, contains-append xs ys x, h.0)))

profile_ids-append :
    (ps qs : List Profile) → profile_ids (ps ++ qs) ≡ profile_ids ps ++ profile_ids qs
unfolding profile_ids
profile_ids-append [] qs = refl
profile_ids-append (p ∷ ps) qs = ap (λ (ids : List Text). p.id ∷ ids) (profile_ids-append ps qs)

contents-append : (ps qs : List Profile) → contents (ps ++ qs) ≡ contents ps ++ contents qs
contents-append [] qs = refl
contents-append (p ∷ ps) qs = ap (λ (cs : List Text). p.content_sha256 ∷ cs) (contents-append ps qs)

-- The strings of the new profiles are new and stand once.
pub record IsFresh (seen new : List Text) : Type 0 where
  pub distinct : IsDistinct new
  pub apart : Avoids seen new

pub ids-IsFresh :
    (ps qs : List Profile)
    → IsDistinct (profile_ids (ps ++ qs))
    → IsFresh (profile_ids ps) (profile_ids qs)
ids-IsFresh ps qs h =
    let (d, a) = IsDistinct-append _ _ (subst IsDistinct (profile_ids-append ps qs) h) in
    record { distinct = d; apart = a }

pub contents-IsFresh :
    (ps qs : List Profile) → IsDistinct (contents (ps ++ qs)) → IsFresh (contents ps) (contents qs)
contents-IsFresh ps qs h =
    let (d, a) = IsDistinct-append _ _ (subst IsDistinct (contents-append ps qs) h) in
    record { distinct = d; apart = a }

IsFresh-tail :
    (seen : List Text) (x : Text) (xs : List Text) → IsFresh seen (x ∷ xs) → IsFresh (x ∷ seen) xs
IsFresh-tail seen x xs h = record {
  distinct = h.distinct.1;
  apart = (Avoids-cons x seen xs).1 (h.apart.1, h.distinct.0);
}

identity_err-pass :
    (p : Profile) → is_nil (identity_err p (pass p.wireguard_public_key_sha256)) ≡ true
unfolding identity_err
identity_err-pass p = rw (eq_text_refl p.wireguard_public_key_sha256)

check_new_object-nil :
    (P : Platform) (ids seen : List Text) (o : NewObject)
    → IsImportable P o
    → contains ids o.profile.id ≡ false
    → contains seen o.profile.content_sha256 ≡ false
    → is_nil (check_new_object P ids seen o) ≡ true
unfolding check_new_object
check_new_object-nil P ids seen o h i c =
    let identity : is_nil
          (identity_err o.profile (validate_imported_profile P o.profile.protocol o.bytes))
        ≡ true =
      rw h.accepted (identity_err-pass o.profile) in
    let same = (eq_text_iff (P.sha256_hex o.bytes) o.profile.content_sha256).1 h.fingerprint in
    ground (arith, h.full, h.fits, h.valid, same, identity)

pub append_objects-succeeds :
    (P : Platform) (ids seen : List Text) (profiles : List Profile) (objects : List NewObject)
    → All (IsImportable P) objects
    → IsFresh ids (profile_ids (profiles_of objects))
    → IsFresh seen (contents (profiles_of objects))
    → append_objects P ids seen profiles objects ≡ ok (profiles ++ profiles_of objects)
unfolding append_objects profile_ids
append_objects-succeeds P ids seen profiles [] each i c = ap ok (sym (append-nil profiles))
append_objects-succeeds P ids seen profiles (o ∷ os) each i c =
    rw (check_new_object-nil P ids seen o each.0 i.apart.0 c.apart.0) (
      append_objects-succeeds P (o.profile.id ∷ ids) (o.profile.content_sha256 ∷ seen)
        (profiles ++ o.profile ∷ []) os each.1 (IsFresh-tail ids o.profile.id _ i)
        (IsFresh-tail seen o.profile.content_sha256 _ c)
      ∙ ap ok (append_assoc profiles (o.profile ∷ []) (profiles_of os)))
