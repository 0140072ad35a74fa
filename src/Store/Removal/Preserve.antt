-- ===== src/Store/Removal/Preserve.antt =====
-- The manifest that `Remove` publishes: valid where the one before was, without the profile.
use tunnelfolio.Prelude.{
  ℕ, ◌≤◌, Bool, true, false, not, List, [], ◌∷◌, ◌≡◌, ◌≢◌, refl, sym, subst, arith, ◌⊎◌, inl, inr,
  if◌then◌else◌,
}
use tunnelfolio.Prelude.Lists.{length, length-keep, All}
use tunnelfolio.Prelude.Text.{
  Text, eq_text, eq_text_iff, eq_text_refl, is_empty, contains, IsDistinct,
}
use tunnelfolio.Prelude.Int.{pos, is_negative}
use tunnelfolio.Profiles.Model.{Profile, Manifest, find_profile}
use tunnelfolio.Profiles.Manifest.{profile_ids}
use tunnelfolio.Profiles.Manifest.Sound.{IsValid, IsIdList, identifiers, contents}
use tunnelfolio.Store.Changes.{remove_id, remove_profile}
use tunnelfolio.Store.Changes.Lists.{contains-remove_id, IsDistinct-remove_id, All-keep}
use tunnelfolio.Store.Removal.{removal_candidate}

profile_ids-remove_profile :
    (ps : List Profile) (id : Text)
    → profile_ids (remove_profile ps id) ≡ remove_id (profile_ids ps) id
unfolding remove_profile remove_id profile_ids
profile_ids-remove_profile [] id = refl
profile_ids-remove_profile (p ∷ ps) id = ground (arith, profile_ids-remove_profile ps id)

contains-identifiers :
    (ps : List Profile) (id v : Text)
    → contains (identifiers ps) v ≡ false
    → contains (identifiers (remove_profile ps id)) v ≡ false
unfolding remove_profile contains
contains-identifiers [] id v h = h
contains-identifiers (p ∷ ps) id v h = ground (arith, contains-identifiers ps id v)

contains-contents :
    (ps : List Profile) (id v : Text)
    → contains (contents ps) v ≡ false
    → contains (contents (remove_profile ps id)) v ≡ false
unfolding remove_profile contains
contains-contents [] id v h = h
contains-contents (p ∷ ps) id v h = ground (arith, contains-contents ps id v)

IsDistinct-identifiers :
    (ps : List Profile) (id : Text)
    → IsDistinct (identifiers ps)
    → IsDistinct (identifiers (remove_profile ps id))
unfolding remove_profile
IsDistinct-identifiers [] id d = tt
IsDistinct-identifiers (p ∷ ps) id d =
    ground (arith, IsDistinct-identifiers ps id, contains-identifiers ps id p.identifier)

IsDistinct-contents :
    (ps : List Profile) (id : Text)
    → IsDistinct (contents ps)
    → IsDistinct (contents (remove_profile ps id))
unfolding remove_profile
IsDistinct-contents [] id d = tt
IsDistinct-contents (p ∷ ps) id d =
    ground (arith, IsDistinct-contents ps id, contains-contents ps id p.content_sha256)

known-remove_id :
    (ids values : List Text) (id : Text)
    → All (λ v. contains ids v ≡ true) values
    → All (λ v. contains (remove_id ids id) v ≡ true) (remove_id values id)
unfolding remove_id
known-remove_id ids [] id h = tt
known-remove_id ids (v ∷ values) id h =
    ground (arith, known-remove_id ids values id, contains-remove_id ids id v)

IsIdList-remove_id :
    (ids values : List Text) (limit : ℕ) (id : Text)
    → IsIdList ids limit values
    → IsIdList (remove_id ids id) limit (remove_id values id)
unfolding remove_id
IsIdList-remove_id ids values limit id l = record {
  fits = omega (arith, length-keep (λ value. not (eq_text value id)) values, l.fits);
  known = known-remove_id ids values id l.known;
  distinct = IsDistinct-remove_id values id l.distinct;
}

contains-remove_id_self :
    (values : List Text) (id : Text) → contains (remove_id values id) id ≡ false
contains-remove_id_self values id = ground (arith, contains-remove_id values id id, eq_text_refl id)

find_profile-remove_profile :
    (ps : List Profile) (id v : Text)
    → eq_text v id ≡ false
    → find_profile (remove_profile ps id) v ≡ find_profile ps v
unfolding find_profile remove_profile
find_profile-remove_profile [] id v other = refl
find_profile-remove_profile (p ∷ ps) id v other = ground (
  arith,
  find_profile-remove_profile ps id v other,
  eq_text_iff p.id id,
  eq_text_iff p.id v,
  eq_text_iff v id,
)

-- The manifest without the profile, and without any mention of it.
pub record IsRemoval (id : Text) (m next : Manifest) : Type 0 where
  pub valid : IsValid next
  pub ids : profile_ids next.profiles ≡ remove_id (profile_ids m.profiles) id
  pub absent : contains (profile_ids next.profiles) id ≡ false
  pub favorites : contains next.favorites id ≡ false
  pub recents : contains next.recents id ≡ false
  pub desired : is_empty id ≡ false → next.desired_profile ≢ id
  pub others :
      (v : Text) → eq_text v id ≡ false → find_profile next.profiles v ≡ find_profile m.profiles v

-- What `Remove` publishes is valid when the manifest before was, mentions the removed profile
-- nowhere, and finds every other profile as before.
pub removal_candidate-IsRemoval :
    (id : Text) (m : Manifest) → IsValid m → IsRemoval id m (removal_candidate id m)
unfolding removal_candidate remove_profile
removal_candidate-IsRemoval id m v = record {
  valid = record {
    version = v.version;
    fits = omega (arith, fewer, v.fits);
    startup = v.startup;
    connected = connected (eq_text m.desired_profile id);
    each = All-keep _ _ m.profiles v.each;
    ids = rw (profile_ids-remove_profile m.profiles id) (IsDistinct-remove_id _ id v.ids);
    identifiers_distinct = IsDistinct-identifiers m.profiles id v.identifiers_distinct;
    contents_distinct = IsDistinct-contents m.profiles id v.contents_distinct;
    favorites =
        rw (profile_ids-remove_profile m.profiles id) (IsIdList-remove_id _ _ _ id v.favorites);
    recents = rw (profile_ids-remove_profile m.profiles id) (IsIdList-remove_id _ _ _ id v.recents);
    desired =
        rw (profile_ids-remove_profile m.profiles id) (desired (eq_text m.desired_profile id) refl);
  };
  ids = profile_ids-remove_profile m.profiles id;
  absent = rw (profile_ids-remove_profile m.profiles id) (contains-remove_id_self _ id);
  favorites = contains-remove_id_self m.favorites id;
  recents = contains-remove_id_self m.recents id;
  desired = λ full. unnamed (eq_text m.desired_profile id) refl full;
  others = λ w other. find_profile-remove_profile m.profiles id w other;
}
  where
    fewer : length (remove_profile m.profiles id) ≤ length m.profiles
    fewer = length-keep (λ p. not (eq_text p.id id)) m.profiles

    connected : (b : Bool) → is_negative (if b then pos 0 else m.connected_at) ≡ false
    connected true = refl
    connected false = v.connected

    desired :
        (b : Bool)
        → eq_text m.desired_profile id ≡ b
        → (if b then [] else m.desired_profile) ≡ []
          ⊎ contains (remove_id (profile_ids m.profiles) id) (if b then [] else m.desired_profile)
            ≡ true
    desired true is = inl refl
    desired false is = elim (v.desired) [
      | inl none_ ↦ inl none_
      | inr named ↦
          inr (ground (arith, contains-remove_id (profile_ids m.profiles) id m.desired_profile))
    ]

    unnamed :
        (b : Bool)
        → eq_text m.desired_profile id ≡ b
        → is_empty id ≡ false
        → (if b then [] else m.desired_profile) ≢ id
    unnamed true is full empty = cc (subst (λ x. is_empty x ≡ false) (sym empty) full)
    unnamed false is full same = cc ((eq_text_iff m.desired_profile id).1 same)
