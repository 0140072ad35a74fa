-- ===== src/Profiles/Manifest/Sound.antt =====
-- What a manifest that `ValidateManifest` accepts satisfies, and the other way round.
use mathlib.Core.List.{Nodup}
use tunnelfolio.Prelude.{ℕ, ◌≤◌, true, false, List, [], ◌∷◌, ◌≡◌, ◌↔◌, ◌⊎◌, refl, arith}
use tunnelfolio.Prelude.Lists.{length, All}
use tunnelfolio.Prelude.Text.{Text, eq_text_iff, is_empty, contains, IsDistinct, IsDistinct→Nodup}
use tunnelfolio.Prelude.Int.{pos, is_negative}
use tunnelfolio.Prelude.Err.{is_nil, eq-nil}
use tunnelfolio.Profiles.Model.{
  Profile, Manifest, startup_manual, startup_restore, max_profiles, max_recents, validate_profile,
}
use tunnelfolio.Profiles.Manifest.{
  Seen, empty_seen, add_seen, profiles_valid, profile_ids, ids_valid, validate_id_list,
  is_current_version, valid_startup, validate_manifest,
}

-- Every value is known, none stands twice, and there are at most `limit`.
pub record IsIdList (ids : List Text) (limit : ℕ) (values : List Text) : Type 0 where
  pub fits : length values ≤ limit
  pub known : All (λ v. contains ids v ≡ true) values
  pub distinct : IsDistinct values

abbrev pub Avoids : List Text → List Text → Type 0
Avoids seen = All (λ v. contains seen v ≡ false)

abbrev pub identifiers : List Profile → List Text
identifiers [] = []
identifiers (p ∷ ps) = p.identifier ∷ identifiers ps

abbrev pub contents : List Profile → List Text
contents [] = []
contents (p ∷ ps) = p.content_sha256 ∷ contents ps

pub record IsValid (m : Manifest) : Type 0 where
  pub version : m.version ≡ pos 1
  pub fits : length m.profiles ≤ max_profiles
  pub startup : (m.startup_mode ≡ startup_manual) ⊎ (m.startup_mode ≡ startup_restore)
  pub connected : is_negative m.connected_at ≡ false
  pub each : All (λ p. validate_profile p ≡ []) m.profiles
  pub ids : IsDistinct (profile_ids m.profiles)
  pub identifiers_distinct : IsDistinct (identifiers m.profiles)
  pub contents_distinct : IsDistinct (contents m.profiles)
  pub favorites : IsIdList (profile_ids m.profiles) max_profiles m.favorites
  pub recents : IsIdList (profile_ids m.profiles) max_recents m.recents
  pub desired :
      (m.desired_profile ≡ []) ⊎ (contains (profile_ids m.profiles) m.desired_profile ≡ true)

-- A value that was put in and one that was not differ.
pub Avoids-cons :
    (x : Text) (seen values : List Text)
    → Avoids (x ∷ seen) values ↔ (Avoids seen values × (contains values x ≡ false))
unfolding contains
Avoids-cons x seen [] = ground arith
Avoids-cons x seen (v ∷ values) =
    ground (arith, Avoids-cons x seen values, eq_text_iff x v, eq_text_iff v x)

pub Avoids-nil : (values : List Text) → Avoids [] values
unfolding contains
Avoids-nil [] = tt
Avoids-nil (v ∷ values) = (refl, Avoids-nil values)

ids_valid_iff :
    (ids seen values : List Text)
    → (ids_valid ids seen values ≡ true)
      ↔ (All (λ v. contains ids v ≡ true) values × IsDistinct values × Avoids seen values)
unfolding ids_valid
ids_valid_iff ids seen [] = ground arith
ids_valid_iff ids seen (v ∷ values) =
    ground (arith, ids_valid_iff ids (v ∷ seen) values, Avoids-cons v seen values)

pub validate_id_list_iff :
    (ids : List Text) (limit : ℕ) (values : List Text)
    → (is_nil (validate_id_list values limit ids) ≡ true) ↔ IsIdList ids limit values
unfolding validate_id_list
validate_id_list_iff ids limit values =
    ground (arith, ids_valid_iff ids [] values, Avoids-nil values)

record Walk (seen : Seen) (ps : List Profile) : Type 0 where
  each : All (λ p. validate_profile p ≡ []) ps
  ids : IsDistinct (profile_ids ps)
  identifiers_distinct : IsDistinct (identifiers ps)
  contents_distinct : IsDistinct (contents ps)
  new_ids : Avoids seen.ids (profile_ids ps)
  new_identifiers : Avoids seen.identifiers (identifiers ps)
  new_contents : Avoids seen.contents (contents ps)

profiles_valid_iff :
    (seen : Seen) (ps : List Profile) → (profiles_valid seen ps ≡ true) ↔ Walk seen ps
unfolding profiles_valid profile_ids
profiles_valid_iff seen [] = ground arith
profiles_valid_iff seen (p ∷ ps) = ground (
  arith,
  profiles_valid_iff (add_seen seen p) ps,
  eq-nil (validate_profile p),
  Avoids-cons p.id seen.ids (profile_ids ps),
  Avoids-cons p.identifier seen.identifiers (identifiers ps),
  Avoids-cons p.content_sha256 seen.contents (contents ps),
)

startup_iff :
    (mode : Text)
    → (valid_startup mode ≡ true) ↔ ((mode ≡ startup_manual) ⊎ (mode ≡ startup_restore))
unfolding valid_startup
startup_iff mode = ground (arith, eq_text_iff mode startup_manual, eq_text_iff mode startup_restore)

version_iff : (m : Manifest) → (is_current_version m.version ≡ true) ↔ (m.version ≡ pos 1)
version_iff m = ground arith

empty_iff : (s : Text) → (is_empty s ≡ true) ↔ (s ≡ [])
empty_iff [] = ground arith
empty_iff (c ∷ s) = ground arith

profiles_walk :
    (ps : List Profile)
    → Walk empty_seen ps ↔ (
        All (λ p. validate_profile p ≡ []) ps
        × IsDistinct (profile_ids ps)
        × IsDistinct (identifiers ps)
        × IsDistinct (contents ps))
profiles_walk ps = (
  λ w. (w.each, w.ids, w.identifiers_distinct, w.contents_distinct),
  λ h. record {
    each = h.0;
    ids = h.1;
    identifiers_distinct = h.2;
    contents_distinct = h.3;
    new_ids = Avoids-nil (profile_ids ps);
    new_identifiers = Avoids-nil (identifiers ps);
    new_contents = Avoids-nil (contents ps);
  },
)

-- `ValidateManifest` returns nil exactly for well-formed manifests: version, startup mode and
-- connected time in range, valid profiles with distinct IDs, identifiers and fingerprints, and
-- favorites, recents and desired profile among the saved ones.
pub validate_manifest_iff : (m : Manifest) → (validate_manifest m ≡ []) ↔ IsValid m
unfolding validate_manifest
validate_manifest_iff m = ground (
  arith,
  version_iff m,
  startup_iff m.startup_mode,
  profiles_valid_iff empty_seen m.profiles,
  profiles_walk m.profiles,
  empty_iff m.desired_profile,
  validate_id_list_iff (profile_ids m.profiles) max_profiles m.favorites,
  validate_id_list_iff (profile_ids m.profiles) max_recents m.recents,
)

-- In a well-formed manifest no two profiles share an ID and no favorite or recent stands twice, in
-- the library's sense.
pub IsValid→Nodup :
    {m : Manifest}
    → IsValid m
    → Nodup (profile_ids m.profiles) × Nodup m.favorites × Nodup m.recents
IsValid→Nodup {m} v = (
  IsDistinct→Nodup _ v.ids,
  IsDistinct→Nodup _ v.favorites.distinct,
  IsDistinct→Nodup _ v.recents.distinct,
)
