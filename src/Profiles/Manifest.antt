-- ===== src/Profiles/Manifest.antt =====
-- internal/profiles/model.go: `ValidateManifest` and `validateIDList`. The sets that the code
-- builds while it walks the profiles are the lists of the strings put in.
pub mod Sound
use tunnelfolio.Prelude.{
  ℕ, Bool, true, false, not, ◌&&◌, ◌||◌, List, [], ◌∷◌, ltb, ◌==◌, if◌then◌else◌,
}
use tunnelfolio.Prelude.Lists.{length}
use tunnelfolio.Prelude.Text.{Text, eq_text, is_empty, contains}
use tunnelfolio.Prelude.Int.{ℤ, pos, negsuc, is_negative}
use tunnelfolio.Prelude.Err.{Err, is_nil, other, invalid_manifest}
use tunnelfolio.Profiles.Model.{
  Profile, Manifest, startup_manual, startup_restore, max_profiles, max_recents, validate_profile,
}

-- The maps `ids`, `identifiers` and `contents` of the walk.
pub record Seen : Type 0 where
  pub ids : List Text
  pub identifiers : List Text
  pub contents : List Text

abbrev pub empty_seen : Seen
empty_seen = record { ids = []; identifiers = []; contents = [] }

abbrev pub add_seen : Seen → Profile → Seen
add_seen seen p = record {
  ids = p.id ∷ seen.ids;
  identifiers = p.identifier ∷ seen.identifiers;
  contents = p.content_sha256 ∷ seen.contents;
}

unfoldable pub is_duplicate : Seen → Profile → Bool
is_duplicate seen p =
    contains seen.ids p.id
    || contains seen.identifiers p.identifier
    || contains seen.contents p.content_sha256

-- The loop over the profiles, without the sets that it leaves.
unfoldable pub profiles_valid : Seen → List Profile → Bool
unfolding is_duplicate
profiles_valid seen [] = true
profiles_valid seen (p ∷ ps) =
    if not (is_nil (validate_profile p))
    then false
    else if is_duplicate seen p
    then false
    else profiles_valid (add_seen seen p) ps

-- The set `ids` after the loop.
unfoldable pub profile_ids : List Profile → List Text
profile_ids [] = []
profile_ids (p ∷ ps) = p.id ∷ profile_ids ps

unfoldable pub ids_valid : List Text → List Text → List Text → Bool
ids_valid ids seen [] = true
ids_valid ids seen (value ∷ values) =
    if not (contains ids value)
    then false
    else if contains seen value
    then false
    else ids_valid ids (value ∷ seen) values

unfoldable pub validate_id_list : List Text → ℕ → List Text → Err
unfolding ids_valid
validate_id_list values limit ids =
    if ltb limit (length values)
    then other ∷ []
    else if ids_valid ids [] values
    then []
    else other ∷ []

-- `manifest.Version != ManifestVersion`
abbrev pub is_current_version : ℤ → Bool
is_current_version (negsuc _) = false
is_current_version (pos n) = n == 1

unfoldable pub valid_startup : Text → Bool
valid_startup mode = eq_text mode startup_manual || eq_text mode startup_restore

abbrev invalid : Err
invalid = invalid_manifest ∷ []

abbrev pub reject_unless : Bool → Err → Err
reject_unless true rest = rest
reject_unless false rest = invalid

unfoldable pub validate_manifest : Manifest → Err
unfolding profiles_valid validate_id_list valid_startup
validate_manifest m =
    let ids = profile_ids m.profiles in
    reject_unless (is_current_version m.version) (
      reject_unless (not (ltb max_profiles (length m.profiles))) (
        reject_unless (valid_startup m.startup_mode) (
          reject_unless (not (is_negative m.connected_at)) (
            reject_unless (profiles_valid empty_seen m.profiles) (
              reject_unless (is_nil (validate_id_list m.favorites max_profiles ids)) (
                reject_unless (is_nil (validate_id_list m.recents max_recents ids)) (
                  reject_unless (is_empty m.desired_profile || contains ids m.desired_profile)
                    [])))))))
