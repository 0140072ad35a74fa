-- ===== src/Store/Changes.antt =====
-- internal/profiles/store.go: the operations that edit the manifest through `mutate`, and the lists
-- that they write.
pub mod Lists
pub mod Preserve
use tunnelfolio.Prelude.{
  ℕ, ◌+◌, Bool, true, false, not, ◌&&◌, ◌||◌, Option, none, some, List, [], ◌∷◌, ◌++◌, ◌==◌,
  if◌then◌else◌,
}
use tunnelfolio.Prelude.Lists.{length, keep}
use tunnelfolio.Prelude.Text.{Text, eq_text, is_empty}
use tunnelfolio.Prelude.Int.{ℤ, pos}
use tunnelfolio.Prelude.Err.{Err, is_nil, Result, ok, fail, other, not_found}
use tunnelfolio.Prelude.Exec.{Exec, ◌>>=◌, pure}
use tunnelfolio.Profiles.Model.{
  Profile, Manifest, MetadataPatch, find_profile, max_recents, validate_metadata, metadata_of,
  metadata_err,
}
use tunnelfolio.Store.Host.{Host}
use tunnelfolio.Store.State.{Store, mutate}

-- The loop of `prependUnique`.
unfoldable pub prepend_loop : Text → ℕ → List Text → List Text → List Text
prepend_loop value limit result [] = result
prepend_loop value limit result (candidate ∷ values) =
    let grown = if eq_text candidate value then result else result ++ candidate ∷ [] in
    let rest = prepend_loop value limit grown values in
    if length grown == limit then grown else rest

unfoldable pub prepend_unique : List Text → Text → ℕ → List Text
unfolding prepend_loop
prepend_unique values value limit = prepend_loop value limit (value ∷ []) values

-- `removeID`
unfoldable pub remove_id : List Text → Text → List Text
remove_id values id = keep (λ value. not (eq_text value id)) values

-- `removeProfile`
unfoldable pub remove_profile : List Profile → Text → List Profile
remove_profile profiles id = keep (λ p. not (eq_text p.id id)) profiles

unfoldable pub preferences_change : List Text → List Text → Text → Manifest → Manifest
preferences_change favorites recents startup m = record m {
  favorites = favorites;
  recents = recents;
  startup_mode = startup;
}

unfoldable pub connection_change : Text → ℤ → Bool → Manifest → Manifest
unfolding prepend_unique
connection_change desired connected_at add_recent m = record m {
  desired_profile = desired;
  connected_at = connected_at;
  recents =
      if add_recent && not (is_empty desired)
      then prepend_unique m.recents desired max_recents
      else m.recents;
}

abbrev pub or_keep : Option Text → Text → Text
or_keep none old = old
or_keep (some new) old = new

-- The edits that `UpdateMetadata` makes in place.
unfoldable pub apply_patch : MetadataPatch → Profile → Profile
apply_patch patch p = record p {
  display_name = or_keep patch.display_name p.display_name;
  group = or_keep patch.group p.group;
  location = if patch.clear_location then [] else or_keep patch.location p.location;
  emoji = if patch.clear_emoji then [] else or_keep patch.emoji p.emoji;
}

-- The profiles behind an edit, and the edited one.
pub record Edited : Type 0 where
  pub profiles : List Profile
  pub updated : Profile

abbrev pub cons_edited : Profile → Option Edited → Option Edited
cons_edited p none = none
cons_edited p (some e) = some (record e { profiles = p ∷ e.profiles })

-- The list with the first profile of that ID edited.
unfoldable pub patch_profiles : List Profile → Text → MetadataPatch → Option Edited
patch_profiles [] id patch = none
patch_profiles (p ∷ ps) id patch =
    let rest = cons_edited p (patch_profiles ps id patch) in
    if eq_text p.id id
    then some (record { profiles = apply_patch patch p ∷ ps; updated = apply_patch patch p })
    else rest

abbrev pub patched_manifest : Manifest → Option Edited → Result Manifest
patched_manifest m none = fail (not_found ∷ [])
patched_manifest m (some e) = elim (validate_metadata (metadata_of e.updated)) [
  | none ↦ ok (record m { profiles = e.profiles })
  | some bad ↦ fail (metadata_err (some bad))
]

unfoldable pub metadata_change : Text → MetadataPatch → Manifest → Result Manifest
metadata_change id patch m = patched_manifest m (patch_profiles m.profiles id patch)

abbrev is_given : Option Text → Bool
is_given none = false
is_given (some _) = true

unfoldable pub is_empty_patch : MetadataPatch → Bool
is_empty_patch patch =
    not (is_given patch.display_name)
    && not (is_given patch.group)
    && not (is_given patch.location)
    && not patch.clear_location
    && not (is_given patch.emoji)
    && not patch.clear_emoji

-- The edited profile, which is the first of that ID in the manifest that was published.
unfoldable pub updated_profile : Text → Result Manifest → Result Profile
updated_profile id (fail e) = fail e
updated_profile id (ok m) = elim (find_profile m.profiles id) [
  | none ↦ fail (not_found ∷ [])
  | some p ↦ ok p
]

module _ (H : Host) where
  -- `SetPreferences`
  unfoldable pub set_preferences : List Text → List Text → Text → Exec (Store H) (Result Manifest)
  set_preferences favorites recents startup =
      mutate H (λ m. ok (preferences_change favorites recents startup m))

  -- `SetConnection`
  unfoldable pub set_connection : Text → ℤ → Bool → Exec (Store H) (Result Manifest)
  set_connection desired connected_at add_recent =
      mutate H (λ m. ok (connection_change desired connected_at add_recent m))

  -- `UpdateMetadata`
  unfoldable pub update_metadata : Text → MetadataPatch → Exec (Store H) (Result Profile)
  update_metadata id patch =
      if is_empty_patch patch
      then pure (fail (other ∷ []))
      else do r ← mutate H (metadata_change id patch); pure (updated_profile id r)
