-- ===== src/Tests/Store.antt =====
-- Instances of the store's theorems.
use tunnelfolio.Prelude.{
  ℕ, zero, suc, String, Bool, true, false, Option, none, some, List, [], ◌∷◌, ◌++◌, ◌≡◌, ◌↔◌, refl,
  arith, ltb,
}
use tunnelfolio.Prelude.Lists.{take}
use tunnelfolio.Prelude.Text.{Text, codes, IsDistinct}
use tunnelfolio.Prelude.Int.{pos}
use tunnelfolio.Prelude.Err.{Result, ok}
use tunnelfolio.Prelude.Exec.{Post}
use tunnelfolio.Profiles.Model.{Profile, Manifest, Time, MetadataPatch}
use tunnelfolio.Profiles.Manifest.{validate_manifest}
use tunnelfolio.Profiles.Manifest.Sound.{IsValid}
use tunnelfolio.Store.State.{next_revision, mutate, repair_durability}
use tunnelfolio.Store.State.Repair.{Repaired, repair_durability-Repaired}
use tunnelfolio.Store.State.Mutation.{Mutated, mutate-Mutated}
use tunnelfolio.Store.Changes.{connection_change}
use tunnelfolio.Store.Removal.Run.{Removed, remove-Removed}
use tunnelfolio.Store.Removal.{removal_candidate, remove}
use tunnelfolio.Store.Removal.Preserve.{IsRemoval, removal_candidate-IsRemoval}
use tunnelfolio.Store.Changes.{prepend_unique, remove_id, metadata_change}
use tunnelfolio.Store.Changes.Preserve.{
  IsMetadataEdit, connection_change-IsValid, metadata_change-IsMetadataEdit,
}
use tunnelfolio.Store.Changes.Lists.{IsRecents, prepend_unique-take, connection_change-IsRecents}
use tunnelfolio.Profiles.Model.{id_pattern, identifier_pattern}
use tunnelfolio.Prelude.Unicode.{decode}
use tunnelfolio.Tests.Library.{
  doubtful_store, home, home_id, library, library-IsValid, machine, store,
}

abbrev to_home : Manifest → Result Manifest
to_home m = ok (connection_change home_id (pos 1700000001) true m)

mutate_example : Post (mutate machine to_home) (Mutated machine store to_home) store
mutate_example = mutate-Mutated machine store to_home

repair_durability_example :
    Post (repair_durability machine) (Repaired machine doubtful_store) doubtful_store
repair_durability_example = repair_durability-Repaired machine doubtful_store

removal_candidate_example : IsRemoval home_id library (removal_candidate home_id library)
removal_candidate_example = removal_candidate-IsRemoval home_id library library-IsValid

connection_change_example :
    IsValid (next_revision (connection_change home_id (pos 1700000001) true library))
unfolding tunnelfolio.Prelude.Text.contains tunnelfolio.Profiles.Manifest.profile_ids
    tunnelfolio.Prelude.Text.eq_text
connection_change_example =
    connection_change-IsValid library home_id (pos 1700000001) true library-IsValid refl refl

abbrev new_emoji : MetadataPatch
new_emoji = record {
  display_name = some (codes "Work");
  group = none;
  location = none;
  clear_location = true;
  emoji = none;
  clear_emoji = false;
}

abbrev renamed_library : Manifest
renamed_library = record library { profiles = record home { display_name = codes "Work" } ∷ [] }

library-renamed : metadata_change home_id new_emoji library ≡ ok renamed_library
unfolding metadata_change tunnelfolio.Store.Changes.patch_profiles tunnelfolio.Prelude.Text.eq_text
    tunnelfolio.Profiles.Model.validate_metadata tunnelfolio.Profiles.Model.validate_text decode
    tunnelfolio.Store.Changes.apply_patch tunnelfolio.Prelude.Unicode.trim_space
    tunnelfolio.Prelude.Unicode.is_control
library-renamed = refl

metadata_change_example : IsMetadataEdit home_id new_emoji library renamed_library
metadata_change_example = metadata_change-IsMetadataEdit home_id new_emoji library library-renamed

abbrev ids : List Text
ids = codes "a" ∷ codes "b" ∷ codes "c" ∷ codes "d" ∷ codes "e" ∷ []

prepend_unique-take_example :
    prepend_unique ids (codes "c") 5 ≡ codes "c" ∷ take 4 (remove_id ids (codes "c"))
prepend_unique-take_example = prepend_unique-take ids (codes "c") 3

ids-IsDistinct : IsDistinct ids
unfolding tunnelfolio.Prelude.Text.contains tunnelfolio.Prelude.Text.eq_text
ids-IsDistinct = (refl, (refl, (refl, (refl, (refl, tt)))))

abbrev visited : Manifest
visited = record library { recents = ids }

connection_change-IsRecents_example :
    IsRecents ids (codes "f") (connection_change (codes "f") (pos 1700000001) true visited).recents
    × ((connection_change (codes "f") (pos 1700000001) false visited).recents ≡ ids)
connection_change-IsRecents_example =
    connection_change-IsRecents (codes "f") (pos 1700000001) visited refl ids-IsDistinct

remove_example : Post (remove machine home_id) (Removed machine store home_id) store
remove_example = remove-Removed machine store home_id
