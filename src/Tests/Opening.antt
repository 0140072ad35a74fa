-- ===== src/Tests/Opening.antt =====
-- Instances of the theorems on the opening of a store and on its clean-up.
use tunnelfolio.Prelude.{
  Bool, true, false, Option, none, some, List, [], ◌∷◌, ◌++◌, ◌≡◌, refl, arith, if◌then◌else◌,
}
use tunnelfolio.Prelude.Text.{Text, codes, eq_text, contains}
use tunnelfolio.Prelude.Int.{pos}
use tunnelfolio.Prelude.Err.{ok}
use tunnelfolio.Prelude.Exec.{Exec, Post}
use tunnelfolio.Store.Host.{Host, FilePath}
use tunnelfolio.Store.State.{Store}
use tunnelfolio.Store.Remnants.{reference, references, garbage_dir, cleanup_remnants}
use tunnelfolio.Store.Removal.{library_dir}
use tunnelfolio.Store.Remnants.Spared.{Stays, Spares, cleanup_remnants-Stays}
use tunnelfolio.Store.Opening.{open_store}
use tunnelfolio.Store.Opening.Opened.{IsOpened, open_store-IsOpened}
use tunnelfolio.Tests.Library.{home_id, library, machine, platform, openvpn_file}

-- A machine that knows whether the object of the saved profile is still in its place.
abbrev home_reference : Text
home_reference = reference (codes "openvpn") home_id

abbrev place : FilePath → Text → Text
place (top ∷ protocol ∷ []) id = reference protocol id
place _ id = id

abbrev watch {ℓ} : {A : Type ℓ} → A → Exec Bool A
watch a w = (a, w)

abbrev watching : Host
watching = record {
  World = Bool;
  platform = platform;
  read_only = false;
  ensure_private_dir = λ p. watch [];
  acquire_lock = watch [];
  close_lock = watch [];
  open_private_dir = λ p. watch [];
  open_dir_at = λ p name. watch [];
  close = λ p. watch [];
  sync = λ p. watch [];
  sync_private_file = λ p. watch [];
  read_dir = λ p. watch (
    record { name = home_id; is_dir = true; is_regular = false }
        ∷ record { name = codes "tf_bbbbbbbbbbbbbbbbbbbbbbbbbb"; is_dir = true; is_regular = false }
        ∷ [],
    [],
  );
  read_file_at = λ p name limit. watch (openvpn_file, []);
  mkdir_exclusive = λ p name. watch [];
  write_exclusive = λ p name bytes. watch [];
  rename_no_replace =
      λ p name q other w. ([], if eq_text home_reference (place p name) then false else w);
  remove_tree_at = λ p name. watch [];
  read_json = watch (library, []);
  write_json_atomic = λ m. watch (record { published = true; durable = true; err = [] });
  random = watch (codes "0123456789abcdef", []);
  checkpoint = λ name. watch [];
}

abbrev InPlace : Bool → Type 0
InPlace w = w ≡ true

move_InPlace :
    (protocol id name : Text)
    → contains (references library.profiles) (reference protocol id) ≡ false
    → Stays InPlace (watching.rename_no_replace (library_dir protocol) id garbage_dir name)
unfolding contains references
move_InPlace protocol id name free w p = record { holds = ground (arith, free, p) }

watching-Spares : Spares watching InPlace (references library.profiles)
watching-Spares = record {
  open_private_dir = λ p w q. record { holds = q };
  open_dir_at = λ p name w q. record { holds = q };
  close = λ p w q. record { holds = q };
  sync = λ p w q. record { holds = q };
  read_dir = λ p w q. record { holds = q };
  read_file_at = λ p name limit w q. record { holds = q };
  remove_special = λ special name h w q. record { holds = q };
  move_unreferenced = move_InPlace;
}

cleanup_remnants_example : Stays InPlace (cleanup_remnants watching library)
cleanup_remnants_example = cleanup_remnants-Stays watching InPlace library watching-Spares

abbrev reading : Host
reading = record machine { read_only = true }

abbrev opened : Store reading
opened = record { manifest = library; durability_unknown = false; world = tt }

library-opened : open_store reading (codes "/var/lib/tunnelfolio") (pos 0) tt ≡ ok opened
unfolding tunnelfolio.Profiles.Manifest.validate_manifest tunnelfolio.Prelude.Text.eq_text
    tunnelfolio.Profiles.Model.validate_profile tunnelfolio.Profiles.Model.id_pattern
    tunnelfolio.Profiles.Model.valid_protocol tunnelfolio.Profiles.Model.validate_metadata
    tunnelfolio.Profiles.Model.validate_text tunnelfolio.Prelude.Unicode.decode
    tunnelfolio.Prelude.Unicode.trim_space tunnelfolio.Prelude.Unicode.is_control
    tunnelfolio.Profiles.Model.identifier_pattern
    tunnelfolio.Profiles.Model.validate_original_filename tunnelfolio.Profiles.Model.valid_sha256
    tunnelfolio.Prelude.Text.contains tunnelfolio.Profiles.Manifest.profile_ids open_store
    tunnelfolio.Store.Opening.open_library tunnelfolio.Store.Opening.read_manifest
    tunnelfolio.Store.Opening.load_manifest tunnelfolio.Store.Opening.clean_library
    tunnelfolio.Store.Opening.unlocked tunnelfolio.Store.Removal.in_turn
    tunnelfolio.Prelude.Exec.◌>>=◌ tunnelfolio.Prelude.Exec.unless_err tunnelfolio.Prelude.Exec.pure
library-opened = refl

open_store_example : IsOpened reading opened
open_store_example =
    open_store-IsOpened reading (codes "/var/lib/tunnelfolio") (pos 0) tt library-opened
