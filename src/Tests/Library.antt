-- ===== src/Tests/Library.antt =====
-- A library with one OpenVPN profile, on a machine whose calls all succeed.
use tunnelfolio.Prelude.{
  ℕ, zero, suc, String, Bool, true, false, Option, none, some, List, [], ◌∷◌, ◌++◌, ◌≡◌, ◌↔◌, refl,
  arith, ltb,
}
use tunnelfolio.Prelude.Text.{Text, codes, IsDistinct}
use tunnelfolio.Prelude.Int.{pos}
use tunnelfolio.Prelude.Err.{ok}
use tunnelfolio.Prelude.Exec.{Exec}
use tunnelfolio.Prelude.Platform.{Platform}
use tunnelfolio.Profiles.Model.{Profile, Manifest, Time, MetadataPatch}
use tunnelfolio.Profiles.Manifest.{validate_manifest}
use tunnelfolio.Profiles.Manifest.Sound.{IsValid, validate_manifest_iff}
use tunnelfolio.Store.Host.{Host}
use tunnelfolio.Store.State.{Store}
use tunnelfolio.Manager.Backends.{Backends}
use tunnelfolio.Manager.State.{Manager, disconnected}
use tunnelfolio.Profiles.Model.{id_pattern, identifier_pattern}
use tunnelfolio.Prelude.Unicode.{decode}

abbrev pub openvpn_file : Text
openvpn_file = codes "client\nremote vpn.example.org 1194\n"

abbrev pub zeros : ℕ → Text
zeros zero = []
zeros (suc n) = codes "0" ++ zeros n

abbrev pub platform : Platform
platform = record {
  is_address = λ t. true;
  is_prefix = λ t. true;
  is_loopback = λ t. false;
  sha256_hex = λ t. zeros 64;
  x25519_public = λ t. some t;
}

abbrev pub home_id : Text
home_id = codes "tf_aaaaaaaaaaaaaaaaaaaaaaaaaa"

abbrev pub home : Profile
home = record {
  id = home_id;
  protocol = codes "openvpn";
  display_name = codes "Home";
  group = codes "Private";
  location = [];
  emoji = [];
  identifier = codes "tfaaaaaaaaaaaa";
  original_filename = codes "home.ovpn";
  imported_at = record { seconds = 63000000000; is_utc = true };
  content_sha256 = zeros 64;
  wireguard_public_key_sha256 = [];
}

abbrev pub library : Manifest
library = record {
  version = pos 1;
  library_revision = 7;
  profiles = home ∷ [];
  favorites = home_id ∷ [];
  recents = home_id ∷ [];
  startup_mode = codes "restore";
  desired_profile = home_id;
  connected_at = pos 1700000000;
}

abbrev pub fine {ℓ} : {A : Type ℓ} → A → Exec (Unit {0}) A
fine a w = (a, w)

abbrev pub machine : Host
machine = record {
  World = Unit {0};
  platform = platform;
  read_only = false;
  ensure_private_dir = λ p. fine [];
  acquire_lock = fine [];
  close_lock = fine [];
  open_private_dir = λ p. fine [];
  open_dir_at = λ p name. fine [];
  close = λ p. fine [];
  sync = λ p. fine [];
  sync_private_file = λ p. fine [];
  read_dir = λ p.
      fine (record { name = codes "profile.ovpn"; is_dir = false; is_regular = true } ∷ [], []);
  read_file_at = λ p name limit. fine (openvpn_file, []);
  mkdir_exclusive = λ p name. fine [];
  write_exclusive = λ p name bytes. fine [];
  rename_no_replace = λ p name q other. fine [];
  remove_tree_at = λ p name. fine [];
  read_json = fine (library, []);
  write_json_atomic = λ m. fine (record { published = true; durable = true; err = [] });
  random = fine (codes "0123456789abcdef", []);
  checkpoint = λ name. fine [];
}

abbrev pub backends : Backends machine
backends = record {
  installed = λ p. true;
  available = λ p. fine [];
  observe = λ p profiles. fine ([], []);
  start = λ p profile. fine [];
  stop = λ p profile. fine [];
  status = λ p profile.
      fine
        (ok record { state = codes "connected"; received_bytes = 0; sent_bytes = 0; peers = [] });
  shutdown = λ p. fine [];
  read_only = false;
  now = fine (pos 1700000001);
  format_time = λ t. [];
}

abbrev pub store : Store machine
store = record { manifest = library; durability_unknown = false; world = tt }

abbrev pub doubtful_store : Store machine
doubtful_store = record { manifest = library; durability_unknown = true; world = tt }

abbrev pub manager : Manager machine
manager = record {
  store = store;
  gate_free = true;
  executions = [];
  lifecycle = disconnected;
  lifecycle_profile = [];
  last_error = "";
}

pub library-valid : validate_manifest library ≡ []
unfolding validate_manifest tunnelfolio.Prelude.Text.eq_text
    tunnelfolio.Profiles.Model.validate_profile tunnelfolio.Profiles.Model.id_pattern
    tunnelfolio.Profiles.Model.valid_protocol tunnelfolio.Profiles.Model.validate_metadata
    tunnelfolio.Profiles.Model.validate_text tunnelfolio.Prelude.Unicode.decode
    tunnelfolio.Prelude.Unicode.trim_space tunnelfolio.Prelude.Unicode.is_control
    tunnelfolio.Profiles.Model.identifier_pattern
    tunnelfolio.Profiles.Model.validate_original_filename tunnelfolio.Profiles.Model.valid_sha256
    tunnelfolio.Prelude.Text.contains tunnelfolio.Profiles.Manifest.profile_ids
library-valid = refl

pub library-IsValid : IsValid library
library-IsValid = (validate_manifest_iff library).0 library-valid

abbrev pub running : Manager machine
running = record manager {
  executions =
      record {
        profile_id = home_id;
        copy = record { profile = home; path = codes "exec-1" ∷ []; directory = codes "exec-1" };
      }
      ∷ [];
}
