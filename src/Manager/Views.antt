-- ===== src/Manager/Views.antt =====
-- internal/manager/manager.go: how the manager shows the saved profiles, what it says of their
-- protocols, and the preferences.
use tunnelfolio.Prelude.{
  String, Bool, true, false, not, ◌&&◌, Option, none, some, List, [], ◌∷◌, if◌then◌else◌,
}
use tunnelfolio.Prelude.Text.{Text, eq_text, contains}
use tunnelfolio.Prelude.Err.{is_nil, Result, ok, fail, not_found, read_only}
use tunnelfolio.Prelude.Exec.{Exec, ◌>>=◌, pure}
use tunnelfolio.Profiles.Model.{
  Profile, Manifest, MetadataPatch, find_profile, protocol_openvpn, protocol_wireguard,
}
use tunnelfolio.Store.Host.{Host}
use tunnelfolio.Store.State.{resolve, snapshot}
use tunnelfolio.Store.Changes.{set_preferences, update_metadata}
use tunnelfolio.Manager.Backends.{Backends}
use tunnelfolio.Manager.State.{Manager, on_store, on_machine}

-- `Availability`
pub record Availability : Type 0 where
  pub available : Bool
  pub reason : String

abbrev pub unavailable_for : String → Availability
unavailable_for reason = record { available = false; reason = reason }

-- The map from a protocol to its availability; a missing key gives the zero value.
unfoldable pub availability_of : List (Text × Availability) → Text → Availability
availability_of [] protocol = unavailable_for ""
availability_of ((key, value) ∷ rest) protocol =
    let later = availability_of rest protocol in if eq_text key protocol then value else later

-- The map `Capabilities`, which has these four keys.
pub record Capabilities : Type 0 where
  pub connect : Bool
  pub favorite : Bool
  pub edit_metadata : Bool
  pub remove : Bool

-- `ProfileView`
pub record ProfileView : Type 0 where
  pub id : Text
  pub protocol : Text
  pub display_name : Text
  pub group : Text
  pub location : Text
  pub emoji : Text
  pub identifier : Text
  pub original_filename : Text
  pub imported_at : Text
  pub favorite : Bool
  pub recent : Bool
  pub available : Bool
  pub unavailable_reason : String
  pub capabilities : Capabilities

-- `Preferences`
pub record Preferences : Type 0 where
  pub favorites : List Text
  pub recents : List Text
  pub startup_mode : Text

abbrev pub preferences_in : Manifest → Preferences
preferences_in m = record {
  favorites = m.favorites;
  recents = m.recents;
  startup_mode = m.startup_mode;
}

module _ (H : Host) (B : Backends H) where
  unfoldable pub check_protocol : Text → Exec (Manager H) Availability
  check_protocol protocol =
      if not (B.installed protocol)
      then pure (unavailable_for "Protocol tooling is not installed.")
      else do
        e ← on_machine H (B.available protocol)
        if is_nil e
            then pure record { available = true; reason = "" }
            else pure (unavailable_for "Protocol tooling is unavailable.")

  unfoldable pub check_protocols : List Text → Exec (Manager H) (List (Text × Availability))
  check_protocols [] = pure []
  check_protocols (protocol ∷ protocols) = do
    a ← check_protocol protocol
    rest ← check_protocols protocols
    pure ((protocol, a) ∷ rest)

  -- `availability`
  abbrev pub availability : Exec (Manager H) (List (Text × Availability))
  availability = check_protocols (protocol_openvpn ∷ protocol_wireguard ∷ [])

  abbrev pub availability_if : Availability → {A : Type 0} → Result A → Availability
  availability_if backend (ok _) = backend
  availability_if backend (fail _) = unavailable_for "Profile data is unavailable."

  -- `profileAvailability`
  unfoldable pub profile_availability : Profile → Availability → Exec (Manager H) Availability
  profile_availability p backend = do
    resolved ← on_store H (resolve H p.id)
    pure (availability_if backend resolved)

  -- `view`
  unfoldable pub view : Profile → Manifest → Availability → Bool → ProfileView
  view p m a mutable = record {
    id = p.id;
    protocol = p.protocol;
    display_name = p.display_name;
    group = p.group;
    location = p.location;
    emoji = p.emoji;
    identifier = p.identifier;
    original_filename = p.original_filename;
    imported_at = B.format_time p.imported_at;
    favorite = contains m.favorites p.id;
    recent = contains m.recents p.id;
    available = a.available;
    unavailable_reason = a.reason;
    capabilities = record {
      connect = mutable && a.available;
      favorite = mutable;
      edit_metadata = mutable;
      remove = mutable;
    };
  }

  -- `view(profile, manifest, m.profileAvailability(…), !m.readOnly)`
  unfoldable pub show_profile :
      Manifest → List (Text × Availability) → Profile → Exec (Manager H) ProfileView
  show_profile m backends p = do
    a ← profile_availability p (availability_of backends p.protocol)
    pure (view p m a (not B.read_only))

  unfoldable pub profile_found : Manifest → Option Profile → Exec (Manager H) (Result ProfileView)
  profile_found m none = pure (fail (not_found ∷ []))
  profile_found m (some p) = do backends ← availability; v ← show_profile m backends p; pure (ok v)

  -- `Profile`
  unfoldable pub profile : Text → Exec (Manager H) (Result ProfileView)
  profile id = do m ← on_store H (snapshot H); profile_found m (find_profile m.profiles id)

  -- `Preferences`
  abbrev pub preferences : Exec (Manager H) Preferences
  preferences = do m ← on_store H (snapshot H); pure (preferences_in m)

  abbrev pub preferences_of : Result Manifest → Result Preferences
  preferences_of (ok m) = ok (preferences_in m)
  preferences_of (fail e) = fail e

  -- `SetPreferences`
  unfoldable pub change_preferences :
      List Text → List Text → Text → Exec (Manager H) (Result Preferences)
  change_preferences favorites recents startup =
      if B.read_only
      then pure (fail (read_only ∷ []))
      else do r ← on_store H (set_preferences H favorites recents startup); pure (preferences_of r)

  unfoldable pub show_updated : Result Profile → Exec (Manager H) (Result ProfileView)
  show_updated (fail e) = pure (fail e)
  show_updated (ok updated) = do
    m ← on_store H (snapshot H)
    backends ← availability
    v ← show_profile m backends updated
    pure (ok v)

  -- `UpdateMetadata`
  unfoldable pub change_metadata : Text → MetadataPatch → Exec (Manager H) (Result ProfileView)
  change_metadata id patch =
      if B.read_only
      then pure (fail (read_only ∷ []))
      else do r ← on_store H (update_metadata H id patch); show_updated r
