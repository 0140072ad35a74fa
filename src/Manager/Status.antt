-- ===== src/Manager/Status.antt =====
-- internal/manager/manager.go: `Status` and `ProfileDetail`.
pub mod Sighted
pub mod Truthful
pub mod Detail
use tunnelfolio.Prelude.{
  String, Bool, true, false, not, ◌&&◌, ◌||◌, Option, none, some, List, [], ◌∷◌, if◌then◌else◌,
}
use tunnelfolio.Prelude.Text.{Text, eq_text, is_empty, codes}
use tunnelfolio.Prelude.Int.{ℤ}
use tunnelfolio.Prelude.Err.{
  Err, is_nil, is_err, Result, ok, fail, unavailable, managed_state_conflict, identity_conflict,
}
use tunnelfolio.Prelude.Exec.{Exec, ◌>>=◌, pure, gets}
use tunnelfolio.Profiles.Model.{Profile, Manifest, find_profile}
use tunnelfolio.Store.Host.{Host}
use tunnelfolio.Store.State.{snapshot}
use tunnelfolio.Manager.Backends.{Backends, Observation, ProtocolStatus, runtime_profile}
use tunnelfolio.Manager.State.{
  Manager, Lifecycle, disconnected, starting, switching, active, failed, state_conflict,
  disconnecting, restoring, is_conflict, on_store, on_machine,
}
use tunnelfolio.Manager.Tunnels.{observe}
use tunnelfolio.Manager.Views.{Availability, ProfileView, availability, show_profile, profile}

-- The lifecycle that a status shows: one of the manager's, or that nothing could be observed.
pub data Shown : Type 0 where
  at_lifecycle : Lifecycle → Shown
  observation_unavailable : Shown

-- `Status`; the time of the observation is in seconds.
pub record Status : Type 0 where
  pub lifecycle : Shown
  pub connected : Bool
  pub profile : Option ProfileView
  pub protocol_status : Option ProtocolStatus
  pub backends : List (Text × Availability)
  pub last_error : String
  pub observed_at : ℤ
  pub observation_available : Bool
  pub can_disconnect : Bool

-- `ProfileDetail`
pub record ProfileDetail : Type 0 where
  pub view : ProfileView
  pub current : Bool
  pub protocol_status : Option ProtocolStatus

-- The fields that every status sets, with the zero values of the others.
abbrev pub status_at : Shown → List (Text × Availability) → String → ℤ → Bool → Status
status_at l backends message at available = record {
  lifecycle = l;
  connected = false;
  profile = none;
  protocol_status = none;
  backends = backends;
  last_error = message;
  observed_at = at;
  observation_available = available;
  can_disconnect = false;
}

abbrev pub in_transition : Lifecycle → Bool
in_transition starting = true
in_transition switching = true
in_transition disconnecting = true
in_transition restoring = true
in_transition _ = false

abbrev pub is_failed : Lifecycle → Bool
is_failed failed = true
is_failed _ = false

-- `publicObservationError`
unfoldable pub public_observation_error : Err → String
public_observation_error e =
    if is_err e managed_state_conflict || is_err e identity_conflict
    then "Managed tunnel state is conflicted."
    else "Tunnel state could not be observed."

-- The status behind an error that is not a single tunnel's missing backend.
unfoldable pub conflict_status : Bool → Err → Status → Status
conflict_status mutable e base =
    if is_err e managed_state_conflict || is_err e identity_conflict
    then record base {
      lifecycle = at_lifecycle state_conflict;
      can_disconnect = is_err e managed_state_conflict && mutable;
    }
    else base

abbrev pub answered : Option (Result ProtocolStatus) → Option ProtocolStatus
answered (some (ok answer)) = some answer
answered _ = none

-- The protocol's status, or that it could not be observed.
abbrev pub with_answer : Option (Result ProtocolStatus) → Status → Status
with_answer none base = base
with_answer (some (ok answer)) base = record base { protocol_status = some answer }
with_answer (some (fail e)) base = record base {
  protocol_status = some record {
    state = codes "observation_unavailable";
    received_bytes = 0;
    sent_bytes = 0;
    peers = [];
  };
  last_error = "Protocol status could not be observed.";
}

-- `status.Profile != nil && status.Profile.ID == id`
unfoldable pub is_shown : Text → Option ProfileView → Bool
is_shown id none = false
is_shown id (some v) = eq_text v.id id

unfoldable pub detail_of : Text → ProfileView → Status → ProfileDetail
detail_of id v r =
    if is_shown id r.profile
    then record { view = v; current = r.connected; protocol_status = r.protocol_status }
    else record { view = v; current = false; protocol_status = none }

module _ (H : Host) where
  -- `lifecycleSnapshot`
  abbrev pub lifecycle_snapshot : Exec (Manager H) (Lifecycle × Text × String)
  lifecycle_snapshot = gets λ s. (s.lifecycle, s.lifecycle_profile, s.last_error)

module _ (H : Host) (B : Backends H) where
  unfoldable pub show_found :
      Manifest → List (Text × Availability) → Option Profile → Exec (Manager H) (Option ProfileView)
  show_found m backends none = pure none
  show_found m backends (some p) = do v ← show_profile H B m backends p; pure (some v)

  -- In a conflict, or while an operation is under way, nothing is observed.
  unfoldable pub status_unobserved :
      Manifest → List (Text × Availability) → Lifecycle × Text × String → Exec (Manager H) Status
  status_unobserved m backends (l, id, message) = do
    at ← on_machine H B.now
    shown ← show_found m backends (find_profile m.profiles id)
    pure record (status_at (at_lifecycle l) backends message at (not (is_conflict l))) {
      profile = shown;
      can_disconnect = is_conflict l && not B.read_only;
    }

  -- `backend.Status`, where there is a backend.
  unfoldable pub ask_backend : Profile → Exec (Manager H) (Option (Result ProtocolStatus))
  ask_backend p =
      if not (B.installed p.protocol)
      then pure none
      else do r ← on_machine H (B.status p.protocol (runtime_profile p)); pure (some r)

  -- One tunnel is seen, and another backend is missing.
  unfoldable pub status_partial :
      Manifest → List (Text × Availability) → Status → Option Profile → Exec (Manager H) Status
  status_partial m backends base none = pure base
  status_partial m backends base (some p) = do
    v ← show_profile H B m backends p
    r ← ask_backend p
    pure record base { connected = true; profile = some v; protocol_status = answered r }

  unfoldable pub status_failed :
      Manifest
      → List (Text × Availability)
      → Err
      → Status
      → List Observation
      → Exec (Manager H) Status
  status_failed m backends e base (o ∷ []) =
      if is_err e unavailable
      then status_partial m backends base (find_profile m.profiles o.profile_id)
      else pure (conflict_status (not B.read_only) e base)
  status_failed m backends e base _ = pure (conflict_status (not B.read_only) e base)

  unfoldable pub status_found :
      Manifest → List (Text × Availability) → Status → Option Profile → Exec (Manager H) Status
  status_found m backends base none = pure record base {
    lifecycle = at_lifecycle state_conflict;
    last_error = "An active tunnel no longer has a library record.";
  }
  status_found m backends base (some p) = do
    v ← show_profile H B m backends p
    if not (is_empty m.desired_profile) && not (eq_text m.desired_profile p.id)
        then pure record base {
          connected = true;
          lifecycle = at_lifecycle state_conflict;
          last_error = "The active tunnel differs from the desired profile.";
          profile = some v;
        }
        else do
          r ← ask_backend p
          pure (
              with_answer r
                record base { connected = true; lifecycle = at_lifecycle active; profile = some v })

  unfoldable pub status_active :
      Manifest
      → List (Text × Availability)
      → Lifecycle × Text × String
      → Status
      → List Observation
      → Exec (Manager H) Status
  status_active m backends (l, _, message) base [] = pure (
      if is_failed l
      then record base { lifecycle = at_lifecycle l; last_error = message }
      else base)
  status_active m backends snap base (o ∷ _) =
      status_found m backends base (find_profile m.profiles o.profile_id)

  unfoldable pub status_observed :
      Manifest → List (Text × Availability) → Lifecycle × Text × String → Exec (Manager H) Status
  status_observed m backends snap = do
    seen ← observe H B m
    at ← on_machine H B.now
    if is_nil seen.1
        then status_active m backends snap
            (status_at (at_lifecycle disconnected) backends "" at true) seen.0
        else status_failed m backends seen.1
            (status_at observation_unavailable backends (public_observation_error seen.1) at false)
            seen.0

  -- `Status`
  unfoldable pub status : Exec (Manager H) Status
  status = do
    snap ← lifecycle_snapshot H
    m ← on_store H (snapshot H)
    backends ← availability H B
    if is_conflict snap.0 || in_transition snap.0
        then status_unobserved m backends snap
        else status_observed m backends snap

  unfoldable pub detail_found : Text → Result ProfileView → Exec (Manager H) (Result ProfileDetail)
  detail_found id (fail e) = pure (fail e)
  detail_found id (ok v) = do r ← status; pure (ok (detail_of id v r))

  -- `ProfileDetail`
  unfoldable pub profile_detail : Text → Exec (Manager H) (Result ProfileDetail)
  profile_detail id = do v ← profile H B id; detail_found id v
