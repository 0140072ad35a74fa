-- ===== src/Manager/Disconnect.antt =====
-- internal/manager/manager.go: `Disconnect`, `Remove` and `Shutdown`.
pub mod Emptied
pub mod Settled
use tunnelfolio.Prelude.{
  ℕ, Bool, true, false, not, ◌&&◌, Option, none, some, List, [], ◌∷◌, ◌++◌, if◌then◌else◌,
}
use tunnelfolio.Prelude.Text.{Text, eq_text}
use tunnelfolio.Prelude.Int.{ℤ, pos}
use tunnelfolio.Prelude.Err.{
  Err, is_nil, is_err, Result, ok, fail, read_only, transition_in_progress, managed_state_conflict,
  transition_failed, not_found, active_profile,
}
use tunnelfolio.Prelude.Exec.{Exec, ◌>>=◌, ◌>>◌, pure, gets}
use tunnelfolio.Profiles.Model.{
  Profile, Manifest, find_profile, protocol_openvpn, protocol_wireguard,
}
use tunnelfolio.Store.Host.{Host}
use tunnelfolio.Store.State.{repair_durability, snapshot}
use tunnelfolio.Store.Removal.{RemovalResult, remove}
use tunnelfolio.Manager.Backends.{Backends, Observation}
use tunnelfolio.Manager.State.{
  Manager, Lifecycle, disconnected, disconnecting, uncertain, is_conflict, set_lifecycle, fail_with,
  lifecycle_now, on_store,
}
use tunnelfolio.Manager.Executions.{cleanup_all_executions}
use tunnelfolio.Manager.Tunnels.{
  observe, observe_protocol, stop, record_connection, shutdown_backends,
}
use tunnelfolio.Manager.Connect.{gated}

-- The profile is among the observed ones.
unfoldable pub is_observed : List Observation → Text → Bool
is_observed [] id = false
is_observed (o ∷ os) id =
    let rest = is_observed os id in if eq_text o.profile_id id then true else rest

abbrev pub all_protocols : List Text
all_protocols = protocol_openvpn ∷ protocol_wireguard ∷ []

module _ (H : Host) (B : Backends H) where
  -- The first observation, and after a conflict a second one behind a shutdown of the backends.
  unfoldable pub observe_recovering :
      Lifecycle → Manifest → Exec (Manager H) (List Observation × Err)
  observe_recovering prior m = do
    seen ← observe H B m
    if not (is_nil seen.1) && (not (is_err seen.1 managed_state_conflict) && is_conflict prior)
        then (do
          down ← shutdown_backends H B all_protocols
          again ← observe H B m
          if is_nil again.1 then pure again else pure (again.0, down ++ again.1))
        else pure seen

  unfoldable pub stop_found : Option Profile → Exec (Manager H) Err
  stop_found none = pure (managed_state_conflict ∷ [])
  stop_found (some p) = stop H B p

  -- The loop over the active tunnels.
  unfoldable pub stop_each : Manifest → List Observation → Exec (Manager H) Err
  stop_each m [] = pure []
  stop_each m (o ∷ os) = do
    e ← stop_found (find_profile m.profiles o.profile_id)
    rest ← stop_each m os
    pure (e ++ rest)

  -- The desired state is cleared, with one more try behind a repair.
  unfoldable pub clear_desired : Exec (Manager H) Err
  clear_desired = do
    first ← record_connection H B [] (pos 0) false
    if is_nil first then (do set_lifecycle H disconnected [] ""; pure []) else do
      repair ← on_store H (repair_durability H)
      if not (is_nil repair)
          then fail_with H uncertain [] ""
              "The tunnel stopped, but desired-state durability is unknown."
              (managed_state_conflict ∷ (first ++ repair))
          else do
            second ← record_connection H B [] (pos 0) false
            if is_nil second
                then (do set_lifecycle H disconnected [] ""; pure [])
                else fail_with H uncertain [] ""
                    "The tunnel stopped, but desired state could not be cleared safely."
                    (managed_state_conflict ∷ (first ++ second))

  unfoldable pub stop_all : Manifest → List Observation → Exec (Manager H) Err
  stop_all m active = do
    stopped ← stop_each m active
    if not (is_nil stopped)
        then fail_with H uncertain [] "" "One or more managed tunnels could not be proved stopped."
            (managed_state_conflict ∷ (transition_failed ∷ stopped))
        else do
          cleanup ← cleanup_all_executions H
          if not (is_nil cleanup)
              then fail_with H uncertain [] ""
                  "One or more private execution copies could not be cleaned safely."
                  (managed_state_conflict ∷ cleanup)
              else clear_desired

  -- `Disconnect` behind its gate.
  unfoldable pub disconnect_locked : Exec (Manager H) Err
  disconnect_locked = do
    prior ← lifecycle_now H
    set_lifecycle H disconnecting [] ""
    m ← on_store H (snapshot H)
    seen ← observe_recovering prior m
    if not (is_nil seen.1) && not (is_err seen.1 managed_state_conflict)
        then fail_with H uncertain [] "" "Tunnel absence could not be proved before disconnecting."
            (managed_state_conflict ∷ seen.1)
        else stop_all m seen.0

  -- `Disconnect`
  unfoldable pub disconnect : Exec (Manager H) Err
  disconnect =
      if B.read_only
      then pure (read_only ∷ [])
      else gated H (transition_in_progress ∷ []) disconnect_locked

  unfoldable pub remove_profile_found :
      Manifest → Text → Option Profile → Exec (Manager H) (Result RemovalResult)
  remove_profile_found m id none = pure (fail (not_found ∷ []))
  remove_profile_found m id (some p) = do
    seen ← observe_protocol H B m p.protocol
    if not (is_nil seen.1) then pure (fail seen.1) else do
      if is_observed seen.0 id then pure (fail (active_profile ∷ [])) else on_store H (remove H id)

  unfoldable pub remove_locked : Text → Exec (Manager H) (Result RemovalResult)
  remove_locked id = do
    l ← lifecycle_now H
    if is_conflict l
        then pure (fail (managed_state_conflict ∷ []))
        else do m ← on_store H (snapshot H); remove_profile_found m id (find_profile m.profiles id)

  -- `Remove`, up to the view of the profile that it returns.
  unfoldable pub remove_managed : Text → Exec (Manager H) (Result RemovalResult)
  remove_managed id =
      if B.read_only
      then pure (fail (read_only ∷ []))
      else gated H (fail (transition_in_progress ∷ [])) (remove_locked id)

  -- `Shutdown`
  unfoldable pub shutdown : Exec (Manager H) Err
  shutdown = do
    down ← shutdown_backends H B all_protocols
    cleanup ← cleanup_all_executions H
    pure (down ++ cleanup)
