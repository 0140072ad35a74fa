-- ===== src/Manager/Startup.antt =====
-- internal/manager/manager.go: `ReconcileStartup` and `handleUnexpectedExit`, which wait for the gate:
-- each is the step that it takes once it has it.
pub mod Rested
pub mod Exited
use tunnelfolio.Prelude.{
  ℕ, Bool, true, false, not, ◌&&◌, ◌||◌, Option, none, some, List, [], ◌∷◌, ◌++◌, if◌then◌else◌,
}
use tunnelfolio.Prelude.Text.{Text, eq_text, is_empty, codes}
use tunnelfolio.Prelude.Int.{ℤ, pos, is_nonzero}
use tunnelfolio.Prelude.Err.{Err, is_nil, is_err, cleanup_unproved}
use tunnelfolio.Prelude.Exec.{Exec, ◌>>=◌, ◌>>◌, pure, gets, modify}
use tunnelfolio.Profiles.Model.{Profile, Manifest, find_profile, startup_manual}
use tunnelfolio.Store.Host.{Host, FilePath}
use tunnelfolio.Store.State.{repair_durability, resolve, snapshot}
use tunnelfolio.Manager.Backends.{Backends, Observation}
use tunnelfolio.Manager.State.{
  Manager, NetworkTruth, known, uncertain, disconnected, restoring, active, state_conflict,
  set_lifecycle, set_failure, recovery_truth, release, on_store, on_machine,
}
use tunnelfolio.Manager.Executions.{cleanup_executions, cleanup_execution_path}
use tunnelfolio.Manager.Tunnels.{
  error_of, observe, start, stop, record_connection, reconcile_connection,
}
use tunnelfolio.Manager.Connect.{is_sole}

-- `tunnel.UnexpectedExit`
pub record UnexpectedExit : Type 0 where
  pub profile_id : Text
  pub execution_path : FilePath
  pub cleanup_proved : Bool

abbrev pub truth_of_start : Err → NetworkTruth
truth_of_start e = if is_err e cleanup_unproved then uncertain else known

module _ (H : Host) where
  -- `<-m.gate`, once the gate is free, and the deferred `release`.
  abbrev pub holding : Exec (Manager H) (Unit {0}) → Exec (Manager H) (Unit {0})
  holding body = do modify (λ s. record s { gate_free = false }); body; release H

module _ (H : Host) (B : Backends H) where
  -- The target runs, and the manifest could not record it.
  unfoldable pub compensate : Profile → Exec (Manager H) (Unit {0})
  compensate target = do
    stopped ← stop H B target
    repair ← on_store H (repair_durability H)
    reconcile ←
        if is_nil stopped && is_nil repair
        then reconcile_connection H B target.id (pos 0)
        else pure []
    set_failure H (recovery_truth stopped [] repair reconcile) target.id
        "The restored tunnel could not be recorded durably."
        "Startup restoration could not be compensated safely."

  unfoldable pub restore_target : Manifest → Option Profile → Exec (Manager H) (Unit {0})
  restore_target m none =
      set_failure H known m.desired_profile "The desired profile is unavailable." ""
  restore_target m (some target) =
      if not (B.installed target.protocol)
      then set_failure H known m.desired_profile "The desired profile is unavailable." ""
      else do
        resolved ← on_store H (resolve H target.id)
        if not (is_nil (error_of resolved))
            then set_failure H known m.desired_profile "The desired profile could not be restored."
                ""
            else do
              set_lifecycle H restoring target.id ""
              e ← start H B target
              if not (is_nil e)
                  then set_failure H (truth_of_start e) target.id
                      "The desired profile could not be restored."
                      "The failed startup restoration could not be proved absent."
                  else do
                    at ← on_machine H B.now
                    recorded ← record_connection H B target.id at true
                    if is_nil recorded
                        then set_lifecycle H active target.id ""
                        else compensate target

  -- No tunnel is up, and the manifest says so.
  unfoldable pub restore_desired : Manifest → Exec (Manager H) (Unit {0})
  restore_desired m =
      if B.read_only || (eq_text m.startup_mode startup_manual || is_empty m.desired_profile)
      then set_lifecycle H disconnected [] ""
      else restore_target m (find_profile m.profiles m.desired_profile)

  -- No tunnel is up: a manifest that records one is corrected first.
  unfoldable pub restore_from_none : Manifest → Exec (Manager H) (Unit {0})
  restore_from_none m =
      if not B.read_only && is_nonzero m.connected_at
      then (do
        e ← reconcile_connection H B m.desired_profile (pos 0)
        if not (is_nil e)
            then set_failure H uncertain m.desired_profile ""
                "Disconnected startup state could not be recorded durably."
            else do later ← on_store H (snapshot H); restore_desired later)
      else restore_desired m

  unfoldable pub adopt : Manifest → List Observation → Exec (Manager H) (Unit {0})
  adopt m (o ∷ []) =
      if eq_text o.profile_id m.desired_profile
      then set_lifecycle H active o.profile_id ""
      else set_lifecycle H state_conflict o.profile_id
          "The active tunnel differs from the desired profile."
  adopt m _ = restore_from_none m

  unfoldable pub reconcile_locked : Exec (Manager H) (Unit {0})
  reconcile_locked = do
    set_lifecycle H restoring [] ""
    m ← on_store H (snapshot H)
    seen ← observe H B m
    if not (is_nil seen.1)
        then set_failure H uncertain [] ""
            "Managed tunnel absence could not be proved during startup."
        else adopt m seen.0

  -- `ReconcileStartup`
  unfoldable pub reconcile_startup : Exec (Manager H) (Unit {0})
  reconcile_startup = holding H reconcile_locked

  -- The desired tunnel is gone.
  unfoldable pub record_exit : Manifest → Text → Exec (Manager H) (Unit {0})
  record_exit m id = do
    cleanup ← cleanup_executions H id none
    if not (is_nil cleanup)
        then set_failure H uncertain id ""
            "Private OpenVPN execution copies could not be cleaned safely."
        else do
          recorded ←
              if is_nonzero m.connected_at then reconcile_connection H B id (pos 0) else pure []
          if not (is_nil recorded)
              then set_failure H uncertain id "" "The OpenVPN exit could not be recorded durably."
              else set_failure H known id "The OpenVPN process exited unexpectedly." ""

  unfoldable pub exit_observed : Manifest → Text → List Observation → Exec (Manager H) (Unit {0})
  exit_observed m id [] = record_exit m id
  exit_observed m id (o ∷ os) =
      if is_sole (o ∷ os) id
      then pure tt
      else set_failure H uncertain id ""
          "A different tunnel was observed after the OpenVPN process exited."

  unfoldable pub exit_of_other : Text → Exec (Manager H) (Unit {0})
  exit_of_other id = do
    e ← cleanup_executions H id none
    if is_nil e
        then pure tt
        else set_failure H uncertain id ""
            "Private OpenVPN execution copies could not be cleaned safely."

  unfoldable pub exit_locked : UnexpectedExit → Exec (Manager H) (Unit {0})
  exit_locked event = do
    e ← cleanup_execution_path H event.profile_id event.execution_path
    if not event.cleanup_proved || not (is_nil e)
        then set_failure H uncertain event.profile_id ""
            "The OpenVPN process exited and cleanup could not be proved."
        else do
          m ← on_store H (snapshot H)
          if not (eq_text m.desired_profile event.profile_id)
              then exit_of_other event.profile_id
              else do
                seen ← observe H B m
                if not (is_nil seen.1)
                    then set_failure H uncertain event.profile_id ""
                        "Tunnel state could not be proved after the OpenVPN process exited."
                    else exit_observed m event.profile_id seen.0

  -- `handleUnexpectedExit`
  unfoldable pub handle_unexpected_exit : UnexpectedExit → Exec (Manager H) (Unit {0})
  handle_unexpected_exit event = holding H (exit_locked event)
