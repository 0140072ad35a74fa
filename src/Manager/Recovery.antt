-- ===== src/Manager/Recovery.antt =====
-- internal/manager/manager.go: `recoverPersistenceFailure`, which takes the network back when the
-- manifest could not record what it did.
use tunnelfolio.Prelude.{
  Bool, true, false, not, ◌&&◌, Option, none, some, [], ◌∷◌, ◌++◌, if◌then◌else◌,
}
use tunnelfolio.Prelude.Text.{Text, is_empty}
use tunnelfolio.Prelude.Int.{ℤ, pos}
use tunnelfolio.Prelude.Err.{Err, is_nil, managed_state_conflict}
use tunnelfolio.Prelude.Exec.{Exec, ◌>>=◌, ◌>>◌, pure}
use tunnelfolio.Profiles.Model.{Profile}
use tunnelfolio.Store.Host.{Host}
use tunnelfolio.Store.State.{repair_durability}
use tunnelfolio.Manager.Backends.{Backends}
use tunnelfolio.Manager.State.{
  Manager, NetworkTruth, known, uncertain, active, set_lifecycle, set_failure, recovery_truth,
  on_store, on_machine,
}
use tunnelfolio.Manager.Tunnels.{start, stop, record_connection}

abbrev is_known : NetworkTruth → Bool
is_known known = true
is_known uncertain = false

-- What is recorded as desired: the tunnel that is up, or the previous one that failed to come back.
unfoldable pub desired_after : Option Profile → Err → Text → Text
desired_after none restore actual = actual
desired_after (some p) restore actual = if is_nil restore then actual else p.id

-- The previous tunnel's ID if it came back.
unfoldable pub actual_after : Option Profile → Err → Err → Text
actual_after none cleanup restore = []
actual_after (some p) cleanup restore = if is_nil cleanup && is_nil restore then p.id else []

-- The error of the recovery, from the error of each of its steps.
unfoldable pub recovery_err : NetworkTruth → Err → Err
recovery_err uncertain e = managed_state_conflict ∷ e
recovery_err known e = e

module _ (H : Host) (B : Backends H) where
  unfoldable pub restore_previous : Option Profile → Err → Exec (Manager H) Err
  restore_previous none cleanup = pure []
  restore_previous (some p) cleanup = if is_nil cleanup then start H B p else pure []

  abbrev pub time_of : Text → Exec (Manager H) ℤ
  time_of actual = if is_empty actual then pure (pos 0) else on_machine H B.now

  unfoldable pub settle_recovery : Profile → Text → NetworkTruth → Exec (Manager H) (Unit {0})
  settle_recovery target actual truth =
      if is_known truth && not (is_empty actual)
      then set_lifecycle H active actual
          "The network transition could not be recorded durably; the previous tunnel was restored."
      else set_failure H truth target.id
          "The network transition could not be recorded durably and was rolled back."
          "The network transition could not be compensated safely."

  -- `recoverPersistenceFailure`
  unfoldable pub recover_persistence_failure : Profile → Option Profile → Err → Exec (Manager H) Err
  recover_persistence_failure target previous cause = do
    cleanup ← stop H B target
    restore ← restore_previous previous cleanup
    repair ← on_store H (repair_durability H)
    reconcile ←
        if is_nil cleanup && is_nil repair
        then (do
          at ← time_of (actual_after previous cleanup restore)
          record_connection H B
              (desired_after previous restore (actual_after previous cleanup restore)) at false)
        else pure []
    settle_recovery target (actual_after previous cleanup restore)
        (recovery_truth cleanup restore repair reconcile)
    pure (
        recovery_err (recovery_truth cleanup restore repair reconcile)
          (cause ++ (cleanup ++ (restore ++ (repair ++ reconcile)))))
