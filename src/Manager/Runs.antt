-- ===== src/Manager/Runs.antt =====
-- internal/manager/manager.go: the operations in sequence. The gate admits one at a time, so that a run
-- of the manager is a list of whole operations, each with any answers of the backends and the machine.
use tunnelfolio.Prelude.{true, false, ◌≡◌}
use tunnelfolio.Prelude.Text.{Text}
use tunnelfolio.Prelude.Err.{Err}
use tunnelfolio.Prelude.Exec.{Exec}
use tunnelfolio.Store.Host.{Host}
use tunnelfolio.Store.State.{Store}
use tunnelfolio.Store.State.Repair.{IsSound}
use tunnelfolio.Manager.Backends.{Backends}
use tunnelfolio.Manager.State.{Manager, is_moving}
use tunnelfolio.Manager.Keeps.{Keeps}
use tunnelfolio.Manager.Connect.{connect}
use tunnelfolio.Manager.Disconnect.{remove_managed, disconnect}
use tunnelfolio.Manager.Startup.{UnexpectedExit, reconcile_startup, handle_unexpected_exit}

module _ (H : Host) (B : Backends H) where
  -- The states that a run of operations leads to.
  pub data Reachable (s : Manager H) : Manager H → Type 0 where
    at_start : Reachable s s
    connected : (id : Text) {t : Manager H} → Reachable s t → Reachable s (connect H B id t).1
    disconnected_then : {t : Manager H} → Reachable s t → Reachable s (disconnect H B t).1
    removed : (id : Text) {t : Manager H} → Reachable s t → Reachable s (remove_managed H B id t).1
    reconciled : {t : Manager H} → Reachable s t → Reachable s (reconcile_startup H B t).1
    exited :
        (event : UnexpectedExit) {t : Manager H}
        → Reachable s t
        → Reachable s (handle_unexpected_exit H B event t).1

-- The gate is free, no transition is under way, and the manifest is one that `ValidateManifest` accepts.
pub record Ready {H : Host} (t : Manager H) : Type 0 where
  pub gate : t.gate_free ≡ true
  pub still : is_moving t.lifecycle ≡ false
  pub sound : IsSound t.store
