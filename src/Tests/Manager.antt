-- ===== src/Tests/Manager.antt =====
-- Instances of the manager's theorems.
use tunnelfolio.Prelude.{true, [], ◌∷◌, ◌≡◌, refl}
use tunnelfolio.Prelude.Text.{codes}
use tunnelfolio.Prelude.Int.{pos}
use tunnelfolio.Prelude.Exec.{Post}
use tunnelfolio.Store.State.Repair.{IsSound}
use tunnelfolio.Manager.State.{Manager}
use tunnelfolio.Manager.Connect.{connect}
use tunnelfolio.Manager.Connect.Gated.{Attempt, connect-Attempt}
use tunnelfolio.Manager.Connect.Recovered.{IsUp}
use tunnelfolio.Manager.Disconnect.{disconnect, remove_managed}
use tunnelfolio.Manager.Startup.{reconcile_startup, UnexpectedExit, handle_unexpected_exit}
use tunnelfolio.Manager.Startup.Exited.{Exited, handle_unexpected_exit-Exited}
use tunnelfolio.Manager.Startup.Rested.{is_resting, reconcile_startup-is_resting}
use tunnelfolio.Manager.Executions.{cleanup_all_executions}
use tunnelfolio.Manager.Executions.Accounted.{cleanup_all_executions-Cleaned}
use tunnelfolio.Manager.Executions.Held.{Accounts, Held}
use tunnelfolio.Store.Execution.{ExecutionCopy}
use tunnelfolio.Store.Execution.Removed.{IsRemoved}
use tunnelfolio.Manager.Tunnels.{reconcile_connection}
use tunnelfolio.Manager.Recorded.{Recorded, reconcile_connection-Recorded}
use tunnelfolio.Manager.Status.{profile_detail}
use tunnelfolio.Manager.Status.Detail.{IsDetailed, profile_detail-IsDetailed}
use tunnelfolio.Manager.Looks.{Looked}
use tunnelfolio.Tests.Library.{backends, home_id, machine, manager, running}

connect_example :
    Post
      (connect machine backends home_id)
      (Attempt backends (IsUp backends manager.store.manifest home_id) manager)
      manager
connect_example = connect-Attempt machine backends home_id manager refl

reconcile_startup_example :
    Post
      (reconcile_startup machine backends)
      (λ _ t.
        (t.gate_free ≡ true)
        × (is_resting t.lifecycle ≡ true)
        × (IsSound manager.store → IsSound t.store))
      manager
reconcile_startup_example = reconcile_startup-is_resting machine backends manager

cleanup_all_executions_example :
    Post
      (cleanup_all_executions machine)
      (λ e t.
        Accounts machine running.executions t.executions
        × (e ≡ []
            → (t.executions ≡ [])
              × ((c : ExecutionCopy) → Held c running.executions → IsRemoved machine c)))
      running
cleanup_all_executions_example = cleanup_all_executions-Cleaned machine running

reconcile_connection_example :
    Post (reconcile_connection machine backends home_id (pos 0)) (Recorded home_id manager) manager
reconcile_connection_example =
    reconcile_connection-Recorded machine backends home_id (pos 0) manager

abbrev proved_exit : UnexpectedExit
proved_exit = record {
  profile_id = home_id;
  execution_path = codes "exec-1" ∷ [];
  cleanup_proved = true;
}

handle_unexpected_exit_example :
    Post
      (handle_unexpected_exit machine backends proved_exit)
      (λ _. Exited proved_exit running)
      running
handle_unexpected_exit_example =
    handle_unexpected_exit-Exited machine backends proved_exit running refl

-- The library's profile is connected, disconnected and removed.
abbrev session : Manager machine
session =
    (remove_managed machine backends home_id
      (disconnect machine backends (connect machine backends home_id manager).1).1).1

profile_detail_example :
    Post
      (profile_detail machine backends home_id)
      (λ r t. IsDetailed backends manager home_id r × Looked manager t)
      manager
profile_detail_example = profile_detail-IsDetailed machine backends manager home_id
