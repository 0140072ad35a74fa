-- ===== src/Manager/Disconnect/Settled.antt =====
-- What `Disconnect` leaves behind on each of its paths.
use tunnelfolio.Prelude.{List, [], ◌≡◌}
use tunnelfolio.Prelude.Err.{Err}
use tunnelfolio.Prelude.Exec.{Exec}
use tunnelfolio.Profiles.Model.{Manifest}
use tunnelfolio.Store.Host.{Host}
use tunnelfolio.Store.State.{Store}
use tunnelfolio.Manager.Backends.{Backends}
use tunnelfolio.Manager.State.{Manager, Lifecycle, Execution, disconnected}
use tunnelfolio.Manager.Disconnect.Emptied.{IsEmptied}
use tunnelfolio.Manager.Keeps.{Keeps}
use tunnelfolio.Manager.Recorded.{IsRecorded}
use tunnelfolio.Manager.Outcome.{Outcome}

-- Every tunnel that was seen is stopped and none is wanted, as a manifest that is not in doubt says; no
-- private copy is left, and those that were known before, `es`, are removed.
pub record IsDown {H : Host} (B : Backends H) (prior : Lifecycle) (m : Manifest)
    (es : List Execution) (t : Manager H) : Type 0 where
  pub emptied : IsEmptied B prior m es
  pub lifecycle : t.lifecycle ≡ disconnected
  pub recorded : IsRecorded [] t.store
  pub executions : t.executions ≡ []

module _ (H : Host) (B : Backends H) (s : Manager H) where
  -- The goal of a disconnection from the state `s`.
  abbrev Down : Manager H → Type 0
  Down = IsDown B s.lifecycle s.store.manifest s.executions

  abbrev Emptied : Type 0
  Emptied = IsEmptied B s.lifecycle s.store.manifest s.executions
