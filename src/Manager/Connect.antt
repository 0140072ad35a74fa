-- ===== src/Manager/Connect.antt =====
-- internal/manager/manager.go: `Connect`.
pub mod Recovered
pub mod Settled
pub mod Gated
use tunnelfolio.Prelude.{
  ℕ, Bool, true, false, not, ◌&&◌, Option, none, some, List, [], ◌∷◌, ◌++◌, if◌then◌else◌,
}
use tunnelfolio.Prelude.Text.{Text, eq_text}
use tunnelfolio.Prelude.Int.{ℤ, pos}
use tunnelfolio.Prelude.Err.{
  Err, is_nil, is_err, Result, ok, fail, read_only, transition_in_progress, managed_state_conflict,
  transition_failed, not_found, unavailable, cleanup_unproved,
}
use tunnelfolio.Prelude.Exec.{Exec, ◌>>=◌, ◌>>◌, pure, gets}
use tunnelfolio.Profiles.Model.{Profile, Manifest, find_profile}
use tunnelfolio.Store.Host.{Host}
use tunnelfolio.Store.State.{resolve, snapshot}
use tunnelfolio.Manager.Backends.{Backends, Observation}
use tunnelfolio.Manager.State.{
  Manager, Lifecycle, starting, switching, active, failed, known, uncertain, is_conflict, is_moving,
  set_lifecycle, fail_with, lifecycle_now, try_acquire, release, on_store, on_machine,
}
use tunnelfolio.Manager.Tunnels.{
  error_of, observe, start, stop, record_connection, reconcile_connection,
}
use tunnelfolio.Manager.Recovery.{recover_persistence_failure}

abbrev pub is_sole : List Observation → Text → Bool
is_sole (o ∷ []) id = eq_text o.profile_id id
is_sole _ id = false

-- `starting`, or `switching` from the one active tunnel.
abbrev pub moving_state : List Observation → Lifecycle
moving_state (_ ∷ []) = switching
moving_state _ = starting

module _ (H : Host) where
  -- The gate of `Connect` and `Disconnect`, around what needs it; `busy` answers for a call without it.
  unfoldable pub gated {ℓ} : {A : Type ℓ} → A → Exec (Manager H) A → Exec (Manager H) A
  gated busy body = do
    free ← try_acquire H
    if not free then pure busy else do result ← body; release H; pure result

  -- The deferred check: no transition is left under way.
  unfoldable pub settle_moving : Text → Exec (Manager H) (Unit {0})
  settle_moving id = do
    l ← lifecycle_now H
    if is_moving l then set_lifecycle H failed id "Tunnel transition did not settle." else pure tt

module _ (H : Host) (B : Backends H) where
  -- The target is already the active tunnel.
  unfoldable pub record_active : Text → Exec (Manager H) Err
  record_active id = do
    at ← on_machine H B.now
    e ← record_connection H B id at true
    again ←
        if is_nil e
        then pure []
        else (do later ← on_machine H B.now; reconcile_connection H B id later)
    if is_nil again
        then (do set_lifecycle H active id ""; pure [])
        else fail_with H uncertain id "" "The active tunnel could not be recorded durably."
            (managed_state_conflict ∷ (e ++ again))

  -- `start` of the target failed, and it is known to be down.
  unfoldable pub restore : Profile → Option Profile → Err → Exec (Manager H) Err
  restore target none e = do
    set_lifecycle H failed target.id "The tunnel could not be started."
    pure (transition_failed ∷ e)
  restore target (some p) e = do
    back ← start H B p
    if is_nil back
        then (do
          set_lifecycle H active p.id "The new tunnel failed; the previous tunnel was restored."
          pure (transition_failed ∷ e))
        else do
          reconcile ← reconcile_connection H B p.id (pos 0)
          fail_with H uncertain target.id ""
              "The new tunnel failed and the previous tunnel could not be restored safely."
              (managed_state_conflict ∷ (transition_failed ∷ (e ++ (back ++ reconcile))))

  -- `start` of the target failed.
  unfoldable pub start_failed : Manifest → Profile → Option Profile → Err → Exec (Manager H) Err
  start_failed m target previous e =
      if is_err e cleanup_unproved
      then (do
        reconcile ← reconcile_connection H B m.desired_profile (pos 0)
        fail_with H uncertain target.id "" "The failed tunnel could not be proved absent."
            (managed_state_conflict ∷ (e ++ reconcile)))
      else restore target previous e

  -- The target was started.
  unfoldable pub started_target : Profile → Option Profile → Exec (Manager H) Err
  started_target target previous = do
    at ← on_machine H B.now
    recorded ← record_connection H B target.id at true
    if not (is_nil recorded)
        then recover_persistence_failure H B target previous recorded
        else do set_lifecycle H active target.id ""; pure []

  -- From the start of the target on.
  unfoldable pub start_target : Manifest → Profile → Option Profile → Exec (Manager H) Err
  start_target m target previous = do
    e ← start H B target
    if not (is_nil e) then start_failed m target previous e else started_target target previous

  unfoldable pub switch_from : Manifest → Profile → Option Profile → Exec (Manager H) Err
  switch_from m target none =
      fail_with H uncertain target.id "" "The active tunnel no longer has a trusted library record."
        (managed_state_conflict ∷ [])
  switch_from m target (some p) = do
    e ← stop H B p
    if not (is_nil e)
        then fail_with H uncertain p.id "" "The active tunnel could not be proved stopped."
            (managed_state_conflict ∷ (transition_failed ∷ e))
        else start_target m target (some p)

  -- The transition behind `starting` or `switching`.
  unfoldable pub transition : Manifest → Profile → List Observation → Exec (Manager H) Err
  transition m target (o ∷ []) = switch_from m target (find_profile m.profiles o.profile_id)
  transition m target _ = start_target m target none

  unfoldable pub connect_observed :
      Manifest → Profile → Text → List Observation → Exec (Manager H) Err
  connect_observed m target id seen = if is_sole seen id then record_active id else do
    set_lifecycle H (moving_state seen) id ""
    e ← transition m target seen
    settle_moving H id
    pure e

  -- From `Resolve` on.
  unfoldable pub connect_target : Manifest → Text → Option Profile → Exec (Manager H) Err
  connect_target m id none = pure (not_found ∷ [])
  connect_target m id (some target) = do
    resolved ← on_store H (resolve H id)
    if not (is_nil (error_of resolved))
        then fail_with H known id "The requested profile is unavailable."
            "The requested profile could not be validated safely." (error_of resolved)
        else do
          if not (B.installed target.protocol) then pure (unavailable ∷ []) else do
            available ← on_machine H (B.available target.protocol)
            if not (is_nil available) then pure (unavailable ∷ []) else do
              seen ← observe H B m
              if not (is_nil seen.1)
                  then fail_with H uncertain id ""
                      "Tunnel state could not be proved before connecting."
                      (managed_state_conflict ∷ seen.1)
                  else connect_observed m target id seen.0

  -- `Connect` behind its gate.
  unfoldable pub connect_locked : Text → Exec (Manager H) Err
  connect_locked id = do
    l ← lifecycle_now H
    if is_conflict l
        then pure (managed_state_conflict ∷ [])
        else do m ← on_store H (snapshot H); connect_target m id (find_profile m.profiles id)

  -- `Connect`
  unfoldable pub connect : Text → Exec (Manager H) Err
  connect id =
      if B.read_only
      then pure (read_only ∷ [])
      else gated H (transition_in_progress ∷ []) (connect_locked id)
