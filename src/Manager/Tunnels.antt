-- ===== src/Manager/Tunnels.antt =====
-- internal/manager/manager.go: the calls of a backend, from the manifest that the caller read.
use tunnelfolio.Prelude.{Bool, true, false, not, some, List, [], ◌∷◌, ◌++◌, ltb, if◌then◌else◌}
use tunnelfolio.Prelude.Lists.{length}
use tunnelfolio.Prelude.Text.{Text, eq_text}
use tunnelfolio.Prelude.Int.{ℤ}
use tunnelfolio.Prelude.Err.{
  Err, is_nil, is_err, Result, ok, fail, unavailable, managed_state_conflict, cleanup_unproved,
}
use tunnelfolio.Prelude.Exec.{Exec, ◌>>=◌, ◌>>◌, pure}
use tunnelfolio.Profiles.Model.{Profile, Manifest, protocol_openvpn, protocol_wireguard}
use tunnelfolio.Store.Host.{Host}
use tunnelfolio.Store.State.{repair_durability}
use tunnelfolio.Store.Changes.{set_connection}
use tunnelfolio.Store.Execution.{ExecutionCopy, cleanup_copy, prepare_execution}
use tunnelfolio.Manager.Backends.{
  Backends, TunnelProfile, Observation, runtime_profile, runtime_profile_at,
}
use tunnelfolio.Manager.State.{Manager, on_store, on_machine}
use tunnelfolio.Manager.Executions.{add_execution, cleanup_executions}

-- The error of a result.
abbrev pub error_of {ℓ} : {A : Type ℓ} → Result A → Err
error_of (ok _) = []
error_of (fail e) = e

-- The candidates of one protocol.
unfoldable pub candidates : List Profile → Text → List TunnelProfile
candidates [] protocol = []
candidates (p ∷ ps) protocol =
    let rest = candidates ps protocol in
    if eq_text p.protocol protocol then runtime_profile p ∷ rest else rest

abbrev pub is_none_left {ℓ} : {A : Type ℓ} → List A → Bool
is_none_left [] = true
is_none_left (_ ∷ _) = false

-- What `observe` answers once each protocol has been asked.
unfoldable pub observed : List Observation → Bool → List Observation × Err
observed active missing =
    if ltb 1 (length active)
    then (active, managed_state_conflict ∷ [])
    else if missing
    then (active, unavailable ∷ [])
    else (active, [])

module _ (H : Host) (B : Backends H) where
  -- `observeProtocol`
  unfoldable pub observe_protocol : Manifest → Text → Exec (Manager H) (List Observation × Err)
  observe_protocol m protocol =
      if is_none_left (candidates m.profiles protocol)
      then pure ([], [])
      else if not (B.installed protocol)
      then pure ([], unavailable ∷ [])
      else on_machine H (B.observe protocol (candidates m.profiles protocol))

  -- The loop of `observe`.
  unfoldable pub observe_each :
      Manifest → List Text → List Observation → Bool → Exec (Manager H) (List Observation × Err)
  observe_each m [] active missing = pure (observed active missing)
  observe_each m (protocol ∷ protocols) active missing = do
    seen ← observe_protocol m protocol
    if is_err seen.1 unavailable
        then observe_each m protocols active true
        else if not (is_nil seen.1)
        then pure (active, seen.1)
        else observe_each m protocols (active ++ seen.0) missing

  -- `observe`
  unfoldable pub observe : Manifest → Exec (Manager H) (List Observation × Err)
  observe m = observe_each m (protocol_openvpn ∷ protocol_wireguard ∷ []) [] false

  abbrev pub started : Profile → ExecutionCopy → Err → Exec (Manager H) Err
  started p c e = if is_nil e then (do add_execution H p.id c; pure []) else do
    cleanup ← on_machine H (cleanup_copy H c)
    if is_nil cleanup
        then pure e
        else do add_execution H p.id c; pure (e ++ (cleanup_unproved ∷ cleanup))

  abbrev pub start_copy : Profile → Result ExecutionCopy → Exec (Manager H) Err
  start_copy p (fail e) = pure e
  start_copy p (ok c) = do
    e ← on_machine H (B.start p.protocol (runtime_profile_at c.profile c.path))
    started p c e

  -- `start`
  unfoldable pub start : Profile → Exec (Manager H) Err
  start p =
      if not (B.installed p.protocol)
      then pure (unavailable ∷ [])
      else do prepared ← on_store H (prepare_execution H p.id); start_copy p prepared

  abbrev pub stop_copy : Profile → Result ExecutionCopy → Exec (Manager H) Err
  stop_copy p (fail e) = pure e
  stop_copy p (ok c) = do
    e ← on_machine H (B.stop p.protocol (runtime_profile_at c.profile c.path))
    cleanup ← on_machine H (cleanup_copy H c)
    if is_nil cleanup then pure tt else add_execution H p.id c
    rest ← if is_nil e then cleanup_executions H p.id (some c.path) else pure []
    pure (e ++ (cleanup ++ rest))

  -- `stop`
  unfoldable pub stop : Profile → Exec (Manager H) Err
  stop p =
      if not (B.installed p.protocol)
      then pure (unavailable ∷ [])
      else do prepared ← on_store H (prepare_execution H p.id); stop_copy p prepared

  -- `_, err := m.store.SetConnection(…)`
  unfoldable pub record_connection : Text → ℤ → Bool → Exec (Manager H) Err
  record_connection desired connected_at add_recent = do
    r ← on_store H (set_connection H desired connected_at add_recent)
    pure (error_of r)

  -- `reconcileConnection`
  unfoldable pub reconcile_connection : Text → ℤ → Exec (Manager H) Err
  reconcile_connection desired connected_at = do
    first ← record_connection desired connected_at false
    if is_nil first then pure [] else do
      repair ← on_store H (repair_durability H)
      if not (is_nil repair) then pure (first ++ repair) else do
        second ← record_connection desired connected_at false
        if is_nil second then pure [] else pure (first ++ second)

  -- `shutdownBackends`, for the protocols of the map in some order.
  unfoldable pub shutdown_backends : List Text → Exec (Manager H) Err
  shutdown_backends [] = pure []
  shutdown_backends (protocol ∷ protocols) = do
    e ← if B.installed protocol then on_machine H (B.shutdown protocol) else pure []
    rest ← shutdown_backends protocols
    pure (e ++ rest)
