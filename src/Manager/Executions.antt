-- ===== src/Manager/Executions.antt =====
-- internal/manager/manager.go: the private execution copies, from the moment that a tunnel runs from
-- one until its directory is removed.
pub mod Held
pub mod Accounted
use tunnelfolio.Prelude.{
  ℕ, Bool, true, false, not, ◌&&◌, ◌||◌, Option, none, some, List, [], ◌∷◌, ◌++◌, if◌then◌else◌,
}
use tunnelfolio.Prelude.Lists.{keep}
use tunnelfolio.Prelude.Text.{Text, eq_text, is_empty, contains}
use tunnelfolio.Prelude.Err.{Err, is_nil, other}
use tunnelfolio.Prelude.Exec.{Exec, ◌>>=◌, ◌>>◌, pure, gets, modify}
use tunnelfolio.Store.Host.{Host, FilePath}
use tunnelfolio.Store.Execution.{ExecutionCopy, cleanup_copy}
use tunnelfolio.Manager.State.{Manager, Execution, on_machine}

-- Equality of paths.
unfoldable pub eq_path : FilePath → FilePath → Bool
eq_path [] [] = true
eq_path (c ∷ p) (d ∷ q) = eq_text c d && eq_path p q
eq_path _ _ = false

-- `exceptPath != "" && execution.path == exceptPath`; no exception is `none`.
abbrev pub is_excepted : Option FilePath → ExecutionCopy → Bool
is_excepted none c = false
is_excepted (some path) c = eq_path c.path path

unfoldable pub is_taken : Text → Option FilePath → Execution → Bool
is_taken id except e = eq_text e.profile_id id && not (is_excepted except e.copy)

-- The IDs of the map, each once.
unfoldable pub execution_ids : List Execution → List Text
execution_ids [] = []
execution_ids (e ∷ es) =
    let rest = execution_ids es in if contains rest e.profile_id then rest else e.profile_id ∷ rest

-- The first copy of the profile at the path, and the map without it.
unfoldable pub take_path : Text → FilePath → List Execution → Option (Execution × List Execution)
take_path id path [] = none
take_path id path (e ∷ es) =
    let rest = take_path id path es in
    if eq_text e.profile_id id && eq_path e.copy.path path
    then some (e, es)
    else (elim rest [ none ↦ none | some (found, kept) ↦ some (found, e ∷ kept) ])

module _ (H : Host) where
  -- `addExecution`
  abbrev pub add_execution : Text → ExecutionCopy → Exec (Manager H) (Unit {0})
  add_execution id c =
      modify
        λ s. record s { executions = s.executions ++ record { profile_id = id; copy = c } ∷ [] }

  -- `takeExecutions`
  unfoldable pub take_executions : Text → Option FilePath → Exec (Manager H) (List Execution)
  take_executions id except s = (
    keep (is_taken id except) s.executions,
    record s { executions = keep (λ e. not (is_taken id except e)) s.executions },
  )

  -- The loop of `cleanupExecutions`: what cannot be cleaned is kept.
  unfoldable pub clean_each : Text → List Execution → Exec (Manager H) Err
  clean_each id [] = pure []
  clean_each id (e ∷ es) = do
    result ← on_machine H (cleanup_copy H e.copy)
    if is_nil result then pure tt else add_execution id e.copy
    rest ← clean_each id es
    pure (result ++ rest)

  -- `cleanupExecutions`
  unfoldable pub cleanup_executions : Text → Option FilePath → Exec (Manager H) Err
  cleanup_executions id except = do taken ← take_executions id except; clean_each id taken

  abbrev pub clean_found : Text → Option (Execution × List Execution) → Exec (Manager H) Err
  clean_found id none = pure []
  clean_found id (some (e, kept)) = do
    modify λ s. record s { executions = kept }
    result ← on_machine H (cleanup_copy H e.copy)
    if is_nil result then pure tt else add_execution id e.copy
    pure result

  -- `cleanupExecutionPath`; an empty path is an error.
  unfoldable pub cleanup_execution_path : Text → FilePath → Exec (Manager H) Err
  cleanup_execution_path id [] = pure (other ∷ [])
  cleanup_execution_path id (c ∷ path) = do
    es ← gets (λ s. s.executions)
    clean_found id (take_path id (c ∷ path) es)

  unfoldable pub clean_ids : List Text → Exec (Manager H) Err
  clean_ids [] = pure []
  clean_ids (id ∷ ids) = do e ← cleanup_executions id none; rest ← clean_ids ids; pure (e ++ rest)

  -- `cleanupAllExecutions`
  unfoldable pub cleanup_all_executions : Exec (Manager H) Err
  cleanup_all_executions = do es ← gets (λ s. s.executions); clean_ids (execution_ids es)
