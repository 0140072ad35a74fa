-- ===== src/Manager/State.antt =====
-- internal/manager/manager.go: the manager's state, its gate, and how failures set the lifecycle.
use tunnelfolio.Prelude.{String, Bool, true, false, List, []}
use tunnelfolio.Prelude.Text.{Text}
use tunnelfolio.Prelude.Err.{Err}
use tunnelfolio.Prelude.Exec.{Exec, ◌>>=◌, ◌>>◌, pure, gets, modify, Post}
use tunnelfolio.Store.Host.{Host}
use tunnelfolio.Profiles.Model.{Manifest}
use tunnelfolio.Store.State.{Store, snapshot}
use tunnelfolio.Store.Execution.{ExecutionCopy}

-- The values of `lifecycle`.
pub data Lifecycle : Type 0 where
  disconnected starting switching active failed state_conflict disconnecting restoring : Lifecycle

abbrev pub is_conflict : Lifecycle → Bool
is_conflict state_conflict = true
is_conflict _ = false

-- `lifecycle == "starting" || lifecycle == "switching"`
abbrev pub is_moving : Lifecycle → Bool
is_moving starting = true
is_moving switching = true
is_moving _ = false

pub data NetworkTruth : Type 0 where
  known uncertain : NetworkTruth

-- An entry of the map `executions`, flat: the copies of one ID stand in the order of its slice.
pub record Execution : Type 0 where
  pub profile_id : Text
  pub copy : ExecutionCopy

pub record Manager (H : Host) : Type 0 where
  pub store : Store H
  -- The gate's token is there.
  pub gate_free : Bool
  pub executions : List Execution
  pub lifecycle : Lifecycle
  pub lifecycle_profile : Text
  pub last_error : String

-- `lifecycleForTruth`
abbrev pub lifecycle_for_truth : NetworkTruth → Lifecycle
lifecycle_for_truth uncertain = state_conflict
lifecycle_for_truth known = failed

abbrev pub message_for : NetworkTruth → String → String → String
message_for uncertain failed_message conflict_message = conflict_message
message_for known failed_message conflict_message = failed_message

-- `recoveryTruth`
abbrev pub recovery_truth : Err → Err → Err → Err → NetworkTruth
recovery_truth [] [] [] [] = known
recovery_truth _ _ _ _ = uncertain

module _ (H : Host) where
  -- A call of the store, and a call of the machine.
  unfoldable pub on_store {ℓ} : {A : Type ℓ} → Exec (Store H) A → Exec (Manager H) A
  on_store m s = let r = m s.store in (r.0, record s { store = r.1 })

  unfoldable pub on_machine {ℓ} : {A : Type ℓ} → Exec H.World A → Exec (Manager H) A
  on_machine m s =
      let r = m s.store.world in (r.0, record s { store = record s.store { world = r.1 } })

  -- `setLifecycle`
  abbrev pub set_lifecycle : Lifecycle → Text → String → Exec (Manager H) (Unit {0})
  set_lifecycle state profile message =
      modify λ s. record s { lifecycle = state; lifecycle_profile = profile; last_error = message }

  -- `setFailure`
  abbrev pub set_failure : NetworkTruth → Text → String → String → Exec (Manager H) (Unit {0})
  set_failure truth profile failed_message conflict_message =
      set_lifecycle (lifecycle_for_truth truth) profile
        (message_for truth failed_message conflict_message)

  abbrev pub lifecycle_now : Exec (Manager H) Lifecycle
  lifecycle_now = gets λ s. s.lifecycle

  -- `tryAcquire`
  unfoldable pub try_acquire : Exec (Manager H) Bool
  try_acquire s = (s.gate_free, record s { gate_free = false })

  -- `release`
  abbrev pub release : Exec (Manager H) (Unit {0})
  release = modify λ s. record s { gate_free = true }

  -- `setFailure`, then `return err`.
  abbrev pub fail_with : NetworkTruth → Text → String → String → Err → Exec (Manager H) Err
  fail_with truth profile failed_message conflict_message e = do
    set_failure truth profile failed_message conflict_message
    pure e

  -- What the machine answers, and the state that it leaves itself in, may be anything.
  pub Post-machine {ℓ μ ξ} :
      {A : Type ℓ} {B : Type μ} (m : Exec H.World A) (f : A → Exec (Manager H) B)
      (Q : B → Manager H → Type ξ) (s : Manager H)
      → ((a : A) (w : H.World) → Post (f a) Q (record s { store = record s.store { world = w } }))
      → Post (on_machine m >>= f) Q s
  unfolding on_machine ◌>>=◌
  Post-machine m f Q s k = record { holds = (k (m s.store.world).0 (m s.store.world).1).holds }

  -- What a call of the store leaves is what is known of it there.
  pub Post-store {ℓ μ ν ξ} :
      {A : Type ℓ} {B : Type μ} (m : Exec (Store H) A) (f : A → Exec (Manager H) B)
      (R : A → Store H → Type ν) (Q : B → Manager H → Type ξ) (s : Manager H)
      → Post m R s.store
      → ((a : A) (t : Store H) → R a t → Post (f a) Q (record s { store = t }))
      → Post (on_store m >>= f) Q s
  unfolding on_store ◌>>=◌
  Post-store m f R Q s p k = record { holds = (k (m s.store).0 (m s.store).1 p.holds).holds }

  pub Post-fail_with {ξ} :
      (truth : NetworkTruth) (profile : Text) (failed_message conflict_message : String) (e : Err)
      (Q : Err → Manager H → Type ξ) (s : Manager H)
      → Q e (record s {
        lifecycle = lifecycle_for_truth truth;
        lifecycle_profile = profile;
        last_error = message_for truth failed_message conflict_message;
      })
      → Post (fail_with truth profile failed_message conflict_message e) Q s
  unfolding ◌>>=◌
  Post-fail_with truth profile failed_message conflict_message e Q s q = record { holds = q }

  -- A block that begins with the store's `Snapshot`.
  pub Post-snapshot {μ ξ} :
      {B : Type μ} (f : Manifest → Exec (Manager H) B) (Q : B → Manager H → Type ξ) (s : Manager H)
      → Post (f s.store.manifest) Q s
      → Post (on_store (snapshot H) >>= f) Q s
  unfolding on_store ◌>>=◌
  Post-snapshot f Q s p = record { holds = p.holds }
