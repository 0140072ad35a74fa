-- ===== src/Manager/Keeps.antt =====
-- internal/manager/manager.go: what the calls of a backend and of the store leave alone. Only the
-- operations themselves touch the gate and the lifecycle.
use tunnelfolio.Prelude.{
  Bool, true, false, not, Option, none, some, List, [], ◌∷◌, ◌++◌, ◌≡◌, refl, ◌∙◌, if◌then◌else◌,
}
use tunnelfolio.Prelude.Text.{Text}
use tunnelfolio.Prelude.Int.{ℤ}
use tunnelfolio.Prelude.Err.{is_nil, Result, ok, fail}
use tunnelfolio.Prelude.Exec.{
  Exec, ◌>>=◌, pure, gets, modify, Post, Post-pure, Post-if, Post-bind, Post-mono, Post-get,
  Post-gets, Post-unless,
}
use tunnelfolio.Profiles.Model.{Profile, Manifest, find_profile}
use tunnelfolio.Store.Host.{Host, FilePath}
use tunnelfolio.Store.State.{
  Store, resolve, found, on_host, snapshot, mutate, repair_durability, Post-host,
}
use tunnelfolio.Store.State.Repair.{IsSound, repair_durability-Repaired}
use tunnelfolio.Store.State.Mutation.{Mutated, changed, ambiguous_change, rejected, mutate-Mutated}
use tunnelfolio.Store.Changes.{connection_change, set_connection}
use tunnelfolio.Store.Execution.{ExecutionCopy, prepare_execution, copy_found}
use tunnelfolio.Manager.Backends.{Backends, Observation}
use tunnelfolio.Manager.State.{Manager, Execution, on_store, on_machine}
use tunnelfolio.Manager.Executions.{
  add_execution, take_executions, clean_each, cleanup_executions, clean_ids, cleanup_all_executions,
  clean_found, cleanup_execution_path, take_path,
}
use tunnelfolio.Manager.Tunnels.{
  observe_protocol, observe_each, observe, start, stop, record_connection, reconcile_connection,
  shutdown_backends, candidates, is_none_left, start_copy, stop_copy,
}

-- The gate and the lifecycle are the same, and a sound manifest stays sound.
pub record Kept {H : Host} (s t : Manager H) : Type 0 where
  pub gate : t.gate_free ≡ s.gate_free
  pub lifecycle : t.lifecycle ≡ s.lifecycle
  pub profile : t.lifecycle_profile ≡ s.lifecycle_profile
  pub sound : IsSound s.store → IsSound t.store

pub Kept-refl : {H : Host} (s : Manager H) → Kept s s
Kept-refl s = record { gate = refl; lifecycle = refl; profile = refl; sound = λ h. h }

pub Kept-trans : {H : Host} {s t u : Manager H} → Kept s t → Kept t u → Kept s u
Kept-trans k l = record {
  gate = l.gate ∙ k.gate;
  lifecycle = l.lifecycle ∙ k.lifecycle;
  profile = l.profile ∙ k.profile;
  sound = λ h. l.sound (k.sound h);
}

pub record Keeps {ℓ} {H : Host} {A : Type ℓ} (m : Exec (Manager H) A) : Type ℓ where
  pub kept : (s : Manager H) → Post m (λ _ t. Kept s t) s

-- A call of the store keeps a sound manifest.
pub record KeepsStore {ℓ} {H : Host} {A : Type ℓ} (m : Exec (Store H) A) : Type ℓ where
  pub kept : (s : Store H) → Post m (λ _ t. IsSound s → IsSound t) s

module _ {H : Host} where
  pub Keeps-pure {ℓ} : {A : Type ℓ} (a : A) → Keeps {H = H} (pure a)
  Keeps-pure a = record { kept = λ s. Post-pure a _ s (Kept-refl s) }

  pub Keeps-bind {ℓ κ} :
      {A : Type ℓ} {B : Type κ} {m : Exec (Manager H) A} {f : A → Exec (Manager H) B}
      → Keeps m
      → ((a : A) → Keeps (f a))
      → Keeps (m >>= f)
  Keeps-bind {m} {f} k l = record {
    kept = λ s.
        Post-bind m f _ _ s (k.kept s)
          λ a t p. Post-mono (f a) _ _ t ((l a).kept t) λ _ u q. Kept-trans p q;
  }

  pub Keeps-if {ℓ} :
      {A : Type ℓ} (b : Bool) {m n : Exec (Manager H) A}
      → Keeps m
      → Keeps n
      → Keeps (if b then m else n)
  Keeps-if true k l = k
  Keeps-if false k l = l

  pub Keeps-machine {ℓ} : {A : Type ℓ} (m : Exec H.World A) → Keeps (on_machine H m)
  unfolding on_machine
  Keeps-machine m = record {
    kept = λ s. record {
      holds = record { gate = refl; lifecycle = refl; profile = refl; sound = λ h. h };
    };
  }

  pub Keeps-store {ℓ} : {A : Type ℓ} {m : Exec (Store H) A} → KeepsStore m → Keeps (on_store H m)
  unfolding on_store
  Keeps-store k = record {
    kept = λ s. record {
      holds = record {
        gate = refl;
        lifecycle = refl;
        profile = refl;
        sound = (k.kept s.store).holds;
      };
    };
  }

  -- The executions may be anything.
  pub Keeps-executions :
      (f : List Execution → List Execution)
      → Keeps {H = H} (modify λ s. record s { executions = f s.executions })
  unfolding modify
  Keeps-executions f = record {
    kept = λ s. record {
      holds = record { gate = refl; lifecycle = refl; profile = refl; sound = λ h. h };
    };
  }

  pub Keeps-gets {ℓ} : {A : Type ℓ} (f : Manager H → A) → Keeps {H = H} (gets f)
  unfolding gets
  Keeps-gets f = record { kept = λ s. record { holds = Kept-refl s } }

module _ (H : Host) where
  KeepsStore-set_connection :
      (desired : Text) (at : ℤ) (recent : Bool) → KeepsStore (set_connection H desired at recent)
  unfolding set_connection
  KeepsStore-set_connection desired at recent = record {
    kept = λ s. Post-mono (mutate H _) _ _ s (mutate-Mutated H s _) λ a t p. sound s p;
  }
    where
      sound :
          (s : Store H) {a : Result Manifest} {t : Store H}
          → Mutated H s (λ m. ok (connection_change desired at recent m)) a t
          → IsSound s
          → IsSound t
      sound s (changed base next k v is m valid at_end known) h = rw at_end valid
      sound s (ambiguous_change e base next k is m valid unknown) h = valid
      sound s (rejected why same keeps) h = keeps h

  KeepsStore-repair : KeepsStore (repair_durability H)
  KeepsStore-repair = record {
    kept = λ s.
        Post-mono (repair_durability H) _ _ s (repair_durability-Repaired H s) λ e t r. r.sound;
  }

  KeepsStore-host {ℓ} : {A : Type ℓ} (m : Exec H.World A) → KeepsStore (on_host H m)
  unfolding on_host
  KeepsStore-host m = record { kept = λ s. record { holds = λ h. h } }

  pub KeepsStore-snapshot : KeepsStore (snapshot H)
  KeepsStore-snapshot = record { kept = λ s. Post-gets _ _ s (λ h. h) }

  KeepsStore-bind_host {ℓ κ} :
      {A : Type ℓ} {B : Type κ} (m : Exec H.World A) {f : A → Exec (Store H) B}
      → ((a : A) → KeepsStore (f a))
      → KeepsStore (on_host H m >>= f)
  KeepsStore-bind_host m {f} k = record {
    kept = λ s. Post-host H m f _ s λ a w. ((k a).kept (record s { world = w }));
  }

  pub KeepsStore-resolve : (id : Text) → KeepsStore (resolve H id)
  unfolding resolve found
  KeepsStore-resolve id = record {
    kept = λ s. Post-get _ _ _ s ((behind (find_profile s.manifest.profiles id)).kept s);
  }
    where
      behind : (p : Option Profile) → KeepsStore (found H p)
      behind none = record { kept = λ s. Post-pure _ _ s (λ h. h) }
      behind (some p) = record {
        kept = λ s.
            Post-host H _ _ _ s
              λ e w. Post-unless e _ _ _ _ (λ bad. λ h. h) (λ nil. Post-pure _ _ _ (λ h. h));
      }

  KeepsStore-prepare_execution : (id : Text) → KeepsStore (prepare_execution H id)
  unfolding prepare_execution copy_found
  KeepsStore-prepare_execution id = record {
    kept = λ s.
        Post-if H.read_only _ _ _ s (λ _. Post-pure _ _ s (λ h. h))
          λ _. Post-get _ _ _ s ((behind (find_profile s.manifest.profiles id)).kept s);
  }
    where
      behind : (p : Option Profile) → KeepsStore (copy_found H p)
      behind none = record { kept = λ s. Post-pure _ _ s (λ h. h) }
      behind (some p) = KeepsStore-host _

  pub Keeps-repair : Keeps (on_store H (repair_durability H))
  Keeps-repair = Keeps-store KeepsStore-repair

  -- The copies.
  pub Keeps-add_execution : (id : Text) (c : ExecutionCopy) → Keeps (add_execution H id c)
  Keeps-add_execution id c =
      Keeps-executions (λ es. es ++ record { profile_id = id; copy = c } ∷ [])

  Keeps-clean_each : (id : Text) (es : List Execution) → Keeps (clean_each H id es)
  unfolding clean_each
  Keeps-clean_each id [] = Keeps-pure []
  Keeps-clean_each id (e ∷ es) = Keeps-bind (Keeps-machine _) λ r.
      Keeps-bind (Keeps-if (is_nil r) (Keeps-pure tt) (Keeps-add_execution id e.copy))
        λ _. Keeps-bind (Keeps-clean_each id es) λ rest. Keeps-pure _

  pub Keeps-cleanup_executions :
      (id : Text) (except : Option FilePath) → Keeps (cleanup_executions H id except)
  unfolding cleanup_executions take_executions
  Keeps-cleanup_executions id except =
      Keeps-bind
        (record {
          kept = λ s. record {
            holds = record { gate = refl; lifecycle = refl; profile = refl; sound = λ h. h };
          };
        })
        (Keeps-clean_each id)

  Keeps-clean_ids : (ids : List Text) → Keeps (clean_ids H ids)
  unfolding clean_ids
  Keeps-clean_ids [] = Keeps-pure []
  Keeps-clean_ids (id ∷ ids) =
      Keeps-bind (Keeps-cleanup_executions id none)
        λ e. Keeps-bind (Keeps-clean_ids ids) λ rest. Keeps-pure _

  pub Keeps-cleanup_all_executions : Keeps (cleanup_all_executions H)
  unfolding cleanup_all_executions
  Keeps-cleanup_all_executions = Keeps-bind (Keeps-gets _) λ es. Keeps-clean_ids _

module _ (H : Host) where
  Keeps-clean_found :
      (id : Text) (found : Option (Execution × List Execution)) → Keeps (clean_found H id found)
  Keeps-clean_found id none = Keeps-pure []
  Keeps-clean_found id (some (e, kept)) = Keeps-bind (Keeps-executions (λ es. kept)) λ _.
      Keeps-bind (Keeps-machine _) λ r.
        Keeps-bind (Keeps-if (is_nil r) (Keeps-pure tt) (Keeps-add_execution H id e.copy))
          λ _. Keeps-pure r

  pub Keeps-cleanup_execution_path :
      (id : Text) (path : FilePath) → Keeps (cleanup_execution_path H id path)
  unfolding cleanup_execution_path
  Keeps-cleanup_execution_path id [] = Keeps-pure _
  Keeps-cleanup_execution_path id (c ∷ path) =
      Keeps-bind (Keeps-gets _) λ es. Keeps-clean_found id (take_path id (c ∷ path) es)

module _ (H : Host) (B : Backends H) where
  pub Keeps-observe_protocol :
      (m : Manifest) (protocol : Text) → Keeps (observe_protocol H B m protocol)
  unfolding observe_protocol
  Keeps-observe_protocol m protocol =
      Keeps-if (is_none_left (candidates m.profiles protocol)) (Keeps-pure _)
        (Keeps-if (not (B.installed protocol)) (Keeps-pure _) (Keeps-machine _))

  Keeps-observe_each :
      (m : Manifest) (protocols : List Text) (active : List Observation) (missing : Bool)
      → Keeps (observe_each H B m protocols active missing)
  unfolding observe_each
  Keeps-observe_each m [] active missing = Keeps-pure _
  Keeps-observe_each m (protocol ∷ protocols) active missing =
      Keeps-bind (Keeps-observe_protocol m protocol) λ seen.
        Keeps-if _ (Keeps-observe_each m protocols active true)
          (Keeps-if _ (Keeps-pure _) (Keeps-observe_each m protocols (active ++ seen.0) missing))

  pub Keeps-observe : (m : Manifest) → Keeps (observe H B m)
  unfolding observe
  Keeps-observe m = Keeps-observe_each m _ [] false

  pub Keeps-start : (p : Profile) → Keeps (start H B p)
  unfolding start
  Keeps-start p =
      Keeps-if _ (Keeps-pure _)
        (Keeps-bind (Keeps-store (KeepsStore-prepare_execution H p.id)) copied)
    where
      copied : (r : Result ExecutionCopy) → Keeps (start_copy H B p r)
      copied (fail e) = Keeps-pure e
      copied (ok c) = Keeps-bind (Keeps-machine _) λ e.
          Keeps-if (is_nil e) (Keeps-bind (Keeps-add_execution H p.id c) λ _. Keeps-pure _) (
            Keeps-bind (Keeps-machine _) λ cleanup.
              Keeps-if (is_nil cleanup) (Keeps-pure _)
                (Keeps-bind (Keeps-add_execution H p.id c) λ _. Keeps-pure _))

  pub Keeps-stop : (p : Profile) → Keeps (stop H B p)
  unfolding stop
  Keeps-stop p =
      Keeps-if _ (Keeps-pure _)
        (Keeps-bind (Keeps-store (KeepsStore-prepare_execution H p.id)) copied)
    where
      copied : (r : Result ExecutionCopy) → Keeps (stop_copy H B p r)
      copied (fail e) = Keeps-pure e
      copied (ok c) = Keeps-bind (Keeps-machine _) λ e. Keeps-bind (Keeps-machine _) λ cleanup.
          Keeps-bind (Keeps-if (is_nil cleanup) (Keeps-pure tt) (Keeps-add_execution H p.id c)) λ _.
            Keeps-bind
              (Keeps-if (is_nil e) (Keeps-cleanup_executions H p.id (some c.path)) (Keeps-pure _))
              λ rest. Keeps-pure _

  pub Keeps-record_connection :
      (desired : Text) (at : ℤ) (recent : Bool) → Keeps (record_connection H B desired at recent)
  unfolding record_connection
  Keeps-record_connection desired at recent =
      Keeps-bind (Keeps-store (KeepsStore-set_connection H desired at recent)) λ r. Keeps-pure _

  pub Keeps-reconcile_connection :
      (desired : Text) (at : ℤ) → Keeps (reconcile_connection H B desired at)
  unfolding reconcile_connection
  Keeps-reconcile_connection desired at =
      Keeps-bind (Keeps-record_connection desired at false) λ first. Keeps-if _ (Keeps-pure _) (
        Keeps-bind (Keeps-repair H) λ repair. Keeps-if _ (Keeps-pure _) (
          Keeps-bind (Keeps-record_connection desired at false)
            λ second. Keeps-if _ (Keeps-pure _) (Keeps-pure _)))

  pub Keeps-shutdown_backends : (protocols : List Text) → Keeps (shutdown_backends H B protocols)
  unfolding shutdown_backends
  Keeps-shutdown_backends [] = Keeps-pure []
  Keeps-shutdown_backends (protocol ∷ protocols) =
      Keeps-bind (Keeps-if (B.installed protocol) (Keeps-machine _) (Keeps-pure _))
        λ e. Keeps-bind (Keeps-shutdown_backends protocols) λ rest. Keeps-pure _
