-- ===== src/Manager/Evidence.antt =====
-- internal/manager/manager.go: what a backend has answered when `start` or `stop` succeeds.
use tunnelfolio.Prelude.{
  false, not, some, List, [], ◌∷◌, ◌++◌, ◌≡◌, refl, sym, ap, ◌∙◌, subst, from_false,
}
use tunnelfolio.Prelude.Text.{Text}
use tunnelfolio.Prelude.Err.{
  Err, is_nil, eq-nil, is_nil-append, is_nil-append_left, Result, ok, fail,
}
use tunnelfolio.Prelude.Exec.{Exec, Post, Post-pure, Post-bind, Post-if, Post-modify}
use tunnelfolio.Profiles.Model.{Profile, Manifest, find_profile}
use tunnelfolio.Store.Host.{Host}
use tunnelfolio.Store.State.{Store}
use tunnelfolio.Store.Execution.{ExecutionCopy, prepare_execution, cleanup_copy}
use tunnelfolio.Store.Execution.Definite.{IsDefinite, fails-not_nil, prepare_execution-IsDefinite}
use tunnelfolio.Manager.Backends.{Backends, Observation, runtime_profile_at}
use tunnelfolio.Manager.State.{Manager, Execution, on_store, on_machine}
use tunnelfolio.Manager.Executions.Held.{Held, Held-last}
use tunnelfolio.Manager.Tunnels.{start, started, start_copy, stop, stop_copy, observe}

module _ {ℓ} (H : Host) {A : Type ℓ} where
  -- An answer of the store or of the machine, traced to the call.
  pub Post-asked_store :
      (m : Exec (Store H) A) (s : Manager H)
      → Post (on_store H m) (λ a t. ((m s.store).0 ≡ a) × (t.executions ≡ s.executions)) s
  unfolding on_store
  Post-asked_store m s = record { holds = (refl, refl) }

  pub Post-asked_machine :
      (m : Exec H.World A) (s : Manager H)
      → Post (on_machine H m) (λ a t. ((m s.store.world).0 ≡ a) × (t.executions ≡ s.executions)) s
  unfolding on_machine
  Post-asked_machine m s = record { holds = (refl, refl) }

-- An answer of any call.
pub Post-answer {ℓ κ} :
    {S : Type ℓ} {A : Type κ} (m : Exec S A) (s : S) → Post m (λ a _. (m s).0 ≡ a) s
Post-answer m s = record { holds = refl }

module _ (H : Host) (B : Backends H) where
  -- The backend stopped the profile's tunnel, from a private copy prepared for that.
  pub record IsStopped (p : Profile) : Type 0 where
    pub store : Store H
    pub copy : ExecutionCopy
    pub world : H.World
    pub prepared : (prepare_execution H p.id store).0 ≡ ok copy
    pub stopped : (B.stop p.protocol (runtime_profile_at copy.profile copy.path) world).0 ≡ []

  -- The backend started the profile's tunnel from a private copy that is among `es`.
  pub record IsStarted (p : Profile) (es : List Execution) : Type 0 where
    pub store : Store H
    pub copy : ExecutionCopy
    pub world : H.World
    pub prepared : (prepare_execution H p.id store).0 ≡ ok copy
    pub started : (B.start p.protocol (runtime_profile_at copy.profile copy.path) world).0 ≡ []
    pub held : Held copy es

  -- The tunnel of the profile that the manifest has under the ID runs: it was the only one observed,
  -- without an error, or the backend started it from a copy among `es`.
  pub data IsRunning (m : Manifest) (id : Text) (es : List Execution) : Type 0 where
    seen_alone :
        (seeing : Manager H) (o : Observation)
        → (observe H B m seeing).0 ≡ (o ∷ [], [])
        → o.profile_id ≡ id
        → IsRunning m id es
    brought_up :
        (p : Profile) → find_profile m.profiles id ≡ some p → IsStarted p es → IsRunning m id es

  -- The observed tunnel is that of a saved profile, and was stopped.
  pub record IsEnded (m : Manifest) (o : Observation) : Type 0 where
    pub profile : Profile
    pub saved : find_profile m.profiles o.profile_id ≡ some profile
    pub ended : IsStopped profile

  not_nil : {C : Type 0} (e : Err) → is_nil e ≡ false → e ≡ [] → C
  not_nil e bad nil = from_false (sym bad ∙ ap is_nil nil)

  started-IsStarted :
      (p : Profile) (store : Store H) (c : ExecutionCopy) (w : H.World) (e : Err) (t : Manager H)
      → (prepare_execution H p.id store).0 ≡ ok c
      → (B.start p.protocol (runtime_profile_at c.profile c.path) w).0 ≡ e
      → Post (started H B p c e) (λ e u. e ≡ [] → IsStarted p u.executions) t
  started-IsStarted p store c w e t ready is =
      Post-if (is_nil e) _ _ _ t
        (λ good. Post-modify _ _ _ t (
          Post-pure _ _ _ λ nil. record {
            store = store;
            copy = c;
            world = w;
            prepared = ready;
            started = is ∙ eq-nil e good;
            held = Held-last t.executions p.id c;
          }))
        λ bad.
          Post-bind _ _ (λ _ _. Unit {0}) _ t (record { holds = tt })
            λ cleanup u _.
              Post-if (is_nil cleanup) _ _ _ u (λ _. Post-pure _ _ u (not_nil e bad))
                λ _. Post-modify _ _ _ u (Post-pure _ _ _ (not_nil _ (is_nil-append_left e _ bad)))

  pub start-IsStarted :
      (p : Profile) (s : Manager H)
      → Post (start H B p) (λ e t. e ≡ [] → IsStarted p t.executions) s
  unfolding start
  start-IsStarted p s =
      Post-if (not (B.installed p.protocol)) _ _ _ s (λ _. Post-pure _ _ s (not_nil _ refl))
        λ _.
          Post-bind _ _ _ _ s (Post-asked_store H (prepare_execution H p.id) s)
            λ prepared t ready. from prepared t ready.0
    where
      definite : IsDefinite (prepare_execution H p.id s.store).0
      definite = (prepare_execution-IsDefinite H p.id s.store).holds

      from :
          (prepared : Result ExecutionCopy) (t : Manager H)
          → (prepare_execution H p.id s.store).0 ≡ prepared
          → Post (start_copy H B p prepared) (λ e u. e ≡ [] → IsStarted p u.executions) t
      from (fail e) t ready =
          Post-pure _ _ t (not_nil e (fails-not_nil e (subst IsDefinite ready definite)))
      from (ok c) t ready =
          Post-bind _ _ _ _ t (Post-asked_machine H _ t)
            λ e u is. started-IsStarted p s.store c t.store.world e u ready is.0

  pub stop-IsStopped :
      (p : Profile) (s : Manager H) → Post (stop H B p) (λ e _. e ≡ [] → IsStopped p) s
  unfolding stop
  stop-IsStopped p s =
      Post-if (not (B.installed p.protocol)) _ _ _ s (λ _. Post-pure _ _ s (not_nil _ refl))
        λ _.
          Post-bind _ _ _ _ s (Post-asked_store H (prepare_execution H p.id) s)
            λ prepared t ready. from prepared t ready.0
    where
      definite : IsDefinite (prepare_execution H p.id s.store).0
      definite = (prepare_execution-IsDefinite H p.id s.store).holds

      from :
          (prepared : Result ExecutionCopy) (t : Manager H)
          → (prepare_execution H p.id s.store).0 ≡ prepared
          → Post (stop_copy H B p prepared) (λ e _. e ≡ [] → IsStopped p) t
      from (fail e) t ready =
          Post-pure _ _ t (not_nil e (fails-not_nil e (subst IsDefinite ready definite)))
      from (ok c) t ready = Post-bind _ _ _ _ t (Post-asked_machine H _ t) λ e u is.
          Post-bind _ _ _ _ u (Post-asked_machine H (cleanup_copy H c) u) λ cleanup v _.
            Post-bind _ _ (λ _ _. Unit {0}) _ v (record { holds = tt })
              λ _ w _.
                Post-bind _ _ (λ _ _. Unit {0}) _ w (record { holds = tt })
                  λ rest x _. Post-pure _ _ x λ nil. record {
                    store = s.store;
                    copy = c;
                    world = t.store.world;
                    prepared = ready;
                    stopped = is.0 ∙ (is_nil-append e (cleanup ++ rest) (ap is_nil nil)).0;
                  }
