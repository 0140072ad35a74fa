-- ===== src/Manager/Startup/Exited.antt =====
-- What `handleUnexpectedExit` leaves behind on each of its paths.
use tunnelfolio.Prelude.{
  String, Bool, true, false, not, ◌||◌, none, List, [], ◌∷◌, ◌≡◌, refl, sym, arith, ◌⊎◌, inl, inr,
}
use tunnelfolio.Prelude.Text.{Text, eq_text}
use tunnelfolio.Prelude.Int.{pos, is_nonzero}
use tunnelfolio.Prelude.Err.{is_nil}
use tunnelfolio.Prelude.Exec.{Post-modify, Exec, ◌>>=◌, modify, Post, Post-pure, Post-if, Post-bind}
use tunnelfolio.Profiles.Model.{Manifest}
use tunnelfolio.Store.Host.{Host}
use tunnelfolio.Store.State.Repair.{IsSound}
use tunnelfolio.Manager.Backends.{Backends, Observation}
use tunnelfolio.Manager.State.{
  Manager, Lifecycle, known, uncertain, failed, state_conflict, set_failure, Post-snapshot,
}
use tunnelfolio.Manager.Keeps.{
  Kept, Kept-refl, Kept-trans, Keeps, Keeps-pure, Keeps-if, Keeps-observe,
  Keeps-reconcile_connection, Keeps-cleanup_executions, Keeps-cleanup_execution_path,
}
use tunnelfolio.Manager.Connect.{is_sole}
use tunnelfolio.Manager.Startup.{
  UnexpectedExit, record_exit, exit_observed, exit_of_other, exit_locked, handle_unexpected_exit,
}

abbrev pub is_failure : Lifecycle → Bool
is_failure failed = true
is_failure state_conflict = true
is_failure _ = false

-- The lifecycle is as it was or a failure, and in conflict where the clean-up was not proved.
pub record Exited {H : Host} (event : UnexpectedExit) (s t : Manager H) : Type 0 where
  pub lifecycle : (t.lifecycle ≡ s.lifecycle) ⊎ (is_failure t.lifecycle ≡ true)
  pub unproved : (event.cleanup_proved ≡ true) ⊎ (t.lifecycle ≡ state_conflict)
  pub gate : t.gate_free ≡ s.gate_free
  pub sound : IsSound s.store → IsSound t.store

module _ {H : Host} (event : UnexpectedExit) (s : Manager H) where
  Exited-behind {ℓ} :
      {A : Type ℓ} {m : Exec (Manager H) A} (f : A → Exec (Manager H) (Unit {0})) (t : Manager H)
      → Kept s t
      → Keeps m
      → ((a : A) (u : Manager H) → Kept s u → Post (f a) (λ _. Exited event s) u)
      → Post (m >>= f) (λ _. Exited event s) t
  Exited-behind {m} f t kept k rest =
      Post-bind m f _ _ t (k.kept t) λ a u p. rest a u (Kept-trans kept p)

  Exited-conflict :
      (failed_message conflict_message : String) (id : Text) (t : Manager H)
      → Kept s t
      → Post (set_failure H uncertain id failed_message conflict_message) (λ _. Exited event s) t
  unfolding modify
  Exited-conflict failed_message conflict_message id t k = record {
    holds = record { lifecycle = inr refl; unproved = inr refl; gate = k.gate; sound = k.sound };
  }

  -- Behind a clean-up that was proved.
  Exited-Kept : (t : Manager H) → event.cleanup_proved ≡ true → Kept s t → Exited event s t
  Exited-Kept t proved k = record {
    lifecycle = inl k.lifecycle;
    unproved = inl proved;
    gate = k.gate;
    sound = k.sound;
  }

  Exited-failed :
      (message conflict : String) (id : Text) (t : Manager H)
      → event.cleanup_proved ≡ true
      → Kept s t
      → Post (set_failure H known id message conflict) (λ _. Exited event s) t
  unfolding modify
  Exited-failed message conflict id t proved k = record {
    holds = record { lifecycle = inr refl; unproved = inl proved; gate = k.gate; sound = k.sound };
  }

module _ (H : Host) (B : Backends H) (event : UnexpectedExit) (s : Manager H)
    (proved : event.cleanup_proved ≡ true) where
  record_exit-Exited :
      (m : Manifest) (id : Text) (t : Manager H)
      → Kept s t
      → Post (record_exit H B m id) (λ _. Exited event s) t
  unfolding record_exit
  record_exit-Exited m id t kept =
      Exited-behind event s _ t kept (Keeps-cleanup_executions H id none) λ e u k.
        Post-if (not (is_nil e)) _ _ _ u (λ _. Exited-conflict event s "" _ id u k)
          λ _.
            Exited-behind event s _ u k
              (Keeps-if (is_nonzero m.connected_at) (Keeps-reconcile_connection H B id (pos 0))
                (Keeps-pure []))
              λ recorded v l.
                Post-if (not (is_nil recorded)) _ _ _ v (λ _. Exited-conflict event s "" _ id v l)
                  (λ _. Exited-failed event s _ "" id v proved l)

  exit_observed-Exited :
      (m : Manifest) (id : Text) (seen : List Observation) (t : Manager H)
      → Kept s t
      → Post (exit_observed H B m id seen) (λ _. Exited event s) t
  unfolding exit_observed
  exit_observed-Exited m id [] t kept = record_exit-Exited m id t kept
  exit_observed-Exited m id (o ∷ os) t kept =
      Post-if (is_sole (o ∷ os) id) _ _ _ t
        (λ _. Post-pure _ _ t (Exited-Kept event s t proved kept))
        (λ _. Exited-conflict event s "" _ id t kept)

  exit_of_other-Exited :
      (id : Text) (t : Manager H) → Kept s t → Post (exit_of_other H B id) (λ _. Exited event s) t
  unfolding exit_of_other
  exit_of_other-Exited id t kept =
      Exited-behind event s _ t kept (Keeps-cleanup_executions H id none) λ e u k.
        Post-if (is_nil e) _ _ _ u (λ _. Post-pure _ _ u (Exited-Kept event s u proved k))
          (λ _. Exited-conflict event s "" _ id u k)

module _ (H : Host) (B : Backends H) (event : UnexpectedExit) (s : Manager H) where
  exit_locked-Exited : Post (exit_locked H B event) (λ _. Exited event s) s
  unfolding exit_locked
  exit_locked-Exited =
      Exited-behind event s _ s (Kept-refl s)
        (Keeps-cleanup_execution_path H event.profile_id event.execution_path)
        λ e t k.
          Post-if (not event.cleanup_proved || not (is_nil e)) _ _ _ t
            (λ _. Exited-conflict event s "" _ event.profile_id t k)
            λ fine.
              let proved : event.cleanup_proved ≡ true = ground arith in
              Post-snapshot H _ _ t (
                Post-if (not (eq_text t.store.manifest.desired_profile event.profile_id)) _ _ _ t
                  (λ _. exit_of_other-Exited H B event s proved event.profile_id t k)
                  λ _. Exited-behind event s _ t k (Keeps-observe H B t.store.manifest) λ seen u l.
                    Post-if (not (is_nil seen.1)) _ _ _ u
                      (λ _. Exited-conflict event s "" _ event.profile_id u l)
                      (λ _.
                        exit_observed-Exited H B event s proved t.store.manifest event.profile_id
                          seen.0 u l))

-- `handleUnexpectedExit`, run with the gate free, leaves the lifecycle as it was or at a failure,
-- and in conflict when the exit's clean-up was not proved; the gate is free again and a valid
-- manifest stays valid.
pub handle_unexpected_exit-Exited :
    (H : Host) (B : Backends H) (event : UnexpectedExit) (s : Manager H)
    → s.gate_free ≡ true
    → Post (handle_unexpected_exit H B event) (λ _. Exited event s) s
unfolding handle_unexpected_exit modify
handle_unexpected_exit-Exited H B event s free = Post-modify _ _ _ s (
    Post-bind _ _ _ _ _ (exit_locked-Exited H B event (record s { gate_free = false })) λ _ t x.
      record {
        holds = record {
          lifecycle = x.lifecycle;
          unproved = x.unproved;
          gate = sym free;
          sound = x.sound;
        };
      })
