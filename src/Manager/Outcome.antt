-- ===== src/Manager/Outcome.antt =====
-- internal/manager/manager.go: what an operation behind the gate leaves, whichever way it ends.
use tunnelfolio.Prelude.{String, true, false, [], ◌∷◌, ◌≡◌, refl, ◌∙◌}
use tunnelfolio.Prelude.Text.{Text}
use tunnelfolio.Prelude.Err.{Err, is_nil, is_err, is_err-cons_self, managed_state_conflict}
use tunnelfolio.Prelude.Exec.{Exec, ◌>>=◌, pure, Post, Post-pure, Post-bind, Post-modify}
use tunnelfolio.Store.Host.{Host}
use tunnelfolio.Store.State.Repair.{IsSound}
use tunnelfolio.Manager.State.{
  Manager, Lifecycle, uncertain, is_conflict, is_moving, set_lifecycle, fail_with, Post-fail_with,
}
use tunnelfolio.Manager.Keeps.{Kept, Keeps}

-- The outcome of an operation that was to reach the goal `G`.
pub record Outcome {H : Host} (G : Manager H → Type 0) (s : Manager H) (e : Err) (t : Manager H)
    : Type 0 where
  pub gate : t.gate_free ≡ s.gate_free
  pub success : e ≡ [] → G t
  pub conflict : is_conflict t.lifecycle ≡ true → is_err e managed_state_conflict ≡ true
  pub settled : is_moving t.lifecycle ≡ false
  pub sound : IsSound s.store → IsSound t.store

-- The part of `Kept` that outlives a change of the lifecycle.
pub record Since {H : Host} (s t : Manager H) : Type 0 where
  pub gate : t.gate_free ≡ s.gate_free
  pub sound : IsSound s.store → IsSound t.store

pub Since-Kept : {H : Host} {s t u : Manager H} → Since s t → Kept t u → Since s u
Since-Kept k l = record { gate = l.gate ∙ k.gate; sound = λ h. l.sound (k.sound h) }

module _ {H : Host} (G : Manager H → Type 0) (s : Manager H) where
  -- The rest of a block behind a call that keeps the lifecycle.
  pub Outcome-behind {ℓ} :
      {A : Type ℓ} {m : Exec (Manager H) A} (f : A → Exec (Manager H) Err) (t : Manager H)
      → Since s t
      → Keeps m
      → ((a : A) (u : Manager H) → Since s u → Post (f a) (Outcome G s) u)
      → Post (m >>= f) (Outcome G s) t
  Outcome-behind {m} f t since k rest =
      Post-bind m f _ _ t (k.kept t) λ a u p. rest a u (Since-Kept since p)

  pub Outcome-conflict :
      (profile : Text) (failed_message conflict_message : String) (e : Err) (t : Manager H)
      → Since s t
      → Post
          (fail_with H uncertain profile failed_message conflict_message
            (managed_state_conflict ∷ e))
          (Outcome G s)
          t
  Outcome-conflict profile failed_message conflict_message e t since =
      Post-fail_with H uncertain profile failed_message conflict_message _ _ t (record {
        gate = since.gate;
        success = λ nil. cc;
        conflict = λ _. is_err-cons_self managed_state_conflict e;
        settled = refl;
        sound = since.sound;
      })

  -- An error that leaves the lifecycle at a state that is neither moving nor a conflict.
  pub Outcome-at :
      (l : Lifecycle) (profile : Text) (message : String) (e : Err) (t : Manager H)
      → is_nil e ≡ false
      → is_conflict l ≡ false
      → is_moving l ≡ false
      → Since s t
      → Post (set_lifecycle H l profile message >>= λ _. pure e) (Outcome G s) t
  Outcome-at l profile message e t bad no_conflict still since = Post-modify _ _ _ t (
      Post-pure _ _ _ (record {
        gate = since.gate;
        success = λ nil. cc;
        conflict = λ c. cc;
        settled = still;
        sound = since.sound;
      }))
