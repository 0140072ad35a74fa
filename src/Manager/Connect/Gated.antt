-- ===== src/Manager/Connect/Gated.antt =====
-- What `Connect` does as a whole: the refusals before its gate, and the gate around the rest.
use tunnelfolio.Prelude.{Bool, true, false, not, [], ◌∷◌, ◌≡◌, sym, ap, arith, if◌then◌else◌}
use tunnelfolio.Prelude.Text.{Text}
use tunnelfolio.Prelude.Err.{Err, read_only, transition_in_progress}
use tunnelfolio.Prelude.Exec.{
  Exec, ◌>>=◌, ◌>>◌, pure, Post, Post-pure, Post-if, Post-bind, Post-modify,
}
use tunnelfolio.Store.Host.{Host}
use tunnelfolio.Manager.Backends.{Backends}
use tunnelfolio.Manager.State.{Manager, is_moving, try_acquire, release}
use tunnelfolio.Manager.Outcome.{Outcome}
use tunnelfolio.Manager.Connect.{gated, connect, connect_locked}
use tunnelfolio.Manager.Connect.Recovered.{IsUp}
use tunnelfolio.Manager.Connect.Settled.{connect_locked-Outcome}

-- The outcome of an operation that was to reach `G`, its refusals included.
pub data Attempt {H : Host} (B : Backends H) (G : Manager H → Type 0) (s : Manager H)
    : Err → Manager H → Type 0 where
  refused : B.read_only ≡ true → Attempt B G s (read_only ∷ []) s
  busy :
      {t : Manager H}
      → B.read_only ≡ false
      → s.gate_free ≡ false
      → t ≡ s
      → Attempt B G s (transition_in_progress ∷ []) t
  ran :
      {e : Err} {t : Manager H}
      → B.read_only ≡ false
      → s.gate_free ≡ true
      → Outcome G s e t
      → Attempt B G s e t

-- The state of the manager but for the gate.
abbrev pub with_gate : {H : Host} → Bool → Manager H → Manager H
with_gate free s = record s { gate_free = free }

-- A goal that does not speak of the gate.
pub record GateFree {H : Host} (G : Manager H → Type 0) : Type 0 where
  pub free : (t : Manager H) → G t → G (with_gate true t)

module _ {H : Host} (B : Backends H) (G : Manager H → Type 0) where
  pub gated-Attempt :
      (body : Exec (Manager H) Err) (s : Manager H)
      → GateFree G
      → Post body (Outcome G (with_gate false s)) (with_gate false s)
      → Post
          (if B.read_only
            then pure (read_only ∷ [])
            else gated H (transition_in_progress ∷ []) body)
          (Attempt B G s)
          s
  unfolding gated try_acquire ◌>>=◌
  gated-Attempt body s loose p =
      Post-if B.read_only _ _ _ s (λ ro. Post-pure _ _ s (refused ro))
        λ writable. record {
          holds =
              (Post-if (not s.gate_free) _ _ (Attempt B G s) (with_gate false s)
                (λ taken.
                  (let shut : s.gate_free ≡ false = ground arith in
                    Post-pure _ _ _
                      (busy writable (ground arith) (ap (λ g. with_gate g s) (sym shut)))))
                λ free.
                  Post-bind body (λ x. release H >> pure x) _ _ (with_gate false s) p
                    λ e t o.
                      Post-modify (with_gate true) (λ _. pure e) _ t
                        (Post-pure _ _ _ (
                          ran writable (ground arith) (record {
                            gate = ground arith;
                            success = λ nil. loose.free t (o.success nil);
                            conflict = o.conflict;
                            settled = o.settled;
                            sound = o.sound;
                          })))).holds;
        }

-- `Connect`, from a state in which no transition is under way: a read-only or busy manager refuses
-- and changes nothing. Otherwise it returns nil only where the profile's tunnel was the only one
-- observed, without an error, or its backend started it without an error from a prepared private
-- copy that the manager still knows of; then the lifecycle is active for the profile, which a
-- manifest that is not in doubt names as desired. It ends in a conflict only with the error that
-- says so, leaves no transition under way, frees the gate and keeps a valid manifest valid.
pub connect-Attempt :
    (H : Host) (B : Backends H) (id : Text) (s : Manager H)
    → is_moving s.lifecycle ≡ false
    → Post (connect H B id) (Attempt B (IsUp B s.store.manifest id) s) s
unfolding connect
connect-Attempt H B id s still =
    gated-Attempt B (IsUp B s.store.manifest id) (connect_locked H B id) s
      (record {
        free = λ t up. record {
          running = up.running;
          lifecycle = up.lifecycle;
          profile = up.profile;
          recorded = up.recorded;
        };
      })
      (connect_locked-Outcome H B id (with_gate false s) still)
