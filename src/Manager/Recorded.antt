-- ===== src/Manager/Recorded.antt =====
-- internal/manager/manager.go: what a call that records the connection has recorded when it succeeds.
use tunnelfolio.Prelude.{Bool, false, not, [], ◌≡◌, refl, ◌∙◌, sym, ap, inl, inr}
use tunnelfolio.Prelude.Text.{Text}
use tunnelfolio.Prelude.Int.{ℤ}
use tunnelfolio.Prelude.Err.{Err, is_nil, eq-nil, is_nil-append_left, Result, ok, ok-injective}
use tunnelfolio.Prelude.Exec.{Post, Post-pure, Post-if, Post-bind, Post-mono}
use tunnelfolio.Profiles.Model.{Manifest}
use tunnelfolio.Store.Host.{Host}
use tunnelfolio.Store.State.{Store, next_revision, mutate}
use tunnelfolio.Store.State.Mutation.{Mutated, changed, ambiguous_change, rejected, mutate-Mutated}
use tunnelfolio.Store.Changes.{connection_change, set_connection}
use tunnelfolio.Manager.Backends.{Backends}
use tunnelfolio.Manager.State.{Manager, Post-store}
use tunnelfolio.Manager.Tunnels.{error_of, record_connection, reconcile_connection}

-- The manifest in memory names the profile as the desired one, and is known to be durable.
pub record IsRecorded {H : Host} (desired : Text) (s : Store H) : Type 0 where
  pub desired_profile : s.manifest.desired_profile ≡ desired
  pub durable : s.durability_unknown ≡ false

-- A success records, and no copy is touched.
pub record Recorded {H : Host} (desired : Text) (s : Manager H) (e : Err) (t : Manager H)
    : Type 0 where
  pub recorded : e ≡ [] → IsRecorded desired t.store
  pub executions : t.executions ≡ s.executions

module _ (H : Host) where
  set_connection-IsRecorded :
      (desired : Text) (at : ℤ) (recent : Bool) (s : Store H)
      → Post (set_connection H desired at recent) (λ r t. error_of r ≡ [] → IsRecorded desired t) s
  unfolding set_connection connection_change
  set_connection-IsRecorded desired at recent s =
      Post-mono (mutate H _) _ _ s (mutate-Mutated H s _) λ a t p. from p
    where
      from :
          {a : Result Manifest} {t : Store H}
          → Mutated H s (λ m. ok (connection_change desired at recent m)) a t
          → error_of a ≡ []
          → IsRecorded desired t
      from (changed base next k v is m valid at_end known) nil = record {
        desired_profile =
            ap (λ x. x.desired_profile) (at_end ∙ m ∙ ap next_revision (sym (ok-injective is)));
        durable = known;
      }
      from (ambiguous_change e base next k is m valid unknown) nil = cc
      from (rejected (inl bad) same keeps) nil = cc
      from (rejected (inr r) same keeps) nil = cc (r.refuses)

module _ (H : Host) (B : Backends H) where
  pub record_connection-Recorded :
      (desired : Text) (at : ℤ) (recent : Bool) (s : Manager H)
      → Post (record_connection H B desired at recent) (Recorded desired s) s
  unfolding record_connection
  record_connection-Recorded desired at recent s =
      Post-store H _ _ _ _ s (set_connection-IsRecorded H desired at recent s.store)
        λ a t p. Post-pure _ _ _ (record { recorded = p; executions = refl })

  -- `reconcileConnection` reports no error only if the manifest in memory is durable and names the
  -- profile as desired; it leaves the private copies alone.
  pub reconcile_connection-Recorded :
      (desired : Text) (at : ℤ) (s : Manager H)
      → Post (reconcile_connection H B desired at) (Recorded desired s) s
  unfolding reconcile_connection
  reconcile_connection-Recorded desired at s =
      Post-bind _ _ _ _ s (record_connection-Recorded desired at false s) λ e t p.
        Post-if (is_nil e) _ _ _ t
          (λ good.
            Post-pure _ _ t
              (record { recorded = λ _. p.recorded (eq-nil e good); executions = p.executions }))
          λ bad.
            Post-store H _ _ (λ _ _. Unit {0}) _ t (record { holds = tt })
              λ f u _.
                Post-if (not (is_nil f)) _ _ _ _
                  (λ worse. Post-pure _ _ _ (record {
                    recorded = λ nil. cc (is_nil-append_left e f bad);
                    executions = p.executions;
                  }))
                  λ repaired.
                    Post-bind _ _ _ _ _ (record_connection-Recorded desired at false _) λ g v q.
                      Post-if (is_nil g) _ _ _ v
                        (λ fine. Post-pure _ _ v (record {
                          recorded = λ _. q.recorded (eq-nil g fine);
                          executions = q.executions ∙ p.executions;
                        }))
                        λ worse. Post-pure _ _ v (record {
                          recorded = λ nil. cc (is_nil-append_left e g bad);
                          executions = q.executions ∙ p.executions;
                        })
