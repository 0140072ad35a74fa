-- ===== src/Manager/Disconnect/Emptied.antt =====
-- internal/manager/manager.go: the calls of `Disconnect` lose no private copy, and what its loop has
-- stopped when it reports no error.
use tunnelfolio.Prelude.{
  Bool, true, false, not, ◌||◌, Option, none, some, List, [], ◌∷◌, ◌++◌, ◌≡◌, refl, ap, from_false,
}
use tunnelfolio.Prelude.Lists.{All}
use tunnelfolio.Prelude.Text.{Text}
use tunnelfolio.Prelude.Err.{
  Err, is_nil, is_err, is_nil-append, Result, ok, fail, managed_state_conflict,
}
use tunnelfolio.Prelude.Exec.{Post, Post-pure, Post-bind}
use tunnelfolio.Profiles.Model.{Profile, Manifest, find_profile}
use tunnelfolio.Store.Host.{Host}
use tunnelfolio.Store.Execution.{ExecutionCopy}
use tunnelfolio.Store.Execution.Removed.{IsRemoved}
use tunnelfolio.Manager.Backends.{Backends, Observation}
use tunnelfolio.Manager.State.{Manager, Lifecycle, Execution}
use tunnelfolio.Manager.Tunnels.{
  observe_protocol, observe_each, observe, candidates, is_none_left, stop, stop_copy,
  shutdown_backends,
}
use tunnelfolio.Manager.Executions.Held.{
  Held, Accounted, Accounted-pure, Accounted-bind, Accounted-if, Accounted-machine, Accounted-store,
  Accounted-add, Accounted-cleanup_executions,
}
use tunnelfolio.Manager.Evidence.{IsEnded, stop-IsStopped}
use tunnelfolio.Manager.Disconnect.{observe_recovering, stop_found, stop_each, all_protocols}

module _ (H : Host) (B : Backends H) where
  Accounted-observe_each :
      (m : Manifest) (protocols : List Text) (seen : List Observation) (missing : Bool)
      → Accounted (observe_each H B m protocols seen missing)
  unfolding observe_each observe_protocol
  Accounted-observe_each m [] seen missing = Accounted-pure _
  Accounted-observe_each m (protocol ∷ protocols) seen missing =
      Accounted-bind
        (Accounted-if (is_none_left (candidates m.profiles protocol)) (Accounted-pure _)
          (Accounted-if (not (B.installed protocol)) (Accounted-pure _) (Accounted-machine _)))
        λ r. Accounted-if _ (Accounted-observe_each m protocols seen true) (
          Accounted-if _ (Accounted-pure _)
            (Accounted-observe_each m protocols (seen ++ r.0) missing))

  Accounted-observe : (m : Manifest) → Accounted (observe H B m)
  unfolding observe
  Accounted-observe m = Accounted-observe_each m _ [] false

  Accounted-shutdown_backends :
      (protocols : List Text) → Accounted (shutdown_backends H B protocols)
  unfolding shutdown_backends
  Accounted-shutdown_backends [] = Accounted-pure []
  Accounted-shutdown_backends (protocol ∷ protocols) =
      Accounted-bind (Accounted-if (B.installed protocol) (Accounted-machine _) (Accounted-pure _))
        λ e. Accounted-bind (Accounted-shutdown_backends protocols) λ rest. Accounted-pure _

  pub Accounted-observe_recovering :
      (prior : Lifecycle) (m : Manifest) → Accounted (observe_recovering H B prior m)
  unfolding observe_recovering
  Accounted-observe_recovering prior m = Accounted-bind (Accounted-observe m) λ seen.
      Accounted-if _
        (Accounted-bind (Accounted-shutdown_backends all_protocols) λ down.
          Accounted-bind (Accounted-observe m)
            λ again. Accounted-if _ (Accounted-pure _) (Accounted-pure _))
        (Accounted-pure _)

  Accounted-stop : (p : Profile) → Accounted (stop H B p)
  unfolding stop
  Accounted-stop p = Accounted-if _ (Accounted-pure _) (Accounted-bind (Accounted-store _) copied)
    where
      copied : (r : Result ExecutionCopy) → Accounted (stop_copy H B p r)
      copied (fail e) = Accounted-pure e
      copied (ok c) = Accounted-bind (Accounted-machine _) λ e.
          Accounted-bind (Accounted-machine _) λ cleanup.
            Accounted-bind
              (Accounted-if (is_nil cleanup) (Accounted-pure tt) (Accounted-add p.id c))
              λ _.
                Accounted-bind
                  (Accounted-if (is_nil e) (Accounted-cleanup_executions p.id (some c.path))
                    (Accounted-pure _))
                  λ rest. Accounted-pure _

  Accounted-stop_found : (p : Option Profile) → Accounted (stop_found H B p)
  unfolding stop_found
  Accounted-stop_found none = Accounted-pure _
  Accounted-stop_found (some p) = Accounted-stop p

  pub Accounted-stop_each : (m : Manifest) (os : List Observation) → Accounted (stop_each H B m os)
  unfolding stop_each
  Accounted-stop_each m [] = Accounted-pure []
  Accounted-stop_each m (o ∷ os) =
      Accounted-bind (Accounted-stop_found (find_profile m.profiles o.profile_id))
        λ e. Accounted-bind (Accounted-stop_each m os) λ rest. Accounted-pure _

  stop_found-IsEnded :
      (m : Manifest) (o : Observation) (found : Option Profile) (s : Manager H)
      → find_profile m.profiles o.profile_id ≡ found
      → Post (stop_found H B found) (λ e _. e ≡ [] → IsEnded H B m o) s
  unfolding stop_found
  stop_found-IsEnded m o none s is = Post-pure _ _ s (λ nil. from_false (ap is_nil nil))
  stop_found-IsEnded m o (some p) s is = record {
    holds = λ nil. record { profile = p; saved = is; ended = (stop-IsStopped H B p s).holds nil };
  }

  pub stop_each-IsEnded :
      (m : Manifest) (os : List Observation) (s : Manager H)
      → Post (stop_each H B m os) (λ e _. e ≡ [] → All (IsEnded H B m) os) s
  unfolding stop_each
  stop_each-IsEnded m [] s = Post-pure _ _ s (λ nil. tt)
  stop_each-IsEnded m (o ∷ os) s = Post-bind _ _ _ _ s (stop_found-IsEnded m o _ s refl) λ e t p.
      Post-bind _ _ _ _ t (stop_each-IsEnded m os t) λ rest u q.
        Post-pure _ _ u λ nil. (let h = is_nil-append e rest (ap is_nil nil) in (p h.0, q h.1))

-- The tunnels of an observation from the manifest `m`, which was made without an error or with one
-- that says that several are up, are stopped; and every copy of `es` is removed.
pub record IsEmptied {H : Host} (B : Backends H) (prior : Lifecycle) (m : Manifest)
    (es : List Execution) : Type 0 where
  pub seeing : Manager H
  pub seen : List Observation
  pub answer : Err
  pub observed : (observe_recovering H B prior m seeing).0 ≡ (seen, answer)
  pub proved : (is_nil answer || is_err answer managed_state_conflict) ≡ true
  pub ended : All (IsEnded H B m) seen
  pub removed : (c : ExecutionCopy) → Held c es → IsRemoved H c
