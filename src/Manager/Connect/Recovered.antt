-- ===== src/Manager/Connect/Recovered.antt =====
-- What `Connect` leaves behind where it records the connection, and where it takes a failed one back.
use tunnelfolio.Prelude.{
  Bool, true, false, not, Option, none, some, List, [], ◌≡◌, refl, if◌then◌else◌,
}
use tunnelfolio.Prelude.Text.{Text, is_empty}
use tunnelfolio.Prelude.Int.{pos}
use tunnelfolio.Prelude.Err.{Err, is_nil, is_err, eq-nil, is_nil-append_left, cleanup_unproved}
use tunnelfolio.Prelude.Exec.{
  ◌>>=◌, pure, Post, Post-pure, Post-if, Post-bind, Post-mono, Post-modify, Post-both,
}
use tunnelfolio.Profiles.Model.{Profile, Manifest}
use tunnelfolio.Store.Host.{Host}
use tunnelfolio.Manager.Backends.{Backends}
use tunnelfolio.Manager.State.{
  Manager, Execution, NetworkTruth, known, uncertain, active, failed, set_lifecycle, on_machine,
}
use tunnelfolio.Manager.Tunnels.{reconcile_connection}
use tunnelfolio.Manager.Evidence.{IsRunning}
use tunnelfolio.Manager.Recovery.{
  recover_persistence_failure, restore_previous, settle_recovery, recovery_err, time_of,
}
use tunnelfolio.Manager.Keeps.{
  Keeps, Keeps-pure, Keeps-if, Keeps-bind, Keeps-machine, Keeps-repair, Keeps-start, Keeps-stop,
  Keeps-record_connection, Keeps-reconcile_connection,
}
use tunnelfolio.Manager.Recorded.{
  IsRecorded, record_connection-Recorded, reconcile_connection-Recorded,
}
use tunnelfolio.Manager.Outcome.{
  Outcome, Since, Since-Kept, Outcome-behind, Outcome-conflict, Outcome-at,
}
use tunnelfolio.Manager.Connect.{record_active, restore, start_failed}

-- The tunnel of the profile runs, as the backend answered, from a copy that the manager knows of where
-- it was started; it is the active one, and the manifest durably says so.
pub record IsUp {H : Host} (B : Backends H) (base : Manifest) (id : Text) (t : Manager H)
    : Type 0 where
  pub running : IsRunning H B base id t.executions
  pub lifecycle : t.lifecycle ≡ active
  pub profile : t.lifecycle_profile ≡ id
  pub recorded : IsRecorded id t.store

module _ {H : Host} (B : Backends H) (base : Manifest) (id : Text) (s : Manager H) where
  -- The profile is up.
  pub Outcome-IsUp :
      (t : Manager H)
      → IsRunning H B base id t.executions
      → IsRecorded id t.store
      → Since s t
      → Post (set_lifecycle H active id "" >>= λ _. pure []) (Outcome (IsUp B base id) s) t
  Outcome-IsUp t running recorded since = Post-modify _ _ _ t (
      Post-pure _ _ _ (record {
        gate = since.gate;
        success = λ _. record {
          running = running;
          lifecycle = refl;
          profile = refl;
          recorded = recorded;
        };
        conflict = λ c. cc;
        settled = refl;
        sound = since.sound;
      }))

module _ (H : Host) (B : Backends H) (base : Manifest) (id : Text) (s : Manager H) where
  -- The connection is recorded, with a second try where the first one failed.
  record_again :
      (e : Err) (t : Manager H)
      → Since s t
      → (e ≡ [] → IsRecorded id t.store)
      → Post
          (if is_nil e then pure [] else (on_machine H B.now >>= reconcile_connection H B id))
          (λ again u. Since s u × (again ≡ [] → IsRecorded id u.store))
          t
  record_again e t since first =
      Post-if (is_nil e) _ _ _ t (λ good. Post-pure _ _ t (since, λ _. first (eq-nil e good)))
        λ bad. Post-bind _ _ _ _ t ((Keeps-machine B.now).kept t) λ at u k.
          Post-mono _ _ _ u
            (Post-both ((Keeps-reconcile_connection H B id at).kept u)
              (reconcile_connection-Recorded H B id at u))
            λ again v p. (Since-Kept (Since-Kept since k) p.0, p.1.recorded)

  pub record_active-Outcome :
      (t : Manager H)
      → ((es : List Execution) → IsRunning H B base id es)
      → Since s t
      → Post (record_active H B id) (Outcome (IsUp B base id) s) t
  unfolding record_active
  record_active-Outcome t runs since =
      Outcome-behind (IsUp B base id) s _ t since (Keeps-machine _) λ at u k.
        Post-bind _ _ _ _ u
          (Post-both ((Keeps-record_connection H B id at true).kept u)
            (record_connection-Recorded H B id at true u))
          λ e v p.
            Post-bind _ _ _ _ v (record_again e v (Since-Kept k p.0) p.1.recorded) λ again w q.
              Post-if (is_nil again) _ _ _ w
                (λ good.
                  Outcome-IsUp B base id s w (runs w.executions) (q.1 (eq-nil again good)) q.0)
                (λ bad. Outcome-conflict (IsUp B base id) s id "" _ _ w q.0)

  -- Nothing that failed to be recorded is taken for a success.
  recover-settled :
      (target : Profile) (actual : Text) (truth : NetworkTruth) (e : Err) (t : Manager H)
      → is_nil e ≡ false
      → Since s t
      → Post
          (settle_recovery H B target actual truth >>= λ _. pure (recovery_err truth e))
          (Outcome (IsUp B base id) s)
          t
  unfolding settle_recovery recovery_err
  recover-settled target actual uncertain e t bad since =
      Outcome-conflict (IsUp B base id) s target.id "" _ e t since
  recover-settled target actual known e t bad since = by_actual (is_empty actual)
    where
      by_actual :
          (b : Bool)
          → Post
              ((if not b
                  then set_lifecycle H active actual
                      "The network transition could not be recorded durably; the previous tunnel was restored."
                  else set_lifecycle H failed target.id
                      "The network transition could not be recorded durably and was rolled back.")
                >>= λ _. pure e)
              (Outcome (IsUp B base id) s)
              t
      by_actual true = Outcome-at (IsUp B base id) s failed target.id _ e t bad refl refl since
      by_actual false = Outcome-at (IsUp B base id) s active actual _ e t bad refl refl since

  Keeps-restore_previous :
      (previous : Option Profile) (cleanup : Err) → Keeps (restore_previous H B previous cleanup)
  unfolding restore_previous
  Keeps-restore_previous none cleanup = Keeps-pure []
  Keeps-restore_previous (some p) cleanup =
      Keeps-if (is_nil cleanup) (Keeps-start H B p) (Keeps-pure [])

  Keeps-time_of : (actual : Text) → Keeps (time_of H B actual)
  Keeps-time_of actual = Keeps-if (is_empty actual) (Keeps-pure _) (Keeps-machine _)

  pub recover_persistence_failure-Outcome :
      (target : Profile) (previous : Option Profile) (cause : Err) (t : Manager H)
      → is_nil cause ≡ false
      → Since s t
      → Post (recover_persistence_failure H B target previous cause) (Outcome (IsUp B base id) s) t
  unfolding recover_persistence_failure
  recover_persistence_failure-Outcome target previous cause t bad since =
      Outcome-behind (IsUp B base id) s _ t since (Keeps-stop H B target) λ cleanup u k.
        Outcome-behind (IsUp B base id) s _ u k (Keeps-restore_previous previous cleanup)
          λ back v l. Outcome-behind (IsUp B base id) s _ v l (Keeps-repair H) λ repair w m.
            Outcome-behind (IsUp B base id) s _ w m
              (Keeps-if _
                (Keeps-bind (Keeps-time_of _) λ at. Keeps-record_connection H B _ at false)
                (Keeps-pure []))
              λ reconcile x n. recover-settled target _ _ _ x (is_nil-append_left cause _ bad) n

  restore-Outcome :
      (target : Profile) (previous : Option Profile) (e : Err) (t : Manager H)
      → Since s t
      → Post (restore H B target previous e) (Outcome (IsUp B base id) s) t
  unfolding restore
  restore-Outcome target none e t since =
      Outcome-at (IsUp B base id) s failed target.id _ _ t refl refl refl since
  restore-Outcome target (some p) e t since =
      Outcome-behind (IsUp B base id) s _ t since (Keeps-start H B p) λ back u k.
        Post-if (is_nil back) _ _ _ u
          (λ good. Outcome-at (IsUp B base id) s active p.id _ _ u refl refl refl k)
          λ bad.
            Outcome-behind (IsUp B base id) s _ u k (Keeps-reconcile_connection H B p.id (pos 0))
              λ reconcile v l. Outcome-conflict (IsUp B base id) s target.id "" _ _ v l

  pub start_failed-Outcome :
      (m : Manifest) (target : Profile) (previous : Option Profile) (e : Err) (t : Manager H)
      → Since s t
      → Post (start_failed H B m target previous e) (Outcome (IsUp B base id) s) t
  unfolding start_failed
  start_failed-Outcome m target previous e t since =
      Post-if (is_err e cleanup_unproved) _ _ _ t
        (λ _.
          Outcome-behind (IsUp B base id) s _ t since
            (Keeps-reconcile_connection H B m.desired_profile (pos 0))
            λ reconcile u k. Outcome-conflict (IsUp B base id) s target.id "" _ _ u k)
        (λ _. restore-Outcome target previous e t since)
