-- ===== src/Manager/Connect/Settled.antt =====
-- What `Connect` leaves behind on each of its paths.
use tunnelfolio.Prelude.{
  true, false, not, Option, none, some, List, [], ◌∷◌, ◌≡◌, refl, sym, ap, subst, arith, ◌∙◌,
  from_false,
}
use tunnelfolio.Prelude.Text.{Text, eq_text_iff}
use tunnelfolio.Prelude.Err.{Err, is_nil, is_err-cons_self, eq-nil, managed_state_conflict}
use tunnelfolio.Prelude.Exec.{
  ◌>>=◌, pure, Post, Post-pure, Post-if, Post-bind, Post-get, Post-modify, Post-both,
}
use tunnelfolio.Profiles.Find.{find_profile-id}
use tunnelfolio.Profiles.Model.{Profile, Manifest, find_profile}
use tunnelfolio.Store.Host.{Host}
use tunnelfolio.Manager.Backends.{Backends, Observation}
use tunnelfolio.Manager.State.{
  Manager, Execution, active, failed, is_conflict, is_moving, set_lifecycle, Post-snapshot,
}
use tunnelfolio.Manager.Tunnels.{error_of, observe}
use tunnelfolio.Manager.Evidence.{
  IsRunning, IsStarted, seen_alone, brought_up, start-IsStarted, Post-asked_machine, Post-answer,
}
use tunnelfolio.Manager.Keeps.{
  Kept, Kept-refl, Kept-trans, Keeps-store, Keeps-machine, KeepsStore-resolve, Keeps-observe,
  Keeps-start, Keeps-stop, Keeps-record_connection,
}
use tunnelfolio.Manager.Recorded.{IsRecorded, record_connection-Recorded}
use tunnelfolio.Manager.Outcome.{
  Outcome, Since, Since-Kept, Outcome-behind, Outcome-conflict, Outcome-at,
}
use tunnelfolio.Manager.Connect.{
  is_sole, settle_moving, started_target, start_target, switch_from, transition, connect_observed,
  connect_target, connect_locked,
}
use tunnelfolio.Manager.Connect.Recovered.{
  IsUp, Outcome-IsUp, record_active-Outcome, recover_persistence_failure-Outcome,
  start_failed-Outcome,
}

module _ (H : Host) (B : Backends H) (base : Manifest) (id : Text) (s : Manager H) where
  -- The target runs, from a copy that the manager knows of, and the connection is to be recorded.
  started_target-Outcome :
      (target : Profile) (previous : Option Profile) (t : Manager H)
      → find_profile base.profiles id ≡ some target
      → IsStarted H B target t.executions
      → Since s t
      → Post (started_target H B target previous) (Outcome (IsUp B base id) s) t
  unfolding started_target
  started_target-Outcome target previous t is running since =
      Post-bind _ _ _ _ t (Post-both ((Keeps-machine B.now).kept t) (Post-asked_machine H B.now t))
        λ at v l.
          Post-bind _ _ _ _ v
            (Post-both ((Keeps-record_connection H B target.id at true).kept v)
              (record_connection-Recorded H B target.id at true v))
            λ recorded w p.
              Post-if (not (is_nil recorded)) _ _ _ w
                (λ bad.
                  recover_persistence_failure-Outcome H B base id s target previous recorded w
                    (ground arith) (Since-Kept (Since-Kept since l.0) p.0))
                λ good.
                  subst
                    (λ x.
                      Post (set_lifecycle H active x "" >>= λ _. pure [])
                        (Outcome (IsUp B base id) s) w)
                    (sym same)
                    (Outcome-IsUp B base id s w
                      (brought_up target is
                        (subst (IsStarted H B target) (sym (p.1.executions ∙ l.1.1)) running))
                      (subst (λ x. IsRecorded x w.store) same
                        (p.1.recorded (eq-nil recorded (ground arith))))
                      (Since-Kept (Since-Kept since l.0) p.0))
    where
      same : target.id ≡ id
      same = find_profile-id base.profiles id is

  start_target-Outcome :
      (m : Manifest) (target : Profile) (previous : Option Profile) (t : Manager H)
      → find_profile base.profiles id ≡ some target
      → Since s t
      → Post (start_target H B m target previous) (Outcome (IsUp B base id) s) t
  unfolding start_target
  start_target-Outcome m target previous t is since =
      Post-bind _ _ _ _ t
        (Post-both ((Keeps-start H B target).kept t) (start-IsStarted H B target t))
        λ e u p.
          Post-if (not (is_nil e)) _ _ _ u
            (λ _. start_failed-Outcome H B base id s m target previous e u (Since-Kept since p.0))
            (λ good.
              started_target-Outcome target previous u is (p.1 (eq-nil e (ground arith)))
                (Since-Kept since p.0))

  switch_from-Outcome :
      (m : Manifest) (target : Profile) (previous : Option Profile) (t : Manager H)
      → find_profile base.profiles id ≡ some target
      → Since s t
      → Post (switch_from H B m target previous) (Outcome (IsUp B base id) s) t
  unfolding switch_from
  switch_from-Outcome m target none t same since =
      Outcome-conflict (IsUp B base id) s target.id "" _ _ t since
  switch_from-Outcome m target (some p) t same since =
      Outcome-behind (IsUp B base id) s _ t since (Keeps-stop H B p) λ e u k.
        Post-if (not (is_nil e)) _ _ _ u (λ _. Outcome-conflict (IsUp B base id) s p.id "" _ _ u k)
          λ _. start_target-Outcome m target (some p) u same k

  transition-Outcome :
      (m : Manifest) (target : Profile) (seen : List Observation) (t : Manager H)
      → find_profile base.profiles id ≡ some target
      → Since s t
      → Post (transition H B m target seen) (Outcome (IsUp B base id) s) t
  unfolding transition
  transition-Outcome m target [] t same since = start_target-Outcome m target none t same since
  transition-Outcome m target (o ∷ []) t same since = switch_from-Outcome m target _ t same since
  transition-Outcome m target (o ∷ p ∷ os) t same since =
      start_target-Outcome m target none t same since

  -- The deferred check finds the lifecycle settled.
  settle_moving-Outcome :
      (e : Err) (t : Manager H)
      → Outcome (IsUp B base id) s e t
      → Post (settle_moving H id >>= λ _. pure e) (Outcome (IsUp B base id) s) t
  unfolding settle_moving
  settle_moving-Outcome e t o =
      Post-bind _ _ (λ _ u. Outcome (IsUp B base id) s e u) _ t
        (Post-get _ _ _ t (
          Post-if (is_moving t.lifecycle) _ _ _ t (λ moving. cc (o.settled))
            (λ _. Post-pure _ _ t o)))
        λ _ u p. Post-pure _ _ u p

  runs_alone :
      (seen : List Observation) (seeing : Manager H) (es : List Execution)
      → (observe H B base seeing).0 ≡ (seen, [])
      → is_sole seen id ≡ true
      → IsRunning H B base id es
  runs_alone [] seeing es observed alone = from_false alone
  runs_alone (o ∷ []) seeing es observed alone =
      seen_alone seeing o observed ((eq_text_iff o.profile_id id).0 alone)
  runs_alone (o ∷ p ∷ os) seeing es observed alone = from_false alone

  connect_observed-Outcome :
      (m : Manifest) (target : Profile) (seen : List Observation) (seeing t : Manager H)
      → find_profile base.profiles id ≡ some target
      → (observe H B base seeing).0 ≡ (seen, [])
      → Since s t
      → Post (connect_observed H B m target id seen) (Outcome (IsUp B base id) s) t
  unfolding connect_observed
  connect_observed-Outcome m target seen seeing t same observed since =
      Post-if (is_sole seen id) _ _ _ t
        (λ alone.
          record_active-Outcome H B base id s t (λ es. runs_alone seen seeing es observed alone)
            since)
        λ _. Post-modify _ _ _ t (
          Post-bind _ _ _ _ _
            (transition-Outcome m target seen _ same
              (record { gate = since.gate; sound = since.sound }))
            settle_moving-Outcome)

  -- The state before the transition starts is settled, and not in conflict.
  Outcome-refused :
      (e : Err) (t : Manager H)
      → is_nil e ≡ false
      → is_conflict s.lifecycle ≡ false
      → is_moving s.lifecycle ≡ false
      → Kept s t
      → Outcome (IsUp B base id) s e t
  Outcome-refused e t bad calm still k = record {
    gate = k.gate;
    success = λ nil. cc;
    conflict = λ c. cc (ap is_conflict k.lifecycle);
    settled = rw k.lifecycle still;
    sound = k.sound;
  }

  connect_target-Outcome :
      (found : Option Profile)
      → find_profile base.profiles id ≡ found
      → is_conflict s.lifecycle ≡ false
      → is_moving s.lifecycle ≡ false
      → Post (connect_target H B base id found) (Outcome (IsUp B base id) s) s
  unfolding connect_target
  connect_target-Outcome none is calm still =
      Post-pure _ _ s (Outcome-refused _ s refl calm still (Kept-refl s))
  connect_target-Outcome (some target) is calm still =
      Post-bind _ _ _ _ s ((Keeps-store (KeepsStore-resolve H id)).kept s) λ resolved t k.
        Post-if (not (is_nil (error_of resolved))) _ _ _ t
          (λ bad.
            Outcome-at (IsUp B base id) s failed id _ _ t (ground arith) refl refl
              (record { gate = k.gate; sound = k.sound }))
          λ _.
            Post-if (not (B.installed target.protocol)) _ _ _ t
              (λ _. Post-pure _ _ t (Outcome-refused _ t refl calm still k))
              λ _.
                Post-bind _ _ _ _ t ((Keeps-machine (B.available target.protocol)).kept t)
                  λ available u l.
                    Post-if (not (is_nil available)) _ _ _ u
                      (λ _. Post-pure _ _ u (Outcome-refused _ u refl calm still (Kept-trans k l)))
                      λ _.
                        Post-bind _ _ _ _ u
                          (Post-both ((Keeps-observe H B base).kept u)
                            (Post-answer (observe H B base) u))
                          λ seen v n.
                            (let since =
                                Since-Kept
                                  (record {
                                    gate = (Kept-trans k l).gate;
                                    sound = (Kept-trans k l).sound;
                                  })
                                  n.0 in
                              Post-if (not (is_nil seen.1)) _ _ _ v
                                (λ _. Outcome-conflict (IsUp B base id) s id "" _ _ v since)
                                (λ good.
                                  connect_observed-Outcome base target seen.0 u v is
                                    (n.1 ∙ ap (λ e. (seen.0, e)) (eq-nil seen.1 (ground arith)))
                                    since))

module _ (H : Host) (B : Backends H) (id : Text) (s : Manager H) where
  -- `Connect` behind its gate, from a state in which no transition is under way. It succeeds only with
  -- the tunnel running, active and durably recorded as desired, never ends in a conflict without saying so,
  -- leaves no transition under way, and keeps the gate and a valid manifest.
  pub connect_locked-Outcome :
      is_moving s.lifecycle ≡ false
      → Post (connect_locked H B id) (Outcome (IsUp B s.store.manifest id) s) s
  unfolding connect_locked
  connect_locked-Outcome still = Post-get _ _ _ s (
      Post-if (is_conflict s.lifecycle) _ _ _ s
        (λ _. Post-pure _ _ s (record {
          gate = refl;
          success = λ nil. cc;
          conflict = λ _. is_err-cons_self managed_state_conflict [];
          settled = still;
          sound = λ h. h;
        }))
        λ calm. Post-snapshot H _ _ s (
          connect_target-Outcome H B s.store.manifest id s
            (find_profile s.store.manifest.profiles id) refl calm still))
