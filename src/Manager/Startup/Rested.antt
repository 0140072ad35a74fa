-- ===== src/Manager/Startup/Rested.antt =====
-- What `ReconcileStartup` leaves behind on each of its paths.
use tunnelfolio.Prelude.{
  String, Bool, true, false, not, ◌&&◌, ◌||◌, Option, none, some, List, [], ◌∷◌, ◌≡◌, refl,
}
use tunnelfolio.Prelude.Text.{Text, eq_text, is_empty}
use tunnelfolio.Prelude.Int.{pos, is_nonzero}
use tunnelfolio.Prelude.Err.{is_nil}
use tunnelfolio.Prelude.Exec.{Exec, ◌>>=◌, modify, Post, Post-if, Post-bind, Post-modify}
use tunnelfolio.Profiles.Model.{Profile, Manifest, find_profile, startup_manual}
use tunnelfolio.Store.Host.{Host}
use tunnelfolio.Store.State.Repair.{IsSound}
use tunnelfolio.Manager.Backends.{Backends, Observation}
use tunnelfolio.Manager.State.{
  Manager, Lifecycle, NetworkTruth, known, uncertain, disconnected, active, failed, state_conflict,
  set_lifecycle, set_failure, lifecycle_for_truth, message_for, recovery_truth, Post-snapshot,
}
use tunnelfolio.Manager.Tunnels.{error_of}
use tunnelfolio.Manager.Keeps.{
  Keeps, Keeps-pure, Keeps-if, Keeps-store, Keeps-machine, Keeps-repair, KeepsStore-resolve,
  KeepsStore-snapshot, Keeps-observe, Keeps-start, Keeps-stop, Keeps-record_connection,
  Keeps-reconcile_connection,
}
use tunnelfolio.Manager.Outcome.{Since, Since-Kept}
use tunnelfolio.Manager.Startup.{
  truth_of_start, compensate, restore_target, restore_desired, restore_from_none, adopt,
  reconcile_locked, reconcile_startup,
}

-- The states that an operation may end in.
abbrev pub is_resting : Lifecycle → Bool
is_resting disconnected = true
is_resting active = true
is_resting failed = true
is_resting state_conflict = true
is_resting _ = false

is_resting-lifecycle_for_truth :
    (truth : NetworkTruth) → is_resting (lifecycle_for_truth truth) ≡ true
is_resting-lifecycle_for_truth known = refl
is_resting-lifecycle_for_truth uncertain = refl

-- The lifecycle is at rest, and the rest is as `Since` says.
pub record Rested {H : Host} (s t : Manager H) : Type 0 where
  pub resting : is_resting t.lifecycle ≡ true
  pub since : Since s t

module _ {H : Host} (s : Manager H) where
  Rested-behind {ℓ} :
      {A : Type ℓ} {m : Exec (Manager H) A} (f : A → Exec (Manager H) (Unit {0})) (t : Manager H)
      → Since s t
      → Keeps m
      → ((a : A) (u : Manager H) → Since s u → Post (f a) (λ _. Rested s) u)
      → Post (m >>= f) (λ _. Rested s) t
  Rested-behind {m} f t since k rest =
      Post-bind m f _ _ t (k.kept t) λ a u p. rest a u (Since-Kept since p)

  Rested-at :
      (l : Lifecycle) (profile : Text) (message : String) (t : Manager H)
      → is_resting l ≡ true
      → Since s t
      → Post (set_lifecycle H l profile message) (λ _. Rested s) t
  unfolding modify
  Rested-at l profile message t rest since = record {
    holds = record { resting = rest; since = record { gate = since.gate; sound = since.sound } };
  }

  Rested-failure :
      (truth : NetworkTruth) (profile : Text) (failed_message conflict_message : String)
      (t : Manager H)
      → Since s t
      → Post (set_failure H truth profile failed_message conflict_message) (λ _. Rested s) t
  Rested-failure truth profile failed_message conflict_message t since =
      Rested-at (lifecycle_for_truth truth) profile
        (message_for truth failed_message conflict_message) t (is_resting-lifecycle_for_truth truth)
        since

module _ (H : Host) (B : Backends H) (s : Manager H) where
  compensate-Rested :
      (target : Profile) (t : Manager H)
      → Since s t
      → Post (compensate H B target) (λ _. Rested s) t
  unfolding compensate
  compensate-Rested target t since =
      Rested-behind s _ t since (Keeps-stop H B target) λ stopped u k.
        Rested-behind s _ u k (Keeps-repair H) λ repair v l.
          Rested-behind s _ v l
            (Keeps-if _ (Keeps-reconcile_connection H B target.id (pos 0)) (Keeps-pure []))
            λ reconcile w m.
              Rested-failure s (recovery_truth stopped [] repair reconcile) target.id
                "The restored tunnel could not be recorded durably."
                "Startup restoration could not be compensated safely." w m

  restore_target-Rested :
      (m : Manifest) (found : Option Profile) (t : Manager H)
      → Since s t
      → Post (restore_target H B m found) (λ _. Rested s) t
  unfolding restore_target
  restore_target-Rested m none t since = Rested-at s failed m.desired_profile _ t refl since
  restore_target-Rested m (some target) t since =
      Post-if (not (B.installed target.protocol)) _ _ _ t
        (λ _. Rested-at s failed m.desired_profile _ t refl since)
        λ _.
          Rested-behind s _ t since (Keeps-store (KeepsStore-resolve H target.id)) λ resolved u k.
            Post-if (not (is_nil (error_of resolved))) _ _ _ u
              (λ _. Rested-at s failed m.desired_profile _ u refl k)
              λ _. Post-modify _ _ _ u (
                Rested-behind s _ _ (record { gate = k.gate; sound = k.sound })
                  (Keeps-start H B target)
                  λ e v l.
                    Post-if (not (is_nil e)) _ _ _ v
                      (λ _.
                        Rested-failure s (truth_of_start e) target.id
                          "The desired profile could not be restored."
                          "The failed startup restoration could not be proved absent." v l)
                      λ _. Rested-behind s _ v l (Keeps-machine B.now) λ at w n.
                        Rested-behind s _ w n (Keeps-record_connection H B target.id at true)
                          λ recorded x o.
                            Post-if (is_nil recorded) _ _ _ x
                              (λ _. Rested-at s active target.id _ x refl o)
                              (λ _. compensate-Rested target x o))

  restore_desired-Rested :
      (m : Manifest) (t : Manager H) → Since s t → Post (restore_desired H B m) (λ _. Rested s) t
  unfolding restore_desired
  restore_desired-Rested m t since =
      Post-if (B.read_only || (eq_text m.startup_mode startup_manual || is_empty m.desired_profile))
        _ _ _ t (λ _. Rested-at s disconnected [] _ t refl since)
        (λ _. restore_target-Rested m (find_profile m.profiles m.desired_profile) t since)

  restore_from_none-Rested :
      (m : Manifest) (t : Manager H) → Since s t → Post (restore_from_none H B m) (λ _. Rested s) t
  unfolding restore_from_none
  restore_from_none-Rested m t since =
      Post-if (not B.read_only && is_nonzero m.connected_at) _ _ _ t
        (λ _.
          Rested-behind s _ t since (Keeps-reconcile_connection H B m.desired_profile (pos 0))
            λ e u k.
              Post-if (not (is_nil e)) _ _ _ u
                (λ _. Rested-at s state_conflict m.desired_profile _ u refl k)
                λ _.
                  Rested-behind s _ u k (Keeps-store (KeepsStore-snapshot H))
                    λ later v l. restore_desired-Rested later v l)
        (λ _. restore_desired-Rested m t since)

  adopt-Rested :
      (m : Manifest) (seen : List Observation) (t : Manager H)
      → Since s t
      → Post (adopt H B m seen) (λ _. Rested s) t
  unfolding adopt
  adopt-Rested m [] t since = restore_from_none-Rested m t since
  adopt-Rested m (o ∷ []) t since =
      Post-if (eq_text o.profile_id m.desired_profile) _ _ _ t
        (λ _. Rested-at s active o.profile_id _ t refl since)
        (λ _. Rested-at s state_conflict o.profile_id _ t refl since)
  adopt-Rested m (o ∷ p ∷ os) t since = restore_from_none-Rested m t since

  reconcile_locked-Rested : Post (reconcile_locked H B) (λ _. Rested s) s
  unfolding reconcile_locked
  reconcile_locked-Rested = Post-modify _ _ _ s (
      Post-snapshot H _ _ _ (
        Rested-behind s _ _ (record { gate = refl; sound = λ h. h })
          (Keeps-observe H B s.store.manifest)
          λ seen t k.
            Post-if (not (is_nil seen.1)) _ _ _ t (λ _. Rested-at s state_conflict [] _ t refl k)
              (λ _. adopt-Rested s.store.manifest seen.0 t k)))

-- `ReconcileStartup` ends with the gate free and the lifecycle disconnected, active, failed or in
-- conflict, whatever the backends and the machine answer, and keeps a valid manifest valid.
pub reconcile_startup-is_resting :
    (H : Host) (B : Backends H) (s : Manager H)
    → Post
        (reconcile_startup H B)
        (λ _ t.
          (t.gate_free ≡ true)
          × (is_resting t.lifecycle ≡ true)
          × (IsSound s.store → IsSound t.store))
        s
unfolding reconcile_startup modify
reconcile_startup-is_resting H B s = Post-modify _ _ _ s (
    Post-bind _ _ _ _ _ (reconcile_locked-Rested H B (record s { gate_free = false }))
      λ _ t r. record { holds = (refl, r.resting, r.since.sound) })
