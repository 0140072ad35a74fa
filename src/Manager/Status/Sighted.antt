-- ===== src/Manager/Status/Sighted.antt =====
-- internal/manager/manager.go: what a status may say, block by block: without an observation, and with
-- one tunnel seen.
use mathlib.Core.Option.{some-injective}
use tunnelfolio.Prelude.{
  from_false, String, sym, ap, ◌∙◌, subst, Bool, true, false, not, ◌&&◌, ◌||◌, Option, none, some,
  List, [], ◌∷◌, ◌≡◌, refl, arith, if◌then◌else◌,
}
use tunnelfolio.Prelude.Text.{Text, eq_text, is_empty}
use tunnelfolio.Prelude.Err.{
  Err, is_err, Result, ok, fail, managed_state_conflict, identity_conflict,
}
use tunnelfolio.Prelude.Int.{ℤ}
use tunnelfolio.Prelude.Exec.{◌>>=◌, Post, Post-pure, Post-if, Post-bind, Post-both}
use tunnelfolio.Profiles.Model.{Profile, Manifest, find_profile}
use tunnelfolio.Store.Host.{Host}
use tunnelfolio.Manager.Backends.{Backends, Observation, ProtocolStatus}
use tunnelfolio.Manager.State.{
  Manager, Lifecycle, disconnected, active, state_conflict, is_conflict,
}
use tunnelfolio.Manager.Tunnels.{observe}
use tunnelfolio.Manager.Views.{Availability, ProfileView, view, show_profile}
use tunnelfolio.Manager.Looks.{
  at_world, Looked, Looked-trans, behind, Looks-machine, Looks-show_profile, Looks-show_found,
  Looks-ask_backend,
}
use tunnelfolio.Manager.Status.{
  at_lifecycle, observation_unavailable, Status, status_at, in_transition, conflict_status,
  with_answer, status_unobserved, status_partial, status_found,
}

-- One tunnel was seen on the machine, by an observation from the manager's manifest, and it is the
-- tunnel of the saved profile that is shown.
pub record Sighting {H : Host} (B : Backends H) (s : Manager H) (shows : Option ProfileView)
    : Type 0 where
  pub world : H.World
  pub observation : Observation
  pub profile : Profile
  pub shown : ProfileView
  pub sole : (observe H B s.store.manifest (at_world s world)).0.0 ≡ observation ∷ []
  pub saved : find_profile s.store.manifest.profiles observation.profile_id ≡ some profile
  pub showing : shows ≡ some shown
  pub of_profile : shown.id ≡ profile.id

-- A status of the manager in the state `s`.
pub record IsTruthful {H : Host} (B : Backends H) (s : Manager H) (r : Status) : Type 0 where
  pub seen : r.connected ≡ true → Sighting B s r.profile
  pub up :
      r.lifecycle ≡ at_lifecycle active → (r.connected ≡ true) × (r.observation_available ≡ true)
  pub wanted :
      r.lifecycle ≡ at_lifecycle active
      → (v : ProfileView) → r.profile ≡ some v
      → (is_empty s.store.manifest.desired_profile || eq_text s.store.manifest.desired_profile v.id)
        ≡ true
  pub stop :
      r.can_disconnect ≡ true → (B.read_only ≡ false) × (r.lifecycle ≡ at_lifecycle state_conflict)

not_active :
    (l : Lifecycle)
    → (is_conflict l || in_transition l) ≡ true
    → at_lifecycle l ≡ at_lifecycle active
    → false ≡ true
not_active active h is = h
not_active _ h is = cc

wanted_or_none :
    (none_wanted same : Bool) → (not none_wanted && not same) ≡ false → (none_wanted || same) ≡ true
wanted_or_none a b h = ground arith

unreadable : (b : Bool) → not b ≡ true → b ≡ false
unreadable b h = ground arith

module _ (H : Host) (B : Backends H) (s : Manager H) where
  -- What every block is to leave.
  abbrev pub Done : Status → Manager H → Type 0
  Done r t = IsTruthful B s r × Looked s t

  -- A status that is neither connected nor active.
  pub apart :
      (r : Status)
      → r.connected ≡ false
      → (r.lifecycle ≡ at_lifecycle active → false ≡ true)
      → (r.can_disconnect ≡ true
          → (B.read_only ≡ false) × (r.lifecycle ≡ at_lifecycle state_conflict))
      → IsTruthful B s r
  apart r off still stop = record {
    seen = λ on. from_false (sym off ∙ on);
    up = λ is. from_false (still is);
    wanted = λ is v shows. from_false (still is);
    stop = stop;
  }

  -- Disconnecting is offered in a conflict, to a manager that may write.
  may_stop :
      (l : Lifecycle) (b : Bool)
      → (is_conflict l && not b) ≡ true
      → (b ≡ false) × (at_lifecycle l ≡ at_lifecycle state_conflict)
  may_stop state_conflict b h = (unreadable b h, refl)
  may_stop _ b h = from_false h

  pub Post-unobserved :
      (m : Manifest) (backends : List (Text × Availability)) (snap : Lifecycle × Text × String)
      (t : Manager H)
      → (is_conflict snap.0 || in_transition snap.0) ≡ true
      → Looked s t
      → Post (status_unobserved H B m backends snap) Done t
  unfolding status_unobserved
  Post-unobserved m backends (l, id, message) t h k = behind _ _ s t k (Looks-machine _) λ at u k.
      behind _ _ s u k (Looks-show_found H B m backends _)
        λ shown v k. Post-pure _ _ v (apart _ refl (not_active l h) (may_stop l B.read_only), k)

  pub apart_conflict :
      (e : Err) (backends : List (Text × Availability)) (message : String) (at : ℤ)
      → IsTruthful B s (
          conflict_status
            (not B.read_only)
            e
            (status_at observation_unavailable backends message at false))
  unfolding conflict_status
  apart_conflict e backends message at =
      by_test (is_err e managed_state_conflict || is_err e identity_conflict)
    where
      base : Status
      base = status_at observation_unavailable backends message at false

      by_test :
          (b : Bool)
          → IsTruthful B s (
              if b
              then record base {
                lifecycle = at_lifecycle state_conflict;
                can_disconnect = is_err e managed_state_conflict && not B.read_only;
              }
              else base)
      by_test true = apart _ refl (λ is. cc) λ h. (unreadable B.read_only (ground arith), refl)
      by_test false = apart _ refl (λ is. cc) λ h. from_false h

  shows-id :
      (m : Manifest) (backends : List (Text × Availability)) (p : Profile) (t : Manager H)
      → Post (show_profile H B m backends p) (λ v _. v.id ≡ p.id) t
  unfolding show_profile view ◌>>=◌
  shows-id m backends p t = record { holds = refl }

  pub shows :
      (m : Manifest) (backends : List (Text × Availability)) (p : Profile) (t : Manager H)
      → Post (show_profile H B m backends p) (λ v u. (v.id ≡ p.id) × Looked t u) t
  shows m backends p t =
      Post-both (shows-id m backends p t) ((Looks-show_profile H B m backends p).looked t)

  -- The one observation that was made.
  pub record Seen (o : Observation) : Type 0 where
    pub world : H.World
    pub sole : (observe H B s.store.manifest (at_world s world)).0.0 ≡ o ∷ []

  sighted :
      {o : Observation} {p : Profile} {v : ProfileView}
      → Seen o
      → find_profile s.store.manifest.profiles o.profile_id ≡ some p
      → v.id ≡ p.id
      → Sighting B s (some v)
  sighted {o} {p} {v} one is same = record {
    world = one.world;
    observation = o;
    profile = p;
    shown = v;
    sole = one.sole;
    saved = is;
    showing = refl;
    of_profile = same;
  }

  pub Post-partial :
      (o : Observation) (backends : List (Text × Availability)) (message : String) (at : ℤ)
      (found : Option Profile) (t : Manager H)
      → Seen o
      → find_profile s.store.manifest.profiles o.profile_id ≡ found
      → Looked s t
      → Post
          (status_partial H B s.store.manifest backends
            (status_at observation_unavailable backends message at false)
            found)
          Done
          t
  unfolding status_partial
  Post-partial o backends message at none t one is k =
      Post-pure _ _ t (apart _ refl (λ up. cc) (λ h. from_false h), k)
  Post-partial o backends message at (some p) t one is k =
      Post-bind _ _ _ _ t (shows s.store.manifest backends p t) λ v u shown.
        behind _ _ s u (Looked-trans k shown.1) (Looks-ask_backend H B p) λ r w k. Post-pure _ _ w (
          record {
            seen = λ on. sighted one is shown.0;
            up = λ up. from_false cc;
            wanted = λ up. from_false cc;
            stop = λ h. from_false h;
          },
          k,
        )

  -- What the backend answers about the tunnel changes none of this.
  with_answer-IsTruthful :
      (r : Option (Result ProtocolStatus)) (base : Status)
      → IsTruthful B s base
      → IsTruthful B s (with_answer r base)
  with_answer-IsTruthful none base h = h
  with_answer-IsTruthful (some (ok a)) base h = record {
    seen = h.seen;
    up = h.up;
    wanted = h.wanted;
    stop = h.stop;
  }
  with_answer-IsTruthful (some (fail e)) base h = record {
    seen = h.seen;
    up = h.up;
    wanted = h.wanted;
    stop = h.stop;
  }

  is_up :
      (p : Profile) (v : ProfileView) (backends : List (Text × Availability)) (at : ℤ)
      → Sighting B s (some v)
      → v.id ≡ p.id
      → (not (is_empty s.store.manifest.desired_profile)
          && not (eq_text s.store.manifest.desired_profile p.id))
        ≡ false
      → IsTruthful B s record (status_at (at_lifecycle disconnected) backends "" at true) {
        connected = true;
        lifecycle = at_lifecycle active;
        profile = some v;
      }
  is_up p v backends at seen same h = record {
    seen = λ on. seen;
    up = λ is. (refl, refl);
    wanted = λ is u shows.
        subst (λ x. (is_empty desired || eq_text desired x) ≡ true)
          (sym same ∙ ap (λ x. x.id) (some-injective _ _ shows)) (wanted_or_none _ _ h);
    stop = λ h. from_false h;
  }
    where
      desired : Text
      desired = s.store.manifest.desired_profile

  pub Post-found :
      (o : Observation) (backends : List (Text × Availability)) (at : ℤ) (found : Option Profile)
      (t : Manager H)
      → Seen o
      → find_profile s.store.manifest.profiles o.profile_id ≡ found
      → Looked s t
      → Post
          (status_found H B s.store.manifest backends
            (status_at (at_lifecycle disconnected) backends "" at true)
            found)
          Done
          t
  unfolding status_found
  Post-found o backends at none t one is k =
      Post-pure _ _ t (apart _ refl (λ up. cc) (λ h. from_false h), k)
  Post-found o backends at (some p) t one is k =
      Post-bind _ _ _ _ t (shows s.store.manifest backends p t) λ v u shown.
        Post-if _ _ _ _ u
          (λ other. Post-pure _ _ u (
            record {
              seen = λ on. sighted one is shown.0;
              up = λ up. from_false cc;
              wanted = λ up. from_false cc;
              stop = λ h. from_false h;
            },
            Looked-trans k shown.1,
          ))
          (λ same. behind _ _ s u (Looked-trans k shown.1) (Looks-ask_backend H B p) λ r w k.
            Post-pure _ _ w (
              with_answer-IsTruthful r _
                  (is_up p v backends at (sighted one is shown.0) shown.0 same),
              k,
            ))
