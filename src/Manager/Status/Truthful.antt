-- ===== src/Manager/Status/Truthful.antt =====
-- internal/manager/manager.go: what `Status` says.
use tunnelfolio.Prelude.{
  from_false, String, sym, ap, true, false, ◌||◌, List, [], ◌∷◌, ◌≡◌, refl, ltb, arith,
  if◌then◌else◌,
}
use tunnelfolio.Prelude.Lists.{length}
use tunnelfolio.Prelude.Text.{Text}
use tunnelfolio.Prelude.Err.{Err, eq-nil}
use tunnelfolio.Prelude.Int.{ℤ}
use tunnelfolio.Prelude.Exec.{Post, Post-pure, Post-if, Post-bind, Post-get}
use tunnelfolio.Store.Host.{Host}
use tunnelfolio.Manager.Backends.{Backends, Observation}
use tunnelfolio.Manager.State.{Manager, Lifecycle, disconnected, failed, is_conflict, Post-snapshot}
use tunnelfolio.Manager.Tunnels.{observe}
use tunnelfolio.Manager.Views.{Availability}
use tunnelfolio.Manager.Looks.{
  at_world, Looked, Looked-refl, Looked-trans, behind, Looks-machine, Looks-observe,
  Looks-check_protocols, observe-sole,
}
use tunnelfolio.Manager.Status.{
  at_lifecycle, observation_unavailable, Status, status_at, in_transition, status_unobserved,
  status_failed, status_active, status_observed, status, is_failed,
}
use tunnelfolio.Manager.Status.Sighted.{
  IsTruthful, Done, apart, apart_conflict, Post-unobserved, Post-partial, Post-found,
}

module _ (H : Host) (B : Backends H) (s : Manager H) where
  Post-active :
      (backends : List (Text × Availability)) (snap : Lifecycle × Text × String) (at : ℤ)
      (found : List Observation) (w : H.World) (t : Manager H)
      → (observe H B s.store.manifest (at_world s w)).0.0 ≡ found
      → ltb 1 (length found) ≡ false
      → Looked s t
      → Post
          (status_active H B s.store.manifest backends snap
            (status_at (at_lifecycle disconnected) backends "" at true)
            found)
          (Done H B s)
          t
  unfolding status_active
  Post-active backends (l, id, message) at [] w t sees one k = Post-pure _ _ t (by_failure l, k)
    where
      base : Status
      base = status_at (at_lifecycle disconnected) backends "" at true

      by_failure :
          (l : Lifecycle)
          → IsTruthful B s (
              if is_failed l
              then record base { lifecycle = at_lifecycle l; last_error = message }
              else base)
      by_failure failed = apart H B s _ refl (λ up. cc) (λ h. from_false h)
      by_failure _ = apart H B s _ refl (λ up. cc) (λ h. from_false h)
  Post-active backends snap at (o ∷ []) w t sees one k =
      Post-found H B s o backends at _ t (record { world = w; sole = sees }) refl k
  Post-active backends snap at (o ∷ p ∷ os) w t sees one k = from_false (ground arith)

  Post-failed :
      (backends : List (Text × Availability)) (e : Err) (message : String) (at : ℤ)
      (found : List Observation) (w : H.World) (t : Manager H)
      → (observe H B s.store.manifest (at_world s w)).0.0 ≡ found
      → Looked s t
      → Post
          (status_failed H B s.store.manifest backends e
            (status_at observation_unavailable backends message at false)
            found)
          (Done H B s)
          t
  unfolding status_failed
  Post-failed backends e message at [] w t sees k =
      Post-pure _ _ t (apart_conflict H B s e backends message at, k)
  Post-failed backends e message at (o ∷ []) w t sees k =
      Post-if _ _ _ _ t
        (λ missing.
          Post-partial H B s o backends message at _ t (record { world = w; sole = sees }) refl k)
        (λ other. Post-pure _ _ t (apart_conflict H B s e backends message at, k))
  Post-failed backends e message at (o ∷ p ∷ os) w t sees k =
      Post-pure _ _ t (apart_conflict H B s e backends message at, k)

  -- The observation, with where it was made.
  observes :
      (t : Manager H)
      → Looked s t
      → Post
          (observe H B s.store.manifest)
          (λ seen u.
            ((observe H B s.store.manifest (at_world s t.store.world)).0.0 ≡ seen.0)
            × (seen.1 ≡ [] → ltb 1 (length seen.0) ≡ false)
            × Looked t u)
          t
  observes t k = record {
    holds = (
      ap (λ x. (observe H B s.store.manifest x).0.0) (sym k.same),
      (observe-sole H B s.store.manifest t).holds,
      ((Looks-observe H B s.store.manifest).looked t).holds,
    );
  }

  Post-observed :
      (backends : List (Text × Availability)) (snap : Lifecycle × Text × String) (t : Manager H)
      → Looked s t
      → Post (status_observed H B s.store.manifest backends snap) (Done H B s) t
  unfolding status_observed
  Post-observed backends snap t k = Post-bind _ _ _ _ t (observes t k) λ seen u told.
      behind _ _ s u (Looked-trans k told.2) (Looks-machine _) λ at v k.
        Post-if _ _ _ _ v
          (λ nil. Post-active backends snap at seen.0 _ v told.0 (told.1 (eq-nil seen.1 nil)) k)
          (λ bad. Post-failed backends seen.1 _ at seen.0 _ v told.0 k)

  Post-either :
      (backends : List (Text × Availability)) (snap : Lifecycle × Text × String) (t : Manager H)
      → Looked s t
      → Post
          (if is_conflict snap.0 || in_transition snap.0
            then status_unobserved H B s.store.manifest backends snap
            else status_observed H B s.store.manifest backends snap)
          (Done H B s)
          t
  Post-either backends snap t k =
      Post-if (is_conflict snap.0 || in_transition snap.0) _ _ _ t
        (λ still. Post-unobserved H B s s.store.manifest backends snap t still k)
        (λ moves. Post-observed backends snap t k)

pub status-IsTruthful :
    (H : Host) (B : Backends H) (s : Manager H)
    → Post (status H B) (λ r t. IsTruthful B s r × Looked s t) s
unfolding status
status-IsTruthful H B s = Post-get _ _ _ s (
    Post-snapshot H _ _ s (
      behind _ _ s s (Looked-refl s) (Looks-check_protocols H B _)
        λ backends t k. Post-either H B s backends _ t k))
