-- ===== src/Manager/Status/Detail.antt =====
-- internal/manager/manager.go: what `ProfileDetail` says of a profile.
use tunnelfolio.Prelude.{
  from_false, Bool, true, false, Option, some, none, ◌≡◌, refl, ◌∙◌, subst, if◌then◌else◌,
}
use tunnelfolio.Prelude.Text.{Text, eq_text_iff}
use tunnelfolio.Prelude.Err.{Result, ok, fail}
use tunnelfolio.Prelude.Exec.{Post, Post-pure, Post-bind}
use tunnelfolio.Profiles.Model.{Profile, find_profile}
use tunnelfolio.Profiles.Find.{find_profile-id}
use tunnelfolio.Store.Host.{Host}
use tunnelfolio.Manager.Backends.{Backends}
use tunnelfolio.Manager.State.{Manager, Post-snapshot}
use tunnelfolio.Manager.Views.{ProfileView, profile, profile_found}
use tunnelfolio.Manager.Looks.{
  at_world, Looked, Looked-refl, Looked-trans, behind, Looks-check_protocols,
}
use tunnelfolio.Manager.Status.{
  Status, ProfileDetail, is_shown, detail_of, detail_found, profile_detail,
}
use tunnelfolio.Manager.Status.Sighted.{Sighting, IsTruthful, shows}
use tunnelfolio.Manager.Status.Truthful.{status-IsTruthful}

-- A detail of the profile `id`: it is the current one only where its tunnel alone was seen.
pub record IsDetail {H : Host} (B : Backends H) (s : Manager H) (id : Text) (d : ProfileDetail)
    : Type 0 where
  pub named : d.view.id ≡ id
  pub sighted :
      d.current ≡ true → (shown : ProfileView) × (Sighting B s (some shown) × (shown.id ≡ id))

abbrev IsNamed : Text → Result ProfileView → Type 0
IsNamed id (fail e) = Unit {0}
IsNamed id (ok v) = v.id ≡ id

module _ {H : Host} where
  abbrev pub IsDetailed : Backends H → Manager H → Text → Result ProfileDetail → Type 0
  IsDetailed B s id (fail e) = Unit {0}
  IsDetailed B s id (ok d) = IsDetail B s id d

module _ (H : Host) (B : Backends H) (s : Manager H) where
  -- What is seen later is seen of the manager as it was.
  Sighting-before :
      {t : Manager H} {shows : Option ProfileView}
      → Looked s t
      → Sighting B t shows
      → Sighting B s shows
  Sighting-before {t} {shows} k g = by_world (subst (λ x. Sighting B x shows) k.same g)
    where
      by_world : Sighting B (at_world s t.store.world) shows → Sighting B s shows
      by_world g = record {
        world = g.world;
        observation = g.observation;
        profile = g.profile;
        shown = g.shown;
        sole = g.sole;
        saved = g.saved;
        showing = g.showing;
        of_profile = g.of_profile;
      }

  is_shown-some : (id : Text) (v : ProfileView) → is_shown id (some v) ≡ true → v.id ≡ id
  unfolding is_shown
  is_shown-some id v h = (eq_text_iff v.id id).0 h

  detail_of-IsDetail :
      (id : Text) (v : ProfileView) (r : Status) (t : Manager H)
      → v.id ≡ id
      → Looked s t
      → IsTruthful B t r
      → IsDetail B s id (detail_of id v r)
  unfolding detail_of
  detail_of-IsDetail id v r t same k told = by_shown (is_shown id r.profile) refl
    where
      current :
          Sighting B s r.profile
          → is_shown id r.profile ≡ true
          → (shown : ProfileView) × (Sighting B s (some shown) × (shown.id ≡ id))
      current g h = (
        g.shown,
        (
          subst (Sighting B s) g.showing g,
          is_shown-some id g.shown (subst (λ x. is_shown id x ≡ true) g.showing h),
        ),
      )

      by_shown :
          (b : Bool)
          → is_shown id r.profile ≡ b
          → IsDetail B s id (
              if b
              then record { view = v; current = r.connected; protocol_status = r.protocol_status }
              else record { view = v; current = false; protocol_status = none })
      by_shown true h = record {
        named = same;
        sighted = λ on. current (Sighting-before k (told.seen on)) h;
      }
      by_shown false h = record { named = same; sighted = λ on. from_false on }

  Post-profile_found :
      (id : Text) (found : Option Profile)
      → find_profile s.store.manifest.profiles id ≡ found
      → Post (profile_found H B s.store.manifest found) (λ r t. IsNamed id r × Looked s t) s
  unfolding profile_found
  Post-profile_found id none is = Post-pure _ _ s (tt, Looked-refl s)
  Post-profile_found id (some p) is =
      behind _ _ s s (Looked-refl s) (Looks-check_protocols H B _) λ backends t k.
        Post-bind _ _ _ _ t (shows H B s s.store.manifest backends p t) λ v u shown.
          Post-pure _ _ u
            (shown.0 ∙ find_profile-id s.store.manifest.profiles id is, Looked-trans k shown.1)

  Post-detail_found :
      (id : Text) (v : Result ProfileView) (t : Manager H)
      → IsNamed id v
      → Looked s t
      → Post (detail_found H B id v) (λ r u. IsDetailed B s id r × Looked s u) t
  unfolding detail_found
  Post-detail_found id (fail e) t named k = Post-pure _ _ t (tt, k)
  Post-detail_found id (ok v) t named k = Post-bind _ _ _ _ t (status-IsTruthful H B t) λ r u told.
      Post-pure _ _ u (detail_of-IsDetail id v r t named k told.0, Looked-trans k told.1)

-- `ProfileDetail` moves nothing of the manager but its machine. The detail is of the profile that
-- was asked for, and says that it is the current one only where exactly one tunnel was seen, that of
-- the profile.
pub profile_detail-IsDetailed :
    (H : Host) (B : Backends H) (s : Manager H) (id : Text)
    → Post (profile_detail H B id) (λ r t. IsDetailed B s id r × Looked s t) s
unfolding profile_detail profile
profile_detail-IsDetailed H B s id =
    Post-bind _ _ _ _ s
      (Post-snapshot H _ _ s
        (Post-profile_found H B s id (find_profile s.store.manifest.profiles id) refl))
      λ v t found. Post-detail_found H B s id v t found.0 found.1
