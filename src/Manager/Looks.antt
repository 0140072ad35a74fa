-- ===== src/Manager/Looks.antt =====
-- internal/manager/manager.go: the calls that only look: of the manager they move nothing but its
-- machine.
use mathlib.Core.Path.{ap}
use tunnelfolio.Prelude.{
  arith, Bool, true, false, not, Option, none, some, List, [], ◌∷◌, ◌++◌, ◌≡◌, refl, ◌∙◌, ltb,
  if◌then◌else◌,
}
use tunnelfolio.Prelude.Lists.{length}
use tunnelfolio.Prelude.Text.{Text}
use tunnelfolio.Prelude.Err.{Err, is_nil}
use tunnelfolio.Prelude.Exec.{
  Exec, ◌>>=◌, pure, Post, Post-pure, Post-if, Post-bind, Post-mono, Post-get, Post-unless,
}
use tunnelfolio.Profiles.Model.{Profile, Manifest, find_profile}
use tunnelfolio.Store.Host.{Host}
use tunnelfolio.Store.State.{Store, resolve, found, Post-host}
use tunnelfolio.Manager.Backends.{Backends, Observation}
use tunnelfolio.Manager.State.{Manager, on_store, on_machine}
use tunnelfolio.Manager.Tunnels.{
  observe_protocol, observed, observe_each, observe, candidates, is_none_left,
}
use tunnelfolio.Manager.Views.{
  Availability, check_protocol, check_protocols, profile_availability, show_profile,
}
use tunnelfolio.Manager.Status.{show_found, ask_backend}

-- The manager with its machine in another state.
module _ {H : Host} where
  abbrev pub at_world : Manager H → H.World → Manager H
  at_world s w = record s { store = record s.store { world = w } }

-- Nothing of the manager differs but its machine.
pub record Looked {H : Host} (s t : Manager H) : Type 0 where
  pub same : t ≡ at_world s t.store.world

pub Looked-refl : {H : Host} (s : Manager H) → Looked s s
Looked-refl s = record { same = refl }

pub Looked-trans : {H : Host} {s t u : Manager H} → Looked s t → Looked t u → Looked s u
Looked-trans {s} {t} {u} k l = record { same = l.same ∙ ap (λ x. at_world x u.store.world) k.same }

pub record Looks {ℓ} {H : Host} {A : Type ℓ} (m : Exec (Manager H) A) : Type ℓ where
  pub looked : (s : Manager H) → Post m (λ _ t. Looked s t) s

module _ {H : Host} where
  pub Looks-pure {ℓ} : {A : Type ℓ} (a : A) → Looks {H = H} (pure a)
  Looks-pure a = record { looked = λ s. Post-pure a _ s (Looked-refl s) }

  pub Looks-bind {ℓ κ} :
      {A : Type ℓ} {B : Type κ} {m : Exec (Manager H) A} {f : A → Exec (Manager H) B}
      → Looks m
      → ((a : A) → Looks (f a))
      → Looks (m >>= f)
  Looks-bind {m} {f} k l = record {
    looked = λ s.
        Post-bind m f _ _ s (k.looked s)
          λ a t p. Post-mono (f a) _ _ t ((l a).looked t) λ _ u q. Looked-trans p q;
  }

  pub Looks-if {ℓ} :
      {A : Type ℓ} (b : Bool) {m n : Exec (Manager H) A}
      → Looks m
      → Looks n
      → Looks (if b then m else n)
  Looks-if true k l = k
  Looks-if false k l = l

  pub Looks-machine {ℓ} : {A : Type ℓ} (m : Exec H.World A) → Looks (on_machine H m)
  unfolding on_machine
  Looks-machine m = record { looked = λ s. record { holds = record { same = refl } } }

-- A call that keeps a relation to the state it began in, before more of the block.
module _ {ℓ} {H : Host} {A : Type ℓ} {m : Exec (Manager H) A} where
  pub behind {κ μ} :
      {B : Type κ} (f : A → Exec (Manager H) B) (Q : B → Manager H → Type μ) (s t : Manager H)
      → Looked s t
      → Looks m
      → ((a : A) (u : Manager H) → Looked s u → Post (f a) Q u)
      → Post (m >>= f) Q t
  behind f Q s t before k rest =
      Post-bind m f _ _ t (k.looked t) λ a u p. rest a u (Looked-trans before p)

module _ (H : Host) (B : Backends H) where
  pub Looks-observe_protocol :
      (m : Manifest) (protocol : Text) → Looks (observe_protocol H B m protocol)
  unfolding observe_protocol
  Looks-observe_protocol m protocol =
      Looks-if (is_none_left (candidates m.profiles protocol)) (Looks-pure _)
        (Looks-if (not (B.installed protocol)) (Looks-pure _) (Looks-machine _))

  pub Looks-observe_each :
      (m : Manifest) (protocols : List Text) (seen : List Observation) (missing : Bool)
      → Looks (observe_each H B m protocols seen missing)
  unfolding observe_each
  Looks-observe_each m [] seen missing = Looks-pure _
  Looks-observe_each m (protocol ∷ protocols) seen missing =
      Looks-bind (Looks-observe_protocol m protocol) λ r.
        Looks-if _ (Looks-observe_each m protocols seen true)
          (Looks-if _ (Looks-pure _) (Looks-observe_each m protocols (seen ++ r.0) missing))

  pub Looks-observe : (m : Manifest) → Looks (observe H B m)
  unfolding observe
  Looks-observe m = Looks-observe_each m _ [] false

  pub Looks-check_protocols : (protocols : List Text) → Looks (check_protocols H B protocols)
  unfolding check_protocols check_protocol
  Looks-check_protocols [] = Looks-pure []
  Looks-check_protocols (protocol ∷ protocols) =
      Looks-bind
        (Looks-if (not (B.installed protocol)) (Looks-pure _)
          (Looks-bind (Looks-machine _) λ e. Looks-if (is_nil e) (Looks-pure _) (Looks-pure _)))
        λ a. Looks-bind (Looks-check_protocols protocols) λ rest. Looks-pure _

  -- The machine is all of the store that a profile's resolution touches.
  pub Looks-resolve : (id : Text) → Looks (on_store H (resolve H id))
  unfolding on_store resolve found
  Looks-resolve id = record {
    looked = λ s. record {
      holds = record {
        same =
            ap (λ x. record s { store = x })
              (Post-get _ _ (λ _ t. t ≡ record s.store { world = t.world }) s.store
                (by_found s.store (find_profile s.store.manifest.profiles id))).holds;
      };
    };
  }
    where
      by_found :
          (s : Store H) (p : Option Profile)
          → Post (found H p) (λ _ t. t ≡ record s { world = t.world }) s
      by_found s none = Post-pure _ _ s refl
      by_found s (some p) =
          Post-host H _ _ _ s
            λ e w. Post-unless e _ _ _ _ (λ bad. refl) (λ nil. Post-pure _ _ _ refl)

  pub Looks-show_profile :
      (m : Manifest) (backends : List (Text × Availability)) (p : Profile)
      → Looks (show_profile H B m backends p)
  unfolding show_profile profile_availability
  Looks-show_profile m backends p =
      Looks-bind (Looks-bind (Looks-resolve p.id) λ r. Looks-pure _) λ a. Looks-pure _

  pub Looks-show_found :
      (m : Manifest) (backends : List (Text × Availability)) (p : Option Profile)
      → Looks (show_found H B m backends p)
  unfolding show_found
  Looks-show_found m backends none = Looks-pure none
  Looks-show_found m backends (some p) =
      Looks-bind (Looks-show_profile m backends p) λ v. Looks-pure _

  pub Looks-ask_backend : (p : Profile) → Looks (ask_backend H B p)
  unfolding ask_backend
  Looks-ask_backend p =
      Looks-if (not (B.installed p.protocol)) (Looks-pure _)
        (Looks-bind (Looks-machine _) λ r. Looks-pure _)

  -- Without an error, at most one tunnel is seen.
  observed-sole :
      (seen : List Observation) (missing : Bool)
      → (observed seen missing).1 ≡ []
      → ltb 1 (length (observed seen missing).0) ≡ false
  unfolding observed
  observed-sole seen missing h = ground arith

  observe_each-sole :
      (m : Manifest) (protocols : List Text) (seen : List Observation) (missing : Bool)
      (s : Manager H)
      → Post
          (observe_each H B m protocols seen missing)
          (λ r _. r.1 ≡ [] → ltb 1 (length r.0) ≡ false)
          s
  unfolding observe_each
  observe_each-sole m [] seen missing s = Post-pure _ _ s (observed-sole seen missing)
  observe_each-sole m (protocol ∷ protocols) seen missing s =
      Post-bind _ _ _ _ s ((Looks-observe_protocol m protocol).looked s) λ r t p.
        Post-if _ _ _ _ t (λ gone. observe_each-sole m protocols seen true t)
          (λ there.
            Post-if _ _ _ _ t (λ bad. Post-pure (seen, r.1) _ t (λ nil. absurd r.1 bad nil))
              (λ fine. observe_each-sole m protocols (seen ++ r.0) missing t))
    where
      absurd : (e : Err) {b : Bool} → not (is_nil e) ≡ true → e ≡ [] → b ≡ false
      absurd [] bad nil = cc
      absurd (x ∷ e) bad nil = cc

  pub observe-sole :
      (m : Manifest) (s : Manager H)
      → Post (observe H B m) (λ r _. r.1 ≡ [] → ltb 1 (length r.0) ≡ false) s
  unfolding observe
  observe-sole m s = observe_each-sole m _ [] false s
