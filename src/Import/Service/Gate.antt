-- ===== src/Import/Service/Gate.antt =====
-- The rules for the gate of the import service and for the calls of its store.
use tunnelfolio.Prelude.{true, false, not, ◌≡◌, [], ◌∷◌, arith}
use tunnelfolio.Prelude.Err.{Result, fail, import_busy}
use tunnelfolio.Prelude.Exec.{
  Exec, ◌>>=◌, Post, Post-pure, Post-get, Post-if, Post-modify, Post-bind,
}
use tunnelfolio.Store.Host.{Host}
use tunnelfolio.Store.State.{Store, snapshot, on_host}
use tunnelfolio.Profiles.Model.{Manifest}
use tunnelfolio.Import.Service.{ImportService, on_store, exclusive}

module _ (H : Host) where
  -- The gate is refused, or taken for the call and given back.
  pub Post-exclusive {ℓ μ} :
      {A : Type ℓ} (m : Exec (ImportService H) (Result A)) (Q : Result A → ImportService H → Type μ)
      (s : ImportService H)
      → (s.gate_free ≡ false → Q (fail (import_busy ∷ [])) s)
      → (s.gate_free ≡ true
          → Post m (λ r t. Q r (record t { gate_free = true })) (record s { gate_free = false }))
      → Post (exclusive H m) Q s
  unfolding exclusive
  Post-exclusive m Q s busy free = Post-get _ _ _ s (
      Post-if (not s.gate_free) _ _ _ s (λ taken. Post-pure _ _ s (busy (ground (arith, taken))))
        λ open_. Post-modify _ _ _ s (
          Post-bind _ _ _ _ _ (free (ground (arith, open_)))
            λ r t q. Post-modify _ _ _ t (Post-pure _ _ _ q)))

  -- A call of the store, by what it leaves in the store.
  pub Post-on_store {ℓ κ μ ξ} :
      {A : Type ℓ} {B : Type κ} (m : Exec (Store H) A) (f : A → Exec (ImportService H) B)
      (R : A → Store H → Type μ) (Q : B → ImportService H → Type ξ) (s : ImportService H)
      → Post m R s.store
      → ((a : A) (u : Store H) → R a u → Post (f a) Q (record s { store = u }))
      → Post (on_store H m >>= f) Q s
  unfolding on_store ◌>>=◌
  Post-on_store m f R Q s p k = record { holds = (k (m s.store).0 (m s.store).1 p.holds).holds }

  pub Post-on_store_last {ℓ μ ξ} :
      {A : Type ℓ} (m : Exec (Store H) A) (R : A → Store H → Type μ)
      (Q : A → ImportService H → Type ξ) (s : ImportService H)
      → Post m R s.store
      → ((a : A) (u : Store H) → R a u → Q a (record s { store = u }))
      → Post (on_store H m) Q s
  unfolding on_store
  Post-on_store_last m R Q s p k = record { holds = k (m s.store).0 (m s.store).1 p.holds }

  -- A look at the manifest.
  pub Post-manifest {ℓ ξ} :
      {B : Type ℓ} (f : Manifest → Exec (ImportService H) B) (Q : B → ImportService H → Type ξ)
      (s : ImportService H)
      → Post (f s.store.manifest) Q s
      → Post (on_store H (snapshot H) >>= f) Q s
  unfolding on_store ◌>>=◌
  Post-manifest f Q s p = record { holds = p.holds }

  -- A call of the machine, of which nothing is known.
  pub Post-machine {ℓ κ ξ} :
      {A : Type ℓ} {B : Type κ} (m : Exec H.World A) (f : A → Exec (ImportService H) B)
      (Q : B → ImportService H → Type ξ) (s : ImportService H)
      → ((a : A) (w : H.World) → Post (f a) Q (record s { store = record s.store { world = w } }))
      → Post (on_store H (on_host H m) >>= f) Q s
  unfolding on_store on_host ◌>>=◌
  Post-machine m f Q s k = record { holds = (k (m s.store.world).0 (m s.store.world).1).holds }

  -- The same, where something is known of the call.
  pub Post-machine_by {ℓ κ μ ξ} :
      {A : Type ℓ} {B : Type κ} (m : Exec H.World A) (f : A → Exec (ImportService H) B)
      (R : A → H.World → Type μ) (Q : B → ImportService H → Type ξ) (s : ImportService H)
      → Post m R s.store.world
      → ((a : A) (w : H.World)
          → R a w
          → Post (f a) Q (record s { store = record s.store { world = w } }))
      → Post (on_store H (on_host H m) >>= f) Q s
  unfolding on_store on_host ◌>>=◌
  Post-machine_by m f R Q s p k = record {
    holds = (k (m s.store.world).0 (m s.store.world).1 p.holds).holds;
  }
