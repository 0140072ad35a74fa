-- ===== src/Store/State.antt =====
-- internal/profiles/store.go: the manifest in memory, its publication and the repair of a write
-- whose durability is unknown. The mutex makes each operation one step.
pub mod Repair
pub mod Write
pub mod Mutation
use tunnelfolio.Prelude.{
  ℕ, ◌+◌, ◌%◌, ◌^◌, Bool, true, false, not, Option, none, some, List, [], ◌∷◌, ◌++◌, ◌≡◌, refl,
  if◌then◌else◌,
}
use tunnelfolio.Prelude.Text.{Text, codes}
use tunnelfolio.Prelude.Err.{Err, is_nil, Result, ok, fail, outcome_ambiguous, read_only, not_found}
use tunnelfolio.Prelude.Exec.{Exec, ◌>>=◌, ◌>>◌, pure, gets, modify, unless_err, Post}
use tunnelfolio.Profiles.Model.{Profile, Manifest, find_profile}
use tunnelfolio.Profiles.Manifest.{validate_manifest}
use tunnelfolio.Store.Host.{Host, FilePath, WriteResult}
use tunnelfolio.Store.Objects.{validate_object, validate_referenced_objects}

pub record Store (H : Host) : Type 0 where
  pub manifest : Manifest
  pub durability_unknown : Bool
  pub world : H.World

-- `LibraryRevision` is a uint64.
abbrev pub revision_mod : ℕ
revision_mod = 2 ^ 64

abbrev pub next_revision : Manifest → Manifest
next_revision m = record m { library_revision = (m.library_revision + 1) % revision_mod }

abbrev pub root : FilePath
root = []

abbrev pub manifest_path : FilePath
manifest_path = codes "manifest.json" ∷ []

module _ (H : Host) where
  -- A call of the machine.
  unfoldable pub on_host {ℓ} : {A : Type ℓ} → Exec H.World A → Exec (Store H) A
  on_host m s = let r = m s.world in (r.0, record s { world = r.1 })

  abbrev pub store_manifest : Manifest → Bool → Exec (Store H) (Unit {0})
  store_manifest m unknown = modify λ s. record s { manifest = m; durability_unknown = unknown }

  -- `Snapshot`
  abbrev pub snapshot : Exec (Store H) Manifest
  snapshot = gets λ s. s.manifest

  -- What the machine answers, and the state that it leaves itself in, may be anything.
  pub Post-host {ℓ μ ξ} :
      {A : Type ℓ} {B : Type μ} (m : Exec H.World A) (f : A → Exec (Store H) B)
      (Q : B → Store H → Type ξ) (s : Store H)
      → ((a : A) (w : H.World) → Post (f a) Q (record s { world = w }))
      → Post (on_host m >>= f) Q s
  unfolding on_host ◌>>=◌
  Post-host m f Q s k = record { holds = (k (m s.world).0 (m s.world).1).holds }

  -- The same, where more is known of the answer.
  pub Post-host_by {ℓ μ ν ξ} :
      {A : Type ℓ} {B : Type μ} (m : Exec H.World A) (f : A → Exec (Store H) B)
      (R : A → H.World → Type ν) (Q : B → Store H → Type ξ) (s : Store H)
      → Post m R s.world
      → ((a : A) (w : H.World) → R a w → Post (f a) Q (record s { world = w }))
      → Post (on_host m >>= f) Q s
  unfolding on_host ◌>>=◌
  Post-host_by m f R Q s p k = record { holds = (k (m s.world).0 (m s.world).1 p.holds).holds }

  -- The same, where the answer is to be traced to the call.
  pub Post-host_seen {ℓ μ ξ} :
      {A : Type ℓ} {B : Type μ} (m : Exec H.World A) (f : A → Exec (Store H) B)
      (Q : B → Store H → Type ξ) (s : Store H)
      → ((a : A) (w : H.World) → (m s.world).0 ≡ a → Post (f a) Q (record s { world = w }))
      → Post (on_host m >>= f) Q s
  unfolding on_host ◌>>=◌
  Post-host_seen m f Q s k = record { holds = (k (m s.world).0 (m s.world).1 refl).holds }

  -- A call whose answer is the result of the block.
  pub Post-on_host {ℓ κ μ} :
      {A : Type ℓ} (m : Exec H.World A) (R : A → H.World → Type κ) (Q : A → Store H → Type μ)
      (s : Store H)
      → Post m R s.world
      → ((a : A) (w : H.World) → R a w → Q a (record s { world = w }))
      → Post (on_host m) Q s
  unfolding on_host
  Post-on_host m R Q s p k = record { holds = k (m s.world).0 (m s.world).1 p.holds }

  -- The manifest is taken over with an outcome that is not known to be durable.
  unfoldable pub take_over : Manifest → Err → Exec (Store H) Err
  take_over candidate e = do store_manifest candidate true; pure (outcome_ambiguous ∷ e)

  unfoldable pub settle : Manifest → WriteResult → Exec (Store H) Err
  settle candidate result =
      if not (is_nil result.err)
      then (if result.published then take_over candidate result.err else pure result.err)
      else if not result.durable
      then take_over candidate []
      else (do store_manifest candidate false; pure [])

  -- `publishManifestLocked`
  unfoldable pub publish_manifest : Manifest → Exec (Store H) Err
  publish_manifest candidate = do
    result ← on_host (H.write_json_atomic candidate)
    settle candidate result

  abbrev pub ambiguous : Err → Err
  ambiguous e = outcome_ambiguous ∷ e

  -- `repairDurabilityLocked`
  unfoldable pub repair_durability : Exec (Store H) Err
  repair_durability = do
    unknown ← gets (λ s. s.durability_unknown)
    if not unknown then pure [] else do
      loaded ← on_host H.read_json
      unless_err loaded.1 ambiguous (
          unless_err (validate_manifest loaded.0) ambiguous do
            objects ← on_host (validate_referenced_objects H loaded.0.profiles)
            unless_err objects ambiguous do
              synced ← on_host (H.sync_private_file manifest_path)
              unless_err synced ambiguous do
                opened ← on_host (H.open_private_dir root)
                unless_err opened ambiguous do
                  flushed ← on_host (H.sync root)
                  on_host (H.close root)
                  unless_err flushed ambiguous do store_manifest loaded.0 false; pure [])

  -- `prepareMutationLocked`
  unfoldable pub prepare_mutation : Exec (Store H) Err
  prepare_mutation = if H.read_only then pure (read_only ∷ []) else repair_durability

  -- What `mutate` does behind `change`.
  unfoldable pub commit : Manifest → Exec (Store H) (Result Manifest)
  commit changed =
      let candidate = next_revision changed in
      unless_err (validate_manifest candidate) fail do
        published ← publish_manifest candidate
        unless_err published fail (do m ← snapshot; pure (ok m))

  unfoldable pub committed : Result Manifest → Exec (Store H) (Result Manifest)
  committed (fail e) = pure (fail e)
  committed (ok changed) = commit changed

  -- `mutate`; `change` gets the manifest as it is behind the repair.
  unfoldable pub mutate : (Manifest → Result Manifest) → Exec (Store H) (Result Manifest)
  mutate change = do
    prepared ← prepare_mutation
    unless_err prepared fail do m ← snapshot; committed (change m)

  unfoldable pub found : Option Profile → Exec (Store H) (Result Profile)
  found none = pure (fail (not_found ∷ []))
  found (some p) = do e ← on_host (validate_object H p); unless_err e fail (pure (ok p))

  -- `Resolve`
  unfoldable pub resolve : Text → Exec (Store H) (Result Profile)
  resolve id = do m ← snapshot; found (find_profile m.profiles id)
