-- ===== src/Store/Opening.antt =====
-- internal/profiles/store.go: `OpenStore`.
pub mod Opened
use tunnelfolio.Prelude.{Bool, true, false, not, ◌||◌, List, [], ◌∷◌, ◌++◌, if◌then◌else◌}
use tunnelfolio.Prelude.Text.{Text, codes, is_empty}
use tunnelfolio.Prelude.Int.{ℤ, is_negative}
use tunnelfolio.Prelude.Err.{Err, is_nil, is_err, Result, ok, fail, not_exist, other}
use tunnelfolio.Prelude.Exec.{Exec, ◌>>=◌, ◌>>◌, pure, unless_err}
use tunnelfolio.Profiles.Model.{Manifest, initial_manifest, protocol_openvpn, protocol_wireguard}
use tunnelfolio.Profiles.Manifest.{validate_manifest}
use tunnelfolio.Store.Host.{Host, FilePath, WriteResult}
use tunnelfolio.Store.State.{Store, root, manifest_path}
use tunnelfolio.Store.Removal.{in_turn, id_err, library_dir}
use tunnelfolio.Store.Remnants.{cleanup_remnants}

-- `fmt.Errorf` with `%w`, of an error that may be nil.
abbrev pub wrapped : Err → Err
wrapped [] = other ∷ []
wrapped (e ∷ es) = e ∷ es

module _ (H : Host) where
  -- The library's directories.
  abbrev prepare_library : Exec H.World Err
  prepare_library = in_turn (
      H.ensure_private_dir (codes "library" ∷ [])
      ∷ H.ensure_private_dir (library_dir protocol_openvpn)
      ∷ H.ensure_private_dir (library_dir protocol_wireguard)
      ∷ H.ensure_private_dir (library_dir (codes ".transactions"))
      ∷ H.ensure_private_dir (library_dir (codes ".garbage"))
      ∷ H.ensure_private_dir (library_dir (codes ".executions"))
      ∷ [])

  unfoldable pub created : WriteResult → Result Manifest
  created result =
      if not (is_nil result.err) || not result.durable
      then fail (wrapped result.err)
      else ok initial_manifest

  -- There is no manifest yet.
  unfoldable pub create_manifest : Exec H.World (Result Manifest)
  unfolding created
  create_manifest =
      if H.read_only
      then pure (ok initial_manifest)
      else do result ← H.write_json_atomic initial_manifest; pure (created result)

  -- A manifest was read: it is checked, and made durable.
  unfoldable pub load_manifest : Manifest → Exec H.World (Result Manifest)
  load_manifest m = unless_err (validate_manifest m) fail do
    synced ← H.sync_private_file manifest_path
    unless_err synced fail do
      opened ← H.open_private_dir root
      unless_err opened fail
          do flushed ← H.sync root; H.close root; unless_err flushed fail (pure (ok m))

  unfoldable pub read_manifest : Exec H.World (Result Manifest)
  unfolding create_manifest load_manifest
  read_manifest = do
    loaded ← H.read_json
    if is_nil loaded.1
        then load_manifest loaded.0
        else if is_err loaded.1 not_exist
        then create_manifest
        else pure (fail loaded.1)

  unfoldable pub clean_library : Result Manifest → Exec H.World (Result Manifest)
  unfolding cleanup_remnants
  clean_library (fail e) = pure (fail e)
  clean_library (ok m) =
      if H.read_only
      then pure (ok m)
      else do e ← cleanup_remnants H m; unless_err e fail (pure (ok m))

  -- The lock is closed again behind every failure.
  unfoldable pub unlocked : Result Manifest → Exec H.World (Result Manifest)
  unlocked (fail e) = do H.close_lock; pure (fail e)
  unlocked (ok m) = pure (ok m)

  -- What `OpenStore` does behind the checks of its options.
  unfoldable pub open_library : Exec H.World (Result Manifest)
  unfolding read_manifest clean_library unlocked
  open_library = do
    ensured ← H.ensure_private_dir root
    unless_err ensured fail do
      prepared ← prepare_library
      unless_err prepared fail do
        locked ← H.acquire_lock
        unless_err locked fail
            do loaded ← read_manifest; cleaned ← clean_library loaded; unlocked cleaned

  abbrev store_of : Result Manifest × H.World → Result (Store H)
  store_of (fail e, w) = fail e
  store_of (ok m, w) = ok (record { manifest = m; durability_unknown = false; world = w })

  -- `OpenStore`, with the root and the required owner of its options.
  unfoldable pub open_store : Text → ℤ → H.World → Result (Store H)
  unfolding open_library
  open_store path required_uid w =
      if is_empty path || is_negative required_uid
      then fail (other ∷ [])
      else store_of (open_library w)
