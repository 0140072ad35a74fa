-- ===== src/Store/Objects.antt =====
-- internal/profiles/store.go: the object of a saved profile, which is one file in a directory of its
-- own, and the checks that it passes before it is used.
use tunnelfolio.Prelude.{Bool, true, false, not, List, [], ◌∷◌, ◌++◌, if◌then◌else◌}
use tunnelfolio.Prelude.Text.{Text, codes, eq_text}
use tunnelfolio.Prelude.Err.{Err, is_nil, other}
use tunnelfolio.Prelude.Exec.{Exec, ◌>>=◌, ◌>>◌, pure, unless_err}
use tunnelfolio.Policy.{Checked, pass, reject, max_profile_bytes}
use tunnelfolio.Profiles.Model.{Profile, protocol_wireguard}
use tunnelfolio.Profiles.Import.{validate_imported_profile}
use tunnelfolio.Store.Host.{Host, FilePath, Entry}

-- `objectFilename`
unfoldable pub object_filename : Profile → Text
object_filename p =
    if eq_text p.protocol protocol_wireguard
    then p.identifier ++ codes ".conf"
    else codes "profile.ovpn"

-- `filepath.Dir(s.ObjectPath(profile))`
abbrev pub object_dir : Profile → FilePath
object_dir p = codes "library" ∷ p.protocol ∷ p.id ∷ []

-- `ObjectPath`
unfoldable pub object_path : Profile → FilePath
unfolding object_filename
object_path p = codes "library" ∷ p.protocol ∷ p.id ∷ object_filename p ∷ []

-- `len(entries) != 1 || entries[0].Name() != objectFilename(profile)`
abbrev is_only_entry : List Entry → Text → Bool
is_only_entry (entry ∷ []) name = eq_text entry.name name
is_only_entry _ name = false

abbrev failed : Err → Text × Err
failed e = ([], e)

-- The fingerprint, the policy and the identity of the bytes that were read.
abbrev checked_identity : Profile → Text → Checked Text → Text × Err
checked_identity p bytes (reject _ _) = failed (other ∷ [])
checked_identity p bytes (pass identity) =
    if eq_text identity p.wireguard_public_key_sha256 then (bytes, []) else failed (other ∷ [])

module _ (H : Host) where
  unfoldable pub check_object : Profile → Text → Text × Err
  check_object p bytes =
      if eq_text (H.platform.sha256_hex bytes) p.content_sha256
      then checked_identity p bytes (validate_imported_profile H.platform p.protocol bytes)
      else failed (other ∷ [])

  -- `readValidatedObject`; the deferred close ends every path behind the open.
  unfoldable pub read_validated_object : Profile → Exec H.World (Text × Err)
  unfolding check_object
  read_validated_object p = do
    opened ← H.open_private_dir (object_dir p)
    unless_err opened failed do
      listed ← H.read_dir (object_dir p)
      result ←
          if not (is_nil listed.1)
          then pure (failed listed.1)
          else if not (is_only_entry listed.0 (object_filename p))
          then pure (failed (other ∷ []))
          else do
            file ← H.read_file_at (object_dir p) (object_filename p) max_profile_bytes
            unless_err file.1 failed (pure (check_object p file.0))
      H.close (object_dir p)
      pure result

  -- `validateObject`
  unfoldable pub validate_object : Profile → Exec H.World Err
  unfolding read_validated_object
  validate_object p = do object ← read_validated_object p; pure object.1

  -- `validateReferencedObjects`
  unfoldable pub validate_referenced_objects : List Profile → Exec H.World Err
  validate_referenced_objects [] = pure []
  validate_referenced_objects (p ∷ ps) = do
    e ← validate_object p
    elim (is_nil e) [ true ↦ validate_referenced_objects ps | false ↦ pure e ]
