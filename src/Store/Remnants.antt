-- ===== src/Store/Remnants.antt =====
-- internal/profiles/store.go: `cleanupRemnants`, which empties the directories of unfinished work and
-- removes the objects that no profile refers to.
pub mod Spared
use tunnelfolio.Prelude.{
  Bool, true, false, not, ◌&&◌, ◌||◌, Option, none, some, List, [], ◌∷◌, ◌++◌, if◌then◌else◌,
}
use tunnelfolio.Prelude.Text.{Text, codes, eq_text, contains}
use tunnelfolio.Prelude.Err.{Err, is_nil, other}
use tunnelfolio.Prelude.Exec.{Exec, ◌>>=◌, ◌>>◌, pure, unless_err}
use tunnelfolio.Policy.{Checked, pass, reject, max_profile_bytes}
use tunnelfolio.Profiles.Model.{
  Profile, Manifest, protocol_openvpn, protocol_wireguard, id_pattern, identifier_pattern,
}
use tunnelfolio.Profiles.Import.{validate_imported_profile}
use tunnelfolio.Store.Host.{Host, FilePath, Entry}
use tunnelfolio.Store.Removal.{in_turn, both, id_err, library_dir}

abbrev pub garbage_dir : FilePath
garbage_dir = library_dir (codes ".garbage")

-- `profile.Protocol+"/"+profile.ID`
abbrev pub reference : Text → Text → Text
reference protocol id = protocol ++ (codes "/" ++ id)

-- The set `referenced`.
unfoldable pub references : List Profile → List Text
references [] = []
references (p ∷ ps) = reference p.protocol p.id ∷ references ps

-- `strings.TrimSuffix` of a text that has the suffix.
unfoldable pub cut_end : Text → Text → Option Text
cut_end [] suffix = if eq_text [] suffix then some [] else none
cut_end (c ∷ cs) suffix =
    let rest = cut_end cs suffix in
    if eq_text (c ∷ cs) suffix
    then some []
    else elim rest [ none ↦ none | some front ↦ some (c ∷ front) ]

abbrev is_identifier : Option Text → Bool
is_identifier none = false
is_identifier (some front) = identifier_pattern front

-- The name is the one that the object's file has.
unfoldable pub is_object_name : Text → Text → Bool
unfolding cut_end
is_object_name protocol name = not (
    eq_text protocol protocol_openvpn && not (eq_text name (codes "profile.ovpn"))
    || eq_text protocol protocol_wireguard && not (is_identifier (cut_end name (codes ".conf"))))

-- The name of the only entry, if it is a regular file.
abbrev only_file : List Entry → Option Text
only_file (entry ∷ []) = if entry.is_regular then some entry.name else none
only_file _ = none

module _ (H : Host) where
  unfoldable pub remove_entries : FilePath → List Entry → Exec H.World Err
  remove_entries dir [] = pure []
  remove_entries dir (entry ∷ entries) = if not entry.is_dir then pure (other ∷ []) else do
    e ← H.remove_tree_at dir entry.name
    elim (is_nil e) [ true ↦ remove_entries dir entries | false ↦ pure e ]

  -- The body of the first loop.
  unfoldable pub empty_special : Text → Exec H.World Err
  unfolding remove_entries
  empty_special special = do
    opened ← H.open_private_dir (library_dir special)
    unless_err opened id_err do
      listed ← H.read_dir (library_dir special)
      removed ← unless_err listed.1 id_err (remove_entries (library_dir special) listed.0)
      e ← unless_err removed id_err (H.sync (library_dir special))
      H.close (library_dir special)
      pure e

  -- Both directories are open.
  unfoldable pub move_to_garbage : Text → Text → Exec H.World Err
  unfolding in_turn
  move_to_garbage protocol id = do
    opened ← H.open_private_dir garbage_dir
    unless_err opened id_err do
      let name = protocol ++ (codes "-" ++ id)
      e ← in_turn (
          H.rename_no_replace (library_dir protocol) id garbage_dir name
          ∷ both (H.sync (library_dir protocol)) (H.sync garbage_dir)
          ∷ H.remove_tree_at garbage_dir name
          ∷ H.sync garbage_dir
          ∷ [])
      H.close garbage_dir
      pure e

  unfoldable pub read_named : FilePath → Text → Option Text → Exec H.World (Text × Err)
  unfolding is_object_name
  read_named dir protocol none = pure ([], other ∷ [])
  read_named dir protocol (some name) =
      if is_object_name protocol name
      then H.read_file_at dir name max_profile_bytes
      else pure ([], other ∷ [])

  unfoldable pub read_unreferenced : FilePath → Text → Exec H.World (Text × Err)
  unfolding read_named
  read_unreferenced dir protocol = do
    listed ← H.read_dir dir
    unless_err listed.1 (λ e. ([], e)) (read_named dir protocol (only_file listed.0))

  unfoldable pub move_accepted : Text → Text → Checked Text → Exec H.World Err
  unfolding move_to_garbage
  move_accepted protocol id (reject _ _) = pure (other ∷ [])
  move_accepted protocol id (pass _) = move_to_garbage protocol id

  -- The directory of the protocol is open.
  unfoldable pub quarantine_opened : Text → Text → Exec H.World Err
  unfolding read_unreferenced move_accepted
  quarantine_opened protocol id = do
    opened ← H.open_dir_at (library_dir protocol) id
    unless_err opened id_err do
      file ← read_unreferenced (library_dir protocol ++ id ∷ []) protocol
      H.close (library_dir protocol ++ id ∷ [])
      unless_err file.1 id_err
          (move_accepted protocol id (validate_imported_profile H.platform protocol file.0))

  -- `quarantineUnreferenced`
  unfoldable pub quarantine_unreferenced : Text → Text → Exec H.World Err
  unfolding quarantine_opened
  quarantine_unreferenced protocol id = do
    opened ← H.open_private_dir (library_dir protocol)
    unless_err opened id_err
        do e ← quarantine_opened protocol id; H.close (library_dir protocol); pure e

  -- The inner loop over the entries of a protocol's directory.
  unfoldable pub sweep : List Text → Text → List Entry → Exec H.World Err
  unfolding quarantine_unreferenced
  sweep referenced protocol [] = pure []
  sweep referenced protocol (entry ∷ entries) =
      let rest = sweep referenced protocol entries in
      if contains referenced (reference protocol entry.name)
      then rest
      else if not entry.is_dir || not (id_pattern entry.name)
      then pure (other ∷ [])
      else do
        e ← quarantine_unreferenced protocol entry.name
        elim (is_nil e) [ true ↦ rest | false ↦ pure e ]

  -- The body of the second loop.
  unfoldable pub sweep_protocol : List Text → Text → Exec H.World Err
  unfolding sweep
  sweep_protocol referenced protocol = do
    opened ← H.open_private_dir (library_dir protocol)
    unless_err opened id_err do
      listed ← H.read_dir (library_dir protocol)
      H.close (library_dir protocol)
      unless_err listed.1 id_err (sweep referenced protocol listed.0)

  -- `cleanupRemnants`
  unfoldable pub cleanup_remnants : Manifest → Exec H.World Err
  unfolding empty_special sweep_protocol references in_turn
  cleanup_remnants m = in_turn (
      empty_special (codes ".transactions")
      ∷ empty_special (codes ".garbage")
      ∷ empty_special (codes ".executions")
      ∷ sweep_protocol (references m.profiles) protocol_openvpn
      ∷ sweep_protocol (references m.profiles) protocol_wireguard
      ∷ [])
