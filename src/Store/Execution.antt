-- ===== src/Store/Execution.antt =====
-- internal/profiles/store.go: `PrepareExecution`, which makes the private copy that a tunnel runs
-- from, and the clean-up that it returns. The closure's flag `cleaned` is not modelled: the manager
-- keeps a clean-up only until it has succeeded once.
pub mod Removed
pub mod Definite
use tunnelfolio.Prelude.{
  Bool, true, false, not, ◌||◌, Option, none, some, [], ◌∷◌, ◌++◌, if◌then◌else◌,
}
use tunnelfolio.Prelude.Lists.{drop}
use tunnelfolio.Prelude.Text.{Text, codes}
use tunnelfolio.Prelude.Err.{Err, is_nil, is_err, Result, ok, fail, not_found, not_exist, read_only}
use tunnelfolio.Prelude.Exec.{Exec, ◌>>=◌, ◌>>◌, pure, unless_err}
use tunnelfolio.Profiles.Model.{Profile, find_profile}
use tunnelfolio.Profiles.Id.{generated_id}
use tunnelfolio.Store.Host.{Host, FilePath}
use tunnelfolio.Store.Objects.{read_validated_object, object_filename}
use tunnelfolio.Store.State.{Store, on_host, snapshot}
use tunnelfolio.Store.Removal.{in_turn, id_err, library_dir}

-- The copy: the profile it was made of, its path, and the directory that its clean-up removes.
pub record ExecutionCopy : Type 0 where
  pub profile : Profile
  pub path : FilePath
  pub directory : Text

abbrev pub executions_dir : FilePath
executions_dir = library_dir (codes ".executions")

module _ (H : Host) where
  -- `randomName`: the prefix and the generated ID without its own.
  abbrev pub random_name : Text → Exec H.World (Text × Err)
  random_name prefix = do raw ← H.random; pure (prefix ++ drop 3 (generated_id raw.0), raw.1)

  -- `cleanup`
  unfoldable pub cleanup_copy : ExecutionCopy → Exec H.World Err
  cleanup_copy c = do
    opened ← H.open_private_dir executions_dir
    unless_err opened id_err do
      removed ← H.remove_tree_at executions_dir c.directory
      e ← if is_nil removed || is_err removed not_exist then H.sync executions_dir else pure removed
      closed ← H.close executions_dir
      pure (e ++ closed)

  -- `removeIncomplete`, and the two paths that leave out the directory's close.
  abbrev drop_incomplete : Bool → FilePath → Text → Err → Exec H.World Err
  drop_incomplete open_ path name e = do
    if open_ then H.close path else pure []
    H.remove_tree_at executions_dir name
    H.close executions_dir
    pure e

  -- The directory is there: the file is written and both directories are synced.
  abbrev pub fill : FilePath → Text → Text → Text → Exec H.World Err
  fill path name filename bytes = do
    written ← in_turn (H.write_exclusive path filename bytes ∷ H.sync path ∷ [])
    if not (is_nil written) then drop_incomplete true path name written else do
      closed ← in_turn (H.close path ∷ H.sync executions_dir ∷ [])
      if not (is_nil closed) then drop_incomplete false path name closed else H.close executions_dir

  abbrev copy_of : Profile → Text → ExecutionCopy
  copy_of p name = record {
    profile = p;
    path = executions_dir ++ name ∷ object_filename p ∷ [];
    directory = name;
  }

  unfoldable pub make_copy : Profile → Exec H.World (Result ExecutionCopy)
  make_copy p = do
    object ← read_validated_object H p
    unless_err object.1 fail do
      name ← random_name (codes "exec-")
      unless_err name.1 fail do
        opened ← H.open_private_dir executions_dir
        unless_err opened fail do
          made ← H.mkdir_exclusive executions_dir name.0
          if not (is_nil made) then (do H.close executions_dir; pure (fail made)) else do
            filled ← fill (executions_dir ++ name.0 ∷ []) name.0 (object_filename p) object.0
            unless_err filled fail (pure (ok (copy_of p name.0)))

  unfoldable pub copy_found : Option Profile → Exec (Store H) (Result ExecutionCopy)
  copy_found none = pure (fail (not_found ∷ []))
  copy_found (some p) = on_host H (make_copy p)

  -- `PrepareExecution`
  unfoldable pub prepare_execution : Text → Exec (Store H) (Result ExecutionCopy)
  prepare_execution id =
      if H.read_only
      then pure (fail (read_only ∷ []))
      else do m ← snapshot H; copy_found (find_profile m.profiles id)
