-- ===== src/Store/Staging.antt =====
-- internal/profiles/store.go: the files that `Publish` writes inside a transaction directory and moves to
-- their places in the library.
use tunnelfolio.Prelude.{String, not, ◌||◌, List, [], ◌∷◌, ◌++◌, map, if◌then◌else◌}
use tunnelfolio.Prelude.Text.{Text, codes}
use tunnelfolio.Prelude.Err.{Err, is_nil, is_err, exists}
use tunnelfolio.Prelude.Exec.{Exec, ◌>>=◌, pure, unless_err}
use tunnelfolio.Profiles.Model.{Profile}
use tunnelfolio.Store.Host.{Host, FilePath}
use tunnelfolio.Store.Objects.{object_filename, validate_object}
use tunnelfolio.Store.Removal.{in_turn, id_err, library_dir}

pub record NewObject : Type 0 where
  pub profile : Profile
  pub bytes : Text

abbrev pub transactions_dir : FilePath
transactions_dir = library_dir (codes ".transactions")

abbrev pub transaction_dir : Text → FilePath
transaction_dir name = transactions_dir ++ name ∷ []

module _ (H : Host) where
  -- `closeBoundary`, with the names of its two checkpoints.
  unfoldable pub close_boundary : String → String → FilePath → Exec H.World Err
  close_boundary before after path = do
    b ← H.checkpoint before
    c ← H.close path
    if not (is_nil b) || not (is_nil c) then pure (b ++ c) else H.checkpoint after

  -- A directory is left behind a failed checkpoint.
  abbrev pub leave : FilePath → Err → Exec H.World Err
  leave path e = do closed ← H.close path; pure (e ++ closed)

  -- The directory of the object is there and open.
  abbrev fill_object : FilePath → NewObject → Exec H.World Err
  fill_object path o = do
    written ← in_turn (
        H.checkpoint "before_object_write"
        ∷ H.write_exclusive path (object_filename o.profile) o.bytes
        ∷ H.checkpoint "after_object_write"
        ∷ H.checkpoint "before_object_sync"
        ∷ H.sync path
        ∷ H.checkpoint "after_object_sync"
        ∷ [])
    closed ← close_boundary "before_object_close" "after_object_close" path
    pure (written ++ closed)

  -- The body of the first loop: the object is written inside the transaction.
  unfoldable pub stage_object : FilePath → NewObject → Exec H.World Err
  unfolding close_boundary in_turn
  stage_object transaction o = do
    made ← in_turn (
        H.checkpoint "before_object_stage"
        ∷ H.checkpoint "before_object_create"
        ∷ H.mkdir_exclusive transaction o.profile.id
        ∷ [])
    unless_err made id_err do
      e ← H.checkpoint "after_object_create"
      if not (is_nil e)
          then leave (transaction ++ o.profile.id ∷ []) e
          else fill_object (transaction ++ o.profile.id ∷ []) o

  -- The destination is open. An object that is there already passes if it is the profile's.
  abbrev move_object : FilePath → FilePath → NewObject → Exec H.World Err
  move_object transaction destination o = do
    renamed ← in_turn (
        H.checkpoint "before_object_publish"
        ∷ H.rename_no_replace transaction o.profile.id destination o.profile.id
        ∷ [])
    moved ← if is_err renamed exists then validate_object H o.profile else pure renamed
    synced ← unless_err moved id_err (
        in_turn (
          H.checkpoint "after_object_publish"
          ∷ H.checkpoint "before_object_parent_sync"
          ∷ H.sync destination
          ∷ H.checkpoint "after_object_parent_sync"
          ∷ []))
    closed ← close_boundary "before_destination_close" "after_destination_close" destination
    pure (synced ++ closed)

  -- The body of the second loop: the object is moved to its place.
  unfoldable pub publish_object : FilePath → NewObject → Exec H.World Err
  unfolding close_boundary in_turn
  publish_object transaction o = do
    opened ← in_turn (
        H.checkpoint "before_destination_open"
        ∷ H.open_private_dir (library_dir o.profile.protocol)
        ∷ [])
    unless_err opened id_err do
      e ← H.checkpoint "after_destination_open"
      if not (is_nil e)
          then leave (library_dir o.profile.protocol) e
          else move_object transaction (library_dir o.profile.protocol) o

  -- Between the creation of the transaction and the publication of the manifest.
  unfoldable pub publish_files : FilePath → List NewObject → Exec H.World Err
  unfolding stage_object publish_object in_turn
  publish_files transaction objects = in_turn (
      H.checkpoint "after_transaction_create"
      ∷ in_turn (map (stage_object transaction) objects)
      ∷ H.checkpoint "before_transaction_sync"
      ∷ H.sync transaction
      ∷ H.checkpoint "after_transaction_sync"
      ∷ in_turn (map (publish_object transaction) objects)
      ∷ [])

  -- The transaction is closed: it is removed, and the directory of transactions synced and closed.
  unfoldable pub clean_transaction : Text → Exec H.World Err
  unfolding close_boundary in_turn
  clean_transaction name = do
    e ← in_turn (
        H.checkpoint "before_transaction_remove"
        ∷ H.remove_tree_at transactions_dir name
        ∷ H.checkpoint "after_transaction_remove"
        ∷ H.checkpoint "before_transactions_sync"
        ∷ H.sync transactions_dir
        ∷ H.checkpoint "after_transactions_sync"
        ∷ [])
    if is_nil e
        then close_boundary "before_transactions_close" "after_transactions_close" transactions_dir
        else leave transactions_dir e
