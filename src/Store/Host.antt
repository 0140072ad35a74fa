-- ===== src/Store/Host.antt =====
-- The store's interface to the machine: the calls of internal/securefs, the random source, the clock
-- and the checkpoint hook. Paths are the components below the store's root. Nothing is assumed of
-- these calls; a theorem that needs a law of them names it.
use tunnelfolio.Prelude.{ℕ, String, Bool, List}
use tunnelfolio.Prelude.Text.{Text}
use tunnelfolio.Prelude.Err.{Err}
use tunnelfolio.Prelude.Exec.{Exec}
use tunnelfolio.Prelude.Platform.{Platform}
use tunnelfolio.Profiles.Model.{Manifest}

abbrev pub FilePath : Type 0
FilePath = List Text

-- `securefs.WriteResult` with the error beside it.
pub record WriteResult : Type 0 where
  pub published : Bool
  pub durable : Bool
  pub err : Err

-- An entry of a directory: its name, and whether it is a directory or a regular file.
pub record Entry : Type 0 where
  pub name : Text
  pub is_dir : Bool
  pub is_regular : Bool

pub record Host : Type 1 where
  pub World : Type 0
  pub platform : Platform
  -- `StoreOptions.ReadOnly`
  pub read_only : Bool
  pub ensure_private_dir : FilePath → Exec World Err
  pub acquire_lock : Exec World Err
  pub close_lock : Exec World Err
  pub open_private_dir : FilePath → Exec World Err
  pub open_dir_at : FilePath → Text → Exec World Err
  pub close : FilePath → Exec World Err
  pub sync : FilePath → Exec World Err
  pub sync_private_file : FilePath → Exec World Err
  pub read_dir : FilePath → Exec World (List Entry × Err)
  pub read_file_at : FilePath → Text → ℕ → Exec World (Text × Err)
  pub mkdir_exclusive : FilePath → Text → Exec World Err
  pub write_exclusive : FilePath → Text → Text → Exec World Err
  pub rename_no_replace : FilePath → Text → FilePath → Text → Exec World Err
  pub remove_tree_at : FilePath → Text → Exec World Err
  pub read_json : Exec World (Manifest × Err)
  pub write_json_atomic : Manifest → Exec World WriteResult
  -- 16 bytes of `io.ReadFull(reader)`.
  pub random : Exec World (Text × Err)
  -- `Checkpoint`, which answers nil where no hook is set.
  pub checkpoint : String → Exec World Err
