-- ===== src/Wal/Files.antt =====
-- The file system, as crates/lug-wal calls it: by std::fs and by crates/lug-wal/src/sys.rs, whose
-- functions are thin calls into rustix. A handle is the name of its file in the directory of the log.
-- The interface has no laws: every call may succeed or fail, and change the disk either way.
use lug.Prelude.{ℕ, Bool, Option, List, Result}

pub record Files (D E : Type 0) : Type 0 where
  pub try_lock_dir : D → D × Result E Bool
  -- The names of the directory's entries.
  pub read_dir : D → Result E (List (List ℕ))
  -- `None` where there is no such file.
  pub read : D → List ℕ → Result E (Option (List ℕ))
  pub open_rw : D → List ℕ → D × Result E (Unit {0})
  pub set_len : D → List ℕ → ℕ → D × Result E (Unit {0})
  pub preallocate : D → List ℕ → ℕ → D × Result E (Unit {0})
  pub pwritev_all : D → List ℕ → List ℕ → ℕ → D × Result E (Unit {0})
  pub zero_range : D → List ℕ → ℕ → ℕ → D × Result E (Unit {0})
  pub fdatasync : D → List ℕ → D × Result E (Unit {0})
  pub fsync : D → List ℕ → D × Result E (Unit {0})
  pub sync_dir : D → D × Result E (Unit {0})
  pub remove_file : D → List ℕ → D × Result E (Unit {0})
  -- `File::create` and `write_all`.
  pub write_new : D → List ℕ → List ℕ → D × Result E (Unit {0})
  pub rename_at : D → List ℕ → List ℕ → D × Result E (Unit {0})
