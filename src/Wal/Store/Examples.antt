-- ===== src/Wal/Store/Examples.antt =====
-- The theorems on the store at a file system on which every call succeeds; the disk is the list of
-- the buffers written, newest first.
use lug.Prelude.{err, ℕ, ◌≡◌, refl, true, Option, none, some, List, [], ◌∷◌, arith, ok}
use lug.Core.Storage.{Record}
use lug.Wal.Files.{Files}
use lug.Wal.Store.{Error, cleanup_failed, poisoned, Store}
use lug.Wal.Store.Poisoning.{append_poisoned}
use lug.Wal.Store.Recover.{Header}
use lug.Wal.Store.Serve.{append, write_header}
use lug.Wal.Store.Keeps.{Ensures}
use lug.Wal.Store.Sequence.{IsLog, newest}
use lug.Wal.Store.Batch.{Batch}
use lug.Wal.Store.Checkpoint.{append-IsLog, write_header-IsLog}

abbrev Disk : Type 0
Disk = List (List ℕ)

abbrev good_files : Files Disk ℕ
good_files = record {
  try_lock_dir = λ d. (d, ok true);
  read_dir = λ d. ok [];
  read = λ d path. ok none;
  open_rw = λ d path. (d, ok tt);
  set_len = λ d path len. (d, ok tt);
  preallocate = λ d path len. (d, ok tt);
  pwritev_all = λ d path bytes offset. (bytes ∷ d, ok tt);
  zero_range = λ d path offset len. (d, ok tt);
  fdatasync = λ d path. (d, ok tt);
  fsync = λ d path. (d, ok tt);
  sync_dir = λ d. (d, ok tt);
  remove_file = λ d path. (d, ok tt);
  write_new = λ d path bytes. (bytes ∷ d, ok tt);
  rename_at = λ d from to. (d, ok tt);
}

abbrev no_crc : List ℕ → ℕ
no_crc bytes = 0

-- A view is its version.
abbrev no_header : List ℕ → Option (Header ℕ)
no_header bytes = none

abbrev one_byte : Header ℕ → Option (List ℕ)
one_byte header = some (header.version ∷ [])

abbrev own_version : ℕ → ℕ
own_version v = v

abbrev fresh : Store Disk
fresh = record {
  disk = [];
  segments = [];
  active = none;
  capacity = 0;
  header_version = 4;
  rotate_bytes = 64;
  recovered = true;
  poison = none;
}

fresh-IsLog : IsLog fresh
fresh-IsLog = record {
  base = 4;
  base_le = omega arith;
  follows = tt;
  header_le = omega arith;
  small = omega arith;
}

abbrev two_records : List (Record (List ℕ))
two_records =
    record { version = 5; patch = 1 ∷ [] } ∷ record { version = 6; patch = 2 ∷ 3 ∷ [] } ∷ []

append-IsLog_example :
    Ensures {F = Error ℕ}
      (λ s'. IsLog s' × (newest s' ≡ 6) × Batch 5 two_records)
      (λ s'. IsLog s' × (newest s' ≡ 4))
      (append good_files no_crc no_header one_byte own_version 0 fresh two_records)
append-IsLog_example =
    append-IsLog good_files no_crc no_header one_byte own_version 0 fresh two_records fresh-IsLog
      refl

write_header-IsLog_example :
    Ensures {F = Error ℕ}
      (λ s'. IsLog s' × (newest s' ≡ 4) × (s'.header_version ≡ 4))
      (λ s'. IsLog s' × (newest s' ≡ 4))
      (write_header good_files no_crc no_header one_byte own_version 0 fresh 4)
write_header-IsLog_example =
    write_header-IsLog good_files no_crc no_header one_byte own_version 0 fresh 4 fresh-IsLog
      (omega arith) (omega arith)

-- Every write fails, and so does the zeroing after it.
abbrev bad_files : Files Disk ℕ
bad_files = record good_files {
  pwritev_all = λ d path bytes offset. (d, err 5);
  zero_range = λ d path offset len. (d, err 28);
}

abbrev with_segment : Store Disk
with_segment = record fresh {
  segments = record { first = 5; path = 53 ∷ []; end = 16; last = 4 } ∷ [];
  active = some (53 ∷ []);
  capacity = 64;
}

abbrev marked : Store Disk
marked = record with_segment { poison = some (record { path = 53 ∷ []; offset = 16 }) }

append-bad_files :
    append bad_files no_crc no_header one_byte own_version 0 with_segment two_records
    ≡ (marked, err (cleanup_failed (53 ∷ []) 16))
unfolding append
append-bad_files = refl

append_poisoned_example :
    append bad_files no_crc no_header one_byte own_version 0 marked two_records
    ≡ (marked, err (poisoned (53 ∷ []) 16))
append_poisoned_example =
    append_poisoned bad_files no_crc no_header one_byte own_version 0 with_segment marked
      two_records (53 ∷ []) 16 refl append-bad_files (record { version = 5; patch = 1 ∷ [] })
      (record { version = 6; patch = 2 ∷ 3 ∷ [] } ∷ [])
