-- ===== src/Server/Memory.antt =====
-- crates/lug-server/src/storage.rs: `Memory`, the storage that keeps the last `retain` records.
use lug.Prelude.{
  ℕ, ◌+◌, ◌%◌, Option, none, some, List, [], ◌∷◌, ◌++◌, length, take, ltb, ◌==◌, if◌then◌else◌, max,
  u64_mod, ok,
}
use lug.Core.Storage.{Record, Recovered, Storage}

pub record Memory (V B : Type 0) : Type 0 where
  pub records : List (Record B)
  pub header : Option V
  pub retain : ℕ
  pub oldest : ℕ

-- The filter of `load` and of `read_after`.
unfoldable pub above : {B : Type 0} → ℕ → List (Record B) → List (Record B)
above after [] = []
above after (rec ∷ records) =
    let rest = above after records in if ltb after rec.version then rec ∷ rest else rest

module _ {V B : Type 0} where
  unfoldable pub new : ℕ → Memory V B
  new retain = record { records = []; header = none; retain = max retain 1; oldest = 1 }

  -- `pop_front`, and the version that it leaves in `oldest`.
  unfoldable pub evict : Memory V B → Memory V B
  evict m = elim m.records [
    | [] ↦ m
    | dropped ∷ rest ↦ record m { records = rest; oldest = (dropped.version + 1) % u64_mod }
  ]

  -- One round of the loop of `append`.
  unfoldable pub append_one : Memory V B → Record B → Memory V B
  unfolding evict
  append_one m rec =
      let m' = if length m.records == m.retain then evict m else m in
      record m' { records = m'.records ++ rec ∷ [] }

  unfoldable pub append : Memory V B → List (Record B) → Memory V B
  unfolding append_one
  append m [] = m
  append m (rec ∷ records) = append (append_one m rec) records

  unfoldable pub load : (V → ℕ) → Memory V B → Recovered V B
  unfolding above
  load view_version m =
      let after : ℕ = elim m.header [ none ↦ 0 | some view ↦ view_version view ] in
      record { header = m.header; tail = above after m.records }

  unfoldable pub read_after : Memory V B → ℕ → ℕ → List (Record B)
  unfolding above
  read_after m after limit = take limit (above after m.records)

  unfoldable pub oldest_version : Memory V B → ℕ
  oldest_version m = elim m.records [ [] ↦ m.oldest | rec ∷ records ↦ rec.version ]

  -- The implementation of `Storage`: no method fails.
  abbrev pub memory_storage : {F : Type 0} → (V → ℕ) → Storage (Memory V B) V B F
  memory_storage view_version = record {
    append = λ m records. (append m records, ok tt);
    write_header = λ m view. (record m { header = some view }, ok tt);
    sync = λ m. (m, ok tt);
    load = λ m. (m, ok (load view_version m));
    read_after = λ m after limit. ok (read_after m after limit);
    oldest = oldest_version;
  }
