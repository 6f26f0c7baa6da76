-- ===== src/Cavlc/Store.antt =====
-- crates/cavlc/src/mvcc.rs: snapshots, batches and the store. `owner`, an `Arc` compared by its
-- address, is a number that is another one for each store. The vector of snapshots is never empty:
-- `first` and `rest` are its parts.
pub mod History
pub mod Replay
pub mod Versions
pub mod Truncation
use lug.Prelude.{
  ℕ, ◌+◌, ◌-◌, Bool, true, false, ◌||◌, Option, none, some, List, [], ◌∷◌, ◌++◌, length, take, drop,
  get_elem?, last_or, is_empty, ltb, leb, ◌==◌, if◌then◌else◌, Result, ok, err, ok_or, ◌>>=◌,
  checked_suc,
}
use lug.Prelude.Ord.{Ord, Eq}
use lug.Cavlc.Error.{
  Error, invalid_patch, empty_batch, identity_patch, conflict, foreign_batch, root_must_be_object,
  invalid_version, version_overflow,
}
use lug.Cavlc.Value.{Value, object, leaf}
use lug.Cavlc.Patch.{Patch, is_object, apply}

pub record Snapshot {ℓ} (K : Type ℓ) (A : Type ℓ) : Type ℓ where
  pub version : ℕ
  pub root : Value K A

pub record Commit {ℓ} (K : Type ℓ) (A : Type ℓ) : Type ℓ where
  pub version : ℕ
  pub patches : List (Patch K A)

pub record ApplyResult {ℓ} (K : Type ℓ) (A : Type ℓ) : Type ℓ where
  pub snapshot : Snapshot K A
  pub minted : Option (Commit K A)

pub record Batch {ℓ} (K : Type ℓ) (A : Type ℓ) : Type ℓ where
  pub owner : ℕ
  pub base : Snapshot K A
  pub working : Value K A
  pub patches : List (Patch K A)

pub record Store {ℓ} (K : Type ℓ) (A : Type ℓ) : Type ℓ where
  pub owner : ℕ
  pub base : ℕ
  pub first : Snapshot K A
  pub rest : List (Snapshot K A)
  pub log : List (Commit K A)

module _ {ℓ} {K : Type ℓ} {A : Type ℓ} where
  -- `Snapshot::new`.
  unfoldable pub import_snapshot : ℕ → Value K A → Result (Error K) (Snapshot K A)
  import_snapshot version root =
      if is_object root
      then ok (record { version = version; root = root })
      else err root_must_be_object

  unfoldable pub from_value : ℕ → Value K A → Result (Error K) (Store K A)
  from_value owner root =
      if is_object root
      then ok (record {
        owner = owner;
        base = 0;
        first = record { version = 0; root = root };
        rest = [];
        log = [];
      })
      else err root_must_be_object

  abbrev pub snapshots : Store K A → List (Snapshot K A)
  snapshots s = s.first ∷ s.rest

  abbrev pub snapshot : Store K A → Snapshot K A
  snapshot s = last_or s.first s.rest

  unfoldable pub snapshot_at : Store K A → ℕ → Option (Snapshot K A)
  snapshot_at s version =
      if ltb version s.base then none else get_elem? (snapshots s) (version - s.base)

  unfoldable pub patches_between : Store K A → ℕ → ℕ → Option (List (Commit K A))
  patches_between s after through =
      if ltb through after || ltb after s.base
      then none
      else let start = after - s.base in
        let stop = through - s.base in
        if ltb (length s.log) stop then none else some (take (stop - start) (drop start s.log))

  -- `keep + 1` overflows at version 2 ^ 64 - 1 of a store with base 0, where the code panics or is left
  -- without a snapshot, so that the next read of it panics; here such a store stays as it was.
  unfoldable pub truncate : Store K A → ℕ → Store K A
  truncate s version =
      if ltb version s.base
      then s
      else let keep = version - s.base in
        if leb (length (snapshots s)) (keep + 1)
        then s
        else record s { rest = take keep s.rest; log = take keep s.log }

  unfoldable pub resume : ℕ → Snapshot K A → Store K A
  resume owner snapshot = record {
    owner = owner;
    base = snapshot.version;
    first = snapshot;
    rest = [];
    log = [];
  }

  unfoldable pub begin_batch : Store K A → Batch K A
  begin_batch s = record {
    owner = s.owner;
    base = snapshot s;
    working = (snapshot s).root;
    patches = [];
  }

  -- The store after `log.push` and `snapshots.push`.
  abbrev pub publish : Store K A → Batch K A → ℕ → Store K A × ApplyResult K A
  publish s b version =
      let commit : Commit K A = record { version = version; patches = b.patches } in
      let next : Snapshot K A = record { version = version; root = b.working } in
      (
        record s { rest = s.rest ++ next ∷ []; log = s.log ++ commit ∷ [] },
        record { snapshot = next; minted = some commit },
      )

  unfoldable pub apply_batch :
      Store K A → Batch K A → Result (Error K) (Store K A × ApplyResult K A)
  apply_batch s b =
      if s.owner == b.owner
      then (if (snapshot s).version == b.base.version
          then (if is_empty b.patches
              then ok (s, record { snapshot = snapshot s; minted = none })
              else ok_or (checked_suc (snapshot s).version) version_overflow >>= λ version.
                  ok (publish s b version))
          else err (conflict b.base.version (snapshot s).version))
      else err foreign_batch

module _ {ℓ} {K : Type ℓ} {A : Type ℓ} ⦃o : Ord K⦄ ⦃e : Eq A⦄ where
  -- `Batch::apply`.
  unfoldable pub batch_apply : Batch K A → Patch K A → Result (Error K) (Batch K A)
  batch_apply b p = apply p b.working >>= λ next.
      ok (if next.1 then b else record b { working = next.0; patches = b.patches ++ p ∷ [] })

  unfoldable pub store_apply :
      Store K A → Patch K A → Result (Error K) (Store K A × ApplyResult K A)
  unfolding begin_batch batch_apply apply_batch
  store_apply s p = batch_apply (begin_batch s) p >>= λ b. apply_batch s b

  -- The inner loop of `replay`: a patch that changes nothing is refused.
  unfoldable pub replay_patches : Batch K A → List (Patch K A) → Result (Error K) (Batch K A)
  unfolding batch_apply
  replay_patches b [] = ok b
  replay_patches b (p ∷ ps) = batch_apply b p >>= λ b'.
      if length b'.patches == length b.patches
      then err (invalid_patch identity_patch)
      else replay_patches b' ps

  unfoldable pub replay_commit : Store K A → Commit K A → Result (Error K) (Store K A)
  unfolding replay_patches begin_batch apply_batch
  replay_commit s c = ok_or (checked_suc (snapshot s).version) version_overflow >>= λ expected.
      if c.version == expected
      then (if is_empty c.patches
          then err (invalid_patch empty_batch)
          else replay_patches (begin_batch s) c.patches >>= λ b. apply_batch s b >>= λ r. ok r.0)
      else err (invalid_version expected c.version)

  unfoldable pub replay_all : Store K A → List (Commit K A) → Result (Error K) (Store K A)
  unfolding replay_commit
  replay_all s [] = ok s
  replay_all s (c ∷ cs) = replay_commit s c >>= λ s'. replay_all s' cs

  unfoldable pub replay : ℕ → Value K A → List (Commit K A) → Result (Error K) (Store K A)
  unfolding from_value replay_all
  replay owner initial records = from_value owner initial >>= λ s. replay_all s records
