-- ===== src/Core/Log.antt =====
-- crates/lug-core/src/log.rs: a structure made durable by a storage. `encode` and `decode` are
-- `serde_json` on patches.
pub mod Fold
pub mod Append
pub mod Recovery
pub mod Encoding
use mathlib.Core.Option
use lug.Prelude.{
  ℕ, Bool, true, false, Option, none, some, List, [], ◌∷◌, ◌++◌, last_or, is_empty, leb, ◌==◌,
  if◌then◌else◌, Result, ok, err, ok_or, ◌>>=◌,
}
use lug.Core.Reducible.{Reducible, version}
use lug.Core.Storage.{Record, Storage}

pub data Durability : Type 0 where
  memory written durable : Durability

-- `==` on `Durability::Durable`.
abbrev pub is_durable : Durability → Bool
is_durable durable = true
is_durable memory = false
is_durable written = false

-- `lug_core::Error`.
pub data LogError (E F : Type 0) : Type 0 where
  in_data : E → LogError E F
  in_storage : F → LogError E F
  in_codec : LogError E F
  in_version : ℕ → ℕ → LogError E F

pub record Codec (P B : Type 0) : Type 0 where
  pub encode : P → Option B
  pub decode : B → Option P

pub record Log (D W : Type 0) : Type 0 where
  pub contents : D
  pub storage : W
  pub watermark : ℕ
  pub synced : ℕ

pub record LogView (V : Type 0) : Type 0 where
  pub view : V
  pub synced : ℕ

-- What `map_err(Error::Data)` and `map_err(Error::Storage)` do.
abbrev pub data_error : {E F X : Type 0} → Result E X → Result (LogError E F) X
data_error (ok x) = ok x
data_error (err e) = err (in_data e)

abbrev pub storage_error : {E F X : Type 0} → Result F X → Result (LogError E F) X
storage_error (ok x) = ok x
storage_error (err e) = err (in_storage e)

-- Where the loop of `append` ends: at its end, at an error that unwinds, or at a failed encoding,
-- which returns at once.
pub data Folded (D V B E : Type 0) : Type 0 where
  done : D → List (Record B) → List V → Folded D V B E
  rejected : D → E → Folded D V B E
  unencoded : D → Folded D V B E

module _ {D P V S E W B F : Type 0} (r : Reducible D P V S E) (w : Storage W V B F)
    (c : Codec P B) where
  -- The end of a round of the loop of `open`: the version that the commit minted is the record's.
  unfoldable pub adopt : D → Result E (Option V) → ℕ → Result (LogError E F) D
  adopt d (err e) expected = err (in_data e)
  adopt d (ok view) expected =
      let minted : ℕ = elim view [ none ↦ 0 | some v ↦ r.view_version v ] in
      if minted == expected then ok d else err (in_version expected minted)

  -- One record of the loop of `open`.
  unfoldable pub replay_record : D → Record B → Result (LogError E F) D
  unfolding adopt
  replay_record d rec =
      if leb rec.version (version r d)
      then ok d
      else ok_or (c.decode rec.patch) in_codec >>= λ patch.
          data_error (r.stage_patch d (r.stage d) patch) >>= λ staged.
          adopt (r.commit d staged).0 (r.commit d staged).1 rec.version

  unfoldable pub replay_tail : D → List (Record B) → Result (LogError E F) D
  unfolding replay_record
  replay_tail d [] = ok d
  replay_tail d (rec ∷ tail) = replay_record d rec >>= λ d'. replay_tail d' tail

  unfoldable pub adopt_header : D → Option V → Result (LogError E F) D
  adopt_header zero none = ok zero
  adopt_header zero (some view) = data_error (r.resume view)

  -- `open` is a reserved word.
  unfoldable pub open_log : D → W → Result (LogError E F) (Log D W)
  unfolding adopt_header replay_tail
  open_log zero storage =
      let (storage', loaded) = w.load storage in
      storage_error loaded >>= λ recovered. adopt_header zero recovered.header >>= λ d.
      replay_tail d recovered.tail >>= λ d'. ok (record {
        contents = d';
        storage = storage';
        watermark = version r d';
        synced = version r d';
      })

  unfoldable pub view : Log D W → LogView V
  view log = record { view = r.view log.contents; synced = log.synced }

  unfoldable pub view_at : Log D W → ℕ → Option (LogView V)
  view_at log n =
      if leb n log.watermark
      then Option.map (λ v. record { view = v; synced = log.synced }) (r.view_at log.contents n)
      else none

  unfoldable pub read_after : Log D W → ℕ → ℕ → Result (LogError E F) (List (Record B))
  read_after log after limit = storage_error (w.read_after log.storage after limit)

  unfoldable pub oldest : Log D W → ℕ
  oldest log = w.oldest log.storage

  unfoldable pub unwind :
      {X : Type 0} → Log D W → ℕ → LogError E F → Log D W × Result (LogError E F) X
  unwind log base e = (record log { contents = (r.truncate log.contents base).0 }, err e)

  -- The loop of `append` over the patches.
  unfoldable pub fold : D → List (Record B) → List V → List P → Folded D V B E
  fold d records views [] = done d records views
  fold d records views (p ∷ ps) = elim (c.encode p) [
    | none ↦ unencoded d
    | some encoded ↦ elim (r.stage_patch d (r.stage d) p) [
      | err e ↦ rejected d e
      | ok staged ↦
          let (d', committed) = r.commit d staged in
          elim committed [
            | ok (some v) ↦
                fold d' (records ++ record { version = r.view_version v; patch = encoded } ∷ [])
                  (views ++ v ∷ []) ps
            | ok none ↦ fold d' records (views ++ r.view d' ∷ []) ps
            | err e ↦ rejected d' e
          ]
    ]
  ]

  -- The end of `append`, after the storage has taken the records up to `top`.
  unfoldable pub settle :
      Log D W → ℕ → List V → Durability → Log D W × Result (LogError E F) (List V)
  settle log top views durability =
      if is_durable durability
      then (let (storage, flushed) = w.sync log.storage in
          elim flushed [
            | ok _ ↦ (record log { storage = storage; synced = top }, ok views)
            | err e ↦ (record log { storage = storage }, err (in_storage e))
          ])
      else (log, ok views)

  -- `append` after its loop. `records.last()` is the version of the last record.
  unfoldable pub write :
      Log D W → List (Record B) → List V → Durability → Log D W × Result (LogError E F) (List V)
  unfolding settle unwind
  write log [] views durability = (log, ok views)
  write log (rec ∷ records) views durability =
      let (storage, outcome) = w.append log.storage (rec ∷ records) in
      elim outcome [
        | err e ↦ unwind (record log { storage = storage }) log.watermark (in_storage e)
        | ok _ ↦
            let top = (last_or rec records).version in
            settle (record log { storage = storage; watermark = top }) top views durability
      ]

  unfoldable pub after_fold :
      Log D W → Folded D V B E → Durability → Log D W × Result (LogError E F) (List V)
  unfolding write unwind
  after_fold log (done d records views) durability =
      write (record log { contents = d }) records views durability
  after_fold log (rejected d e) durability =
      unwind (record log { contents = d }) log.watermark (in_data e)
  after_fold log (unencoded d) durability = (record log { contents = d }, err in_codec)

  unfoldable pub append : Log D W → List P → Durability → Log D W × Result (LogError E F) (List V)
  unfolding fold after_fold
  append log patches durability =
      if is_empty patches
      then (log, ok [])
      else after_fold log (fold log.contents [] [] patches) durability

  -- `sync`, and the end of `checkpoint`.
  unfoldable pub sync : Log D W → Log D W × Result (LogError E F) (Unit {0})
  sync log =
      let (storage, flushed) = w.sync log.storage in
      elim flushed [
        | ok _ ↦ (record log { storage = storage; synced = log.watermark }, ok tt)
        | err e ↦ (record log { storage = storage }, err (in_storage e))
      ]

  unfoldable pub checkpoint : Log D W → Log D W × Result (LogError E F) (Unit {0})
  unfolding sync
  checkpoint log =
      let (storage, outcome) = w.write_header log.storage (r.view log.contents) in
      elim outcome [
        | ok _ ↦ sync (record log { storage = storage })
        | err e ↦ (record log { storage = storage }, err (in_storage e))
      ]
