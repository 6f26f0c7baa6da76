-- ===== src/Core/Log/Append.antt =====
-- log.rs, `append`: memory and storage agree on the watermark after every outcome.
use lug.Prelude.{
  ℕ, suc, ◌+◌, ◌<◌, ◌≡◌, ◌≢◌, refl, sym, ap, ◌∙◌, inl, inr, Bool, true, false, none, some, List, [],
  ◌∷◌, length, last_or, arith, Result, ok, err, Result-cases, some-injective,
}
use lug.Core.Reducible.{Reducible, version, IsLawful}
use lug.Core.Storage.{Record, Storage}
use lug.Core.Log.{
  Durability, memory, written, durable, is_durable, LogError, in_data, in_storage, Codec, Log,
  Folded, done, rejected, unencoded, fold, settle, write, after_fold, append, unwind,
}
use lug.Core.Log.Fold.{Numbered, Numbered-last, Drawn, IsSound, Above, Good, fold_sound-Good}

module _ {D P V S E W B F : Type 0} (r : Reducible D P V S E) (w : Storage W V B F) (c : Codec P B)
    {Valid : D → Type 0} (lawful : IsLawful r Valid) where
  -- What `append` gives to the storage: encodings of some of the patches, numbered from behind the
  -- watermark up to `top`.
  pub record Batch (log : Log D W) (ps : List P) (records : List (Record B)) (top : ℕ)
      : Type 0 where
    pub numbered : Numbered (suc log.watermark) records
    pub drawn : Drawn c ps records
    pub ends : top ≡ log.watermark + length records
    pub busy : 0 < length records

  -- The storage and the sync frontier after a success: the storage has taken the records, and has
  -- flushed them if that was asked.
  abbrev pub Settled : Log D W → List (Record B) → Bool → Log D W → Type 0
  Settled log records false log' =
      (log'.storage ≡ (w.append log.storage records).0) × (log'.synced ≡ log.synced)
  Settled log records true log' =
      ((w.sync (w.append log.storage records).0).1 ≡ ok tt)
      × (log'.storage ≡ (w.sync (w.append log.storage records).0).0)
      × (log'.synced ≡ log'.watermark)

  -- How `append` of the patches `ps` leaves a log, its storage and its result.
  pub data Left (log : Log D W) (ps : List P) (durability : Durability)
      : Log D W → Result (LogError E F) (List V) → Type 0 where
    unmoved :
        (log' : Log D W) (views : List V)
        → IsSound r w c lawful log'
        → r.view log'.contents ≡ r.view log.contents
        → log'.storage ≡ log.storage
        → log'.watermark ≡ log.watermark
        → log'.synced ≡ log.synced
        → length views ≡ length ps
        → Left log ps durability log' (ok views)
    restored :
        (log' : Log D W) (e : E)
        → IsSound r w c lawful log'
        → r.view log'.contents ≡ r.view log.contents
        → log'.storage ≡ log.storage
        → log'.watermark ≡ log.watermark
        → log'.synced ≡ log.synced
        → Left log ps durability log' (err (in_data e))
    unwritten :
        (log' : Log D W) (e : F) (records : List (Record B)) (top : ℕ)
        → IsSound r w c lawful log'
        → r.view log'.contents ≡ r.view log.contents
        → Batch log ps records top
        → (w.append log.storage records).1 ≡ err e
        → log'.storage ≡ (w.append log.storage records).0
        → log'.watermark ≡ log.watermark
        → log'.synced ≡ log.synced
        → Left log ps durability log' (err (in_storage e))
    published :
        (log' : Log D W) (views : List V) (records : List (Record B))
        → IsSound r w c lawful log'
        → Batch log ps records log'.watermark
        → (w.append log.storage records).1 ≡ ok tt
        → Settled log records (is_durable durability) log'
        → length views ≡ length ps
        → Left log ps durability log' (ok views)
    unsynced :
        (log' : Log D W) (e : F) (records : List (Record B))
        → IsSound r w c lawful log'
        → Batch log ps records log'.watermark
        → (w.append log.storage records).1 ≡ ok tt
        → is_durable durability ≡ true
        → (w.sync (w.append log.storage records).0).1 ≡ err e
        → log'.storage ≡ (w.sync (w.append log.storage records).0).0
        → log'.synced ≡ log.synced
        → Left log ps durability log' (err (in_storage e))

  settle-Left :
      (log : Log D W) (ps : List P) (d : D) (records : List (Record B)) (top : ℕ) (views : List V)
      (durability : Durability)
      → let moved : Log D W = record {
        contents = d;
        storage = (w.append log.storage records).0;
        watermark = top;
        synced = log.synced;
      } in
        IsSound r w c lawful moved
        → Batch log ps records top
        → (w.append log.storage records).1 ≡ ok tt
        → length views ≡ length ps
        → Left log ps durability
            (settle r w c moved top views durability).0
            (settle r w c moved top views durability).1
  unfolding settle
  settle-Left log ps d records top views memory h batch taken count =
      published _ views records h batch taken (refl, refl) count
  settle-Left log ps d records top views written h batch taken count =
      published _ views records h batch taken (refl, refl) count
  settle-Left log ps d records top views durable h batch taken count =
      elim (Result-cases (w.sync (w.append log.storage records).0).1) [
        | inl (x, flushed) ↦ rw flushed (
            published _ views records
              (record { valid = h.valid; level = h.level; behind = omega arith }) batch taken
              (flushed, refl, refl) count)
        | inr (e, failed) ↦ rw failed (
            unsynced _ e records (record { valid = h.valid; level = h.level; behind = h.behind })
              batch taken refl failed refl refl)
      ]

  -- Truncating to the watermark brings the view back.
  unwound :
      (log : Log D W) (d : D) (storage : W)
      → IsSound r w c lawful log
      → Valid d
      → r.view_at d log.watermark ≡ some (r.view log.contents)
      → let back : Log D W = record log {
        contents = (r.truncate d log.watermark).0;
        storage = storage;
      } in
        IsSound r w c lawful back × (r.view back.contents ≡ r.view log.contents)
  unwound log d storage h valid kept =
      let restore = lawful.truncate-view d log.watermark (r.view log.contents) valid kept in
      (
        record {
          valid = lawful.truncate-Valid d log.watermark valid;
          level = ap r.view_version restore ∙ h.level;
          behind = h.behind;
        },
        restore,
      )

  write-Left :
      (log : Log D W) (ps : List P) (d : D) (records : List (Record B)) (views : List V)
      (durability : Durability)
      → IsSound r w c lawful log
      → Above r w c lawful log.watermark (r.view log.contents) (length records) d
      → Numbered (suc log.watermark) records
      → Drawn c ps records
      → length views ≡ length ps
      → let out = write r w c (record log { contents = d }) records views durability in
        Left log ps durability out.0 out.1
  unfolding write unwind
  write-Left log ps d [] views durability h a numbered drawn count =
      let level : version r d ≡ log.watermark = omega (arith, a.risen) in
      let now = lawful.view_at_current d a.valid in
      let same : r.view d ≡ r.view log.contents =
        some-injective (sym now ∙ ap (r.view_at d) level ∙ a.kept) in
      unmoved _ views (record { valid = a.valid; level = level; behind = h.behind }) same refl refl
        refl count
  write-Left log ps d (rec ∷ records) views durability h a numbered drawn count =
      let top = Numbered-last (suc log.watermark) rec records numbered in
      let batch : Batch log ps (rec ∷ records) (last_or rec records).version = record {
        numbered = numbered;
        drawn = drawn;
        ends = omega arith;
        busy = omega arith;
      } in
      elim (Result-cases (w.append log.storage (rec ∷ records)).1) [
        | inr (e, failed) ↦
            let (sound, same) =
              unwound log d (w.append log.storage (rec ∷ records)).0 h a.valid a.kept in
            rw (failed, write)
              (unwritten _ e (rec ∷ records) (last_or rec records).version sound same batch failed
                refl refl refl)
        | inl (x, taken) ↦
            rw (taken, write)
              (settle-Left log ps d (rec ∷ records) (last_or rec records).version views durability
                (record {
                  valid = a.valid;
                  level = omega (arith, a.risen);
                  behind = omega (arith, h.behind);
                })
                batch taken count)
      ]

  after_fold-Left :
      (log : Log D W) (ps : List P) (folded : Folded D V B E) (durability : Durability)
      → ((p : P) → c.encode p ≢ none)
      → IsSound r w c lawful log
      → Good r w c lawful log.watermark (r.view log.contents) ps folded
      → let out = after_fold r w c log folded durability in Left log ps durability out.0 out.1
  unfolding after_fold unwind
  after_fold-Left log ps (done d records views) durability total h (a, numbered, drawn, count) =
      write-Left log ps d records views durability h a numbered drawn count
  after_fold-Left log ps (rejected d e) durability total h (valid, kept) =
      let (sound, same) = unwound log d log.storage h valid kept in
      restored _ e sound same refl refl refl
  after_fold-Left log ps (unencoded d) durability total h (valid, kept, bad) =
      absurd (total bad.0 bad.1)

  -- Every call of `append` on a sound log, where every patch can be encoded, leaves a sound log, in one
  -- of five ways. It succeeds and mints no version, and storage, watermark and view are as they were.
  -- It succeeds, and the storage has taken, and if asked flushed, the records of the call: encodings of
  -- some of the patches, numbered from behind the old watermark up to the new one. The structure refuses
  -- a patch, or the storage refuses the records, and view and watermark are as they were. Or the storage
  -- has taken the records and the flush fails: the watermark has risen and the sync frontier has not.
  pub append-Left :
      (log : Log D W) (patches : List P) (durability : Durability)
      → ((p : P) → c.encode p ≢ none)
      → IsSound r w c lawful log
      → Left log patches durability
          (append r w c log patches durability).0
          (append r w c log patches durability).1
  unfolding append
  append-Left log [] durability total h = unmoved log [] h refl refl refl refl refl
  append-Left log (p ∷ ps) durability total h =
      after_fold-Left log (p ∷ ps) (fold r w c log.contents [] [] (p ∷ ps)) durability total h
        (fold_sound-Good r w c lawful log (p ∷ ps) h)
