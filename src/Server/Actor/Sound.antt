-- ===== src/Server/Actor/Sound.antt =====
-- actor.rs: the log that an actor owns stays sound.
use lug.Prelude.{
  ℕ, ◌-◌, ◌≤◌, ◌≢◌, Bool-cases, ◌&&◌, inl, inr, none, List, [], ◌∷◌, length, ltb, leb, ◌==◌, arith,
  Result, Result-cases,
}
use native.Mathlib.Nat.{le_refl, le_trans}
use lug.Core.Reducible.{Reducible, IsLawful}
use lug.Core.Storage.{Storage}
use lug.Core.Log.{Codec, Durability, LogError}
use lug.Core.Log
use lug.Core.Log.Fold.{IsSound}
use lug.Core.Log.Append.{Left, unmoved, restored, unwritten, published, unsynced, append-Left}
use lug.Server.Ring.{Entry}
use lug.Server.Json.{Json}
use lug.Server.Actor.{
  Job, Actor, all_patches, strongest, auto_checkpoint, publish, deliver, entries, minted,
  commit_with, commit_one, isolate, commit,
}
use lug.Server.Actor.Replies.{refill-counts}

module _ {D P V S E W B F : Type 0} (r : Reducible D P V S E) (w : Storage W V B F) (c : Codec P B)
    {Valid : D → Type 0} (lawful : IsLawful r Valid) where
  -- A sound log whose watermark is not below `base`.
  abbrev pub SoundFrom : ℕ → Log.Log D W → Type 0
  SoundFrom base log = IsSound r w c lawful log × (base ≤ log.watermark)

  Left-SoundFrom :
      {log log' : Log.Log D W} {ps : List P} {durability : Durability}
      {res : Result (LogError E F) (List V)}
      → Left r w c lawful log ps durability log' res
      → SoundFrom log.watermark log'
  Left-SoundFrom (unmoved log' views h view kept mark sync count) = (h, omega (arith, mark))
  Left-SoundFrom (restored log' e h view kept mark sync) = (h, omega (arith, mark))
  Left-SoundFrom (unwritten log' e records top h view batch refused kept mark sync) =
      (h, omega (arith, mark))
  Left-SoundFrom (published log' views records h batch taken settled count) =
      (h, omega (arith, batch.ends))
  Left-SoundFrom (unsynced log' e records h batch taken asked failed kept sync) =
      (h, omega (arith, batch.ends))

  checkpoint-SoundFrom :
      (base : ℕ) (log : Log.Log D W)
      → SoundFrom base log
      → SoundFrom base (Log.checkpoint r w c log).0
  unfolding Log.checkpoint
  checkpoint-SoundFrom base log (h, above) =
      let saved = w.write_header log.storage (r.view log.contents) in
      elim (Result-cases saved.1) [
        | inr (e, bad) ↦
            rw (bad, Log.checkpoint)
              (record { valid = h.valid; level = h.level; behind = h.behind }, above)
        | inl (x, fine) ↦ elim (Result-cases (w.sync saved.0).1) [
          | inr (e, bad) ↦
              rw (fine, bad, Log.checkpoint, Log.sync)
                (record { valid = h.valid; level = h.level; behind = h.behind }, above)
          | inl (y, flushed) ↦
              rw (fine, flushed, Log.checkpoint, Log.sync)
                (record { valid = h.valid; level = h.level; behind = le_refl _ }, above)
        ]
      ]

module _ {D P V S E W B F N : Type 0} (r : Reducible D P V S E) (w : Storage W V B F)
    (c : Codec P B) {Valid : D → Type 0} (lawful : IsLawful r Valid) where
  auto_checkpoint-SoundFrom :
      (base : ℕ) (a : Actor D W (Json N))
      → SoundFrom r w c lawful base a.log
      → SoundFrom r w c lawful base (auto_checkpoint r w c a).log
  unfolding auto_checkpoint
  auto_checkpoint-SoundFrom base a h =
      elim (Bool-cases
        (ltb 0 a.checkpoint_every && leb a.checkpoint_every (a.log.watermark - a.checkpointed))) [
          | inr not_due ↦ rw (not_due, auto_checkpoint) h
          | inl due ↦
              let kept = checkpoint-SoundFrom r w c lawful base a.log h in
              elim (Result-cases (Log.checkpoint r w c a.log).1) [
                | inl (x, fine) ↦ rw (due, fine, auto_checkpoint) kept
                | inr (e, bad) ↦ rw (due, bad, auto_checkpoint) kept
              ]
        ]

  publish-SoundFrom :
      (base : ℕ) (a : Actor D W (Json N)) (es : List (Entry (Json N)))
      → SoundFrom r w c lawful base a.log
      → SoundFrom r w c lawful base (publish r w c a es).log
  unfolding publish
  publish-SoundFrom base a [] h = h
  publish-SoundFrom base a (e ∷ es) h = auto_checkpoint-SoundFrom base _ h

  deliver-SoundFrom :
      (base : ℕ) (a : Actor D W (Json N)) (jobs : List (Job (Json N) P)) (mark : ℕ) (views : List V)
      (durability : Durability)
      → SoundFrom r w c lawful base a.log
      → SoundFrom r w c lawful base (deliver r w c a jobs mark views durability).log
  unfolding deliver
  deliver-SoundFrom base a jobs mark views durability h =
      publish-SoundFrom base _ (entries jobs (minted r.view_version mark views)) h

  commit_with-SoundFrom :
      (again : Actor D W (Json N) → List (Job (Json N) P) → Actor D W (Json N)) (base : ℕ)
      (a : Actor D W (Json N)) (jobs : List (Job (Json N) P))
      → ((p : P) → c.encode p ≢ none)
      → ((a' : Actor D W (Json N))
          → SoundFrom r w c lawful base a'.log
          → SoundFrom r w c lawful base (again a' jobs).log)
      → SoundFrom r w c lawful base a.log
      → SoundFrom r w c lawful base (commit_with r w c again a jobs).log
  unfolding commit_with
  commit_with-SoundFrom again base a [] total more h = h
  commit_with-SoundFrom again base a (j ∷ jobs) total more (h, above) =
      let patches = all_patches (j ∷ jobs) in
      let durability = strongest j.durability jobs in
      let (sound, risen) =
        Left-SoundFrom r w c lawful (append-Left r w c lawful a.log patches durability total h) in
      let moved : SoundFrom r w c lawful base (Log.append r w c a.log patches durability).0 =
        (sound, le_trans above risen) in
      elim (Result-cases (Log.append r w c a.log patches durability).1) [
        | inl (views, fine) ↦
            rw (fine, commit_with)
              (deliver-SoundFrom base _ (j ∷ jobs) a.log.watermark views durability moved)
        | inr (e, bad) ↦ elim (Bool-cases (length (j ∷ jobs) == 1)) [
          | inl one ↦ rw (bad, one, commit_with) moved
          | inr many ↦ rw (bad, many, commit_with, refill-counts (j ∷ jobs)) (more _ moved)
        ]
      ]

  isolate-SoundFrom :
      (base : ℕ) (a : Actor D W (Json N)) (jobs : List (Job (Json N) P))
      → ((p : P) → c.encode p ≢ none)
      → SoundFrom r w c lawful base a.log
      → SoundFrom r w c lawful base (isolate r w c a jobs).log
  unfolding isolate commit_one
  isolate-SoundFrom base a [] total h = h
  isolate-SoundFrom base a (j ∷ jobs) total h =
      isolate-SoundFrom base (commit_one r w c a j) jobs total
        (commit_with-SoundFrom (λ a' jobs'. a') base a (j ∷ []) total (λ a' h'. h') h)

  -- Where every patch can be encoded, a group commit leaves the log of the actor sound and its
  -- watermark not lower, whatever the structure and the storage answer.
  pub commit-IsSound :
      (a : Actor D W (Json N)) (jobs : List (Job (Json N) P))
      → ((p : P) → c.encode p ≢ none)
      → IsSound r w c lawful a.log
      → IsSound r w c lawful (commit r w c a jobs).log
        × (a.log.watermark ≤ (commit r w c a jobs).log.watermark)
  unfolding commit
  commit-IsSound a jobs total h =
      commit_with-SoundFrom (isolate r w c) a.log.watermark a jobs total
        (λ a' h'. isolate-SoundFrom a.log.watermark a' jobs total h') (h, le_refl _)
