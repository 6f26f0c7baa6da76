-- ===== src/Server/Actor/Queue.antt =====
-- crates/lug-server/src/actor.rs: how the actor takes commands from its queue and answers them.
use lug.Prelude.{
  ℕ, ◌+◌, ◌-◌, ◌%◌, Option, none, some, List, [], ◌∷◌, ◌++◌, ltb, leb, ◌==◌, if◌then◌else◌, u64_mod,
  Result, ok, err, ok_or, ◌>>=◌,
}
use lug.Core.Reducible.{Reducible}
use lug.Core.Storage.{Record, Storage}
use lug.Core.Log.{Durability, LogError, Codec}
use lug.Core.Log
use lug.Server.Ring.{Entry, Ring}
use lug.Server.Ring
use lug.Server.Json.{Json}
use lug.Server.Actor.{
  Code, out_of_range, storage, rejected, internal, CatchUp, caught, gap, Command, append, view,
  catch_up, checkpoint, Answer, viewed, served, checkpointed, failed, replied, Job, Actor, say,
  patch_count, commit,
}

-- `decode`: all patches of a request, or none.
abbrev pub decode : {J P : Type 0} → (J → Option P) → List J → Option (List P)
decode from_value [] = some []
decode from_value (raw ∷ rest) = elim (from_value raw) [
  | none ↦ none
  | some patch ↦ elim (decode from_value rest) [
    | none ↦ none
    | some patches ↦ some (patch ∷ patches)
  ]
]

-- The inner loop of `run`: what else is in the queue, until the batch is full.
abbrev pub gather : {J : Type 0} → ℕ → ℕ → List (Command J) → List (Command J) × List (Command J)
gather batch patches [] = ([], [])
gather batch patches (command ∷ rx) =
    let (taken, left) = gather batch (patches + patch_count command) rx in
    if ltb patches batch then (command ∷ taken, left) else ([], command ∷ rx)

-- `serde_json` is a parameter: `from_value` on a patch, `from_slice` on the bytes of a record; and so
-- are the length of these, and the JSON of a view.
module _ {D P V S E W B F N : Type 0} (r : Reducible D P V S E) (w : Storage W V B F)
    (c : Codec P B) (from_value : Json N → Option P) (from_slice : B → Option (Json N))
    (size : B → ℕ) (state : V → Json N) where
  unfoldable pub read_view : Actor D W (Json N) → Option ℕ → Answer (Json N)
  read_view a none =
      let now = Log.view r w c a.log in viewed (r.view_version now.view) (state now.view)
  read_view a (some version) = elim (Log.view_at r w c a.log version) [
    | none ↦ failed out_of_range
    | some found ↦ viewed (r.view_version found.view) (state found.view)
  ]

  -- The loop of `catch_up`, which decodes the records.
  unfoldable pub decode_records : List (Record B) → Option (List (Entry (Json N)))
  decode_records [] = some []
  decode_records (rec ∷ records) = elim (from_slice rec.patch) [
    | none ↦ none
    | some patch ↦ elim (decode_records records) [
      | none ↦ none
      | some entries ↦
          some (record { version = rec.version; patch = patch; bytes = size rec.patch } ∷ entries)
    ]
  ]

  -- The end of `catch_up`, by the first record that storage gives.
  unfoldable pub caught_up :
      Actor D W (Json N) → ℕ → List (Record B) → Result Code (CatchUp (Json N))
  unfolding decode_records
  caught_up a after [] =
      if leb a.log.watermark after
      then ok (caught [])
      else let resume : ℕ = elim (Ring.oldest a.ring) [ none ↦ a.log.watermark + 1 | some v ↦ v ] in
        ok (gap (resume - 1))
  caught_up a after (first ∷ records) =
      if first.version == (after + 1) % u64_mod
      then (ok_or (decode_records (first ∷ records)) internal >>= λ entries. ok (caught entries))
      else ok (gap (first.version - 1))

  unfoldable pub serve_catch_up : Actor D W (Json N) → ℕ → ℕ → Result Code (CatchUp (Json N))
  unfolding caught_up
  serve_catch_up a after limit =
      let oldest = Log.oldest r w c a.log in
      if ltb ((after + 1) % u64_mod) oldest
      then ok (gap (oldest - 1))
      else elim (Log.read_after r w c a.log after limit) [
        | err e ↦ err storage
        | ok records ↦ caught_up a after records
      ]

  -- `answer`. An append does not come here.
  unfoldable pub answer : Actor D W (Json N) → Command (Json N) → Actor D W (Json N)
  unfolding read_view serve_catch_up
  answer a (append patches durability reply) = a
  answer a (view at reply) = say a (replied reply (read_view a at) ∷ [])
  answer a (catch_up after limit reply) =
      let out : Answer (Json N) = elim (serve_catch_up a after limit) [
        | ok found ↦ served found
        | err code ↦ failed code
      ] in
      say a (replied reply out ∷ [])
  answer a (checkpoint reply) =
      let (log, outcome) = Log.checkpoint r w c a.log in
      let moved : Actor D W (Json N) = record a { log = log } in
      elim outcome [
        | ok _ ↦
            say (record moved { checkpointed = log.watermark }) (replied reply checkpointed ∷ [])
        | err e ↦ say moved (replied reply (failed storage) ∷ [])
      ]

  -- The loop of `drain`, with the jobs collected so far.
  unfoldable pub drain_loop :
      Actor D W (Json N) → List (Job (Json N) P) → List (Command (Json N)) → Actor D W (Json N)
  unfolding answer
  drain_loop a batch [] = commit r w c a batch
  drain_loop a batch (append patches durability reply ∷ queue) = elim (decode from_value patches) [
    | none ↦ drain_loop (say a (replied reply (failed rejected) ∷ [])) batch queue
    | some decoded ↦
        drain_loop a
          (batch
            ++ record { raw = patches; patches = decoded; durability = durability; reply = reply }
              ∷ [])
          queue
  ]
  drain_loop a batch (view at reply ∷ queue) =
      drain_loop (answer (commit r w c a batch) (view at reply)) [] queue
  drain_loop a batch (catch_up after limit reply ∷ queue) =
      drain_loop (answer (commit r w c a batch) (catch_up after limit reply)) [] queue
  drain_loop a batch (checkpoint reply ∷ queue) =
      drain_loop (answer (commit r w c a batch) (checkpoint reply)) [] queue

  unfoldable pub drain : Actor D W (Json N) → List (Command (Json N)) → Actor D W (Json N)
  unfolding drain_loop
  drain a queue = drain_loop a [] queue

  -- One round of `run`, on what the channel holds then: the actor, and what is left in the channel.
  unfoldable pub run_once :
      Actor D W (Json N) → List (Command (Json N)) → Actor D W (Json N) × List (Command (Json N))
  unfolding drain
  run_once a [] = (a, [])
  run_once a (first ∷ rx) =
      let (taken, left) = gather a.batch (patch_count first) rx in (drain a (first ∷ taken), left)
