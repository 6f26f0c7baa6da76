-- ===== src/Server/Actor.antt =====
-- crates/lug-server/src/actor.rs: the task that owns one log. What it sends out (on the ring, on the
-- watermark channel and as replies) is also kept in `trace`, in the order of the calls. A reply
-- channel is the number of its request. Messages of failures are left out.
pub mod Queue
pub mod Replies
pub mod Isolation
pub mod Fanout
pub mod Sound
pub use lug.Proto.{
  Code, rejected, no_such_log, log_exists, not_reducible, out_of_range, bad_id, unauthorized,
  malformed, storage, backpressure, internal,
}
use lug.Prelude.{
  ℕ, ◌+◌, ◌-◌, ◌%◌, Bool, true, false, ◌&&◌, Option, none, some, List, [], ◌∷◌, ◌++◌, map, length,
  take, drop, ltb, leb, ◌==◌, if◌then◌else◌, max, u64_mod, Result, ok, err, ok_or, ◌>>=◌,
}
use lug.Core.Reducible.{Reducible}
use lug.Core.Storage.{Record, Storage}
use lug.Core.Log.{
  Durability, memory, written, durable, is_durable, LogError, in_data, in_storage, in_codec,
  in_version, Codec, Log, LogView,
}
use lug.Core.Log
use lug.Server.Ring.{Entry, Ring}
use lug.Server.Ring
use lug.Server.Json.{Json, estimate}

pub record Ack : Type 0 where
  pub versions : List ℕ
  pub synced : ℕ

pub data CatchUp (J : Type 0) : Type 0 where
  caught : List (Entry J) → CatchUp J
  gap : ℕ → CatchUp J

pub data Command (J : Type 0) : Type 0 where
  append : List J → Durability → ℕ → Command J
  view : Option ℕ → ℕ → Command J
  catch_up : ℕ → ℕ → ℕ → Command J
  checkpoint : ℕ → Command J

-- What a reply channel carries.
pub data Answer (J : Type 0) : Type 0 where
  acked : Ack → Answer J
  viewed : ℕ → J → Answer J
  served : CatchUp J → Answer J
  checkpointed : Answer J
  failed : Code → Answer J

pub data Event (J : Type 0) : Type 0 where
  pushed : List (Entry J) → Event J
  raised : ℕ → Event J
  replied : ℕ → Answer J → Event J

pub record Metrics : Type 0 where
  pub patches : ℕ
  pub batches : ℕ
  pub syncs : ℕ

pub record Job (J P : Type 0) : Type 0 where
  pub raw : List J
  pub patches : List P
  pub durability : Durability
  pub reply : ℕ

pub record Actor (D W J : Type 0) : Type 0 where
  pub log : Log D W
  pub ring : Ring J
  pub watermark : ℕ
  pub oldest : ℕ
  pub metrics : Metrics
  pub batch : ℕ
  pub checkpoint_every : ℕ
  pub checkpointed : ℕ
  pub trace : List (Event J)

abbrev pub rank : Durability → ℕ
rank memory = 0
rank written = 1
rank durable = 2

-- `Metrics::record`: the counters wrap.
abbrev pub record_batch : Metrics → ℕ → Bool → Metrics
record_batch m patches synced = record {
  patches = (m.patches + patches) % u64_mod;
  batches = (m.batches + 1) % u64_mod;
  syncs = if synced then (m.syncs + 1) % u64_mod else m.syncs;
}

abbrev pub code_for : {E F : Type 0} → LogError E F → Code
code_for (in_data e) = rejected
code_for (in_storage e) = storage
code_for in_codec = rejected
code_for (in_version expected found) = internal

-- `Command::patch_count`.
abbrev pub patch_count : {J : Type 0} → Command J → ℕ
patch_count (append patches durability reply) = length patches
patch_count (view at reply) = 0
patch_count (catch_up after limit reply) = 0
patch_count (checkpoint reply) = 0

abbrev pub reply_of : {J : Type 0} → Command J → ℕ
reply_of (append patches durability reply) = reply
reply_of (view at reply) = reply
reply_of (catch_up after limit reply) = reply
reply_of (checkpoint reply) = reply

-- `refuse`, and `Command::fail`: every command of a log that did not open is answered.
abbrev pub refuse : {J : Type 0} → List (Command J) → List (Event J)
refuse [] = []
refuse (command ∷ rx) = replied (reply_of command) (failed storage) ∷ refuse rx

module _ {J P : Type 0} where
  -- `max_by_key(rank)`, which takes the last of equals.
  abbrev pub strongest : Durability → List (Job J P) → Durability
  strongest best [] = best
  strongest best (j ∷ jobs) =
      strongest (if leb (rank best) (rank j.durability) then j.durability else best) jobs

  abbrev pub all_patches : List (Job J P) → List P
  all_patches [] = []
  all_patches (j ∷ jobs) = j.patches ++ all_patches jobs

  abbrev pub counts : List (Job J P) → List ℕ
  counts [] = []
  counts (j ∷ jobs) = length j.patches ∷ counts jobs

  -- `isolate` gives each job its patches back, by the counts that were taken before.
  abbrev pub refill : List (Job J P) → List ℕ → List P → List (Job J P)
  refill [] counts rest = []
  refill (j ∷ jobs) [] rest = j ∷ jobs
  refill (j ∷ jobs) (count ∷ counts) rest =
      record j { patches = take count rest } ∷ refill jobs counts (drop count rest)

-- The versions that the views of a batch have minted: those that rise.
unfoldable pub minted : {V : Type 0} → (V → ℕ) → ℕ → List V → List (Option ℕ)
minted view_version last [] = []
minted view_version last (v ∷ views) =
    let version = view_version v in
    (if ltb last version then some version else none) ∷ minted view_version (max last version) views

module _ {N : Type 0} where
  -- The entries of one job, whose patches are zipped with what they minted. The acknowledgement of the
  -- job has their versions, which are pushed beside them.
  abbrev pub entries_of : List (Json N) → List (Option ℕ) → List (Entry (Json N))
  entries_of [] minted = []
  entries_of (p ∷ raw) [] = []
  entries_of (p ∷ raw) (none ∷ minted) = entries_of raw minted
  entries_of (p ∷ raw) (some v ∷ minted) =
      record { version = v; patch = p; bytes = estimate p } ∷ entries_of raw minted

  -- The loop over the jobs: `minted` is what is left of it from the offset on.
  abbrev pub entries :
      {P : Type 0} → List (Job (Json N) P) → List (Option ℕ) → List (Entry (Json N))
  entries [] minted = []
  entries (j ∷ jobs) minted =
      entries_of j.raw (take (length j.patches) minted)
      ++ entries jobs (drop (length j.patches) minted)

  abbrev pub acks :
      {P : Type 0} → List (Job (Json N) P) → List (Option ℕ) → ℕ → List (Event (Json N))
  acks [] minted synced = []
  acks (j ∷ jobs) minted synced =
      replied j.reply (
        acked (record {
          versions = map (λ e. e.version) (entries_of j.raw (take (length j.patches) minted));
          synced = synced;
        }))
      ∷ acks jobs (drop (length j.patches) minted) synced

  -- What is sent goes to the end of the trace.
  abbrev pub say : {D W : Type 0} → Actor D W (Json N) → List (Event (Json N)) → Actor D W (Json N)
  say a events = record a { trace = a.trace ++ events }

module _ {D P V S E W B F N : Type 0} (r : Reducible D P V S E) (w : Storage W V B F)
    (c : Codec P B) where
  -- `new`: the watermark is sent, and the oldest version stored.
  unfoldable pub new : Log D W → Ring (Json N) → ℕ → ℕ → Actor D W (Json N)
  new log ring batch checkpoint_every = record {
    log = log;
    ring = ring;
    watermark = log.watermark;
    oldest = Log.oldest r w c log;
    metrics = record { patches = 0; batches = 0; syncs = 0 };
    batch = max batch 1;
    checkpoint_every = checkpoint_every;
    checkpointed = log.watermark;
    trace = raised log.watermark ∷ [];
  }

  -- The checkpoint in `publish`, when one is due; a failure is only reported.
  unfoldable pub auto_checkpoint : Actor D W (Json N) → Actor D W (Json N)
  auto_checkpoint a =
      let due =
        ltb 0 a.checkpoint_every && leb a.checkpoint_every (a.log.watermark - a.checkpointed) in
      if due
      then (let (log, outcome) = Log.checkpoint r w c a.log in
          elim outcome [
            | ok _ ↦ record a { log = log; checkpointed = a.log.watermark }
            | err e ↦ record a { log = log }
          ])
      else a

  unfoldable pub publish : Actor D W (Json N) → List (Entry (Json N)) → Actor D W (Json N)
  unfolding auto_checkpoint
  publish a [] = a
  publish a (e ∷ es) =
      let sent : Actor D W (Json N) = record a {
        ring = Ring.push a.ring (e ∷ es);
        watermark = a.log.watermark;
        trace = a.trace ++ pushed (e ∷ es) ∷ raised a.log.watermark ∷ [];
      } in
      let after = auto_checkpoint sent in record after { oldest = Log.oldest r w c after.log }

  -- The end of `commit`, after an append that has succeeded.
  unfoldable pub deliver :
      Actor D W (Json N) → List (Job (Json N) P) → ℕ → List V → Durability → Actor D W (Json N)
  unfolding minted publish
  deliver a jobs base views durability =
      let counted : Actor D W (Json N) = record a {
        metrics = record_batch a.metrics (length (all_patches jobs)) (is_durable durability);
      } in
      let rising = minted r.view_version base views in
      say (publish counted (entries jobs rising)) (acks jobs rising a.log.synced)

  -- `commit`, where `again` is what `isolate` does with each of several jobs.
  unfoldable pub commit_with :
      (Actor D W (Json N) → List (Job (Json N) P) → Actor D W (Json N))
      → Actor D W (Json N)
      → List (Job (Json N) P)
      → Actor D W (Json N)
  unfolding deliver
  commit_with again a [] = a
  commit_with again a (j ∷ jobs) =
      let durability = strongest j.durability jobs in
      let patches = all_patches (j ∷ jobs) in
      let base = a.log.watermark in
      let (log, outcome) = Log.append r w c a.log patches durability in
      let moved : Actor D W (Json N) = record a { log = log } in
      elim outcome [
        | ok views ↦ deliver moved (j ∷ jobs) base views durability
        | err e ↦
            if length (j ∷ jobs) == 1
            then say moved (replied j.reply (failed (code_for e)) ∷ [])
            else again moved (refill (j ∷ jobs) (counts (j ∷ jobs)) patches)
      ]

  -- `commit` of one job, which `isolate` does not send back.
  unfoldable pub commit_one : Actor D W (Json N) → Job (Json N) P → Actor D W (Json N)
  unfolding commit_with
  commit_one a j = commit_with (λ a' jobs. a') a (j ∷ [])

  -- The loop of `isolate`.
  unfoldable pub isolate : Actor D W (Json N) → List (Job (Json N) P) → Actor D W (Json N)
  unfolding commit_one
  isolate a [] = a
  isolate a (j ∷ jobs) = isolate (commit_one a j) jobs

  unfoldable pub commit : Actor D W (Json N) → List (Job (Json N) P) → Actor D W (Json N)
  unfolding commit_with isolate
  commit a jobs = commit_with isolate a jobs
