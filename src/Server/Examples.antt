-- ===== src/Server/Examples.antt =====
-- Runs of crates/lug-server: a ring of three entries, an access list, and an actor over the counter
-- and the memory storage.
use lug.Prelude.{
  sym, none_ne_some, err, ℕ, ◌<◌, ◌≤◌, ◌≡◌, refl, Option, none, some, List, [], ◌∷◌, length, arith,
}
use lug.Core.Noop.{Noop, Tick, noop_reducible, noop_reducible-IsLawful, commit as tick}
use lug.Core.Log.{memory, durable, Codec, in_storage}
use lug.Core.Log
use lug.Server.Ring.{Entry, Ring, records, push, read_after}
use lug.Server.Ring.Window.{IsBounded, newest, push-eq-newest}
use lug.Server.Ring.Reads.{Run, weight, read_after-Run, read_after_progress}
use lug.Server.Memory.{Memory, memory_storage, append as keep}
use lug.Server.Actor.Isolation.{commit_each, commit-commit_each}
use lug.Server.Actor.Fanout.{Announced, commit-Announced}
use lug.Server.Actor.Sound.{commit-IsSound}
use lug.Core.Log.Fold.{IsSound}
use lug.Core.Log.Append.{Left}
use lug.Core.Storage.{Storage}
use lug.Server.Json.{Json, null, number}
use lug.Server.Actor.{Actor, Job, Command, append, view, commit}
use lug.Server.Actor.Queue.{drain}
use lug.Server.Actor.Replies.{answered, occurrences, commit-answered, drain-answered}

abbrev entry : ℕ → Entry ℕ
entry n = record { version = n; patch = n; bytes = 4 }

abbrev three : Ring ℕ
three = record { capacity = 3; entries = entry 5 ∷ entry 6 ∷ entry 7 ∷ [] }

three-IsBounded : IsBounded three
three-IsBounded = record { room = omega arith; fits = omega arith }

-- The oldest entry gives way.
push_evicts : (push three (entry 8 ∷ [])).entries ≡ entry 6 ∷ entry 7 ∷ entry 8 ∷ []
unfolding push
push_evicts = refl

push-eq-newest_example :
    IsBounded (push three (entry 8 ∷ entry 9 ∷ []))
    × ((push three (entry 8 ∷ entry 9 ∷ [])).capacity ≡ 3)
    × ((push three (entry 8 ∷ entry 9 ∷ [])).entries
        ≡ newest 3 (entry 5 ∷ entry 6 ∷ entry 7 ∷ entry 8 ∷ entry 9 ∷ []))
push-eq-newest_example = push-eq-newest three (entry 8 ∷ entry 9 ∷ []) three-IsBounded

three-Run : Run 5 (entry 5 ∷ entry 6 ∷ entry 7 ∷ [])
three-Run = (refl, (refl, (refl, tt)))

read_after-Run_example :
    (out : List (Entry ℕ)) × (read_after three 5 2 100 ≡ records out) × Run 6 out × (length out ≤ 2)
read_after-Run_example =
    read_after-Run three (entry 5) (entry 6 ∷ entry 7 ∷ []) 5 2 100 refl three-Run (omega arith)
      (omega arith)

read_after_progress_example :
    (out : List (Entry ℕ)) × (read_after three 5 2 100 ≡ records out)
    × (1 ≤ length out)
    × (weight out < 100)
read_after_progress_example =
    read_after_progress three (entry 5) (entry 6 ∷ entry 7 ∷ []) 5 2 100 refl (omega arith)
      (omega arith) (omega arith) (omega arith) (omega arith)

-- The patches are the JSON values themselves.
abbrev codec : Codec (Json ℕ) (Json ℕ)
codec = record { encode = λ p. some p; decode = λ p. some p }

abbrev idle_actor : Actor Noop (Memory Tick (Json ℕ)) (Json ℕ)
idle_actor = record {
  log = record {
    contents = record { version = 0 };
    storage = record { records = []; header = none; retain = 4; oldest = 1 };
    watermark = 0;
    synced = 0;
  };
  ring = record { capacity = 3; entries = [] };
  watermark = 0;
  oldest = 1;
  metrics = record { patches = 0; batches = 0; syncs = 0 };
  batch = 8;
  checkpoint_every = 0;
  checkpointed = 0;
  trace = [];
}

abbrev jobs : List (Job (Json ℕ) (Json ℕ))
jobs =
    record { raw = number 1 ∷ []; patches = number 1 ∷ []; durability = memory; reply = 1 }
    ∷ record { raw = number 2 ∷ []; patches = number 2 ∷ []; durability = durable; reply = 2 }
    ∷ []

commit-answered_example :
    answered
      (commit
        (noop_reducible (Json ℕ))
        (memory_storage {F = Unit} (λ (t : Tick). t.version))
        codec
        idle_actor
        jobs).trace
    ≡ 1 ∷ 2 ∷ []
commit-answered_example =
    commit-answered (noop_reducible (Json ℕ)) (memory_storage {F = Unit} (λ (t : Tick). t.version))
      codec idle_actor jobs

abbrev queue : List (Command (Json ℕ))
queue = append (number 1 ∷ []) memory 1 ∷ view none 2 ∷ append (null ∷ []) memory 3 ∷ []

-- A patch must be a number here.
abbrev from_value : Json ℕ → Option (Json ℕ)
from_value null = none
from_value (number n) = some (number n)
from_value _ = none

drain-answered_example :
    occurrences 2 (
      answered
        (drain
          (noop_reducible (Json ℕ))
          (memory_storage {F = Unit} (λ (t : Tick). t.version))
          codec
          from_value
          (λ b. some b)
          (λ b. 1)
          (λ t. null)
          idle_actor
          queue).trace)
    ≡ 1
drain-answered_example =
    drain-answered (noop_reducible (Json ℕ)) (memory_storage {F = Unit} (λ (t : Tick). t.version))
      codec from_value (λ b. some b) (λ b. 1) (λ t. null) 2 idle_actor queue

idle_actor-IsSound :
    IsSound
      (noop_reducible (Json ℕ))
      (memory_storage {F = Unit} (λ (t : Tick). t.version))
      codec
      (noop_reducible-IsLawful (Json ℕ))
      idle_actor.log
idle_actor-IsSound = record { valid = tt; level = refl; behind = omega arith }

commit-IsSound_example :
    IsSound
      (noop_reducible (Json ℕ))
      (memory_storage {F = Unit} (λ (t : Tick). t.version))
      codec
      (noop_reducible-IsLawful (Json ℕ))
      (commit
        (noop_reducible (Json ℕ))
        (memory_storage {F = Unit} (λ (t : Tick). t.version))
        codec
        idle_actor
        jobs).log
    × (0
        ≤ (commit
            (noop_reducible (Json ℕ))
            (memory_storage {F = Unit} (λ (t : Tick). t.version))
            codec
            idle_actor
            jobs).log.watermark)
commit-IsSound_example =
    commit-IsSound (noop_reducible (Json ℕ)) (memory_storage {F = Unit} (λ (t : Tick). t.version))
      codec (noop_reducible-IsLawful (Json ℕ)) idle_actor jobs (λ p e. none_ne_some (sym e))
      idle_actor-IsSound

commit-Announced_example :
    Announced []
      (commit
        (noop_reducible (Json ℕ))
        (memory_storage {F = Unit} (λ (t : Tick). t.version))
        codec
        idle_actor
        jobs).trace
commit-Announced_example =
    commit-Announced (noop_reducible (Json ℕ)) (memory_storage {F = Unit} (λ (t : Tick). t.version))
      codec idle_actor jobs tt

-- Memory, but every flush fails.
abbrev no_flush : Storage (Memory Tick (Json ℕ)) Tick (Json ℕ) (Unit {0})
no_flush = record (memory_storage (λ t. t.version)) { sync = λ m. (m, err tt) }

flush_fails :
    (Log.append
      (noop_reducible (Json ℕ))
      no_flush
      codec
      idle_actor.log
      (number 1 ∷ number 2 ∷ [])
      durable).1
    ≡ err (in_storage tt)
unfolding Log.append tick keep
flush_fails = refl

abbrev first_job : Job (Json ℕ) (Json ℕ)
first_job = record { raw = number 1 ∷ []; patches = number 1 ∷ []; durability = memory; reply = 1 }

abbrev second_job : Job (Json ℕ) (Json ℕ)
second_job = record {
  raw = number 2 ∷ [];
  patches = number 2 ∷ [];
  durability = durable;
  reply = 2;
}

commit-commit_each_example :
    (log : Log.Log Noop (Memory Tick (Json ℕ))) × Left
      (noop_reducible (Json ℕ))
      no_flush
      codec
      (noop_reducible-IsLawful (Json ℕ))
      idle_actor.log
      (number 1 ∷ number 2 ∷ [])
      durable
      log
      (err (in_storage tt))
    × (commit (noop_reducible (Json ℕ)) no_flush codec idle_actor (first_job ∷ second_job ∷ [])
        ≡ commit_each
            (noop_reducible (Json ℕ))
            no_flush
            codec
            (record idle_actor { log = log })
            (first_job ∷ second_job ∷ []))
commit-commit_each_example =
    commit-commit_each (noop_reducible (Json ℕ)) no_flush codec (noop_reducible-IsLawful (Json ℕ))
      idle_actor first_job second_job [] (in_storage tt) (λ p e. none_ne_some (sym e))
      (record { valid = tt; level = refl; behind = omega arith }) flush_fails

-- Two requests, and four records.
appended_twice :
    length
      (commit
        (noop_reducible (Json ℕ))
        no_flush
        codec
        idle_actor
        (first_job ∷ second_job ∷ [])).log.storage.records
    ≡ 4
unfolding commit Log.append tick keep
appended_twice = refl
