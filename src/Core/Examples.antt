-- ===== src/Core/Examples.antt =====
-- Runs of crates/lug-core: a log of the counter over the memory storage of the daemon. A patch that
-- is 0 cannot be encoded by `partial`.
use lug.Prelude.{
  ℕ, ◌≤◌, ◌≡◌, refl, none, some, List, [], ◌∷◌, All, arith, ok, err, none_ne_some, sym, ap, ◌==◌,
  if◌then◌else◌,
}
use lug.Prelude.Ord.{nat_ord, nat_eq}
use lug.Cavlc.Store.History.{IsStore}
use lug.Core.Reducible.{IsStrict}
use lug.Core.Storage.{Record}
use lug.Core.Noop.{Noop, Tick, noop_reducible, noop_reducible-IsLawful, commit}
use lug.Core.CavlcImpl.{store_reducible, store_reducible-IsStrict}
use lug.Core.Log.{memory, durable, in_codec, Codec, Log, done, fold, append, open_log}
use lug.Core.Log.Fold.{IsSound, Drawn}
use lug.Core.Log.Append.{Left, append-Left}
use lug.Core.Log.Recovery.{open_log-IsSound}
use lug.Core.Log.Encoding.{append-unencoded}
use lug.Server.Memory.{Memory, memory_storage, load}

abbrev whole : Codec ℕ ℕ
whole = record { encode = λ p. some p; decode = λ p. some p }

abbrev partial : Codec ℕ ℕ
partial = record { encode = λ p. if p == 0 then none else some p; decode = λ p. some p }

abbrev stored : List (Record ℕ)
stored = record { version = 1; patch = 9 } ∷ record { version = 2; patch = 9 } ∷ []

abbrev disk : Memory Tick ℕ
disk = record { records = stored; header = some (record { version = 1 }); retain = 4; oldest = 1 }

abbrev ticking : Log Noop (Memory Tick ℕ)
ticking = record { contents = record { version = 2 }; storage = disk; watermark = 2; synced = 2 }

ticking-IsSound :
    (c : Codec ℕ ℕ)
    → IsSound
        (noop_reducible ℕ)
        (memory_storage {F = Unit} (λ (t : Tick). t.version))
        c
        (noop_reducible-IsLawful ℕ)
        ticking
ticking-IsSound c = record { valid = tt; level = refl; behind = omega arith }

store_reducible-IsStrict_example : IsStrict (store_reducible {K = ℕ} {A = ℕ} 7) IsStore
store_reducible-IsStrict_example = store_reducible-IsStrict 7

append-Left_example :
    Left
      (noop_reducible ℕ)
      (memory_storage {F = Unit} (λ (t : Tick). t.version))
      whole
      (noop_reducible-IsLawful ℕ)
      ticking
      (3 ∷ 4 ∷ [])
      durable
      (append
        (noop_reducible ℕ)
        (memory_storage {F = Unit} (λ (t : Tick). t.version))
        whole
        ticking
        (3 ∷ 4 ∷ [])
        durable).0
      (append
        (noop_reducible ℕ)
        (memory_storage {F = Unit} (λ (t : Tick). t.version))
        whole
        ticking
        (3 ∷ 4 ∷ [])
        durable).1
append-Left_example =
    append-Left (noop_reducible ℕ) (memory_storage {F = Unit} (λ (t : Tick). t.version)) whole
      (noop_reducible-IsLawful ℕ) ticking (3 ∷ 4 ∷ []) durable (λ p e. none_ne_some (sym e))
      (ticking-IsSound whole)

-- The log that `disk` opens to: the header is at 1, and record 2 is replayed.
disk_opens :
    open_log
      (noop_reducible ℕ)
      (memory_storage {F = Unit} (λ (t : Tick). t.version))
      whole
      (record { version = 0 })
      disk
    ≡ ok ticking
unfolding open_log commit load
disk_opens = refl

disk_loads : load (λ (t : Tick). t.version) disk ≡ record {
  header = some (record { version = 1 });
  tail = record { version = 2; patch = 9 } ∷ [];
}
unfolding load
disk_loads = refl

open_log-IsSound_example :
    IsSound
      (noop_reducible ℕ)
      (memory_storage {F = Unit} (λ (t : Tick). t.version))
      whole
      (noop_reducible-IsLawful ℕ)
      ticking
    × ◌≡◌ {A = ℕ} 2 2
    × (1 ≤ 2)
    × All (λ (rec : Record ℕ). rec.version ≤ 2) (record { version = 2; patch = 9 } ∷ [])
open_log-IsSound_example =
    open_log-IsSound (noop_reducible ℕ) (memory_storage {F = Unit} (λ (t : Tick). t.version)) whole
      (noop_reducible-IsLawful ℕ) (record { version = 0 }) disk
      (record {
        header = some (record { version = 1 });
        tail = record { version = 2; patch = 9 } ∷ [];
      })
      ticking tt (ap ok disk_loads) disk_opens

-- One patch has gone through.
through :
    fold
      (noop_reducible ℕ)
      (memory_storage {F = Unit} (λ (t : Tick). t.version))
      partial
      ticking.contents
      []
      []
      (3 ∷ [])
    ≡ done
        (record { version = 3 })
        (record { version = 3; patch = 3 } ∷ [])
        (record { version = 3 } ∷ [])
unfolding fold commit
through = refl

append-unencoded_example :
    let out =
      append
        (noop_reducible ℕ)
        (memory_storage {F = Unit} (λ (t : Tick). t.version))
        partial
        ticking
        (3 ∷ 0 ∷ 4 ∷ [])
        memory in
    (out ≡ (record ticking { contents = record { version = 3 } }, err in_codec))
    × Drawn partial (3 ∷ []) (record { version = 3; patch = 3 } ∷ [])
    × ◌≡◌ {A = ℕ} 3 3
append-unencoded_example =
    append-unencoded (noop_reducible ℕ) (memory_storage {F = Unit} (λ (t : Tick). t.version))
      partial (noop_reducible-IsLawful ℕ) ticking (3 ∷ []) (4 ∷ []) 0 memory
      (record { version = 3 }) (record { version = 3; patch = 3 } ∷ [])
      (record { version = 3 } ∷ []) (ticking-IsSound partial) through refl
