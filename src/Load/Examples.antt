-- ===== src/Load/Examples.antt =====
-- Runs of check.rs: a ledger of one log and one stream, with payloads of 17 bytes.
use lug.Prelude.{ℕ, zero, suc, ◌+◌, ◌≡◌, refl, none_ne_some, none, some, List, [], ◌∷◌, length, ok}
use lug.Prelude.Ord.{nat_ord}
use lug.Prelude.SortedMap.{insert_entry, find_entry}
use lug.Core.Log.{durable}
use lug.Core.Storage.{Record}
use lug.Server.Json.{Json, string}
use lug.Load.Ledger.{Ledger, Stream, bind, observe, records}
use lug.Load.Ledger.Credit.{Contiguous, records-Contiguous}
use lug.Load.Ledger.Bindings.{IsBound, payload_at, bind-IsBound, one_place}

-- "0000000000000000x", the payload 0.
abbrev text : List ℕ
text = 48 ∷ 48 ∷ 48 ∷ 48 ∷ 48 ∷ 48 ∷ 48 ∷ 48 ∷ 48 ∷ 48 ∷ 48 ∷ 48 ∷ 48 ∷ 48 ∷ 48 ∷ 48 ∷ 120 ∷ []

abbrev open_stream : Stream
open_stream = record { log = 0; next = 1; credit = 2 }

abbrev begun : Ledger
begun = record {
  issued = record { log = 0; intended = 5; ack = none; observed = none } ∷ [];
  canonical = [] ∷ [];
  streams = (9, open_stream) ∷ [];
  patch_size = 17;
  durability = durable;
  ack_count = 0;
}

abbrev one_record : List (Record (Json ℕ))
one_record = record { version = 1; patch = string text } ∷ []

records_run : (records begun 9 one_record).1 ≡ ok (5 ∷ [])
unfolding records observe nat_ord insert_entry find_entry
records_run = refl

stream_found : find_entry begun.streams 9 ≡ some open_stream
unfolding find_entry nat_ord
stream_found = refl

records-Contiguous_example :
    Contiguous 1 one_record
    × ((s' : Stream) × (find_entry (records begun 9 one_record).0.streams 9 ≡ some s')
        × (s'.next ≡ 2)
        × (s'.credit + 1 ≡ 2))
    × (1 ≡ length one_record)
records-Contiguous_example =
    records-Contiguous begun 9 (5 ∷ []) one_record open_stream stream_found records_run

begun-IsBound : IsBound begun
unfolding find_entry
begun-IsBound zero version sequence h = absurd (none_ne_some h)
begun-IsBound (suc log) version sequence h = absurd (none_ne_some h)

bind_run : (bind begun 0 1 0).1 ≡ ok tt
unfolding bind observe find_entry
bind_run = refl

bind-IsBound_example : IsBound (bind begun 0 1 0).0 × (payload_at (bind begun 0 1 0).0 0 1 ≡ some 0)
bind-IsBound_example = bind-IsBound begun 0 1 0 begun-IsBound bind_run

one_place_example : ◌≡◌ {A = ℕ} 0 0 × ◌≡◌ {A = ℕ} 1 1
one_place_example =
    one_place (bind begun 0 1 0).0 0 1 0 1 0 bind-IsBound_example.0 bind-IsBound_example.1
      bind-IsBound_example.1
