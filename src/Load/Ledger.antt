-- ===== src/Load/Ledger.antt =====
-- crates/lug-load/src/check.rs: the ledger that the load generator checks a daemon against. Maps are
-- lists of entries in the order of their keys; `finish` goes through the streams in that order.
-- An `Instant` is a number, and a message of an error is a constructor.
pub mod Credit
pub mod Bindings
use lug.Prelude.{
  ℕ, zero, suc, ◌+◌, ◌-◌, ◌*◌, ◌≤◌, Bool, true, false, not, ◌&&◌, ◌||◌, Option, none, some, List,
  [], ◌∷◌, ◌++◌, length, take, drop, get_elem?, ltb, leb, ◌==◌, if◌then◌else◌, Result, ok, err,
}
use lug.Prelude.Ord.{nat_ord}
use lug.Prelude.SortedMap.{insert_entry, find_entry}
use lug.Core.Log.{Durability, is_durable}
use lug.Core.Storage.{Record}
use lug.Server.Json.{Json, string}

pub data Complaint : Type 0 where
  duplicate_stream unknown_stream version_zero order_mismatch unissued wrong_log duplicate_append
        not_one_version unissued_ack duplicate_ack not_durable not_contiguous no_credit not_a_string
        bytes_changed bad_sequence ack_loss subscriber_loss holes out_of_bounds :
      Complaint

pub record Issued : Type 0 where
  pub log : ℕ
  pub intended : ℕ
  pub ack : Option ℕ
  pub observed : Option ℕ

pub record Stream : Type 0 where
  pub log : ℕ
  pub next : ℕ
  pub credit : ℕ

pub record Ledger : Type 0 where
  pub issued : List Issued
  pub canonical : List (List (ℕ × ℕ))
  pub streams : List (ℕ × Stream)
  pub patch_size : ℕ
  pub durability : Durability
  pub ack_count : ℕ

-- A store into a vector, at an index that it has.
abbrev pub set {ℓ} : {A : Type ℓ} → List A → ℕ → A → List A
set [] n x = []
set (y ∷ ys) zero x = x ∷ ys
set (y ∷ ys) (suc n) x = y ∷ set ys n x

abbrev repeated {ℓ} : {A : Type ℓ} → ℕ → A → List A
repeated zero x = []
repeated (suc n) x = x ∷ repeated n x

unfoldable pub new : ℕ → ℕ → Durability → Ledger
new logs patch_size durability = record {
  issued = [];
  canonical = repeated logs [];
  streams = [];
  patch_size = patch_size;
  durability = durability;
  ack_count = 0;
}

unfoldable pub issue : Ledger → ℕ → ℕ → Ledger × ℕ
issue l log intended = (
  record l {
    issued =
        l.issued ++ record { log = log; intended = intended; ack = none; observed = none } ∷ [];
  },
  length l.issued,
)

-- The insert takes place before the old entry is looked at.
unfoldable pub subscribe : Ledger → ℕ → ℕ → ℕ → ℕ → Ledger × Result Complaint (Unit {0})
subscribe l id log from credit = (
  record l {
    streams = insert_entry l.streams id (record { log = log; next = from + 1; credit = credit });
  },
  elim (find_entry l.streams id) [ none ↦ ok tt | some old ↦ err duplicate_stream ],
)

unfoldable pub grant : Ledger → ℕ → ℕ → Ledger × Result Complaint (Unit {0})
grant l id credit = elim (find_entry l.streams id) [
  | none ↦ (l, err unknown_stream)
  | some s ↦ (
    record l { streams = insert_entry l.streams id (record s { credit = s.credit + credit }) },
    ok tt,
  )
]

-- Whether an earlier entry contradicts the new one.
abbrev pub contradicts : Option ℕ → ℕ → Bool
contradicts none new = false
contradicts (some old) new = not (old == new)

-- The second half of `bind`, about the issued payload.
unfoldable pub observe : Ledger → ℕ → ℕ → ℕ → Ledger × Result Complaint (Unit {0})
observe l log version sequence = elim (get_elem? l.issued sequence) [
  | none ↦ (l, err unissued)
  | some i ↦
      if i.log == log
      then (if contradicts i.observed version then (l, err duplicate_append) else (
        record l { issued = set l.issued sequence (record i { observed = some version }) },
        ok tt,
      ))
      else (l, err wrong_log)
]

-- The insert into `canonical` takes place before the old entry is looked at. An index that the vector
-- does not have would be a panic.
unfoldable pub bind : Ledger → ℕ → ℕ → ℕ → Ledger × Result Complaint (Unit {0})
unfolding observe
bind l log version sequence =
    if version == 0 then (l, err version_zero) else (elim (get_elem? l.canonical log) [
      | none ↦ (l, err out_of_bounds)
      | some versions ↦
          let inserted : Ledger = record l {
            canonical = set l.canonical log (insert_entry versions version sequence);
          } in
          if contradicts (find_entry versions version) sequence
          then (inserted, err order_mismatch)
          else observe inserted log version sequence
    ])

-- `ack` of one version; more or fewer than one are refused.
unfoldable pub ack : Ledger → ℕ → List ℕ → ℕ → Ledger × Result Complaint ℕ
unfolding bind
ack l sequence [] synced = (l, err not_one_version)
ack l sequence (version ∷ u ∷ us) synced = (l, err not_one_version)
ack l sequence (version ∷ []) synced = elim (get_elem? l.issued sequence) [
  | none ↦ (l, err unissued_ack)
  | some i ↦ elim i.ack [
    | some old ↦ (l, err duplicate_ack)
    | none ↦
        if is_durable l.durability && ltb synced version
        then (l, err not_durable)
        else let (l', bound) = bind l i.log version sequence in
          elim bound [
            | err e ↦ (l', err e)
            | ok _ ↦ elim (get_elem? l'.issued sequence) [
              | none ↦ (l', err out_of_bounds)
              | some i' ↦ (
                record l' {
                  issued = set l'.issued sequence (record i' { ack = some version });
                  ack_count = l'.ack_count + 1;
                },
                ok i'.intended,
              )
            ]
          ]
  ]
]

-- `u64::from_str_radix` in base 16, on bytes: an optional `+`, then digits of either case.
abbrev pub hex_digit : ℕ → Option ℕ
hex_digit b =
    if leb 48 b && leb b 57
    then some (b - 48)
    else if leb 97 b && leb b 102
    then some (b - 87)
    else if leb 65 b && leb b 70
    then some (b - 55)
    else none

abbrev pub hex_value : ℕ → List ℕ → Option ℕ
hex_value value [] = some value
hex_value value (b ∷ bs) = elim (hex_digit b) [
  | none ↦ none
  | some d ↦ hex_value (value * 16 + d) bs
]

abbrev pub parse_hex : List ℕ → Option ℕ
parse_hex [] = none
parse_hex (b ∷ []) = hex_value 0 (b ∷ [])
parse_hex (b ∷ c ∷ bs) = if b == 43 then hex_value 0 (c ∷ bs) else hex_value 0 (b ∷ c ∷ bs)

abbrev pub all_bytes : (ℕ → Bool) → List ℕ → Bool
all_bytes p [] = true
all_bytes p (b ∷ bs) = p b && all_bytes p bs

-- The checks of a payload, and the sequence number in it.
unfoldable pub sequence_of : {N : Type 0} → ℕ → Json N → Result Complaint ℕ
sequence_of patch_size (string text) =
    if length text == patch_size
      && (all_bytes (λ b. ltb b 128) text && all_bytes (λ b. b == 120) (drop 16 text))
    then (elim (parse_hex (take 16 text)) [ none ↦ err bad_sequence | some n ↦ ok n ])
    else err bytes_changed
sequence_of patch_size _ = err not_a_string

-- The checks of the stream, which pays for one record.
unfoldable pub advance : Ledger → ℕ → ℕ → Ledger × Result Complaint ℕ
advance l id version = elim (find_entry l.streams id) [
  | none ↦ (l, err unknown_stream)
  | some s ↦
      if version == s.next
      then (if s.credit == 0 then (l, err no_credit) else (
        record l {
          streams =
              insert_entry l.streams id (record s { credit = s.credit - 1; next = s.next + 1 });
        },
        ok s.log,
      ))
      else (l, err not_contiguous)
]

-- One round of the loop of `records`.
unfoldable pub receive : {N : Type 0} → Ledger → ℕ → Record (Json N) → Ledger × Result Complaint ℕ
unfolding advance sequence_of bind
receive l id rec =
    let (l₁, log) = advance l id rec.version in
    elim log [
      | err e ↦ (l₁, err e)
      | ok log ↦ elim (sequence_of l₁.patch_size rec.patch) [
        | err e ↦ (l₁, err e)
        | ok sequence ↦
            let (l₂, bound) = bind l₁ log rec.version sequence in
            elim bound [
              | err e ↦ (l₂, err e)
              | ok _ ↦ elim (get_elem? l₂.issued sequence) [
                | none ↦ (l₂, err out_of_bounds)
                | some i ↦ (l₂, ok i.intended)
              ]
            ]
      ]
    ]

unfoldable pub receive_all :
    {N : Type 0} → Ledger → ℕ → List ℕ → List (Record (Json N)) → Ledger × Result Complaint (List ℕ)
unfolding receive
receive_all l id intended [] = (l, ok intended)
receive_all l id intended (rec ∷ records) =
    let (l', outcome) = receive l id rec in
    elim outcome [ err e ↦ (l', err e) | ok at ↦ receive_all l' id (intended ++ at ∷ []) records ]

-- `records`.
unfoldable pub records :
    {N : Type 0} → Ledger → ℕ → List (Record (Json N)) → Ledger × Result Complaint (List ℕ)
unfolding receive_all
records l id recs = receive_all l id [] recs

-- `last_key_value().map_or(0, …)`.
abbrev pub last_version : List (ℕ × ℕ) → ℕ
last_version [] = 0
last_version ((version, sequence) ∷ []) = version
last_version (e ∷ f ∷ es) = last_version (f ∷ es)

-- The condition that `complete` and `finish` put on a stream. A log that the vector does not have, a
-- panic there, counts as not reached.
abbrev pub caught_up : Ledger → Stream → Bool
caught_up l s = elim (get_elem? l.canonical s.log) [
  | none ↦ false
  | some versions ↦ s.next - 1 == last_version versions
]

abbrev pub all_streams : Ledger → List (ℕ × Stream) → Bool
all_streams l [] = true
all_streams l ((id, s) ∷ streams) = caught_up l s && all_streams l streams

abbrev pub all_contiguous : List (List (ℕ × ℕ)) → Bool
all_contiguous [] = true
all_contiguous (versions ∷ logs) = last_version versions == length versions && all_contiguous logs

unfoldable pub complete : Ledger → Bool
complete l = l.ack_count == length l.issued && all_streams l l.streams

unfoldable pub finish : Ledger → Result Complaint (Unit {0})
finish l =
    if l.ack_count == length l.issued
    then if all_streams l l.streams
      then if all_contiguous l.canonical then ok tt else err holes
      else err subscriber_loss
    else err ack_loss

unfoldable pub replay : Ledger → Ledger
replay l = record l { streams = [] }
