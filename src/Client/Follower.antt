-- ===== src/Client/Follower.antt =====
-- crates/lug-client/src/follower.rs: the task that keeps a copy of a log. The store that it folds
-- patches into is the interface `Mirror`. What the world answers is told by functions of the number of
-- attempts so far: whether the consumer's channel has room, whether a gap that waits for room gets it,
-- and the view that the server gives. What the consumer has been sent, and the states shown, are kept.
pub mod Covered
mod Examples
use lug.Prelude.{
  ℕ, ◌+◌, ◌-◌, Bool, true, false, ◌&&◌, Option, none, some, List, [], ◌∷◌, ◌++◌, ltb, leb, ◌==◌,
  if◌then◌else◌, min, Result, ok, err,
}
use lug.Client.Error.{ClientError, server, protocol, is_transient, fatal}
use lug.Proto.{
  Mode, Event, record_event, gap_event, Record, Response, Code, cursor, no_such_log, unauthorized,
  malformed, rejected, not_reducible, out_of_range,
}

-- `cavlc::Store`, and the JSON of patches.
pub record Mirror (St Sn J Er : Type 0) : Type 0 where
  pub resume : Sn → St
  pub snapshot : St → Sn
  pub version : Sn → ℕ
  -- `serde_json::from_value` and `Store::apply`: the snapshot that a patch leads to.
  pub apply : St → J → St × Result Er Sn

pub data Status (Er : Type 0) : Type 0 where
  live reconnecting ended : Status Er
  failed : Er → Status Er

pub record State (Sn Er : Type 0) : Type 0 where
  pub snapshot : Option Sn
  pub version : ℕ
  pub reducible : Bool
  pub status : Status Er

pub record Task (St Sn J Er : Type 0) : Type 0 where
  pub dropped : Option (ℕ × ℕ)
  pub cursor : ℕ
  pub store : Option St
  pub mode : Mode
  pub delivered : List (Event J)
  pub shown : List (State Sn Er)
  pub tries : ℕ

-- What the world answers at each attempt.
pub record Answers (Sn Er : Type 0) : Type 0 where
  -- `try_send` on the consumer's channel.
  pub room : ℕ → Bool
  -- `send`, which waits for room; it fails where every handle is gone.
  pub sent : ℕ → Bool
  -- `hub.read`, and `View::snapshot` on its answer.
  pub refetch : ℕ → Result Er Sn

-- What ended a round of `session`, or `session` itself.
pub data Step (V : Type 0) : Type 0 where
  go_on restart ended_cleanly : Step V
  broken : ClientError V → Step V

abbrev pub is_some : {A : Type 0} → Option A → Bool
is_some none = false
is_some (some a) = true

abbrev pub is_reducible : Mode → Bool
is_reducible Mode.records = false
is_reducible Mode.reducible = true

module _ {St Sn J V : Type 0} (m : Mirror St Sn J (ClientError V))
    (w : Answers Sn (ClientError V)) where
  unfoldable pub publish :
      Task St Sn J (ClientError V) → Status (ClientError V) → Task St Sn J (ClientError V)
  publish t status = record t {
    shown =
        t.shown
        ++ record {
          snapshot = elim t.store [ none ↦ none | some s ↦ some (m.snapshot s) ];
          version = t.cursor;
          reducible = is_reducible t.mode;
          status = status;
        }
          ∷ [];
  }

  -- A gap takes in what has been dropped, and waits for room.
  unfoldable pub emit_gap : Task St Sn J (ClientError V) → ℕ → ℕ → Task St Sn J (ClientError V)
  emit_gap t from to =
      let start : ℕ = elim t.dropped [ none ↦ from | some (lost, upto) ↦ min lost from ] in
      record t {
        dropped = none;
        delivered = if w.sent t.tries then t.delivered ++ gap_event start to ∷ [] else t.delivered;
        tries = t.tries + 1;
      }

  -- The end of `emit`, where nothing is dropped.
  unfoldable pub try_event : Task St Sn J (ClientError V) → Record J → Task St Sn J (ClientError V)
  try_event t rec =
      if w.room t.tries
      then record t { delivered = t.delivered ++ record_event rec ∷ []; tries = t.tries + 1 }
      else record t { dropped = some (rec.version - 1, rec.version); tries = t.tries + 1 }

  unfoldable pub emit_after :
      Option (ℕ × ℕ) → Task St Sn J (ClientError V) → Record J → Task St Sn J (ClientError V)
  unfolding try_event
  emit_after none t rec = try_event t rec
  emit_after (some (from, to)) t rec =
      if w.room t.tries
      then try_event
          (record t {
            dropped = none;
            delivered = t.delivered ++ gap_event from to ∷ [];
            tries = t.tries + 1;
          })
          rec
      else record t { dropped = some (from, rec.version); tries = t.tries + 1 }

  unfoldable pub emit_record :
      Task St Sn J (ClientError V) → Record J → Task St Sn J (ClientError V)
  unfolding emit_after
  emit_record t rec = emit_after t.dropped t rec

  unfoldable pub adopt : Task St Sn J (ClientError V) → Sn → Task St Sn J (ClientError V)
  unfolding publish
  adopt t sn = publish (record t { cursor = m.version sn; store = some (m.resume sn) }) live

  -- `recover` on a log that keeps a view, once it has been asked for.
  unfoldable pub recover_by :
      Result (ClientError V) Sn
      → Task St Sn J (ClientError V)
      → ℕ
      → ℕ
      → Task St Sn J (ClientError V) × Result (ClientError V) Bool
  unfolding adopt emit_gap
  recover_by (err e) t from to = (t, if is_transient e then ok false else err e)
  recover_by (ok sn) t from to =
      if ltb (m.version sn) to
      then (t, ok false)
      else (adopt (emit_gap t from (m.version sn)) sn, ok true)

  unfoldable pub recover :
      Task St Sn J (ClientError V)
      → ℕ
      → ℕ
      → Task St Sn J (ClientError V) × Result (ClientError V) Bool
  unfolding recover_by emit_gap publish
  recover t from to = elim t.mode [
    | Mode.records ↦ (publish (emit_gap (record t { cursor = to }) from to) live, ok true)
    | Mode.reducible ↦ recover_by (w.refetch t.tries) (record t { tries = t.tries + 1 }) from to
  ]

  -- A record's patch goes into the store, when there is one.
  unfoldable pub fold_patch : Option St → Record J → Option St × Result (ClientError V) (Unit {0})
  fold_patch none rec = (none, ok tt)
  fold_patch (some s) rec =
      let (s', outcome) = m.apply s rec.patch in
      elim outcome [
        | err e ↦ (some s', err e)
        | ok sn ↦ (some s', if m.version sn == rec.version then ok tt else err protocol)
      ]

  -- Once the patch is in the store, the record is emitted, and `more` goes on.
  unfoldable pub folded :
      (Task St Sn J (ClientError V) → Task St Sn J (ClientError V) × Result (ClientError V) Bool)
      → Task St Sn J (ClientError V)
      → Record J
      → Option St × Result (ClientError V) (Unit {0})
      → Task St Sn J (ClientError V) × Result (ClientError V) Bool
  unfolding emit_record
  folded more t rec (store, err e) = (record t { store = store }, err e)
  folded more t rec (store, ok _) =
      more (emit_record (record t { store = store; cursor = rec.version }) rec)

  unfoldable pub fold :
      Task St Sn J (ClientError V)
      → List (Record J)
      → Task St Sn J (ClientError V) × Result (ClientError V) Bool
  unfolding recover fold_patch folded publish
  fold t [] = (publish t live, ok true)
  fold t (rec ∷ records) =
      let skip = fold t records in
      let next =
        folded (λ (t' : Task St Sn J (ClientError V)). fold t' records) t rec
          (fold_patch t.store rec) in
      if leb rec.version t.cursor
      then skip
      else if rec.version == t.cursor + 1
      then next
      else recover t t.cursor (rec.version - 1)

  -- What a frame leads to in `session`: on, a resubscription, or out with an error.
  abbrev pub went :
      Task St Sn J (ClientError V) × Result (ClientError V) Bool
      → Task St Sn J (ClientError V) × Step V
  went (t, ok true) = (t, go_on)
  went (t, ok false) = (t, restart)
  went (t, err e) = (t, broken e)

  -- A view: one that a reconnection brings may skip patches, and then a gap says so.
  unfoldable pub on_view :
      Task St Sn J (ClientError V)
      → Result (ClientError V) Sn
      → Task St Sn J (ClientError V) × Step V
  unfolding adopt emit_gap
  on_view t (err e) = (t, broken e)
  on_view t (ok sn) =
      let told : Task St Sn J (ClientError V) =
        if is_some t.store && ltb t.cursor (m.version sn)
        then emit_gap t t.cursor (m.version sn)
        else t in
      (adopt told sn, go_on)

  unfoldable pub on_refusal :
      Task St Sn J (ClientError V) → Code → Task St Sn J (ClientError V) × Step V
  on_refusal t not_reducible =
      if is_reducible t.mode
      then (record t { mode = Mode.records }, restart)
      else (t, broken (server not_reducible))
  on_refusal t out_of_range = (record t { cursor = 0; store = none }, restart)
  on_refusal t code = (t, broken (server code))

  -- One round of the loop of `session`; `snapshot_from` reads the value of a view.
  unfoldable pub on_frame :
      {N : Type 0}
      → (ℕ → J → Result (ClientError V) Sn)
      → Task St Sn J (ClientError V)
      → Result (ClientError V) (Response N J)
      → Task St Sn J (ClientError V) × Step V
  unfolding on_view on_refusal fold recover
  on_frame snapshot_from t (err (server code)) = on_refusal t code
  on_frame snapshot_from t (err e) = (t, broken e)
  on_frame snapshot_from t (ok (Response.view id version value)) =
      on_view t (snapshot_from version value)
  on_frame snapshot_from t (ok (Response.records id batch)) = went (fold t batch)
  on_frame snapshot_from t (ok (Response.gap id from to)) = went (recover t from to)
  on_frame snapshot_from t (ok frame) = (t, go_on)

  -- `session`, on the frames of one subscription.
  unfoldable pub session :
      {N : Type 0}
      → (ℕ → J → Result (ClientError V) Sn)
      → Task St Sn J (ClientError V)
      → List (Result (ClientError V) (Response N J))
      → Task St Sn J (ClientError V) × Step V
  unfolding on_frame
  session snapshot_from t [] = (t, ended_cleanly)
  session snapshot_from t (frame ∷ frames) =
      let (t', step) = on_frame snapshot_from t frame in
      let rest = session snapshot_from t' frames in
      elim step [
        | go_on ↦ rest
        | restart ↦ (t', restart)
        | ended_cleanly ↦ (t', ended_cleanly)
        | broken e ↦ (t', broken e)
      ]

  -- The status that `run` shows after a session, where it shows one.
  unfoldable pub settle : Task St Sn J (ClientError V) → Step V → Task St Sn J (ClientError V)
  unfolding publish
  settle t go_on = t
  settle t restart = t
  settle t ended_cleanly = publish t ended
  settle t (broken e) = publish t (if fatal e then failed e else reconnecting)
