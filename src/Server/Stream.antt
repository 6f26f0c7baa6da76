-- ===== src/Server/Stream.antt =====
-- crates/lug-server/src/stream.rs: the task of one subscription. What the loop finds in a round (the
-- credit, the watermark, the ring, the answer of the log's actor, and whether the channel that the
-- round ends on is still open) is that round's `Round`.
pub mod Credit
pub mod Order
pub mod FromActor
mod Examples
mod FromActorExample
use lug.Prelude.{
  ℕ, ◌+◌, ◌-◌, Bool, true, false, List, [], ◌∷◌, ◌++◌, map, length, last_or, leb, if◌then◌else◌,
  min, max, Result, ok, err,
}
use lug.Proto.{Mode, Record, Response, Code}
use lug.Server.Actor.{CatchUp, caught}
use lug.Server.Ring.{Entry, Ring, Read, too_old}
use lug.Server.Ring

pub record Limits : Type 0 where
  -- Records in one pushed frame.
  pub push : ℕ
  pub push_bytes : ℕ

pub record Stream : Type 0 where
  pub id : ℕ
  pub from : ℕ
  pub mode : Mode
  pub limits : Limits

pub record Serving : Type 0 where
  pub cursor : ℕ
  pub used : ℕ

-- The receivers that the task parks on.
pub data Wait : Type 0 where
  on_flow on_either on_watermark : Wait

-- What a turn of the loop does: park, send a frame and go on, or send a frame and return.
pub data Turn (N J : Type 0) : Type 0 where
  park : Wait → Turn N J
  send : Response N J → Serving → Turn N J
  leave : Response N J → Turn N J

pub record Round (J : Type 0) : Type 0 where
  pub granted : ℕ
  pub watermark : ℕ
  pub ring : Ring J
  pub catch_up : ℕ → ℕ → Result Code (CatchUp J)
  pub open_ : Bool

abbrev pub pushed_record : {J : Type 0} → Entry J → Record J
pushed_record e = record { version = e.version; patch = e.patch }

module _ {N J : Type 0} (s : Stream) where
  -- The end of a turn that has entries to push.
  unfoldable pub push_entries : Serving → Entry J → List (Entry J) → Turn N J
  push_entries at e es =
      send (Response.records s.id (map pushed_record (e ∷ es)))
        (record { cursor = (last_or e es).version; used = at.used + length (e ∷ es) })

  -- `catch_up`, whose limit is at least one, and what the turn makes of the answer.
  unfoldable pub from_storage : Round J → Serving → ℕ → Turn N J
  unfolding push_entries
  from_storage w at allowance = elim (w.catch_up at.cursor (max allowance 1)) [
    | err code ↦ leave (Response.error s.id code)
    | ok (CatchUp.gap to) ↦ send (Response.gap s.id at.cursor to) (record at { cursor = to })
    | ok (caught []) ↦ park on_watermark
    | ok (caught (e ∷ es)) ↦ push_entries at e es
  ]

  -- What the ring holds, or else storage.
  unfoldable pub from_ring : Round J → Serving → ℕ → Turn N J
  unfolding from_storage push_entries
  from_ring w at allowance = elim (Ring.read_after w.ring at.cursor allowance s.limits.push_bytes) [
    | Read.records (e ∷ es) ↦ push_entries at e es
    | Read.records [] ↦ from_storage w at allowance
    | too_old ↦ from_storage w at allowance
  ]

  unfoldable pub turn : Round J → Serving → Turn N J
  unfolding from_ring
  turn w at =
      if leb w.granted at.used
      then park on_flow
      else if leb w.watermark at.cursor
      then park on_either
      else from_ring w at (min (w.granted - at.used) s.limits.push)

  -- The loop, through the rounds that come: the frames that it gives to the connection's channel, until
  -- it finds a channel closed.
  unfoldable pub loop : List (Round J) → Serving → List (Response N J)
  unfolding turn
  loop [] at = []
  loop (w ∷ rounds) at = elim (turn w at) [
    | park wait ↦ if w.open_ then loop rounds at else []
    | leave frame ↦ frame ∷ []
    | send frame next ↦ frame ∷ (if w.open_ then loop rounds next else [])
  ]

  -- `serve`, where `viewed` is the answer of the actor to a view.
  unfoldable pub serve : Result Code (ℕ × J) → Bool → List (Round J) → List (Response N J)
  unfolding loop
  serve viewed open_ rounds = elim s.mode [
    | Mode.records ↦ loop rounds (record { cursor = s.from; used = 0 })
    | Mode.reducible ↦ elim viewed [
      | err code ↦ Response.error s.id code ∷ []
      | ok (version, value) ↦
          Response.view s.id version value
          ∷ (if open_ then loop rounds (record { cursor = max s.from version; used = 0 }) else [])
    ]
  ]

  -- `run`: after `serve` comes the end of the stream.
  unfoldable pub run : Result Code (ℕ × J) → Bool → List (Round J) → List (Response N J)
  unfolding serve
  run viewed open_ rounds = serve viewed open_ rounds ++ Response.end s.id ∷ []
