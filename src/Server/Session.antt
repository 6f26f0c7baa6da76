-- ===== src/Server/Session.antt =====
-- crates/lug-server/src/session.rs: one connection. What a request makes the session do is a list of
-- effects, in the order of the calls: frames to the connection's channel, commands to the actor of a
-- log, replies that the pump is to wait for, and streams that start. The registry, the access list and
-- whether the channels are open are the session's `World`. Messages of failures are left out.
pub mod Answers
pub mod Table
mod Examples
use lug.Prelude.{
  ℕ, ◌+◌, ◌-◌, Bool, true, false, not, ◌&&◌, Option, none, some, List, [], ◌∷◌, ◌++◌, ◌==◌,
  if◌then◌else◌, min, u64_mod, Result, ok, err,
}
use lug.Proto.{
  Mode, Durability, memory, written, durable, Request, Response, LogInfo, Code, unauthorized,
  not_reducible, internal, no_such_log, bad_id, protocol_version,
}
use lug.Proto.Codec.{max_frame}
use lug.Core.Log.{Durability as LogDurability}
use lug.Core.Log
use lug.Server.Acl.{Acl, allows}
use lug.Server.Stream.{Stream, Limits}

-- `Waiting`.
pub data Waiting : Type 0 where
  for_ack for_view : ℕ → Waiting

-- What connection tasks see of a log: its name and shape, and whether its actor still takes commands.
pub record Handle (N : Type 0) : Type 0 where
  pub info : LogInfo N
  pub running : Bool

pub record World (N : Type 0) : Type 0 where
  pub get : N → Option (Handle N)
  pub create : N → Bool → Result Code (Handle N)
  pub listed : List (LogInfo N)
  pub acl : Acl N
  pub uid : ℕ
  pub token : Option N
  pub pump_open : Bool
  pub limits : Limits

pub data Effect (N J : Type 0) : Type 0 where
  reply : Response N J → Effect N J
  command_append : N → List J → LogDurability → Effect N J
  command_view : N → Option ℕ → Effect N J
  wait_for : Waiting → Effect N J
  spawn : Stream → Effect N J

-- The credit granted so far, by the id of the stream.
abbrev pub Streams : Type 0
Streams = List (ℕ × ℕ)

abbrev pub contains_key : ℕ → Streams → Bool
contains_key id [] = false
contains_key id ((k, granted) ∷ streams) = if k == id then true else contains_key id streams

abbrev pub remove : ℕ → Streams → Streams
remove id [] = []
remove id ((k, granted) ∷ streams) =
    if k == id then remove id streams else (k, granted) ∷ remove id streams

-- `saturating_add` on a `u64`.
abbrev pub saturating_add : ℕ → ℕ → ℕ
saturating_add a b = min (a + b) (u64_mod - 1)

abbrev pub extend : ℕ → ℕ → Streams → Streams
extend id more [] = []
extend id more ((k, granted) ∷ streams) =
    (k, if k == id then saturating_add granted more else granted) ∷ extend id more streams

unfoldable pub grant : Streams → ℕ → ℕ → Streams × Result Code (Unit {0})
grant streams id more =
    if contains_key id streams then (extend id more streams, ok tt) else (streams, err bad_id)

unfoldable pub cancel : Streams → ℕ → Streams × Result Code (Unit {0})
cancel streams id =
    if contains_key id streams then (remove id streams, ok tt) else (streams, err bad_id)

unfoldable pub forget : Streams → ℕ → Streams
forget streams id = remove id streams

unfoldable pub close : Streams → Streams
close streams = []

abbrev pub durability_of : Durability → LogDurability
durability_of memory = Log.memory
durability_of written = Log.written
durability_of durable = Log.durable

-- `handle`: the log, or the failure that the client is told.
unfoldable pub handle : {N : Type 0} → World N → N → Result Code (Handle N)
handle w log =
    if allows w.acl w.uid log
    then (elim (w.get log) [ none ↦ err no_such_log | some h ↦ ok h ])
    else err unauthorized

abbrev pub is_reducible : Mode → Bool
is_reducible Mode.records = false
is_reducible Mode.reducible = true

abbrev pub is_none : {A : Type 0} → Option A → Bool
is_none none = true
is_none (some a) = false

module _ {N J : Type 0} (w : World N) where
  abbrev pub fail : ℕ → Code → List (Effect N J)
  fail id code = reply (Response.error id code) ∷ []

  -- The end of an append or a read whose command has been sent.
  abbrev pub then_wait : ℕ → Effect N J → Waiting → List (Effect N J)
  then_wait id command waiting =
      command ∷ (if w.pump_open then wait_for waiting ∷ [] else fail id internal)

  abbrev pub on_append : ℕ → N → List J → Durability → Result Code (Handle N) → List (Effect N J)
  on_append id log patches durability (err code) = fail id code
  on_append id log patches durability (ok h) =
      if h.running
      then then_wait id (command_append log patches (durability_of durability)) (for_ack id)
      else fail id internal

  abbrev pub on_read : ℕ → N → Option ℕ → Result Code (Handle N) → List (Effect N J)
  on_read id log at (err code) = fail id code
  on_read id log at (ok h) =
      if h.info.reducible
      then if h.running then then_wait id (command_view log at) (for_view id) else fail id internal
      else fail id not_reducible

  -- A stream that starts, after an `Ok` where there is no token.
  abbrev pub opened : ℕ → ℕ → Mode → List (Effect N J)
  opened id from mode =
      (if is_none w.token then reply (Response.accepted id) ∷ [] else [])
      ++ spawn (record { id = id; from = from; mode = mode; limits = w.limits }) ∷ []

  abbrev pub on_subscribe :
      Streams → ℕ → ℕ → Mode → ℕ → Result Code (Handle N) → Streams × List (Effect N J)
  on_subscribe streams id from mode credit (err code) = (streams, fail id code)
  on_subscribe streams id from mode credit (ok h) =
      if is_reducible mode && not h.info.reducible
      then (streams, fail id not_reducible)
      else if contains_key id streams
      then (streams, fail id bad_id)
      else ((id, credit) ∷ streams, opened id from mode)

  abbrev pub on_create : ℕ → Result Code (Handle N) → List (Effect N J)
  on_create id (err code) = fail id code
  on_create id (ok h) = reply (Response.logs id (h.info ∷ [])) ∷ []

  abbrev pub on_credit : ℕ → Result Code (Unit {0}) → List (Effect N J)
  on_credit id (err code) = fail id code
  on_credit id (ok _) = reply (Response.accepted id) ∷ []

  abbrev pub on_cancel : ℕ → Result Code (Unit {0}) → List (Effect N J)
  on_cancel id (err code) = fail id code
  on_cancel id (ok _) = []

  unfoldable pub dispatch : Streams → Request N J → Streams × List (Effect N J)
  unfolding handle grant cancel
  dispatch streams (Request.hello id version) =
      (streams, reply (Response.welcome id protocol_version max_frame w.token) ∷ [])
  dispatch streams (Request.ping id) = (streams, reply (Response.pong id) ∷ [])
  dispatch streams (Request.list id) = (streams, reply (Response.logs id w.listed) ∷ [])
  dispatch streams (Request.create id log kept) = (
    streams,
    if allows w.acl w.uid log then on_create id (w.create log kept) else fail id unauthorized,
  )
  dispatch streams (Request.append id log patches durability) =
      (streams, on_append id log patches durability (handle w log))
  dispatch streams (Request.read id log at) = (streams, on_read id log at (handle w log))
  dispatch streams (Request.subscribe id log from mode more) =
      on_subscribe streams id from mode more (handle w log)
  dispatch streams (Request.credit id more) =
      let (streams', outcome) = grant streams id more in (streams', on_credit id outcome)
  dispatch streams (Request.cancel id) =
      let (streams', outcome) = cancel streams id in (streams', on_cancel id outcome)
