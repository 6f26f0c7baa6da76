-- ===== src/Server/Session/Answers.antt =====
-- session.rs: who is answered, at once or by the pump.
use lug.Prelude.{
  ℕ, ◌≡◌, refl, Bool, true, false, not, ◌&&◌, List, [], ◌∷◌, if◌then◌else◌, Result, ok, err, arith,
}
use lug.Proto.{Mode, Request, Response, Code, request_id, response_id}
use lug.Server.Session.{
  Waiting, for_ack, for_view, Handle, World, Effect, reply, command_append, command_view, wait_for,
  spawn, Streams, contains_key, handle, is_reducible, is_none, grant, cancel, dispatch,
}

abbrev pub waiting_id : Waiting → ℕ
waiting_id (for_ack id) = id
waiting_id (for_view id) = id

-- Whether a subscription opens on a connection with a token.
abbrev pub subscribes : {N : Type 0} → World N → Streams → ℕ → Mode → Result Code (Handle N) → Bool
subscribes w streams id mode (err code) = false
subscribes w streams id mode (ok h) =
    not (is_reducible mode && not h.info.reducible)
    && not (contains_key id streams)
    && not (is_none w.token)

module _ {N J : Type 0} where
  -- The ids that effects answer: by a frame now, or by the one frame of the pump.
  abbrev pub answered : List (Effect N J) → List ℕ
  answered [] = []
  answered (reply f ∷ effects) = response_id f ∷ answered effects
  answered (wait_for waiting ∷ effects) = waiting_id waiting ∷ answered effects
  answered (_ ∷ effects) = answered effects

  -- The requests that get no frame from the session: a cancel of an open stream, and a subscription
  -- that opens where the connection has a token.
  abbrev pub silent : World N → Streams → Request N J → Bool
  silent w streams (Request.cancel id) = contains_key id streams
  silent w streams (Request.subscribe id log from mode more) =
      subscribes w streams id mode (handle w log)
  silent w streams _ = false

  -- The table of lug-proto: which effects a request may have. Any request may fail.
  abbrev pub suits : Request N J → Effect N J → Bool
  suits req (reply (Response.error id code)) = true
  suits (Request.hello id version) (reply (Response.welcome id' version' max session)) = true
  suits (Request.append id log patches durability) (command_append log' patches' durability') = true
  suits (Request.append id log patches durability) (wait_for (for_ack id')) = true
  suits (Request.create id log kept) (reply (Response.logs id' (info ∷ []))) = true
  suits (Request.list id) (reply (Response.logs id' infos)) = true
  suits (Request.read id log at) (command_view log' at') = true
  suits (Request.read id log at) (wait_for (for_view id')) = true
  suits (Request.credit id more) (reply (Response.accepted id')) = true
  suits (Request.ping id) (reply (Response.pong id')) = true
  suits (Request.subscribe id log from mode more) (reply (Response.accepted id')) = true
  suits (Request.subscribe id log from mode more) (spawn stream) = true
  suits req effect = false

  abbrev pub all_suit : Request N J → List (Effect N J) → Bool
  all_suit req [] = true
  all_suit req (effect ∷ effects) = suits req effect && all_suit req effects

  -- Every request is answered exactly once, under its own id, now or by the pump, except a cancel that
  -- found its stream and a subscription that opens on a connection with a token, which get no frame
  -- from the session; and each effect is one that the protocol's table has for that request, or a
  -- failure.
  pub dispatch-answered :
      (w : World N) (streams : Streams) (req : Request N J)
      → (answered (dispatch w streams req).1
          ≡ (if silent w streams req then [] else request_id req ∷ []))
        × (all_suit req (dispatch w streams req).1 ≡ true)
  unfolding dispatch grant cancel
  dispatch-answered w streams (Request.hello id version) = (refl, refl)
  dispatch-answered w streams (Request.ping id) = (refl, refl)
  dispatch-answered w streams (Request.list id) = (refl, refl)
  dispatch-answered w streams (Request.create id log kept) = (ground arith, ground arith)
  dispatch-answered w streams (Request.append id log patches durability) =
      (ground arith, ground arith)
  dispatch-answered w streams (Request.read id log at) = (ground arith, ground arith)
  dispatch-answered w streams (Request.subscribe id log from mode more) =
      (ground arith, ground arith)
  dispatch-answered w streams (Request.credit id more) = (ground arith, ground arith)
  dispatch-answered w streams (Request.cancel id) = (ground arith, ground arith)
