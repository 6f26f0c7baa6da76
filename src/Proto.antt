-- ===== src/Proto.antt =====
-- crates/lug-proto/src/lib.rs: the frames. `N` stands for strings and `J` for JSON documents.
pub mod Codec
mod Examples
use lug.Prelude.{ℕ, Bool, true, false, Option, List}

pub data Mode : Type 0 where
  records reducible : Mode

pub data Durability : Type 0 where
  memory written durable : Durability

pub data Request (N J : Type 0) : Type 0 where
  hello : (id version : ℕ) → Request N J
  append : (id : ℕ) (log : N) (patches : List J) (durability : Durability) → Request N J
  subscribe : (id : ℕ) (log : N) (from : ℕ) (mode : Mode) (grant : ℕ) → Request N J
  credit : (id grant : ℕ) → Request N J
  cancel : (id : ℕ) → Request N J
  read : (id : ℕ) (log : N) (at : Option ℕ) → Request N J
  list : (id : ℕ) → Request N J
  create : (id : ℕ) (log : N) (kept : Bool) → Request N J
  ping : (id : ℕ) → Request N J

pub record Record (J : Type 0) : Type 0 where
  pub version : ℕ
  pub patch : J

pub data Event (J : Type 0) : Type 0 where
  record_event : Record J → Event J
  gap_event : (from to : ℕ) → Event J

pub record LogInfo (N : Type 0) : Type 0 where
  pub name : N
  pub reducible : Bool
  pub version : ℕ
  pub oldest : ℕ
  pub subscribers : ℕ

pub data Code : Type 0 where
  rejected no_such_log log_exists not_reducible out_of_range bad_id unauthorized malformed storage
        backpressure internal :
      Code

-- Messages of errors are left out.
pub data Response (N J : Type 0) : Type 0 where
  welcome : (id version max_frame : ℕ) (session : Option N) → Response N J
  ack : (id : ℕ) (versions : List ℕ) (synced : ℕ) → Response N J
  records : (id : ℕ) (batch : List (Record J)) → Response N J
  view : (id version : ℕ) (value : J) → Response N J
  gap : (id from to : ℕ) → Response N J
  logs : (id : ℕ) (infos : List (LogInfo N)) → Response N J
  accepted : (id : ℕ) → Response N J
  end : (id : ℕ) → Response N J
  pong : (id : ℕ) → Response N J
  error : (id : ℕ) (code : Code) → Response N J

module _ {N J : Type 0} where
  abbrev pub request_id : Request N J → ℕ
  request_id (hello id version) = id
  request_id (append id log patches durability) = id
  request_id (subscribe id log from mode grant) = id
  request_id (credit id grant) = id
  request_id (cancel id) = id
  request_id (read id log at) = id
  request_id (list id) = id
  request_id (create id log kept) = id
  request_id (ping id) = id

  abbrev pub response_id : Response N J → ℕ
  response_id (welcome id version max_frame session) = id
  response_id (ack id versions synced) = id
  response_id (records id batch) = id
  response_id (view id version value) = id
  response_id (gap id from to) = id
  response_id (logs id infos) = id
  response_id (accepted id) = id
  response_id (end id) = id
  response_id (pong id) = id
  response_id (error id code) = id

  abbrev pub is_final : Response N J → Bool
  is_final (end id) = true
  is_final (error id code) = true
  is_final _ = false

-- The version that an event leaves the cursor at.
abbrev pub cursor : {J : Type 0} → Event J → ℕ
cursor (record_event rec) = rec.version
cursor (gap_event from to) = to

-- `VERSION`.
abbrev pub protocol_version : ℕ
protocol_version = 1
