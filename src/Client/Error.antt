-- ===== src/Client/Error.antt =====
-- crates/lug-client/src/error.rs, and `fatal` of follower.rs. `V` stands for the errors of cavlc.
-- Ids, messages and sources are left out.
use lug.Prelude.{Bool, true, false}
use lug.Proto.{
  Code, rejected, no_such_log, unauthorized, malformed, storage, backpressure, internal,
}

pub data ClientError (V : Type 0) : Type 0 where
  server : Code → ClientError V
  disconnected connect timeout protocol overrun codec io http closed : ClientError V
  view : V → ClientError V

abbrev pub is_transient_code : Code → Bool
is_transient_code storage = true
is_transient_code internal = true
is_transient_code backpressure = true
is_transient_code _ = false

abbrev pub is_transient : {V : Type 0} → ClientError V → Bool
is_transient (server code) = is_transient_code code
is_transient disconnected = true
is_transient connect = true
is_transient timeout = true
is_transient _ = false

abbrev pub is_fatal_code : Code → Bool
is_fatal_code no_such_log = true
is_fatal_code unauthorized = true
is_fatal_code malformed = true
is_fatal_code rejected = true
is_fatal_code _ = false

abbrev pub fatal : {V : Type 0} → ClientError V → Bool
fatal (server code) = is_fatal_code code
fatal (view e) = true
fatal closed = true
fatal _ = false
