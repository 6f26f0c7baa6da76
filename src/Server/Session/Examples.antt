-- ===== src/Server/Session/Examples.antt =====
-- The theorems on sessions at a session with one open stream.
use lug.Prelude.{
  ℕ, ◌≡◌, ◌≢◌, refl, true, false, none, some, [], ◌∷◌, arith, err, ◌==◌, if◌then◌else◌,
}
use lug.Proto.{Mode, Request, internal, LogInfo}
use lug.Server.Acl.{Acl}
use lug.Server.Acl
use lug.Server.Session.{Handle, World, Streams, handle, dispatch}
use lug.Server.Session.Answers.{answered, all_suit, dispatch-answered}
use lug.Server.Session.Table.{IsTable, lookup, dispatch-IsTable}

abbrev log_info : LogInfo ℕ
log_info = record { name = 7; reducible = false; version = 4; oldest = 1; subscribers = 0 }

abbrev log_handle : Handle ℕ
log_handle = record { info = log_info; running = true }

abbrev world : World ℕ
world = record {
  get = λ n. if n == 7 then some log_handle else none;
  create = λ n kept. err internal;
  listed = log_info ∷ [];
  acl = record { owner = 1000; allow = λ u. false; logs = λ n. none };
  uid = 1000;
  token = none;
  pump_open = true;
  limits = record { push = 16; push_bytes = 100 };
}

abbrev one_stream : Streams
one_stream = (2, 10) ∷ []

abbrev follow : Request ℕ ℕ
follow = Request.subscribe 3 7 0 Mode.records 8

dispatch-answered_example :
    (answered (dispatch world one_stream follow).1 ≡ 3 ∷ [])
    × (all_suit follow (dispatch world one_stream follow).1 ≡ true)
unfolding handle Acl.allows
dispatch-answered_example = dispatch-answered world one_stream follow

dispatch-follow : (dispatch world one_stream follow).0 ≡ (3, 8) ∷ (2, 10) ∷ []
unfolding dispatch Acl.allows
dispatch-follow = refl

dispatch-IsTable_example :
    IsTable (dispatch world one_stream follow).0
    × ((k : ℕ) → k ≢ 3 → lookup k (dispatch world one_stream follow).0 ≡ lookup k one_stream)
dispatch-IsTable_example =
    dispatch-IsTable world one_stream follow (refl, omega arith, tt) (omega arith)
