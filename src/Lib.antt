-- ===== src/Lib.antt =====
-- lug, a versioned patch log. A log folds JSON patches into a data structure, writes each patch as a
-- record of a storage, and fans the records out to subscribers. Crates, from the bottom up:
--
-- - crates/cavlc is the reference data structure. Cavlc/Value has its values, Cavlc/Avl the map of
--   avl.rs (`insert`, `remove`, `get` and the iterator, on nodes that cache height and size),
--   Cavlc/Patch the patches of patch.rs (`validate`, `apply`), Cavlc/Store the snapshots, batches and
--   log of mvcc.rs (`apply_batch`, `truncate`, `snapshot_at`, `replay`). Keys are any ordered type,
--   atoms any type with equality. An `Arc` is its contents; where patch.rs asks whether two roots are
--   the same `Arc`, a Boolean beside the value says so, and a store's identity is a number.
-- - crates/lug-core joins a data structure and a storage. Core/Reducible is the trait of reducible.rs
--   as a record of operations. Of the promises of its documentation, `IsLawful` has those that a log
--   relies on and `IsStrict` adds those about stale work and resumed history; Core/Noop is the
--   structure that counts, Core/CavlcImpl the store. Core/Storage is the trait of storage.rs, and
--   Core/Log the log of log.rs (`open` is `open_log`; `append` is the loop `fold`, then `write` and
--   `settle`). Core/Log is written against both interfaces. The JSON encoding of patches, serde_json,
--   is the parameter `Codec`.
-- - crates/lug-wal is the storage of segment files. Wal/Format has the shapes of format.rs, Wal/Segment
--   the `scan` of segment.rs on the bytes of a file, with `Wal/Segment/Contents` for what files hold,
--   Wal/Store the `SegmentStore` of lib.rs: `append` with `rotate` in Wal/Store/Append, `list_segments`,
--   `read_header` and `recover` in Wal/Store/Recover, `write_header`, `load`, `read_after` and the rest
--   in Wal/Store/Serve. The file system is the record of operations Wal/Files, which has no laws; the
--   checksum of crc32fast and the JSON of a header are parameters.
-- - crates/lug-proto is the wire. Proto has the requests, responses and events of lib.rs, Proto/Codec
--   the frames of codec.rs, with serde_json as a parameter.
-- - crates/lug-server is the daemon. Server/Ring is the fan-out buffer of ring.rs, Server/Json the JSON
--   values with `estimate`, Server/Acl the access list of acl.rs, Server/Memory the storage `Memory` of
--   storage.rs, and Server/Actor the owner of a log of actor.rs: `commit` with `isolate` and `publish`
--   in Server/Actor itself, the queue (`drain`, `answer`, `catch_up`, `run`) in Server/Actor/Queue.
--   Channels are a trace of events; a reply channel is the number of its request. Server/Session is a
--   connection of session.rs: `dispatch` gives the stream table and the effects of a request.
--   Server/Stream is the task of stream.rs: `turn` is one round of its loop, on what that round finds,
--   and `run` the frames of a whole sequence of rounds.
-- - crates/lug-load drives a daemon and checks it. Load/Ledger is the ledger of check.rs: `issue`, `ack`,
--   `records` and `finish`, with `bind`, which ties a payload to a version of a log.
-- - crates/lug-client follows a log from another process. Client/Error is error.rs, Client/Follower the
--   task of follower.rs: `session` goes through the frames of a subscription (`fold`, `recover`, `adopt`,
--   `emit`), over the interface `Mirror` of the store that it folds patches into. What the world answers,
--   the room in the consumer's channel among it, is a function of the number of attempts so far.
--
-- Methods with `&mut self` return the new state with the result. Versions are `u64`: `checked_add` is
-- `checked_suc`, and a plain sum is taken modulo 2 ^ 64, but for two: the ledger's, whose counters stay
-- far below, and `keep + 1` in `Store::truncate`, which overflows at version 2 ^ 64 - 1 of a store with
-- base 0 only: there the code is left without a snapshot, and the model as it was. Loops are structural, except for two: the iterator of a map, whose fuel is one
-- more than the size that the map caches, which is how often it is asked; and the scan of a segment,
-- whose fuel is one more than the bytes of the file, since each round takes some.
--
-- Not modelled: the rest of lug-client, lug-tui, cavlc-demo, the rest of lug-load, and the sockets, HTTP, registry
-- and configuration of lug-server: most of that is input, output and drawing. `Patch::merge`, the
-- conversions of values from and to JSON, and the pump of a session are left out too, and so is what
-- the bytes of a store are after a sequence of calls, for which Wal/Files would need laws.
mod Prelude
pub mod Cavlc
pub mod Core
pub mod Proto
pub mod Server
pub mod Load
pub mod Client
pub mod Wal
