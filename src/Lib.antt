-- ===== src/Lib.antt =====
-- A model of the Cyclone DDS WebSocket bridge: clients speak a binary protocol over a WebSocket,
-- and the bridge writes and reads DDS topics for them through the C library Cyclone DDS.
--
-- The parts and the files that model them:
--   * src/protocol.rs: the header (Protocol/Header), the payloads (Protocol/Messages), their parsers
--     (Protocol/Parse, `parse_*`) and serializers (Protocol/Serialize, `serialize_*`), the key
--     descriptors (Protocol/Keys), the codes (Protocol/Codes) and errors (Protocol/Errors). A parser
--     that advances a `&mut &[u8]` is a `Reader`: a function from the bytes to an error or a value
--     and the bytes left (Protocol/Reader).
--   * src/qos.rs: policies, their defaults and `normalize` (Qos/Policy), `normalized_eq`
--     (Qos/Normalize), `parse_qos` and `serialize_qos` (Qos/Codec).
--   * src/dds/qos_handle.rs: the `dds_qset_*` calls made for a QoS set (Dds/QosHandle).
--   * src/dds/sertype.rs: `create_opaque_sertype` (Dds/Sertype), `SampleWrapper` (Dds/Api), the key
--     helpers (Dds/Sertype/Keys), the hashes (Dds/Sertype/Murmur, Dds/Sertype/Md5), the callbacks
--     of serdata as functions of bytes (Dds/Sertype/Serdata), and the reference counts of serdata and
--     the freeing of samples (Dds/Sertype/Refs).
--   * src/dds/participant.rs: the participant and the topic cache (Dds/Participant; `new` is
--     `new_participant`).
--   * src/dds/writer.rs: the writer registry (Dds/Writer; `get`, `delete` and `remove_session` are
--     `get_writer`, `delete_writer` and `remove_session_writers`) and the writers' own calls
--     (Dds/Writer/Entity).
--   * src/dds/reader.rs: readers and `take_samples` (Dds/Reader) and the reader registry
--     (Dds/Readers; `remove_session` is `remove_session_readers` of Dds/Readers/Cleanup).
--   * src/dds/error.rs: Dds/Errors.
--   * src/bridge.rs: the state `BridgeInner` and sessions (Bridge), the handlers as actions on it that
--     may fail with a reply or panic (Bridge/Handler; their replies in Bridge/Handler/Replies,
--     `do_write_op` and the dispose notifications in Bridge/Handler/Writes, the `handle_*` in
--     Bridge/Handler/Requests) and the two parts of a tick of `reader_poll_loop`, under the lock
--     and after it (Bridge/Poll). Their invariant is in Bridge/Invariant, the calls of many
--     sessions in some order in Bridge/Reach. The calls of `try_send` and what a channel took are
--     in Bridge/Inbox. The whole of `create_bridge`, with the participant, is `try_create_bridge`.
--   * src/ws/session.rs: `process_binary_frame` (Ws/Frame), `run_session` as the steps of its reader
--     loop, its writer task and its peer (Ws/Session), and the calls that its reader loop makes of
--     the bridge, among those of other sessions and of the poll loop (Ws/Calls).
--   * src/ws/server.rs: the accept loop and its tasks as steps, and the answer to a health check
--     (Ws/Server).
--   * src/config.rs and src/main.rs: the defaults (Config), the environment and the arguments
--     (Config/Env), `main` up to its spawns and `run_healthcheck` (Main).
-- Base holds what they share: lists of bytes, little-endian words, UTF-8, association lists and sets
-- for the hash maps and sets, results, and the interface Base/Buf for the `bytes` crate. Tests holds
-- concrete inputs.
--
-- State is passed explicitly. The C library and the `try_send` of tokio's channels are the
-- parameter `Dds` of Dds/Api: an abstract world and the calls that change it;
-- `dds_create_participant` and the number of the default domain are parameters of Dds/Participant
-- and of what uses it, and the network is the parameter `probe` of the health check. A method that
-- drops writers or readers returns the handles of those that it drops, in place of the deletions
-- that their `Drop` makes, and `subscribe` makes them itself. A panic is an outcome. Integers of a
-- width keep it: counters wrap, and lengths and counts that are written with a cast are reduced.
-- Loops are recursion on their lists or their counts; the one loop of the program on fuel, the
-- padding of MD5, has a theorem that its fuel is enough. A hash map is a list in the order in
-- which the map is iterated. The lock of the bridge makes each handler one step. A `try_send` of
-- the bridge is a call of that parameter, which may fail, and is logged with its result in
-- `outbox`. In Ws/Session the socket and the scheduler are events that happen in any order, and
-- when a channel has room is a parameter; that a channel keeps the order of its messages is taken
-- from tokio.
--
-- Not modelled: the addresses of the raw buffers of src/dds/sertype.rs (a buffer that is given back
-- is a count), the reading of TOML, logging, signals, the WebSocket handshake, the deletion of C QoS
-- handles, and build.rs with the bindings that it generates.
pub mod Base
pub mod Protocol
pub mod Qos
pub mod Config
pub mod Dds
pub mod Bridge
pub mod Ws
pub mod Main
pub mod Tests
