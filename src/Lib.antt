-- ===== src/Lib.antt =====
-- The peer-to-peer library of node-in-net: a client that keeps WebRTC sessions with the other nodes of
-- an account, over a signalling server or over TCP tunnels in a local network.
--
-- Parts, and the files that model them:
--   Common: helpers. Boolean tests, lists over the native numbers, `HashMap<String, _>` as `Dict`,
--     `Result<_, String>`, the bytes of texts.
--   Protocol: nodeinnet-api/src/lib.rs and nodeinnet-p2p/src/p2p.rs. The messages, the resource that
--     each names and the types that it may address (`allowed_resource_types`, `resource_id`,
--     `set_resource_id`). `Turn` is nodeinnet-api/src/rtc.rs, the credentials for relays.
--   Chunking: client-core/src/rtc/chunking.rs. `frame_chunks` cuts a message, `push` of the assembler
--     puts it together. `frames_from` is the `while` loop on fuel: one unit for each byte of the
--     message is enough, since a round takes at least one byte.
--   Crypto: nodeinnet-api/src/crypto.rs. Signatures on handshakes and messages, and MACs, over the
--     libraries as a record of functions, `Primitives`; `IsSound` says what their documentation says.
--     `decimal` prints a number on fuel `n + 1`, which is more than its digits.
--   Registry: nodeinnet-p2p/src/lib.rs. The known keys and names, the peer store's entries and the
--     endpoints.
--   Discovery: p2p-node/src/mdns_discovery.rs. What the scanner does with an advert; `parse_port` is
--     `parse::<u16>`.
--   Node: p2p-node/src/lib.rs. The context of one session: `process_message` with its access check,
--     the answer to a handshake, `send_msg` with its MAC.
--   Session: client-core/src/rtc/core.rs and `handle_incoming_p2p_message` of client-core/src/rtc/mod.rs.
--     What an incoming message passes before it reaches Node: the MAC of its resource, the check that the
--     peer is authenticated, the signature of a handshake. The polls, ten and 25, are the fuel.
--   Client: client-core/src/rtc/mod.rs, the rest of it. `Outbound` is the task that drains the queue of a
--     session, `send_chunked_binary` and what the channel writes when it opens; `Outbound/Handover` is the
--     same as steps that interleave, with writes that fail. `KeepAlive` is the ping task, `Transport` the callback for a change of
--     the transport with the ICE restart, `Desktop` remote desktop. The 100 polls for a session key are the
--     fuel of `find_session_key`, as in the source.
--   Video: client-core/src/rtc/video_utils.rs without `simd-yuv`. `luma`, `chroma_u`, `chroma_v` and `decoded`
--     are the arithmetic on a pixel, `Encoder` and `Decoder` the loops; a read or a write out of range is
--     `none`, and the indices of `usize` wrap as in a release build. `Encoder/Pixels` is the scaling alone.
--   Mesh: p2p-node/src/local_mesh.rs. `Packets` frames the stream, `Tunnel` is the handshake of both
--     ends, `Loop` the task of an open tunnel, `Messages` what its messages do to the tables of the
--     process. Noise and serde_json are parameters.
--   Limits: client-core/src/limits.rs. Rates, queue sizes and the timeouts that are put in bounds.
--   Network: client-core/src/network. `State` is `NetworkManager` with the effects of its handlers;
--     `Peers` and `Dial` are peer_orchestrator.rs, `Server` is ws_client.rs, `Route` the routing of
--     signals in mod.rs and `handle_peer_signal`, `Commands` the dispatch of manager.rs and
--     p2p_transfer.rs, `Run` the start and the loop of `run_network_manager`, with the states of the sessions,
--     which the library changes, as events. The ten attempts of
--     `route_rtc_signal` are its fuel, as in the source.
--
-- How the parts meet: a tunnel of Mesh hands signals to the manager of Network, which sends its own
-- through `route_rtc_signal`; both read the known keys of Registry; the messages of a session leave by
-- Client and Chunking, and on the other side pass Chunking and Session and end in `process_message` of
-- Node, whose MACs and the handshakes of Mesh use Crypto; the timeouts of Client are those that Limits
-- puts in bounds.
--
-- Conventions: an unsigned number is a natural number, with its wrap-around written out where the
-- source casts; a clock reading is an argument; a mutex is the state that is passed on; a task that is
-- spawned, a send and a callback are effects in a list; lines of the log are left out.
--
-- Not modelled: the making of a connection in client-core/src/rtc/mod.rs, which is calls of the WebRTC
-- library, the loop that captures and encodes a screen, the mDNS daemon and advertiser, the conversion of
-- pixels by SIMD, the token bucket of limits.rs (floating point), the HTTP API, the sockets themselves and
-- the limit of 100 messages in the channel of a tunnel.
pub mod Common
pub mod Protocol
pub mod Chunking
pub mod Crypto
pub mod Registry
pub mod Node
pub mod Mesh
pub mod Limits
pub mod Network
pub mod Session
pub mod Discovery
pub mod Client
pub mod Video
