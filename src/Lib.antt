-- ===== src/Lib.antt =====
-- rstun: TCP and UDP tunnels over one QUIC connection, with a login, heartbeats, local servers,
-- chained channels and an optional zstd codec.
--
-- A client (src/client.rs) reads its configuration (src/lib.rs), resolves the server, logs in with a
-- control message (src/tunnel_message.rs) and serves a tunnel until it is stopped. The server
-- (src/server.rs) checks the login and either accepts streams or opens a local listener for an
-- inbound tunnel. A TCP stream is announced by its target (src/util/stream_util.rs) and copied, or
-- compressed with a pair of codec states that both sides agree on (src/codec). A UDP flow has a
-- stream of length-prefixed datagrams (src/udp/udp_tunnel.rs).
--
-- Base: lists, tests, results and big-endian numbers; Io: a reader, as the bytes that arrive and how
--   they end, for `AsyncRead::read_exact`; Net: addresses, targets and the tunnel data of src/lib.rs.
-- Target: src/util/stream_util.rs, `encode_tunnel_target`, `read_tunnel_target`,
--   `read_optional_tunnel_target`.
-- Message: src/tunnel_message.rs, `send_to`, `recv_from` and the raw datagrams; bincode is a parameter.
-- Flow: src/util/stream_util.rs, `stream_to_quic`, `quic_to_stream` and the loops of `start_flowing`,
--   with its two tasks and their signals (Tasks).
-- Http: src/codec/http.rs, `HttpMessageReader`; httparse is a parameter. A `usize` has 64 bits and
--   wraps, as in a release build.
-- Codec: src/codec/lru.rs and src/codec/handshake.rs, `checkout`, `lookup`, `checkin`,
--   `exchange_pair_id`, and the end of a task in src/codec/mod.rs. The states of the
--   codecs are a parameter; eviction from the cache and allocation failures are left out.
-- Compress: src/codec/mod.rs, `start_flowing_with_codec` (Session), `run_encoder` (run_basic, and
--   run_http for HTTP), `run_decoder`, `CodecConfig` and the client's
--   `codec_config`. The zstd crate is a parameter; what the code relies on is the record `Lawful` of
--   Compress/Agree: a decoder that was fed exactly the output of an encoder decodes what it writes
--   next, but for a part that stays pending until a flush. A round of the `select!` says when its
--   read would be done. run_http has fuel for its messages: one more than the bytes that arrive.
-- TcpServer, UdpServer: src/tcp/tcp_server.rs and src/udp/udp_server.rs, the state behind the lock
--   and the loops, with accepts, packets and channel results as events.
-- TcpTunnel: src/tcp/tcp_tunnel.rs, `start_serving` with its pending request over reconnections, under
--   the `select!` of src/client.rs that drops it when the connection closes (what becomes of the
--   requests in Kept and Requests, a refused target in HeldUp),
--   and the accepting side (Accept, and Join for both sides together); a connection attempt and the
--   embedder's connector are parameters.
-- Udp: src/udp/udp_tunnel.rs, streams by key (Streams), chained channels (Ports, Channel, Router) and
--   targets (Resolve), the accepting side (Accept, and FarSide for both sides together, against the
--   description of Reached); DNS answers
--   and what sockets do are parameters. `process` has fuel for its datagrams: their number is enough.
-- Heartbeat: src/heartbeat.rs. Events: src/tunnel_event_bus.rs.
-- Config: src/lib.rs, `ClientConfig::create`, `parse_addr_mappings`, `parse_sni_names`,
--   `build_quic_transport_config`; the parsers of socket addresses and server names are parameters.
-- Loops: which tunnel loop `handle_network_based_tunnel` and `handle_channel_based_tunnel` of
--   src/client.rs and `serve` of src/server.rs run, with which codec.
-- Server: src/server.rs, `authenticate_connection` and what it calls, the start and the removal of
--   sessions.
-- Client: src/client.rs, `connect_once`, `login`, `connect_and_serve`, `stop`, `parse_server_addr`,
--   timeouts and SNI names; Client/Serve: `serve_outbound_tcp` and `serve_outbound_udp` with the
--   servers and receivers kept between connections; Client/Tls: `parse_client_config_and_domain` and
--   the certificate verifiers, with rustls as a parameter; Client/Traffic: the traffic statistics.
-- Cli: src/bin/rstun.rs, the arguments with their defaults and the configurations made of them.
--
-- Loops are recursion on the list of the events they meet; an empty list stands for a loop that
-- waits, so only the two loops named above need fuel. The one counted loop, of 65535 rounds in
-- `reserve_channel_local_addr`, recurs on its rounds. Numbers of the code are natural numbers;
-- arithmetic that can wrap is written with its modulus. Shared state is passed along, and what other
-- tasks do to it is an event.
--
-- Not modelled: QUIC and TLS, sockets and their options, DNS itself, logging, the timers of the
-- reports, the parser of the command line, certificate files (src/pem_util.rs), socket protection
-- (src/socket_protector.rs), the migration of the client's endpoint, and the texts of `Display`.
pub mod Base
pub mod Io
pub mod Net
pub mod Target
pub mod Message
pub mod Flow
pub mod Http
pub mod Codec
pub mod Compress
pub mod TcpServer
pub mod TcpTunnel
pub mod UdpServer
pub mod Udp
pub mod Heartbeat
pub mod Events
pub mod Config
pub mod Loops
pub mod Server
pub mod Client
pub mod Cli
