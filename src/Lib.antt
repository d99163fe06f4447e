-- ===== src/Lib.antt =====
-- tg-ws-proxy accepts Telegram clients that speak MTProto in its obfuscated form, decrypts their
-- stream and re-encrypts it for Telegram, to which it connects by a WebSocket, through Cloudflare,
-- through an upstream MTProto proxy or by plain TCP. This library models the parts of the Rust
-- program that decide whether a client's bytes arrive, and by which way.
--
-- rust/src/crypto.rs is Crypto: Crypto.Cipher holds what the crates give (a keystream, SHA-256,
-- HMAC), as a record `Primitives` of functions and of the few properties the program relies on,
-- and the stream cipher as key, IV and position; Crypto.Tag the protocol tags and the layout of
-- the 64-byte packet; Crypto.Secret the secrets; Crypto.Handshake `parse_handshake`; Crypto.Random
-- the loop that draws blocks; Crypto.Relay `generate_relay_init`; Crypto.Client
-- `generate_client_handshake`; Crypto.Session `build_connection_ciphers`. Crypto.Client.Accepted,
-- Crypto.Client.Length, Crypto.Relay.Recover and Crypto.Relay.Drawn hold the proofs.
--
-- rust/src/splitter.rs is Splitter: Splitter.Buffer is a vector of bytes with its capacity,
-- Splitter.Lengths the length parsers, Splitter.Split the state `MsgSplitter` with `new`, `split`,
-- `flush` and `trim_idle_buffers`. Splitter.Packets says what a packet is on the wire,
-- Splitter.Scan, Splitter.Shadow, Splitter.Lossless, Splitter.Cuts and Splitter.Frames hold the
-- proofs.
--
-- rust/src/faketls.rs is FakeTls: FakeTls.Record the records and the loops over a stream,
-- FakeTls.ClientHello and FakeTls.ServerHello the two hellos, FakeTls.Utf8 the validity test of
-- `from_utf8`; FakeTls.Framing, FakeTls.HelloBody, FakeTls.ServerName, FakeTls.Signed and
-- FakeTls.Authentic hold the proofs.
--
-- rust/src/proxy.rs is Proxy: Proxy.Cooldown is `CooldownMap`, Proxy.Balance `balanced`,
-- Proxy.Bridge the loops of `bridge_ws`, which use the ciphers of Crypto.Session and the splitter,
-- Proxy.WsSession `bridge_ws` as a whole, its two tasks side by side with `join_bridge`,
-- Proxy.Inbound and Proxy.Accept `accept_inbound_faketls`, without the failure of its write,
-- Proxy.Session the tasks of `bridge_relay` and `bridge_tcp` with `ClientReader` and, as a step
-- relation, `join_bridge`, Proxy.Tiers and Proxy.Route the fallback ladder `select_upstream`, and
-- Proxy.Upstream `connect_mtproto_upstream`. Proxy.Client puts them together: it has
-- `read_inbound_handshake`, Proxy.Client.Reads the reads of a bridge's upload loop, and
-- Proxy.Client.Serve `handle_client_with_runtime`, which takes a client from its first byte
-- through the ladder to one of the bridges. Proxy.Chain, Proxy.Client.Opening,
-- Proxy.Client.Bridged, Proxy.Client.Way, Proxy.Client.Packets, Proxy.Upload, Proxy.EndToEnd,
-- Proxy.Filled, Proxy.Returns, Proxy.Download, Proxy.Carry, Proxy.Delivery, Proxy.Interleaving,
-- Proxy.Ending, Proxy.WsDelivery, Proxy.WsServed, Proxy.Dials and Proxy.Ladder hold the proofs.
--
-- rust/src/ws_client.rs is WsClient: WsClient.Records the host names of a data centre,
-- WsClient.Attempts `CfAttempts`, and WsClient.Connect the result of one attempt and the two walks
-- over the host names, from which the ladder of Proxy.Tiers takes `WsAttempt`. WsClient.Queue,
-- WsClient.Walk and WsClient.Flags hold the proofs. rust/src/outbound/config.rs is Outbound:
-- Outbound.Url a proxy's URL, Outbound.NoProxy the checks of NO_PROXY, Outbound.Select the choice
-- of the proxy; Outbound.Hosts and Outbound.Order hold the proofs. rust/src/default_domains.rs is
-- DefaultDomains, with its proofs in DefaultDomains.RoundTrip, and
-- rust/src/default_domains/http.rs is DefaultDomains.Http: `read_more` and the loops for headers
-- and plain bodies there, `read_chunked_body` in DefaultDomains.Http.Chunked, and
-- `read_http_response_body` in DefaultDomains.Http.Response, with httparse as a parameter;
-- DefaultDomains.Http.Reads, DefaultDomains.Http.Windows, DefaultDomains.Http.Head,
-- DefaultDomains.Http.Bodies and DefaultDomains.Http.Fetched hold the proofs.
--
-- rust/src/pool.rs is Pool (Pool.Shelf the buckets and the refills in flight, Pool.Take and
-- Pool.Bound the proofs), rust/src/limits.rs is Limits, and of rust/src/config.rs the tables of
-- data centres are Config, the secrets and the link Config.Link, with the crate hex as a
-- parameter. Base is shared: lists, texts, Boolean tests and maps over the native numbers, and the
-- laws of `^`. Examples applies the theorems at concrete inputs.
--
-- Conventions. Bytes, words and the characters of texts are native numbers, and a wrap-around is a
-- remainder that is written out. Random draws, the clock and what a connect brings are arguments.
-- A reader is the list of the bytes that the peer sends before its end, for the HTTP response with
-- the reason if the read behind them fails, and a sink says how many sends it takes before it
-- fails. A task that `join_bridge` aborts stops between two of its rounds in Proxy.Session, where
-- a send is out in full or fails, and anywhere in a round in Proxy.WsSession, where the messages
-- and bytes of the round that are out are an argument. A `usize` has 64 bits. A map is a list of
-- entries. Loops that are not over a list take fuel: a byte more than the stream has for the
-- splitter, for the records and for the extensions, since each round takes a byte at least (a
-- record 5, an extension 4), 65 rounds for the 64 bytes of the inbound handshake, since a round
-- that goes on fills one at least, a byte more than a reader holds for a bridge's loop, the bytes
-- of the queued records for the Cloudflare walk, since a record that is queued again is shorter, a
-- byte more than arrives for the HTTP loops, and for the relay init the list of draws. Where the
-- fuel runs out the result is `none` of its own, and theorems below show that it does not, but for
-- a chunked HTTP body.
--
-- Not modelled: socket and TLS calls, the connect and the request of `https_get`, the connector of
-- rust/src/outbound, the command line, the diagnostic command and the set-up of the process. Log
-- lines have no counterpart; a timeout is an argument that says whether it came in time. In the
-- ladder the result of a dial is an argument and the pool gives one answer; background refills are
-- modelled in Pool alone.
pub mod Base
pub mod Crypto
pub mod Splitter
pub mod FakeTls
pub mod Proxy
pub mod Pool
pub mod Limits
pub mod Config
pub mod WsClient
pub mod Outbound
pub mod DefaultDomains
pub mod Examples
