-- ===== src/Examples/Client.antt =====
-- The theorems on `handle_client_with_runtime` at concrete inputs. Addresses are numbers here.
use tg_ws_proxy.Base.{
  ℕ, ◌+◌, ◌%◌, ◌^◌, ◌≡◌, refl, sym, ap, ◌∙◌, true, false, some, none, List, [], ◌∷◌, ◌++◌,
  append_assoc, append-nil, length, length-append, length-take, length-drop, take, drop,
  take-append-drop, replicate, concat, All, bytes_eq, arith,
}
use tg_ws_proxy.Config.{dc_eq, dc_key_eq, dc_target_ip, find_dc}
use tg_ws_proxy.Crypto.Cipher.{crypt, length-crypt}
use tg_ws_proxy.Crypto.Tag.{abridged}
use tg_ws_proxy.Crypto.Handshake.{i16_unsigned_abs, i16_is_negative, prekey_and_iv_of}
use tg_ws_proxy.Crypto.Random.{first_accepted, is_reserved, starts_reserved}
use tg_ws_proxy.Crypto.Relay.{relay_init, generate_relay_init}
use tg_ws_proxy.Crypto.Session.{build_connection_ciphers, ConnectionCiphers}
use tg_ws_proxy.Crypto.Client.{
  ClientSession, client_handshake, client_session, generate_client_handshake,
}
use tg_ws_proxy.Crypto.Client.Length.{length-generate_client_handshake}
use tg_ws_proxy.FakeTls.Signed.{sign-record}
use tg_ws_proxy.FakeTls.Utf8.{is_utf8, utf8_from, lead}
use tg_ws_proxy.Splitter.Packets.{Packet, IsPacket}
use tg_ws_proxy.Splitter.Cuts.{encode_all, lengths, cut}
use tg_ws_proxy.Proxy.Bridge.{packets, Upload, ClientWriter, binary, ended}
use tg_ws_proxy.Proxy.Filled.{IsChunk, records}
use tg_ws_proxy.Proxy.Carry.{Carries}
use tg_ws_proxy.Proxy.Chain.{sent_hello}
use tg_ws_proxy.Proxy.Session.{plain}
use tg_ws_proxy.Proxy.Cooldown.{active, lookup}
use tg_ws_proxy.Proxy.WsSession.{WsBridge, WsReach}
use tg_ws_proxy.Proxy.WsServed.{IsServed}
use tg_ws_proxy.WsClient.Connect.{WsConnectResult}
use tg_ws_proxy.Proxy.Tiers.{Cooldowns, Route, web_socket, has_fallback}
use tg_ws_proxy.Proxy.Route.{select_upstream, from_cooldown, from_pool}
use tg_ws_proxy.Proxy.Client.Serve.{by_web_socket, Peers, Visit, handle_client_with_runtime}
use tg_ws_proxy.Proxy.Client.Opening.{Nonempty}
use tg_ws_proxy.Proxy.Client.Packets.{
  handle_client_with_runtime-packets, handle_client_with_runtime-faketls,
}
use tg_ws_proxy.Examples.Toy.{toy}

abbrev key : List ℕ
key = replicate 16 0x42

abbrev block : List ℕ
block = replicate 64 0x21

abbrev made : ClientSession
made = client_session toy key (client_handshake toy key 4 abridged block)

block_drawn : first_accepted (block ∷ []) ≡ some block
unfolding first_accepted is_reserved starts_reserved bytes_eq
block_drawn = refl

session_drawn : generate_client_handshake toy key 4 abridged (block ∷ []) ≡ some made
unfolding generate_client_handshake
session_drawn = rw (block_drawn, generate_client_handshake) refl

abbrev relay : List ℕ
relay = relay_init toy abridged 4 (5 ∷ 6 ∷ []) block

relay_drawn : generate_relay_init toy abridged 4 (5 ∷ 6 ∷ []) (block ∷ []) ≡ some relay
unfolding generate_relay_init
relay_drawn = rw (block_drawn, generate_relay_init) refl

abbrev ciphers : ConnectionCiphers
ciphers = build_connection_ciphers toy (prekey_and_iv_of made.handshake) key relay

abbrev two_packets : List Packet
two_packets =
    (record { quick_ack = false; payload = 1 ∷ 2 ∷ 3 ∷ 4 ∷ [] })
    ∷ (record { quick_ack = true; payload = 5 ∷ 6 ∷ 7 ∷ 8 ∷ [] })
    ∷ []

two_packets_fit : All (IsPacket abridged) two_packets
two_packets_fit = ((omega arith, refl, omega arith), ((omega arith, refl, omega arith), tt))

abbrev stream : List ℕ
stream = crypt toy made.enc (encode_all abridged two_packets)

-- The pool holds a connection for the DC.
abbrev route : Route ℕ ℕ
route = record {
  dc = 0;
  is_media = false;
  timeouts = record {
    ws_fail_cooldown = 60;
    ws_redirect_cooldown = 300;
    ip_fail_cooldown = 300;
    upstream_fail_cooldown = 60;
    cf_fail_cooldown = 60;
    fronting_fail_cooldown = 60;
    fronting_cooldown = 600;
  };
  cf_priority = false;
  cf_balance = false;
  cf_worker_domains = [];
  cf_domains = [];
  mtproto_proxies = [];
  fronting_domain = none;
  fallback_ip = none;
  word = 2 ^ 64;
  pooled = some 9;
  worker_pooled = none;
  proxy_pooled = none;
  worker_connect = λ domain. (none, 0);
  proxy_connect = λ domains. (none, 0);
  upstream_connect = λ k. (none, 0);
  ws_dial = λ sni host. (WsConnectResult.timed_out, 0);
}

abbrev state : Cooldowns ℕ
state = record {
  ws_fail = none;
  ip_fail = none;
  upstream_fail = none;
  cf_worker_fail = none;
  fronting_fail = none;
  fronting_until = none;
  cf_balance_counter = 0;
  cf_worker_balance_counter = 0;
  clock = 100;
  dialled = [];
}

abbrev down : List ℕ
down = 10 ∷ 20 ∷ 30 ∷ []

abbrev peers : Peers ℕ ℕ
peers = record {
  takes = λ ws. none;
  messages = λ ws. binary (crypt toy ciphers.tg_dec down) ∷ ended ∷ [];
  connection = λ w. record {
    reader = plain [];
    sent = [];
    sink = none;
    enc = made.enc;
    dec = made.dec;
    faketls = false;
  };
  tcp_connect = λ dst. none;
  route = λ dc_idx proto. route;
}

ladder :
    select_upstream dc_eq dc_key_eq
      (record (peers.route 4 abridged) { dc = i16_unsigned_abs 4; is_media = i16_is_negative 4 })
      state
      (dc_target_ip ((4, 220) ∷ []) (i16_unsigned_abs 4))
    ≡ (some (web_socket 9 packets), state)
unfolding select_upstream from_cooldown from_pool active lookup has_fallback dc_target_ip find_dc
ladder = refl

made_len : length made.handshake ≡ 64
made_len =
    length-generate_client_handshake toy key 4 abridged (block ∷ []) made (refl, tt) session_drawn

-- The handshake arrives in two parts, the second with what follows.
abbrev visit : Visit
visit = record {
  sink = none;
  in_time = true;
  parts = take 30 made.handshake ∷ (drop 30 made.handshake ++ stream) ∷ [];
  key_share = replicate 32 9;
  cert = 1 ∷ [];
  pad = 5 ∷ 6 ∷ [];
  draws = block ∷ [];
}

parts_filled : All Nonempty visit.parts
parts_filled = (
  omega (arith, made_len, length-take 30 made.handshake),
  (
    omega (
      arith,
      made_len,
      length-drop 30 made.handshake,
      length-append (drop 30 made.handshake) stream,
    ),
    tt,
  ),
)

parts_whole : concat visit.parts ≡ made.handshake ++ stream
parts_whole =
    ap (λ x. take 30 made.handshake ++ x) (append-nil (drop 30 made.handshake ++ stream))
    ∙ sym (append_assoc (take 30 made.handshake) (drop 30 made.handshake) stream)
    ∙ ap (λ x. x ++ stream) (take-append-drop 30 made.handshake)

handle_client_with_runtime-packets_example :
    (start : WsBridge) × (end : Upload) × (handle_client_with_runtime toy dc_eq peers visit
        (key ∷ [])
        none
        ((4, 220) ∷ [])
        state
      ≡ some (by_web_socket (some start), state))
    × (end.sent
        ≡ relay
          ∷ cut
              (lengths abridged two_packets)
              (crypt toy ciphers.tg_enc (encode_all abridged two_packets)))
    × (end.closed ≡ true)
    × ((b : WsBridge)
        → WsReach toy start b
        → IsServed toy end (crypt toy made.dec down) (3 % 2 ^ 64) b)
handle_client_with_runtime-packets_example =
    handle_client_with_runtime-packets toy dc_eq peers visit ((4, 220) ∷ []) state state key [] 4
      abridged (block ∷ []) relay made 9 (omega arith) (refl, tt) session_drawn relay_drawn ladder
      two_packets down two_packets_fit refl refl refl parts_filled parts_whole
      (append-nil (crypt toy ciphers.tg_dec down))

-- "a.io"
abbrev host : List ℕ
host = 0x61 ∷ 0x2e ∷ 0x69 ∷ 0x6f ∷ []

host-is_utf8 : is_utf8 host ≡ true
unfolding is_utf8 utf8_from lead
host-is_utf8 = refl

abbrev hello : List ℕ
hello = sent_hello toy key host (replicate 32 7) 1700000000

packets_len : length (encode_all abridged two_packets) ≡ 10
packets_len = refl

-- One record for all that follows the hello.
abbrev chunk : List ℕ
chunk = made.handshake ++ stream

chunk_fits : IsChunk chunk
chunk_fits =
    let len =
      length-append made.handshake stream
      ∙ ap (λ n. n + length stream) made_len
      ∙ ap (λ n. 64 + n) (length-crypt toy made.enc _ ∙ packets_len) in
    (omega (arith, len), omega (arith, len))

abbrev hidden_visit : Visit
hidden_visit = record visit { parts = hello ∷ records (chunk ∷ []) ∷ [] }

hidden_parts_filled : All Nonempty hidden_visit.parts
hidden_parts_filled =
    let (payload, shape, size) = sign-record toy host (replicate 32 7) key 1700000000 refl in
    (omega (arith, ap length shape), (omega arith, tt))

handle_client_with_runtime-faketls_example :
    (start : WsBridge) × (end : Upload) × (wire : List ℕ) × (handle_client_with_runtime toy dc_eq
        peers hidden_visit
        (key ∷ [])
        (some host)
        ((4, 220) ∷ [])
        state
      ≡ some (by_web_socket (some start), state))
    × (end.sent
        ≡ relay
          ∷ cut
              (lengths abridged two_packets)
              (crypt toy ciphers.tg_enc (encode_all abridged two_packets)))
    × (end.closed ≡ true)
    × Carries ClientWriter.fake_tls wire (crypt toy made.dec down)
    × ((b : WsBridge) → WsReach toy start b → IsServed toy end wire (3 % 2 ^ 64) b)
handle_client_with_runtime-faketls_example =
    handle_client_with_runtime-faketls toy dc_eq peers hidden_visit ((4, 220) ∷ []) state state key
      [] 4 abridged (block ∷ []) relay made 9 (omega arith) (refl, tt) session_drawn relay_drawn
      ladder host (replicate 32 7) 1700000000 (chunk ∷ []) two_packets down refl (omega arith)
      host-is_utf8 (chunk_fits, tt) two_packets_fit refl refl refl hidden_parts_filled
      (ap (λ x. hello ++ x) (append-nil (records (chunk ∷ [])))) (append-nil chunk)
      (append-nil (crypt toy ciphers.tg_dec down))
