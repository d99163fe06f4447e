-- ===== src/Proxy/Client/Serve.antt =====
-- rust/src/proxy.rs, `handle_client_with_runtime` behind the inbound handshake: the DC, the relay
-- init, the ciphers, the ladder, and the bridge for the upstream that the ladder gave.
use tg_ws_proxy.Base.{ℕ, Bool, true, false, Option, none, some, List, KeyEq}
use tg_ws_proxy.Config.{dc_target_ip, dc_key_eq}
use tg_ws_proxy.Crypto.Cipher.{Primitives}
use tg_ws_proxy.Crypto.Tag.{ProtoTag}
use tg_ws_proxy.Crypto.Handshake.{HandshakeInfo}
use tg_ws_proxy.Crypto.Relay.{generate_relay_init}
use tg_ws_proxy.Crypto.Session.{ConnectionCiphers, build_connection_ciphers}
use tg_ws_proxy.Proxy.Bridge.{WsFraming, Sink, Message, ClientWriter}
use tg_ws_proxy.Proxy.Session.{ClientReader, Bridge, bridge_relay, bridge_tcp}
use tg_ws_proxy.Proxy.WsSession.{WsBridge, ws_bridge}
use tg_ws_proxy.Proxy.Tiers.{Upstream, Cooldowns, Route, web_socket, mtproto, tcp}
use tg_ws_proxy.Proxy.Route.{select_upstream}
use tg_ws_proxy.Proxy.Upstream.{UpstreamConnection}
use tg_ws_proxy.Proxy.Client.{Opened, read_inbound_handshake, find_secret, dc_idx_of}
use tg_ws_proxy.Proxy.Client.Reads.{reads_of}

-- What becomes of a client. A bridge is in its first state, from which its tasks take their steps;
-- `none` stands for a relay init that could not be sent, or a connect that failed.
pub data Served : Type 0 where
  no_handshake : Served
  drained : ClientReader → Served
  unrouted : Served
  by_web_socket : Option WsBridge → Served
  by_relay : Bridge → Served
  by_tcp : Option Bridge → Served

-- The peers: how many sends an upstream's socket takes, what arrives on it, and the connects.
pub record Peers {ℓ} (S W : Type ℓ) : Type ℓ where
  pub takes : W → Sink
  pub messages : W → List Message
  pub connection : W → UpstreamConnection
  pub tcp_connect : S → Option (List (List ℕ) × Sink)
  -- The configuration, and what the network brings to a client of this DC index and protocol.
  pub route : ℕ → ProtoTag → Route S W

-- The client: the sends that it still takes, and what is drawn while it is served.
pub record Visit : Type 0 where
  pub sink : Sink
  pub in_time : Bool
  pub parts : List (List ℕ)
  pub key_share : List ℕ
  pub cert : List ℕ
  pub pad : List ℕ
  pub draws : List (List ℕ)

module _ (P : Primitives) where
  -- `bridge_ws` on what its reader gives.
  unfoldable pub serve_ws :
      ClientReader
      → ClientWriter
      → Sink
      → List ℕ
      → ProtoTag
      → ConnectionCiphers
      → Sink
      → WsFraming
      → List Message
      → Option Served
  unfolding ws_bridge
  serve_ws reader writer sink relay_init proto ciphers takes framing messages =
      elim (reads_of reader) [
        | none ↦ none
        | some reads ↦ some (
            by_web_socket
              (ws_bridge P framing relay_init proto ciphers takes reads writer sink messages))
      ]

module _ {ℓ} {S W : Type ℓ} (P : Primitives) (ES : KeyEq S) (peers : Peers S W) (v : Visit) where
  unfoldable pub tcp_bridge :
      ClientReader
      → ClientWriter
      → List ℕ
      → ConnectionCiphers
      → Option (List (List ℕ) × Sink)
      → Option Bridge
  tcp_bridge reader writer relay_init ciphers none = none
  tcp_bridge reader writer relay_init ciphers (some (arrivals, takes)) =
      bridge_tcp reader writer ciphers relay_init arrivals takes v.sink

  -- Step 6: `conn.enc` and `conn.dec` take the place of the ciphers for Telegram.
  unfoldable pub dispatch :
      ClientReader
      → ClientWriter
      → List ℕ
      → ProtoTag
      → ConnectionCiphers
      → Option (Upstream S W)
      → Option Served
  unfolding bridge_relay tcp_bridge
  dispatch reader writer relay_init proto ciphers none = some unrouted
  dispatch reader writer relay_init proto ciphers (some (web_socket ws framing)) =
      serve_ws P reader writer v.sink relay_init proto ciphers (peers.takes ws) framing
        (peers.messages ws)
  dispatch reader writer relay_init proto ciphers (some (mtproto w)) =
      let conn = peers.connection w in
      let chained = record ciphers { tg_enc = conn.enc; tg_dec = conn.dec } in
      some (by_relay (bridge_relay reader writer chained conn.faketls conn.reader conn.sink v.sink))
  dispatch reader writer relay_init proto ciphers (some (tcp dst)) =
      some (by_tcp (tcp_bridge reader writer relay_init ciphers (peers.tcp_connect dst)))

  unfoldable pub route_of : HandshakeInfo → Route S W
  route_of info = record (peers.route (dc_idx_of info) info.proto) {
    dc = info.dc_id;
    is_media = info.is_media;
  }

  -- Steps 3 to 6.
  unfoldable pub serve :
      List (ℕ × S)
      → Cooldowns S
      → ClientReader
      → ClientWriter
      → HandshakeInfo
      → List ℕ
      → Option (Served × Cooldowns S)
  unfolding route_of
  serve dc_ip cooldowns reader writer info secret =
      let (up, after) =
        select_upstream ES dc_key_eq (route_of info) cooldowns (dc_target_ip dc_ip info.dc_id) in
      elim (generate_relay_init P info.proto (dc_idx_of info) v.pad v.draws) [
        | none ↦ none
        | some relay_init ↦
            let ciphers = build_connection_ciphers P info.prekey_and_iv secret relay_init in
            elim (dispatch reader writer relay_init info.proto ciphers up) [
              | none ↦ none
              | some served ↦ some (served, after)
            ]
      ]

  -- Behind step 1. Where no secret fits, the client is read on and never answered.
  unfoldable pub on_handshake :
      List (List ℕ) → List (ℕ × S) → Cooldowns S → Opened → Option (Served × Cooldowns S)
  on_handshake secrets dc_ip cooldowns o = elim (find_secret P o.handshake_buf secrets) [
    | none ↦ some (drained o.reader, cooldowns)
    | some (info, secret) ↦ serve dc_ip cooldowns o.reader o.writer info secret
  ]

  -- The outer `none`: what was drawn did not suffice, or the fuel of a loop ran out.
  unfoldable pub handle_client_with_runtime :
      List (List ℕ) → Option (List ℕ) → List (ℕ × S) → Cooldowns S → Option (Served × Cooldowns S)
  handle_client_with_runtime secrets faketls_domain dc_ip cooldowns = elim v.in_time [
    | false ↦ some (no_handshake, cooldowns)
    | true ↦ elim (read_inbound_handshake P secrets faketls_domain v.key_share v.cert v.parts) [
      | none ↦ none
      | some none ↦ some (no_handshake, cooldowns)
      | some (some o) ↦ on_handshake secrets dc_ip cooldowns o
    ]
  ]
