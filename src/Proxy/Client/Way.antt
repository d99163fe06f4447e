-- ===== src/Proxy/Client/Way.antt =====
-- rust/src/proxy.rs, `handle_client_with_runtime` from the 64 bytes to Telegram's WebSocket.
use tg_ws_proxy.Base.{
  ℕ, ◌%◌, ◌^◌, ◌<◌, ◌≡◌, refl, sym, ap, ap₂, ◌∙◌, subst, true, Option, none, some, List, ◌∷◌,
  length, All, KeyEq,
}
use tg_ws_proxy.Config.{dc_target_ip, dc_key_eq}
use tg_ws_proxy.Crypto.Cipher.{Primitives, crypt}
use tg_ws_proxy.Crypto.Tag.{ProtoTag}
use tg_ws_proxy.Crypto.Handshake.{
  HandshakeInfo, i16_unsigned_abs, i16_is_negative, prekey_and_iv_of,
}
use tg_ws_proxy.Crypto.Relay.{generate_relay_init}
use tg_ws_proxy.Crypto.Session.{ConnectionCiphers, build_connection_ciphers}
use tg_ws_proxy.Crypto.Client.{ClientSession, generate_client_handshake}
use tg_ws_proxy.Crypto.Client.Accepted.{generate_client_handshake-accepted}
use tg_ws_proxy.Splitter.Packets.{Packet, IsPacket}
use tg_ws_proxy.Splitter.Cuts.{encode_all, lengths, cut}
use tg_ws_proxy.Proxy.Bridge.{packets, Upload, ClientWriter}
use tg_ws_proxy.Proxy.Download.{payloads}
use tg_ws_proxy.Proxy.Session.{ClientReader}
use tg_ws_proxy.Proxy.Carry.{Holds, Carries}
use tg_ws_proxy.Proxy.Client.Bridged.{serve_ws-Bridged}
use tg_ws_proxy.Proxy.WsSession.{WsBridge, WsReach}
use tg_ws_proxy.Proxy.WsServed.{IsServed}
use tg_ws_proxy.Proxy.Tiers.{Cooldowns, web_socket}
use tg_ws_proxy.Proxy.Route.{select_upstream}
use tg_ws_proxy.Proxy.Client.{Opened, read_inbound_handshake, find_secret, dc_idx_of}
use tg_ws_proxy.Proxy.Client.Serve.{
  Served, by_web_socket, Peers, Visit, serve_ws, dispatch, route_of, serve, on_handshake,
  handle_client_with_runtime,
}
use tg_ws_proxy.Proxy.Client.Opening.{dc_idx_of-info, find_secret-first}

-- What the handshake of a client for this index and protocol says.
abbrev pub asked : ClientSession → ℕ → ProtoTag → HandshakeInfo
asked s dc_idx proto = record {
  dc_id = i16_unsigned_abs dc_idx;
  is_media = i16_is_negative dc_idx;
  proto = proto;
  prekey_and_iv = prekey_and_iv_of s.handshake;
}

module _ {ℓ} {S W : Type ℓ} (P : Primitives) (ES : KeyEq S) (peers : Peers S W) (v : Visit)
    (dc_ip : List (ℕ × S)) (cooldowns after : Cooldowns S) (secret : List ℕ)
    (secrets : List (List ℕ)) (dc_idx : ℕ) (proto : ProtoTag) (draws : List (List ℕ))
    (relay_init : List ℕ) (s : ClientSession) (ws : W) (fits : dc_idx < 2 ^ 16)
    (lens : All (λ raw. length raw ≡ 64) draws)
    (made : generate_client_handshake P secret dc_idx proto draws ≡ some s)
    (drawn : generate_relay_init P proto dc_idx v.pad v.draws ≡ some relay_init)
    (ladder : select_upstream ES dc_key_eq
        (record (peers.route dc_idx proto) {
          dc = i16_unsigned_abs dc_idx;
          is_media = i16_is_negative dc_idx;
        })
        cooldowns
        (dc_target_ip dc_ip (i16_unsigned_abs dc_idx))
      ≡ (some (web_socket ws packets), after)) where
  abbrev pub session_ciphers : ConnectionCiphers
  session_ciphers = build_connection_ciphers P (prekey_and_iv_of s.handshake) secret relay_init

  accepted :
      (find_secret P s.handshake (secret ∷ secrets) ≡ some (asked s dc_idx proto, secret))
      × (session_ciphers.clt_dec ≡ s.enc)
      × (session_ciphers.clt_enc ≡ s.dec)
  accepted =
      let (parses, dec, enc) =
        generate_client_handshake-accepted P secret dc_idx proto draws relay_init s fits lens
          made in
      (find_secret-first P secret s.handshake secrets _ parses, dec, enc)

  index : dc_idx_of (asked s dc_idx proto) ≡ dc_idx
  index = dc_idx_of-info (asked s dc_idx proto) dc_idx fits refl refl

  routed :
      select_upstream ES dc_key_eq
        (route_of P ES peers v (asked s dc_idx proto))
        cooldowns
        (dc_target_ip dc_ip (i16_unsigned_abs dc_idx))
      ≡ (some (web_socket ws packets), after)
  unfolding route_of
  routed =
      ap
        (λ n.
          select_upstream ES dc_key_eq
            (record (peers.route n proto) {
              dc = i16_unsigned_abs dc_idx;
              is_media = i16_is_negative dc_idx;
            })
            cooldowns (dc_target_ip dc_ip (i16_unsigned_abs dc_idx)))
        index
      ∙ ladder

  init_drawn :
      generate_relay_init P proto (dc_idx_of (asked s dc_idx proto)) v.pad v.draws ≡ some relay_init
  init_drawn = ap (λ n. generate_relay_init P proto n v.pad v.draws) index ∙ drawn

  -- Behind the handshake: the way to the bridge.
  serve_lem :
      (reader : ClientReader) (w : ClientWriter) (served : Served)
      → serve_ws P reader w v.sink relay_init proto session_ciphers
          (peers.takes ws)
          packets
          (peers.messages ws)
        ≡ some served
      → serve P ES peers v dc_ip cooldowns reader w (asked s dc_idx proto) secret
        ≡ some (served, after)
  unfolding serve dispatch
  serve_lem reader w served e =
      rw (init_drawn, serve, routed) (rw (e, dispatch) (ap (λ u. some (served, u.1)) routed))

  on_handshake_lem :
      (o : Opened) (served : Served)
      → o.handshake_buf ≡ s.handshake
      → serve_ws P o.reader o.writer v.sink relay_init proto session_ciphers
          (peers.takes ws)
          packets
          (peers.messages ws)
        ≡ some served
      → on_handshake P ES peers v (secret ∷ secrets) dc_ip cooldowns o ≡ some (served, after)
  unfolding on_handshake
  on_handshake_lem o served same e =
      rw (same, on_handshake, accepted.0) (serve_lem o.reader o.writer served e)

  handled :
      (domain : Option (List ℕ)) (o : Opened)
      → v.in_time ≡ true
      → read_inbound_handshake P (secret ∷ secrets) domain v.key_share v.cert v.parts
        ≡ some (some o)
      → handle_client_with_runtime P ES peers v (secret ∷ secrets) domain dc_ip cooldowns
        ≡ on_handshake P ES peers v (secret ∷ secrets) dc_ip cooldowns o
  unfolding handle_client_with_runtime
  handled domain o in_time opens = simp (in_time, handle_client_with_runtime, opens) refl

  -- What becomes of the client that `read_inbound_handshake` opened.
  pub reaches :
      (domain : Option (List ℕ)) (o : Opened) (ps : List Packet) (down : List ℕ)
      (ok : All (IsPacket proto) ps)
      → v.in_time ≡ true
      → v.sink ≡ none
      → peers.takes ws ≡ none
      → read_inbound_handshake P (secret ∷ secrets) domain v.key_share v.cert v.parts
        ≡ some (some o)
      → o.handshake_buf ≡ s.handshake
      → Holds o.reader (crypt P s.enc (encode_all proto ps))
      → payloads (peers.messages ws) ≡ crypt P session_ciphers.tg_dec down
      → (start : WsBridge) × (end : Upload) × (wire : List ℕ) × (handle_client_with_runtime P ES
            peers v
            (secret ∷ secrets)
            domain
            dc_ip
            cooldowns
          ≡ some (by_web_socket (some start), after))
        × (end.sent
            ≡ relay_init
              ∷ cut (lengths proto ps) (crypt P session_ciphers.tg_enc (encode_all proto ps)))
        × (end.closed ≡ true)
        × Carries o.writer wire (crypt P s.dec down)
        × ((b : WsBridge) → WsReach P start b → IsServed P end wire (length down % 2 ^ 64) b)
  reaches domain o ps down ok in_time steady takes opens same held sends =
      let (found, dec, enc) = accepted in
      let b =
        serve_ws-Bridged P (prekey_and_iv_of s.handshake) secret relay_init proto ps ok down
          o.reader o.writer (peers.messages ws)
          (subst (λ c. Holds o.reader (crypt P c (encode_all proto ps))) (sym dec) held) sends in
      let served =
        ap₂
          (λ x y.
            serve_ws P o.reader o.writer x relay_init proto session_ciphers y packets
              (peers.messages ws))
          steady takes
        ∙ b.returns in
      (
        b.start,
        b.end,
        b.wire,
        handled domain o in_time opens ∙ on_handshake_lem o _ same served,
        b.sent,
        b.closed,
        subst (λ c. Carries o.writer b.wire (crypt P c down)) enc b.carries,
        b.stays,
      )
