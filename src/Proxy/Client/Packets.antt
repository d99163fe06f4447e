-- ===== src/Proxy/Client/Packets.antt =====
-- rust/src/proxy.rs, `handle_client_with_runtime`: a client that knows the first secret, from its
-- handshake to Telegram's WebSocket and back.
use tg_ws_proxy.Base.{
  ℕ, ◌+◌, ◌%◌, ◌^◌, ◌≤◌, ◌<◌, ◌≡◌, refl, ap, subst, ◌∙◌, true, none, some, List, [], ◌∷◌, ◌++◌,
  length, concat, All, KeyEq,
}
use tg_ws_proxy.Config.{dc_target_ip, dc_key_eq}
use tg_ws_proxy.Crypto.Cipher.{Primitives, Cipher, crypt}
use tg_ws_proxy.Crypto.Tag.{ProtoTag}
use tg_ws_proxy.Crypto.Handshake.{i16_unsigned_abs, i16_is_negative, prekey_and_iv_of}
use tg_ws_proxy.Crypto.Relay.{generate_relay_init}
use tg_ws_proxy.Crypto.Session.{build_connection_ciphers}
use tg_ws_proxy.Crypto.Client.{ClientSession, generate_client_handshake}
use tg_ws_proxy.Crypto.Client.Length.{length-generate_client_handshake}
use tg_ws_proxy.Splitter.Packets.{Packet, IsPacket}
use tg_ws_proxy.Splitter.Cuts.{encode_all, lengths, cut}
use tg_ws_proxy.Proxy.Bridge.{packets, Upload, ClientWriter}
use tg_ws_proxy.Proxy.Download.{payloads}
use tg_ws_proxy.Proxy.Session.{plain}
use tg_ws_proxy.Proxy.Carry.{in_parts, in_records, Carries, Carries-plain}
use tg_ws_proxy.FakeTls.Utf8.{is_utf8}
use tg_ws_proxy.Proxy.Filled.{IsChunk, records}
use tg_ws_proxy.Proxy.Accept.{accept_inbound_faketls, accept_inbound_faketls-client}
use tg_ws_proxy.Proxy.Chain.{sent_hello}
use tg_ws_proxy.Proxy.WsSession.{WsBridge, WsReach}
use tg_ws_proxy.Proxy.WsServed.{IsServed}
use tg_ws_proxy.Proxy.Tiers.{Cooldowns, web_socket}
use tg_ws_proxy.Proxy.Route.{select_upstream}
use tg_ws_proxy.Proxy.Client.{Opened, opened_faketls, read_inbound_handshake}
use tg_ws_proxy.Proxy.Client.Serve.{by_web_socket, Peers, Visit, handle_client_with_runtime}
use tg_ws_proxy.Proxy.Client.Opening.{Nonempty, arrived-All, read_exact_parts-IsCutAt}
use tg_ws_proxy.Proxy.Client.Way.{reaches}

module _ {ℓ} {S W : Type ℓ} (P : Primitives) (ES : KeyEq S) (peers : Peers S W) (v : Visit)
    (dc_ip : List (ℕ × S)) (cooldowns after : Cooldowns S) (secret : List ℕ)
    (secrets : List (List ℕ)) (dc_idx : ℕ) (proto : ProtoTag) (draws : List (List ℕ))
    (relay_init : List ℕ) (s : ClientSession) (ws : W) (fits : dc_idx < 2 ^ 16)
    (lens : All (λ raw. length raw ≡ 64) draws)
    (made : generate_client_handshake P secret dc_idx proto draws ≡ some s)
    (drawn : generate_relay_init P proto dc_idx v.pad v.draws ≡ some relay_init)
    (ladder : select_upstream ES dc_key_eq
        (record (peers.route dc_idx proto) {
          dc = i16_unsigned_abs dc_idx;
          is_media = i16_is_negative dc_idx;
        })
        cooldowns
        (dc_target_ip dc_ip (i16_unsigned_abs dc_idx))
      ≡ (some (web_socket ws packets), after)) where
  abbrev tg_enc : Cipher
  tg_enc = (build_connection_ciphers P (prekey_and_iv_of s.handshake) secret relay_init).tg_enc

  abbrev tg_dec : Cipher
  tg_dec = (build_connection_ciphers P (prekey_and_iv_of s.handshake) secret relay_init).tg_dec

  -- A client makes its handshake for a DC and a protocol under the first secret, encrypts packets
  -- behind it, and all of this arrives in time and in any parts that are not empty. The ladder gives
  -- it Telegram's own WebSocket, and neither socket fails. Then it is bridged, with the cooldowns
  -- that the ladder left. However the session goes, Telegram has been sent the first messages of the
  -- relay init and one message for each packet, cut from the stream encrypted for Telegram, and the
  -- client the first bytes of what it decrypts to the stream that Telegram sends, in any messages up
  -- to a close. If the client ends the session, Telegram has been sent all of these messages and the
  -- close; if Telegram ends it, the client has been sent all of that stream and its length is
  -- counted, modulo 2^64. Until then the session can go on.
  pub handle_client_with_runtime-packets :
      (ps : List Packet) (down : List ℕ)
      → All (IsPacket proto) ps
      → v.in_time ≡ true
      → v.sink ≡ none
      → peers.takes ws ≡ none
      → All Nonempty v.parts
      → concat v.parts ≡ s.handshake ++ crypt P s.enc (encode_all proto ps)
      → payloads (peers.messages ws) ≡ crypt P tg_dec down
      → (start : WsBridge) × (end : Upload) × (handle_client_with_runtime P ES peers v
            (secret ∷ secrets)
            none
            dc_ip
            cooldowns
          ≡ some (by_web_socket (some start), after))
        × (end.sent ≡ relay_init ∷ cut (lengths proto ps) (crypt P tg_enc (encode_all proto ps)))
        × (end.closed ≡ true)
        × ((b : WsBridge)
            → WsReach P start b
            → IsServed P end (crypt P s.dec down) (length down % 2 ^ 64) b)
  unfolding read_inbound_handshake
  handle_client_with_runtime-packets ps down ok in_time steady takes filled arrives sends =
      let (rest, reads, ok_rest, whole) =
        read_exact_parts-IsCutAt 64 s.handshake _ v.parts
          (length-generate_client_handshake P secret dc_idx proto draws s lens made) filled
          arrives in
      let o : Opened = record {
        handshake_buf = s.handshake;
        reader = plain rest;
        writer = ClientWriter.plain;
        written = [];
      } in
      let (start, end, wire, returns, sent, closed, carries, stays) =
        reaches P ES peers v dc_ip cooldowns after secret secrets dc_idx proto draws relay_init s ws
          fits lens made drawn ladder none o ps down ok in_time steady takes
          (rw (reads, read_inbound_handshake) refl) refl (in_parts rest _ ok_rest whole) sends in
      (
        start,
        end,
        returns,
        sent,
        closed,
        λ b r.
            subst (λ x. IsServed P end x (length down % 2 ^ 64) b) (Carries-plain carries)
              (stays b r),
      )

  -- A client of the FakeTLS listener sends a hello for the configured domain, signed under the first
  -- secret, and then, in records that are not empty and of at most 16,384 bytes, its handshake for
  -- a DC and a protocol and the encrypted packets, in time and in any parts that are not empty. The
  -- ladder gives it Telegram's own WebSocket, and neither socket fails. However the session goes,
  -- Telegram has been sent the first messages of the relay init and one message for each packet, cut
  -- from the stream encrypted for Telegram, and the client the first bytes of such records with what
  -- it decrypts to the stream that Telegram sends, in any messages up to a close. If the client ends
  -- the session, Telegram has been sent all of these messages and the close; if Telegram ends it,
  -- the client has been sent all of these records and the stream's length is counted, modulo 2^64.
  -- Until then the session can go on.
  pub handle_client_with_runtime-faketls :
      (host session_id : List ℕ) (timestamp : ℕ) (chunks : List (List ℕ)) (ps : List Packet)
      (down : List ℕ)
      → length session_id ≡ 32
      → 175 + length host ≤ 16640
      → is_utf8 host ≡ true
      → All IsChunk chunks
      → All (IsPacket proto) ps
      → v.in_time ≡ true
      → v.sink ≡ none
      → peers.takes ws ≡ none
      → All Nonempty v.parts
      → concat v.parts ≡ sent_hello P secret host session_id timestamp ++ records chunks
      → concat chunks ≡ s.handshake ++ crypt P s.enc (encode_all proto ps)
      → payloads (peers.messages ws) ≡ crypt P tg_dec down
      → (start : WsBridge) × (end : Upload) × (wire : List ℕ) × (handle_client_with_runtime P ES
            peers v
            (secret ∷ secrets)
            (some host)
            dc_ip
            cooldowns
          ≡ some (by_web_socket (some start), after))
        × (end.sent ≡ relay_init ∷ cut (lengths proto ps) (crypt P tg_enc (encode_all proto ps)))
        × (end.closed ≡ true)
        × Carries ClientWriter.fake_tls wire (crypt P s.dec down)
        × ((b : WsBridge) → WsReach P start b → IsServed P end wire (length down % 2 ^ 64) b)
  unfolding read_inbound_handshake opened_faketls
  handle_client_with_runtime-faketls host session_id timestamp chunks ps down hs small utf8 fit ok
        in_time steady takes filled arrives whole sends =
      let (pending, left, accepts, follows, fit_left) =
        accept_inbound_faketls-client P secret host session_id v.key_share v.cert s.handshake _
          secrets chunks timestamp hs small utf8
          (length-generate_client_handshake P secret dc_idx proto draws s lens made) fit whole in
      let opens =
        ap
          (λ x.
            opened_faketls (accept_inbound_faketls P (secret ∷ secrets) host v.key_share v.cert x))
          (arrived-All v.parts filled ∙ arrives)
        ∙ ap opened_faketls accepts in
      reaches P ES peers v dc_ip cooldowns after secret secrets dc_idx proto draws relay_init s ws
        fits lens made drawn ladder (some host) _ ps down ok in_time steady takes opens refl
        (in_records pending left (records left) _ fit_left refl follows) sends
