-- ===== src/Proxy/Chain.antt =====
-- rust/src/proxy.rs: this proxy as the client of another one, behind FakeTLS.
use tg_ws_proxy.Base.{
  ℕ, ◌+◌, ◌^◌, ◌≤◌, ◌<◌, ◌≡◌, refl, sym, ap, ◌∙◌, true, none, some, List, [], ◌∷◌, ◌++◌, append-nil,
  length, concat, All, arith,
}
use tg_ws_proxy.Crypto.Cipher.{Primitives}
use tg_ws_proxy.Crypto.Tag.{ProtoTag}
use tg_ws_proxy.Crypto.Secret.{
  faketls, write_secret, secret_key, faketls_hostname, carried_host, secret-write,
}
use tg_ws_proxy.Crypto.Handshake.{info, prekey_and_iv_of, parse_handshake}
use tg_ws_proxy.Crypto.Session.{build_connection_ciphers}
use tg_ws_proxy.Crypto.Client.{ClientSession, generate_client_handshake}
use tg_ws_proxy.Crypto.Client.Accepted.{generate_client_handshake-accepted}
use tg_ws_proxy.Crypto.Client.Length.{length-generate_client_handshake}
use tg_ws_proxy.FakeTls.Record.{write_tls_appdata, drain_faketls_server_hello}
use tg_ws_proxy.FakeTls.Utf8.{is_utf8}
use tg_ws_proxy.FakeTls.ClientHello.{
  FakeTlsClientHello, build_faketls_client_hello, sign_faketls_client_hello,
}
use tg_ws_proxy.FakeTls.Signed.{signed_random}
use tg_ws_proxy.FakeTls.ServerHello.{build_faketls_server_hello, drain_faketls_server_hello-build}
use tg_ws_proxy.Proxy.Bridge.{take_send}
use tg_ws_proxy.Proxy.Inbound.{Inbound}
use tg_ws_proxy.Proxy.Filled.{records}
use tg_ws_proxy.Proxy.Accept.{accept_inbound_faketls, accept_inbound_faketls-client}
use tg_ws_proxy.Proxy.Session.{fake_tls}
use tg_ws_proxy.Proxy.Carry.{write_tls_appdata-records}
use tg_ws_proxy.Proxy.Upstream.{
  UpstreamConnection, send_init, faketls_upstream, connect_mtproto_upstream,
}

module _ (P : Primitives) (key host session_id : List ℕ) (timestamp : ℕ) where
  abbrev pub sent_hello : List ℕ
  sent_hello =
      sign_faketls_client_hello P (build_faketls_client_hello host session_id) key timestamp

  -- What the other proxy reads of the hello.
  abbrev pub hello_of : length session_id ≡ 32 → FakeTlsClientHello
  hello_of hs = record {
    random = signed_random P host session_id key timestamp hs;
    session_id = session_id;
    cipher_suite = 0x13 ∷ 0x01 ∷ [];
    hostname = some host;
  }

  abbrev connection : ClientSession → List (List ℕ) → List ℕ → UpstreamConnection
  connection s chunks later = record {
    reader = fake_tls [] later;
    sent = sent_hello ++ records chunks;
    sink = none;
    enc = s.enc;
    dec = s.dec;
    faketls = true;
  }

  init_sent :
      (s : ClientSession) (chunks : List (List ℕ)) (later : List ℕ)
      → write_tls_appdata s.handshake ≡ some (records chunks)
      → send_init s sent_hello none (true, later) ≡ some (some (connection s chunks later))
  unfolding send_init take_send
  init_sent s chunks later written = rw (written, send_init) refl

  faketls_connects :
      (s : ClientSession) (arrivals chunks : List (List ℕ)) (later : List ℕ)
      → is_utf8 host ≡ true
      → drain_faketls_server_hello (concat arrivals) ≡ (true, later)
      → write_tls_appdata s.handshake ≡ some (records chunks)
      → faketls_upstream P s key host session_id timestamp arrivals none
        ≡ some (some (connection s chunks later))
  unfolding faketls_upstream take_send
  faketls_connects s arrivals chunks later ok drained written =
      rw (ok, faketls_upstream)
        (ap (send_init s sent_hello none) drained ∙ init_sent s chunks later written)

  connects :
      (dc_idx : ℕ) (proto : ProtoTag) (draws arrivals chunks : List (List ℕ)) (later : List ℕ)
      (s : ClientSession)
      → secret_key (write_secret faketls key host) ≡ key
      → faketls_hostname (write_secret faketls key host) ≡ some host
      → generate_client_handshake P key dc_idx proto draws ≡ some s
      → is_utf8 host ≡ true
      → drain_faketls_server_hello (concat arrivals) ≡ (true, later)
      → write_tls_appdata s.handshake ≡ some (records chunks)
      → connect_mtproto_upstream P
          (some (write_secret faketls key host))
          true
          dc_idx
          proto
          draws
          session_id
          timestamp
          arrivals
          none
        ≡ some (some (connection s chunks later))
  unfolding connect_mtproto_upstream
  connects dc_idx proto draws arrivals chunks later s k h made ok drained written =
      rw (k, made, connect_mtproto_upstream)
        (rw h (rw k (faketls_connects s arrivals chunks later ok drained written)))

  -- An upstream proxy with a FakeTLS secret that runs this program accepts what is sent to it: the
  -- signed hello is answered, the 64-byte handshake behind it is found whole, it parses to the DC
  -- and the protocol that were asked for, and its ciphers for the client are those of the
  -- connection, which goes on reading behind the server hello.
  pub connect_mtproto_upstream-accepted :
      (dc_idx : ℕ) (proto : ProtoTag) (draws arrivals secrets : List (List ℕ))
      (key_share cert later relay_init : List ℕ) (s : ClientSession) (hs : length session_id ≡ 32)
      → length key ≡ 16
      → 0 < length host
      → 175 + length host ≤ 16640
      → is_utf8 host ≡ true
      → dc_idx < 2 ^ 16
      → All (λ raw. length raw ≡ 64) draws
      → length key_share ≡ 32
      → length cert ≤ 4115
      → generate_client_handshake P key dc_idx proto draws ≡ some s
      → concat arrivals ≡ build_faketls_server_hello P key (hello_of hs) key_share cert ++ later
      → let ciphers = build_connection_ciphers P (prekey_and_iv_of s.handshake) key relay_init in
        (conn : UpstreamConnection) × (connect_mtproto_upstream P
            (some (write_secret faketls key host))
            true
            dc_idx
            proto
            draws
            session_id
            timestamp
            arrivals
            none
          ≡ some (some conn))
        × (conn.reader ≡ fake_tls [] later)
        × (inbound : Inbound) × (accept_inbound_faketls P
              (key ∷ secrets)
              host
              key_share
              cert
              conn.sent
            ≡ some (some (build_faketls_server_hello P key (hello_of hs) key_share cert, inbound)))
        × (inbound.init ≡ s.handshake)
        × (parse_handshake P inbound.init key ≡ info proto (prekey_and_iv_of s.handshake) dc_idx)
        × (ciphers.clt_dec ≡ conn.enc)
        × (ciphers.clt_enc ≡ conn.dec)
  connect_mtproto_upstream-accepted dc_idx proto draws arrivals secrets key_share cert later
        relay_init s hs klen some_host small ok fits lens share_len cert_len made answers =
      let (chunks, written, fit, whole) = write_tls_appdata-records s.handshake in
      let (k, h) = secret-write faketls key host klen in
      let (pending, left, accepted, follows, fit_left) =
        accept_inbound_faketls-client P key host session_id key_share cert s.handshake [] secrets
          chunks timestamp hs small ok
          (length-generate_client_handshake P key dc_idx proto draws s lens made) fit
          (whole ∙ sym (append-nil s.handshake)) in
      let (parses, dec, enc) =
        generate_client_handshake-accepted P key dc_idx proto draws relay_init s fits lens made in
      (
        connection s chunks later,
        connects dc_idx proto draws arrivals chunks later s k (h ∙ named host some_host) made ok
            (ap drain_faketls_server_hello answers
              ∙ drain_faketls_server_hello-build P key (hello_of hs) key_share cert later
                  (omega arith) refl share_len cert_len)
            written,
        refl,
        record { init = s.handshake; pending = pending; rest = records left },
        accepted,
        refl,
        parses,
        dec,
        enc,
      )
    where
      named : (host : List ℕ) → 0 < length host → carried_host faketls host ≡ some host
      named [] h = absurd (omega arith)
      named (b ∷ bs) h = refl
