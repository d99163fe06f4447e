-- ===== src/Proxy/Upstream.antt =====
-- rust/src/proxy.rs, `connect_mtproto_upstream`. The decoded secret, whether the TCP connect
-- worked, what is drawn, the clock, what the upstream sends and how many sends the socket takes are
-- arguments.
use tg_ws_proxy.Base.{ℕ, Bool, true, false, Option, none, some, List, [], ◌++◌, concat}
use tg_ws_proxy.Crypto.Cipher.{Primitives, Cipher}
use tg_ws_proxy.Crypto.Tag.{ProtoTag}
use tg_ws_proxy.Crypto.Secret.{secret_key, faketls_hostname}
use tg_ws_proxy.Crypto.Client.{ClientSession, generate_client_handshake}
use tg_ws_proxy.FakeTls.Record.{write_tls_appdata, drain_faketls_server_hello}
use tg_ws_proxy.FakeTls.Utf8.{is_utf8}
use tg_ws_proxy.FakeTls.ClientHello.{build_faketls_client_hello, sign_faketls_client_hello}
use tg_ws_proxy.Proxy.Bridge.{Sink, take_send}
use tg_ws_proxy.Proxy.Session.{ClientReader, plain, fake_tls}

-- The connection, with what was sent on it and what its socket still takes.
pub record UpstreamConnection : Type 0 where
  pub reader : ClientReader
  pub sent : List ℕ
  pub sink : Sink
  pub enc : Cipher
  pub dec : Cipher
  pub faketls : Bool

-- The plain path.
unfoldable pub plain_upstream : ClientSession → List (List ℕ) → Sink → Option UpstreamConnection
plain_upstream s arrivals sink = elim (take_send sink) [
  | none ↦ none
  | some sink ↦ some (record {
    reader = plain arrivals;
    sent = s.handshake;
    sink = sink;
    enc = s.enc;
    dec = s.dec;
    faketls = false;
  })
]

-- Behind the ClientHello, on what `drain_faketls_server_hello` found.
unfoldable pub send_init :
    ClientSession → List ℕ → Sink → Bool × List ℕ → Option (Option UpstreamConnection)
send_init s client_hello sink (false, rest) = some none
send_init s client_hello sink (true, rest) = elim (take_send sink) [
  | none ↦ some none
  | some sink ↦ elim (write_tls_appdata s.handshake) [
    | none ↦ none
    | some wire ↦ some (
        some (record {
          reader = fake_tls [] rest;
          sent = client_hello ++ wire;
          sink = sink;
          enc = s.enc;
          dec = s.dec;
          faketls = true;
        }))
  ]
]

module _ (P : Primitives) where
  -- The FakeTLS path.
  unfoldable pub faketls_upstream :
      ClientSession
      → List ℕ
      → List ℕ
      → List ℕ
      → ℕ
      → List (List ℕ)
      → Sink
      → Option (Option UpstreamConnection)
  faketls_upstream s key_bytes hostname session_id timestamp arrivals sink =
      let client_hello =
        sign_faketls_client_hello P (build_faketls_client_hello hostname session_id) key_bytes
          timestamp in
      elim (is_utf8 hostname) [
        | false ↦ some none
        | true ↦ elim (take_send sink) [
          | none ↦ some none
          | some sink ↦ send_init s client_hello sink (drain_faketls_server_hello (concat arrivals))
        ]
      ]

  -- The outer `none`: what was drawn did not suffice.
  unfoldable pub connect_mtproto_upstream :
      Option (List ℕ)
      → Bool
      → ℕ
      → ProtoTag
      → List (List ℕ)
      → List ℕ
      → ℕ
      → List (List ℕ)
      → Sink
      → Option (Option UpstreamConnection)
  connect_mtproto_upstream none connects dc_idx proto draws session_id timestamp arrivals sink =
      some none
  connect_mtproto_upstream (some secret) false dc_idx proto draws session_id timestamp arrivals
        sink =
      some none
  connect_mtproto_upstream (some secret) true dc_idx proto draws session_id timestamp arrivals
        sink =
      let key_bytes = secret_key secret in
      elim (generate_client_handshake P key_bytes dc_idx proto draws) [
        | none ↦ none
        | some s ↦ elim (faketls_hostname secret) [
          | none ↦ some (plain_upstream s arrivals sink)
          | some hostname ↦ faketls_upstream s key_bytes hostname session_id timestamp arrivals sink
        ]
      ]
