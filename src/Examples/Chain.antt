-- ===== src/Examples/Chain.antt =====
-- The theorem on `connect_mtproto_upstream` at a concrete input.
use tg_ws_proxy.Base.{
  ℕ, ◌≡◌, refl, true, some, none, List, [], ◌∷◌, ◌++◌, append-nil, replicate, arith, bytes_eq,
}
use tg_ws_proxy.Crypto.Tag.{padded_intermediate}
use tg_ws_proxy.Crypto.Secret.{faketls, write_secret}
use tg_ws_proxy.Crypto.Handshake.{info, prekey_and_iv_of, parse_handshake}
use tg_ws_proxy.Crypto.Random.{first_accepted, is_reserved, starts_reserved}
use tg_ws_proxy.Crypto.Session.{build_connection_ciphers}
use tg_ws_proxy.Crypto.Client.{
  ClientSession, client_handshake, client_session, generate_client_handshake,
}
use tg_ws_proxy.FakeTls.Utf8.{is_utf8, utf8_from, lead}
use tg_ws_proxy.FakeTls.ServerHello.{build_faketls_server_hello}
use tg_ws_proxy.Proxy.Inbound.{Inbound}
use tg_ws_proxy.Proxy.Accept.{accept_inbound_faketls}
use tg_ws_proxy.Proxy.Session.{fake_tls}
use tg_ws_proxy.Proxy.Upstream.{UpstreamConnection, connect_mtproto_upstream}
use tg_ws_proxy.Proxy.Chain.{hello_of, connect_mtproto_upstream-accepted}
use tg_ws_proxy.Examples.Toy.{toy}

abbrev key : List ℕ
key = replicate 16 0x42

-- "a.io"
abbrev host : List ℕ
host = 0x61 ∷ 0x2e ∷ 0x69 ∷ 0x6f ∷ []

host-is_utf8 : is_utf8 host ≡ true
unfolding is_utf8 utf8_from lead
host-is_utf8 = refl

abbrev session_id : List ℕ
session_id = replicate 32 7

abbrev block : List ℕ
block = replicate 64 0x21

abbrev made : ClientSession
made = client_session toy key (client_handshake toy key 4 padded_intermediate block)

block_drawn : first_accepted (block ∷ []) ≡ some block
unfolding first_accepted is_reserved starts_reserved bytes_eq
block_drawn = refl

session_drawn : generate_client_handshake toy key 4 padded_intermediate (block ∷ []) ≡ some made
unfolding generate_client_handshake
session_drawn = rw (block_drawn, generate_client_handshake) refl

abbrev server_hello : List ℕ
server_hello =
    build_faketls_server_hello toy key (hello_of toy key host session_id 1700000000 refl)
      (replicate 32 9) (1 ∷ [])

connect_mtproto_upstream-accepted_example :
    let ciphers = build_connection_ciphers toy (prekey_and_iv_of made.handshake) key [] in
    (conn : UpstreamConnection) × (connect_mtproto_upstream toy
        (some (write_secret faketls key host))
        true
        4
        padded_intermediate
        (block ∷ [])
        session_id
        1700000000
        ((server_hello ++ (3 ∷ [])) ∷ [])
        none
      ≡ some (some conn))
    × (conn.reader ≡ fake_tls [] (3 ∷ []))
    × (inbound : Inbound) × (accept_inbound_faketls toy
          (key ∷ [])
          host
          (replicate 32 9)
          (1 ∷ [])
          conn.sent
        ≡ some (some (server_hello, inbound)))
    × (inbound.init ≡ made.handshake)
    × (parse_handshake toy inbound.init key
        ≡ info padded_intermediate (prekey_and_iv_of made.handshake) 4)
    × (ciphers.clt_dec ≡ conn.enc)
    × (ciphers.clt_enc ≡ conn.dec)
connect_mtproto_upstream-accepted_example =
    connect_mtproto_upstream-accepted toy key host session_id 1700000000 4 padded_intermediate
      (block ∷ []) ((server_hello ++ (3 ∷ [])) ∷ []) [] (replicate 32 9) (1 ∷ []) (3 ∷ []) [] made
      refl refl (omega arith) (omega arith) host-is_utf8 (omega arith) (refl, tt) refl (omega arith)
      session_drawn (append-nil (server_hello ++ (3 ∷ [])))
