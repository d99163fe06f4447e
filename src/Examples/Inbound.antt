-- ===== src/Examples/Inbound.antt =====
-- The theorems on `accept_inbound_faketls` and on what the client receives, at concrete inputs.
use tg_ws_proxy.Base.{
  Option, ℕ, ◌≡◌, ◌%◌, ◌^◌, refl, true, some, none, List, [], ◌∷◌, ◌++◌, replicate, concat, All,
  arith, take, drop,
}
use tg_ws_proxy.Crypto.Cipher.{crypt, xor_from}
use tg_ws_proxy.Crypto.Session.{build_connection_ciphers, ConnectionCiphers}
use tg_ws_proxy.FakeTls.Utf8.{is_utf8, utf8_from, lead}
use tg_ws_proxy.FakeTls.ClientHello.{
  FakeTlsClientHello, build_faketls_client_hello, sign_faketls_client_hello,
}
use tg_ws_proxy.FakeTls.ServerHello.{build_faketls_server_hello}
use tg_ws_proxy.FakeTls.Signed.{signed_random}
use tg_ws_proxy.Proxy.Inbound.{Inbound, fill_handshake}
use tg_ws_proxy.Proxy.Filled.{records, IsChunk, fill_handshake-records}
use tg_ws_proxy.Proxy.Accept.{accept_inbound_faketls, accept_inbound_faketls-client}
use tg_ws_proxy.Proxy.Returns.{accept_inbound_faketls_total}
use tg_ws_proxy.Proxy.Bridge.{Message, binary, ping, ended, ClientWriter, download}
use tg_ws_proxy.Proxy.Carry.{Carries}
use tg_ws_proxy.Proxy.Download.{download-delivers}
use tg_ws_proxy.Examples.Toy.{toy}

abbrev init : List ℕ
init = replicate 64 1

abbrev later : List ℕ
later = 2 ∷ 3 ∷ []

-- The handshake and what follows in two records that do not end where the handshake ends.
abbrev chunks : List (List ℕ)
chunks = replicate 50 1 ∷ (replicate 14 1 ++ (2 ∷ [])) ∷ (3 ∷ []) ∷ []

chunks_fit : All IsChunk chunks
chunks_fit =
    ((omega arith, omega arith), ((omega arith, omega arith), ((omega arith, omega arith), tt)))

fill_handshake-records_example :
    (pending : List ℕ) × (left : List (List ℕ)) × (fill_handshake (records chunks)
      ≡ some (some record { init = init; pending = pending; rest = records left }))
    × (pending ++ concat left ≡ later)
    × All IsChunk left
fill_handshake-records_example = fill_handshake-records init later refl chunks chunks_fit refl

-- "a.io"
abbrev domain : List ℕ
domain = 0x61 ∷ 0x2e ∷ 0x69 ∷ 0x6f ∷ []

abbrev secret : List ℕ
secret = replicate 16 0x42

abbrev session : List ℕ
session = replicate 32 7

domain-is_utf8 : is_utf8 domain ≡ true
unfolding is_utf8 utf8_from lead
domain-is_utf8 = refl

abbrev hello : FakeTlsClientHello
hello = record {
  random = signed_random toy domain session secret 1700000000 refl;
  session_id = session;
  cipher_suite = 0x13 ∷ 0x01 ∷ [];
  hostname = some domain;
}

accept_inbound_faketls-client_example :
    (pending : List ℕ) × (left : List (List ℕ)) × (accept_inbound_faketls toy
        (secret ∷ [])
        domain
        (replicate 32 5)
        (replicate 64 6)
        (sign_faketls_client_hello toy (build_faketls_client_hello domain session) secret 1700000000
          ++ records chunks)
      ≡ some (
          some (
            build_faketls_server_hello toy secret hello (replicate 32 5) (replicate 64 6),
            record { init = init; pending = pending; rest = records left },
          )))
    × (pending ++ concat left ≡ later)
    × All IsChunk left
accept_inbound_faketls-client_example =
    accept_inbound_faketls-client toy secret domain session (replicate 32 5) (replicate 64 6) init
      later [] chunks 1700000000 refl (omega arith) domain-is_utf8 refl chunks_fit refl

-- The client stops in the middle of its handshake.
abbrev cut_off : List ℕ
cut_off =
    sign_faketls_client_hello toy (build_faketls_client_hello domain session) secret 1700000000
    ++ records (replicate 50 1 ∷ [])

accept_inbound_faketls_total_example :
    (r : Option (List ℕ × Inbound)) × (accept_inbound_faketls toy
        (secret ∷ [])
        domain
        (replicate 32 5)
        (replicate 64 6)
        cut_off
      ≡ some r)
accept_inbound_faketls_total_example =
    accept_inbound_faketls_total toy domain (replicate 32 5) (replicate 64 6) (secret ∷ []) cut_off

abbrev ciphers : ConnectionCiphers
ciphers = build_connection_ciphers toy [] [] (replicate 64 0x21)

abbrev sent : List ℕ
sent = crypt toy ciphers.tg_dec (10 ∷ 20 ∷ 30 ∷ [])

abbrev messages : List Message
messages = binary (take 2 sent) ∷ ping ∷ binary (drop 2 sent) ∷ ended ∷ []

download-delivers_example :
    (wire : List ℕ) × (download toy ClientWriter.fake_tls none ciphers.tg_dec ciphers.clt_enc 0
        messages
      ≡ some (wire, 3 % 2 ^ 64))
    × Carries ClientWriter.fake_tls wire (crypt toy ciphers.clt_enc (10 ∷ 20 ∷ 30 ∷ []))
unfolding crypt xor_from build_connection_ciphers
download-delivers_example =
    download-delivers toy ClientWriter.fake_tls ciphers (10 ∷ 20 ∷ 30 ∷ []) messages refl
