-- ===== src/Examples/FakeTls.antt =====
-- The theorems of rust/src/faketls.rs at concrete inputs.
use tg_ws_proxy.Base.{
  ℕ, ◌≤◌, ◌≡◌, refl, true, some, List, [], ◌∷◌, ◌++◌, length, replicate, concat, take, slice,
  splice, All, arith,
}
use tg_ws_proxy.FakeTls.Record.{
  tls_max_record_payload, write_tls_appdata, drain_faketls_server_hello,
}
use tg_ws_proxy.FakeTls.Framing.{read_all, write_tls_appdata-read}
use tg_ws_proxy.FakeTls.Utf8.{is_utf8, utf8_from, lead}
use tg_ws_proxy.FakeTls.ClientHello.{
  FakeTlsClientHello, build_faketls_client_hello, sign_faketls_client_hello,
  parse_faketls_client_hello,
}
use tg_ws_proxy.FakeTls.Signed.{signed_random, parse_faketls_client_hello-sign}
use tg_ws_proxy.FakeTls.Authentic.{parse_faketls_client_hello-authentic}
use tg_ws_proxy.FakeTls.ServerHello.{build_faketls_server_hello, drain_faketls_server_hello-build}
use tg_ws_proxy.Examples.Toy.{toy}

write_tls_appdata-read_example :
    (wire : List ℕ) × (chunks : List (List ℕ)) × (write_tls_appdata (1 ∷ 2 ∷ []) ≡ some wire)
    × (read_all 3 16640 wire ≡ some chunks)
    × (concat chunks ≡ 1 ∷ 2 ∷ [])
    × All (λ c. length c ≤ tls_max_record_payload) chunks
write_tls_appdata-read_example = write_tls_appdata-read 16640 (1 ∷ 2 ∷ []) (omega arith)

-- "a.io"
abbrev host : List ℕ
host = 0x61 ∷ 0x2e ∷ 0x69 ∷ 0x6f ∷ []

abbrev secret : List ℕ
secret = replicate 16 0x42

abbrev session : List ℕ
session = replicate 32 7

host-is_utf8 : is_utf8 host ≡ true
unfolding is_utf8 utf8_from lead
host-is_utf8 = refl

abbrev hello : FakeTlsClientHello
hello = record {
  random = signed_random toy host session secret 1700000000 refl;
  session_id = session;
  cipher_suite = 0x13 ∷ 0x01 ∷ [];
  hostname = some host;
}

abbrev signed_hello : List ℕ
signed_hello =
    sign_faketls_client_hello toy (build_faketls_client_hello host session) secret 1700000000

parse_faketls_client_hello-sign_example :
    parse_faketls_client_hello toy signed_hello secret ≡ some hello
parse_faketls_client_hello-sign_example =
    parse_faketls_client_hello-sign toy host session secret 1700000000 refl (omega arith)
      host-is_utf8

hello_accepted : parse_faketls_client_hello toy signed_hello secret ≡ some hello
hello_accepted =
    parse_faketls_client_hello-sign toy host session secret 1700000000 refl (omega arith)
      host-is_utf8

parse_faketls_client_hello-authentic_example :
    take 28 (slice 11 43 signed_hello)
    ≡ take 28 (toy.hmac secret (splice 11 (replicate 32 0) signed_hello))
parse_faketls_client_hello-authentic_example =
    parse_faketls_client_hello-authentic toy signed_hello secret hello hello_accepted

drain_faketls_server_hello-build_example :
    drain_faketls_server_hello
      (build_faketls_server_hello toy secret hello (replicate 32 1) (replicate 3 2) ++ (5 ∷ []))
    ≡ (true, 5 ∷ [])
drain_faketls_server_hello-build_example =
    drain_faketls_server_hello-build toy secret hello (replicate 32 1) (replicate 3 2) (5 ∷ [])
      (omega arith) refl refl (omega arith)
