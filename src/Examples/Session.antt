-- ===== src/Examples/Session.antt =====
-- The theorems on `bridge_relay` and `bridge_tcp` at concrete inputs.
use tg_ws_proxy.Base.{◌+◌, ◌≡◌, refl, true, some, none, [], ◌∷◌, replicate, arith}
use tg_ws_proxy.Crypto.Cipher.{crypt, xor_from, apply_keystream}
use tg_ws_proxy.Crypto.Session.{build_connection_ciphers, ConnectionCiphers}
use tg_ws_proxy.FakeTls.Record.{write_tls_appdata, write_from}
use tg_ws_proxy.Proxy.Bridge.{ClientWriter, write_all, take_send, recode, add_bytes}
use tg_ws_proxy.Proxy.Filled.{records}
use tg_ws_proxy.Proxy.Session.{
  ClientReader, plain, fake_tls, Task, goes_on, round, read, pass_on, write_out, Bridge,
  bridge_relay, bridge_tcp, uploads, Reach, here, next,
}
use tg_ws_proxy.Proxy.Carry.{Holds, in_parts, in_records}
use tg_ws_proxy.Proxy.Ending.{Ends, rounds, bridge_relay-Ends, bridge_tcp-Ends}
use tg_ws_proxy.Examples.Toy.{toy}

abbrev ciphers : ConnectionCiphers
ciphers = build_connection_ciphers toy [] [] (replicate 64 0x21)

-- The client is behind FakeTLS, with two bytes pending and three in a record.
abbrev reader : ClientReader
reader = fake_tls (1 ∷ 2 ∷ []) (records ((3 ∷ 4 ∷ 5 ∷ []) ∷ []))

abbrev rem_reader : ClientReader
rem_reader = plain ((7 ∷ []) ∷ (8 ∷ 9 ∷ []) ∷ [])

reader-Holds : Holds reader (1 ∷ 2 ∷ 3 ∷ 4 ∷ 5 ∷ [])
reader-Holds =
    in_records (1 ∷ 2 ∷ []) ((3 ∷ 4 ∷ 5 ∷ []) ∷ []) _ _ ((omega arith, omega arith), tt) refl refl

rem_reader-Holds : Holds rem_reader (7 ∷ 8 ∷ 9 ∷ [])
rem_reader-Holds = in_parts ((7 ∷ []) ∷ (8 ∷ 9 ∷ []) ∷ []) _ (omega arith, (omega arith, tt)) refl

abbrev started : Bridge
started = bridge_relay reader ClientWriter.fake_tls ciphers true rem_reader none none

-- The state when the pending bytes have gone up.
abbrev sent : Task
sent = record started.upload {
  source = fake_tls [] (records ((3 ∷ 4 ∷ 5 ∷ []) ∷ []));
  dec = record ciphers.clt_dec { pos = ciphers.clt_dec.pos + 2 };
  enc = record ciphers.tg_enc { pos = ciphers.tg_enc.pos + 2 };
  wire = records (crypt toy ciphers.tg_enc (crypt toy ciphers.clt_dec (1 ∷ 2 ∷ [])) ∷ []);
  count = 2;
}

one_round : round toy started.upload ≡ some (goes_on sent)
unfolding bridge_relay round read pass_on write_out recode apply_keystream write_all take_send
    write_tls_appdata write_from add_bytes crypt xor_from build_connection_ciphers
one_round = refl

bridge_relay-Ends_example :
    Ends toy started
      (1 ∷ 2 ∷ 3 ∷ 4 ∷ 5 ∷ [])
      (7 ∷ 8 ∷ 9 ∷ [])
      (record started { upload = sent })
      1
      9
bridge_relay-Ends_example =
    bridge_relay-Ends toy reader ClientWriter.fake_tls ciphers true rem_reader
      (1 ∷ 2 ∷ 3 ∷ 4 ∷ 5 ∷ []) (7 ∷ 8 ∷ 9 ∷ []) reader-Holds rem_reader-Holds
      (record started { upload = sent })
      (next here (uploads started sent (unfold bridge_relay in refl) one_round))

bridge_tcp-Ends_example :
    (start : Bridge) × (bridge_tcp reader ClientWriter.plain ciphers
        (replicate 64 0x21)
        ((7 ∷ []) ∷ (8 ∷ 9 ∷ []) ∷ [])
        none
        none
      ≡ some start)
    × (start.upload.wire ≡ replicate 64 0x21)
    × ((b : Bridge) (r : Reach toy start b)
        → Ends toy start (1 ∷ 2 ∷ 3 ∷ 4 ∷ 5 ∷ []) (7 ∷ 8 ∷ 9 ∷ []) b (rounds toy r) 9)
bridge_tcp-Ends_example =
    bridge_tcp-Ends toy reader ClientWriter.plain ciphers (replicate 64 0x21)
      (1 ∷ 2 ∷ 3 ∷ 4 ∷ 5 ∷ []) (7 ∷ 8 ∷ 9 ∷ []) ((7 ∷ []) ∷ (8 ∷ 9 ∷ []) ∷ []) reader-Holds
      rem_reader-Holds
