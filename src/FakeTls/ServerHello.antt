-- ===== src/FakeTls/ServerHello.antt =====
-- rust/src/faketls.rs: the server's side of the handshake, built and drained. The random key share
-- and the random certificate are arguments.
use tg_ws_proxy.Base.{
  ℕ, suc, ◌+◌, ◌%◌, ◌/◌, ◌≤◌, ◌<◌, ◌≡◌, refl, sym, ap, ◌∙◌, ◌||◌, Bool, true, false, List, [], ◌∷◌,
  ◌++◌, length, take, drop, splice, replicate, ◌==◌, bytes_eq, if◌then◌else◌, u16_to_be,
  u16_from_be, length-append, append_assoc, arith, le→not_ltb,
}
use tg_ws_proxy.Crypto.Cipher.{Primitives}
use tg_ws_proxy.FakeTls.Record.{
  Turn, done, again, tls_record, push_tls_record, next_turn, drain_turn, drain_records,
  drain_faketls_server_hello, tls_record_handshake, tls_record_change_cipher_spec,
  tls_record_application_data, tls_version_12,
}
use tg_ws_proxy.FakeTls.ClientHello.{FakeTlsClientHello, tls_digest_len}
use tg_ws_proxy.FakeTls.Framing.{read_exact-append}

abbrev pub tls_server_random_offset_in_packet : ℕ
tls_server_random_offset_in_packet = 11

abbrev pub key_share_extension : List ℕ
key_share_extension =
    0x00 ∷ 0x00 ∷ 0x2e ∷ 0x00 ∷ 0x2b ∷ 0x00 ∷ 0x02 ∷ 0x03 ∷ 0x04 ∷ 0x00 ∷ 0x33 ∷ 0x00 ∷ 0x24 ∷ 0x00
    ∷ 0x1d ∷ 0x00 ∷ 0x20 ∷ []

-- `server_body` with `random` in its random field.
abbrev pub server_body : List ℕ → FakeTlsClientHello → List ℕ → List ℕ
server_body random hello key_share =
    tls_version_12
    ++ (random
        ++ ((length hello.session_id % 256)
            ∷ (hello.session_id ++ (hello.cipher_suite ++ (key_share_extension ++ key_share)))))

abbrev pub server_handshake : List ℕ → List ℕ
server_handshake body =
    let n = length body in 0x02 ∷ (n / 0x1_0000 % 256) ∷ (n / 256 % 256) ∷ (n % 256) ∷ body

-- The three records before the digest is written into the first.
unfoldable pub unsigned_hello : FakeTlsClientHello → List ℕ → List ℕ → List ℕ
unfolding push_tls_record
unsigned_hello hello key_share cert =
    push_tls_record
      (push_tls_record
        (push_tls_record [] tls_record_handshake
          (server_handshake (server_body (replicate tls_digest_len 0) hello key_share)))
        tls_record_change_cipher_spec (0x01 ∷ []))
      tls_record_application_data cert

unfoldable pub build_faketls_server_hello :
    Primitives → List ℕ → FakeTlsClientHello → List ℕ → List ℕ → List ℕ
unfolding unsigned_hello
build_faketls_server_hello P secret hello key_share cert =
    let packet = unsigned_hello hello key_share cert in
    splice tls_server_random_offset_in_packet (P.hmac secret (hello.random ++ packet)) packet

word : (n : ℕ) → n < 0x1_0000 → u16_from_be (n / 256 % 256) (n % 256) ≡ n
word n h = omega arith

-- What the loop does with a record of this type.
abbrev turn_of : ℕ → List ℕ → Turn Bool
turn_of record_type rest =
    if record_type == tls_record_handshake || record_type == tls_record_change_cipher_spec
    then again rest
    else done (record_type == tls_record_application_data) rest

drain_turn-payload :
    (record_type : ℕ) (payload rest : List ℕ)
    → length payload ≤ 16640
    → drain_turn record_type tls_version_12 (length payload) (payload ++ rest)
      ≡ turn_of record_type rest
unfolding drain_turn bytes_eq
drain_turn-payload record_type payload rest small =
    rw
      (
        le→not_ltb 16640 (length payload) small,
        read_exact-append payload rest (length payload) refl,
        drain_turn,
      )
      refl

turn_record :
    (record_type : ℕ) (payload rest : List ℕ)
    → length payload ≤ 16640
    → next_turn false drain_turn (tls_record record_type payload ++ rest) ≡ turn_of record_type rest
unfolding next_turn tls_record
turn_record record_type payload rest small =
    rw (le→not_ltb (length (tls_record record_type payload ++ rest)) 5 (omega arith), next_turn)
      (ap (λ n. drain_turn record_type tls_version_12 n (payload ++ rest))
          (word (length payload) (omega arith))
        ∙ drain_turn-payload record_type payload rest small)

-- Records of the handshake are passed over, and the first record of data ends it.
drain_again :
    (fuel record_type : ℕ) (payload rest : List ℕ)
    → length payload ≤ 16640
    → turn_of record_type rest ≡ again rest
    → drain_records (suc fuel) (tls_record record_type payload ++ rest) ≡ drain_records fuel rest
unfolding drain_records
drain_again fuel record_type payload rest small e =
    rw (turn_record record_type payload rest small ∙ e, drain_records) refl

drain_done :
    (fuel : ℕ) (payload rest : List ℕ)
    → length payload ≤ 16640
    → drain_records (suc fuel) (tls_record tls_record_application_data payload ++ rest)
      ≡ (true, rest)
unfolding drain_records
drain_done fuel payload rest small =
    rw (turn_record tls_record_application_data payload rest small, drain_records) refl

drain_three :
    (fuel : ℕ) (first cert rest : List ℕ)
    → length first ≤ 16640
    → length cert ≤ 16640
    → drain_records (suc (suc (suc fuel))) (
        (tls_record tls_record_handshake first
          ++ (tls_record tls_record_change_cipher_spec (0x01 ∷ [])
              ++ tls_record tls_record_application_data cert))
        ++ rest)
      ≡ (true, rest)
drain_three fuel first cert rest hf hc =
    let a = tls_record tls_record_handshake first in
    let b = tls_record tls_record_change_cipher_spec (0x01 ∷ []) in
    let c = tls_record tls_record_application_data cert in
    ap (drain_records (suc (suc (suc fuel))))
      (append_assoc a (b ++ c) rest ∙ ap (◌++◌ a) (append_assoc b c rest))
    ∙ drain_again (suc (suc fuel)) tls_record_handshake first (b ++ (c ++ rest)) hf refl
    ∙ drain_again (suc fuel) tls_record_change_cipher_spec (0x01 ∷ []) (c ++ rest) (omega arith)
        refl
    ∙ drain_done fuel cert rest hc

module _ (P : Primitives) (secret : List ℕ) (hello : FakeTlsClientHello)
    (key_share cert : List ℕ) where
  abbrev unsigned : List ℕ
  unsigned = unsigned_hello hello key_share cert

  abbrev digest : List ℕ
  digest = P.hmac secret (hello.random ++ unsigned)

  length-digest : length digest ≡ 32
  length-digest = P.hmac_length secret (hello.random ++ unsigned)

  abbrev tail_of : List ℕ
  tail_of = hello.session_id ++ (hello.cipher_suite ++ (key_share_extension ++ key_share))

  length-body :
      (random : List ℕ)
      → length random ≡ 32
      → length (server_body random hello key_share) ≡ 35 + length tail_of
  length-body random h =
      omega (arith, length-append random ((length hello.session_id % 256) ∷ tail_of))

  abbrev last_two : List ℕ
  last_two =
      tls_record tls_record_change_cipher_spec (0x01 ∷ [])
      ++ tls_record tls_record_application_data cert

  -- The bytes in front of the random field, for a body of `n` bytes.
  abbrev front : ℕ → List ℕ
  front n =
      tls_record_handshake
      ∷ (tls_version_12
          ++ (u16_to_be (suc (suc (suc (suc n))))
              ++ (0x02 ∷ (n / 0x1_0000 % 256) ∷ (n / 256 % 256) ∷ (n % 256) ∷ tls_version_12)))

  three_records :
      build_faketls_server_hello P secret hello key_share cert
      ≡ tls_record tls_record_handshake (server_handshake (server_body digest hello key_share))
        ++ last_two
  unfolding build_faketls_server_hello push_tls_record unsigned_hello tls_record
  three_records =
      let b = length hello.session_id % 256 in
      ap (λ n. take 11 unsigned ++ (digest ++ drop (11 + n) unsigned)) length-digest
      ∙ ap (λ z. take 11 unsigned ++ (digest ++ (b ∷ z)))
          (append_assoc tail_of (tls_record tls_record_change_cipher_spec (0x01 ∷ []))
            (tls_record tls_record_application_data cert))
      ∙ ap (◌++◌ (take 11 unsigned)) (sym (append_assoc digest (b ∷ tail_of) last_two))
      ∙ ap (λ n. front n ++ ((digest ++ (b ∷ tail_of)) ++ last_two))
          (length-body (replicate 32 0) refl ∙ sym (length-body digest length-digest))

  -- The client that receives the three records of `build_faketls_server_hello` completes its
  -- handshake, and leaves unread exactly what the server sends behind them; for a session id, a
  -- suite and a certificate of the sizes that the code makes.
  pub drain_faketls_server_hello-build :
      (rest : List ℕ)
      → length hello.session_id ≤ 255
      → length hello.cipher_suite ≡ 2
      → length key_share ≡ 32
      → length cert ≤ 4115
      → drain_faketls_server_hello
          (build_faketls_server_hello P secret hello key_share cert ++ rest)
        ≡ (true, rest)
  unfolding drain_faketls_server_hello
  drain_faketls_server_hello-build rest hs hc hk hcert =
      let body = server_body digest hello key_share in
      let l : length (server_handshake body) ≤ 16640 = omega (
        arith,
        length-body digest length-digest,
        length-append hello.session_id (hello.cipher_suite ++ (key_share_extension ++ key_share)),
        length-append hello.cipher_suite (key_share_extension ++ key_share),
      ) in
      ap (λ x. drain_records 20 (x ++ rest)) three_records
      ∙ drain_three 17 (server_handshake body) cert rest l (omega arith)
