-- ===== src/Proxy/Accept.antt =====
-- rust/src/proxy.rs, `accept_inbound_faketls`: what is sent to the client and what it sent.
use tg_ws_proxy.Base.{
  ℕ, ◌+◌, ◌/◌, ◌%◌, ◌<◌, ◌≤◌, ◌≡◌, refl, sym, ap, ◌∙◌, Bool, true, false, not, ◌||◌, Option, none,
  some, List, [], ◌∷◌, ◌++◌, concat, All, length, bytes_eq, bytes_eq_iff, ◌==◌, if◌then◌else◌,
  u16_to_be, u16_from_be, le→not_ltb, arith,
}
use tg_ws_proxy.Crypto.Cipher.{Primitives}
use tg_ws_proxy.FakeTls.Record.{
  no_record, broken, record_read, read_tls_record, tls_max_record_payload, tls_record_handshake,
}
use tg_ws_proxy.FakeTls.Utf8.{is_utf8}
use tg_ws_proxy.FakeTls.ClientHello.{
  FakeTlsClientHello, build_faketls_client_hello, sign_faketls_client_hello,
  parse_faketls_client_hello,
}
use tg_ws_proxy.FakeTls.ServerHello.{build_faketls_server_hello}
use tg_ws_proxy.FakeTls.Signed.{signed_random, sign-record, parse_faketls_client_hello-sign}
use tg_ws_proxy.FakeTls.Framing.{read_exact-append}
use tg_ws_proxy.Proxy.Inbound.{Inbound, tls_read_headroom, fill_handshake}
use tg_ws_proxy.Proxy.Filled.{records, IsChunk, fill_handshake-records}

module _ (P : Primitives) where
  -- The first secret under which the hello is signed.
  unfoldable pub find_hello : List ℕ → List (List ℕ) → Option (FakeTlsClientHello × List ℕ)
  find_hello packet [] = none
  find_hello packet (secret ∷ secrets) = elim (parse_faketls_client_hello P packet secret) [
    | some hello ↦ some (hello, secret)
    | none ↦ find_hello packet secrets
  ]

  abbrev pub names : Option (List ℕ) → List ℕ → Bool
  names none domain = false
  names (some host) domain = bytes_eq host domain

  -- What the record's header and payload were read from.
  abbrev pub rebuilt : ℕ → List ℕ → List ℕ → List ℕ
  rebuilt record_type version payload =
      record_type ∷ (version ++ (u16_to_be (length payload) ++ payload))

  -- Behind the ClientHello: the answer that is written, and the inbound handshake.
  unfoldable pub answer :
      List ℕ
      → List ℕ
      → List ℕ
      → List ℕ
      → Option (FakeTlsClientHello × List ℕ)
      → Option (Option (List ℕ × Inbound))
  answer expected_domain key_share cert rest none = some none
  answer expected_domain key_share cert rest (some (hello, secret)) =
      if not (names hello.hostname expected_domain) then some none else elim (fill_handshake rest) [
        | none ↦ none
        | some none ↦ some none
        | some (some inbound) ↦
            some (some (build_faketls_server_hello P secret hello key_share cert, inbound))
      ]

  -- The outer `none` means that the fuel ran out.
  unfoldable pub accept_inbound_faketls :
      List (List ℕ) → List ℕ → List ℕ → List ℕ → List ℕ → Option (Option (List ℕ × Inbound))
  accept_inbound_faketls secrets expected_domain key_share cert stream =
      elim (read_tls_record (tls_max_record_payload + tls_read_headroom) stream) [
        | no_record ↦ some none
        | broken ↦ some none
        | record_read record_type version payload rest ↦
            if not (record_type == tls_record_handshake)
              || not (bytes_eq version (0x03 ∷ 0x01 ∷ []))
            then some none
            else answer expected_domain key_share cert rest
                (find_hello (rebuilt record_type version payload) secrets)
      ]

  word : (n : ℕ) → n < 0x1_0000 → u16_from_be (n / 256 % 256) (n % 256) ≡ n
  word n h = omega arith

  read_hello :
      (payload rest : List ℕ)
      → length payload ≤ 16640
      → read_tls_record 16640 (rebuilt tls_record_handshake (0x03 ∷ 0x01 ∷ []) payload ++ rest)
        ≡ record_read tls_record_handshake (0x03 ∷ 0x01 ∷ []) payload rest
  unfolding read_tls_record
  read_hello payload rest small =
      rw
        (
          le→not_ltb (length (rebuilt tls_record_handshake (0x03 ∷ 0x01 ∷ []) payload ++ rest)) 5
              (omega arith),
          read_tls_record,
          word (length payload) (omega arith),
          le→not_ltb 16640 (length payload) small,
          read_exact-append payload rest (length payload) refl,
        )
        refl

  accept_record :
      (secrets : List (List ℕ)) (domain key_share cert payload rest : List ℕ)
      → length payload ≤ 16640
      → accept_inbound_faketls secrets domain key_share cert
          (rebuilt tls_record_handshake (0x03 ∷ 0x01 ∷ []) payload ++ rest)
        ≡ answer domain key_share cert rest
            (find_hello (rebuilt tls_record_handshake (0x03 ∷ 0x01 ∷ []) payload) secrets)
  unfolding accept_inbound_faketls bytes_eq
  accept_record secrets domain key_share cert payload rest small =
      rw (read_hello payload rest small, accept_inbound_faketls) refl

  answer_full :
      (domain key_share cert rest secret : List ℕ) (hello : FakeTlsClientHello) (inbound : Inbound)
      → hello.hostname ≡ some domain
      → fill_handshake rest ≡ some (some inbound)
      → answer domain key_share cert rest (some (hello, secret))
        ≡ some (some (build_faketls_server_hello P secret hello key_share cert, inbound))
  unfolding answer
  answer_full domain key_share cert rest secret hello inbound host filled =
      rw (ap (λ h. names h domain) host ∙ (bytes_eq_iff domain domain).1 refl, filled, answer) refl

  -- A client that knows the first configured secret and names the configured domain sends the
  -- hello that `build_faketls_client_hello` and `sign_faketls_client_hello` make and then, in
  -- records of application data, its 64-byte handshake and what follows. It is accepted: it is sent
  -- the server hello, the handshake is found, and nothing of what follows is lost: it is pending or
  -- in the records that are left, which are not empty and of at most 16,384 bytes.
  pub accept_inbound_faketls-client :
      (secret domain session_id key_share cert init later : List ℕ) (secrets chunks : List (List ℕ))
      (timestamp : ℕ)
      → (hs : length session_id ≡ 32) → 175 + length domain ≤ 16640
      → is_utf8 domain ≡ true
      → length init ≡ 64
      → All IsChunk chunks
      → concat chunks ≡ init ++ later
      → let hello : FakeTlsClientHello = record {
        random = signed_random P domain session_id secret timestamp hs;
        session_id = session_id;
        cipher_suite = 0x13 ∷ 0x01 ∷ [];
        hostname = some domain;
      } in
        let sent =
          sign_faketls_client_hello P
            (build_faketls_client_hello domain session_id)
            secret
            timestamp in
        (pending : List ℕ) × (left : List (List ℕ)) × (accept_inbound_faketls
            (secret ∷ secrets)
            domain
            key_share
            cert
            (sent ++ records chunks)
          ≡ some (
              some (
                build_faketls_server_hello P secret hello key_share cert,
                record { init = init; pending = pending; rest = records left },
              )))
        × (pending ++ concat left ≡ later)
        × All IsChunk left
  unfolding find_hello
  accept_inbound_faketls-client secret domain session_id key_share cert init later secrets chunks
        timestamp hs small ok hi fits e =
      let (pending, left, filled, follows, fit) =
        fill_handshake-records init later hi chunks fits e in
      let (payload, shape, size) = sign-record P domain session_id secret timestamp hs in
      let parsed =
        ap (λ x. parse_faketls_client_hello P x secret) (sym shape)
        ∙ parse_faketls_client_hello-sign P domain session_id secret timestamp hs (omega arith)
            ok in
      (
        pending,
        left,
        ap
              (λ x.
                accept_inbound_faketls (secret ∷ secrets) domain key_share cert
                  (x ++ records chunks))
              shape
            ∙ accept_record (secret ∷ secrets) domain key_share cert payload (records chunks)
                (omega arith)
            ∙ ap (answer domain key_share cert (records chunks)) (found payload parsed)
            ∙ answer_full domain key_share cert (records chunks) secret _ _ refl filled,
        follows,
        fit,
      )
    where
      found :
          {hello : FakeTlsClientHello} (payload : List ℕ)
          → parse_faketls_client_hello P
              (rebuilt tls_record_handshake (0x03 ∷ 0x01 ∷ []) payload)
              secret
            ≡ some hello
          → find_hello (rebuilt tls_record_handshake (0x03 ∷ 0x01 ∷ []) payload) (secret ∷ secrets)
            ≡ some (hello, secret)
      found payload parsed = rw (parsed, find_hello) refl
