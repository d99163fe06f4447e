-- ===== src/FakeTls/Signed.antt =====
-- rust/src/faketls.rs: the ClientHello that `build_faketls_client_hello` and
-- `sign_faketls_client_hello` make is the one that `parse_faketls_client_hello` accepts.
use tg_ws_proxy.Base.{
  ℕ, zero, suc, ◌+◌, ◌*◌, u16_to_be, ◌%◌, ◌/◌, ◌≤◌, ◌<◌, ◌≡◌, refl, sym, ap, ap₂, ◌∙◌, true, some,
  List, [], ◌∷◌, ◌++◌, length, take, drop, slice, splice, replicate, get_or, bytes_eq_iff,
  u16_from_be, length-append, length-take, length-drop, drop-append, take-append, drop-drop,
  append_assoc, arith, le→leb, ==_refl, xor_cancel, xor_comm, xor-zero, bit_xor,
}
use tg_ws_proxy.Crypto.Cipher.{Primitives}
use tg_ws_proxy.Crypto.Random.{xor_bytes, length-xor_bytes}
use tg_ws_proxy.FakeTls.Utf8.{is_utf8}
use tg_ws_proxy.FakeTls.ClientHello.{
  build_faketls_client_hello, sign_faketls_client_hello, parse_faketls_client_hello, is_signed,
  parse_body, is_client_hello, u32_to_le, handshake_message, hello_body, hello_tail, sni_extension,
  other_extensions,
}
use tg_ws_proxy.FakeTls.HelloBody.{parse_body-hello}
use tg_ws_proxy.FakeTls.ServerName.{parse_sni_extension-sni}

splice_one :
    (pre old new rest : List ℕ) (a : ℕ)
    → a ≡ length pre
    → length old ≡ length new
    → splice a new (pre ++ (old ++ rest)) ≡ pre ++ (new ++ rest)
splice_one pre old new rest a ha h =
    ap₂ (λ x y. x ++ (new ++ y)) (take-append pre (old ++ rest) a ha)
      (sym (drop-drop (length new) a (pre ++ (old ++ rest)))
        ∙ ap (drop (length new)) (drop-append pre (old ++ rest) a ha)
        ∙ drop-append old rest (length new) (sym h))

-- Two fields overwritten one behind the other, in front of `rest`.
splice_two :
    (pre old1 old2 new1 new2 rest : List ℕ) (a b : ℕ)
    → a ≡ length pre
    → b ≡ length pre + length new1
    → length old1 ≡ length new1
    → length old2 ≡ length new2
    → splice b new2 (splice a new1 (pre ++ (old1 ++ (old2 ++ rest))))
      ≡ pre ++ ((new1 ++ new2) ++ rest)
splice_two pre old1 old2 new1 new2 rest a b ha hb h1 h2 =
    ap (splice b new2)
      (splice_one pre old1 new1 (old2 ++ rest) a ha h1 ∙ sym (append_assoc pre new1 (old2 ++ rest)))
    ∙ splice_one (pre ++ new1) old2 new2 rest b (hb ∙ sym (length-append pre new1)) h2
    ∙ append_assoc pre new1 (new2 ++ rest)
    ∙ ap (◌++◌ pre) (sym (append_assoc new1 new2 rest))

xor_self : (x : ℕ) → bit_xor x x ≡ 0
xor_self x = ap (λ z. bit_xor z x) (sym (xor_comm 0 x ∙ xor-zero x)) ∙ xor_cancel 0 x

-- What is xored with itself is zero.
xor_bytes_self :
    (n : ℕ) (c rest : List ℕ)
    → n ≤ length c
    → take n (xor_bytes c (take n c ++ rest)) ≡ replicate n 0
unfolding xor_bytes
xor_bytes_self zero c rest h = refl
xor_bytes_self (suc n) [] rest h = absurd (omega arith)
xor_bytes_self (suc n) (x ∷ c) rest h = ap₂ ◌∷◌ (xor_self x) (xor_bytes_self n c rest (omega arith))

-- A record whose lengths and digest are right is read as its body.
accept :
    (P : Primitives) (packet secret random body : List ℕ)
    → 47 ≤ length packet
    → get_or packet 0 0 ≡ 0x16
    → 5 + u16_from_be (get_or packet 3 0) (get_or packet 4 0) ≡ length packet
    → get_or (drop 5 packet) 0 0 ≡ 0x01
    → 4
        + (get_or (drop 5 packet) 1 0 * 0x1_0000
            + get_or (drop 5 packet) 2 0 * 256
            + get_or (drop 5 packet) 3 0)
      ≡ length (drop 5 packet)
    → is_signed P packet secret ≡ true
    → slice 11 43 packet ≡ random
    → drop 4 (drop 5 packet) ≡ body
    → parse_faketls_client_hello P packet secret ≡ parse_body random body
unfolding parse_faketls_client_hello is_client_hello
accept P packet secret random body long kind len hello hlen ok rand rest =
    rw
      (
        le→leb 47 (length packet) long,
        kind,
        len,
        ==_refl (length packet),
        le→leb 4 (length (drop 5 packet)) (omega (arith, length-drop 5 packet)),
        hello,
        hlen,
        ==_refl (length (drop 5 packet)),
        ok,
        rand,
        rest,
        parse_faketls_client_hello,
        is_client_hello,
      )
      refl

module _ (P : Primitives) (host session_id secret : List ℕ) (timestamp : ℕ)
    (hs : length session_id ≡ 32) where
  abbrev packet : List ℕ
  packet = build_faketls_client_hello host session_id

  abbrev digest : List ℕ
  digest = P.hmac secret packet

  abbrev stamp : List ℕ
  stamp = xor_bytes (slice 28 32 digest) (u32_to_le timestamp)

  -- What the client's random field carries.
  abbrev pub signed_random : List ℕ
  signed_random = take 28 digest ++ stamp

  digest_parts : (length (take 28 digest) ≡ 28) × (length stamp ≡ 4)
  digest_parts =
      let d = P.hmac_length secret packet in
      let four : length (slice 28 32 digest) ≡ 4 =
        omega (arith, length-take 4 (drop 28 digest), length-drop 28 digest) in
      (
        omega (arith, length-take 28 digest),
        length-xor_bytes (slice 28 32 digest) (u32_to_le timestamp) four ∙ four,
      )

  abbrev packet_tail : List ℕ
  packet_tail = 0x20 ∷ (session_id ++ hello_tail (sni_extension host ++ other_extensions))

  signed_lem :
      sign_faketls_client_hello P packet secret timestamp
      ≡ take 11 packet ++ (signed_random ++ packet_tail)
  unfolding sign_faketls_client_hello build_faketls_client_hello
  signed_lem =
      splice_two (take 11 packet) (replicate 28 0) (replicate 4 0) (take 28 digest) stamp
        packet_tail 11 39 refl (omega (arith, digest_parts.0)) (omega (arith, digest_parts.0))
        (omega (arith, digest_parts.1))

  abbrev exts : List ℕ
  exts = sni_extension host ++ other_extensions

  length-exts : length exts ≡ 66 + length host
  unfolding sni_extension
  length-exts = omega (arith, length-append host other_extensions)

  length-random : length signed_random ≡ 32
  length-random =
      omega (arith, length-append (take 28 digest) stamp, digest_parts.0, digest_parts.1)

  abbrev signed : List ℕ
  signed = take 11 packet ++ (signed_random ++ packet_tail)

  signed-is_signed : is_signed P signed secret ≡ true
  unfolding is_signed build_faketls_client_hello
  signed-is_signed = (bytes_eq_iff _ _).1 (
      ap₂ (λ r m. take 28 (xor_bytes (P.hmac secret m) r))
        (take-append signed_random packet_tail 32 (sym length-random))
        (splice_one (take 11 packet) signed_random (replicate 32 0) packet_tail 11 refl
          length-random)
      ∙ xor_bytes_self 28 digest stamp (omega (arith, P.hmac_length secret packet)))

  length-tail : length packet_tail ≡ 137 + length host
  length-tail = omega (arith, length-append session_id (hello_tail exts), length-exts)

  length-signed : length signed ≡ 180 + length host
  unfolding build_faketls_client_hello
  length-signed = omega (arith, length-append signed_random packet_tail, length-random, length-tail)

  -- The length of the body, as the packet states it.
  length-hello : length (hello_body (replicate 32 0) session_id exts) ≡ 171 + length host
  length-hello = omega (arith, length-tail)

  record_len :
      (n h : ℕ)
      → n ≡ 175 + h
      → 175 + h < 0x1_0000
      → 5 + u16_from_be (n / 256 % 256) (n % 256) ≡ 180 + h
  record_len n h e k = omega arith

  hello_len :
      (n h : ℕ)
      → n ≡ 171 + h
      → 175 + h < 0x1_0000
      → 4 + (n / 0x1_0000 % 256 * 0x1_0000 + n / 256 % 256 * 256 + n % 256) ≡ 175 + h
  hello_len n h e k = omega arith

  -- The server accepts the hello that a client with the same secret built and signed, whatever the
  -- client's clock says, and reads from it the random field, the session id, the first of the
  -- cipher suites and the host name; for a host name in UTF-8 that leaves the record shorter than
  -- 64 KiB.
  pub parse_faketls_client_hello-sign :
      175 + length host < 0x1_0000
      → is_utf8 host ≡ true
      → parse_faketls_client_hello P (sign_faketls_client_hello P packet secret timestamp) secret
        ≡ some record {
          random = signed_random;
          session_id = session_id;
          cipher_suite = 0x13 ∷ 0x01 ∷ [];
          hostname = some host;
        }
  unfolding build_faketls_client_hello
  parse_faketls_client_hello-sign small ok =
      ap (λ m. parse_faketls_client_hello P m secret) signed_lem
      ∙ accept P signed secret signed_random (hello_body signed_random session_id exts)
          (omega (arith, length-signed)) refl
          (record_len (length (handshake_message (hello_body (replicate 32 0) session_id exts)))
              (length host) (omega (arith, length-hello)) small
            ∙ sym length-signed)
          refl
          (hello_len (length (hello_body (replicate 32 0) session_id exts)) (length host)
              length-hello small
            ∙ omega (arith, length-signed))
          signed-is_signed (take-append signed_random packet_tail 32 (sym length-random)) refl
      ∙ parse_body-hello signed_random session_id exts length-random hs (some host)
          (omega (arith, length-exts))
          (parse_sni_extension-sni host (omega arith) other_extensions ok)

  -- The signed hello is one handshake record, whose payload has 175 bytes and the host name.
  pub sign-record :
      (payload : List ℕ) × (sign_faketls_client_hello P packet secret timestamp
        ≡ 0x16 ∷ 0x03 ∷ 0x01 ∷ (u16_to_be (length payload) ++ payload))
      × (length payload ≡ 175 + length host)
  unfolding build_faketls_client_hello
  sign-record =
      let size : length (drop 5 signed) ≡ 175 + length host = omega (arith, length-signed) in
      (
        drop 5 signed,
        signed_lem
            ∙ ap (λ n. 0x16 ∷ 0x03 ∷ 0x01 ∷ (u16_to_be n ++ drop 5 signed))
                (omega (arith, length-hello, size)),
        size,
      )
