-- ===== src/FakeTls/ClientHello.antt =====
-- rust/src/faketls.rs: the ClientHello, built, signed and parsed. The random session id and the
-- clock are arguments. A sum of u16 wraps where the build does not check for overflow.
use tg_ws_proxy.Base.{
  ℕ, zero, suc, ◌+◌, ◌*◌, ◌%◌, ◌/◌, ◌||◌, not, Bool, Option, none, some, List, [], ◌∷◌, ◌++◌,
  length, take, drop, slice, splice, replicate, get_or, ltb, leb, ◌&&◌, ◌==◌, bytes_eq,
  if◌then◌else◌, u16_from_be, u16_to_be, ◌>>=◌, reject, ◌>>◌,
}
use tg_ws_proxy.Crypto.Cipher.{Primitives}
use tg_ws_proxy.Crypto.Random.{xor_bytes}
use tg_ws_proxy.FakeTls.Record.{tls_record_handshake, tls_version_12}
use tg_ws_proxy.FakeTls.Utf8.{is_utf8}

abbrev pub tls_record_version : List ℕ
tls_record_version = 0x03 ∷ 0x01 ∷ []

abbrev pub tls_digest_pos : ℕ
tls_digest_pos = 11

abbrev pub tls_digest_len : ℕ
tls_digest_len = 32

abbrev pub tls_client_random_offset_in_handshake : ℕ
tls_client_random_offset_in_handshake = 6

pub record FakeTlsClientHello : Type 0 where
  pub random : List ℕ
  pub session_id : List ℕ
  pub cipher_suite : List ℕ
  pub hostname : Option (List ℕ)

abbrev u16 : ℕ → ℕ
u16 n = n % 0x1_0000

unfoldable pub sni_extension : List ℕ → List ℕ
sni_extension host =
    let host_len = u16 (length host) in
    let sni_list_len = u16 (1 + 2 + host_len) in
    let sni_data_len = u16 (2 + sni_list_len) in
    u16_to_be 0
    ++ (u16_to_be sni_data_len ++ (u16_to_be sni_list_len ++ (0x00 ∷ (u16_to_be host_len ++ host))))

-- The extensions behind the server name: extended_master_secret, renegotiation_info,
-- supported_groups, ec_point_formats, session_ticket and signature_algorithms.
abbrev pub other_extensions : List ℕ
other_extensions =
    0x00 ∷ 0x17 ∷ 0x00 ∷ 0x00 ∷ 0xff ∷ 0x01 ∷ 0x00 ∷ 0x01 ∷ 0x00 ∷ 0x00 ∷ 0x0a ∷ 0x00 ∷ 0x0a ∷ 0x00
    ∷ 0x08 ∷ 0x00 ∷ 0x1d ∷ 0x00 ∷ 0x17 ∷ 0x00 ∷ 0x18 ∷ 0x00 ∷ 0x19 ∷ 0x00 ∷ 0x0b ∷ 0x00 ∷ 0x02
    ∷ 0x01 ∷ 0x00 ∷ 0x00 ∷ 0x23 ∷ 0x00 ∷ 0x00 ∷ 0x00 ∷ 0x0d ∷ 0x00 ∷ 0x14 ∷ 0x00 ∷ 0x12 ∷ 0x04
    ∷ 0x03 ∷ 0x08 ∷ 0x04 ∷ 0x04 ∷ 0x01 ∷ 0x05 ∷ 0x03 ∷ 0x08 ∷ 0x05 ∷ 0x05 ∷ 0x01 ∷ 0x08 ∷ 0x06
    ∷ 0x06 ∷ 0x01 ∷ 0x02 ∷ 0x01 ∷ []

abbrev pub cipher_suites : List ℕ
cipher_suites =
    0x13 ∷ 0x01 ∷ 0x13 ∷ 0x02 ∷ 0x13 ∷ 0x03 ∷ 0xc0 ∷ 0x2b ∷ 0xc0 ∷ 0x2f ∷ 0xc0 ∷ 0x2c ∷ 0xc0 ∷ 0x30
    ∷ 0xcc ∷ 0xa9 ∷ 0xcc ∷ 0xa8 ∷ 0xc0 ∷ 0x13 ∷ 0xc0 ∷ 0x14 ∷ 0x00 ∷ 0x9c ∷ 0x00 ∷ 0x9d ∷ 0x00
    ∷ 0x2f ∷ 0x00 ∷ 0x35 ∷ 0x00 ∷ 0x0a ∷ []

-- The body behind the session id.
abbrev pub hello_tail : List ℕ → List ℕ
hello_tail exts =
    u16_to_be (length cipher_suites)
    ++ (cipher_suites ++ (0x01 ∷ 0x00 ∷ (u16_to_be (length exts) ++ exts)))

abbrev pub hello_body : List ℕ → List ℕ → List ℕ → List ℕ
hello_body random session_id exts =
    tls_version_12 ++ (random ++ (0x20 ∷ (session_id ++ hello_tail exts)))

-- The handshake message of a body, and the record of a handshake message.
abbrev pub handshake_message : List ℕ → List ℕ
handshake_message hello =
    let hello_len = length hello in
    0x01 ∷ (hello_len / 0x1_0000 % 256) ∷ (hello_len / 256 % 256) ∷ (hello_len % 256) ∷ hello

abbrev pub handshake_record : List ℕ → List ℕ
handshake_record handshake =
    tls_record_handshake ∷ (tls_record_version ++ (u16_to_be (length handshake) ++ handshake))

unfoldable pub build_faketls_client_hello : List ℕ → List ℕ → List ℕ
build_faketls_client_hello hostname session_id = handshake_record (
    handshake_message
      (hello_body (replicate 32 0) session_id (sni_extension hostname ++ other_extensions)))

abbrev pub u32_to_le : ℕ → List ℕ
u32_to_le t = (t % 256) ∷ (t / 256 % 256) ∷ (t / 0x1_0000 % 256) ∷ (t / 0x100_0000 % 256) ∷ []

unfoldable pub sign_faketls_client_hello : Primitives → List ℕ → List ℕ → ℕ → List ℕ
sign_faketls_client_hello P packet secret timestamp =
    let zeroed = splice tls_digest_pos (replicate tls_digest_len 0) packet in
    let computed = P.hmac secret zeroed in
    let signed = splice tls_digest_pos (take 28 computed) zeroed in
    splice (tls_digest_pos + 28) (xor_bytes (slice 28 32 computed) (u32_to_le timestamp)) signed

-- The server name of the extension `ext`; `None` for one that is malformed.
unfoldable pub server_name : List ℕ → Option (List ℕ)
server_name ext =
    let list_len = u16_from_be (get_or ext 0 0) (get_or ext 1 0) in
    let host_len = u16_from_be (get_or ext 3 0) (get_or ext 4 0) in
    let host = slice 5 (5 + host_len) ext in
    reject (ltb (length ext) (2 + list_len) || (ltb list_len 3 || not (get_or ext 2 0 == 0)))
    >> (reject (ltb (length ext) (5 + host_len)) >> (reject (not (is_utf8 host)) >> some host))

-- The loop of `parse_sni_extension`; the outer `none` means that the fuel ran out.
unfoldable pub sni_from : ℕ → List ℕ → Option (Option (List ℕ))
sni_from zero extensions = none
sni_from (suc fuel) extensions =
    let ext_type = u16_from_be (get_or extensions 0 0) (get_or extensions 1 0) in
    let ext_len = u16_from_be (get_or extensions 2 0) (get_or extensions 3 0) in
    let behind = drop 4 extensions in
    let more = sni_from fuel (drop ext_len behind) in
    if ltb (length extensions) 4
    then some none
    else if ltb (length behind) ext_len
    then some none
    else if not (ext_type == 0) || ltb (length (take ext_len behind)) 5
    then more
    else some (server_name (take ext_len behind))

-- A round takes 4 bytes at least.
unfoldable pub parse_sni_extension : List ℕ → Option (Option (List ℕ))
parse_sni_extension extensions = sni_from (suc (length extensions)) extensions

-- The end of `parse_faketls_client_hello`, with the `len` bytes of extensions from `p` on.
unfoldable pub parse_from_extensions :
    List ℕ → List ℕ → List ℕ → List ℕ → ℕ → ℕ → Option FakeTlsClientHello
parse_from_extensions body random session_id cipher_suite p len =
    reject (ltb (length body) (p + len))
    >> (parse_sni_extension (slice p (p + len) body) >>= λ hostname. some record {
      random = random;
      session_id = session_id;
      cipher_suite = cipher_suite;
      hostname = hostname;
    })

-- The part before it, from the compression methods at `p` on.
unfoldable pub parse_from_compression :
    List ℕ → List ℕ → List ℕ → List ℕ → ℕ → Option FakeTlsClientHello
parse_from_compression body random session_id cipher_suite p =
    reject (not (ltb p (length body)))
    >> (let q = p + (1 + get_or body p 0) in
        reject (ltb (length body) (q + 2))
        >> parse_from_extensions body random session_id cipher_suite (q + 2)
            (u16_from_be (get_or body q 0) (get_or body (q + 1) 0)))

-- The part before it, from the `len` bytes of cipher suites behind `session_end` on.
unfoldable pub parse_from_suites : List ℕ → List ℕ → ℕ → ℕ → Option FakeTlsClientHello
parse_from_suites body random session_end len =
    reject (ltb len 2 || ltb (length body) (session_end + 2 + len + 1))
    >> parse_from_compression body random (slice 35 session_end body)
        (slice (session_end + 2) (session_end + 4) body) (session_end + 2 + len)

-- The part before it, from the body's start on.
unfoldable pub parse_body : List ℕ → List ℕ → Option FakeTlsClientHello
parse_body random body =
    let session_end = 35 + get_or body 34 0 in
    reject (ltb (length body) (2 + 32 + 1))
    >> (reject (ltb (length body) (session_end + 2))
        >> parse_from_suites body random session_end
            (u16_from_be (get_or body session_end 0) (get_or body (session_end + 1) 0)))

-- The digest of the record with its random field zeroed, against the field.
unfoldable pub is_signed : Primitives → List ℕ → List ℕ → Bool
is_signed P packet secret =
    let random_offset = 5 + tls_client_random_offset_in_handshake in
    let client_random = slice random_offset (random_offset + tls_digest_len) packet in
    let computed = P.hmac secret (splice random_offset (replicate tls_digest_len 0) packet) in
    bytes_eq (take 28 (xor_bytes computed client_random)) (replicate 28 0)

-- The record's length, type and two inner lengths.
unfoldable pub is_client_hello : List ℕ → Bool
is_client_hello packet =
    let handshake = drop 5 packet in
    let handshake_len =
      get_or handshake 1 0 * 0x1_0000 + get_or handshake 2 0 * 256 + get_or handshake 3 0 in
    leb (5 + 4 + tls_client_random_offset_in_handshake + tls_digest_len) (length packet)
    && (get_or packet 0 0 == tls_record_handshake
        && (length packet == 5 + u16_from_be (get_or packet 3 0) (get_or packet 4 0)
            && (leb 4 (length handshake)
                && (get_or handshake 0 0 == 0x01 && length handshake == 4 + handshake_len))))

unfoldable pub parse_faketls_client_hello : Primitives → List ℕ → List ℕ → Option FakeTlsClientHello
parse_faketls_client_hello P packet secret =
    reject (not (is_client_hello packet))
    >> (reject (not (is_signed P packet secret))
        >> parse_body (slice 11 43 packet) (drop 4 (drop 5 packet)))
