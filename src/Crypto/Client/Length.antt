-- ===== src/Crypto/Client/Length.antt =====
-- rust/src/crypto.rs, `generate_client_handshake`: the handshake has 64 bytes.
use tg_ws_proxy.Base.{
  ℕ, ◌≡◌, ◌∙◌, ap, sym, inl, inr, some, List, ◌++◌, arith, length, drop, slice, splice, replicate,
  All, Option-cases, length-take, length-drop, length-splice,
}
use tg_ws_proxy.Crypto.Cipher.{Primitives, crypt, length-crypt}
use tg_ws_proxy.Crypto.Tag.{ProtoTag, as_bytes, length-as_bytes}
use tg_ws_proxy.Crypto.Handshake.{i16_to_le, prekey_of, iv_of}
use tg_ws_proxy.Crypto.Random.{first_accepted, xor_bytes, length-xor_bytes, first_accepted-All}
use tg_ws_proxy.Crypto.Client.{
  ClientSession, client_handshake, client_session, generate_client_handshake,
}

length-client_handshake :
    (P : Primitives) (secret : List ℕ) (dc_idx : ℕ) (proto : ProtoTag) (raw : List ℕ)
    → length raw ≡ 64
    → length (client_handshake P secret dc_idx proto raw) ≡ 64
unfolding client_handshake
length-client_handshake P secret dc_idx proto raw len =
    let key = P.sha256 (prekey_of raw ++ secret) in
    let ks = crypt P (record { key = key; iv = iv_of raw; pos = 0 }) (replicate 64 0) in
    let l : length ks ≡ 64 = length-crypt P _ (replicate 64 0) in
    let t : length (xor_bytes (as_bytes proto) (slice 56 60 ks)) ≡ 4 =
      length-xor_bytes (as_bytes proto) (slice 56 60 ks)
        (omega (arith, length-as_bytes proto, length-take 4 (drop 56 ks), length-drop 56 ks))
      ∙ length-as_bytes proto in
    let d : length (xor_bytes (i16_to_le dc_idx) (slice 60 62 ks)) ≡ 2 =
      length-xor_bytes (i16_to_le dc_idx) (slice 60 62 ks)
        (omega (arith, length-take 2 (drop 60 ks), length-drop 60 ks)) in
    let once = splice 56 (xor_bytes (as_bytes proto) (slice 56 60 ks)) raw in
    let o : length once ≡ 64 =
      length-splice 56 (xor_bytes (as_bytes proto) (slice 56 60 ks)) raw (omega arith) ∙ len in
    length-splice 60 (xor_bytes (i16_to_le dc_idx) (slice 60 62 ks)) once (omega arith) ∙ o

pub length-generate_client_handshake :
    (P : Primitives) (secret : List ℕ) (dc_idx : ℕ) (proto : ProtoTag) (draws : List (List ℕ))
    (s : ClientSession)
    → All (λ raw. length raw ≡ 64) draws
    → generate_client_handshake P secret dc_idx proto draws ≡ some s
    → length s.handshake ≡ 64
unfolding generate_client_handshake client_session
length-generate_client_handshake P secret dc_idx proto draws s lens e =
    elim (Option-cases (first_accepted draws)) [
      | inl stop ↦ cc
      | inr (raw, found) ↦
          let len = first_accepted-All (λ r. length r ≡ 64) draws raw lens found in
          let made : client_session P secret (client_handshake P secret dc_idx proto raw) ≡ s =
            ground arith in
          ap (λ (t : ClientSession). length t.handshake) (sym made)
          ∙ length-client_handshake P secret dc_idx proto raw len
    ]
