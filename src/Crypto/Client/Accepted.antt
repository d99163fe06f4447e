-- ===== src/Crypto/Client/Accepted.antt =====
-- The upstream proxy runs the same code: it parses our handshake, and builds the same ciphers.
use tg_ws_proxy.Base.{
  ℕ, ◌+◌, ◌^◌, ◌≤◌, ◌<◌, ◌≡◌, refl, sym, ap, ap₂, ◌∙◌, subst, inl, inr, some, List, ◌++◌,
  append_assoc, arith, length, take, drop, slice, splice, replicate, take-take, drop-take, All,
  Option-cases, take-append, drop-append, drop-drop, length-take, length-append, slice-splice,
  length-splice,
}
use tg_ws_proxy.Crypto.Cipher.{
  Primitives, make_cipher, crypt, xor_from, drop-xor_from, take-xor_from, xor_from-append,
  length-xor_from,
}
use tg_ws_proxy.Crypto.Tag.{ProtoTag, as_bytes, length-as_bytes}
use tg_ws_proxy.Crypto.Handshake.{
  info, i16_to_le, prekey_of, iv_of, prekey_and_iv_of, parse_handshake, parse_handshake-decrypted,
}
use tg_ws_proxy.Crypto.Random.{
  first_accepted, xor_bytes, length-xor_bytes, xor_from-zeros, first_accepted-All,
}
use tg_ws_proxy.Crypto.Session.{skip_init, build_connection_ciphers}
use tg_ws_proxy.Crypto.Client.{
  ClientSession, client_handshake, client_session, generate_client_handshake,
}

-- Two neighbouring fields overwritten in a block: four bytes at 56, then two at 60.
module _ (t d raw : List ℕ) (len : length raw ≡ 64) (t_len : length t ≡ 4)
    (d_len : length d ≡ 2) where
  abbrev once : List ℕ
  once = splice 56 t raw

  once_assoc : once ≡ (take 56 raw ++ t) ++ drop 60 raw
  once_assoc =
      ap (λ k. take 56 raw ++ (t ++ drop (56 + k) raw)) t_len
      ∙ sym (append_assoc (take 56 raw) t (drop 60 raw))

  front_len : 60 ≡ length (take 56 raw ++ t)
  front_len = omega (arith, length-append (take 56 raw) t, length-take 56 raw)

  length-once : length once ≡ 64
  length-once = length-splice 56 t raw (omega arith) ∙ len

  twice-eq : splice 60 d once ≡ (take 56 raw ++ t) ++ (d ++ drop 62 raw)
  twice-eq =
      ap (λ k. take 60 once ++ (d ++ drop (60 + k) once)) d_len
      ∙ ap₂ (λ x y. x ++ (d ++ y))
          (ap (take 60) once_assoc ∙ take-append (take 56 raw ++ t) (drop 60 raw) 60 front_len)
          (sym (drop-drop 2 60 once)
            ∙ ap (drop 2) (
                ap (drop 60) once_assoc ∙ drop-append (take 56 raw ++ t) (drop 60 raw) 60 front_len)
            ∙ drop-drop 2 60 raw)

  drop-twice : drop 56 (splice 60 d once) ≡ t ++ (d ++ drop 62 raw)
  drop-twice =
      ap (drop 56) (twice-eq ∙ append_assoc (take 56 raw) t (d ++ drop 62 raw))
      ∙ drop-append (take 56 raw) (t ++ (d ++ drop 62 raw)) 56 (omega (arith, length-take 56 raw))

  slice-twice : (a b : ℕ) → b ≤ 56 → slice a b (splice 60 d once) ≡ slice a b raw
  slice-twice a b h =
      slice-splice a b 60 d once (omega arith) (omega (arith, length-once))
      ∙ slice-splice a b 56 t raw h (omega arith)

-- A field that was written over the keystream of a zero buffer decrypts to what was written.
field-decrypts :
    (ks : ℕ → ℕ) (at n : ℕ) (t : List ℕ)
    → length t ≡ n
    → xor_from ks at (xor_bytes t (xor_from ks at (replicate n 0))) ≡ t
field-decrypts ks at n t h =
    subst (λ k. xor_from ks at (xor_bytes t (xor_from ks at (replicate k 0))) ≡ t) h
      (xor_from-zeros ks at t)

zeros_slice :
    (ks : ℕ → ℕ)
    → (slice 56 60 (xor_from ks 0 (replicate 64 0)) ≡ xor_from ks 56 (replicate 4 0))
      × (slice 60 62 (xor_from ks 0 (replicate 64 0)) ≡ xor_from ks 60 (replicate 2 0))
zeros_slice ks = (
  ap (take 4) (drop-xor_from ks 56 0 (replicate 64 0)) ∙ take-xor_from ks 4 56 _,
  ap (take 2) (drop-xor_from ks 60 0 (replicate 64 0)) ∙ take-xor_from ks 2 60 _,
)

abbrev tag_field : (ℕ → ℕ) → List ℕ → List ℕ
tag_field ks tag = xor_bytes tag (xor_from ks 56 (replicate 4 0))

abbrev dc_field : (ℕ → ℕ) → List ℕ → List ℕ
dc_field ks dc = xor_bytes dc (xor_from ks 60 (replicate 2 0))

module _ (ks : ℕ → ℕ) (tag dc raw : List ℕ) (len : length raw ≡ 64) (tag_len : length tag ≡ 4)
    (dc_len : length dc ≡ 2) where
  length-tag_field : length (tag_field ks tag) ≡ 4
  length-tag_field =
      length-xor_bytes tag (xor_from ks 56 (replicate 4 0))
        (tag_len ∙ sym (length-xor_from ks 56 (replicate 4 0)))
      ∙ tag_len

  length-dc_field : length (dc_field ks dc) ≡ 2
  length-dc_field =
      length-xor_bytes dc (xor_from ks 60 (replicate 2 0))
        (dc_len ∙ sym (length-xor_from ks 60 (replicate 2 0)))
      ∙ dc_len

  fields-decrypt :
      drop 56 (xor_from ks 0 (splice 60 (dc_field ks dc) (splice 56 (tag_field ks tag) raw)))
      ≡ tag ++ (dc ++ xor_from ks 62 (drop 62 raw))
  fields-decrypt =
      drop-xor_from ks 56 0 (splice 60 (dc_field ks dc) (splice 56 (tag_field ks tag) raw))
      ∙ ap (xor_from ks 56)
          (drop-twice (tag_field ks tag) (dc_field ks dc) raw len length-tag_field length-dc_field)
      ∙ xor_from-append ks 56 (tag_field ks tag) ((dc_field ks dc) ++ drop 62 raw)
      ∙ ap₂ ◌++◌ (field-decrypts ks 56 4 tag tag_len) (
          ap (λ k. xor_from ks (56 + k) ((dc_field ks dc) ++ drop 62 raw)) length-tag_field
          ∙ xor_from-append ks 60 (dc_field ks dc) (drop 62 raw)
          ∙ ap₂ ◌++◌ (field-decrypts ks 60 2 dc dc_len)
              (ap (λ k. xor_from ks (60 + k) (drop 62 raw)) length-dc_field))

module _ (P : Primitives) (secret : List ℕ) (dc_idx : ℕ) (proto : ProtoTag) (raw : List ℕ)
    (len : length raw ≡ 64) where
  abbrev sent : List ℕ
  sent = client_handshake P secret dc_idx proto raw

  abbrev own_key : List ℕ
  own_key = P.sha256 (prekey_of raw ++ secret)

  abbrev own_ks : ℕ → ℕ
  own_ks = P.keystream own_key (iv_of raw)

  sent-eq :
      sent
      ≡ splice 60
          (dc_field own_ks (i16_to_le dc_idx))
          (splice 56 (tag_field own_ks (as_bytes proto)) raw)
  unfolding client_handshake crypt
  sent-eq =
      ap₂
        (λ x y.
          splice 60 (xor_bytes (i16_to_le dc_idx) x) (splice 56 (xor_bytes (as_bytes proto) y) raw))
        (zeros_slice own_ks).1 (zeros_slice own_ks).0

  slice-sent : (a b : ℕ) → b ≤ 56 → slice a b sent ≡ slice a b raw
  slice-sent a b h =
      ap (slice a b) sent-eq
      ∙ slice-twice (tag_field own_ks (as_bytes proto)) (dc_field own_ks (i16_to_le dc_idx)) raw len
          (length-tag_field own_ks (as_bytes proto) (i16_to_le dc_idx) raw len
            (length-as_bytes proto) refl)
          (length-dc_field own_ks (as_bytes proto) (i16_to_le dc_idx) raw len
            (length-as_bytes proto) refl)
          a b h

  sent-decrypts :
      drop 56 (xor_from (P.keystream (P.sha256 (prekey_of sent ++ secret)) (iv_of sent)) 0 sent)
      ≡ as_bytes proto ++ (i16_to_le dc_idx ++ xor_from own_ks 62 (drop 62 raw))
  sent-decrypts =
      ap₂ (λ k v. drop 56 (xor_from (P.keystream (P.sha256 (k ++ secret)) v) 0 sent))
        (slice-sent 8 40 (omega arith)) (slice-sent 40 56 (omega arith))
      ∙ ap (λ x. drop 56 (xor_from own_ks 0 x)) sent-eq
      ∙ fields-decrypt own_ks (as_bytes proto) (i16_to_le dc_idx) raw len (length-as_bytes proto)
          refl

  sent-parses :
      dc_idx < 2 ^ 16 → parse_handshake P sent secret ≡ info proto (prekey_and_iv_of sent) dc_idx
  unfolding crypt
  sent-parses h = parse_handshake-decrypted P sent secret proto dc_idx _ h sent-decrypts

-- The upstream proxy splits `prekey_and_iv` where the client split the whole packet.
prekey_split : (hs : List ℕ) → take 32 (prekey_and_iv_of hs) ≡ prekey_of hs
prekey_split hs = take-take 32 48 (drop 8 hs) (omega arith)

iv_split : (hs : List ℕ) → drop 32 (prekey_and_iv_of hs) ≡ iv_of hs
iv_split hs = drop-take 32 48 16 (drop 8 hs) refl ∙ ap (take 16) (drop-drop 32 8 hs)

same_ciphers :
    (P : Primitives) (secret hs relay_init : List ℕ)
    → let c = build_connection_ciphers P (prekey_and_iv_of hs) secret relay_init in
      (c.clt_dec ≡ (client_session P secret hs).enc)
      × (c.clt_enc ≡ (client_session P secret hs).dec)
unfolding build_connection_ciphers client_session
same_ciphers P secret hs relay_init = (
  ap₂ (λ k v. skip_init P (make_cipher (P.sha256 (k ++ secret)) v)) (prekey_split hs) (iv_split hs),
  refl,
)

abbrev Accepted : Primitives → List ℕ → ℕ → ProtoTag → List ℕ → ClientSession → Type 0
Accepted P secret dc_idx proto relay_init s =
    let key = prekey_and_iv_of s.handshake in
    (parse_handshake P s.handshake secret ≡ info proto key dc_idx)
    × ((build_connection_ciphers P key secret relay_init).clt_dec ≡ s.enc)
    × ((build_connection_ciphers P key secret relay_init).clt_enc ≡ s.dec)

-- The handshake that `generate_client_handshake` returns, over random blocks of 64 bytes, is one
-- that the upstream proxy accepts under the same secret: it reads the requested protocol, DC and
-- media flag. And the ciphers that it then builds for its client side are the two that the
-- function returned, its decryptor being our encryptor and the other way round.
pub generate_client_handshake-accepted :
    (P : Primitives) (secret : List ℕ) (dc_idx : ℕ) (proto : ProtoTag) (draws : List (List ℕ))
    (relay_init : List ℕ) (s : ClientSession)
    → dc_idx < 2 ^ 16
    → All (λ raw. length raw ≡ 64) draws
    → generate_client_handshake P secret dc_idx proto draws ≡ some s
    → let key = prekey_and_iv_of s.handshake in
      (parse_handshake P s.handshake secret ≡ info proto key dc_idx)
      × ((build_connection_ciphers P key secret relay_init).clt_dec ≡ s.enc)
      × ((build_connection_ciphers P key secret relay_init).clt_enc ≡ s.dec)
unfolding generate_client_handshake
generate_client_handshake-accepted P secret dc_idx proto draws relay_init s h lens e =
    elim (Option-cases (first_accepted draws)) [
      | inl stop ↦ cc
      | inr (raw, found) ↦
          let len = first_accepted-All (λ r. length r ≡ 64) draws raw lens found in
          let hs = client_handshake P secret dc_idx proto raw in
          let made : client_session P secret hs ≡ s = ground arith in
          let same = same_ciphers P secret hs relay_init in
          subst (Accepted P secret dc_idx proto relay_init) made
            (sent-parses P secret dc_idx proto raw len h, same.0, same.1)
    ]
