-- ===== src/Crypto/Handshake.antt =====
-- rust/src/crypto.rs, `parse_handshake`. An i16 is its bit pattern, below 2 ^ 16.
use tg_ws_proxy.Base.{
  ℕ, sym, ap, ◌∙◌, take-append, get_or-drop, ◌+◌, ◌-◌, ◌*◌, ◌/◌, ◌%◌, ◌^◌, ◌<◌, ◌≡◌, refl, Bool,
  Option, some, List, [], ◌∷◌, ◌++◌, arith, drop, slice, get_or, ltb, leb, if◌then◌else◌, ◌>>=◌,
}
use tg_ws_proxy.Crypto.Cipher.{Primitives, Cipher, make_cipher, crypt, apply_keystream}
use tg_ws_proxy.Crypto.Tag.{
  ProtoTag, abridged, intermediate, padded_intermediate, from_bytes, as_bytes, from_bytes_iff,
  length-as_bytes, skip_len, prekey_len, iv_len, proto_tag_pos, dc_idx_pos,
}

pub record HandshakeInfo : Type 0 where
  pub dc_id : ℕ
  pub is_media : Bool
  pub proto : ProtoTag
  pub prekey_and_iv : List ℕ

-- `i16::from_le_bytes` and `i16::to_le_bytes`
abbrev pub i16_from_le : ℕ → ℕ → ℕ
i16_from_le a b = a + b * 256

abbrev pub i16_to_le : ℕ → List ℕ
i16_to_le n = (n % 256) ∷ (n / 256 % 256) ∷ []

-- `unsigned_abs` and the test against 0
abbrev pub i16_unsigned_abs : ℕ → ℕ
i16_unsigned_abs n = if ltb n (2 ^ 15) then n else 2 ^ 16 - n

abbrev pub i16_is_negative : ℕ → Bool
i16_is_negative n = leb (2 ^ 15) n

-- Bytes 8 to 40, 40 to 56, and both.
abbrev pub prekey_of : List ℕ → List ℕ
prekey_of = slice skip_len (skip_len + prekey_len)

abbrev pub iv_of : List ℕ → List ℕ
iv_of = slice (skip_len + prekey_len) (skip_len + prekey_len + iv_len)

abbrev pub prekey_and_iv_of : List ℕ → List ℕ
prekey_and_iv_of = slice skip_len (skip_len + prekey_len + iv_len)

-- What a signed DC index, a tag and the key material make.
abbrev pub info : ProtoTag → List ℕ → ℕ → Option HandshakeInfo
info tag prekey_and_iv dc_idx = some (record {
  dc_id = i16_unsigned_abs dc_idx;
  is_media = i16_is_negative dc_idx;
  proto = tag;
  prekey_and_iv = prekey_and_iv;
})

after_tag :
    (tag : ProtoTag) (xs : List ℕ)
    → (get_or (as_bytes tag ++ xs) 4 0 ≡ get_or xs 0 0)
      × (get_or (as_bytes tag ++ xs) 5 0 ≡ get_or xs 1 0)
unfolding as_bytes
after_tag abridged xs = (refl, refl)
after_tag intermediate xs = (refl, refl)
after_tag padded_intermediate xs = (refl, refl)

i16_from_le-to_le : (n : ℕ) → n < 2 ^ 16 → i16_from_le (n % 256) (n / 256 % 256) ≡ n
i16_from_le-to_le n h = omega arith

module _ (P : Primitives) where
  unfoldable pub parse_handshake : List ℕ → List ℕ → Option HandshakeInfo
  unfolding apply_keystream make_cipher
  parse_handshake handshake secret = do
    let key = P.sha256 (prekey_of handshake ++ secret)
    let cipher = make_cipher key (iv_of handshake)
    let buf = (apply_keystream P cipher handshake).0
    proto ← from_bytes (slice proto_tag_pos (proto_tag_pos + 4) buf)
    let dc_idx = i16_from_le (get_or buf dc_idx_pos 0) (get_or buf (dc_idx_pos + 1) 0)
    info proto (prekey_and_iv_of handshake) dc_idx

  abbrev handshake_cipher : List ℕ → List ℕ → Cipher
  handshake_cipher handshake secret = record {
    key = P.sha256 (prekey_of handshake ++ secret);
    iv = iv_of handshake;
    pos = 0;
  }

  -- What a handshake parses to, by the bytes that it decrypts to from position 56 on.
  pub parse_handshake-decrypted :
      (handshake secret : List ℕ) (tag : ProtoTag) (dc_idx : ℕ) (pad : List ℕ)
      → dc_idx < 2 ^ 16
      → drop 56 (crypt P (handshake_cipher handshake secret) handshake)
        ≡ as_bytes tag ++ (i16_to_le dc_idx ++ pad)
      → parse_handshake handshake secret ≡ info tag (prekey_and_iv_of handshake) dc_idx
  unfolding parse_handshake
  parse_handshake-decrypted handshake secret tag dc_idx pad fits e =
      rw (tag_read, low_read, high_read)
        (ap (info tag (prekey_and_iv_of handshake)) (i16_from_le-to_le dc_idx fits))
    where
      buf : List ℕ
      buf = crypt P (handshake_cipher handshake secret) handshake

      tag_read : from_bytes (slice 56 60 buf) ≡ some tag
      tag_read =
          (from_bytes_iff _ tag).1
            (rw e (take-append (as_bytes tag) _ 4 (sym (length-as_bytes tag))))

      low_read : get_or buf 60 0 ≡ dc_idx % 256
      low_read = sym (get_or-drop 56 4 buf 0) ∙ rw e (after_tag tag _).0

      high_read : get_or buf 61 0 ≡ dc_idx / 256 % 256
      high_read = sym (get_or-drop 56 5 buf 0) ∙ rw e (after_tag tag _).1
