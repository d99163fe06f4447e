-- ===== src/Crypto/Client.antt =====
-- rust/src/crypto.rs, `generate_client_handshake`: this proxy as a client of an upstream proxy.
pub mod Accepted
pub mod Length
use tg_ws_proxy.Base.{
  ℕ, ◌+◌, Option, none, some, List, ◌++◌, take, drop, reverse, replicate, slice, splice, ◌>>=◌,
}
use tg_ws_proxy.Crypto.Cipher.{Primitives, Cipher, make_cipher, apply_keystream}
use tg_ws_proxy.Crypto.Tag.{
  ProtoTag, as_bytes, handshake_len, prekey_len, proto_tag_pos, dc_idx_pos,
}
use tg_ws_proxy.Crypto.Handshake.{i16_to_le, prekey_of, iv_of, prekey_and_iv_of}
use tg_ws_proxy.Crypto.Random.{first_accepted, xor_bytes}
use tg_ws_proxy.Crypto.Session.{skip_init}

pub record ClientSession : Type 0 where
  pub handshake : List ℕ
  pub enc : Cipher
  pub dec : Cipher

module _ (P : Primitives) where
  -- The body of the loop on a block that passed the tests. The last two bytes stay random.
  unfoldable pub client_handshake : List ℕ → ℕ → ProtoTag → List ℕ → List ℕ
  unfolding apply_keystream make_cipher
  client_handshake secret dc_idx proto raw =
      let key = P.sha256 (prekey_of raw ++ secret) in
      let zeros = replicate handshake_len 0 in
      let keystream = (apply_keystream P (make_cipher key (iv_of raw)) zeros).0 in
      let tag_part =
        xor_bytes (as_bytes proto) (slice proto_tag_pos (proto_tag_pos + 4) keystream) in
      let dc_part = xor_bytes (i16_to_le dc_idx) (slice dc_idx_pos (dc_idx_pos + 2) keystream) in
      splice dc_idx_pos dc_part (splice proto_tag_pos tag_part raw)

  unfoldable pub client_session : List ℕ → List ℕ → ClientSession
  unfolding make_cipher skip_init
  client_session secret handshake =
      let enc_key = P.sha256 (prekey_of handshake ++ secret) in
      let reversed = reverse (prekey_and_iv_of handshake) in
      let dec_key = P.sha256 (take prekey_len reversed ++ secret) in
      record {
        handshake = handshake;
        enc = skip_init P (make_cipher enc_key (iv_of handshake));
        dec = make_cipher dec_key (drop prekey_len reversed);
      }

  unfoldable pub generate_client_handshake :
      List ℕ → ℕ → ProtoTag → List (List ℕ) → Option ClientSession
  unfolding client_session
  generate_client_handshake secret dc_idx proto draws = do
    raw ← first_accepted draws
    some (client_session secret (client_handshake secret dc_idx proto raw))
