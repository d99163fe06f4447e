-- ===== src/Crypto/Relay.antt =====
-- rust/src/crypto.rs, `generate_relay_init`. What the random generator draws is an argument: the
-- blocks that the loop looks at in turn, and the two bytes of padding.
pub mod Drawn
pub mod Recover
use tg_ws_proxy.Base.{ℕ, ◌+◌, Option, none, some, List, ◌++◌, slice, splice, ◌>>=◌}
use tg_ws_proxy.Crypto.Cipher.{Primitives, make_cipher, crypt, apply_keystream}
use tg_ws_proxy.Crypto.Tag.{ProtoTag, as_bytes, proto_tag_pos}
use tg_ws_proxy.Crypto.Handshake.{i16_to_le, prekey_of, iv_of}
use tg_ws_proxy.Crypto.Random.{first_accepted, xor_bytes}

-- `tail_plain`: the tag, the DC index and two random bytes.
abbrev pub tail_plain : ProtoTag → ℕ → List ℕ → List ℕ
tail_plain proto dc_idx pad = as_bytes proto ++ (i16_to_le dc_idx ++ pad)

module _ (P : Primitives) where
  -- The body of the loop on a block that passed the tests.
  unfoldable pub relay_init : ProtoTag → ℕ → List ℕ → List ℕ → List ℕ
  unfolding apply_keystream make_cipher
  relay_init proto dc_idx pad rnd =
      let cipher = make_cipher (prekey_of rnd) (iv_of rnd) in
      let encrypted = (apply_keystream P cipher rnd).0 in
      let tail_pos = slice proto_tag_pos (proto_tag_pos + 8) in
      let ks = xor_bytes (tail_pos encrypted) (tail_pos rnd) in
      splice proto_tag_pos (xor_bytes (tail_plain proto dc_idx pad) ks) rnd

  unfoldable pub generate_relay_init : ProtoTag → ℕ → List ℕ → List (List ℕ) → Option (List ℕ)
  generate_relay_init proto dc_idx pad draws = do
    rnd ← first_accepted draws
    some (relay_init proto dc_idx pad rnd)
