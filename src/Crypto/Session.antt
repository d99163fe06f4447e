-- ===== src/Crypto/Session.antt =====
-- rust/src/crypto.rs, `build_connection_ciphers`: the four ciphers of one proxied connection.
use tg_ws_proxy.Base.{
  ℕ, ◌≡◌, List, ◌++◌, arith, length, length-take, length-drop, take, drop, reverse, length-reverse,
  ◌∙◌, replicate,
}
use tg_ws_proxy.Crypto.Cipher.{Primitives, Cipher, IsKeyed, make_cipher, apply_keystream}
use tg_ws_proxy.Crypto.Tag.{handshake_len, prekey_len}
use tg_ws_proxy.Crypto.Handshake.{prekey_of, iv_of, prekey_and_iv_of}

pub record ConnectionCiphers : Type 0 where
  pub clt_dec : Cipher
  pub clt_enc : Cipher
  pub tg_enc : Cipher
  pub tg_dec : Cipher

abbrev pub AllKeyed : ConnectionCiphers → Type 0
AllKeyed c = IsKeyed c.clt_dec × IsKeyed c.clt_enc × IsKeyed c.tg_enc × IsKeyed c.tg_dec

half_of : (xs : List ℕ) → length xs ≡ 48 → length (drop 32 xs) ≡ 16
half_of xs h = omega (arith, length-drop 32 xs)

key_of : (xs : List ℕ) → length xs ≡ 48 → length (take 32 xs) ≡ 32
key_of xs h = omega (arith, length-take 32 xs)

module _ (P : Primitives) where
  -- Fast-forward past a 64-byte packet: `apply_keystream(&mut dummy)`.
  unfoldable pub skip_init : Cipher → Cipher
  unfolding apply_keystream
  skip_init c = (apply_keystream P c (replicate handshake_len 0)).1

  unfoldable pub build_connection_ciphers : List ℕ → List ℕ → List ℕ → ConnectionCiphers
  unfolding make_cipher skip_init
  build_connection_ciphers prekey_and_iv secret relay_init =
      let clt_dec_key = P.sha256 (take prekey_len prekey_and_iv ++ secret) in
      let clt_dec_iv = drop prekey_len prekey_and_iv in
      let reversed = reverse prekey_and_iv in
      let clt_enc_key = P.sha256 (take prekey_len reversed ++ secret) in
      let clt_enc_iv = drop prekey_len reversed in
      let clt_dec = make_cipher clt_dec_key clt_dec_iv in
      let clt_enc = make_cipher clt_enc_key clt_enc_iv in
      let relay_rev = reverse (prekey_and_iv_of relay_init) in
      let tg_enc = make_cipher (prekey_of relay_init) (iv_of relay_init) in
      let tg_dec = make_cipher (take prekey_len relay_rev) (drop prekey_len relay_rev) in
      record {
        clt_dec = skip_init clt_dec;
        clt_enc = clt_enc;
        tg_enc = skip_init tg_enc;
        tg_dec = tg_dec;
      }

  -- With 48 bytes of client key material and a 64-byte relay init, each of the four ciphers gets a
  -- 32-byte key and a 16-byte IV, so the `expect` of `make_cipher` does not fire.
  pub build_connection_ciphers-AllKeyed :
      (prekey_and_iv secret relay_init : List ℕ)
      → length prekey_and_iv ≡ 48
      → length relay_init ≡ 64
      → AllKeyed (build_connection_ciphers prekey_and_iv secret relay_init)
  unfolding build_connection_ciphers
  build_connection_ciphers-AllKeyed prekey_and_iv secret relay_init h k = (
    (P.sha256_length _, omega (arith, length-drop 32 prekey_and_iv)),
    (P.sha256_length _, half_of (reverse prekey_and_iv) (length-reverse prekey_and_iv ∙ h)),
    (
      omega (arith, length-take 32 (drop 8 relay_init), length-drop 8 relay_init),
      omega (arith, length-take 16 (drop 40 relay_init), length-drop 40 relay_init),
    ),
    (key_of relay_rev rev_len, half_of relay_rev rev_len),
  )
    where
      relay_rev : List ℕ
      relay_rev = reverse (prekey_and_iv_of relay_init)

      rev_len : length relay_rev ≡ 48
      rev_len = omega (
        arith,
        length-reverse (prekey_and_iv_of relay_init),
        length-take 48 (drop 8 relay_init),
        length-drop 8 relay_init,
      )
