-- ===== src/Examples/Crypto.antt =====
-- The theorems of rust/src/crypto.rs at concrete inputs.
use tg_ws_proxy.Base.{
  ℕ, ◌≡◌, refl, false, some, List, [], ◌∷◌, length, replicate, take, drop, sym, ◌∙◌, arith,
  bytes_eq,
}
use tg_ws_proxy.Crypto.Cipher.{make_cipher, crypt}
use tg_ws_proxy.Crypto.Tag.{abridged, padded_intermediate}
use tg_ws_proxy.Crypto.Secret.{faketls, write_secret, secret_key, faketls_hostname, secret-write}
use tg_ws_proxy.Crypto.Handshake.{parse_handshake, info, prekey_of, iv_of, prekey_and_iv_of}
use tg_ws_proxy.Crypto.Random.{is_reserved, first_accepted, starts_reserved}
use tg_ws_proxy.Crypto.Relay.{relay_init, generate_relay_init, tail_plain}
use tg_ws_proxy.Crypto.Relay.Recover.{generate_relay_init-recovers}
use tg_ws_proxy.Crypto.Relay.Drawn.{
  Reserved, abridged_client, Reserved-is_reserved, generate_relay_init-first,
}
use tg_ws_proxy.Crypto.Session.{build_connection_ciphers}
use tg_ws_proxy.Crypto.Client.{
  ClientSession, client_handshake, client_session, generate_client_handshake,
}
use tg_ws_proxy.Crypto.Client.Accepted.{generate_client_handshake-accepted}
use tg_ws_proxy.Examples.Toy.{toy}

abbrev block : List ℕ
block = replicate 64 0x21

abbrev key : List ℕ
key = replicate 16 0x42

-- The first block drawn looks like an abridged client, and the second one is taken.
abbrev draws : List (List ℕ)
draws = (0xef ∷ replicate 63 0x11) ∷ block ∷ []

draws_accepted : first_accepted draws ≡ some block
unfolding first_accepted is_reserved starts_reserved bytes_eq
draws_accepted = refl

relay_drawn :
    generate_relay_init toy abridged 2 (0x05 ∷ 0x06 ∷ []) draws
    ≡ some (relay_init toy abridged 2 (0x05 ∷ 0x06 ∷ []) block)
unfolding generate_relay_init
relay_drawn = rw (draws_accepted, generate_relay_init) refl

abbrev made : List ℕ
made = relay_init toy abridged 2 (0x05 ∷ 0x06 ∷ []) block

generate_relay_init-recovers_example :
    (length made ≡ 64)
    × (is_reserved made ≡ false)
    × (drop 56 (crypt toy (make_cipher (prekey_of made) (iv_of made)) made)
        ≡ tail_plain abridged 2 (0x05 ∷ 0x06 ∷ []))
generate_relay_init-recovers_example =
    generate_relay_init-recovers toy abridged 2 (0x05 ∷ 0x06 ∷ []) draws made refl
      (refl, (refl, tt)) relay_drawn

block_plain : is_reserved block ≡ false
unfolding is_reserved starts_reserved bytes_eq
block_plain = refl

-- No constructor of `Reserved` fits a block of the byte 0x21.
block_free : ¬ Reserved block
block_free r = absurd (cc (sym block_plain ∙ Reserved-is_reserved block r))

generate_relay_init-first_example :
    (init : List ℕ) × (generate_relay_init toy abridged 2 (0x05 ∷ 0x06 ∷ []) draws ≡ some init)
    × (take 56 init ≡ take 56 block)
generate_relay_init-first_example =
    generate_relay_init-first toy abridged 2 (0x05 ∷ 0x06 ∷ []) block
      ((0xef ∷ replicate 63 0x11) ∷ []) [] refl refl (abridged_client (replicate 63 0x11), tt)
      block_free

abbrev session : ClientSession
session = client_session toy key (client_handshake toy key 4 padded_intermediate block)

session_drawn : generate_client_handshake toy key 4 padded_intermediate draws ≡ some session
unfolding generate_client_handshake
session_drawn = rw (draws_accepted, generate_client_handshake) refl

generate_client_handshake-accepted_example :
    (parse_handshake toy session.handshake key
      ≡ info padded_intermediate (prekey_and_iv_of session.handshake) 4)
    × ((build_connection_ciphers toy (prekey_and_iv_of session.handshake) key made).clt_dec
        ≡ session.enc)
    × ((build_connection_ciphers toy (prekey_and_iv_of session.handshake) key made).clt_enc
        ≡ session.dec)
generate_client_handshake-accepted_example =
    generate_client_handshake-accepted toy key 4 padded_intermediate draws made session
      (omega arith) (refl, (refl, tt)) session_drawn

secret-write_example :
    (secret_key (write_secret faketls key (0x61 ∷ 0x62 ∷ [])) ≡ key)
    × (faketls_hostname (write_secret faketls key (0x61 ∷ 0x62 ∷ [])) ≡ some (0x61 ∷ 0x62 ∷ []))
secret-write_example = secret-write faketls key (0x61 ∷ 0x62 ∷ []) refl
