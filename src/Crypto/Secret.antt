-- ===== src/Crypto/Secret.antt =====
-- rust/src/crypto.rs: the layout of a proxy secret.
use tg_ws_proxy.Base.{
  ℕ, ◌+◌, ◌≡◌, Bool, ◌&&◌, ◌||◌, Option, none, some, List, [], ◌∷◌, ◌++◌, arith, length, is_empty,
  take-all, take-append, drop-append, length-append, append-nil, drop, slice, get_or, ltb, leb,
  ◌==◌, if◌then◌else◌,
}

abbrev pub secret_mode_prefix_len : ℕ
secret_mode_prefix_len = 1

abbrev pub secret_key_len : ℕ
secret_key_len = 16

abbrev pub prefixed_secret_len : ℕ
prefixed_secret_len = secret_mode_prefix_len + secret_key_len

abbrev pub secret_mode_faketls : ℕ
secret_mode_faketls = 0xee

abbrev pub secret_mode_padded : ℕ
secret_mode_padded = 0xdd

unfoldable pub has_mode_prefix : List ℕ → Bool
has_mode_prefix raw =
    leb prefixed_secret_len (length raw)
    && (get_or raw 0 0 == secret_mode_padded || get_or raw 0 0 == secret_mode_faketls)

unfoldable pub secret_key : List ℕ → List ℕ
unfolding has_mode_prefix
secret_key raw =
    if has_mode_prefix raw then slice secret_mode_prefix_len prefixed_secret_len raw else raw

unfoldable pub faketls_hostname : List ℕ → Option (List ℕ)
faketls_hostname raw =
    if ltb prefixed_secret_len (length raw) && get_or raw 0 0 == secret_mode_faketls
    then some (drop prefixed_secret_len raw)
    else none

-- The three shapes that a secret has, told apart by length and first byte.
pub data Shape : Type 0 where
  plain padded faketls : Shape

abbrev pub write_secret : Shape → List ℕ → List ℕ → List ℕ
write_secret plain key host = key
write_secret padded key host = secret_mode_padded ∷ key
write_secret faketls key host = secret_mode_faketls ∷ (key ++ host)

abbrev pub carried_host : Shape → List ℕ → Option (List ℕ)
carried_host plain host = none
carried_host padded host = none
carried_host faketls host = if is_empty host then none else some host

-- From a secret of any of the three shapes `secret_key` gives the 16-byte key, and
-- `faketls_hostname` gives the host name of an `ee` secret that has one, and nothing otherwise.
pub secret-write :
    (shape : Shape) (key host : List ℕ)
    → length key ≡ secret_key_len
    → (secret_key (write_secret shape key host) ≡ key)
      × (faketls_hostname (write_secret shape key host) ≡ carried_host shape host)
unfolding secret_key faketls_hostname
secret-write plain key host h = (ground arith, ground arith)
secret-write padded key host h = (ground (arith, take-all 16 key), ground arith)
secret-write faketls key [] h = rw append-nil (ground (arith, take-all 16 key), ground arith)
secret-write faketls key (x ∷ xs) h = (
  ground (arith, take-append key (x ∷ xs) 16, length-append key (x ∷ xs)),
  ground (arith, drop-append key (x ∷ xs) 16, length-append key (x ∷ xs)),
)
