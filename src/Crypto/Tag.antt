-- ===== src/Crypto/Tag.antt =====
-- rust/src/crypto.rs: the constants of the 64-byte init packet and `ProtoTag`.
use tg_ws_proxy.Base.{
  ℕ, ◌≡◌, refl, Option, none, some, List, [], ◌∷◌, arith, length, bytes_eq, bytes_eq_iff,
  if◌then◌else◌, ◌↔◌,
}

abbrev pub handshake_len : ℕ
handshake_len = 64

abbrev pub skip_len : ℕ
skip_len = 8

abbrev pub prekey_len : ℕ
prekey_len = 32

abbrev pub iv_len : ℕ
iv_len = 16

abbrev pub proto_tag_pos : ℕ
proto_tag_pos = 56

abbrev pub dc_idx_pos : ℕ
dc_idx_pos = 60

abbrev pub proto_tag_abridged : List ℕ
proto_tag_abridged = 0xef ∷ 0xef ∷ 0xef ∷ 0xef ∷ []

abbrev pub proto_tag_intermediate : List ℕ
proto_tag_intermediate = 0xee ∷ 0xee ∷ 0xee ∷ 0xee ∷ []

abbrev pub proto_tag_secure : List ℕ
proto_tag_secure = 0xdd ∷ 0xdd ∷ 0xdd ∷ 0xdd ∷ []

pub data ProtoTag : Type 0 where
  abridged intermediate padded_intermediate : ProtoTag

unfoldable pub from_bytes : List ℕ → Option ProtoTag
from_bytes b =
    if bytes_eq b proto_tag_abridged
    then some abridged
    else if bytes_eq b proto_tag_intermediate
    then some intermediate
    else if bytes_eq b proto_tag_secure
    then some padded_intermediate
    else none

unfoldable pub as_bytes : ProtoTag → List ℕ
as_bytes abridged = proto_tag_abridged
as_bytes intermediate = proto_tag_intermediate
as_bytes padded_intermediate = proto_tag_secure

pub length-as_bytes : (t : ProtoTag) → length (as_bytes t) ≡ 4
unfolding as_bytes
length-as_bytes abridged = refl
length-as_bytes intermediate = refl
length-as_bytes padded_intermediate = refl

from_bytes-as_bytes : (t : ProtoTag) → from_bytes (as_bytes t) ≡ some t
unfolding from_bytes as_bytes bytes_eq
from_bytes-as_bytes abridged = refl
from_bytes-as_bytes intermediate = refl
from_bytes-as_bytes padded_intermediate = refl

from_bytes-eq-some : (b : List ℕ) (t : ProtoTag) → from_bytes b ≡ some t → b ≡ as_bytes t
unfolding from_bytes as_bytes
from_bytes-eq-some b t h = ground (
  arith,
  bytes_eq_iff b proto_tag_abridged,
  bytes_eq_iff b proto_tag_intermediate,
  bytes_eq_iff b proto_tag_secure,
)

-- `from_bytes` answers exactly on the four bytes that `as_bytes` writes for that tag.
pub from_bytes_iff : (b : List ℕ) (t : ProtoTag) → (from_bytes b ≡ some t) ↔ (b ≡ as_bytes t)
from_bytes_iff b t = (from_bytes-eq-some b t, λ e. rw e (from_bytes-as_bytes t))
