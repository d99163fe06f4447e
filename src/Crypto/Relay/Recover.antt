-- ===== src/Crypto/Relay/Recover.antt =====
-- What Telegram reads back from the relay init packet.
use tg_ws_proxy.Base.{
  ℕ, ◌+◌, ◌≤◌, ◌≡◌, refl, sym, ap, ap₂, ◌∙◌, false, get_or, subst, inl, inr, Option-cases, some,
  List, [], ◌∷◌, ◌++◌, arith, length, take, drop, slice, splice, slice-splice, drop-splice,
  length-splice, take-all, drop-all, length-drop, length-append, append-nil, All,
}
use tg_ws_proxy.Crypto.Cipher.{
  Primitives, make_cipher, crypt, xor_from, drop-xor_from, length-xor_from,
}
use tg_ws_proxy.Crypto.Tag.{ProtoTag, as_bytes, length-as_bytes}
use tg_ws_proxy.Crypto.Handshake.{i16_to_le, prekey_of, iv_of}
use tg_ws_proxy.Crypto.Random.{
  first_accepted, is_reserved, starts_reserved, xor_bytes, length-xor_bytes, xor_from-embed,
  first_accepted-All, first_accepted-not_reserved,
}
use tg_ws_proxy.Crypto.Relay.{tail_plain, relay_init, generate_relay_init}

length-tail_plain :
    (proto : ProtoTag) (dc_idx : ℕ) (pad : List ℕ)
    → length pad ≡ 2
    → length (tail_plain proto dc_idx pad) ≡ 8
length-tail_plain proto dc_idx pad h =
    omega (arith, length-append (as_bytes proto) (i16_to_le dc_idx ++ pad), length-as_bytes proto)

-- The last eight bytes of a 64-byte block, overwritten at 56 by `m`.
drop-splice_tail : (m rnd : List ℕ) → length rnd ≡ 64 → length m ≡ 8 → drop 56 (splice 56 m rnd) ≡ m
drop-splice_tail m rnd h k =
    drop-splice 56 m rnd (omega arith)
    ∙ ap (◌++◌ m) (drop-all (56 + length m) rnd (omega arith))
    ∙ append-nil m

tail_slice : (xs : List ℕ) → length xs ≡ 64 → slice 56 64 xs ≡ drop 56 xs
tail_slice xs h = take-all 8 (drop 56 xs) (omega (arith, length-drop 56 xs))

abbrev masked : (ℕ → ℕ) → List ℕ → List ℕ → List ℕ
masked ks t rnd = xor_bytes t (xor_bytes (slice 56 64 (xor_from ks 0 rnd)) (slice 56 64 rnd))

abbrev plain_masked : (ℕ → ℕ) → List ℕ → List ℕ → List ℕ
plain_masked ks t rnd = xor_bytes t (xor_bytes (xor_from ks 56 (drop 56 rnd)) (drop 56 rnd))

first-take : (xs : List ℕ) → get_or (take 4 xs) 0 0 ≡ get_or xs 0 0
first-take [] = refl
first-take (x ∷ xs) = refl

module _ (ks : ℕ → ℕ) (t rnd : List ℕ) (len : length rnd ≡ 64) (tail_len : length t ≡ 8) where
  masked-eq : masked ks t rnd ≡ plain_masked ks t rnd
  masked-eq = rw (
    tail_slice rnd len,
    tail_slice (xor_from ks 0 rnd) (length-xor_from ks 0 rnd ∙ len),
    drop-xor_from ks 56 0 rnd,
  )

  length-plain_masked : length (plain_masked ks t rnd) ≡ 8
  length-plain_masked = omega (
    arith,
    length-drop 56 rnd,
    length-xor_from ks 56 (drop 56 rnd),
    length-xor_bytes (xor_from ks 56 (drop 56 rnd)) (drop 56 rnd)
        (length-xor_from ks 56 (drop 56 rnd)),
    length-xor_bytes t (xor_bytes (xor_from ks 56 (drop 56 rnd)) (drop 56 rnd)),
  )

  masked-decrypts : drop 56 (xor_from ks 0 (splice 56 (masked ks t rnd) rnd)) ≡ t
  masked-decrypts =
      ap (λ m. drop 56 (xor_from ks 0 (splice 56 m rnd))) masked-eq
      ∙ drop-xor_from ks 56 0 (splice 56 (plain_masked ks t rnd) rnd)
      ∙ ap (xor_from ks 56) (drop-splice_tail (plain_masked ks t rnd) rnd len length-plain_masked)
      ∙ xor_from-embed ks 56 t (drop 56 rnd) (omega (arith, length-drop 56 rnd))

  length-masked : length (masked ks t rnd) ≡ 8
  length-masked = ap length masked-eq ∙ length-plain_masked

module _ (P : Primitives) (proto : ProtoTag) (dc_idx : ℕ) (pad rnd : List ℕ) (len : length rnd ≡ 64)
    (pad_len : length pad ≡ 2) where
  abbrev init : List ℕ
  init = relay_init P proto dc_idx pad rnd

  abbrev ks : ℕ → ℕ
  ks = P.keystream (prekey_of rnd) (iv_of rnd)

  abbrev plain_tail : List ℕ
  plain_tail = tail_plain proto dc_idx pad

  -- Before byte 56 the packet is the random block.
  pub slice-relay_init : (a b : ℕ) → b ≤ 56 → slice a b init ≡ slice a b rnd
  unfolding relay_init crypt
  slice-relay_init a b h = slice-splice a b 56 (masked ks plain_tail rnd) rnd h (omega arith)

  length-relay_init : length init ≡ 64
  unfolding relay_init crypt
  length-relay_init =
      length-splice 56 (masked ks plain_tail rnd) rnd (
        omega
          (arith, length-masked ks plain_tail rnd len (length-tail_plain proto dc_idx pad pad_len)))
      ∙ len

  relay_init-decrypts :
      drop 56 (crypt P (make_cipher (prekey_of init) (iv_of init)) init) ≡ plain_tail
  unfolding relay_init crypt make_cipher
  relay_init-decrypts =
      ap₂ (λ k v. drop 56 (xor_from (P.keystream k v) 0 init)) (slice-relay_init 8 40 (omega arith))
        (slice-relay_init 40 56 (omega arith))
      ∙ masked-decrypts ks plain_tail rnd len (length-tail_plain proto dc_idx pad pad_len)

  relay_init-not_reserved : is_reserved rnd ≡ false → is_reserved init ≡ false
  unfolding is_reserved starts_reserved
  relay_init-not_reserved h =
      rw (first_same, slice-relay_init 0 4 (omega arith), slice-relay_init 4 8 (omega arith)) h
    where
      first_same : get_or init 0 0 ≡ get_or rnd 0 0
      first_same =
          sym (first-take init)
          ∙ ap (λ xs. get_or xs 0 0) (slice-relay_init 0 4 (omega arith))
          ∙ first-take rnd

abbrev Recovers : Primitives → ProtoTag → ℕ → List ℕ → List ℕ → Type 0
Recovers P proto dc_idx pad init =
    (length init ≡ 64)
    × (is_reserved init ≡ false)
    × (drop 56 (crypt P (make_cipher (prekey_of init) (iv_of init)) init)
        ≡ tail_plain proto dc_idx pad)

-- When the loop of `generate_relay_init` returns a packet, over random blocks of 64 bytes, the
-- packet has 64 bytes and none of the reserved beginnings, and decrypting it with the key and the
-- IV that stand in it gives the protocol tag, the signed DC index and the padding.
pub generate_relay_init-recovers :
    (P : Primitives) (proto : ProtoTag) (dc_idx : ℕ) (pad : List ℕ) (draws : List (List ℕ))
    (init : List ℕ)
    → length pad ≡ 2
    → All (λ rnd. length rnd ≡ 64) draws
    → generate_relay_init P proto dc_idx pad draws ≡ some init
    → (length init ≡ 64)
      × (is_reserved init ≡ false)
      × (drop 56 (crypt P (make_cipher (prekey_of init) (iv_of init)) init)
          ≡ tail_plain proto dc_idx pad)
unfolding generate_relay_init
generate_relay_init-recovers P proto dc_idx pad draws init pad_len lens e =
    elim (Option-cases (first_accepted draws)) [
      | inl stop ↦ cc
      | inr (rnd, found) ↦
          let len = first_accepted-All (λ r. length r ≡ 64) draws rnd lens found in
          let made : relay_init P proto dc_idx pad rnd ≡ init = ground arith in
          subst (Recovers P proto dc_idx pad) made (
            length-relay_init P proto dc_idx pad rnd len pad_len,
            relay_init-not_reserved P proto dc_idx pad rnd len pad_len
                (first_accepted-not_reserved draws rnd found),
            relay_init-decrypts P proto dc_idx pad rnd len pad_len,
          )
    ]
