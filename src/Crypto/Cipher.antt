-- ===== src/Crypto/Cipher.antt =====
-- rust/src/crypto.rs, `make_cipher`, and what it takes from the crates aes, ctr, sha2 and hmac.
-- A block cipher in counter mode is its keystream: one byte for each position in the stream.
use tg_ws_proxy.Base.{
  ℕ, zero, suc, ◌+◌, bit_xor, ◌≡◌, refl, ap, ap₂, List, [], ◌∷◌, ◌++◌, arith, length, All, IsByte,
  xor_cancel, take, drop, ◌∙◌,
}

-- The crates' functions and what the program relies on: SHA-256 and HMAC-SHA256 give 32 bytes.
pub record Primitives : Type 0 where
  pub keystream : List ℕ → List ℕ → ℕ → ℕ
  pub sha256 : List ℕ → List ℕ
  pub hmac : List ℕ → List ℕ → List ℕ
  pub keystream_byte : (key iv : List ℕ) (i : ℕ) → IsByte (keystream key iv i)
  pub sha256_length : (m : List ℕ) → length (sha256 m) ≡ 32
  pub hmac_length : (key m : List ℕ) → length (hmac key m) ≡ 32
  pub hmac_bytes : (key m : List ℕ) → All IsByte (hmac key m)

-- `AesCtr256`: the key, the IV and how many keystream bytes have been used.
pub record Cipher : Type 0 where
  pub key : List ℕ
  pub iv : List ℕ
  pub pos : ℕ

-- Where `make_cipher` does not panic: a 32-byte key and a 16-byte IV.
abbrev pub IsKeyed : Cipher → Type 0
IsKeyed c = (length c.key ≡ 32) × (length c.iv ≡ 16)

unfoldable pub make_cipher : List ℕ → List ℕ → Cipher
make_cipher key iv = record { key = key; iv = iv; pos = 0 }

unfoldable pub xor_from : (ℕ → ℕ) → ℕ → List ℕ → List ℕ
xor_from ks pos [] = []
xor_from ks pos (b ∷ bs) = bit_xor b (ks pos) ∷ xor_from ks (suc pos) bs

module _ (ks : ℕ → ℕ) where
  pub xor_from-append :
      (pos : ℕ) (xs ys : List ℕ)
      → xor_from ks pos (xs ++ ys) ≡ xor_from ks pos xs ++ xor_from ks (pos + length xs) ys
  unfolding xor_from
  xor_from-append pos [] ys = ap (λ k. xor_from ks k ys) (omega arith)
  xor_from-append pos (x ∷ xs) ys = ap (◌∷◌ (bit_xor x (ks pos))) (
      xor_from-append (suc pos) xs ys
      ∙ ap (λ k. xor_from ks (suc pos) xs ++ xor_from ks k ys) (omega arith))

  pub length-xor_from : (pos : ℕ) (xs : List ℕ) → length (xor_from ks pos xs) ≡ length xs
  unfolding xor_from
  length-xor_from pos [] = refl
  length-xor_from pos (x ∷ xs) = ap suc (length-xor_from (suc pos) xs)

  -- The same keystream applied twice gives the bytes back.
  pub xor_from_twice : (pos : ℕ) (xs : List ℕ) → xor_from ks pos (xor_from ks pos xs) ≡ xs
  unfolding xor_from
  xor_from_twice pos [] = refl
  xor_from_twice pos (x ∷ xs) = ap₂ ◌∷◌ (xor_cancel x (ks pos)) (xor_from_twice (suc pos) xs)

  pub take-xor_from :
      (n pos : ℕ) (xs : List ℕ) → take n (xor_from ks pos xs) ≡ xor_from ks pos (take n xs)
  unfolding xor_from
  take-xor_from zero pos xs = refl
  take-xor_from (suc n) pos [] = refl
  take-xor_from (suc n) pos (x ∷ xs) = ap (◌∷◌ (bit_xor x (ks pos))) (take-xor_from n (suc pos) xs)

  pub drop-xor_from :
      (n pos : ℕ) (xs : List ℕ) → drop n (xor_from ks pos xs) ≡ xor_from ks (pos + n) (drop n xs)
  unfolding xor_from
  drop-xor_from zero pos xs = ap (λ k. xor_from ks k xs) (omega arith)
  drop-xor_from (suc n) pos [] = refl
  drop-xor_from (suc n) pos (x ∷ xs) =
      drop-xor_from n (suc pos) xs ∙ ap (λ k. xor_from ks k (drop n xs)) (omega arith)

-- `apply_keystream(&mut buf)`: the changed buffer and the advanced cipher.
module _ (P : Primitives) where
  unfoldable pub crypt : Cipher → List ℕ → List ℕ
  crypt c buf = xor_from (P.keystream c.key c.iv) c.pos buf

  abbrev pub advance : Cipher → ℕ → Cipher
  advance c n = record c { pos = c.pos + n }

  unfoldable pub apply_keystream : Cipher → List ℕ → List ℕ × Cipher
  unfolding crypt
  apply_keystream c buf = (crypt c buf, advance c (length buf))

  -- A stream may be cut anywhere: two calls do what one call on the whole does.
  pub crypt-append :
      (c : Cipher) (xs ys : List ℕ)
      → crypt c (xs ++ ys) ≡ crypt c xs ++ crypt (advance c (length xs)) ys
  unfolding crypt
  crypt-append c xs ys = xor_from-append (P.keystream c.key c.iv) c.pos xs ys

  pub length-crypt : (c : Cipher) (xs : List ℕ) → length (crypt c xs) ≡ length xs
  unfolding crypt
  length-crypt c xs = length-xor_from (P.keystream c.key c.iv) c.pos xs

  pub crypt_twice : (c : Cipher) (xs : List ℕ) → crypt c (crypt c xs) ≡ xs
  unfolding crypt
  crypt_twice c xs = xor_from_twice (P.keystream c.key c.iv) c.pos xs

  pub drop-crypt :
      (c : Cipher) (n : ℕ) (xs : List ℕ) → drop n (crypt c xs) ≡ crypt (advance c n) (drop n xs)
  unfolding crypt
  drop-crypt c n xs = drop-xor_from (P.keystream c.key c.iv) n c.pos xs
