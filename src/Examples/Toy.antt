-- ===== src/Examples/Toy.antt =====
-- Stand-ins for the crates' functions that have the properties the program relies on.
use tg_ws_proxy.Base.{
  ℕ, zero, suc, ◌+◌, ◌*◌, ◌%◌, ◌<◌, length, length-replicate, replicate, All, IsByte, arith,
}
use tg_ws_proxy.Crypto.Cipher.{Primitives}

pub All-replicate : (n b : ℕ) → b < 256 → All IsByte (replicate n b)
All-replicate zero b h = tt
All-replicate (suc n) b h = (h, All-replicate n b h)

abbrev pub toy : Primitives
toy = record {
  keystream = λ key iv i. i * 7 % 256;
  sha256 = λ m. replicate 32 (length m % 256);
  hmac = λ key m. replicate 32 ((length key + length m) % 256);
  keystream_byte = λ key iv i. omega arith;
  sha256_length = λ m. length-replicate 32 (length m % 256);
  hmac_length = λ key m. length-replicate 32 ((length key + length m) % 256);
  hmac_bytes = λ key m. All-replicate 32 ((length key + length m) % 256) (omega arith);
}
