-- ===== src/FakeTls/Authentic.antt =====
-- rust/src/faketls.rs, `parse_faketls_client_hello`: who is let in.
use tg_ws_proxy.Base.{
  ℕ, zero, suc, ◌≡◌, refl, sym, ap, ap₂, ◌∙◌, inl, inr, false, none, some, List, [], ◌∷◌, take,
  slice, splice, replicate, bytes_eq_iff, Bool-cases, xor_cancel, xor_comm, xor-zero, bit_xor,
}
use tg_ws_proxy.Crypto.Cipher.{Primitives}
use tg_ws_proxy.Crypto.Random.{xor_bytes}
use tg_ws_proxy.FakeTls.ClientHello.{
  FakeTlsClientHello, parse_faketls_client_hello, is_signed, is_client_hello,
}

xor_eq_zero : (x y : ℕ) → bit_xor x y ≡ 0 → x ≡ y
xor_eq_zero x y e = sym (xor_cancel x y) ∙ ap (λ z. bit_xor z y) e ∙ xor_comm 0 y ∙ xor-zero y

xor_bytes_eq_zero :
    (n : ℕ) (xs ys : List ℕ) → take n (xor_bytes xs ys) ≡ replicate n 0 → take n xs ≡ take n ys
unfolding xor_bytes
xor_bytes_eq_zero zero xs ys e = refl
xor_bytes_eq_zero (suc n) [] ys e = cc
xor_bytes_eq_zero (suc n) (x ∷ xs) [] e = cc
xor_bytes_eq_zero (suc n) (x ∷ xs) (y ∷ ys) e =
    ap₂ ◌∷◌ (xor_eq_zero x y cc) (xor_bytes_eq_zero n xs ys cc)

unsigned_none :
    (P : Primitives) (packet secret : List ℕ)
    → is_signed P packet secret ≡ false
    → parse_faketls_client_hello P packet secret ≡ none
unfolding parse_faketls_client_hello
unsigned_none P packet secret e = elim (Bool-cases (is_client_hello packet)) [
  | inl ok ↦ rw (ok, e, parse_faketls_client_hello) refl
  | inr bad ↦ rw (bad, parse_faketls_client_hello) refl
]

-- A hello is accepted only if the first 28 bytes of its random field are those of the HMAC, under
-- the secret, of the record with that field zeroed.
pub parse_faketls_client_hello-authentic :
    (P : Primitives) (packet secret : List ℕ) (hello : FakeTlsClientHello)
    → parse_faketls_client_hello P packet secret ≡ some hello
    → take 28 (slice 11 43 packet) ≡ take 28 (P.hmac secret (splice 11 (replicate 32 0) packet))
unfolding is_signed
parse_faketls_client_hello-authentic P packet secret hello e =
    elim (Bool-cases (is_signed P packet secret)) [
      | inl ok ↦ sym (xor_bytes_eq_zero 28 _ _ ((bytes_eq_iff _ _).0 ok))
      | inr bad ↦ absurd (cc (e, unsigned_none P packet secret bad))
    ]
