-- ===== src/Examples/Link.antt =====
-- The theorem on the generated link at a concrete input, with a concrete hexadecimal code.
use tg_ws_proxy.Base.{
  ℕ, ◌+◌, ◌*◌, ◌/◌, ◌%◌, ◌<◌, ◌≡◌, refl, ap, true, Option, none, some, List, [], ◌∷◌, ◌++◌,
  replicate, All, IsByte, codes, leb, if◌then◌else◌, arith,
}
use tg_ws_proxy.Crypto.Secret.{secret_key, has_mode_prefix}
use tg_ws_proxy.FakeTls.Utf8.{is_utf8, utf8_from, lead}
use tg_ws_proxy.DefaultDomains.Http.Chunked.{hex_digit}
use tg_ws_proxy.Config.Link.{
  Hex, decode_secret_key, listen_faketls_domain, link_secret_for, link_secret_for-faketls,
}
use tg_ws_proxy.Examples.Toy.{All-replicate}

abbrev digit : ℕ → ℕ
digit n = if leb n 9 then n + 48 else n + 87

abbrev encode : List ℕ → List ℕ
encode [] = []
encode (b ∷ bs) = digit (b / 16) ∷ digit (b % 16) ∷ encode bs

unfoldable decode : List ℕ → Option (List ℕ)
unfolding hex_digit
decode [] = some []
decode (c ∷ []) = none
decode (c ∷ d ∷ s) = elim (hex_digit c) [
  | none ↦ none
  | some h ↦ elim (hex_digit d) [
    | none ↦ none
    | some l ↦ elim (decode s) [ none ↦ none | some bs ↦ some ((h * 16 + l) ∷ bs) ]
  ]
]

hex_digit-digit : (n : ℕ) → n < 16 → hex_digit (digit n) ≡ some n
unfolding hex_digit
hex_digit-digit n h = ground arith

decode-encode : (bytes : List ℕ) → All IsByte bytes → decode (encode bytes) ≡ some bytes
unfolding decode
decode-encode [] ok = refl
decode-encode (b ∷ bs) ok =
    rw
      (
        hex_digit-digit (b / 16) (omega (arith, ok.0)),
        hex_digit-digit (b % 16) (omega arith),
        decode-encode bs ok.1,
        decode,
      )
      (ap (λ n. some (n ∷ bs)) (omega arith))

encode-append : (xs ys : List ℕ) → encode (xs ++ ys) ≡ encode xs ++ encode ys
encode-append [] ys = refl
encode-append (x ∷ xs) ys = ap (λ r. digit (x / 16) ∷ digit (x % 16) ∷ r) (encode-append xs ys)

abbrev hex : Hex
hex = record {
  encode = encode;
  decode = decode;
  decode-encode = decode-encode;
  encode-append = encode-append;
  encode_faketls = refl;
}

abbrev key : List ℕ
key = replicate 16 0x42

abbrev domain : List ℕ
domain = codes "a.io"

key_read : decode_secret_key hex (encode key) ≡ some key
unfolding decode_secret_key secret_key has_mode_prefix
key_read = rw (decode-encode key (All-replicate 16 0x42 (omega arith)), decode_secret_key) refl

domain_set : listen_faketls_domain hex (some domain) (encode key ∷ []) ≡ some domain
unfolding listen_faketls_domain
domain_set = refl

domain-is_utf8 : is_utf8 domain ≡ true
unfolding is_utf8 utf8_from lead
domain-is_utf8 = refl

link_secret_for-faketls_example :
    (link : List ℕ) × (link_secret_for hex (some domain) (encode key ∷ []) (encode key) ≡ some link)
    × (decode_secret_key hex link ≡ some key)
    × (listen_faketls_domain hex none (link ∷ []) ≡ some domain)
link_secret_for-faketls_example =
    link_secret_for-faketls hex (some domain) (encode key ∷ []) (encode key) key domain domain_set
      key_read refl (All-replicate 16 0x42 (omega arith))
      (omega arith, (omega arith, (omega arith, (omega arith, tt)))) (omega arith) domain-is_utf8
