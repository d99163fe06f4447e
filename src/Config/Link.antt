-- ===== src/Config/Link.antt =====
-- rust/src/config.rs: the secrets, the FakeTLS domain and the secret of the generated link. A string
-- is its UTF-8 bytes; the crate hex is an argument; `none` stands for the panic of `expect`.
use tg_ws_proxy.Base.{
  ℕ, ◌<◌, ◌≡◌, refl, sym, ap, ◌∙◌, true, ◌||◌, Option, none, some, List, [], ◌∷◌, ◌++◌, length, All,
  All-append, IsByte, codes, starts_with, if◌then◌else◌, arith,
}
use tg_ws_proxy.Crypto.Secret.{
  faketls, write_secret, carried_host, secret_key, faketls_hostname, secret-write,
}
use tg_ws_proxy.FakeTls.Utf8.{is_utf8}

-- `hex::encode` and `hex::decode(..).ok()`, with what the documentation says of them.
pub record Hex : Type 0 where
  pub encode : List ℕ → List ℕ
  pub decode : List ℕ → Option (List ℕ)
  pub decode-encode : (bytes : List ℕ) → All IsByte bytes → decode (encode bytes) ≡ some bytes
  pub encode-append : (xs ys : List ℕ) → encode (xs ++ ys) ≡ encode xs ++ encode ys
  pub encode_faketls : encode (0xee ∷ []) ≡ codes "ee"

unfoldable pub primary_secret : List (List ℕ) → List ℕ
primary_secret [] = []
primary_secret (secret ∷ secrets) = secret

module _ (H : Hex) where
  unfoldable pub decode_secret_key : List ℕ → Option (List ℕ)
  decode_secret_key secret = elim (H.decode secret) [
    | none ↦ none
    | some raw ↦ some (secret_key raw)
  ]

  unfoldable pub secret_bytes_list : List (List ℕ) → Option (List (List ℕ))
  unfolding decode_secret_key
  secret_bytes_list [] = some []
  secret_bytes_list (secret ∷ secrets) = elim (decode_secret_key secret) [
    | none ↦ none
    | some key ↦ elim (secret_bytes_list secrets) [ none ↦ none | some keys ↦ some (key ∷ keys) ]
  ]

  -- `std::str::from_utf8(..).ok()`
  abbrev valid : Option (List ℕ) → Option (List ℕ)
  valid none = none
  valid (some hostname) = if is_utf8 hostname then some hostname else none

  abbrev domain_of : Option (List ℕ) → Option (List ℕ)
  domain_of none = none
  domain_of (some raw) = valid (faketls_hostname raw)

  unfoldable pub listen_faketls_domain : Option (List ℕ) → List (List ℕ) → Option (List ℕ)
  unfolding primary_secret
  listen_faketls_domain (some domain) secrets = some domain
  listen_faketls_domain none secrets = domain_of (H.decode (primary_secret secrets))

  unfoldable pub link_secret_for : Option (List ℕ) → List (List ℕ) → List ℕ → Option (List ℕ)
  unfolding listen_faketls_domain decode_secret_key
  link_secret_for flag secrets secret =
      let bare =
        if starts_with secret (codes "dd") || starts_with secret (codes "ee")
        then secret
        else codes "dd" ++ secret in
      elim (listen_faketls_domain flag secrets) [
        | some domain ↦ elim (decode_secret_key secret) [
          | none ↦ none
          | some key ↦ some (codes "ee" ++ (H.encode key ++ H.encode domain))
        ]
        | none ↦ some bare
      ]

  written :
      (key domain : List ℕ)
      → codes "ee" ++ (H.encode key ++ H.encode domain) ≡ H.encode (write_secret faketls key domain)
  written key domain =
      ap (λ x. x ++ (H.encode key ++ H.encode domain)) (sym H.encode_faketls)
      ∙ ap (λ x. H.encode (0xee ∷ []) ++ x) (sym (H.encode-append key domain))
      ∙ sym (H.encode-append (0xee ∷ []) (key ++ domain))

  decoded :
      (key domain : List ℕ)
      → All IsByte key
      → All IsByte domain
      → H.decode (codes "ee" ++ (H.encode key ++ H.encode domain))
        ≡ some (write_secret faketls key domain)
  decoded key domain ks ds =
      ap H.decode (written key domain)
      ∙ H.decode-encode (write_secret faketls key domain)
          (omega arith, All-append IsByte key domain ks ds)

  named : (host : List ℕ) → 0 < length host → carried_host faketls host ≡ some host
  named [] h = absurd (omega arith)
  named (b ∷ bs) h = refl

  -- For a listener behind FakeTLS, of whatever source its domain is, and a secret with a 16-byte key,
  -- the link's secret has the same key; and a listener that is given the link's secret alone
  -- takes the same domain from it, if that is not empty and valid UTF-8.
  pub link_secret_for-faketls :
      (flag : Option (List ℕ)) (secrets : List (List ℕ)) (secret key domain : List ℕ)
      → listen_faketls_domain flag secrets ≡ some domain
      → decode_secret_key secret ≡ some key
      → length key ≡ 16
      → All IsByte key
      → All IsByte domain
      → 0 < length domain
      → is_utf8 domain ≡ true
      → (link : List ℕ) × (link_secret_for flag secrets secret ≡ some link)
        × (decode_secret_key link ≡ some key)
        × (listen_faketls_domain none (link ∷ []) ≡ some domain)
  unfolding link_secret_for
  link_secret_for-faketls flag secrets secret key domain behind same len ks ds some_domain utf8 =
      let (k, h) = secret-write faketls key domain len in
      (
        codes "ee" ++ (H.encode key ++ H.encode domain),
        rw (behind, same, link_secret_for) refl,
        rw (decoded key domain ks ds, decode_secret_key) (ap some k),
        ap domain_of (decoded key domain ks ds)
            ∙ ap valid (h ∙ named domain some_domain)
            ∙ ap (λ b. if b then some domain else none) utf8,
      )
