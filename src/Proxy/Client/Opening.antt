-- ===== src/Proxy/Client/Opening.antt =====
-- rust/src/proxy.rs, `read_inbound_handshake` and what `handle_client_with_runtime` makes of the 64
-- bytes: the reader behind them, the secret, and the signed index of the DC.
use tg_ws_proxy.Base.{
  ℕ, ◌-◌, ◌%◌, ◌^◌, ◌≤◌, ◌<◌, ◌≡◌, refl, sym, ap, ◌∙◌, false, some, List, [], ◌∷◌, ◌++◌,
  append_assoc, length, length-take, length-drop, take, drop, take-append-drop, concat, All,
  is_empty, leb, le→leb, ◌==◌, if◌then◌else◌, arith,
}
use native.Mathlib.Decide.{dec_le}
use tg_ws_proxy.Crypto.Cipher.{Primitives}
use tg_ws_proxy.Crypto.Handshake.{HandshakeInfo, parse_handshake, i16_unsigned_abs, i16_is_negative}
use tg_ws_proxy.Proxy.Filled.{same_cut}
use tg_ws_proxy.Proxy.Client.{read_exact_parts, arrived, find_secret, dc_idx_of}

abbrev pub Nonempty : List ℕ → Type 0
Nonempty part = 0 < length part

filled : (part : List ℕ) → Nonempty part → is_empty part ≡ false
filled [] h = absurd (omega arith)
filled (b ∷ bs) h = refl

pub arrived-All : (parts : List (List ℕ)) → All Nonempty parts → arrived parts ≡ concat parts
unfolding arrived
arrived-All [] ok = refl
arrived-All (part ∷ parts) ok =
    rw (filled part ok.0, arrived) (ap (λ x. part ++ x) (arrived-All parts ok.1))

-- `read_exact` takes the first bytes however they arrive, and leaves the others.
abbrev IsCutAt : ℕ → List ℕ → List ℕ → List (List ℕ) → Type 0
IsCutAt n init later parts =
    (rest : List (List ℕ)) × (read_exact_parts n parts ≡ some (init, rest))
    × All Nonempty rest
    × (concat rest ≡ later)

read_exact-nil : (parts : List (List ℕ)) → read_exact_parts 0 parts ≡ some ([], parts)
unfolding read_exact_parts
read_exact-nil [] = refl
read_exact-nil (part ∷ parts) = refl

-- A part that ends within the bytes, and one that does not.
whole_part :
    (n : ℕ) (part bytes : List ℕ) (parts left : List (List ℕ))
    → Nonempty part
    → 0 < n
    → length part ≤ n
    → read_exact_parts (n - length part) parts ≡ some (bytes, left)
    → read_exact_parts n (part ∷ parts) ≡ some (part ++ bytes, left)
unfolding read_exact_parts
whole_part n part bytes parts left some_part some_n fits e =
    rw (not_zero n some_n, filled part some_part, le→leb (length part) n fits, read_exact_parts)
      (rw e refl)
  where
    not_zero : (n : ℕ) → 0 < n → (n == 0) ≡ false
    not_zero n h = ground arith

split_part :
    (n : ℕ) (part : List ℕ) (parts : List (List ℕ))
    → 0 < n
    → n < length part
    → read_exact_parts n (part ∷ parts) ≡ some (take n part, drop n part ∷ parts)
unfolding read_exact_parts
split_part n part parts some_n big =
    rw
      (not_zero n some_n, filled part (omega arith), too_long n (length part) big, read_exact_parts)
      refl
  where
    not_zero : (n : ℕ) → 0 < n → (n == 0) ≡ false
    not_zero n h = ground arith

    too_long : (n k : ℕ) → n < k → leb k n ≡ false
    too_long n k h = ground arith

pub read_exact_parts-IsCutAt :
    (n : ℕ) (init later : List ℕ) (parts : List (List ℕ))
    → length init ≡ n
    → All Nonempty parts
    → concat parts ≡ init ++ later
    → IsCutAt n init later parts
read_exact_parts-IsCutAt n [] later parts len ok e =
    (parts, ap (λ k. read_exact_parts k parts) (sym len) ∙ read_exact-nil parts, ok, e)
read_exact_parts-IsCutAt n (b ∷ bs) later [] len ok e = absurd (omega (arith, ap length e))
read_exact_parts-IsCutAt n (b ∷ bs) later (part ∷ parts) len ok e = elim (dec_le (length part) n) [
  | yes fits ↦
      let init = b ∷ bs in
      let k : ℕ = length part in
      let (same, follows) =
        same_cut part (concat parts) (take k init) (drop k init ++ later) k refl
          (omega (arith, length-take k init))
          (e
            ∙ ap (λ x. x ++ later) (sym (take-append-drop k init))
            ∙ append_assoc (take k init) (drop k init) later) in
      let (rest, reads, ok_rest, whole) =
        read_exact_parts-IsCutAt (n - k) (drop k init) later parts
          (omega (arith, length-drop k init)) ok.1 follows in
      (
        rest,
        whole_part n part (drop k init) parts rest ok.0 (omega arith) fits reads
            ∙ ap (λ x. some (x, rest)) (ap (λ x. x ++ drop k init) same ∙ take-append-drop k init),
        ok_rest,
        whole,
      )
  | no big ↦
      let (same, follows) =
        same_cut (take n part) (drop n part ++ concat parts) (b ∷ bs) later n
          (omega (arith, length-take n part)) len
          (sym (append_assoc (take n part) (drop n part) (concat parts))
            ∙ ap (λ x. x ++ concat parts) (take-append-drop n part)
            ∙ e) in
      (
        drop n part ∷ parts,
        split_part n part parts (omega arith) (omega arith)
            ∙ ap (λ x. some (x, drop n part ∷ parts)) same,
        (omega (arith, length-drop n part), ok.1),
        follows,
      )
]

-- `dc_idx` is the index that the handshake carried.
pub dc_idx_of-info :
    (i : HandshakeInfo) (n : ℕ)
    → n < 2 ^ 16
    → i.dc_id ≡ i16_unsigned_abs n
    → i.is_media ≡ i16_is_negative n
    → dc_idx_of i ≡ n
unfolding dc_idx_of
dc_idx_of-info i n fits id media = rw (media, id, dc_idx_of) (signed n fits)
  where
    signed :
        (n : ℕ)
        → n < 2 ^ 16
        → (if i16_is_negative n
            then (2 ^ 16 - i16_unsigned_abs n % 2 ^ 16) % 2 ^ 16
            else i16_unsigned_abs n % 2 ^ 16)
          ≡ n
    signed n h = ground arith

module _ (P : Primitives) where
  -- A secret under which the handshake parses is found at the front.
  pub find_secret-first :
      (secret handshake : List ℕ) (secrets : List (List ℕ)) (i : HandshakeInfo)
      → parse_handshake P handshake secret ≡ some i
      → find_secret P handshake (secret ∷ secrets) ≡ some (i, secret)
  unfolding find_secret
  find_secret-first secret handshake secrets i parsed = rw (parsed, find_secret) refl
