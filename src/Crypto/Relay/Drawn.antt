-- ===== src/Crypto/Relay/Drawn.antt =====
-- rust/src/crypto.rs, `generate_relay_init`: which of the blocks drawn becomes the packet.
use tg_ws_proxy.Base.{
  ℕ, ◌≡◌, refl, sym, ap, subst, ◌∙◌, Bool, true, false, ◌||◌, ◌==◌, some, List, [], ◌∷◌, ◌++◌,
  arith, length, take, drop, slice, get_or, bytes_eq, bytes_eq_iff, take-append-drop, inl, inr,
  Bool-cases, All,
}
use tg_ws_proxy.Crypto.Cipher.{Primitives}
use tg_ws_proxy.Crypto.Tag.{ProtoTag}
use tg_ws_proxy.Crypto.Random.{
  is_reserved, starts_reserved, reserved_starts, reserved_continue, first_accepted,
}
use tg_ws_proxy.Crypto.Relay.{relay_init, generate_relay_init}
use tg_ws_proxy.Crypto.Relay.Recover.{slice-relay_init}

-- The beginnings by which something else than an obfuscated client is known.
pub data Reserved : List ℕ → Type 0 where
  abridged_client : (rest : List ℕ) → Reserved (0xef ∷ rest)
  head_request : (rest : List ℕ) → Reserved (0x48 ∷ 0x45 ∷ 0x41 ∷ 0x44 ∷ rest)
  post_request : (rest : List ℕ) → Reserved (0x50 ∷ 0x4f ∷ 0x53 ∷ 0x54 ∷ rest)
  get_request : (rest : List ℕ) → Reserved (0x47 ∷ 0x45 ∷ 0x54 ∷ 0x20 ∷ rest)
  intermediate_client : (rest : List ℕ) → Reserved (0xee ∷ 0xee ∷ 0xee ∷ 0xee ∷ rest)
  padded_client : (rest : List ℕ) → Reserved (0xdd ∷ 0xdd ∷ 0xdd ∷ 0xdd ∷ rest)
  tls_client : (rest : List ℕ) → Reserved (0x16 ∷ 0x03 ∷ 0x01 ∷ 0x02 ∷ rest)
  full_client : (a b c d : ℕ) (rest : List ℕ) → Reserved (a ∷ b ∷ c ∷ d ∷ 0 ∷ 0 ∷ 0 ∷ 0 ∷ rest)

pub Reserved-is_reserved : (rnd : List ℕ) → Reserved rnd → is_reserved rnd ≡ true
unfolding is_reserved starts_reserved bytes_eq
Reserved-is_reserved _ (abridged_client rest) = refl
Reserved-is_reserved _ (head_request rest) = refl
Reserved-is_reserved _ (post_request rest) = refl
Reserved-is_reserved _ (get_request rest) = refl
Reserved-is_reserved _ (intermediate_client rest) = refl
Reserved-is_reserved _ (padded_client rest) = refl
Reserved-is_reserved _ (tls_client rest) = refl
Reserved-is_reserved _ (full_client a b c d rest) = either (a == 0xef) _
  where
    either : (x y : Bool) → (x || y || true) ≡ true
    either true y = refl
    either false true = refl
    either false false = refl

starts_with : (s rnd : List ℕ) → bytes_eq (take 4 rnd) s ≡ true → (s ++ drop 4 rnd) ≡ rnd
starts_with s rnd h =
    ap (λ x. x ++ drop 4 rnd) (sym ((bytes_eq_iff (take 4 rnd) s).0 h)) ∙ take-append-drop 4 rnd

one_of :
    (ss : List (List ℕ)) (rnd : List ℕ)
    → All (λ s. (rest : List ℕ) → Reserved (s ++ rest)) ss
    → starts_reserved ss rnd ≡ true
    → Reserved rnd
unfolding starts_reserved
one_of [] rnd a h = absurd (cc h)
one_of (s ∷ ss) rnd a h = elim (Bool-cases (bytes_eq (take 4 rnd) s)) [
  | inl e ↦ subst Reserved (starts_with s rnd e) (a.0 (drop 4 rnd))
  | inr n ↦ one_of ss rnd a.1 (sym (ap (λ b. b || starts_reserved ss rnd) n) ∙ h)
]

starts_reserved-Reserved :
    (rnd : List ℕ) → starts_reserved reserved_starts rnd ≡ true → Reserved rnd
starts_reserved-Reserved rnd h =
    one_of reserved_starts rnd
      (
        head_request,
        (post_request, (get_request, (intermediate_client, (padded_client, (tls_client, tt))))),
      )
      h

continues-Reserved :
    (rnd : List ℕ) → bytes_eq (slice 4 8 rnd) reserved_continue ≡ true → Reserved rnd
continues-Reserved rnd h = by_shape rnd ((bytes_eq_iff (slice 4 8 rnd) reserved_continue).0 h)
  where
    by_shape : (rnd : List ℕ) → slice 4 8 rnd ≡ 0 ∷ 0 ∷ 0 ∷ 0 ∷ [] → Reserved rnd
    by_shape [] e = absurd (cc e)
    by_shape (a ∷ []) e = absurd (cc e)
    by_shape (a ∷ b ∷ []) e = absurd (cc e)
    by_shape (a ∷ b ∷ c ∷ []) e = absurd (cc e)
    by_shape (a ∷ b ∷ c ∷ d ∷ rest) e =
        subst Reserved
          (ap (λ x. a ∷ b ∷ c ∷ d ∷ (x ++ drop 4 rest)) (sym e)
            ∙ ap (λ x. a ∷ b ∷ c ∷ d ∷ x) (take-append-drop 4 rest))
          (full_client a b c d (drop 4 rest))

first_byte-Reserved : (rnd : List ℕ) → (get_or rnd 0 0 == 0xef) ≡ true → Reserved rnd
first_byte-Reserved [] e = absurd (cc e)
first_byte-Reserved (x ∷ rest) e =
    let same : 0xef ≡ x = ground arith in
    subst Reserved (ap (λ y. y ∷ rest) same) (abridged_client rest)

is_reserved-Reserved : (rnd : List ℕ) → is_reserved rnd ≡ true → Reserved rnd
unfolding is_reserved
is_reserved-Reserved rnd h =
    let continues = bytes_eq (slice 4 8 rnd) reserved_continue in
    elim (Bool-cases (get_or rnd 0 0 == 0xef)) [
      | inl e ↦ first_byte-Reserved rnd e
      | inr n1 ↦ elim (Bool-cases (starts_reserved reserved_starts rnd)) [
        | inl e ↦ starts_reserved-Reserved rnd e
        | inr n2 ↦ continues-Reserved rnd (
            sym (
              ap (λ x. x || starts_reserved reserved_starts rnd || continues) n1
              ∙ ap (λ x. x || continues) n2)
            ∙ h)
      ]
    ]

not-Reserved : (rnd : List ℕ) → ¬ Reserved rnd → is_reserved rnd ≡ false
not-Reserved rnd n = elim (Bool-cases (is_reserved rnd)) [
  | inl e ↦ absurd (n (is_reserved-Reserved rnd e))
  | inr e ↦ e
]

first_accepted-skips :
    (skipped later : List (List ℕ)) (rnd : List ℕ)
    → All Reserved skipped
    → ¬ Reserved rnd
    → first_accepted (skipped ++ (rnd ∷ later)) ≡ some rnd
unfolding first_accepted
first_accepted-skips [] later rnd a n = rw (not-Reserved rnd n) refl
first_accepted-skips (s ∷ skipped) later rnd a n =
    rw (Reserved-is_reserved s a.0) (first_accepted-skips skipped later rnd a.1 n)

-- The blocks drawn that begin like an abridged, an intermediate, a padded or a full client, an HTTP
-- request or a TLS hello are skipped. The first block of 64 bytes that does not becomes the packet,
-- which has its first 56 bytes; what would be drawn later does not matter.
pub generate_relay_init-first :
    (P : Primitives) (proto : ProtoTag) (dc_idx : ℕ) (pad rnd : List ℕ)
    (skipped later : List (List ℕ))
    → length rnd ≡ 64
    → length pad ≡ 2
    → All Reserved skipped
    → ¬ Reserved rnd
    → (init : List ℕ) × (generate_relay_init P proto dc_idx pad (skipped ++ (rnd ∷ later))
        ≡ some init)
      × (take 56 init ≡ take 56 rnd)
unfolding generate_relay_init
generate_relay_init-first P proto dc_idx pad rnd skipped later len pad_len a n = (
  relay_init P proto dc_idx pad rnd,
  rw (first_accepted-skips skipped later rnd a n) refl,
  slice-relay_init P proto dc_idx pad rnd len pad_len 0 56 (omega arith),
)
