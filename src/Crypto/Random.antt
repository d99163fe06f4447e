-- ===== src/Crypto/Random.antt =====
-- rust/src/crypto.rs: the loop that both generators share. It draws 64 random bytes until they
-- look like no other protocol. The draws are an argument, one block for each round.
use tg_ws_proxy.Base.{
  ℕ, suc, bit_xor, ◌≡◌, refl, ap₂, Bool, false, ◌||◌, Option, none, some, List, [], ◌∷◌, arith,
  length, take, slice, get_or, bytes_eq, ◌==◌, if◌then◌else◌, xor_cancel, xor_comm, xor-zero, subst,
  Bool-cases, inl, inr, ap, replicate, All,
}
use tg_ws_proxy.Crypto.Cipher.{xor_from}

abbrev pub reserved_first_byte : ℕ
reserved_first_byte = 0xef

abbrev pub reserved_starts : List (List ℕ)
reserved_starts =
    (0x48 ∷ 0x45 ∷ 0x41 ∷ 0x44 ∷ [])
    ∷ (0x50 ∷ 0x4f ∷ 0x53 ∷ 0x54 ∷ [])
    ∷ (0x47 ∷ 0x45 ∷ 0x54 ∷ 0x20 ∷ [])
    ∷ (0xee ∷ 0xee ∷ 0xee ∷ 0xee ∷ [])
    ∷ (0xdd ∷ 0xdd ∷ 0xdd ∷ 0xdd ∷ [])
    ∷ (0x16 ∷ 0x03 ∷ 0x01 ∷ 0x02 ∷ [])
    ∷ []

abbrev pub reserved_continue : List ℕ
reserved_continue = 0 ∷ 0 ∷ 0 ∷ 0 ∷ []

unfoldable pub starts_reserved : List (List ℕ) → List ℕ → Bool
starts_reserved [] rnd = false
starts_reserved (s ∷ ss) rnd = bytes_eq (take 4 rnd) s || starts_reserved ss rnd

-- The three tests of the loop, in order.
unfoldable pub is_reserved : List ℕ → Bool
is_reserved rnd =
    get_or rnd 0 0 == reserved_first_byte
    || starts_reserved reserved_starts rnd
    || bytes_eq (slice 4 8 rnd) reserved_continue

-- `none`: every block drawn so far was rejected, and the loop goes on drawing.
unfoldable pub first_accepted : List (List ℕ) → Option (List ℕ)
first_accepted [] = none
first_accepted (rnd ∷ draws) = if is_reserved rnd then first_accepted draws else some rnd

-- A byte-wise `^` of two slices, as long as the shorter.
unfoldable pub xor_bytes : List ℕ → List ℕ → List ℕ
xor_bytes [] ys = []
xor_bytes (x ∷ xs) [] = []
xor_bytes (x ∷ xs) (y ∷ ys) = bit_xor x y ∷ xor_bytes xs ys

pub length-xor_bytes :
    (xs ys : List ℕ) → length xs ≡ length ys → length (xor_bytes xs ys) ≡ length xs
unfolding xor_bytes
length-xor_bytes [] ys h = refl
length-xor_bytes (x ∷ xs) [] h = absurd (omega arith)
length-xor_bytes (x ∷ xs) (y ∷ ys) h = ap suc (length-xor_bytes xs ys (omega arith))

-- What the loop accepts was drawn, and is not reserved.
pub first_accepted-not_reserved :
    (draws : List (List ℕ)) (rnd : List ℕ)
    → first_accepted draws ≡ some rnd
    → is_reserved rnd ≡ false
unfolding first_accepted
first_accepted-not_reserved [] rnd h = cc
first_accepted-not_reserved (d ∷ draws) rnd h =
    ground (arith, first_accepted-not_reserved draws rnd)

pub first_accepted-All {κ} :
    (Q : List ℕ → Type κ) (draws : List (List ℕ)) (rnd : List ℕ)
    → All Q draws
    → first_accepted draws ≡ some rnd
    → Q rnd
unfolding first_accepted
first_accepted-All Q [] rnd a h = cc
first_accepted-All Q (d ∷ draws) rnd a h = elim (Bool-cases (is_reserved d)) [
  | inl e ↦ first_accepted-All Q draws rnd a.1 (ground arith)
  | inr e ↦ let same : d ≡ rnd = ground arith in subst Q same a.0
]

-- The keystream at a position is what encrypting and `^` with the plain bytes leave.
pub xor_from-embed :
    (ks : ℕ → ℕ) (pos : ℕ) (t r : List ℕ)
    → length t ≡ length r
    → xor_from ks pos (xor_bytes t (xor_bytes (xor_from ks pos r) r)) ≡ t
unfolding xor_from xor_bytes
xor_from-embed ks pos [] r h = refl
xor_from-embed ks pos (x ∷ t) [] h = absurd (omega arith)
xor_from-embed ks pos (x ∷ t) (b ∷ r) h =
    ap₂ ◌∷◌ (mask x b (ks pos)) (xor_from-embed ks (suc pos) t r (omega arith))
  where
    mask : (x b k : ℕ) → bit_xor (bit_xor x (bit_xor (bit_xor b k) b)) k ≡ x
    mask x b k = rw (xor_comm b k, xor_cancel k b) (xor_cancel x k)

pub xor_from-zeros :
    (ks : ℕ → ℕ) (pos : ℕ) (t : List ℕ)
    → xor_from ks pos (xor_bytes t (xor_from ks pos (replicate (length t) 0))) ≡ t
unfolding xor_from xor_bytes
xor_from-zeros ks pos [] = refl
xor_from-zeros ks pos (x ∷ t) =
    ap₂ ◌∷◌ (rw (xor_comm 0 (ks pos)) (mask x (ks pos))) (xor_from-zeros ks (suc pos) t)
  where
    mask : (x k : ℕ) → bit_xor (bit_xor x (bit_xor k 0)) k ≡ x
    mask x k = rw (xor-zero k) (xor_cancel x k)
