-- ===== src/Base/Pieces.antt =====
-- Splitting a text at a character.
use Prim.Native.Nat.{ℕ, ◌-◌}
use mathlib.Core.Bool.{false}
use mathlib.Core.List.{[], ◌∷◌, ◌++◌}
use mathlib.Core.Option.{some}
use mathlib.Core.Path.{◌≡◌, refl, ap}
use native.Mathlib.Omega.{arith}
use tg_ws_proxy.Base.Strings.{
  Text, contains_char, split_on, trim_end, trim_start, trim, is_whitespace, strip_suffix,
}
use tg_ws_proxy.Base.Lists.{length, bytes_eq_iff, drop-append, take-append, length-append, All}
use tg_ws_proxy.Base.Tests.{==_refl}

pub split_on-word :
    (c : ℕ) (w r : Text) → contains_char w c ≡ false → split_on c (w ++ (c ∷ r)) ≡ w ∷ split_on c r
unfolding split_on contains_char
split_on-word c [] r h = rw (==_refl c) refl
split_on-word c (x ∷ w) r h = rw (split_on-word c w r (ground arith)) (ground arith)

pub split_on-last : (c : ℕ) (w : Text) → contains_char w c ≡ false → split_on c w ≡ w ∷ []
unfolding split_on contains_char
split_on-last c [] h = refl
split_on-last c (x ∷ w) h = rw (split_on-last c w (ground arith)) (ground arith)

-- What has no whitespace is not trimmed.
pub trim_end-plain : (s : Text) → All (λ c. is_whitespace c ≡ false) s → trim_end s ≡ s
unfolding trim_end
trim_end-plain [] h = refl
trim_end-plain (c ∷ []) h = rw h.0 refl
trim_end-plain (c ∷ d ∷ s) h = rw (trim_end-plain (d ∷ s) h.1, trim_end) refl

pub trim-plain : (s : Text) → All (λ c. is_whitespace c ≡ false) s → trim s ≡ s
unfolding trim trim_start
trim-plain [] h = trim_end-plain [] tt
trim-plain (c ∷ s) h = rw h.0 (trim_end-plain (c ∷ s) h)

pub strip_suffix-append : (s suffix : Text) → strip_suffix (s ++ suffix) suffix ≡ some s
unfolding strip_suffix
strip_suffix-append s suffix =
    let n : length (s ++ suffix) - length suffix ≡ length s =
      omega (arith, length-append s suffix) in
    rw (n, drop-append s suffix (length s) refl, (bytes_eq_iff suffix suffix).1 refl)
      (ap some (take-append s suffix (length s) refl))
