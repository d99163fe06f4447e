-- ===== src/Proxy/Balance.antt =====
-- rust/src/proxy.rs: `--cf-balance`. The atomic counter is passed in and out; `word` is the number
-- of values of a `usize`.
use tg_ws_proxy.Base.{
  ℕ, zero, suc, ◌+◌, ◌%◌, Bool, List, [], ◌∷◌, length, get_or, leb, if◌then◌else◌,
}

module _ {ℓ} {A : Type ℓ} (default : A) where
  -- `(i..n).map(|i| domains[(idx + i) % n].clone())`, for the `m` values of `i` from `i` on.
  unfoldable pub rotate_from : List A → ℕ → ℕ → ℕ → ℕ → List A
  rotate_from domains n idx i zero = []
  rotate_from domains n idx i (suc m) =
      get_or domains ((idx + i) % n) default ∷ rotate_from domains n idx (suc i) m

  unfoldable pub balanced : ℕ → List A → ℕ → List A × ℕ
  unfolding rotate_from
  balanced word domains counter =
      let n = length domains in
      if leb n 1
      then (domains, counter)
      else (rotate_from domains n (counter % n) 0 n, (counter + 1) % word)

  unfoldable pub balance_order : ℕ → List A → Bool → ℕ → List A × ℕ
  unfolding balanced
  balance_order word domains enabled counter =
      if enabled then balanced word domains counter else (domains, counter)
