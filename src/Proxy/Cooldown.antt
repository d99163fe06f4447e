-- ===== src/Proxy/Cooldown.antt =====
-- rust/src/proxy.rs, `CooldownMap`. The clock is an argument.
use tg_ws_proxy.Base.{
  ℕ, ◌+◌, ◌≡◌, refl, inl, inr, Bool, false, Option, none, some, List, [], ltb, if◌then◌else◌,
  Bool-cases, KeyEq, insert, remove, get, get-insert, get-remove,
}

module _ {ℓ} {K : Type ℓ} (E : KeyEq K) where
  abbrev same : K → K → Bool
  same = E.same

  -- `entries` is `None` until the first `set`.
  unfoldable pub set : Option (List (K × ℕ)) → ℕ → K → ℕ → Option (List (K × ℕ))
  unfolding insert
  set none now key cooldown = some (insert E key (now + cooldown) [])
  set (some entries) now key cooldown = some (insert E key (now + cooldown) entries)

  unfoldable pub clear : Option (List (K × ℕ)) → K → Option (List (K × ℕ))
  unfolding remove
  clear none key = none
  clear (some entries) key = some (remove E key entries)

  unfoldable pub lookup : Option (List (K × ℕ)) → K → Option ℕ
  unfolding get
  lookup none key = none
  lookup (some entries) key = get E key entries

  unfoldable pub active : Option (List (K × ℕ)) → ℕ → K → Bool
  unfolding lookup
  active m now key = elim (lookup m key) [ none ↦ false | some until ↦ ltb now until ]

  lookup-set :
      (m : Option (List (K × ℕ))) (now cooldown : ℕ) (key other : K)
      → lookup (set m now key cooldown) other
        ≡ (if E.same key other then some (now + cooldown) else lookup m other)
  unfolding lookup set insert get remove
  lookup-set none now cooldown key other = refl
  lookup-set (some entries) now cooldown key other = get-insert E key other (now + cooldown) entries

  lookup-clear :
      (m : Option (List (K × ℕ))) (key other : K)
      → lookup (clear m key) other ≡ (if E.same key other then none else lookup m other)
  unfolding lookup clear
  lookup-clear none key other = elim (Bool-cases (E.same key other)) [
    | inl q ↦ rw q refl
    | inr q ↦ rw q refl
  ]
  lookup-clear (some entries) key other = get-remove E key other entries

  -- After `set` a key is in its cooldown exactly until the deadline, and what is known of every
  -- other key is unchanged; after `clear` the key is in none, and every other key is as it was.
  pub active-set-clear :
      (m : Option (List (K × ℕ))) (start now cooldown : ℕ) (key other : K)
      → (active (set m start key cooldown) now other
          ≡ (if E.same key other then ltb now (start + cooldown) else active m now other))
        × (active (clear m key) now other
            ≡ (if E.same key other then false else active m now other))
  unfolding active
  active-set-clear m start now cooldown key other = elim (Bool-cases (E.same key other)) [
    | inl q ↦ (
      rw (lookup-set m start cooldown key other, active, q) refl,
      rw (lookup-clear m key other, active, q) refl,
    )
    | inr q ↦ (
      rw (lookup-set m start cooldown key other, active, q) refl,
      rw (lookup-clear m key other, active, q) refl,
    )
  ]
