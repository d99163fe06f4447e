-- ===== src/Pool/Take.antt =====
-- rust/src/pool.rs, `get` and `cf_get`: which connection a client is given.
use tg_ws_proxy.Base.{
  ℕ, ◌-◌, ◌≤◌, ◌≡◌, refl, ap, inl, inr, Bool, true, false, Option, none, some, List, [], ◌∷◌, ◌++◌,
  All, if◌then◌else◌, Bool-cases, arith,
}
use tg_ws_proxy.Base.{KeyEq}
use tg_ws_proxy.Pool.Shelf.{Entry, Shelf, unusable, take_fresh, get}

module _ {ℓ κ} {K : Type ℓ} {W : Type κ} (E : KeyEq K) (now max_age : ℕ) (quiet : W → Bool) where
  -- What a bucket gives: the newest usable entry, past none but unusable ones, or nothing when
  -- every entry is unusable.
  abbrev pub IsTaken : List (Entry W) → Option (Entry W) × List (Entry W) → Type κ
  IsTaken bucket (none, rest) =
      All (λ e. unusable E now max_age quiet e ≡ true) bucket × (rest ≡ [])
  IsTaken bucket (some e, rest) =
      (skipped : List (Entry W)) × (bucket ≡ skipped ++ (e ∷ rest))
      × All (λ d. unusable E now max_age quiet d ≡ true) skipped
      × (now - e.created ≤ max_age)
      × (quiet e.ws ≡ true)

  usable :
      (e : Entry W)
      → unusable E now max_age quiet e ≡ false
      → (now - e.created ≤ max_age) × (quiet e.ws ≡ true)
  unfolding unusable
  usable e h = ground arith

  skip :
      (d : Entry W) (bucket : List (Entry W)) (r : Option (Entry W) × List (Entry W))
      → unusable E now max_age quiet d ≡ true
      → IsTaken bucket r
      → IsTaken (d ∷ bucket) r
  skip d bucket (none, rest) bad (all_bad, gone) = ((bad, all_bad), gone)
  skip d bucket (some e, rest) bad (skipped, split, all_bad, fresh, still) =
      (d ∷ skipped, ap (◌∷◌ d) split, (bad, all_bad), fresh, still)

  take_fresh-IsTaken :
      (bucket : List (Entry W)) → IsTaken bucket (take_fresh E now max_age quiet bucket)
  unfolding take_fresh
  take_fresh-IsTaken [] = (tt, refl)
  take_fresh-IsTaken (d ∷ bucket) = elim (Bool-cases (unusable E now max_age quiet d)) [
    | inl bad ↦ rw (bad, take_fresh) (skip d bucket _ bad (take_fresh-IsTaken bucket))
    | inr good ↦
        rw (good, take_fresh) (let (fresh, still) = usable d good in ([], refl, tt, fresh, still))
  ]

  -- A client is given the newest connection of its key's bucket that is young enough and quiet;
  -- what was opened after it was too old or had something to read, and is gone; when there is none
  -- the bucket is left empty. The buckets of other keys are untouched.
  pub get-IsTaken :
      (s : Shelf K W) (key other : K)
      → let (found, t) = get E now max_age quiet s key in
        IsTaken (s.idle key) (found, t.idle key)
        × (t.idle other ≡ (if E.same key other then t.idle key else s.idle other))
  unfolding get
  get-IsTaken s key other =
      (rw (E.same_refl key) (take_fresh-IsTaken (s.idle key)), rw (E.same_refl key) refl)
