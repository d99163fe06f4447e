-- ===== src/Pool/Shelf.antt =====
-- rust/src/pool.rs: the buckets of idle connections and the refills in flight. The direct pool and
-- the Cloudflare pool have the same shape with other keys and entries. A bucket's head is the back
-- of the source's vector; a connection is of any type, and `quiet` says that nothing has arrived on
-- it. What a background connect brings back is an argument.
use tg_ws_proxy.Base.{
  ℕ, ◌-◌, min, Bool, true, false, ◌||◌, not, Option, none, some, List, [], ◌∷◌, length, take, ltb,
  leb, if◌then◌else◌,
}
use tg_ws_proxy.Base.{KeyEq}

pub record Entry {ℓ} (W : Type ℓ) : Type ℓ where
  pub ws : W
  pub created : ℕ

-- The buckets, the set of keys with a refill in flight.
pub record Shelf {ℓ κ} (K : Type ℓ) (W : Type κ) : Type (ℓ ⊔ κ) where
  pub idle : K → List (Entry W)
  pub refilling : K → Bool

abbrev pub cf_pool_max : ℕ
cf_pool_max = 1

module _ {ℓ κ} {K : Type ℓ} {W : Type κ} (E : KeyEq K) where
  abbrev pub with_bucket : Shelf K W → K → List (Entry W) → Shelf K W
  with_bucket s key bucket = record s { idle = λ k. if E.same key k then bucket else s.idle k }

  abbrev pub with_refilling : Shelf K W → K → Bool → Shelf K W
  with_refilling s key flag = record s {
    refilling = λ k. if E.same key k then flag else s.refilling k;
  }

  -- Too old at `now`, or with something to read.
  unfoldable pub unusable : ℕ → ℕ → (W → Bool) → Entry W → Bool
  unusable now max_age quiet e = ltb max_age (now - e.created) || not (quiet e.ws)

  -- The loop of `get` and `cf_get`: connections are popped until one is usable.
  unfoldable pub take_fresh :
      ℕ → ℕ → (W → Bool) → List (Entry W) → Option (Entry W) × List (Entry W)
  unfolding unusable
  take_fresh now max_age quiet [] = (none, [])
  take_fresh now max_age quiet (e ∷ bucket) =
      let rest = take_fresh now max_age quiet bucket in
      if unusable now max_age quiet e then rest else (some e, bucket)

  unfoldable pub get : ℕ → ℕ → (W → Bool) → Shelf K W → K → Option (Entry W) × Shelf K W
  unfolding take_fresh
  get now max_age quiet s key =
      let (found, bucket) = take_fresh now max_age quiet (s.idle key) in
      (found, with_bucket s key bucket)

  -- The loop that pushes new connections.
  unfoldable pub push_all : ℕ → List W → List (Entry W) → List (Entry W)
  push_all now [] bucket = bucket
  push_all now (ws ∷ new_conns) bucket =
      push_all now new_conns (record { ws = ws; created = now } ∷ bucket)

  -- `refill` up to its connects: how many it will open, if it goes on at all. A refill that
  -- returns early has its key taken out of `refilling` by the guard.
  unfoldable pub refill_begin : ℕ → Shelf K W → K → Option ℕ × Shelf K W
  refill_begin budget s key =
      if s.refilling key
      then (none, s)
      else if leb budget (length (s.idle key))
      then (none, with_refilling s key false)
      else (some (budget - length (s.idle key)), with_refilling s key true)

  -- `refill` behind its connects: what there is room for is pushed, and the guard is dropped.
  unfoldable pub refill_end : ℕ → ℕ → Shelf K W → K → List W → Shelf K W
  unfolding push_all
  refill_end budget now s key new_conns =
      let bucket = s.idle key in
      with_refilling
        (with_bucket s key (push_all now (take (budget - length bucket) new_conns) bucket)) key
        false

  -- One bucket of `warmup`: everything that was opened is pushed.
  unfoldable pub warm : ℕ → Shelf K W → K → List W → Shelf K W
  unfolding push_all
  warm now s key new_conns = with_bucket s key (push_all now new_conns (s.idle key))

-- `CF_POOL_MAX.min(self.pool_size)`
unfoldable pub cf_budget : ℕ → ℕ
cf_budget pool_size = min cf_pool_max pool_size
