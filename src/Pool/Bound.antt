-- ===== src/Pool/Bound.antt =====
-- rust/src/pool.rs: the size of the buckets, over every interleaving of clients, refills and the
-- warm-up.
use tg_ws_proxy.Base.{
  ℕ, ◌+◌, ◌-◌, ◌≤◌, ◌≡◌, refl, sym, subst, inl, inr, Bool, true, false, List, [], ◌∷◌, length,
  length-take, take, leb, if◌then◌else◌, Bool-cases, arith,
}
use tg_ws_proxy.Base.{KeyEq}
use tg_ws_proxy.Pool.Shelf.{
  Entry, Shelf, unusable, take_fresh, get, push_all, refill_begin, refill_end, warm,
}

module _ {ℓ κ} {K : Type ℓ} {W : Type κ} (E : KeyEq K) (budget : ℕ) where
  -- A run of the pool: clients taking connections, refills that begin and end, each with what its
  -- connects brought at whatever time. `refill_end` is only reached after a `refill_begin` that
  -- went on.
  pub data Reached : Shelf K W → Type (ℓ ⊔ κ) where
    started : Reached (record { idle = λ _. []; refilling = λ _. false })
    got :
        {s : Shelf K W} (now max_age : ℕ) (quiet : W → Bool) (key : K)
        → Reached s
        → Reached (get E now max_age quiet s key).1
    began : {s : Shelf K W} (key : K) → Reached s → Reached (refill_begin E budget s key).1
    ended :
        {s : Shelf K W} (now : ℕ) (key : K) (new_conns : List W)
        → Reached s
        → s.refilling key ≡ true
        → Reached (refill_end E budget now s key new_conns)

  length-push_all :
      (now : ℕ) (ws : List W) (bucket : List (Entry W))
      → length (push_all E now ws bucket) ≡ length ws + length bucket
  unfolding push_all
  length-push_all now [] bucket = omega arith
  length-push_all now (w ∷ ws) bucket =
      omega (arith, length-push_all now ws (record { ws = w; created = now } ∷ bucket))

  length-take_fresh :
      (now max_age : ℕ) (quiet : W → Bool) (bucket : List (Entry W))
      → length (take_fresh E now max_age quiet bucket).1 ≤ length bucket
  unfolding take_fresh
  length-take_fresh now max_age quiet [] = omega arith
  length-take_fresh now max_age quiet (e ∷ bucket) =
      elim (Bool-cases (unusable E now max_age quiet e)) [
        | inl bad ↦ rw (bad, take_fresh) (omega (arith, length-take_fresh now max_age quiet bucket))
        | inr good ↦ rw (good, take_fresh) (omega arith)
      ]

  either :
      (b : Bool) (xs ys : List (Entry W)) (n : ℕ)
      → length xs ≤ n
      → length ys ≤ n
      → length (if b then xs else ys) ≤ n
  either true xs ys n h k = h
  either false xs ys n h k = k

  begin_idle :
      (s : Shelf K W) (key other : K) → (refill_begin E budget s key).1.idle other ≡ s.idle other
  unfolding refill_begin
  begin_idle s key other = elim (Bool-cases (s.refilling key)) [
    | inl busy ↦ rw (busy, refill_begin) refl
    | inr idle ↦ elim (Bool-cases (leb budget (length (s.idle key)))) [
      | inl full ↦ rw (idle, full, refill_begin) refl
      | inr room ↦ rw (idle, room, refill_begin) refl
    ]
  ]

  -- However clients and refills interleave, and whatever the connects bring, no bucket ever holds
  -- more than its budget: `pool_size` for the direct pool, at most one for the Cloudflare pool.
  pub Reached-bound : (s : Shelf K W) (key : K) → Reached s → length (s.idle key) ≤ budget
  unfolding get refill_end
  Reached-bound _ key started = omega arith
  Reached-bound _ key (got {s} now max_age quiet k r) =
      either (E.same k key) _ _ budget
        (omega (arith, length-take_fresh now max_age quiet (s.idle k), Reached-bound s k r))
        (Reached-bound s key r)
  Reached-bound _ key (began {s} k r) =
      subst (λ xs. length xs ≤ budget) (sym (begin_idle s k key)) (Reached-bound s key r)
  Reached-bound _ key (ended {s} now k new_conns r busy) =
      either (E.same k key) _ _ budget
        (omega (
          arith,
          length-push_all now (take (budget - length (s.idle k)) new_conns) (s.idle k),
          length-take (budget - length (s.idle k)) new_conns,
          Reached-bound s k r,
        ))
        (Reached-bound s key r)

  -- The warm-up does not look at the bucket that it pushes into: where clients and refills have
  -- filled a bucket while the warm-up was connecting, the bucket holds twice its budget behind it.
  pub warm-overfills :
      (now : ℕ) (s : Shelf K W) (key : K) (new_conns : List W)
      → length (s.idle key) ≡ budget
      → length new_conns ≡ budget
      → length ((warm E now s key new_conns).idle key) ≡ budget + budget
  unfolding warm
  warm-overfills now s key new_conns full opened =
      rw (E.same_refl key) (omega (arith, length-push_all now new_conns (s.idle key)))
