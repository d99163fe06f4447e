-- ===== src/Proxy/Ladder.antt =====
-- rust/src/proxy.rs: what the fallback ladder promises of a walk.
use tg_ws_proxy.Base.{
  ℕ, ◌+◌, ◌≤◌, ◌≡◌, refl, ap, ◌∙◌, ◌↔◌, inl, inr, Bool, true, false, Option, none, some,
  if◌then◌else◌, KeyEq, Option-cases, arith,
}
use tg_ws_proxy.Proxy.Cooldown.{active}
use tg_ws_proxy.Proxy.Route.{from_cooldown, select_upstream}
use tg_ws_proxy.Proxy.Tiers.{
  Upstream, tcp, Cooldowns, Route, cf_tiers, fallback_chain, has_fallback,
}
use tg_ws_proxy.Proxy.Dials.{
  direct_dials, cf_tiers_directs, fallback_chain_directs, cooldown_directs,
}

module _ {ℓ} {S W : Type ℓ} (ES : KeyEq S) (ED : KeyEq (ℕ × Bool)) (r : Route S W) where
  -- `--cf-priority` tries both Cloudflare tiers before the rest of the ladder.
  abbrev tiers_first : Cooldowns S → S → Option (Upstream S W) × Cooldowns S
  tiers_first s ip = elim (cf_tiers ES ED r s).0 as (λ _. Option (Upstream S W) × Cooldowns S) [
    | some up ↦ (some up, (cf_tiers ES ED r s).1)
    | none ↦ (
      some (from_cooldown ES ED r (cf_tiers ES ED r s).1 ip).0,
      (from_cooldown ES ED r (cf_tiers ES ED r s).1 ip).1,
    )
  ]

  by_test {κ} :
      {A : Type ℓ} (Q : A → Type κ) (b : Bool) (x y : A) → Q x → Q y → Q (if b then x else y)
  by_test Q true x y h k = h
  by_test Q false x y h k = k

  tiers_first_directs :
      (s : Cooldowns S) (ip : S) → direct_dials (tiers_first s ip).1 ≤ direct_dials s + 4
  tiers_first_directs s ip = elim (Option-cases (cf_tiers ES ED r s).0) [
    | inl out ↦
        rw (out, tiers_first)
          (omega
            (arith, cooldown_directs ES ED r (cf_tiers ES ED r s).1 ip, cf_tiers_directs ES ED r s))
    | inr (up, hit) ↦ rw (hit, tiers_first) (omega (arith, cf_tiers_directs ES ED r s))
  ]

  tiers_first_routes :
      (s : Cooldowns S) (ip : S) → (up : Upstream S W) × ((tiers_first s ip).0 ≡ some up)
  tiers_first_routes s ip = elim (Option-cases (cf_tiers ES ED r s).0) [
    | inl out ↦ ((from_cooldown ES ED r (cf_tiers ES ED r s).1 ip).0, rw (out, tiers_first) refl)
    | inr (up, hit) ↦ (up, rw (hit, tiers_first) refl)
  ]

  -- One walk dials the data centre itself at most four times, for each of its two host names with
  -- its own SNI and fronted, whatever fails; and a walk without a `--dc-ip` target never does.
  pub select_upstream-directs :
      (s : Cooldowns S) (target : Option S)
      → direct_dials (select_upstream ES ED r s target).1
        ≤ direct_dials s + elim target [ none ↦ 0 | some ip ↦ 4 ]
  unfolding select_upstream
  select_upstream-directs s none = elim (Option-cases r.fallback_ip) [
    | inl gone ↦ rw (gone, select_upstream) (omega arith)
    | inr (ip, known) ↦ elim (Option-cases (fallback_chain ES ED r s false).0) [
      | inl out ↦
          rw (known, out, select_upstream) (omega (arith, fallback_chain_directs ES ED r s false))
      | inr (up, hit) ↦
          rw (known, hit, select_upstream) (omega (arith, fallback_chain_directs ES ED r s false))
    ]
  ]
  select_upstream-directs s (some ip) =
      by_test (λ x. direct_dials x.1 ≤ direct_dials s + 4) r.cf_priority (tiers_first s ip)
        (some (from_cooldown ES ED r s ip).0, (from_cooldown ES ED r s ip).1)
        (tiers_first_directs s ip) (cooldown_directs ES ED r s ip)

  -- A connection is routed somewhere unless its data centre has neither a `--dc-ip` target nor a
  -- built-in address: then, and only then, the walk gives nothing.
  pub select_upstream-routes :
      (s : Cooldowns S) (target : Option S)
      → ((select_upstream ES ED r s target).0 ≡ none) ↔ ((target ≡ none) × (r.fallback_ip ≡ none))
  unfolding select_upstream
  select_upstream-routes s none = elim (Option-cases r.fallback_ip) [
    | inl gone ↦ (λ _. (refl, gone), λ _. rw (gone, select_upstream) refl)
    | inr (ip, known) ↦
        let (up, e) = chain_or_tcp s ip known in
        (λ none_up. absurd (cc (none_up, e)), λ both. absurd (cc (both.1, known)))
  ]
    where
      chain_or_tcp :
          (s : Cooldowns S) (ip : S)
          → r.fallback_ip ≡ some ip
          → (up : Upstream S W) × ((select_upstream ES ED r s none).0 ≡ some up)
      chain_or_tcp s ip known = elim (Option-cases (fallback_chain ES ED r s false).0) [
        | inl out ↦ (tcp ip, rw (known, out, select_upstream) refl)
        | inr (up, hit) ↦ (up, rw (known, hit, select_upstream) refl)
      ]
  select_upstream-routes s (some ip) =
      let (up, e) =
        by_test (λ x. (up : Upstream S W) × (x.0 ≡ some up)) r.cf_priority (tiers_first s ip)
          (some (from_cooldown ES ED r s ip).0, (from_cooldown ES ED r s ip).1)
          (tiers_first_routes s ip) ((from_cooldown ES ED r s ip).0, refl) in
      (λ none_up. absurd (cc (none_up, e)), λ both. absurd (cc both.0))

  -- While a target is in its cooldown and a fallback answers, the connection goes to that fallback,
  -- and the target is not dialled; without `--cf-priority`.
  pub select_upstream-cooling :
      (s : Cooldowns S) (ip : S) (up : Upstream S W)
      → r.cf_priority ≡ false
      → active ES s.ip_fail s.clock ip ≡ true
      → has_fallback ES ED r ≡ true
      → (fallback_chain ES ED r s false).0 ≡ some up
      → ((select_upstream ES ED r s (some ip)).0 ≡ some up)
        × (direct_dials (select_upstream ES ED r s (some ip)).1 ≡ direct_dials s)
  unfolding from_cooldown
  select_upstream-cooling s ip up later cooling other answers = (
    ap (λ x. x.0) selected,
    ap (λ x. direct_dials x.1) selected ∙ fallback_chain_directs ES ED r s r.cf_priority,
  )
    where
      chained : from_cooldown ES ED r s ip ≡ (up, (fallback_chain ES ED r s r.cf_priority).1)
      chained =
          rw
            (
              cooling,
              other,
              ap (λ b. (fallback_chain ES ED r s b).0) later ∙ answers,
              from_cooldown,
            )
            refl

      selected :
          select_upstream ES ED r s (some ip)
          ≡ (some up, (fallback_chain ES ED r s r.cf_priority).1)
      selected =
          unfold select_upstream in
          ap
            (λ b.
              if b
              then tiers_first s ip
              else (some (from_cooldown ES ED r s ip).0, (from_cooldown ES ED r s ip).1))
            later
          ∙ ap (λ x. (some x.0, x.1)) chained
