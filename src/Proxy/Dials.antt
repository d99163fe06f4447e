-- ===== src/Proxy/Dials.antt =====
-- rust/src/proxy.rs: how often a walk of the ladder dials the data centre itself.
use tg_ws_proxy.Base.{
  ℕ, suc, ◌+◌, ◌≤◌, ◌≡◌, refl, ap, map, length, Text, ◌∙◌, inl, inr, Bool, true, false, not, ◌&&◌,
  ◌||◌, Option, none, some, List, [], ◌∷◌, ◌++◌, is_empty, if◌then◌else◌, KeyEq, Bool-cases,
  Option-cases, arith,
}
use tg_ws_proxy.Proxy.Cooldown.{active}
use tg_ws_proxy.Proxy.Route.{
  fronting_active, direct_ws, reactive_fronting, connect_ws, dialled_hosts, tcp_last_resort,
  after_sticky, after_plain, back_off, from_pool, from_cooldown, on_fronting_success,
  fronting_failed, cool_down_ws, cool_down_ip,
}
use tg_ws_proxy.Config.{websocket_dc}
use tg_ws_proxy.WsClient.Records.{ws_domains, ordered_records}
use tg_ws_proxy.WsClient.Connect.{
  WsAttempt, WsConnectResult, connected, redirect, failed, connect_timed_out, timed_out,
}
use tg_ws_proxy.Proxy.Tiers.{
  Upstream, Dial, worker, proxy, upstream, direct, Cooldowns, Route, cf_worker_loop, cf_worker,
  cf_proxy, cf_tiers, upstream_loop, upstream_proxies, fallback_chain, has_fallback, order_of,
}

-- How often the data centre itself is dialled.
abbrev pub directs {ℓ} : {S : Type ℓ} → List (Dial S) → ℕ
directs [] = 0
directs (worker d ∷ ds) = directs ds
directs (proxy d ∷ ds) = directs ds
directs (upstream d ∷ ds) = directs ds
directs (direct ip sni host ∷ ds) = suc (directs ds)

directs-append {ℓ} :
    {S : Type ℓ} (xs ys : List (Dial S)) → directs (xs ++ ys) ≡ directs xs + directs ys
directs-append [] ys = omega arith
directs-append (worker d ∷ xs) ys = directs-append xs ys
directs-append (proxy d ∷ xs) ys = directs-append xs ys
directs-append (upstream d ∷ xs) ys = directs-append xs ys
directs-append (direct ip sni host ∷ xs) ys = omega (arith, directs-append xs ys)

abbrev pub direct_dials {ℓ} : {S : Type ℓ} → Cooldowns S → ℕ
direct_dials s = directs s.dialled

module _ {ℓ} {S W : Type ℓ} (ES : KeyEq S) (ED : KeyEq (ℕ × Bool)) (r : Route S W) where
  -- A dial that is not of the data centre itself.
  abbrev Away : Dial S → Type 0
  Away d = directs (d ∷ []) ≡ 0

  dial-Away : (ds : List (Dial S)) (d : Dial S) → Away d → directs (ds ++ (d ∷ [])) ≡ directs ds
  dial-Away ds d h = omega (arith, directs-append ds (d ∷ []))

  directs-map :
      (ip : S) (sni : Option S) (hosts : List Text)
      → directs (map (direct ip sni) hosts) ≡ length hosts
  directs-map ip sni [] = refl
  directs-map ip sni (host ∷ hosts) = ap suc (directs-map ip sni hosts)

  dialled-hosts :
      (sni : Option S) (hosts : List Text) → length (dialled_hosts ES ED r sni hosts) ≤ length hosts
  unfolding dialled_hosts
  dialled-hosts sni [] = omega arith
  dialled-hosts sni (host ∷ hosts) = by_result (r.ws_dial sni host).0 (dialled-hosts sni hosts)
    where
      by_result :
          (res : WsConnectResult W)
          → length (dialled_hosts ES ED r sni hosts) ≤ length hosts
          → suc (
              length (elim res as (λ _. List Text) [
                | connected ws ↦ []
                | redirect code ↦ dialled_hosts ES ED r sni hosts
                | failed reason ↦ dialled_hosts ES ED r sni hosts
                | connect_timed_out reason ↦ dialled_hosts ES ED r sni hosts
                | timed_out ↦ dialled_hosts ES ED r sni hosts
              ]))
            ≤ suc (length hosts)
      by_result (connected ws) h = omega arith
      by_result (redirect code) h = omega arith
      by_result (failed reason) h = omega arith
      by_result (connect_timed_out reason) h = omega arith
      by_result timed_out h = omega arith

  two_hosts : (dc : ℕ) (is_media : Bool) → length (ws_domains dc is_media) ≡ 2
  unfolding ws_domains ordered_records
  two_hosts dc true = refl
  two_hosts dc false = refl

  -- One attempt dials each of the data centre's host names once at most.
  connect_directs :
      (s : Cooldowns S) (ip : S) (sni : Option S)
      → direct_dials (connect_ws ES ED r s ip sni).1 ≤ direct_dials s + 2
  unfolding connect_ws
  connect_directs s ip sni =
      let domains = ws_domains (websocket_dc r.dc) r.is_media in
      let hosts = dialled_hosts ES ED r sni domains in
      omega (
        arith,
        directs-append s.dialled (map (direct ip sni) hosts),
        directs-map ip sni hosts,
        dialled-hosts sni domains,
        two_hosts (websocket_dc r.dc) r.is_media,
      )

  worker_loop_directs :
      (domains : List S) (s : Cooldowns S)
      → direct_dials (cf_worker_loop ES ED r s domains).1 ≡ direct_dials s
  unfolding cf_worker_loop
  worker_loop_directs [] s = refl
  worker_loop_directs (d ∷ domains) s = elim (Bool-cases (active ES s.cf_worker_fail s.clock d)) [
    | inl cool ↦ rw (cool, cf_worker_loop) (worker_loop_directs domains s)
    | inr fresh ↦ elim (Option-cases (r.worker_connect d).0) [
      | inl fails ↦
          rw (fresh, fails, cf_worker_loop)
            (worker_loop_directs domains _ ∙ dial-Away s.dialled (worker d) refl)
      | inr (ws, works) ↦ rw (fresh, works, cf_worker_loop) (dial-Away s.dialled (worker d) refl)
    ]
  ]

  upstream_loop_directs :
      (proxies : List S) (s : Cooldowns S)
      → direct_dials (upstream_loop ES ED r s proxies).1 ≡ direct_dials s
  unfolding upstream_loop
  upstream_loop_directs [] s = refl
  upstream_loop_directs (k ∷ proxies) s = elim (Bool-cases (active ES s.upstream_fail s.clock k)) [
    | inl cool ↦ rw (cool, upstream_loop) (upstream_loop_directs proxies s)
    | inr fresh ↦ elim (Option-cases (r.upstream_connect k).0) [
      | inl fails ↦
          rw (fresh, fails, upstream_loop)
            (upstream_loop_directs proxies _ ∙ dial-Away s.dialled (upstream k) refl)
      | inr (conn, works) ↦ rw (fresh, works, upstream_loop) (dial-Away s.dialled (upstream k) refl)
    ]
  ]

  cf_worker_directs : (s : Cooldowns S) → direct_dials (cf_worker ES ED r s).1 ≡ direct_dials s
  unfolding cf_worker
  cf_worker_directs s = elim (Bool-cases (is_empty r.cf_worker_domains)) [
    | inl gone ↦ rw (gone, cf_worker) refl
    | inr some_left ↦ elim (Option-cases r.worker_pooled) [
      | inl miss ↦ rw (some_left, miss, cf_worker) (worker_loop_directs _ _)
      | inr (ws, hit) ↦ rw (some_left, hit, cf_worker) refl
    ]
  ]

  cf_proxy_directs : (s : Cooldowns S) → direct_dials (cf_proxy ES ED r s).1 ≡ direct_dials s
  unfolding cf_proxy
  cf_proxy_directs s =
      let domains = (order_of ES ED r r.cf_domains s.cf_balance_counter).0 in
      elim (Bool-cases (is_empty r.cf_domains)) [
        | inl gone ↦ rw (gone, cf_proxy) refl
        | inr some_left ↦ elim (Option-cases r.proxy_pooled) [
          | inl miss ↦ elim (Option-cases (r.proxy_connect domains).0) [
            | inl fails ↦
                rw (some_left, miss, fails, cf_proxy) (dial-Away s.dialled (proxy domains) refl)
            | inr (ws, works) ↦
                rw (some_left, miss, works, cf_proxy) (dial-Away s.dialled (proxy domains) refl)
          ]
          | inr (ws, hit) ↦ rw (some_left, hit, cf_proxy) refl
        ]
      ]

  pub cf_tiers_directs : (s : Cooldowns S) → direct_dials (cf_tiers ES ED r s).1 ≡ direct_dials s
  unfolding cf_tiers
  cf_tiers_directs s =
      let t = (cf_worker ES ED r s).1 in
      elim (Option-cases (cf_worker ES ED r s).0) [
        | inl miss ↦ elim (Option-cases (cf_proxy ES ED r t).0) [
          | inl gone ↦ rw (miss, gone, cf_tiers) (cf_proxy_directs t ∙ cf_worker_directs s)
          | inr (ws, hit) ↦ rw (miss, hit, cf_tiers) (cf_proxy_directs t ∙ cf_worker_directs s)
        ]
        | inr (ws, hit) ↦ rw (hit, cf_tiers) (cf_worker_directs s)
      ]

  proxies_directs : (s : Cooldowns S) → direct_dials (upstream_proxies ES ED r s).1 ≡ direct_dials s
  unfolding upstream_proxies
  proxies_directs s = elim (Option-cases (upstream_loop ES ED r s r.mtproto_proxies).0) [
    | inl miss ↦ rw (miss, upstream_proxies) (upstream_loop_directs r.mtproto_proxies s)
    | inr (conn, hit) ↦ rw (hit, upstream_proxies) (upstream_loop_directs r.mtproto_proxies s)
  ]

  -- The fallback tiers, walked in any state, never dial the data centre itself.
  pub fallback_chain_directs :
      (s : Cooldowns S) (skip_cf : Bool)
      → direct_dials (fallback_chain ES ED r s skip_cf).1 ≡ direct_dials s
  unfolding fallback_chain
  fallback_chain_directs s true = proxies_directs s
  fallback_chain_directs s false = elim (Option-cases (cf_tiers ES ED r s).0) [
    | inl miss ↦ rw (miss, fallback_chain) (proxies_directs _ ∙ cf_tiers_directs s)
    | inr (up, hit) ↦ rw (hit, fallback_chain) (cf_tiers_directs s)
  ]

  reactive_directs :
      (s : Cooldowns S) (ip : S) (upgrade_timed_out : Bool)
      → direct_dials (reactive_fronting ES ED r s ip upgrade_timed_out).1 ≤ direct_dials s + 2
  unfolding reactive_fronting on_fronting_success fronting_failed
  reactive_directs s ip upgrade_timed_out =
      elim (Bool-cases
        (not upgrade_timed_out || active ED s.fronting_fail s.clock (r.dc, r.is_media))) [
          | inl no_try ↦ rw (no_try, reactive_fronting) (omega arith)
          | inr try ↦ elim (Option-cases r.fronting_domain) [
            | inl off ↦ rw (try, off, reactive_fronting) (omega arith)
            | inr (domain, on) ↦ elim (Option-cases (connect_ws ES ED r s ip (some domain)).0.ws) [
              | inl fails ↦
                  rw (try, on, fails, reactive_fronting)
                    (omega (arith, connect_directs s ip (some domain)))
              | inr (ws, works) ↦
                  rw (try, on, works, reactive_fronting)
                    (omega (arith, connect_directs s ip (some domain)))
            ]
          ]
        ]

  back_off_directs :
      (s : Cooldowns S) (ip : S) (attempt : WsAttempt W) (probing : Bool)
      → direct_dials (back_off ES ED r s ip attempt probing) ≡ direct_dials s
  unfolding back_off cool_down_ws cool_down_ip
  back_off_directs s ip attempt probing =
      elim (Bool-cases (attempt.connect_timed_out && not probing)) [
        | inl yes_ip ↦ rw (yes_ip, back_off) refl
        | inr no_ip ↦ rw (no_ip, back_off) refl
      ]

  sticky_directs :
      (t : Cooldowns S) (ip : S) (attempt : WsAttempt W) (probing : Bool)
      → direct_dials (after_sticky ES ED r t ip attempt probing).1 ≡ direct_dials t
  unfolding after_sticky on_fronting_success fronting_failed
  sticky_directs t ip attempt probing = elim (Option-cases attempt.ws) [
    | inl fails ↦ rw (fails, after_sticky) (back_off_directs _ ip attempt probing)
    | inr (ws, works) ↦ rw (works, after_sticky) refl
  ]

  plain_directs :
      (t : Cooldowns S) (ip : S) (attempt : WsAttempt W) (probing : Bool)
      → direct_dials (after_plain ES ED r t ip attempt probing).1 ≤ direct_dials t + 2
  unfolding after_plain
  plain_directs t ip attempt probing =
      let u = (reactive_fronting ES ED r t ip attempt.upgrade_timed_out).1 in
      let once = reactive_directs t ip attempt.upgrade_timed_out in
      elim (Option-cases attempt.ws) [
        | inl fails ↦
            elim (Option-cases (reactive_fronting ES ED r t ip attempt.upgrade_timed_out).0) [
              | inl not_fronted ↦
                  rw (fails, not_fronted, after_plain)
                    (omega (arith, back_off_directs u ip attempt probing, once))
              | inr (ws, fronted) ↦ rw (fails, fronted, after_plain) once
            ]
        | inr (ws, works) ↦ rw (works, after_plain) (omega arith)
      ]

  direct_directs :
      (s : Cooldowns S) (ip : S) → direct_dials (direct_ws ES ED r s ip).1 ≤ direct_dials s + 4
  unfolding direct_ws
  direct_directs s ip =
      let probing = active ED s.ws_fail s.clock (r.dc, r.is_media) in
      let sticky = if fronting_active ES ED r s then r.fronting_domain else none in
      let (attempt, t) = connect_ws ES ED r s ip sticky in
      elim (Option-cases sticky) [
        | inl off ↦
            rw (off, direct_ws)
              (omega (arith, plain_directs t ip attempt probing, connect_directs s ip sticky))
        | inr (domain, on) ↦
            rw (on, direct_ws)
              (omega (arith, sticky_directs t ip attempt probing, connect_directs s ip sticky))
      ]

  pool_directs :
      (s : Cooldowns S) (ip : S) (cooling : Bool)
      → direct_dials (from_pool ES ED r s ip cooling).1 ≤ direct_dials s + 4
  unfolding from_pool
  pool_directs s ip cooling = elim (Option-cases r.pooled) [
    | inr (ws, hit) ↦ rw (hit, from_pool) (omega arith)
    | inl miss ↦ elim (Option-cases (direct_ws ES ED r s ip).0) [
      | inr (ws, works) ↦ rw (miss, works, from_pool) (direct_directs s ip)
      | inl fails ↦
          rw (miss, fails, from_pool) (last_tier (direct_ws ES ED r s ip).1 (direct_directs s ip))
    ]
  ]
    where
      last_tier :
          (t : Cooldowns S)
          → direct_dials t ≤ direct_dials s + 4
          → direct_dials
              (if cooling
                then (tcp_last_resort ES ED r ip, t)
                else elim (fallback_chain ES ED r t r.cf_priority).0
                    as (λ _. Upstream S W × Cooldowns S) [
                      | some up ↦ (up, (fallback_chain ES ED r t r.cf_priority).1)
                      | none ↦
                          (tcp_last_resort ES ED r ip, (fallback_chain ES ED r t r.cf_priority).1)
                    ]).1
            ≤ direct_dials s + 4
      last_tier t h = elim (Bool-cases cooling) [
        | inl c ↦ rw c h
        | inr c ↦ elim (Option-cases (fallback_chain ES ED r t r.cf_priority).0) [
          | inl gone ↦ rw (c, gone) (omega (arith, h, fallback_chain_directs t r.cf_priority))
          | inr (up, hit) ↦ rw (c, hit) (omega (arith, h, fallback_chain_directs t r.cf_priority))
        ]
      ]

  pub cooldown_directs :
      (s : Cooldowns S) (ip : S) → direct_dials (from_cooldown ES ED r s ip).1 ≤ direct_dials s + 4
  unfolding from_cooldown
  cooldown_directs s ip =
      let t = (fallback_chain ES ED r s r.cf_priority).1 in
      elim (Bool-cases (active ES s.ip_fail s.clock ip && has_fallback ES ED r)) [
        | inr warm ↦ rw (warm, from_cooldown) (pool_directs s ip false)
        | inl cooling ↦ elim (Option-cases (fallback_chain ES ED r s r.cf_priority).0) [
          | inl gone ↦
              rw (cooling, gone, from_cooldown)
                (omega (arith, pool_directs t ip true, fallback_chain_directs s r.cf_priority))
          | inr (up, hit) ↦
              rw (cooling, hit, from_cooldown)
                (omega (arith, fallback_chain_directs s r.cf_priority))
        ]
      ]
