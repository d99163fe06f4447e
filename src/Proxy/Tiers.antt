-- ===== src/Proxy/Tiers.antt =====
-- rust/src/proxy.rs: the fallback tiers. Addresses, domains and proxy keys are strings of one type
-- `S` with its equality. What a connect brings, and how long it takes, are arguments: no tier
-- is asked twice for the same thing on one walk. The state carries the process-wide maps, counters
-- and the clock, and lists what was dialled.
use tg_ws_proxy.Base.{
  ℕ, ◌+◌, Bool, true, false, not, ◌||◌, Option, none, some, List, [], ◌∷◌, ◌++◌, is_empty,
  if◌then◌else◌, KeyEq, Text,
}
use tg_ws_proxy.WsClient.Connect.{WsConnectResult}
use tg_ws_proxy.Proxy.Cooldown.{set, clear, active}
use tg_ws_proxy.Proxy.Balance.{balance_order, balanced}
use tg_ws_proxy.Proxy.Bridge.{WsFraming, packets, tunnel}

pub record Timeouts : Type 0 where
  pub ws_fail_cooldown : ℕ
  pub ws_redirect_cooldown : ℕ
  pub ip_fail_cooldown : ℕ
  pub upstream_fail_cooldown : ℕ
  pub cf_fail_cooldown : ℕ
  pub fronting_fail_cooldown : ℕ
  pub fronting_cooldown : ℕ

pub data Upstream {ℓ} (S W : Type ℓ) : Type ℓ where
  web_socket : W → WsFraming → Upstream S W
  mtproto : W → Upstream S W
  tcp : S → Upstream S W

-- What is dialled: a Worker, the Cloudflare domains, an upstream proxy, and the data centre itself,
-- with the SNI that is sent in place of its own and for one of its host names.
pub data Dial {ℓ} (S : Type ℓ) : Type ℓ where
  worker : S → Dial S
  proxy : List S → Dial S
  upstream : S → Dial S
  direct : S → Option S → Text → Dial S

pub record Cooldowns {ℓ} (S : Type ℓ) : Type ℓ where
  pub ws_fail : Option (List ((ℕ × Bool) × ℕ))
  pub ip_fail : Option (List (S × ℕ))
  pub upstream_fail : Option (List (S × ℕ))
  pub cf_worker_fail : Option (List (S × ℕ))
  pub fronting_fail : Option (List ((ℕ × Bool) × ℕ))
  pub fronting_until : Option ℕ
  pub cf_balance_counter : ℕ
  pub cf_worker_balance_counter : ℕ
  pub clock : ℕ
  pub dialled : List (Dial S)

pub record Route {ℓ} (S W : Type ℓ) : Type ℓ where
  pub dc : ℕ
  pub is_media : Bool
  pub timeouts : Timeouts
  pub cf_priority : Bool
  pub cf_balance : Bool
  pub cf_worker_domains : List S
  pub cf_domains : List S
  pub mtproto_proxies : List S
  pub fronting_domain : Option S
  pub fallback_ip : Option S
  -- `usize::MAX + 1`, for the balance counters.
  pub word : ℕ
  -- What the pool holds, and what a dial brings and takes.
  pub pooled : Option W
  pub worker_pooled : Option W
  pub proxy_pooled : Option W
  pub worker_connect : S → Option W × ℕ
  pub proxy_connect : List S → Option W × ℕ
  pub upstream_connect : S → Option W × ℕ
  -- Of the data centre itself, with this SNI and host name.
  pub ws_dial : Option S → Text → WsConnectResult W × ℕ

module _ {ℓ} {S W : Type ℓ} (ES : KeyEq S) (ED : KeyEq (ℕ × Bool)) (r : Route S W) where
  abbrev pub dial : Cooldowns S → Dial S → ℕ → Cooldowns S
  dial s d elapsed = record s { clock = s.clock + elapsed; dialled = s.dialled ++ (d ∷ []) }

  abbrev pub key : ℕ × Bool
  key = (r.dc, r.is_media)

  -- `cf_prefetch` off a connection that worked: with balancing on, the spare is opened through the
  -- next domain of the rotation, which moves the counter.
  unfoldable pub next_counter : List S → ℕ → ℕ
  next_counter [] counter = counter
  next_counter (d ∷ rotation) counter =
      if r.cf_balance then (balanced d r.word (d ∷ rotation) counter).1 else counter

  unfoldable pub cf_worker_loop : Cooldowns S → List S → Option W × Cooldowns S
  unfolding next_counter active set clear
  cf_worker_loop s [] = (none, s)
  cf_worker_loop s (domain ∷ domains) =
      let (ws, elapsed) = r.worker_connect domain in
      let t = dial s (worker domain) elapsed in
      if active ES s.cf_worker_fail s.clock domain then cf_worker_loop s domains else elim ws [
        | some ws ↦ (
          some ws,
          record t {
            cf_worker_fail = clear ES t.cf_worker_fail domain;
            cf_worker_balance_counter =
                next_counter r.cf_worker_domains t.cf_worker_balance_counter;
          },
        )
        | none ↦
            cf_worker_loop
              (record t {
                cf_worker_fail = set ES t.cf_worker_fail t.clock domain r.timeouts.cf_fail_cooldown;
              })
              domains
      ]

  -- The rotation of a list of domains, and its counter afterwards.
  unfoldable pub order_of : List S → ℕ → List S × ℕ
  unfolding balance_order
  order_of [] counter = ([], counter)
  order_of (d ∷ domains) counter = balance_order d r.word (d ∷ domains) r.cf_balance counter

  unfoldable pub cf_worker : Cooldowns S → Option W × Cooldowns S
  cf_worker s =
      let (workers, counter) = order_of r.cf_worker_domains s.cf_worker_balance_counter in
      if is_empty r.cf_worker_domains then (none, s) else elim r.worker_pooled [
        | some ws ↦ (some ws, s)
        | none ↦ cf_worker_loop (record s { cf_worker_balance_counter = counter }) workers
      ]

  unfoldable pub cf_proxy : Cooldowns S → Option W × Cooldowns S
  cf_proxy s =
      let (domains, counter) = order_of r.cf_domains s.cf_balance_counter in
      let (ws, elapsed) = r.proxy_connect domains in
      let t = record s { cf_balance_counter = counter } in
      let u = dial t (proxy domains) elapsed in
      if is_empty r.cf_domains then (none, s) else elim r.proxy_pooled [
        | some ws ↦ (some ws, t)
        | none ↦ elim ws [
          | some ws ↦ (
            some ws,
            record u { cf_balance_counter = next_counter r.cf_domains u.cf_balance_counter },
          )
          | none ↦ (none, u)
        ]
      ]

  unfoldable pub cf_tiers : Cooldowns S → Option (Upstream S W) × Cooldowns S
  cf_tiers s =
      let (ws, s) = cf_worker s in
      elim ws [
        | some ws ↦ (some (web_socket ws tunnel), s)
        | none ↦
            let (ws, s) = cf_proxy s in
            elim ws [ some ws ↦ (some (web_socket ws packets), s) | none ↦ (none, s) ]
      ]

  unfoldable pub upstream_loop : Cooldowns S → List S → Option W × Cooldowns S
  unfolding active set clear
  upstream_loop s [] = (none, s)
  upstream_loop s (k ∷ proxies) =
      let (conn, elapsed) = r.upstream_connect k in
      let t = dial s (upstream k) elapsed in
      if active ES s.upstream_fail s.clock k then upstream_loop s proxies else elim conn [
        | some conn ↦ (some conn, record t { upstream_fail = clear ES t.upstream_fail k })
        | none ↦
            upstream_loop
              (record t {
                upstream_fail = set ES t.upstream_fail t.clock k r.timeouts.upstream_fail_cooldown;
              })
              proxies
      ]

  unfoldable pub upstream_proxies : Cooldowns S → Option (Upstream S W) × Cooldowns S
  unfolding upstream_loop
  upstream_proxies s =
      let (conn, s) = upstream_loop s r.mtproto_proxies in
      elim conn [ some conn ↦ (some (mtproto conn), s) | none ↦ (none, s) ]

  unfoldable pub fallback_chain : Cooldowns S → Bool → Option (Upstream S W) × Cooldowns S
  fallback_chain s true = upstream_proxies s
  fallback_chain s false =
      let (up, s) = cf_tiers s in elim up [ some up ↦ (some up, s) | none ↦ upstream_proxies s ]

  unfoldable pub has_fallback : Bool
  has_fallback =
      not (is_empty r.cf_worker_domains)
      || (not (is_empty r.cf_domains) || not (is_empty r.mtproto_proxies))
