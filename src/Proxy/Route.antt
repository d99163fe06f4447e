-- ===== src/Proxy/Route.antt =====
-- rust/src/proxy.rs: the direct WebSocket with its fronting and its cooldowns, and the ladder.
use tg_ws_proxy.Base.{
  ℕ, ◌+◌, Bool, true, false, not, ◌&&◌, ◌||◌, Option, none, some, [], ◌∷◌, ◌++◌, ltb, if◌then◌else◌,
  KeyEq, List, Text, map,
}
use tg_ws_proxy.Proxy.Cooldown.{set, clear, active}
use tg_ws_proxy.Proxy.Bridge.{packets}
use tg_ws_proxy.Config.{websocket_dc}
use tg_ws_proxy.WsClient.Records.{ws_domains}
use tg_ws_proxy.WsClient.Connect.{
  WsAttempt, connected, redirect, failed, connect_timed_out, timed_out, connect_ws_for_dc,
}
use tg_ws_proxy.Proxy.Tiers.{
  Upstream, Cooldowns, Route, fallback_chain, has_fallback, cf_tiers, web_socket, tcp, direct,
}

module _ {ℓ} {S W : Type ℓ} (ES : KeyEq S) (ED : KeyEq (ℕ × Bool)) (r : Route S W) where
  -- `Runtime::fronting_active`, `activate_fronting` and `deactivate_fronting`.
  unfoldable pub fronting_active : Cooldowns S → Bool
  fronting_active s = elim s.fronting_until [ none ↦ false | some until ↦ ltb s.clock until ]

  unfoldable pub on_fronting_success : Cooldowns S → Cooldowns S
  unfolding clear
  on_fronting_success s = record s {
    fronting_fail = clear ED s.fronting_fail (r.dc, r.is_media);
    fronting_until = some (s.clock + r.timeouts.fronting_cooldown);
  }

  unfoldable pub fronting_failed : Cooldowns S → Cooldowns S
  unfolding set
  fronting_failed s = record s {
    fronting_fail =
        set ED s.fronting_fail s.clock (r.dc, r.is_media) r.timeouts.fronting_fail_cooldown;
  }

  unfoldable pub cool_down_ws : Cooldowns S → Bool → Cooldowns S
  unfolding set
  cool_down_ws s all_redirects = record s {
    ws_fail =
        set ED s.ws_fail s.clock (r.dc, r.is_media)
          (if all_redirects then r.timeouts.ws_redirect_cooldown else r.timeouts.ws_fail_cooldown);
  }

  unfoldable pub cool_down_ip : Cooldowns S → S → Cooldowns S
  unfolding set
  cool_down_ip s target_ip = record s {
    ip_fail = set ES s.ip_fail s.clock target_ip r.timeouts.ip_fail_cooldown;
  }

  -- The host names that the loop of `connect_ws_for_dc_with_outbound` dials, and how long it takes.
  unfoldable pub dialled_hosts : Option S → List Text → List Text
  dialled_hosts sni [] = []
  dialled_hosts sni (domain ∷ domains) =
      let rest = dialled_hosts sni domains in
      domain ∷ elim (r.ws_dial sni domain).0 as (λ _. List Text) [
        | connected ws ↦ []
        | redirect code ↦ rest
        | failed reason ↦ rest
        | connect_timed_out reason ↦ rest
        | timed_out ↦ rest
      ]

  unfoldable pub elapsed_on : Option S → List Text → ℕ
  elapsed_on sni [] = 0
  elapsed_on sni (domain ∷ domains) = (r.ws_dial sni domain).1 + elapsed_on sni domains

  unfoldable pub connect_ws : Cooldowns S → S → Option S → WsAttempt W × Cooldowns S
  unfolding dialled_hosts elapsed_on connect_ws_for_dc ws_domains websocket_dc
  connect_ws s target_ip sni =
      let dc = websocket_dc r.dc in
      let hosts = dialled_hosts sni (ws_domains dc r.is_media) in
      (
        connect_ws_for_dc (λ domain. (r.ws_dial sni domain).0) dc r.is_media,
        record s {
          clock = s.clock + elapsed_on sni hosts;
          dialled = s.dialled ++ map (direct target_ip sni) hosts;
        },
      )

  unfoldable pub reactive_fronting : Cooldowns S → S → Bool → Option W × Cooldowns S
  unfolding active
  reactive_fronting s target_ip upgrade_timed_out =
      if not upgrade_timed_out || active ED s.fronting_fail s.clock (r.dc, r.is_media)
      then (none, s)
      else elim r.fronting_domain [
        | none ↦ (none, s)
        | some domain ↦
            let (attempt, t) = connect_ws s target_ip (some domain) in
            elim attempt.ws [
              | some ws ↦ (some ws, on_fronting_success t)
              | none ↦ (none, fronting_failed t)
            ]
      ]

  -- The end of `direct_ws` where nothing connected.
  unfoldable pub back_off : Cooldowns S → S → WsAttempt W → Bool → Cooldowns S
  back_off s target_ip attempt probing =
      let t = cool_down_ws s attempt.all_redirects in
      if attempt.connect_timed_out && not probing then cool_down_ip t target_ip else t

  -- `direct_ws` behind a connect that was fronted because the sticky window is open.
  unfoldable pub after_sticky : Cooldowns S → S → WsAttempt W → Bool → Option W × Cooldowns S
  after_sticky t target_ip attempt probing = elim attempt.ws [
    | some ws ↦ (some ws, on_fronting_success t)
    | none ↦ (
      none,
      back_off (fronting_failed (record t { fronting_until = none })) target_ip attempt probing,
    )
  ]

  -- `direct_ws` behind a connect with Telegram's own name.
  unfoldable pub after_plain : Cooldowns S → S → WsAttempt W → Bool → Option W × Cooldowns S
  unfolding clear
  after_plain t target_ip attempt probing =
      let (fronted, u) = reactive_fronting t target_ip attempt.upgrade_timed_out in
      elim attempt.ws [
        | some ws ↦ (
          some ws,
          record t {
            ws_fail = clear ED t.ws_fail (r.dc, r.is_media);
            ip_fail = clear ES t.ip_fail target_ip;
          },
        )
        | none ↦ elim fronted [
          | some ws ↦ (some ws, u)
          | none ↦ (none, back_off u target_ip attempt probing)
        ]
      ]

  unfoldable pub direct_ws : Cooldowns S → S → Option W × Cooldowns S
  unfolding active
  direct_ws s target_ip =
      let sticky = if fronting_active s then r.fronting_domain else none in
      let probing = active ED s.ws_fail s.clock (r.dc, r.is_media) in
      let (attempt, t) = connect_ws s target_ip sticky in
      elim sticky [
        | some domain ↦ after_sticky t target_ip attempt probing
        | none ↦ after_plain t target_ip attempt probing
      ]

  unfoldable pub tcp_last_resort : S → Upstream S W
  tcp_last_resort target_ip = elim r.fallback_ip [ none ↦ tcp target_ip | some ip ↦ tcp ip ]

  -- The ladder from the pool on; `ip_cooling` says that every fallback was tried before.
  unfoldable pub from_pool : Cooldowns S → S → Bool → Upstream S W × Cooldowns S
  from_pool s target_ip ip_cooling = elim r.pooled [
    | some ws ↦ (web_socket ws packets, s)
    | none ↦
        let (ws, t) = direct_ws s target_ip in
        elim ws [
          | some ws ↦ (web_socket ws packets, t)
          | none ↦
              let (up, u) = fallback_chain ES ED r t r.cf_priority in
              let chained : Upstream S W × Cooldowns S = elim up [
                | some up ↦ (up, u)
                | none ↦ (tcp_last_resort target_ip, u)
              ] in
              if ip_cooling then (tcp_last_resort target_ip, t) else chained
        ]
  ]

  -- The ladder behind `--cf-priority`.
  unfoldable pub from_cooldown : Cooldowns S → S → Upstream S W × Cooldowns S
  unfolding active
  from_cooldown s target_ip =
      let ip_cooling = active ES s.ip_fail s.clock target_ip && has_fallback ES ED r in
      let (up, t) = fallback_chain ES ED r s r.cf_priority in
      let stepped_over : Upstream S W × Cooldowns S = elim up [
        | some up ↦ (up, t)
        | none ↦ from_pool t target_ip true
      ] in
      if ip_cooling then stepped_over else from_pool s target_ip false

  unfoldable pub select_upstream : Cooldowns S → Option S → Option (Upstream S W) × Cooldowns S
  select_upstream s none = elim r.fallback_ip [
    | none ↦ (none, s)
    | some fallback ↦
        let (up, t) = fallback_chain ES ED r s false in
        elim up [ some up ↦ (some up, t) | none ↦ (some (tcp fallback), t) ]
  ]
  select_upstream s (some target_ip) =
      let (up, t) = cf_tiers ES ED r s in
      let first : Option (Upstream S W) × Cooldowns S = elim up [
        | some up ↦ (some up, t)
        | none ↦ (let (up, u) = from_cooldown t target_ip in (some up, u))
      ] in
      let rest = from_cooldown s target_ip in if r.cf_priority then first else (some rest.0, rest.1)
