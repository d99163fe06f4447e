-- ===== src/Examples/Proxy.antt =====
-- The theorems of rust/src/proxy.rs at concrete inputs. Addresses and domains are numbers here.
use tg_ws_proxy.Base.{
  ℕ, ◌+◌, ◌^◌, get, ◌≤◌, ◌≡◌, ◌↔◌, refl, true, false, Option, some, none, List, [], ◌∷◌, take, drop,
  replicate, concat, All, arith, ltb, if◌then◌else◌,
}
use tg_ws_proxy.Config.{dc_eq, dc_key_eq}
use tg_ws_proxy.Crypto.Cipher.{crypt, xor_from}
use tg_ws_proxy.Crypto.Tag.{abridged}
use tg_ws_proxy.Crypto.Session.{build_connection_ciphers, ConnectionCiphers}
use tg_ws_proxy.Splitter.Packets.{Packet, IsPacket}
use tg_ws_proxy.Splitter.Cuts.{encode_all, lengths, cut}
use tg_ws_proxy.Proxy.Cooldown.{set, clear, active, lookup, active-set-clear}
use tg_ws_proxy.Proxy.Bridge.{Upload, bridge_ws, packets, tunnel}
use tg_ws_proxy.Proxy.EndToEnd.{bridge_ws-packets, bridge_ws-tunnel}
use tg_ws_proxy.WsClient.Connect.{WsConnectResult}
use tg_ws_proxy.Proxy.Tiers.{
  Cooldowns, Route, mtproto, fallback_chain, has_fallback, cf_tiers, cf_worker, cf_proxy,
  upstream_loop, upstream_proxies,
}
use tg_ws_proxy.Proxy.Route.{select_upstream}
use tg_ws_proxy.Proxy.Dials.{direct_dials}
use tg_ws_proxy.Proxy.Ladder.{
  select_upstream-directs, select_upstream-routes, select_upstream-cooling,
}
use tg_ws_proxy.Examples.Toy.{toy}

abbrev relay : List ℕ
relay = replicate 64 0x21

abbrev two_packets : List Packet
two_packets =
    (record { quick_ack = false; payload = 1 ∷ 2 ∷ 3 ∷ 4 ∷ [] })
    ∷ (record { quick_ack = true; payload = 5 ∷ 6 ∷ 7 ∷ 8 ∷ [] })
    ∷ []

two_packets_fit : All (IsPacket abridged) two_packets
two_packets_fit = ((omega arith, refl, omega arith), ((omega arith, refl, omega arith), tt))

abbrev ciphers : ConnectionCiphers
ciphers = build_connection_ciphers toy [] [] relay

-- The client's bytes in two reads that do not end where the packets end.
abbrev sent : List ℕ
sent = crypt toy ciphers.clt_dec (encode_all abridged two_packets)

abbrev reads : List (List ℕ)
reads = take 7 sent ∷ drop 7 sent ∷ []

bridge_ws-packets_example :
    (end : Upload) × (bridge_ws toy packets relay abridged ciphers none reads ≡ some end)
    × (end.sent
        ≡ relay
          ∷ cut
              (lengths abridged two_packets)
              (crypt toy ciphers.tg_enc (encode_all abridged two_packets)))
    × (end.closed ≡ true)
unfolding crypt xor_from build_connection_ciphers
bridge_ws-packets_example =
    bridge_ws-packets toy [] [] relay abridged two_packets reads two_packets_fit (refl, (refl, tt))
      refl

abbrev stream : List ℕ
stream = 1 ∷ 2 ∷ 3 ∷ []

bridge_ws-tunnel_example :
    (end : Upload) × (messages : List (List ℕ)) × (bridge_ws toy tunnel relay abridged ciphers none
        (crypt toy ciphers.clt_dec stream ∷ [])
      ≡ some end)
    × (end.sent ≡ relay ∷ messages)
    × (concat messages ≡ crypt toy ciphers.tg_enc stream)
    × (end.closed ≡ true)
unfolding crypt xor_from build_connection_ciphers
bridge_ws-tunnel_example =
    bridge_ws-tunnel toy [] [] relay abridged stream (crypt toy ciphers.clt_dec stream ∷ [])
      (refl, tt) refl

active-set-clear_example :
    (active dc_eq (set dc_eq none 100 2 60) 130 2
      ≡ (if dc_eq.same 2 2 then ltb 130 (100 + 60) else active dc_eq none 130 2))
    × (active dc_eq (clear dc_eq none 2) 130 2
        ≡ (if dc_eq.same 2 2 then false else active dc_eq none 130 2))
active-set-clear_example = active-set-clear dc_eq none 100 130 60 2 2

-- A walk for DC 2 whose direct connects time out, and which has one upstream proxy that answers.
abbrev route : Route ℕ ℕ
route = record {
  dc = 2;
  is_media = false;
  timeouts = record {
    ws_fail_cooldown = 60;
    ws_redirect_cooldown = 300;
    ip_fail_cooldown = 3600;
    upstream_fail_cooldown = 60;
    cf_fail_cooldown = 60;
    fronting_fail_cooldown = 60;
    fronting_cooldown = 1800;
  };
  cf_priority = false;
  cf_balance = false;
  cf_worker_domains = [];
  cf_domains = [];
  mtproto_proxies = 77 ∷ [];
  fronting_domain = none;
  fallback_ip = some 51;
  word = 2 ^ 64;
  pooled = none;
  worker_pooled = none;
  proxy_pooled = none;
  worker_connect = λ d. (none, 10);
  proxy_connect = λ ds. (none, 10);
  upstream_connect = λ k. (some k, 1);
  ws_dial = λ sni host. (WsConnectResult.connect_timed_out [], 10);
}

-- The target 220 is in its cooldown until 5000.
abbrev state : Cooldowns ℕ
state = record {
  ws_fail = none;
  ip_fail = some ((220, 5000) ∷ []);
  upstream_fail = none;
  cf_worker_fail = none;
  fronting_fail = none;
  fronting_until = none;
  cf_balance_counter = 0;
  cf_worker_balance_counter = 0;
  clock = 100;
  dialled = [];
}

select_upstream-directs_example :
    direct_dials (select_upstream dc_eq dc_key_eq route state (some 220)).1 ≤ direct_dials state + 4
select_upstream-directs_example = select_upstream-directs dc_eq dc_key_eq route state (some 220)

select_upstream-routes_example :
    ((select_upstream dc_eq dc_key_eq route state none).0 ≡ none)
    ↔ ((◌≡◌ {A = Option ℕ} none none) × (route.fallback_ip ≡ none))
select_upstream-routes_example = select_upstream-routes dc_eq dc_key_eq route state none

target_cooling : active dc_eq state.ip_fail state.clock 220 ≡ true
unfolding active lookup get
target_cooling = refl

proxy_configured : has_fallback dc_eq dc_key_eq route ≡ true
unfolding has_fallback
proxy_configured = refl

proxy_answers : (fallback_chain dc_eq dc_key_eq route state false).0 ≡ some (mtproto 77)
unfolding fallback_chain cf_tiers cf_worker cf_proxy upstream_proxies upstream_loop active lookup
proxy_answers = refl

select_upstream-cooling_example :
    ((select_upstream dc_eq dc_key_eq route state (some 220)).0 ≡ some (mtproto 77))
    × (direct_dials (select_upstream dc_eq dc_key_eq route state (some 220)).1 ≡ direct_dials state)
select_upstream-cooling_example =
    select_upstream-cooling dc_eq dc_key_eq route state 220 (mtproto 77) refl target_cooling
      proxy_configured proxy_answers
