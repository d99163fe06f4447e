-- ===== src/Examples/WsClient.antt =====
-- The theorems of rust/src/ws_client.rs at concrete inputs; a connection is a number.
use tg_ws_proxy.Base.{ℕ, ◌≡◌, true, false, some, [], ◌∷◌, map, codes, Text, bytes_eq, if◌then◌else◌}
use tg_ws_proxy.WsClient.Records.{ws_domains, cf_ws_domains}
use tg_ws_proxy.WsClient.Connect.{
  WsConnectResult, redirect, failed, timed_out, CfWalk, connect_ws_for_dc, connect_cf_ws_for_dc,
}
use tg_ws_proxy.WsClient.Walk.{IsWalked, connect_cf_ws_for_dc-IsWalked}
use tg_ws_proxy.WsClient.Flags.{first_connected, summary, connect_ws_for_dc-summary}

abbrev absent : ℕ → Text → WsConnectResult ℕ
absent n domain = failed (codes "TCP connect: No such host is known")

connect_cf_ws_for_dc-IsWalked_example :
    (walk : CfWalk ℕ) × (connect_cf_ws_for_dc absent 2 (codes "a.io" ∷ []) true ≡ some walk)
    × IsWalked absent (cf_ws_domains 2 (codes "a.io" ∷ []) true) walk
connect_cf_ws_for_dc-IsWalked_example =
    connect_cf_ws_for_dc-IsWalked absent 2 (codes "a.io" ∷ []) true

-- The first host name is redirected, and the second stalls in its handshake.
abbrev stalling : Text → WsConnectResult ℕ
stalling domain =
    if bytes_eq domain (codes "kws2.web.telegram.org") then redirect 302 else timed_out

connect_ws_for_dc-summary_example :
    connect_ws_for_dc stalling 203 false
    ≡ summary
        (first_connected (map stalling (ws_domains 203 false)))
        (map stalling (ws_domains 203 false))
connect_ws_for_dc-summary_example = connect_ws_for_dc-summary stalling 203 false
