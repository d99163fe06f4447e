-- ===== src/WsClient/Flags.antt =====
-- rust/src/ws_client.rs, `connect_ws_for_dc_with_outbound`: the flags of an attempt.
use tg_ws_proxy.Base.{
  ℕ, ◌≡◌, refl, Bool, true, false, ◌&&◌, ◌||◌, Option, none, some, List, [], ◌∷◌, map, Text, ◌∙◌,
  arith,
}
use tg_ws_proxy.WsClient.Records.{ws_domains}
use tg_ws_proxy.WsClient.Connect.{
  WsConnectResult, connected, redirect, failed, connect_timed_out, timed_out, WsAttempt,
  try_domains, connect_ws_for_dc,
}

module _ {ℓ} {W : Type ℓ} where
  abbrev pub is_redirect : WsConnectResult W → Bool
  is_redirect (redirect code) = true
  is_redirect _ = false

  abbrev pub is_upgrade_timeout : WsConnectResult W → Bool
  is_upgrade_timeout timed_out = true
  is_upgrade_timeout _ = false

  abbrev pub is_connect_timeout : WsConnectResult W → Bool
  is_connect_timeout (connect_timed_out reason) = true
  is_connect_timeout _ = false

  abbrev pub all : (WsConnectResult W → Bool) → List (WsConnectResult W) → Bool
  all p [] = true
  all p (r ∷ rs) = p r && all p rs

  abbrev pub any : (WsConnectResult W → Bool) → List (WsConnectResult W) → Bool
  any p [] = false
  any p (r ∷ rs) = p r || any p rs

  abbrev pub first_connected : List (WsConnectResult W) → Option W
  first_connected [] = none
  first_connected (connected ws ∷ rs) = some ws
  first_connected (redirect code ∷ rs) = first_connected rs
  first_connected (failed reason ∷ rs) = first_connected rs
  first_connected (connect_timed_out reason ∷ rs) = first_connected rs
  first_connected (timed_out ∷ rs) = first_connected rs

  -- What the results of the attempts say of the data centre.
  abbrev pub summary : Option W → List (WsConnectResult W) → WsAttempt W
  summary (some ws) rs = record {
    ws = some ws;
    all_redirects = false;
    upgrade_timed_out = false;
    connect_timed_out = false;
  }
  summary none rs = record {
    ws = none;
    all_redirects = all is_redirect rs;
    upgrade_timed_out = any is_upgrade_timeout rs;
    connect_timed_out = any is_connect_timeout rs;
  }

  -- The same behind attempts that left these flags.
  abbrev later : Bool → Bool → Bool → Option W → List (WsConnectResult W) → WsAttempt W
  later r u c (some ws) rs = summary (some ws) rs
  later r u c none rs = record {
    ws = none;
    all_redirects = r && all is_redirect rs;
    upgrade_timed_out = u || any is_upgrade_timeout rs;
    connect_timed_out = c || any is_connect_timeout rs;
  }

  later-cons :
      (r u c r' u' c' : Bool) (result : WsConnectResult W) (o : Option W)
      (rs : List (WsConnectResult W))
      → r' ≡ (r && is_redirect result)
      → u' ≡ (u || is_upgrade_timeout result)
      → c' ≡ (c || is_connect_timeout result)
      → later r' u' c' o rs ≡ later r u c o (result ∷ rs)
  later-cons r u c r' u' c' result (some ws) rs e f g = refl
  later-cons r u c r' u' c' result none rs e f g = ground arith

  try_domains-later :
      (dial : Text → WsConnectResult W) (domains : List Text) (r u c : Bool)
      → try_domains dial domains r u c
        ≡ later r u c (first_connected (map dial domains)) (map dial domains)
  unfolding try_domains
  try_domains-later dial [] r u c = ground arith
  try_domains-later dial (domain ∷ domains) r u c =
      step (dial domain) refl (try_domains-later dial domains)
    where
      step :
          (result : WsConnectResult W)
          → dial domain ≡ result
          → ((r u c : Bool)
              → try_domains dial domains r u c
                ≡ later r u c (first_connected (map dial domains)) (map dial domains))
          → try_domains dial (domain ∷ domains) r u c
            ≡ later r u c
                (first_connected (map dial (domain ∷ domains)))
                (map dial (domain ∷ domains))
      step (connected ws) e go = rw (e, try_domains) refl
      step (redirect code) e go =
          rw (e, try_domains)
            (go r u c
              ∙ later-cons r u c r u c (redirect code) _ _ (ground arith) (ground arith)
                  (ground arith))
      step (failed reason) e go =
          rw (e, try_domains)
            (go false u c
              ∙ later-cons r u c false u c (failed reason) _ _ (ground arith) (ground arith)
                  (ground arith))
      step (connect_timed_out reason) e go =
          rw (e, try_domains)
            (go false u true
              ∙ later-cons r u c false u true (connect_timed_out reason) _ _ (ground arith)
                  (ground arith) (ground arith))
      step timed_out e go =
          rw (e, try_domains)
            (go false true c
              ∙ later-cons r u c false true c timed_out _ _ (ground arith) (ground arith)
                  (ground arith))

  -- The walk over a data centre's own host names returns the first connection; without one, its
  -- flags say exactly whether all attempts were redirects, whether a handshake timed out, and
  -- whether a TCP connect did.
  pub connect_ws_for_dc-summary :
      (dial : Text → WsConnectResult W) (dc : ℕ) (is_media : Bool)
      → connect_ws_for_dc dial dc is_media
        ≡ summary
            (first_connected (map dial (ws_domains dc is_media)))
            (map dial (ws_domains dc is_media))
  unfolding connect_ws_for_dc
  connect_ws_for_dc-summary dial dc is_media =
      try_domains-later dial (ws_domains dc is_media) true false false ∙ plain _
    where
      plain :
          (o : Option W)
          → later true false false o (map dial (ws_domains dc is_media))
            ≡ summary o (map dial (ws_domains dc is_media))
      plain none = refl
      plain (some ws) = refl
