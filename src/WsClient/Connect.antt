-- ===== src/WsClient/Connect.antt =====
-- rust/src/ws_client.rs: one attempt to connect, and the walks over the records of a data centre.
-- What the network does is an argument: the TCP connect, and the TLS handshake with the upgrade.
-- A walk is told what its n-th attempt brings, and lists the hosts that it dialled.
use tg_ws_proxy.Base.{
  ℕ, zero, suc, ◌+◌, ◌≡◌, refl, Bool, true, false, ◌||◌, Option, none, some, List, [], ◌∷◌, ◌++◌,
  length, codes, decimal, digits, Text, ◌==◌, if◌then◌else◌,
}
use tg_ws_proxy.WsClient.Records.{ws_domains, cf_ws_domains, is_dns_not_found}
use tg_ws_proxy.WsClient.Attempts.{
  CfAttempt, CfAttempts, new, next_domain, note_timed_out, retry_base_of,
}

pub data WsConnectResult {ℓ} (W : Type ℓ) : Type ℓ where
  connected : W → WsConnectResult W
  redirect : ℕ → WsConnectResult W
  failed : Text → WsConnectResult W
  connect_timed_out : Text → WsConnectResult W
  timed_out : WsConnectResult W

pub record WsAttempt {ℓ} (W : Type ℓ) : Type ℓ where
  pub ws : Option W
  pub all_redirects : Bool
  pub upgrade_timed_out : Bool
  pub connect_timed_out : Bool

-- What `outbound.connect` brings.
pub data TcpConnect : Type 0 where
  stream : TcpConnect
  refused : Bool → Text → TcpConnect

-- What the TLS handshake and the upgrade bring within the timeout.
pub data Upgrade {ℓ} (W : Type ℓ) : Type ℓ where
  answered : W → ℕ → Upgrade W
  http : ℕ → Upgrade W
  broken : Text → Upgrade W
  elapsed : Upgrade W

-- What `connect_cf_ws_for_dc_with_outbound` returns, and the records dialled, the last first.
pub record CfWalk {ℓ} (W : Type ℓ) : Type ℓ where
  pub ws : Option W
  pub answered_by : Option Text
  pub all_redirects : Bool
  pub dialled : List Text

pub data CfTurn {ℓ} (W : Type ℓ) : Type ℓ where
  ends : CfWalk W → CfTurn W
  goes_on : CfAttempts → Bool → List Text → CfTurn W

unfoldable pub is_redirect_status : ℕ → Bool
is_redirect_status status =
    status == 301 || status == 302 || status == 303 || status == 307 || status == 308

-- The bytes of the records in the queue, and one for each: more than the rounds.
abbrev pub room : List CfAttempt → ℕ
room [] = 0
room (attempt ∷ queue) = suc (length attempt.domain) + room queue

module _ {ℓ} {W : Type ℓ} where
  unfoldable pub upgrade_result : Upgrade W → WsConnectResult W
  unfolding is_redirect_status decimal digits
  upgrade_result (answered ws status) =
      if status == 101
      then connected ws
      else if is_redirect_status status
      then redirect status
      else failed (codes "unexpected HTTP status " ++ decimal status)
  upgrade_result (http status) =
      if is_redirect_status status
      then redirect status
      else failed (codes "HTTP " ++ (decimal status ++ codes " from server"))
  upgrade_result (broken e) = failed e
  upgrade_result elapsed = timed_out

  unfoldable pub connect_ws_with_path : TcpConnect → Option Text → Upgrade W → WsConnectResult W
  unfolding upgrade_result
  connect_ws_with_path (refused true reason) bad_url upgrade = connect_timed_out reason
  connect_ws_with_path (refused false reason) bad_url upgrade = failed reason
  connect_ws_with_path stream (some e) upgrade = failed (codes "bad URL: " ++ e)
  connect_ws_with_path stream none upgrade = upgrade_result upgrade

  -- The loop of `connect_ws_for_dc_with_outbound`.
  unfoldable pub try_domains :
      (Text → WsConnectResult W) → List Text → Bool → Bool → Bool → WsAttempt W
  try_domains dial [] redirects upgrades connects = record {
    ws = none;
    all_redirects = redirects;
    upgrade_timed_out = upgrades;
    connect_timed_out = connects;
  }
  try_domains dial (domain ∷ domains) redirects upgrades connects = elim (dial domain) [
    | connected ws ↦ record {
      ws = some ws;
      all_redirects = false;
      upgrade_timed_out = false;
      connect_timed_out = false;
    }
    | redirect code ↦ try_domains dial domains redirects upgrades connects
    | failed reason ↦ try_domains dial domains false upgrades connects
    | connect_timed_out reason ↦ try_domains dial domains false upgrades true
    | timed_out ↦ try_domains dial domains false true connects
  ]

  unfoldable pub connect_ws_for_dc : (Text → WsConnectResult W) → ℕ → Bool → WsAttempt W
  unfolding try_domains ws_domains
  connect_ws_for_dc dial dc is_media = try_domains dial (ws_domains dc is_media) true false false

  -- Behind a failed attempt that was not in DNS.
  unfoldable pub missing : Option Text × CfAttempts → Bool → List Text → CfTurn W
  missing (some base, attempts) all_redirects dialled = goes_on attempts all_redirects dialled
  missing (none, attempts) all_redirects dialled = goes_on attempts false dialled

  -- One round of the loop on what `next_domain` gave.
  unfoldable pub cf_turn :
      (ℕ → Text → WsConnectResult W) → Option Text × CfAttempts → Bool → List Text → CfTurn W
  unfolding missing is_dns_not_found retry_base_of note_timed_out
  cf_turn dial (none, attempts) all_redirects dialled =
      ends
        (record { ws = none; answered_by = none; all_redirects = all_redirects; dialled = dialled })
  cf_turn dial (some domain, attempts) all_redirects dialled = elim (dial (length dialled) domain) [
    | connected ws ↦ ends (record {
      ws = some ws;
      answered_by = some domain;
      all_redirects = false;
      dialled = domain ∷ dialled;
    })
    | redirect code ↦ goes_on attempts all_redirects (domain ∷ dialled)
    | failed reason ↦
        if is_dns_not_found reason
        then missing (retry_base_of attempts domain) all_redirects (domain ∷ dialled)
        else goes_on attempts false (domain ∷ dialled)
    | connect_timed_out reason ↦ goes_on (note_timed_out attempts domain) false (domain ∷ dialled)
    | timed_out ↦ goes_on (note_timed_out attempts domain) false (domain ∷ dialled)
  ]

  -- `none` means that the fuel ran out.
  unfoldable pub cf_loop :
      ℕ → (ℕ → Text → WsConnectResult W) → CfAttempts → Bool → List Text → Option (CfWalk W)
  unfolding cf_turn next_domain
  cf_loop zero dial attempts all_redirects dialled = none
  cf_loop (suc fuel) dial attempts all_redirects dialled =
      elim (cf_turn dial (next_domain attempts) all_redirects dialled) [
        | ends walk ↦ some walk
        | goes_on attempts all_redirects dialled ↦ cf_loop fuel dial attempts all_redirects dialled
      ]

  unfoldable pub connect_cf_ws_for_dc :
      (ℕ → Text → WsConnectResult W) → ℕ → List Text → Bool → Option (CfWalk W)
  unfolding cf_loop new cf_ws_domains
  connect_cf_ws_for_dc dial dc cf_domains is_media =
      let attempts = new (cf_ws_domains dc cf_domains is_media) in
      cf_loop (suc (room attempts.queue)) dial attempts true []

abbrev absent : ℕ → Text → WsConnectResult ℕ
absent n domain = failed (codes "TCP connect: No such host is known")

-- Media records of a zone that has none: the base record is dialled twice.
base_dialled_twice :
    connect_cf_ws_for_dc absent 2 (codes "a.io" ∷ []) true
    ≡ some (record {
      ws = none;
      answered_by = none;
      all_redirects = false;
      dialled = codes "kws2.a.io" ∷ codes "kws2.a.io" ∷ codes "kws2-1.a.io" ∷ [];
    })
unfolding connect_cf_ws_for_dc
base_dialled_twice = refl
