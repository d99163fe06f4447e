-- ===== src/WsClient/Attempts.antt =====
-- rust/src/ws_client.rs, `CfAttempts`: which Cloudflare record is attempted next. The queue is a
-- list, and a set of records is the list of what was put in.
use tg_ws_proxy.Base.{
  Bool, true, false, Option, none, some, List, [], ◌∷◌, map, member, bytes_eq, Text, if◌then◌else◌,
}
use tg_ws_proxy.WsClient.Records.{base_cf_record}

pub record CfAttempt : Type 0 where
  pub domain : Text
  pub forced : Bool

pub record CfAttempts : Type 0 where
  pub queue : List CfAttempt
  pub tried : List Text
  pub timed_out : List Text

unfoldable pub new : List Text → CfAttempts
new domains = record {
  queue = map (λ domain. record { domain = domain; forced = false }) domains;
  tried = [];
  timed_out = [];
}

-- The loop of `next_domain` on the queue and on `tried`.
unfoldable pub next_from : List CfAttempt → List Text → List Text → Option Text × CfAttempts
unfolding member bytes_eq
next_from [] tried timed_out = (none, record { queue = []; tried = tried; timed_out = timed_out })
next_from (attempt ∷ queue) tried timed_out =
    if attempt.forced
    then (some attempt.domain, record { queue = queue; tried = tried; timed_out = timed_out })
    else if member attempt.domain tried
    then next_from queue tried timed_out
    else (
      some attempt.domain,
      record { queue = queue; tried = attempt.domain ∷ tried; timed_out = timed_out },
    )

unfoldable pub next_domain : CfAttempts → Option Text × CfAttempts
unfolding next_from
next_domain s = next_from s.queue s.tried s.timed_out

unfoldable pub note_timed_out : CfAttempts → Text → CfAttempts
note_timed_out s domain = record s { timed_out = domain ∷ s.timed_out }

unfoldable pub retry_base_of : CfAttempts → Text → Option Text × CfAttempts
unfolding base_cf_record member bytes_eq
retry_base_of s domain = elim (base_cf_record domain) [
  | none ↦ (none, s)
  | some base ↦
      if member base s.timed_out
      then (none, s)
      else (some base, record s { queue = record { domain = base; forced = true } ∷ s.queue })
]
