-- ===== src/WsClient/Records.antt =====
-- rust/src/ws_client.rs: the host names of a data centre, and the tests on them.
use tg_ws_proxy.Base.{
  ℕ, ◌≡◌, refl, Bool, true, ◌&&◌, ◌||◌, Option, none, some, List, [], ◌∷◌, ◌++◌, starts_with,
  contains, replace_first, decimal, digits, codes, Text, if◌then◌else◌,
}
use tg_ws_proxy.Config.{websocket_dc, find_dc}

unfoldable pub ordered_records : Text → Text → Bool → List Text
ordered_records base dash_one is_media =
    if is_media then dash_one ∷ base ∷ [] else base ∷ dash_one ∷ []

unfoldable pub ws_domains : ℕ → Bool → List Text
unfolding ordered_records websocket_dc decimal digits find_dc
ws_domains dc is_media =
    let effective_dc = websocket_dc dc in
    ordered_records (codes "kws" ++ (decimal effective_dc ++ codes ".web.telegram.org"))
      (codes "kws" ++ (decimal effective_dc ++ codes "-1.web.telegram.org")) is_media

unfoldable pub cf_ws_domains : ℕ → List Text → Bool → List Text
unfolding ordered_records decimal digits
cf_ws_domains dc [] is_media = []
cf_ws_domains dc (cf_domain ∷ cf_domains) is_media =
    ordered_records (codes "kws" ++ (decimal dc ++ (codes "." ++ cf_domain)))
      (codes "kws" ++ (decimal dc ++ (codes "-1." ++ cf_domain))) is_media
    ++ cf_ws_domains dc cf_domains is_media

unfoldable pub base_cf_record : Text → Option Text
unfolding contains replace_first starts_with
base_cf_record domain =
    if contains domain (codes "-1.")
    then some (replace_first domain (codes "-1.") (codes "."))
    else none

unfoldable pub cf_worker_path : Text → ℕ → Bool → Text
unfolding decimal digits
cf_worker_path dst dc is_media =
    codes "/apiws?dst="
    ++ (dst
        ++ (codes "&dc="
            ++ (decimal dc ++ (codes "&media=" ++ decimal (if is_media then 1 else 0)))))

unfoldable pub is_dns_not_found : Text → Bool
unfolding contains starts_with
is_dns_not_found reason =
    starts_with reason (codes "TCP connect:")
    && (contains reason (codes "failed to lookup address information")
        || contains reason (codes "nodename nor servname provided")
        || contains reason (codes "No such host is known")
        || contains reason (codes "Name or service not known"))

records_of_203 :
    ws_domains 203 true ≡ codes "kws2-1.web.telegram.org" ∷ codes "kws2.web.telegram.org" ∷ []
unfolding ws_domains
records_of_203 = refl

base_of_media : base_cf_record (codes "kws203-1.a.io") ≡ some (codes "kws203.a.io")
unfolding base_cf_record
base_of_media = refl

lookup_failure :
    is_dns_not_found (codes "TCP connect: failed to lookup address information: Try again") ≡ true
unfolding is_dns_not_found
lookup_failure = refl
