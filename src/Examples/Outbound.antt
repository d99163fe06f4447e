-- ===== src/Examples/Outbound.antt =====
-- The theorems of rust/src/outbound and of rust/src/default_domains.rs at concrete inputs.
use tg_ws_proxy.Base.{
  ◌≡◌, ◌↔◌, refl, List, [], ◌∷◌, codes, ok, is_whitespace, starts_with, contains_char,
}
use tg_ws_proxy.Outbound.NoProxy.{validate_hostname_no_proxy}
use tg_ws_proxy.Outbound.Hosts.{IsHostEntry, validate_hostname_no_proxy_iff}
use tg_ws_proxy.DefaultDomains.{fetch_default_domains_with_outbound}
use tg_ws_proxy.DefaultDomains.RoundTrip.{
  Line, entry, comment, blank, written, domains_of, fetch_default_domains-written,
}

validate_hostname_no_proxy_iff_example :
    (validate_hostname_no_proxy (codes "*.a-b.io") ≡ ok tt) ↔ IsHostEntry (codes "*.a-b.io")
validate_hostname_no_proxy_iff_example = validate_hostname_no_proxy_iff (codes "*.a-b.io")

abbrev lines : List Line
lines = comment (codes " list") ∷ entry (codes "abc") ∷ blank ∷ entry (codes "xyz") ∷ []

fetch_default_domains-written_example :
    fetch_default_domains_with_outbound (ok (written lines)) ≡ domains_of lines
unfolding is_whitespace starts_with contains_char
fetch_default_domains-written_example =
    fetch_default_domains-written lines (codes "abc.co.uk") (codes "xyz.co.uk" ∷ [])
      (refl, ((((refl, (refl, (refl, tt))), refl)), (tt, (((refl, (refl, (refl, tt))), refl), tt))))
      refl
