-- ===== src/Outbound/Url.antt =====
-- rust/src/outbound/config.rs: a proxy's URL. The crates `url` and `percent-encoding` are arguments.
use tg_ws_proxy.Base.{
  ℕ, Bool, true, false, ◌&&◌, ◌||◌, not, Option, none, some, ◌++◌, is_empty, bytes_eq, codes, Text,
  starts_with, contains_char, to_ascii_lowercase, to_lower, decimal, digits, if◌then◌else◌, Result,
  ok, err, and_then, map_ok, ok_or,
}

-- What the program reads of a `Url`.
pub record Url : Type 0 where
  pub scheme : Text
  pub path : Text
  pub query : Option Text
  pub fragment : Option Text
  pub host_str : Option Text
  pub port : Option ℕ
  pub username : Text
  pub password : Option Text

-- `Url::parse`, `percent_decode_str(..).decode_utf8()`, and the parsers of addresses.
pub record Parsers : Type 0 where
  pub parse_url : Text → Option Url
  pub percent_decode : Text → Option Text
  pub is_ip_net : Text → Bool
  pub is_ipv6 : Text → Bool

pub data ProxyKind : Type 0 where
  http : ProxyKind
  socks5 : Bool → ProxyKind

pub record ProxyConfig : Type 0 where
  pub kind : ProxyKind
  pub host : Text
  pub port : ℕ
  pub username : Option Text
  pub password : Option Text

unfoldable pub authority : Text → ℕ → Text
unfolding contains_char starts_with decimal digits
authority host port =
    if contains_char host b':' && not (starts_with host (codes "["))
    then codes "[" ++ (host ++ (codes "]:" ++ decimal port))
    else host ++ (codes ":" ++ decimal port)

unfoldable pub http_host : Text → Text
unfolding contains_char starts_with
http_host host =
    if contains_char host b':' && not (starts_with host (codes "["))
    then codes "[" ++ (host ++ codes "]")
    else host

unfoldable pub target_url : Text → ℕ → Text
unfolding authority
target_url host port = codes "https://" ++ authority host port

unfoldable pub default_port : ProxyKind → ℕ
default_port http = 80
default_port (socks5 remote_dns) = 1080

abbrev pub is_some {ℓ} : {A : Type ℓ} → Option A → Bool
is_some none = false
is_some (some a) = true

unfoldable pub validate_proxy_url_shape : Url → Result (Unit {0})
unfolding bytes_eq
validate_proxy_url_shape url =
    if not (is_empty url.path || bytes_eq url.path (codes "/"))
      || is_some url.query
      || is_some url.fragment
    then err (codes "outbound proxy URL must not include a path, query string or fragment")
    else ok tt

unfoldable pub proxy_kind : Text → Result ProxyKind
unfolding bytes_eq
proxy_kind scheme =
    if bytes_eq scheme (codes "http")
    then ok http
    else if bytes_eq scheme (codes "socks5")
    then ok (socks5 false)
    else if bytes_eq scheme (codes "socks5h")
    then ok (socks5 true)
    else if bytes_eq scheme (codes "https")
    then err (codes "HTTPS outbound proxy URLs are not supported; use an http:// CONNECT proxy")
    else err (codes "unsupported outbound proxy scheme: " ++ scheme)

unfoldable pub summary : ProxyConfig → Text
unfolding authority
summary c =
    let scheme : Text = elim c.kind [
      | http ↦ codes "http"
      | socks5 remote_dns ↦ if remote_dns then codes "socks5h" else codes "socks5"
    ] in
    if is_some c.username
    then scheme ++ (codes "://user:***@" ++ authority c.host c.port)
    else scheme ++ (codes "://" ++ authority c.host c.port)

module _ (P : Parsers) where
  unfoldable pub decode_required_userinfo : Text → Result Text
  decode_required_userinfo value =
      ok_or (P.percent_decode value) (codes "proxy URL userinfo is not valid UTF-8")

  unfoldable pub decode_userinfo : Text → Result (Option Text)
  unfolding decode_required_userinfo
  decode_userinfo value =
      if is_empty value then ok none else map_ok some (decode_required_userinfo value)

  -- `.map(decode_required_userinfo).transpose()`.
  unfoldable pub decode_password : Option Text → Result (Option Text)
  unfolding decode_required_userinfo
  decode_password none = ok none
  decode_password (some value) = map_ok some (decode_required_userinfo value)

  -- The check of the user and the password, and the result.
  unfoldable pub with_userinfo :
      ProxyKind → Text → ℕ → Option Text → Option Text → Result ProxyConfig
  with_userinfo kind host port username password =
      if not (is_some username) && is_some password
      then err (codes "proxy URL password requires a username")
      else ok (record {
        kind = kind;
        host = host;
        port = port;
        username = username;
        password = password;
      })

  abbrev port_or : Option ℕ → ℕ → ℕ
  port_or none d = d
  port_or (some port) d = port

  unfoldable pub parse : Text → Result ProxyConfig
  unfolding validate_proxy_url_shape proxy_kind default_port decode_userinfo decode_password
      with_userinfo to_ascii_lowercase to_lower
  parse raw = and_then (ok_or (P.parse_url raw) (codes "invalid outbound proxy URL")) λ url.
      and_then (validate_proxy_url_shape url) λ _.
        and_then (proxy_kind (to_ascii_lowercase url.scheme)) λ kind.
          and_then (ok_or url.host_str (codes "outbound proxy URL must include a host")) λ host.
            and_then (decode_userinfo url.username) λ username.
              and_then (decode_password url.password) λ password.
                with_userinfo kind host (port_or url.port (default_port kind)) username password
