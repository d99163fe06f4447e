-- ===== src/Outbound/Select.antt =====
-- rust/src/outbound/config.rs: which outbound proxy is used, and which hosts bypass it. The
-- environment is an argument.
use tg_ws_proxy.Base.{
  Bool, true, false, ◌||◌, not, Option, none, some, List, [], ◌∷◌, ◌++◌, is_empty, bytes_eq, codes,
  Text, trim, to_ascii_lowercase, if◌then◌else◌, Result, ok, err, and_then, map_ok,
}
use tg_ws_proxy.Outbound.Url.{Parsers, ProxyConfig, parse}
use tg_ws_proxy.Outbound.NoProxy.{validate_no_proxy}

unfoldable pub is_direct_marker : Text → Bool
unfolding trim to_ascii_lowercase bytes_eq
is_direct_marker value =
    let lower = to_ascii_lowercase (trim value) in
    bytes_eq lower (codes "direct") || bytes_eq lower (codes "none") || bytes_eq lower (codes "off")

unfoldable pub first_non_empty : List (Option Text) → Option Text
unfolding trim
first_non_empty [] = none
first_non_empty (none ∷ values) = first_non_empty values
first_non_empty (some value ∷ values) =
    if is_empty (trim value) then first_non_empty values else some (trim value)

unfoldable pub select_no_proxy : Option Text → Bool → (Text → Option Text) → Option Text
unfolding first_non_empty trim
select_no_proxy (some value) use_env env_get = some (trim value)
select_no_proxy none use_env env_get =
    if not use_env
    then none
    else first_non_empty (env_get (codes "NO_PROXY") ∷ env_get (codes "no_proxy") ∷ [])

-- Behind the loop: the first error, if one was met.
unfoldable pub no_proxy_found : Option Text → Result (Option ProxyConfig)
no_proxy_found none = ok none
no_proxy_found (some e) =
    err (codes "no supported outbound proxy URL found in environment (" ++ (e ++ codes ")"))

-- `first_error.get_or_insert_with(..)`.
abbrev pub first_of : Option Text → Text → Option Text
first_of none e = some e
first_of (some first) e = some first

abbrev pub proxy_variables : List Text
proxy_variables =
    codes "HTTPS_PROXY"
    ∷ codes "https_proxy"
    ∷ codes "ALL_PROXY"
    ∷ codes "all_proxy"
    ∷ codes "HTTP_PROXY"
    ∷ codes "http_proxy"
    ∷ []

abbrev pub read_env : (Text → Option Text) → List Text → List (Text × Option Text)
read_env env_get [] = []
read_env env_get (name ∷ names) = (name, env_get name) ∷ read_env env_get names

pub record OutboundConfig : Type 0 where
  pub proxy : Option ProxyConfig
  -- What `NoProxy::from` is given.
  pub no_proxy : Option Text

module _ (P : Parsers) where
  -- The loop of `select_env_proxy`.
  unfoldable pub env_proxy_loop :
      List (Text × Option Text) → Option Text → Result (Option ProxyConfig)
  unfolding no_proxy_found is_direct_marker parse trim
  env_proxy_loop [] first_error = no_proxy_found first_error
  env_proxy_loop ((name, none) ∷ values) first_error = env_proxy_loop values first_error
  env_proxy_loop ((name, some raw) ∷ values) first_error = elim (is_empty (trim raw)) [
    | true ↦ env_proxy_loop values first_error
    | false ↦ elim (is_direct_marker (trim raw)) [
      | true ↦ ok none
      | false ↦ elim (parse P (trim raw)) [
        | ok proxy ↦ ok (some proxy)
        | err e ↦ env_proxy_loop values (first_of first_error (name ++ (codes ": " ++ e)))
      ]
    ]
  ]

  unfoldable pub select_env_proxy : List (Text × Option Text) → Result (Option ProxyConfig)
  unfolding env_proxy_loop
  select_env_proxy values = env_proxy_loop values none

  -- Without a proxy on the command line.
  unfoldable pub from_env : Bool → (Text → Option Text) → Result (Option ProxyConfig)
  unfolding select_env_proxy
  from_env use_env env_get =
      if not use_env then ok none else select_env_proxy (read_env env_get proxy_variables)

  unfoldable pub select_proxy :
      Option Text → Bool → (Text → Option Text) → Result (Option ProxyConfig)
  unfolding from_env is_direct_marker parse trim
  select_proxy none use_env env_get = from_env use_env env_get
  select_proxy (some value) use_env env_get =
      if is_empty (trim value)
      then from_env use_env env_get
      else if is_direct_marker (trim value)
      then ok none
      else map_ok some (parse P (trim value))

  -- With a proxy: the hosts that bypass it.
  unfoldable pub with_no_proxy : ProxyConfig → Option Text → Result OutboundConfig
  unfolding validate_no_proxy
  with_no_proxy proxy none = ok (record { proxy = some proxy; no_proxy = none })
  with_no_proxy proxy (some list) =
      if is_empty list
      then ok (record { proxy = some proxy; no_proxy = none })
      else and_then (validate_no_proxy P list)
          λ _. ok (record { proxy = some proxy; no_proxy = some list })

  unfoldable pub from_sources_with_env :
      Option Text → Option Text → Bool → (Text → Option Text) → Result OutboundConfig
  unfolding select_proxy with_no_proxy select_no_proxy
  from_sources_with_env outbound_proxy no_proxy use_env env_get =
      and_then (select_proxy outbound_proxy use_env env_get) λ proxy. elim proxy [
        | none ↦ ok (record { proxy = none; no_proxy = none })
        | some proxy ↦ with_no_proxy proxy (select_no_proxy no_proxy use_env env_get)
      ]
