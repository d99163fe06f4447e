-- ===== src/Outbound/NoProxy.antt =====
-- rust/src/outbound/config.rs: which NO_PROXY entries are accepted.
use tg_ws_proxy.Base.{
  ℕ, ◌+◌, ◌^◌, Bool, true, false, ◌&&◌, ◌||◌, not, Option, none, some, List, [], ◌∷◌, is_empty,
  bytes_eq, slice, drop, codes, Text, starts_with, ends_with, contains, contains_char, strip_prefix,
  split_on, find_char, rsplit_once, parse_word, parse_digits, trim, leb, ◌==◌, if◌then◌else◌,
  Result, ok, err, and_then,
}
use tg_ws_proxy.Outbound.Url.{Parsers, is_some}

unfoldable pub is_ascii_alphanumeric : ℕ → Bool
is_ascii_alphanumeric b =
    (leb b'0' b && leb b b'9') || (leb b'A' b && leb b b'Z') || (leb b'a' b && leb b b'z')

unfoldable pub all_label_bytes : Text → Bool
unfolding is_ascii_alphanumeric
all_label_bytes [] = true
all_label_bytes (b ∷ s) = (is_ascii_alphanumeric b || b == b'-') && all_label_bytes s

unfoldable pub bad_label : Text → Bool
unfolding starts_with ends_with all_label_bytes
bad_label label =
    is_empty label
    || starts_with label (codes "-")
    || ends_with label b'-'
    || not (all_label_bytes label)

unfoldable pub any_bad : List Text → Bool
unfolding bad_label
any_bad [] = false
any_bad (label ∷ labels) = bad_label label || any_bad labels

unfoldable pub strip_wildcard : Text → Text
unfolding strip_prefix starts_with
strip_wildcard host = elim (strip_prefix host (codes "*.")) [
  | some rest ↦ rest
  | none ↦ elim (strip_prefix host (codes ".")) [ some rest ↦ rest | none ↦ host ]
]

unfoldable pub validate_hostname_no_proxy : Text → Result (Unit {0})
unfolding strip_wildcard any_bad contains_char split_on
validate_hostname_no_proxy entry =
    let host = strip_wildcard entry in
    if is_empty host
      || contains_char host b'/'
      || contains_char host b'['
      || contains_char host b']'
      || contains_char host b':'
      || any_bad (split_on b'.' host)
    then err (codes "invalid NO_PROXY host entry")
    else ok tt

unfoldable pub validate_no_proxy_port : Text → Result (Unit {0})
unfolding parse_word parse_digits
validate_no_proxy_port port =
    if is_empty port || not (is_some (parse_word (2 ^ 16) port))
    then err (codes "invalid NO_PROXY entry port")
    else ok tt

module _ (P : Parsers) where
  -- Behind the closing bracket.
  unfoldable pub bracket_rest : Text → Result (Unit {0})
  unfolding validate_no_proxy_port strip_prefix starts_with
  bracket_rest rest = if is_empty rest then ok tt else elim (strip_prefix rest (codes ":")) [
    | none ↦ err (codes "invalid bracketed IPv6 NO_PROXY entry")
    | some port ↦ validate_no_proxy_port port
  ]

  unfoldable pub validate_bracketed_ipv6_no_proxy : Text → Result (Unit {0})
  unfolding bracket_rest find_char
  validate_bracketed_ipv6_no_proxy entry = elim (find_char b']' entry) [
    | none ↦ err (codes "invalid bracketed IPv6 NO_PROXY entry")
    | some end ↦
        if not (P.is_ipv6 (slice 1 end entry))
        then err (codes "invalid bracketed IPv6 NO_PROXY entry")
        else bracket_rest (drop (end + 1) entry)
  ]

  unfoldable pub validate_with_port : Option (Text × Text) → Result (Unit {0})
  unfolding validate_hostname_no_proxy validate_no_proxy_port contains_char
  validate_with_port none = err (codes "invalid NO_PROXY entry")
  validate_with_port (some (host, port)) =
      if contains_char host b':'
      then err (codes "IPv6 NO_PROXY entries with ports must use brackets")
      else and_then (validate_hostname_no_proxy host) (λ _. validate_no_proxy_port port)

  unfoldable pub validate_no_proxy_entry : Text → Result (Unit {0})
  unfolding validate_bracketed_ipv6_no_proxy validate_with_port contains contains_char rsplit_once
      bytes_eq
  validate_no_proxy_entry entry =
      if bytes_eq entry (codes "*")
      then ok tt
      else if contains entry (codes "://")
      then err (codes "NO_PROXY entries must not include a URL scheme")
      else if P.is_ip_net entry
      then ok tt
      else if starts_with entry (codes "[")
      then validate_bracketed_ipv6_no_proxy entry
      else if contains_char entry b'/'
      then err (codes "invalid NO_PROXY CIDR entry")
      else if contains_char entry b':'
      then validate_with_port (rsplit_once b':' entry)
      else validate_hostname_no_proxy entry

  -- The loop over the trimmed entries that are not empty.
  unfoldable pub validate_entries : List Text → Result (Unit {0})
  unfolding validate_no_proxy_entry trim
  validate_entries [] = ok tt
  validate_entries (raw ∷ entries) =
      let entry = trim raw in
      let rest = validate_entries entries in
      if is_empty entry then rest else and_then (validate_no_proxy_entry entry) (λ _. rest)

  unfoldable pub validate_no_proxy : Text → Result (Unit {0})
  unfolding validate_entries split_on
  validate_no_proxy raw = validate_entries (split_on b',' raw)
