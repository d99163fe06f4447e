-- ===== src/DefaultDomains.antt =====
-- rust/src/default_domains.rs: the list of Cloudflare domains from the upstream repository. What the
-- fetch brings is an argument.
pub mod RoundTrip
pub mod Http
use tg_ws_proxy.Base.{
  ℕ, ◌+◌, ◌-◌, ◌%◌, ◌≡◌, refl, Bool, true, false, ◌&&◌, ◌||◌, not, Option, none, some, List, [],
  ◌∷◌, ◌++◌, map, length, take, drop, is_empty, bytes_eq, leb, ◌==◌, if◌then◌else◌, codes, Text,
  starts_with, trim, trim_start, trim_end, is_whitespace, split_on, strip_suffix, Result, ok, err,
}

abbrev pub real_suffix : Text
real_suffix = codes ".co.uk"

abbrev pub fallback_encoded : List Text
fallback_encoded =
    codes "virkgj.com"
    ∷ codes "vmmzovy.com"
    ∷ codes "mkuosckvso.com"
    ∷ codes "zaewayzmplad.com"
    ∷ codes "twdmbzcm.com"
    ∷ []

unfoldable pub is_ascii_lowercase : ℕ → Bool
is_ascii_lowercase c = leb b'a' c && leb c b'z'

unfoldable pub is_ascii_uppercase : ℕ → Bool
is_ascii_uppercase c = leb b'A' c && leb c b'Z'

-- The letters of a text, fewer than 2^31 of them.
unfoldable pub count_letters : Text → ℕ
unfolding is_ascii_lowercase is_ascii_uppercase
count_letters [] = 0
count_letters (c ∷ s) =
    (if is_ascii_lowercase c || is_ascii_uppercase c then 1 else 0) + count_letters s

-- `(c - base - n).rem_euclid(26) + base`.
unfoldable pub shift_letter : ℕ → ℕ → ℕ → ℕ
shift_letter base n c = (c - base + (26 - n % 26)) % 26 + base

unfoldable pub shift_back : ℕ → ℕ → ℕ
unfolding shift_letter is_ascii_lowercase is_ascii_uppercase
shift_back n c =
    if is_ascii_lowercase c
    then shift_letter b'a' n c
    else if is_ascii_uppercase c
    then shift_letter b'A' n c
    else c

unfoldable pub decode_prefix : Text → Text
unfolding shift_back count_letters
decode_prefix prefix = map (shift_back (count_letters prefix)) prefix

unfoldable pub deobfuscate : Text → Option Text
unfolding strip_suffix decode_prefix
deobfuscate s = elim (strip_suffix s (codes ".com")) [
  | none ↦ none
  | some prefix ↦ some (decode_prefix prefix ++ real_suffix)
]

-- What `lines` does with the pieces between the newlines: a last empty one is no line, and the
-- others lose a `\r`.
unfoldable pub lines_of : List Text → List Text
unfolding strip_suffix
lines_of [] = []
lines_of ([] ∷ []) = []
lines_of ((c ∷ s) ∷ []) = (c ∷ s) ∷ []
lines_of (s ∷ t ∷ ts) =
    (elim (strip_suffix s (0x0d ∷ [])) [ none ↦ s | some line ↦ line ]) ∷ lines_of (t ∷ ts)

unfoldable pub parse_lines : List Text → List Text
unfolding deobfuscate trim starts_with
parse_lines [] = []
parse_lines (raw ∷ raws) =
    let l = trim raw in
    let rest = parse_lines raws in
    if is_empty l || starts_with l (codes "#")
    then rest
    else elim (deobfuscate l) [ none ↦ rest | some domain ↦ domain ∷ rest ]

unfoldable pub parse_domain_list : Text → List Text
unfolding parse_lines lines_of split_on
parse_domain_list text = parse_lines (lines_of (split_on 0x0a text))

unfoldable pub decode_all : List Text → List Text
unfolding deobfuscate
decode_all [] = []
decode_all (s ∷ ss) = elim (deobfuscate s) [
  | none ↦ decode_all ss
  | some domain ↦ domain ∷ decode_all ss
]

unfoldable pub fallback_domains : List Text
unfolding decode_all
fallback_domains = decode_all fallback_encoded

unfoldable pub fetch_default_domains_with_outbound : Result Text → List Text
unfolding parse_domain_list fallback_domains
fetch_default_domains_with_outbound (err e) = fallback_domains
fetch_default_domains_with_outbound (ok body) =
    let domains = parse_domain_list body in if is_empty domains then fallback_domains else domains
