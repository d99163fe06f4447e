-- ===== src/Base/Strings.antt =====
-- Texts as the list of their characters, and the methods of `str` that the program calls.
use Prim.Native.Char.{code}
use Prim.Native.Nat.{ℕ, zero, suc, ◌+◌, ◌-◌, ◌/◌, ◌%◌}
use Prim.Native.String.{String}
use Prim.Native.Nat.{◌*◌}
use mathlib.Core.Bool.{Bool, true, false, ◌&&◌, ◌||◌}
use mathlib.Core.List.{List, [], ◌∷◌, ◌++◌}
use mathlib.Core.Option.{Option, none, some}
use tg_ws_proxy.Base.Lists.{length, take, drop, bytes_eq}
use tg_ws_proxy.Base.Tests.{◌==◌, leb, ltb, if◌then◌else◌}

abbrev pub Text : Type 0
Text = List ℕ

abbrev pub codes : String → Text
codes String.[] = []
codes (String.◌∷◌ c s) = code c ∷ codes s

unfoldable pub starts_with : Text → Text → Bool
starts_with s [] = true
starts_with [] (p ∷ ps) = false
starts_with (c ∷ s) (p ∷ ps) = c == p && starts_with s ps

unfoldable pub contains : Text → Text → Bool
unfolding starts_with
contains [] p = starts_with [] p
contains (c ∷ s) p = starts_with (c ∷ s) p || contains s p

-- `replacen(from, to, 1)`, for a `from` that is not empty.
unfoldable pub replace_first : Text → Text → Text → Text
unfolding starts_with
replace_first [] from to = []
replace_first (c ∷ s) from to =
    if starts_with (c ∷ s) from
    then to ++ drop (length from) (c ∷ s)
    else c ∷ replace_first s from to

-- `contains` of a set of texts.
unfoldable pub member : Text → List Text → Bool
unfolding bytes_eq
member s [] = false
member s (t ∷ ts) = bytes_eq s t || member s ts

-- A number in decimal digits, in front of `rest`.
unfoldable pub digits : ℕ → ℕ → Text → Text
digits zero n rest = rest
digits (suc fuel) n rest =
    let more = digits fuel (n / 10) (((n % 10) + b'0') ∷ rest) in
    if leb n 9 then (n + b'0') ∷ rest else more

unfoldable pub decimal : ℕ → Text
unfolding digits
decimal n = digits (suc n) n []

unfoldable pub ends_with : Text → ℕ → Bool
ends_with [] c = false
ends_with (x ∷ []) c = x == c
ends_with (x ∷ y ∷ s) c = ends_with (y ∷ s) c

unfoldable pub contains_char : Text → ℕ → Bool
contains_char [] c = false
contains_char (x ∷ s) c = x == c || contains_char s c

unfoldable pub strip_prefix : Text → Text → Option Text
unfolding starts_with
strip_prefix s p = if starts_with s p then some (drop (length p) s) else none

-- `char::is_whitespace`.
unfoldable pub is_whitespace : ℕ → Bool
is_whitespace c =
    (leb 9 c && leb c 13)
    || c == 32
    || c == 0x85
    || c == 0xa0
    || c == 0x1680
    || (leb 0x2000 c && leb c 0x200a)
    || c == 0x2028
    || c == 0x2029
    || c == 0x202f
    || c == 0x205f
    || c == 0x3000

unfoldable pub trim_start : Text → Text
unfolding is_whitespace
trim_start [] = []
trim_start (c ∷ s) = if is_whitespace c then trim_start s else c ∷ s

unfoldable pub trim_end : Text → Text
unfolding is_whitespace
trim_end [] = []
trim_end (c ∷ s) = elim (trim_end s) [
  | [] ↦ if is_whitespace c then [] else c ∷ []
  | d ∷ t ↦ c ∷ d ∷ t
]

unfoldable pub trim : Text → Text
unfolding trim_start trim_end
trim s = trim_end (trim_start s)

unfoldable pub to_lower : ℕ → ℕ
to_lower c = if leb b'A' c && leb c b'Z' then c + 32 else c

unfoldable pub to_ascii_lowercase : Text → Text
unfolding to_lower
to_ascii_lowercase [] = []
to_ascii_lowercase (c ∷ s) = to_lower c ∷ to_ascii_lowercase s

abbrev pub in_front : ℕ → List Text → List Text
in_front c [] = (c ∷ []) ∷ []
in_front c (w ∷ ws) = (c ∷ w) ∷ ws

-- `split(c)`.
unfoldable pub split_on : ℕ → Text → List Text
split_on c [] = [] ∷ []
split_on c (x ∷ s) = if x == c then [] ∷ split_on c s else in_front x (split_on c s)

-- `find(c)`.
unfoldable pub find_char : ℕ → Text → Option ℕ
find_char c [] = none
find_char c (x ∷ s) =
    if x == c then some 0 else elim (find_char c s) [ none ↦ none | some n ↦ some (suc n) ]

unfoldable pub rsplit_once : ℕ → Text → Option (Text × Text)
rsplit_once c [] = none
rsplit_once c (x ∷ s) = elim (rsplit_once c s) [
  | some (host, port) ↦ some (x ∷ host, port)
  | none ↦ if x == c then some ([], s) else none
]

-- `parse::<uN>()` behind the sign, for words below `bound`.
unfoldable pub parse_digits : ℕ → ℕ → Text → Option ℕ
parse_digits bound n [] = some n
parse_digits bound n (c ∷ s) =
    let next = n * 10 + (c - b'0') in
    if leb b'0' c && leb c b'9' && ltb next bound then parse_digits bound next s else none

unfoldable pub parse_word : ℕ → Text → Option ℕ
unfolding parse_digits
parse_word bound [] = none
parse_word bound (c ∷ []) = parse_digits bound 0 (c ∷ [])
parse_word bound (c ∷ d ∷ s) =
    if c == b'+' then parse_digits bound 0 (d ∷ s) else parse_digits bound 0 (c ∷ d ∷ s)

-- `strip_suffix`.
unfoldable pub strip_suffix : Text → Text → Option Text
unfolding bytes_eq
strip_suffix s suffix =
    let n = length s - length suffix in if bytes_eq (drop n s) suffix then some (take n s) else none
