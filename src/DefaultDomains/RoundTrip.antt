-- ===== src/DefaultDomains/RoundTrip.antt =====
-- rust/src/default_domains.rs: a list that was written as the module documents is read back.
use tg_ws_proxy.Base.{
  ℕ, suc, ◌+◌, ◌-◌, ◌%◌, ◌≡◌, refl, sym, ap, ap₂, ◌∙◌, inl, inr, false, none, some, List, [], ◌∷◌,
  ◌++◌, map, length, take, drop, is_empty, bytes_eq, bytes_eq_iff, subst, All-drop, if◌then◌else◌,
  codes, Text, All, All-append, starts_with, contains_char, trim, trim_start, trim_end,
  is_whitespace, trim-plain, split_on, split_on-word, strip_suffix, strip_suffix-append, Bool-cases,
  arith, ok,
}
use tg_ws_proxy.DefaultDomains.{
  real_suffix, is_ascii_lowercase, is_ascii_uppercase, count_letters, shift_letter, shift_back,
  decode_prefix, deobfuscate, lines_of, parse_lines, parse_domain_list,
  fetch_default_domains_with_outbound,
}

-- The cipher of the upstream list: each letter is shifted forward by the number of letters.
abbrev pub shift_forward : ℕ → ℕ → ℕ
shift_forward n c =
    if is_ascii_lowercase c
    then (c - b'a' + n) % 26 + b'a'
    else if is_ascii_uppercase c
    then (c - b'A' + n) % 26 + b'A'
    else c

abbrev pub encode : Text → Text
encode prefix = map (shift_forward (count_letters prefix)) prefix ++ codes ".com"

shift_forward-class :
    (n c : ℕ)
    → (is_ascii_lowercase (shift_forward n c) ≡ is_ascii_lowercase c)
      × (is_ascii_uppercase (shift_forward n c) ≡ is_ascii_uppercase c)
unfolding is_ascii_lowercase is_ascii_uppercase
shift_forward-class n c = ground arith

shift_back-shift_forward : (n c : ℕ) → shift_back n (shift_forward n c) ≡ c
unfolding shift_back shift_letter
shift_back-shift_forward n c = ground arith

count_letters-forward :
    (n : ℕ) (s : Text) → count_letters (map (shift_forward n) s) ≡ count_letters s
unfolding count_letters
count_letters-forward n [] = refl
count_letters-forward n (c ∷ s) =
    let k = shift_forward-class n c in rw (k.0, k.1, count_letters-forward n s) refl

back_and_forth : (n : ℕ) (s : Text) → map (shift_back n) (map (shift_forward n) s) ≡ s
back_and_forth n [] = refl
back_and_forth n (c ∷ s) = ap₂ ◌∷◌ (shift_back-shift_forward n c) (back_and_forth n s)

pub deobfuscate-encode :
    (prefix : Text) → deobfuscate (encode prefix) ≡ some (prefix ++ real_suffix)
unfolding deobfuscate decode_prefix
deobfuscate-encode prefix =
    let n = count_letters prefix in
    rw
      (
        strip_suffix-append (map (shift_forward n) prefix) (codes ".com"),
        deobfuscate,
        count_letters-forward n prefix,
        back_and_forth n prefix,
      )
      refl

-- The lines that the list may have.
pub data Line : Type 0 where
  entry : Text → Line
  comment : Text → Line
  blank : Line

abbrev pub IsPlain : ℕ → Type 0
IsPlain c = is_whitespace c ≡ false

-- An entry has no whitespace and does not begin like a comment, and a comment has no newline.
abbrev pub IsLine : Line → Type 0
IsLine (entry prefix) = All IsPlain prefix × (starts_with prefix (codes "#") ≡ false)
IsLine (comment s) = contains_char s 0x0a ≡ false
IsLine blank = Unit {0}

abbrev pub line_text : Line → Text
line_text (entry prefix) = encode prefix
line_text (comment s) = b'#' ∷ s
line_text blank = []

abbrev pub written : List Line → Text
written [] = []
written (l ∷ ls) = line_text l ++ (0x0a ∷ written ls)

abbrev pub domains_of : List Line → List Text
domains_of [] = []
domains_of (entry prefix ∷ ls) = (prefix ++ real_suffix) ∷ domains_of ls
domains_of (comment s ∷ ls) = domains_of ls
domains_of (blank ∷ ls) = domains_of ls

abbrev pieces : List Line → List Text
pieces [] = [] ∷ []
pieces (l ∷ ls) = line_text l ∷ pieces ls

shift_forward-IsPlain : (n c : ℕ) → IsPlain c → IsPlain (shift_forward n c)
unfolding is_whitespace is_ascii_lowercase is_ascii_uppercase
shift_forward-IsPlain n c h = ground arith

map-IsPlain : (n : ℕ) (s : Text) → All IsPlain s → All IsPlain (map (shift_forward n) s)
map-IsPlain n [] h = tt
map-IsPlain n (c ∷ s) h = (shift_forward-IsPlain n c h.0, map-IsPlain n s h.1)

encode-IsPlain : (prefix : Text) → All IsPlain prefix → All IsPlain (encode prefix)
unfolding is_whitespace
encode-IsPlain prefix h =
    All-append IsPlain _ (codes ".com") (map-IsPlain (count_letters prefix) prefix h)
      (refl, (refl, (refl, (refl, tt))))

no_newline : (s : Text) → All IsPlain s → contains_char s 0x0a ≡ false
unfolding contains_char is_whitespace
no_newline [] h = refl
no_newline (c ∷ s) h = ground (arith, no_newline s h.1, h.0)

line-no_newline : (l : Line) → IsLine l → contains_char (line_text l) 0x0a ≡ false
unfolding contains_char
line-no_newline (entry prefix) h = no_newline (encode prefix) (encode-IsPlain prefix h.0)
line-no_newline (comment s) h = h
line-no_newline blank h = refl

split_on-written : (ls : List Line) → All IsLine ls → split_on 0x0a (written ls) ≡ pieces ls
split_on-written [] h = unfold split_on in refl
split_on-written (l ∷ ls) h =
    split_on-word 0x0a (line_text l) (written ls) (line-no_newline l h.0)
    ∙ ap (◌∷◌ (line_text l)) (split_on-written ls h.1)

-- A line without its `\r`.
abbrev stripped : Text → Text
stripped s = elim (strip_suffix s (0x0d ∷ [])) [ none ↦ s | some line ↦ line ]

lines_of-pieces :
    (l : Line) (ls : List Line)
    → lines_of (pieces (l ∷ ls)) ≡ stripped (line_text l) ∷ lines_of (pieces ls)
unfolding lines_of
lines_of-pieces l [] = refl
lines_of-pieces l (k ∷ ks) = refl

first_forward :
    (n : ℕ) (s : Text)
    → starts_with s (codes "#") ≡ false
    → starts_with (map (shift_forward n) s ++ codes ".com") (codes "#") ≡ false
unfolding starts_with is_ascii_lowercase is_ascii_uppercase
first_forward n [] h = refl
first_forward n (c ∷ s) h = ground arith

stripped-plain : (s : Text) → All IsPlain s → stripped s ≡ s
unfolding strip_suffix is_whitespace
stripped-plain s h = elim (Bool-cases (bytes_eq (drop (length s - 1) s) (0x0d ∷ []))) [
  | inr e ↦ rw (e, stripped) refl
  | inl e ↦
      let last =
        subst (All IsPlain) ((bytes_eq_iff _ _).0 e) (All-drop IsPlain (length s - 1) s h) in
      cc (last.0)
]

encode-not_empty : (f : ℕ → ℕ) (s : Text) → is_empty (map f s ++ codes ".com") ≡ false
encode-not_empty f [] = refl
encode-not_empty f (c ∷ s) = refl

-- A comment stays one without its `\r` and trimmed.
stripped-mark : (s : Text) → (t : Text) × (stripped (b'#' ∷ s) ≡ b'#' ∷ t)
unfolding strip_suffix
stripped-mark [] = ([], refl)
stripped-mark (c ∷ s) =
    let n : suc (suc (length s)) - 1 ≡ suc (length s) = omega arith in
    let line = b'#' ∷ c ∷ s in
    elim (Bool-cases (bytes_eq (drop (suc (suc (length s)) - 1) line) (0x0d ∷ []))) [
      | inr e ↦ (c ∷ s, rw (e, stripped) refl)
      | inl e ↦ (take (length s) (c ∷ s), rw (e, stripped) (ap (λ k. take k line) n))
    ]

trim-mark : (s : Text) → (t : Text) × (trim (b'#' ∷ s) ≡ b'#' ∷ t)
unfolding trim trim_start trim_end is_whitespace
trim-mark s = marked (trim_end s) refl
  where
    marked : (r : Text) → trim_end s ≡ r → (t : Text) × (trim (b'#' ∷ s) ≡ b'#' ∷ t)
    marked [] e = ([], rw (e, trim_end) refl)
    marked (c ∷ r) e = (c ∷ r, rw (e, trim_end) refl)

parse_lines-line :
    (l : Line) (rest : List Text)
    → IsLine l
    → parse_lines (stripped (line_text l) ∷ rest) ≡ domains_of (l ∷ []) ++ parse_lines rest
unfolding parse_lines
parse_lines-line (entry prefix) rest h =
    let plain = encode-IsPlain prefix h.0 in
    rw
      (
        stripped-plain (encode prefix) plain,
        trim-plain (encode prefix) plain,
        encode-not_empty (shift_forward (count_letters prefix)) prefix,
        first_forward (count_letters prefix) prefix h.1,
        deobfuscate-encode prefix,
      )
      refl
parse_lines-line (comment s) rest h =
    let (t, e) = stripped-mark s in
    let (u, f) = trim-mark t in rw (e, f) (unfold starts_with in refl)
parse_lines-line blank rest h = unfold strip_suffix trim trim_start trim_end bytes_eq in refl

parse_lines-pieces :
    (ls : List Line) → All IsLine ls → parse_lines (lines_of (pieces ls)) ≡ domains_of ls
parse_lines-pieces [] h = unfold parse_lines lines_of in refl
parse_lines-pieces (l ∷ ls) h =
    ap parse_lines (lines_of-pieces l ls)
    ∙ parse_lines-line l (lines_of (pieces ls)) h.0
    ∙ ap (◌++◌ (domains_of (l ∷ []))) (parse_lines-pieces ls h.1)
    ∙ domains_of-cons l ls
  where
    domains_of-cons :
        (l : Line) (ls : List Line) → domains_of (l ∷ []) ++ domains_of ls ≡ domains_of (l ∷ ls)
    domains_of-cons (entry prefix) ls = refl
    domains_of-cons (comment s) ls = refl
    domains_of-cons blank ls = refl

-- A list of entries, comments and blank lines, in which each domain is written as the upstream
-- list does it (letters shifted forward by their number, `.com` for `.co.uk`), is fetched as
-- exactly its domains in their order. They take the place of the built-in list when there is one.
pub fetch_default_domains-written :
    (ls : List Line) (d : Text) (ds : List Text)
    → All IsLine ls
    → domains_of ls ≡ d ∷ ds
    → fetch_default_domains_with_outbound (ok (written ls)) ≡ domains_of ls
unfolding fetch_default_domains_with_outbound parse_domain_list
fetch_default_domains-written ls d ds h e =
    let parsed : parse_domain_list (written ls) ≡ domains_of ls =
      ap (λ t. parse_lines (lines_of t)) (split_on-written ls h) ∙ parse_lines-pieces ls h in
    rw (parsed ∙ e) (sym e)
