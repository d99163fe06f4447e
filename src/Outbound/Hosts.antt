-- ===== src/Outbound/Hosts.antt =====
-- rust/src/outbound/config.rs, `validate_hostname_no_proxy`: the host names that are accepted.
use tg_ws_proxy.Base.{
  ℕ, ◌≤◌, ◌≡◌, ◌≢◌, ◌↔◌, ◌⊎◌, inl, inr, refl, sym, ap, ◌∙◌, subst, Bool, true, false, ◌&&◌, ◌||◌,
  List, [], ◌∷◌, ◌++◌, length, is_empty, All, drop, codes, Text, starts_with, ends_with,
  contains_char, strip_prefix, split_on, split_on-word, split_on-last, in_front, leb, ◌==◌, ==_iff,
  ==_refl, ok, Bool-cases, arith,
}
use tg_ws_proxy.Outbound.NoProxy.{
  is_ascii_alphanumeric, all_label_bytes, bad_label, any_bad, strip_wildcard,
  validate_hostname_no_proxy,
}

abbrev pub Between : ℕ → ℕ → ℕ → Type 0
Between a b c = (a ≤ c) × (c ≤ b)

-- A letter, a digit or a hyphen.
abbrev pub IsLabelChar : ℕ → Type 0
IsLabelChar c = Between b'0' b'9' c ⊎ Between b'A' b'Z' c ⊎ Between b'a' b'z' c ⊎ (c ≡ b'-')

-- Letters, digits and hyphens, with no hyphen at either end.
pub record IsLabel (label : Text) : Type 0 where
  pub chars : All IsLabelChar label
  pub some_char : label ≢ []
  pub first : (s : Text) → label ≢ b'-' ∷ s
  pub last : (s : Text) → label ≢ s ++ b'-' ∷ []

abbrev pub join : List Text → Text
join [] = []
join (w ∷ []) = w
join (w ∷ v ∷ ws) = w ++ (b'.' ∷ join (v ∷ ws))

-- Labels behind nothing, a dot, or a wildcard and a dot.
pub data IsHostEntry (entry : Text) : Type 0 where
  host :
      (prefix label : Text) (labels : List Text)
      → (prefix ≡ []) ⊎ (prefix ≡ codes ".") ⊎ (prefix ≡ codes "*.")
      → All IsLabel (label ∷ labels)
      → entry ≡ prefix ++ join (label ∷ labels)
      → IsHostEntry entry

label_char : (c : ℕ) → (is_ascii_alphanumeric c || c == b'-') ≡ true → IsLabelChar c
unfolding is_ascii_alphanumeric
label_char c h = elim (Bool-cases (leb b'0' c && leb c b'9')) [
  | inl d ↦ inl (ground arith)
  | inr d ↦ elim (Bool-cases (leb b'A' c && leb c b'Z')) [
    | inl u ↦ inr (inl (ground arith))
    | inr u ↦ elim (Bool-cases (leb b'a' c && leb c b'z')) [
      | inl l ↦ inr (inr (inl (ground arith)))
      | inr l ↦ inr (inr (inr (ground arith)))
    ]
  ]
]

char_label : (c : ℕ) → IsLabelChar c → (is_ascii_alphanumeric c || c == b'-') ≡ true
unfolding is_ascii_alphanumeric
char_label c h = ground arith

fit_chars : (s : Text) → all_label_bytes s ≡ true → All IsLabelChar s
unfolding all_label_bytes
fit_chars [] h = tt
fit_chars (c ∷ s) h = (label_char c (ground arith), fit_chars s (ground arith))

chars_fit : (s : Text) → All IsLabelChar s → all_label_bytes s ≡ true
unfolding all_label_bytes
chars_fit [] h = refl
chars_fit (c ∷ s) h = ground (arith, char_label c h.0, chars_fit s h.1)

ends_with-append : (s : Text) (c : ℕ) → ends_with (s ++ c ∷ []) c ≡ true
unfolding ends_with
ends_with-append [] c = ==_refl c
ends_with-append (x ∷ []) c = ==_refl c
ends_with-append (x ∷ y ∷ s) c = ends_with-append (y ∷ s) c

last_char : (s : Text) (c : ℕ) → ends_with s c ≡ true → (t : Text) × (s ≡ t ++ c ∷ [])
unfolding ends_with
last_char [] c h = cc
last_char (x ∷ []) c h = ([], ground arith)
last_char (x ∷ y ∷ s) c h = let (t, e) = last_char (y ∷ s) c h in (x ∷ t, ap (◌∷◌ x) e)

starts_with-first : (s : Text) (c : ℕ) → starts_with s (c ∷ []) ≡ true → (t : Text) × (s ≡ c ∷ t)
unfolding starts_with
starts_with-first [] c h = cc
starts_with-first (x ∷ s) c h = (s, ground arith)

starts_with-cons : (s : Text) (c : ℕ) → starts_with (c ∷ s) (c ∷ []) ≡ true
unfolding starts_with
starts_with-cons s c = ground (arith, ==_refl c)

good-IsLabel : (label : Text) → bad_label label ≡ false → IsLabel label
unfolding bad_label
good-IsLabel label h = record {
  chars = fit_chars label (ground arith);
  some_char = λ e. cc (ap is_empty e, the_empty);
  first = λ s e. cc no_first;
  last = λ s e. cc (ap (λ x. ends_with x b'-') e, ends_with-append s b'-', no_last);
}
  where
    the_empty : is_empty label ≡ false
    the_empty = ground arith

    no_first : starts_with label (codes "-") ≡ false
    no_first = ground arith

    no_last : ends_with label b'-' ≡ false
    no_last = ground arith

not_true : (b : Bool) → (b ≡ true → ⊥) → b ≡ false
not_true true h = absurd (h refl)
not_true false h = refl

label_good : (label : Text) → IsLabel label → bad_label label ≡ false
unfolding bad_label
label_good label l =
    ground (arith, chars_fit label l.chars, nonempty label l.some_char, no_first, no_last)
  where
    nonempty : (s : Text) → s ≢ [] → is_empty s ≡ false
    nonempty [] h = absurd (h refl)
    nonempty (x ∷ s) h = refl

    no_first : starts_with label (codes "-") ≡ false
    no_first = not_true _ (λ e. let (t, p) = starts_with-first label b'-' e in l.first t p)

    no_last : ends_with label b'-' ≡ false
    no_last = not_true _ (λ e. let (t, p) = last_char label b'-' e in l.last t p)

any_bad→All : (labels : List Text) → any_bad labels ≡ false → All IsLabel labels
unfolding any_bad
any_bad→All [] h = tt
any_bad→All (l ∷ ls) h = (good-IsLabel l (ground arith), any_bad→All ls (ground arith))

All→any_bad : (labels : List Text) → All IsLabel labels → any_bad labels ≡ false
unfolding any_bad
All→any_bad [] h = refl
All→any_bad (l ∷ ls) h = ground (arith, label_good l h.0, All→any_bad ls h.1)

-- Splitting at the dots and joining again.
split_on-some : (c : ℕ) (s : Text) → (w : Text) × (ws : List Text) × (split_on c s ≡ w ∷ ws)
unfolding split_on
split_on-some c [] = ([], [], refl)
split_on-some c (x ∷ s) = elim (Bool-cases (x == c)) [
  | inl e ↦ ([], split_on c s, rw e refl)
  | inr e ↦ let (w, ws, p) = split_on-some c s in (x ∷ w, ws, rw (e, p) refl)
]

join-in_front : (c : ℕ) (w : Text) (ws : List Text) → join (in_front c (w ∷ ws)) ≡ c ∷ join (w ∷ ws)
join-in_front c w [] = refl
join-in_front c w (v ∷ ws) = refl

join-split_on : (s : Text) → join (split_on b'.' s) ≡ s
unfolding split_on
join-split_on [] = refl
join-split_on (x ∷ s) =
    let (w, ws, p) = split_on-some b'.' s in
    let ih = ap join (sym p) ∙ join-split_on s in
    elim (Bool-cases (x == b'.')) [
      | inl e ↦ rw (e, p) (ap (◌∷◌ b'.') ih ∙ ap (λ d. d ∷ s) (sym ((==_iff x b'.').0 e)))
      | inr e ↦ rw (e, p) (join-in_front x w ws ∙ ap (◌∷◌ x) ih)
    ]

contains_char-append :
    (s t : Text) (c : ℕ)
    → contains_char s c ≡ false
    → contains_char t c ≡ false
    → contains_char (s ++ t) c ≡ false
unfolding contains_char
contains_char-append [] t c h k = k
contains_char-append (x ∷ s) t c h k = ground (arith, contains_char-append s t c)

module _ (c : ℕ) (other : IsLabelChar c → ⊥) where
  no_char : (s : Text) → All IsLabelChar s → contains_char s c ≡ false
  unfolding contains_char
  no_char [] h = refl
  no_char (x ∷ s) h = ground (arith, differs, no_char s h.1)
    where
      differs : (x == c) ≡ false
      differs = not_true _ (λ e. other (subst IsLabelChar ((==_iff x c).0 e) h.0))

  no_char-join :
      c ≢ b'.'
      → (label : Text) (labels : List Text) → All IsLabel (label ∷ labels)
      → contains_char (join (label ∷ labels)) c ≡ false
  unfolding contains_char
  no_char-join n label [] h = no_char label h.0.chars
  no_char-join n label (l ∷ ls) h =
      contains_char-append label (b'.' ∷ join (l ∷ ls)) c (no_char label h.0.chars)
        (rw dot_differs (no_char-join n l ls h.1))
    where
      dot_differs : (b'.' == c) ≡ false
      dot_differs = not_true _ (λ e. n (sym ((==_iff b'.' c).0 e)))

dot : IsLabelChar b'.' → ⊥
dot h = ground arith

split_on-join :
    (label : Text) (labels : List Text)
    → All IsLabel (label ∷ labels)
    → split_on b'.' (join (label ∷ labels)) ≡ label ∷ labels
split_on-join label [] h = split_on-last b'.' label (no_char b'.' dot label h.0.chars)
split_on-join label (l ∷ ls) h =
    split_on-word b'.' label (join (l ∷ ls)) (no_char b'.' dot label h.0.chars)
    ∙ ap (◌∷◌ label) (split_on-join l ls h.1)

-- A host begins with a character of a label.
begins :
    (label : Text) (labels : List Text)
    → IsLabel label
    → (x : ℕ) × (t : Text) × (join (label ∷ labels) ≡ x ∷ t) × IsLabelChar x
begins [] labels h = absurd (h.some_char refl)
begins (x ∷ s) [] h = (x, s, refl, h.chars.0)
begins (x ∷ s) (l ∷ ls) h = (x, s ++ (b'.' ∷ join (l ∷ ls)), refl, h.chars.0)

strip_wildcard-bare : (x : ℕ) (t : Text) → IsLabelChar x → strip_wildcard (x ∷ t) ≡ x ∷ t
unfolding strip_wildcard strip_prefix starts_with
strip_wildcard-bare x t h = ground arith

strip_wildcard-prefix :
    (prefix : Text) (x : ℕ) (t : Text)
    → (prefix ≡ []) ⊎ (prefix ≡ codes ".") ⊎ (prefix ≡ codes "*.")
    → IsLabelChar x
    → strip_wildcard (prefix ++ (x ∷ t)) ≡ x ∷ t
strip_wildcard-prefix prefix x t (inl e) h = rw e (strip_wildcard-bare x t h)
strip_wildcard-prefix prefix x t (inr (inl e)) h =
    rw e (unfold strip_wildcard strip_prefix starts_with in refl)
strip_wildcard-prefix prefix x t (inr (inr e)) h =
    rw e (unfold strip_wildcard strip_prefix starts_with in refl)

starts_with-split : (s p : Text) → starts_with s p ≡ true → s ≡ p ++ drop (length p) s
unfolding starts_with
starts_with-split s [] h = refl
starts_with-split [] (p ∷ ps) h = cc
starts_with-split (x ∷ s) (p ∷ ps) h = ground (arith, starts_with-split s ps)

strip_wildcard-splits :
    (entry : Text)
    → (prefix : Text) × ((prefix ≡ []) ⊎ (prefix ≡ codes ".") ⊎ (prefix ≡ codes "*."))
      × (entry ≡ prefix ++ strip_wildcard entry)
unfolding strip_wildcard strip_prefix
strip_wildcard-splits entry = elim (Bool-cases (starts_with entry (codes "*."))) [
  | inl w ↦ (codes "*.", inr (inr refl), rw w (starts_with-split entry (codes "*.") w))
  | inr w ↦ elim (Bool-cases (starts_with entry (codes "."))) [
    | inl d ↦ (codes ".", inr (inl refl), rw (w, d) (starts_with-split entry (codes ".") d))
    | inr d ↦ ([], inl refl, rw (w, d) refl)
  ]
]

accepted : (entry : Text) → validate_hostname_no_proxy entry ≡ ok tt → IsHostEntry entry
unfolding validate_hostname_no_proxy
accepted entry h =
    let (prefix, kind, e) = strip_wildcard-splits entry in
    let (w, ws, p) = split_on-some b'.' (strip_wildcard entry) in
    host prefix w ws kind (any_bad→All (w ∷ ws) (ap any_bad (sym p) ∙ labels_fit))
      (e ∙ ap (◌++◌ prefix) (sym (join-split_on (strip_wildcard entry)) ∙ ap join p))
  where
    labels_fit : any_bad (split_on b'.' (strip_wildcard entry)) ≡ false
    labels_fit = ground arith

join_fits :
    (entry label : Text) (labels : List Text)
    → All IsLabel (label ∷ labels)
    → strip_wildcard entry ≡ join (label ∷ labels)
    → validate_hostname_no_proxy entry ≡ ok tt
unfolding validate_hostname_no_proxy
join_fits entry label labels h e =
    let (x, t, p, l) = begins label labels h.0 in
    rw
      (
        e,
        ap is_empty p,
        no_char-join b'/' (λ k. ground arith) (omega arith) label labels h,
        no_char-join b'[' (λ k. ground arith) (omega arith) label labels h,
        no_char-join b']' (λ k. ground arith) (omega arith) label labels h,
        no_char-join b':' (λ k. ground arith) (omega arith) label labels h,
        split_on-join label labels h,
        All→any_bad (label ∷ labels) h,
      )
      refl

accepts : (entry : Text) → IsHostEntry entry → validate_hostname_no_proxy entry ≡ ok tt
accepts entry (host prefix label labels kind h e) =
    let (x, t, p, l) = begins label labels h.0 in
    join_fits entry label labels h
      (ap strip_wildcard (e ∙ ap (◌++◌ prefix) p) ∙ strip_wildcard-prefix prefix x t kind l ∙ sym p)

-- The host names that NO_PROXY may hold are exactly these: labels of letters, digits and hyphens,
-- none empty and none with a hyphen at an end, joined by dots, behind nothing, a dot or `*.`.
pub validate_hostname_no_proxy_iff :
    (entry : Text) → (validate_hostname_no_proxy entry ≡ ok tt) ↔ IsHostEntry entry
validate_hostname_no_proxy_iff entry = (accepted entry, accepts entry)
