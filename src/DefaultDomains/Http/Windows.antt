-- ===== src/DefaultDomains/Http/Windows.antt =====
-- rust/src/default_domains/http.rs, `header_end`: what is found stays found when more arrives.
use tg_ws_proxy.Base.{
  ℕ, suc, ◌+◌, ◌≤◌, ◌≡◌, refl, sym, ap, ◌∙◌, Bool, true, false, ◌&&◌, Option, none, some, List, [],
  ◌∷◌, ◌++◌, length, starts_with, ◌==◌, if◌then◌else◌, Bool-cases, Option-cases, inl, inr, arith,
}
use tg_ws_proxy.DefaultDomains.Http.{find_window, header_end}

starts_with-front :
    (s p t : List ℕ) → length p ≤ length s → starts_with (s ++ t) p ≡ starts_with s p
unfolding starts_with
starts_with-front [] [] [] h = refl
starts_with-front [] [] (x ∷ t) h = refl
starts_with-front [] (b ∷ p) t h = absurd (omega arith)
starts_with-front (c ∷ s) [] t h = refl
starts_with-front (c ∷ s) (b ∷ p) t h =
    ap (λ r. c == b && r) (starts_with-front s p t (omega arith))

starts_with-length : (s p : List ℕ) → starts_with s p ≡ true → length p ≤ length s
unfolding starts_with
starts_with-length s [] h = omega arith
starts_with-length [] (b ∷ p) h = cc
starts_with-length (c ∷ s) (b ∷ p) h =
    omega (arith, starts_with-length s p (behind (c == b) (starts_with s p) h))
  where
    behind : (x y : Bool) → (x && y) ≡ true → y ≡ true
    behind true y h = h
    behind false y h = cc

-- The position leaves room for the pattern, and is the one in any longer buffer.
abbrev Stays : List ℕ → List ℕ → ℕ → Type 0
Stays p xs k = (k + length p ≤ length xs) × ((ys : List ℕ) → find_window p (xs ++ ys) ≡ some k)

-- One place of `find_window`, by whether the pattern stands there and what is found behind it.
abbrev place : Bool → Option ℕ → Option ℕ
place here r = if here then some 0 else elim r [ none ↦ none | some pos ↦ some (suc pos) ]

abbrev value : Option ℕ → ℕ
value none = 0
value (some n) = n

find_window-Stays : (p xs : List ℕ) (k : ℕ) → find_window p xs ≡ some k → Stays p xs k
unfolding find_window
find_window-Stays p [] k h = cc
find_window-Stays p (b ∷ bs) k h = elim (Bool-cases (starts_with (b ∷ bs) p)) [
  | inl stands ↦
      let first : 0 ≡ k = ap value (sym (ap (λ c. place c (find_window p bs)) stands) ∙ h) in
      let fits = starts_with-length (b ∷ bs) p stands in
      (
        omega (arith, fits, first),
        λ ys.
            ap (λ c. place c (find_window p (bs ++ ys)))
              (starts_with-front (b ∷ bs) p ys fits ∙ stands)
            ∙ ap some first,
      )
  | inr missing ↦ elim (Option-cases (find_window p bs)) [
    | inl gone ↦
        let never : none ≡ some k =
          sym (ap (λ c. place c (find_window p bs)) missing ∙ ap (place false) gone) ∙ h in
        cc
    | inr (j, found) ↦
        let last : suc j ≡ k =
          ap value
            (sym (ap (λ c. place c (find_window p bs)) missing ∙ ap (place false) found) ∙ h) in
        let (fits, stays) = find_window-Stays p bs j found in
        (
          omega (arith, fits, last),
          λ ys.
              ap (λ c. place c (find_window p (bs ++ ys)))
                (starts_with-front (b ∷ bs) p ys (omega (arith, fits)) ∙ missing)
              ∙ ap (place false) (stays ys)
              ∙ ap some last,
        )
  ]
]

-- The end of the headers lies within the buffer, and stays where it is when more arrives.
pub header_end_lem :
    (xs : List ℕ) (k : ℕ)
    → header_end xs ≡ some k
    → (k ≤ length xs) × ((ys : List ℕ) → header_end (xs ++ ys) ≡ some k)
unfolding header_end
header_end_lem xs k h = elim (Option-cases (find_window crlf_twice xs)) [
  | inl gone ↦ let never : none ≡ some k = sym (ap behind gone) ∙ h in cc
  | inr (j, found) ↦
      let last : j + 4 ≡ k = ap value (sym (ap behind found) ∙ h) in
      let (fits, stays) = find_window-Stays crlf_twice xs j found in
      (omega (arith, fits, last), λ ys. ap behind (stays ys) ∙ ap some last)
]
  where
    crlf_twice : List ℕ
    crlf_twice = 0x0d ∷ 0x0a ∷ 0x0d ∷ 0x0a ∷ []

    behind : Option ℕ → Option ℕ
    behind r = elim r [ none ↦ none | some pos ↦ some (pos + 4) ]
