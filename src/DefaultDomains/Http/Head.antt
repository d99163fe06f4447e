-- ===== src/DefaultDomains/Http/Head.antt =====
-- rust/src/default_domains/http.rs, `read_until_headers`: the headers are found however they arrive.
use tg_ws_proxy.Base.{
  ℕ, zero, suc, ◌≤◌, ◌<◌, ◌≡◌, refl, sym, ap, ◌∙◌, subst, Option, none, some, List, [], ◌++◌,
  append_assoc, length, length-append, length-take, take, drop, take-append-drop, concat, All, leb,
  codes, Result, ok, err, Option-cases, inl, inr, arith, if◌then◌else◌,
}
use native.Mathlib.Decide.{dec_le}
use tg_ws_proxy.Proxy.Filled.{same_cut}
use tg_ws_proxy.DefaultDomains.Http.{
  max_header_bytes, Buffered, Ending, header_end, read_more, headers_loop, read_until_headers,
}
use tg_ws_proxy.DefaultDomains.Http.Reads.{Nonempty, IsMore, ended, grown, below, read_more-IsMore}
use tg_ws_proxy.DefaultDomains.Http.Windows.{header_end_lem}

-- The loop ends at the end of the headers; what it has read behind them is kept.
record IsHead (head body : List ℕ) (r : Option (Result (ℕ × Buffered))) : Type 0 where
  kept : List ℕ
  rest : List (List ℕ)
  returns : r ≡ some (ok (length head, (head ++ kept, rest)))
  filled : All Nonempty rest
  whole : kept ++ concat rest ≡ body

-- A round behind `read_more`.
abbrev next : Ending → ℕ → Result Buffered → Option (Result (ℕ × Buffered))
next ending fuel (err e) = some (err e)
next ending fuel (ok (buf, parts)) = headers_loop ending fuel buf parts

abbrev turn : Ending → ℕ → List ℕ → List (List ℕ) → Option ℕ → Option (Result (ℕ × Buffered))
turn ending fuel buf parts (some pos) = some (ok (pos, (buf, parts)))
turn ending fuel buf parts none =
    if leb max_header_bytes (length buf)
    then some (err (codes "HTTP response headers exceed limit"))
    else next ending fuel (read_more ending buf parts max_header_bytes)

module _ (ending : Ending) (head body : List ℕ) (is_end : header_end head ≡ some (length head))
    (small : length head ≤ max_header_bytes) where
  complete :
      (buf : List ℕ) (parts : List (List ℕ))
      → buf ++ concat parts ≡ head ++ body
      → length head ≤ length buf
      → (buf ≡ head ++ drop (length head) buf) × (drop (length head) buf ++ concat parts ≡ body)
  complete buf parts e h =
      let n = length head in
      let (same, follows) =
        same_cut (take n buf) (drop n buf ++ concat parts) head body n
          (omega (arith, length-take n buf)) refl
          (sym (append_assoc (take n buf) (drop n buf) (concat parts))
            ∙ ap (λ x. x ++ concat parts) (take-append-drop n buf)
            ∙ e) in
      (sym (take-append-drop n buf) ∙ ap (λ x. x ++ drop n buf) same, follows)

  unfinished :
      (buf : List ℕ) (parts : List (List ℕ))
      → buf ++ concat parts ≡ head ++ body
      → length buf < length head
      → header_end buf ≡ none
  unfinished buf parts e h = elim (Option-cases (header_end buf)) [
    | inl gone ↦ gone
    | inr (k, found) ↦
        let (fits, stays) = header_end_lem buf k found in
        let (_, ends) = header_end_lem head (length head) is_end in
        let same : k ≡ length head =
          ap (λ o. elim o as (λ _. ℕ) [ none ↦ 0 | some n ↦ n ])
            (sym (stays (concat parts)) ∙ ap header_end e ∙ ends body) in
        absurd (omega (arith, fits, same))
  ]

  loop-IsHead :
      (fuel : ℕ) (buf : List ℕ) (parts : List (List ℕ))
      → length (concat parts) < fuel
      → All Nonempty parts
      → buf ++ concat parts ≡ head ++ body
      → IsHead head body (headers_loop ending fuel buf parts)
  unfolding headers_loop
  loop-IsHead zero buf parts h filled e = absurd (omega arith)
  loop-IsHead (suc fuel) buf parts h filled e = elim (dec_le (length head) (length buf)) [
    | yes all_here ↦
        let (cut, follows) = complete buf parts e all_here in
        let found =
          ap header_end cut
          ∙ (header_end_lem head (length head) is_end).1 (drop (length head) buf) in
        record {
          kept = drop (length head) buf;
          rest = parts;
          returns =
              ap (turn ending fuel buf parts) found
              ∙ ap (λ x. some (ok (length head, (x, parts)))) cut;
          filled = filled;
          whole = follows;
        }
    | no short ↦
        subst (IsHead head body)
          (sym (
            ap (turn ending fuel buf parts) (unfinished buf parts e (omega arith))
            ∙ ap
                (λ c.
                  if c
                  then some (err (codes "HTTP response headers exceed limit"))
                  else next ending fuel (read_more ending buf parts max_header_bytes))
                (below max_header_bytes (length buf) (omega arith))))
          (more (omega arith) (read_more ending buf parts max_header_bytes)
            (read_more-IsMore ending max_header_bytes buf parts (omega arith) filled)
            (λ chunk rest some_read ok_rest s.
              loop-IsHead fuel (buf ++ chunk) rest
                (omega (arith, ap length s, length-append chunk (concat rest))) ok_rest
                (append_assoc buf chunk (concat rest) ∙ ap (λ x. buf ++ x) s ∙ e)))
  ]
    where
      more :
          length buf < length head
          → (r : Result Buffered) → IsMore ending max_header_bytes buf (concat parts) r
          → ((chunk : List ℕ) (rest : List (List ℕ))
              → 0 < length chunk
              → All Nonempty rest
              → chunk ++ concat rest ≡ concat parts
              → IsHead head body (headers_loop ending fuel (buf ++ chunk) rest))
          → IsHead head body (next ending fuel r)
      more short _ (ended none_left) go = absurd (
          omega (
            arith,
            ap length e,
            length-append buf (concat parts),
            ap length none_left,
            length-append head body,
          ))
      more short _ (grown chunk rest some_read fits ok_rest s) go =
          go chunk rest some_read ok_rest s

  -- A response whose headers end with its first empty line, within 64 KiB, is read up to there,
  -- however it is cut into parts that are not empty; and what was read behind the headers, with
  -- what is still unread, is the rest of the response.
  pub read_until_headers_lem :
      (parts : List (List ℕ))
      → All Nonempty parts
      → concat parts ≡ head ++ body
      → (kept : List ℕ) × (rest : List (List ℕ)) × (read_until_headers ending parts
          ≡ some (ok (length head, (head ++ kept, rest))))
        × All Nonempty rest
        × (kept ++ concat rest ≡ body)
  unfolding read_until_headers
  read_until_headers_lem parts filled e =
      let r = loop-IsHead (suc (length (concat parts))) [] parts (omega arith) filled e in
      (r.kept, r.rest, r.returns, r.filled, r.whole)
