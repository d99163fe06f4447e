-- ===== src/DefaultDomains/Http/Bodies.antt =====
-- rust/src/default_domains/http.rs: a body is what arrived, however it was cut into parts.
use tg_ws_proxy.Base.{
  ℕ, zero, suc, ◌+◌, ◌-◌, min, max, ◌≤◌, ◌<◌, ◌≡◌, refl, sym, ap, ◌∙◌, Option, none, some, List, [],
  ◌∷◌, ◌++◌, append_assoc, append-nil, length, length-append, take, concat, All, is_empty, leb, ltb,
  Bool, le→leb, lt→ltb, le→not_ltb, if◌then◌else◌, Bool-cases, inl, inr, Result, ok, err, arith,
}
use native.Mathlib.Decide.{dec_le, dec_lt}
use tg_ws_proxy.DefaultDomains.Http.{
  max_body_bytes, Buffered, Ending, read_failed, read_some, read_more, length_loop,
  read_content_length_body, eof_loop, read_until_eof_limited,
}
use tg_ws_proxy.DefaultDomains.Http.Reads.{
  Nonempty, end_text, limit_text, IsRead, at_end, fails, took, read_some-IsRead, IsMore, ended,
  grown, below, read_more-IsMore,
}

-- The loop of a body of declared length.
abbrev Declared : Ending → ℕ → List ℕ → Result (List ℕ)
Declared ending len whole =
    if leb len (length whole) then ok (take len whole) else err (end_text ending)

take_front : (len : ℕ) (xs ys : List ℕ) → len ≤ length xs → take len (xs ++ ys) ≡ take len xs
take_front zero xs ys h = refl
take_front (suc len) [] ys h = absurd (omega arith)
take_front (suc len) (x ∷ xs) ys h = ap (◌∷◌ x) (take_front len xs ys (omega arith))

-- A round of the loop behind `read_more`.
abbrev next : Ending → ℕ → ℕ → Result Buffered → Option (Result (List ℕ))
next ending fuel len (err e) = some (err e)
next ending fuel len (ok (body, parts)) = length_loop ending fuel body parts len

length_loop-Declared :
    (ending : Ending) (fuel : ℕ) (body : List ℕ) (parts : List (List ℕ)) (len : ℕ)
    → length (concat parts) < fuel
    → All Nonempty parts
    → length_loop ending fuel body parts len ≡ some (Declared ending len (body ++ concat parts))
unfolding length_loop
length_loop-Declared ending zero body parts len h filled = absurd (omega arith)
length_loop-Declared ending (suc fuel) body parts len h filled = elim (dec_le len (length body)) [
  | yes enough ↦
      rw
        (
          le→leb len (length body) enough,
          length_loop,
          le→leb len (length (body ++ concat parts))
              (omega (arith, length-append body (concat parts))),
        )
        (ap (λ x. some (ok x)) (sym (take_front len body (concat parts) enough)))
  | no short ↦
      ap
        (λ b.
          if b
          then some (ok (take len body))
          else next ending fuel len (read_more ending body parts len))
        (below len (length body) (omega arith))
      ∙ more (omega arith) (read_more ending body parts len)
          (read_more-IsMore ending len body parts (omega arith) filled)
          (λ chunk rest some_read ok_rest e.
            length_loop-Declared ending fuel (body ++ chunk) rest len
              (omega (arith, ap length e, length-append chunk (concat rest))) ok_rest)
]
  where
    more :
        length body < len
        → (r : Result Buffered) → IsMore ending len body (concat parts) r
        → ((chunk : List ℕ) (rest : List (List ℕ))
            → 0 < length chunk
            → All Nonempty rest
            → chunk ++ concat rest ≡ concat parts
            → length_loop ending fuel (body ++ chunk) rest len
              ≡ some (Declared ending len ((body ++ chunk) ++ concat rest)))
        → next ending fuel len r ≡ some (Declared ending len (body ++ concat parts))
    more short _ (ended e) go =
        ap (λ b. some (if b then ok (take len (body ++ concat parts)) else err (end_text ending)))
          (sym (
            below len (length (body ++ concat parts))
              (omega (arith, ap length e, length-append body (concat parts)))))
    more short _ (grown chunk rest some_read fits ok_rest e) go =
        go chunk rest some_read ok_rest e
        ∙ ap (λ x. some (Declared ending len x))
            (append_assoc body chunk (concat rest) ∙ ap (λ x. body ++ x) e)

-- With a declared length a body is refused if it is above 256 KiB; otherwise it is the first bytes
-- of what arrives, of exactly that length and however it is cut into parts, or an error if the
-- stream ends or fails before. No part that arrives is empty.
pub read_content_length_body_lem :
    (ending : Ending) (body : List ℕ) (parts : List (List ℕ)) (len : ℕ)
    → All Nonempty parts
    → read_content_length_body ending body parts len
      ≡ some (
          if ltb max_body_bytes len
          then err limit_text
          else if leb len (length (body ++ concat parts))
          then ok (take len (body ++ concat parts))
          else err (end_text ending))
unfolding read_content_length_body
read_content_length_body_lem ending body parts len filled =
    elim (Bool-cases (ltb max_body_bytes len)) [
      | inl big ↦ rw (big, read_content_length_body) refl
      | inr small ↦
          rw
            (
              small,
              read_content_length_body,
              length_loop-Declared ending (suc (length (concat parts))) body parts len (omega arith)
                  filled,
            )
            refl
    ]

-- Without a declared length.
abbrev pub at_close : Ending → List ℕ → Result (List ℕ)
at_close none whole = ok whole
at_close (some reason) whole = err (read_failed reason)

abbrev Bounded : Ending → List ℕ → Result (List ℕ)
Bounded ending whole =
    if ltb max_body_bytes (length whole) then err limit_text else at_close ending whole

eof_loop-Bounded :
    (ending : Ending) (fuel : ℕ) (body : List ℕ) (parts : List (List ℕ))
    → length (concat parts) < fuel
    → length body ≤ max_body_bytes
    → All Nonempty parts
    → eof_loop ending fuel body parts ≡ some (Bounded ending (body ++ concat parts))
unfolding eof_loop
eof_loop-Bounded ending zero body parts h small filled = absurd (omega arith)
eof_loop-Bounded ending (suc fuel) body parts h small filled =
    ap (λ b. if b then some (err limit_text) else turn (read_some ending room parts))
      (le→not_ltb max_body_bytes (length body) small)
    ∙ more (read_some ending room parts) (read_some-IsRead ending room parts (omega arith) filled)
        (λ chunk rest some_read fits ok_rest e.
          eof_loop-Bounded ending fuel (body ++ chunk) rest
            (omega (arith, ap length e, length-append chunk (concat rest)))
            (omega (arith, length-append body chunk)) ok_rest)
  where
    room : ℕ
    room = min (max (max_body_bytes - length body) 1) 8192

    turn : Result Buffered → Option (Result (List ℕ))
    turn (err e) = some (err e)
    turn (ok r) =
        if is_empty r.0
        then some (ok body)
        else if ltb max_body_bytes (length body + length r.0)
        then some (err limit_text)
        else eof_loop ending fuel (body ++ r.0) r.1

    closes :
        (x : Ending)
        → ending ≡ x
        → concat parts ≡ []
        → some (at_close x body) ≡ some (Bounded ending (body ++ concat parts))
    closes x same e =
        ap (λ y. some (at_close y body)) (sym same)
        ∙ ap (λ b. some (if b then err limit_text else at_close ending body))
            (sym (le→not_ltb max_body_bytes (length body) small))
        ∙ ap (λ y. some (Bounded ending y)) (sym (ap (λ y. body ++ y) e ∙ append-nil body))

    more :
        (r : Result Buffered)
        → IsRead ending room (concat parts) r
        → ((chunk : List ℕ) (rest : List (List ℕ))
            → 0 < length chunk
            → length body + length chunk ≤ max_body_bytes
            → All Nonempty rest
            → chunk ++ concat rest ≡ concat parts
            → eof_loop ending fuel (body ++ chunk) rest
              ≡ some (Bounded ending ((body ++ chunk) ++ concat rest)))
        → turn r ≡ some (Bounded ending (body ++ concat parts))
    more _ (at_end clean e) go = closes none clean e
    more _ (fails reason broken e) go = closes (some reason) broken e
    more _ (took b bs rest fits ok_rest e) go =
        let chunk : List ℕ = b ∷ bs in
        let grown : ℕ = length body + length chunk in
        let on : Bool → Option (Result (List ℕ)) =
          λ c. if c then some (err limit_text) else eof_loop ending fuel (body ++ chunk) rest in
        elim (dec_lt max_body_bytes grown) [
          | yes big ↦
              ap on (lt→ltb max_body_bytes grown big)
              ∙ ap
                  (λ c. some (if c then err limit_text else at_close ending (body ++ concat parts)))
                  (sym (
                    lt→ltb max_body_bytes (length (body ++ concat parts)) (
                      omega (
                        arith,
                        length-append body (concat parts),
                        length-append chunk (concat rest),
                        ap length e,
                      ))))
          | no fit ↦
              ap on (le→not_ltb max_body_bytes grown (omega arith))
              ∙ go chunk rest (omega arith) (omega arith) ok_rest e
              ∙ ap (λ x. some (Bounded ending x))
                  (append_assoc body chunk (concat rest) ∙ ap (λ x. body ++ x) e)
        ]

-- Without a declared length a body is all that arrives before the end, however it is cut into
-- parts, or an error if that is more than 256 KiB
-- or the stream fails. It starts with what came with the headers, which
-- is no more than this, and no part that arrives is empty.
pub read_until_eof_limited_lem :
    (ending : Ending) (body : List ℕ) (parts : List (List ℕ))
    → length body ≤ max_body_bytes
    → All Nonempty parts
    → read_until_eof_limited ending body parts
      ≡ some (
          if ltb max_body_bytes (length (body ++ concat parts))
          then err limit_text
          else at_close ending (body ++ concat parts))
unfolding read_until_eof_limited
read_until_eof_limited_lem ending body parts small filled =
    eof_loop-Bounded ending (suc (length (concat parts))) body parts (omega arith) small filled
