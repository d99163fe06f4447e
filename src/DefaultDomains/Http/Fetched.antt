-- ===== src/DefaultDomains/Http/Fetched.antt =====
-- rust/src/default_domains/http.rs, `read_http_response_body`: the body is read whole.
use tg_ws_proxy.Base.{
  ℕ, ◌≤◌, ◌≡◌, refl, ap, ap₂, ◌∙◌, true, false, Option, none, some, List, ◌++◌, length,
  length-append, take, take-append, drop-append, take-all, concat, All, ltb, leb, codes, le→not_ltb,
  le→leb, Result, ok, err, arith, if◌then◌else◌,
}
use tg_ws_proxy.FakeTls.Utf8.{is_utf8}
use tg_ws_proxy.DefaultDomains.Http.{
  max_header_bytes, max_body_bytes, Ending, chars_of, header_end, http_header_count,
  read_content_length_body, read_until_eof_limited,
}
use tg_ws_proxy.DefaultDomains.Http.Reads.{Nonempty, end_text, limit_text}
use tg_ws_proxy.DefaultDomains.Http.Head.{read_until_headers_lem}
use tg_ws_proxy.DefaultDomains.Http.Chunked.{read_chunked_body}
use tg_ws_proxy.DefaultDomains.Http.Bodies.{
  at_close, read_content_length_body_lem, read_until_eof_limited_lem,
}
use tg_ws_proxy.DefaultDomains.Http.Response.{
  Header, Parsed, complete, is_chunked, content_length, read_body, text_of, on_parsed,
  read_http_response_body,
}

-- The declared length is that of the body, or there is none and the stream ends without a failure.
abbrev pub Fits : Ending → Option ℕ → List ℕ → Type 0
Fits ending none body = (ending ≡ none) × (length body ≤ max_body_bytes)
Fits ending (some len) body = (len ≡ length body) × (length body ≤ max_body_bytes)

abbrev by_length : Ending → Option ℕ → List ℕ → List (List ℕ) → Option (Result (List ℕ))
by_length ending (some len) body parts = read_content_length_body ending body parts len
by_length ending none body parts = read_until_eof_limited ending body parts

by_length-whole :
    (ending : Ending) (declared_len : Option ℕ) (kept body : List ℕ) (rest : List (List ℕ))
    → Fits ending declared_len body
    → All Nonempty rest
    → kept ++ concat rest ≡ body
    → by_length ending declared_len kept rest ≡ some (ok body)
by_length-whole ending none kept body rest fits filled e =
    read_until_eof_limited_lem ending kept rest
      (omega (arith, fits.1, ap length e, length-append kept (concat rest))) filled
    ∙ ap (λ x. some (if ltb max_body_bytes (length x) then err limit_text else at_close ending x)) e
    ∙ ap (λ b. some (if b then err limit_text else at_close ending body))
        (le→not_ltb max_body_bytes (length body) fits.1)
    ∙ ap (λ x. some (at_close x body)) fits.0
by_length-whole ending (some len) kept body rest fits filled e =
    read_content_length_body_lem ending kept rest len filled
    ∙ ap (λ b. some (if b then err limit_text else declared (kept ++ concat rest)))
        (le→not_ltb max_body_bytes len (omega (arith, fits.0, fits.1)))
    ∙ ap (λ x. some (declared x)) e
    ∙ ap (λ b. some (if b then ok (take len body) else err (end_text ending)))
        (le→leb len (length body) (omega (arith, fits.0)))
    ∙ ap (λ x. some (ok x)) (take-all len body (omega (arith, fits.0)))
  where
    declared : List ℕ → Result (List ℕ)
    declared whole = if leb len (length whole) then ok (take len whole) else err (end_text ending)

read_body-whole :
    (ending : Ending) (headers : List Header) (declared_len : Option ℕ) (kept body : List ℕ)
    (rest : List (List ℕ))
    → is_chunked headers ≡ false
    → Fits ending declared_len body
    → All Nonempty rest
    → kept ++ concat rest ≡ body
    → read_body ending headers declared_len kept rest ≡ some (ok body)
unfolding read_body
read_body-whole ending headers none kept body rest plain fits filled e =
    ap (λ c. if c then read_chunked_body ending kept rest else by_length ending none kept rest)
      plain
    ∙ by_length-whole ending none kept body rest fits filled e
read_body-whole ending headers (some len) kept body rest plain fits filled e =
    ap
      (λ c. if c then read_chunked_body ending kept rest else by_length ending (some len) kept rest)
      plain
    ∙ by_length-whole ending (some len) kept body rest fits filled e

on_parsed-whole :
    (ending : Ending) (headers : List Header) (declared_len : Option ℕ) (kept body : List ℕ)
    (rest : List (List ℕ))
    → content_length headers ≡ ok declared_len
    → is_chunked headers ≡ false
    → Fits ending declared_len body
    → is_utf8 body ≡ true
    → All Nonempty rest
    → kept ++ concat rest ≡ body
    → on_parsed ending (ok (complete (some 200) headers)) kept rest ≡ some (ok (chars_of body))
unfolding on_parsed text_of
on_parsed-whole ending headers declared_len kept body rest counts plain fits utf8 filled whole =
    rw (counts, on_parsed)
      (ap text_of
          (read_body-whole ending headers declared_len kept body rest plain fits filled whole)
        ∙ ap
            (λ b.
              some
                (if b then ok (chars_of body) else err (codes "response body is not valid UTF-8")))
            utf8)

-- A response with status 200 arrives in any parts that are not empty. Its headers end with its first
-- empty line, within 64 KiB; they do not announce chunks, and they declare the body's length or
-- none, in which case the body ends with the stream and no read fails; the body has at most 256 KiB and is valid
-- UTF-8. Then the reader gives exactly the body's text.
pub read_http_response_body-whole :
    (ending : Ending) (parse : ℕ → List ℕ → Result Parsed) (headers : List Header)
    (declared_len : Option ℕ) (head body : List ℕ) (parts : List (List ℕ))
    → header_end head ≡ some (length head)
    → length head ≤ max_header_bytes
    → parse (http_header_count head) head ≡ ok (complete (some 200) headers)
    → content_length headers ≡ ok declared_len
    → is_chunked headers ≡ false
    → Fits ending declared_len body
    → is_utf8 body ≡ true
    → All Nonempty parts
    → concat parts ≡ head ++ body
    → read_http_response_body ending parse parts ≡ some (ok (chars_of body))
unfolding read_http_response_body
read_http_response_body-whole ending parse headers declared_len head body parts is_end small parses
      counts plain fits utf8 filled e =
    let (kept, rest, returns, ok_rest, whole) =
      read_until_headers_lem ending head body is_end small parts filled e in
    rw (returns, read_http_response_body)
      (ap₂ (λ x y. on_parsed ending (parse (http_header_count x) x) y rest)
          (take-append head kept (length head) refl) (drop-append head kept (length head) refl)
        ∙ ap (λ r. on_parsed ending r kept rest) parses
        ∙ on_parsed-whole ending headers declared_len kept body rest counts plain fits utf8 ok_rest
            whole)
