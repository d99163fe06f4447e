-- ===== src/DefaultDomains/Http/Response.antt =====
-- rust/src/default_domains/http.rs, `read_http_response_body`: the headers choose the body's reader.
-- What httparse makes of the headers is an argument.
use tg_ws_proxy.Base.{
  ℕ, ◌^◌, Bool, true, false, not, ◌&&◌, ◌||◌, Option, none, some, List, [], ◌∷◌, length, take, drop,
  bytes_eq, ◌==◌, if◌then◌else◌, codes, Text, trim, to_lower, to_ascii_lowercase, split_on,
  parse_word, Result, ok, err,
}
use tg_ws_proxy.FakeTls.Utf8.{is_utf8}
use tg_ws_proxy.DefaultDomains.Http.{
  chars_of, http_header_count, Ending, read_until_headers, read_content_length_body,
  read_until_eof_limited,
}
use tg_ws_proxy.DefaultDomains.Http.Chunked.{read_chunked_body}

pub record Header : Type 0 where
  pub name : Text
  pub value : List ℕ

-- `Response::parse`: the status code and the headers, or that there is not enough of them.
pub data Parsed : Type 0 where
  complete : Option ℕ → List Header → Parsed
  partial : Parsed

unfoldable pub eq_ignore_ascii_case : Text → Text → Bool
unfolding bytes_eq to_ascii_lowercase to_lower
eq_ignore_ascii_case s t = bytes_eq (to_ascii_lowercase s) (to_ascii_lowercase t)

unfoldable pub any_chunked : List Text → Bool
unfolding eq_ignore_ascii_case trim
any_chunked [] = false
any_chunked (part ∷ parts) = eq_ignore_ascii_case (trim part) (codes "chunked") || any_chunked parts

unfoldable pub is_chunked : List Header → Bool
unfolding any_chunked split_on chars_of
is_chunked [] = false
is_chunked (h ∷ headers) =
    (eq_ignore_ascii_case h.name (codes "transfer-encoding")
      && is_utf8 h.value
      && any_chunked (split_on 0x2c (chars_of h.value)))
    || is_chunked headers

-- `parse::<usize>`, on 64 bits.
unfoldable pub length_value : List ℕ → Result ℕ
unfolding parse_word trim chars_of
length_value value =
    if not (is_utf8 value)
    then err (codes "Content-Length is not valid UTF-8")
    else elim (parse_word (2 ^ 64) (trim (chars_of value))) [
      | none ↦ err (codes "invalid Content-Length")
      | some n ↦ ok n
    ]

-- Whether a length agrees with the one before it.
abbrev agrees : Option ℕ → ℕ → Bool
agrees none n = true
agrees (some previous) n = previous == n

unfoldable pub content_length_from : Option ℕ → List Header → Result (Option ℕ)
unfolding eq_ignore_ascii_case length_value
content_length_from length [] = ok length
content_length_from length (h ∷ headers) =
    let skipped = content_length_from length headers in
    let counted : Result (Option ℕ) = elim (length_value h.value) as (λ _. Result (Option ℕ)) [
      | err e ↦ err e
      | ok n ↦
          let rest = content_length_from (some n) headers in
          if agrees length n then rest else err (codes "conflicting Content-Length headers")
    ] in
    if eq_ignore_ascii_case h.name (codes "content-length") then counted else skipped

unfoldable pub content_length : List Header → Result (Option ℕ)
unfolding content_length_from
content_length headers = content_length_from none headers

unfoldable pub text_of : Option (Result (List ℕ)) → Option (Result Text)
unfolding chars_of
text_of none = none
text_of (some (err e)) = some (err e)
text_of (some (ok body)) =
    some
      (if is_utf8 body then ok (chars_of body) else err (codes "response body is not valid UTF-8"))

module _ (ending : Ending) where
  -- Behind the headers: the reader of the body.
  unfoldable pub read_body :
      List Header → Option ℕ → List ℕ → List (List ℕ) → Option (Result (List ℕ))
  unfolding is_chunked read_chunked_body read_content_length_body read_until_eof_limited
  read_body headers declared_len body parts =
      if is_chunked headers then read_chunked_body ending body parts else elim declared_len [
        | some len ↦ read_content_length_body ending body parts len
        | none ↦ read_until_eof_limited ending body parts
      ]

  unfoldable pub on_parsed : Result Parsed → List ℕ → List (List ℕ) → Option (Result Text)
  unfolding content_length read_body text_of
  on_parsed (err e) body parts = some (err e)
  on_parsed (ok partial) body parts = some (err (codes "incomplete HTTP response headers"))
  on_parsed (ok (complete none headers)) body parts =
      some (err (codes "response status line has no status code"))
  on_parsed (ok (complete (some code) headers)) body parts =
      if not (code == 200)
      then some (err (codes "HTTP status"))
      else elim (content_length headers) [
        | err e ↦ some (err e)
        | ok declared_len ↦ text_of (read_body headers declared_len body parts)
      ]

  -- `parse` gets as many header slots as there are line ends in the headers.
  unfoldable pub read_http_response_body :
      (ℕ → List ℕ → Result Parsed) → List (List ℕ) → Option (Result Text)
  unfolding read_until_headers on_parsed
  read_http_response_body parse parts = elim (read_until_headers ending parts) [
    | none ↦ none
    | some (err e) ↦ some (err e)
    | some (ok (header_len, (buf, parts))) ↦
        let head = take header_len buf in
        on_parsed (parse (http_header_count head) head) (drop header_len buf) parts
  ]
