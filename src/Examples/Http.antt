-- ===== src/Examples/Http.antt =====
-- The theorems of rust/src/default_domains/http.rs at concrete inputs.
use tg_ws_proxy.Base.{
  ℕ, ◌≡◌, refl, true, false, none, some, List, [], ◌∷◌, ◌++◌, length, take, drop, concat, ltb, leb,
  if◌then◌else◌, bytes_eq, codes, starts_with, to_lower, to_ascii_lowercase, trim, trim_start,
  trim_end, is_whitespace, parse_word, parse_digits, Result, ok, err, arith,
}
use tg_ws_proxy.FakeTls.Utf8.{is_utf8, utf8_from, lead}
use tg_ws_proxy.DefaultDomains.Http.{
  max_body_bytes, chars_of, header_end, find_window, read_content_length_body,
}
use tg_ws_proxy.DefaultDomains.Http.Reads.{end_text, limit_text}
use tg_ws_proxy.DefaultDomains.Http.Bodies.{read_content_length_body_lem}
use tg_ws_proxy.DefaultDomains.Http.Chunked.{crlf}
use tg_ws_proxy.DefaultDomains.Http.Response.{
  Header, Parsed, complete, is_chunked, content_length, content_length_from, length_value,
  eq_ignore_ascii_case, read_http_response_body,
}
use tg_ws_proxy.DefaultDomains.Http.Fetched.{read_http_response_body-whole}

abbrev head : List ℕ
head = codes "HTTP/1.1 200 OK" ++ (crlf ++ (codes "Content-Length: 5" ++ (crlf ++ crlf)))

abbrev headers : List Header
headers = (record { name = codes "Content-Length"; value = codes "5" }) ∷ []

abbrev parse : ℕ → List ℕ → Result Parsed
parse _ _ = ok (complete (some 200) headers)

-- The headers and the body arrive in two parts, the first with half of the headers.
abbrev parts : List (List ℕ)
parts = take 20 head ∷ (drop 20 head ++ codes "hello") ∷ []

head_ends : header_end head ≡ some (length head)
unfolding header_end find_window starts_with
head_ends = refl

declared : content_length headers ≡ ok (some 5)
unfolding content_length content_length_from length_value eq_ignore_ascii_case bytes_eq
    to_ascii_lowercase to_lower is_utf8 utf8_from lead chars_of trim trim_start trim_end
    is_whitespace parse_word parse_digits
declared = refl

not_chunked : is_chunked headers ≡ false
unfolding is_chunked eq_ignore_ascii_case bytes_eq to_ascii_lowercase to_lower
not_chunked = refl

hello-is_utf8 : is_utf8 (codes "hello") ≡ true
unfolding is_utf8 utf8_from lead
hello-is_utf8 = refl

read_http_response_body-whole_example :
    read_http_response_body none parse parts ≡ some (ok (chars_of (codes "hello")))
read_http_response_body-whole_example =
    read_http_response_body-whole none parse headers (some 5) head (codes "hello") parts head_ends
      (omega arith) refl declared not_chunked (refl, omega arith) hello-is_utf8
      (omega arith, (omega arith, tt)) refl

read_content_length_body_lem_example :
    read_content_length_body (some (codes "reset")) (codes "he") (codes "llo" ∷ []) 7
    ≡ some (
        if ltb max_body_bytes 7
        then err limit_text
        else if leb 7 (length (codes "he" ++ concat (codes "llo" ∷ [])))
        then ok (take 7 (codes "he" ++ concat (codes "llo" ∷ [])))
        else err (end_text (some (codes "reset"))))
read_content_length_body_lem_example =
    read_content_length_body_lem (some (codes "reset")) (codes "he") (codes "llo" ∷ []) 7
      (omega arith, tt)
