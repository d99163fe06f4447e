-- ===== src/DefaultDomains/Http.antt =====
-- rust/src/default_domains/http.rs: the reader of an HTTP response. The
-- parser of the crate httparse is an argument. A reader is the list of what arrives, each part when it
-- does, and the reason if the read behind them fails.
pub mod Reads
pub mod Bodies
pub mod Windows
pub mod Head
pub mod Chunked
pub mod Response
pub mod Fetched
use tg_ws_proxy.Base.{
  ℕ, zero, suc, ◌+◌, ◌-◌, ◌*◌, ◌^◌, min, max, Bool, true, false, not, ◌&&◌, ◌||◌, Option, none,
  some, List, [], ◌∷◌, ◌++◌, length, take, drop, concat, is_empty, bytes_eq, leb, ltb, ◌==◌,
  if◌then◌else◌, codes, Text, starts_with, trim, trim_start, trim_end, is_whitespace, to_lower,
  to_ascii_lowercase, split_on, parse_word, parse_digits, Result, ok, err,
}
use tg_ws_proxy.FakeTls.Utf8.{is_utf8}
use tg_ws_proxy.Proxy.Session.{read_plain}

abbrev pub max_header_bytes : ℕ
max_header_bytes = 65536

abbrev pub max_body_bytes : ℕ
max_body_bytes = 262144

-- The characters of valid UTF-8.
unfoldable pub chars_of : List ℕ → Text
chars_of [] = []
chars_of (a ∷ []) = a ∷ []
chars_of (a ∷ b ∷ []) = if ltb a 0x80 then a ∷ b ∷ [] else ((a - 0xc0) * 64 + (b - 0x80)) ∷ []
chars_of (a ∷ b ∷ c ∷ []) =
    if ltb a 0x80
    then a ∷ chars_of (b ∷ c ∷ [])
    else if ltb a 0xe0
    then ((a - 0xc0) * 64 + (b - 0x80)) ∷ c ∷ []
    else ((a - 0xe0) * 4096 + (b - 0x80) * 64 + (c - 0x80)) ∷ []
chars_of (a ∷ b ∷ c ∷ d ∷ s) =
    let one = chars_of (b ∷ c ∷ d ∷ s) in
    let two = chars_of (c ∷ d ∷ s) in
    let three = chars_of (d ∷ s) in
    let four = chars_of s in
    if ltb a 0x80
    then a ∷ one
    else if ltb a 0xe0
    then ((a - 0xc0) * 64 + (b - 0x80)) ∷ two
    else if ltb a 0xf0
    then ((a - 0xe0) * 4096 + (b - 0x80) * 64 + (c - 0x80)) ∷ three
    else ((a - 0xf0) * 262144 + (b - 0x80) * 4096 + (c - 0x80) * 64 + (d - 0x80)) ∷ four

-- `windows(n).position(|w| w == pattern)`
unfoldable pub find_window : List ℕ → List ℕ → Option ℕ
unfolding starts_with
find_window pattern [] = none
find_window pattern (b ∷ bs) =
    let rest = find_window pattern bs in
    if starts_with (b ∷ bs) pattern
    then some 0
    else elim rest [ none ↦ none | some pos ↦ some (suc pos) ]

unfoldable pub header_end : List ℕ → Option ℕ
unfolding find_window
header_end buf = elim (find_window (0x0d ∷ 0x0a ∷ 0x0d ∷ 0x0a ∷ []) buf) [
  | none ↦ none
  | some pos ↦ some (pos + 4)
]

unfoldable pub http_header_count : List ℕ → ℕ
unfolding starts_with
http_header_count [] = 0
http_header_count (b ∷ bs) =
    (if starts_with (b ∷ bs) (0x0d ∷ 0x0a ∷ []) then 1 else 0) + http_header_count bs

-- What was read, and the reader behind it.
abbrev pub Buffered : Type 0
Buffered = List ℕ × List (List ℕ)

-- How the stream ends behind the parts: with the end, or with a read that fails for a reason.
abbrev pub Ending : Type 0
Ending = Option Text

abbrev pub read_failed : Text → Text
read_failed reason = codes "read: " ++ reason

-- Behind the read.
abbrev pub grow : List ℕ → Result Buffered → Result Buffered
grow buf (err e) = err e
grow buf (ok (chunk, rest)) =
    if is_empty chunk
    then err (codes "unexpected EOF while reading HTTP response")
    else ok (buf ++ chunk, rest)

module _ (ending : Ending) where
  -- `reader.read` of at most so many bytes.
  unfoldable pub read_some : ℕ → List (List ℕ) → Result Buffered
  unfolding read_plain
  read_some room (part ∷ parts) = ok (read_plain room (part ∷ parts))
  read_some room [] = elim ending [ none ↦ ok ([], []) | some reason ↦ err (read_failed reason) ]

  unfoldable pub read_more : List ℕ → List (List ℕ) → ℕ → Result Buffered
  unfolding read_some
  read_more buf parts limit =
      if leb limit (length buf)
      then err (codes "HTTP response exceeds limit")
      else grow buf (read_some (min (limit - length buf) 8192) parts)

  -- The loops; the outer `none` means that the fuel ran out, which is a byte more than arrives, as a
  -- round that goes on reads a byte at least.
  unfoldable pub headers_loop : ℕ → List ℕ → List (List ℕ) → Option (Result (ℕ × Buffered))
  unfolding header_end read_more
  headers_loop zero buf parts = none
  headers_loop (suc fuel) buf parts = elim (header_end buf) [
    | some pos ↦ some (ok (pos, (buf, parts)))
    | none ↦
        if leb max_header_bytes (length buf)
        then some (err (codes "HTTP response headers exceed limit"))
        else elim (read_more buf parts max_header_bytes) [
          | err e ↦ some (err e)
          | ok (buf, parts) ↦ headers_loop fuel buf parts
        ]
  ]

  unfoldable pub read_until_headers : List (List ℕ) → Option (Result (ℕ × Buffered))
  unfolding headers_loop
  read_until_headers parts = headers_loop (suc (length (concat parts))) [] parts

  unfoldable pub length_loop : ℕ → List ℕ → List (List ℕ) → ℕ → Option (Result (List ℕ))
  unfolding read_more
  length_loop zero body parts len = none
  length_loop (suc fuel) body parts len =
      if leb len (length body) then some (ok (take len body)) else elim (read_more body parts len) [
        | err e ↦ some (err e)
        | ok (body, parts) ↦ length_loop fuel body parts len
      ]

  unfoldable pub read_content_length_body : List ℕ → List (List ℕ) → ℕ → Option (Result (List ℕ))
  unfolding length_loop
  read_content_length_body body parts len =
      if ltb max_body_bytes len
      then some (err (codes "HTTP response body exceeds limit"))
      else length_loop (suc (length (concat parts))) body parts len

  unfoldable pub eof_loop : ℕ → List ℕ → List (List ℕ) → Option (Result (List ℕ))
  unfolding read_some
  eof_loop zero body parts = none
  eof_loop (suc fuel) body parts =
      let remaining = max_body_bytes - length body in
      let turn =
        elim (read_some (min (max remaining 1) 8192) parts) as (λ _. Option (Result (List ℕ))) [
          | err e ↦ some (err e)
          | ok (chunk, rest) ↦
              let next = eof_loop fuel (body ++ chunk) rest in
              if is_empty chunk
              then some (ok body)
              else if ltb max_body_bytes (length body + length chunk)
              then some (err (codes "HTTP response body exceeds limit"))
              else next
        ] in
      if ltb max_body_bytes (length body)
      then some (err (codes "HTTP response body exceeds limit"))
      else turn

  unfoldable pub read_until_eof_limited : List ℕ → List (List ℕ) → Option (Result (List ℕ))
  unfolding eof_loop
  read_until_eof_limited body parts = eof_loop (suc (length (concat parts))) body parts
