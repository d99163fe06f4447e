-- ===== src/DefaultDomains/Http/Chunked.antt =====
-- rust/src/default_domains/http.rs, `read_chunked_body` and `read_chunk_trailers`.
use tg_ws_proxy.Base.{
  ℕ, zero, suc, ◌+◌, ◌-◌, ◌*◌, ◌^◌, not, ◌&&◌, Option, none, some, List, [], ◌∷◌, ◌++◌, length,
  drop, slice, concat, bytes_eq, leb, ltb, ◌==◌, if◌then◌else◌, codes, Text, trim, Result, ok, err,
}
use tg_ws_proxy.FakeTls.Utf8.{is_utf8}
use tg_ws_proxy.DefaultDomains.Http.{
  max_header_bytes, max_body_bytes, chars_of, find_window, Buffered, Ending, read_more,
}

abbrev pub crlf : List ℕ
crlf = 0x0d ∷ 0x0a ∷ []

-- `usize::from_str_radix(.., 16)` behind the sign, on 64 bits.
unfoldable pub hex_digit : ℕ → Option ℕ
hex_digit c =
    if leb b'0' c && leb c b'9'
    then some (c - b'0')
    else if leb b'a' c && leb c b'f'
    then some (c - b'a' + 10)
    else if leb b'A' c && leb c b'F'
    then some (c - b'A' + 10)
    else none

unfoldable pub parse_hex_digits : ℕ → Text → Option ℕ
unfolding hex_digit
parse_hex_digits n [] = some n
parse_hex_digits n (c ∷ s) = elim (hex_digit c) [
  | none ↦ none
  | some d ↦
      let rest = parse_hex_digits (n * 16 + d) s in if ltb (n * 16 + d) (2 ^ 64) then rest else none
]

unfoldable pub parse_hex : Text → Option ℕ
unfolding parse_hex_digits
parse_hex [] = none
parse_hex (c ∷ []) = parse_hex_digits 0 (c ∷ [])
parse_hex (c ∷ d ∷ s) =
    if c == b'+' then parse_hex_digits 0 (d ∷ s) else parse_hex_digits 0 (c ∷ d ∷ s)

-- `split_once(';').map_or(line, |(size, _)| size)`
unfoldable pub before_semicolon : Text → Text
before_semicolon [] = []
before_semicolon (c ∷ s) = let rest = before_semicolon s in if c == 0x3b then [] else c ∷ rest

unfoldable pub chunk_size : List ℕ → Result ℕ
unfolding parse_hex before_semicolon chars_of trim
chunk_size line =
    if not (is_utf8 line)
    then err (codes "chunk size is not valid UTF-8")
    else elim (parse_hex (trim (before_semicolon (chars_of line)))) [
      | none ↦ err (codes "invalid chunk size")
      | some size ↦ ok size
    ]

abbrev pub fuel_of : List (List ℕ) → ℕ
fuel_of parts = suc (length (concat parts))

-- A round behind the size line: the chunk's data and the line end behind it.
pub data Chunk : Type 0 where
  finished : Option (Result (List ℕ)) → Chunk
  onward : List ℕ → ℕ → List ℕ → List (List ℕ) → Chunk

unfoldable pub chunk_data : List ℕ → ℕ → ℕ → Option (Result Buffered) → Chunk
unfolding bytes_eq
chunk_data decoded size pos none = finished none
chunk_data decoded size pos (some (err e)) = finished (some (err e))
chunk_data decoded size pos (some (ok (body, parts))) =
    if not (bytes_eq (slice (pos + size) (pos + size + 2) body) crlf)
    then finished (some (err (codes "chunk is missing trailing CRLF")))
    else onward (decoded ++ slice pos (pos + size) body) (pos + size + 2) body parts

module _ (ending : Ending) where
  -- `read_more` while the body is shorter than `need`.
  unfoldable pub fill_up : ℕ → ℕ → List ℕ → List (List ℕ) → Option (Result Buffered)
  unfolding read_more
  fill_up zero need body parts = none
  fill_up (suc fuel) need body parts =
      if leb need (length body)
      then some (ok (body, parts))
      else elim (read_more ending body parts max_body_bytes) [
        | err e ↦ some (err e)
        | ok (body, parts) ↦ fill_up fuel need body parts
      ]

  -- The loop that looks for the end of the line from `pos` on; `limit` is the guard of the trailers.
  unfoldable pub line_loop :
      ℕ → Option ℕ → ℕ → List ℕ → List (List ℕ) → Option (Result (ℕ × Buffered))
  unfolding find_window read_more
  line_loop zero trailer_start pos body parts = none
  line_loop (suc fuel) trailer_start pos body parts = elim (find_window crlf (drop pos body)) [
    | some rel ↦ some (ok (pos + rel, (body, parts)))
    | none ↦
        let more : Option (Result (ℕ × Buffered)) =
          elim (read_more ending body parts max_body_bytes)
            as (λ _. Option (Result (ℕ × Buffered))) [
              | err e ↦ some (err e)
              | ok (body, parts) ↦ line_loop fuel trailer_start pos body parts
            ] in
        elim trailer_start [
          | none ↦ more
          | some start ↦
              if leb max_header_bytes (length body - start)
              then some (err (codes "chunk trailers exceed limit"))
              else more
        ]
  ]

  -- A trailer takes a line of the body, which holds at most 256 KiB: two bytes at least.
  unfoldable pub trailers_loop : ℕ → ℕ → ℕ → List ℕ → List (List ℕ) → Option (Result Buffered)
  unfolding line_loop
  trailers_loop zero trailer_start pos body parts = none
  trailers_loop (suc fuel) trailer_start pos body parts =
      elim (line_loop (fuel_of parts) (some trailer_start) pos body parts) [
        | none ↦ none
        | some (err e) ↦ some (err e)
        | some (ok (line_end, (body, parts))) ↦
            let rest = trailers_loop fuel trailer_start (line_end + 2) body parts in
            if line_end == pos then some (ok (body, parts)) else rest
      ]

  unfoldable pub read_chunk_trailers : ℕ → List ℕ → List (List ℕ) → Option (Result Buffered)
  unfolding trailers_loop
  read_chunk_trailers pos body parts =
      trailers_loop (fuel_of parts + length body) pos pos body parts

  unfoldable pub chunk_turn : List ℕ → ℕ → ℕ → List ℕ → List (List ℕ) → Chunk
  unfolding chunk_data fill_up read_chunk_trailers
  chunk_turn decoded size pos body parts =
      if size == 0
      then finished (elim (read_chunk_trailers pos body parts) [
        | none ↦ none
        | some (err e) ↦ some (err e)
        | some (ok b) ↦ some (ok decoded)
      ])
      else if ltb max_body_bytes (length decoded + size)
      then finished (some (err (codes "HTTP response body exceeds limit")))
      else chunk_data decoded size pos (fill_up (fuel_of parts) (pos + size + 2) body parts)

  -- `decoded.len().saturating_add(size)` saturates above the limit, so the sum is not cut here.
  unfoldable pub chunked_loop : ℕ → List ℕ → ℕ → List ℕ → List (List ℕ) → Option (Result (List ℕ))
  unfolding line_loop chunk_size chunk_turn
  chunked_loop zero decoded pos body parts = none
  chunked_loop (suc fuel) decoded pos body parts =
      elim (line_loop (fuel_of parts) none pos body parts) [
        | none ↦ none
        | some (err e) ↦ some (err e)
        | some (ok (line_end, (body, parts))) ↦ elim (chunk_size (slice pos line_end body)) [
          | err e ↦ some (err e)
          | ok size ↦ elim (chunk_turn decoded size (line_end + 2) body parts) [
            | finished r ↦ r
            | onward decoded pos body parts ↦ chunked_loop fuel decoded pos body parts
          ]
        ]
      ]

  -- A chunk that is not the last takes five bytes of the body at least.
  unfoldable pub read_chunked_body : List ℕ → List (List ℕ) → Option (Result (List ℕ))
  unfolding chunked_loop
  read_chunked_body body parts = chunked_loop (fuel_of parts + length body) [] 0 body parts
