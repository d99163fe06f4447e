-- ===== src/FakeTls/Record.antt =====
-- rust/src/faketls.rs: TLS records, written and read. A reader is the list of the bytes the peer
-- sends until the stream ends or fails; a writer is the list of the bytes that were written to it.
use tg_ws_proxy.Base.{
  ℕ, zero, suc, ◌+◌, min, ◌||◌, not, Bool, false, Option, none, some, List, [], ◌∷◌, ◌++◌, length,
  take, drop, slice, get_or, ltb, ◌==◌, bytes_eq, if◌then◌else◌, u16_from_be, u16_to_be, ◌>>=◌,
}

abbrev pub tls_record_handshake : ℕ
tls_record_handshake = 0x16

abbrev pub tls_record_change_cipher_spec : ℕ
tls_record_change_cipher_spec = 0x14

abbrev pub tls_record_application_data : ℕ
tls_record_application_data = 0x17

abbrev pub tls_version_12 : List ℕ
tls_version_12 = 0x03 ∷ 0x03 ∷ []

abbrev pub tls_max_record_payload : ℕ
tls_max_record_payload = 16384

abbrev pub tls_max_appdata_write : ℕ
tls_max_appdata_write = tls_max_record_payload

abbrev pub tls_max_handshake_records : ℕ
tls_max_handshake_records = 20

-- `read_exact`: the bytes and what stays unread, or `none` at the end of the stream.
abbrev pub read_exact : ℕ → List ℕ → Option (List ℕ × List ℕ)
read_exact n stream = if ltb (length stream) n then none else some (take n stream, drop n stream)

-- What `push_tls_record` appends to `out`.
unfoldable pub tls_record : ℕ → List ℕ → List ℕ
tls_record record_type payload =
    record_type ∷ (tls_version_12 ++ (u16_to_be (length payload) ++ payload))

unfoldable pub push_tls_record : List ℕ → ℕ → List ℕ → List ℕ
unfolding tls_record
push_tls_record out record_type payload = out ++ tls_record record_type payload

-- `payload_len` of a 5-byte header.
abbrev pub payload_len : List ℕ → ℕ
payload_len header = u16_from_be (get_or header 3 0) (get_or header 4 0)

-- `Ok(None)`, an error of the second read, or a record with what stays unread.
pub data RecordRead : Type 0 where
  no_record : RecordRead
  broken : RecordRead
  record_read : ℕ → List ℕ → List ℕ → List ℕ → RecordRead

unfoldable pub read_tls_record : ℕ → List ℕ → RecordRead
read_tls_record max_payload_len stream = elim (read_exact 5 stream) [
  | none ↦ no_record
  | some (header, stream) ↦
      if ltb max_payload_len (payload_len header)
      then no_record
      else elim (read_exact (payload_len header) stream) [
        | none ↦ broken
        | some (payload, rest) ↦ record_read (get_or header 0 0) (slice 1 3 header) payload rest
      ]
]

-- One round of a loop that reads records: the loop returns, or goes on; with what stays unread.
pub data Turn {ℓ} (A : Type ℓ) : Type ℓ where
  done : A → List ℕ → Turn A
  again : List ℕ → Turn A

-- A round of `drain_faketls_server_hello` behind the header.
unfoldable pub drain_turn : ℕ → List ℕ → ℕ → List ℕ → Turn Bool
drain_turn record_type version len stream =
    if not (bytes_eq version tls_version_12)
    then done false stream
    else if ltb (tls_max_record_payload + 256) len
    then done false stream
    else elim (read_exact len stream) [
      | none ↦ done false []
      | some (payload, rest) ↦
          if record_type == tls_record_handshake || record_type == tls_record_change_cipher_spec
          then again rest
          else done (record_type == tls_record_application_data) rest
    ]

unfoldable pub next_turn {ℓ} :
    {A : Type ℓ} → A → (ℕ → List ℕ → ℕ → List ℕ → Turn A) → List ℕ → Turn A
next_turn eof turn stream = elim (read_exact 5 stream) [
  | none ↦ done eof []
  | some (header, rest) ↦ turn (get_or header 0 0) (slice 1 3 header) (payload_len header) rest
]

-- The rounds of `drain_faketls_server_hello`: whether the handshake is complete.
unfoldable pub drain_records : ℕ → List ℕ → Bool × List ℕ
unfolding next_turn drain_turn
drain_records zero stream = (false, stream)
drain_records (suc n) stream = elim (next_turn false drain_turn stream) [
  | done complete rest ↦ (complete, rest)
  | again rest ↦ drain_records n rest
]

unfoldable pub drain_faketls_server_hello : List ℕ → Bool × List ℕ
unfolding drain_records
drain_faketls_server_hello stream = drain_records tls_max_handshake_records stream

-- The loop of `write_tls_appdata`: what it writes; `none` means that the fuel ran out.
unfoldable pub write_from : ℕ → List ℕ → ℕ → Option (List ℕ)
write_from zero data_in offset = none
write_from (suc fuel) data_in offset =
    let end = min (offset + tls_max_appdata_write) (length data_in) in
    let chunk = slice offset end data_in in
    let rest = write_from fuel data_in end in
    if ltb offset (length data_in)
    then rest >>= (λ more. some (
        (tls_record_application_data ∷ (tls_version_12 ++ u16_to_be (length chunk)))
        ++ (chunk ++ more)))
    else some []

-- Each round writes a byte at least.
unfoldable pub write_tls_appdata : List ℕ → Option (List ℕ)
unfolding write_from
write_tls_appdata data_in = write_from (suc (length data_in)) data_in 0

-- A round of `read_tls_appdata` with a buffer of `room` bytes, behind the header.
unfoldable pub read_turn : ℕ → ℕ → List ℕ → ℕ → List ℕ → Turn (List ℕ)
read_turn room record_type version len stream =
    if ltb room len
    then done [] stream
    else if record_type == tls_record_application_data
    then elim (read_exact len stream) [
      | none ↦ done [] []
      | some (payload, rest) ↦ done payload rest
    ]
    else if record_type == tls_record_change_cipher_spec
    then elim (read_exact len stream) [ none ↦ done [] [] | some (discard, rest) ↦ again rest ]
    else done [] stream

-- The loop of `read_tls_appdata`: the payload, where `Ok(0)` is the empty one, and what stays
-- unread; `none` means that the fuel ran out.
unfoldable pub read_from : ℕ → ℕ → List ℕ → Option (List ℕ × List ℕ)
unfolding next_turn read_turn
read_from zero room stream = none
read_from (suc fuel) room stream = elim (next_turn [] (read_turn room) stream) [
  | done payload rest ↦ some (payload, rest)
  | again rest ↦ read_from fuel room rest
]

-- A record that is skipped takes 5 bytes at least.
unfoldable pub read_tls_appdata : ℕ → List ℕ → Option (List ℕ × List ℕ)
unfolding read_from
read_tls_appdata room stream = read_from (suc (length stream)) room stream
