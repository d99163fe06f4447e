-- ===== src/FakeTls/Framing.antt =====
-- The data phase of rust/src/faketls.rs: what `write_tls_appdata` writes, `read_tls_appdata` reads.
use tg_ws_proxy.Base.{
  ℕ, zero, suc, ◌+◌, ◌/◌, ◌%◌, min, ◌-◌, ◌≤◌, ◌<◌, ◌≡◌, refl, sym, ap, ◌∙◌, Option, none, some,
  List, [], ◌∷◌, ◌++◌, arith, length, length-append, length-take, length-drop, drop, concat, All,
  take-append-drop, take-append, drop-append, drop-drop, drop-all, slice, u16_to_be, u16_from_be,
  le→not_ltb, lt→ltb, ◌>>=◌, ◌<◌,
}
use native.Mathlib.Decide.{dec_lt}
use tg_ws_proxy.FakeTls.Record.{
  tls_max_record_payload, Turn, done, again, next_turn, read_turn, read_exact, read_from,
  write_from, read_tls_appdata, write_tls_appdata, tls_record_application_data, tls_version_12,
  tls_max_appdata_write,
}

-- What `write_tls_appdata` puts before a chunk of `n` bytes.
abbrev pub appdata_header : ℕ → List ℕ
appdata_header n = tls_record_application_data ∷ (tls_version_12 ++ u16_to_be n)

word : (n : ℕ) → n ≤ 16384 → u16_from_be (n / 256 % 256) (n % 256) ≡ n
word n h = omega arith

pub read_exact-append :
    (xs ys : List ℕ) (n : ℕ) → n ≡ length xs → read_exact n (xs ++ ys) ≡ some (xs, ys)
read_exact-append xs ys n e =
    rw
      (
        le→not_ltb (length (xs ++ ys)) n (omega (arith, length-append xs ys)),
        take-append xs ys n e,
        drop-append xs ys n e,
      )
      refl

read_turn-appdata :
    (room : ℕ) (version chunk rest : List ℕ)
    → length chunk ≤ room
    → read_turn room tls_record_application_data version (length chunk) (chunk ++ rest)
      ≡ done chunk rest
unfolding read_turn
read_turn-appdata room version chunk rest fits =
    rw (le→not_ltb room (length chunk) fits, read_exact-append chunk rest (length chunk) refl) refl

next_turn-header :
    (turn : ℕ → List ℕ → ℕ → List ℕ → Turn (List ℕ)) (n : ℕ) (rest : List ℕ)
    → n ≤ 16384
    → next_turn [] turn (appdata_header n ++ rest)
      ≡ turn tls_record_application_data tls_version_12 n rest
unfolding next_turn
next_turn-header turn n rest small =
    rw (read_exact-append (appdata_header n) rest 5 refl, next_turn)
      (ap (λ k. turn tls_record_application_data tls_version_12 k rest) (word n small))

-- One record is read as its payload, where the buffer has room for it.
pub read_appdata :
    (fuel room : ℕ) (chunk rest : List ℕ)
    → length chunk ≤ 16384
    → length chunk ≤ room
    → read_from (suc fuel) room (appdata_header (length chunk) ++ (chunk ++ rest))
      ≡ some (chunk, rest)
unfolding read_from
read_appdata fuel room chunk rest small fits =
    rw
      (
        next_turn-header (read_turn room) (length chunk) (chunk ++ rest) small
            ∙ read_turn-appdata room tls_version_12 chunk rest fits,
        read_from,
      )
      refl

-- A round gives a payload that fits, or goes on with fewer than `n` bytes.
IsGoodTurn : ℕ → ℕ → Turn (List ℕ) → Type 0
IsGoodTurn room n (done payload rest) = length payload ≤ room
IsGoodTurn room n (again rest) = length rest < n

read_turn-IsGoodTurn :
    (room n record_type : ℕ) (version : List ℕ) (len : ℕ) (stream : List ℕ)
    → length stream < n
    → IsGoodTurn room n (read_turn room record_type version len stream)
unfolding read_turn IsGoodTurn
read_turn-IsGoodTurn room n record_type version len stream h =
    ground (arith, length-take len stream, length-drop len stream)

next_turn-IsGoodTurn :
    (room n : ℕ) (stream : List ℕ)
    → length stream < n + 5
    → IsGoodTurn room n (next_turn [] (read_turn room) stream)
unfolding next_turn IsGoodTurn
next_turn-IsGoodTurn room n stream h = elim (dec_lt (length stream) 5) [
  | yes p ↦ rw (lt→ltb (length stream) 5 p, next_turn) (omega arith)
  | no p ↦
      rw (le→not_ltb (length stream) 5 (omega arith), next_turn)
        (read_turn-IsGoodTurn room n _ _ _ (drop 5 stream) (omega (arith, length-drop 5 stream)))
]

read_from_total :
    (fuel room : ℕ) (stream : List ℕ)
    → length stream < fuel
    → (payload : List ℕ) × (rest : List ℕ) × (read_from fuel room stream ≡ some (payload, rest))
      × (length payload ≤ room)
unfolding read_from IsGoodTurn
read_from_total zero room stream h = absurd (omega arith)
read_from_total (suc fuel) room stream h =
    go (next_turn [] (read_turn room) stream) (next_turn-IsGoodTurn room fuel stream (omega arith))
      refl (read_from_total fuel room)
  where
    go :
        (t : Turn (List ℕ))
        → IsGoodTurn room fuel t
        → next_turn [] (read_turn room) stream ≡ t
        → ((rest : List ℕ)
            → length rest < fuel
            → (payload : List ℕ) × (left : List ℕ) × (read_from fuel room rest
                ≡ some (payload, left))
              × (length payload ≤ room))
        → (payload : List ℕ) × (rest : List ℕ) × (read_from (suc fuel) room stream
            ≡ some (payload, rest))
          × (length payload ≤ room)
    go (done payload rest) good e more = (payload, rest, rw (e, read_from) refl, good)
    go (again rest) good e more =
        let (payload, left, r, fits) = more rest (omega arith) in
        (payload, left, rw (e, read_from) r, fits)

-- Reading until `Ok(0)`, as the relays of rust/src/proxy.rs do: the payloads in order.
abbrev pub read_all : ℕ → ℕ → List ℕ → Option (List (List ℕ))
read_all zero room stream = none
read_all (suc fuel) room stream = read_tls_appdata room stream >>= λ r. elim r.0 [
  | [] ↦ some []
  | b ∷ bs ↦ read_all fuel room r.1 >>= λ more. some ((b ∷ bs) ∷ more)
]

read_all-step :
    (fuel room : ℕ) (chunk more : List ℕ) (chunks : List (List ℕ))
    → 0 < length chunk
    → length chunk ≤ 16384
    → length chunk ≤ room
    → read_all fuel room more ≡ some chunks
    → read_all (suc fuel) room (appdata_header (length chunk) ++ (chunk ++ more))
      ≡ some (chunk ∷ chunks)
unfolding read_tls_appdata
read_all-step fuel room [] more chunks pos small fits e = absurd (omega arith)
read_all-step fuel room (c ∷ cs) more chunks pos small fits e =
    rw
      (
        read_appdata (length (appdata_header (length (c ∷ cs)) ++ ((c ∷ cs) ++ more))) room (c ∷ cs)
            more small fits,
        read_tls_appdata,
      )
      (rw e refl)

read_all-nil : (fuel room : ℕ) → read_all (suc fuel) room [] ≡ some []
unfolding read_tls_appdata read_from next_turn
read_all-nil fuel room = refl

-- What a sender writes from `offset` on, and what the receiver gets.
record IsCarried (fuel room : ℕ) (data_in : List ℕ) (offset : ℕ) (r : Option (List ℕ))
    : Type 0 where
  wire : List ℕ
  returns : r ≡ some wire
  chunks : List (List ℕ)
  reads : read_all fuel room wire ≡ some chunks
  whole : concat chunks ≡ drop offset data_in
  small : All (λ c. length c ≤ tls_max_record_payload) chunks

module _ (room : ℕ) (roomy : 16384 ≤ room) (data_in : List ℕ) where
  nothing_more :
      (wf rf offset : ℕ)
      → length data_in ≤ offset
      → IsCarried (suc rf) room data_in offset (write_from (suc wf) data_in offset)
  unfolding write_from
  nothing_more wf rf offset h = record {
    wire = [];
    returns = rw (le→not_ltb offset (length data_in) h, write_from) refl;
    chunks = [];
    reads = read_all-nil rf room;
    whole = sym (drop-all offset data_in h);
    small = tt;
  }

  abbrev end_of : ℕ → ℕ
  end_of offset = min (offset + tls_max_appdata_write) (length data_in)

  one_more :
      (wf rf offset : ℕ)
      → offset < length data_in
      → IsCarried rf room data_in (end_of offset) (write_from wf data_in (end_of offset))
      → IsCarried (suc rf) room data_in offset (write_from (suc wf) data_in offset)
  unfolding write_from
  one_more wf rf offset h k =
      let end : ℕ = end_of offset in
      let chunk = slice offset end data_in in
      let l : length chunk ≡ end - offset =
        omega
          (arith, length-take (end - offset) (drop offset data_in), length-drop offset data_in) in
      let gap : end ≡ offset + (end - offset) = omega arith in
      record {
        wire = appdata_header (length chunk) ++ (chunk ++ k.wire);
        returns = rw (lt→ltb offset (length data_in) h, write_from) (rw k.returns refl);
        chunks = chunk ∷ k.chunks;
        reads =
            read_all-step rf room chunk k.wire k.chunks (omega arith) (omega arith) (omega arith)
              k.reads;
        whole =
            ap (◌++◌ chunk) (
              k.whole
              ∙ ap (λ n. drop n data_in) gap
              ∙ sym (drop-drop (end - offset) offset data_in))
            ∙ take-append-drop (end - offset) (drop offset data_in);
        small = (omega arith, k.small);
      }

  carried :
      (wf rf offset : ℕ)
      → offset ≤ length data_in
      → length data_in < wf + offset
      → length data_in < rf + offset
      → IsCarried rf room data_in offset (write_from wf data_in offset)
  carried zero rf offset le h k = absurd (omega arith)
  carried (suc wf) zero offset le h k = absurd (omega arith)
  carried (suc wf) (suc rf) offset le h k = elim (dec_lt offset (length data_in)) [
    | yes p ↦
        one_more wf rf offset p
          (carried wf rf (end_of offset) (omega arith) (omega arith) (omega arith))
    | no p ↦ nothing_more wf rf offset (omega arith)
  ]

-- Whatever is sent, `write_tls_appdata` writes records that `read_tls_appdata`, called until it
-- returns `Ok(0)` with a buffer for a whole record, reads as chunks of at most 16,384 bytes that
-- put together are the data; as many calls as there are bytes, and one more, are enough.
pub write_tls_appdata-read :
    (room : ℕ) (data_in : List ℕ)
    → 16384 ≤ room
    → (wire : List ℕ) × (chunks : List (List ℕ)) × (write_tls_appdata data_in ≡ some wire)
      × (read_all (suc (length data_in)) room wire ≡ some chunks)
      × (concat chunks ≡ data_in)
      × All (λ c. length c ≤ tls_max_record_payload) chunks
unfolding write_tls_appdata
write_tls_appdata-read room data_in roomy =
    let k =
      carried room roomy data_in (suc (length data_in)) (suc (length data_in)) 0 (omega arith)
        (omega arith) (omega arith) in
    (k.wire, k.chunks, k.returns, k.reads, k.whole, k.small)

-- Any stream at all is read to an answer: the loop does not run for ever, since a record that is
-- skipped takes at least its header.
pub read_tls_appdata_total :
    (room : ℕ) (stream : List ℕ)
    → (payload : List ℕ) × (rest : List ℕ) × (read_tls_appdata room stream ≡ some (payload, rest))
      × (length payload ≤ room)
unfolding read_tls_appdata
read_tls_appdata_total room stream = read_from_total (suc (length stream)) room stream (omega arith)
