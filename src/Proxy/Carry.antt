-- ===== src/Proxy/Carry.antt =====
-- rust/src/proxy.rs: what a reader holds and what a writer has written, as bytes of the session.
use tg_ws_proxy.Base.{
  ℕ, zero, suc, ◌+◌, ◌-◌, min, ◌≤◌, ◌<◌, ◌≡◌, refl, sym, ap, ◌∙◌, false, Option, some, List, [],
  ◌∷◌, ◌++◌, append_assoc, length, length-take, length-drop, take, drop, take-append-drop,
  drop-drop, drop-all, slice, concat, concat-append, All, All-append, leb, lt→ltb, le→not_ltb,
  le→leb, arith,
}
use native.Mathlib.Decide.{dec_lt, dec_le}
use tg_ws_proxy.FakeTls.Record.{
  read_tls_appdata, write_tls_appdata, write_from, tls_max_appdata_write,
}
use tg_ws_proxy.FakeTls.Framing.{appdata_header, read_appdata}
use tg_ws_proxy.Proxy.Bridge.{ClientWriter, write_all}
use tg_ws_proxy.Proxy.Filled.{records, IsChunk}
use tg_ws_proxy.Proxy.Session.{ClientReader, plain, fake_tls, read_plain, read}

-- The bytes that a reader still gives: parts that are not empty, or records behind what is pending.
pub data Holds : ClientReader → List ℕ → Type 0 where
  in_parts :
      (parts : List (List ℕ)) (bytes : List ℕ)
      → All (λ part. 0 < length part) parts
      → concat parts ≡ bytes
      → Holds (plain parts) bytes
  in_records :
      (pending : List ℕ) (chunks : List (List ℕ)) (stream bytes : List ℕ)
      → All IsChunk chunks
      → stream ≡ records chunks
      → pending ++ concat chunks ≡ bytes
      → Holds (fake_tls pending stream) bytes

-- The bytes that were written: as they are, or in records.
pub data Carries : ClientWriter → List ℕ → List ℕ → Type 0 where
  as_bytes : (wire bytes : List ℕ) → wire ≡ bytes → Carries ClientWriter.plain wire bytes
  as_records :
      (wire bytes : List ℕ) (chunks : List (List ℕ))
      → All IsChunk chunks
      → wire ≡ records chunks
      → concat chunks ≡ bytes
      → Carries ClientWriter.fake_tls wire bytes

records-append : (xs ys : List (List ℕ)) → records (xs ++ ys) ≡ records xs ++ records ys
records-append [] ys = refl
records-append (x ∷ xs) ys =
    ap (λ r. appdata_header (length x) ++ (x ++ r)) (records-append xs ys)
    ∙ ap (◌++◌ (appdata_header (length x))) (sym (append_assoc x (records xs) (records ys)))
    ∙ sym (append_assoc (appdata_header (length x)) (x ++ records xs) (records ys))

pub Carries-nil : (w : ClientWriter) → Carries w [] []
Carries-nil ClientWriter.plain = as_bytes [] [] refl
Carries-nil ClientWriter.fake_tls = as_records [] [] [] tt refl refl

pub Carries-plain : {wire bytes : List ℕ} → Carries ClientWriter.plain wire bytes → wire ≡ bytes
Carries-plain (as_bytes wire bytes e) = e

pub Carries-append :
    {w : ClientWriter} {wire more bytes next : List ℕ}
    → Carries w wire bytes
    → Carries w more next
    → Carries w (wire ++ more) (bytes ++ next)
Carries-append (as_bytes wire bytes e) (as_bytes more next f) = as_bytes _ _ (rw (e, f) refl)
Carries-append (as_records wire bytes cs ok e f) (as_records more next ds ok' e' f') =
    as_records _ _ (cs ++ ds) (All-append IsChunk cs ds ok ok')
      (rw (e, e') (sym (records-append cs ds))) (concat-append cs ds ∙ rw (f, f') refl)

-- What `write_tls_appdata` writes are records of the data.
write_from-records :
    (fuel : ℕ) (data_in : List ℕ) (offset : ℕ)
    → offset ≤ length data_in
    → length data_in < fuel + offset
    → (chunks : List (List ℕ)) × (write_from fuel data_in offset ≡ some (records chunks))
      × All IsChunk chunks
      × (concat chunks ≡ drop offset data_in)
unfolding write_from
write_from-records zero data_in offset le h = absurd (omega arith)
write_from-records (suc fuel) data_in offset le h = elim (dec_lt offset (length data_in)) [
  | no p ↦ (
    [],
    rw (le→not_ltb offset (length data_in) (omega arith), write_from) refl,
    tt,
    sym (drop-all offset data_in (omega arith)),
  )
  | yes p ↦
      let end : ℕ = min (offset + tls_max_appdata_write) (length data_in) in
      let (chunks, returns, ok, whole) =
        write_from-records fuel data_in end (omega arith) (omega arith) in
      let l : length (slice offset end data_in) ≡ end - offset =
        omega
          (arith, length-take (end - offset) (drop offset data_in), length-drop offset data_in) in
      let gap : end ≡ offset + (end - offset) = omega arith in
      (
        slice offset end data_in ∷ chunks,
        rw (lt→ltb offset (length data_in) p, write_from) (rw returns refl),
        ((omega arith, omega arith), ok),
        ap (◌++◌ (slice offset end data_in))
              (whole ∙ ap (λ n. drop n data_in) gap ∙ sym (drop-drop (end - offset) offset data_in))
            ∙ take-append-drop (end - offset) (drop offset data_in),
      )
]

pub write_tls_appdata-records :
    (data_in : List ℕ)
    → (chunks : List (List ℕ)) × (write_tls_appdata data_in ≡ some (records chunks))
      × All IsChunk chunks
      × (concat chunks ≡ data_in)
unfolding write_tls_appdata
write_tls_appdata-records data_in =
    write_from-records (suc (length data_in)) data_in 0 (omega arith) (omega arith)

pub write_all-Carries :
    (w : ClientWriter) (bytes : List ℕ)
    → (wire : List ℕ) × (write_all w bytes ≡ some wire) × Carries w wire bytes
unfolding write_all
write_all-Carries ClientWriter.plain bytes = (bytes, refl, as_bytes bytes bytes refl)
write_all-Carries ClientWriter.fake_tls bytes =
    let (chunks, returns, ok, whole) = write_tls_appdata-records bytes in
    (records chunks, returns, as_records (records chunks) bytes chunks ok refl whole)

-- A read gives the next of the bytes, and gives none only at their end.
pub record IsNext (bytes : List ℕ) (r : Option (List ℕ × ClientReader)) : Type 0 where
  pub chunk : List ℕ
  pub source : ClientReader
  pub left : List ℕ
  pub returns : r ≡ some (chunk, source)
  pub holds : Holds source left
  pub splits : chunk ++ left ≡ bytes
  pub ends : length chunk ≡ 0 → length bytes ≡ 0

read_tls-record :
    (room : ℕ) (c : List ℕ) (cs : List (List ℕ))
    → 16384 ≤ room
    → length c ≤ 16384
    → read_tls_appdata room (records (c ∷ cs)) ≡ some (c, records cs)
unfolding read_tls_appdata
read_tls-record room c cs roomy h =
    read_appdata (length (records (c ∷ cs))) room c (records cs) h (omega arith)

read_tls-nil : (room : ℕ) → read_tls_appdata room [] ≡ some ([], [])
unfolding read_tls_appdata
read_tls-nil room = refl

read_parts-IsNext :
    (room : ℕ) (part : List ℕ) (parts : List (List ℕ)) (bytes : List ℕ)
    → 16384 ≤ room
    → All (λ part. 0 < length part) (part ∷ parts)
    → concat (part ∷ parts) ≡ bytes
    → IsNext bytes (read room (plain (part ∷ parts)))
unfolding read
read_parts-IsNext room part parts bytes roomy ok e = elim (dec_le (length part) room) [
  | yes fits ↦ record {
    chunk = part;
    source = plain parts;
    left = concat parts;
    returns = rw (le→leb (length part) room fits, read) refl;
    holds = in_parts parts _ ok.1 refl;
    splits = e;
    ends = λ h. absurd (omega (arith, ok.0));
  }
  | no big ↦ record {
    chunk = take room part;
    source = plain (drop room part ∷ parts);
    left = drop room part ++ concat parts;
    returns = rw (too_long (omega arith), read) refl;
    holds = in_parts (drop room part ∷ parts) _ (omega (arith, length-drop room part), ok.1) refl;
    splits =
        sym (append_assoc (take room part) (drop room part) (concat parts))
        ∙ ap (λ x. x ++ concat parts) (take-append-drop room part)
        ∙ e;
    ends = λ h. absurd (omega (arith, length-take room part));
  }
]
  where
    too_long : room < length part → leb (length part) room ≡ false
    too_long h = ground arith

pub read-IsNext :
    (room : ℕ) (source : ClientReader) (bytes : List ℕ)
    → 16384 ≤ room
    → Holds source bytes
    → IsNext bytes (read room source)
unfolding read read_plain
read-IsNext room source bytes roomy (in_parts [] _ ok e) = record {
  chunk = [];
  source = plain [];
  left = [];
  returns = refl;
  holds = in_parts [] [] tt refl;
  splits = e;
  ends = λ h. omega (arith, ap length e);
}
read-IsNext room source bytes roomy (in_parts (part ∷ parts) _ ok e) =
    read_parts-IsNext room part parts bytes roomy ok e
read-IsNext room source bytes roomy (in_records [] [] stream _ ok s e) = record {
  chunk = [];
  source = fake_tls [] [];
  left = [];
  returns = rw (s, read, read_tls-nil room) refl;
  holds = in_records [] [] [] [] tt refl refl;
  splits = e;
  ends = λ h. omega (arith, ap length e);
}
read-IsNext room source bytes roomy (in_records [] (c ∷ cs) stream _ ok s e) = record {
  chunk = c;
  source = fake_tls [] (records cs);
  left = concat cs;
  returns = rw (s, read, read_tls-record room c cs roomy ok.0.1) refl;
  holds = in_records [] cs (records cs) _ ok.1 refl refl;
  splits = e;
  ends = λ h. absurd (omega (arith, ok.0.0));
}
read-IsNext room source bytes roomy (in_records (b ∷ bs) cs stream _ ok s e) =
    let n : ℕ = min room (length (b ∷ bs)) in
    record {
      chunk = take n (b ∷ bs);
      source = fake_tls (drop n (b ∷ bs)) stream;
      left = drop n (b ∷ bs) ++ concat cs;
      returns = refl;
      holds = in_records (drop n (b ∷ bs)) cs stream _ ok s refl;
      splits =
          sym (append_assoc (take n (b ∷ bs)) (drop n (b ∷ bs)) (concat cs))
          ∙ ap (λ x. x ++ concat cs) (take-append-drop n (b ∷ bs))
          ∙ e;
      ends = λ h. absurd (omega (arith, length-take n (b ∷ bs)));
    }
