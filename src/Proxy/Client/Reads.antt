-- ===== src/Proxy/Client/Reads.antt =====
-- rust/src/proxy.rs: the reads that the upload loop of `bridge_ws` gets from its reader.
use tg_ws_proxy.Base.{
  ℕ, zero, suc, ◌+◌, ◌≤◌, ◌<◌, ◌≡◌, refl, sym, ap, ◌∙◌, Option, none, some, List, [], ◌∷◌, ◌++◌,
  length, length-append, concat, All, arith,
}
use tg_ws_proxy.Proxy.Upload.{IsRead}
use tg_ws_proxy.Proxy.Filled.{records}
use tg_ws_proxy.Proxy.Session.{ClientReader, plain, fake_tls, read, client_read_buf_size}
use tg_ws_proxy.Proxy.Carry.{Holds, in_parts, in_records, read-IsNext}

-- The reads up to the end of the stream; `none` means that the fuel ran out.
unfoldable pub reads_from : ℕ → ClientReader → Option (List (List ℕ))
reads_from zero source = none
reads_from (suc fuel) source = elim (read client_read_buf_size source) [
  | none ↦ none
  | some ([], source) ↦ some []
  | some (b ∷ bs, source) ↦ elim (reads_from fuel source) [
    | none ↦ none
    | some chunks ↦ some ((b ∷ bs) ∷ chunks)
  ]
]

-- A read that is not the last takes a byte at least.
unfoldable pub reads_of : ClientReader → Option (List (List ℕ))
unfolding reads_from
reads_of (plain parts) = reads_from (suc (length (concat parts))) (plain parts)
reads_of (fake_tls pending stream) =
    reads_from (suc (length pending + length stream)) (fake_tls pending stream)

abbrev Given : List ℕ → Option (List (List ℕ)) → Type 0
Given bytes r =
    (chunks : List (List ℕ)) × (r ≡ some chunks) × All IsRead chunks × (concat chunks ≡ bytes)

length-nil : (xs : List ℕ) → length xs ≡ 0 → xs ≡ []
length-nil [] h = refl
length-nil (x ∷ xs) h = absurd (omega arith)

-- One read, and then what the rest gives.
one_read :
    (fuel : ℕ) (source : ClientReader) (bytes chunk : List ℕ) (after : ClientReader) (left : List ℕ)
    → read client_read_buf_size source ≡ some (chunk, after)
    → chunk ++ left ≡ bytes
    → (length chunk ≡ 0 → length bytes ≡ 0)
    → (0 < length chunk → Given left (reads_from fuel after))
    → Given bytes (reads_from (suc fuel) source)
unfolding reads_from
one_read fuel source bytes [] after left returns splits ends go =
    ([], rw (returns, reads_from) refl, tt, sym (length-nil bytes (ends refl)))
one_read fuel source bytes (b ∷ bs) after left returns splits ends go =
    let (chunks, rest, ok, whole) = go (omega arith) in
    (
      (b ∷ bs) ∷ chunks,
      rw (returns, reads_from) (rw rest refl),
      (refl, ok),
      ap (λ x. (b ∷ bs) ++ x) whole ∙ splits,
    )

reads_from-Given :
    (fuel : ℕ) (source : ClientReader) (bytes : List ℕ)
    → Holds source bytes
    → length bytes < fuel
    → Given bytes (reads_from fuel source)
reads_from-Given zero source bytes held h = absurd (omega arith)
reads_from-Given (suc fuel) source bytes held h =
    let r = read-IsNext client_read_buf_size source bytes (omega arith) held in
    one_read fuel source bytes r.chunk r.source r.left r.returns r.splits r.ends (λ some_read.
      reads_from-Given fuel r.source r.left r.holds
        (omega (arith, some_read, length-append r.chunk r.left, ap length r.splits)))

length-records : (chunks : List (List ℕ)) → length (concat chunks) ≤ length (records chunks)
length-records [] = omega arith
length-records (c ∷ cs) =
    omega (arith, length-append c (concat cs), length-append c (records cs), length-records cs)

-- The loop reads every byte that the reader holds, and then ends.
pub reads_of-Holds :
    (source : ClientReader) (bytes : List ℕ)
    → Holds source bytes
    → (chunks : List (List ℕ)) × (reads_of source ≡ some chunks)
      × All IsRead chunks
      × (concat chunks ≡ bytes)
unfolding reads_of
reads_of-Holds source bytes (in_parts parts _ ok e) =
    reads_from-Given (suc (length (concat parts))) _ bytes (in_parts parts _ ok e)
      (omega (arith, ap length e))
reads_of-Holds source bytes (in_records pending chunks stream _ ok s e) =
    reads_from-Given (suc (length pending + length stream)) _ bytes
      (in_records pending chunks stream _ ok s e)
      (omega (
        arith,
        ap length e,
        ap length s,
        length-append pending (concat chunks),
        length-records chunks,
      ))
