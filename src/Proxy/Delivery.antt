-- ===== src/Proxy/Delivery.antt =====
-- rust/src/proxy.rs, `bridge_relay` and `bridge_tcp`: what a direction of a bridge delivers.
use tg_ws_proxy.Base.{
  ℕ, ◌+◌, ◌%◌, ◌^◌, ◌≤◌, ◌<◌, ◌≡◌, refl, sym, ap, ap₂, ◌∙◌, subst, none, some, List, [], ◌∷◌, ◌++◌,
  append_assoc, append-nil, length, length-append, length-eq_zero, inl, inr, Option-cases, arith,
}
use native.Mathlib.Nat.{mod-add-mod}
use tg_ws_proxy.Crypto.Cipher.{Primitives, Cipher, crypt, advance, xor_from}
use tg_ws_proxy.Proxy.Bridge.{Sink, take_send, write_all, add_bytes}
use tg_ws_proxy.Proxy.Upload.{recode_lem}
use tg_ws_proxy.Proxy.Download.{recode_all}
use tg_ws_proxy.Proxy.Session.{
  ClientReader, Task, Round, goes_on, stops, read, write_out, pass_on, round,
}
use tg_ws_proxy.Proxy.Carry.{
  Holds, Carries, Carries-nil, Carries-append, write_all-Carries, IsNext, read-IsNext,
}

module _ (P : Primitives) where
  -- The bytes as the other side of the session gets them.
  abbrev pub passed : Task → List ℕ → List ℕ
  passed t bytes = crypt P t.enc (crypt P t.dec bytes)

  -- From `start` on, the first of the bytes were delivered, and exactly these were counted.
  pub record HasPassed (start : Task) (bytes : List ℕ) (t : Task) : Type 0 where
    pub before : List ℕ
    pub after : List ℕ
    pub written : List ℕ
    pub splits : before ++ after ≡ bytes
    pub wire : t.wire ≡ start.wire ++ written
    pub carries : Carries start.writer written (passed start before)
    pub counted : t.count ≡ (start.count + length before) % 2 ^ 64

  -- The same while the loop goes on: the rest of the bytes is still to be read.
  pub record IsAlong (start : Task) (bytes : List ℕ) (t : Task) : Type 0 where
    pub so_far : HasPassed start bytes t
    pub holds : Holds t.source so_far.after
    pub dec : t.dec ≡ advance P start.dec (length so_far.before)
    pub enc : t.enc ≡ advance P start.enc (length so_far.before)
    pub writer : t.writer ≡ start.writer
    pub roomy : 16384 ≤ t.room
    pub steady : start.sink ≡ none → t.sink ≡ none

  pub data IsRound (start : Task) (bytes : List ℕ) (left : ℕ) : Round → Type 0 where
    onward :
        (t : Task) (along : IsAlong start bytes t)
        → length along.so_far.after < left
        → IsRound start bytes left (goes_on t)
    over :
        (t : Task) (done : HasPassed start bytes t)
        → (start.sink ≡ none → done.before ≡ bytes)
        → IsRound start bytes left (stops t)

  stopped :
      (start : Task) (bytes : List ℕ) (t : Task) (a : IsAlong start bytes t) (source : ClientReader)
      → HasPassed start bytes (record t { source = source })
  stopped start bytes t a source =
      let d = a.so_far in
      record {
        before = d.before;
        after = d.after;
        written = d.written;
        splits = d.splits;
        wire = d.wire;
        carries = d.carries;
        counted = d.counted;
      }

  module _ (start : Task) (bytes : List ℕ) (t : Task) (a : IsAlong start bytes t) (chunk : List ℕ)
      (source : ClientReader) (left : List ℕ) (holds : Holds source left)
      (splits : chunk ++ left ≡ a.so_far.after) (some_read : 0 < length chunk) where
    abbrev out : List ℕ
    out = crypt P t.enc (crypt P t.dec chunk)

    abbrev cut_off : Task
    cut_off = record t {
      source = source;
      dec = advance P t.dec (length chunk);
      enc = advance P t.enc (length chunk);
    }

    abbrev moved : Sink → List ℕ → Task
    moved sink wire = record t {
      source = source;
      sink = sink;
      dec = advance P t.dec (length chunk);
      enc = advance P t.enc (length chunk);
      wire = t.wire ++ wire;
      count = add_bytes t.count (length chunk);
    }

    cut_off-HasPassed : HasPassed start bytes cut_off
    cut_off-HasPassed =
        let d = a.so_far in
        record {
          before = d.before;
          after = d.after;
          written = d.written;
          splits = d.splits;
          wire = d.wire;
          carries = d.carries;
          counted = d.counted;
        }

    -- What is encrypted now continues what was encrypted before.
    continues : passed start a.so_far.before ++ out ≡ passed start (a.so_far.before ++ chunk)
    continues =
        ap₂ (λ c d. passed start a.so_far.before ++ crypt P c (crypt P d chunk)) a.enc a.dec
        ∙ recode_all P start.dec start.enc a.so_far.before chunk

    moved-HasPassed :
        (sink : Sink) (wire : List ℕ)
        → Carries start.writer wire out
        → HasPassed start bytes (moved sink wire)
    unfolding add_bytes
    moved-HasPassed sink wire c =
        let d = a.so_far in
        record {
          before = d.before ++ chunk;
          after = left;
          written = d.written ++ wire;
          splits = append_assoc d.before chunk left ∙ ap (◌++◌ d.before) splits ∙ d.splits;
          wire = ap (λ w. w ++ wire) d.wire ∙ append_assoc start.wire d.written wire;
          carries =
              subst (Carries start.writer (d.written ++ wire)) continues
                (Carries-append d.carries c);
          counted =
              ap (λ n. (n + length chunk) % 2 ^ 64) d.counted
              ∙ mod-add-mod (start.count + length d.before) (2 ^ 64) (length chunk)
              ∙ ap (λ n. n % 2 ^ 64) (omega (arith, length-append d.before chunk));
        }

    moved_cipher :
        (now at_start : Cipher)
        → now ≡ advance P at_start (length a.so_far.before)
        → advance P now (length chunk) ≡ advance P at_start (length (a.so_far.before ++ chunk))
    moved_cipher now at_start e =
        ap (λ c. advance P c (length chunk)) e
        ∙ ap (λ n. record at_start { pos = n }) (omega (arith, length-append a.so_far.before chunk))

    moved-IsAlong :
        (sink : Sink) (wire : List ℕ)
        → take_send t.sink ≡ some sink
        → Carries start.writer wire out
        → IsAlong start bytes (moved sink wire)
    unfolding moved-HasPassed
    moved-IsAlong sink wire sent c = record {
      so_far = moved-HasPassed sink wire c;
      holds = holds;
      dec = moved_cipher t.dec start.dec a.dec;
      enc = moved_cipher t.enc start.enc a.enc;
      writer = a.writer;
      roomy = a.roomy;
      steady = λ e. still (a.steady e) sent;
    }
      where
        still : t.sink ≡ none → take_send t.sink ≡ some sink → sink ≡ none
        still e f = unfold take_send in cc (rw e at f)

    abbrev next_ciphers : List ℕ × Cipher × Cipher
    next_ciphers = (out, advance P t.dec (length chunk), advance P t.enc (length chunk))

    refused : take_send t.sink ≡ none → write_out t chunk source next_ciphers ≡ some (stops cut_off)
    unfolding write_out
    refused fails = rw (fails, write_out) refl

    taken :
        (sink : Sink) (wire : List ℕ)
        → take_send t.sink ≡ some sink
        → write_all t.writer out ≡ some wire
        → write_out t chunk source next_ciphers ≡ some (goes_on (moved sink wire))
    unfolding write_out
    taken sink wire sent returns = rw (sent, returns, write_out) refl

    pass_on-IsRound :
        (r : Round) × (pass_on P t chunk source ≡ some r)
        × IsRound start bytes (length a.so_far.after) r
    unfolding pass_on moved-IsAlong moved-HasPassed cut_off-HasPassed
    pass_on-IsRound = elim (Option-cases (take_send t.sink)) [
      | inl fails ↦ (
        stops cut_off,
        ap (write_out t chunk source) (recode_lem P t.dec t.enc chunk) ∙ refused fails,
        over cut_off cut_off-HasPassed (λ e. absurd (open_sink (a.steady e) fails)),
      )
      | inr (sink, sent) ↦
          let (wire, returns, c) = write_all-Carries t.writer out in
          let c' = subst (λ w. Carries w wire out) a.writer c in
          (
            goes_on (moved sink wire),
            ap (write_out t chunk source) (recode_lem P t.dec t.enc chunk)
                ∙ taken sink wire sent returns,
            onward (moved sink wire) (moved-IsAlong sink wire sent c')
                (omega (arith, ap length splits, length-append chunk left)),
          )
    ]
      where
        open_sink : t.sink ≡ none → take_send t.sink ≡ none → ⊥
        open_sink e f = unfold take_send in cc (rw e at f)

  nothing_left :
      (start : Task) (bytes : List ℕ) (t : Task) (a : IsAlong start bytes t)
      → length a.so_far.after ≡ 0
      → a.so_far.before ≡ bytes
  nothing_left start bytes t a h =
      sym (append-nil a.so_far.before)
      ∙ ap (◌++◌ a.so_far.before) (sym (length-eq_zero a.so_far.after h))
      ∙ a.so_far.splits

  pub round-IsRound :
      (start : Task) (bytes : List ℕ) (t : Task) (a : IsAlong start bytes t)
      → (r : Round) × (round P t ≡ some r) × IsRound start bytes (length a.so_far.after) r
  unfolding round stopped
  round-IsRound start bytes t a = by_chunk n.chunk n.returns n.splits n.ends
    where
      n : IsNext a.so_far.after (read t.room t.source)
      n = read-IsNext t.room t.source a.so_far.after a.roomy a.holds

      by_chunk :
          (chunk : List ℕ)
          → read t.room t.source ≡ some (chunk, n.source)
          → chunk ++ n.left ≡ a.so_far.after
          → (length chunk ≡ 0 → length a.so_far.after ≡ 0)
          → (r : Round) × (round P t ≡ some r) × IsRound start bytes (length a.so_far.after) r
      by_chunk [] e s empty = (
        stops (record t { source = n.source }),
        rw (e, round) refl,
        over (record t { source = n.source }) (stopped start bytes t a n.source)
            (λ e. nothing_left start bytes t a (empty refl)),
      )
      by_chunk (b ∷ bs) e s empty =
          let (r, returns, ok) =
            pass_on-IsRound start bytes t a (b ∷ bs) n.source n.left n.holds s (omega arith) in
          (r, rw (e, round) returns, ok)

  pub start-IsAlong :
      (start : Task) (bytes : List ℕ)
      → Holds start.source bytes
      → 16384 ≤ start.room
      → start.count < 2 ^ 64
      → IsAlong start bytes start
  start-IsAlong start bytes h roomy small = record {
    so_far = record {
      before = [];
      after = bytes;
      written = [];
      splits = refl;
      wire = sym (append-nil start.wire);
      carries = unfold crypt xor_from in Carries-nil start.writer;
      counted = omega arith;
    };
    holds = h;
    dec = ap (λ n. record start.dec { pos = n }) (omega arith);
    enc = ap (λ n. record start.enc { pos = n }) (omega arith);
    writer = refl;
    roomy = roomy;
    steady = λ e. e;
  }
