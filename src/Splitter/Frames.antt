-- ===== src/Splitter/Frames.antt =====
-- A stream of well-formed packets leaves `split` as one frame for each packet, however the
-- client's bytes were cut into reads.
use tg_ws_proxy.Base.{
  ℕ, suc, ◌+◌, ◌≤◌, ◌≡◌, refl, sym, ap, ap₂, ◌∙◌, subst, false, Option, some, List, [], ◌∷◌, ◌++◌,
  append_assoc, map-append, length-eq_zero, arith, length, length-append, subst₂, drop, concat, All,
  drop-append_left,
}
use tg_ws_proxy.Crypto.Cipher.{Primitives, crypt, crypt-append, length-crypt, crypt_twice}
use tg_ws_proxy.Crypto.Tag.{ProtoTag}
use tg_ws_proxy.Crypto.Session.{build_connection_ciphers}
use tg_ws_proxy.Splitter.Packets.{Packet, IsPacket, encode}
use tg_ws_proxy.Splitter.Split.{MsgSplitter, Scan, scan, finish, append_read, new, split, split_all}
use tg_ws_proxy.Splitter.Lossless.{split-nil, split_on, new-IsShadow}
use tg_ws_proxy.Splitter.Shadow.{
  IsShadow, finish_starved, append_read-IsShadow, drain-IsShadow, length-shadow,
}
use tg_ws_proxy.Splitter.Cuts.{
  encode_all, lengths, sum, cut, cut-append, cut-append_left, IsShort, Cuts, nil_of-append,
  length-encode, scan-Cuts,
}

-- What holds between two calls while packets `ps` are still to come and the client's reads `chunks`
-- carry the rest of them.
record IsBetween (P : Primitives) (base : ℕ) (proto : ProtoTag) (ps : List Packet) (coming : List ℕ)
    (s : MsgSplitter) : Type 0 where
  shadow : IsShadow P base s
  on : s.disabled ≡ false
  same_proto : s.proto ≡ proto
  short : IsShort proto s.plain_buf.bytes ps
  stream : s.plain_buf.bytes ++ crypt P s.dec coming ≡ encode_all proto ps

-- What a call leaves when `cipher` was in the buffer: the complete packets go, one frame for each.
record Emits (P : Primitives) (proto : ProtoTag) (cipher : List ℕ) (ps : List Packet)
    (coming : List ℕ) (r : Option (List (List ℕ) × MsgSplitter)) : Type 0 where
  done : List Packet
  todo : List Packet
  halves : ps ≡ done ++ todo
  state : MsgSplitter
  returns : r ≡ some (cut (lengths proto done) cipher, state)
  left : state.cipher_buf.bytes ≡ drop (sum (lengths proto done)) cipher
  enough : sum (lengths proto done) ≤ length cipher
  base : ℕ
  between : IsBetween P base proto todo coming state

-- The loop over a buffer in which the read already stands.
scan_of : MsgSplitter → ProtoTag → Option Scan
scan_of t proto =
    scan (suc (length t.plain_buf.bytes)) proto t.plain_buf.bytes t.cipher_buf.bytes 0 []

finish-Emits :
    (P : Primitives) (base : ℕ) (proto : ProtoTag) (ps : List Packet) (coming : List ℕ)
    (t : MsgSplitter)
    → IsShadow P base t
    → t.disabled ≡ false
    → t.proto ≡ proto
    → Cuts proto t.plain_buf.bytes t.cipher_buf.bytes
        (crypt P t.dec coming)
        0
        []
        ps
        (scan_of t proto)
    → Emits P proto t.cipher_buf.bytes ps coming (finish t (scan_of t proto))
finish-Emits P base proto ps coming t shadow on tp c =
    let parts : List (List ℕ) = cut (lengths proto c.done) t.cipher_buf.bytes in
    let (u, e, d) = finish_starved t parts c.end in
    let fits : c.end ≤ length t.cipher_buf.bytes =
      omega (arith, c.end_le, length-shadow P base t shadow) in
    let end : c.end ≡ sum (lengths proto c.done) = omega (arith, c.end_eq) in
    record {
      done = c.done;
      todo = c.todo;
      halves = c.halves;
      state = u;
      returns = ap (finish t) c.returns ∙ e;
      left = d.cipher ∙ ap (λ k. drop k t.cipher_buf.bytes) end;
      enough = omega arith;
      base = base + c.end;
      between = record {
        shadow = drain-IsShadow P base t shadow c.end u fits on d;
        on = d.disabled ∙ on;
        same_proto = d.proto ∙ tp;
        short = subst (λ r. IsShort proto r c.todo) (sym d.plain) c.short;
        stream = ap₂ (λ r k. r ++ crypt P k coming) d.plain d.dec ∙ c.rest;
      };
    }

module _ (P : Primitives) (base : ℕ) (proto : ProtoTag) (ps : List Packet) (s : MsgSplitter)
    (ok : All (IsPacket proto) ps) (coming : List ℕ) where
  read_stream :
      (x : List ℕ)
      → IsBetween P base proto ps (x ++ coming) s
      → let t = append_read P s x in t.plain_buf.bytes ++ crypt P t.dec coming ≡ encode_all proto ps
  unfolding append_read
  read_stream x b =
      append_assoc s.plain_buf.bytes (crypt P s.dec x) _
      ∙ ap (◌++◌ s.plain_buf.bytes) (sym (crypt-append P s.dec x coming))
      ∙ b.stream

  read_fields :
      (x : List ℕ)
      → let t = append_read P s x in
        (t.cipher_buf.bytes ≡ s.cipher_buf.bytes ++ x)
        × (t.proto ≡ s.proto)
        × (t.disabled ≡ s.disabled)
  unfolding append_read
  read_fields x = (refl, refl, refl)

  split-Emits :
      (y : ℕ) (ys : List ℕ)
      → IsBetween P base proto ps ((y ∷ ys) ++ coming) s
      → Emits P proto (s.cipher_buf.bytes ++ (y ∷ ys)) ps coming (split P s (y ∷ ys))
  unfolding scan_of
  split-Emits y ys b =
      let t = append_read P s (y ∷ ys) in
      let (bytes, same, dis) = read_fields (y ∷ ys) in
      let tp = same ∙ b.same_proto in
      let c =
        scan-Cuts proto t.plain_buf.bytes t.cipher_buf.bytes (crypt P t.dec coming)
          (suc (length t.plain_buf.bytes)) ps 0 [] ok (omega arith) (omega arith)
          (read_stream (y ∷ ys) b) in
      let e =
        finish-Emits P base proto ps coming t (append_read-IsShadow P base s b.shadow (y ∷ ys) b.on)
          (dis ∙ b.on) tp c in
      subst₂ (λ cipher r. Emits P proto cipher ps coming r) bytes
        (ap (λ k. finish t (scan_of t k)) (sym tp) ∙ sym (split_on P s y ys b.on)) e

cut_two :
    (proto : ProtoTag) (done todo : List Packet) (cipher more : List ℕ)
    → sum (lengths proto done) ≤ length cipher
    → cut (lengths proto done) cipher
        ++ cut (lengths proto todo) (drop (sum (lengths proto done)) cipher ++ more)
      ≡ cut (lengths proto (done ++ todo)) (cipher ++ more)
cut_two proto done todo cipher more h =
    let k : ℕ = sum (lengths proto done) in
    ap₂ ◌++◌ (sym (cut-append_left (lengths proto done) cipher more h))
      (ap (cut (lengths proto todo)) (sym (drop-append_left k cipher more h)))
    ∙ sym (cut-append (lengths proto done) (lengths proto todo) (cipher ++ more))
    ∙ ap (λ ns. cut ns (cipher ++ more)) (sym (map-append _ done todo))

All-right :
    (proto : ProtoTag) (done todo : List Packet)
    → All (IsPacket proto) (done ++ todo)
    → All (IsPacket proto) todo
All-right proto [] todo h = h
All-right proto (p ∷ done) todo h = All-right proto done todo h.1

-- With no read to come there is no packet to come, and the buffer is empty.
nothing_left :
    (P : Primitives) (base : ℕ) (proto : ProtoTag) (ps : List Packet) (s : MsgSplitter)
    → IsBetween P base proto ps [] s
    → (ps ≡ []) × (s.cipher_buf.bytes ≡ [])
nothing_left P base proto [] s b =
    let plain = nil_of-append s.plain_buf.bytes _ b.stream in
    (
      refl,
      length-eq_zero s.cipher_buf.bytes
          (omega (arith, ap length plain, length-shadow P base s b.shadow)),
    )
nothing_left P base proto (p ∷ ps) s b = absurd (
    omega (
      arith,
      b.short,
      ap length b.stream,
      length-append s.plain_buf.bytes (crypt P s.dec []),
      length-crypt P s.dec [],
      length-append (encode proto p) (encode_all proto ps),
    ))

-- All reads: every packet that is still to come leaves as one frame, and nothing is left over.
split_all-frames :
    (P : Primitives) (base : ℕ) (proto : ProtoTag) (chunks : List (List ℕ)) (ps : List Packet)
    (s : MsgSplitter)
    → All (IsPacket proto) ps
    → IsBetween P base proto ps (concat chunks) s
    → (t : MsgSplitter) × (split_all P s chunks
        ≡ some (cut (lengths proto ps) (s.cipher_buf.bytes ++ concat chunks), t))
      × (t.cipher_buf.bytes ≡ [])
unfolding split_all
split_all-frames P base proto [] ps s ok b =
    let (none_to_come, gone) = nothing_left P base proto ps s b in
    (
      s,
      ap (λ qs. some (cut (lengths proto qs) (s.cipher_buf.bytes ++ []), s)) (sym none_to_come),
      gone,
    )
split_all-frames P base proto ([] ∷ chunks) ps s ok b =
    let (t, e, gone) = split_all-frames P base proto chunks ps s ok b in
    (t, rw (split-nil P s, split_all) (rw e), gone)
split_all-frames P base proto ((y ∷ ys) ∷ chunks) ps s ok b =
    let c = split-Emits P base proto ps s ok (concat chunks) y ys b in
    let (t, e, gone) =
      split_all-frames P c.base proto chunks c.todo c.state
        (All-right proto c.done c.todo (subst (All (IsPacket proto)) c.halves ok)) c.between in
    (t, rw (c.returns, split_all) (rw e (ap (λ l. some (l, t)) (same_frames c))), gone)
  where
    same_frames :
        (c : Emits P proto (s.cipher_buf.bytes ++ (y ∷ ys)) ps (concat chunks) (split P s (y ∷ ys)))
        → cut (lengths proto c.done) (s.cipher_buf.bytes ++ (y ∷ ys))
            ++ cut (lengths proto c.todo) (c.state.cipher_buf.bytes ++ concat chunks)
          ≡ cut (lengths proto ps) (s.cipher_buf.bytes ++ ((y ∷ ys) ++ concat chunks))
    same_frames c =
        ap
          (λ z.
            cut (lengths proto c.done) (s.cipher_buf.bytes ++ (y ∷ ys))
            ++ cut (lengths proto c.todo) (z ++ concat chunks))
          c.left
        ∙ cut_two proto c.done c.todo (s.cipher_buf.bytes ++ (y ∷ ys)) (concat chunks) c.enough
        ∙ ap₂ (λ qs z. cut (lengths proto qs) z) (sym c.halves)
            (append_assoc s.cipher_buf.bytes (y ∷ ys) (concat chunks))

IsShort-nil : (proto : ProtoTag) (ps : List Packet) → All (IsPacket proto) ps → IsShort proto [] ps
IsShort-nil proto [] ok = tt
IsShort-nil proto (p ∷ ps) ok = length-encode proto p ok.0

split_new-IsBetween :
    (P : Primitives) (relay_init : List ℕ) (proto : ProtoTag) (ps : List Packet) (coming : List ℕ)
    → All (IsPacket proto) ps
    → coming ≡ crypt P (new P relay_init proto).dec (encode_all proto ps)
    → IsBetween P 64 proto ps coming (new P relay_init proto)
unfolding new
split_new-IsBetween P relay_init proto ps coming ok e = record {
  shadow = new-IsShadow P relay_init proto;
  on = refl;
  same_proto = refl;
  short = IsShort-nil proto ps ok;
  stream =
      ap (crypt P (new P relay_init proto).dec) e
      ∙ crypt_twice P (new P relay_init proto).dec (encode_all proto ps);
}

-- The client's packets, encrypted for Telegram as the bridge does it and cut into reads in any
-- way, leave the splitter as frames that are cut at exactly the packets' ends: one frame for each
-- packet, in order, and nothing is left in the buffer.
pub split_all-packets :
    (P : Primitives) (relay_init prekey_and_iv secret : List ℕ) (proto : ProtoTag)
    (ps : List Packet) (chunks : List (List ℕ))
    → All (IsPacket proto) ps
    → concat chunks
      ≡ crypt P
          (build_connection_ciphers P prekey_and_iv secret relay_init).tg_enc
          (encode_all proto ps)
    → (t : MsgSplitter) × (split_all P (new P relay_init proto) chunks
        ≡ some (cut (lengths proto ps) (concat chunks), t))
      × (t.cipher_buf.bytes ≡ [])
unfolding new build_connection_ciphers
split_all-packets P relay_init prekey_and_iv secret proto ps chunks ok e =
    split_all-frames P 64 proto chunks ps (new P relay_init proto) ok
      (split_new-IsBetween P relay_init proto ps (concat chunks) ok e)
