-- ===== src/Splitter/Lossless.antt =====
-- `split` and `flush` pass every byte on, in order, whatever the client sends.
use tg_ws_proxy.Base.{
  ℕ, suc, ◌+◌, ◌≤◌, ◌≡◌, refl, sym, ap, ap₂, ◌∙◌, subst, inl, inr, true, false, Option, some, List,
  [], ◌∷◌, ◌++◌, append-nil, append_assoc, arith, length, concat, concat-append, take-append-drop,
  Bool-cases, if◌then◌else◌,
}
use tg_ws_proxy.Crypto.Cipher.{Primitives, crypt, xor_from}
use tg_ws_proxy.Crypto.Tag.{ProtoTag}
use tg_ws_proxy.Splitter.Buffer.{empty}
use tg_ws_proxy.Splitter.Scan.{Ends, scan-Ends}
use tg_ws_proxy.Splitter.Split.{
  MsgSplitter, Scan, starved, unsupported, scan, finish, flush, append_read, new, split, split_all,
}
use tg_ws_proxy.Splitter.Shadow.{
  IsShadow, finish_starved, length-shadow, append_read-IsShadow, drain-IsShadow,
}

-- One call: it answers, passes every byte on or keeps it, and keeps the shadow.
pub record Passes (P : Primitives) (s : MsgSplitter) (x : List ℕ)
    (r : Option (List (List ℕ) × MsgSplitter)) : Type 0 where
  pub parts : List (List ℕ)
  pub state : MsgSplitter
  pub returns : r ≡ some (parts, state)
  pub bytes : concat parts ++ state.cipher_buf.bytes ≡ s.cipher_buf.bytes ++ x
  pub base : ℕ
  pub keeps : IsShadow P base state

module _ (P : Primitives) (base : ℕ) (s : MsgSplitter) (h : IsShadow P base s) (x : List ℕ) where
  abbrev read : MsgSplitter
  read = append_read P s x

  read_bytes : read.cipher_buf.bytes ≡ s.cipher_buf.bytes ++ x
  unfolding append_read
  read_bytes = refl

  read_on : s.disabled ≡ false → read.disabled ≡ false
  unfolding append_read
  read_on on = on

  finish-Passes :
      (r : Scan)
      → s.disabled ≡ false
      → Ends read.proto read.plain_buf.bytes read.cipher_buf.bytes r
      → Passes P s x (finish read (some r))
  finish-Passes (starved parts consumed) on (cut, le, stop) =
      let shadow = append_read-IsShadow P base s h x on in
      let (t, e, d) = finish_starved read parts consumed in
      let fits : consumed ≤ length read.cipher_buf.bytes =
        omega (arith, length-shadow P base read shadow) in
      record {
        parts = parts;
        state = t;
        returns = e;
        bytes =
            ap₂ ◌++◌ cut d.cipher ∙ take-append-drop consumed read.cipher_buf.bytes ∙ read_bytes;
        base = base + consumed;
        keeps = drain-IsShadow P base read shadow consumed t fits (read_on on) d;
      }
  finish-Passes (unsupported parts) on e = record {
    parts = parts;
    state = record read { cipher_buf = empty; plain_buf = empty; disabled = true };
    returns = unfold finish in refl;
    bytes = append-nil (concat parts) ∙ e ∙ read_bytes;
    base = read.dec.pos;
    keeps = record {
      position = omega arith;
      shadow = unfold crypt xor_from in refl;
      off = λ _. refl;
    };
  }

-- A call that leaves the state as it is.
same_state :
    (P : Primitives) (base : ℕ) (s : MsgSplitter) (x : List ℕ) (parts : List (List ℕ))
    → IsShadow P base s
    → concat parts ++ s.cipher_buf.bytes ≡ s.cipher_buf.bytes ++ x
    → Passes P s x (some (parts, s))
same_state P base s x parts h e = record {
  parts = parts;
  state = s;
  returns = refl;
  bytes = e;
  base = base;
  keeps = h;
}

module _ (P : Primitives) (s : MsgSplitter) (y : ℕ) (ys : List ℕ) where
  pub split_off : s.disabled ≡ true → split P s (y ∷ ys) ≡ some ((y ∷ ys) ∷ [], s)
  unfolding split
  split_off = ap λ b.
      if b
      then some ((y ∷ ys) ∷ [], s)
      else let t = append_read P s (y ∷ ys) in
        finish t
          (scan (suc (length t.plain_buf.bytes)) t.proto t.plain_buf.bytes t.cipher_buf.bytes 0 [])

  pub split_on :
      s.disabled ≡ false
      → let t = append_read P s (y ∷ ys) in
        split P s (y ∷ ys)
        ≡ finish t (
            scan (suc (length t.plain_buf.bytes)) t.proto t.plain_buf.bytes t.cipher_buf.bytes 0 [])
  unfolding split
  split_on = ap λ b.
      if b
      then some ((y ∷ ys) ∷ [], s)
      else let t = append_read P s (y ∷ ys) in
        finish t
          (scan (suc (length t.plain_buf.bytes)) t.proto t.plain_buf.bytes t.cipher_buf.bytes 0 [])

pub split-nil : (P : Primitives) (s : MsgSplitter) → split P s [] ≡ some ([], s)
unfolding split
split-nil P s = refl

pub split-Passes :
    (P : Primitives) (base : ℕ) (s : MsgSplitter) (x : List ℕ)
    → IsShadow P base s
    → Passes P s x (split P s x)
split-Passes P base s [] h =
    unfold split in same_state P base s [] [] h (sym (append-nil s.cipher_buf.bytes))
split-Passes P base s (y ∷ ys) h = elim (Bool-cases s.disabled) [
  | inl off ↦ rw (split_off P s y ys off) (
      same_state P base s (y ∷ ys) ((y ∷ ys) ∷ []) h (
        ap (λ z. ((y ∷ ys) ++ []) ++ z) (h.off off)
        ∙ append-nil _
        ∙ append-nil _
        ∙ ap (λ z. z ++ (y ∷ ys)) (sym (h.off off))))
  | inr on ↦
      let t = append_read P s (y ∷ ys) in
      let (r, e, ends) =
        scan-Ends t.proto t.plain_buf.bytes t.cipher_buf.bytes (suc (length t.plain_buf.bytes)) 0 []
          (omega arith) (omega arith) refl in
      subst (Passes P s (y ∷ ys)) (sym (split_on P s y ys on ∙ ap (finish t) e))
        (finish-Passes P base s h (y ∷ ys) r on ends)
]

pub split_all-Passes :
    (P : Primitives) (base : ℕ) (s : MsgSplitter) (chunks : List (List ℕ))
    → IsShadow P base s
    → Passes P s (concat chunks) (split_all P s chunks)
unfolding split_all
split_all-Passes P base s [] h = same_state P base s [] [] h (sym (append-nil s.cipher_buf.bytes))
split_all-Passes P base s (x ∷ chunks) h =
    let a = split-Passes P base s x h in
    let b = split_all-Passes P a.base a.state chunks a.keeps in
    record {
      parts = a.parts ++ b.parts;
      state = b.state;
      returns = rw (a.returns, split_all) (rw b.returns);
      bytes =
          ap (λ z. z ++ b.state.cipher_buf.bytes) (concat-append a.parts b.parts)
          ∙ append_assoc (concat a.parts) (concat b.parts) b.state.cipher_buf.bytes
          ∙ ap (◌++◌ (concat a.parts)) b.bytes
          ∙ sym (append_assoc (concat a.parts) a.state.cipher_buf.bytes (concat chunks))
          ∙ ap (λ z. z ++ concat chunks) a.bytes
          ∙ append_assoc s.cipher_buf.bytes x (concat chunks);
      base = b.base;
      keeps = b.keeps;
    }

pub new-IsShadow :
    (P : Primitives) (relay_init : List ℕ) (proto : ProtoTag)
    → IsShadow P 64 (new P relay_init proto)
unfolding new crypt xor_from
new-IsShadow P relay_init proto = record { position = refl; shadow = refl; off = λ _. refl }

flush_cases :
    (s : MsgSplitter) (xs : List ℕ)
    → s.cipher_buf.bytes ≡ xs
    → concat (flush s).0 ≡ s.cipher_buf.bytes
unfolding flush
flush_cases s [] e = ground arith
flush_cases s (x ∷ xs) e = ground (arith, append-nil s.cipher_buf.bytes)

concat-flush : (s : MsgSplitter) → concat (flush s).0 ≡ s.cipher_buf.bytes
concat-flush s = flush_cases s s.cipher_buf.bytes refl

new_empty :
    (P : Primitives) (relay_init : List ℕ) (proto : ProtoTag) (xs : List ℕ)
    → (new P relay_init proto).cipher_buf.bytes ++ xs ≡ xs
unfolding new
new_empty P relay_init proto xs = refl

-- Whatever reads the client makes, `split` answers each of them, and the frames of all calls
-- followed by what `flush` gives at the end are, put together, the bytes that were read.
pub split_all-lossless :
    (P : Primitives) (relay_init : List ℕ) (proto : ProtoTag) (chunks : List (List ℕ))
    → (parts : List (List ℕ)) × (t : MsgSplitter) × (split_all P (new P relay_init proto) chunks
        ≡ some (parts, t))
      × (concat (parts ++ (flush t).0) ≡ concat chunks)
split_all-lossless P relay_init proto chunks =
    let r =
      split_all-Passes P 64 (new P relay_init proto) chunks (new-IsShadow P relay_init proto) in
    (
      r.parts,
      r.state,
      r.returns,
      concat-append r.parts (flush r.state).0
          ∙ ap (◌++◌ (concat r.parts)) (concat-flush r.state)
          ∙ r.bytes
          ∙ new_empty P relay_init proto (concat chunks),
    )
