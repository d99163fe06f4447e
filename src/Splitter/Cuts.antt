-- ===== src/Splitter/Cuts.antt =====
-- rust/src/splitter.rs: the loop of `split` over a buffer of well-formed packets.
use tg_ws_proxy.Base.{
  ℕ, zero, suc, ◌+◌, ◌-◌, ◌≤◌, ◌<◌, ◌≡◌, refl, sym, ap, ap₂, ◌∙◌, inl, inr, Option, none, some,
  List, [], ◌∷◌, ◌++◌, map, append-nil, append_assoc, arith, length, length-append, length-drop,
  take, drop, drop-drop, drop-append, slice, All, Bool-cases, ltb, if◌then◌else◌, take-append_left,
  drop-append_left,
}
use tg_ws_proxy.Crypto.Tag.{ProtoTag, abridged, intermediate, padded_intermediate}
use tg_ws_proxy.Splitter.Lengths.{next_packet_len}
use tg_ws_proxy.Splitter.Packets.{
  Packet, IsPacket, encode, header, measured, next_packet_len-encode,
}
use tg_ws_proxy.Splitter.Split.{Scan, starved, scan}
use tg_ws_proxy.Splitter.Scan.{width}

abbrev pub encode_all : ProtoTag → List Packet → List ℕ
encode_all proto [] = []
encode_all proto (p ∷ ps) = encode proto p ++ encode_all proto ps

-- The lengths of the packets on the wire.
abbrev pub lengths : ProtoTag → List Packet → List ℕ
lengths proto = map λ p. length (encode proto p)

abbrev pub sum : List ℕ → ℕ
sum [] = 0
sum (n ∷ ns) = n + sum ns

-- A stream cut at given lengths.
abbrev pub cut : List ℕ → List ℕ → List (List ℕ)
cut [] xs = []
cut (n ∷ ns) xs = take n xs ∷ cut ns (drop n xs)

pub cut-append : (ns ms xs : List ℕ) → cut (ns ++ ms) xs ≡ cut ns xs ++ cut ms (drop (sum ns) xs)
cut-append [] ms xs = refl
cut-append (n ∷ ns) ms xs = ap (◌∷◌ (take n xs)) (
    cut-append ns ms (drop n xs)
    ∙ ap (λ ys. cut ns (drop n xs) ++ cut ms ys) (drop-drop (sum ns) n xs))

-- Bytes behind the cuts change nothing.
pub cut-append_left : (ns xs ys : List ℕ) → sum ns ≤ length xs → cut ns (xs ++ ys) ≡ cut ns xs
cut-append_left [] xs ys h = refl
cut-append_left (n ∷ ns) xs ys h = ap₂ ◌∷◌ (take-append_left n xs ys (omega arith)) (
    ap (cut ns) (drop-append_left n xs ys (omega arith))
    ∙ cut-append_left ns (drop n xs) ys (omega (arith, length-drop n xs)))

-- `r` does not reach the end of the first packet.
abbrev pub IsShort : ProtoTag → List ℕ → List Packet → Type 0
IsShort proto r [] = Unit {0}
IsShort proto r (p ∷ ps) = length r < length (encode proto p)

pub record Cuts (proto : ProtoTag) (plain cipher fut : List ℕ) (consumed : ℕ)
    (parts : List (List ℕ)) (ps : List Packet) (r : Option Scan) : Type 0 where
  pub done : List Packet
  pub todo : List Packet
  pub halves : ps ≡ done ++ todo
  pub end : ℕ
  pub end_eq : end ≡ consumed + sum (lengths proto done)
  pub end_le : end ≤ length plain
  pub returns : r ≡ some (starved (parts ++ cut (lengths proto done) (drop consumed cipher)) end)
  pub rest : drop end plain ++ fut ≡ encode_all proto todo
  pub short : IsShort proto (drop end plain) todo

pub nil_of-append : (xs ys : List ℕ) → xs ++ ys ≡ [] → xs ≡ []
nil_of-append [] ys e = refl
nil_of-append (x ∷ xs) ys e = cc

pub length-encode : (proto : ProtoTag) (p : Packet) → IsPacket proto p → 0 < length (encode proto p)
length-encode abridged p ok = omega (arith, length-append (header abridged p) p.payload)
length-encode intermediate p ok = omega arith
length-encode padded_intermediate p ok = omega arith

shift :
    (proto : ProtoTag) (plain : List ℕ) (consumed : ℕ)
    → next_packet_len proto plain consumed ≡ next_packet_len proto (drop consumed plain) 0
unfolding next_packet_len
shift proto plain consumed = refl

next_packet_len-nil : (proto : ProtoTag) → next_packet_len proto [] 0 ≡ none
unfolding next_packet_len
next_packet_len-nil proto = refl

suc_pred : (n : ℕ) → 0 < n → n ≡ suc (n - 1)
suc_pred n h = omega arith

module _ (proto : ProtoTag) (plain cipher fut : List ℕ) where
  -- The loop stops: no packet is complete.
  stops :
      (fuel : ℕ) (ps : List Packet) (consumed : ℕ) (parts : List (List ℕ))
      → consumed ≤ length plain
      → next_packet_len proto plain consumed ≡ none
      → drop consumed plain ++ fut ≡ encode_all proto ps
      → IsShort proto (drop consumed plain) ps
      → Cuts proto plain cipher fut consumed parts ps
          (scan (suc fuel) proto plain cipher consumed parts)
  unfolding scan
  stops fuel ps consumed parts le stop q short = record {
    done = [];
    todo = ps;
    halves = refl;
    end = consumed;
    end_eq = omega arith;
    end_le = le;
    returns =
        rw (stop, scan)
          (ap (λ (l : List (List ℕ)). some (starved l consumed)) (sym (append-nil parts)));
    rest = q;
    short = short;
  }

  -- A complete packet is cut off, and the loop goes on behind it.
  goes_on :
      (fuel : ℕ) (p : Packet) (ps : List Packet) (consumed k : ℕ) (parts : List (List ℕ))
      → length (encode proto p) ≡ suc k
      → next_packet_len proto plain consumed ≡ some (suc k)
      → Cuts proto plain cipher fut
          (consumed + suc k)
          (parts ++ (slice consumed (consumed + suc k) cipher ∷ []))
          ps
          (scan fuel proto plain cipher
            (consumed + suc k)
            (parts ++ (slice consumed (consumed + suc k) cipher ∷ [])))
      → Cuts proto plain cipher fut consumed parts
          (p ∷ ps)
          (scan (suc fuel) proto plain cipher consumed parts)
  unfolding scan
  goes_on fuel p ps consumed k parts len found c = record {
    done = p ∷ c.done;
    todo = c.todo;
    halves = ap (◌∷◌ p) c.halves;
    end = c.end;
    end_eq = omega (arith, c.end_eq);
    end_le = c.end_le;
    returns = rw (found, scan) (c.returns ∙ ap (λ l. some (starved l c.end)) same_parts);
    rest = c.rest;
    short = c.short;
  }
    where
      same_parts :
          (parts ++ (slice consumed (consumed + suc k) cipher ∷ []))
            ++ cut (lengths proto c.done) (drop (consumed + suc k) cipher)
          ≡ parts ++ cut (lengths proto (p ∷ c.done)) (drop consumed cipher)
      same_parts =
          append_assoc parts (slice consumed (consumed + suc k) cipher ∷ []) _
          ∙ ap (◌++◌ parts) (
              ap₂ ◌∷◌ (ap (λ j. take j (drop consumed cipher)) (width consumed (suc k) ∙ sym len)) (
                ap (cut (lengths proto c.done)) (
                  sym (drop-drop (suc k) consumed cipher)
                  ∙ ap (λ j. drop j (drop consumed cipher)) (sym len))))

  -- What is left behind a complete packet.
  behind :
      (p : Packet) (ps : List Packet) (consumed k : ℕ)
      → length (encode proto p) ≡ suc k
      → consumed + suc k ≤ length plain
      → drop consumed plain ++ fut ≡ encode_all proto (p ∷ ps)
      → drop (consumed + suc k) plain ++ fut ≡ encode_all proto ps
  behind p ps consumed k len le q =
      ap (λ xs. xs ++ fut) (sym (drop-drop (suc k) consumed plain))
      ∙ sym (
          drop-append_left (suc k) (drop consumed plain) fut
            (omega (arith, length-drop consumed plain)))
      ∙ ap (drop (suc k)) q
      ∙ drop-append (encode proto p) (encode_all proto ps) (suc k) (sym len)

  pub scan-Cuts :
      (fuel : ℕ) (ps : List Packet) (consumed : ℕ) (parts : List (List ℕ))
      → All (IsPacket proto) ps
      → consumed ≤ length plain
      → length plain < fuel + consumed
      → drop consumed plain ++ fut ≡ encode_all proto ps
      → Cuts proto plain cipher fut consumed parts ps (scan fuel proto plain cipher consumed parts)
  scan-Cuts zero ps consumed parts ok le enough q = absurd (omega arith)
  scan-Cuts (suc fuel) [] consumed parts ok le enough q =
      stops fuel [] consumed parts le
        (shift proto plain consumed
          ∙ ap (λ xs. next_packet_len proto xs 0) (nil_of-append _ fut q)
          ∙ next_packet_len-nil proto)
        q tt
  scan-Cuts (suc fuel) (p ∷ ps) consumed parts ok le enough q =
      let r : List ℕ = drop consumed plain in
      let n : ℕ = length (encode proto p) in
      let len = suc_pred n (length-encode proto p ok.0) in
      let seen : next_packet_len proto plain consumed ≡ measured r n =
        shift proto plain consumed
        ∙ next_packet_len-encode proto p r fut (encode_all proto ps) ok.0 q in
      elim (Bool-cases (ltb (length r) n)) [
        | inl less ↦
            stops fuel (p ∷ ps) consumed parts le (seen ∙ ap (λ b. if b then none else some n) less)
              q (ground arith)
        | inr enough_bytes ↦
            let fits : consumed + suc (n - 1) ≤ length plain =
              ground (arith, length-drop consumed plain) in
            goes_on fuel p ps consumed (n - 1) parts len
              (seen ∙ ap (λ b. if b then none else some n) enough_bytes ∙ ap some len)
              (scan-Cuts fuel ps (consumed + suc (n - 1))
                (parts ++ (slice consumed (consumed + suc (n - 1)) cipher ∷ [])) ok.1 fits
                (omega arith) (behind p ps consumed (n - 1) len fits q))
      ]
