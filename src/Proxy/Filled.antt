-- ===== src/Proxy/Filled.antt =====
-- rust/src/proxy.rs: the 64 bytes of the inbound handshake are found however they are framed.
use tg_ws_proxy.Base.{
  ℕ, zero, suc, ◌+◌, ◌-◌, ◌≤◌, ◌<◌, ◌≡◌, refl, sym, ap, ◌∙◌, subst, min, false, Option, some, List,
  [], ◌∷◌, ◌++◌, append_assoc, length, length-append, length-take, take, drop, take-all,
  take-append, drop-append, take-append-drop, concat, All, ◌==◌, ==_refl, lt→ltb, le→not_ltb, arith,
}
use native.Mathlib.Decide.{dec_lt, dec_le}
use tg_ws_proxy.FakeTls.Record.{read_tls_appdata}
use tg_ws_proxy.FakeTls.Framing.{appdata_header, read_appdata}
use tg_ws_proxy.Proxy.Inbound.{
  Inbound, full, more, fill_turn, fill, fill_handshake, split_mtproto_init_and_pending,
}

-- Chunks as application data records.
abbrev pub records : List (List ℕ) → List ℕ
records [] = []
records (c ∷ cs) = appdata_header (length c) ++ (c ++ records cs)

-- What fits a record, and is not empty.
abbrev pub IsChunk : List ℕ → Type 0
IsChunk c = (0 < length c) × (length c ≤ 16384)

pub same_cut :
    (xs ys init later : List ℕ) (n : ℕ)
    → length xs ≡ n
    → length init ≡ n
    → xs ++ ys ≡ init ++ later
    → (xs ≡ init) × (ys ≡ later)
same_cut xs ys init later n hx hi e = (
  sym (take-append xs ys n (sym hx)) ∙ ap (take n) e ∙ take-append init later n (sym hi),
  sym (drop-append xs ys n (sym hx)) ∙ ap (drop n) e ∙ drop-append init later n (sym hi),
)

not_eq : (a b : ℕ) → a < b → (a == b) ≡ false
not_eq a b h = ground arith

cut_short : (n k : ℕ) → 64 < k + n → min n (64 - k) ≡ 64 - k
cut_short n k h = omega arith

not_zero : (n : ℕ) → (suc n == 0) ≡ false
not_zero n = ground arith

turn_more :
    (filled c : List ℕ) → length filled + length c ≤ 64 → fill_turn filled c ≡ more (filled ++ c)
unfolding fill_turn
turn_more filled c h =
    rw (small (length c) (length filled) h, fill_turn, ==_refl (length c))
      (ap (λ x. more (filled ++ x)) (take-all (length c) c (omega arith)))
  where
    small : (n k : ℕ) → k + n ≤ 64 → min n (64 - k) ≡ n
    small n k h = omega arith

turn_full :
    (filled c : List ℕ)
    → length filled < 64
    → 64 < length filled + length c
    → let k = 64 - length filled in fill_turn filled c ≡ full (some (filled ++ take k c, drop k c))
unfolding fill_turn split_mtproto_init_and_pending
turn_full [] c h g =
    rw
      (
        cut_short (length c) 0 g,
        fill_turn,
        not_eq 64 (length c) (omega arith),
        le→not_ltb (length c) 64 (omega arith),
      )
      refl
turn_full (f ∷ fs) c h g =
    rw
      (
        cut_short (length c) (length (f ∷ fs)) g,
        fill_turn,
        not_eq (64 - length (f ∷ fs)) (length c) (omega arith),
        not_zero (length fs),
      )
      refl

read_record :
    (c : List ℕ) (cs : List (List ℕ))
    → length c ≤ 16384
    → read_tls_appdata 16640 (records (c ∷ cs)) ≡ some (c, records cs)
unfolding read_tls_appdata
read_record c cs h = read_appdata (length (records (c ∷ cs))) 16640 c (records cs) h (omega arith)

module _ (fuel : ℕ) (filled : List ℕ) (b : ℕ) (bs : List ℕ) (cs : List (List ℕ))
    (h : length filled < 64) (ok : length (b ∷ bs) ≤ 16384) where
  fill_more :
      length filled + length (b ∷ bs) ≤ 64
      → fill (suc fuel) filled (records ((b ∷ bs) ∷ cs))
        ≡ fill fuel (filled ++ (b ∷ bs)) (records cs)
  unfolding fill
  fill_more small =
      rw
        (
          lt→ltb (length filled) 64 h,
          read_record (b ∷ bs) cs ok,
          fill,
          turn_more filled (b ∷ bs) small,
        )
        refl

  fill_full :
      64 < length filled + length (b ∷ bs)
      → let k = 64 - length filled in
        fill (suc fuel) filled (records ((b ∷ bs) ∷ cs))
        ≡ some (
            some record {
              init = filled ++ take k (b ∷ bs);
              pending = drop k (b ∷ bs);
              rest = records cs;
            })
  unfolding fill
  fill_full big =
      rw
        (
          lt→ltb (length filled) 64 h,
          read_record (b ∷ bs) cs ok,
          fill,
          turn_full filled (b ∷ bs) h big,
        )
        refl

-- What the loop finds in the records.
record IsFound (init later : List ℕ) (r : Option (Option Inbound)) : Type 0 where
  pending : List ℕ
  left : List (List ℕ)
  returns : r ≡ some (some record { init = init; pending = pending; rest = records left })
  follows : pending ++ concat left ≡ later
  fit : All IsChunk left

module _ (init later : List ℕ) (hi : length init ≡ 64) where
  fill_done :
      (fuel : ℕ) (filled : List ℕ) (chunks : List (List ℕ))
      → All IsChunk chunks
      → length filled ≡ 64
      → filled ++ concat chunks ≡ init ++ later
      → IsFound init later (fill (suc fuel) filled (records chunks))
  unfolding fill
  fill_done fuel filled chunks ok le e =
      let (same, rest) = same_cut filled (concat chunks) init later 64 le hi e in
      record {
        pending = [];
        left = chunks;
        returns =
            rw (le→not_ltb (length filled) 64 (omega arith), fill)
              (ap (λ x. some (some record { init = x; pending = []; rest = records chunks })) same);
        follows = rest;
        fit = ok;
      }

  fill_over :
      (fuel : ℕ) (filled : List ℕ) (b : ℕ) (bs : List ℕ) (cs : List (List ℕ))
      → All IsChunk ((b ∷ bs) ∷ cs)
      → length filled < 64
      → filled ++ ((b ∷ bs) ++ concat cs) ≡ init ++ later
      → 64 < length filled + length (b ∷ bs)
      → IsFound init later (fill (suc fuel) filled (records ((b ∷ bs) ∷ cs)))
  fill_over fuel filled b bs cs ok p e big =
      let c = b ∷ bs in
      let k : ℕ = 64 - length filled in
      let whole =
        append_assoc filled (take k c) (drop k c ++ concat cs)
        ∙ ap (◌++◌ filled) (
            sym (append_assoc (take k c) (drop k c) (concat cs))
            ∙ ap (λ x. x ++ concat cs) (take-append-drop k c))
        ∙ e in
      let (same, rest) =
        same_cut (filled ++ take k c) (drop k c ++ concat cs) init later 64
          (omega (arith, length-append filled (take k c), length-take k c)) hi whole in
      record {
        pending = drop k c;
        left = cs;
        returns =
            fill_full fuel filled b bs cs p ok.0.1 big
            ∙ ap (λ x. some (some record { init = x; pending = drop k c; rest = records cs })) same;
        follows = rest;
        fit = ok.1;
      }

  fill-IsFound :
      (fuel : ℕ) (filled : List ℕ) (chunks : List (List ℕ))
      → All IsChunk chunks
      → length filled ≤ 64
      → filled ++ concat chunks ≡ init ++ later
      → 64 < fuel + length filled
      → IsFound init later (fill fuel filled (records chunks))
  fill-IsFound zero filled chunks ok le e enough = absurd (omega arith)
  fill-IsFound (suc fuel) filled [] ok le e enough =
      fill_done fuel filled [] tt
        (omega (arith, ap length e, length-append filled [], length-append init later, le, hi)) e
  fill-IsFound (suc fuel) filled ([] ∷ cs) ok le e enough = absurd (omega (arith, ok.0.0))
  fill-IsFound (suc fuel) filled ((b ∷ bs) ∷ cs) ok le e enough = elim (dec_lt (length filled) 64) [
    | no p ↦ fill_done fuel filled ((b ∷ bs) ∷ cs) ok (omega arith) e
    | yes p ↦ elim (dec_le (length filled + length (b ∷ bs)) 64) [
      | no big ↦ fill_over fuel filled b bs cs ok p e (omega arith)
      | yes small ↦
          subst (IsFound init later) (sym (fill_more fuel filled b bs cs p ok.0.1 small)) (
            fill-IsFound fuel (filled ++ (b ∷ bs)) cs ok.1
              (omega (arith, length-append filled (b ∷ bs)))
              (append_assoc filled (b ∷ bs) (concat cs) ∙ e)
              (omega (arith, length-append filled (b ∷ bs))))
    ]
  ]

  -- A client behind a FakeTLS front sends its 64-byte handshake and what follows in any records of
  -- application data, of at most 16,384 bytes and none empty. The loop finds exactly the handshake,
  -- and what it keeps as pending, with the records it has not read, is exactly what follows.
  -- These records are of the same kind.
  pub fill_handshake-records :
      (chunks : List (List ℕ))
      → All IsChunk chunks
      → concat chunks ≡ init ++ later
      → (pending : List ℕ) × (left : List (List ℕ)) × (fill_handshake (records chunks)
          ≡ some (some record { init = init; pending = pending; rest = records left }))
        × (pending ++ concat left ≡ later)
        × All IsChunk left
  unfolding fill_handshake
  fill_handshake-records chunks ok e =
      let f = fill-IsFound 65 [] chunks ok (omega arith) e (omega arith) in
      (f.pending, f.left, f.returns, f.follows, f.fit)
