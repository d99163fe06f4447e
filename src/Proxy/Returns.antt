-- ===== src/Proxy/Returns.antt =====
-- rust/src/proxy.rs, `accept_inbound_faketls`: it comes to an answer on any bytes.
use tg_ws_proxy.Base.{
  ℕ, zero, suc, ◌+◌, ◌-◌, ◌<◌, ◌≤◌, ◌≡◌, refl, min, true, not, ◌||◌, Option, none, some, List, [],
  ◌∷◌, ◌++◌, length, length-append, length-take, take, Bool-cases, inl, inr, drop, lt→ltb,
  le→not_ltb, ◌==◌, bytes_eq, arith,
}
use native.Mathlib.Decide.{dec_lt}
use tg_ws_proxy.Crypto.Cipher.{Primitives}
use tg_ws_proxy.FakeTls.Record.{
  read_tls_record, RecordRead, no_record, broken, record_read, read_tls_appdata,
  tls_record_handshake,
}
use tg_ws_proxy.FakeTls.Framing.{read_tls_appdata_total}
use tg_ws_proxy.FakeTls.ClientHello.{FakeTlsClientHello}
use tg_ws_proxy.FakeTls.ServerHello.{build_faketls_server_hello}
use tg_ws_proxy.Proxy.Inbound.{
  Inbound, split_mtproto_init_and_pending, Fill, full, more, fill_turn, fill, fill_handshake,
}
use tg_ws_proxy.Proxy.Accept.{names, rebuilt, find_hello, answer, accept_inbound_faketls}

-- A round ends the loop or fills a byte at least.
data Turn (filled : List ℕ) (t : Fill) : Type 0 where
  ends : (r : Option (List ℕ × List ℕ)) → t ≡ full r → Turn filled t
  grows : (f : List ℕ) → t ≡ more f → length filled < length f → length f ≤ 64 → Turn filled t

fill_turn-Turn :
    (filled : List ℕ) (b : ℕ) (bs : List ℕ)
    → length filled < 64
    → Turn filled (fill_turn filled (b ∷ bs))
unfolding fill_turn
fill_turn-Turn filled b bs h =
    elim (Bool-cases (min (length (b ∷ bs)) (64 - length filled) == length (b ∷ bs))) [
      | inl e ↦
          grows (filled ++ take n (b ∷ bs)) (rw (e, fill_turn) refl)
            (omega (arith, length-append filled (take n (b ∷ bs)), length-take n (b ∷ bs)))
            (omega (arith, length-append filled (take n (b ∷ bs)), length-take n (b ∷ bs)))
      | inr e ↦ elim (Bool-cases (length filled == 0)) [
        | inl z ↦ ends (split_mtproto_init_and_pending (b ∷ bs)) (rw (e, z, fill_turn) refl)
        | inr z ↦
            ends (some (filled ++ take n (b ∷ bs), drop n (b ∷ bs))) (rw (e, z, fill_turn) refl)
      ]
    ]
  where
    n : ℕ
    n = min (length (b ∷ bs)) (64 - length filled)

abbrev Fills : ℕ → List ℕ → List ℕ → Type 0
Fills fuel filled stream = (r : Option Inbound) × (fill fuel filled stream ≡ some r)

module _ (fuel : ℕ) (filled stream : List ℕ) (p : length filled < 64)
    (go : (f rest : List ℕ) → length f ≤ 64 → 64 < fuel + length f → Fills fuel f rest)
    (h : 64 < suc fuel + length filled) where
  turn_total :
      (b : ℕ) (bs rest : List ℕ)
      → read_tls_appdata 16640 stream ≡ some (b ∷ bs, rest)
      → Turn filled (fill_turn filled (b ∷ bs))
      → Fills (suc fuel) filled stream
  unfolding fill
  turn_total b bs rest e (ends none t) = (none, rw (lt→ltb (length filled) 64 p, e, t, fill) refl)
  turn_total b bs rest e (ends (some (init, pending)) t) = (
    some record { init = init; pending = pending; rest = rest },
    rw (lt→ltb (length filled) 64 p, e, t, fill) refl,
  )
  turn_total b bs rest e (grows f t g small) =
      let (r, done) = go f rest small (omega arith) in
      (r, rw (lt→ltb (length filled) 64 p, e, t, fill) done)

  round_total :
      (payload : List ℕ) × (rest : List ℕ) × (read_tls_appdata 16640 stream ≡ some (payload, rest))
        × (length payload ≤ 16640)
      → Fills (suc fuel) filled stream
  unfolding fill
  round_total ([], rest, e, _) = (none, rw (lt→ltb (length filled) 64 p, e, fill) refl)
  round_total (b ∷ bs, rest, e, _) = turn_total b bs rest e (fill_turn-Turn filled b bs p)

fill_total :
    (fuel : ℕ) (filled stream : List ℕ)
    → length filled ≤ 64
    → 64 < fuel + length filled
    → Fills fuel filled stream
unfolding fill
fill_total zero filled stream le h = absurd (omega arith)
fill_total (suc fuel) filled stream le h = elim (dec_lt (length filled) 64) [
  | no p ↦ (
    some record { init = filled; pending = []; rest = stream },
    rw (le→not_ltb (length filled) 64 (omega arith), fill) refl,
  )
  | yes p ↦
      round_total fuel filled stream p (fill_total fuel) h (read_tls_appdata_total 16640 stream)
]

module _ (P : Primitives) (domain key_share cert : List ℕ) where
  answer_total :
      (rest : List ℕ) (found : Option (FakeTlsClientHello × List ℕ))
      → (r : Option (List ℕ × Inbound)) × (answer P domain key_share cert rest found ≡ some r)
  unfolding answer fill_handshake
  answer_total rest none = (none, refl)
  answer_total rest (some (hello, secret)) = elim (Bool-cases (names P hello.hostname domain)) [
    | inr e ↦ (none, rw (e, answer) refl)
    | inl e ↦ filled e (fill_total 65 [] rest (omega arith) (omega arith))
  ]
    where
      filled :
          names P hello.hostname domain ≡ true
          → (r : Option Inbound) × (fill_handshake rest ≡ some r)
          → (r : Option (List ℕ × Inbound)) × (answer P domain key_share cert rest
                (some (hello, secret))
              ≡ some r)
      filled e (none, done) = (none, rw (e, done, answer) refl)
      filled e (some inbound, done) = (
        some (build_faketls_server_hello P secret hello key_share cert, inbound),
        rw (e, done, answer) refl,
      )

  -- Whatever bytes a peer sends before it stops, and whatever secrets are configured, the handler
  -- of a FakeTLS client comes to an answer: it refuses the peer or accepts it.
  pub accept_inbound_faketls_total :
      (secrets : List (List ℕ)) (stream : List ℕ)
      → (r : Option (List ℕ × Inbound)) × (accept_inbound_faketls P secrets domain key_share cert
            stream
          ≡ some r)
  unfolding accept_inbound_faketls
  accept_inbound_faketls_total secrets stream = on_record (read_tls_record 16640 stream) refl
    where
      on_record :
          (read : RecordRead)
          → read_tls_record 16640 stream ≡ read
          → (r : Option (List ℕ × Inbound)) × (accept_inbound_faketls P secrets domain key_share
                cert stream
              ≡ some r)
      on_record no_record e = (none, rw (e, accept_inbound_faketls) refl)
      on_record broken e = (none, rw (e, accept_inbound_faketls) refl)
      on_record (record_read record_type version payload rest) e =
          elim (Bool-cases (
            not (record_type == tls_record_handshake)
            || not (bytes_eq version (0x03 ∷ 0x01 ∷ [])))) [
              | inl bad ↦ (none, rw (e, bad, accept_inbound_faketls) refl)
              | inr good ↦
                  let (r, done) =
                    answer_total rest
                      (find_hello P (rebuilt P record_type version payload) secrets) in
                  (r, rw (e, good, accept_inbound_faketls) done)
            ]
