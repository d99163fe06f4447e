-- ===== src/Proxy/Inbound.antt =====
-- rust/src/proxy.rs, `accept_inbound_faketls`: the loop that reads the 64 bytes of the handshake.
use tg_ws_proxy.Base.{
  ℕ, zero, suc, ◌+◌, ◌-◌, min, not, Option, none, some, List, [], ◌∷◌, ◌++◌, length, take, drop,
  ltb, ◌==◌, if◌then◌else◌,
}
use tg_ws_proxy.FakeTls.Record.{read_tls_appdata, tls_max_record_payload}

abbrev pub tls_read_headroom : ℕ
tls_read_headroom = 256

-- The 64 bytes of the init, what was read behind them, and what stays unread.
pub record Inbound : Type 0 where
  pub init : List ℕ
  pub pending : List ℕ
  pub rest : List ℕ

unfoldable pub split_mtproto_init_and_pending : List ℕ → Option (List ℕ × List ℕ)
split_mtproto_init_and_pending data_in =
    if ltb (length data_in) 64 then none else some (take 64 data_in, drop 64 data_in)

-- One record's payload on top of the `filled` bytes: the loop returns, or goes on with more.
pub data Fill : Type 0 where
  full : Option (List ℕ × List ℕ) → Fill
  more : List ℕ → Fill

unfoldable pub fill_turn : List ℕ → List ℕ → Fill
fill_turn filled payload =
    let n = min (length payload) (64 - length filled) in
    if n == length payload
    then more (filled ++ take n payload)
    else if length filled == 0
    then full (split_mtproto_init_and_pending payload)
    else full (some (filled ++ take n payload, drop n payload))

-- The loop of `accept_inbound_faketls`; the outer `none` means that the fuel ran out.
unfoldable pub fill : ℕ → List ℕ → List ℕ → Option (Option Inbound)
fill zero filled stream = none
fill (suc fuel) filled stream =
    if not (ltb (length filled) 64)
    then some (some record { init = filled; pending = []; rest = stream })
    else elim (read_tls_appdata (tls_max_record_payload + tls_read_headroom) stream) [
      | none ↦ none
      | some ([], rest) ↦ some none
      | some (b ∷ bs, rest) ↦ elim (fill_turn filled (b ∷ bs)) [
        | full none ↦ some none
        | full (some (init, pending)) ↦
            some (some record { init = init; pending = pending; rest = rest })
        | more filled ↦ fill fuel filled rest
      ]
    ]

-- A round that goes on fills a byte at least.
unfoldable pub fill_handshake : List ℕ → Option (Option Inbound)
unfolding fill
fill_handshake stream = fill 65 [] stream
