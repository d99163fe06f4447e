-- ===== src/Splitter/Split.antt =====
-- rust/src/splitter.rs: the splitter's state, `new`, `split`, `flush` and `trim_idle_buffers`.
use tg_ws_proxy.Base.{
  ℕ, zero, suc, ◌+◌, ◌*◌, min, Bool, true, false, not, ◌||◌, Option, none, some, List, [], ◌∷◌,
  ◌++◌, length, drop, slice, ltb, leb, ◌==◌, if◌then◌else◌, is_empty,
}
use tg_ws_proxy.Crypto.Cipher.{Primitives, Cipher, make_cipher, apply_keystream}
use tg_ws_proxy.Crypto.Tag.{ProtoTag}
use tg_ws_proxy.Crypto.Handshake.{prekey_of, iv_of}
use tg_ws_proxy.Crypto.Session.{skip_init}
use tg_ws_proxy.Splitter.Buffer.{Buffer, empty, extend_from_slice, drain, clear, shrink_to}
use tg_ws_proxy.Splitter.Lengths.{next_packet_len}

abbrev pub retained_capacity : ℕ
retained_capacity = 16 * 1024

abbrev pub trim_after_idle_calls : ℕ
trim_after_idle_calls = 64

pub record MsgSplitter : Type 0 where
  pub dec : Cipher
  pub proto : ProtoTag
  pub cipher_buf : Buffer
  pub plain_buf : Buffer
  pub disabled : Bool
  pub idle_calls : ℕ

unfoldable pub trim_idle_buffers : MsgSplitter → MsgSplitter
unfolding shrink_to
trim_idle_buffers s =
    if not (is_empty s.cipher_buf.bytes) || leb s.cipher_buf.capacity retained_capacity
    then record s { idle_calls = 0 }
    else let idle = min 255 (s.idle_calls + 1) in
      if ltb idle trim_after_idle_calls then record s { idle_calls = idle } else record s {
        cipher_buf = shrink_to s.cipher_buf retained_capacity;
        plain_buf = shrink_to s.plain_buf retained_capacity;
        idle_calls = 0;
      }

unfoldable pub flush : MsgSplitter → List (List ℕ) × MsgSplitter
unfolding clear shrink_to
flush s = if is_empty s.cipher_buf.bytes then ([], s) else (
  s.cipher_buf.bytes ∷ [],
  record s { cipher_buf = empty; plain_buf = shrink_to (clear s.plain_buf) retained_capacity },
)

-- How the loop of `split` ends: it needs more bytes, or it meets a packet it cannot measure.
pub data Scan : Type 0 where
  starved : List (List ℕ) → ℕ → Scan
  unsupported : List (List ℕ) → Scan

-- The loop of `split`; `none` means that the fuel ran out.
unfoldable pub scan : ℕ → ProtoTag → List ℕ → List ℕ → ℕ → List (List ℕ) → Option Scan
scan zero proto plain cipher consumed parts = none
scan (suc fuel) proto plain cipher consumed parts = elim (next_packet_len proto plain consumed) [
  | none ↦ some (starved parts consumed)
  | some zero ↦ some (unsupported (parts ++ (drop consumed cipher ∷ [])))
  | some (suc n) ↦
      let end = consumed + suc n in
      scan fuel proto plain cipher end (parts ++ (slice consumed end cipher ∷ []))
]

-- What `split` does with the loop's end, on the state with the read appended.
unfoldable pub finish : MsgSplitter → Option Scan → Option (List (List ℕ) × MsgSplitter)
unfolding drain trim_idle_buffers
finish s none = none
finish s (some (unsupported parts)) =
    some (parts, record s { cipher_buf = empty; plain_buf = empty; disabled = true })
finish s (some (starved parts consumed)) =
    let drained : MsgSplitter = record s {
      cipher_buf = drain s.cipher_buf consumed;
      plain_buf = drain s.plain_buf consumed;
    } in
    some (parts, trim_idle_buffers (if consumed == 0 then s else drained))

module _ (P : Primitives) where
  unfoldable pub new : List ℕ → ProtoTag → MsgSplitter
  unfolding make_cipher skip_init
  new relay_init proto = record {
    dec = skip_init P (make_cipher (prekey_of relay_init) (iv_of relay_init));
    proto = proto;
    cipher_buf = empty;
    plain_buf = empty;
    disabled = false;
    idle_calls = 0;
  }

  -- The read appended to both buffers; the fresh part of the plain one is decrypted in place.
  unfoldable pub append_read : MsgSplitter → List ℕ → MsgSplitter
  unfolding apply_keystream extend_from_slice
  append_read s encrypted =
      let (fresh, dec) = apply_keystream P s.dec encrypted in
      record s {
        dec = dec;
        plain_buf = extend_from_slice s.plain_buf fresh;
        cipher_buf = extend_from_slice s.cipher_buf encrypted;
      }

  -- A packet takes a byte at least, so one round more than there are bytes is enough fuel.
  unfoldable pub split : MsgSplitter → List ℕ → Option (List (List ℕ) × MsgSplitter)
  unfolding append_read finish
  split s encrypted =
      if is_empty encrypted
      then some ([], s)
      else if s.disabled
      then some (encrypted ∷ [], s)
      else let t = append_read s encrypted in
        let plain = t.plain_buf.bytes in
        finish t (scan (suc (length plain)) t.proto plain t.cipher_buf.bytes 0 [])

  -- One call of `split` for each read of the client, and what all of them emit in order.
  unfoldable pub split_all : MsgSplitter → List (List ℕ) → Option (List (List ℕ) × MsgSplitter)
  split_all s [] = some ([], s)
  split_all s (chunk ∷ chunks) = elim (split s chunk) [
    | none ↦ none
    | some (parts, s') ↦ elim (split_all s' chunks) [
      | none ↦ none
      | some (more, s'') ↦ some (parts ++ more, s'')
    ]
  ]
