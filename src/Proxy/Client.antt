-- ===== src/Proxy/Client.antt =====
-- rust/src/proxy.rs, `handle_client_with_runtime`: one client, from its first byte to its bridge.
-- What arrives, what is drawn, what the dials bring and how many sends the sockets take are
-- arguments.
pub mod Reads
pub mod Serve
pub mod Opening
pub mod Bridged
pub mod Way
pub mod Packets
use tg_ws_proxy.Base.{
  ℕ, zero, suc, ◌+◌, ◌-◌, ◌%◌, ◌^◌, Bool, true, false, Option, none, some, List, [], ◌∷◌, ◌++◌,
  length, take, drop, concat, is_empty, leb, ◌==◌, if◌then◌else◌,
}
use tg_ws_proxy.Crypto.Cipher.{Primitives}
use tg_ws_proxy.Crypto.Handshake.{HandshakeInfo, parse_handshake}
use tg_ws_proxy.Proxy.Bridge.{ClientWriter}
use tg_ws_proxy.Proxy.Inbound.{Inbound}
use tg_ws_proxy.Proxy.Accept.{accept_inbound_faketls}
use tg_ws_proxy.Proxy.Session.{ClientReader, plain, fake_tls}

-- `read_exact` on what arrives; `none` where the stream ends before.
unfoldable pub read_exact_parts : ℕ → List (List ℕ) → Option (List ℕ × List (List ℕ))
read_exact_parts n [] = if n == 0 then some ([], []) else none
read_exact_parts n (part ∷ parts) =
    let rest = read_exact_parts (n - length part) parts in
    if n == 0
    then some ([], part ∷ parts)
    else if is_empty part
    then none
    else if leb (length part) n
    then elim rest [ none ↦ none | some (bytes, left) ↦ some (part ++ bytes, left) ]
    else some (take n part, drop n part ∷ parts)

-- What arrives before the end of the stream.
unfoldable pub arrived : List (List ℕ) → List ℕ
arrived [] = []
arrived (part ∷ parts) = if is_empty part then [] else part ++ arrived parts

-- The 64 bytes, the reader behind them, and what was written to the client on the way.
pub record Opened : Type 0 where
  pub handshake_buf : List ℕ
  pub reader : ClientReader
  pub writer : ClientWriter
  pub written : List ℕ

unfoldable pub opened_faketls : Option (Option (List ℕ × Inbound)) → Option (Option Opened)
opened_faketls none = none
opened_faketls (some none) = some none
opened_faketls (some (some (written, inbound))) = some (
    some (record {
      handshake_buf = inbound.init;
      reader = fake_tls inbound.pending inbound.rest;
      writer = ClientWriter.fake_tls;
      written = written;
    }))

-- The DC index with its sign, an i16 as its bit pattern: `dc_id as i16` and `-(dc_id as i16)`.
unfoldable pub dc_idx_of : HandshakeInfo → ℕ
dc_idx_of info =
    if info.is_media then (2 ^ 16 - info.dc_id % 2 ^ 16) % 2 ^ 16 else info.dc_id % 2 ^ 16

module _ (P : Primitives) where
  -- `read_inbound_handshake`, with the reader and the writer that are made of the two halves
  -- behind it. The outer `none` means that the fuel ran out.
  unfoldable pub read_inbound_handshake :
      List (List ℕ) → Option (List ℕ) → List ℕ → List ℕ → List (List ℕ) → Option (Option Opened)
  unfolding opened_faketls
  read_inbound_handshake secrets none key_share cert parts =
      elim (read_exact_parts 64 parts) as (λ _. Option (Option Opened)) [
        | none ↦ some none
        | some (bytes, rest) ↦ some (
            some (record {
              handshake_buf = bytes;
              reader = plain rest;
              writer = ClientWriter.plain;
              written = [];
            }))
      ]
  read_inbound_handshake secrets (some domain) key_share cert parts =
      opened_faketls (accept_inbound_faketls P secrets domain key_share cert (arrived parts))

  -- `secrets.iter().find_map(..)`
  unfoldable pub find_secret : List ℕ → List (List ℕ) → Option (HandshakeInfo × List ℕ)
  find_secret handshake_buf [] = none
  find_secret handshake_buf (secret ∷ secrets) = elim (parse_handshake P handshake_buf secret) [
    | some info ↦ some (info, secret)
    | none ↦ find_secret handshake_buf secrets
  ]
