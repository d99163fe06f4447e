-- ===== src/Proxy/Bridge.antt =====
-- rust/src/proxy.rs, `bridge_ws` and `bridge_tcp`: the upload and the download loop. The reads that
-- the loop gets are a list, in which an empty read is the end of the stream; a sink says how many
-- more sends it takes before it fails, or that it never does.
use tg_ws_proxy.Base.{
  ℕ, zero, suc, ◌+◌, ◌%◌, ◌^◌, Bool, true, false, Option, none, some, List, [], ◌∷◌, ◌++◌, length,
  is_empty, if◌then◌else◌,
}
use tg_ws_proxy.Crypto.Cipher.{Primitives, Cipher, apply_keystream}
use tg_ws_proxy.Crypto.Session.{ConnectionCiphers}
use tg_ws_proxy.Crypto.Tag.{ProtoTag}
use tg_ws_proxy.Splitter.Split.{MsgSplitter, new, split, flush}
use tg_ws_proxy.FakeTls.Record.{write_tls_appdata}

pub data WsFraming : Type 0 where
  packets tunnel : WsFraming

-- The sends that a sink still takes; `none` for a sink that never fails.
abbrev pub Sink : Type 0
Sink = Option ℕ

-- The parts that are sent, the sink afterwards, and whether every send succeeded.
unfoldable pub send_parts : Sink → List (List ℕ) → List (List ℕ) × Sink × Bool
send_parts sink [] = ([], sink, true)
send_parts none (part ∷ parts) =
    let (sent, sink, ok) = send_parts none parts in (part ∷ sent, sink, ok)
send_parts (some zero) (part ∷ parts) = ([], some zero, false)
send_parts (some (suc n)) (part ∷ parts) =
    let (sent, sink, ok) = send_parts (some n) parts in (part ∷ sent, sink, ok)

-- `BridgeCounters`: a `u64` in each direction.
unfoldable pub add_bytes : ℕ → ℕ → ℕ
add_bytes counter n = (counter + n) % 2 ^ 64

pub record Upload : Type 0 where
  pub clt_dec : Cipher
  pub tg_enc : Cipher
  pub splitter : Option MsgSplitter
  pub sink : Sink
  pub sent : List (List ℕ)
  pub up : ℕ
  pub closed : Bool

module _ (P : Primitives) where
  -- Decrypt from the one side, then encrypt for the other.
  unfoldable pub recode : Cipher → Cipher → List ℕ → List ℕ × Cipher × Cipher
  unfolding apply_keystream
  recode dec enc chunk =
      let (plain, dec) = apply_keystream P dec chunk in
      let (cipher, enc) = apply_keystream P enc plain in (cipher, dec, enc)

  -- The messages for one read, and the splitter afterwards.
  unfoldable pub frames_of :
      Option MsgSplitter → List ℕ → Option (List (List ℕ) × Option MsgSplitter)
  frames_of none chunk = some (chunk ∷ [], none)
  frames_of (some splitter) chunk = elim (split P splitter chunk) [
    | none ↦ none
    | some (parts, splitter) ↦ some (parts, some splitter)
  ]

  -- Behind the loop: what is left in the splitter is sent, whether the sends succeed or not, and
  -- the sink is closed.
  unfoldable pub last_parts : Option MsgSplitter → List (List ℕ)
  last_parts none = []
  last_parts (some splitter) = (flush splitter).0

  unfoldable pub finish_upload : Upload → Upload
  unfolding last_parts send_parts
  finish_upload u =
      let (sent, sink, ok) = send_parts u.sink (last_parts u.splitter) in
      record u { sent = u.sent ++ sent; sink = sink; closed = true }

  -- One round of the upload loop behind the read: the state, and whether the loop goes on.
  unfoldable pub forward : Upload → List ℕ → Option (Upload × Bool)
  forward u chunk =
      let (cipher, dec, enc) = recode u.clt_dec u.tg_enc chunk in
      elim (frames_of u.splitter cipher) [
        | none ↦ none
        | some (parts, splitter) ↦
            let (sent, sink, ok) = send_parts u.sink parts in
            some (
              record u {
                clt_dec = dec;
                tg_enc = enc;
                splitter = splitter;
                sink = sink;
                sent = u.sent ++ sent;
                up = if ok then add_bytes u.up (length chunk) else u.up;
              },
              ok,
            )
      ]

  -- The upload loop of `bridge_ws`; `none` where the splitter runs out of fuel.
  unfoldable pub upload : Upload → List (List ℕ) → Option Upload
  upload u [] = some (finish_upload u)
  upload u (chunk ∷ chunks) =
      if is_empty chunk then some (finish_upload u) else elim (forward u chunk) [
        | none ↦ none
        | some (v, true) ↦ upload v chunks
        | some (v, false) ↦ some v
      ]

  -- `bridge_ws` up to its upload loop: the relay init is sent as the first message.
  unfoldable pub bridge_ws :
      WsFraming → List ℕ → ProtoTag → ConnectionCiphers → Sink → List (List ℕ) → Option Upload
  bridge_ws framing relay_init proto ciphers sink reads =
      let (sent, sink, ok) = send_parts sink (relay_init ∷ []) in
      let splitter = elim framing as (λ _. Option MsgSplitter) [
        | packets ↦ some (new P relay_init proto)
        | tunnel ↦ none
      ] in
      let u : Upload = record {
        clt_dec = ciphers.clt_dec;
        tg_enc = ciphers.tg_enc;
        splitter = splitter;
        sink = sink;
        sent = sent;
        up = 0;
        closed = false;
      } in
      elim ok [ true ↦ upload u reads | false ↦ some u ]

-- What arrives on the WebSocket; `ended` stands for a close frame, an error and the end.
pub data Message : Type 0 where
  binary : List ℕ → Message
  text : List ℕ → Message
  ping pong ended : Message

-- The write half of the client: as it is, or in records of application data.
pub data ClientWriter : Type 0 where
  plain fake_tls : ClientWriter

unfoldable pub write_all : ClientWriter → List ℕ → Option (List ℕ)
write_all plain data_out = some data_out
write_all fake_tls data_out = write_tls_appdata data_out

-- What the download loop does with a message.
pub data Received : Type 0 where
  payload : List ℕ → Received
  skipped closing : Received

unfoldable pub received : Message → Received
received (binary b) = payload b
received (text b) = payload b
received ping = skipped
received pong = skipped
received ended = closing

-- One send: `none` if it fails, or the sink afterwards.
unfoldable pub take_send : Sink → Option Sink
take_send none = some none
take_send (some zero) = none
take_send (some (suc n)) = some (some n)

module _ (P : Primitives) where
  -- The download loop: the bytes written to the client and the count of those passed on. The
  -- outer `none` means that `write_tls_appdata` ran out of fuel.
  unfoldable pub download :
      ClientWriter → Sink → Cipher → Cipher → ℕ → List Message → Option (List ℕ × ℕ)
  download writer sink tg_dec clt_enc down [] = some ([], down)
  download writer sink tg_dec clt_enc down (m ∷ ms) = elim (received m) [
    | closing ↦ some ([], down)
    | skipped ↦ download writer sink tg_dec clt_enc down ms
    | payload b ↦
        let (out, dec, enc) = recode P tg_dec clt_enc b in
        elim (take_send sink) [
          | none ↦ some ([], down)
          | some sink ↦ elim (write_all writer out) [
            | none ↦ none
            | some wire ↦ elim (download writer sink dec enc (add_bytes down (length b)) ms) [
              | none ↦ none
              | some (more, down) ↦ some (wire ++ more, down)
            ]
          ]
        ]
  ]
