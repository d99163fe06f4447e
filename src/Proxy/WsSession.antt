-- ===== src/Proxy/WsSession.antt =====
-- rust/src/proxy.rs, `bridge_ws` as a whole: its two tasks run side by side until one of them ends,
-- and `join_bridge` then aborts the other, which may be in the middle of its round.
use tg_ws_proxy.Base.{
  ℕ, ◌+◌, ◌≡◌, Option, none, some, true, false, List, [], ◌∷◌, ◌++◌, length, take, is_empty,
  if◌then◌else◌,
}
use tg_ws_proxy.Crypto.Cipher.{Primitives, Cipher}
use tg_ws_proxy.Crypto.Session.{ConnectionCiphers}
use tg_ws_proxy.Crypto.Tag.{ProtoTag}
use tg_ws_proxy.Splitter.Split.{MsgSplitter, new}
use tg_ws_proxy.Proxy.Bridge.{
  WsFraming, packets, tunnel, Sink, take_send, Upload, forward, finish_upload, Message, received,
  payload, skipped, closing, ClientWriter, write_all, recode, add_bytes,
}
use tg_ws_proxy.Proxy.Session.{ClosedBy, client, upstream}

pub record Download : Type 0 where
  pub writer : ClientWriter
  pub sink : Sink
  pub tg_dec : Cipher
  pub clt_enc : Cipher
  pub written : List ℕ
  pub down : ℕ

pub record WsBridge : Type 0 where
  -- The reads that the client's reader still gives, and what still arrives on the WebSocket.
  pub reads : List (List ℕ)
  pub messages : List Message
  pub upload : Upload
  pub download : Download
  pub closed_by : Option ClosedBy

module _ (P : Primitives) where
  -- A round of a task: the state, and what is left to read if the loop goes on. The outer `none`
  -- means that fuel ran out.
  unfoldable pub upload_round : Upload → List (List ℕ) → Option (Upload × Option (List (List ℕ)))
  unfolding forward finish_upload
  upload_round u [] = some (finish_upload P u, none)
  upload_round u (chunk ∷ chunks) =
      if is_empty chunk then some (finish_upload P u, none) else elim (forward P u chunk) [
        | none ↦ none
        | some (v, true) ↦ some (v, some chunks)
        | some (v, false) ↦ some (v, none)
      ]

  unfoldable pub download_payload :
      Download
      → List ℕ × Cipher × Cipher
      → List ℕ
      → List Message
      → Option (Download × Option (List Message))
  download_payload d (out, dec, enc) b ms = elim (take_send d.sink) [
    | none ↦ some (d, none)
    | some sink ↦ elim (write_all d.writer out) [
      | none ↦ none
      | some wire ↦ some (
        record d {
          sink = sink;
          tg_dec = dec;
          clt_enc = enc;
          written = d.written ++ wire;
          down = add_bytes d.down (length b);
        },
        some ms,
      )
    ]
  ]

  unfoldable pub download_round :
      Download → List Message → Option (Download × Option (List Message))
  unfolding download_payload
  download_round d [] = some (d, none)
  download_round d (m ∷ ms) = elim (received m) [
    | closing ↦ some (d, none)
    | skipped ↦ some (d, some ms)
    | payload b ↦ download_payload d (recode P d.tg_dec d.clt_enc b) b ms
  ]

  -- An aborted task: of the round that it was in, `n` messages or `n` bytes are out, and nothing of
  -- it is counted.
  unfoldable pub aborted_upload : ℕ → Upload → List (List ℕ) → Upload
  unfolding upload_round
  aborted_upload n u reads = elim (upload_round u reads) [
    | none ↦ u
    | some (v, rest) ↦ record u { sent = take (length u.sent + n) v.sent }
  ]

  unfoldable pub aborted_download : ℕ → Download → List Message → Download
  unfolding download_round
  aborted_download n d ms = elim (download_round d ms) [
    | none ↦ d
    | some (e, rest) ↦ record d { written = take (length d.written + n) e.written }
  ]

  -- Behind the relay init; `none` where its send fails.
  unfoldable pub ws_bridge :
      WsFraming
      → List ℕ
      → ProtoTag
      → ConnectionCiphers
      → Sink
      → List (List ℕ)
      → ClientWriter
      → Sink
      → List Message
      → Option WsBridge
  unfolding take_send
  ws_bridge framing relay_init proto ciphers ws_sink reads writer sink messages =
      let splitter = elim framing as (λ _. Option MsgSplitter) [
        | packets ↦ some (new P relay_init proto)
        | tunnel ↦ none
      ] in
      elim (take_send ws_sink) [
        | none ↦ none
        | some ws_sink ↦ some (record {
          reads = reads;
          messages = messages;
          upload = record {
            clt_dec = ciphers.clt_dec;
            tg_enc = ciphers.tg_enc;
            splitter = splitter;
            sink = ws_sink;
            sent = relay_init ∷ [];
            up = 0;
            closed = false;
          };
          download = record {
            writer = writer;
            sink = sink;
            tg_dec = ciphers.tg_dec;
            clt_enc = ciphers.clt_enc;
            written = [];
            down = 0;
          };
          closed_by = none;
        })
      ]

pub data WsStep (P : Primitives) : WsBridge → WsBridge → Type 0 where
  uploads :
      (b : WsBridge) (u : Upload) (reads : List (List ℕ))
      → b.closed_by ≡ none
      → upload_round P b.upload b.reads ≡ some (u, some reads)
      → WsStep P b (record b { upload = u; reads = reads })
  downloads :
      (b : WsBridge) (d : Download) (messages : List Message)
      → b.closed_by ≡ none
      → download_round P b.download b.messages ≡ some (d, some messages)
      → WsStep P b (record b { download = d; messages = messages })
  upload_ends :
      (b : WsBridge) (u : Upload) (n : ℕ)
      → b.closed_by ≡ none
      → upload_round P b.upload b.reads ≡ some (u, none)
      → WsStep P b (record b {
        upload = u;
        download = aborted_download P n b.download b.messages;
        closed_by = some client;
      })
  download_ends :
      (b : WsBridge) (d : Download) (n : ℕ)
      → b.closed_by ≡ none
      → download_round P b.download b.messages ≡ some (d, none)
      → WsStep P b (record b {
        download = d;
        upload = aborted_upload P n b.upload b.reads;
        closed_by = some upstream;
      })

pub data WsReach (P : Primitives) (start : WsBridge) : WsBridge → Type 0 where
  here : WsReach P start start
  next : {b c : WsBridge} → WsReach P start b → WsStep P b c → WsReach P start c
