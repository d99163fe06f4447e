-- ===== src/Proxy/EndToEnd.antt =====
-- rust/src/proxy.rs, `bridge_ws`: the client's packets reach Telegram.
use tg_ws_proxy.Base.{
  ℕ, ◌≡◌, refl, ap, ap₂, ◌∙◌, true, none, some, List, [], ◌∷◌, ◌++◌, append-nil, concat, All,
  is_empty,
}
use tg_ws_proxy.Crypto.Cipher.{Primitives, crypt, crypt_twice}
use tg_ws_proxy.Crypto.Tag.{ProtoTag}
use tg_ws_proxy.Crypto.Session.{build_connection_ciphers, ConnectionCiphers}
use tg_ws_proxy.Splitter.Split.{MsgSplitter, new, flush}
use tg_ws_proxy.Splitter.Packets.{Packet, IsPacket}
use tg_ws_proxy.Splitter.Cuts.{encode_all, lengths, cut}
use tg_ws_proxy.Splitter.Frames.{split_all-packets}
use tg_ws_proxy.Proxy.Bridge.{packets, tunnel, Upload, bridge_ws, send_parts}
use tg_ws_proxy.Proxy.Upload.{IsRead, recoded, concat-recoded, upload-split_all, upload-tunnel}

flush-nil : (t : MsgSplitter) → t.cipher_buf.bytes ≡ [] → (flush t).0 ≡ []
unfolding flush
flush-nil t e = ap (λ r. r.0) (lem (ap is_empty e))
  where
    lem : is_empty t.cipher_buf.bytes ≡ true → flush t ≡ ([], t)
    lem h = rw (h, flush) refl

module _ (P : Primitives) (prekey_and_iv secret relay_init : List ℕ) (proto : ProtoTag) where
  abbrev ciphers : ConnectionCiphers
  ciphers = build_connection_ciphers P prekey_and_iv secret relay_init

  module _ (stream : List ℕ) (reads : List (List ℕ))
      (e : concat reads ≡ crypt P ciphers.clt_dec stream) where
    recoded_stream :
        concat (recoded P ciphers.clt_dec ciphers.tg_enc reads) ≡ crypt P ciphers.tg_enc stream
    recoded_stream =
        concat-recoded P ciphers.clt_dec ciphers.tg_enc reads
        ∙ ap (λ x. crypt P ciphers.tg_enc (crypt P ciphers.clt_dec x)) e
        ∙ ap (crypt P ciphers.tg_enc) (crypt_twice P ciphers.clt_dec stream)

  -- The client encrypts a sequence of packets and its bytes arrive in any reads. With the framing
  -- for Telegram's own WebSocket the bridge sends the relay init, and its upload loop, where it is
  -- not aborted, then sends one message for each packet, in order: the stream encrypted for
  -- Telegram, cut at the packets' ends; and it closes the socket when the client has stopped.
  pub bridge_ws-packets :
      (ps : List Packet) (reads : List (List ℕ))
      → All (IsPacket proto) ps
      → All IsRead reads
      → concat reads ≡ crypt P ciphers.clt_dec (encode_all proto ps)
      → (end : Upload) × (bridge_ws P packets relay_init proto ciphers none reads ≡ some end)
        × (end.sent
            ≡ relay_init ∷ cut (lengths proto ps) (crypt P ciphers.tg_enc (encode_all proto ps)))
        × (end.closed ≡ true)
  unfolding bridge_ws send_parts
  bridge_ws-packets ps reads ok chunks e =
      let (t, split, gone) =
        split_all-packets P relay_init prekey_and_iv secret proto ps
          (recoded P ciphers.clt_dec ciphers.tg_enc reads) ok
          (recoded_stream (encode_all proto ps) reads e) in
      let r =
        upload-split_all P reads ciphers.clt_dec ciphers.tg_enc (new P relay_init proto) t
          (relay_init ∷ []) _ 0 chunks split in
      (
        r.end,
        r.returns,
        r.all_sent
            ∙ ap₂ (λ x y. relay_init ∷ (cut (lengths proto ps) x ++ y))
                (recoded_stream (encode_all proto ps) reads e) (flush-nil t gone)
            ∙ ap (◌∷◌ relay_init) (append-nil _),
        r.closed,
      )

  -- With the framing for a Worker's tunnel the messages behind the relay init, put together, are
  -- the client's stream encrypted for Telegram, whatever the stream and its reads are, where the
  -- upload loop is not aborted.
  pub bridge_ws-tunnel :
      (stream : List ℕ) (reads : List (List ℕ))
      → All IsRead reads
      → concat reads ≡ crypt P ciphers.clt_dec stream
      → (end : Upload) × (messages : List (List ℕ)) × (bridge_ws P tunnel relay_init proto ciphers
            none reads
          ≡ some end)
        × (end.sent ≡ relay_init ∷ messages)
        × (concat messages ≡ crypt P ciphers.tg_enc stream)
        × (end.closed ≡ true)
  unfolding bridge_ws send_parts
  bridge_ws-tunnel stream reads chunks e =
      let r = upload-tunnel P reads ciphers.clt_dec ciphers.tg_enc (relay_init ∷ []) 0 chunks in
      (
        r.end,
        recoded P ciphers.clt_dec ciphers.tg_enc reads,
        r.returns,
        r.all_sent,
        recoded_stream stream reads e,
        r.closed,
      )
