-- ===== src/Proxy/Client/Bridged.antt =====
-- rust/src/proxy.rs, `bridge_ws` on a reader: both directions of a session with Telegram's packets.
use tg_ws_proxy.Base.{
  [], false, ℕ, ◌%◌, ◌^◌, ◌≡◌, refl, true, Option, none, some, List, ◌∷◌, length, All,
}
use tg_ws_proxy.Crypto.Cipher.{Primitives, crypt}
use tg_ws_proxy.Crypto.Tag.{ProtoTag}
use tg_ws_proxy.Crypto.Session.{ConnectionCiphers, build_connection_ciphers}
use tg_ws_proxy.Splitter.Packets.{Packet, IsPacket}
use tg_ws_proxy.Splitter.Cuts.{encode_all, lengths, cut}
use tg_ws_proxy.Proxy.Bridge.{
  Message, packets, Upload, ClientWriter, take_send, bridge_ws, send_parts,
}
use tg_ws_proxy.Splitter.Split.{new}
use tg_ws_proxy.Proxy.WsSession.{WsBridge, WsReach}
use tg_ws_proxy.Proxy.WsServed.{IsServed, WsReach-IsServed}
use tg_ws_proxy.Proxy.EndToEnd.{bridge_ws-packets}
use tg_ws_proxy.Proxy.Download.{payloads, download-delivers}
use tg_ws_proxy.Proxy.Session.{ClientReader}
use tg_ws_proxy.Proxy.Carry.{Holds, Carries}
use tg_ws_proxy.Proxy.Client.Reads.{reads_of-Holds}
use tg_ws_proxy.Proxy.Client.Serve.{Served, by_web_socket, serve_ws}

module _ (P : Primitives) (prekey_and_iv secret relay_init : List ℕ) (proto : ProtoTag)
    (ps : List Packet) (ok : All (IsPacket proto) ps) (down : List ℕ) where
  abbrev pub ciphers : ConnectionCiphers
  ciphers = build_connection_ciphers P prekey_and_iv secret relay_init

  -- In every state of the session Telegram and the client have been served: the one with the relay
  -- init and a message for each packet, the other with what Telegram sends.
  pub record Bridged (w : ClientWriter) (r : Option Served) : Type 0 where
    pub start : WsBridge
    pub end : Upload
    pub wire : List ℕ
    pub returns : r ≡ some (by_web_socket (some start))
    pub stays : (b : WsBridge) → WsReach P start b → IsServed P end wire (length down % 2 ^ 64) b
    pub sent :
        end.sent
        ≡ relay_init ∷ cut (lengths proto ps) (crypt P ciphers.tg_enc (encode_all proto ps))
    pub closed : end.closed ≡ true
    pub carries : Carries w wire (crypt P ciphers.clt_enc down)

  abbrev begun : List (List ℕ) → ClientWriter → List Message → WsBridge
  begun reads w messages = record {
    reads = reads;
    messages = messages;
    upload = record {
      clt_dec = ciphers.clt_dec;
      tg_enc = ciphers.tg_enc;
      splitter = some (new P relay_init proto);
      sink = none;
      sent = relay_init ∷ [];
      up = 0;
      closed = false;
    };
    download = record {
      writer = w;
      sink = none;
      tg_dec = ciphers.tg_dec;
      clt_enc = ciphers.clt_enc;
      written = [];
      down = 0;
    };
    closed_by = none;
  }

  pub serve_ws-Bridged :
      (reader : ClientReader) (w : ClientWriter) (messages : List Message)
      → Holds reader (crypt P ciphers.clt_dec (encode_all proto ps))
      → payloads messages ≡ crypt P ciphers.tg_dec down
      → Bridged w (serve_ws P reader w none relay_init proto ciphers none packets messages)
  unfolding serve_ws take_send bridge_ws send_parts
  serve_ws-Bridged reader w messages held e =
      let (reads, read, chunks, whole) = reads_of-Holds reader _ held in
      let (end, uploads, sent, closed) =
        bridge_ws-packets P prekey_and_iv secret relay_init proto ps reads ok chunks whole in
      let (wire, downloads, carries) = download-delivers P w ciphers down messages e in
      let start = begun reads w messages in
      record {
        start = start;
        end = end;
        wire = wire;
        returns = rw (read, serve_ws) refl;
        stays = λ b r.
            WsReach-IsServed P start b end wire (length down % 2 ^ 64) refl uploads
              (record { rest = wire; returns = downloads; whole = refl }) r;
        sent = sent;
        closed = closed;
        carries = carries;
      }
