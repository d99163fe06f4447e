-- ===== src/Proxy/Session.antt =====
-- rust/src/proxy.rs, `bridge_relay` and `bridge_tcp`: the two tasks of a bridge, and how they end.
-- A plain reader is the list of what arrives, each part when it does, and an empty part is the end.
use tg_ws_proxy.Base.{
  ℕ, ◌+◌, Bool, Option, none, some, List, [], ◌∷◌, ◌++◌, length, take, drop, ◌≡◌, min, leb,
  if◌then◌else◌,
}
use tg_ws_proxy.Crypto.Cipher.{Primitives, Cipher}
use tg_ws_proxy.Crypto.Session.{ConnectionCiphers}
use tg_ws_proxy.FakeTls.Record.{read_tls_appdata, tls_max_record_payload}
use tg_ws_proxy.Proxy.Bridge.{ClientWriter, write_all, Sink, take_send, recode, add_bytes}
use tg_ws_proxy.Proxy.Inbound.{tls_read_headroom}

abbrev pub relay_buf_size : ℕ
relay_buf_size = 16384

abbrev pub client_read_buf_size : ℕ
client_read_buf_size = tls_max_record_payload + tls_read_headroom

-- `ClientReader`, and the reader of an upstream, which is one with nothing pending.
pub data ClientReader : Type 0 where
  plain : List (List ℕ) → ClientReader
  fake_tls : List ℕ → List ℕ → ClientReader

-- A part that does not fit is read in two.
unfoldable pub read_plain : ℕ → List (List ℕ) → List ℕ × List (List ℕ)
read_plain room [] = ([], [])
read_plain room (part ∷ parts) =
    if leb (length part) room then (part, parts) else (take room part, drop room part ∷ parts)

-- `ClientReader::read` with a buffer of `room` bytes; `none` means that the fuel of
-- `read_tls_appdata` ran out.
unfoldable pub read : ℕ → ClientReader → Option (List ℕ × ClientReader)
unfolding read_plain
read room (plain parts) = let (part, rest) = read_plain room parts in some (part, plain rest)
read room (fake_tls [] stream) = elim (read_tls_appdata room stream) [
  | none ↦ none
  | some (payload, rest) ↦ some (payload, fake_tls [] rest)
]
read room (fake_tls (b ∷ bs) stream) =
    let n = min room (length (b ∷ bs)) in some (take n (b ∷ bs), fake_tls (drop n (b ∷ bs)) stream)

-- One direction of a bridge.
pub record Task : Type 0 where
  pub source : ClientReader
  pub room : ℕ
  pub writer : ClientWriter
  pub sink : Sink
  pub dec : Cipher
  pub enc : Cipher
  pub wire : List ℕ
  pub count : ℕ

pub data Round : Type 0 where
  goes_on : Task → Round
  stops : Task → Round

-- The write of what was encrypted, with the ciphers as they are then. It is out in full, or it fails
-- with nothing written.
unfoldable pub write_out : Task → List ℕ → ClientReader → List ℕ × Cipher × Cipher → Option Round
write_out t chunk source (out, dec, enc) = elim (take_send t.sink) [
  | none ↦ some (stops (record t { source = source; dec = dec; enc = enc }))
  | some sink ↦ elim (write_all t.writer out) [
    | none ↦ none
    | some wire ↦ some (
        goes_on (record t {
          source = source;
          sink = sink;
          dec = dec;
          enc = enc;
          wire = t.wire ++ wire;
          count = add_bytes t.count (length chunk);
        }))
  ]
]

module _ (P : Primitives) where
  -- Behind a read that gave bytes.
  unfoldable pub pass_on : Task → List ℕ → ClientReader → Option Round
  pass_on t chunk source = write_out t chunk source (recode P t.dec t.enc chunk)

  -- One round of the loop of a direction.
  unfoldable pub round : Task → Option Round
  round t = elim (read t.room t.source) [
    | none ↦ none
    | some ([], source) ↦ some (stops (record t { source = source }))
    | some (b ∷ bs, source) ↦ pass_on t (b ∷ bs) source
  ]

pub data ClosedBy : Type 0 where
  client upstream : ClosedBy

-- Both tasks, and which of them ended the session.
pub record Bridge : Type 0 where
  pub upload : Task
  pub download : Task
  pub closed_by : Option ClosedBy

-- What the sinks take is an argument: the upstream's and the client's.
unfoldable pub bridge_relay :
    ClientReader → ClientWriter → ConnectionCiphers → Bool → ClientReader → Sink → Sink → Bridge
bridge_relay reader writer ciphers faketls rem_reader rem_sink sink = record {
  upload = record {
    source = reader;
    room = client_read_buf_size;
    writer = if faketls then ClientWriter.fake_tls else ClientWriter.plain;
    sink = rem_sink;
    dec = ciphers.clt_dec;
    enc = ciphers.tg_enc;
    wire = [];
    count = 0;
  };
  download = record {
    source = rem_reader;
    room = if faketls then tls_max_record_payload + tls_read_headroom else relay_buf_size;
    writer = writer;
    sink = sink;
    dec = ciphers.tg_dec;
    enc = ciphers.clt_enc;
    wire = [];
    count = 0;
  };
  closed_by = none;
}

-- Behind the connect: the relay init is the first thing that is written; `none` where that fails.
unfoldable pub bridge_tcp :
    ClientReader
    → ClientWriter
    → ConnectionCiphers
    → List ℕ
    → List (List ℕ)
    → Sink
    → Sink
    → Option Bridge
unfolding take_send
bridge_tcp reader writer ciphers relay_init arrivals rem_sink sink = elim (take_send rem_sink) [
  | none ↦ none
  | some rem_sink ↦ some (record {
    upload = record {
      source = reader;
      room = client_read_buf_size;
      writer = ClientWriter.plain;
      sink = rem_sink;
      dec = ciphers.clt_dec;
      enc = ciphers.tg_enc;
      wire = relay_init;
      count = 0;
    };
    download = record {
      source = plain arrivals;
      room = relay_buf_size;
      writer = writer;
      sink = sink;
      dec = ciphers.tg_dec;
      enc = ciphers.clt_enc;
      wire = [];
      count = 0;
    };
    closed_by = none;
  })
]

-- The tasks run side by side until one of them stops; `join_bridge` then aborts the other.
pub data Step (P : Primitives) : Bridge → Bridge → Type 0 where
  uploads :
      (b : Bridge) (t : Task)
      → b.closed_by ≡ none
      → round P b.upload ≡ some (goes_on t)
      → Step P b (record b { upload = t })
  downloads :
      (b : Bridge) (t : Task)
      → b.closed_by ≡ none
      → round P b.download ≡ some (goes_on t)
      → Step P b (record b { download = t })
  upload_ends :
      (b : Bridge) (t : Task)
      → b.closed_by ≡ none
      → round P b.upload ≡ some (stops t)
      → Step P b (record b { upload = t; closed_by = some client })
  download_ends :
      (b : Bridge) (t : Task)
      → b.closed_by ≡ none
      → round P b.download ≡ some (stops t)
      → Step P b (record b { download = t; closed_by = some upstream })

pub data Reach (P : Primitives) (start : Bridge) : Bridge → Type 0 where
  here : Reach P start start
  next : {b c : Bridge} → Reach P start b → Step P b c → Reach P start c
