-- ===== src/Splitter/Packets.antt =====
-- The MTProto transports as their documentation gives them: what a client writes for one packet.
-- An independent description, against which the parsers of rust/src/splitter.rs are proved.
use tg_ws_proxy.Base.{
  ℕ, ◌+◌, ◌*◌, ◌/◌, ◌%◌, ◌^◌, ◌<◌, ◌≡◌, sym, ap, ◌∙◌, inl, inr, Bool, Option, none, some, List, [],
  ◌∷◌, ◌++◌, arith, length, ltb, if◌then◌else◌, Bool-cases,
}
use tg_ws_proxy.Crypto.Tag.{ProtoTag, abridged, intermediate, padded_intermediate}
use tg_ws_proxy.Splitter.Lengths.{next_packet_len}

-- `quick_ack` is the flag in the header's top bit.
pub record Packet : Type 0 where
  pub quick_ack : Bool
  pub payload : List ℕ

abbrev pub flag : Packet → ℕ → ℕ
flag p bit = if p.quick_ack then bit else 0

-- The four bytes of a u32, and the three of a 24-bit number, lowest first.
abbrev pub le32 : ℕ → List ℕ
le32 n = (n % 256) ∷ (n / 0x100 % 256) ∷ (n / 0x1_0000 % 256) ∷ (n / 0x100_0000 % 256) ∷ []

-- A number of words below 127 takes one byte, any other 0x7f and three bytes.
abbrev pub abridged_header : Packet → List ℕ
abridged_header p =
    let words = length p.payload / 4 in
    if ltb words 127
    then (words + flag p 0x80) ∷ []
    else (0x7f + flag p 0x80)
      ∷ (words % 256)
      ∷ (words / 0x100 % 256)
      ∷ (words / 0x1_0000 % 256)
      ∷ []

abbrev pub intermediate_header : Packet → List ℕ
intermediate_header p = le32 (length p.payload + flag p 0x8000_0000)

abbrev pub header : ProtoTag → Packet → List ℕ
header abridged p = abridged_header p
header intermediate p = intermediate_header p
header padded_intermediate p = intermediate_header p

abbrev pub encode : ProtoTag → Packet → List ℕ
encode proto p = header proto p ++ p.payload

-- A payload is not empty, fits the length field and, when abridged, is a whole number of words.
abbrev pub IsPacket : ProtoTag → Packet → Type 0
IsPacket abridged p =
    (0 < length p.payload) × (length p.payload % 4 ≡ 0) × (length p.payload < 2 ^ 26)
IsPacket intermediate p = (0 < length p.payload) × (length p.payload < 2 ^ 31)
IsPacket padded_intermediate p = (0 < length p.payload) × (length p.payload < 2 ^ 31)

-- What the parser has to say of the first bytes `r` of a stream that begins with `n` bytes of packet.
abbrev pub measured : List ℕ → ℕ → Option ℕ
measured r n = if ltb (length r) n then none else some n

intermediate_prefix :
    (n h : ℕ) (r fut body : List ℕ)
    → 0 < n
    → h < 2 ^ 32
    → h % 0x8000_0000 ≡ n
    → r ++ fut ≡ le32 h ++ body
    → next_packet_len intermediate r 0 ≡ measured r (4 + n)
unfolding next_packet_len
intermediate_prefix n h [] fut body pos small e q = ground arith
intermediate_prefix n h (a ∷ []) fut body pos small e q = ground arith
intermediate_prefix n h (a ∷ b ∷ []) fut body pos small e q = ground arith
intermediate_prefix n h (a ∷ b ∷ c ∷ []) fut body pos small e q = ground arith
intermediate_prefix n h (a ∷ b ∷ c ∷ d ∷ r) fut body pos small e q = ground arith

short_prefix :
    (w first : ℕ) (r fut body : List ℕ)
    → 0 < w
    → w < 127
    → first % 0x80 ≡ w
    → r ++ fut ≡ (first ∷ []) ++ body
    → next_packet_len abridged r 0 ≡ measured r (1 + w * 4)
unfolding next_packet_len
short_prefix w first [] fut body pos small e q = ground arith
short_prefix w first (a ∷ r) fut body pos small e q = ground arith

long_prefix :
    (w first : ℕ) (r fut body : List ℕ)
    → 0 < w
    → w < 2 ^ 24
    → first % 0x80 ≡ 0x7f
    → first < 256
    → r ++ fut ≡ (first ∷ (w % 256) ∷ (w / 0x100 % 256) ∷ (w / 0x1_0000 % 256) ∷ []) ++ body
    → next_packet_len abridged r 0 ≡ measured r (4 + w * 4)
unfolding next_packet_len
long_prefix w first [] fut body pos small e byte q = ground arith
long_prefix w first (a ∷ []) fut body pos small e byte q = ground arith
long_prefix w first (a ∷ b ∷ []) fut body pos small e byte q = ground arith
long_prefix w first (a ∷ b ∷ c ∷ []) fut body pos small e byte q = ground arith
long_prefix w first (a ∷ b ∷ c ∷ d ∷ r) fut body pos small e byte q = ground arith

intermediate_packet :
    (p : Packet) (r fut rest : List ℕ)
    → IsPacket intermediate p
    → r ++ fut ≡ encode intermediate p ++ rest
    → next_packet_len intermediate r 0 ≡ measured r (length (encode intermediate p))
intermediate_packet p r fut rest (pos, small) q =
    intermediate_prefix (length p.payload) (length p.payload + flag p 0x8000_0000) r fut
      (p.payload ++ rest) pos (ground arith) (ground arith) q
    ∙ ap (measured r) (omega arith)

module _ (p : Packet) (r fut rest : List ℕ) (ok : IsPacket abridged p)
    (q : r ++ fut ≡ encode abridged p ++ rest) where
  abbrev words : ℕ
  words = length p.payload / 4

  -- The header is known: measure the packet with it.
  with_header :
      (h : List ℕ) (n : ℕ)
      → abridged_header p ≡ h
      → length (h ++ p.payload) ≡ n
      → (r ++ fut ≡ (h ++ p.payload) ++ rest → next_packet_len abridged r 0 ≡ measured r n)
      → next_packet_len abridged r 0 ≡ measured r (length (encode abridged p))
  with_header h n e len known =
      known (q ∙ ap (λ k. (k ++ p.payload) ++ rest) e)
      ∙ ap (measured r) (sym (ap (λ k. length (k ++ p.payload)) e ∙ len))

  abridged_packet : next_packet_len abridged r 0 ≡ measured r (length (encode abridged p))
  abridged_packet = elim (Bool-cases (ltb words 127)) [
    | inl e ↦
        with_header ((words + flag p 0x80) ∷ []) (1 + words * 4)
          (ap (λ b. if b then (words + flag p 0x80) ∷ [] else long) e) (omega arith)
          (short_prefix words (words + flag p 0x80) r fut (p.payload ++ rest) (ground arith)
            (ground arith) (ground arith))
    | inr e ↦
        with_header long (4 + words * 4)
          (ap (λ b. if b then (words + flag p 0x80) ∷ [] else long) e) (omega arith)
          (long_prefix words (0x7f + flag p 0x80) r fut (p.payload ++ rest) (ground arith)
            (omega arith) (ground arith) (ground arith))
  ]
    where
      long : List ℕ
      long =
          (0x7f + flag p 0x80)
          ∷ (words % 256)
          ∷ (words / 0x100 % 256)
          ∷ (words / 0x1_0000 % 256)
          ∷ []

-- Whatever beginning of a stream has arrived, the parser measures its first packet: it asks for
-- more while the packet is not complete, and then gives its length.
pub next_packet_len-encode :
    (proto : ProtoTag) (p : Packet) (r fut rest : List ℕ)
    → IsPacket proto p
    → r ++ fut ≡ encode proto p ++ rest
    → next_packet_len proto r 0 ≡ measured r (length (encode proto p))
unfolding next_packet_len
next_packet_len-encode abridged p r fut rest ok q = abridged_packet p r fut rest ok q
next_packet_len-encode intermediate p r fut rest ok q = intermediate_packet p r fut rest ok q
next_packet_len-encode padded_intermediate p r fut rest ok q = intermediate_packet p r fut rest ok q
