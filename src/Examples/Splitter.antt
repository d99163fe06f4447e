-- ===== src/Examples/Splitter.antt =====
-- The theorems of rust/src/splitter.rs at concrete inputs.
use tg_ws_proxy.Base.{
  ℕ, ◌≡◌, refl, true, false, some, List, [], ◌∷◌, ◌++◌, length, replicate, concat, All, arith,
}
use tg_ws_proxy.Crypto.Cipher.{crypt, xor_from}
use tg_ws_proxy.Crypto.Tag.{abridged, intermediate}
use tg_ws_proxy.Crypto.Session.{build_connection_ciphers}
use tg_ws_proxy.Splitter.Lengths.{next_packet_len}
use tg_ws_proxy.Splitter.Split.{MsgSplitter, new, split_all, flush}
use tg_ws_proxy.Splitter.Packets.{Packet, IsPacket, encode, measured, next_packet_len-encode}
use tg_ws_proxy.Splitter.Lossless.{split_all-lossless}
use tg_ws_proxy.Splitter.Cuts.{encode_all, lengths, cut}
use tg_ws_proxy.Splitter.Frames.{split_all-packets}
use tg_ws_proxy.Examples.Toy.{toy}

abbrev relay : List ℕ
relay = replicate 64 0x21

-- A packet of four bytes, and one of eight that asks for a quick acknowledgement.
abbrev two_packets : List Packet
two_packets =
    (record { quick_ack = false; payload = 1 ∷ 2 ∷ 3 ∷ 4 ∷ [] })
    ∷ (record { quick_ack = true; payload = 5 ∷ 6 ∷ 7 ∷ 8 ∷ 9 ∷ 10 ∷ 11 ∷ 12 ∷ [] })
    ∷ []

two_packets_fit : All (IsPacket abridged) two_packets
two_packets_fit = ((omega arith, refl, omega arith), ((omega arith, refl, omega arith), tt))

abbrev wire : List ℕ
wire = crypt toy (build_connection_ciphers toy [] [] relay).tg_enc (encode_all abridged two_packets)

split_all-packets_example :
    (t : MsgSplitter) × (split_all toy (new toy relay abridged) (wire ∷ [])
      ≡ some (cut (lengths abridged two_packets) (concat (wire ∷ [])), t))
    × (t.cipher_buf.bytes ≡ [])
unfolding crypt xor_from build_connection_ciphers
split_all-packets_example =
    split_all-packets toy relay [] [] abridged two_packets (wire ∷ []) two_packets_fit refl

split_all-lossless_example :
    (parts : List (List ℕ)) × (t : MsgSplitter) × (split_all toy
        (new toy relay intermediate)
        ((9 ∷ 8 ∷ []) ∷ (7 ∷ []) ∷ [])
      ≡ some (parts, t))
    × (concat (parts ++ (flush t).0) ≡ 9 ∷ 8 ∷ 7 ∷ [])
split_all-lossless_example =
    split_all-lossless toy relay intermediate ((9 ∷ 8 ∷ []) ∷ (7 ∷ []) ∷ [])

abbrev one_packet : Packet
one_packet = record { quick_ack = false; payload = 1 ∷ 2 ∷ 3 ∷ 4 ∷ [] }

next_packet_len-encode_example :
    next_packet_len abridged (1 ∷ 1 ∷ 2 ∷ []) 0
    ≡ measured (1 ∷ 1 ∷ 2 ∷ []) (length (encode abridged one_packet))
next_packet_len-encode_example =
    next_packet_len-encode abridged one_packet (1 ∷ 1 ∷ 2 ∷ []) (3 ∷ 4 ∷ []) []
      (omega arith, refl, omega arith) refl
