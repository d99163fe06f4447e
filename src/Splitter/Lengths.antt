-- ===== src/Splitter/Lengths.antt =====
-- rust/src/splitter.rs: the length parsers. A mask of low bits is written as a remainder:
-- `& 0x7F` on a byte is `% 0x80`, and `& 0x7FFF_FFFF` on a u32 is `% 0x8000_0000`.
use tg_ws_proxy.Base.{
  ℕ, suc, ◌+◌, ◌*◌, ◌%◌, ◌≡◌, ◌||◌, Option, none, some, List, length, get_or, drop, ltb, ◌==◌,
  if◌then◌else◌, u32_from_le, is_empty, ◌≤◌, arith,
}
use tg_ws_proxy.Crypto.Tag.{ProtoTag, abridged, intermediate, padded_intermediate}

-- The end of both parsers: `None` for more data, `Some(0)` to disable the splitter.
unfoldable pub whole_len : ℕ → ℕ → List ℕ → Option ℕ
whole_len header_len payload_len plain =
    let total = header_len + payload_len in
    if payload_len == 0 then some 0 else if ltb (length plain) total then none else some total

unfoldable pub abridged_len : List ℕ → Option ℕ
unfolding whole_len
abridged_len plain =
    let first = get_or plain 0 0 in
    let l = u32_from_le (get_or plain 1 0) (get_or plain 2 0) (get_or plain 3 0) 0 * 4 in
    if first == 0x7f || first == 0xff
    then (if ltb (length plain) 4 then none else whole_len 4 l plain)
    else whole_len 1 (first % 0x80 * 4) plain

unfoldable pub intermediate_len : List ℕ → Option ℕ
unfolding whole_len
intermediate_len plain =
    let header =
      u32_from_le (get_or plain 0 0) (get_or plain 1 0) (get_or plain 2 0) (get_or plain 3 0) in
    if ltb (length plain) 4 then none else whole_len 4 (header % 0x8000_0000) plain

unfoldable pub packet_len : ProtoTag → List ℕ → Option ℕ
unfolding abridged_len intermediate_len
packet_len abridged plain = abridged_len plain
packet_len intermediate plain = intermediate_len plain
packet_len padded_intermediate plain = intermediate_len plain

-- `next_packet_len(offset)` over `plain_buf`: an offset at the end or past it gives `None`.
unfoldable pub next_packet_len : ProtoTag → List ℕ → ℕ → Option ℕ
unfolding packet_len
next_packet_len proto plain_buf offset =
    let plain = drop offset plain_buf in if is_empty plain then none else packet_len proto plain

-- A length that is found, and is not 0, is within the data.
whole_len-le :
    (h p : ℕ) (plain : List ℕ) (n : ℕ) → whole_len h p plain ≡ some (suc n) → suc n ≤ length plain
unfolding whole_len
whole_len-le h p plain n e = ground arith

pub packet_len-le :
    (proto : ProtoTag) (plain : List ℕ) (n : ℕ)
    → packet_len proto plain ≡ some (suc n)
    → suc n ≤ length plain
unfolding packet_len abridged_len intermediate_len
packet_len-le abridged plain n e = ground arith
packet_len-le intermediate plain n e = ground arith
packet_len-le padded_intermediate plain n e = ground arith
