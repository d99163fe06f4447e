-- ===== src/FakeTls/Utf8.antt =====
-- `std::str::from_utf8` of the standard library: which byte strings it accepts.
use tg_ws_proxy.Base.{
  ℕ, zero, suc, Bool, true, false, ◌&&◌, List, [], ◌∷◌, ltb, leb, ◌==◌, if◌then◌else◌,
}

-- What a first byte asks for: how many bytes follow, and the range of the first of them. A byte
-- that starts no character asks for one in an empty range.
unfoldable pub lead : ℕ → ℕ × ℕ × ℕ
lead b =
    if ltb b 0x80
    then (0, 0x80, 0xbf)
    else if ltb b 0xc2
    then (1, 1, 0)
    else if ltb b 0xe0
    then (1, 0x80, 0xbf)
    else if b == 0xe0
    then (2, 0xa0, 0xbf)
    else if b == 0xed
    then (2, 0x80, 0x9f)
    else if ltb b 0xf0
    then (2, 0x80, 0xbf)
    else if b == 0xf0
    then (3, 0x90, 0xbf)
    else if ltb b 0xf4
    then (3, 0x80, 0xbf)
    else if b == 0xf4
    then (3, 0x80, 0x8f)
    else (1, 1, 0)

-- The bytes behind a first byte that still asks for `n` of them, the next one from `lo` to `hi`.
unfoldable pub utf8_from : ℕ → ℕ → ℕ → List ℕ → Bool
unfolding lead
utf8_from zero lo hi [] = true
utf8_from zero lo hi (b ∷ bs) = let (n, l, h) = lead b in utf8_from n l h bs
utf8_from (suc n) lo hi [] = false
utf8_from (suc n) lo hi (b ∷ bs) = (leb lo b && leb b hi) && utf8_from n 0x80 0xbf bs

unfoldable pub is_utf8 : List ℕ → Bool
unfolding utf8_from
is_utf8 bytes = utf8_from 0 0x80 0xbf bytes
