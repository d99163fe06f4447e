-- ===== src/Splitter/Buffer.antt =====
-- `Vec<u8>` of the standard library, with its capacity, as far as rust/src/splitter.rs uses it.
use tg_ws_proxy.Base.{ℕ, ◌+◌, ◌*◌, max, List, [], ◌++◌, length, drop, ltb, leb, if◌then◌else◌}

pub record Buffer : Type 0 where
  pub bytes : List ℕ
  pub capacity : ℕ

abbrev pub empty : Buffer
empty = record { bytes = []; capacity = 0 }

-- The capacity at least doubles where it grows, and a vector of bytes starts at 8.
unfoldable pub reserve : ℕ → ℕ → ℕ
reserve capacity needed =
    if leb needed capacity then capacity else max 8 (max (2 * capacity) needed)

unfoldable pub extend_from_slice : Buffer → List ℕ → Buffer
unfolding reserve
extend_from_slice v xs = record {
  bytes = v.bytes ++ xs;
  capacity = reserve v.capacity (length v.bytes + length xs);
}

-- `drain(..n)`
unfoldable pub drain : Buffer → ℕ → Buffer
drain v n = record v { bytes = drop n v.bytes }

unfoldable pub clear : Buffer → Buffer
clear v = record v { bytes = [] }

unfoldable pub shrink_to : Buffer → ℕ → Buffer
shrink_to v least = record v {
  capacity = if ltb least v.capacity then max (length v.bytes) least else v.capacity;
}
