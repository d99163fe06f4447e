-- ===== src/Limits.antt =====
-- rust/src/limits.rs: the connection limit out of the file-descriptor budget. `word_max` is
-- `usize::MAX`; what `/proc/self/limits` says is an argument.
use tg_ws_proxy.Base.{ℕ, ◌+◌, ◌-◌, ◌*◌, ◌/◌, max, min, ◌==◌, if◌then◌else◌}

abbrev pub default_nofile_limit : ℕ
default_nofile_limit = 1024

abbrev pub unlimited_max_connections : ℕ
unlimited_max_connections = 512

abbrev pub runtime_reserved_fds : ℕ
runtime_reserved_fds = 32

abbrev pub fds_per_connection : ℕ
fds_per_connection = 2

abbrev pub fds_per_pool_slot : ℕ
fds_per_pool_slot = 2

abbrev pub min_max_connections : ℕ
min_max_connections = 4

abbrev pub saturating_mul : ℕ → ℕ → ℕ → ℕ
saturating_mul word_max a b = min word_max (a * b)

abbrev pub saturating_add : ℕ → ℕ → ℕ → ℕ
saturating_add word_max a b = min word_max (a + b)

unfoldable pub auto_max_connections : ℕ → ℕ → ℕ → ℕ → ℕ
auto_max_connections word_max fd_limit pool_size dc_buckets =
    let pool_fds =
      saturating_mul word_max (saturating_mul word_max pool_size dc_buckets) fds_per_pool_slot in
    let reserved =
      saturating_add word_max (saturating_add word_max 1 pool_fds) runtime_reserved_fds in
    if fd_limit == word_max
    then unlimited_max_connections
    else max ((fd_limit - reserved) / fds_per_connection) min_max_connections

-- `1 + pool_size * dc_buckets * 2 + 32`, without saturation.
abbrev pub reserved_fds : ℕ → ℕ → ℕ
reserved_fds pool_size dc_buckets = 33 + pool_size * dc_buckets * 2
