-- ===== src/Config/Server.antt =====
-- `ServerConfig` and its `validate` (include/cache/config.h, src/config.cpp).
use local_cache_service.Base.{
  ℕ, ◌+◌, ◌*◌, ◌≤◌, ◌<◌, ◌≡◌, ◌↔◌, Bytes, Bool, false, ◌||◌, Option, none, some, if◌then◌else◌, ltb,
  leb, ◌==◌, length, add64, arith,
}
use local_cache_service.Base.Int.{ℤ, pos, is_le_zero, is_lt_zero}
use local_cache_service.Base.Text.{codes}
use local_cache_service.Cache.Defs.{CacheLimits, entry_overhead_bytes}

abbrev pub max_key_bytes_hard_limit : ℕ
max_key_bytes_hard_limit = 64 * 1024

abbrev pub max_value_bytes_hard_limit : ℕ
max_value_bytes_hard_limit = 64 * 1024 * 1024

abbrev pub max_worker_threads : ℕ
max_worker_threads = 1024

pub record ServerConfig : Type 0 where
  pub socket_path : Bytes
  pub max_entries : ℕ
  pub max_cache_bytes : ℕ
  pub max_value_bytes : ℕ
  pub max_key_bytes : ℕ
  pub worker_threads : ℕ
  pub max_pending_requests : ℕ
  pub max_connections : ℕ
  pub max_conn_output_bytes : ℕ
  pub max_inflight_per_conn : ℕ
  pub accept_backlog : ℤ
  pub shutdown_drain_ms : ℤ
  pub verbose : Bool

-- The default member initialisers.
abbrev pub default_config : ServerConfig
default_config = record {
  socket_path = codes "/tmp/local_cache.sock";
  max_entries = 100000;
  max_cache_bytes = 256 * 1024 * 1024;
  max_value_bytes = 1 * 1024 * 1024;
  max_key_bytes = 1024;
  worker_threads = 4;
  max_pending_requests = 65536;
  max_connections = 4096;
  max_conn_output_bytes = 8 * 1024 * 1024;
  max_inflight_per_conn = 512;
  accept_backlog = pos 512;
  shutdown_drain_ms = pos 2000;
  verbose = false;
}

unfoldable pub cache_limits : ServerConfig → CacheLimits
cache_limits c = record {
  max_entries = c.max_entries;
  max_bytes = c.max_cache_bytes;
  max_value_bytes = c.max_value_bytes;
}

-- The messages of `validate`, one for each return.
pub data ConfigError : Type 0 where
  socket_path_empty socket_path_too_long max_entries_zero max_value_bytes_range : ConfigError
  max_key_bytes_range max_cache_bytes_too_small workers_range max_pending_zero : ConfigError
  max_connections_zero max_inflight_zero conn_output_too_small backlog_not_positive : ConfigError
  shutdown_drain_negative : ConfigError

-- The last tests of `validate`.
unfoldable pub validate_connections : ServerConfig → Option ConfigError
validate_connections c =
    if c.worker_threads == 0 || ltb max_worker_threads c.worker_threads
    then some workers_range
    else if c.max_pending_requests == 0
    then some max_pending_zero
    else if c.max_connections == 0
    then some max_connections_zero
    else if c.max_inflight_per_conn == 0
    then some max_inflight_zero
    else if ltb c.max_conn_output_bytes c.max_value_bytes
    then some conn_output_too_small
    else if is_le_zero c.accept_backlog
    then some backlog_not_positive
    else if is_lt_zero c.shutdown_drain_ms
    then some shutdown_drain_negative
    else none

-- `sun_path_size` is the platform's sizeof(sockaddr_un::sun_path).
unfoldable pub validate : ℕ → ServerConfig → Option ConfigError
validate sun_path_size c =
    if length c.socket_path == 0
    then some socket_path_empty
    else if leb sun_path_size (length c.socket_path)
    then some socket_path_too_long
    else if c.max_entries == 0
    then some max_entries_zero
    else if c.max_value_bytes == 0 || ltb max_value_bytes_hard_limit c.max_value_bytes
    then some max_value_bytes_range
    else if c.max_key_bytes == 0 || ltb max_key_bytes_hard_limit c.max_key_bytes
    then some max_key_bytes_range
    else if ltb c.max_cache_bytes
        (add64 (add64 c.max_value_bytes c.max_key_bytes) entry_overhead_bytes)
    then some max_cache_bytes_too_small
    else validate_connections c

-- The ranges that a configuration has to keep.
pub record IsConfig (sun_path_size : ℕ) (c : ServerConfig) : Type 0 where
  pub path : (0 < length c.socket_path) × (length c.socket_path < sun_path_size)
  pub entries : 0 < c.max_entries
  pub value : (0 < c.max_value_bytes) × (c.max_value_bytes ≤ max_value_bytes_hard_limit)
  pub key : (0 < c.max_key_bytes) × (c.max_key_bytes ≤ max_key_bytes_hard_limit)
  pub fits : c.max_value_bytes + c.max_key_bytes + 128 ≤ c.max_cache_bytes
  pub workers : (0 < c.worker_threads) × (c.worker_threads ≤ max_worker_threads)
  pub pending : 0 < c.max_pending_requests
  pub connections : 0 < c.max_connections
  pub inflight : 0 < c.max_inflight_per_conn
  pub output : c.max_value_bytes ≤ c.max_conn_output_bytes
  pub backlog : is_le_zero c.accept_backlog ≡ false
  pub drain : is_lt_zero c.shutdown_drain_ms ≡ false

validate_sound : (n : ℕ) (c : ServerConfig) → validate n c ≡ none → IsConfig n c
unfolding validate validate_connections add64
validate_sound n c e = ground arith

validate_complete : (n : ℕ) (c : ServerConfig) → IsConfig n c → validate n c ≡ none
unfolding validate validate_connections add64
validate_complete n c v = ground arith

-- validate finds no problem exactly with the configurations whose fields are all in range.
pub validate_iff : (n : ℕ) (c : ServerConfig) → (validate n c ≡ none) ↔ IsConfig n c
validate_iff n c = (validate_sound n c, validate_complete n c)
