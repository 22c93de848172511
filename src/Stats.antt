-- ===== src/Stats.antt =====
-- Statistics: include/cache/stats.h. The counters are relaxed atomics that only count; each record_*
-- is one atomic step.
use local_cache_service.Base.{ℕ, add64, sub64}

pub record StatsSnapshot : Type 0 where
  pub cache_hits : ℕ
  pub cache_misses : ℕ
  pub puts : ℕ
  pub deletes : ℕ
  pub evictions : ℕ
  pub current_entries : ℕ
  pub current_cache_bytes : ℕ
  pub current_payload_bytes : ℕ
  pub active_connections : ℕ
  pub total_connections : ℕ
  pub requests_processed : ℕ
  pub protocol_errors : ℕ
  pub rejected_requests : ℕ
  pub uptime_ms : ℕ

-- a `StatsSnapshot` with its default member initialisers
abbrev pub zeros : StatsSnapshot
zeros = record {
  cache_hits = 0;
  cache_misses = 0;
  puts = 0;
  deletes = 0;
  evictions = 0;
  current_entries = 0;
  current_cache_bytes = 0;
  current_payload_bytes = 0;
  active_connections = 0;
  total_connections = 0;
  requests_processed = 0;
  protocol_errors = 0;
  rejected_requests = 0;
  uptime_ms = 0;
}

-- `start_time` is left out: a snapshot takes the milliseconds since the start as an argument.
pub record ServerStats : Type 0 where
  pub hits : ℕ
  pub misses : ℕ
  pub puts : ℕ
  pub deletes : ℕ
  pub requests : ℕ
  pub protocol_errors : ℕ
  pub rejected : ℕ
  pub active_connections : ℕ
  pub total_connections : ℕ

unfoldable pub init : ServerStats
init = record {
  hits = 0;
  misses = 0;
  puts = 0;
  deletes = 0;
  requests = 0;
  protocol_errors = 0;
  rejected = 0;
  active_connections = 0;
  total_connections = 0;
}

unfoldable pub record_hit : ServerStats → ServerStats
record_hit s = record s { hits = add64 s.hits 1 }

unfoldable pub record_miss : ServerStats → ServerStats
record_miss s = record s { misses = add64 s.misses 1 }

unfoldable pub record_put : ServerStats → ServerStats
record_put s = record s { puts = add64 s.puts 1 }

unfoldable pub record_delete : ServerStats → ServerStats
record_delete s = record s { deletes = add64 s.deletes 1 }

unfoldable pub record_request : ServerStats → ServerStats
record_request s = record s { requests = add64 s.requests 1 }

unfoldable pub record_protocol_error : ServerStats → ServerStats
record_protocol_error s = record s { protocol_errors = add64 s.protocol_errors 1 }

unfoldable pub record_rejected : ServerStats → ServerStats
record_rejected s = record s { rejected = add64 s.rejected 1 }

unfoldable pub connection_opened : ServerStats → ServerStats
connection_opened s = record s {
  active_connections = add64 s.active_connections 1;
  total_connections = add64 s.total_connections 1;
}

unfoldable pub connection_closed : ServerStats → ServerStats
connection_closed s = record s { active_connections = sub64 s.active_connections 1 }

-- `ServerStats::snapshot`: everything but the fields that the cache owns
unfoldable pub snapshot : ServerStats → ℕ → StatsSnapshot
snapshot s uptime_ms = record zeros {
  cache_hits = s.hits;
  cache_misses = s.misses;
  puts = s.puts;
  deletes = s.deletes;
  active_connections = s.active_connections;
  total_connections = s.total_connections;
  requests_processed = s.requests;
  protocol_errors = s.protocol_errors;
  rejected_requests = s.rejected;
  uptime_ms = uptime_ms;
}
