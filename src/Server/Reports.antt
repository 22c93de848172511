-- ===== src/Server/Reports.antt =====
-- What a STATS response reports.
use local_cache_service.Base.{ℕ, ◌≤◌, ◌<◌, ◌≡◌, refl, [], append-nil, arith, some, length, u64_mod}
use local_cache_service.Stats
use local_cache_service.Stats.{StatsSnapshot, ServerStats}
use local_cache_service.Cache.Defs
use local_cache_service.Cache.Invariant.{IsValid, payload-le-cost, length-le-cost}
use local_cache_service.Cache.Recency.{total}
use local_cache_service.Cache.Shape.{length-pairs, total-pairs}
use local_cache_service.Cache.Refinement.{view}
use local_cache_service.Serializer.StatsPayload.{
  serialize_stats, deserialize_stats, IsSnapshot, deserialize_stats-serialize_stats,
}
use local_cache_service.Server.Jobs.{Service, stats_snapshot}

-- The counters of the server are words.
pub record IsCounted (st : ServerStats) : Type 0 where
  pub hits : st.hits < u64_mod
  pub misses : st.misses < u64_mod
  pub puts : st.puts < u64_mod
  pub deletes : st.deletes < u64_mod
  pub requests : st.requests < u64_mod
  pub protocol_errors : st.protocol_errors < u64_mod
  pub rejected : st.rejected < u64_mod
  pub active_connections : st.active_connections < u64_mod
  pub total_connections : st.total_connections < u64_mod

-- On a valid cache, with a clock and counters that are 64-bit words, the payload of a STATS
-- response is read back as a snapshot whose entries and bytes are those that a client can see,
-- within the limits of the cache, with the hits and misses that were counted.
pub stats_snapshot-reported :
    (s : Service) (uptime_ms : ℕ) (out : StatsSnapshot)
    → IsValid s.cache
    → IsCounted s.stats
    → uptime_ms < u64_mod
    → (snapshot : StatsSnapshot) × (deserialize_stats
          (serialize_stats (stats_snapshot s uptime_ms))
          out
        ≡ some snapshot)
      × (snapshot.current_entries ≡ length (view s.cache))
      × (snapshot.current_cache_bytes ≡ total (view s.cache))
      × (snapshot.current_entries ≤ s.cache.limits.max_entries)
      × (snapshot.current_cache_bytes ≤ s.cache.limits.max_bytes)
      × (snapshot.cache_hits ≡ s.stats.hits)
      × (snapshot.cache_misses ≡ s.stats.misses)
unfolding stats_snapshot Defs.snapshot Stats.snapshot
stats_snapshot-reported s t out v w h =
    let entries = v.sizes in
    let counted = v.counted in
    let payload = payload-le-cost s.cache.entries in
    let n = length-pairs s.cache.entries in
    let m = total-pairs s.cache.entries in
    let small : IsSnapshot (stats_snapshot s t) = omega (
      arith,
      w.hits,
      w.misses,
      w.puts,
      w.deletes,
      w.requests,
      w.protocol_errors,
      w.rejected,
      w.active_connections,
      w.total_connections,
      h,
      v.machine,
      v.evictions_word,
      v.within_bytes,
      v.payload,
      length-le-cost s.cache.entries,
    ) in
    let read = deserialize_stats-serialize_stats (stats_snapshot s t) out [] small in
    (
      stats_snapshot s t,
      rw append-nil at read,
      omega arith,
      omega arith,
      omega arith,
      omega arith,
      refl,
      refl,
    )
