-- ===== src/Server/Jobs.antt =====
-- What a worker does with a request: `handle_job`, `complete_job` and `stats_snapshot` of
-- src/server.cpp. `uptime_ms` is what the clock says. The push on the ready list and the write to the
-- eventfd, which `complete_job` does together, are the answer true of `complete_job` here.
use local_cache_service.Base.{
  ℕ, [], Option, none, some, ◌>>=◌, Bool, true, false, if◌then◌else◌, Bytes,
}
use local_cache_service.Protocol.{Opcode, Status, Request, Response}
use local_cache_service.Stats
use local_cache_service.Stats.{
  StatsSnapshot, ServerStats, record_hit, record_miss, record_put, record_delete,
}
use local_cache_service.Cache.Defs
use local_cache_service.Cache.Defs.{Cache, PutStatus, stored, value_too_large, entry_too_large}
use local_cache_service.Serializer.Frames.{serialize_response_into}
use local_cache_service.Serializer.StatsPayload.{serialize_stats}
use local_cache_service.Connection.Defs.{
  Connection, enqueue_response, mark_close_after_flush, try_mark_notified,
}

-- The members of `Server` that the workers use.
pub record Service : Type 0 where
  pub cache : Cache
  pub stats : ServerStats

unfoldable pub stats_snapshot : Service → ℕ → StatsSnapshot
stats_snapshot s uptime_ms =
    let cache_state = Defs.snapshot s.cache in
    record (Stats.snapshot s.stats uptime_ms) {
      current_entries = cache_state.entries;
      current_cache_bytes = cache_state.bytes;
      current_payload_bytes = cache_state.payload_bytes;
      evictions = cache_state.evictions;
    }

-- The response that the switch fills in.
abbrev pub answer : Request → Status → Bytes → Response
answer request status value = record {
  opcode = request.opcode;
  status = status;
  request_id = request.request_id;
  value = value;
}

-- the branches of the case kGet
abbrev pub answer_get : Service → Request → Cache × Option Bytes → Service × Response
answer_get s request (c, some value) =
    (record s { cache = c; stats = record_hit s.stats }, answer request Status.ok value)
answer_get s request (c, none) =
    (record s { cache = c; stats = record_miss s.stats }, answer request Status.not_found [])

-- the switch of the case kPut
abbrev pub answer_put : Service → Request → Cache × PutStatus → Service × Response
answer_put s request (c, stored) =
    (record s { cache = c; stats = record_put s.stats }, answer request Status.ok [])
answer_put s request (c, value_too_large) =
    (record s { cache = c }, answer request Status.value_too_large [])
answer_put s request (c, entry_too_large) =
    (record s { cache = c }, answer request Status.value_too_large [])

-- the branches of the case kDelete
abbrev pub answer_delete : Service → Request → Cache × Bool → Service × Response
answer_delete s request (c, true) =
    (record s { cache = c; stats = record_delete s.stats }, answer request Status.ok [])
answer_delete s request (c, false) = (record s { cache = c }, answer request Status.not_found [])

-- The switch of `handle_job` on an opcode.
unfoldable pub dispatch : ℕ → Service → Request → Opcode → Option (Service × Response)
dispatch uptime_ms s request Opcode.get =
    Defs.get s.cache request.key >>= λ result. some (answer_get s request result)
dispatch uptime_ms s request Opcode.put =
    Defs.put s.cache request.key request.value >>= λ result. some (answer_put s request result)
dispatch uptime_ms s request Opcode.delete =
    Defs.erase s.cache request.key >>= λ result. some (answer_delete s request result)
dispatch uptime_ms s request Opcode.ping = some (s, answer request Status.ok [])
dispatch uptime_ms s request Opcode.stats =
    some (s, answer request Status.ok (serialize_stats (stats_snapshot s uptime_ms)))
dispatch uptime_ms s request Opcode.clear =
    some (record s { cache = Defs.clear s.cache }, answer request Status.ok [])

-- The answer true: the connection was put on the ready list and the event loop was woken.
unfoldable pub complete_job : Connection → Bytes → Connection × Bool
complete_job conn frame =
    let (c, healthy) = enqueue_response conn frame true in
    try_mark_notified (if healthy then c else mark_close_after_flush c)

unfoldable pub handle_job :
    ℕ → Service → Connection → Request → Option (Service × (Connection × Bool))
handle_job uptime_ms s conn request =
    dispatch uptime_ms s request request.opcode >>= λ (s', response).
    some (s', complete_job conn (serialize_response_into response []))
