-- ===== src/Server/Defs.antt =====
-- The state of `Server` and the operations of its event loop on one connection: src/server.cpp,
-- include/cache/server.h. Connections are shared between the map, the jobs, the ready list and the
-- handlers, so they stand in a store, `objects`, by their ids. A handler runs without the workers' steps
-- in between, except that they stage responses while `flush_output` runs.
use local_cache_service.Base.{
  ℕ, zero, suc, List, [], Option, none, some, Bool, true, false, not, ◌&&◌, if◌then◌else◌, ◌==◌,
  Bytes,
}
use local_cache_service.Protocol.{
  Opcode, Status, Request, ParseError, ParseResult, complete, need_more, malformed,
}
use local_cache_service.Stats.{
  ServerStats, record_request, record_rejected, record_protocol_error, connection_closed,
}
use local_cache_service.Serializer.Frames.{serialize_response}
use local_cache_service.Config.Server.{ServerConfig}
use local_cache_service.Connection.Events.{EventSet, no_events, same_events}
use local_cache_service.Connection.Defs.{
  Connection, next_request, peek_request_header, mark_close_after_flush, set_registered_events,
  note_request_submitted, inflight_limit_reached, mark_closed, enqueue_response, has_pending_output,
  read_paused,
}
use local_cache_service.WorkerPool.Defs.{Pool, try_submit}
use local_cache_service.Server.Jobs.{Service}
use local_cache_service.Server.Descriptors.{Descriptors, erase}

-- `connection` is the id of the connection that the response goes to.
pub record Job : Type 0 where
  pub connection : ℕ
  pub request : Request

pub record Server : Type 0 where
  pub config : ServerConfig
  pub service : Service
  pub pool : Pool Job
  pub objects : ℕ → Connection
  pub connections : Descriptors
  pub next_connection_id : ℕ
  pub ready_connections : List ℕ
  pub bound_socket_path : Bytes
  pub listening : Bool
  pub running : Bool
  pub draining : Bool

abbrev pub update : (ℕ → Connection) → ℕ → Connection → ℕ → Connection
update objects id c j = if j == id then c else objects j

-- A write to the connection `id`.
abbrev pub put : Server → ℕ → Connection → Server
put s id c = record s { objects = update s.objects id c }

abbrev pub count : Server → (ServerStats → ServerStats) → Server
count s f = record s { service = record s.service { stats = f s.service.stats } }

unfoldable pub close_connection : Server → ℕ → Server
close_connection s id =
    let conn = s.objects id in
    if conn.is_closed
    then s
    else count (record (put s id (mark_closed conn)) { connections = erase conn.fd s.connections })
        connection_closed

-- the frames that the event loop answers with itself
abbrev pub short_response : Opcode → Status → ℕ → Bytes
short_response opcode status request_id =
    serialize_response
      (record { opcode = opcode; status = status; request_id = request_id; value = [] })

unfoldable pub send_immediate : Server → ℕ → Opcode → ℕ → Status → Server
send_immediate s id opcode request_id status =
    let (c, healthy) =
      enqueue_response (s.objects id) (short_response opcode status request_id) false in
    if healthy then put s id c else close_connection (put s id c) id

abbrev pub wanted_events : Bool → Connection → EventSet
wanted_events draining conn = record no_events {
  input = not draining && not (read_paused conn) && not conn.close_after_flush;
  output = has_pending_output conn;
  peer_closed = true;
}

-- `modified` is whether epoll_ctl succeeds.
unfoldable pub update_interest : Server → ℕ → Bool → Server
update_interest s id modified =
    let conn = s.objects id in
    let events = wanted_events s.draining conn in
    if same_events events conn.registered_events
    then s
    else if not modified
    then close_connection s id
    else put s id (set_registered_events conn events)

abbrev pub error_status : ParseError → Status
error_status ParseError.value_too_large = Status.value_too_large
error_status ParseError.unsupported_version = Status.unsupported_version
error_status e = Status.invalid_request

abbrev pub answer_identified : Server → ℕ → Status → Option (ℕ × Opcode) → Server
answer_identified s id status none = s
answer_identified s id status (some (request_id, opcode)) =
    send_immediate s id opcode request_id status

-- the branch of `process_input` for a malformed frame
unfoldable pub on_malformed : Server → ℕ → ParseError → Server
on_malformed s id e =
    let s₁ = count s record_protocol_error in
    let s₂ = answer_identified s₁ id (error_status e) (peek_request_header (s₁.objects id)) in
    put s₂ id (mark_close_after_flush (s₂.objects id))

-- the answer to a request that the pool does not take; false if the connection was closed
unfoldable pub reject : Server → ℕ → Request → Server × Bool
reject s id request =
    let s₁ = count s record_rejected in
    let (c, healthy) =
      enqueue_response (s₁.objects id)
        (short_response request.opcode Status.server_busy request.request_id) true in
    if healthy then (put s₁ id c, true) else (close_connection (put s₁ id c) id, false)

-- the branch of `process_input` for a complete request
unfoldable pub submit : Server → ℕ → Request → Server × Bool
submit s id request =
    let s₁ = count s record_request in
    let s₂ = put s₁ id (note_request_submitted (s₁.objects id)) in
    let (pool, taken) = try_submit s₂.pool (record { connection = id; request = request }) in
    if taken then (record s₂ { pool = pool }, true) else reject s₂ id request

abbrev pub go_on : Server × Bool → (Server → Option (Server × Bool)) → Option (Server × Bool)
go_on (s, true) again = again s
go_on (s, false) again = some (s, false)

-- What a round of `process_input` does with the result of the parse.
unfoldable pub on_parsed :
    Server → ℕ → ParseResult Request → (Server → Option (Server × Bool)) → Option (Server × Bool)
on_parsed s id need_more again = some (s, true)
on_parsed s id (malformed e) again = some (on_malformed s id e, true)
on_parsed s id (complete request consumed) again = go_on (submit s id request) again

-- The loop on fuel, with what it answers; `none` when the fuel is out.
unfoldable pub process_input : ℕ → Server → ℕ → Option (Server × Bool)
process_input zero s id = none
process_input (suc fuel) s id = elim (inflight_limit_reached (s.objects id)) [
  | true ↦ some (s, true)
  | false ↦
      let (c, result) = next_request (s.objects id) in
      on_parsed (put s id c) id result (λ s₁. process_input fuel s₁ id)
]
