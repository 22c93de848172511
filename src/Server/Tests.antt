-- ===== src/Server/Tests.antt =====
-- The theorems at a server with a full cache.
use local_cache_service.Base.{
  false, ◌⊎◌, Bytes, true, ◌≤◌, ◌≡◌, inl, refl, [], ◌∷◌, arith, none, some, add64,
}
use local_cache_service.Protocol.{Opcode, Request, opcode_requires_key, opcode_allows_value}
use local_cache_service.Stats
use local_cache_service.Stats.{StatsSnapshot, zeros}
use local_cache_service.Cache.Sample.{full, full-IsValid, c_key}
use local_cache_service.Cache.Defs.{stored}
use local_cache_service.Cache.Refinement.{view}
use local_cache_service.Cache.Methods.{IsNext}
use local_cache_service.Config.Server
use local_cache_service.Config.Server.{default_config, validate, cache_limits}
use local_cache_service.Serializer.Requests.{IsRequest}
use local_cache_service.Serializer.StatsPayload.{serialize_stats, deserialize_stats}
use local_cache_service.Connection.Defs
use local_cache_service.Connection.Defs.{
  Connection, ConnectionLimits, Recv, IoResult, clear_notified, flush_output, refill,
}
use local_cache_service.Connection.Events.{EventSet, no_events}
use local_cache_service.Connection.Input.{IsInput}
use local_cache_service.Server.Descriptors.{find}
use local_cache_service.Server.Defs.{Server, put, update_interest}
use local_cache_service.Server.Loop.{
  Io, Progress, handle_connection_event, accept_client, accepted, again, listen, on_event,
  handle_listen_ready, after_read, drain_completions, drain_ready, drain_one, settle,
  close_or_update,
}
use local_cache_service.Server.Invariant.{IsServer}
use local_cache_service.Server.Interest.{IsNeeded, handle_connection_event_watches}
use local_cache_service.Server.Watching.{is_ready}
use local_cache_service.Server.Steps.{Steps, loops, stays, next, started}
use local_cache_service.Server.Running.{Steps-IsServer, Steps-IsWatched}
use local_cache_service.Server.Processing.{after_read_returns}
use local_cache_service.Server.Starting.{
  StartAnswers, file, refused, fails, bind_failed, remove_stale_socket, open_endpoint, start,
  IsStarted, start-IsStarted,
}
use local_cache_service.Server.Finishing.{IsFinished, finish_run-IsFinished}
use local_cache_service.Server.Loop.{close_all, finish_run}
use local_cache_service.Cache.Defs as CacheDefs
use local_cache_service.Cache.Defs.{Cache}
use local_cache_service.Cache.Invariant.{IsValid}
use local_cache_service.Cache.Methods.{init-IsValid}
use local_cache_service.Cache.Recency.{cost, without}
use local_cache_service.Cache.Room.{kept}
use local_cache_service.Connection.Defs.{Event, read_some, set_registered_events}
use local_cache_service.Server.Loop.{write_ready, read_ready}
use local_cache_service.Server.Stalling.{IsStalled, drain_completions-IsStalled}
use local_cache_service.Server.Jobs.{Service, stats_snapshot}
use local_cache_service.Server.Reports.{IsCounted, stats_snapshot-reported}
use local_cache_service.Server.Admission.{connection_limits, put_admitted}

abbrev service : Service
service = record { cache = full; stats = Stats.init }

abbrev put_c : Request
put_c = record { opcode = Opcode.put; request_id = 5; key = c_key; value = 7 ∷ [] }

abbrev connection : Connection
connection = Defs.init 4 1 (connection_limits default_config)

no_counts : IsCounted Stats.init
unfolding Stats.init
no_counts = record {
  hits = omega arith;
  misses = omega arith;
  puts = omega arith;
  deletes = omega arith;
  requests = omega arith;
  protocol_errors = omega arith;
  rejected = omega arith;
  active_connections = omega arith;
  total_connections = omega arith;
}

stats_snapshot-reported_example :
    (snapshot : StatsSnapshot) × (deserialize_stats
        (serialize_stats (stats_snapshot service 9))
        zeros
      ≡ some snapshot)
    × (snapshot.current_entries ≡ 2)
    × (snapshot.current_cache_bytes ≡ 261)
    × (snapshot.current_entries ≤ 2)
    × (snapshot.current_cache_bytes ≤ 400)
    × (snapshot.cache_hits ≡ Stats.init.hits)
    × (snapshot.cache_misses ≡ Stats.init.misses)
stats_snapshot-reported_example =
    stats_snapshot-reported service 9 zeros full-IsValid no_counts (omega arith)

default_is_valid : validate 108 default_config ≡ none
unfolding validate Server.validate_connections add64
default_is_valid = refl

put_c-IsRequest : IsRequest (connection_limits default_config).protocol_limits put_c
unfolding connection_limits opcode_requires_key opcode_allows_value
put_c-IsRequest = record {
  request_id = omega arith;
  key = omega arith;
  value = omega arith;
  keyed = refl;
  valued = inl refl;
}

abbrev empty : Cache
empty = CacheDefs.init (cache_limits default_config)

empty-IsValid : IsValid empty
unfolding cache_limits
empty-IsValid = init-IsValid (cache_limits default_config) (omega arith)

put_admitted_example :
    (c : Cache) × (CacheDefs.put empty c_key (7 ∷ []) ≡ some (c, stored))
    × IsNext empty c
        ((c_key, 7 ∷ []) ∷ kept empty.limits (cost (c_key, 7 ∷ [])) (without c_key (view empty)))
unfolding CacheDefs.init
put_admitted_example =
    put_admitted 108 default_config put_c empty default_is_valid put_c-IsRequest empty-IsValid refl

-- A server that has just begun, and a client that comes.
abbrev idle_service : Service
idle_service = record { cache = full; stats = Stats.init }

abbrev beginning : Server
beginning = started default_config idle_service

abbrev first_client : Server
first_client = accept_client beginning 5 true

first_accept : on_event beginning (listen (accepted 5 true ∷ again ∷ [])) ≡ some first_client
unfolding started on_event handle_listen_ready
first_accept = refl

first_client-Steps : Steps beginning [] first_client []
unfolding started find
first_client-Steps =
    next
      (loops beginning first_client [] (listen (accepted 5 true ∷ again ∷ []))
        (refl, omega arith, tt) first_accept)
      (stays first_client [])

no_clients : idle_service.stats.active_connections ≡ 0
unfolding Stats.init
no_clients = refl

Steps-IsServer_example : IsServer first_client
Steps-IsServer_example =
    Steps-IsServer 108 default_config idle_service default_is_valid (omega arith) no_clients
      first_client-Steps

Steps-IsWatched_example :
    ((first_client.objects 1).is_closed ≡ true)
    ⊎ (IsNeeded first_client.draining
          (first_client.objects 1)
          (first_client.objects 1).registered_events
        ⊎ (is_ready 1 first_client.ready_connections ≡ true))
Steps-IsWatched_example =
    Steps-IsWatched 108 default_config idle_service 1 default_is_valid (omega arith) no_clients
      first_client-Steps

-- A response of two bytes is staged, and the socket takes none of them.
abbrev busy : Server
busy =
    put first_client 1
      (record (first_client.objects 1) { staged = 1 ∷ 2 ∷ []; pending_output_bytes = 2 })

abbrev readable : EventSet
readable = record no_events { input = true }

abbrev stuck : Io
stuck = record {
  first_flush = [];
  recv = Recv.again;
  flush = Event.would_block ∷ [];
  modified = true;
}

abbrev busy_swapped : Server
busy_swapped =
    put (put busy 1 (busy.objects 1)) 1
      (record (busy.objects 1) { write_buf = 1 ∷ 2 ∷ []; write_pos = 0; staged = [] })

busy_handled :
    handle_connection_event busy 1 readable stuck ≡ some (update_interest busy_swapped 1 true)
unfolding handle_connection_event started accept_client write_ready read_ready after_read read_some
    settle flush_output refill close_or_update Defs.init set_registered_events
busy_handled = refl

handle_connection_event_watches_example :
    (((update_interest busy_swapped 1 true).objects 1).is_closed ≡ true)
    ⊎ IsNeeded
        (update_interest busy_swapped 1 true).draining
        ((update_interest busy_swapped 1 true).objects 1)
        ((update_interest busy_swapped 1 true).objects 1).registered_events
handle_connection_event_watches_example =
    handle_connection_event_watches busy 1 readable stuck busy_handled

-- A PING has come in whole and is not parsed yet; the connection is on the ready list.
abbrev ping_frame : Bytes
ping_frame =
    0x4c ∷ 0x43 ∷ 0x53 ∷ 0x31 ∷ 1 ∷ 4 ∷ 0 ∷ 0 ∷ 0 ∷ 0 ∷ 0 ∷ 0 ∷ 0 ∷ 0 ∷ 0 ∷ 9 ∷ 0 ∷ 0 ∷ 0 ∷ 0 ∷ 0
    ∷ 0 ∷ 0 ∷ 0 ∷ []

abbrev parked : Server
parked =
    record (put beginning 1 (record connection { in_buf = ping_frame; notify_pending = true })) {
      ready_connections = 1 ∷ [];
    }

parked-IsInput : IsInput (parked.objects 1)
unfolding Defs.init
parked-IsInput = record { position = omega arith; size = omega arith; bytes = omega arith }

after_read_returns_example : (p : Progress) × (after_read parked 1 IoResult.ok ≡ some p)
after_read_returns_example = after_read_returns parked 1 IoResult.ok parked-IsInput

abbrev cleared : Server
cleared = put (record parked { ready_connections = [] }) 1 (clear_notified (parked.objects 1))

abbrev drained : Server
drained = update_interest (put cleared 1 (cleared.objects 1)) 1 true

parked_drained : drain_completions parked (([], true) ∷ []) ≡ some drained
unfolding drain_completions drain_ready drain_one settle flush_output refill close_or_update
    clear_notified Defs.init started
parked_drained = refl

drain_completions-IsStalled_example : IsStalled parked drained
drain_completions-IsStalled_example =
    drain_completions-IsStalled parked (([], true) ∷ []) parked_drained

-- A dead socket stands at the path, and then the bind fails.
abbrev dead_socket : StartAnswers
dead_socket = record {
  stat = file true;
  probe_socket = true;
  probe = refused;
  unlink = true;
  socket = true;
  bind = false;
  chmod = true;
  listen = true;
  epoll = true;
  eventfd = true;
  register = true;
}

start-dead_socket : start 108 default_config dead_socket ≡ (fails bind_failed true [], true)
unfolding start validate Server.validate_connections add64 remove_stale_socket open_endpoint
start-dead_socket = refl

start-IsStarted_example :
    IsStarted 108 default_config dead_socket
      (start 108 default_config dead_socket).0
      (start 108 default_config dead_socket).1
start-IsStarted_example = start-IsStarted 108 default_config dead_socket

-- The run ends while the client is there.
abbrev finished : Server
finished =
    record (close_all (record first_client { ready_connections = [] }) first_client.connections) {
      connections = [];
    }

finish_run-first_client : finish_run first_client [] ≡ some finished
unfolding finish_run drain_completions drain_ready started accept_client
finish_run-first_client = refl

finish_run-IsFinished_example : IsFinished finished
finish_run-IsFinished_example =
    finish_run-IsFinished 108 default_config idle_service [] default_is_valid (omega arith)
      no_clients first_client-Steps finish_run-first_client
