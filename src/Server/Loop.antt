-- ===== src/Server/Loop.antt =====
-- The handlers of the event loop and the loop: src/server.cpp. What the kernel and the clock say is an
-- argument; a handler that is still waiting when the answers end is `none`.
use local_cache_service.Base.{
  ℕ, suc, List, [], ◌∷◌, Option, none, some, ◌>>=◌, Bool, true, false, not, ◌&&◌, ◌||◌,
  if◌then◌else◌, leb, ltb, Bytes, length, add64,
}
use local_cache_service.Stats.{record_rejected, connection_opened, connection_closed}
use local_cache_service.Connection.Events.{EventSet, no_events}
use local_cache_service.Connection.Defs
use local_cache_service.Connection.Defs.{
  Connection, IoResult, Recv, Event, read_some, mark_closed, clear_notified, set_registered_events,
  has_pending_output, flush_output,
}
use local_cache_service.WorkerPool.Defs.{pending}
use local_cache_service.Server.Admission.{connection_limits}
use local_cache_service.Server.Descriptors.{Descriptors, find, emplace}
use local_cache_service.Server.Defs.{
  Server, put, count, close_connection, update_interest, process_input,
}

abbrev pub flushed :
    Server → ℕ → Option (Connection × Bytes × IoResult) → Option (Server × IoResult)
flushed s id none = none
flushed s id (some (c, sent, result)) = some (put s id c, result)

-- `conn->flush_output()`
abbrev pub flush : Server → ℕ → List Event → Option (Server × IoResult)
flush s id events = flushed s id (flush_output (s.objects id) events)

-- behind a flush that went well
unfoldable pub close_or_update : Server → ℕ → Bool → Server
close_or_update s id modified =
    let conn = s.objects id in
    if conn.close_after_flush && not (has_pending_output conn)
    then close_connection s id
    else update_interest s id modified

abbrev pub settled : ℕ → Bool → Server × IoResult → Server
settled id modified (s, IoResult.error) = close_connection s id
settled id modified (s, result) = close_or_update s id modified

-- The end of `handle_connection_event` and of a round of `drain_completions`.
unfoldable pub settle : Server → ℕ → List Event → Bool → Option Server
settle s id events modified = flush s id events >>= λ r. some (settled id modified r)

-- What the kernel answers in one call of `handle_connection_event`.
pub record Io : Type 0 where
  pub first_flush : List Event
  pub recv : Recv
  pub flush : List Event
  pub modified : Bool

-- A part of a handler that may return from it.
pub data Progress : Type 0 where
  returned continues : Server → Progress

abbrev pub on_continue : Option Progress → (Server → Option Server) → Option Server
on_continue none rest = none
on_continue (some (returned s)) rest = some s
on_continue (some (continues s)) rest = rest s

abbrev pub after_first_flush : ℕ → Server × IoResult → Progress
after_first_flush id (s, IoResult.error) = returned (close_connection s id)
after_first_flush id (s, result) = continues s

unfoldable pub write_ready : Server → ℕ → EventSet → List Event → Option Progress
write_ready s id events answers = elim events.output [
  | false ↦ some (continues s)
  | true ↦ flush s id answers >>= λ r. some (after_first_flush id r)
]

abbrev pub after_input : Server × Bool → Progress
after_input (s, true) = continues s
after_input (s, false) = returned s

-- what follows the read; the fuel is one more than the bytes that there are to parse
unfoldable pub after_read : Server → ℕ → IoResult → Option Progress
after_read s id IoResult.ok =
    process_input (suc (length (s.objects id).in_buf)) s id >>= λ r. some (after_input r)
after_read s id IoResult.would_block = some (continues s)
after_read s id IoResult.closed = some (returned (close_connection s id))
after_read s id IoResult.error = some (returned (close_connection s id))

unfoldable pub read_ready : Server → ℕ → EventSet → Recv → Option Progress
read_ready s id events recv = elim (not s.draining && (events.input || events.peer_closed)) [
  | false ↦ some (continues s)
  | true ↦ let (c, result) = read_some (s.objects id) recv in after_read (put s id c) id result
]

unfoldable pub handle_connection_event : Server → ℕ → EventSet → Io → Option Server
handle_connection_event s id events io =
    if events.error || events.hang_up
    then some (close_connection s id)
    else if s.draining && events.peer_closed
    then some (close_connection s id)
    else on_continue (write_ready s id events io.first_flush) (λ s₁.
      on_continue (read_ready s₁ id events io.recv) (λ s₂. settle s₂ id io.flush io.modified))

-- One round of the loop of `drain_completions`.
unfoldable pub drain_one : Server → ℕ → List Event → Bool → Option Server
drain_one s id events modified =
    let s₁ = put s id (clear_notified (s.objects id)) in
    elim (s₁.objects id).is_closed [ true ↦ some s₁ | false ↦ settle s₁ id events modified ]

-- For each connection that is ready, the answers of its flush and whether epoll_ctl succeeds.
unfoldable pub drain_ready : Server → List ℕ → List (List Event × Bool) → Option Server
drain_ready s [] answers = some s
drain_ready s (id ∷ ids) [] = none
drain_ready s (id ∷ ids) ((events, modified) ∷ answers) =
    drain_one s id events modified >>= λ s₁. drain_ready s₁ ids answers

unfoldable pub drain_completions : Server → List (List Event × Bool) → Option Server
drain_completions s answers =
    drain_ready (record s { ready_connections = [] }) s.ready_connections answers

-- What `accept4` answers: a descriptor, with whether epoll_ctl then succeeds; or -1 with EAGAIN, with
-- EINTR or ECONNABORTED, or with another error.
pub data Accept : Type 0 where
  accepted : ℕ → Bool → Accept
  again interrupted failed : Accept

abbrev pub first_events : EventSet
first_events = record no_events { input = true; peer_closed = true }

-- a round of `handle_listen_ready` that has a client
unfoldable pub accept_client : Server → ℕ → Bool → Server
accept_client s fd added =
    if leb s.config.max_connections (length s.connections)
    then count s record_rejected
    else (let id = s.next_connection_id in
        let s₁ = record s { next_connection_id = add64 id 1 } in
        if not added
        then s₁
        else count
            (record (put s₁ id
              (set_registered_events (Defs.init fd id (connection_limits s.config)) first_events)) {
                connections = emplace fd id s.connections;
              })
            connection_opened)

unfoldable pub handle_listen_ready : Server → List Accept → Option Server
handle_listen_ready s [] = none
handle_listen_ready s (accepted fd added ∷ answers) =
    handle_listen_ready (accept_client s fd added) answers
handle_listen_ready s (again ∷ answers) = some s
handle_listen_ready s (interrupted ∷ answers) = handle_listen_ready s answers
handle_listen_ready s (failed ∷ answers) = some s

unfoldable pub stop_listening : Server → Server
stop_listening s = record s { listening = false; bound_socket_path = [] }

unfoldable pub connection_idle : Connection → Bool
connection_idle c = not (ltb 0 c.inflight) && not (has_pending_output c)

unfoldable pub all_idle : Server → Descriptors → Bool
all_idle s [] = true
all_idle s ((fd, id) ∷ m) = connection_idle (s.objects id) && all_idle s m

unfoldable pub drain_complete : Server → Bool
drain_complete s = not (ltb 0 (pending s.pool)) && all_idle s s.connections

-- The loop over `open_connections`; the answers are those of epoll_ctl.
unfoldable pub update_all : Server → Descriptors → List Bool → Option Server
update_all s [] answers = some s
update_all s ((fd, id) ∷ m) [] = none
update_all s ((fd, id) ∷ m) (modified ∷ answers) =
    update_all (update_interest s id modified) m answers

-- the branch of `run` for the shutdown descriptor
unfoldable pub begin_drain : Server → List Bool → Option Server
begin_drain s answers = elim s.draining [
  | true ↦ some s
  | false ↦ update_all (stop_listening (record s { draining = true })) s.connections answers
]

-- What `epoll_wait` reports: one of the server's own descriptors, or a client's.
pub data LoopEvent : Type 0 where
  listen : List Accept → LoopEvent
  completion : List (List Event × Bool) → LoopEvent
  shutdown : List Bool → LoopEvent
  signal : LoopEvent
  client : ℕ → EventSet → Io → LoopEvent

abbrev pub to_client : Server → EventSet → Io → Option ℕ → Option Server
to_client s events io none = some s
to_client s events io (some id) = handle_connection_event s id events io

unfoldable pub on_event : Server → LoopEvent → Option Server
on_event s (listen answers) = elim s.listening [
  | true ↦ handle_listen_ready s answers
  | false ↦ some s
]
on_event s (completion answers) = drain_completions s answers
on_event s (shutdown answers) = begin_drain s answers
on_event s signal = some s
on_event s (client fd events io) = to_client s events io (find fd s.connections)

unfoldable pub on_events : Server → List LoopEvent → Option Server
on_events s [] = some s
on_events s (e ∷ events) = on_event s e >>= λ s₁. on_events s₁ events

-- A round of `run`: the events, and whether the deadline of the drain has passed behind them.
unfoldable pub run_round : Server → List LoopEvent → Bool → Option Server
run_round s events late = on_events s events >>= λ s₁.
    some (if s₁.draining && (drain_complete s₁ || late) then record s₁ { running = false } else s₁)

-- The loop at the end of `run`.
unfoldable pub close_all : Server → Descriptors → Server
close_all s [] = s
close_all s ((fd, id) ∷ m) =
    close_all (count (put s id (mark_closed (s.objects id))) connection_closed) m

-- The end of `run`, when the workers have stopped.
unfoldable pub finish_run : Server → List (List Event × Bool) → Option Server
finish_run s answers = drain_completions s answers >>= λ s₁.
    some (record (close_all s₁ s₁.connections) { connections = [] })

-- A round of the loop of `run`: events and the deadline's test, or a failure of `epoll_wait`.
pub data LoopRound : Type 0 where
  events : List LoopEvent → Bool → LoopRound
  wait_interrupted wait_failed : LoopRound

-- `none`: the server still runs when the rounds end.
unfoldable pub run_loop : Server → List LoopRound → Option Server
run_loop s [] = if s.running then none else some s
run_loop s (events l late ∷ rounds) = elim s.running [
  | false ↦ some s
  | true ↦ run_round s l late >>= λ s₁. run_loop s₁ rounds
]
run_loop s (wait_interrupted ∷ rounds) = elim s.running [
  | false ↦ some s
  | true ↦ run_loop s rounds
]
run_loop s (wait_failed ∷ rounds) = some s
