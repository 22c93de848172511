-- ===== src/Server/Running.antt =====
-- The server with its workers in every run.
use local_cache_service.Base.{
  ℕ, ◌<◌, ◌≡◌, ◌⊎◌, inl, inr, refl, ap, List, [], ◌∷◌, Option, none, some, ◌>>=◌, Bool, true, false,
  not, Bool-cases, if◌then◌else◌, ◌==◌, arith, u64_mod, Bytes,
}
use local_cache_service.Protocol.{Opcode, Request, Response}
use local_cache_service.Stats.{ServerStats, record_hit, record_miss, record_put, record_delete}
use local_cache_service.Config.Server.{ServerConfig, validate, validate_iff}
use local_cache_service.Cache.Defs
use local_cache_service.Cache.Defs.{Cache, PutStatus, stored, value_too_large, entry_too_large}
use local_cache_service.Connection.Defs as Connections
use local_cache_service.Connection.Defs.{
  Connection, mark_closed, mark_close_after_flush, try_mark_notified, enqueue_response,
}
use local_cache_service.Connection.Frame.{IsSame, enqueue_response-IsUntouched}
use local_cache_service.Server.Jobs.{
  Service, answer_get, answer_put, answer_delete, dispatch, complete_job,
}
use local_cache_service.Server.Descriptors.{find}
use local_cache_service.Server.Defs.{Server, put}
use local_cache_service.Server.Invariant.{IsServer, IsLike-IsServer, put-IsServer}
use local_cache_service.Server.Interest.{IsNeeded, watched-IsNeeded}
use local_cache_service.Server.Keeping.{Ensures, ensures_some}
use local_cache_service.Server.Watching.{IsRunning, is_ready}
use local_cache_service.Server.Opening.{alike-IsWatching}
use local_cache_service.Server.Draining.{quiet_like}
use local_cache_service.Server.LoopEvents.{on_event-IsRunning}
use local_cache_service.Server.Steps.{
  Task, push_ready, completed, Step, loops, takes, serves, completes, Steps, stays, next, started,
}

-- What a worker does to a connection when it completes a job.
record IsCompleted (c : Connection) (r : Connection × Bool) : Type 0 where
  fd : r.0.fd ≡ c.fd
  is_closed : r.0.is_closed ≡ c.is_closed
  first : r.1 ≡ not c.notify_pending
  notify_pending : r.0.notify_pending ≡ true

complete_job-IsCompleted : (c : Connection) (frame : Bytes) → IsCompleted c (complete_job c frame)
unfolding complete_job try_mark_notified mark_close_after_flush
complete_job-IsCompleted c frame =
    let h = (enqueue_response-IsUntouched c frame true).same in
    marked (enqueue_response c frame true).1 (enqueue_response c frame true).0 h
  where
    marked :
        (b : Bool) (d : Connection)
        → IsSame c d
        → IsCompleted c (try_mark_notified (if b then d else mark_close_after_flush d))
    marked true d h = record {
      fd = h.fd;
      is_closed = h.is_closed;
      first = ap not h.notify_pending;
      notify_pending = refl;
    }
    marked false d h = record {
      fd = h.fd;
      is_closed = h.is_closed;
      first = ap not h.notify_pending;
      notify_pending = refl;
    }

is_ready_pushed :
    (ready : List ℕ) (id j : ℕ) (b : Bool)
    → is_ready j ready ≡ true
    → is_ready j (push_ready ready id b) ≡ true
unfolding is_ready
is_ready_pushed ready id j false e = e
is_ready_pushed [] id j true e = absurd cc
is_ready_pushed (x ∷ ready) id j true e = ground (arith, e, is_ready_pushed ready id j true)

pushed-is_ready : (ready : List ℕ) (id : ℕ) → is_ready id (push_ready ready id true) ≡ true
unfolding is_ready
pushed-is_ready [] id = ground arith
pushed-is_ready (x ∷ ready) id = ground (arith, pushed-is_ready ready id)

completed-IsRunning :
    (s : Server) (id : ℕ) (frame : Bytes) → IsRunning s → IsRunning (completed s id frame)
unfolding completed
completed-IsRunning s id frame v =
    let r = complete_job (s.objects id) frame in
    let h = complete_job-IsCompleted (s.objects id) frame in
    let there : is_ready id (push_ready s.ready_connections id r.1) ≡ true =
      elim (Bool-cases (s.objects id).notify_pending) [
        | inl e ↦ is_ready_pushed s.ready_connections id id r.1 (v.notified id e)
        | inr e ↦ rw (h.first, e) (pushed-is_ready s.ready_connections id)
      ] in
    record {
      server =
          quiet_like (put s id r.0) _ refl refl refl refl refl
            (put-IsServer s id r.0 v.server (record { fd = h.fd; is_closed = h.is_closed }));
      watched = λ j. elim (Bool-cases (j == id)) [
        | inl e ↦ let same : j ≡ id = ground (arith, e) in inr (rw same there)
        | inr e ↦ elim (v.watched j) [
          | inl (inl k) ↦ inl (inl (rw e k))
          | inl (inr k) ↦ inl (inr (rw e k))
          | inr k ↦ inr (is_ready_pushed s.ready_connections id j r.1 k)
        ]
      ];
      notified = λ j n. elim (Bool-cases (j == id)) [
        | inl e ↦ let same : j ≡ id = ground (arith, e) in rw same there
        | inr e ↦ is_ready_pushed s.ready_connections id j r.1 (v.notified j (rw e at n))
      ];
      inflight = v.inflight;
      listening = v.listening;
    }

-- The cache's answers leave the counter of open connections alone.
abbrev IsCalm : ServerStats → Service × Response → Type 0
IsCalm st r = r.0.stats.active_connections ≡ st.active_connections

get-IsCalm :
    (s : Service) (q : Request) (o : Option (Cache × Option Bytes))
    → Ensures (IsCalm s.stats) (o >>= λ r. some (answer_get s q r))
unfolding record_hit record_miss
get-IsCalm s q none = tt
get-IsCalm s q (some (c, none)) = refl
get-IsCalm s q (some (c, some x)) = refl

put-IsCalm :
    (s : Service) (q : Request) (o : Option (Cache × PutStatus))
    → Ensures (IsCalm s.stats) (o >>= λ r. some (answer_put s q r))
unfolding record_put
put-IsCalm s q none = tt
put-IsCalm s q (some (c, stored)) = refl
put-IsCalm s q (some (c, value_too_large)) = refl
put-IsCalm s q (some (c, entry_too_large)) = refl

delete-IsCalm :
    (s : Service) (q : Request) (o : Option (Cache × Bool))
    → Ensures (IsCalm s.stats) (o >>= λ r. some (answer_delete s q r))
unfolding record_delete
delete-IsCalm s q none = tt
delete-IsCalm s q (some (c, true)) = refl
delete-IsCalm s q (some (c, false)) = refl

dispatch-IsCalm :
    (uptime_ms : ℕ) (s : Service) (q : Request) (o : Opcode)
    → Ensures (IsCalm s.stats) (dispatch uptime_ms s q o)
unfolding dispatch
dispatch-IsCalm t s q Opcode.get = get-IsCalm s q (Defs.get s.cache q.key)
dispatch-IsCalm t s q Opcode.put = put-IsCalm s q (Defs.put s.cache q.key q.value)
dispatch-IsCalm t s q Opcode.delete = delete-IsCalm s q (Defs.erase s.cache q.key)
dispatch-IsCalm t s q Opcode.ping = refl
dispatch-IsCalm t s q Opcode.stats = refl
dispatch-IsCalm t s q Opcode.clear = refl

served-IsServer :
    (s : Server) (service : Service)
    → service.stats.active_connections ≡ s.service.stats.active_connections
    → IsServer s
    → IsServer (record s { service = service })
served-IsServer s service e v = IsLike-IsServer v (record {
  objects = λ j. record { fd = refl; is_closed = refl };
  connections = refl;
  next_connection_id = refl;
  active = e;
  config = refl;
})

Step-IsRunning : {s s' : Server} {t t' : List Task} → Step s t s' t' → IsRunning s → IsRunning s'
Step-IsRunning (loops s s' tasks e p h) v =
    ensures_some IsRunning _ s' (on_event-IsRunning s e p v) h
Step-IsRunning (takes s tasks job pool e) v =
    alike-IsWatching s _ s.ready_connections s.ready_connections v
      (quiet_like s _ refl refl refl refl refl v.server) refl refl refl refl
Step-IsRunning (serves s before after job uptime_ms service response e) v =
    let calm =
      ensures_some (IsCalm s.service.stats) _ (service, response)
        (dispatch-IsCalm uptime_ms s.service job.request job.request.opcode) e in
    alike-IsWatching s _ s.ready_connections s.ready_connections v
      (served-IsServer s service calm v.server) refl refl refl refl
Step-IsRunning (completes s before after id frame) v = completed-IsRunning s id frame v

pub Steps-IsRunning :
    {s s' : Server} {t t' : List Task} → Steps s t s' t' → IsRunning s → IsRunning s'
Steps-IsRunning (stays s tasks) v = v
Steps-IsRunning (next step rest) v = Steps-IsRunning rest (Step-IsRunning step v)

started-IsServer :
    (config : ServerConfig) (service : Service)
    → config.max_connections < u64_mod
    → service.stats.active_connections ≡ 0
    → IsServer (started config service)
unfolding started mark_closed find
started-IsServer config service m a = record {
  known = λ id. inl refl;
  linked = λ fd id e. absurd cc;
  unborn = λ id h. refl;
  unique = tt;
  counted = a;
  bounded = omega arith;
  word = m;
}

pub started-IsRunning :
    (n : ℕ) (config : ServerConfig) (service : Service)
    → validate n config ≡ none
    → config.max_connections < u64_mod
    → service.stats.active_connections ≡ 0
    → IsRunning (started config service)
unfolding started mark_closed Connections.init
started-IsRunning n config service e m a = record {
  server = started-IsServer config service m a;
  watched = λ id. inl (inl refl);
  notified = λ id h. absurd cc;
  inflight = ((validate_iff n config).0 e).inflight;
  listening = λ h. refl;
}

module _ (n : ℕ) (config : ServerConfig) (service : Service) {s : Server} {tasks : List Task} where
  -- A server whose configuration validate accepts, with a limit on connections below 2 ^ 64 and no
  -- connections counted, takes any steps: events of the loop, where an accepted descriptor is not
  -- that of an open connection and the ids do not run out, and steps of the workers in any order.
  -- Then a connection is open exactly when the map of the server holds it under its descriptor, no
  -- descriptor stands twice, and the counter of open connections is the size of the map, which the
  -- limit on connections bounds.
  pub Steps-IsServer :
      validate n config ≡ none
      → config.max_connections < u64_mod
      → service.stats.active_connections ≡ 0
      → Steps (started config service) [] s tasks
      → IsServer s
  Steps-IsServer e m a run = (Steps-IsRunning run (started-IsRunning n config service e m a)).server

  -- A server whose configuration validate accepts, with a limit on connections below 2 ^ 64 and no
  -- connections counted, takes any steps: events of the loop, where an accepted descriptor is not
  -- that of an open connection and the ids do not run out, and steps of the workers in any order.
  -- Then each connection is closed; or on the ready list of the event loop; or registered with
  -- epoll for input exactly when the server does not drain, the connection is not to be closed
  -- after a flush, its backlog is at most the limit on output and it has fewer requests in flight
  -- than it may, for output exactly when it has a backlog, always for the end of its peer, and for
  -- nothing else.
  pub Steps-IsWatched :
      (id : ℕ)
      → validate n config ≡ none
      → config.max_connections < u64_mod
      → service.stats.active_connections ≡ 0
      → Steps (started config service) [] s tasks
      → ((s.objects id).is_closed ≡ true)
        ⊎ (IsNeeded s.draining (s.objects id) (s.objects id).registered_events
            ⊎ (is_ready id s.ready_connections ≡ true))
  Steps-IsWatched id e m a run =
      elim ((Steps-IsRunning run (started-IsRunning n config service e m a)).watched id) [
        | inl w ↦ elim (watched-IsNeeded s id w) [ inl h ↦ inl h | inr h ↦ inr (inl h) ]
        | inr h ↦ inr (inr h)
      ]
