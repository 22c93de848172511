-- ===== src/Server/Steps.antt =====
-- The steps of the server with its workers: src/server.cpp and the workers of src/thread_pool.cpp. A
-- worker takes a job, answers it from the cache and completes it in three steps, between which the event
-- loop and the other workers may do anything.
use local_cache_service.Base.{
  ℕ, ◌+◌, ◌<◌, ◌≡◌, List, [], ◌∷◌, ◌++◌, none, some, Bool, true, false, Bytes, u64_mod,
}
use local_cache_service.Protocol.{Response}
use local_cache_service.Serializer.Frames.{serialize_response_into}
use local_cache_service.Config.Server.{ServerConfig}
use local_cache_service.Connection.Defs
use local_cache_service.Connection.Defs.{Connection, mark_closed}
use local_cache_service.WorkerPool.Defs as PoolDefs
use local_cache_service.WorkerPool.Defs.{Pool, Woken, works, wake, job_done}
use local_cache_service.Server.Jobs.{Service, dispatch, complete_job}
use local_cache_service.Server.Admission.{connection_limits}
use local_cache_service.Server.Descriptors.{find}
use local_cache_service.Server.Defs.{Server, Job, put}
use local_cache_service.Server.Loop.{
  Accept, accepted, again, interrupted, failed, accept_client, LoopEvent, listen, completion,
  shutdown, signal, client, on_event,
}

-- What a worker holds: a job, or the frame that answers it and the id of the connection.
pub data Task : Type 0 where
  taken : Job → Task
  answered : ℕ → Bytes → Task

-- The push on the ready list at the end of `complete_job`.
abbrev pub push_ready : List ℕ → ℕ → Bool → List ℕ
push_ready ready id true = ready ++ (id ∷ [])
push_ready ready id false = ready

-- `complete_job`, and the count of the pool behind it.
unfoldable pub completed : Server → ℕ → Bytes → Server
completed s id frame =
    let (c, first) = complete_job (s.objects id) frame in
    record (put s id c) {
      pool = job_done s.pool;
      ready_connections = push_ready s.ready_connections id first;
    }

-- What `accept4` can answer: a descriptor that no open connection has. The ids do not run out.
abbrev pub IsPossibleAccept : Server → List Accept → Type 0
IsPossibleAccept s [] = Unit
IsPossibleAccept s (accepted fd added ∷ answers) =
    (find fd s.connections ≡ none)
    × (s.next_connection_id + 1 < u64_mod)
    × IsPossibleAccept (accept_client s fd added) answers
IsPossibleAccept s (again ∷ answers) = Unit
IsPossibleAccept s (interrupted ∷ answers) = IsPossibleAccept s answers
IsPossibleAccept s (failed ∷ answers) = Unit

abbrev pub IsPossible : Server → LoopEvent → Type 0
IsPossible s (listen answers) = IsPossibleAccept s answers
IsPossible s (completion answers) = Unit
IsPossible s (shutdown answers) = Unit
IsPossible s signal = Unit
IsPossible s (client fd events io) = Unit

-- A step of the server and of the tasks that the workers hold.
pub data Step : Server → List Task → Server → List Task → Type 0 where
  loops :
      (s s' : Server) (tasks : List Task) (e : LoopEvent)
      → IsPossible s e
      → on_event s e ≡ some s'
      → Step s tasks s' tasks
  takes :
      (s : Server) (tasks : List Task) (job : Job) (pool : Pool Job)
      → wake s.pool ≡ works job pool
      → Step s tasks (record s { pool = pool }) (taken job ∷ tasks)
  serves :
      (s : Server) (before after : List Task) (job : Job) (uptime_ms : ℕ) (service : Service)
      (response : Response)
      → dispatch uptime_ms s.service job.request job.request.opcode ≡ some (service, response)
      → Step s
          (before ++ (taken job ∷ after))
          (record s { service = service })
          (before ++ (answered job.connection (serialize_response_into response []) ∷ after))
  completes :
      (s : Server) (before after : List Task) (id : ℕ) (frame : Bytes)
      → Step s (before ++ (answered id frame ∷ after)) (completed s id frame) (before ++ after)

pub data Steps : Server → List Task → Server → List Task → Type 0 where
  stays : (s : Server) (tasks : List Task) → Steps s tasks s tasks
  next :
      {s₁ s₂ s₃ : Server} {t₁ t₂ t₃ : List Task}
      → Step s₁ t₁ s₂ t₂
      → Steps s₂ t₂ s₃ t₃
      → Steps s₁ t₁ s₃ t₃

-- The server when `run` begins. No id has a connection yet: each holds one that is closed.
unfoldable pub started : ServerConfig → Service → Server
started config service = record {
  config = config;
  service = service;
  pool = PoolDefs.init config.max_pending_requests;
  objects = λ id. mark_closed (Defs.init 0 id (connection_limits config));
  connections = [];
  next_connection_id = 1;
  ready_connections = [];
  bound_socket_path = config.socket_path;
  listening = true;
  running = true;
  draining = false;
}
