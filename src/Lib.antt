-- ===== src/Lib.antt =====
-- Local Cache Service: a verification library beside the C++ program.
--
-- The program is a server that keeps a bounded LRU cache for the clients of a Unix socket. Bytes of
-- a client are parsed into requests, worker threads run these on the cache, and the responses are
-- serialized and sent. The files:
--   Cache       src/lru_cache.cpp, include/cache/lru_cache.h. `Defs` has the methods of `LruCache` on
--               its list, its index and its counters; an iterator is the address of a list node, and
--               following one that dangles is the fault `none`. `Recency` is the reference, a list of
--               keys and values; `Calls` has the methods as calls, which the mutex puts in one order.
--   Protocol    include/cache/protocol.h, src/protocol.cpp.
--   Serializer  src/serializer.cpp. `Integers` are the big-endian primitives, `Frames` headers,
--               requests and responses, `StatsPayload` the payload of STATS.
--   Stats       include/cache/stats.h.
--   Config      src/config.cpp: `Size` is `parse_size`, `Server` the configuration and `validate`,
--               `Args` is `parse_server_args`.
--   Connection  src/connection.cpp, include/cache/connection.h: the input buffer, the staged output and
--               the flags of one client. What `recv` and `send` answer is an argument. `Input` and
--               `Flushing` follow the bytes in and out; a flush runs on the list of what the kernel
--               answers and what the workers stage meanwhile.
--   WorkerPool  src/thread_pool.cpp: the bounded queue. `Steps` are the runs of submitting threads, workers
--               and the thread that stops the pool, one critical section a step.
--   Server      src/server.cpp, include/cache/server.h. `Jobs` is `handle_job` with `complete_job` and
--               `stats_snapshot`, on the cache, the statistics and a connection; `Admission` the limits that
--               the configuration gives to connections. `Defs` and `Loop` are the event loop: its handlers,
--               `run` and what it does in each round. Connections stand in a store by their ids, since the
--               map, the jobs and the ready list share them. `Steps` has the runs of the event loop and the
--               workers; `Invariant`, `Watching`, `Running` what holds in them. `Starting` is
--               `Server::start` with `remove_stale_socket`.
--   Client      client/cache_client.cpp, client/cache_client.h: `Defs` has the methods of `CacheClient`.
--   CommandLine client/client_main.cpp: `main` from its arguments to the exit code; `Outcomes` has
--               what each ending is to be.
--   `Server.Exchange` puts a client, the parser and a worker together.
--
-- A handler of the event loop is one step: workers do not run in between, except that they may stage
-- responses while `flush_output` writes. A worker takes a job, answers it and completes it in three steps.
-- What the kernel answers to `recv`, `send`, `accept4`, `epoll_ctl`, `epoll_wait` and the calls of
-- `connect` is an argument of the operation that asks, and so is the clock.
--
-- Numbers are native naturals; `size_t` and `uint64_t` keep their wrap-around by `add64` and `sub64`,
-- the narrower ones a remainder. A `std::string` or a byte buffer is a list of numbers, bytes where a
-- theorem says so. A valid cache (`Cache.Invariant.IsValid`) has a limit on bytes below 2 ^ 63.
-- The eviction loop runs on fuel: `put` gives it one round for each entry and one more, which is shown
-- to be enough. `flush_output` runs on its list of events, and answers `none` when this ends too early.
-- `process_input` runs on one round more than the bytes of the input buffer, which is shown to be enough.
-- The loop of `deserialize_stats` answers `none` for an index behind `kStatsFields`, as a false answer does;
-- `deserialize_stats_refused` has that this never happens.
-- The size of `sockaddr_un::sun_path`, which the platform defines, is a parameter of `validate` and of
-- `parse_server_args`.
-- Not modelled: the texts that are printed or logged other than the protocol's names, the handling of
-- signals, threads and their creation, `src/main.cpp` and the benchmarks.
mod Base
pub mod Cache
pub mod Protocol
pub mod Serializer
pub mod Stats
pub mod Config
pub mod Connection
pub mod Server
pub mod WorkerPool
pub mod Client
pub mod CommandLine
