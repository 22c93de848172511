-- ===== src/Server/Serving.antt =====
-- The requests that workers handle, against the reference cache and the counters they are to keep.
use local_cache_service.Base.{
  ℕ, ◌+◌, ◌<◌, ◌≡◌, ◌≢◌, refl, ◌*◌, ◌%◌, ◌++◌, ◌||◌, ltb, if◌then◌else◌, add64, sub64, [], Option,
  none, some, Bool, true, false, Bytes, length, u64_mod,
}
use local_cache_service.Protocol.{Opcode, Status, Request, Response}
use local_cache_service.Stats.{ServerStats, record_hit, record_miss, record_put, record_delete}
use local_cache_service.Cache.Defs
use local_cache_service.Cache.Defs.{
  Cache, CacheLimits, PutStatus, stored, value_too_large, entry_too_large, is_some,
}
use local_cache_service.Cache.Invariant.{IsValid}
use local_cache_service.Cache.Recency.{View, lookup, without, touched}
use local_cache_service.Cache.Calls.{put_status, after_status}
use local_cache_service.Cache.Put.{put-IsNext}
use local_cache_service.Cache.Refinement.{view}
use local_cache_service.Cache.Methods.{IsNext, IsNext-refl, get-IsNext, erase-IsNext, clear-IsNext}
use local_cache_service.Server.Jobs.{
  Service, answer, answer_get, answer_put, answer_delete, dispatch,
}
use local_cache_service.Connection.Defs.{Connection}

-- What a client is to be told, the recency list after the request, and the counters.
pub record Served : Type 0 where
  pub status : Status
  pub value : Bytes
  pub list : View
  pub stats : ServerStats

abbrev pub serve_get : View → ServerStats → Bytes → Option Bytes → Served
serve_get l st k none = record {
  status = Status.not_found;
  value = [];
  list = l;
  stats = record st { misses = add64 st.misses 1 };
}
serve_get l st k (some v) = record {
  status = Status.ok;
  value = v;
  list = touched k l (some v);
  stats = record st { hits = add64 st.hits 1 };
}

abbrev pub serve_put : CacheLimits → View → ServerStats → Bytes → Bytes → PutStatus → Served
serve_put limits l st k x stored = record {
  status = Status.ok;
  value = [];
  list = after_status limits k x l stored;
  stats = record st { puts = add64 st.puts 1 };
}
serve_put limits l st k x value_too_large = record {
  status = Status.value_too_large;
  value = [];
  list = l;
  stats = st;
}
serve_put limits l st k x entry_too_large = record {
  status = Status.value_too_large;
  value = [];
  list = l;
  stats = st;
}

abbrev pub serve_delete : View → ServerStats → Bytes → Bool → Served
serve_delete l st k true = record {
  status = Status.ok;
  value = [];
  list = without k l;
  stats = record st { deletes = add64 st.deletes 1 };
}
serve_delete l st k false = record {
  status = Status.not_found;
  value = [];
  list = without k l;
  stats = st;
}

-- The reference for a request that does not ask for the statistics; those have `[]` for a value here.
unfoldable pub serve : CacheLimits → View → ServerStats → Request → Opcode → Served
serve limits l st r Opcode.get = serve_get l st r.key (lookup r.key l)
serve limits l st r Opcode.put =
    serve_put limits l st r.key r.value (put_status limits r.key r.value)
serve limits l st r Opcode.delete = serve_delete l st r.key (is_some (lookup r.key l))
serve limits l st r Opcode.ping = record { status = Status.ok; value = []; list = l; stats = st }
serve limits l st r Opcode.stats = record { status = Status.ok; value = []; list = l; stats = st }
serve limits l st r Opcode.clear = record { status = Status.ok; value = []; list = []; stats = st }

-- A worker's part in a request: its answer and the state it leaves are those of the reference.
abbrev pub IsServed : Service → Request → Served → Option (Service × Response) → Type 0
IsServed s r e o =
    (s' : Service) × (◌≡◌ {A = Option (Service × Response)} o
      (some (s', answer r e.status e.value)))
    × IsNext s.cache s'.cache e.list
    × (s'.stats ≡ e.stats)

-- The connection when its frame is staged, and its request is done; the frame is lost on a closed one. A
-- backlog of more than twice the limit is to close it.
abbrev pub answered : Connection → Bytes → Connection
answered conn frame = record conn {
  staged = if conn.is_closed then conn.staged else conn.staged ++ frame;
  pending_output_bytes =
      if conn.is_closed
      then conn.pending_output_bytes
      else add64 conn.pending_output_bytes (length frame);
  inflight = sub64 conn.inflight 1;
  notify_pending = true;
  close_after_flush =
      conn.close_after_flush
      || conn.is_closed
      || ltb (conn.limits.max_output_bytes * 2 % u64_mod)
          (add64 conn.pending_output_bytes (length frame));
}

module _ (s : Service) (r : Request) (v : IsValid s.cache) where
  get-IsServed :
      (c : Cache) (o : Option Bytes)
      → IsNext s.cache c (touched r.key (view s.cache) o)
      → IsServed s r (serve_get (view s.cache) s.stats r.key o) (some (answer_get s r (c, o)))
  unfolding record_hit record_miss
  get-IsServed c none d = (record s { cache = c; stats = record_miss s.stats }, refl, d, refl)
  get-IsServed c (some x) d = (record s { cache = c; stats = record_hit s.stats }, refl, d, refl)

  put-IsServed :
      (c : Cache) (o : PutStatus)
      → IsNext s.cache c (after_status s.cache.limits r.key r.value (view s.cache) o)
      → IsServed s r
          (serve_put s.cache.limits (view s.cache) s.stats r.key r.value o)
          (some (answer_put s r (c, o)))
  unfolding record_put
  put-IsServed c stored d = (record s { cache = c; stats = record_put s.stats }, refl, d, refl)
  put-IsServed c value_too_large d = (record s { cache = c }, refl, d, refl)
  put-IsServed c entry_too_large d = (record s { cache = c }, refl, d, refl)

  delete-IsServed :
      (c : Cache) (b : Bool)
      → IsNext s.cache c (without r.key (view s.cache))
      → IsServed s r (serve_delete (view s.cache) s.stats r.key b) (some (answer_delete s r (c, b)))
  unfolding record_delete
  delete-IsServed c true d = (record s { cache = c; stats = record_delete s.stats }, refl, d, refl)
  delete-IsServed c false d = (record s { cache = c }, refl, d, refl)

  pub dispatch-IsServed :
      (uptime_ms : ℕ) (o : Opcode)
      → o ≢ Opcode.stats
      → length r.key + length r.value + 128 < u64_mod
      → IsServed s r (serve s.cache.limits (view s.cache) s.stats r o) (dispatch uptime_ms s r o)
  unfolding dispatch serve
  dispatch-IsServed t Opcode.get h small =
      let (c, e, d) = get-IsNext s.cache v r.key in
      rw e (get-IsServed c (lookup r.key (view s.cache)) d)
  dispatch-IsServed t Opcode.put h small =
      let (c, e, d) = put-IsNext s.cache r.key r.value small v in
      rw e (put-IsServed c (put_status s.cache.limits r.key r.value) d)
  dispatch-IsServed t Opcode.delete h small =
      let (c, e, d) = erase-IsNext s.cache v r.key in
      rw e (delete-IsServed c (is_some (lookup r.key (view s.cache))) d)
  dispatch-IsServed t Opcode.ping h small = (s, refl, IsNext-refl s.cache v, refl)
  dispatch-IsServed t Opcode.stats h small = absurd (h refl)
  dispatch-IsServed t Opcode.clear h small =
      (record s { cache = Defs.clear s.cache }, refl, clear-IsNext s.cache v, refl)
