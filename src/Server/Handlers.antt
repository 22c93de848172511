-- ===== src/Server/Handlers.antt =====
-- What the writes of a handler keep, the handler keeps.
use local_cache_service.Base.{
  ℕ, zero, suc, ◌≡◌, refl, List, Option, none, some, ◌>>=◌, Bool, true, false, not, ◌&&◌, ◌||◌,
  if◌then◌else◌, Bytes,
}
use local_cache_service.Protocol.{
  Opcode, Status, Request, ParseError, ParseResult, complete, need_more, malformed,
}
use local_cache_service.Stats.{record_request, record_rejected, record_protocol_error}
use local_cache_service.Connection.Events.{EventSet}
use local_cache_service.Connection.Defs.{
  Connection, IoResult, Recv, Event, mark_close_after_flush, set_registered_events,
  note_request_submitted, next_request, read_some, flush_output, inflight_limit_reached,
}
use local_cache_service.Connection.Frame.{
  IsSame, next_request-IsSame, read_some-IsSame, enqueue_response-IsUntouched,
  flush_output-IsUntouched,
}
use local_cache_service.Server.Defs.{
  Server, put, close_connection, send_immediate, short_response, update_interest, error_status,
  answer_identified, on_malformed, reject, submit, process_input, go_on, on_parsed,
}
use local_cache_service.Server.Loop.{
  flush, flushed, close_or_update, settled, settle, Io, Progress, returned, continues, on_continue,
  after_first_flush, write_ready, after_input, after_read, read_ready, handle_connection_event,
}
use local_cache_service.Server.Keeping.{Ensures, Ensures-bind, Ensures-elim, IsKept}

module _ (id : ℕ) (P : Server → Type 0) (k : IsKept id P) where
  -- One of two results.
  either : (b : Bool) {s t : Server} → P s → P t → P (if b then s else t)
  either true v w = v
  either false v w = w

  put_close_kept :
      (s : Server) (c : Connection)
      → P s
      → IsSame (s.objects id) c
      → P (close_connection (put s id c) id)
  put_close_kept s c v h = k.closed (put s id c) (k.written s c v h)

  send_immediate_kept :
      (s : Server) (opcode : Opcode) (request_id : ℕ) (status : Status)
      → P s
      → P (send_immediate s id opcode request_id status)
  unfolding send_immediate
  send_immediate_kept s opcode request_id status v =
      let h =
        (enqueue_response-IsUntouched (s.objects id) (short_response opcode status request_id)
          false).same in
      either _ (k.written s _ v h) (put_close_kept s _ v h)

  pub update_interest_kept :
      (s : Server) (modified : Bool) → P s → P (update_interest s id modified)
  unfolding update_interest set_registered_events
  update_interest_kept s modified v = either _ v (
      either _ (k.closed s v)
        (k.written s _ v (record { fd = refl; is_closed = refl; notify_pending = refl })))

  identified_kept :
      (s : Server) (status : Status) (o : Option (ℕ × Opcode))
      → P s
      → P (answer_identified s id status o)
  identified_kept s status none v = v
  identified_kept s status (some (request_id, opcode)) v =
      send_immediate_kept s opcode request_id status v

  on_malformed_kept : (s : Server) (e : ParseError) → P s → P (on_malformed s id e)
  unfolding on_malformed mark_close_after_flush record_protocol_error
  on_malformed_kept s e v =
      k.written _ _
        (identified_kept _ (error_status e) _ (k.counted s record_protocol_error v refl))
        (record { fd = refl; is_closed = refl; notify_pending = refl })

  either_pair : (b : Bool) (x y : Server × Bool) → P x.0 → P y.0 → P (if b then x else y).0
  either_pair true x y v w = v
  either_pair false x y v w = w

  abbrev IsFine : Server × Bool → Type 0
  IsFine r = P r.0

  reject_kept : (s : Server) (request : Request) → P s → IsFine (reject s id request)
  unfolding reject record_rejected
  reject_kept s request v =
      let frame = short_response request.opcode Status.server_busy request.request_id in
      let w = k.counted s record_rejected v refl in
      let h = (enqueue_response-IsUntouched (s.objects id) frame true).same in
      either_pair _ _ _ (k.written _ _ w h) (put_close_kept _ _ w h)

  submit_kept : (s : Server) (request : Request) → P s → IsFine (submit s id request)
  unfolding submit record_request note_request_submitted
  submit_kept s request v =
      let w =
        k.written _ (note_request_submitted (s.objects id)) (k.counted s record_request v refl)
          (record { fd = refl; is_closed = refl; notify_pending = refl }) in
      either_pair _ _ _ (k.queued _ _ w) (reject_kept _ request w)

  go_on_kept :
      (r : Server × Bool) (again : Server → Option (Server × Bool))
      → IsFine r
      → ((s : Server) → P s → Ensures IsFine (again s))
      → Ensures IsFine (go_on r again)
  go_on_kept (s, true) again v f = f s v
  go_on_kept (s, false) again v f = v

  on_parsed_kept :
      (s : Server) (p : ParseResult Request) (again : Server → Option (Server × Bool))
      → P s
      → ((t : Server) → P t → Ensures IsFine (again t))
      → Ensures IsFine (on_parsed s id p again)
  unfolding on_parsed
  on_parsed_kept s need_more again v f = v
  on_parsed_kept s (malformed e) again v f = on_malformed_kept s e v
  on_parsed_kept s (complete request n) again v f =
      go_on_kept (submit s id request) again (submit_kept s request v) f

  process_input_kept : (fuel : ℕ) (s : Server) → P s → Ensures IsFine (process_input fuel s id)
  unfolding process_input
  process_input_kept zero s v = tt
  process_input_kept (suc fuel) s v =
      let s₁ = put s id (next_request (s.objects id)).0 in
      Ensures-elim IsFine (inflight_limit_reached (s.objects id)) (some (s, true))
        (on_parsed s₁ id (next_request (s.objects id)).1 (λ t. process_input fuel t id)) v
        (on_parsed_kept s₁ (next_request (s.objects id)).1 (λ t. process_input fuel t id)
          (k.written s _ v (next_request-IsSame (s.objects id)))
          (λ t w. process_input_kept fuel t w))

  -- Flushing, and what follows it.
  abbrev IsFlushedServer : Server × IoResult → Type 0
  IsFlushedServer r = P r.0

  flush_kept :
      (s : Server) (events : List Event) → P s → Ensures IsFlushedServer (flush s id events)
  flush_kept s events v = flushed_kept (flush_output (s.objects id) events) refl
    where
      flushed_kept :
          (o : Option (Connection × Bytes × IoResult))
          → flush_output (s.objects id) events ≡ o
          → Ensures IsFlushedServer (flushed s id o)
      flushed_kept none e = tt
      flushed_kept (some (c, sent, result)) e =
          k.written s c v (flush_output-IsUntouched events (s.objects id) e).same

  close_or_update_kept : (s : Server) (modified : Bool) → P s → P (close_or_update s id modified)
  unfolding close_or_update
  close_or_update_kept s modified v = either _ (k.closed s v) (update_interest_kept s modified v)

  settled_kept :
      (modified : Bool) (r : Server × IoResult) → IsFlushedServer r → P (settled id modified r)
  settled_kept modified (s, IoResult.error) v = k.closed s v
  settled_kept modified (s, IoResult.ok) v = close_or_update_kept s modified v
  settled_kept modified (s, IoResult.would_block) v = close_or_update_kept s modified v
  settled_kept modified (s, IoResult.closed) v = close_or_update_kept s modified v

  pub settle_kept :
      (s : Server) (events : List Event) (modified : Bool)
      → P s
      → Ensures P (settle s id events modified)
  unfolding settle
  settle_kept s events modified v =
      Ensures-bind IsFlushedServer P (flush s id events) _ (flush_kept s events v)
        (λ r w. settled_kept modified r w)

  abbrev IsProgress : Progress → Type 0
  IsProgress (returned s) = P s
  IsProgress (continues s) = P s

  on_continue_kept :
      (o : Option Progress) (rest : Server → Option Server)
      → Ensures IsProgress o
      → ((s : Server) → P s → Ensures P (rest s))
      → Ensures P (on_continue o rest)
  on_continue_kept none rest v f = tt
  on_continue_kept (some (returned s)) rest v f = v
  on_continue_kept (some (continues s)) rest v f = f s v

  first_flush-IsProgress :
      (r : Server × IoResult) → IsFlushedServer r → IsProgress (after_first_flush id r)
  first_flush-IsProgress (s, IoResult.error) v = k.closed s v
  first_flush-IsProgress (s, IoResult.ok) v = v
  first_flush-IsProgress (s, IoResult.would_block) v = v
  first_flush-IsProgress (s, IoResult.closed) v = v

  write_ready_kept :
      (s : Server) (events : EventSet) (answers : List Event)
      → P s
      → Ensures IsProgress (write_ready s id events answers)
  unfolding write_ready
  write_ready_kept s events answers v =
      Ensures-elim IsProgress events.output
        (flush s id answers >>= λ r. some (after_first_flush id r)) (some (continues s))
        (Ensures-bind IsFlushedServer IsProgress (flush s id answers) _ (flush_kept s answers v)
          (λ r w. first_flush-IsProgress r w))
        v

  after_input-IsProgress : (r : Server × Bool) → IsFine r → IsProgress (after_input r)
  after_input-IsProgress (s, true) v = v
  after_input-IsProgress (s, false) v = v

  after_read_kept :
      (s : Server) (result : IoResult) → P s → Ensures IsProgress (after_read s id result)
  unfolding after_read
  after_read_kept s IoResult.ok v =
      Ensures-bind IsFine IsProgress (process_input _ s id) _ (process_input_kept _ s v)
        (λ r w. after_input-IsProgress r w)
  after_read_kept s IoResult.would_block v = v
  after_read_kept s IoResult.closed v = k.closed s v
  after_read_kept s IoResult.error v = k.closed s v

  read_ready_kept :
      (s : Server) (events : EventSet) (recv : Recv)
      → P s
      → Ensures IsProgress (read_ready s id events recv)
  unfolding read_ready
  read_ready_kept s events recv v =
      let s₁ = put s id (read_some (s.objects id) recv).0 in
      Ensures-elim IsProgress (not s.draining && (events.input || events.peer_closed))
        (after_read s₁ id (read_some (s.objects id) recv).1) (some (continues s))
        (after_read_kept s₁ (read_some (s.objects id) recv).1
          (k.written s _ v (read_some-IsSame (s.objects id) recv)))
        v

  Ensures-if :
      (b : Bool) (x y : Option Server) → Ensures P x → Ensures P y → Ensures P (if b then x else y)
  Ensures-if true x y v w = v
  Ensures-if false x y v w = w

  pub handle_connection_event_kept :
      (s : Server) (events : EventSet) (io : Io)
      → P s
      → Ensures P (handle_connection_event s id events io)
  unfolding handle_connection_event
  handle_connection_event_kept s events io v =
      let closed = k.closed s v in
      let read : Server → Option Server = λ s₁.
        on_continue (read_ready s₁ id events io.recv) (λ s₂. settle s₂ id io.flush io.modified) in
      let written = on_continue (write_ready s id events io.first_flush) read in
      Ensures-if (events.error || events.hang_up) (some (close_connection s id))
        (if s.draining && events.peer_closed then some (close_connection s id) else written) closed
        (Ensures-if (s.draining && events.peer_closed) (some (close_connection s id)) written closed
          (on_continue_kept (write_ready s id events io.first_flush) read
            (write_ready_kept s events io.first_flush v)
            (λ s₁ v₁.
              on_continue_kept (read_ready s₁ id events io.recv) _
                (read_ready_kept s₁ events io.recv v₁)
                (λ s₂ v₂. settle_kept s₂ io.flush io.modified v₂))))
