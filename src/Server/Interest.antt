-- ===== src/Server/Interest.antt =====
-- What epoll watches for a connection after a handler: the events that the connection needs.
use local_cache_service.Base.{
  ℕ, zero, suc, ◌<◌, ◌≤◌, ◌↔◌, ◌≡◌, ◌⊎◌, inl, inr, refl, sym, subst, List, Option, none, some,
  ◌>>=◌, Bool, true, false, not, ◌&&◌, ◌||◌, if◌then◌else◌, Bool-cases, arith,
}
use local_cache_service.Protocol.{Request, ParseResult, complete, need_more, malformed}
use local_cache_service.Connection.Events.{EventSet, same_events, same_events-true}
use local_cache_service.Connection.Defs.{
  Connection, IoResult, Recv, Event, mark_closed, set_registered_events, clear_notified,
  next_request, inflight_limit_reached, read_some, read_paused, has_pending_output,
}
use local_cache_service.Server.Defs.{
  Server, put, update, close_connection, wanted_events, update_interest, reject, submit, go_on,
  on_parsed, process_input,
}
use local_cache_service.Server.Loop.{
  flush, close_or_update, settled, settle, Io, Progress, returned, continues, on_continue,
  after_first_flush, write_ready, after_input, after_read, read_ready, handle_connection_event,
  drain_one,
}
use local_cache_service.Server.Keeping.{Ensures, Ensures-bind, Ensures-elim, ensures_some}

-- The connection is closed, or epoll watches what it needs.
abbrev pub IsWatched : Server → ℕ → Type 0
IsWatched s id =
    ((s.objects id).is_closed ≡ true)
    ⊎ ((s.objects id).registered_events ≡ wanted_events s.draining (s.objects id))

-- What a connection needs: input while it may submit requests, output while there is some, and always
-- the news that its peer closed.
pub record IsNeeded (draining : Bool) (c : Connection) (e : EventSet) : Type 0 where
  pub input : (e.input ≡ true) ↔ (
      (draining ≡ false)
      × ((c.close_after_flush ≡ false)
          × ((c.pending_output_bytes ≤ c.limits.max_output_bytes)
              × (c.inflight < c.limits.max_inflight))))
  pub output : (e.output ≡ true) ↔ (0 < c.pending_output_bytes)
  pub peer_closed : e.peer_closed ≡ true
  pub error : e.error ≡ false
  pub hang_up : e.hang_up ≡ false

wanted_events-IsNeeded :
    (draining : Bool) (c : Connection) → IsNeeded draining c (wanted_events draining c)
unfolding read_paused has_pending_output inflight_limit_reached
wanted_events-IsNeeded draining c = record {
  input = (λ e. ground (arith, e), λ h. ground (arith, h));
  output = (λ e. ground (arith, e), λ h. ground (arith, h));
  peer_closed = refl;
  error = refl;
  hang_up = refl;
}

-- A connection that is watched is closed or registered for what it needs.
pub watched-IsNeeded :
    (s : Server) (id : ℕ)
    → IsWatched s id
    → ((s.objects id).is_closed ≡ true)
      ⊎ IsNeeded s.draining (s.objects id) (s.objects id).registered_events
watched-IsNeeded s id (inl e) = inl e
watched-IsNeeded s id (inr e) = inr (
    subst (IsNeeded s.draining (s.objects id)) (sym e)
      (wanted_events-IsNeeded s.draining (s.objects id)))

abbrev IsShut : ℕ → Server → Type 0
IsShut id s = (s.objects id).is_closed ≡ true

pub close_connection_closes : (s : Server) (id : ℕ) → IsShut id (close_connection s id)
unfolding close_connection mark_closed
close_connection_closes s id = ground arith

update_same : (objects : ℕ → Connection) (id : ℕ) (c : Connection) → update objects id c id ≡ c
update_same objects id c = ground arith

pub update_interest-IsWatched :
    (s : Server) (id : ℕ) (modified : Bool) → IsWatched (update_interest s id modified) id
unfolding update_interest set_registered_events read_paused has_pending_output
    inflight_limit_reached
update_interest-IsWatched s id modified =
    let wanted = wanted_events s.draining (s.objects id) in
    elim (Bool-cases (same_events wanted (s.objects id).registered_events)) [
      | inl e ↦ simp e (inr (same_events-true wanted (s.objects id).registered_events e))
      | inr e ↦ elim (Bool-cases modified) [
        | inr f ↦ simp (e, f) (inl (close_connection_closes s id))
        | inl f ↦ simp (e, f) (inr (rw (update_same s.objects id) refl))
      ]
    ]

close_or_update-IsWatched :
    (s : Server) (id : ℕ) (modified : Bool) → IsWatched (close_or_update s id modified) id
unfolding close_or_update
close_or_update-IsWatched s id modified =
    elim (Bool-cases
      ((s.objects id).close_after_flush && not (has_pending_output (s.objects id)))) [
        | inl e ↦ rw e (inl (close_connection_closes s id))
        | inr e ↦ rw e (update_interest-IsWatched s id modified)
      ]

settled-IsWatched :
    (id : ℕ) (modified : Bool) (r : Server × IoResult) → IsWatched (settled id modified r) id
settled-IsWatched id modified (s, IoResult.error) = inl (close_connection_closes s id)
settled-IsWatched id modified (s, IoResult.ok) = close_or_update-IsWatched s id modified
settled-IsWatched id modified (s, IoResult.would_block) = close_or_update-IsWatched s id modified
settled-IsWatched id modified (s, IoResult.closed) = close_or_update-IsWatched s id modified

abbrev pub AreWatched : ℕ → Server → Type 0
AreWatched id s = IsWatched s id

pub settle-IsWatched :
    (s : Server) (id : ℕ) (events : List Event) (modified : Bool)
    → Ensures (AreWatched id) (settle s id events modified)
unfolding settle
settle-IsWatched s id events modified = settled_flush (flush s id events)
  where
    settled_flush :
        (o : Option (Server × IoResult))
        → Ensures (AreWatched id) (o >>= λ r. some (settled id modified r))
    settled_flush none = tt
    settled_flush (some r) = settled-IsWatched id modified r

pub drain_one-IsWatched :
    (s : Server) (id : ℕ) (events : List Event) (modified : Bool)
    → Ensures (AreWatched id) (drain_one s id events modified)
unfolding drain_one
drain_one-IsWatched s id events modified =
    let s₁ = put s id (clear_notified (s.objects id)) in
    watched_if (s₁.objects id).is_closed s₁ (settle s₁ id events modified) (λ e. inl e)
      (settle-IsWatched s₁ id events modified)
  where
    watched_if :
        (b : Bool) (t : Server) (o : Option Server)
        → (b ≡ true → IsWatched t id)
        → Ensures (AreWatched id) o
        → Ensures (AreWatched id) (elim b [ true ↦ some t | false ↦ o ])
    watched_if true t o f v = f refl
    watched_if false t o f v = v

-- `process_input` answers false for a connection that it closed.
abbrev IsLeft : ℕ → Server × Bool → Type 0
IsLeft id r = (r.1 ≡ false) → IsShut id r.0

reject-IsLeft : (s : Server) (id : ℕ) (request : Request) → IsLeft id (reject s id request)
unfolding reject
reject-IsLeft s id request = left_if _ _ _
  where
    left_if :
        (b : Bool) (t u : Server)
        → IsLeft id (if b then (t, true) else (close_connection u id, false))
    left_if true t u = λ e. absurd cc
    left_if false t u = λ e. close_connection_closes u id

submit-IsLeft : (s : Server) (id : ℕ) (request : Request) → IsLeft id (submit s id request)
unfolding submit
submit-IsLeft s id request = left_if _ _ _ (reject-IsLeft _ id request)
  where
    left_if :
        (b : Bool) (t : Server) (r : Server × Bool)
        → IsLeft id r
        → IsLeft id (if b then (t, true) else r)
    left_if true t r f = λ e. absurd cc
    left_if false t r f = f

on_parsed-IsLeft :
    (s : Server) (id : ℕ) (p : ParseResult Request) (again : Server → Option (Server × Bool))
    → ((t : Server) → Ensures (IsLeft id) (again t))
    → Ensures (IsLeft id) (on_parsed s id p again)
unfolding on_parsed
on_parsed-IsLeft s id need_more again f = λ e. absurd cc
on_parsed-IsLeft s id (malformed e) again f = λ e. absurd cc
on_parsed-IsLeft s id (complete request n) again f =
    gone_on (submit s id request) (submit-IsLeft s id request)
  where
    gone_on : (r : Server × Bool) → IsLeft id r → Ensures (IsLeft id) (go_on r again)
    gone_on (t, true) v = f t
    gone_on (t, false) v = v

process_input-IsLeft :
    (fuel : ℕ) (s : Server) (id : ℕ) → Ensures (IsLeft id) (process_input fuel s id)
unfolding process_input
process_input-IsLeft zero s id = tt
process_input-IsLeft (suc fuel) s id =
    let s₁ = put s id (next_request (s.objects id)).0 in
    let p = (next_request (s.objects id)).1 in
    Ensures-elim (IsLeft id) (inflight_limit_reached (s.objects id)) (some (s, true))
      (on_parsed s₁ id p (λ t. process_input fuel t id)) (λ e. absurd cc)
      (on_parsed-IsLeft s₁ id p (λ t. process_input fuel t id)
        (λ t. process_input-IsLeft fuel t id))

-- A part of a handler returns from it only with the connection closed.
abbrev IsReturn : ℕ → Progress → Type 0
IsReturn id (returned s) = IsShut id s
IsReturn id (continues s) = Unit

write_ready-IsReturn :
    (s : Server) (id : ℕ) (events : EventSet) (answers : List Event)
    → Ensures (IsReturn id) (write_ready s id events answers)
unfolding write_ready
write_ready-IsReturn s id events answers =
    Ensures-elim (IsReturn id) events.output
      (flush s id answers >>= λ r. some (after_first_flush id r)) (some (continues s))
      (flushed_first (flush s id answers)) tt
  where
    flushed_first :
        (o : Option (Server × IoResult))
        → Ensures (IsReturn id) (o >>= λ r. some (after_first_flush id r))
    flushed_first none = tt
    flushed_first (some (t, IoResult.error)) = close_connection_closes t id
    flushed_first (some (t, IoResult.ok)) = tt
    flushed_first (some (t, IoResult.would_block)) = tt
    flushed_first (some (t, IoResult.closed)) = tt

after_read-IsReturn :
    (s : Server) (id : ℕ) (result : IoResult) → Ensures (IsReturn id) (after_read s id result)
unfolding after_read
after_read-IsReturn s id IoResult.ok =
    Ensures-bind (IsLeft id) (IsReturn id) (process_input _ s id) _ (process_input-IsLeft _ s id)
      input_done
  where
    input_done : (r : Server × Bool) → IsLeft id r → IsReturn id (after_input r)
    input_done (t, true) f = tt
    input_done (t, false) f = f refl
after_read-IsReturn s id IoResult.would_block = tt
after_read-IsReturn s id IoResult.closed = close_connection_closes s id
after_read-IsReturn s id IoResult.error = close_connection_closes s id

read_ready-IsReturn :
    (s : Server) (id : ℕ) (events : EventSet) (recv : Recv)
    → Ensures (IsReturn id) (read_ready s id events recv)
unfolding read_ready
read_ready-IsReturn s id events recv =
    let s₁ = put s id (read_some (s.objects id) recv).0 in
    Ensures-elim (IsReturn id) (not s.draining && (events.input || events.peer_closed))
      (after_read s₁ id (read_some (s.objects id) recv).1) (some (continues s))
      (after_read-IsReturn s₁ id (read_some (s.objects id) recv).1) tt

on_continue-IsWatched :
    (id : ℕ) (o : Option Progress) (rest : Server → Option Server)
    → Ensures (IsReturn id) o
    → ((s : Server) → Ensures (AreWatched id) (rest s))
    → Ensures (AreWatched id) (on_continue o rest)
on_continue-IsWatched id none rest v f = tt
on_continue-IsWatched id (some (returned s)) rest v f = inl v
on_continue-IsWatched id (some (continues s)) rest v f = f s

watched_unless :
    (id : ℕ) (b : Bool) (s : Server) (o : Option Server)
    → Ensures (AreWatched id) o
    → Ensures (AreWatched id) (if b then some (close_connection s id) else o)
watched_unless id true s o v = inl (close_connection_closes s id)
watched_unless id false s o v = v

pub handle_connection_event-IsWatched :
    (s : Server) (id : ℕ) (events : EventSet) (io : Io)
    → Ensures (AreWatched id) (handle_connection_event s id events io)
unfolding handle_connection_event
handle_connection_event-IsWatched s id events io =
    watched_unless id (events.error || events.hang_up) s _ (
      watched_unless id (s.draining && events.peer_closed) s _ (
        on_continue-IsWatched id (write_ready s id events io.first_flush) _
          (write_ready-IsReturn s id events io.first_flush)
          (λ s₁.
            on_continue-IsWatched id (read_ready s₁ id events io.recv) _
              (read_ready-IsReturn s₁ id events io.recv)
              (λ s₂. settle-IsWatched s₂ id io.flush io.modified))))

-- When handle_connection_event returns, from any of its exits and whatever the kernel answered,
-- the connection is closed or registered with epoll for input exactly when the server does not
-- drain, the connection is not to be closed after a flush, its backlog is at most the limit on
-- output and it has fewer requests in flight than it may, for output exactly when it has a
-- backlog, always for the end of its peer, and for nothing else.
pub handle_connection_event_watches :
    (s : Server) (id : ℕ) (events : EventSet) (io : Io) {s' : Server}
    → handle_connection_event s id events io ≡ some s'
    → ((s'.objects id).is_closed ≡ true)
      ⊎ IsNeeded s'.draining (s'.objects id) (s'.objects id).registered_events
handle_connection_event_watches s id events io {s'} e = watched-IsNeeded s' id (
    ensures_some (AreWatched id) (handle_connection_event s id events io) s'
      (handle_connection_event-IsWatched s id events io) e)
