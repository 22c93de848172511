-- ===== src/Server/Draining.antt =====
-- A client's event and `drain_completions` keep what holds of the server.
use local_cache_service.Base.{
  ℕ, ◌≡◌, inl, inr, refl, ap, ◌∙◌, List, [], ◌∷◌, Option, none, some, Bool, false, Bool-cases, ◌==◌,
  arith,
}
use local_cache_service.Connection.Events.{EventSet}
use local_cache_service.Connection.Defs.{Connection, Event, clear_notified}
use local_cache_service.Server.Jobs.{Service}
use local_cache_service.Server.Defs.{Server, put}
use local_cache_service.Server.Loop.{
  settle, Io, handle_connection_event, drain_one, drain_ready, drain_completions, to_client,
}
use local_cache_service.Server.Invariant.{
  IsServer, IsLike-IsServer, put-IsServer, close_connection-IsServer, count-IsServer,
}
use local_cache_service.Server.Keeping.{
  Ensures, Ensures-bind, Ensures-elim, Ensures-pair, Ensures-map, IsKept,
}
use local_cache_service.Server.Handlers.{settle_kept, handle_connection_event_kept}
use local_cache_service.Server.Interest.{
  IsWatched, AreWatched, drain_one-IsWatched, handle_connection_event-IsWatched,
}
use local_cache_service.Server.Watching.{
  IsWatching, IsRunning, is_ready, IsLocal, IsLocal-refl, IsLocal-IsKept, handled-IsWatching,
}
use local_cache_service.Server.Opening.{IsListed, alike-IsWatching}

pub IsServer-IsKept : (id : ℕ) → IsKept id IsServer
IsServer-IsKept id = record {
  written = λ s c v h. put-IsServer s id c v (record { fd = h.fd; is_closed = h.is_closed });
  counted = λ s f v e. count-IsServer s f v e;
  queued = λ s pool v. IsLike-IsServer v (record {
    objects = λ j. record { fd = refl; is_closed = refl };
    connections = refl;
    next_connection_id = refl;
    active = refl;
    config = refl;
  });
  closed = λ s v. close_connection-IsServer s id v;
}

-- What a handler of one connection leaves.
abbrev IsHandled : Server → ℕ → Server → Type 0
IsHandled s id t = IsServer t × (IsLocal s id t × IsWatched t id)

handle_connection_event-IsHandled :
    (s : Server) (id : ℕ) (events : EventSet) (io : Io)
    → IsServer s
    → Ensures (IsHandled s id) (handle_connection_event s id events io)
handle_connection_event-IsHandled s id events io v =
    let o = handle_connection_event s id events io in
    Ensures-pair IsServer (λ t. IsLocal s id t × IsWatched t id) o
      (handle_connection_event_kept id IsServer (IsServer-IsKept id) s events io v)
      (Ensures-pair (IsLocal s id) (AreWatched id) o
        (handle_connection_event_kept id (IsLocal s id) (IsLocal-IsKept s id) s events io
          (IsLocal-refl s id))
        (handle_connection_event-IsWatched s id events io))

pub client-IsListed :
    (s : Server) (events : EventSet) (io : Io) (o : Option ℕ) (behind ready list : List ℕ)
    → IsListed behind ready list s
    → Ensures (IsListed behind ready list) (to_client s events io o)
client-IsListed s events io none behind ready list v = v
client-IsListed s events io (some id) behind ready list (v, l) =
    Ensures-map (IsHandled s id) (IsListed behind ready list)
      (handle_connection_event s id events io)
      (handle_connection_event-IsHandled s id events io v.server)
      (λ t (w, (h, k)).
        (handled-IsWatching s t id behind behind ready v w h k (λ j e. refl), h.ready ∙ l))

-- A connection that is taken from the ready list.
cleared-IsWatching :
    (s : Server) (id : ℕ) (ids : List ℕ)
    → IsWatching (id ∷ ids) (id ∷ ids) s
    → IsWatching (id ∷ ids) ids (put s id (clear_notified (s.objects id)))
unfolding clear_notified is_ready
cleared-IsWatching s id ids v = record {
  server =
      put-IsServer s id (clear_notified (s.objects id)) v.server
        (record { fd = refl; is_closed = refl });
  watched = λ j. elim (Bool-cases (j == id)) [
    | inl e ↦ inr (ground (arith, e))
    | inr e ↦ elim (v.watched j) [
      | inl (inl k) ↦ inl (inl (rw e k))
      | inl (inr k) ↦ inl (inr (rw e k))
      | inr k ↦ inr k
    ]
  ];
  notified = λ j n. elim (Bool-cases (j == id)) [
    | inl e ↦ absurd (ground (arith, e, n))
    | inr e ↦ ground (arith, e, n, v.notified j)
  ];
  inflight = v.inflight;
  listening = v.listening;
}

pub taken_off :
    (id j : ℕ) (ids : List ℕ) → (j == id) ≡ false → is_ready j (id ∷ ids) ≡ is_ready j ids
unfolding is_ready
taken_off id j ids e = ground (arith, e)

drain_one-IsListed :
    (s : Server) (id : ℕ) (ids list : List ℕ) (events : List Event) (modified : Bool)
    → IsListed (id ∷ ids) (id ∷ ids) list s
    → Ensures (IsListed ids ids list) (drain_one s id events modified)
unfolding drain_one
drain_one-IsListed s id ids list events modified (v, l) =
    let s₁ = put s id (clear_notified (s.objects id)) in
    let w = cleared-IsWatching s id ids v in
    let server_kept =
      Ensures-elim IsServer (s₁.objects id).is_closed (some s₁) (settle s₁ id events modified)
        w.server (settle_kept id IsServer (IsServer-IsKept id) s₁ events modified w.server) in
    let local_kept =
      Ensures-elim (IsLocal s₁ id) (s₁.objects id).is_closed (some s₁)
        (settle s₁ id events modified) (IsLocal-refl s₁ id)
        (settle_kept id (IsLocal s₁ id) (IsLocal-IsKept s₁ id) s₁ events modified
          (IsLocal-refl s₁ id)) in
    let o = drain_one s id events modified in
    Ensures-map (IsHandled s₁ id) (IsListed ids ids list) o
      (Ensures-pair IsServer (λ t. IsLocal s₁ id t × IsWatched t id) o server_kept
        (Ensures-pair (IsLocal s₁ id) (AreWatched id) o local_kept
          (drain_one-IsWatched s id events modified)))
      (λ t (x, (h, k)). (
        handled-IsWatching s₁ t id (id ∷ ids) ids ids w x h k (λ j e. taken_off id j ids e),
        h.ready ∙ l,
      ))

drain_ready-IsListed :
    (s : Server) (ids list : List ℕ) (answers : List (List Event × Bool))
    → IsListed ids ids list s
    → Ensures (IsListed [] [] list) (drain_ready s ids answers)
unfolding drain_ready
drain_ready-IsListed s [] list answers v = v
drain_ready-IsListed s (id ∷ ids) list [] v = tt
drain_ready-IsListed s (id ∷ ids) list ((events, modified) ∷ answers) v =
    Ensures-bind (IsListed ids ids list) (IsListed [] [] list) (drain_one s id events modified)
      (λ s₁. drain_ready s₁ ids answers) (drain_one-IsListed s id ids list events modified v)
      (λ t w. drain_ready-IsListed t ids list answers w)

pub quiet_like :
    (s s' : Server)
    → s'.objects ≡ s.objects
    → s'.connections ≡ s.connections
    → s'.next_connection_id ≡ s.next_connection_id
    → s'.service ≡ s.service
    → s'.config ≡ s.config
    → IsServer s
    → IsServer s'
quiet_like s s' o m n a g v = IsLike-IsServer v (record {
  objects = λ j. record {
    fd = ap (λ (f : ℕ → Connection). (f j).fd) o;
    is_closed = ap (λ (f : ℕ → Connection). (f j).is_closed) o;
  };
  connections = m;
  next_connection_id = n;
  active = ap (λ (x : Service). x.stats.active_connections) a;
  config = g;
})

pub drain_completions-IsListed :
    (s : Server) (answers : List (List Event × Bool))
    → IsRunning s
    → Ensures (IsListed [] [] []) (drain_completions s answers)
unfolding drain_completions
drain_completions-IsListed s answers v =
    let s₁ = record s { ready_connections = [] } in
    drain_ready-IsListed s₁ s.ready_connections [] answers (
      alike-IsWatching s s₁ s.ready_connections s.ready_connections v
          (quiet_like s s₁ refl refl refl refl refl v.server) refl refl refl refl,
      refl,
    )
