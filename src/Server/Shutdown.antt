-- ===== src/Server/Shutdown.antt =====
-- The start of the drain: `begin_drain` looks at every connection.
use local_cache_service.Base.{
  ℕ, ◌≡◌, inl, inr, refl, ◌∙◌, List, [], ◌∷◌, ◌++◌, some, Bool, true, arith,
}
use local_cache_service.Server.Descriptors.{Descriptors, find}
use local_cache_service.Server.Defs.{Server, update_interest}
use local_cache_service.Server.Loop.{stop_listening, update_all, begin_drain}
use local_cache_service.Server.Invariant.{IsServer}
use local_cache_service.Server.Keeping.{Ensures, Ensures-elim}
use local_cache_service.Server.Handlers.{update_interest_kept}
use local_cache_service.Server.Interest.{update_interest-IsWatched}
use local_cache_service.Server.Watching.{
  IsWatching, IsRunning, is_ready, IsLocal, IsLocal-refl, IsLocal-IsKept, handled-IsWatching,
}
use local_cache_service.Server.Opening.{IsListed}
use local_cache_service.Server.Draining.{IsServer-IsKept, quiet_like, taken_off}

-- The ids of the connections of the map.
abbrev pub held_ids : Descriptors → List ℕ
held_ids [] = []
held_ids ((fd, id) ∷ m) = id ∷ held_ids m

pub find-is_ready :
    (fd id : ℕ) (m : Descriptors) (rest : List ℕ)
    → find fd m ≡ some id
    → is_ready id (held_ids m ++ rest) ≡ true
unfolding find is_ready
find-is_ready fd id [] rest e = absurd cc
find-is_ready fd id ((k, x) ∷ m) rest e = ground (arith, e, find-is_ready fd id m rest)

is_ready_behind :
    (id : ℕ) (ids rest : List ℕ) → is_ready id rest ≡ true → is_ready id (ids ++ rest) ≡ true
unfolding is_ready
is_ready_behind id [] rest e = e
is_ready_behind id (j ∷ ids) rest e = ground (arith, is_ready_behind id ids rest e)

update_interest-IsListed :
    (s : Server) (id : ℕ) (modified : Bool) (ids ready list : List ℕ)
    → IsListed (id ∷ ids) ready list s
    → IsListed ids ready list (update_interest s id modified)
update_interest-IsListed s id modified ids ready list (v, l) =
    let w = update_interest_kept id IsServer (IsServer-IsKept id) s modified v.server in
    let h =
      update_interest_kept id (IsLocal s id) (IsLocal-IsKept s id) s modified (IsLocal-refl s id) in
    (
      handled-IsWatching s (update_interest s id modified) id (id ∷ ids) ids ready v w h
          (update_interest-IsWatched s id modified) (λ j e. taken_off id j ids e),
      h.ready ∙ l,
    )

update_all-IsListed :
    (s : Server) (m : Descriptors) (answers : List Bool) (rest ready list : List ℕ)
    → IsListed (held_ids m ++ rest) ready list s
    → Ensures (IsListed rest ready list) (update_all s m answers)
unfolding update_all
update_all-IsListed s [] answers rest ready list v = v
update_all-IsListed s ((fd, id) ∷ m) [] rest ready list v = tt
update_all-IsListed s ((fd, id) ∷ m) (modified ∷ answers) rest ready list v =
    update_all-IsListed (update_interest s id modified) m answers rest ready list
      (update_interest-IsListed s id modified (held_ids m ++ rest) ready list v)

-- When the drain begins, every connection is to be looked at.
draining-IsWatching :
    (s : Server)
    → IsRunning s
    → IsWatching
        (held_ids s.connections ++ s.ready_connections)
        s.ready_connections
        (stop_listening (record s { draining = true }))
unfolding stop_listening
draining-IsWatching s v = record {
  server = quiet_like s _ refl refl refl refl refl v.server;
  watched = λ j. elim (v.server.known j) [
    | inl e ↦ inl (inl e)
    | inr e ↦ inr (find-is_ready (s.objects j).fd j s.connections s.ready_connections e)
  ];
  notified = v.notified;
  inflight = v.inflight;
  listening = λ e. absurd cc;
}

pub begin_drain-IsListed :
    (s : Server) (answers : List Bool)
    → IsRunning s
    → Ensures
        (IsListed s.ready_connections s.ready_connections s.ready_connections)
        (begin_drain s answers)
unfolding begin_drain stop_listening
begin_drain-IsListed s answers v =
    Ensures-elim (IsListed s.ready_connections s.ready_connections s.ready_connections) s.draining
      (some s) (update_all (stop_listening (record s { draining = true })) s.connections answers)
      (v, refl)
      (update_all-IsListed _ s.connections answers s.ready_connections s.ready_connections
        s.ready_connections (draining-IsWatching s v, refl))
