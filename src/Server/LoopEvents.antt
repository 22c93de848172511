-- ===== src/Server/LoopEvents.antt =====
-- The events of the loop, one by one.
use local_cache_service.Base.{ℕ, ◌≡◌, refl, sym, subst, List, [], some, Bool, true, false}
use local_cache_service.Server.Descriptors.{find}
use local_cache_service.Server.Defs.{Server}
use local_cache_service.Server.Loop.{
  drain_completions, begin_drain, LoopEvent, listen, completion, shutdown, signal, client,
  to_client, on_event, handle_listen_ready,
}
use local_cache_service.Server.Keeping.{Ensures, Ensures-map}
use local_cache_service.Server.Watching.{IsWatching, IsRunning}
use local_cache_service.Server.Opening.{IsListed, handle_listen_ready-IsListed}
use local_cache_service.Server.Steps.{IsPossible}
use local_cache_service.Server.Draining.{client-IsListed, drain_completions-IsListed}
use local_cache_service.Server.Shutdown.{begin_drain-IsListed}

listed-IsRunning : (t : Server) (list : List ℕ) → IsListed list list list t → IsRunning t
listed-IsRunning t list (v, l) = subst (λ (r : List ℕ). IsWatching r r t) (sym l) v

-- Every event of the loop.
pub on_event-IsRunning :
    (s : Server) (e : LoopEvent) → IsPossible s e → IsRunning s → Ensures IsRunning (on_event s e)
unfolding on_event
on_event-IsRunning s (listen answers) p v = accepted_all s.listening refl
  where
    accepted_all :
        (b : Bool)
        → s.listening ≡ b
        → Ensures IsRunning (elim b [ true ↦ handle_listen_ready s answers | false ↦ some s ])
    accepted_all true up =
        Ensures-map (IsListed s.ready_connections s.ready_connections s.ready_connections) IsRunning
          (handle_listen_ready s answers)
          (handle_listen_ready-IsListed answers s s.ready_connections s.ready_connections
            s.ready_connections p (v, refl) up)
          (λ t w. listed-IsRunning t s.ready_connections w)
    accepted_all false up = v
on_event-IsRunning s (completion answers) p v =
    Ensures-map (IsListed [] [] []) IsRunning (drain_completions s answers)
      (drain_completions-IsListed s answers v) (λ t w. listed-IsRunning t [] w)
on_event-IsRunning s (shutdown answers) p v =
    Ensures-map (IsListed s.ready_connections s.ready_connections s.ready_connections) IsRunning
      (begin_drain s answers) (begin_drain-IsListed s answers v)
      (λ t w. listed-IsRunning t s.ready_connections w)
on_event-IsRunning s signal p v = v
on_event-IsRunning s (client fd events io) p v =
    Ensures-map (IsListed s.ready_connections s.ready_connections s.ready_connections) IsRunning
      (to_client s events io (find fd s.connections))
      (client-IsListed s events io (find fd s.connections) s.ready_connections s.ready_connections
        s.ready_connections (v, refl))
      (λ t w. listed-IsRunning t s.ready_connections w)
