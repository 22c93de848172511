-- ===== src/Server/Finishing.antt =====
-- The end of `run`: no connection is left open.
use local_cache_service.Base.{
  ℕ, ◌<◌, ◌≡◌, ◌⊎◌, inl, inr, refl, sym, ap, ◌∙◌, subst, List, [], ◌∷◌, append-nil, Option, none,
  some, ◌>>=◌, Bool, true, Bool-cases, ◌==◌, length, arith, sub64, u64_mod,
}
use local_cache_service.Stats.{connection_closed}
use local_cache_service.Config.Server.{ServerConfig, validate}
use local_cache_service.Connection.Defs.{Event, mark_closed}
use local_cache_service.Server.Jobs.{Service}
use local_cache_service.Server.Descriptors.{Descriptors}
use local_cache_service.Server.Defs.{Server, put, count}
use local_cache_service.Server.Loop.{drain_completions, close_all, finish_run}
use local_cache_service.Server.Invariant.{IsServer}
use local_cache_service.Server.Keeping.{Ensures}
use local_cache_service.Server.Watching.{is_ready, IsRunning}
use local_cache_service.Server.Opening.{IsListed}
use local_cache_service.Server.Draining.{drain_completions-IsListed}
use local_cache_service.Server.Shutdown.{held_ids, find-is_ready}
use local_cache_service.Server.Steps.{Task, Steps, started}
use local_cache_service.Server.Running.{Steps-IsRunning, started-IsRunning}

-- What the loop closes one connection by.
abbrev closed_one : Server → ℕ → Server
closed_one s id = count (put s id (mark_closed (s.objects id))) connection_closed

closed_one_closes :
    (s : Server) (j id : ℕ)
    → (j ≡ id) ⊎ ((s.objects j).is_closed ≡ true)
    → ((closed_one s id).objects j).is_closed ≡ true
unfolding mark_closed
closed_one_closes s j id (inl e) = ground (arith, e)
closed_one_closes s j id (inr e) = elim (Bool-cases (j == id)) [
  | inl h ↦ ground (arith, h)
  | inr h ↦ ground (arith, h, e)
]

close_all_closes :
    (m : Descriptors) (s : Server) (j : ℕ)
    → ((s.objects j).is_closed ≡ true) ⊎ (is_ready j (held_ids m) ≡ true)
    → ((close_all s m).objects j).is_closed ≡ true
unfolding close_all is_ready
close_all_closes [] s j (inl e) = e
close_all_closes [] s j (inr e) = absurd cc
close_all_closes ((fd, id) ∷ m) s j (inl e) =
    close_all_closes m (closed_one s id) j (inl (closed_one_closes s j id (inr e)))
close_all_closes ((fd, id) ∷ m) s j (inr e) = elim (Bool-cases (j == id)) [
  | inl h ↦
      let same : j ≡ id = ground (arith, h) in
      close_all_closes m (closed_one s id) j (inl (closed_one_closes s j id (inl same)))
  | inr h ↦ close_all_closes m (closed_one s id) j (inr (ground (arith, h, e)))
]

close_all_counts :
    (m : Descriptors) (s : Server)
    → s.service.stats.active_connections ≡ length m
    → length m < u64_mod
    → (close_all s m).service.stats.active_connections ≡ 0
unfolding close_all connection_closed sub64
close_all_counts [] s e h = e
close_all_counts ((fd, id) ∷ m) s e h =
    close_all_counts m (closed_one s id) (omega (arith, e, h)) (omega (arith, h))

-- Nothing is left.
pub record IsFinished (s : Server) : Type 0 where
  pub closed : (id : ℕ) → (s.objects id).is_closed ≡ true
  pub connections : s.connections ≡ []
  pub active : s.service.stats.active_connections ≡ 0

emptied-IsFinished :
    (s : Server) → IsServer s → IsFinished (record (close_all s s.connections) { connections = [] })
emptied-IsFinished s v = record {
  closed = λ id. close_all_closes s.connections s id (elim (v.known id) [
    | inl e ↦ inl e
    | inr e ↦ inr (
        ap (is_ready id) (sym (append-nil (held_ids s.connections)))
        ∙ find-is_ready (s.objects id).fd id s.connections [] e)
  ]);
  connections = refl;
  active = close_all_counts s.connections s v.counted (omega (arith, v.bounded, v.word));
}

emptied_run-IsFinished :
    (s : Server) (answers : List (List Event × Bool)) {s' : Server}
    → IsRunning s
    → finish_run s answers ≡ some s'
    → IsFinished s'
unfolding finish_run
emptied_run-IsFinished s answers {s'} v e =
    emptied (drain_completions s answers) (drain_completions-IsListed s answers v) e
  where
    emptied :
        (o : Option Server)
        → Ensures (IsListed [] [] []) o
        → (o >>= λ t. some (record (close_all t t.connections) { connections = [] })) ≡ some s'
        → IsFinished s'
    emptied none w h = absurd cc
    emptied (some t) (w, l) h =
        let same : record (close_all t t.connections) { connections = [] } ≡ s' = cc in
        subst IsFinished same (emptied-IsFinished t w.server)

-- A server whose configuration validate accepts, with a limit on connections below 2 ^ 64 and no
-- connections counted, takes any steps: events of the loop, where an accepted descriptor is not
-- that of an open connection and the ids do not run out, and steps of the workers in any order.
-- When the end of run returns after them, every connection that there ever was is closed, the map
-- is empty and the counter of open connections is 0.
pub finish_run-IsFinished :
    (n : ℕ) (config : ServerConfig) (service : Service) (answers : List (List Event × Bool))
    {s s' : Server} {tasks : List Task}
    → validate n config ≡ none
    → config.max_connections < u64_mod
    → service.stats.active_connections ≡ 0
    → Steps (started config service) [] s tasks
    → finish_run s answers ≡ some s'
    → IsFinished s'
finish_run-IsFinished n config service answers {s} e m a run finish =
    emptied_run-IsFinished s answers
      (Steps-IsRunning run (started-IsRunning n config service e m a)) finish
