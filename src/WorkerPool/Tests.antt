-- ===== src/WorkerPool/Tests.antt =====
-- A pool that is stopped with a job in its queue.
use local_cache_service.Base.{ℕ, refl, inl, [], ◌∷◌, arith, true, false}
use local_cache_service.WorkerPool.Defs
use local_cache_service.WorkerPool.Defs.{
  Pool, works, try_submit, wake, begin_stop, end_stop, already_stopped,
}
use local_cache_service.WorkerPool.Steps.{
  submits, takes, stops, times_out, Steps, rest, next, IsPool, IsRun,
}
use local_cache_service.WorkerPool.Runs.{Steps-IsRun}

machine : Unit {0}
unfolding Defs.init try_submit wake begin_stop end_stop already_stopped
machine = tt

-- A pool with the bound 2 that holds one job.
abbrev one_queued : Pool ℕ
one_queued = record (Defs.init 2) { queue = 7 ∷ [] }

one_queued-IsPool : IsPool one_queued
unfolding machine
one_queued-IsPool = record { bounded = omega arith; stopped = inl refl }

-- A job comes in, one is taken, and the stop discards the other.
stopped_run :
    Steps one_queued
      (8 ∷ [])
      (7 ∷ [])
      (8 ∷ [])
      (record (Defs.init 2) { accepting = false; stopping = true })
unfolding machine
stopped_run = next (submits one_queued 8 refl) (
    next (takes _ (record (Defs.init 2) { queue = 8 ∷ [] }) 7 refl)
      (next (stops _ 100 refl) (next (times_out _ refl) (rest _))))

Steps-IsRun_example :
    IsRun one_queued
      (8 ∷ [])
      (7 ∷ [])
      (8 ∷ [])
      (record (Defs.init 2) { accepting = false; stopping = true })
Steps-IsRun_example = Steps-IsRun one_queued-IsPool stopped_run
