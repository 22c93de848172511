-- ===== src/WorkerPool/Defs.antt =====
-- The state of `WorkerPool` (src/thread_pool.cpp, include/cache/thread_pool.h) and what is done to it
-- under its mutex, for jobs of any type. A thread that waits lets the mutex go, so a call that waits is
-- several steps. The threads themselves are left out.
use local_cache_service.Base.{
  ℕ, List, [], ◌∷◌, ◌++◌, Bool, true, false, not, ◌&&◌, ◌||◌, if◌then◌else◌, ltb, leb, length,
  add64,
}

-- `waiting`: a call of `drain_and_stop` waits for the queue to drain.
pub record Pool (J : Type 0) : Type 0 where
  pub max_pending : ℕ
  pub queue : List J
  pub accepting : Bool
  pub stopping : Bool
  pub waiting : Bool
  pub completed : ℕ

-- What a worker finds when it has the mutex: it returns, it sleeps on, or it has a job.
pub data Woken (J : Type 0) : Type 0 where
  returns sleeps : Woken J
  works : J → Pool J → Woken J

module _ {J : Type 0} where
  unfoldable pub init : ℕ → Pool J
  init max_pending = record {
    max_pending = max_pending;
    queue = [];
    accepting = true;
    stopping = false;
    waiting = false;
    completed = 0;
  }

  abbrev pub no_jobs : List J → Bool
  no_jobs [] = true
  no_jobs (j ∷ jobs) = false

  unfoldable pub try_submit : Pool J → J → Pool J × Bool
  try_submit p job =
      if not p.accepting || leb p.max_pending (length p.queue)
      then (p, false)
      else (record p { queue = p.queue ++ (job ∷ []) }, true)

  unfoldable pub pending : Pool J → ℕ
  pending p = length p.queue

  abbrev pub woken_by : Pool J → List J → Woken J
  woken_by p [] = if p.stopping then returns else sleeps
  woken_by p (job ∷ jobs) = works job (record p { queue = jobs })

  -- the part of `worker_loop` under the mutex
  unfoldable pub wake : Pool J → Woken J
  wake p = woken_by p p.queue

  -- the end of a round of `worker_loop`
  unfoldable pub job_done : Pool J → Pool J
  job_done p = record p { completed = add64 p.completed 1 }

  unfoldable pub already_stopped : Pool J → Bool
  already_stopped p = not p.accepting && p.stopping

  -- `drain_and_stop` up to the wait, or to its end if it does not wait
  unfoldable pub begin_stop : Pool J → ℕ → Pool J
  begin_stop p timeout =
      let p₁ = record p { accepting = false } in
      if ltb 0 timeout && not (no_jobs p.queue)
      then record p₁ { waiting = true }
      else record p₁ { stopping = true }

  -- the end of the wait, `drained` being what `wait_for` answers
  unfoldable pub end_stop : Pool J → Bool → Pool J
  end_stop p true = record p { waiting = false; stopping = true }
  end_stop p false = record p { queue = []; waiting = false; stopping = true }
