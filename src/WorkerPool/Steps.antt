-- ===== src/WorkerPool/Steps.antt =====
-- Runs of the pool: submitting threads, workers and the thread that stops it, in any order.
use local_cache_service.Base.{
  ℕ, ◌≤◌, ◌≡◌, refl, sym, ap, ap₂, ◌∙◌, ◌⊎◌, inl, inr, List, [], ◌∷◌, ◌++◌, append-nil, arith, true,
  false, length, length-append,
}
use local_cache_service.WorkerPool.Defs.{
  Pool, works, woken_by, try_submit, wake, job_done, already_stopped, begin_stop, end_stop,
}

-- A step, with the jobs that it accepts, hands to a worker, and discards.
pub data Step {J : Type 0} : Pool J → List J → List J → List J → Pool J → Type 0 where
  submits :
      (p : Pool J) (j : J) → (try_submit p j).1 ≡ true → Step p (j ∷ []) [] [] (try_submit p j).0
  refuses : (p : Pool J) (j : J) → (try_submit p j).1 ≡ false → Step p [] [] [] (try_submit p j).0
  takes : (p p' : Pool J) (j : J) → wake p ≡ works j p' → Step p [] (j ∷ []) [] p'
  finishes : (p : Pool J) → Step p [] [] [] (job_done p)
  stops :
      (p : Pool J) (timeout : ℕ)
      → already_stopped p ≡ false
      → Step p [] [] [] (begin_stop p timeout)
  drained : (p : Pool J) → p.waiting ≡ true → p.queue ≡ [] → Step p [] [] [] (end_stop p true)
  times_out : (p : Pool J) → p.waiting ≡ true → Step p [] [] p.queue (end_stop p false)

pub data Steps {J : Type 0} : Pool J → List J → List J → List J → Pool J → Type 0 where
  rest : (p : Pool J) → Steps p [] [] [] p
  next :
      {p p₁ p' : Pool J} {a a' t t' d d' : List J}
      → Step p a t d p₁
      → Steps p₁ a' t' d' p'
      → Steps p (a ++ a') (t ++ t') (d ++ d') p'

pub record IsPool {J : Type 0} (p : Pool J) : Type 0 where
  pub bounded : length p.queue ≤ p.max_pending
  pub stopped : (p.waiting ≡ false) ⊎ (p.accepting ≡ false)

-- The jobs that were queued or accepted are the taken, the discarded and the queued ones, in this
-- order; and jobs are discarded only where the pool is left empty and shut.
pub record IsRun {J : Type 0} (p : Pool J) (a t d : List J) (p' : Pool J) : Type 0 where
  pub pool : IsPool p'
  pub order : p.queue ++ a ≡ t ++ (d ++ p'.queue)
  pub dropped : (d ≡ []) ⊎ ((p'.queue ≡ []) × (p'.accepting ≡ false))
  pub max_pending : p'.max_pending ≡ p.max_pending

module _ {J : Type 0} where
  submit-IsRun :
      (p : Pool J) (j : J)
      → IsPool p
      → (try_submit p j).1 ≡ true
      → IsRun p (j ∷ []) [] [] (try_submit p j).0
  unfolding try_submit
  submit-IsRun p j v h = record {
    pool = record {
      bounded = ground (arith, h, v.bounded, length-append p.queue (j ∷ []));
      stopped = ground (arith, h, v.stopped);
    };
    order = ground (arith, h);
    dropped = inl refl;
    max_pending = ground (arith, h);
  }

  refuse_same : (p : Pool J) (j : J) → (try_submit p j).1 ≡ false → (try_submit p j).0 ≡ p
  unfolding try_submit
  refuse_same p j h = ground (arith, h)

  was_shut : (p : Pool J) → IsPool p → p.waiting ≡ true → p.accepting ≡ false
  was_shut p v w = ground (arith, v.stopped, w)

  unmoved :
      {p p' : Pool J}
      → IsPool p'
      → p'.queue ≡ p.queue
      → p'.max_pending ≡ p.max_pending
      → IsRun p [] [] [] p'
  unmoved {p} v e m = record {
    pool = v;
    order = append-nil p.queue ∙ sym e;
    dropped = inl refl;
    max_pending = m;
  }

  -- What a worker that has a job leaves.
  pub record IsTaken (p : Pool J) (j : J) (p' : Pool J) : Type 0 where
    pub head : p.queue ≡ j ∷ p'.queue
    pub waiting : p'.waiting ≡ p.waiting
    pub accepting : p'.accepting ≡ p.accepting
    pub max_pending : p'.max_pending ≡ p.max_pending

  pub woken_by-IsTaken :
      (p : Pool J) (q : List J) (p' : Pool J) (j : J)
      → p.queue ≡ q
      → woken_by p q ≡ works j p'
      → IsTaken p j p'
  woken_by-IsTaken p [] p' j e f = absurd (ground (arith, f))
  woken_by-IsTaken p (x ∷ q) p' j e f =
      let same : j ≡ x = cc in
      let left : p' ≡ record p { queue = q } = cc in
      record {
        head = e ∙ ap₂ ◌∷◌ (sym same) (ap (λ (r : Pool J). r.queue) (sym left));
        waiting = ap (λ (r : Pool J). r.waiting) left;
        accepting = ap (λ (r : Pool J). r.accepting) left;
        max_pending = ap (λ (r : Pool J). r.max_pending) left;
      }

  pub take-IsRun :
      (p p' : Pool J) (j : J) → IsPool p → wake p ≡ works j p' → IsRun p [] (j ∷ []) [] p'
  unfolding wake
  take-IsRun p p' j v e =
      let t = woken_by-IsTaken p p.queue p' j refl e in
      record {
        pool = record {
          bounded = omega (arith, v.bounded, ap length t.head, t.max_pending);
          stopped = rw (t.waiting, t.accepting) v.stopped;
        };
        order = append-nil p.queue ∙ t.head;
        dropped = inl refl;
        max_pending = t.max_pending;
      }

  begin_stop-IsRun : (p : Pool J) (timeout : ℕ) → IsPool p → IsRun p [] [] [] (begin_stop p timeout)
  unfolding begin_stop
  begin_stop-IsRun p timeout v =
      unmoved (record { bounded = ground (arith, v.bounded); stopped = inr (ground arith) })
        (ground arith) (ground arith)

  pub Step-IsRun : {p p' : Pool J} {a t d : List J} → IsPool p → Step p a t d p' → IsRun p a t d p'
  unfolding job_done end_stop
  Step-IsRun v (submits p j h) = submit-IsRun p j v h
  Step-IsRun v (refuses p j h) = rw (refuse_same p j h) (unmoved v refl refl)
  Step-IsRun v (takes p p' j e) = take-IsRun p p' j v e
  Step-IsRun v (finishes p) =
      unmoved (record { bounded = v.bounded; stopped = v.stopped }) refl refl
  Step-IsRun v (stops p timeout h) = begin_stop-IsRun p timeout v
  Step-IsRun v (drained p w e) =
      unmoved (record { bounded = v.bounded; stopped = inl refl }) refl refl
  Step-IsRun v (times_out p w) = record {
    pool = record { bounded = omega arith; stopped = inl refl };
    order = refl;
    dropped = inr (refl, was_shut p v w);
    max_pending = refl;
  }
