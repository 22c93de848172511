-- ===== src/WorkerPool/Runs.antt =====
-- What holds of the pool in every run.
use local_cache_service.Base.{
  ◌≡◌, refl, sym, ap, ap₂, ◌∙◌, inl, inr, List, [], ◌∷◌, ◌++◌, append-nil, append_assoc, arith,
  false,
}
use local_cache_service.WorkerPool.Defs.{Pool, try_submit, wake, job_done, begin_stop, end_stop}
use local_cache_service.WorkerPool.Steps.{
  Step, submits, refuses, takes, finishes, stops, drained, times_out, Steps, rest, next, IsPool,
  IsRun, woken_by-IsTaken, Step-IsRun,
}

module _ {J : Type 0} where
  append-eq_nil : (xs ys : List J) → xs ++ ys ≡ [] → (xs ≡ []) × (ys ≡ [])
  append-eq_nil [] ys e = (refl, e)
  append-eq_nil (x ∷ xs) ys e = absurd cc

  -- A pool that is shut accepts nothing more, and stays shut.
  shut-Step :
      {p p' : Pool J} {a t d : List J}
      → p.accepting ≡ false
      → Step p a t d p'
      → (a ≡ []) × (p'.accepting ≡ false)
  unfolding try_submit wake job_done begin_stop end_stop
  shut-Step h (submits p j e) = absurd (ground (arith, h, e))
  shut-Step h (refuses p j e) = (refl, ground (arith, h, e))
  shut-Step h (takes p p' j e) =
      let t = woken_by-IsTaken p p.queue p' j refl e in (refl, t.accepting ∙ h)
  shut-Step h (finishes p) = (refl, h)
  shut-Step h (stops p timeout e) = (refl, ground arith)
  shut-Step h (drained p w e) = (refl, h)
  shut-Step h (times_out p w) = (refl, h)

  shut-Steps :
      {p p' : Pool J} {a t d : List J}
      → p.accepting ≡ false
      → Steps p a t d p'
      → (a ≡ []) × (p'.accepting ≡ false)
  shut-Steps h (rest p) = (refl, h)
  shut-Steps h (next s r) =
      let (e, h₁) = shut-Step h s in let (e', h₂) = shut-Steps h₁ r in (ap₂ ◌++◌ e e', h₂)

  -- A step that discards nothing, and the run behind it.
  order_kept :
      (q a a' t t' d d' q₁ q₂ : List J)
      → q ++ a ≡ t ++ (d ++ q₁)
      → d ≡ []
      → q₁ ++ a' ≡ t' ++ (d' ++ q₂)
      → q ++ (a ++ a') ≡ (t ++ t') ++ ((d ++ d') ++ q₂)
  order_kept q a a' t t' d d' q₁ q₂ x e y =
      sym (append_assoc q a a')
      ∙ ap (λ l. l ++ a') (x ∙ ap (λ l. t ++ (l ++ q₁)) e)
      ∙ append_assoc t q₁ a'
      ∙ ap (◌++◌ t) y
      ∙ sym (append_assoc t t' (d' ++ q₂))
      ∙ ap (λ l. (t ++ t') ++ ((l ++ d') ++ q₂)) (sym e)

  -- Nothing comes behind a step that discards.
  order_ends :
      (q a a' t t' d d' q₁ q₂ : List J)
      → q ++ a ≡ t ++ (d ++ q₁)
      → q₁ ≡ []
      → a' ≡ []
      → (t' ≡ []) × ((d' ≡ []) × (q₂ ≡ []))
      → q ++ (a ++ a') ≡ (t ++ t') ++ ((d ++ d') ++ q₂)
  order_ends q a a' t t' d d' q₁ q₂ x e f (te, (de, qe)) =
      ap (◌++◌ q) (ap (◌++◌ a) f ∙ append-nil a)
      ∙ x
      ∙ ap (λ l. t ++ (d ++ l)) (e ∙ sym qe)
      ∙ sym (
          ap₂ (λ l m. l ++ (m ++ q₂)) (ap (◌++◌ t) te ∙ append-nil t)
            (ap (◌++◌ d) de ∙ append-nil d))

  -- In every run of a well-formed pool, the jobs queued before it and accepted in it are, in this
  -- order, those handed to workers, those discarded and those still queued; the queue keeps its
  -- bound; and where jobs were discarded the pool is empty and shut.
  pub Steps-IsRun :
      {p p' : Pool J} {a t d : List J} → IsPool p → Steps p a t d p' → IsRun p a t d p'
  Steps-IsRun v (rest p) = record {
    pool = v;
    order = append-nil p.queue;
    dropped = inl refl;
    max_pending = refl;
  }
  Steps-IsRun v (next {p} {p₁} {p'} {a} {a'} {t} {t'} {d} {d'} s r) =
      let x = Step-IsRun v s in
      let y = Steps-IsRun x.pool r in
      elim x.dropped [
        | inl e ↦ record {
          pool = y.pool;
          order = order_kept p.queue a a' t t' d d' p₁.queue p'.queue x.order e y.order;
          dropped = elim y.dropped [ inl f ↦ inl (ap₂ ◌++◌ e f) | inr f ↦ inr f ];
          max_pending = y.max_pending ∙ x.max_pending;
        }
        | inr (empty, shut) ↦
            let (none_new, shut') = shut-Steps shut r in
            let gone = append-eq_nil t' (d' ++ p'.queue) (sym y.order ∙ ap₂ ◌++◌ empty none_new) in
            let parts = append-eq_nil d' p'.queue gone.1 in
            record {
              pool = y.pool;
              order =
                  order_ends p.queue a a' t t' d d' p₁.queue p'.queue x.order empty none_new
                    (gone.0, parts);
              dropped = inr (parts.1, shut');
              max_pending = y.max_pending ∙ x.max_pending;
            }
      ]
