-- ===== src/Server/Stalling.antt =====
-- What `drain_completions` does not do: it parses nothing and submits nothing.
use local_cache_service.Base.{
  ℕ, ◌≡◌, refl, ap, ◌∙◌, List, [], ◌∷◌, Option, none, some, Bool, not, ◌&&◌, Bool-cases, inl, inr,
  ◌==◌, arith, Bytes,
}
use local_cache_service.Connection.Events.{same_events}
use local_cache_service.Connection.Defs.{
  Connection, IoResult, Event, mark_closed, set_registered_events, clear_notified, flush_output,
  has_pending_output,
}
use local_cache_service.Connection.Frame.{flush_output-IsUntouched}
use local_cache_service.Server.Defs.{
  Server, put, update, close_connection, wanted_events, update_interest,
}
use local_cache_service.Server.Loop.{
  flush, flushed, close_or_update, settled, settle, drain_one, drain_ready, drain_completions,
}
use local_cache_service.Server.Keeping.{Ensures, Ensures-bind, Ensures-elim, ensures_some}

-- The same jobs, and the same input of each connection.
pub record IsStalled (s s' : Server) : Type 0 where
  pub pool : s'.pool ≡ s.pool
  pub in_buf : (id : ℕ) → (s'.objects id).in_buf ≡ (s.objects id).in_buf
  pub in_pos : (id : ℕ) → (s'.objects id).in_pos ≡ (s.objects id).in_pos

module _ (s : Server) where
  written-IsStalled :
      (t u : Server) (id : ℕ) (c : Connection)
      → IsStalled s t
      → u.pool ≡ t.pool
      → u.objects ≡ update t.objects id c
      → c.in_buf ≡ (t.objects id).in_buf
      → c.in_pos ≡ (t.objects id).in_pos
      → IsStalled s u
  written-IsStalled t u id c v p o b n = record {
    pool = p ∙ v.pool;
    in_buf = λ j. ap (λ (f : ℕ → Connection). (f j).in_buf) o ∙ same_buf j ∙ v.in_buf j;
    in_pos = λ j. ap (λ (f : ℕ → Connection). (f j).in_pos) o ∙ same_pos j ∙ v.in_pos j;
  }
    where
      same_buf : (j : ℕ) → (update t.objects id c j).in_buf ≡ (t.objects j).in_buf
      same_buf j = elim (Bool-cases (j == id)) [
        | inl e ↦ let same : j ≡ id = ground (arith, e) in ground (arith, e, b, same)
        | inr e ↦ rw e refl
      ]

      same_pos : (j : ℕ) → (update t.objects id c j).in_pos ≡ (t.objects j).in_pos
      same_pos j = elim (Bool-cases (j == id)) [
        | inl e ↦ let same : j ≡ id = ground (arith, e) in ground (arith, e, n, same)
        | inr e ↦ rw e refl
      ]

  close-IsStalled : (t : Server) (id : ℕ) → IsStalled s t → IsStalled s (close_connection t id)
  unfolding close_connection mark_closed
  close-IsStalled t id v = elim (Bool-cases (t.objects id).is_closed) [
    | inl e ↦ simp e v
    | inr e ↦ simp e (written-IsStalled t _ id (mark_closed (t.objects id)) v refl refl refl refl)
  ]

  update_interest-IsStalled :
      (t : Server) (id : ℕ) (modified : Bool)
      → IsStalled s t
      → IsStalled s (update_interest t id modified)
  unfolding update_interest set_registered_events
  update_interest-IsStalled t id modified v =
      let wanted = wanted_events t.draining (t.objects id) in
      elim (Bool-cases (same_events wanted (t.objects id).registered_events)) [
        | inl e ↦ simp e v
        | inr e ↦ elim (Bool-cases modified) [
          | inr f ↦ simp (e, f) (close-IsStalled t id v)
          | inl f ↦
              let c = set_registered_events (t.objects id) wanted in
              simp (e, f) (written-IsStalled t (put t id c) id c v refl refl refl refl)
        ]
      ]

  close_or_update-IsStalled :
      (t : Server) (id : ℕ) (modified : Bool)
      → IsStalled s t
      → IsStalled s (close_or_update t id modified)
  unfolding close_or_update
  close_or_update-IsStalled t id modified v =
      elim (Bool-cases
        ((t.objects id).close_after_flush && not (has_pending_output (t.objects id)))) [
          | inl e ↦ rw e (close-IsStalled t id v)
          | inr e ↦ rw e (update_interest-IsStalled t id modified v)
        ]

  settled-IsStalled :
      (id : ℕ) (modified : Bool) (r : Server × IoResult)
      → IsStalled s r.0
      → IsStalled s (settled id modified r)
  settled-IsStalled id modified (t, IoResult.error) v = close-IsStalled t id v
  settled-IsStalled id modified (t, IoResult.ok) v = close_or_update-IsStalled t id modified v
  settled-IsStalled id modified (t, IoResult.would_block) v =
      close_or_update-IsStalled t id modified v
  settled-IsStalled id modified (t, IoResult.closed) v = close_or_update-IsStalled t id modified v

  settle-IsStalled :
      (t : Server) (id : ℕ) (events : List Event) (modified : Bool)
      → IsStalled s t
      → Ensures (IsStalled s) (settle t id events modified)
  unfolding settle
  settle-IsStalled t id events modified v =
      Ensures-bind (λ (r : Server × IoResult). IsStalled s r.0) (IsStalled s) (flush t id events) _
        (flushed-IsStalled (flush_output (t.objects id) events) refl)
        (λ r w. settled-IsStalled id modified r w)
    where
      flushed-IsStalled :
          (o : Option (Connection × Bytes × IoResult))
          → flush_output (t.objects id) events ≡ o
          → Ensures (λ (r : Server × IoResult). IsStalled s r.0) (flushed t id o)
      flushed-IsStalled none e = tt
      flushed-IsStalled (some (c, sent, result)) e =
          let h = flush_output-IsUntouched events (t.objects id) e in
          written-IsStalled t (put t id c) id c v refl refl h.in_buf h.in_pos

  drain_one-IsStalled :
      (t : Server) (id : ℕ) (events : List Event) (modified : Bool)
      → IsStalled s t
      → Ensures (IsStalled s) (drain_one t id events modified)
  unfolding drain_one clear_notified
  drain_one-IsStalled t id events modified v =
      let t₁ = put t id (clear_notified (t.objects id)) in
      let w = written-IsStalled t t₁ id (clear_notified (t.objects id)) v refl refl refl refl in
      Ensures-elim (IsStalled s) (t₁.objects id).is_closed (some t₁) (settle t₁ id events modified)
        w (settle-IsStalled t₁ id events modified w)

  drain_ready-IsStalled :
      (t : Server) (ids : List ℕ) (answers : List (List Event × Bool))
      → IsStalled s t
      → Ensures (IsStalled s) (drain_ready t ids answers)
  unfolding drain_ready
  drain_ready-IsStalled t [] answers v = v
  drain_ready-IsStalled t (id ∷ ids) [] v = tt
  drain_ready-IsStalled t (id ∷ ids) ((events, modified) ∷ answers) v =
      Ensures-bind (IsStalled s) (IsStalled s) (drain_one t id events modified)
        (λ u. drain_ready u ids answers) (drain_one-IsStalled t id events modified v)
        (λ u w. drain_ready-IsStalled u ids answers w)

-- When drain_completions returns, the queue of the pool and the input buffer with its position of
-- every connection are what they were: no request is parsed and none is submitted.
pub drain_completions-IsStalled :
    (s : Server) (answers : List (List Event × Bool)) {s' : Server}
    → drain_completions s answers ≡ some s'
    → IsStalled s s'
unfolding drain_completions
drain_completions-IsStalled s answers e =
    ensures_some (IsStalled s) _ _
      (drain_ready-IsStalled s (record s { ready_connections = [] }) s.ready_connections answers
        (record { pool = refl; in_buf = λ j. refl; in_pos = λ j. refl }))
      e
