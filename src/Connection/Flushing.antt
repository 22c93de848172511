-- ===== src/Connection/Flushing.antt =====
-- `flush_output` against any answers of the kernel, while workers stage responses.
use local_cache_service.Base.{
  ℕ, ◌+◌, ◌-◌, ◌≤◌, ◌<◌, ◌≡◌, ◌≢◌, ◌⊎◌, inl, inr, refl, sym, ap, subst, ◌∙◌, List, [], ◌∷◌, ◌++◌,
  append-nil, arith, Option, some, none, Bool, Bool-cases, if◌then◌else◌, ltb, Bytes, length, take,
  drop, u64_mod, min, length-append,
}
use local_cache_service.Connection.Defs.{
  Connection, IoResult, Event, sends, interrupts, fails, worker, Refilled, advance, and_sent,
  in_round, still_running, flush_output, enqueue_unless, enqueue_response,
}
use local_cache_service.Connection.Output.{
  unsent, IsOutput, IsKept, Round, idle, busy, refill-Round, advance-IsKept, accepted,
  enqueue_unless-IsKept, IsKept-trans,
}

-- The bytes that the workers stage in the events.
abbrev pub staged_by : Bool → List Event → Bytes
staged_by b [] = []
staged_by b (worker frame completes ∷ events) = accepted b frame ++ staged_by b events
staged_by b (sends n ∷ events) = staged_by b events
staged_by b (interrupts ∷ events) = staged_by b events
staged_by b (Event.would_block ∷ events) = staged_by b events
staged_by b (fails ∷ events) = staged_by b events

-- What a run of `flush_output` leaves, the events `front` being those that it has met: what it sent and
-- what is unsent, one after the other, are what was unsent and what the workers staged meanwhile.
pub record IsFlushed (c : Connection) (events : List Event) (c' : Connection) (sent : Bytes)
    (result : IoResult) : Type 0 where
  pub front : List Event
  pub back : List Event
  pub split : events ≡ front ++ back
  pub kept : IsKept c c' sent (staged_by c.is_closed front)
  pub drained : (unsent c' ≡ []) ⊎ (result ≢ IoResult.ok)

staged_by-cons :
    (b : Bool) (e : Event) (events : List Event)
    → staged_by b (e ∷ events) ≡ staged_by b (e ∷ []) ++ staged_by b events
staged_by-cons b (worker frame completes) events =
    ap (λ x. x ++ staged_by b events) (sym (append-nil (accepted b frame)))
staged_by-cons b (sends n) events = refl
staged_by-cons b interrupts events = refl
staged_by-cons b Event.would_block events = refl
staged_by-cons b fails events = refl

IsFlushed-stop :
    {c d : Connection} {events : List Event} {result : IoResult}
    → IsKept c d [] []
    → (unsent d ≡ []) ⊎ (result ≢ IoResult.ok)
    → IsFlushed c events d [] result
IsFlushed-stop {events} k h = record {
  front = [];
  back = events;
  split = refl;
  kept = k;
  drained = h;
}

IsFlushed-step :
    {c d c' : Connection} {events : List Event} {sent sent' : Bytes} {result : IoResult} (e : Event)
    → IsKept c d sent (staged_by c.is_closed (e ∷ []))
    → IsFlushed d events c' sent' result
    → IsFlushed c (e ∷ events) c' (sent ++ sent') result
IsFlushed-step {c} {d} {c'} {sent} {sent'} e k f = record {
  front = e ∷ f.front;
  back = f.back;
  split = ap (◌∷◌ e) f.split;
  kept =
      subst (IsKept c c' (sent ++ sent'))
        (ap (λ b. staged_by c.is_closed (e ∷ []) ++ staged_by b f.front) k.same
          ∙ sym (staged_by-cons c.is_closed e f.front))
        (IsKept-trans k f.kept);
  drained = f.drained;
}

IsFlushed-answer :
    {c d c' : Connection} {sent sent' : Bytes} {result result' : IoResult} {events : List Event}
    → ◌≡◌ {A = Option (Connection × Bytes × IoResult)}
        (some (d, sent', result'))
        (some (c', sent, result))
    → IsFlushed c events d sent' result'
    → IsFlushed c events c' sent result
IsFlushed-answer {c} {d} {c'} {sent} {sent'} {result} {result'} {events} e f =
    let same : ◌≡◌ {A = Connection × Bytes × IoResult} (d, sent', result') (c', sent, result) =
      cc in
    subst (λ (t : Connection × Bytes × IoResult). IsFlushed c events t.0 t.1 t.2) same f

-- A round that is idle ends the run; the other is followed by what it writes.
in_round-IsFlushed :
    {c c' : Connection} {r : Refilled} {sent : Bytes} {result : IoResult} {events : List Event}
    (write : Connection → Option (Connection × Bytes × IoResult))
    → Round c r
    → in_round r write ≡ some (c', sent, result)
    → ((d : Connection)
        → IsKept c d [] []
        → d.write_pos < length d.write_buf
        → write d ≡ some (c', sent, result)
        → IsFlushed c events c' sent result)
    → IsFlushed c events c' sent result
in_round-IsFlushed write (idle d k empty) e f = IsFlushed-answer e (IsFlushed-stop k (inl empty))
in_round-IsFlushed write (busy d k h) e f = f d k h e

and_sent-some :
    (bytes : Bytes) (o : Option (Connection × Bytes × IoResult)) {c' : Connection} {sent : Bytes}
    {result : IoResult}
    → and_sent bytes o ≡ some (c', sent, result)
    → (rest : Bytes) × (o ≡ some (c', rest, result)) × (sent ≡ bytes ++ rest)
and_sent-some bytes none e = cc
and_sent-some bytes (some (d, rest, r)) e = (rest, cc, cc)

not_running : {x : Connection × Bytes × IoResult} → none ≡ some x → ⊥
not_running e = cc

module _ {c c' : Connection} {sent : Bytes} {result : IoResult} {events : List Event} where
  write_stops :
      (d : Connection) (r : IoResult)
      → IsKept c d [] []
      → r ≢ IoResult.ok
      → ◌≡◌ {A = Option (Connection × Bytes × IoResult)} (some (d, [], r)) (some (c', sent, result))
      → IsFlushed c events c' sent result
  write_stops d r k h e = IsFlushed-answer e (IsFlushed-stop k (inr h))

  -- A write of some bytes, with the run behind it.
  write_some :
      (d : Connection) (n : ℕ) (rest : Option (Connection × Bytes × IoResult))
      → IsKept c d [] []
      → n ≤ length d.write_buf - d.write_pos
      → ((more : Bytes)
          → rest ≡ some (c', more, result)
          → IsOutput (advance d n)
          → length (unsent (advance d n)) ≤ length (unsent c)
          → IsFlushed (advance d n) events c' more result)
      → (if ltb 0 n
          then and_sent (take n (drop d.write_pos d.write_buf)) rest
          else some (d, [], IoResult.error))
        ≡ some (c', sent, result)
      → (given : ℕ) → IsFlushed c (sends given ∷ events) c' sent result
  write_some d n rest k h continue e given = elim (Bool-cases (ltb 0 n)) [
    | inl positive ↦
        let bytes = take n (drop d.write_pos d.write_buf) in
        let (more, run, sent_is) = and_sent-some bytes rest (ground (arith, positive, e)) in
        let step = IsKept-trans k (advance-IsKept d n k.output h) in
        let smaller : length (unsent (advance d n)) ≤ length (unsent c) = omega (
          arith,
          ap length step.conserved,
          length-append bytes (unsent (advance d n)),
          ap length (append-nil (unsent c)),
        ) in
        subst (λ (x : Bytes). IsFlushed c (sends given ∷ events) c' x result) (sym sent_is)
          (IsFlushed-step (sends given) step (continue more run step.output smaller))
    | inr zero_bytes ↦
        let f : ◌≡◌ {A = Option (Connection × Bytes × IoResult)} (some (d, [], IoResult.error))
            (some (c', sent, result)) =
          ground (arith, zero_bytes, e) in
        IsFlushed-answer f (IsFlushed-stop k (inr (λ h. cc)))
  ]

-- When flush_output returns on a well-formed output side whose bytes a machine can count, whatever
-- the kernel answered and the workers staged between its rounds, the bytes sent and those unsent
-- are those that were unsent followed by those staged before it returned; the backlog counter is
-- the number of unsent bytes, and kOk leaves none.
pub flush_output-IsFlushed :
    (events : List Event) (c : Connection) {c' : Connection} {sent : Bytes} {result : IoResult}
    → IsOutput c
    → length (unsent c) + length (staged_by c.is_closed events) < u64_mod
    → flush_output c events ≡ some (c', sent, result)
    → IsFlushed c events c' sent result
unfolding flush_output enqueue_response advance
flush_output-IsFlushed [] c v h e =
    in_round-IsFlushed still_running (refill-Round c v) e (λ d k p f. absurd (not_running f))
flush_output-IsFlushed (worker frame completes ∷ events) c v h e =
    let size = length-append (accepted c.is_closed frame) (staged_by c.is_closed events) in
    let k = enqueue_unless-IsKept c.is_closed c frame completes v (omega (arith, size)) in
    let (d, _) = enqueue_unless c.is_closed c frame completes in
    let k' : IsKept c d [] (staged_by c.is_closed (worker frame completes ∷ [])) =
      subst (IsKept c d []) (sym (append-nil (accepted c.is_closed frame))) k in
    IsFlushed-step (worker frame completes) k' (
      flush_output-IsFlushed events d k.output
        (rw k.same (
          omega (
            arith,
            size,
            ap length k.conserved,
            length-append (unsent c) (accepted c.is_closed frame),
          )))
        e)
flush_output-IsFlushed (sends given ∷ events) c v h e =
    in_round-IsFlushed _ (refill-Round c v) e (λ d k p f.
      write_some d (min given (length d.write_buf - d.write_pos)) _ k (omega arith)
        (λ more run out small. flush_output-IsFlushed events _ out (rw k.same (omega arith)) run) f
        given)
flush_output-IsFlushed (interrupts ∷ events) c v h e =
    in_round-IsFlushed _ (refill-Round c v) e (λ d k p f. IsFlushed-step interrupts k (
      flush_output-IsFlushed events d k.output
        (rw k.same (omega (arith, ap length k.conserved, ap length (append-nil (unsent c))))) f))
flush_output-IsFlushed (Event.would_block ∷ events) c v h e =
    in_round-IsFlushed _ (refill-Round c v) e
      (λ d k p f. write_stops d IoResult.would_block k (λ h. cc) f)
flush_output-IsFlushed (fails ∷ events) c v h e =
    in_round-IsFlushed _ (refill-Round c v) e
      (λ d k p f. write_stops d IoResult.error k (λ h. cc) f)
