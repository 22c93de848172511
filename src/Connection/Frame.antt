-- ===== src/Connection/Frame.antt =====
-- What the operations of a connection leave alone.
use local_cache_service.Base.{
  ℕ, ◌-◌, ◌≡◌, refl, ◌∙◌, subst, List, [], ◌∷◌, Option, some, none, Bool, true, false,
  if◌then◌else◌, ltb, leb, min, Bytes, length, Bool-cases, inl, inr, arith,
}
use local_cache_service.Protocol.{Request, ParseResult, complete, need_more, malformed}
use local_cache_service.Connection.Defs.{
  Connection, IoResult, Event, sends, interrupts, fails, worker, Recv, received, end_of_stream,
  interrupted, again, failed, read_some, compact_input, after_parse, next_request, finish_request,
  enqueue_unless, enqueue_response, Refilled, nothing_left, ready, swapped, refill, advance,
  and_sent, in_round, still_running, flush_output,
}

-- The same socket, open as before, and as much on the ready list.
pub record IsSame (c c' : Connection) : Type 0 where
  pub fd : c'.fd ≡ c.fd
  pub is_closed : c'.is_closed ≡ c.is_closed
  pub notify_pending : c'.notify_pending ≡ c.notify_pending

-- And the same input.
pub record IsUntouched (c c' : Connection) : Type 0 where
  pub same : IsSame c c'
  pub in_buf : c'.in_buf ≡ c.in_buf
  pub in_pos : c'.in_pos ≡ c.in_pos
  pub limits : c'.limits ≡ c.limits

pub IsUntouched-refl : (c : Connection) → IsUntouched c c
IsUntouched-refl c = record {
  same = record { fd = refl; is_closed = refl; notify_pending = refl };
  in_buf = refl;
  in_pos = refl;
  limits = refl;
}

pub IsUntouched-trans : {c d e : Connection} → IsUntouched c d → IsUntouched d e → IsUntouched c e
IsUntouched-trans x y = record {
  same = record {
    fd = y.same.fd ∙ x.same.fd;
    is_closed = y.same.is_closed ∙ x.same.is_closed;
    notify_pending = y.same.notify_pending ∙ x.same.notify_pending;
  };
  in_buf = y.in_buf ∙ x.in_buf;
  in_pos = y.in_pos ∙ x.in_pos;
  limits = y.limits ∙ x.limits;
}

pub IsSame-trans : {c d e : Connection} → IsSame c d → IsSame d e → IsSame c e
IsSame-trans x y = record {
  fd = y.fd ∙ x.fd;
  is_closed = y.is_closed ∙ x.is_closed;
  notify_pending = y.notify_pending ∙ x.notify_pending;
}

pub read_some-IsSame : (c : Connection) (r : Recv) → IsSame c (read_some c r).0
unfolding read_some
read_some-IsSame c (received first chunk) = record {
  fd = refl;
  is_closed = refl;
  notify_pending = refl;
}
read_some-IsSame c end_of_stream = record { fd = refl; is_closed = refl; notify_pending = refl }
read_some-IsSame c interrupted = record { fd = refl; is_closed = refl; notify_pending = refl }
read_some-IsSame c again = record { fd = refl; is_closed = refl; notify_pending = refl }
read_some-IsSame c failed = record { fd = refl; is_closed = refl; notify_pending = refl }

compact_input-IsSame : (c : Connection) → IsSame c (compact_input c)
unfolding compact_input
compact_input-IsSame c = record {
  fd = ground arith;
  is_closed = ground arith;
  notify_pending = ground arith;
}

after_parse-IsSame : (c : Connection) (p : ParseResult Request) → IsSame c (after_parse c p)
unfolding after_parse compact_input
after_parse-IsSame c (complete r n) = record {
  fd = ground arith;
  is_closed = ground arith;
  notify_pending = ground arith;
}
after_parse-IsSame c need_more = compact_input-IsSame c
after_parse-IsSame c (malformed e) = record { fd = refl; is_closed = refl; notify_pending = refl }

pub next_request-IsSame : (c : Connection) → IsSame c (next_request c).0
unfolding next_request
next_request-IsSame c = after_parse-IsSame c _

enqueue_unless-IsUntouched :
    (b : Bool) (c : Connection) (frame : Bytes) (completes : Bool)
    → IsUntouched c (enqueue_unless b c frame completes).0
unfolding enqueue_unless finish_request
enqueue_unless-IsUntouched true c frame true = record {
  same = record { fd = refl; is_closed = refl; notify_pending = refl };
  in_buf = refl;
  in_pos = refl;
  limits = refl;
}
enqueue_unless-IsUntouched true c frame false = IsUntouched-refl c
enqueue_unless-IsUntouched false c frame true = record {
  same = record { fd = refl; is_closed = refl; notify_pending = refl };
  in_buf = refl;
  in_pos = refl;
  limits = refl;
}
enqueue_unless-IsUntouched false c frame false = record {
  same = record { fd = refl; is_closed = refl; notify_pending = refl };
  in_buf = refl;
  in_pos = refl;
  limits = refl;
}

pub enqueue_response-IsUntouched :
    (c : Connection) (frame : Bytes) (completes : Bool)
    → IsUntouched c (enqueue_response c frame completes).0
unfolding enqueue_response
enqueue_response-IsUntouched c frame completes =
    enqueue_unless-IsUntouched c.is_closed c frame completes

abbrev Outcome : Type 0
Outcome = Connection × Bytes × IoResult

-- The connection of a refill.
data Kept (c : Connection) : Refilled → Type 0 where
  idle : (d : Connection) → IsUntouched c d → Kept c (nothing_left d)
  busy : (d : Connection) → IsUntouched c d → Kept c (ready d)

swapped-Kept : (c : Connection) (staged : Bytes) → Kept c (swapped c staged)
swapped-Kept c [] = idle _ (record {
  same = record { fd = refl; is_closed = refl; notify_pending = refl };
  in_buf = refl;
  in_pos = refl;
  limits = refl;
})
swapped-Kept c (x ∷ staged) = busy _ (record {
  same = record { fd = refl; is_closed = refl; notify_pending = refl };
  in_buf = refl;
  in_pos = refl;
  limits = refl;
})

refill-Kept : (c : Connection) → Kept c (refill c)
unfolding refill
refill-Kept c = elim (Bool-cases (leb (length c.write_buf) c.write_pos)) [
  | inl e ↦ rw e (swapped-Kept c c.staged)
  | inr e ↦ rw e (busy c (IsUntouched-refl c))
]

answer-IsUntouched :
    {c d c' : Connection} {sent sent' : Bytes} {r r' : IoResult}
    → ◌≡◌ {A = Option Outcome} (some (d, sent', r')) (some (c', sent, r))
    → IsUntouched c d
    → IsUntouched c c'
answer-IsUntouched {c} {d} {c'} h f = let same : d ≡ c' = cc in subst (IsUntouched c) same f

in_round-IsUntouched :
    {c c' : Connection} {r : Refilled} {sent : Bytes} {result : IoResult}
    (write : Connection → Option Outcome)
    → Kept c r
    → in_round r write ≡ some (c', sent, result)
    → ((d : Connection) → write d ≡ some (c', sent, result) → IsUntouched d c')
    → IsUntouched c c'
in_round-IsUntouched write (idle d k) e f = answer-IsUntouched e k
in_round-IsUntouched write (busy d k) e f = IsUntouched-trans k (f d e)

and_sent-IsUntouched :
    {d c' : Connection} {sent : Bytes} {result : IoResult} (bytes : Bytes) (o : Option Outcome)
    → and_sent bytes o ≡ some (c', sent, result)
    → ((more : Bytes) → o ≡ some (c', more, result) → IsUntouched d c')
    → IsUntouched d c'
and_sent-IsUntouched bytes none e f = absurd cc
and_sent-IsUntouched bytes (some (c, more, r)) e f = f more cc

sends_some :
    {d c' : Connection} {sent : Bytes} {result : IoResult} (n : ℕ) (bytes : Bytes)
    (o : Option Outcome)
    → (if ltb 0 n then and_sent bytes o else some (d, [], IoResult.error)) ≡ some (c', sent, result)
    → ((more : Bytes) → o ≡ some (c', more, result) → IsUntouched d c')
    → IsUntouched d c'
sends_some {d} {c'} {sent} {result} n bytes o e f = elim (Bool-cases (ltb 0 n)) [
  | inl h ↦
      and_sent-IsUntouched {d = d} {c' = c'} {sent = sent} {result = result} bytes o
        (ground (arith, h, e)) f
  | inr h ↦
      let same : ◌≡◌ {A = Option Outcome} (some (d, [], IoResult.error)) (some (c', sent, result)) =
        ground (arith, h, e) in
      answer-IsUntouched same (IsUntouched-refl d)
]

advance-IsUntouched : (c : Connection) (n : ℕ) → IsUntouched c (advance c n)
unfolding advance
advance-IsUntouched c n = record {
  same = record { fd = refl; is_closed = refl; notify_pending = refl };
  in_buf = refl;
  in_pos = refl;
  limits = refl;
}

pub flush_output-IsUntouched :
    (events : List Event) (c : Connection) {c' : Connection} {sent : Bytes} {result : IoResult}
    → flush_output c events ≡ some (c', sent, result)
    → IsUntouched c c'
unfolding flush_output
flush_output-IsUntouched [] c e =
    in_round-IsUntouched still_running (refill-Kept c) e (λ d f. absurd cc)
flush_output-IsUntouched (worker frame completes ∷ events) c e =
    IsUntouched-trans (enqueue_response-IsUntouched c frame completes)
      (flush_output-IsUntouched events (enqueue_response c frame completes).0 e)
flush_output-IsUntouched (sends given ∷ events) c e =
    in_round-IsUntouched _ (refill-Kept c) e (λ d f.
      let n = min given (length d.write_buf - d.write_pos) in
      sends_some n _ _ f (λ more g.
        IsUntouched-trans (advance-IsUntouched d n)
          (flush_output-IsUntouched events (advance d n) g)))
flush_output-IsUntouched (interrupts ∷ events) c e =
    in_round-IsUntouched _ (refill-Kept c) e (λ d f. flush_output-IsUntouched events d f)
flush_output-IsUntouched (Event.would_block ∷ events) c e =
    in_round-IsUntouched _ (refill-Kept c) e (λ d f. answer-IsUntouched f (IsUntouched-refl d))
flush_output-IsUntouched (fails ∷ events) c e =
    in_round-IsUntouched _ (refill-Kept c) e (λ d f. answer-IsUntouched f (IsUntouched-refl d))
