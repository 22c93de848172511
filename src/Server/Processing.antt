-- ===== src/Server/Processing.antt =====
-- The loop of `process_input` ends.
use local_cache_service.Base.{
  ℕ, zero, suc, ◌≤◌, ◌<◌, ◌≡◌, refl, sym, ap, ◌∙◌, ◌++◌, Option, some, ◌>>=◌, Bool, true, false,
  if◌then◌else◌, arith, length, length-append, length-drop,
}
use local_cache_service.Protocol.{Request, Status, ParseResult, complete, need_more, malformed}
use local_cache_service.Serializer.Frames.{serialize_request, deserialize_request}
use local_cache_service.Serializer.Requests.{serialize_request-header_bytes}
use local_cache_service.Stats.{record_request, record_rejected}
use local_cache_service.Connection.Defs.{
  Connection, IoResult, after_parse, next_request, note_request_submitted, enqueue_response,
  inflight_limit_reached,
}
use local_cache_service.Connection.Frame.{enqueue_response-IsUntouched}
use local_cache_service.Connection.Input.{IsInput, unread, delivered, after_parse-IsCut}
use local_cache_service.WorkerPool.Defs.{try_submit}
use local_cache_service.Server.Defs.{
  Server, put, update, count, close_connection, short_response, reject, submit, go_on, on_parsed,
  process_input,
}
use local_cache_service.Server.Loop.{Progress, after_input, after_read}

-- The result is there.
abbrev Returns {ℓ} : {A : Type ℓ} → Option A → Type ℓ
Returns {A = A} o = (a : A) × (o ≡ some a)

-- The input of the connection is what it was.
record IsUnread (c c' : Connection) : Type 0 where
  in_buf : c'.in_buf ≡ c.in_buf
  in_pos : c'.in_pos ≡ c.in_pos

update_same : (objects : ℕ → Connection) (id : ℕ) (c : Connection) → update objects id c id ≡ c
update_same objects id c = ground arith

abbrev IsTaken : Server → ℕ → Server × Bool → Type 0
IsTaken s id r = (r.1 ≡ true) → IsUnread (s.objects id) (r.0.objects id)

IsTaken-if :
    (s : Server) (id : ℕ) (b : Bool) (x y : Server × Bool)
    → IsTaken s id x
    → IsTaken s id y
    → IsTaken s id (if b then x else y)
IsTaken-if s id true x y v w = v
IsTaken-if s id false x y v w = w

lost-IsTaken : (s t : Server) (id : ℕ) → IsTaken s id (t, false)
lost-IsTaken s t id e = absurd cc

written-IsUnread :
    (c d : Connection) (objects : ℕ → Connection) (id : ℕ)
    → d.in_buf ≡ c.in_buf
    → d.in_pos ≡ c.in_pos
    → IsUnread c (update objects id d id)
written-IsUnread c d objects id b n =
    rw (update_same objects id d) (record { in_buf = b; in_pos = n })

reject-IsTaken :
    (s t : Server) (id : ℕ) (request : Request)
    → IsUnread (s.objects id) (t.objects id)
    → IsTaken s id (reject t id request)
unfolding reject
reject-IsTaken s t id request v =
    let frame = short_response request.opcode Status.server_busy request.request_id in
    let h = enqueue_response-IsUntouched (t.objects id) frame true in
    let r = enqueue_response (t.objects id) frame true in
    let t₁ = put (count t record_rejected) id r.0 in
    IsTaken-if s id r.1 (t₁, true) (close_connection t₁ id, false)
      (λ e.
        written-IsUnread (s.objects id) r.0 t.objects id (h.in_buf ∙ v.in_buf)
          (h.in_pos ∙ v.in_pos))
      (lost-IsTaken s (close_connection t₁ id) id)

submit-IsTaken : (s : Server) (id : ℕ) (request : Request) → IsTaken s id (submit s id request)
unfolding submit note_request_submitted
submit-IsTaken s id request =
    let c = note_request_submitted (s.objects id) in
    let t = put (count s record_request) id c in
    let submitted = try_submit t.pool (record { connection = id; request = request }) in
    let u = written-IsUnread (s.objects id) c s.objects id refl refl in
    IsTaken-if s id submitted.1 (record t { pool = submitted.0 }, true) (reject t id request)
      (λ e. u) (reject-IsTaken s t id request u)

length-serialize_request : (r : Request) → 24 ≤ length (serialize_request r)
length-serialize_request r = omega (arith, ap length (serialize_request-header_bytes r))

abbrev IsFrom : ℕ → ℕ → Server → Type 0
IsFrom id fuel s = IsInput (s.objects id) × (length (unread (s.objects id)) < fuel)

unread-IsFrom :
    (s t : Server) (id fuel : ℕ)
    → IsUnread (s.objects id) (t.objects id)
    → IsFrom id fuel s
    → IsFrom id fuel t
unread-IsFrom s t id fuel u (v, h) = (
  record {
    position = rw (u.in_buf, u.in_pos) v.position;
    size = rw u.in_buf v.size;
    bytes = rw u.in_buf v.bytes;
  },
  rw (u.in_buf, u.in_pos) h,
)

go_on-Returns :
    (s : Server) (id fuel : ℕ) (r : Server × Bool) (again : Server → Option (Server × Bool))
    → IsTaken s id r
    → IsFrom id fuel s
    → ((t : Server) → IsFrom id fuel t → Returns (again t))
    → Returns (go_on r again)
go_on-Returns s id fuel (t, true) again u v f = f t (unread-IsFrom s t id fuel (u refl) v)
go_on-Returns s id fuel (t, false) again u v f = ((t, false), refl)

on_parsed-Returns :
    (s : Server) (id fuel : ℕ) (p : ParseResult Request) (again : Server → Option (Server × Bool))
    → ((r : Request) (n : ℕ) → p ≡ complete r n → IsFrom id fuel s)
    → ((t : Server) → IsFrom id fuel t → Returns (again t))
    → Returns (on_parsed s id p again)
unfolding on_parsed
on_parsed-Returns s id fuel need_more again v f = ((s, true), refl)
on_parsed-Returns s id fuel (malformed e) again v f = (_, refl)
on_parsed-Returns s id fuel (complete r n) again v f =
    go_on-Returns s id fuel (submit s id r) again (submit-IsTaken s id r) (v r n refl) f

next_request-IsFrom :
    (s : Server) (id fuel : ℕ) (r : Request) (n : ℕ)
    → IsFrom id (suc fuel) s
    → (next_request (s.objects id)).1 ≡ complete r n
    → IsFrom id fuel (put s id (next_request (s.objects id)).0)
unfolding next_request
next_request-IsFrom s id fuel r n (v, h) e =
    let c = s.objects id in
    let p = deserialize_request (unread c) c.limits.protocol_limits in
    let (cut, rest) = after_parse-IsCut c p v refl in
    let same = update_same s.objects id (after_parse c p) in
    let split : serialize_request r ++ unread (after_parse c p) ≡ unread c =
      ap (λ (q : ParseResult Request). delivered q ++ unread (after_parse c p)) (sym e) ∙ rest in
    let longer = ap length split in
    (
      rw same cut.input,
      rw same (
          omega (
            arith,
            longer,
            length-append (serialize_request r) (unread (after_parse c p)),
            length-serialize_request r,
            h,
          )),
    )

Returns-if {ℓ} :
    {A : Type ℓ} (b : Bool) (x y : Option A)
    → Returns x
    → (b ≡ false → Returns y)
    → Returns (elim b [ true ↦ x | false ↦ y ])
Returns-if true x y v w = v
Returns-if false x y v w = w refl

-- More fuel than bytes is enough.
pub process_input_returns :
    (fuel : ℕ) (s : Server) (id : ℕ)
    → IsInput (s.objects id)
    → length (unread (s.objects id)) < fuel
    → (r : Server × Bool) × (process_input fuel s id ≡ some r)
unfolding process_input
process_input_returns zero s id v h = absurd (omega (arith, h))
process_input_returns (suc fuel) s id v h =
    let s₁ = put s id (next_request (s.objects id)).0 in
    let p = (next_request (s.objects id)).1 in
    Returns-if (inflight_limit_reached (s.objects id)) (some (s, true))
      (on_parsed s₁ id p (λ t. process_input fuel t id)) ((s, true), refl)
      (λ e.
        on_parsed-Returns s₁ id fuel p (λ t. process_input fuel t id)
          (λ r n k. next_request-IsFrom s id fuel r n (v, h) k)
          (λ t (w, k). process_input_returns fuel t id w k))

-- On a well-formed input buffer what follows a read ends: process_input, with one more round than
-- there are bytes in the buffer, leaves its loop.
pub after_read_returns :
    (s : Server) (id : ℕ) (result : IoResult)
    → IsInput (s.objects id)
    → (p : Progress) × (after_read s id result ≡ some p)
unfolding after_read
after_read_returns s id IoResult.ok v =
    let c = s.objects id in
    let (r, e) =
      process_input_returns (suc (length c.in_buf)) s id v
        (omega (arith, length-drop c.in_pos c.in_buf)) in
    (after_input r, ap (λ (o : Option (Server × Bool)). o >>= λ x. some (after_input x)) e)
after_read_returns s id IoResult.would_block v = (_, refl)
after_read_returns s id IoResult.closed v = (_, refl)
after_read_returns s id IoResult.error v = (_, refl)
