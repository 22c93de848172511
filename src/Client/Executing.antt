-- ===== src/Client/Executing.antt =====
-- `execute` on every branch, and the exchange that succeeds.
use local_cache_service.Base.{
  ℕ, ◌≤◌, ◌<◌, ◌≡◌, ◌≢◌, ◌⊎◌, inl, inr, refl, sym, ap, ap₂, subst, ◌∙◌, List, [], ◌++◌, map, arith,
  Option, some, none, true, false, if◌then◌else◌, ltb, Bytes, length, add64, All, Bool-cases,
}
use local_cache_service.Protocol
use local_cache_service.Protocol.{Opcode, Status, Request, Response}
use local_cache_service.Serializer.Frames.{serialize_request, serialize_response}
use local_cache_service.Serializer.Responses.{IsResponse}
use local_cache_service.Connection.Defs.{Recv}
use local_cache_service.Client.Defs.{
  Client, CacheResult, ClientError, Send, Received, response, error, client_limits,
  receive_response, result_of, failure, after_send, received_result, request_of, execute, send_all,
  sends, send_timed_out, send_failed, not_connected, key_too_large, value_too_large,
}
use local_cache_service.Client.Receiving.{Arrival, answers, arrived, receive_response-IsFound}
use local_cache_service.Client.Sending.{Outcome, IsSent, send_all-IsSent, send_all_completes}
use local_cache_service.Client.Outcomes.{
  gives_up, error_of, IsReceived, receive_response-IsReceived,
}

abbrev Executed : Type 0
Executed = Client × Bytes × CacheResult

-- The two ways of an error apart: the client gives the stream up, or keeps the connection that it had.
pub record IsExecuted (c : Client) (opcode : Opcode) (key value : Bytes) (c' : Client)
    (sent : Bytes) (result : CacheResult) : Type 0 where
  pub connected : c'.connected ≡ (if gives_up result.error then false else c.connected)
  pub next_request_id :
      ((sent ≡ []) × (c'.next_request_id ≡ c.next_request_id))
      ⊎ (c'.next_request_id ≡ add64 c.next_request_id 1)
  pub unsent : Bytes
  pub front : serialize_request (request_of c opcode key value) ≡ sent ++ unsent
  pub whole : (unsent ≡ []) ⊎ (result.error ≢ none)
  pub failed :
      (result.error ≡ none) ⊎ ((result.status ≡ Status.internal_error) × (result.value ≡ []))

kept_alive :
    (e : Option ClientError)
    → (e ≡ none) ⊎ ((e ≡ some send_timed_out) ⊎ (e ≡ some send_failed))
    → gives_up e ≡ false
kept_alive e (inl h) = rw h
kept_alive e (inr (inl h)) = rw h
kept_alive e (inr (inr h)) = rw h

error_of-result_of : (r : Received) → (result_of r).error ≡ error_of r
error_of-result_of (response r) = refl
error_of-result_of (error e) = refl

result_of_failed :
    (r : Received)
    → ((result_of r).error ≡ none)
      ⊎ (((result_of r).status ≡ Status.internal_error) × ((result_of r).value ≡ []))
result_of_failed (response r) = inl refl
result_of_failed (error e) = inr (refl, refl)

module _ (c : Client) (opcode : Opcode) (key value : Bytes) where
  executed-eq :
      {d c' : Client} {sent sent' : Bytes} {x result : CacheResult}
      → ◌≡◌ {A = Option Executed} (some (d, sent', x)) (some (c', sent, result))
      → IsExecuted c opcode key value d sent' x
      → IsExecuted c opcode key value c' sent result
  executed-eq {d} {c'} {sent} {sent'} {x} {result} h f =
      let same : ◌≡◌ {A = Executed} (d, sent', x) (c', sent, result) = cc in
      subst (λ (p : Executed). IsExecuted c opcode key value p.0 p.1 p.2) same f

  refused-IsExecuted :
      (e : ClientError) → gives_up (some e) ≡ false → IsExecuted c opcode key value c [] (failure e)
  refused-IsExecuted e h = record {
    connected = rw h;
    next_request_id = inl (refl, refl);
    unsent = serialize_request (request_of c opcode key value);
    front = refl;
    whole = inr (λ k. cc);
    failed = inr (refl, refl);
  }

  -- the client that `execute` goes on with
  abbrev sending : Bytes → Client
  sending frame = record c { next_request_id = add64 c.next_request_id 1; out_buf = frame }

  received-IsExecuted :
      (frame sent : Bytes) (o : Option (Client × Received)) {c' : Client} {sent' : Bytes}
      {result : CacheResult}
      → IsSent (serialize_request (request_of c opcode key value)) sent none
      → received_result sent o ≡ some (c', sent', result)
      → ((d : Client) (r : Received)
          → o ≡ some (d, r)
          → IsReceived (sending frame) c.next_request_id opcode d r)
      → IsExecuted c opcode key value c' sent' result
  received-IsExecuted frame sent none s h f = absurd cc
  received-IsExecuted frame sent (some (d, r)) s h f =
      let g = f d r refl in
      executed-eq h (record {
        connected =
            g.connected
            ∙ ap (λ (e : Option ClientError). if gives_up e then false else c.connected)
                (sym (error_of-result_of r));
        next_request_id = inr g.next_request_id;
        unsent = s.rest;
        front = s.split;
        whole = inl (all_there s.rest s.whole);
        failed = result_of_failed r;
      })
    where
      all_there : (b : Bytes) → (b ≡ []) ⊎ (◌≢◌ {A = Option ClientError} none none) → b ≡ []
      all_there b (inl e) = e
      all_there b (inr k) = absurd (k refl)

  sent-IsExecuted :
      (frame : Bytes) (recvs : List Recv) (o : Option Outcome) {c' : Client} {sent : Bytes}
      {result : CacheResult}
      → ((bytes : Bytes) (e : Option ClientError)
          → o ≡ some (bytes, e)
          → IsSent (serialize_request (request_of c opcode key value)) bytes e)
      → after_send (sending frame) (request_of c opcode key value) recvs o ≡ some (c', sent, result)
      → IsExecuted c opcode key value c' sent result
  sent-IsExecuted frame recvs none f h = absurd cc
  sent-IsExecuted frame recvs (some (bytes, some e)) f h =
      let s = f bytes (some e) refl in
      executed-eq h (record {
        connected = rw (kept_alive (some e) s.kind);
        next_request_id = inr refl;
        unsent = s.rest;
        front = s.split;
        whole = inr (λ k. cc);
        failed = inr (refl, refl);
      })
  sent-IsExecuted frame recvs (some (bytes, none)) f h =
      received-IsExecuted frame bytes _ (f bytes none refl) h
        (λ d r e. receive_response-IsReceived c.next_request_id opcode recvs (sending frame) e)

  -- Whenever execute returns, with a response or with any error: the client is left without a
  -- connection exactly when the stream ended, failed, timed out on a read or was malformed, and
  -- otherwise keeps what it had; the bytes sent are a front part of the request frame, and all of
  -- it where there is no error; a request id is used up unless nothing was sent; and a result with
  -- an error has the initial status and value.
  pub execute-IsExecuted :
      (answers : List Send) (recvs : List Recv) {c' : Client} {sent : Bytes} {result : CacheResult}
      → execute c opcode key value answers recvs ≡ some (c', sent, result)
      → IsExecuted c opcode key value c' sent result
  unfolding execute serialize_request
  execute-IsExecuted answers recvs h = elim (Bool-cases c.connected) [
    | inr e ↦ executed-eq (ground (arith, e, h)) (refused-IsExecuted not_connected refl)
    | inl e ↦ elim (Bool-cases (ltb Protocol.max_key_bytes (length key))) [
      | inl e₁ ↦ executed-eq (ground (arith, e, e₁, h)) (refused-IsExecuted key_too_large refl)
      | inr e₁ ↦ elim (Bool-cases (ltb Protocol.max_value_bytes (length value))) [
        | inl e₂ ↦
            executed-eq (ground (arith, e, e₁, e₂, h)) (refused-IsExecuted value_too_large refl)
        | inr e₂ ↦
            let frame = serialize_request (request_of c opcode key value) in
            sent-IsExecuted frame recvs (send_all frame 0 answers)
              (λ bytes x k. send_all-IsSent frame answers 0 k) (ground (arith, e, e₁, e₂, h))
      ]
    ]
  ]

  -- A connected client whose stream carries the answer gets it.
  pub execute_answered :
      (given : List ℕ) (r : Response) (l : List Arrival) (rest : Bytes)
      → c.connected ≡ true
      → length key ≤ Protocol.max_key_bytes
      → length value ≤ Protocol.max_value_bytes
      → All (λ n. 0 < n) given
      → length (serialize_request (request_of c opcode key value)) ≤ length given
      → IsResponse client_limits r
      → r.request_id ≡ c.next_request_id
      → r.opcode ≡ opcode
      → c.in_buf ++ arrived l ≡ serialize_response r ++ rest
      → (c' : Client) × (unread : List Arrival) × (execute c opcode key value
            (map sends given)
            (answers l)
          ≡ some (
            c',
            serialize_request (request_of c opcode key value),
            record { status = r.status; value = r.value; error = none },
          ))
        × (c'.in_buf ++ arrived unread ≡ rest)
        × (c'.connected ≡ true)
        × (c'.next_request_id ≡ add64 c.next_request_id 1)
  unfolding execute serialize_request
  execute_answered given r l rest up k x positive enough v id op stream =
      let frame = serialize_request (request_of c opcode key value) in
      let d = sending frame in
      let sent = send_all_completes frame given 0 positive (omega arith) in
      let f = receive_response-IsFound r v l d rest stream in
      let got : receive_response d c.next_request_id opcode (answers l)
          ≡ some (f.client, response r) =
        ap₂ (λ (i : ℕ) (o : Opcode). receive_response d i o (answers l)) (sym id) (sym op)
        ∙ f.outcome in
      (
        f.client,
        f.unread,
        ground (arith, up, sent, got),
        f.behind,
        ap (λ (e : Client). e.connected) f.kept ∙ up,
        ap (λ (e : Client). e.next_request_id) f.kept,
      )
