-- ===== src/Client/Outcomes.antt =====
-- `execute`: what every outcome says, and the exchange that succeeds.
use local_cache_service.Base.{
  ℕ, ◌≡◌, ◌⊎◌, inl, inr, refl, ap, subst, List, [], ◌∷◌, ◌++◌, arith, Option, some, none, Bool,
  true, false, if◌then◌else◌, ◌==◌, Bytes, Bool-cases,
}
use local_cache_service.Protocol.{
  Opcode, Response, ParseResult, complete, need_more, malformed, raw_opcode, as_opcode,
}
use local_cache_service.Protocol.Facts.{as_opcode-raw_opcode}
use local_cache_service.Connection.Defs.{Recv, received, end_of_stream, interrupted, again, failed}
use local_cache_service.Client.Defs.{
  Client, ClientError, Received, response, error, correlated, on_parse, receive_response,
  disconnect, correlation_failure, opcode_mismatch, malformed_frame, server_closed,
  receive_timed_out, recv_failed,
}

-- The errors after which the stream is given up.
abbrev pub gives_up : Option ClientError → Bool
gives_up (some (malformed_frame e)) = true
gives_up (some server_closed) = true
gives_up (some receive_timed_out) = true
gives_up (some recv_failed) = true
gives_up e = false

abbrev pub error_of : Received → Option ClientError
error_of (response r) = none
error_of (error e) = some e

-- A response that is returned answers the request.
abbrev pub Matches : ℕ → Opcode → Received → Type 0
Matches id opcode (response r) = (r.request_id ≡ id) × (r.opcode ≡ opcode)
Matches id opcode (error e) = Unit {0}

pub record IsReceived (c : Client) (id : ℕ) (opcode : Opcode) (c' : Client) (r : Received)
    : Type 0 where
  pub connected : c'.connected ≡ (if gives_up (error_of r) then false else c.connected)
  pub next_request_id : c'.next_request_id ≡ c.next_request_id
  pub answers : Matches id opcode r

raw_opcode-injective : (a b : Opcode) → raw_opcode a ≡ raw_opcode b → a ≡ b
raw_opcode-injective a b h = cc (as_opcode-raw_opcode a, as_opcode-raw_opcode b, ap as_opcode h)

same_opcode : (a b : Opcode) → (raw_opcode a == raw_opcode b) ≡ true → a ≡ b
same_opcode a b h = raw_opcode-injective a b (ground (arith, h))

correlated_cases :
    (id : ℕ) (opcode : Opcode) (r : Response)
    → ((correlated id opcode r ≡ response r) × ((r.request_id ≡ id) × (r.opcode ≡ opcode)))
      ⊎ ((e : ClientError) × (correlated id opcode r ≡ error e) × (gives_up (some e) ≡ false))
unfolding correlated
correlated_cases id opcode r = elim (Bool-cases (r.request_id == id)) [
  | inr other ↦ inr (correlation_failure id r.request_id, ground (arith, other), refl)
  | inl same ↦ elim (Bool-cases (raw_opcode r.opcode == raw_opcode opcode)) [
    | inr other ↦ inr (opcode_mismatch opcode r.opcode, ground (arith, same, other), refl)
    | inl same' ↦
        inl (ground (arith, same, same'), (ground (arith, same), same_opcode r.opcode opcode same'))
  ]
]

module _ (id : ℕ) (opcode : Opcode) where
  received-eq :
      {c d c' : Client} {x r : Received}
      → ◌≡◌ {A = Option (Client × Received)} (some (d, x)) (some (c', r))
      → IsReceived c id opcode d x
      → IsReceived c id opcode c' r
  received-eq {c} {d} {c'} {x} {r} h f =
      let same : ◌≡◌ {A = Client × Received} (d, x) (c', r) = cc in
      subst (λ (p : Client × Received). IsReceived c id opcode p.0 p.1) same f

  dropped-IsReceived :
      (c : Client) (e : ClientError)
      → gives_up (some e) ≡ true
      → IsReceived c id opcode (disconnect c) (error e)
  unfolding disconnect
  dropped-IsReceived c e h = record { connected = rw h; next_request_id = refl; answers = tt }

  found-IsReceived :
      (c : Client) (b : Bytes) (out : Response)
      → IsReceived c id opcode (record c { in_buf = b }) (correlated id opcode out)
  found-IsReceived c b out = elim (correlated_cases id opcode out) [
    | inl (e, m) ↦ rw e (record { connected = refl; next_request_id = refl; answers = m })
    | inr (x, e, k) ↦ rw e (record { connected = rw k; next_request_id = refl; answers = tt })
  ]

  parse-IsReceived :
      (c : Client) (p : ParseResult Response) (read : Option (Client × Received)) {c' : Client}
      {r : Received}
      → on_parse c id opcode p read ≡ some (c', r)
      → (read ≡ some (c', r) → IsReceived c id opcode c' r)
      → IsReceived c id opcode c' r
  parse-IsReceived c (complete out n) read h f = received-eq h (found-IsReceived c _ out)
  parse-IsReceived c need_more read h f = f h
  parse-IsReceived c (malformed e) read h f =
      received-eq h (dropped-IsReceived c (malformed_frame e) refl)

  none_left :
      {c' : Client} {r : Received} {P : Type 0}
      → ◌≡◌ {A = Option (Client × Received)} none (some (c', r))
      → P
  none_left h = absurd cc

  pub receive_response-IsReceived :
      (recvs : List Recv) (c : Client) {c' : Client} {r : Received}
      → receive_response c id opcode recvs ≡ some (c', r)
      → IsReceived c id opcode c' r
  unfolding receive_response
  receive_response-IsReceived [] c h = parse-IsReceived c _ _ h none_left
  receive_response-IsReceived (received first chunk ∷ recvs) c h = parse-IsReceived c _ _ h (λ k.
      let f =
        receive_response-IsReceived recvs (record c { in_buf = c.in_buf ++ (first ∷ chunk) }) k in
      record { connected = f.connected; next_request_id = f.next_request_id; answers = f.answers })
  receive_response-IsReceived (end_of_stream ∷ recvs) c h =
      parse-IsReceived c _ _ h (λ k. received-eq k (dropped-IsReceived c server_closed refl))
  receive_response-IsReceived (interrupted ∷ recvs) c h =
      parse-IsReceived c _ _ h (λ k. receive_response-IsReceived recvs c k)
  receive_response-IsReceived (again ∷ recvs) c h =
      parse-IsReceived c _ _ h (λ k. received-eq k (dropped-IsReceived c receive_timed_out refl))
  receive_response-IsReceived (failed ∷ recvs) c h =
      parse-IsReceived c _ _ h (λ k. received-eq k (dropped-IsReceived c recv_failed refl))
