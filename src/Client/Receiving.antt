-- ===== src/Client/Receiving.antt =====
-- `receive_response` on a response that arrives in pieces.
use local_cache_service.Base.{
  ℕ, ◌+◌, ◌≡◌, ◌≢◌, ◌⊎◌, inl, inr, refl, sym, ap, ◌∙◌, List, [], ◌∷◌, ◌++◌, append-nil,
  append_assoc, arith, Option, some, none, Bytes, length, drop, drop-length, drop-append,
}
use local_cache_service.Protocol.{Response, ParseResult, complete, need_more, malformed}
use local_cache_service.Serializer.Frames.{serialize_response, deserialize_response}
use local_cache_service.Serializer.Responses.{
  IsResponse, deserialize_response-serialize_response, deserialize_response-append,
  serialize_response-header_bytes, deserialize_response_consumed,
}
use local_cache_service.Connection.Defs.{Recv, received, interrupted}
use local_cache_service.Client.Defs.{
  Client, Received, response, client_limits, correlated, try_parse, receive_response,
}

-- A `recv` that gives bytes, or is interrupted: the bytes that it gives.
pub data Arrival : Type 0 where
  bytes : ℕ → Bytes → Arrival
  signal : Arrival

abbrev pub answer : Arrival → Recv
answer (bytes first chunk) = received first chunk
answer signal = interrupted

abbrev pub answers : List Arrival → List Recv
answers [] = []
answers (a ∷ l) = answer a ∷ answers l

abbrev pub arrived : List Arrival → Bytes
arrived [] = []
arrived (bytes first chunk ∷ l) = (first ∷ chunk) ++ arrived l
arrived (signal ∷ l) = arrived l

waits_or_not : (p : ParseResult Response) → (p ≡ need_more) ⊎ (p ≢ need_more)
waits_or_not need_more = inl refl
waits_or_not (complete r n) = inr (λ h. cc)
waits_or_not (malformed e) = inr (λ h. cc)

correlated-response : (r : Response) → correlated r.request_id r.opcode r ≡ response r
unfolding correlated
correlated-response r = ground arith

length-serialize_response : (r : Response) → length (serialize_response r) ≡ 24 + length r.value
length-serialize_response r = ap length (serialize_response-header_bytes r) ∙ omega arith

-- The response is found, and what came behind it stays in the buffer or is not read yet.
pub record IsFound (c : Client) (r : Response) (l : List Arrival) (rest : Bytes)
    (o : Option (Client × Received)) : Type 0 where
  pub client : Client
  pub unread : List Arrival
  pub outcome : ◌≡◌ {A = Option (Client × Received)} o (some (client, response r))
  pub behind : client.in_buf ++ arrived unread ≡ rest
  pub kept : client ≡ record c { in_buf = client.in_buf }

module _ (r : Response) (v : IsResponse client_limits r) where
  -- What the parser says of a buffer that is the front of the stream.
  front_parse :
      (buffer more rest : Bytes)
      → buffer ++ more ≡ serialize_response r ++ rest
      → deserialize_response buffer client_limits ≢ need_more
      → deserialize_response buffer client_limits ≡ complete r (24 + length r.value)
  front_parse buffer more rest e h =
      sym (deserialize_response-append client_limits buffer more h)
      ∙ ap (λ b. deserialize_response b client_limits) e
      ∙ deserialize_response-serialize_response client_limits r v rest

  -- A buffer that holds the response whole.
  IsFound-now :
      (c : Client) (l : List Arrival) (rest : Bytes) (read : Option (Client × Received))
      → c.in_buf ++ arrived l ≡ serialize_response r ++ rest
      → deserialize_response c.in_buf client_limits ≢ need_more
      → IsFound c r l rest (try_parse c r.request_id r.opcode read)
  IsFound-now c l rest read e h =
      let n = 24 + length r.value in
      let parse = front_parse c.in_buf (arrived l) rest e h in
      let enough = deserialize_response_consumed client_limits c.in_buf r n parse in
      record {
        client = record c { in_buf = drop n c.in_buf };
        unread = l;
        outcome = rw (parse, correlated-response r);
        behind =
            sym (drop-append n c.in_buf (arrived l) enough)
            ∙ ap (drop n) e
            ∙ ap (λ (k : ℕ). drop k (serialize_response r ++ rest))
                (sym (length-serialize_response r))
            ∙ drop-length (serialize_response r) rest;
        kept = refl;
      }

  -- When the buffer of the client and the bytes that come, in any pieces and with any
  -- interruptions, start with the serialization of a response within the limits, receive_response
  -- for its request id and opcode returns this response, and what came behind it stays in the
  -- buffer or unread.
  pub receive_response-IsFound :
      (l : List Arrival) (c : Client) (rest : Bytes)
      → c.in_buf ++ arrived l ≡ serialize_response r ++ rest
      → IsFound c r l rest (receive_response c r.request_id r.opcode (answers l))
  unfolding receive_response
  receive_response-IsFound [] c rest e =
      elim (waits_or_not (deserialize_response c.in_buf client_limits)) [
        | inr h ↦ IsFound-now c [] rest none e h
        | inl h ↦ absurd (
            cc (
              h,
              ap (λ b. deserialize_response b client_limits) (sym (append-nil c.in_buf) ∙ e),
              deserialize_response-serialize_response client_limits r v rest,
            ))
      ]
  receive_response-IsFound (bytes first chunk ∷ l) c rest e =
      elim (waits_or_not (deserialize_response c.in_buf client_limits)) [
        | inr h ↦ IsFound-now c (bytes first chunk ∷ l) rest _ e h
        | inl h ↦
            let c₁ = record c { in_buf = c.in_buf ++ (first ∷ chunk) } in
            let f =
              receive_response-IsFound l c₁ rest
                (append_assoc c.in_buf (first ∷ chunk) (arrived l) ∙ e) in
            record {
              client = f.client;
              unread = f.unread;
              outcome = rw h f.outcome;
              behind = f.behind;
              kept = f.kept;
            }
      ]
  receive_response-IsFound (signal ∷ l) c rest e =
      elim (waits_or_not (deserialize_response c.in_buf client_limits)) [
        | inr h ↦ IsFound-now c (signal ∷ l) rest _ e h
        | inl h ↦
            let f = receive_response-IsFound l c rest e in
            record {
              client = f.client;
              unread = f.unread;
              outcome = rw h f.outcome;
              behind = f.behind;
              kept = f.kept;
            }
      ]
