-- ===== src/Serializer/Incremental.antt =====
-- The request parser on a stream that arrives in pieces.
use local_cache_service.Base.{
  ℕ, ◌+◌, ◌≤◌, ◌<◌, ◌≡◌, ◌≢◌, ◌⊎◌, inl, inr, refl, sym, ap, ◌∙◌, [], ◌∷◌, ◌++◌, Bytes, min, arith,
  length, none, some, Option, append-nil, length-append, add64,
}
use local_cache_service.Protocol
use local_cache_service.Protocol.{
  Header, Request, Limits, Opcode, ParseResult, complete, need_more, malformed, as_opcode,
  max_frame_bytes,
}
use local_cache_service.Serializer.Frames.{
  decode_common_header, Decoded, wrong, none_wrong, serialize_request, request_payload,
  request_checks, with_opcode, request_behind, deserialize_request, effective_limit,
}
use local_cache_service.Serializer.Requests.{
  IsRequest, serialize_request-header_bytes, deserialize-serialize, deserialize_request-append,
}
use local_cache_service.Serializer.Reading.{complete-IsRead}

pub length-serialize_request :
    (r : Request) → length (serialize_request r) ≡ 24 + length r.key + length r.value
length-serialize_request r =
    omega (arith, ap length (serialize_request-header_bytes r), length-append r.key r.value)

waits_or_not : (p : ParseResult Request) → (p ≡ need_more) ⊎ (p ≢ need_more)
waits_or_not need_more = inl refl
waits_or_not (complete r n) = inr (λ h. cc)
waits_or_not (malformed e) = inr (λ h. cc)

-- On every proper prefix of a serialized request within the limits, deserialize_request asks for
-- more bytes.
pub deserialize_request_truncated :
    (limits : Limits) (r : Request) (x : ℕ) (front back : Bytes)
    → IsRequest limits r
    → serialize_request r ≡ front ++ (x ∷ back)
    → deserialize_request front limits ≡ need_more
deserialize_request_truncated limits r x front back v e =
    let whole : deserialize_request (front ++ (x ∷ back)) limits
        ≡ complete r (24 + length r.key + length r.value) =
      rw (append-nil, e) at (deserialize-serialize limits r v []) in
    elim (waits_or_not (deserialize_request front limits)) [
      | inl waits ↦ waits
      | inr answers ↦
          let same = deserialize_request-append limits front (x ∷ back) answers in
          let (h, d) =
            complete-IsRead limits front r (24 + length r.key + length r.value)
              (sym same ∙ whole) in
          absurd (
            omega (
              arith,
              d.enough,
              length-serialize_request r,
              ap length e,
              length-append front (x ∷ back),
            ))
    ]

module _ (limits : Limits) (input : Bytes) where
  checks_wait :
      (h : Header) (o : Opcode)
      → 24 ≤ length input
      → request_checks input limits h o ≡ need_more
      → length input
        < 24
          + min limits.max_key_bytes Protocol.max_key_bytes
          + min limits.max_value_bytes Protocol.max_value_bytes
  unfolding request_checks request_payload effective_limit add64
  checks_wait h o long e = ground arith

  opcode_wait :
      (h : Header) (m : Option Opcode)
      → 24 ≤ length input
      → with_opcode m (request_checks input limits h) ≡ need_more
      → length input
        < 24
          + min limits.max_key_bytes Protocol.max_key_bytes
          + min limits.max_value_bytes Protocol.max_value_bytes
  opcode_wait h none long e = cc
  opcode_wait h (some o) long e = checks_wait h o long e

  behind_wait :
      (d : Decoded)
      → 24 ≤ length input
      → request_behind input limits d ≡ need_more
      → length input
        < 24
          + min limits.max_key_bytes Protocol.max_key_bytes
          + min limits.max_value_bytes Protocol.max_value_bytes
  unfolding request_behind
  behind_wait (wrong x) long e = cc
  behind_wait (none_wrong h) long e = opcode_wait h (as_opcode h.opcode) long e

  -- When deserialize_request waits for more bytes under a positive limit on keys, the buffer is
  -- shorter than a header with a largest key and a largest value under the effective limits, and
  -- shorter than max_frame_bytes.
  pub need_more_bounded :
      0 < limits.max_key_bytes
      → deserialize_request input limits ≡ need_more
      → (length input
          < 24
            + min limits.max_key_bytes Protocol.max_key_bytes
            + min limits.max_value_bytes Protocol.max_value_bytes)
        × (length input < max_frame_bytes)
  unfolding deserialize_request
  need_more_bounded pos e = ground (arith, behind_wait (decode_common_header input))
