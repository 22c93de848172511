-- ===== src/Serializer/Responses.antt =====
-- Responses: what is written is read back, and what is read was written so.
use local_cache_service.Base.{
  ℕ, ◌+◌, ◌≤◌, ◌<◌, ◌≡◌, ◌≢◌, ◌⊎◌, inr, refl, ap, ◌∙◌, [], ◌++◌, Bytes, u64_mod, min, arith, length,
  drop, some, none, Option, add64, append_assoc, length-append, take-length, length-drop,
  drop-append, take-append,
}
use local_cache_service.Protocol
use local_cache_service.Protocol.{
  Header, Response, Limits, Opcode, Status, ParseResult, complete, need_more, malformed, raw_opcode,
  as_opcode, raw_status, as_status, is_valid_opcode,
}
use local_cache_service.Protocol.Facts.{as_opcode-raw_opcode, as_status-raw_status, raw_status-lt}
use local_cache_service.Serializer.Frames.{
  default_header, low32, decode_common_header, Decoded, wrong, none_wrong, append_bytes,
  serialize_response, serialize_response_into, response_payload, response_checks, with_opcode,
  response_behind, deserialize_response, effective_limit,
}
use local_cache_service.Serializer.Header.{
  IsHeader, header_bytes, encode_header-header_bytes, decode_common_header-header_bytes,
  decode_common_header-append,
}
use local_cache_service.Serializer.Requests.{is_valid_opcode-raw_opcode}

-- The responses within the limit on values.
pub record IsResponse (limits : Limits) (r : Response) : Type 0 where
  pub request_id : r.request_id < u64_mod
  pub value : length r.value ≤ min limits.max_value_bytes Protocol.max_value_bytes

abbrev pub response_header : Response → Header
response_header r = record default_header {
  opcode = raw_opcode r.opcode;
  status = raw_status r.status;
  request_id = r.request_id;
  key_len = 0;
  value_len = low32 (length r.value);
}

pub serialize_response_into-header_bytes :
    (r : Response) (out : Bytes)
    → serialize_response_into r out ≡ out ++ (header_bytes (response_header r) ++ r.value)
unfolding serialize_response_into append_bytes
serialize_response_into-header_bytes r out = rw encode_header-header_bytes (simp append_assoc)

pub serialize_response-header_bytes :
    (r : Response) → serialize_response r ≡ header_bytes (response_header r) ++ r.value
unfolding serialize_response
serialize_response-header_bytes r = serialize_response_into-header_bytes r []

decoded_response :
    (input : Bytes) (limits : Limits) (h : Header) (o : Opcode)
    → 24 ≤ length input
    → decode_common_header input ≡ none_wrong h
    → as_opcode h.opcode ≡ some o
    → deserialize_response input limits ≡ response_checks input limits h o
unfolding deserialize_response response_behind
decoded_response input limits h o long d e = ground arith

module _ (limits : Limits) (r : Response) (v : IsResponse limits r) where
  response_header-IsHeader : IsHeader (response_header r)
  response_header-IsHeader = record {
    version = refl;
    opcode = is_valid_opcode-raw_opcode r.opcode;
    flags = refl;
    status = raw_status-lt r.status;
    request_id = v.request_id;
    key_len = omega arith;
    value_len = omega arith;
  }

  response_read :
      (h : Header) (input rest : Bytes)
      → h.request_id ≡ r.request_id
      → h.status ≡ raw_status r.status
      → h.key_len ≡ 0
      → h.value_len ≡ length r.value
      → drop 24 input ≡ r.value ++ rest
      → 24 ≤ length input
      → response_checks input limits h r.opcode ≡ complete r (24 + length r.value)
  unfolding response_checks response_payload effective_limit add64
  response_read h input rest id s k x d long =
      let enough : 24 + length r.value ≤ length input =
        omega (arith, ap length d, length-drop 24 input, length-append r.value rest) in
      ground (
        arith,
        v.value,
        enough,
        id,
        s,
        k,
        x,
        d,
        as_status-raw_status r.status,
        take-length r.value rest,
      )

  -- A response within the limit on values, serialized and followed by any bytes, is read back by
  -- deserialize_response, which consumes exactly its bytes.
  pub deserialize_response-serialize_response :
      (rest : Bytes)
      → deserialize_response (serialize_response r ++ rest) limits
        ≡ complete r (24 + length r.value)
  deserialize_response-serialize_response rest =
      let h = response_header r in
      let tail = r.value ++ rest in
      let input = header_bytes h ++ tail in
      let frame : serialize_response r ++ rest ≡ input =
        rw (serialize_response-header_bytes r) (append_assoc (header_bytes h) r.value rest) in
      rw frame (
        decoded_response input limits h r.opcode (omega arith)
          (decode_common_header-header_bytes h tail response_header-IsHeader)
          (as_opcode-raw_opcode r.opcode)
        ∙ response_read h input rest refl refl refl (omega (arith, v.value)) refl (omega arith))

-- More bytes in the buffer do not change an answer that the parser has given.
module _ (limits : Limits) (xs ys : Bytes) where
  checks-append :
      (h : Header) (o : Opcode)
      → 24 ≤ length xs
      → (response_checks xs limits h o ≡ need_more)
        ⊎ (response_checks (xs ++ ys) limits h o ≡ response_checks xs limits h o)
  unfolding response_checks response_payload effective_limit add64
  checks-append h o long = ground (
    arith,
    length-append xs ys,
    length-drop 24 xs,
    drop-append 24 xs ys,
    take-append h.value_len (drop 24 xs) ys,
  )

  opcode-append :
      (h : Header) (o : Option Opcode)
      → 24 ≤ length xs
      → (with_opcode o (response_checks xs limits h) ≡ need_more)
        ⊎ (with_opcode o (response_checks (xs ++ ys) limits h)
            ≡ with_opcode o (response_checks xs limits h))
  opcode-append h none long = inr refl
  opcode-append h (some o) long = checks-append h o long

  behind-append :
      (d : Decoded)
      → 24 ≤ length xs
      → (response_behind xs limits d ≡ need_more)
        ⊎ (response_behind (xs ++ ys) limits d ≡ response_behind xs limits d)
  unfolding response_behind
  behind-append (wrong e) long = inr refl
  behind-append (none_wrong h) long = opcode-append h (as_opcode h.opcode) long

  -- A verdict of deserialize_response other than "need more" is the same whatever bytes follow in
  -- the buffer.
  pub deserialize_response-append :
      deserialize_response xs limits ≢ need_more
      → deserialize_response (xs ++ ys) limits ≡ deserialize_response xs limits
  unfolding deserialize_response
  deserialize_response-append h = ground (
    arith,
    length-append xs ys,
    decode_common_header-append xs ys,
    behind-append (decode_common_header xs),
  )

-- A complete response has its bytes in the buffer.
module _ (limits : Limits) (input : Bytes) (r : Response) (n : ℕ) where
  opcode_consumed :
      (h : Header) (o : Option Opcode)
      → 24 ≤ length input
      → with_opcode o (response_checks input limits h) ≡ complete r n
      → n ≤ length input
  unfolding response_checks response_payload effective_limit add64
  opcode_consumed h none long e = cc
  opcode_consumed h (some o) long e = ground arith

  behind_consumed :
      (d : Decoded)
      → 24 ≤ length input
      → response_behind input limits d ≡ complete r n
      → n ≤ length input
  unfolding response_behind
  behind_consumed (wrong x) long e = cc
  behind_consumed (none_wrong h) long e = opcode_consumed h (as_opcode h.opcode) long e

  pub deserialize_response_consumed :
      deserialize_response input limits ≡ complete r n → n ≤ length input
  unfolding deserialize_response
  deserialize_response_consumed e = ground (arith, behind_consumed (decode_common_header input))
