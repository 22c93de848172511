-- ===== src/Serializer/Requests.antt =====
-- Requests: what is written is read back, and what is read was written so.
use local_cache_service.Base.{
  ◌+◌, ◌≤◌, ◌<◌, ◌≡◌, ◌≢◌, ◌⊎◌, inr, refl, sym, ap, ◌∙◌, [], ◌++◌, Bytes, u64_mod, min, arith,
  length, drop, true, not, ◌==◌, some, none, Option, add64, append_assoc, length-append,
  take-length, drop-length, length-drop, drop-append, take-append,
}
use local_cache_service.Protocol
use local_cache_service.Protocol.{
  Header, Request, Limits, Opcode, ParseError, ParseResult, complete, need_more, malformed,
  raw_opcode, as_opcode, is_valid_opcode, opcode_requires_key, opcode_allows_value,
}
use local_cache_service.Protocol.Facts.{as_opcode-raw_opcode}
use local_cache_service.Serializer.Frames.{
  default_header, low32, decode_common_header, Decoded, wrong, none_wrong, append_bytes,
  serialize_request, serialize_request_into, request_payload, request_checks, with_opcode,
  request_behind, deserialize_request, effective_limit,
}
use local_cache_service.Serializer.Header.{
  IsHeader, header_bytes, encode_header-header_bytes, decode_common_header-header_bytes,
  decode_common_header-append,
}

-- The requests of version 1 within the limits: a key exactly where the opcode takes one, and a
-- value nowhere but with PUT.
pub record IsRequest (limits : Limits) (r : Request) : Type 0 where
  pub request_id : r.request_id < u64_mod
  pub key : length r.key ≤ min limits.max_key_bytes Protocol.max_key_bytes
  pub value : length r.value ≤ min limits.max_value_bytes Protocol.max_value_bytes
  pub keyed : opcode_requires_key r.opcode ≡ not (length r.key == 0)
  pub valued : (opcode_allows_value r.opcode ≡ true) ⊎ (length r.value ≡ 0)

abbrev pub request_header : Request → Header
request_header r = record default_header {
  opcode = raw_opcode r.opcode;
  request_id = r.request_id;
  key_len = low32 (length r.key);
  value_len = low32 (length r.value);
}

pub serialize_request_into-header_bytes :
    (r : Request) (out : Bytes)
    → serialize_request_into r out ≡ out ++ (header_bytes (request_header r) ++ (r.key ++ r.value))
unfolding serialize_request_into append_bytes
serialize_request_into-header_bytes r out = rw encode_header-header_bytes (simp append_assoc)

pub serialize_request-header_bytes :
    (r : Request) → serialize_request r ≡ header_bytes (request_header r) ++ (r.key ++ r.value)
unfolding serialize_request
serialize_request-header_bytes r = serialize_request_into-header_bytes r []

-- Serializing appends to what the buffer holds.
pub serialize_request_into-append :
    (r : Request) (out : Bytes) → serialize_request_into r out ≡ out ++ serialize_request r
serialize_request_into-append r out =
    serialize_request_into-header_bytes r out
    ∙ ap (◌++◌ out) (sym (serialize_request-header_bytes r))

pub is_valid_opcode-raw_opcode : (o : Opcode) → is_valid_opcode (raw_opcode o) ≡ true
unfolding is_valid_opcode
is_valid_opcode-raw_opcode o = ground (arith, as_opcode-raw_opcode o)

-- A frame whose header decodes gets to the checks on its fields.
decoded_request :
    (input : Bytes) (limits : Limits) (h : Header) (o : Opcode)
    → 24 ≤ length input
    → decode_common_header input ≡ none_wrong h
    → as_opcode h.opcode ≡ some o
    → deserialize_request input limits ≡ request_checks input limits h o
unfolding deserialize_request request_behind
decoded_request input limits h o long d e = ground arith

module _ (limits : Limits) (r : Request) (v : IsRequest limits r) where
  request_header-IsHeader : IsHeader (request_header r)
  request_header-IsHeader = record {
    version = refl;
    opcode = is_valid_opcode-raw_opcode r.opcode;
    flags = refl;
    status = omega arith;
    request_id = v.request_id;
    key_len = omega arith;
    value_len = omega arith;
  }

  -- the payload that `request_payload` cuts off is the key and the value
  payload_read :
      (h : Header) (input rest : Bytes)
      → h.request_id ≡ r.request_id
      → h.key_len ≡ length r.key
      → h.value_len ≡ length r.value
      → drop 24 input ≡ r.key ++ (r.value ++ rest)
      → 24 ≤ length input
      → request_payload input h r.opcode ≡ complete r (24 + length r.key + length r.value)
  unfolding request_payload add64
  payload_read h input rest id k x d long =
      let long' : 24 + length r.key + length r.value ≤ length input = omega (
        arith,
        ap length d,
        length-drop 24 input,
        length-append r.key (r.value ++ rest),
        length-append r.value rest,
      ) in
      ground (
        arith,
        v.key,
        v.value,
        long',
        id,
        k,
        x,
        d,
        take-length r.key (r.value ++ rest),
        drop-length r.key (r.value ++ rest),
        take-length r.value rest,
      )

  checks_pass :
      (h : Header) (input : Bytes)
      → h.status ≡ 0
      → h.key_len ≡ length r.key
      → h.value_len ≡ length r.value
      → request_checks input limits h r.opcode ≡ request_payload input h r.opcode
  unfolding request_checks effective_limit
  checks_pass h input s k x = ground (arith, v.key, v.value, v.keyed, v.valued)

  -- A request within the limits, serialized and followed by any bytes, is read back by
  -- deserialize_request, which consumes exactly its bytes.
  pub deserialize-serialize :
      (rest : Bytes)
      → deserialize_request (serialize_request r ++ rest) limits
        ≡ complete r (24 + length r.key + length r.value)
  deserialize-serialize rest =
      let h = request_header r in
      let tail = r.key ++ (r.value ++ rest) in
      let input = header_bytes h ++ tail in
      let frame : serialize_request r ++ rest ≡ input =
        rw (serialize_request-header_bytes r)
          (ap (◌++◌ (header_bytes h)) (append_assoc r.key r.value rest)) in
      rw frame (
        decoded_request input limits h r.opcode (omega arith)
          (decode_common_header-header_bytes h tail request_header-IsHeader)
          (as_opcode-raw_opcode r.opcode)
        ∙ checks_pass h input refl (omega (arith, v.key)) (omega (arith, v.value))
        ∙ payload_read h input rest refl (omega (arith, v.key)) (omega (arith, v.value)) refl
            (omega arith))

-- More bytes in the buffer do not change an answer that the parser has given.
module _ (limits : Limits) (xs ys : Bytes) where
  payload-append :
      (h : Header) (o : Opcode)
      → 24 ≤ length xs
      → h.key_len ≤ Protocol.max_key_bytes
      → h.value_len ≤ Protocol.max_value_bytes
      → (request_payload xs h o ≡ need_more)
        ⊎ (request_payload (xs ++ ys) h o ≡ request_payload xs h o)
  unfolding request_payload add64
  payload-append h o long k x =
      let payload = drop 24 xs in
      ground (
        arith,
        length-append xs ys,
        length-drop 24 xs,
        length-drop h.key_len payload,
        drop-append 24 xs ys,
        take-append h.key_len payload ys,
        drop-append h.key_len payload ys,
        take-append h.value_len (drop h.key_len payload) ys,
      )

  checks-append :
      (h : Header) (o : Opcode)
      → 24 ≤ length xs
      → (request_checks xs limits h o ≡ need_more)
        ⊎ (request_checks (xs ++ ys) limits h o ≡ request_checks xs limits h o)
  unfolding request_checks effective_limit
  checks-append h o long = ground (arith, payload-append h o)

  opcode-append :
      (h : Header) (o : Option Opcode)
      → 24 ≤ length xs
      → (with_opcode o (request_checks xs limits h) ≡ need_more)
        ⊎ (with_opcode o (request_checks (xs ++ ys) limits h)
            ≡ with_opcode o (request_checks xs limits h))
  opcode-append h none long = inr refl
  opcode-append h (some o) long = checks-append h o long

  behind-append :
      (d : Decoded)
      → 24 ≤ length xs
      → (request_behind xs limits d ≡ need_more)
        ⊎ (request_behind (xs ++ ys) limits d ≡ request_behind xs limits d)
  unfolding request_behind
  behind-append (wrong e) long = inr refl
  behind-append (none_wrong h) long = opcode-append h (as_opcode h.opcode) long

  -- A verdict of deserialize_request other than "need more" is the same whatever bytes follow in
  -- the buffer.
  pub deserialize_request-append :
      deserialize_request xs limits ≢ need_more
      → deserialize_request (xs ++ ys) limits ≡ deserialize_request xs limits
  unfolding deserialize_request
  deserialize_request-append h = ground (
    arith,
    length-append xs ys,
    decode_common_header-append xs ys,
    behind-append (decode_common_header xs),
  )
