-- ===== src/Serializer/Frames.antt =====
-- Frames of src/serializer.cpp: the header, requests and responses.
use local_cache_service.Base.{
  ℕ, ◌%◌, ◌^◌, [], ◌++◌, Bytes, not, ◌&&◌, if◌then◌else◌, ltb, ◌==◌, length, take, drop, add64, min,
  Option, none, some,
}
use local_cache_service.Protocol.{
  Opcode, Status, Header, Request, Response, Limits, ParseError, ParseResult, complete, need_more,
  malformed, raw_opcode, as_opcode, raw_status, as_status, is_valid_opcode, is_valid_status,
  opcode_requires_key, opcode_allows_value, header_size, max_frame_bytes,
}
use local_cache_service.Protocol
use local_cache_service.Serializer.Integers.{
  append_u8, append_u32, append_u64, read_u8, read_u32, read_u64,
}

-- `Header` with its default member initialisers, which `serialize_*` start from.
abbrev pub default_header : Header
default_header = record {
  version = Protocol.version;
  opcode = 0;
  flags = 0;
  status = 0;
  request_id = 0;
  key_len = 0;
  value_len = 0;
}

unfoldable pub append_bytes : Bytes → Bytes → Bytes
append_bytes out bytes = out ++ bytes

unfoldable pub encode_header : Bytes → Header → Bytes
encode_header out header =
    let out₁ = append_u32 out Protocol.magic in
    let out₂ = append_u8 out₁ header.version in
    let out₃ = append_u8 out₂ header.opcode in
    let out₄ = append_u8 out₃ header.flags in
    let out₅ = append_u8 out₄ header.status in
    let out₆ = append_u64 out₅ header.request_id in
    let out₇ = append_u32 out₆ header.key_len in append_u32 out₇ header.value_len

-- The result of `decode_common_header`: kNone with the header that it filled in, or the error.
pub data Decoded : Type 0 where
  none_wrong : Header → Decoded
  wrong : ParseError → Decoded

unfoldable pub decode_common_header : Bytes → Decoded
decode_common_header bytes =
    if not (read_u32 bytes == Protocol.magic)
    then wrong ParseError.bad_magic
    else if not (read_u8 (drop 4 bytes) == Protocol.version)
    then wrong ParseError.unsupported_version
    else if not (is_valid_opcode (read_u8 (drop 5 bytes)))
    then wrong ParseError.invalid_opcode
    else if not (read_u8 (drop 6 bytes) == 0)
    then wrong ParseError.reserved_flags
    else none_wrong (record {
      version = read_u8 (drop 4 bytes);
      opcode = read_u8 (drop 5 bytes);
      flags = read_u8 (drop 6 bytes);
      status = read_u8 (drop 7 bytes);
      request_id = read_u64 (drop 8 bytes);
      key_len = read_u32 (drop 16 bytes);
      value_len = read_u32 (drop 20 bytes);
    })

unfoldable pub effective_limit : ℕ → ℕ → ℕ
effective_limit configured ceiling = min configured ceiling

-- static_cast<uint32_t>(n)
abbrev pub low32 : ℕ → ℕ
low32 n = n % 2 ^ 32

unfoldable pub serialize_request_into : Request → Bytes → Bytes
serialize_request_into request out =
    let header = record default_header {
      opcode = raw_opcode request.opcode;
      request_id = request.request_id;
      key_len = low32 (length request.key);
      value_len = low32 (length request.value);
    } in
    append_bytes (append_bytes (encode_header out header) request.key) request.value

unfoldable pub serialize_request : Request → Bytes
serialize_request request = serialize_request_into request []

unfoldable pub serialize_response_into : Response → Bytes → Bytes
serialize_response_into response out =
    let header = record default_header {
      opcode = raw_opcode response.opcode;
      status = raw_status response.status;
      request_id = response.request_id;
      key_len = 0;
      value_len = low32 (length response.value);
    } in
    append_bytes (encode_header out header) response.value

unfoldable pub serialize_response : Response → Bytes
serialize_response response = serialize_response_into response []

-- The part of `deserialize_request` behind the header checks: the frame's size, and its payload.
unfoldable pub request_payload : Bytes → Header → Opcode → ParseResult Request
request_payload input header opcode =
    let frame_size = add64 (add64 header_size header.key_len) header.value_len in
    if ltb max_frame_bytes frame_size
    then malformed ParseError.value_too_large
    else if ltb (length input) frame_size
    then need_more
    else (let payload = drop header_size input in
        complete
          (record {
            opcode = opcode;
            request_id = header.request_id;
            key = take header.key_len payload;
            value = take header.value_len (drop header.key_len payload);
          })
          frame_size)

-- The checks of `deserialize_request` on a decoded header.
unfoldable pub request_checks : Bytes → Limits → Header → Opcode → ParseResult Request
request_checks input limits header opcode =
    if not (header.status == 0)
    then malformed ParseError.invalid_status
    else if ltb (effective_limit limits.max_key_bytes Protocol.max_key_bytes) header.key_len
    then malformed ParseError.key_too_large
    else if ltb (effective_limit limits.max_value_bytes Protocol.max_value_bytes) header.value_len
    then malformed ParseError.value_too_large
    else if opcode_requires_key opcode && header.key_len == 0
    then malformed ParseError.missing_key
    else if not (opcode_requires_key opcode) && not (header.key_len == 0)
    then malformed ParseError.payload_not_allowed
    else if not (opcode_allows_value opcode) && not (header.value_len == 0)
    then malformed ParseError.payload_not_allowed
    else request_payload input header opcode

-- The cast of a byte that `decode_common_header` has found valid always names an opcode.
abbrev pub with_opcode : {A : Type 0} → Option Opcode → (Opcode → ParseResult A) → ParseResult A
with_opcode none k = malformed ParseError.invalid_opcode
with_opcode (some opcode) k = k opcode

-- `deserialize_request` behind the decoding of the header.
unfoldable pub request_behind : Bytes → Limits → Decoded → ParseResult Request
request_behind input limits (wrong error) = malformed error
request_behind input limits (none_wrong header) =
    with_opcode (as_opcode header.opcode) (request_checks input limits header)

unfoldable pub deserialize_request : Bytes → Limits → ParseResult Request
deserialize_request input limits =
    if ltb (length input) header_size
    then need_more
    else request_behind input limits (decode_common_header input)

-- The part of `deserialize_response` behind the header checks.
unfoldable pub response_payload : Bytes → Header → Opcode → Status → ParseResult Response
response_payload input header opcode status =
    let frame_size = add64 header_size header.value_len in
    if ltb (length input) frame_size
    then need_more
    else complete
        (record {
          opcode = opcode;
          status = status;
          request_id = header.request_id;
          value = take header.value_len (drop header_size input);
        })
        frame_size

-- `as_status` and `is_valid_status` agree, so its check and the later cast are one match here.
unfoldable pub response_checks : Bytes → Limits → Header → Opcode → ParseResult Response
response_checks input limits header opcode = elim (as_status header.status) [
  | none ↦ malformed ParseError.invalid_status
  | some status ↦
      if not (header.key_len == 0)
      then malformed ParseError.payload_not_allowed
      else if ltb (effective_limit limits.max_value_bytes Protocol.max_value_bytes) header.value_len
      then malformed ParseError.value_too_large
      else response_payload input header opcode status
]

-- `deserialize_response` behind the decoding of the header.
unfoldable pub response_behind : Bytes → Limits → Decoded → ParseResult Response
response_behind input limits (wrong error) = malformed error
response_behind input limits (none_wrong header) =
    with_opcode (as_opcode header.opcode) (response_checks input limits header)

unfoldable pub deserialize_response : Bytes → Limits → ParseResult Response
deserialize_response input limits =
    if ltb (length input) header_size
    then need_more
    else response_behind input limits (decode_common_header input)
