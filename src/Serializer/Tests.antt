-- ===== src/Serializer/Tests.antt =====
-- Frames of tests/protocol_test.cpp run through the codec, and the theorems at them.
use local_cache_service.Base.{
  ◌+◌, ◌^◌, ◌≤◌, ◌<◌, ◌≡◌, ◌≢◌, inl, refl, [], ◌∷◌, ◌++◌, Bytes, arith, take, add64, some,
}
use local_cache_service.Protocol.{
  Opcode, Status, Request, Response, Limits, ParseError, complete, need_more, malformed, raw_opcode,
  as_opcode, raw_status, as_status, is_valid_opcode, opcode_requires_key, opcode_allows_value,
  max_frame_bytes,
}
use local_cache_service.Stats.{StatsSnapshot, zeros}
use local_cache_service.Serializer.Integers
use local_cache_service.Serializer.Integers.Laws.{be16}
use local_cache_service.Serializer.Frames
use local_cache_service.Serializer.Frames.{
  serialize_request, serialize_response, deserialize_request, deserialize_response,
}
use local_cache_service.Serializer.Requests.{
  IsRequest, deserialize-serialize, deserialize_request-append,
}
use local_cache_service.Serializer.Reading.{serialize-deserialize}
use local_cache_service.Serializer.Incremental.{deserialize_request_truncated, need_more_bounded}
use local_cache_service.Serializer.Responses.{
  IsResponse, deserialize_response-serialize_response, deserialize_response-append,
}
use local_cache_service.Serializer.StatsPayload.{
  serialize_stats, deserialize_stats, words, overwritten, deserialize_stats-words,
  deserialize_stats-serialize_stats,
}

codec : Unit {0}
unfolding raw_opcode as_opcode raw_status as_status is_valid_opcode opcode_requires_key
    opcode_allows_value add64 Integers.append_u8 Integers.append_u16 Integers.append_u32
    Integers.append_u64 Integers.read_u8 Integers.read_u16 Integers.read_u32 Integers.read_u64
    Frames.append_bytes Frames.encode_header Frames.decode_common_header Frames.effective_limit
    Frames.serialize_request_into serialize_request Frames.serialize_response_into
    serialize_response Frames.request_payload Frames.request_checks Frames.request_behind
    deserialize_request Frames.response_payload Frames.response_checks Frames.response_behind
    deserialize_response
codec = tt

abbrev limits : Limits
limits = record { max_key_bytes = 64; max_value_bytes = 128 }

abbrev put_request : Request
put_request = record {
  opcode = Opcode.put;
  request_id = 258;
  key = b'k' ∷ b'e' ∷ [];
  value = 0 ∷ 255 ∷ b'v' ∷ [];
}

abbrev frame : Bytes
frame =
    0x4c ∷ 0x43 ∷ 0x53 ∷ 0x31 ∷ 1 ∷ 2 ∷ 0 ∷ 0 ∷ 0 ∷ 0 ∷ 0 ∷ 0 ∷ 0 ∷ 0 ∷ 1 ∷ 2 ∷ 0 ∷ 0 ∷ 0 ∷ 2 ∷ 0
    ∷ 0 ∷ 0 ∷ 3 ∷ b'k' ∷ b'e' ∷ 0 ∷ 255 ∷ b'v' ∷ []

put_request-frame : serialize_request put_request ≡ frame
unfolding codec
put_request-frame = refl

frame_read : deserialize_request (frame ++ (9 ∷ [])) limits ≡ complete put_request 29
unfolding codec
frame_read = refl

-- A GET that carries a value, and a version that is not known.
get_with_value :
    deserialize_request
      (0x4c ∷ 0x43 ∷ 0x53 ∷ 0x31 ∷ 1 ∷ 1 ∷ 0 ∷ 0 ∷ 0 ∷ 0 ∷ 0 ∷ 0 ∷ 0 ∷ 0 ∷ 1 ∷ 2 ∷ 0 ∷ 0 ∷ 0 ∷ 2 ∷ 0
        ∷ 0 ∷ 0 ∷ 3 ∷ [])
      limits
    ≡ malformed ParseError.payload_not_allowed
unfolding codec
get_with_value = refl

other_version :
    deserialize_request
      (0x4c ∷ 0x43 ∷ 0x53 ∷ 0x31 ∷ 2 ∷ 1 ∷ 0 ∷ 0 ∷ 0 ∷ 0 ∷ 0 ∷ 0 ∷ 0 ∷ 0 ∷ 1 ∷ 2 ∷ 0 ∷ 0 ∷ 0 ∷ 2 ∷ 0
        ∷ 0 ∷ 0 ∷ 3 ∷ [])
      limits
    ≡ malformed ParseError.unsupported_version
unfolding codec
other_version = refl

put_request-IsRequest : IsRequest limits put_request
unfolding opcode_requires_key opcode_allows_value
put_request-IsRequest = record {
  request_id = omega arith;
  key = omega arith;
  value = omega arith;
  keyed = refl;
  valued = inl refl;
}

deserialize-serialize_example :
    deserialize_request (serialize_request put_request ++ (7 ∷ [])) limits ≡ complete put_request 29
deserialize-serialize_example =
    deserialize-serialize limits put_request put_request-IsRequest (7 ∷ [])

serialize-deserialize_example :
    IsRequest limits put_request
    × (29 ≤ 30)
    × (take 29 (frame ++ (9 ∷ [])) ≡ serialize_request put_request)
serialize-deserialize_example =
    serialize-deserialize limits (frame ++ (9 ∷ [])) put_request 29 (omega arith) frame_read

frame_answers : deserialize_request (frame ++ (9 ∷ [])) limits ≢ need_more
unfolding codec
frame_answers h = cc

deserialize_request-append_example :
    deserialize_request ((frame ++ (9 ∷ [])) ++ (8 ∷ [])) limits
    ≡ deserialize_request (frame ++ (9 ∷ [])) limits
deserialize_request-append_example =
    deserialize_request-append limits (frame ++ (9 ∷ [])) (8 ∷ []) frame_answers

deserialize_request_truncated_example : deserialize_request (take 28 frame) limits ≡ need_more
deserialize_request_truncated_example =
    deserialize_request_truncated limits put_request b'v' (take 28 frame) [] put_request-IsRequest
      put_request-frame

frame_waits : deserialize_request (take 28 frame) limits ≡ need_more
unfolding codec
frame_waits = refl

need_more_bounded_example : (28 < 24 + 64 + 128) × (28 < max_frame_bytes)
need_more_bounded_example = need_more_bounded limits (take 28 frame) (omega arith) frame_waits

abbrev ok_response : Response
ok_response = record { opcode = Opcode.get; status = Status.ok; request_id = 7; value = 1 ∷ 2 ∷ [] }

ok_response-IsResponse : IsResponse limits ok_response
ok_response-IsResponse = record { request_id = omega arith; value = omega arith }

deserialize_response-serialize_response_example :
    deserialize_response (serialize_response ok_response ++ (5 ∷ [])) limits
    ≡ complete ok_response 26
deserialize_response-serialize_response_example =
    deserialize_response-serialize_response limits ok_response ok_response-IsResponse (5 ∷ [])

response_answers : deserialize_response (serialize_response ok_response) limits ≢ need_more
unfolding codec
response_answers h = cc

deserialize_response-append_example :
    deserialize_response (serialize_response ok_response ++ (3 ∷ [])) limits
    ≡ deserialize_response (serialize_response ok_response) limits
deserialize_response-append_example =
    deserialize_response-append limits (serialize_response ok_response) (3 ∷ []) response_answers

-- An older peer that knows two fields, and a newer one that sends bytes behind them.
deserialize_stats-words_example :
    deserialize_stats (be16 2 ++ (words (5 ∷ 6 ∷ []) ++ (1 ∷ []))) zeros
    ≡ some (overwritten (5 ∷ 6 ∷ []) zeros)
deserialize_stats-words_example =
    deserialize_stats-words (5 ∷ 6 ∷ []) (1 ∷ []) zeros (omega arith) (omega arith)

abbrev busy : StatsSnapshot
busy = record zeros { cache_hits = 3; uptime_ms = 2 ^ 40 }

deserialize_stats-serialize_stats_example :
    deserialize_stats (serialize_stats busy ++ (4 ∷ [])) zeros ≡ some busy
deserialize_stats-serialize_stats_example =
    deserialize_stats-serialize_stats busy zeros (4 ∷ []) (omega arith)
