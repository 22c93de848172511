-- ===== src/Server/ExchangeTests.antt =====
-- A client and a server with a full cache together.
use local_cache_service.Base.{ℕ, List, true, [], ◌∷◌}
use local_cache_service.Protocol.{Opcode, Request}
use local_cache_service.Stats
use local_cache_service.Stats.{StatsSnapshot, zeros}
use local_cache_service.Cache.Sample.{full, c_key}
use local_cache_service.Cache.Refinement.{view}
use local_cache_service.Serializer.Frames.{serialize_response}
use local_cache_service.Base.Int.{pos}
use local_cache_service.Protocol.{Response, raw_opcode, raw_status}
use local_cache_service.Serializer.Integers
use local_cache_service.Serializer.Frames
use local_cache_service.Serializer.Frames.{serialize_request}
use local_cache_service.Client.Defs.{Client, request_of}
use local_cache_service.Client.Receiving.{Arrival, bytes}
use local_cache_service.Server.Serving.{Served}
use local_cache_service.Server.Jobs.{Service, answer}
use local_cache_service.Server.Serving.{serve}

abbrev service : Service
service = record { cache = full; stats = Stats.init }

-- A client puts a value, and its answer comes in one piece.
abbrev putting : Client
putting = record {
  socket_path = b'/' ∷ b's' ∷ [];
  connected = true;
  next_request_id = 7;
  timeout_ms = pos 5000;
  in_buf = [];
  out_buf = [];
}

abbrev put_7 : Request
put_7 = request_of putting Opcode.put c_key (7 ∷ [])

abbrev put_7_served : Served
put_7_served = serve full.limits (view full) Stats.init put_7 Opcode.put

abbrev put_7_response : Response
put_7_response = answer put_7 put_7_served.status put_7_served.value

abbrev ok_frame : List Arrival
ok_frame =
    bytes 0x4c (
      0x43 ∷ 0x53 ∷ 0x31 ∷ 1 ∷ 2 ∷ 0 ∷ 0 ∷ 0 ∷ 0 ∷ 0 ∷ 0 ∷ 0 ∷ 0 ∷ 0 ∷ 7 ∷ 0 ∷ 0 ∷ 0 ∷ 0 ∷ 0 ∷ 0 ∷ 0
      ∷ 0 ∷ [])
    ∷ []

writing : Unit {0}
unfolding raw_opcode raw_status Integers.append_u8 Integers.append_u16 Integers.append_u32
    Integers.append_u64 Frames.append_bytes Frames.encode_header Frames.serialize_request_into
    serialize_request Frames.serialize_response_into serialize_response
writing = tt

abbrev whole : List ℕ
whole =
    26 ∷ 1 ∷ 1 ∷ 1 ∷ 1 ∷ 1 ∷ 1 ∷ 1 ∷ 1 ∷ 1 ∷ 1 ∷ 1 ∷ 1 ∷ 1 ∷ 1 ∷ 1 ∷ 1 ∷ 1 ∷ 1 ∷ 1 ∷ 1 ∷ 1 ∷ 1 ∷ 1
    ∷ 1 ∷ 1 ∷ []
