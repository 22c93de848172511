-- ===== src/CommandLine/Tests.antt =====
-- The theorems at command lines.
use local_cache_service.Base.{ℕ, List, [], ◌∷◌, false, Bytes}
use local_cache_service.Base.Text.{codes}
use local_cache_service.Protocol.{Opcode, Status, Response, raw_opcode, raw_status}
use local_cache_service.Serializer.Integers
use local_cache_service.Serializer.Frames
use local_cache_service.Serializer.Frames.{serialize_request, serialize_response}
use local_cache_service.Client.Defs
use local_cache_service.Client.Defs.{connect, sends, not_connected, connect_failed}
use local_cache_service.Client.Receiving.{Arrival, bytes, answers}
use local_cache_service.CommandLine.Defs.{World, Ending, Message, nothing, value}
use local_cache_service.CommandLine.Answered.{all_well}

abbrev socket_path : Bytes
socket_path = codes "/s"

abbrev argv : List Bytes
argv = codes "get" ∷ codes "--socket" ∷ socket_path ∷ codes "k" ∷ []

-- No server listens.
abbrev alone : World
alone = record {
  sun_path_size = 108;
  answers = record all_well { connect = false };
  stdin = [];
  sends = [];
  recvs = [];
}

abbrev refused : Ending
refused = record {
  code = 1;
  output = nothing;
  message = Message.connect_failed connect_failed;
  sent = [];
}

abbrev found : Response
found = record { opcode = Opcode.get; status = Status.ok; request_id = 1; value = 8 ∷ 9 ∷ [] }

abbrev pieces : List Arrival
pieces =
    bytes 0x4c (0x43 ∷ 0x53 ∷ 0x31 ∷ 1 ∷ [])
    ∷ bytes 1 (0 ∷ 0 ∷ 0 ∷ 0 ∷ 0 ∷ 0 ∷ 0 ∷ 0 ∷ 0 ∷ 1 ∷ 0 ∷ 0 ∷ 0 ∷ 0 ∷ 0 ∷ 0 ∷ 0 ∷ 2 ∷ 8 ∷ 9 ∷ [])
    ∷ []

writing : Unit {0}
unfolding raw_opcode raw_status Integers.append_u8 Integers.append_u16 Integers.append_u32
    Integers.append_u64 Frames.append_bytes Frames.encode_header Frames.serialize_request_into
    serialize_request Frames.serialize_response_into serialize_response
writing = tt

abbrev whole : List ℕ
whole =
    25 ∷ 1 ∷ 1 ∷ 1 ∷ 1 ∷ 1 ∷ 1 ∷ 1 ∷ 1 ∷ 1 ∷ 1 ∷ 1 ∷ 1 ∷ 1 ∷ 1 ∷ 1 ∷ 1 ∷ 1 ∷ 1 ∷ 1 ∷ 1 ∷ 1 ∷ 1 ∷ 1
    ∷ 1 ∷ []
