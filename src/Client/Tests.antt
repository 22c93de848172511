-- ===== src/Client/Tests.antt =====
-- The theorems at a client that asks for a value.
use local_cache_service.Base.{◌≡◌, refl, [], ◌∷◌, take, some, true, Bytes, add64}
use local_cache_service.Base.Int.{pos}
use local_cache_service.Protocol.{Opcode, raw_opcode, raw_status}
use local_cache_service.Serializer.Integers
use local_cache_service.Serializer.Frames
use local_cache_service.Serializer.Frames.{serialize_request, serialize_response}
use local_cache_service.Client.Defs.{
  Client, failure, execute, send_all, sends, would_block, send_timed_out, request_of,
}
use local_cache_service.Client.Executing.{IsExecuted, execute-IsExecuted}

writing : Unit {0}
unfolding raw_opcode raw_status Integers.append_u8 Integers.append_u16 Integers.append_u32
    Integers.append_u64 Frames.append_bytes Frames.encode_header Frames.serialize_request_into
    serialize_request Frames.serialize_response_into serialize_response
writing = tt

abbrev client : Client
client = record {
  socket_path = b'/' ∷ b's' ∷ [];
  connected = true;
  next_request_id = 7;
  timeout_ms = pos 5000;
  in_buf = [];
  out_buf = [];
}

-- The kernel takes four bytes of the frame and no more.
abbrev cut : Bytes
cut = take 4 (serialize_request (request_of client Opcode.get (b'k' ∷ []) []))

abbrev cut_off : Client
cut_off = record client {
  next_request_id = 8;
  out_buf = serialize_request (request_of client Opcode.get (b'k' ∷ []) []);
}

execute-cut_off :
    execute client Opcode.get (b'k' ∷ []) [] (sends 4 ∷ would_block ∷ []) []
    ≡ some (cut_off, cut, failure send_timed_out)
unfolding writing execute send_all add64
execute-cut_off = refl

execute-IsExecuted_example :
    IsExecuted client Opcode.get (b'k' ∷ []) [] cut_off cut (failure send_timed_out)
execute-IsExecuted_example =
    execute-IsExecuted client Opcode.get (b'k' ∷ []) [] (sends 4 ∷ would_block ∷ []) []
      execute-cut_off
