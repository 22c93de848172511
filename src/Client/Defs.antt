-- ===== src/Client/Defs.antt =====
-- The state and the operations of `CacheClient` (client/cache_client.cpp, client/cache_client.h). What
-- the kernel answers is an argument; an operation that is still waiting when the answers end is `none`.
use local_cache_service.Base.{
  ℕ, ◌+◌, ◌-◌, List, [], ◌∷◌, ◌++◌, Option, none, some, Bool, true, false, not, ◌&&◌, if◌then◌else◌,
  ltb, leb, ◌==◌, Bytes, length, take, drop, add64, min,
}
use local_cache_service.Base.Int.{ℤ, pos, is_le_zero}
use local_cache_service.Protocol
use local_cache_service.Protocol.{
  Opcode, Status, Request, Response, Limits, ParseError, ParseResult, complete, need_more,
  malformed, raw_opcode,
}
use local_cache_service.Stats.{StatsSnapshot, zeros}
use local_cache_service.Serializer.Frames.{serialize_request_into, deserialize_response}
use local_cache_service.Serializer.StatsPayload.{deserialize_stats}
use local_cache_service.Connection.Defs.{Recv, received, end_of_stream, interrupted, again, failed}

-- The messages, one for each return; the text of errno is left out.
pub data ClientError : Type 0 where
  path_too_long socket_failed setsockopt_failed connect_failed : ClientError
  send_timed_out send_failed : ClientError
  correlation_failure : ℕ → ℕ → ClientError
  opcode_mismatch : Opcode → Opcode → ClientError
  malformed_frame : ParseError → ClientError
  server_closed receive_timed_out recv_failed : ClientError
  not_connected key_too_large value_too_large : ClientError
  server_returned : Status → ClientError
  malformed_stats : ClientError

-- `error` is `none` where the source has an empty text.
pub record CacheResult : Type 0 where
  pub status : Status
  pub value : Bytes
  pub error : Option ClientError

pub record StatsResult : Type 0 where
  pub stats : StatsSnapshot
  pub error : Option ClientError

-- `connected` is `fd_.valid()`.
pub record Client : Type 0 where
  pub socket_path : Bytes
  pub connected : Bool
  pub next_request_id : ℕ
  pub timeout_ms : ℤ
  pub in_buf : Bytes
  pub out_buf : Bytes

unfoldable pub init : Bytes → Client
init socket_path = record {
  socket_path = socket_path;
  connected = false;
  next_request_id = 1;
  timeout_ms = pos 5000;
  in_buf = [];
  out_buf = [];
}

unfoldable pub set_timeout_ms : Client → ℤ → Client
set_timeout_ms c timeout_ms = record c { timeout_ms = timeout_ms }

-- Which of the calls in `connect` succeed.
pub record ConnectAnswers : Type 0 where
  pub socket : Bool
  pub receive_timeout : Bool
  pub send_timeout : Bool
  pub connect : Bool

-- `sun_path_size` is the platform's sizeof(sockaddr_un::sun_path).
unfoldable pub connect : ℕ → ConnectAnswers → Client → Client × Option ClientError
connect sun_path_size answers c =
    if leb sun_path_size (length c.socket_path)
    then (c, some path_too_long)
    else if not answers.socket
    then (c, some socket_failed)
    else if not (is_le_zero c.timeout_ms) && not (answers.receive_timeout && answers.send_timeout)
    then (c, some setsockopt_failed)
    else if not answers.connect
    then (c, some connect_failed)
    else (record c { connected = true; in_buf = [] }, none)

unfoldable pub disconnect : Client → Client
disconnect c = record c { connected = false; in_buf = [] }

-- What `send` answers: a number of bytes, of which no more than it was given are taken, or -1 with
-- EINTR, EAGAIN or another error.
pub data Send : Type 0 where
  sends : ℕ → Send
  interrupts would_block fails : Send

abbrev pub and_sent :
    Bytes → Option (Bytes × Option ClientError) → Option (Bytes × Option ClientError)
and_sent bytes none = none
and_sent bytes (some (sent, e)) = some (bytes ++ sent, e)

-- `send_all` from the index `sent` on, with the bytes that the kernel took.
unfoldable pub send_all : Bytes → ℕ → List Send → Option (Bytes × Option ClientError)
send_all frame sent [] = if ltb sent (length frame) then none else some ([], none)
send_all frame sent (sends given ∷ answers) =
    let n = min given (length frame - sent) in
    let rest = send_all frame (sent + n) answers in
    if not (ltb sent (length frame))
    then some ([], none)
    else if ltb 0 n
    then and_sent (take n (drop sent frame)) rest
    else some ([], some send_failed)
send_all frame sent (interrupts ∷ answers) =
    let rest = send_all frame sent answers in
    if ltb sent (length frame) then rest else some ([], none)
send_all frame sent (would_block ∷ answers) =
    if ltb sent (length frame) then some ([], some send_timed_out) else some ([], none)
send_all frame sent (fails ∷ answers) =
    if ltb sent (length frame) then some ([], some send_failed) else some ([], none)

abbrev pub client_limits : Limits
client_limits = record {
  max_key_bytes = Protocol.max_key_bytes;
  max_value_bytes = Protocol.max_value_bytes;
}

-- What `receive_response` returns: the response, or an error.
pub data Received : Type 0 where
  response : Response → Received
  error : ClientError → Received

-- the checks on a complete response
unfoldable pub correlated : ℕ → Opcode → Response → Received
correlated expected_id expected_opcode out =
    if not (out.request_id == expected_id)
    then error (correlation_failure expected_id out.request_id)
    else if not (raw_opcode out.opcode == raw_opcode expected_opcode)
    then error (opcode_mismatch expected_opcode out.opcode)
    else response out

-- A round of the loop of `receive_response`; with a partial frame it goes on to `recv`.
abbrev pub on_parse :
    Client
    → ℕ
    → Opcode
    → ParseResult Response
    → Option (Client × Received)
    → Option (Client × Received)
on_parse c expected_id expected_opcode (complete out consumed) read =
    some (record c { in_buf = drop consumed c.in_buf }, correlated expected_id expected_opcode out)
on_parse c expected_id expected_opcode need_more read = read
on_parse c expected_id expected_opcode (malformed e) read =
    some (disconnect c, error (malformed_frame e))

-- `on_parse` of the parse of the buffer
abbrev pub try_parse : Client → ℕ → Opcode → Option (Client × Received) → Option (Client × Received)
try_parse c expected_id expected_opcode read =
    on_parse c expected_id expected_opcode (deserialize_response c.in_buf client_limits) read

unfoldable pub receive_response : Client → ℕ → Opcode → List Recv → Option (Client × Received)
receive_response c id opcode [] = try_parse c id opcode none
receive_response c id opcode (received first chunk ∷ answers) =
    try_parse c id opcode
      (receive_response (record c { in_buf = c.in_buf ++ (first ∷ chunk) }) id opcode answers)
receive_response c id opcode (end_of_stream ∷ answers) =
    try_parse c id opcode (some (disconnect c, error server_closed))
receive_response c id opcode (interrupted ∷ answers) =
    try_parse c id opcode (receive_response c id opcode answers)
receive_response c id opcode (again ∷ answers) =
    try_parse c id opcode (some (disconnect c, error receive_timed_out))
receive_response c id opcode (failed ∷ answers) =
    try_parse c id opcode (some (disconnect c, error recv_failed))

-- A result that is an error has the members' initial values.
abbrev pub failure : ClientError → CacheResult
failure e = record { status = Status.internal_error; value = []; error = some e }

abbrev pub result_of : Received → CacheResult
result_of (response r) = record { status = r.status; value = r.value; error = none }
result_of (error e) = failure e

abbrev pub received_result :
    Bytes → Option (Client × Received) → Option (Client × Bytes × CacheResult)
received_result sent none = none
received_result sent (some (c, r)) = some (c, sent, result_of r)

-- the end of `execute`, behind `send_all`
abbrev pub after_send :
    Client
    → Request
    → List Recv
    → Option (Bytes × Option ClientError)
    → Option (Client × Bytes × CacheResult)
after_send c request recvs none = none
after_send c request recvs (some (sent, some e)) = some (c, sent, failure e)
after_send c request recvs (some (sent, none)) =
    received_result sent (receive_response c request.request_id request.opcode recvs)

abbrev pub request_of : Client → Opcode → Bytes → Bytes → Request
request_of c opcode key value = record {
  opcode = opcode;
  request_id = c.next_request_id;
  key = key;
  value = value;
}

-- The client, the bytes that the kernel took, and the result.
unfoldable pub execute :
    Client → Opcode → Bytes → Bytes → List Send → List Recv → Option (Client × Bytes × CacheResult)
execute c opcode key value answers recvs =
    if not c.connected
    then some (c, [], failure not_connected)
    else if ltb Protocol.max_key_bytes (length key)
    then some (c, [], failure key_too_large)
    else if ltb Protocol.max_value_bytes (length value)
    then some (c, [], failure value_too_large)
    else (let request = request_of c opcode key value in
        let frame = serialize_request_into request [] in
        after_send (record c { next_request_id = add64 c.next_request_id 1; out_buf = frame })
          request recvs (send_all frame 0 answers))

unfoldable pub get : Client → Bytes → List Send → List Recv → Option (Client × Bytes × CacheResult)
get c key = execute c Opcode.get key []

unfoldable pub put :
    Client → Bytes → Bytes → List Send → List Recv → Option (Client × Bytes × CacheResult)
put c key value = execute c Opcode.put key value

unfoldable pub erase :
    Client → Bytes → List Send → List Recv → Option (Client × Bytes × CacheResult)
erase c key = execute c Opcode.delete key []

unfoldable pub ping : Client → List Send → List Recv → Option (Client × Bytes × CacheResult)
ping c = execute c Opcode.ping [] []

unfoldable pub clear : Client → List Send → List Recv → Option (Client × Bytes × CacheResult)
clear c = execute c Opcode.clear [] []

abbrev pub stats_payload : Option StatsSnapshot → StatsResult
stats_payload none = record { stats = zeros; error = some malformed_stats }
stats_payload (some s) = record { stats = s; error = none }

-- what `stats` makes of the result of `execute`
unfoldable pub stats_of : CacheResult → StatsResult
stats_of raw = elim raw.error [
  | some e ↦ record { stats = zeros; error = some e }
  | none ↦ elim raw.status [
    | Status.ok ↦ stats_payload (deserialize_stats raw.value zeros)
    | other ↦ record { stats = zeros; error = some (server_returned other) }
  ]
]

abbrev pub with_stats :
    Option (Client × Bytes × CacheResult) → Option (Client × Bytes × StatsResult)
with_stats none = none
with_stats (some (c, sent, raw)) = some (c, sent, stats_of raw)

unfoldable pub stats : Client → List Send → List Recv → Option (Client × Bytes × StatsResult)
stats c answers recvs = with_stats (execute c Opcode.stats [] [] answers recvs)
