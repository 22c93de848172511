-- ===== src/CommandLine/Answered.antt =====
-- A command that the server answers.
use local_cache_service.Base.{ℕ, List, [], ◌∷◌, map, none, true, Bytes}
use local_cache_service.Base.Text.{codes}
use local_cache_service.Protocol
use local_cache_service.Protocol.{Opcode, Status, Response}
use local_cache_service.Serializer.Frames.{serialize_request}
use local_cache_service.Client.Defs
use local_cache_service.Client.Defs.{
  Client, CacheResult, ConnectAnswers, sends, connect, ping, request_of,
}
use local_cache_service.Client.Receiving.{Arrival, answers}
use local_cache_service.CommandLine.Defs.{
  Output, nothing, value, pong, fetched, silent, World, connected,
}

-- The commands other than the statistics; the value of a put is an argument or comes from stdin.
pub data Command : Type 0 where
  putting : Bytes → Bytes → Command
  putting_stdin getting deleting : Bytes → Command
  pinging clearing : Command

abbrev pub name_of : Command → Bytes
name_of (putting key v) = codes "put"
name_of (putting_stdin key) = codes "put"
name_of (getting key) = codes "get"
name_of (deleting key) = codes "delete"
name_of pinging = codes "ping"
name_of clearing = codes "clear"

abbrev pub words_behind : Command → List Bytes
words_behind (putting key v) = key ∷ v ∷ []
words_behind (putting_stdin key) = key ∷ []
words_behind (getting key) = key ∷ []
words_behind (deleting key) = key ∷ []
words_behind pinging = []
words_behind clearing = []

abbrev pub opcode_of : Command → Opcode
opcode_of (putting key v) = Opcode.put
opcode_of (putting_stdin key) = Opcode.put
opcode_of (getting key) = Opcode.get
opcode_of (deleting key) = Opcode.delete
opcode_of pinging = Opcode.ping
opcode_of clearing = Opcode.clear

abbrev pub key_of : Command → Bytes
key_of (putting key v) = key
key_of (putting_stdin key) = key
key_of (getting key) = key
key_of (deleting key) = key
key_of pinging = []
key_of clearing = []

abbrev pub value_of : Bytes → Command → Bytes
value_of stdin (putting key v) = v
value_of stdin (putting_stdin key) = stdin
value_of stdin (getting key) = []
value_of stdin (deleting key) = []
value_of stdin pinging = []
value_of stdin clearing = []

-- what the command prints for a response
abbrev pub output_of : Command → CacheResult → Output
output_of (putting key v) = silent
output_of (putting_stdin key) = silent
output_of (getting key) = fetched
output_of (deleting key) = silent
output_of pinging = λ result. pong
output_of clearing = silent

-- What each command is to print: the value of a GET that found one, and PONG.
abbrev pub printed : Command → Status → Bytes → Output
printed (getting key) Status.ok v = value v
printed pinging status v = pong
printed command status v = nothing

-- A client that has just connected.
abbrev pub connected_to : Bytes → Client
connected_to path = record (Defs.init path) { connected = true; in_buf = [] }

abbrev pub all_well : ConnectAnswers
all_well = record { socket = true; receive_timeout = true; send_timeout = true; connect = true }

-- The frame of the command's request.
abbrev pub frame_of : Bytes → Command → Bytes → Bytes
frame_of path command stdin =
    serialize_request
      (request_of (connected_to path) (opcode_of command) (key_of command) (value_of stdin command))

abbrev pub result_of : Response → CacheResult
result_of r = record { status = r.status; value = r.value; error = none }

module _ (n : ℕ) (path stdin : Bytes) (given : List ℕ) (l : List Arrival) (r : Response) where
  abbrev world : World
  world = record {
    sun_path_size = n;
    answers = all_well;
    stdin = stdin;
    sends = map sends given;
    recvs = answers l;
  }
