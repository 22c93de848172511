-- ===== src/CommandLine/Outcomes.antt =====
-- What the exit code, the message and the output of the command line client are to be.
use local_cache_service.Base.{ℕ, ◌≡◌, ◌≢◌, ◌⊎◌, List, [], ◌∷◌, none, some, true, false, Bytes}
use Prim.Native.String.{String}
use local_cache_service.Base.Text.{same_text}
use local_cache_service.Protocol.{Opcode, Status}
use local_cache_service.Stats.{zeros}
use local_cache_service.Serializer.StatsPayload.{deserialize_stats}
use local_cache_service.Client.Defs
use local_cache_service.Client.Defs.{
  Client, ClientError, CacheResult, StatsResult, Send, connect, ping, execute, server_returned,
  malformed_stats, with_stats, stats_of, stats_payload,
}
use local_cache_service.CommandLine.Defs.{
  Output, nothing, usage, value, Message, quiet, connect_failed, requires_key, failed, not_found,
  returned, unknown_command, Ending, Parsed, help, arguments, report_status, World,
}

-- The exit code and the message for a status, as the usage text has them.
pub data IsReported : Status → ℕ → Message → Type 0 where
  well : IsReported Status.ok 0 quiet
  missing : IsReported Status.not_found 3 not_found
  refused : (s : Status) → s ≢ Status.ok → s ≢ Status.not_found → IsReported s 4 (returned s)

pub report_status-IsReported : (s : Status) → IsReported s (report_status s).0 (report_status s).1
unfolding report_status
report_status-IsReported Status.ok = well
report_status-IsReported Status.not_found = missing
report_status-IsReported Status.invalid_request = refused Status.invalid_request (λ e. cc) (λ e. cc)
report_status-IsReported Status.value_too_large = refused Status.value_too_large (λ e. cc) (λ e. cc)
report_status-IsReported Status.server_busy = refused Status.server_busy (λ e. cc) (λ e. cc)
report_status-IsReported Status.unsupported_version =
    refused Status.unsupported_version (λ e. cc) (λ e. cc)
report_status-IsReported Status.internal_error = refused Status.internal_error (λ e. cc) (λ e. cc)

-- The exit code and the message for what a request came to; `stats` has errors of its own.
pub data IsOutcome (opcode : Opcode) (command : Bytes) (result : CacheResult)
    : ℕ → Message → Type 0 where
  broken :
      (e : ClientError)
      → result.error ≡ some e
      → IsOutcome opcode command result 1 (failed command e)
  answered :
      (code : ℕ) (message : Message)
      → result.error ≡ none
      → opcode ≢ Opcode.stats
      → IsReported result.status code message
      → IsOutcome opcode command result code message
  counted :
      result.error ≡ none
      → opcode ≡ Opcode.stats
      → result.status ≡ Status.ok
      → IsOutcome opcode command result 0 quiet
  uncounted :
      result.error ≡ none
      → opcode ≡ Opcode.stats
      → result.status ≢ Status.ok
      → IsOutcome opcode command result 1 (failed command (server_returned result.status))
  garbled :
      result.error ≡ none
      → opcode ≡ Opcode.stats
      → result.status ≡ Status.ok
      → deserialize_stats result.value zeros ≡ none
      → IsOutcome opcode command result 1 (failed command malformed_stats)

-- The word of each command.
abbrev pub word : Opcode → String
word Opcode.get = "get"
word Opcode.put = "put"
word Opcode.delete = "delete"
word Opcode.ping = "ping"
word Opcode.stats = "stats"
word Opcode.clear = "clear"

-- A value on stdout is that of a GET that found it.
abbrev pub IsPrinted : Opcode → CacheResult → Output → Type 0
IsPrinted opcode result output =
    (v : Bytes)
    → output ≡ value v
    → (opcode ≡ Opcode.get) × ((result.status ≡ Status.ok) × (v ≡ result.value))

-- What the program did with its arguments, by how it ended.
pub data IsEnding (w : World) : Parsed → Ending → Type 0 where
  helped : IsEnding w help (record { code = 0; output = usage; message = quiet; sent = [] })
  no_command :
      (path : Bytes)
      → IsEnding w
          (arguments path [])
          (record { code = 2; output = usage; message = quiet; sent = [] })
  unreached :
      (path command : Bytes) (args : List Bytes) (e : ClientError)
      → (connect w.sun_path_size w.answers (Defs.init path)).1 ≡ some e
      → IsEnding w
          (arguments path (command ∷ args))
          (record { code = 1; output = nothing; message = connect_failed e; sent = [] })
  misused :
      (path command : Bytes) (opcode : Opcode)
      → same_text command (word opcode) ≡ true
      → (opcode ≡ Opcode.put) ⊎ ((opcode ≡ Opcode.get) ⊎ (opcode ≡ Opcode.delete))
      → IsEnding w
          (arguments path (command ∷ []))
          (record { code = 2; output = nothing; message = requires_key command; sent = [] })
  unknown :
      (path command : Bytes) (args : List Bytes)
      → ((opcode : Opcode) → same_text command (word opcode) ≡ false)
      → IsEnding w
          (arguments path (command ∷ args))
          (record { code = 2; output = usage; message = unknown_command command; sent = [] })
  requested :
      (path command : Bytes) (args : List Bytes) (opcode : Opcode) (key v : Bytes) (c c' : Client)
      (result : CacheResult) (e : Ending)
      → same_text command (word opcode) ≡ true
      → connect w.sun_path_size w.answers (Defs.init path) ≡ (c, none)
      → execute c opcode key v w.sends w.recvs ≡ some (c', e.sent, result)
      → IsOutcome opcode command result e.code e.message
      → IsPrinted opcode result e.output
      → IsEnding w (arguments path (command ∷ args)) e
