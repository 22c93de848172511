-- ===== src/Protocol/Names.antt =====
-- The names that logs and error messages print: the three `to_string` of src/protocol.cpp.
use Prim.Native.String.{String}
use local_cache_service.Protocol.{Opcode, get, put, delete, ping, stats, clear, Status, ParseError}

unfoldable pub opcode_to_string : Opcode → String
opcode_to_string get = "GET"
opcode_to_string put = "PUT"
opcode_to_string delete = "DELETE"
opcode_to_string ping = "PING"
opcode_to_string stats = "STATS"
opcode_to_string clear = "CLEAR"

unfoldable pub status_to_string : Status → String
status_to_string Status.ok = "OK"
status_to_string Status.not_found = "NOT_FOUND"
status_to_string Status.invalid_request = "INVALID_REQUEST"
status_to_string Status.value_too_large = "VALUE_TOO_LARGE"
status_to_string Status.server_busy = "SERVER_BUSY"
status_to_string Status.internal_error = "INTERNAL_ERROR"
status_to_string Status.unsupported_version = "UNSUPPORTED_VERSION"

unfoldable pub error_to_string : ParseError → String
error_to_string ParseError.bad_magic = "bad magic"
error_to_string ParseError.unsupported_version = "unsupported version"
error_to_string ParseError.invalid_opcode = "invalid opcode"
error_to_string ParseError.invalid_status = "invalid status"
error_to_string ParseError.reserved_flags = "reserved flags set"
error_to_string ParseError.key_too_large = "key too large"
error_to_string ParseError.value_too_large = "value too large"
error_to_string ParseError.payload_not_allowed = "payload not allowed for opcode"
error_to_string ParseError.missing_key = "missing key"
