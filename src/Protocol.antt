-- ===== src/Protocol.antt =====
-- The wire protocol's vocabulary: include/cache/protocol.h and src/protocol.cpp.
pub mod Names
pub mod Facts
use local_cache_service.Base.{
  ℕ, ◌+◌, ◌*◌, ◌≤◌, ◌<◌, Option, none, some, Bool, true, false, if◌then◌else◌, ◌==◌, Bytes,
}

abbrev pub magic : ℕ
magic = 0x4c435331

abbrev pub version : ℕ
version = 1

abbrev pub header_size : ℕ
header_size = 24

abbrev pub max_key_bytes : ℕ
max_key_bytes = 64 * 1024

abbrev pub max_value_bytes : ℕ
max_value_bytes = 64 * 1024 * 1024

abbrev pub max_frame_bytes : ℕ
max_frame_bytes = header_size + max_key_bytes + max_value_bytes

pub data Opcode : Type 0 where
  get put delete ping stats clear : Opcode

pub data Status : Type 0 where
  ok not_found invalid_request value_too_large server_busy internal_error unsupported_version :
      Status

pub data ParseError : Type 0 where
  bad_magic unsupported_version invalid_opcode invalid_status : ParseError
  reserved_flags key_too_large value_too_large payload_not_allowed missing_key : ParseError

-- The underlying byte of an enumerator, and back; a byte that names none has `none`.
unfoldable pub raw_opcode : Opcode → ℕ
raw_opcode get = 1
raw_opcode put = 2
raw_opcode delete = 3
raw_opcode ping = 4
raw_opcode stats = 5
raw_opcode clear = 6

unfoldable pub as_opcode : ℕ → Option Opcode
as_opcode raw =
    if raw == 1
    then some get
    else if raw == 2
    then some put
    else if raw == 3
    then some delete
    else if raw == 4
    then some ping
    else if raw == 5
    then some stats
    else if raw == 6
    then some clear
    else none

unfoldable pub raw_status : Status → ℕ
raw_status Status.ok = 0
raw_status Status.not_found = 1
raw_status Status.invalid_request = 2
raw_status Status.value_too_large = 3
raw_status Status.server_busy = 4
raw_status Status.internal_error = 5
raw_status Status.unsupported_version = 6

unfoldable pub as_status : ℕ → Option Status
as_status raw =
    if raw == 0
    then some Status.ok
    else if raw == 1
    then some Status.not_found
    else if raw == 2
    then some Status.invalid_request
    else if raw == 3
    then some Status.value_too_large
    else if raw == 4
    then some Status.server_busy
    else if raw == 5
    then some Status.internal_error
    else if raw == 6
    then some Status.unsupported_version
    else none

unfoldable pub is_valid_opcode : ℕ → Bool
is_valid_opcode raw = elim (as_opcode raw) [ some _ ↦ true | none ↦ false ]

unfoldable pub is_valid_status : ℕ → Bool
is_valid_status raw = elim (as_status raw) [ some _ ↦ true | none ↦ false ]

pub record Header : Type 0 where
  pub version : ℕ
  pub opcode : ℕ
  pub flags : ℕ
  pub status : ℕ
  pub request_id : ℕ
  pub key_len : ℕ
  pub value_len : ℕ

pub record Request : Type 0 where
  pub opcode : Opcode
  pub request_id : ℕ
  pub key : Bytes
  pub value : Bytes

pub record Response : Type 0 where
  pub opcode : Opcode
  pub status : Status
  pub request_id : ℕ
  pub value : Bytes

-- A `ParseResult` with what the parser writes to its out-parameter: it writes there only when the
-- frame is complete. The number is `consumed`.
pub data ParseResult {ℓ} (A : Type ℓ) : Type ℓ where
  complete : A → ℕ → ParseResult A
  need_more : ParseResult A
  malformed : ParseError → ParseResult A

pub record Limits : Type 0 where
  pub max_key_bytes : ℕ
  pub max_value_bytes : ℕ

unfoldable pub opcode_requires_key : Opcode → Bool
opcode_requires_key get = true
opcode_requires_key put = true
opcode_requires_key delete = true
opcode_requires_key ping = false
opcode_requires_key stats = false
opcode_requires_key clear = false

unfoldable pub opcode_allows_value : Opcode → Bool
opcode_allows_value put = true
opcode_allows_value get = false
opcode_allows_value delete = false
opcode_allows_value ping = false
opcode_allows_value stats = false
opcode_allows_value clear = false
