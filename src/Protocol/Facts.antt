-- ===== src/Protocol/Facts.antt =====
-- Bytes and enumerators: the casts of src/protocol.cpp are inverse to one another.
use local_cache_service.Base.{ℕ, ◌≡◌, refl, ◌<◌, some, arith}
use local_cache_service.Protocol.{Opcode, get, Status, raw_opcode, as_opcode, raw_status, as_status}

pub as_opcode-raw_opcode : (o : Opcode) → as_opcode (raw_opcode o) ≡ some o
unfolding as_opcode raw_opcode
as_opcode-raw_opcode get = refl
as_opcode-raw_opcode o = refl

pub raw_opcode-as_opcode : (raw : ℕ) {o : Opcode} → as_opcode raw ≡ some o → raw_opcode o ≡ raw
unfolding as_opcode raw_opcode
raw_opcode-as_opcode raw h = ground arith

pub raw_opcode-lt : (o : Opcode) → raw_opcode o < 256
unfolding raw_opcode
raw_opcode-lt get = omega arith
raw_opcode-lt o = omega arith

pub as_status-raw_status : (s : Status) → as_status (raw_status s) ≡ some s
unfolding as_status raw_status
as_status-raw_status Status.ok = refl
as_status-raw_status s = refl

pub raw_status-as_status : (raw : ℕ) {s : Status} → as_status raw ≡ some s → raw_status s ≡ raw
unfolding as_status raw_status
raw_status-as_status raw h = ground arith

pub raw_status-lt : (s : Status) → raw_status s < 256
unfolding raw_status
raw_status-lt Status.ok = omega arith
raw_status-lt s = omega arith
