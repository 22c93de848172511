-- ===== src/Connection/Defs.antt =====
-- The state and the operations of `Connection` (src/connection.cpp, include/cache/connection.h). What
-- the kernel answers to `recv` and `send` is an argument; the socket is the number `fd`.
use local_cache_service.Base.{
  ℕ, ◌-◌, ◌*◌, ◌%◌, List, [], ◌∷◌, ◌++◌, Option, none, some, Bool, true, false, not, ◌||◌,
  if◌then◌else◌, ltb, leb, ◌==◌, Bytes, length, take, drop, add64, sub64, min, u64_mod,
}
use local_cache_service.Protocol
use local_cache_service.Protocol.{
  Limits, Request, Opcode, ParseResult, complete, need_more, malformed, as_opcode, header_size,
}
use local_cache_service.Serializer.Integers.{read_u8, read_u32, read_u64}
use local_cache_service.Serializer.Frames.{deserialize_request}
use local_cache_service.Connection.Events.{EventSet, no_events}

pub record ConnectionLimits : Type 0 where
  pub protocol_limits : Limits
  pub max_output_bytes : ℕ
  pub max_inflight : ℕ

pub data IoResult : Type 0 where
  ok would_block closed error : IoResult

pub record Connection : Type 0 where
  pub fd : ℕ
  pub id : ℕ
  pub limits : ConnectionLimits
  pub in_buf : Bytes
  pub in_pos : ℕ
  pub write_buf : Bytes
  pub write_pos : ℕ
  pub registered_events : EventSet
  pub close_after_flush : Bool
  pub staged : Bytes
  pub inflight : ℕ
  pub is_closed : Bool
  pub notify_pending : Bool
  pub pending_output_bytes : ℕ

unfoldable pub init : ℕ → ℕ → ConnectionLimits → Connection
init fd id limits = record {
  fd = fd;
  id = id;
  limits = limits;
  in_buf = [];
  in_pos = 0;
  write_buf = [];
  write_pos = 0;
  registered_events = no_events;
  close_after_flush = false;
  staged = [];
  inflight = 0;
  is_closed = false;
  notify_pending = false;
  pending_output_bytes = 0;
}

abbrev pub compact_threshold_bytes : ℕ
compact_threshold_bytes = 32 * 1024

-- What `recv` answers: bytes, at least one; 0; or -1 with EINTR, EAGAIN or another error.
pub data Recv : Type 0 where
  received : ℕ → Bytes → Recv
  end_of_stream interrupted again failed : Recv

unfoldable pub read_some : Connection → Recv → Connection × IoResult
read_some c (received first chunk) = (record c { in_buf = c.in_buf ++ (first ∷ chunk) }, ok)
read_some c end_of_stream = (c, closed)
read_some c interrupted = (c, ok)
read_some c again = (c, would_block)
read_some c failed = (c, error)

unfoldable pub compact_input : Connection → Connection
compact_input c =
    if c.in_pos == 0 then c else record c { in_buf = drop c.in_pos c.in_buf; in_pos = 0 }

-- what follows the parse in `next_request`
unfoldable pub after_parse : Connection → ParseResult Request → Connection
after_parse c (complete request consumed) =
    let c₁ = record c { in_pos = add64 c.in_pos consumed } in
    if leb compact_threshold_bytes c₁.in_pos then compact_input c₁ else c₁
after_parse c need_more = compact_input c
after_parse c (malformed e) = c

unfoldable pub next_request : Connection → Connection × ParseResult Request
next_request c =
    let result = deserialize_request (drop c.in_pos c.in_buf) c.limits.protocol_limits in
    (after_parse c result, result)

abbrev identified_by : ℕ → Option Opcode → Option (ℕ × Opcode)
identified_by id none = none
identified_by id (some opcode) = some (id, opcode)

-- `none` stands for the answer false.
unfoldable pub peek_request_header : Connection → Option (ℕ × Opcode)
peek_request_header c =
    let head = drop c.in_pos c.in_buf in
    if ltb (length head) header_size
    then none
    else if not (read_u32 head == Protocol.magic)
    then none
    else identified_by (read_u64 (drop 8 head)) (as_opcode (read_u8 (drop 5 head)))

unfoldable pub mark_close_after_flush : Connection → Connection
mark_close_after_flush c = record c { close_after_flush = true }

unfoldable pub set_registered_events : Connection → EventSet → Connection
set_registered_events c events = record c { registered_events = events }

unfoldable pub note_request_submitted : Connection → Connection
note_request_submitted c = record c { inflight = add64 c.inflight 1 }

unfoldable pub inflight_limit_reached : Connection → Bool
inflight_limit_reached c = leb c.limits.max_inflight c.inflight

unfoldable pub mark_closed : Connection → Connection
mark_closed c = record c { is_closed = true }

-- the two `if (completes_request)`
unfoldable pub finish_request : Connection → Bool → Connection
finish_request c true = record c { inflight = sub64 c.inflight 1 }
finish_request c false = c

-- `enqueue_response` behind the test of `closed()`, whose answer is the first argument
unfoldable pub enqueue_unless : Bool → Connection → Bytes → Bool → Connection × Bool
enqueue_unless true c frame completes_request = (finish_request c completes_request, false)
enqueue_unless false c frame completes_request =
    let pending = add64 c.pending_output_bytes (length frame) in
    (
      finish_request (record c { staged = c.staged ++ frame; pending_output_bytes = pending })
          completes_request,
      not (ltb (c.limits.max_output_bytes * 2 % u64_mod) pending),
    )

unfoldable pub enqueue_response : Connection → Bytes → Bool → Connection × Bool
enqueue_response c frame completes_request = enqueue_unless c.is_closed c frame completes_request

unfoldable pub try_mark_notified : Connection → Connection × Bool
try_mark_notified c = (record c { notify_pending = true }, not c.notify_pending)

unfoldable pub clear_notified : Connection → Connection
clear_notified c = record c { notify_pending = false }

unfoldable pub has_pending_output : Connection → Bool
has_pending_output c = ltb 0 c.pending_output_bytes

unfoldable pub read_paused : Connection → Bool
read_paused c = ltb c.limits.max_output_bytes c.pending_output_bytes || inflight_limit_reached c

-- What happens, in order, while `flush_output` runs: what `send` answers, a number of bytes, of which
-- no more than it was given are taken, or -1 with EINTR, EAGAIN or another error; and the workers that
-- stage a response between two rounds of the loop.
pub data Event : Type 0 where
  sends : ℕ → Event
  interrupts would_block fails : Event
  worker : Bytes → Bool → Event

-- The first `if` of a round: there is nothing left to write, or the buffer to write from.
pub data Refilled : Type 0 where
  nothing_left ready : Connection → Refilled

abbrev pub swapped : Connection → Bytes → Refilled
swapped c [] = nothing_left (record c { write_buf = []; write_pos = 0 })
swapped c (x ∷ staged) = ready (record c { write_buf = x ∷ staged; write_pos = 0; staged = [] })

unfoldable pub refill : Connection → Refilled
refill c = if leb (length c.write_buf) c.write_pos then swapped c c.staged else ready c

-- `n` bytes are gone
unfoldable pub advance : Connection → ℕ → Connection
advance c n = record c {
  write_pos = add64 c.write_pos n;
  pending_output_bytes = sub64 c.pending_output_bytes n;
}

abbrev pub and_sent :
    Bytes → Option (Connection × Bytes × IoResult) → Option (Connection × Bytes × IoResult)
and_sent bytes none = none
and_sent bytes (some (c, sent, result)) = some (c, bytes ++ sent, result)

-- A round of the loop: it ends with kOk when nothing is left, and writes otherwise.
abbrev pub in_round :
    Refilled
    → (Connection → Option (Connection × Bytes × IoResult))
    → Option (Connection × Bytes × IoResult)
in_round (nothing_left c) write = some (c, [], ok)
in_round (ready c) write = write c

abbrev pub still_running : Connection → Option (Connection × Bytes × IoResult)
still_running c = none

-- `flush_output`, with the bytes that the kernel took. `none`: the loop is still running when the
-- events end.
unfoldable pub flush_output : Connection → List Event → Option (Connection × Bytes × IoResult)
flush_output c [] = in_round (refill c) still_running
flush_output c (worker frame completes ∷ events) =
    flush_output (enqueue_response c frame completes).0 events
flush_output c (sends given ∷ events) = in_round (refill c) (λ c'.
    let n = min given (length c'.write_buf - c'.write_pos) in
    let rest = flush_output (advance c' n) events in
    if ltb 0 n
    then and_sent (take n (drop c'.write_pos c'.write_buf)) rest
    else some (c', [], error))
flush_output c (interrupts ∷ events) = in_round (refill c) (λ c'. flush_output c' events)
flush_output c (would_block ∷ events) =
    in_round (refill c) (λ c'. some (c', [], IoResult.would_block))
flush_output c (fails ∷ events) = in_round (refill c) (λ c'. some (c', [], error))
