-- ===== src/Connection/Tests.antt =====
-- The theorems at a connection in the middle of its work.
use local_cache_service.Base.{
  ◌≤◌, ◌≡◌, ◌↔◌, refl, List, [], ◌∷◌, map, arith, some, true, false, add64, sub64,
}
use local_cache_service.Connection.Defs
use local_cache_service.Connection.Events.{no_events}
use local_cache_service.Connection.Defs.{
  Connection, ConnectionLimits, IoResult, Event, received, sends, interrupts, worker, init,
  flush_output, enqueue_response,
}
use local_cache_service.Connection.Input.{
  InputStep, read, next, run_input, IsInput, IsStep, run_input-IsStep,
}
use local_cache_service.Connection.Output.{unsent, IsOutput, IsKept}
use local_cache_service.Connection.Flushing.{IsFlushed, flush_output-IsFlushed}
use local_cache_service.Connection.Draining.{flush_output_drains, enqueue_response_iff}

abbrev limits : ConnectionLimits
limits = record {
  protocol_limits = record { max_key_bytes = 16; max_value_bytes = 16 };
  max_output_bytes = 8;
  max_inflight = 2;
}

-- Two bytes are being written, the first of them is gone, and two more are staged.
abbrev writing : Connection
writing = record {
  fd = 4;
  id = 1;
  limits = limits;
  in_buf = 9 ∷ 8 ∷ [];
  in_pos = 1;
  write_buf = 1 ∷ 2 ∷ [];
  write_pos = 1;
  registered_events = no_events;
  close_after_flush = false;
  staged = 3 ∷ 4 ∷ [];
  inflight = 1;
  is_closed = false;
  notify_pending = false;
  pending_output_bytes = 3;
}

writing-IsInput : IsInput writing
writing-IsInput = record { position = omega arith; size = omega arith; bytes = omega arith }

writing-IsOutput : IsOutput writing
writing-IsOutput = record {
  position = omega arith;
  buffer = omega arith;
  pending = refl;
  size = omega arith;
}

abbrev events : List Event
events = sends 5 ∷ interrupts ∷ worker (5 ∷ []) true ∷ sends 1 ∷ sends 9 ∷ sends 9 ∷ []

abbrev written : Connection
written = record writing {
  write_buf = [];
  write_pos = 0;
  staged = [];
  inflight = 0;
  pending_output_bytes = 0;
}

writing_flushed : flush_output writing events ≡ some (written, 2 ∷ 3 ∷ 4 ∷ 5 ∷ [], IoResult.ok)
unfolding flush_output Defs.refill Defs.advance enqueue_response Defs.enqueue_unless
    Defs.finish_request add64 sub64
writing_flushed = refl

flush_output-IsFlushed_example : IsFlushed writing events written (2 ∷ 3 ∷ 4 ∷ 5 ∷ []) IoResult.ok
flush_output-IsFlushed_example =
    flush_output-IsFlushed events writing writing-IsOutput (omega arith) writing_flushed

flush_output_drains_example :
    (c : Connection) × (flush_output writing (map sends (1 ∷ 1 ∷ 7 ∷ []))
      ≡ some (c, 2 ∷ 3 ∷ 4 ∷ [], IoResult.ok))
    × (unsent c ≡ [])
flush_output_drains_example =
    flush_output_drains (1 ∷ 1 ∷ 7 ∷ []) writing writing-IsOutput (omega arith) (omega arith)

enqueue_response_iff_example :
    (((enqueue_response writing (7 ∷ []) true).1 ≡ true) ↔ ((writing.is_closed ≡ false) × (4 ≤ 16)))
    × IsKept writing (enqueue_response writing (7 ∷ []) true).0 [] (7 ∷ [])
enqueue_response_iff_example =
    enqueue_response_iff writing (7 ∷ []) true writing-IsOutput (omega arith) (omega arith)

abbrev steps : List InputStep
steps = next ∷ read (received 7 (6 ∷ [])) ∷ next ∷ []

run_input-IsStep_example :
    IsStep writing (run_input writing steps).0 (run_input writing steps).1 (7 ∷ 6 ∷ [])
run_input-IsStep_example =
    run_input-IsStep steps writing writing-IsInput (omega arith) (omega arith)
