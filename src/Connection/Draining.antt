-- ===== src/Connection/Draining.antt =====
-- `flush_output` on a socket that takes bytes, and the bound on what a connection holds back.
use local_cache_service.Base.{
  ℕ, ◌+◌, ◌-◌, ◌*◌, ◌≤◌, ◌<◌, ◌≡◌, ◌↔◌, refl, sym, ap, ◌∙◌, List, [], ◌∷◌, ◌++◌, map, append-nil,
  arith, Option, some, Bool, true, false, if◌then◌else◌, ltb, Bytes, length, take, drop, add64,
  u64_mod, min, All, length-append, length-drop, length-take,
}
use local_cache_service.Connection.Defs.{
  Connection, IoResult, sends, Refilled, advance, and_sent, in_round, still_running, flush_output,
  enqueue_unless, enqueue_response,
}
use local_cache_service.Connection.Output.{
  unsent, IsOutput, IsKept, IsKept-trans, Round, idle, busy, refill-Round, advance-IsKept, accepted,
  enqueue_unless-IsKept,
}

abbrev Outcome : Type 0
Outcome = Connection × Bytes × IoResult

-- The run ends with kOk, and has sent all that was unsent.
abbrev IsDrained : Connection → Option Outcome → Type 0
IsDrained c o =
    (c' : Connection) × (◌≡◌ {A = Option Outcome} o (some (c', unsent c, IoResult.ok)))
    × (unsent c' ≡ [])

round-IsDrained :
    {c : Connection} {r : Refilled} (write : Connection → Option Outcome)
    → Round c r
    → ((d : Connection)
        → IsKept c d [] []
        → d.write_pos < length d.write_buf
        → IsDrained c (write d))
    → IsDrained c (in_round r write)
round-IsDrained {c} write (idle d k empty) f =
    let none_left : [] ≡ unsent c = sym empty ∙ k.conserved ∙ append-nil (unsent c) in
    (d, ap (λ (b : Bytes). some (d, b, IoResult.ok)) none_left, empty)
round-IsDrained write (busy d k h) f = f d k h

-- A buffer that has bytes to write is not empty.
busy_length :
    (c d : Connection)
    → IsKept c d [] []
    → length (unsent c) ≡ (length d.write_buf - d.write_pos) + length d.staged
busy_length c d k = omega (
  arith,
  ap length k.conserved,
  ap length (append-nil (unsent c)),
  length-append (drop d.write_pos d.write_buf) d.staged,
  length-drop d.write_pos d.write_buf,
)

write-IsDrained :
    (c d : Connection) (n : ℕ) (rest : Option Outcome)
    → IsKept c d [] []
    → 0 < n
    → n ≤ length d.write_buf - d.write_pos
    → IsDrained (advance d n) rest
    → IsDrained c (
        if ltb 0 n
        then and_sent (take n (drop d.write_pos d.write_buf)) rest
        else some (d, [], IoResult.error))
write-IsDrained c d n rest k positive h (c', run, empty) =
    let bytes = take n (drop d.write_pos d.write_buf) in
    let step = IsKept-trans k (advance-IsKept d n k.output h) in
    let all : bytes ++ unsent (advance d n) ≡ unsent c = step.conserved ∙ append-nil (unsent c) in
    let whole : and_sent bytes rest ≡ some (c', unsent c, IoResult.ok) =
      ap (and_sent bytes) run ∙ ap (λ (b : Bytes). some (c', b, IoResult.ok)) all in
    (c', ground (arith, whole), empty)

-- When every send takes at least a byte, as many sends as there are unsent bytes are enough for
-- flush_output on a well-formed output side to return kOk, having sent exactly these bytes.
pub flush_output_drains :
    (given : List ℕ) (c : Connection)
    → IsOutput c
    → All (λ n. 0 < n) given
    → length (unsent c) ≤ length given
    → (c' : Connection) × (flush_output c (map sends given) ≡ some (c', unsent c, IoResult.ok))
      × (unsent c' ≡ [])
unfolding flush_output
flush_output_drains [] c v h enough =
    round-IsDrained still_running (refill-Round c v)
      (λ d k p. absurd (omega (arith, busy_length c d k)))
flush_output_drains (g ∷ given) c v (g_positive, h) enough =
    round-IsDrained _ (refill-Round c v) (λ d k p.
      let n = min g (length d.write_buf - d.write_pos) in
      let moved = advance-IsKept d n k.output (omega arith) in
      let fewer : length (unsent (advance d n)) + n ≡ length (unsent c) = omega (
        arith,
        busy_length c d k,
        ap length moved.conserved,
        length-append (take n (drop d.write_pos d.write_buf)) (unsent (advance d n)),
        length-take n (drop d.write_pos d.write_buf),
        length-drop d.write_pos d.write_buf,
        ap length (append-nil (unsent d)),
        length-append (drop d.write_pos d.write_buf) d.staged,
      ) in
      write-IsDrained c d n _ k (omega arith) (omega arith)
        (flush_output_drains given (advance d n) moved.output h (omega (arith, fewer))))

accepted_shorter : (b : Bool) (frame : Bytes) → length (accepted b frame) ≤ length frame
accepted_shorter true frame = omega arith
accepted_shorter false frame = omega arith

unless_closed :
    (b : Bool) (c : Connection) (frame : Bytes) (completes : Bool)
    → IsOutput c
    → length (unsent c) + length (accepted b frame) < u64_mod
    → c.limits.max_output_bytes * 2 < u64_mod
    → ((enqueue_unless b c frame completes).1 ≡ true)
      ↔ ((b ≡ false) × (length (unsent c) + length frame ≤ c.limits.max_output_bytes * 2))
unfolding enqueue_unless add64
unless_closed true c frame completes v small limit = (λ h. absurd cc, λ h. absurd (cc h.0))
unless_closed false c frame completes v small limit =
    (λ h. (refl, ground (arith, v.pending, h)), λ h. ground (arith, v.pending, h.1))

-- On a well-formed output side, and with sizes and limits that a machine can hold,
-- enqueue_response answers true exactly when the connection is open and the backlog with the frame
-- is at most twice the limit on output; the frame is appended to the bytes to be sent unless the
-- connection is closed.
pub enqueue_response_iff :
    (c : Connection) (frame : Bytes) (completes : Bool)
    → IsOutput c
    → length (unsent c) + length frame < u64_mod
    → c.limits.max_output_bytes * 2 < u64_mod
    → (((enqueue_response c frame completes).1 ≡ true) ↔ (
        (c.is_closed ≡ false) × (length (unsent c) + length frame ≤ c.limits.max_output_bytes * 2)))
      × IsKept c (enqueue_response c frame completes).0 [] (accepted c.is_closed frame)
unfolding enqueue_response
enqueue_response_iff c frame completes v small limit =
    let shorter = accepted_shorter c.is_closed frame in
    (
      unless_closed c.is_closed c frame completes v (omega arith) limit,
      enqueue_unless-IsKept c.is_closed c frame completes v (omega arith),
    )
