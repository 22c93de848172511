-- ===== src/Connection/Output.antt =====
-- The output side of a connection: what the workers stage is sent, in order.
use local_cache_service.Base.{
  ℕ, zero, suc, ◌+◌, ◌-◌, ◌%◌, ◌≤◌, ◌<◌, ◌≡◌, inl, inr, refl, sym, ap, ◌∙◌, [], ◌∷◌, ◌++◌,
  append-nil, append_assoc, arith, Bool, true, false, Bool-cases, leb, Bytes, length, take, drop,
  add64, sub64, u64_mod, drop-drop, length-append, length-drop, take-append-drop,
}
use local_cache_service.Connection.Defs.{
  Connection, Refilled, nothing_left, ready, refill, swapped, advance, enqueue_unless,
  finish_request,
}

-- The bytes that are staged or being written, in the order in which they are to be sent.
abbrev pub unsent : Connection → Bytes
unsent c = drop c.write_pos c.write_buf ++ c.staged

pub record IsOutput (c : Connection) : Type 0 where
  pub position : c.write_pos ≤ length c.write_buf
  pub buffer : length c.write_buf < u64_mod
  pub pending : c.pending_output_bytes ≡ length (unsent c)
  pub size : length (unsent c) < u64_mod

-- What an operation keeps, and the bytes that it appends to those to be sent.
pub record IsKept (c c' : Connection) (sent added : Bytes) : Type 0 where
  pub output : IsOutput c'
  pub conserved : sent ++ unsent c' ≡ unsent c ++ added
  pub same : c'.is_closed ≡ c.is_closed

drop-all : (n : ℕ) (xs : Bytes) → length xs ≤ n → drop n xs ≡ []
drop-all zero [] h = refl
drop-all zero (x ∷ xs) h = absurd (omega arith)
drop-all (suc n) [] h = refl
drop-all (suc n) (x ∷ xs) h = drop-all n xs (omega arith)

-- A round of the loop starts with nothing to send, or with a buffer that has bytes to write.
pub data Round (c : Connection) : Refilled → Type 0 where
  idle : (c' : Connection) → IsKept c c' [] [] → unsent c' ≡ [] → Round c (nothing_left c')
  busy :
      (c' : Connection)
      → IsKept c c' [] []
      → c'.write_pos < length c'.write_buf
      → Round c (ready c')

swapped-Round :
    (c : Connection) (staged : Bytes)
    → IsOutput c
    → length c.write_buf ≤ c.write_pos
    → c.staged ≡ staged
    → Round c (swapped c staged)
swapped-Round c [] v h e =
    let gone = drop-all c.write_pos c.write_buf h in
    idle (record c { write_buf = []; write_pos = 0 })
      (record {
        output = record {
          position = omega arith;
          buffer = omega arith;
          pending = rw e (
              omega (
                arith,
                v.pending,
                ap length gone,
                ap length e,
                length-append (drop c.write_pos c.write_buf) c.staged,
              ));
          size = rw e (omega arith);
        };
        conserved = rw (gone, e);
        same = refl;
      })
      e
swapped-Round c (x ∷ staged) v h e =
    let gone = drop-all c.write_pos c.write_buf h in
    let all : unsent c ≡ x ∷ staged = rw gone e in
    busy (record c { write_buf = x ∷ staged; write_pos = 0; staged = [] })
      (record {
        output = record {
          position = omega arith;
          buffer = omega (arith, v.size, ap length all);
          pending = omega (arith, v.pending, ap length all, ap length (append-nil (x ∷ staged)));
          size = omega (arith, v.size, ap length all, ap length (append-nil (x ∷ staged)));
        };
        conserved = ap (λ b. b ++ []) (sym all);
        same = refl;
      })
      (omega arith)

pub refill-Round : (c : Connection) → IsOutput c → Round c (refill c)
unfolding refill
refill-Round c v = elim (Bool-cases (leb (length c.write_buf) c.write_pos)) [
  | inl e ↦ rw e (swapped-Round c c.staged v (ground arith) refl)
  | inr e ↦ rw e (
      busy c (record { output = v; conserved = sym (append-nil (unsent c)); same = refl })
        (ground arith))
]

pub advance-IsKept :
    (c : Connection) (n : ℕ)
    → IsOutput c
    → n ≤ length c.write_buf - c.write_pos
    → IsKept c (advance c n) (take n (drop c.write_pos c.write_buf)) []
unfolding advance add64 sub64
advance-IsKept c n v h =
    let left = drop c.write_pos c.write_buf in
    let position : (c.write_pos + n) % u64_mod ≡ c.write_pos + n =
      omega (arith, v.position, v.buffer) in
    let rest : drop ((c.write_pos + n) % u64_mod) c.write_buf ≡ drop n left =
      ap (λ (k : ℕ). drop k c.write_buf) position ∙ sym (drop-drop n c.write_pos c.write_buf) in
    let sizes : length (drop n left ++ c.staged) + n ≡ length (unsent c) = omega (
      arith,
      length-append (drop n left) c.staged,
      length-append left c.staged,
      length-drop n left,
      length-drop c.write_pos c.write_buf,
    ) in
    record {
      output = record {
        position = omega (arith, v.position, v.buffer);
        buffer = v.buffer;
        pending = rw rest (omega (arith, sizes, v.pending, v.size));
        size = rw rest (omega (arith, sizes, v.size));
      };
      conserved =
          ap (λ b. take n left ++ (b ++ c.staged)) rest
          ∙ sym (append_assoc (take n left) (drop n left) c.staged)
          ∙ ap (λ b. b ++ c.staged) (take-append-drop n left)
          ∙ sym (append-nil (unsent c));
      same = refl;
    }

-- The bytes that a call of `enqueue_response` adds.
abbrev pub accepted : Bool → Bytes → Bytes
accepted true frame = []
accepted false frame = frame

-- `finish_request` leaves the output alone.
finish_request-IsKept :
    (c d : Connection) (b : Bool) (added : Bytes)
    → IsKept c d [] added
    → IsKept c (finish_request d b) [] added
unfolding finish_request
finish_request-IsKept c d true added k = record {
  output = record {
    position = k.output.position;
    buffer = k.output.buffer;
    pending = k.output.pending;
    size = k.output.size;
  };
  conserved = k.conserved;
  same = k.same;
}
finish_request-IsKept c d false added k = k

staged-IsKept :
    (c : Connection) (frame : Bytes)
    → IsOutput c
    → length (unsent c) + length frame < u64_mod
    → IsKept c
        (record c {
          staged = c.staged ++ frame;
          pending_output_bytes = add64 c.pending_output_bytes (length frame);
        })
        []
        frame
unfolding add64
staged-IsKept c frame v h =
    let left = drop c.write_pos c.write_buf in
    let all = append_assoc left c.staged frame in
    record {
      output = record {
        position = v.position;
        buffer = v.buffer;
        pending = omega (arith, ap length all, length-append (unsent c) frame, v.pending);
        size = omega (arith, ap length all, length-append (unsent c) frame);
      };
      conserved = sym all;
      same = refl;
    }

pub enqueue_unless-IsKept :
    (b : Bool) (c : Connection) (frame : Bytes) (completes : Bool)
    → IsOutput c
    → length (unsent c) + length (accepted b frame) < u64_mod
    → IsKept c (enqueue_unless b c frame completes).0 [] (accepted b frame)
unfolding enqueue_unless
enqueue_unless-IsKept true c frame completes v h =
    finish_request-IsKept c c completes []
      (record { output = v; conserved = sym (append-nil (unsent c)); same = refl })
enqueue_unless-IsKept false c frame completes v h =
    finish_request-IsKept c
      (record c {
        staged = c.staged ++ frame;
        pending_output_bytes = add64 c.pending_output_bytes (length frame);
      })
      completes frame (staged-IsKept c frame v h)

pub IsKept-trans :
    {c d e : Connection} {sent sent' added added' : Bytes}
    → IsKept c d sent added
    → IsKept d e sent' added'
    → IsKept c e (sent ++ sent') (added ++ added')
IsKept-trans {c} {d} {e} {sent} {sent'} {added} {added'} k l = record {
  output = l.output;
  conserved =
      append_assoc sent sent' (unsent e)
      ∙ ap (◌++◌ sent) l.conserved
      ∙ sym (append_assoc sent (unsent d) added')
      ∙ ap (λ b. b ++ added') k.conserved
      ∙ append_assoc (unsent c) added added';
  same = l.same ∙ k.same;
}
