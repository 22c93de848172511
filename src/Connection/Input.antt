-- ===== src/Connection/Input.antt =====
-- The input side of a connection: the stream of bytes and the requests that are cut from it.
use local_cache_service.Base.{
  ℕ, ◌+◌, ◌%◌, ◌≤◌, ◌<◌, ◌≡◌, refl, sym, ap, ◌∙◌, List, [], ◌∷◌, ◌++◌, append-nil, append_assoc,
  arith, Bytes, length, drop, All, All-append, All-drop, add64, u64_mod, drop-append, drop-drop,
  length-append, length-drop, take-append-drop,
}
use local_cache_service.Protocol.{Request, ParseResult, complete, need_more, malformed}
use local_cache_service.Serializer.Integers.Laws.{IsByte}
use local_cache_service.Serializer.Frames.{serialize_request, deserialize_request}
use local_cache_service.Serializer.Reading.{serialize-deserialize}
use local_cache_service.Connection.Defs.{
  Connection, Recv, received, end_of_stream, interrupted, again, failed, read_some, compact_input,
  after_parse, next_request,
}

-- The bytes that have come in and are not part of a request yet.
abbrev pub unread : Connection → Bytes
unread c = drop c.in_pos c.in_buf

pub record IsInput (c : Connection) : Type 0 where
  pub position : c.in_pos ≤ length c.in_buf
  pub size : length c.in_buf < u64_mod
  pub bytes : All IsByte c.in_buf

-- What an operation may do to the rest of the connection: nothing.
pub record IsCut (c c' : Connection) : Type 0 where
  pub input : IsInput c'
  pub shorter : length c'.in_buf ≤ length c.in_buf
  pub limits : c'.limits ≡ c.limits

compact_input-IsCut :
    (c : Connection) → IsInput c → IsCut c (compact_input c) × (unread (compact_input c) ≡ unread c)
unfolding compact_input
compact_input-IsCut c v = (
  record {
    input = record {
      position = ground arith;
      size = ground (arith, v.size, length-drop c.in_pos c.in_buf);
      bytes = ground (arith, v.bytes, All-drop IsByte c.in_pos c.in_buf v.bytes);
    };
    shorter = ground (arith, length-drop c.in_pos c.in_buf);
    limits = ground arith;
  },
  ground arith,
)

abbrev moved : Connection → ℕ → Connection
moved c n = record c { in_pos = add64 c.in_pos n }

moved-IsCut :
    (c : Connection) (n : ℕ)
    → IsInput c
    → n ≤ length (unread c)
    → IsCut c (moved c n) × (unread (moved c n) ≡ drop n (unread c))
unfolding add64
moved-IsCut c n v h =
    let fits : c.in_pos + n ≤ length c.in_buf =
      omega (arith, v.position, length-drop c.in_pos c.in_buf) in
    let same : (c.in_pos + n) % u64_mod ≡ c.in_pos + n = omega (arith, v.size) in
    (
      record {
        input = record { position = omega arith; size = v.size; bytes = v.bytes };
        shorter = omega arith;
        limits = refl;
      },
      ap (λ (k : ℕ). drop k c.in_buf) same ∙ sym (drop-drop n c.in_pos c.in_buf),
    )

IsCut-trans : {c d e : Connection} → IsCut c d → IsCut d e → IsCut c e
IsCut-trans x y = record {
  input = y.input;
  shorter = omega (arith, x.shorter, y.shorter);
  limits = y.limits ∙ x.limits;
}

-- The bytes of the request that a parse has found.
abbrev pub delivered : ParseResult Request → Bytes
delivered (complete r n) = serialize_request r
delivered need_more = []
delivered (malformed e) = []

after_complete :
    (c : Connection) (r : Request) (n : ℕ)
    → IsInput c
    → n ≤ length (unread c)
    → IsCut c (after_parse c (complete r n))
      × (unread (after_parse c (complete r n)) ≡ drop n (unread c))
unfolding after_parse
after_complete c r n v h =
    let (cut, rest) = moved-IsCut c n v h in
    let (cut', same) = compact_input-IsCut (moved c n) cut.input in
    let both = IsCut-trans cut cut' in ground (arith, cut, rest, both, same)

pub after_parse-IsCut :
    (c : Connection) (p : ParseResult Request)
    → IsInput c
    → deserialize_request (unread c) c.limits.protocol_limits ≡ p
    → IsCut c (after_parse c p) × (delivered p ++ unread (after_parse c p) ≡ unread c)
after_parse-IsCut c (complete r n) v e =
    let (_, fits, taken) =
      serialize-deserialize c.limits.protocol_limits (unread c) r n
        (All-drop IsByte c.in_pos c.in_buf v.bytes) e in
    let (cut, rest) = after_complete c r n v fits in
    (cut, rw (rest, sym taken) (take-append-drop n (unread c)))
after_parse-IsCut c need_more v e = unfold after_parse in compact_input-IsCut c v
after_parse-IsCut c (malformed x) v e =
    unfold after_parse in (record { input = v; shorter = omega arith; limits = refl }, refl)

-- The bytes that one answer of `recv` carries.
abbrev pub arrived : Recv → Bytes
arrived (received first chunk) = first ∷ chunk
arrived r = []

-- What the event loop does with the input of a connection.
pub data InputStep : Type 0 where
  read : Recv → InputStep
  next : InputStep

abbrev pub chunk : InputStep → Bytes
chunk (read r) = arrived r
chunk next = []

abbrev pub stream : List InputStep → Bytes
stream [] = []
stream (step ∷ steps) = chunk step ++ stream steps

-- The requests that a parse gives.
abbrev pub found : ParseResult Request → List Request
found (complete r n) = r ∷ []
found need_more = []
found (malformed e) = []

unfoldable pub input_step : Connection → InputStep → Connection × List Request
input_step c (read r) = ((read_some c r).0, [])
input_step c next = let (c', p) = next_request c in (c', found p)

unfoldable pub run_input : Connection → List InputStep → Connection × List Request
run_input c [] = (c, [])
run_input c (step ∷ steps) =
    let (c₁, requests) = input_step c step in
    let (c₂, more) = run_input c₁ steps in (c₂, requests ++ more)

-- The bytes that a client writes for a list of requests.
abbrev pub frames : List Request → Bytes
frames [] = []
frames (r ∷ rs) = serialize_request r ++ frames rs

frames-append : (rs qs : List Request) → frames (rs ++ qs) ≡ frames rs ++ frames qs
frames-append [] qs = refl
frames-append (r ∷ rs) qs =
    rw (frames-append rs qs) (sym (append_assoc (serialize_request r) (frames rs) (frames qs)))

frames-found : (p : ParseResult Request) → frames (found p) ≡ delivered p
frames-found (complete r n) = append-nil (serialize_request r)
frames-found need_more = refl
frames-found (malformed e) = refl

All-split : (xs ys : Bytes) → All IsByte (xs ++ ys) → All IsByte xs × All IsByte ys
All-split [] ys h = (tt, h)
All-split (x ∷ xs) ys h = let (p, q) = All-split xs ys h.1 in ((h.0, p), q)

pub record IsStep (c c' : Connection) (requests : List Request) (bytes : Bytes) : Type 0 where
  pub input : IsInput c'
  pub shorter : length c'.in_buf ≤ length c.in_buf + length bytes
  pub limits : c'.limits ≡ c.limits
  pub conserved : frames requests ++ unread c' ≡ unread c ++ bytes

read_more :
    (c : Connection) (bytes : Bytes)
    → IsInput c
    → All IsByte bytes
    → length c.in_buf + length bytes < u64_mod
    → IsStep c (record c { in_buf = c.in_buf ++ bytes }) [] bytes
read_more c bytes v h small = record {
  input = record {
    position = omega (arith, v.position, length-append c.in_buf bytes);
    size = omega (arith, length-append c.in_buf bytes);
    bytes = All-append IsByte c.in_buf bytes v.bytes h;
  };
  shorter = omega (arith, length-append c.in_buf bytes);
  limits = refl;
  conserved = drop-append c.in_pos c.in_buf bytes v.position;
}

unchanged : (c : Connection) → IsInput c → IsStep c c [] []
unchanged c v = record {
  input = v;
  shorter = omega arith;
  limits = refl;
  conserved = sym (append-nil (unread c));
}

input_step-IsStep :
    (c : Connection) (step : InputStep)
    → IsInput c
    → All IsByte (chunk step)
    → length c.in_buf + length (chunk step) < u64_mod
    → IsStep c (input_step c step).0 (input_step c step).1 (chunk step)
unfolding input_step read_some next_request
input_step-IsStep c (read (received first bytes)) v h small = read_more c (first ∷ bytes) v h small
input_step-IsStep c (read end_of_stream) v h small = unchanged c v
input_step-IsStep c (read interrupted) v h small = unchanged c v
input_step-IsStep c (read again) v h small = unchanged c v
input_step-IsStep c (read failed) v h small = unchanged c v
input_step-IsStep c next v h small =
    let p = deserialize_request (unread c) c.limits.protocol_limits in
    let (cut, conserved) = after_parse-IsCut c p v refl in
    record {
      input = cut.input;
      shorter = omega (arith, cut.shorter);
      limits = cut.limits;
      conserved = rw (frames-found p, append-nil (unread c)) conserved;
    }

-- For any reads and any calls of next_request, in any order, on a well-formed input buffer that
-- with the bytes to come, which are below 256, stays below 2 ^ 64 in length, the frames of the
-- requests found, with what is unread behind them, are what was unread followed by the bytes that
-- came in; the buffer stays well formed.
pub run_input-IsStep :
    (steps : List InputStep) (c : Connection)
    → IsInput c
    → All IsByte (stream steps)
    → length c.in_buf + length (stream steps) < u64_mod
    → IsStep c (run_input c steps).0 (run_input c steps).1 (stream steps)
unfolding run_input
run_input-IsStep [] c v h small = unchanged c v
run_input-IsStep (step ∷ steps) c v h small =
    let bytes = chunk step in
    let size = length-append bytes (stream steps) in
    let (h₁, h₂) = All-split bytes (stream steps) h in
    let s = input_step-IsStep c step v h₁ (omega (arith, size)) in
    let (c₁, requests) = input_step c step in
    let t = run_input-IsStep steps c₁ s.input h₂ (omega (arith, size, s.shorter)) in
    let (c₂, more) = run_input c₁ steps in
    record {
      input = t.input;
      shorter = omega (arith, size, s.shorter, t.shorter);
      limits = t.limits ∙ s.limits;
      conserved =
          ap (λ b. b ++ unread c₂) (frames-append requests more)
          ∙ append_assoc (frames requests) (frames more) (unread c₂)
          ∙ ap (◌++◌ (frames requests)) t.conserved
          ∙ sym (append_assoc (frames requests) (unread c₁) (stream steps))
          ∙ ap (λ b. b ++ stream steps) s.conserved
          ∙ append_assoc (unread c) bytes (stream steps);
    }
