-- ===== src/Serializer/StatsPayload.antt =====
-- The STATS payload: `kStatsFields`, `serialize_stats` and `deserialize_stats` of src/serializer.cpp.
use local_cache_service.Base.{
  ℕ, zero, suc, ◌+◌, ◌*◌, ◌%◌, ◌^◌, ◌<◌, ◌≡◌, refl, ◌≢◌, ◌≤◌, ◌⊎◌, inl, inr, Bool-cases, sym, ap,
  ◌∙◌, List, [], ◌∷◌, ◌++◌, Bytes, u64_mod, min, arith, length, drop, All, Option, none, some, ltb,
  if◌then◌else◌, append_assoc, length-append, drop-drop,
}
use local_cache_service.Stats.{StatsSnapshot}
use local_cache_service.Serializer.Integers.{append_u16, append_u64, read_u16, read_u64}
use local_cache_service.Serializer.Integers.Laws.{
  be16, be64, append_u16-be16, append_u64-be64, read_u16-be16, read_u64-be64,
}

-- A pointer to a member of `StatsSnapshot`.
pub record Field : Type 0 where
  pub load : StatsSnapshot → ℕ
  pub store : StatsSnapshot → ℕ → StatsSnapshot

abbrev pub stats_fields : List Field
stats_fields =
    record { load = λ s. s.cache_hits; store = λ s x. record s { cache_hits = x } }
    ∷ record { load = λ s. s.cache_misses; store = λ s x. record s { cache_misses = x } }
    ∷ record { load = λ s. s.puts; store = λ s x. record s { puts = x } }
    ∷ record { load = λ s. s.deletes; store = λ s x. record s { deletes = x } }
    ∷ record { load = λ s. s.evictions; store = λ s x. record s { evictions = x } }
    ∷ record { load = λ s. s.current_entries; store = λ s x. record s { current_entries = x } }
    ∷ record {
      load = λ s. s.current_cache_bytes;
      store = λ s x. record s { current_cache_bytes = x };
    }
    ∷ record {
      load = λ s. s.current_payload_bytes;
      store = λ s x. record s { current_payload_bytes = x };
    }
    ∷ record {
      load = λ s. s.active_connections;
      store = λ s x. record s { active_connections = x };
    }
    ∷ record { load = λ s. s.total_connections; store = λ s x. record s { total_connections = x } }
    ∷ record {
      load = λ s. s.requests_processed;
      store = λ s x. record s { requests_processed = x };
    }
    ∷ record { load = λ s. s.protocol_errors; store = λ s x. record s { protocol_errors = x } }
    ∷ record { load = λ s. s.rejected_requests; store = λ s x. record s { rejected_requests = x } }
    ∷ record { load = λ s. s.uptime_ms; store = λ s x. record s { uptime_ms = x } }
    ∷ []

-- the loop of `serialize_stats`
append_fields : List Field → StatsSnapshot → Bytes → Bytes
append_fields [] stats out = out
append_fields (field ∷ fields) stats out =
    append_fields fields stats (append_u64 out (field.load stats))

unfoldable pub serialize_stats : StatsSnapshot → Bytes
unfolding append_fields
serialize_stats stats =
    append_fields stats_fields stats (append_u16 [] (length stats_fields % 2 ^ 16))

-- the loop of `deserialize_stats`: `readable` more fields, the next one at the index `i`; `none` is the
-- fault of an index behind `kStatsFields`
read_fields : ℕ → ℕ → List Field → Bytes → StatsSnapshot → Option StatsSnapshot
read_fields zero i fields input out = some out
read_fields (suc readable) i [] input out = none
read_fields (suc readable) i (field ∷ fields) input out =
    read_fields readable (i + 1) fields input (field.store out (read_u64 (drop (2 + i * 8) input)))

-- `none` stands for the answer false, where `out` is as it was, or for the fault of the loop.
unfoldable pub deserialize_stats : Bytes → StatsSnapshot → Option StatsSnapshot
unfolding read_fields
deserialize_stats input out =
    if ltb (length input) 2
    then none
    else (let count = read_u16 input in
        if ltb (length input) (2 + count * 8)
        then none
        else read_fields (min count (length stats_fields)) 0 stats_fields input out)

-- The encoding of a list of numbers, and a snapshot whose first fields are overwritten by it.
abbrev pub words : List ℕ → Bytes
words [] = []
words (x ∷ xs) = be64 x ++ words xs

overwrite : List Field → List ℕ → StatsSnapshot → StatsSnapshot
overwrite [] xs out = out
overwrite (field ∷ fields) [] out = out
overwrite (field ∷ fields) (x ∷ xs) out = overwrite fields xs (field.store out x)

-- The number at an index, or what was there.
abbrev pub word_or : ℕ → ℕ → List ℕ → ℕ
word_or old i [] = old
word_or old zero (x ∷ xs) = x
word_or old (suc i) (x ∷ xs) = word_or old i xs

-- The places of the wire format.
abbrev pub overwritten : List ℕ → StatsSnapshot → StatsSnapshot
overwritten xs old = record {
  cache_hits = word_or old.cache_hits 0 xs;
  cache_misses = word_or old.cache_misses 1 xs;
  puts = word_or old.puts 2 xs;
  deletes = word_or old.deletes 3 xs;
  evictions = word_or old.evictions 4 xs;
  current_entries = word_or old.current_entries 5 xs;
  current_cache_bytes = word_or old.current_cache_bytes 6 xs;
  current_payload_bytes = word_or old.current_payload_bytes 7 xs;
  active_connections = word_or old.active_connections 8 xs;
  total_connections = word_or old.total_connections 9 xs;
  requests_processed = word_or old.requests_processed 10 xs;
  protocol_errors = word_or old.protocol_errors 11 xs;
  rejected_requests = word_or old.rejected_requests 12 xs;
  uptime_ms = word_or old.uptime_ms 13 xs;
}

overwrite-overwritten :
    (xs : List ℕ) (out : StatsSnapshot) → overwrite stats_fields xs out ≡ overwritten xs out
unfolding overwrite
overwrite-overwritten [] out = refl
overwrite-overwritten (x0 ∷ []) out = refl
overwrite-overwritten (x0 ∷ x1 ∷ []) out = refl
overwrite-overwritten (x0 ∷ x1 ∷ x2 ∷ []) out = refl
overwrite-overwritten (x0 ∷ x1 ∷ x2 ∷ x3 ∷ []) out = refl
overwrite-overwritten (x0 ∷ x1 ∷ x2 ∷ x3 ∷ x4 ∷ []) out = refl
overwrite-overwritten (x0 ∷ x1 ∷ x2 ∷ x3 ∷ x4 ∷ x5 ∷ []) out = refl
overwrite-overwritten (x0 ∷ x1 ∷ x2 ∷ x3 ∷ x4 ∷ x5 ∷ x6 ∷ []) out = refl
overwrite-overwritten (x0 ∷ x1 ∷ x2 ∷ x3 ∷ x4 ∷ x5 ∷ x6 ∷ x7 ∷ []) out = refl
overwrite-overwritten (x0 ∷ x1 ∷ x2 ∷ x3 ∷ x4 ∷ x5 ∷ x6 ∷ x7 ∷ x8 ∷ []) out = refl
overwrite-overwritten (x0 ∷ x1 ∷ x2 ∷ x3 ∷ x4 ∷ x5 ∷ x6 ∷ x7 ∷ x8 ∷ x9 ∷ []) out = refl
overwrite-overwritten (x0 ∷ x1 ∷ x2 ∷ x3 ∷ x4 ∷ x5 ∷ x6 ∷ x7 ∷ x8 ∷ x9 ∷ x10 ∷ []) out = refl
overwrite-overwritten (x0 ∷ x1 ∷ x2 ∷ x3 ∷ x4 ∷ x5 ∷ x6 ∷ x7 ∷ x8 ∷ x9 ∷ x10 ∷ x11 ∷ []) out = refl
overwrite-overwritten (x0 ∷ x1 ∷ x2 ∷ x3 ∷ x4 ∷ x5 ∷ x6 ∷ x7 ∷ x8 ∷ x9 ∷ x10 ∷ x11 ∷ x12 ∷ []) out =
    refl
overwrite-overwritten (x0 ∷ x1 ∷ x2 ∷ x3 ∷ x4 ∷ x5 ∷ x6 ∷ x7 ∷ x8 ∷ x9 ∷ x10 ∷ x11 ∷ x12 ∷ x13 ∷ xs)
      out =
    refl

length-words : (xs : List ℕ) → length (words xs) ≡ 8 * length xs
length-words [] = refl
length-words (x ∷ xs) = omega (arith, length-words xs)

read_fields-words :
    (fields : List Field) (xs : List ℕ) (i : ℕ) (input rest : Bytes) (out : StatsSnapshot)
    → All (λ x. x < u64_mod) xs
    → drop (2 + i * 8) input ≡ words xs ++ rest
    → read_fields (min (length xs) (length fields)) i fields input out
      ≡ some (overwrite fields xs out)
unfolding read_fields overwrite
read_fields-words [] [] i input rest out h d = refl
read_fields-words [] (x ∷ xs) i input rest out h d =
    let none_left : min (suc (length xs)) 0 ≡ 0 = omega arith in rw none_left
read_fields-words (f ∷ fields) [] i input rest out h d =
    let none_left : min 0 (suc (length fields)) ≡ 0 = omega arith in rw none_left
read_fields-words (f ∷ fields) (x ∷ xs) i input rest out h d =
    let one_more : min (suc (length xs)) (suc (length fields))
        ≡ suc (min (length xs) (length fields)) =
      omega arith in
    let here : read_u64 (drop (2 + i * 8) input) ≡ x =
      ap read_u64 d ∙ read_u64-be64 x (words xs ++ rest) h.0 in
    let index : 2 + (i + 1) * 8 ≡ (2 + i * 8) + 8 = omega arith in
    let there : drop (2 + (i + 1) * 8) input ≡ words xs ++ rest =
      ap (λ (n : ℕ). drop n input) index ∙ sym (drop-drop 8 (2 + i * 8) input) ∙ ap (drop 8) d in
    let left = min (length xs) (length fields) in
    ap (λ (n : ℕ). read_fields n i (f ∷ fields) input out) one_more
    ∙ ap (λ (v : ℕ). read_fields left (i + 1) fields input (f.store out v)) here
    ∙ read_fields-words fields xs (i + 1) input rest (f.store out x) h.1 there

-- The loop stays inside its table.
read_fields_total :
    (readable i : ℕ) (fields : List Field) (input : Bytes) (out : StatsSnapshot)
    → readable ≤ length fields
    → read_fields readable i fields input out ≢ none
unfolding read_fields
read_fields_total zero i fields input out h e = cc
read_fields_total (suc readable) i [] input out h e = omega (arith, h)
read_fields_total (suc readable) i (field ∷ fields) input out h e =
    read_fields_total readable (i + 1) fields input
      (field.store out (read_u64 (drop (2 + i * 8) input))) (omega (arith, h)) e

-- So `none` is the answer false: a payload that is shorter than it says.
pub deserialize_stats_refused :
    (input : Bytes) (out : StatsSnapshot)
    → deserialize_stats input out ≡ none
    → (length input < 2) ⊎ (length input < 2 + read_u16 input * 8)
unfolding deserialize_stats
deserialize_stats_refused input out e =
    let total =
      read_fields_total (min (read_u16 input) (length stats_fields)) 0 stats_fields input out
        (omega arith) in
    elim (Bool-cases (ltb (length input) 2)) [
      | inl h ↦ inl (ground (arith, h))
      | inr h ↦ elim (Bool-cases (ltb (length input) (2 + read_u16 input * 8))) [
        | inl k ↦ inr (ground (arith, k))
        | inr k ↦ absurd (total (ground (arith, h, k, e)))
      ]
    ]

-- From a payload that announces and carries any number, below 2 ^ 16, of 64-bit fields, fewer or
-- more than are known, each counter takes the field at its place of the wire format if the payload
-- has it and keeps what it held if not; the loop does not read past its table.
pub deserialize_stats-words :
    (xs : List ℕ) (rest : Bytes) (out : StatsSnapshot)
    → length xs < 2 ^ 16
    → All (λ x. x < u64_mod) xs
    → deserialize_stats (be16 (length xs) ++ (words xs ++ rest)) out ≡ some (overwritten xs out)
unfolding deserialize_stats
deserialize_stats-words xs rest out n h = ground (
  arith,
  read_u16-be16 (length xs) (words xs ++ rest) n,
  length-append (words xs) rest,
  length-words xs,
  read_fields-words stats_fields xs 0 (be16 (length xs) ++ (words xs ++ rest)) rest out h refl,
  overwrite-overwritten xs out,
)

-- The numbers of a snapshot in wire order.
abbrev pub values : StatsSnapshot → List ℕ
values s =
    s.cache_hits ∷ s.cache_misses ∷ s.puts ∷ s.deletes ∷ s.evictions ∷ s.current_entries
    ∷ s.current_cache_bytes ∷ s.current_payload_bytes ∷ s.active_connections ∷ s.total_connections
    ∷ s.requests_processed ∷ s.protocol_errors ∷ s.rejected_requests ∷ s.uptime_ms ∷ []

-- Every counter is a uint64_t.
abbrev pub IsSnapshot : StatsSnapshot → Type 0
IsSnapshot s = All (λ x. x < u64_mod) (values s)

pub serialize_stats-words : (s : StatsSnapshot) → serialize_stats s ≡ be16 14 ++ words (values s)
unfolding serialize_stats
serialize_stats-words s = simp (append_u16-be16, append_u64-be64, append_assoc)

-- A snapshot of 64-bit counters, serialized and followed by any bytes, is read back field by field
-- whatever the output held before.
pub deserialize_stats-serialize_stats :
    (s out : StatsSnapshot) (rest : Bytes)
    → IsSnapshot s
    → deserialize_stats (serialize_stats s ++ rest) out ≡ some s
deserialize_stats-serialize_stats s out rest h =
    ap (λ b. deserialize_stats (b ++ rest) out) (serialize_stats-words s)
    ∙ deserialize_stats-words (values s) rest out (omega arith) h
