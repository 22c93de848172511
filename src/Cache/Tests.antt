-- ===== src/Cache/Tests.antt =====
-- Runs of the cache on the inputs of tests/lru_cache_test.cpp, and the theorems at a small cache.
use local_cache_service.Base.{
  ◌+◌, ◌≤◌, ◌<◌, ◌≡◌, ◌≢◌, ◌⊎◌, refl, ap, get_or, List, [], ◌∷◌, ◌++◌, Option, some, ◌>>=◌, false,
  Bytes, add64, sub64, length, All, arith, bytes_discrete, ℕ_discrete,
}
use local_cache_service.Cache.Index.{find, emplace, erase_slot}
use local_cache_service.Cache.Entries.{node_at, unlink, last_node, total_cost, total_payload}
use local_cache_service.Cache.Defs
use local_cache_service.Cache.Sample.{small, a_key, b_key, c_key, full, full-IsValid}
use local_cache_service.Cache.Defs.{Cache, CacheLimits, stored, snapshot}
use local_cache_service.Cache.Recency.{View, lookup, without, cost, total}
use local_cache_service.Cache.Room.{IsShrunk, make_room_locked-IsShrunk}
use local_cache_service.Cache.Methods.{IsNext}
use local_cache_service.Cache.Calls.{Call, run, replies, after_all, put_status}
use local_cache_service.Cache.Refinement.{view, run-IsNext}
use local_cache_service.Cache.Behaviour.{
  victims, put_evicts_lru, put_evicts_fewest, get-put, get-get, get-erase, snapshot-run,
}

program : Unit {0}
unfolding find emplace erase_slot node_at unlink last_node Defs.init Defs.entry_cost Defs.get
    Defs.erase_locked Defs.evict_lru_locked Defs.needs_room Defs.make_room_locked
    Defs.erase_replaced Defs.push_front Defs.put Defs.erase Defs.contains Defs.keys_mru_to_lru add64
    sub64 bytes_discrete ℕ_discrete
program = tt

abbrev promoted : Option Defs.Cache
promoted = do
  let c = Defs.init (record { max_entries = 3; max_bytes = 4096; max_value_bytes = 1024 })
  (c₁, _) ← Defs.put c (b'a' ∷ []) (b'1' ∷ [])
  (c₂, _) ← Defs.put c₁ (b'b' ∷ []) (b'2' ∷ [])
  (c₃, _) ← Defs.put c₂ (b'c' ∷ []) (b'3' ∷ [])
  (c₄, _) ← Defs.get c₃ (b'a' ∷ [])
  (c₅, _) ← Defs.put c₄ (b'd' ∷ []) (b'4' ∷ [])
  (c₆, _) ← Defs.put c₅ (b'c' ∷ []) (b'u' ∷ [])
  (c₇, _) ← Defs.put c₆ (b'e' ∷ []) (b'5' ∷ [])
  some c₇

-- GetAndUpdatePromoteBeforeEviction
promoted_keys :
    (promoted >>= λ c. some (Defs.keys_mru_to_lru c))
    ≡ some ((b'e' ∷ []) ∷ (b'c' ∷ []) ∷ (b'd' ∷ []) ∷ [])
unfolding program
promoted_keys = refl

c_is_stored : put_status small c_key (7 ∷ []) ≡ stored
unfolding put_status
c_is_stored = refl

a_is_evicted : victims small c_key (7 ∷ []) (view full) ≡ (a_key, 1 ∷ []) ∷ []
unfolding without bytes_discrete ℕ_discrete
a_is_evicted = refl

b_is_not_a : b_key ≢ a_key
b_is_not_a h = absurd (omega (arith, ap (λ (l : Bytes). get_or l 0 0) h))

abbrev script : List Call
script = Call.put a_key (1 ∷ []) ∷ Call.get b_key ∷ Call.put b_key (2 ∷ []) ∷ Call.erase a_key ∷ []

run-IsNext_example :
    (c : Cache) × (run full script ≡ some (c, replies small (view full) script))
    × IsNext full c (after_all small (view full) script)
run-IsNext_example = run-IsNext full script full-IsValid (omega arith)

put_evicts_lru_example :
    (c : Cache) × (front : View) × (Defs.put full c_key (7 ∷ []) ≡ some (c, stored))
    × (view c ≡ (c_key, 7 ∷ []) ∷ front)
    × (without c_key (view full) ≡ front ++ victims small c_key (7 ∷ []) (view full))
    × (length (view c) ≤ 2)
    × (total (view c) ≤ 400)
    × (c.evictions ≡ add64 0 (length (victims small c_key (7 ∷ []) (view full))))
put_evicts_lru_example = put_evicts_lru full c_key (7 ∷ []) full-IsValid (omega arith) c_is_stored

put_evicts_fewest_example :
    (c : Cache) × (Defs.put full c_key (7 ∷ []) ≡ some (c, stored))
    × ((2 < length (view c) + 1) ⊎ (400 < total (view c) + cost (a_key, 1 ∷ [])))
put_evicts_fewest_example =
    put_evicts_fewest full c_key (7 ∷ []) (a_key, 1 ∷ []) [] full-IsValid (omega arith) c_is_stored
      a_is_evicted

get-put_example :
    (c d : Cache) × (Defs.put full c_key (7 ∷ []) ≡ some (c, stored))
    × (Defs.get c c_key ≡ some (d, some (7 ∷ [])))
get-put_example = get-put full c_key (7 ∷ []) full-IsValid (omega arith) c_is_stored

get-get_example :
    (c d e : Cache) × (Defs.get full a_key ≡ some (c, lookup a_key (view full)))
    × (Defs.get c b_key ≡ some (d, lookup b_key (view full)))
    × (Defs.get full b_key ≡ some (e, lookup b_key (view full)))
get-get_example = get-get full a_key b_key full-IsValid

get-erase_example :
    (c d : Cache) × (Defs.erase full a_key ≡ some (c, Defs.contains full a_key))
    × (Defs.contains c a_key ≡ false)
    × (Defs.get c b_key ≡ some (d, lookup b_key (view full)))
get-erase_example = get-erase full a_key b_key full-IsValid b_is_not_a

snapshot-run_example :
    (c : Cache) × (run (Defs.init small) script ≡ some (c, replies small [] script))
    × ((snapshot c).entries ≡ length c.entries)
    × ((snapshot c).entries ≤ 2)
    × ((snapshot c).bytes ≡ total_cost c.entries)
    × ((snapshot c).bytes ≤ 400)
    × ((snapshot c).payload_bytes ≡ total_payload c.entries)
    × All (λ e. length e.value ≤ 10) c.entries
snapshot-run_example = snapshot-run small script (omega arith) (omega arith)

make_room_locked-IsShrunk_example :
    (c : Cache) × (Defs.make_room_locked 3 full 200 ≡ some c) × IsShrunk 200 full c
make_room_locked-IsShrunk_example =
    make_room_locked-IsShrunk 3 full 200 full-IsValid (omega arith) (omega arith) (omega arith)
