-- ===== src/Cache/Defs.antt =====
-- The state and the operations of `LruCache` (src/lru_cache.cpp, include/cache/lru_cache.h). Each
-- public method runs under the one mutex from its first line to its last, so an operation is a
-- function from the state to the state and the result. `none` is a fault: the use of an iterator
-- that is end() or whose node is gone.
use local_cache_service.Base.{
  ℕ, zero, suc, List, [], ◌∷◌, map, Option, none, some, ◌>>=◌, Bool, true, false, not, ◌&&◌, ◌||◌,
  if◌then◌else◌, ltb, ◌==◌, Bytes, length, add64, sub64,
}
use local_cache_service.Cache.Index.{Index, find, emplace, erase_slot}
use local_cache_service.Cache.Entries.{Entry, node_at, unlink, last_node}

pub record CacheLimits : Type 0 where
  pub max_entries : ℕ
  pub max_bytes : ℕ
  pub max_value_bytes : ℕ

pub data PutStatus : Type 0 where
  stored value_too_large entry_too_large : PutStatus

pub record CacheSnapshot : Type 0 where
  pub entries : ℕ
  pub bytes : ℕ
  pub payload_bytes : ℕ
  pub evictions : ℕ

abbrev pub entry_overhead_bytes : ℕ
entry_overhead_bytes = 128

-- `next_node` is the allocator's: the address of the next list node, never given twice.
pub record Cache : Type 0 where
  pub limits : CacheLimits
  pub entries : List Entry
  pub index : Index
  pub bytes : ℕ
  pub payload_bytes : ℕ
  pub evictions : ℕ
  pub next_node : ℕ

unfoldable pub init : CacheLimits → Cache
init limits = record {
  limits = limits;
  entries = [];
  index = [];
  bytes = 0;
  payload_bytes = 0;
  evictions = 0;
  next_node = 0;
}

unfoldable pub entry_cost : ℕ → ℕ → ℕ
entry_cost key_size value_size = add64 (add64 key_size value_size) entry_overhead_bytes

unfoldable pub get : Cache → Bytes → Option (Cache × Option Bytes)
get c key = elim (find key c.index) [
  | none ↦ some (c, none)
  | some it ↦ node_at it c.entries >>= λ node.
      some (record c { entries = node ∷ unlink it c.entries }, some node.value)
]

-- `key` and `it` are the two halves of the slot that the map's iterator points to.
unfoldable pub erase_locked : Cache → Bytes → ℕ → Option Cache
erase_locked c key it = node_at it c.entries >>= λ node. some (record c {
  bytes = sub64 c.bytes (entry_cost (length node.key) (length node.value));
  payload_bytes = sub64 c.payload_bytes (add64 (length node.key) (length node.value));
  index = erase_slot key c.index;
  entries = unlink it c.entries;
})

unfoldable pub evict_lru_locked : Cache → Option Cache
evict_lru_locked c = do
  lru ← last_node c.entries
  it ← find lru.key c.index
  c' ← erase_locked c lru.key it
  some (record c' { evictions = add64 c'.evictions 1 })

abbrev pub is_empty {ℓ} : {A : Type ℓ} → List A → Bool
is_empty [] = true
is_empty (x ∷ xs) = false

abbrev pub is_some {ℓ} : {A : Type ℓ} → Option A → Bool
is_some none = false
is_some (some a) = true

-- the test of the loop
unfoldable pub needs_room : Cache → ℕ → Bool
needs_room c incoming_cost =
    not (is_empty c.entries)
    && (ltb c.limits.max_entries (add64 (length c.index) 1)
        || ltb c.limits.max_bytes (add64 c.bytes incoming_cost))

-- The loop on fuel; without fuel it answers `none`, as a fault does.
unfoldable pub make_room_locked : ℕ → Cache → ℕ → Option Cache
make_room_locked zero c incoming_cost = none
make_room_locked (suc fuel) c incoming_cost = elim (needs_room c incoming_cost) [
  | true ↦ evict_lru_locked c >>= λ c'. make_room_locked fuel c' incoming_cost
  | false ↦ some c
]

-- the `if` of `put` that drops the entry that is replaced
unfoldable pub erase_replaced : Cache → Bytes → Option Cache
erase_replaced c key = elim (find key c.index) [ none ↦ some c | some it ↦ erase_locked c key it ]

-- the last five statements of `put`
unfoldable pub push_front : Cache → Bytes → Bytes → ℕ → Cache
push_front c key value cost = record c {
  entries = record { addr = c.next_node; key = key; value = value } ∷ c.entries;
  index = emplace key c.next_node c.index;
  bytes = add64 c.bytes cost;
  payload_bytes = add64 c.payload_bytes (add64 (length key) (length value));
  next_node = suc c.next_node;
}

-- One round of the loop for each entry, and one to see that it is over.
unfoldable pub put : Cache → Bytes → Bytes → Option (Cache × PutStatus)
put c key value =
    let cost = entry_cost (length key) (length value) in
    if ltb c.limits.max_value_bytes (length value)
    then some (c, value_too_large)
    else if ltb c.limits.max_bytes cost || c.limits.max_entries == 0
    then some (c, entry_too_large)
    else (do
      c₁ ← erase_replaced c key
      c₂ ← make_room_locked (suc (length c₁.entries)) c₁ cost
      some (push_front c₂ key value cost, stored))

unfoldable pub erase : Cache → Bytes → Option (Cache × Bool)
erase c key = elim (find key c.index) [
  | none ↦ some (c, false)
  | some it ↦ erase_locked c key it >>= λ c'. some (c', true)
]

unfoldable pub contains : Cache → Bytes → Bool
contains c key = elim (find key c.index) [ none ↦ false | some _ ↦ true ]

unfoldable pub clear : Cache → Cache
clear c = record c { index = []; entries = []; bytes = 0; payload_bytes = 0 }

unfoldable pub size : Cache → ℕ
size c = length c.index

unfoldable pub memory_usage : Cache → ℕ
memory_usage c = c.bytes

unfoldable pub snapshot : Cache → CacheSnapshot
snapshot c = record {
  entries = length c.index;
  bytes = c.bytes;
  payload_bytes = c.payload_bytes;
  evictions = c.evictions;
}

unfoldable pub keys_mru_to_lru : Cache → List Bytes
keys_mru_to_lru c = map (λ entry. entry.key) c.entries
