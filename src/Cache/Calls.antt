-- ===== src/Cache/Calls.antt =====
-- The public methods of `LruCache` as calls with replies, and what each is to do to the recency list.
-- Threads take the mutex for a whole call, so what several threads do is a list of calls.
use local_cache_service.Base.{
  ℕ, ◌+◌, ◌<◌, List, [], ◌∷◌, map, Option, none, some, ◌>>=◌, Bool, ◌||◌, ltb, ◌==◌, if◌then◌else◌,
  Bytes, length, u64_mod,
}
use local_cache_service.Cache.Defs
use local_cache_service.Cache.Defs.{
  Cache, CacheLimits, PutStatus, is_some, stored, value_too_large, entry_too_large,
}
use local_cache_service.Cache.Recency.{View, lookup, without, touched, cost, total}
use local_cache_service.Cache.Room.{kept}

pub data Call : Type 0 where
  get erase contains : Bytes → Call
  put : Bytes → Bytes → Call
  clear size memory_usage keys_mru_to_lru : Call

pub data Reply : Type 0 where
  value : Option Bytes → Reply
  status : PutStatus → Reply
  flag : Bool → Reply
  number : ℕ → Reply
  keys : List Bytes → Reply
  done : Reply

abbrev pub with_reply {ℓ} : {A : Type ℓ} → (A → Reply) → Option (Cache × A) → Option (Cache × Reply)
with_reply f none = none
with_reply f (some (c, a)) = some (c, f a)

unfoldable pub perform : Cache → Call → Option (Cache × Reply)
perform c (get k) = with_reply value (Defs.get c k)
perform c (erase k) = with_reply flag (Defs.erase c k)
perform c (contains k) = some (c, flag (Defs.contains c k))
perform c (put k v) = with_reply status (Defs.put c k v)
perform c clear = some (Defs.clear c, done)
perform c size = some (c, number (Defs.size c))
perform c memory_usage = some (c, number (Defs.memory_usage c))
perform c keys_mru_to_lru = some (c, keys (Defs.keys_mru_to_lru c))

-- Calls one after the other, as the mutex orders them.
unfoldable pub run : Cache → List Call → Option (Cache × List Reply)
run c [] = some (c, [])
run c (call ∷ calls) = do (c₁, r) ← perform c call; (c₂, rs) ← run c₁ calls; some (c₂, r ∷ rs)

-- The reference for a PUT: too large a value, an entry that no empty cache holds, or stored.
unfoldable pub put_status : CacheLimits → Bytes → Bytes → PutStatus
put_status limits k v =
    if ltb limits.max_value_bytes (length v)
    then value_too_large
    else if ltb limits.max_bytes (cost (k, v)) || limits.max_entries == 0
    then entry_too_large
    else stored

abbrev pub after_status : CacheLimits → Bytes → Bytes → View → PutStatus → View
after_status limits k v l stored = (k, v) ∷ kept limits (cost (k, v)) (without k l)
after_status limits k v l value_too_large = l
after_status limits k v l entry_too_large = l

-- The recency list after a call.
unfoldable pub after : CacheLimits → View → Call → View
after limits l (get k) = touched k l (lookup k l)
after limits l (erase k) = without k l
after limits l (put k v) = after_status limits k v l (put_status limits k v)
after limits l clear = []
after limits l (contains k) = l
after limits l size = l
after limits l memory_usage = l
after limits l keys_mru_to_lru = l

-- The reply to a call.
unfoldable pub reply : CacheLimits → View → Call → Reply
reply limits l (get k) = value (lookup k l)
reply limits l (erase k) = flag (is_some (lookup k l))
reply limits l (contains k) = flag (is_some (lookup k l))
reply limits l (put k v) = status (put_status limits k v)
reply limits l clear = done
reply limits l size = number (length l)
reply limits l memory_usage = number (total l)
reply limits l keys_mru_to_lru = keys (map (λ e. e.0) l)

unfoldable pub after_all : CacheLimits → View → List Call → View
after_all limits l [] = l
after_all limits l (call ∷ calls) = after_all limits (after limits l call) calls

unfoldable pub replies : CacheLimits → View → List Call → List Reply
replies limits l [] = []
replies limits l (call ∷ calls) = reply limits l call ∷ replies limits (after limits l call) calls

-- The sizes of the arguments of a call are such as a machine can hold.
abbrev pub IsSized : Call → Type 0
IsSized (put k v) = length k + length v + 128 < u64_mod
IsSized (get k) = Unit {0}
IsSized (erase k) = Unit {0}
IsSized (contains k) = Unit {0}
IsSized clear = Unit {0}
IsSized size = Unit {0}
IsSized memory_usage = Unit {0}
IsSized keys_mru_to_lru = Unit {0}
