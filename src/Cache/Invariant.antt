-- ===== src/Cache/Invariant.antt =====
-- What holds of every cache between two calls: the index agrees with the list, the counters agree
-- with the entries, and the limits are kept.
use local_cache_service.Base.{
  ℕ, suc, ◌+◌, ◌-◌, ◌^◌, ◌≤◌, ◌<◌, ◌≡◌, refl, List, [], ◌∷◌, none, some, arith, Bytes, add64, sub64,
  length, All, u64_mod,
}
use local_cache_service.Cache.Index
use local_cache_service.Cache.Index.{
  Index, find, erase_slot, find-erase_slot, erase_slot-IsUnique, length-erase_slot,
}
use local_cache_service.Cache.Entries
use local_cache_service.Cache.Entries.{
  Entry, node_at, unlink, addr_of, total_cost, total_payload, addr_of-node_at, addr_of-unlink,
  unlink-IsUnique, totals-unlink, All-unlink,
}
use local_cache_service.Cache.Defs.{Cache, entry_cost, erase_locked}
use local_cache_service.Cache.Shape.{pairs, pairs-unlink}
use local_cache_service.Cache.Recency.{without}

-- The accounting cannot wrap below 2 ^ 63 bytes.
pub record IsValid (c : Cache) : Type 0 where
  pub unique : Entries.IsUnique c.entries
  pub fresh : All (λ e. e.addr < c.next_node) c.entries
  pub indexed : (k : Bytes) → find k c.index ≡ addr_of k c.entries
  pub slots : Index.IsUnique c.index
  pub sizes : length c.index ≡ length c.entries
  pub counted : c.bytes ≡ total_cost c.entries
  pub payload : c.payload_bytes ≡ total_payload c.entries
  pub within_entries : length c.entries ≤ c.limits.max_entries
  pub within_bytes : c.bytes ≤ c.limits.max_bytes
  pub within_value : All (λ e. length e.value ≤ c.limits.max_value_bytes) c.entries
  pub machine : c.limits.max_bytes < 2 ^ 63
  pub evictions_word : c.evictions < u64_mod

pub payload-le-cost : (l : List Entry) → total_payload l ≤ total_cost l
payload-le-cost [] = omega arith
payload-le-cost (e ∷ l) = omega (arith, payload-le-cost l)

pub length-le-cost : (l : List Entry) → length l ≤ total_cost l
length-le-cost [] = omega arith
length-le-cost (e ∷ l) = omega (arith, length-le-cost l)

-- What `erase_locked` leaves of a valid cache.
pub record IsErased (k : Bytes) (c c' : Cache) : Type 0 where
  pub valid : IsValid c'
  pub view : pairs c'.entries ≡ without k (pairs c.entries)
  pub gone : addr_of k c'.entries ≡ none
  pub shorter : suc (length c'.entries) ≡ length c.entries
  pub limits : c'.limits ≡ c.limits
  pub evictions : c'.evictions ≡ c.evictions
  pub next_node : c'.next_node ≡ c.next_node

module _ (c : Cache) (k : Bytes) (a : ℕ) (v : IsValid c) (held : addr_of k c.entries ≡ some a) where
  -- The state after the erasure, with the subtractions as they are when nothing wraps.
  erased : Entry → Cache
  erased e = record c {
    bytes = c.bytes - (length e.key + length e.value + 128);
    payload_bytes = c.payload_bytes - (length e.key + length e.value);
    index = erase_slot k c.index;
    entries = unlink a c.entries;
  }

  erased-IsErased : (e : Entry) → node_at a c.entries ≡ some e → IsErased k c (erased e)
  unfolding erased
  erased-IsErased e found =
      let t = totals-unlink a c.entries e found in
      record {
        valid = record {
          unique = unlink-IsUnique k a c.entries v.unique held;
          fresh = All-unlink _ a c.entries v.fresh;
          indexed = λ j. ground (
            arith,
            v.indexed j,
            find-erase_slot k j c.index v.slots,
            addr_of-unlink k j a c.entries v.unique held,
          );
          slots = erase_slot-IsUnique k c.index v.slots;
          sizes = ground (arith, t, v.sizes, v.indexed k, length-erase_slot k c.index a);
          counted = omega (arith, t, v.counted);
          payload = omega (arith, t, v.payload);
          within_entries = omega (arith, t, v.within_entries);
          within_bytes = omega (arith, v.within_bytes);
          within_value = All-unlink _ a c.entries v.within_value;
          machine = v.machine;
          evictions_word = v.evictions_word;
        };
        view = pairs-unlink k a c.entries v.unique held;
        gone = ground (arith, addr_of-unlink k k a c.entries v.unique held);
        shorter = omega (arith, t);
        limits = refl;
        evictions = refl;
        next_node = refl;
      }

  -- On a key that the cache holds `erase_locked` does not fault, and nothing wraps.
  pub erase_locked-IsErased : (c' : Cache) × (erase_locked c k a ≡ some c') × IsErased k c c'
  unfolding erase_locked erased entry_cost add64 sub64
  erase_locked-IsErased =
      let (e, found, at, named) = addr_of-node_at k c.entries a v.unique held in
      let t = totals-unlink a c.entries e found in
      (
        erased e,
        ground (
          arith,
          found,
          t,
          v.counted,
          v.payload,
          v.within_bytes,
          v.machine,
          payload-le-cost c.entries,
        ),
        erased-IsErased e found,
      )
