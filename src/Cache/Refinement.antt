-- ===== src/Cache/Refinement.antt =====
-- The cache with its list of nodes, its index and its counters does what the recency list says.
use local_cache_service.Base.{◌≡◌, refl, ap, ◌∙◌, List, [], ◌∷◌, some, All, map}
use local_cache_service.Cache.Entries.{Entry}
use local_cache_service.Cache.Defs
use local_cache_service.Cache.Defs.{Cache, CacheLimits, init}
use local_cache_service.Cache.Invariant.{IsValid}
use local_cache_service.Cache.Recency.{View}
use local_cache_service.Cache.Shape.{pairs, length-pairs, total-pairs}
use local_cache_service.Cache.Methods.{
  IsNext, get-IsNext, erase-IsNext, contains-lookup, clear-IsNext,
}
use local_cache_service.Cache.Put.{put-IsNext}
use local_cache_service.Cache.Calls.{
  Call, get, erase, contains, put, clear, size, memory_usage, keys_mru_to_lru, perform, run, after,
  reply, after_all, replies, IsSized,
}

-- What a client sees of a cache.
abbrev pub view : Cache → View
view c = pairs c.entries

keys-pairs : (l : List Entry) → map (λ e. e.key) l ≡ map (λ p. p.0) (pairs l)
keys-pairs [] = refl
keys-pairs (e ∷ l) = ap (◌∷◌ e.key) (keys-pairs l)

unchanged : (c : Cache) → IsValid c → IsNext c c (view c)
unchanged c v = record { valid = v; view = refl; limits = refl }

-- Every call on a valid cache returns without a fault, with the reply of the reference, and leaves
-- a valid cache whose recency list is the reference's.
pub perform-IsNext :
    (c : Cache) (call : Call)
    → IsValid c
    → IsSized call
    → (c' : Cache) × (perform c call ≡ some (c', reply c.limits (view c) call))
      × IsNext c c' (after c.limits (view c) call)
unfolding perform after reply
perform-IsNext c (get k) v h = let (c', e, d) = get-IsNext c v k in (c', rw e, d)
perform-IsNext c (erase k) v h = let (c', e, d) = erase-IsNext c v k in (c', rw e, d)
perform-IsNext c (contains k) v h = (c, rw (contains-lookup c v k), unchanged c v)
perform-IsNext c (put k x) v h = let (c', e, d) = put-IsNext c k x h v in (c', rw e, d)
perform-IsNext c clear v h = (Defs.clear c, refl, clear-IsNext c v)
perform-IsNext c size v h = (c, (unfold Defs.size in rw (v.sizes, length-pairs)), unchanged c v)
perform-IsNext c memory_usage v h =
    (c, (unfold Defs.memory_usage in rw (v.counted, total-pairs)), unchanged c v)
perform-IsNext c keys_mru_to_lru v h =
    (c, (unfold Defs.keys_mru_to_lru in rw keys-pairs), unchanged c v)

-- For a valid cache and any list of calls whose keys and values have sizes that machine arithmetic
-- can add, no call faults, the replies are those of the reference (a recency list of keys and
-- values under the limits), and the cache after them is valid with the recency list of the
-- reference.
pub run-IsNext :
    (c : Cache) (calls : List Call)
    → IsValid c
    → All IsSized calls
    → (c' : Cache) × (run c calls ≡ some (c', replies c.limits (view c) calls))
      × IsNext c c' (after_all c.limits (view c) calls)
unfolding run replies after_all
run-IsNext c [] v h = (c, refl, unchanged c v)
run-IsNext c (call ∷ calls) v (h, hs) =
    let (c₁, e, d) = perform-IsNext c call v h in
    let (c₂, es, ds) = run-IsNext c₁ calls d.valid hs in
    (
      c₂,
      rw (e, es, d.view, d.limits),
      record {
        valid = ds.valid;
        view = ds.view ∙ rw (d.view, d.limits);
        limits = ds.limits ∙ d.limits;
      },
    )
