-- ===== src/Cache/Methods.antt =====
-- Each method of `LruCache` on a valid cache: it does not fault, it keeps the cache valid, and the
-- recency list after it is the reference's.
use local_cache_service.Base.{
  ℕ, suc, ◌+◌, ◌^◌, ◌≤◌, ◌<◌, ◌≡◌, refl, sym, ◌∙◌, ◌⊎◌, inl, inr, List, [], ◌∷◌, none, some, arith,
  Bytes, add64, length, Option-cases, All,
}
use local_cache_service.Cache.Index.{find, find-emplace, length-emplace, emplace-IsUnique}
use local_cache_service.Cache.Entries.{
  Entry, node_at, unlink, addr_of, addr_of-node_at, addr_of-unlink, node_at-unlink, unlink-IsUnique,
  totals-unlink, All-unlink, All-node_at, node_at_fresh,
}
use local_cache_service.Cache.Defs.{
  Cache, CacheLimits, init, get, erase, erase_replaced, push_front, clear, contains, is_some,
}
use local_cache_service.Cache.Invariant.{IsValid, erase_locked-IsErased, payload-le-cost}
use local_cache_service.Cache.Recency.{View, lookup, without, touched}
use local_cache_service.Cache.Shape.{
  pairs, lookup-pairs-none, lookup-pairs-some, pairs-unlink, without_absent,
}

-- `c'` is valid, with the limits of `c` and the recency list `l`.
pub record IsNext (c c' : Cache) (l : View) : Type 0 where
  pub valid : IsValid c'
  pub view : pairs c'.entries ≡ l
  pub limits : c'.limits ≡ c.limits

pub IsNext-refl : (c : Cache) → IsValid c → IsNext c c (pairs c.entries)
IsNext-refl c v = record { valid = v; view = refl; limits = refl }

-- What the index finds is what the list holds, and what a client can look up.
pub record IsHeld (c : Cache) (k : Bytes) (a : ℕ) (e : Entry) : Type 0 where
  pub slot : find k c.index ≡ some a
  pub held : addr_of k c.entries ≡ some a
  pub found : node_at a c.entries ≡ some e
  pub at : e.addr ≡ a
  pub named : e.key ≡ k
  pub seen : lookup k (pairs c.entries) ≡ some e.value

pub find-cases :
    (c : Cache) (k : Bytes)
    → IsValid c
    → ((find k c.index ≡ none) × (addr_of k c.entries ≡ none) × (lookup k (pairs c.entries) ≡ none))
      ⊎ ((a : ℕ) × (e : Entry) × IsHeld c k a e)
find-cases c k v = elim (Option-cases (addr_of k c.entries)) [
  | inl miss ↦ inl (v.indexed k ∙ miss, miss, lookup-pairs-none k c.entries miss)
  | inr (a, hit) ↦
      let (e, found, at, named) = addr_of-node_at k c.entries a v.unique hit in
      inr (
        a,
        e,
        record {
          slot = v.indexed k ∙ hit;
          held = hit;
          found = found;
          at = at;
          named = named;
          seen = lookup-pairs-some k a c.entries e v.unique hit found;
        },
      )
]

module _ (c : Cache) (v : IsValid c) (k : Bytes) where
  promote : ℕ → Entry → Cache
  promote a e = record c { entries = e ∷ unlink a c.entries }

  promote-IsNext :
      (a : ℕ) (e : Entry)
      → IsHeld c k a e
      → IsNext c (promote a e) ((k, e.value) ∷ without k (pairs c.entries))
  unfolding promote node_at addr_of
  promote-IsNext a e h =
      let t = totals-unlink a c.entries e h.found in
      let apart = addr_of-unlink k e.key a c.entries v.unique h.held in
      record {
        valid = record {
          unique = ground (
            arith,
            h.at,
            h.named,
            apart,
            node_at-unlink a e.addr c.entries v.unique,
            unlink-IsUnique k a c.entries v.unique h.held,
          );
          fresh = (All-node_at _ a c.entries e h.found v.fresh, All-unlink _ a c.entries v.fresh);
          indexed = λ j. ground (
            arith,
            h.at,
            h.named,
            h.held,
            v.indexed j,
            addr_of-unlink k j a c.entries v.unique h.held,
          );
          slots = v.slots;
          sizes = omega (arith, t, v.sizes);
          counted = omega (arith, t, v.counted);
          payload = omega (arith, t, v.payload);
          within_entries = omega (arith, t, v.within_entries);
          within_bytes = v.within_bytes;
          within_value = (
            All-node_at _ a c.entries e h.found v.within_value,
            All-unlink _ a c.entries v.within_value,
          );
          machine = v.machine;
          evictions_word = v.evictions_word;
        };
        view = cc (h.named, pairs-unlink k a c.entries v.unique h.held);
        limits = refl;
      }

  pub get-IsNext :
      (c' : Cache) × (get c k ≡ some (c', lookup k (pairs c.entries)))
      × IsNext c c' (touched k (pairs c.entries) (lookup k (pairs c.entries)))
  unfolding get promote
  get-IsNext = elim (find-cases c k v) [
    | inl (slot, miss, unseen) ↦ (c, ground (arith, slot, unseen), rw unseen (IsNext-refl c v))
    | inr (a, e, h) ↦
        (promote a e, ground (arith, h.slot, h.found, h.seen), rw h.seen (promote-IsNext a e h))
  ]

  -- `erase_replaced` leaves no entry with the key, and every other one as it was.
  pub erase_replaced-IsErased :
      (c' : Cache) × (erase_replaced c k ≡ some c')
      × IsNext c c' (without k (pairs c.entries))
      × (addr_of k c'.entries ≡ none)
      × (c'.evictions ≡ c.evictions)
  unfolding erase_replaced
  erase_replaced-IsErased = elim (find-cases c k v) [
    | inl (slot, miss, unseen) ↦ (
      c,
      ground (arith, slot),
      record { valid = v; view = sym (without_absent k c.entries miss); limits = refl },
      miss,
      refl,
    )
    | inr (a, e, h) ↦
        let (c', erased, d) = erase_locked-IsErased c k a v h.held in
        (
          c',
          ground (arith, h.slot, erased),
          record { valid = d.valid; view = d.view; limits = d.limits },
          d.gone,
          d.evictions,
        )
  ]

  pub erase-IsNext :
      (c' : Cache) × (erase c k ≡ some (c', is_some (lookup k (pairs c.entries))))
      × IsNext c c' (without k (pairs c.entries))
  unfolding erase
  erase-IsNext = elim (find-cases c k v) [
    | inl (slot, miss, unseen) ↦ (
      c,
      ground (arith, slot, unseen),
      record { valid = v; view = sym (without_absent k c.entries miss); limits = refl },
    )
    | inr (a, e, h) ↦
        let (c', erased, d) = erase_locked-IsErased c k a v h.held in
        (
          c',
          ground (arith, h.slot, h.seen, erased),
          record { valid = d.valid; view = d.view; limits = d.limits },
        )
  ]

  pub contains-lookup : contains c k ≡ is_some (lookup k (pairs c.entries))
  unfolding contains
  contains-lookup = elim (find-cases c k v) [
    | inl (slot, miss, unseen) ↦ ground (arith, slot, unseen)
    | inr (a, e, h) ↦ ground (arith, h.slot, h.seen)
  ]

pub clear-IsNext : (c : Cache) → IsValid c → IsNext c (clear c) []
unfolding clear find addr_of
clear-IsNext c v = record {
  valid = record {
    unique = tt;
    fresh = tt;
    indexed = λ k. refl;
    slots = tt;
    sizes = refl;
    counted = refl;
    payload = refl;
    within_entries = omega arith;
    within_bytes = omega arith;
    within_value = tt;
    machine = v.machine;
    evictions_word = v.evictions_word;
  };
  view = refl;
  limits = refl;
}

pub init-IsValid : (limits : CacheLimits) → limits.max_bytes < 2 ^ 63 → IsValid (init limits)
unfolding init find addr_of
init-IsValid limits h = record {
  unique = tt;
  fresh = tt;
  indexed = λ k. refl;
  slots = tt;
  sizes = refl;
  counted = refl;
  payload = refl;
  within_entries = omega arith;
  within_bytes = omega arith;
  within_value = tt;
  machine = h;
  evictions_word = omega arith;
}

-- A new node in front, where the loop has made room for it.
module _ (c : Cache) (k x : Bytes) (n : ℕ) where
  fresh_later : (m : ℕ) (l : List Entry) → All (λ e. e.addr < m) l → All (λ e. e.addr < suc m) l
  fresh_later m [] h = tt
  fresh_later m (e ∷ l) h = (omega (arith, h.0), fresh_later m l h.1)

  pub push_front-IsValid :
      IsValid c
      → addr_of k c.entries ≡ none
      → n ≡ length k + length x + 128
      → length x ≤ c.limits.max_value_bytes
      → length c.entries < c.limits.max_entries
      → c.bytes + n ≤ c.limits.max_bytes
      → IsValid (push_front c k x n)
  unfolding push_front addr_of add64
  push_front-IsValid v absent cost_eq small room_entries room_bytes =
      let slot = v.indexed k ∙ absent in
      record {
        unique = (
          absent,
          node_at_fresh c.next_node c.next_node c.entries v.fresh (omega arith),
          v.unique,
        );
        fresh = (omega arith, fresh_later c.next_node c.entries v.fresh);
        indexed = λ j. ground (arith, v.indexed j, find-emplace k j c.next_node c.index slot);
        slots = emplace-IsUnique k c.next_node c.index slot v.slots;
        sizes = omega (arith, length-emplace k c.next_node c.index slot, v.sizes);
        counted = omega (arith, v.counted, v.machine, cost_eq, room_bytes);
        payload = omega (
          arith,
          v.payload,
          v.counted,
          payload-le-cost c.entries,
          v.machine,
          cost_eq,
          room_bytes,
        );
        within_entries = room_entries;
        within_bytes = omega (arith, room_bytes, v.machine);
        within_value = (small, v.within_value);
        machine = v.machine;
        evictions_word = v.evictions_word;
      }
