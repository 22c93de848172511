-- ===== src/Cache/Room.antt =====
-- The eviction loop `make_room_locked` and its body `evict_lru_locked`.
use local_cache_service.Base.{
  ℕ, zero, suc, ◌+◌, ◌-◌, ◌≤◌, ◌<◌, ◌≡◌, refl, sym, ◌∙◌, ◌⊎◌, inl, inr, List, [], ◌∷◌, some, arith,
  Bytes, add64, length, true, false, Bool-cases,
}
use local_cache_service.Cache.Entries.{Entry, last_node}
use local_cache_service.Cache.Defs.{
  Cache, CacheLimits, evict_lru_locked, is_empty, needs_room, make_room_locked,
}
use local_cache_service.Cache.Invariant.{IsValid, IsErased, erase_locked-IsErased, length-le-cost}
use local_cache_service.Cache.Recency.{View, keep, drop_last, keep_whole, keep-drop_last, total}
use local_cache_service.Cache.Shape.{pairs, length-pairs, total-pairs, last_node_lem, pairs-unlink}

has_last : (e : Entry) (l : List Entry) → (f : Entry) × (last_node (e ∷ l) ≡ some f)
unfolding last_node
has_last e [] = (e, refl)
has_last e (f ∷ l) = has_last f l

-- What one eviction leaves of a valid cache.
record IsEvicted (c c' : Cache) : Type 0 where
  valid : IsValid c'
  view : pairs c'.entries ≡ drop_last (pairs c.entries)
  shorter : suc (length c'.entries) ≡ length c.entries
  limits : c'.limits ≡ c.limits
  counted : c'.evictions ≡ add64 c.evictions 1
  next_node : c'.next_node ≡ c.next_node

IsErased-evictions :
    {k : Bytes} {c c' : Cache}
    → IsErased k c c'
    → pairs c'.entries ≡ drop_last (pairs c.entries)
    → IsEvicted c (record c' { evictions = add64 c'.evictions 1 })
unfolding add64
IsErased-evictions {k} {c} {c'} d p = record {
  valid = record {
    unique = d.valid.unique;
    fresh = d.valid.fresh;
    indexed = d.valid.indexed;
    slots = d.valid.slots;
    sizes = d.valid.sizes;
    counted = d.valid.counted;
    payload = d.valid.payload;
    within_entries = d.valid.within_entries;
    within_bytes = d.valid.within_bytes;
    within_value = d.valid.within_value;
    machine = d.valid.machine;
    evictions_word = omega arith;
  };
  view = p;
  shorter = d.shorter;
  limits = d.limits;
  counted = rw d.evictions;
  next_node = d.next_node;
}

evict_last :
    (c : Cache) (e : Entry)
    → IsValid c
    → last_node c.entries ≡ some e
    → (c' : Cache) × (evict_lru_locked c ≡ some c') × IsEvicted c c'
unfolding evict_lru_locked
evict_last c e v h =
    let (held, found, front) = last_node_lem c.entries e v.unique h in
    let (c', erased, d) = erase_locked-IsErased c e.key e.addr v held in
    (
      record c' { evictions = add64 c'.evictions 1 },
      rw (h, v.indexed e.key, held, erased),
      IsErased-evictions d
          (d.view ∙ sym (pairs-unlink e.key e.addr c.entries v.unique held) ∙ front),
    )

-- One round of the loop on a valid cache that is not empty.
evict_lru_locked-IsEvicted :
    (c : Cache) {e : Entry} {l : List Entry}
    → IsValid c
    → c.entries ≡ e ∷ l
    → (c' : Cache) × (evict_lru_locked c ≡ some c') × IsEvicted c c'
evict_lru_locked-IsEvicted c {e} {l} v h =
    let (f, found) = has_last e l in evict_last c f v (rw h found)

-- The reference: what stays of a view when an entry of the given cost is to come in.
abbrev pub kept : CacheLimits → ℕ → View → View
kept limits cost = keep (limits.max_entries - 1) (limits.max_bytes - cost)

-- What the loop leaves of a valid cache.
pub record IsShrunk (cost : ℕ) (c c' : Cache) : Type 0 where
  pub valid : IsValid c'
  pub view : pairs c'.entries ≡ kept c.limits cost (pairs c.entries)
  pub room_entries : length c'.entries < c'.limits.max_entries
  pub room_bytes : c'.bytes + cost ≤ c'.limits.max_bytes
  pub limits : c'.limits ≡ c.limits
  pub shorter : length c'.entries ≤ length c.entries
  pub counted : c'.evictions ≡ add64 c.evictions (length c.entries - length c'.entries)
  pub next_node : c'.next_node ≡ c.next_node

head_of : (l : List Entry) → is_empty l ≡ false → (e : Entry) × (r : List Entry) × (l ≡ e ∷ r)
head_of [] h = cc
head_of (e ∷ r) h = (e, r, refl)

-- The test of the loop, on a valid cache: some entry is left, and something does not fit.
abbrev IsOver : Cache → ℕ → Type 0
IsOver c cost =
    (c.limits.max_entries - 1 < length c.entries)
    ⊎ (c.limits.max_bytes - cost < total (pairs c.entries))

needs_room-IsOver :
    (c : Cache) (cost : ℕ)
    → IsValid c
    → cost ≤ c.limits.max_bytes
    → needs_room c cost ≡ true
    → (is_empty c.entries ≡ false) × IsOver c cost
unfolding needs_room add64
needs_room-IsOver c cost v fits h = ground (
  arith,
  v.sizes,
  length-le-cost c.entries,
  v.counted,
  v.machine,
  v.within_bytes,
  total-pairs c.entries,
)

has_room :
    (c : Cache) (cost : ℕ)
    → IsValid c
    → 0 < c.limits.max_entries
    → cost ≤ c.limits.max_bytes
    → needs_room c cost ≡ false
    → (length c.entries < c.limits.max_entries) × (c.bytes + cost ≤ c.limits.max_bytes)
unfolding needs_room add64
has_room c cost v some_entries fits h =
    ground (arith, v.sizes, length-le-cost c.entries, v.counted, v.machine, v.within_bytes)

IsShrunk-stop :
    (c : Cache) (cost : ℕ)
    → IsValid c
    → (length c.entries < c.limits.max_entries) × (c.bytes + cost ≤ c.limits.max_bytes)
    → IsShrunk cost c c
unfolding add64
IsShrunk-stop c cost v (p, q) = record {
  valid = v;
  view = sym (
      keep_whole _ _ (pairs c.entries) (omega (arith, length-pairs c.entries))
        (omega (arith, total-pairs c.entries, v.counted)));
  room_entries = p;
  room_bytes = q;
  limits = refl;
  shorter = omega arith;
  counted = omega (arith, v.evictions_word);
  next_node = refl;
}

IsShrunk-step :
    {c d c' : Cache} (cost : ℕ)
    → IsEvicted c d
    → IsShrunk cost d c'
    → IsOver c cost
    → IsValid c
    → IsShrunk cost c c'
unfolding add64
IsShrunk-step {c} {d} {c'} cost e s over v = record {
  valid = s.valid;
  view =
      s.view
      ∙ rw (e.limits, e.view)
          (keep-drop_last _ _ (pairs c.entries) (omega (arith, over, length-pairs c.entries)));
  room_entries = s.room_entries;
  room_bytes = s.room_bytes;
  limits = s.limits ∙ e.limits;
  shorter = omega (arith, e.shorter, s.shorter);
  counted = omega (arith, s.counted, e.counted, e.shorter, s.shorter);
  next_node = s.next_node ∙ e.next_node;
}

round_more :
    (fuel : ℕ) (c d : Cache) (cost : ℕ)
    → needs_room c cost ≡ true
    → evict_lru_locked c ≡ some d
    → make_room_locked (suc fuel) c cost ≡ make_room_locked fuel d cost
unfolding make_room_locked
round_more fuel c d cost h e = ground arith

round_last :
    (fuel : ℕ) (c : Cache) (cost : ℕ)
    → needs_room c cost ≡ false
    → make_room_locked (suc fuel) c cost ≡ some c
unfolding make_room_locked
round_last fuel c cost h = ground arith

-- On a valid cache whose limits admit the new entry, the eviction loop ends within one round for
-- each entry and one more, without a fault, and leaves the longest front part of the recency list
-- beside which the entry fits.
pub make_room_locked-IsShrunk :
    (fuel : ℕ) (c : Cache) (cost : ℕ)
    → IsValid c
    → 0 < c.limits.max_entries
    → cost ≤ c.limits.max_bytes
    → length c.entries < fuel
    → (c' : Cache) × (make_room_locked fuel c cost ≡ some c') × IsShrunk cost c c'
make_room_locked-IsShrunk zero c cost v some_entries fits enough = absurd (omega arith)
make_room_locked-IsShrunk (suc fuel) c cost v some_entries fits enough =
    elim (Bool-cases (needs_room c cost)) [
      | inl more ↦
          let (left, over) = needs_room-IsOver c cost v fits more in
          let (e, l, h) = head_of c.entries left in
          let (d, evicted, x) = evict_lru_locked-IsEvicted c v h in
          let (c', rest, s) =
            make_room_locked-IsShrunk fuel d cost x.valid (rw x.limits some_entries)
              (rw x.limits fits) (omega (arith, x.shorter)) in
          (c', round_more fuel c d cost more evicted ∙ rest, IsShrunk-step cost x s over v)
      | inr done ↦ (
        c,
        round_last fuel c cost done,
        IsShrunk-stop c cost v (has_room c cost v some_entries fits done),
      )
    ]
