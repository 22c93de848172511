-- ===== src/Cache/Behaviour.antt =====
-- What a client can rely on, call by call.
use local_cache_service.Base.{
  ℕ, zero, suc, ◌+◌, ◌-◌, ◌^◌, ◌≤◌, ◌<◌, ◌≡◌, ◌≢◌, refl, sym, ap, subst, ◌∙◌, Option-cases, ◌⊎◌,
  inl, inr, List, [], ◌∷◌, ◌++◌, none, some, arith, length, length-append, All, Bytes,
  bytes_discrete, leb, if◌then◌else◌, add64, false, u64_mod, if_pos,
}
use local_cache_service.Cache.Entries
use local_cache_service.Cache.Entries.{Entry, addr_of, total_cost, total_payload}
use local_cache_service.Cache.Defs.{
  Cache, CacheLimits, stored, init, get, put, erase, contains, snapshot,
}
use local_cache_service.Cache.Invariant.{IsValid}
use local_cache_service.Cache.Recency.{View, lookup, without, touched, cost, total, keep}
use local_cache_service.Cache.Room.{kept}
use local_cache_service.Cache.Shape.{pairs, length-pairs, total-pairs, lookup-pairs-none}
use local_cache_service.Cache.Methods.{get-IsNext, erase-IsNext, contains-lookup, init-IsValid}
use local_cache_service.Cache.Put.{put_stored}
use local_cache_service.Cache.Calls.{Call, run, replies, IsSized, put_status}
use local_cache_service.Cache.Refinement.{view, run-IsNext}

-- What `keep` leaves out.
abbrev pub dropped : ℕ → ℕ → View → View
dropped zero room l = l
dropped (suc n) room [] = []
dropped (suc n) room (e ∷ l) =
    let rest = dropped n (room - cost e) l in if leb (cost e) room then rest else e ∷ l

keep-append-dropped : (n room : ℕ) (l : View) → l ≡ keep n room l ++ dropped n room l
unfolding keep
keep-append-dropped zero room l = refl
keep-append-dropped (suc n) room [] = refl
keep-append-dropped (suc n) room (e ∷ l) = ground (arith, keep-append-dropped n (room - cost e) l)

keep_fits : (n room : ℕ) (l : View) → (length (keep n room l) ≤ n) × (total (keep n room l) ≤ room)
unfolding keep
keep_fits zero room l = omega arith
keep_fits (suc n) room [] = omega arith
keep_fits (suc n) room (e ∷ l) = ground (arith, keep_fits n (room - cost e) l)

keep_longest :
    (n room : ℕ) (l : View) (e : Bytes × Bytes) (rest : View)
    → dropped n room l ≡ e ∷ rest
    → (n < length (keep n room l) + 1) ⊎ (room < total (keep n room l) + cost e)
unfolding keep
keep_longest zero room l e rest h = omega arith
keep_longest (suc n) room [] e rest h = cc
keep_longest (suc n) room (f ∷ l) e rest h = ground (arith, keep_longest n (room - cost f) l e rest)

view_bounds :
    (c : Cache)
    → IsValid c
    → (length (view c) ≤ c.limits.max_entries) × (total (view c) ≤ c.limits.max_bytes)
view_bounds c v = omega (
  arith,
  length-pairs c.entries,
  total-pairs c.entries,
  v.within_entries,
  v.within_bytes,
  v.counted,
)

-- What an accepted PUT evicts: the entries other than the one that it replaces, behind the longest
-- front part that fits beside the new entry.
abbrev pub victims : CacheLimits → Bytes → Bytes → View → View
victims limits k x l =
    dropped (limits.max_entries - 1) (limits.max_bytes - cost (k, x)) (without k l)

module _ (c : Cache) (k x : Bytes) where
  -- An accepted PUT on a valid cache, whose sizes and overhead add up without wrap-around, puts
  -- the new entry in front, keeps a front part of the recency list behind it and evicts the rest,
  -- its least recently used end; both limits hold afterwards and the eviction counter has grown by
  -- the number of evicted entries.
  pub put_evicts_lru :
      IsValid c
      → length k + length x + 128 < u64_mod
      → put_status c.limits k x ≡ stored
      → (c' : Cache) × (front : View) × (put c k x ≡ some (c', stored))
        × (view c' ≡ (k, x) ∷ front)
        × (without k (view c) ≡ front ++ victims c.limits k x (view c))
        × (length (view c') ≤ c.limits.max_entries)
        × (total (view c') ≤ c.limits.max_bytes)
        × (c'.evictions ≡ add64 c.evictions (length (victims c.limits k x (view c))))
  put_evicts_lru v sized e =
      let (c', run, d, counted) = put_stored c k x sized v e in
      let front = kept c.limits (cost (k, x)) (without k (view c)) in
      let bounds : (length (view c') ≤ c.limits.max_entries)
          × (total (view c') ≤ c.limits.max_bytes) =
        rw d.limits at (view_bounds c' d.valid) in
      let split =
        keep-append-dropped (c.limits.max_entries - 1) (c.limits.max_bytes - cost (k, x))
          (without k (view c)) in
      (
        c',
        front,
        run,
        d.view,
        split,
        bounds.0,
        bounds.1,
        counted
            ∙ ap (add64 c.evictions) (
                omega
                  (arith, ap length split, length-append front (victims c.limits k x (view c)))),
      )

  -- When an accepted PUT on a valid cache, whose sizes and overhead add up without wrap-around,
  -- evicts entries, the most recently used of them beside what is left would pass one of the two
  -- limits.
  pub put_evicts_fewest :
      (e : Bytes × Bytes) (rest : View)
      → IsValid c
      → length k + length x + 128 < u64_mod
      → put_status c.limits k x ≡ stored
      → victims c.limits k x (view c) ≡ e ∷ rest
      → (c' : Cache) × (put c k x ≡ some (c', stored))
        × ((c.limits.max_entries < length (view c') + 1)
            ⊎ (c.limits.max_bytes < total (view c') + cost e))
  put_evicts_fewest e rest v sized accepted h =
      let (c', run, d, counted) = put_stored c k x sized v accepted in
      let bounds : (length (view c') ≤ c.limits.max_entries)
          × (total (view c') ≤ c.limits.max_bytes) =
        rw d.limits at (view_bounds c' d.valid) in
      (
        c',
        run,
        omega (
          arith,
          keep_longest _ _ (without k (view c)) e rest h,
          ap length d.view,
          ap total d.view,
          bounds,
        ),
      )

-- On a valid cache, an accepted PUT whose sizes and overhead add up without wrap-around is
-- followed by a GET of its key that returns its value.
pub get-put :
    (c : Cache) (k x : Bytes)
    → IsValid c
    → length k + length x + 128 < u64_mod
    → put_status c.limits k x ≡ stored
    → (c₁ c₂ : Cache) × (put c k x ≡ some (c₁, stored)) × (get c₁ k ≡ some (c₂, some x))
unfolding lookup
get-put c k x v sized e =
    let (c₁, run, d, counted) = put_stored c k x sized v e in
    let (c₂, got, _) = get-IsNext c₁ d.valid k in
    (c₁, c₂, run, got ∙ ap (λ o. some (c₂, o)) (rw d.view (if_pos (bytes_discrete k k) refl _ _)))

lookup-without_ne : (k j : Bytes) (l : View) → j ≢ k → lookup j (without k l) ≡ lookup j l
unfolding lookup without
lookup-without_ne k j [] h = refl
lookup-without_ne k j ((i, x) ∷ l) h = ground (arith, lookup-without_ne k j l)

lookup-without_self :
    (k : Bytes) (l : List Entry) → Entries.IsUnique l → lookup k (without k (pairs l)) ≡ none
unfolding lookup without
lookup-without_self k [] u = refl
lookup-without_self k (e ∷ l) u = elim (bytes_discrete e.key k) [
  | yes p ↦ ground (arith, lookup-pairs-none e.key l u.0)
  | no p ↦ ground (arith, lookup-without_self k l u.2)
]

lookup-touched : (k j : Bytes) (l : View) → lookup j (touched k l (lookup k l)) ≡ lookup j l
lookup-touched k j l = elim (Option-cases (lookup k l)) [
  | inl miss ↦ rw miss
  | inr (x, hit) ↦ rw hit (unfold lookup in ground (arith, hit, lookup-without_ne k j l))
]

-- On a valid cache a GET answers from the recency list, and a GET of any key after it answers as
-- it would have before.
pub get-get :
    (c : Cache) (k j : Bytes)
    → IsValid c
    → (c₁ c₂ c₃ : Cache) × (get c k ≡ some (c₁, lookup k (view c)))
      × (get c₁ j ≡ some (c₂, lookup j (view c)))
      × (get c j ≡ some (c₃, lookup j (view c)))
get-get c k j v =
    let (c₁, first, d) = get-IsNext c v k in
    let (c₂, after, _) = get-IsNext c₁ d.valid j in
    let (c₃, alone, _) = get-IsNext c v j in
    (
      c₁,
      c₂,
      c₃,
      first,
      after ∙ ap (λ o. some (c₂, o)) (rw d.view (lookup-touched k j (view c))),
      alone,
    )

-- On a valid cache a DELETE answers whether the key was there, the key is absent afterwards, and a
-- GET of any other key answers from the recency list before it.
pub get-erase :
    (c : Cache) (k j : Bytes)
    → IsValid c
    → j ≢ k
    → (c₁ c₂ : Cache) × (erase c k ≡ some (c₁, contains c k))
      × (contains c₁ k ≡ false)
      × (get c₁ j ≡ some (c₂, lookup j (view c)))
get-erase c k j v h =
    let (c₁, run, d) = erase-IsNext c v k in
    let (c₂, got, _) = get-IsNext c₁ d.valid j in
    (
      c₁,
      c₂,
      run ∙ ap (λ b. some (c₁, b)) (sym (contains-lookup c v k)),
      contains-lookup c₁ d.valid k ∙ rw (d.view, lookup-without_self k c.entries v.unique),
      got ∙ ap (λ o. some (c₂, o)) (rw d.view (lookup-without_ne k j (view c) h)),
    )

-- From an empty cache whose limit on bytes is below 2 ^ 63, after any list of calls whose keys and
-- values have sizes that machine arithmetic can add: no call has faulted, the replies are those of
-- the reference, the reported entries, bytes and payload bytes are the true ones, both limits
-- hold, and no value is larger than its limit.
pub snapshot-run :
    (limits : CacheLimits) (calls : List Call)
    → limits.max_bytes < 2 ^ 63
    → All IsSized calls
    → (c : Cache) × (run (init limits) calls ≡ some (c, replies limits [] calls))
      × ((snapshot c).entries ≡ length c.entries)
      × ((snapshot c).entries ≤ limits.max_entries)
      × ((snapshot c).bytes ≡ total_cost c.entries)
      × ((snapshot c).bytes ≤ limits.max_bytes)
      × ((snapshot c).payload_bytes ≡ total_payload c.entries)
      × All (λ e. length e.value ≤ limits.max_value_bytes) c.entries
unfolding init snapshot
snapshot-run limits calls h hs =
    let (c, ran, d) = run-IsNext (init limits) calls (init-IsValid limits h) hs in
    let v = d.valid in
    (
      c,
      ran,
      v.sizes,
      omega (arith, v.sizes, v.within_entries, ap (λ (l : CacheLimits). l.max_entries) d.limits),
      v.counted,
      omega (arith, v.within_bytes, ap (λ (l : CacheLimits). l.max_bytes) d.limits),
      v.payload,
      subst (λ (l : CacheLimits). All (λ e. length e.value ≤ l.max_value_bytes) c.entries) d.limits
          v.within_value,
    )
