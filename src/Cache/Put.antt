-- ===== src/Cache/Put.antt =====
-- `put` on a valid cache, branch by branch.
use local_cache_service.Base.{
  ℕ, suc, ◌+◌, ◌-◌, ◌≤◌, ◌<◌, ◌≡◌, ◌≢◌, refl, ap, ap₂, ◌∙◌, ◌⊎◌, inl, inr, ◌∷◌, none, some, arith,
  Bytes, add64, length, u64_mod,
}
use local_cache_service.Cache.Entries.{addr_of}
use local_cache_service.Cache.Defs.{
  Cache, CacheLimits, PutStatus, stored, value_too_large, entry_too_large, entry_cost, put,
  erase_replaced, push_front, make_room_locked,
}
use local_cache_service.Cache.Invariant.{IsValid}
use local_cache_service.Cache.Room.{kept, make_room_locked-IsShrunk}
use local_cache_service.Cache.Recency.{View, without, cost, lookup-keep}
use local_cache_service.Cache.Shape.{pairs, length-pairs, lookup-pairs-none, addr_of-none}
use local_cache_service.Cache.Methods.{IsNext, erase_replaced-IsErased, push_front-IsValid}
use local_cache_service.Cache.Calls.{put_status, after_status}

PutStatus-cases : (s : PutStatus) → (s ≡ stored) ⊎ ((s ≡ value_too_large) ⊎ (s ≡ entry_too_large))
PutStatus-cases stored = inl refl
PutStatus-cases value_too_large = inr (inl refl)
PutStatus-cases entry_too_large = inr (inr refl)

-- The number of evictions that the loop of `put` makes in an accepted call.
abbrev pub evicted : CacheLimits → Bytes → Bytes → View → ℕ
evicted limits k x l = length (without k l) - length (kept limits (cost (k, x)) (without k l))

module _ (c : Cache) (k x : Bytes) (sized : length k + length x + 128 < u64_mod) where
  entry_cost-cost : entry_cost (length k) (length x) ≡ length k + length x + 128
  unfolding entry_cost add64
  entry_cost-cost = omega (arith, sized)

  rejected : (s : PutStatus) → s ≢ stored → put_status c.limits k x ≡ s → put c k x ≡ some (c, s)
  unfolding put put_status
  rejected s h e = ground (arith, entry_cost-cost)

  accepted_bounds :
      put_status c.limits k x ≡ stored
      → (length x ≤ c.limits.max_value_bytes)
        × (length k + length x + 128 ≤ c.limits.max_bytes)
        × (0 < c.limits.max_entries)
  unfolding put_status
  accepted_bounds e = ground arith

  accepted :
      (c₁ c₂ : Cache)
      → put_status c.limits k x ≡ stored
      → erase_replaced c k ≡ some c₁
      → make_room_locked (suc (length c₁.entries)) c₁ (length k + length x + 128) ≡ some c₂
      → put c k x ≡ some (push_front c₂ k x (length k + length x + 128), stored)
  unfolding put put_status
  accepted c₁ c₂ e h₁ h₂ = ground (arith, entry_cost-cost)

  -- An accepted PUT: drop what it replaces, make room, push the new node in front.
  pub put_stored :
      IsValid c
      → put_status c.limits k x ≡ stored
      → (c' : Cache) × (put c k x ≡ some (c', stored))
        × IsNext c c' ((k, x) ∷ kept c.limits (cost (k, x)) (without k (pairs c.entries)))
        × (c'.evictions ≡ add64 c.evictions (evicted c.limits k x (pairs c.entries)))
  unfolding push_front
  put_stored v e =
      let (small, fits, some_entries) = accepted_bounds e in
      let (c₁, h₁, d, gone, same) = erase_replaced-IsErased c v k in
      let (c₂, h₂, s) =
        make_room_locked-IsShrunk (suc (length c₁.entries)) c₁ (length k + length x + 128) d.valid
          (rw d.limits some_entries) (rw d.limits fits) (omega arith) in
      let absent : addr_of k c₂.entries ≡ none =
        addr_of-none k c₂.entries (
          rw s.view (lookup-keep k _ _ (pairs c₁.entries) (lookup-pairs-none k c₁.entries gone))) in
      let view : pairs c₂.entries ≡ kept c.limits (cost (k, x)) (without k (pairs c.entries)) =
        s.view ∙ rw (d.limits, d.view) refl in
      (
        push_front c₂ k x (length k + length x + 128),
        accepted c₁ c₂ e h₁ h₂,
        record {
          valid =
              push_front-IsValid c₂ k x _ s.valid absent refl (rw (s.limits, d.limits) small)
                s.room_entries s.room_bytes;
          view = ap (◌∷◌ (k, x)) view;
          limits = s.limits ∙ d.limits;
        },
        s.counted
            ∙ ap₂ add64 same (
                omega (
                  arith,
                  length-pairs c₁.entries,
                  length-pairs c₂.entries,
                  ap length d.view,
                  ap length view,
                )),
      )

  -- A PUT that is refused leaves the cache as it was.
  put_rejected :
      IsValid c
      → (s : PutStatus) → s ≢ stored
      → put_status c.limits k x ≡ s
      → (c' : Cache) × (put c k x ≡ some (c', s))
        × IsNext c c' (pairs c.entries)
        × (c'.evictions ≡ c.evictions)
  put_rejected v s h e = (c, rejected s h e, record { valid = v; view = refl; limits = refl }, refl)

  pub put-IsNext :
      IsValid c
      → (c' : Cache) × (put c k x ≡ some (c', put_status c.limits k x))
        × IsNext c c' (after_status c.limits k x (pairs c.entries) (put_status c.limits k x))
  put-IsNext v = elim (PutStatus-cases (put_status c.limits k x)) [
    | inl e ↦ let (c', run, d, counted) = put_stored v e in rw e (c', run, d)
    | inr (inl e) ↦ let (c', run, d, counted) = put_rejected v _ (λ h. cc) e in rw e (c', run, d)
    | inr (inr e) ↦ let (c', run, d, counted) = put_rejected v _ (λ h. cc) e in rw e (c', run, d)
  ]
