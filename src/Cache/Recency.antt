-- ===== src/Cache/Recency.antt =====
-- The cache as a client sees it: keys and values, most recently used first, with no nodes, no index
-- and no counters. What each operation of `LruCache` means is said here without eviction loops:
-- the entries that stay are the longest front part that leaves room for the new one.
use local_cache_service.Base.{
  ℕ, zero, suc, ◌+◌, ◌-◌, ◌≤◌, ◌<◌, ◌≡◌, refl, ◌⊎◌, List, [], ◌∷◌, Option, none, some, arith, ite,
  Bytes, bytes_discrete, length, if◌then◌else◌, leb,
}

abbrev pub View : Type 0
View = List (Bytes × Bytes)

unfoldable pub lookup : Bytes → View → Option Bytes
lookup k [] = none
lookup k ((j, v) ∷ l) = ite (bytes_discrete j k) (some v) (lookup k l)

unfoldable pub without : Bytes → View → View
without k [] = []
without k ((j, v) ∷ l) = ite (bytes_discrete j k) l ((j, v) ∷ without k l)

-- a hit moves to the front, a miss changes nothing
abbrev pub touched : Bytes → View → Option Bytes → View
touched k l none = l
touched k l (some v) = (k, v) ∷ without k l

abbrev pub cost : Bytes × Bytes → ℕ
cost (k, v) = length k + length v + 128

abbrev pub total : View → ℕ
total [] = 0
total (e ∷ l) = cost e + total l

-- The longest front part of at most `n` entries that cost at most `room`.
unfoldable pub keep : ℕ → ℕ → View → View
keep zero room l = []
keep (suc n) room [] = []
keep (suc n) room (e ∷ l) =
    let rest = keep n (room - cost e) l in if leb (cost e) room then e ∷ rest else []

unfoldable pub drop_last : View → View
drop_last [] = []
drop_last (e ∷ []) = []
drop_last (e ∷ f ∷ l) = e ∷ drop_last (f ∷ l)

-- A list that fits is kept whole.
pub keep_whole : (n room : ℕ) (l : View) → length l ≤ n → total l ≤ room → keep n room l ≡ l
unfolding keep
keep_whole zero room [] p q = refl
keep_whole zero room (e ∷ l) p q = absurd (omega arith)
keep_whole (suc n) room [] p q = refl
keep_whole (suc n) room (e ∷ l) p q = ground (arith, keep_whole n (room - cost e) l)

-- To drop the last entry of a list that does not fit changes nothing.
pub keep-drop_last :
    (n room : ℕ) (l : View)
    → (n < length l) ⊎ (room < total l)
    → keep n room (drop_last l) ≡ keep n room l
unfolding keep drop_last
keep-drop_last zero room l h = refl
keep-drop_last (suc n) room [] h = refl
keep-drop_last (suc n) room (e ∷ []) h = ground arith
keep-drop_last (suc n) room (e ∷ f ∷ l) h = ground (arith, keep-drop_last n (room - cost e) (f ∷ l))

pub lookup-keep :
    (k : Bytes) (n room : ℕ) (l : View) → lookup k l ≡ none → lookup k (keep n room l) ≡ none
unfolding lookup keep
lookup-keep k zero room l h = refl
lookup-keep k (suc n) room [] h = refl
lookup-keep k (suc n) room (e ∷ l) h = ground (arith, lookup-keep k n (room - cost e) l)
