-- ===== src/Cache/Index.antt =====
-- `index_`, the `unordered_map` from a key to the list node that holds it, as an association list.
-- The order of its slots is never read by the program.
use local_cache_service.Base.{
  ℕ, suc, ◌+◌, ◌≡◌, List, [], ◌∷◌, Option, none, some, arith, ite, Bytes, bytes_discrete, length,
}

abbrev pub Index : Type 0
Index = List (Bytes × ℕ)

-- index_.find(key): the stored iterator, `none` for end()
unfoldable pub find : Bytes → Index → Option ℕ
find k [] = none
find k ((j, a) ∷ m) = ite (bytes_discrete j k) (some a) (find k m)

-- index_.emplace(key, node): a key that is present keeps its slot
unfoldable pub emplace : Bytes → ℕ → Index → Index
emplace k a m = elim (find k m) [ none ↦ (k, a) ∷ m | some _ ↦ m ]

-- index_.erase(it), for the slot of the key
unfoldable pub erase_slot : Bytes → Index → Index
erase_slot k [] = []
erase_slot k ((j, a) ∷ m) = ite (bytes_discrete j k) m ((j, a) ∷ erase_slot k m)

-- No key has two slots.
abbrev pub IsUnique : Index → Type 0
IsUnique [] = Unit
IsUnique ((k, a) ∷ m) = (find k m ≡ none) × IsUnique m

pub find-erase_slot :
    (k j : Bytes) (m : Index)
    → IsUnique m
    → find j (erase_slot k m) ≡ ite (bytes_discrete k j) none (find j m)
unfolding find erase_slot
find-erase_slot k j [] u = ground arith
find-erase_slot k j ((i, a) ∷ m) u = ground (arith, find-erase_slot k j m u.1)

pub erase_slot-IsUnique : (k : Bytes) (m : Index) → IsUnique m → IsUnique (erase_slot k m)
unfolding find erase_slot
erase_slot-IsUnique k [] u = tt
erase_slot-IsUnique k ((i, a) ∷ m) u =
    ground (arith, find-erase_slot k i m u.1, erase_slot-IsUnique k m u.1)

pub length-erase_slot :
    (k : Bytes) (m : Index) (a : ℕ) → find k m ≡ some a → length (erase_slot k m) + 1 ≡ length m
unfolding find erase_slot
length-erase_slot k [] a h = ground arith
length-erase_slot k ((i, b) ∷ m) a h = ground (arith, length-erase_slot k m a)

pub find-emplace :
    (k j : Bytes) (a : ℕ) (m : Index)
    → find k m ≡ none
    → find j (emplace k a m) ≡ ite (bytes_discrete k j) (some a) (find j m)
unfolding find emplace
find-emplace k j a m h = ground arith

pub length-emplace :
    (k : Bytes) (a : ℕ) (m : Index) → find k m ≡ none → length (emplace k a m) ≡ suc (length m)
unfolding emplace
length-emplace k a m h = ground arith

pub emplace-IsUnique :
    (k : Bytes) (a : ℕ) (m : Index) → find k m ≡ none → IsUnique m → IsUnique (emplace k a m)
unfolding emplace
emplace-IsUnique k a m h u = ground arith
