-- ===== src/Server/Descriptors.antt =====
-- `connections_` of `Server`: the open connections by their descriptors. A `shared_ptr<Connection>` is the
-- id of its connection.
use local_cache_service.Base.{
  ℕ, ◌+◌, ◌≡◌, refl, inl, inr, List, [], ◌∷◌, Option, none, some, Bool-cases, if◌then◌else◌, ◌==◌,
  length, arith,
}

abbrev pub Descriptors : Type 0
Descriptors = List (ℕ × ℕ)

unfoldable pub find : ℕ → Descriptors → Option ℕ
find fd [] = none
find fd ((j, id) ∷ m) = if j == fd then some id else find fd m

-- A descriptor that is there keeps its connection.
unfoldable pub emplace : ℕ → ℕ → Descriptors → Descriptors
emplace fd id [] = (fd, id) ∷ []
emplace fd id ((j, k) ∷ m) = if j == fd then (j, k) ∷ m else (j, k) ∷ emplace fd id m

unfoldable pub erase : ℕ → Descriptors → Descriptors
erase fd [] = []
erase fd ((j, id) ∷ m) = if j == fd then m else (j, id) ∷ erase fd m

-- No descriptor stands twice.
abbrev pub IsUnique : Descriptors → Type 0
IsUnique [] = Unit {0}
IsUnique ((fd, id) ∷ m) = (find fd m ≡ none) × IsUnique m

pub find-erase :
    (j fd : ℕ) (m : Descriptors)
    → IsUnique m
    → find j (erase fd m) ≡ (if j == fd then none else find j m)
unfolding find erase
find-erase j fd [] u = ground arith
find-erase j fd ((k, id) ∷ m) (u, us) = ground (arith, find-erase j fd m us)

pub find-emplace :
    (j fd id : ℕ) (m : Descriptors)
    → find fd m ≡ none
    → find j (emplace fd id m) ≡ (if j == fd then some id else find j m)
unfolding find emplace
find-emplace j fd id [] e = ground arith
find-emplace j fd id ((k, x) ∷ m) e = ground (arith, find-emplace j fd id m)

pub length-emplace :
    (fd id : ℕ) (m : Descriptors) → find fd m ≡ none → length (emplace fd id m) ≡ length m + 1
unfolding find emplace
length-emplace fd id [] e = omega arith
length-emplace fd id ((k, x) ∷ m) e = ground (arith, length-emplace fd id m)

pub length-erase :
    (fd id : ℕ) (m : Descriptors) → find fd m ≡ some id → length (erase fd m) + 1 ≡ length m
unfolding find erase
length-erase fd id [] e = absurd cc
length-erase fd id ((k, x) ∷ m) e = ground (arith, length-erase fd id m)

pub erase-IsUnique : (fd : ℕ) (m : Descriptors) → IsUnique m → IsUnique (erase fd m)
unfolding erase
erase-IsUnique fd [] u = tt
erase-IsUnique fd ((k, x) ∷ m) (u, us) = elim (Bool-cases (k == fd)) [
  | inl e ↦ rw e us
  | inr e ↦ rw e (rw (find-erase k fd m us) (ground (arith, e, u)), erase-IsUnique fd m us)
]

pub emplace-IsUnique :
    (fd id : ℕ) (m : Descriptors) → find fd m ≡ none → IsUnique m → IsUnique (emplace fd id m)
unfolding emplace find
emplace-IsUnique fd id [] e u = (refl, tt)
emplace-IsUnique fd id ((k, x) ∷ m) e (u, us) = elim (Bool-cases (k == fd)) [
  | inl h ↦ absurd (ground (arith, h, e))
  | inr h ↦
      let left : find fd m ≡ none = ground (arith, h, e) in
      rw h
        (rw (find-emplace k fd id m left) (ground (arith, h, u)), emplace-IsUnique fd id m left us)
]
