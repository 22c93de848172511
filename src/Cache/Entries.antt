-- ===== src/Cache/Entries.antt =====
-- `entries_`, the doubly-linked list of nodes, most recently used first. A node keeps its address,
-- which stands for a list iterator, for its whole life.
use local_cache_service.Base.{
  ℕ, ◌+◌, ◌≤◌, ◌<◌, ◌≡◌, refl, subst, List, [], ◌∷◌, Option, none, some, arith, ite, Bytes,
  bytes_discrete, ℕ_discrete, length, All,
}

pub record Entry : Type 0 where
  pub addr : ℕ
  pub key : Bytes
  pub value : Bytes

-- the node that an iterator points to; `none` if the node is gone
unfoldable pub node_at : ℕ → List Entry → Option Entry
node_at a [] = none
node_at a (e ∷ l) = ite (ℕ_discrete e.addr a) (some e) (node_at a l)

-- entries_.erase(node)
unfoldable pub unlink : ℕ → List Entry → List Entry
unlink a [] = []
unlink a (e ∷ l) = ite (ℕ_discrete e.addr a) l (e ∷ unlink a l)

-- std::prev(entries_.end())
unfoldable pub last_node : List Entry → Option Entry
last_node [] = none
last_node (e ∷ []) = some e
last_node (e ∷ f ∷ l) = last_node (f ∷ l)

-- The address of the node that holds a key: what the index has to answer.
unfoldable pub addr_of : Bytes → List Entry → Option ℕ
addr_of k [] = none
addr_of k (e ∷ l) = ite (bytes_discrete e.key k) (some e.addr) (addr_of k l)

-- No key and no address stands twice.
abbrev pub IsUnique : List Entry → Type 0
IsUnique [] = Unit
IsUnique (e ∷ l) = (addr_of e.key l ≡ none) × (node_at e.addr l ≡ none) × IsUnique l

abbrev pub entry_bytes : Entry → ℕ
entry_bytes e = length e.key + length e.value

abbrev pub total_payload : List Entry → ℕ
total_payload [] = 0
total_payload (e ∷ l) = entry_bytes e + total_payload l

abbrev pub total_cost : List Entry → ℕ
total_cost [] = 0
total_cost (e ∷ l) = entry_bytes e + 128 + total_cost l

pub addr_of-node_at :
    (k : Bytes) (l : List Entry) (a : ℕ)
    → IsUnique l
    → addr_of k l ≡ some a
    → (e : Entry) × (node_at a l ≡ some e) × (e.addr ≡ a) × (e.key ≡ k)
unfolding addr_of node_at
addr_of-node_at k [] a u h = ground arith
addr_of-node_at k (e ∷ l) a u h = elim (bytes_discrete e.key k) [
  | yes p ↦ (e, ground arith, ground arith, p)
  | no p ↦
      let (f, found, at, named) = addr_of-node_at k l a u.2 (ground arith) in
      (f, ground arith, at, named)
]

pub node_at-unlink :
    (a b : ℕ) (l : List Entry)
    → IsUnique l
    → node_at b (unlink a l) ≡ ite (ℕ_discrete a b) none (node_at b l)
unfolding node_at unlink
node_at-unlink a b [] u = ground arith
node_at-unlink a b (e ∷ l) u = ground (arith, node_at-unlink a b l u.2)

pub addr_of-unlink :
    (k j : Bytes) (a : ℕ) (l : List Entry)
    → IsUnique l
    → addr_of k l ≡ some a
    → addr_of j (unlink a l) ≡ ite (bytes_discrete k j) none (addr_of j l)
unfolding addr_of unlink
addr_of-unlink k j a [] u h = ground arith
addr_of-unlink k j a (e ∷ l) u h =
    ground (arith, addr_of-unlink k j a l u.2, addr_of-node_at k l a u.2)

pub unlink-IsUnique :
    (k : Bytes) (a : ℕ) (l : List Entry) → IsUnique l → addr_of k l ≡ some a → IsUnique (unlink a l)
unfolding addr_of unlink
unlink-IsUnique k a [] u h = tt
unlink-IsUnique k a (e ∷ l) u h = ground (
  arith,
  addr_of-unlink k e.key a l u.2,
  node_at-unlink a e.addr l u.2,
  unlink-IsUnique k a l u.2,
)

pub totals-unlink :
    (a : ℕ) (l : List Entry) (e : Entry)
    → node_at a l ≡ some e
    → (length (unlink a l) + 1 ≡ length l)
      × (total_cost (unlink a l) + (entry_bytes e + 128) ≡ total_cost l)
      × (total_payload (unlink a l) + entry_bytes e ≡ total_payload l)
unfolding node_at unlink
totals-unlink a [] e h = ground arith
totals-unlink a (f ∷ l) e h = ground (arith, totals-unlink a l e)

-- What every node of a list satisfies holds after a node is taken out, and of that node.
pub All-unlink {ℓ} : (P : Entry → Type ℓ) (a : ℕ) (l : List Entry) → All P l → All P (unlink a l)
unfolding unlink
All-unlink P a [] h = tt
All-unlink P a (f ∷ l) h = ground (arith, All-unlink P a l)

pub All-node_at {ℓ} :
    (P : Entry → Type ℓ) (a : ℕ) (l : List Entry) (e : Entry) → node_at a l ≡ some e → All P l → P e
unfolding node_at
All-node_at P a [] e m h = cc
All-node_at P a (f ∷ l) e m h = elim (ℕ_discrete f.addr a) [
  | yes p ↦ subst P (ground arith) h.0
  | no p ↦ All-node_at P a l e (ground arith) h.1
]

-- A node beyond every address of the list is not in it.
pub node_at_fresh :
    (n a : ℕ) (l : List Entry) → All (λ e. e.addr < n) l → n ≤ a → node_at a l ≡ none
unfolding node_at
node_at_fresh n a [] h p = refl
node_at_fresh n a (e ∷ l) h p = ground (arith, node_at_fresh n a l)
