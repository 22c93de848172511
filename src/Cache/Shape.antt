-- ===== src/Cache/Shape.antt =====
-- How the list of nodes looks to a client, and what taking a node out does to that.
use local_cache_service.Base.{ℕ, ◌≡◌, refl, List, [], ◌∷◌, none, some, arith, Bytes, length}
use local_cache_service.Cache.Entries.{
  Entry, node_at, unlink, last_node, addr_of, IsUnique, addr_of-node_at, total_cost,
}
use local_cache_service.Cache.Recency.{View, lookup, without, drop_last, total}

abbrev pub pair : Entry → Bytes × Bytes
pair e = (e.key, e.value)

abbrev pub pairs : List Entry → View
pairs [] = []
pairs (e ∷ l) = (e.key, e.value) ∷ pairs l

pub length-pairs : (l : List Entry) → length (pairs l) ≡ length l
length-pairs [] = refl
length-pairs (e ∷ l) = omega (arith, length-pairs l)

pub total-pairs : (l : List Entry) → total (pairs l) ≡ total_cost l
total-pairs [] = refl
total-pairs (e ∷ l) = omega (arith, total-pairs l)

-- A key that no node holds is not in the view, and the other way round.
pub lookup-pairs-none :
    (k : Bytes) (l : List Entry) → addr_of k l ≡ none → lookup k (pairs l) ≡ none
unfolding lookup addr_of
lookup-pairs-none k [] h = refl
lookup-pairs-none k (e ∷ l) h = ground (arith, lookup-pairs-none k l)

pub addr_of-none : (k : Bytes) (l : List Entry) → lookup k (pairs l) ≡ none → addr_of k l ≡ none
unfolding lookup addr_of
addr_of-none k [] h = refl
addr_of-none k (e ∷ l) h = ground (arith, addr_of-none k l)

pub lookup-pairs-some :
    (k : Bytes) (a : ℕ) (l : List Entry) (e : Entry)
    → IsUnique l
    → addr_of k l ≡ some a
    → node_at a l ≡ some e
    → lookup k (pairs l) ≡ some e.value
unfolding lookup addr_of node_at
lookup-pairs-some k a [] e u h m = cc
lookup-pairs-some k a (f ∷ l) e u h m =
    ground (arith, lookup-pairs-some k a l e u.2, addr_of-node_at k l a u.2)

pub pairs-unlink :
    (k : Bytes) (a : ℕ) (l : List Entry)
    → IsUnique l
    → addr_of k l ≡ some a
    → pairs (unlink a l) ≡ without k (pairs l)
unfolding unlink without addr_of
pairs-unlink k a [] u h = refl
pairs-unlink k a (e ∷ l) u h = ground (arith, pairs-unlink k a l u.2, addr_of-node_at k l a u.2)

pub without_absent :
    (k : Bytes) (l : List Entry) → addr_of k l ≡ none → without k (pairs l) ≡ pairs l
unfolding without addr_of
without_absent k [] h = refl
without_absent k (e ∷ l) h = ground (arith, without_absent k l)

-- The last node is found again through its key and its address, and leaves from the end.
pub last_node_lem :
    (l : List Entry) (e : Entry)
    → IsUnique l
    → last_node l ≡ some e
    → (addr_of e.key l ≡ some e.addr)
      × (node_at e.addr l ≡ some e)
      × (pairs (unlink e.addr l) ≡ drop_last (pairs l))
unfolding last_node addr_of node_at unlink drop_last
last_node_lem [] e u h = cc
last_node_lem (f ∷ []) e u h = ground arith
last_node_lem (f ∷ g ∷ l) e u h = ground (arith, last_node_lem (g ∷ l) e u.2)
