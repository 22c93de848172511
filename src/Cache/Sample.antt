-- ===== src/Cache/Sample.antt =====
-- A small cache to try the theorems at.
use local_cache_service.Base.{refl, [], ◌∷◌, Bytes, arith, bytes_discrete, ℕ_discrete}
use local_cache_service.Cache.Index.{find}
use local_cache_service.Cache.Entries.{node_at, addr_of}
use local_cache_service.Cache.Defs.{Cache, CacheLimits}
use local_cache_service.Cache.Invariant.{IsValid}

abbrev pub small : CacheLimits
small = record { max_entries = 2; max_bytes = 400; max_value_bytes = 10 }

abbrev pub a_key : Bytes
a_key = b'a' ∷ []

abbrev pub b_key : Bytes
b_key = b'b' ∷ []

abbrev pub c_key : Bytes
c_key = b'c' ∷ []

-- A full cache: "b" was used last.
abbrev pub full : Cache
full = record {
  limits = small;
  entries =
      record { addr = 1; key = b_key; value = 2 ∷ 2 ∷ [] }
      ∷ record { addr = 0; key = a_key; value = 1 ∷ [] }
      ∷ [];
  index = (b_key, 1) ∷ (a_key, 0) ∷ [];
  bytes = 261;
  payload_bytes = 5;
  evictions = 0;
  next_node = 2;
}

pub full-IsValid : IsValid full
unfolding find node_at addr_of bytes_discrete ℕ_discrete
full-IsValid = record {
  unique = (refl, refl, (refl, refl, tt));
  fresh = omega arith;
  indexed = λ k. refl;
  slots = (refl, (refl, tt));
  sizes = refl;
  counted = refl;
  payload = refl;
  within_entries = omega arith;
  within_bytes = omega arith;
  within_value = omega arith;
  machine = omega arith;
  evictions_word = omega arith;
}
