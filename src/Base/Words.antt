-- ===== src/Base/Words.antt =====
-- Machine words: `size_t` and `uint64_t` as numbers below 2 ^ 64 with their wrap-around, and the
-- bytes of a `std::string`.
use Prim.Native.Nat.{ℕ, ◌+◌, ◌-◌, ◌%◌, ◌^◌}
use mathlib.Core.List.{List, [], ◌∷◌}
use mathlib.Core.Path.{◌≡◌, refl}
use native.Mathlib.Decide.{ℕ_discrete}

abbrev pub u64_mod : ℕ
u64_mod = 2 ^ 64

-- uint64_t a + b
unfoldable pub add64 : ℕ → ℕ → ℕ
add64 a b = (a + b) % u64_mod

-- uint64_t a - b; `-` on ℕ is truncated, so the modulus is added first
unfoldable pub sub64 : ℕ → ℕ → ℕ
sub64 a b = (a + u64_mod - b) % u64_mod

abbrev pub Bytes : Type 0
Bytes = List ℕ

cons-eq_head : {x y : ℕ} {xs ys : Bytes} → (x ∷ xs) ≡ (y ∷ ys) → x ≡ y
cons-eq_head e = cc

cons-eq_tail : {x y : ℕ} {xs ys : Bytes} → (x ∷ xs) ≡ (y ∷ ys) → xs ≡ ys
cons-eq_tail e = cc

nil-ne-cons : (y : ℕ) (ys : Bytes) → ¬ ([] ≡ y ∷ ys)
nil-ne-cons y ys e = cc

cons-ne-nil : (y : ℕ) (ys : Bytes) → ¬ (y ∷ ys ≡ [])
cons-ne-nil y ys e = cc

cons-discrete : {x y : ℕ} {xs ys : Bytes} → Dec (x ≡ y) → Dec (xs ≡ ys) → Dec ((x ∷ xs) ≡ (y ∷ ys))
cons-discrete (yes p) (yes q) = yes (λ i. p i ∷ q i)
cons-discrete (yes p) (no q) = no (λ e. q (cons-eq_tail e))
cons-discrete (no p) d = no (λ e. p (cons-eq_head e))

-- Two strings are equal when their bytes are.
unfoldable pub bytes_discrete : Discrete Bytes
unfolding cons-discrete nil-ne-cons cons-ne-nil cons-eq_tail cons-eq_head ℕ_discrete
bytes_discrete [] [] = yes refl
bytes_discrete [] (y ∷ ys) = no (nil-ne-cons y ys)
bytes_discrete (x ∷ xs) [] = no (cons-ne-nil x xs)
bytes_discrete (x ∷ xs) (y ∷ ys) = cons-discrete (ℕ_discrete x y) (bytes_discrete xs ys)
