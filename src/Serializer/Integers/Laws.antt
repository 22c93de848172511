-- ===== src/Serializer/Integers/Laws.antt =====
-- What the big-endian primitives write, and that the readers read it back.
use Prim.Native.Nat.{bit_or}
use local_cache_service.Base.{
  ℕ, suc, ◌+◌, ◌*◌, ◌%◌, ◌^◌, ◌<◌, ◌≡◌, ap, ◌∙◌, [], ◌∷◌, ◌++◌, Bytes, u64_mod, arith, All,
  append_assoc,
}
use local_cache_service.Base.Bits.{bit_or_shifted}
use local_cache_service.Serializer.Integers.{
  octet, append_u16, append_u32, append_u64, read_u16, read_u32, read_u64, read_u64_loop, shl32,
}

abbrev pub IsByte : ℕ → Type 0
IsByte x = x < 256

-- `|` with a number that has a multiple's low bits to itself
or_low : (k x s y : ℕ) → s ≡ x * 2 ^ k → y < 2 ^ k → bit_or s y ≡ s + y
or_low k x s y e h = rw e (bit_or_shifted k x y h)

-- The bytes of a number, most significant first.
abbrev pub be16 : ℕ → Bytes
be16 v = octet v 8 ∷ octet v 0 ∷ []

abbrev pub be32 : ℕ → Bytes
be32 v = octet v 24 ∷ octet v 16 ∷ octet v 8 ∷ octet v 0 ∷ []

abbrev pub be64 : ℕ → Bytes
be64 v =
    octet v 56
    ∷ octet v 48
    ∷ octet v 40
    ∷ octet v 32
    ∷ octet v 24
    ∷ octet v 16
    ∷ octet v 8
    ∷ octet v 0
    ∷ []

pub append_u16-be16 : (out : Bytes) (v : ℕ) → append_u16 out v ≡ out ++ be16 v
unfolding append_u16
append_u16-be16 out v = simp append_assoc

pub append_u32-be32 : (out : Bytes) (v : ℕ) → append_u32 out v ≡ out ++ be32 v
unfolding append_u32
append_u32-be32 out v = simp append_assoc

pub append_u64-be64 : (out : Bytes) (v : ℕ) → append_u64 out v ≡ out ++ be64 v
unfolding append_u64
append_u64-be64 out v = simp append_assoc

module _ (a b c d : ℕ) (rest : Bytes) (ha : IsByte a) (hb : IsByte b) (hc : IsByte c)
    (hd : IsByte d) where
  pub read_u16_lem : read_u16 (a ∷ b ∷ rest) ≡ a * 256 + b
  unfolding read_u16
  read_u16_lem = omega (arith, or_low 8 a (a * 2 ^ 8 % 2 ^ 16) b (omega arith) hb)

  pub read_u32_lem : read_u32 (a ∷ b ∷ c ∷ d ∷ rest) ≡ a * 2 ^ 24 + b * 2 ^ 16 + c * 2 ^ 8 + d
  unfolding read_u32
  read_u32_lem =
      let ab = bit_or (shl32 a 24) (shl32 b 16) in
      let abc = bit_or ab (shl32 c 8) in
      let first = or_low 24 a (shl32 a 24) (shl32 b 16) (omega arith) (omega arith) in
      let second = or_low 16 (a * 256 + b) ab (shl32 c 8) (omega (arith, first)) (omega arith) in
      let third = or_low 8 (a * 2 ^ 16 + b * 256 + c) abc d (omega (arith, first, second)) hd in
      omega (arith, first, second, third)

-- One round of the loop of `read_u64` while the value has room for another byte.
read_round :
    (rounds value x : ℕ) (rest : Bytes)
    → IsByte x
    → value * 256 < u64_mod
    → read_u64_loop (suc rounds) value (x ∷ rest) ≡ read_u64_loop rounds (value * 256 + x) rest
unfolding read_u64_loop
read_round rounds value x rest hx h =
    rw (or_low 8 value (value * 2 ^ 8 % u64_mod) x (omega arith) hx)
      (ap (λ (t : ℕ). read_u64_loop rounds t rest) (omega arith))

-- `bytes` read as digits after `value`.
abbrev pub digits_of : ℕ → Bytes → ℕ
digits_of value [] = value
digits_of value (x ∷ xs) = digits_of (value * 256 + x) xs

module _ (a b c d e f g h : ℕ) (rest : Bytes) where
  pub read_u64_lem :
      All IsByte (a ∷ b ∷ c ∷ d ∷ e ∷ f ∷ g ∷ h ∷ [])
      → read_u64 (a ∷ b ∷ c ∷ d ∷ e ∷ f ∷ g ∷ h ∷ rest)
        ≡ digits_of 0 (a ∷ b ∷ c ∷ d ∷ e ∷ f ∷ g ∷ h ∷ [])
  unfolding read_u64
  read_u64_lem all =
      read_round 7 0 a (b ∷ c ∷ d ∷ e ∷ f ∷ g ∷ h ∷ rest) (omega arith) (omega arith)
      ∙ read_round 6 (digits_of 0 (a ∷ [])) b (c ∷ d ∷ e ∷ f ∷ g ∷ h ∷ rest) (omega arith)
          (omega arith)
      ∙ read_round 5 (digits_of 0 (a ∷ b ∷ [])) c (d ∷ e ∷ f ∷ g ∷ h ∷ rest) (omega arith)
          (omega arith)
      ∙ read_round 4 (digits_of 0 (a ∷ b ∷ c ∷ [])) d (e ∷ f ∷ g ∷ h ∷ rest) (omega arith)
          (omega arith)
      ∙ read_round 3 (digits_of 0 (a ∷ b ∷ c ∷ d ∷ [])) e (f ∷ g ∷ h ∷ rest) (omega arith)
          (omega arith)
      ∙ read_round 2 (digits_of 0 (a ∷ b ∷ c ∷ d ∷ e ∷ [])) f (g ∷ h ∷ rest) (omega arith)
          (omega arith)
      ∙ read_round 1 (digits_of 0 (a ∷ b ∷ c ∷ d ∷ e ∷ f ∷ [])) g (h ∷ rest) (omega arith)
          (omega arith)
      ∙ read_round 0 (digits_of 0 (a ∷ b ∷ c ∷ d ∷ e ∷ f ∷ g ∷ [])) h rest (omega arith)
          (omega arith)

-- What was written is read back.
pub read_u16-be16 : (v : ℕ) (rest : Bytes) → v < 2 ^ 16 → read_u16 (be16 v ++ rest) ≡ v
read_u16-be16 v rest h =
    read_u16_lem _ _ 0 0 rest (omega arith) (omega arith) (omega arith) (omega arith) ∙ omega arith

pub read_u32-be32 : (v : ℕ) (rest : Bytes) → v < 2 ^ 32 → read_u32 (be32 v ++ rest) ≡ v
read_u32-be32 v rest h =
    read_u32_lem _ _ _ _ rest (omega arith) (omega arith) (omega arith) (omega arith) ∙ omega arith

pub read_u64-be64 : (v : ℕ) (rest : Bytes) → v < u64_mod → read_u64 (be64 v ++ rest) ≡ v
read_u64-be64 v rest h = read_u64_lem _ _ _ _ _ _ _ _ rest (omega arith) ∙ omega arith

-- What is read writes the same bytes again.
pub be32-read_u32 :
    (a b c d : ℕ) (rest : Bytes)
    → All IsByte (a ∷ b ∷ c ∷ d ∷ [])
    → (be32 (read_u32 (a ∷ b ∷ c ∷ d ∷ rest)) ≡ a ∷ b ∷ c ∷ d ∷ [])
      × (read_u32 (a ∷ b ∷ c ∷ d ∷ rest) < 2 ^ 32)
be32-read_u32 a b c d rest all =
    let e = read_u32_lem a b c d rest (omega arith) (omega arith) (omega arith) (omega arith) in
    (rw e (ground arith), omega (arith, e))

pub be64-read_u64 :
    (a b c d e f g h : ℕ) (rest : Bytes)
    → All IsByte (a ∷ b ∷ c ∷ d ∷ e ∷ f ∷ g ∷ h ∷ [])
    → (be64 (read_u64 (a ∷ b ∷ c ∷ d ∷ e ∷ f ∷ g ∷ h ∷ rest)) ≡ a ∷ b ∷ c ∷ d ∷ e ∷ f ∷ g ∷ h ∷ [])
      × (read_u64 (a ∷ b ∷ c ∷ d ∷ e ∷ f ∷ g ∷ h ∷ rest) < u64_mod)
be64-read_u64 a b c d e f g h rest all =
    let eq = read_u64_lem a b c d e f g h rest all in (rw eq (ground arith), omega (arith, eq))
