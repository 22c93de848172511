-- ===== src/Serializer/Integers.antt =====
-- The big-endian primitives of src/serializer.cpp. A pointer `data + n` is the buffer without its
-- first `n` bytes; a read past the end of the buffer, which the callers exclude, would give 0.
pub mod Laws
use Prim.Native.Nat.{bit_or}
use local_cache_service.Base.{
  ℕ, zero, suc, ◌+◌, ◌*◌, ◌/◌, ◌%◌, ◌^◌, List, [], ◌∷◌, ◌++◌, Bytes, get_or, u64_mod,
}

abbrev pub push_back : Bytes → ℕ → Bytes
push_back out x = out ++ (x ∷ [])

-- static_cast<uint8_t>(value >> shift)
abbrev pub octet : ℕ → ℕ → ℕ
octet value shift = value / 2 ^ shift % 256

unfoldable pub append_u8 : Bytes → ℕ → Bytes
append_u8 out value = push_back out value

unfoldable pub append_u16 : Bytes → ℕ → Bytes
append_u16 out value = push_back (push_back out (octet value 8)) (octet value 0)

unfoldable pub append_u32 : Bytes → ℕ → Bytes
append_u32 out value =
    push_back
      (push_back (push_back (push_back out (octet value 24)) (octet value 16)) (octet value 8))
      (octet value 0)

-- `rounds` more bytes, the next one at the shift 8 * (rounds - 1)
append_u64_loop : ℕ → Bytes → ℕ → Bytes
append_u64_loop zero out value = out
append_u64_loop (suc rounds) out value =
    append_u64_loop rounds (push_back out (octet value (8 * rounds))) value

unfoldable pub append_u64 : Bytes → ℕ → Bytes
unfolding append_u64_loop
append_u64 out value = append_u64_loop 8 out value

unfoldable pub read_u8 : Bytes → ℕ
read_u8 bytes = get_or bytes 0 0

unfoldable pub read_u16 : Bytes → ℕ
read_u16 bytes = bit_or (get_or bytes 0 0 * 2 ^ 8 % 2 ^ 16) (get_or bytes 1 0) % 2 ^ 16

-- static_cast<uint32_t>(x) << k
abbrev pub shl32 : ℕ → ℕ → ℕ
shl32 x k = x * 2 ^ k % 2 ^ 32

unfoldable pub read_u32 : Bytes → ℕ
read_u32 bytes =
    bit_or
      (bit_or (bit_or (shl32 (get_or bytes 0 0) 24) (shl32 (get_or bytes 1 0) 16))
        (shl32 (get_or bytes 2 0) 8))
      (get_or bytes 3 0)

-- `rounds` more bytes, the next one at the index 8 - rounds, which is the head of what is left
read_u64_loop : ℕ → ℕ → Bytes → ℕ
read_u64_loop zero value bytes = value
read_u64_loop (suc rounds) value [] = read_u64_loop rounds (bit_or (value * 2 ^ 8 % u64_mod) 0) []
read_u64_loop (suc rounds) value (x ∷ bytes) =
    read_u64_loop rounds (bit_or (value * 2 ^ 8 % u64_mod) x) bytes

unfoldable pub read_u64 : Bytes → ℕ
unfolding read_u64_loop
read_u64 bytes = read_u64_loop 8 0 bytes
