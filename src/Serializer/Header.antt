-- ===== src/Serializer/Header.antt =====
-- The 24 bytes of a header, and that `encode_header` and `decode_common_header` are inverse.

use local_cache_service.Base.{
  ℕ, ◌^◌, ◌≤◌, ◌<◌, ◌≡◌, refl, [], ◌∷◌, ◌++◌, Bytes, u64_mod, arith, length, drop, append_assoc,
  drop-append, length-drop, true,
}
use local_cache_service.Protocol
use local_cache_service.Protocol.{Header, is_valid_opcode, Opcode, as_opcode}
use local_cache_service.Serializer.Integers.{append_u8, read_u8, read_u32, read_u64}
use local_cache_service.Serializer.Integers.Laws.{
  IsByte, be32, be64, append_u32-be32, append_u64-be64, read_u32-be32, read_u64-be64,
}
use local_cache_service.Serializer.Frames.{encode_header, decode_common_header, none_wrong}

abbrev header_rest : Header → Bytes
header_rest h =
    h.version
    ∷ h.opcode
    ∷ h.flags
    ∷ h.status
    ∷ (be64 h.request_id ++ (be32 h.key_len ++ be32 h.value_len))

abbrev pub header_bytes : Header → Bytes
header_bytes h = be32 Protocol.magic ++ header_rest h

pub length-header_bytes : (h : Header) → length (header_bytes h) ≡ 24
length-header_bytes h = refl

pub encode_header-header_bytes :
    (out : Bytes) (h : Header) → encode_header out h ≡ out ++ header_bytes h
unfolding encode_header append_u8
encode_header-header_bytes out h = simp (append_u32-be32, append_u64-be64, append_assoc)

-- The headers that decode: right version, known opcode, no flags, and fields of their widths.
pub record IsHeader (h : Header) : Type 0 where
  pub version : h.version ≡ Protocol.version
  pub opcode : is_valid_opcode h.opcode ≡ true
  pub flags : h.flags ≡ 0
  pub status : IsByte h.status
  pub request_id : h.request_id < u64_mod
  pub key_len : h.key_len < 2 ^ 32
  pub value_len : h.value_len < 2 ^ 32

pub decode_common_header-header_bytes :
    (h : Header) (rest : Bytes)
    → IsHeader h
    → decode_common_header (header_bytes h ++ rest) ≡ none_wrong h
unfolding decode_common_header read_u8
decode_common_header-header_bytes h rest v = ground (
  arith,
  v.version,
  v.opcode,
  v.flags,
  read_u32-be32 Protocol.magic (header_rest h ++ rest) (omega arith),
  read_u64-be64 h.request_id (be32 h.key_len ++ be32 h.value_len ++ rest) v.request_id,
  read_u32-be32 h.key_len (be32 h.value_len ++ rest) v.key_len,
  read_u32-be32 h.value_len rest v.value_len,
)

-- Readers look at their own bytes only.
read_u32-append : (xs ys : Bytes) → 4 ≤ length xs → read_u32 (xs ++ ys) ≡ read_u32 xs
unfolding read_u32
read_u32-append [] ys h = absurd (omega arith)
read_u32-append (a ∷ []) ys h = absurd (omega arith)
read_u32-append (a ∷ b ∷ []) ys h = absurd (omega arith)
read_u32-append (a ∷ b ∷ c ∷ []) ys h = absurd (omega arith)
read_u32-append (a ∷ b ∷ c ∷ d ∷ xs) ys h = refl

read_u64-append : (xs ys : Bytes) → 8 ≤ length xs → read_u64 (xs ++ ys) ≡ read_u64 xs
unfolding read_u64
read_u64-append (a ∷ b ∷ c ∷ d ∷ e ∷ f ∷ g ∷ i ∷ xs) ys h = refl
read_u64-append _ ys h = absurd (omega arith)

read_u8-append : (xs ys : Bytes) → 1 ≤ length xs → read_u8 (xs ++ ys) ≡ read_u8 xs
unfolding read_u8
read_u8-append [] ys h = absurd (omega arith)
read_u8-append (a ∷ xs) ys h = refl

module _ (xs ys : Bytes) (long : 24 ≤ length xs) where
  at8 : (n : ℕ) → n < 24 → read_u8 (drop n (xs ++ ys)) ≡ read_u8 (drop n xs)
  at8 n h =
      rw (drop-append n xs ys (omega arith))
        (read_u8-append (drop n xs) ys (omega (arith, length-drop n xs)))

  at32 : (n : ℕ) → n ≤ 20 → read_u32 (drop n (xs ++ ys)) ≡ read_u32 (drop n xs)
  at32 n h =
      rw (drop-append n xs ys (omega arith))
        (read_u32-append (drop n xs) ys (omega (arith, length-drop n xs)))

  at64 : read_u64 (drop 8 (xs ++ ys)) ≡ read_u64 (drop 8 xs)
  at64 =
      rw (drop-append 8 xs ys (omega arith))
        (read_u64-append (drop 8 xs) ys (omega (arith, length-drop 8 xs)))

  -- A header that is there is decoded in the same way whatever follows.
  pub decode_common_header-append : decode_common_header (xs ++ ys) ≡ decode_common_header xs
  unfolding decode_common_header
  decode_common_header-append = rw (
    read_u32-append xs ys (omega arith),
    at8 4 (omega arith),
    at8 5 (omega arith),
    at8 6 (omega arith),
    at8 7 (omega arith),
    at64,
    at32 16 (omega arith),
    at32 20 (omega arith),
  )
