-- ===== src/Serializer/Decoding.antt =====
-- What a decoded header says of the bytes: they are the ones that `encode_header` writes for it.
use local_cache_service.Base.{
  ◌≤◌, ◌≡◌, sym, ap, ◌∙◌, [], ◌∷◌, ◌++◌, Bytes, arith, length, drop, All, true,
}
use local_cache_service.Protocol
use local_cache_service.Protocol.{Header, is_valid_opcode}
use local_cache_service.Serializer.Integers.{read_u8, read_u32, read_u64}
use local_cache_service.Serializer.Integers.Laws.{IsByte, be32, be32-read_u32, be64-read_u64}
use local_cache_service.Serializer.Frames.{decode_common_header, none_wrong}
use local_cache_service.Serializer.Header.{IsHeader, header_bytes}

decoded_fields :
    (bytes : Bytes) (h : Header)
    → decode_common_header bytes ≡ none_wrong h
    → (read_u32 bytes ≡ Protocol.magic)
      × (h.version ≡ Protocol.version)
      × (is_valid_opcode h.opcode ≡ true)
      × (h.flags ≡ 0)
      × (h ≡ record {
        version = read_u8 (drop 4 bytes);
        opcode = read_u8 (drop 5 bytes);
        flags = read_u8 (drop 6 bytes);
        status = read_u8 (drop 7 bytes);
        request_id = read_u64 (drop 8 bytes);
        key_len = read_u32 (drop 16 bytes);
        value_len = read_u32 (drop 20 bytes);
      })
unfolding decode_common_header
decoded_fields bytes h e = ground arith

pub decode_common_header-IsHeader :
    (bytes : Bytes) (h : Header)
    → 24 ≤ length bytes
    → All IsByte bytes
    → decode_common_header bytes ≡ none_wrong h
    → IsHeader h × (header_bytes h ++ drop 24 bytes ≡ bytes)
unfolding read_u8
decode_common_header-IsHeader
      (a₀ ∷ a₁ ∷ a₂ ∷ a₃ ∷ b₀ ∷ b₁ ∷ b₂ ∷ b₃ ∷ c₀ ∷ c₁ ∷ c₂ ∷ c₃ ∷ c₄ ∷ c₅ ∷ c₆ ∷ c₇ ∷ d₀ ∷ d₁ ∷ d₂
        ∷ d₃ ∷ e₀ ∷ e₁ ∷ e₂ ∷ e₃ ∷ rest)
      h long all e =
    let bytes =
      a₀ ∷ a₁ ∷ a₂ ∷ a₃ ∷ b₀ ∷ b₁ ∷ b₂ ∷ b₃ ∷ c₀ ∷ c₁ ∷ c₂ ∷ c₃ ∷ c₄ ∷ c₅ ∷ c₆ ∷ c₇ ∷ d₀ ∷ d₁ ∷ d₂
      ∷ d₃ ∷ e₀ ∷ e₁ ∷ e₂ ∷ e₃ ∷ rest in
    let (magic, version, opcode, flags, fields) = decoded_fields bytes h e in
    let a = be32-read_u32 a₀ a₁ a₂ a₃ (drop 4 bytes) (omega arith) in
    let c = be64-read_u64 c₀ c₁ c₂ c₃ c₄ c₅ c₆ c₇ (drop 16 bytes) (omega arith) in
    let d = be32-read_u32 d₀ d₁ d₂ d₃ (drop 20 bytes) (omega arith) in
    let f = be32-read_u32 e₀ e₁ e₂ e₃ rest (omega arith) in
    let first : be32 Protocol.magic ≡ a₀ ∷ a₁ ∷ a₂ ∷ a₃ ∷ [] = ap be32 (sym magic) ∙ a.0 in
    (
      record {
        version = version;
        opcode = opcode;
        flags = flags;
        status = omega (arith, ap (λ (x : Header). x.status) fields);
        request_id = omega (arith, ap (λ (x : Header). x.request_id) fields, c);
        key_len = omega (arith, ap (λ (x : Header). x.key_len) fields, d);
        value_len = omega (arith, ap (λ (x : Header). x.value_len) fields, f);
      },
      ap (λ (x : Header). header_bytes x ++ rest) fields ∙ λ i.
          (first i ++ (b₀ ∷ b₁ ∷ b₂ ∷ b₃ ∷ (c.0 i ++ (d.0 i ++ f.0 i)))) ++ rest,
    )
decode_common_header-IsHeader _ h long all e = absurd (omega arith)
