-- ===== src/Serializer/Reading.antt =====
-- What a request that was read says of the bytes it was read from.
use local_cache_service.Base.{
  ℕ, ◌+◌, ◌≤◌, ◌≡◌, ◌⊎◌, refl, sym, ap, ap₂, ◌∙◌, ◌++◌, Bytes, min, arith, length, take, drop, All,
  true, not, ◌==◌, some, none, Option, add64, append_assoc, length-append, take-length,
  take-append-drop, length-take, length-drop,
}
use local_cache_service.Protocol
use local_cache_service.Protocol.{
  Header, Request, Limits, Opcode, ParseError, ParseResult, complete, need_more, malformed,
  raw_opcode, as_opcode, opcode_requires_key, opcode_allows_value,
}
use local_cache_service.Protocol.Facts.{raw_opcode-as_opcode}
use local_cache_service.Serializer.Integers.Laws.{IsByte}
use local_cache_service.Serializer.Frames.{
  decode_common_header, Decoded, wrong, none_wrong, serialize_request, request_payload,
  request_checks, with_opcode, request_behind, deserialize_request, effective_limit,
}
use local_cache_service.Serializer.Header.{header_bytes}
use local_cache_service.Serializer.Decoding.{decode_common_header-IsHeader}
use local_cache_service.Serializer.Requests.{
  IsRequest, request_header, serialize_request-header_bytes,
}

-- What is known of a complete request: the header it came with, and the checks that it passed.
pub record IsRead (limits : Limits) (input : Bytes) (r : Request) (n : ℕ) (h : Header)
    : Type 0 where
  pub long : 24 ≤ length input
  pub decoded : decode_common_header input ≡ none_wrong h
  pub opcode : as_opcode h.opcode ≡ some r.opcode
  pub request_id : h.request_id ≡ r.request_id
  pub status : h.status ≡ 0
  pub key : h.key_len ≤ min limits.max_key_bytes Protocol.max_key_bytes
  pub value : h.value_len ≤ min limits.max_value_bytes Protocol.max_value_bytes
  pub keyed : opcode_requires_key r.opcode ≡ not (h.key_len == 0)
  pub valued : (opcode_allows_value r.opcode ≡ true) ⊎ (h.value_len ≡ 0)
  pub consumed : n ≡ 24 + h.key_len + h.value_len
  pub enough : n ≤ length input
  pub key_is : r.key ≡ take h.key_len (drop 24 input)
  pub value_is : r.value ≡ take h.value_len (drop h.key_len (drop 24 input))

module _ (limits : Limits) (input : Bytes) (r : Request) (n : ℕ) where
  payload_complete :
      (h : Header) (o : Opcode)
      → h.key_len ≤ Protocol.max_key_bytes
      → h.value_len ≤ Protocol.max_value_bytes
      → request_payload input h o ≡ complete r n
      → (n ≡ 24 + h.key_len + h.value_len)
        × (n ≤ length input)
        × (r.opcode ≡ o)
        × (r.request_id ≡ h.request_id)
        × (r.key ≡ take h.key_len (drop 24 input))
        × (r.value ≡ take h.value_len (drop h.key_len (drop 24 input)))
  unfolding request_payload add64
  payload_complete h o k x e = ground arith

  checks_complete :
      (h : Header) (o : Opcode)
      → request_checks input limits h o ≡ complete r n
      → (h.status ≡ 0)
        × (h.key_len ≤ min limits.max_key_bytes Protocol.max_key_bytes)
        × (h.value_len ≤ min limits.max_value_bytes Protocol.max_value_bytes)
        × (opcode_requires_key o ≡ not (h.key_len == 0))
        × ((opcode_allows_value o ≡ true) ⊎ (h.value_len ≡ 0))
        × (request_payload input h o ≡ complete r n)
  unfolding request_checks effective_limit
  checks_complete h o e = ground arith

  checks-IsRead :
      (h : Header) (o : Opcode)
      → 24 ≤ length input
      → decode_common_header input ≡ none_wrong h
      → as_opcode h.opcode ≡ some o
      → request_checks input limits h o ≡ complete r n
      → IsRead limits input r n h
  checks-IsRead h o long d a e =
      let (status, k, x, keyed, valued, p) = checks_complete h o e in
      let (consumed, enough, opcode, id, key, value) =
        payload_complete h o (omega (arith, k)) (omega (arith, x)) p in
      record {
        long = long;
        decoded = d;
        opcode = cc;
        request_id = cc;
        status = status;
        key = k;
        value = x;
        keyed = cc;
        valued = rw opcode valued;
        consumed = consumed;
        enough = enough;
        key_is = key;
        value_is = value;
      }

  opcode-IsRead :
      (h : Header) (m : Option Opcode)
      → 24 ≤ length input
      → decode_common_header input ≡ none_wrong h
      → as_opcode h.opcode ≡ m
      → with_opcode m (request_checks input limits h) ≡ complete r n
      → IsRead limits input r n h
  opcode-IsRead h none long d a e = cc
  opcode-IsRead h (some o) long d a e = checks-IsRead h o long d a e

  behind-IsRead :
      (d : Decoded)
      → 24 ≤ length input
      → decode_common_header input ≡ d
      → request_behind input limits d ≡ complete r n
      → (h : Header) × IsRead limits input r n h
  unfolding request_behind
  behind-IsRead (wrong x) long e f = cc
  behind-IsRead (none_wrong h) long e f = (h, opcode-IsRead h (as_opcode h.opcode) long e refl f)

  pub complete-IsRead :
      deserialize_request input limits ≡ complete r n → (h : Header) × IsRead limits input r n h
  unfolding deserialize_request
  complete-IsRead e = behind-IsRead (decode_common_header input) (ground arith) refl (ground arith)

  -- When deserialize_request completes on a buffer of numbers below 256, the request is within the
  -- limits and the bytes that it consumed are exactly its serialization.
  pub serialize-deserialize :
      All IsByte input
      → deserialize_request input limits ≡ complete r n
      → IsRequest limits r × (n ≤ length input) × (take n input ≡ serialize_request r)
  serialize-deserialize bytes e =
      let (h, d) = complete-IsRead e in
      let (header, split) = decode_common_header-IsHeader input h d.long bytes d.decoded in
      let payload = drop 24 input in
      let key_len : length r.key ≡ h.key_len =
        ap length d.key_is
        ∙ length-take h.key_len payload
            (omega (arith, length-drop 24 input, d.consumed, d.enough)) in
      let value_len : length r.value ≡ h.value_len =
        ap length d.value_is
        ∙ length-take h.value_len (drop h.key_len payload) (
            omega
              (arith, length-drop 24 input, length-drop h.key_len payload, d.consumed, d.enough)) in
      let same : h ≡ request_header r = ground (
        arith,
        header.version,
        header.flags,
        header.key_len,
        header.value_len,
        d.status,
        d.request_id,
        raw_opcode-as_opcode h.opcode {o = r.opcode} d.opcode,
        key_len,
        value_len,
      ) in
      let rest = drop h.value_len (drop h.key_len payload) in
      let cut : payload ≡ (r.key ++ r.value) ++ rest =
        sym (take-append-drop h.key_len payload)
        ∙ ap₂ ◌++◌ (sym d.key_is) (
            sym (take-append-drop h.value_len (drop h.key_len payload))
            ∙ ap (λ v. v ++ rest) (sym d.value_is))
        ∙ sym (append_assoc r.key r.value rest) in
      let whole : input ≡ serialize_request r ++ rest =
        sym split
        ∙ ap₂ (λ x y. header_bytes x ++ y) same cut
        ∙ sym (append_assoc (header_bytes (request_header r)) (r.key ++ r.value) rest)
        ∙ ap (λ f. f ++ rest) (sym (serialize_request-header_bytes r)) in
      let size : n ≡ length (serialize_request r) = omega (
        arith,
        ap length (serialize_request-header_bytes r),
        length-append r.key r.value,
        key_len,
        value_len,
        d.consumed,
      ) in
      (
        record {
          request_id = omega (arith, header.request_id, d.request_id);
          key = omega (arith, key_len, d.key);
          value = omega (arith, value_len, d.value);
          keyed = rw key_len d.keyed;
          valued = rw value_len d.valued;
        },
        d.enough,
        rw (size, whole) (take-length (serialize_request r) rest),
      )
