-- ===== src/Config/Args/Inline.antt =====
-- The two ways to give an option its value.
use Prim.Native.String.{String}
use local_cache_service.Base.{
  ℕ, ◌≡◌, refl, ap, List, [], ◌∷◌, ◌++◌, Bytes, true, false, ◌==◌, none, some, arith, Bool-cases,
  inl, inr,
}
use local_cache_service.Base.Text.{codes, same_text}
use local_cache_service.Config.Server.{ServerConfig}
use local_cache_service.Config.Args.{split_eq, separate, inline, arg_kind, parse_args}

split_eq-append :
    (arg value : Bytes) → split_eq arg ≡ none → split_eq (arg ++ (b'=' ∷ value)) ≡ some (arg, value)
unfolding split_eq
split_eq-append [] value h = refl
split_eq-append (c ∷ arg) value h = elim (Bool-cases (c == b'=')) [
  | inl e ↦ absurd (ground (arith, e, h))
  | inr e ↦ ground (arith, e, h, split_eq-append arg value)
]

same_text→eq :
    (text : Bytes) (literal : String) → same_text text literal ≡ true → text ≡ codes literal
unfolding same_text
same_text→eq text literal h = ground arith

-- A text with a '=' is none of the words without one.
not_word :
    (text : Bytes) (literal : String) {p : Bytes × Bytes}
    → split_eq text ≡ some p
    → split_eq (codes literal) ≡ none
    → same_text text literal ≡ false
not_word text literal h k = elim (Bool-cases (same_text text literal)) [
  | inl e ↦ absurd (cc (h, k, ap split_eq (same_text→eq text literal e)))
  | inr e ↦ e
]

separate_no_eq : (arg : Bytes) → arg_kind arg ≡ separate → split_eq arg ≡ none
unfolding arg_kind
separate_no_eq arg h = ground arith

inline_kind :
    (arg value : Bytes)
    → arg_kind arg ≡ separate
    → arg_kind (arg ++ (b'=' ∷ value)) ≡ inline arg value
unfolding arg_kind split_eq
inline_kind arg value h =
    let text = arg ++ (b'=' ∷ value) in
    let s = split_eq-append arg value (separate_no_eq arg h) in
    ground (
      arith,
      s,
      not_word text "--help" s refl,
      not_word text "-h" s refl,
      not_word text "--verbose" s refl,
    )

-- For an argument that is no flag and has no equals sign, giving its value as the next argument or
-- behind an equals sign has the same result.
pub parse_args_inline :
    (sun_path_size : ℕ) (c : ServerConfig) (arg value : Bytes) (args : List Bytes)
    → arg_kind arg ≡ separate
    → parse_args sun_path_size c ((arg ++ (b'=' ∷ value)) ∷ args)
      ≡ parse_args sun_path_size c (arg ∷ value ∷ args)
unfolding parse_args
parse_args_inline n c arg value [] h = ground (arith, h, inline_kind arg value h)
parse_args_inline n c arg value (next ∷ args) h = ground (arith, h, inline_kind arg value h)
