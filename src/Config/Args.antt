-- ===== src/Config/Args.antt =====
-- `parse_server_args` of src/config.cpp, on the arguments behind the program's name.
pub mod Inline
use local_cache_service.Base.{
  ℕ, ◌≤◌, ◌<◌, ◌≡◌, ◌≢◌, refl, ap, sym, ◌∙◌, List, [], ◌∷◌, ◌++◌, Bytes, Bool, true, false, ◌||◌,
  Option, none, some, if◌then◌else◌, leb, ◌==◌, arith, Option-cases, ◌⊎◌, inl, inr, bytes_discrete,
}
use Prim.Native.String.{String}
use local_cache_service.Base.Int.{pos}
use local_cache_service.Base.Text.{codes, same_text}
use local_cache_service.Config.Size.{parse_size}
use local_cache_service.Config.Server.{
  ServerConfig, ConfigError, validate, IsConfig, validate_iff, default_config,
}

-- The messages of `fail`, with the texts that they quote.
pub data ArgsError : Type 0 where
  missing_value unknown_option : Bytes → ArgsError
  invalid_value : Bytes → Bytes → ArgsError
  invalid_config : ConfigError → ArgsError

-- `ConfigParseResult`: --help was asked for, an error, or a configuration.
pub data ConfigParseResult : Type 0 where
  help_requested : ConfigParseResult
  error : ArgsError → ConfigParseResult
  config : ServerConfig → ConfigParseResult

-- What the chain of option names does with one option: a value that does not parse, a name that is
-- not known, or the configuration with the field set.
pub data Applied : Type 0 where
  not_ok unknown : Applied
  set_to : ServerConfig → Applied

abbrev size_option : Bytes → (ℕ → ServerConfig) → Applied
size_option value set = elim (parse_size value) [ none ↦ not_ok | some n ↦ set_to (set n) ]

-- the options with a bound of their own
abbrev bounded_option : Bytes → ℕ → (ℕ → ServerConfig) → Applied
bounded_option value bound set = elim (parse_size value) [
  | none ↦ not_ok
  | some n ↦ if leb n bound then set_to (set n) else not_ok
]

unfoldable pub apply_option : Bytes → Bytes → ServerConfig → Applied
apply_option name value c =
    if same_text name "--socket"
    then set_to (record c { socket_path = value })
    else if same_text name "--max-entries"
    then size_option value (λ n. record c { max_entries = n })
    else if same_text name "--max-cache-bytes"
    then size_option value (λ n. record c { max_cache_bytes = n })
    else if same_text name "--max-value-bytes"
    then size_option value (λ n. record c { max_value_bytes = n })
    else if same_text name "--max-key-bytes"
    then size_option value (λ n. record c { max_key_bytes = n })
    else if same_text name "--workers"
    then size_option value (λ n. record c { worker_threads = n })
    else if same_text name "--max-pending"
    then size_option value (λ n. record c { max_pending_requests = n })
    else if same_text name "--max-connections"
    then size_option value (λ n. record c { max_connections = n })
    else if same_text name "--max-conn-output-bytes"
    then size_option value (λ n. record c { max_conn_output_bytes = n })
    else if same_text name "--max-inflight-per-conn"
    then size_option value (λ n. record c { max_inflight_per_conn = n })
    else if same_text name "--backlog"
    then bounded_option value 65535 (λ n. record c { accept_backlog = pos n })
    else if same_text name "--shutdown-drain-ms"
    then bounded_option value 600000 (λ n. record c { shutdown_drain_ms = pos n })
    else unknown

-- arg.find('=') with the two substr
unfoldable pub split_eq : Bytes → Option (Bytes × Bytes)
split_eq [] = none
split_eq (c ∷ text) =
    let rest = split_eq text in
    if c == b'='
    then some ([], text)
    else elim rest [ none ↦ none | some (name, value) ↦ some (c ∷ name, value) ]

-- What one argument is.
pub data ArgKind : Type 0 where
  help verbose separate : ArgKind
  inline : Bytes → Bytes → ArgKind

abbrev has_value : Option (Bytes × Bytes) → ArgKind
has_value none = separate
has_value (some (name, value)) = inline name value

unfoldable pub arg_kind : Bytes → ArgKind
arg_kind arg =
    if same_text arg "--help" || same_text arg "-h"
    then help
    else if same_text arg "--verbose"
    then verbose
    else has_value (split_eq arg)

-- The end of a round of the loop.
abbrev pub next_round :
    Applied → Bytes → Bytes → (ServerConfig → ConfigParseResult) → ConfigParseResult
next_round not_ok name value continue = error (invalid_value name value)
next_round unknown name value continue = error (unknown_option name)
next_round (set_to c) name value continue = continue c

-- behind the loop
abbrev pub checked : Option ConfigError → ServerConfig → ConfigParseResult
checked (some e) c = error (invalid_config e)
checked none c = config c

ArgKind-cases :
    (k : ArgKind)
    → (k ≡ help)
      ⊎ ((k ≡ verbose)
          ⊎ ((k ≡ separate) ⊎ ((name : Bytes) × (value : Bytes) × (k ≡ inline name value))))
ArgKind-cases help = inl refl
ArgKind-cases verbose = inr (inl refl)
ArgKind-cases separate = inr (inr (inl refl))
ArgKind-cases (inline name value) = inr (inr (inr (name, value, refl)))

module _ (sun_path_size : ℕ) where
  unfoldable pub parse_args : ServerConfig → List Bytes → ConfigParseResult
  parse_args c [] = checked (validate sun_path_size c) c
  parse_args c (arg ∷ []) = elim (arg_kind arg) [
    | help ↦ help_requested
    | verbose ↦ parse_args (record c { verbose = true }) []
    | inline name value ↦ next_round (apply_option name value c) name value (λ c'. parse_args c' [])
    | separate ↦ error (missing_value arg)
  ]
  parse_args c (arg ∷ value ∷ args) = elim (arg_kind arg) [
    | help ↦ help_requested
    | verbose ↦ parse_args (record c { verbose = true }) (value ∷ args)
    | inline name v ↦ next_round (apply_option name v c) name v (λ c'. parse_args c' (value ∷ args))
    | separate ↦ next_round (apply_option arg value c) arg value (λ c'. parse_args c' args)
  ]

  unfoldable pub parse_server_args : List Bytes → ConfigParseResult
  unfolding parse_args
  parse_server_args args = parse_args default_config args

  checked_lem :
      (e : Option ConfigError) (c d : ServerConfig)
      → validate sun_path_size c ≡ e
      → checked e c ≡ config d
      → IsConfig sun_path_size d
  checked_lem none c d e h = (validate_iff sun_path_size d).0 (ground arith)
  checked_lem (some x) c d e h = cc

  next_round_lem :
      (a : Applied) (name value : Bytes) (continue : ServerConfig → ConfigParseResult)
      (d : ServerConfig)
      → ((c : ServerConfig) → continue c ≡ config d → IsConfig sun_path_size d)
      → next_round a name value continue ≡ config d
      → IsConfig sun_path_size d
  next_round_lem not_ok name value continue d k h = cc
  next_round_lem unknown name value continue d k h = cc
  next_round_lem (set_to c) name value continue d k h = k c h

  parse_args-IsConfig :
      (args : List Bytes) (c d : ServerConfig)
      → parse_args c args ≡ config d
      → IsConfig sun_path_size d
  unfolding parse_args
  parse_args-IsConfig [] c d h = checked_lem (validate sun_path_size c) c d refl h
  parse_args-IsConfig (arg ∷ []) c d h = elim (ArgKind-cases (arg_kind arg)) [
    | inl e ↦ absurd (ground (arith, e, h))
    | inr (inl e) ↦ parse_args-IsConfig [] (record c { verbose = true }) d (ground (arith, e, h))
    | inr (inr (inl e)) ↦ absurd (ground (arith, e, h))
    | inr (inr (inr (name, v, e))) ↦
        next_round_lem (apply_option name v c) name v (λ c'. parse_args c' []) d
          (λ c' k. parse_args-IsConfig [] c' d k) (ground (arith, e, h))
  ]
  parse_args-IsConfig (arg ∷ value ∷ args) c d h = elim (ArgKind-cases (arg_kind arg)) [
    | inl e ↦ absurd (ground (arith, e, h))
    | inr (inl e) ↦
        parse_args-IsConfig (value ∷ args) (record c { verbose = true }) d (ground (arith, e, h))
    | inr (inr (inl e)) ↦
        next_round_lem (apply_option arg value c) arg value (λ c'. parse_args c' args) d
          (λ c' k. parse_args-IsConfig args c' d k) (ground (arith, e, h))
    | inr (inr (inr (name, v, e))) ↦
        next_round_lem (apply_option name v c) name v (λ c'. parse_args c' (value ∷ args)) d
          (λ c' k. parse_args-IsConfig (value ∷ args) c' d k) (ground (arith, e, h))
  ]

  -- Every configuration that parse_server_args returns has all its fields in range.
  pub parse_server_args-IsConfig :
      (args : List Bytes) (d : ServerConfig)
      → parse_server_args args ≡ config d
      → IsConfig sun_path_size d
  unfolding parse_server_args
  parse_server_args-IsConfig args d h = parse_args-IsConfig args default_config d h
