-- ===== src/Config/Tests.antt =====
-- Runs of the option parsing on the inputs of tests/config_test.cpp, and the theorems at them.
use local_cache_service.Base.{
  ◌*◌, ◌^◌, ℕ, suc, ◌*◌, ◌≡◌, ◌↔◌, refl, List, [], ◌∷◌, ◌++◌, Bytes, Option, none, some, arith,
}
use local_cache_service.Base
use local_cache_service.Base.Text.{codes, same_text}
use local_cache_service.Config.Size
use local_cache_service.Config.Size.{parse_size, multiplier, without_suffix, IsSize, parse_size_iff}
use local_cache_service.Config.Server.{
  validate, validate_connections, IsConfig, default_config, validate_iff,
}
use local_cache_service.Config.Args.{
  config, apply_option, split_eq, separate, arg_kind, parse_args, parse_server_args,
  parse_server_args-IsConfig,
}
use local_cache_service.Config.Args.Inline.{parse_args_inline}

options : Unit {0}
unfolding Base.add64 Base.sub64 Base.bytes_discrete Base.ℕ_discrete same_text parse_size multiplier
    without_suffix Size.parse_digits Size.scaled Size.parse_number validate validate_connections
    apply_option split_eq arg_kind parse_args parse_server_args
options = tt

kilobytes : parse_size (codes "64k") ≡ some (64 * 1024)
unfolding options
kilobytes = refl

no_digits : parse_size (codes "k") ≡ none
unfolding options
no_digits = refl

too_many_gigabytes : parse_size (codes "99999999999g") ≡ none
unfolding options
too_many_gigabytes = refl

parse_size_iff_example :
    (parse_size (codes "16M") ≡ some (16 * 2 ^ 20)) ↔ IsSize (codes "16M") (16 * 2 ^ 20)
parse_size_iff_example = parse_size_iff (codes "16M") (16 * 2 ^ 20)

validate_iff_example : (validate 108 default_config ≡ none) ↔ IsConfig 108 default_config
validate_iff_example = validate_iff 108 default_config

abbrev arguments : List Bytes
arguments = codes "--socket" ∷ codes "/s" ∷ codes "--workers=8" ∷ []

arguments_read :
    parse_server_args 108 arguments
    ≡ config (record default_config { socket_path = codes "/s"; worker_threads = 8 })
unfolding options
arguments_read = refl

parse_server_args-IsConfig_example :
    IsConfig 108 (record default_config { socket_path = codes "/s"; worker_threads = 8 })
parse_server_args-IsConfig_example =
    parse_server_args-IsConfig 108 arguments
      (record default_config { socket_path = codes "/s"; worker_threads = 8 }) arguments_read

workers_is_separate : arg_kind (codes "--workers") ≡ separate
unfolding options
workers_is_separate = refl

parse_args_inline_example :
    parse_args 108 default_config (codes "--workers=8" ∷ [])
    ≡ parse_args 108 default_config (codes "--workers" ∷ codes "8" ∷ [])
parse_args_inline_example =
    parse_args_inline 108 default_config (codes "--workers") (codes "8") [] workers_is_separate
