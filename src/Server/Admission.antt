-- ===== src/Server/Admission.antt =====
-- The limits that a configuration gives to the parser and to the cache fit together.
use local_cache_service.Base.{
  ℕ, ◌+◌, ◌<◌, ◌%◌, ◌^◌, ◌≡◌, ap, ◌∙◌, ◌∷◌, none, some, arith, length, u64_mod,
}
use local_cache_service.Protocol.{Request}
use local_cache_service.Serializer.Requests.{IsRequest}
use local_cache_service.Config.Server.{ServerConfig, validate, cache_limits, IsConfig, validate_iff}
use local_cache_service.Cache.Defs
use local_cache_service.Cache.Defs.{Cache, CacheLimits, stored}
use local_cache_service.Cache.Invariant.{IsValid}
use local_cache_service.Cache.Methods.{IsNext}
use local_cache_service.Cache.Put.{put_stored}
use local_cache_service.Cache.Recency.{cost, without}
use local_cache_service.Cache.Refinement.{view}
use local_cache_service.Cache.Room.{kept}
use local_cache_service.Cache.Calls.{put_status}
use local_cache_service.Connection.Defs.{ConnectionLimits}

-- The limits of a new connection, in `handle_listen_ready`.
unfoldable pub connection_limits : ServerConfig → ConnectionLimits
connection_limits config = record {
  protocol_limits = record {
    max_key_bytes = config.max_key_bytes % 2 ^ 32;
    max_value_bytes = config.max_value_bytes % 2 ^ 32;
  };
  max_output_bytes = config.max_conn_output_bytes;
  max_inflight = config.max_inflight_per_conn;
}

admitted :
    (n : ℕ) (config : ServerConfig) (r : Request)
    → IsConfig n config
    → IsRequest (connection_limits config).protocol_limits r
    → put_status (cache_limits config) r.key r.value ≡ stored
unfolding connection_limits cache_limits put_status
admitted n config r v q = ground (arith, v.entries, v.fits, v.value, v.key, q.key, q.value)

-- Under a configuration that validate accepts, on a valid cache with the limits of this
-- configuration, whose limit on bytes is thus below 2 ^ 63, put of the key and the value of any
-- request within the limits of a connection stores them: they stand in front, followed by the
-- longest front part of the recency list without the key beside which they fit.
pub put_admitted :
    (n : ℕ) (config : ServerConfig) (r : Request) (c : Cache)
    → validate n config ≡ none
    → IsRequest (connection_limits config).protocol_limits r
    → IsValid c
    → c.limits ≡ cache_limits config
    → (c' : Cache) × (Defs.put c r.key r.value ≡ some (c', stored))
      × IsNext c c'
          ((r.key, r.value) ∷ kept c.limits (cost (r.key, r.value)) (without r.key (view c)))
unfolding connection_limits
put_admitted n config r c e q v same =
    let g = (validate_iff n config).0 e in
    let sized : length r.key + length r.value + 128 < u64_mod = omega (arith, q.key, q.value) in
    let (c', run, d, counted) =
      put_stored c r.key r.value sized v
        (ap (λ (l : CacheLimits). put_status l r.key r.value) same ∙ admitted n config r g q) in
    (c', run, d)
