-- ===== src/Api/Cache/Config.antt =====
-- src/config.rs and src/api/cache.rs: the settings of the cache, and how long a response is kept.
use haruki_event_tracker.Prelude.{ℕ, nat_beq, Bool, if◌then◌else◌}
use haruki_event_tracker.Prelude.Text.{Text}

pub record ApiCacheConfig : Type 0 where
  pub enabled : Bool
  pub redis_url : Text
  pub pool_size : ℕ
  pub command_timeout_ms : ℕ
  pub local_control_ttl_ms : ℕ
  pub local_value_ttl_ms : ℕ
  pub local_max_entries : ℕ
  pub precompress_gzip_enabled : Bool
  pub precompress_min_bytes : ℕ
  pub gzip_level : ℕ
  pub default_ttl_secs : ℕ
  pub latest_rank_ttl_secs : ℕ
  pub trace_rank_ttl_secs : ℕ
  pub batch_trace_rank_ttl_secs : ℕ
  pub user_data_ttl_secs : ℕ
  pub replay_overview_ttl_secs : ℕ
  pub negative_ttl_secs : ℕ
  pub max_value_bytes : ℕ
  pub batch_max_value_bytes : ℕ

pub data CacheTtl : Type 0 where
  latest_rank : CacheTtl
  trace_rank : CacheTtl
  batch_trace_rank : CacheTtl
  user_data : CacheTtl
  replay_overview : CacheTtl

abbrev pub endpoint_ttl : ApiCacheConfig → CacheTtl → ℕ
endpoint_ttl cfg CacheTtl.latest_rank = cfg.latest_rank_ttl_secs
endpoint_ttl cfg CacheTtl.trace_rank = cfg.trace_rank_ttl_secs
endpoint_ttl cfg CacheTtl.batch_trace_rank = cfg.batch_trace_rank_ttl_secs
endpoint_ttl cfg CacheTtl.user_data = cfg.user_data_ttl_secs
endpoint_ttl cfg CacheTtl.replay_overview = cfg.replay_overview_ttl_secs

unfoldable pub ttl : ApiCacheConfig → CacheTtl → ℕ
ttl cfg t =
    let endpoint = endpoint_ttl cfg t in
    if nat_beq endpoint 0 then cfg.default_ttl_secs else endpoint
