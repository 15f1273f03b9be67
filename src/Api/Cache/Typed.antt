-- ===== src/Api/Cache/Typed.antt =====
-- src/api/cache.rs: the lookups that callers use, which write values of a type as JSON and read them
-- back. The writer and the reader are parameters; the fetch of the environment gives the value.
pub mod Roundtrip
use haruki_event_tracker.Prelude.{
  ℕ, ℤ, Bool, true, false, not, ◌||◌, Option, none, some, if◌then◌else◌,
}
use haruki_event_tracker.Prelude.HashMap.{is_some}
use haruki_event_tracker.Prelude.Result.{Result, ok, err}
use haruki_event_tracker.Prelude.Text.{Text, codes}
use haruki_event_tracker.Api.Error.{ApiError}
use haruki_event_tracker.Api.Cache.Config.{ApiCacheConfig}
use haruki_event_tracker.Api.Cache.Store.{
  CachedJson, identity_json, CacheOptions, Env, Exec, ◌>>=◌, pure,
}
use haruki_event_tracker.Api.Cache.Lookup.{get_or_fetch_bytes_with_options}
use haruki_event_tracker.Api.Cache.Lookup.Static.{get_or_fetch_static_bytes}
use haruki_event_tracker.Api.Cache.Encoded.{get_or_fetch_precompressed_bytes_with_options}

abbrev pub plain_options : ApiCacheConfig → CacheOptions
plain_options cfg = record {
  max_value_bytes = cfg.max_value_bytes;
  is_batch = false;
  validate_cached_bytes = none;
}

abbrev pub batch_options : ApiCacheConfig → CacheOptions
batch_options cfg = record {
  max_value_bytes = cfg.batch_max_value_bytes;
  is_batch = true;
  validate_cached_bytes = none;
}

abbrev pub static_options : ApiCacheConfig → Option (Text → Bool) → CacheOptions
static_options cfg validate = record {
  max_value_bytes = cfg.batch_max_value_bytes;
  is_batch = false;
  validate_cached_bytes = validate;
}

-- `.map(CachedJson::identity)`
abbrev pub as_identity : Result ApiError Text → Result ApiError CachedJson
as_identity (ok bytes) = ok (identity_json bytes)
as_identity (err e) = err e

abbrev pub identified : Exec (Result ApiError Text) → Exec (Result ApiError CachedJson)
identified m = m >>= λ r. pure (as_identity r)

module _ (env : Env) (server : Text) (event_id : ℤ) (suffix : Text) (ttl_secs : ℕ) where
  unfoldable pub get_or_fetch_bytes : Exec (Result ApiError Text)
  unfolding get_or_fetch_bytes_with_options
  get_or_fetch_bytes =
      get_or_fetch_bytes_with_options env (plain_options env.cfg) server event_id suffix ttl_secs

  unfoldable pub get_or_fetch_precompressed_bytes : Exec (Result ApiError CachedJson)
  unfolding get_or_fetch_precompressed_bytes_with_options
  get_or_fetch_precompressed_bytes =
      get_or_fetch_precompressed_bytes_with_options env (plain_options env.cfg) server event_id
        suffix ttl_secs

  unfoldable pub get_or_fetch_batch_encoded_json : Bool → Exec (Result ApiError CachedJson)
  unfolding get_or_fetch_bytes_with_options get_or_fetch_precompressed_bytes_with_options
  get_or_fetch_batch_encoded_json prefer_gzip =
      if not prefer_gzip || not env.cfg.precompress_gzip_enabled
      then identified (
          get_or_fetch_bytes_with_options env (batch_options env.cfg) server event_id suffix
            ttl_secs)
      else get_or_fetch_precompressed_bytes_with_options env (batch_options env.cfg) server event_id
          suffix ttl_secs

module _ {T : Type 0} (encode : T → Result ApiError Text) (decode : Text → Option T) where
  -- `encode_json_bytes(&fetch.await?)`
  abbrev pub encoded : Result ApiError T → Result ApiError Text
  encoded (ok value) = encode value
  encoded (err e) = err e

  abbrev pub validate_json_bytes : Text → Bool
  validate_json_bytes bytes = is_some (decode bytes)

  abbrev pub read_back : Option T → Result ApiError T
  read_back (some value) = ok value
  read_back none = err (ApiError.service_unavailable (codes "api cache decode failed"))

  abbrev pub decoded : Result ApiError Text → Result ApiError T
  decoded (ok bytes) = read_back (decode bytes)
  decoded (err e) = err e

  abbrev pub fetching : Env → Result ApiError T → Env
  fetching env fetch = record env { fetch = encoded fetch }

  abbrev pub typed_options : ApiCacheConfig → CacheOptions
  typed_options cfg = record {
    max_value_bytes = cfg.max_value_bytes;
    is_batch = false;
    validate_cached_bytes = some validate_json_bytes;
  }

  module _ (env : Env) (fetch : Result ApiError T) (server : Text) (event_id : ℤ) (suffix : Text)
      (ttl_secs : ℕ) where
    unfoldable pub get_or_fetch : Exec (Result ApiError T)
    unfolding get_or_fetch_bytes_with_options
    get_or_fetch =
        get_or_fetch_bytes_with_options (fetching env fetch) (typed_options env.cfg) server event_id
          suffix ttl_secs
        >>= λ r. pure (decoded r)

    unfoldable pub get_or_fetch_static : Exec (Result ApiError T)
    unfolding get_or_fetch_static_bytes
    get_or_fetch_static =
        get_or_fetch_static_bytes (fetching env fetch)
          (static_options env.cfg (some validate_json_bytes)) server event_id suffix ttl_secs
        >>= λ r. pure (decoded r)

    unfoldable pub get_or_fetch_json_bytes : Exec (Result ApiError Text)
    unfolding get_or_fetch_bytes
    get_or_fetch_json_bytes =
        get_or_fetch_bytes (fetching env fetch) server event_id suffix ttl_secs

    unfoldable pub get_or_fetch_static_json_bytes : Exec (Result ApiError Text)
    unfolding get_or_fetch_static_bytes
    get_or_fetch_static_json_bytes =
        get_or_fetch_static_bytes (fetching env fetch) (static_options env.cfg none) server event_id
          suffix ttl_secs

    unfoldable pub get_or_fetch_encoded_json : Bool → Exec (Result ApiError CachedJson)
    unfolding get_or_fetch_bytes get_or_fetch_precompressed_bytes
    get_or_fetch_encoded_json prefer_gzip =
        if not prefer_gzip || not env.cfg.precompress_gzip_enabled
        then identified (get_or_fetch_bytes (fetching env fetch) server event_id suffix ttl_secs)
        else get_or_fetch_precompressed_bytes (fetching env fetch) server event_id suffix ttl_secs
