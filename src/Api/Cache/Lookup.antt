-- ===== src/Api/Cache/Lookup.antt =====
-- src/api/cache.rs: a lookup of the bytes of a response, `get_or_fetch_bytes_with_options`, as it
-- goes through the local cache, Redis, the flights and the database.
pub mod Actions
pub mod Sources
pub mod Transparency
pub mod Static
use haruki_event_tracker.Prelude.{
  ℕ, nat_beq, ltb, leb, ℤ, pos, negsuc, Bool, true, false, not, ◌&&◌, List, length, Option, none,
  some, if◌then◌else◌, list_eq, nat_eq,
}
use haruki_event_tracker.Prelude.Result.{Result, ok, err}
use haruki_event_tracker.Prelude.Text.{Text, codes}
use haruki_event_tracker.Api.Error.{ApiError, is_not_found}
use haruki_event_tracker.Api.Cache.Keys.{
  control_cache_key, value_key, negative_key, dirty_flight_key, lookup_flight_key,
}
use haruki_event_tracker.Api.Cache.Local.{L1Control, L1Value, L1Cache}
use haruki_event_tracker.Api.Cache.Redis.{L2CombinedRead, L2ValueRead}
use haruki_event_tracker.Api.Cache.Store.{
  CachedJson, identity_json, SharedFetchResult, CacheWriteContext, CacheOptions, Call, Store, Env,
  Exec, ◌>>=◌, ◌>>◌, pure, log, get_control, get_value, store_l1_control, store_l1_value, fetch,
  write_l2_if_clean,
}

unfoldable pub cached_bytes_are_valid : CacheOptions → Text → Bool
cached_bytes_are_valid options bytes = elim options.validate_cached_bytes [
  | some validate ↦ validate bytes
  | none ↦ true
]

unfoldable pub shared_fetch_bytes_result : Result ApiError Text → Option SharedFetchResult
shared_fetch_bytes_result (ok bytes) = some (SharedFetchResult.value (identity_json bytes))
shared_fetch_bytes_result (err ApiError.not_found) = some SharedFetchResult.not_found
shared_fetch_bytes_result (err _) = none

-- What `wait_bytes` returns of a published result.
abbrev pub waited_bytes : SharedFetchResult → Result ApiError Text
waited_bytes (SharedFetchResult.value value) = ok value.bytes
waited_bytes SharedFetchResult.not_found = err ApiError.not_found

abbrev pub write_context : Text → ℤ → ℤ → Text → ℕ → Text → CacheWriteContext
write_context server event_id epoch suffix ttl_secs key = record {
  server = server;
  event_id = event_id;
  epoch = epoch;
  value_key = key;
  negative_key = negative_key server event_id epoch suffix;
  ttl_secs = ttl_secs;
}

module _ (env : Env) (options : CacheOptions) where
  -- The error NotFound is remembered, when that is on.
  abbrev pub cache_not_found : Option CacheWriteContext → Exec (Result ApiError Text)
  cache_not_found none = pure env.fetch
  cache_not_found (some ctx) =
      if ltb 0 env.cfg.negative_ttl_secs
      then write_l2_if_clean env ctx ctx.negative_key (codes "1") env.cfg.negative_ttl_secs
        >> pure env.fetch
      else pure env.fetch

  -- What was written to Redis is kept in process memory as well.
  abbrev pub keep_written : Text → Text → Option Bool → Exec (Result ApiError Text)
  keep_written key bytes (some true) = store_l1_value env key bytes >> pure (ok bytes)
  keep_written key bytes _ = pure (ok bytes)

  abbrev pub cache_fetched : Text → Option CacheWriteContext → Exec (Result ApiError Text)
  cache_fetched bytes none = pure (ok bytes)
  cache_fetched bytes (some ctx) =
      write_l2_if_clean env ctx ctx.value_key bytes ctx.ttl_secs
      >>= keep_written ctx.value_key bytes

  abbrev pub after_fetch :
      Option CacheWriteContext → Result ApiError Text → Exec (Result ApiError Text)
  after_fetch ctx (ok bytes) =
      if ltb options.max_value_bytes (length bytes)
      then pure (ok bytes)
      else cache_fetched bytes ctx
  after_fetch ctx (err ApiError.not_found) = cache_not_found ctx
  after_fetch ctx (err e) = pure (err e)

  unfoldable pub fetch_and_maybe_cache_bytes :
      Option CacheWriteContext → Exec (Result ApiError Text)
  fetch_and_maybe_cache_bytes ctx = fetch env >>= after_fetch ctx

  -- A waiter takes what the owner publishes, and acts itself when nothing is; an owner acts and
  -- publishes.
  abbrev pub with_flight :
      Option (Option SharedFetchResult)
      → Text
      → Exec (Result ApiError Text)
      → Exec (Result ApiError Text)
      → Exec (Result ApiError Text)
  with_flight none flight_key alone own = own >>= λ result.
      log (Call.publish flight_key (shared_fetch_bytes_result result)) >> pure result
  with_flight (some none) flight_key alone own = alone
  with_flight (some (some shared)) flight_key alone own = pure (waited_bytes shared)

  unfoldable pub lookup_with_singleflight :
      Text → Exec (Result ApiError Text) → Exec (Result ApiError Text)
  unfolding shared_fetch_bytes_result
  lookup_with_singleflight flight_key lookup =
      with_flight (env.flight flight_key) flight_key lookup lookup

  unfoldable pub fetch_bytes_with_singleflight :
      Text → Option CacheWriteContext → Exec (Result ApiError Text)
  unfolding shared_fetch_bytes_result fetch_and_maybe_cache_bytes
  fetch_bytes_with_singleflight flight_key ctx =
      with_flight (env.flight flight_key) flight_key (fetch env) (fetch_and_maybe_cache_bytes ctx)

  module _ (server : Text) (event_id : ℤ) (suffix : Text) (ttl_secs : ℕ) where
    -- What Redis holds under the key of an epoch is taken when it is valid.
    abbrev pub take_valid : ℤ → Text → Text → Exec (Result ApiError Text)
    take_valid epoch key bytes =
        if cached_bytes_are_valid options bytes
        then store_l1_value env key bytes >> pure (ok bytes)
        else fetch_and_maybe_cache_bytes
            (some (write_context server event_id epoch suffix ttl_secs key))

    abbrev pub look_value : ℤ → Text → Option L2ValueRead → Exec (Result ApiError Text)
    look_value epoch key none = fetch env
    look_value epoch key (some (L2ValueRead.hit bytes)) = take_valid epoch key bytes
    look_value epoch key (some L2ValueRead.not_found) = pure (err ApiError.not_found)
    look_value epoch key (some L2ValueRead.miss) =
        fetch_and_maybe_cache_bytes (some (write_context server event_id epoch suffix ttl_secs key))

    abbrev pub look_combined : Option L2CombinedRead → Exec (Result ApiError Text)
    look_combined none = fetch env
    look_combined (some (L2CombinedRead.dirty epoch)) =
        store_l1_control env (control_cache_key server event_id) epoch true
        >> fetch_bytes_with_singleflight (dirty_flight_key server event_id epoch suffix) none
    look_combined (some (L2CombinedRead.hit epoch key bytes)) =
        store_l1_control env (control_cache_key server event_id) epoch false
        >> take_valid epoch key bytes
    look_combined (some (L2CombinedRead.not_found epoch)) =
        store_l1_control env (control_cache_key server event_id) epoch false
        >> pure (err ApiError.not_found)
    look_combined (some (L2CombinedRead.miss epoch key)) =
        store_l1_control env (control_cache_key server event_id) epoch false
        >> fetch_and_maybe_cache_bytes
            (some (write_context server event_id epoch suffix ttl_secs key))

    abbrev pub look_beyond : ℤ → Option Text → Exec (Result ApiError Text)
    look_beyond epoch (some bytes) = pure (ok bytes)
    look_beyond epoch none =
        lookup_with_singleflight (lookup_flight_key server event_id epoch suffix) (
          look_value epoch (value_key server event_id epoch suffix)
            (env.read_value (value_key server event_id epoch suffix)))

    -- With what process memory knows of the epoch and the mark.
    abbrev pub look_with_control : Option L1Control → Exec (Result ApiError Text)
    look_with_control (some control) =
        if control.dirty
        then fetch_bytes_with_singleflight (dirty_flight_key server event_id control.epoch suffix)
            none
        else get_value env (value_key server event_id control.epoch suffix)
          >>= look_beyond control.epoch
    look_with_control none =
        lookup_with_singleflight (lookup_flight_key server event_id (negsuc 0) suffix)
          (look_combined (env.read_combined server event_id suffix))

    unfoldable pub get_or_fetch_bytes_with_options : Exec (Result ApiError Text)
    unfolding fetch_and_maybe_cache_bytes lookup_with_singleflight fetch_bytes_with_singleflight
    get_or_fetch_bytes_with_options =
        if nat_beq ttl_secs 0
        then fetch env
        else get_control env (control_cache_key server event_id) >>= look_with_control
