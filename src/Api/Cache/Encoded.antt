-- ===== src/Api/Cache/Encoded.antt =====
-- src/api/cache.rs: a lookup of a response that is compressed when it is large,
-- `get_or_fetch_precompressed_bytes_with_options`. Compression is a parameter of the environment.
pub mod Decoding
pub mod Sources
pub mod Transparency
use haruki_event_tracker.Prelude.{
  ℕ, nat_beq, ltb, ℤ, negsuc, Bool, true, false, length, ◌++◌, Option, none, some, if◌then◌else◌,
  list_eq, nat_eq,
}
use haruki_event_tracker.Prelude.HashMap
use haruki_event_tracker.Prelude.HashMap.{HashMap}
use haruki_event_tracker.Prelude.Result.{Result, ok, err}
use haruki_event_tracker.Prelude.Text.{Text, codes}
use haruki_event_tracker.Api.Error.{ApiError}
use haruki_event_tracker.Api.Cache.Keys.{
  control_cache_key, value_key, gzip_key, gzip_flight_key, gzip_lookup_flight_key,
}
use haruki_event_tracker.Api.Cache.Local.{L1Control}
use haruki_event_tracker.Api.Cache.Redis.{Redis, L2CombinedRead}
use haruki_event_tracker.Api.Cache.Store.{
  CachedJson, CachedJsonEncoding, identity_json, gzip_json, SharedFetchResult, L2EncodedRead,
  CacheWriteContext, CacheOptions, Call, Env, Exec, ◌>>=◌, ◌>>◌, pure, log, get_control, get_value,
  store_l1_control, store_l1_value, fetch, write_l2_if_clean,
}
use haruki_event_tracker.Api.Cache.Lookup.{write_context}

-- `read_l2_encoded`, on what Redis holds.
unfoldable pub read_l2_encoded : Redis → Text → Text → L2EncodedRead
unfolding HashMap.get
read_l2_encoded r key gzip = elim (HashMap.get gzip r.strings) [
  | some bytes ↦ L2EncodedRead.gzip bytes
  | none ↦ elim (HashMap.get key r.strings) [
    | some bytes ↦ L2EncodedRead.identity bytes
    | none ↦
        if HashMap.contains_key (key ++ codes ":not_found") r.strings
        then L2EncodedRead.not_found
        else L2EncodedRead.miss
  ]
]

unfoldable pub shared_cached_json_result : Result ApiError CachedJson → Option SharedFetchResult
shared_cached_json_result (ok value) = some (SharedFetchResult.value value)
shared_cached_json_result (err ApiError.not_found) = some SharedFetchResult.not_found
shared_cached_json_result (err _) = none

-- What `wait_cached_json` returns of a published result.
abbrev pub waited_json : SharedFetchResult → Result ApiError CachedJson
waited_json (SharedFetchResult.value value) = ok value
waited_json SharedFetchResult.not_found = err ApiError.not_found

module _ (env : Env) (options : CacheOptions) where
  abbrev pub keep_gzip : Text → Text → Option Bool → Exec (Result ApiError CachedJson)
  keep_gzip key z (some true) = store_l1_value env key z >> pure (ok (gzip_json z))
  keep_gzip key z _ = pure (ok (gzip_json z))

  abbrev pub encode_gzip :
      Option CacheWriteContext → Result ApiError Text → Exec (Result ApiError CachedJson)
  encode_gzip ctx (err e) = pure (err e)
  encode_gzip none (ok z) = pure (ok (gzip_json z))
  encode_gzip (some ctx) (ok z) =
      write_l2_if_clean env ctx (gzip_key ctx.value_key) z ctx.ttl_secs
      >>= keep_gzip (gzip_key ctx.value_key) z

  unfoldable pub encode_response :
      Text → Option CacheWriteContext → Exec (Result ApiError CachedJson)
  encode_response bytes ctx =
      if ltb (length bytes) env.cfg.precompress_min_bytes
      then pure (ok (identity_json bytes))
      else encode_gzip ctx (env.gzip bytes env.cfg.gzip_level)

  -- `self.encode_response(fetch.await?, None, options)`
  abbrev pub encode_result : Result ApiError Text → Exec (Result ApiError CachedJson)
  encode_result (ok bytes) = encode_response bytes none
  encode_result (err e) = pure (err e)

  abbrev pub fetch_encoded : Exec (Result ApiError CachedJson)
  fetch_encoded = fetch env >>= encode_result

  abbrev pub store_gzip : Text → CachedJsonEncoding → Text → Exec (Unit {0})
  store_gzip key CachedJsonEncoding.gzip bytes = store_l1_value env (gzip_key key) bytes
  store_gzip key CachedJsonEncoding.identity bytes = pure tt

  abbrev pub keep_encoded :
      Text → Text → CachedJson → Option Bool → Exec (Result ApiError CachedJson)
  keep_encoded key bytes encoded (some true) =
      store_l1_value env key bytes
      >> store_gzip key encoded.encoding encoded.bytes
      >> pure (ok encoded)
  keep_encoded key bytes encoded _ = pure (ok encoded)

  abbrev pub cache_encoded :
      CacheWriteContext → Text → Result ApiError CachedJson → Exec (Result ApiError CachedJson)
  cache_encoded ctx bytes (err e) = pure (err e)
  cache_encoded ctx bytes (ok encoded) =
      write_l2_if_clean env ctx ctx.value_key bytes ctx.ttl_secs
      >>= keep_encoded ctx.value_key bytes encoded

  abbrev pub encode_and_cache : Option CacheWriteContext → Text → Exec (Result ApiError CachedJson)
  encode_and_cache none bytes = encode_response bytes none
  encode_and_cache (some ctx) bytes = encode_response bytes (some ctx) >>= cache_encoded ctx bytes

  abbrev pub remember_not_found : Option CacheWriteContext → Exec (Result ApiError CachedJson)
  remember_not_found none = pure (err ApiError.not_found)
  remember_not_found (some ctx) =
      if ltb 0 env.cfg.negative_ttl_secs
      then write_l2_if_clean env ctx ctx.negative_key (codes "1") env.cfg.negative_ttl_secs
        >> pure (err ApiError.not_found)
      else pure (err ApiError.not_found)

  abbrev pub after_fetch_encoded :
      Option CacheWriteContext → Result ApiError Text → Exec (Result ApiError CachedJson)
  after_fetch_encoded ctx (ok bytes) =
      if ltb options.max_value_bytes (length bytes)
      then encode_response bytes none
      else encode_and_cache ctx bytes
  after_fetch_encoded ctx (err ApiError.not_found) = remember_not_found ctx
  after_fetch_encoded ctx (err e) = pure (err e)

  unfoldable pub fetch_and_maybe_cache_encoded :
      Option CacheWriteContext → Exec (Result ApiError CachedJson)
  unfolding encode_response
  fetch_and_maybe_cache_encoded ctx = fetch env >>= after_fetch_encoded ctx

  abbrev pub with_encoded_flight :
      Option (Option SharedFetchResult)
      → Text
      → Exec (Result ApiError CachedJson)
      → Exec (Result ApiError CachedJson)
      → Exec (Result ApiError CachedJson)
  with_encoded_flight none flight_key alone own = own >>= λ result.
      log (Call.publish flight_key (shared_cached_json_result result)) >> pure result
  with_encoded_flight (some none) flight_key alone own = alone
  with_encoded_flight (some (some shared)) flight_key alone own = pure (waited_json shared)

  unfoldable pub lookup_encoded_with_singleflight :
      Text → Exec (Result ApiError CachedJson) → Exec (Result ApiError CachedJson)
  unfolding shared_cached_json_result
  lookup_encoded_with_singleflight flight_key lookup =
      with_encoded_flight (env.flight flight_key) flight_key lookup lookup

  unfoldable pub fetch_encoded_with_singleflight :
      Text → Option CacheWriteContext → Exec (Result ApiError CachedJson)
  unfolding shared_cached_json_result fetch_and_maybe_cache_encoded encode_response
  fetch_encoded_with_singleflight flight_key ctx =
      with_encoded_flight (env.flight flight_key) flight_key fetch_encoded
        (fetch_and_maybe_cache_encoded ctx)

  module _ (server : Text) (event_id : ℤ) (suffix : Text) (ttl_secs : ℕ) where
    abbrev pub context_at : ℤ → Text → Option CacheWriteContext
    context_at epoch key = some (write_context server event_id epoch suffix ttl_secs key)

    abbrev pub look_encoded :
        ℤ → Text → Text → Option L2EncodedRead → Exec (Result ApiError CachedJson)
    look_encoded epoch key gzip none = fetch_encoded
    look_encoded epoch key gzip (some (L2EncodedRead.gzip bytes)) =
        store_l1_value env gzip bytes >> pure (ok (gzip_json bytes))
    look_encoded epoch key gzip (some (L2EncodedRead.identity bytes)) =
        store_l1_value env key bytes >> encode_response bytes (context_at epoch key)
    look_encoded epoch key gzip (some L2EncodedRead.not_found) = pure (err ApiError.not_found)
    look_encoded epoch key gzip (some L2EncodedRead.miss) =
        fetch_and_maybe_cache_encoded (context_at epoch key)

    abbrev pub look_encoded_combined : Option L2CombinedRead → Exec (Result ApiError CachedJson)
    look_encoded_combined none = fetch_encoded
    look_encoded_combined (some (L2CombinedRead.dirty epoch)) =
        store_l1_control env (control_cache_key server event_id) epoch true
        >> fetch_encoded_with_singleflight (gzip_flight_key server event_id epoch suffix) none
    look_encoded_combined (some (L2CombinedRead.hit epoch key bytes)) =
        store_l1_control env (control_cache_key server event_id) epoch false
        >> store_l1_value env key bytes
        >> encode_response bytes (context_at epoch key)
    look_encoded_combined (some (L2CombinedRead.not_found epoch)) =
        store_l1_control env (control_cache_key server event_id) epoch false
        >> pure (err ApiError.not_found)
    look_encoded_combined (some (L2CombinedRead.miss epoch key)) =
        store_l1_control env (control_cache_key server event_id) epoch false
        >> fetch_and_maybe_cache_encoded (context_at epoch key)

    abbrev pub look_encoded_beyond : ℤ → Text → Option Text → Exec (Result ApiError CachedJson)
    look_encoded_beyond epoch key (some bytes) = encode_response bytes (context_at epoch key)
    look_encoded_beyond epoch key none =
        lookup_encoded_with_singleflight (gzip_lookup_flight_key server event_id epoch suffix)
          (look_encoded epoch key (gzip_key key) (env.read_encoded key (gzip_key key)))

    abbrev pub look_gzip_beyond : ℤ → Text → Option Text → Exec (Result ApiError CachedJson)
    look_gzip_beyond epoch key (some bytes) = pure (ok (gzip_json bytes))
    look_gzip_beyond epoch key none = get_value env key >>= look_encoded_beyond epoch key

    abbrev pub look_encoded_with_control : Option L1Control → Exec (Result ApiError CachedJson)
    look_encoded_with_control (some control) =
        if control.dirty
        then fetch_encoded_with_singleflight (gzip_flight_key server event_id control.epoch suffix)
            none
        else get_value env (gzip_key (value_key server event_id control.epoch suffix))
          >>= look_gzip_beyond control.epoch (value_key server event_id control.epoch suffix)
    look_encoded_with_control none =
        lookup_encoded_with_singleflight (gzip_lookup_flight_key server event_id (negsuc 0) suffix)
          (look_encoded_combined (env.read_combined server event_id suffix))

    unfoldable pub get_or_fetch_precompressed_bytes_with_options : Exec (Result ApiError CachedJson)
    unfolding encode_response fetch_and_maybe_cache_encoded lookup_encoded_with_singleflight
        fetch_encoded_with_singleflight
    get_or_fetch_precompressed_bytes_with_options =
        if nat_beq ttl_secs 0
        then fetch_encoded
        else get_control env (control_cache_key server event_id) >>= look_encoded_with_control
