-- ===== src/Api/Cache/Lookup/Static.antt =====
-- src/api/cache.rs: a lookup of a response that no update changes, `get_or_fetch_static_bytes`.
use haruki_event_tracker.Prelude.{
  ℕ, nat_beq, ltb, ℤ, Bool, true, false, length, Option, none, some, ◌≡◌, refl, sym, if◌then◌else◌,
  list_eq, nat_eq, Bool-cases, inl, inr,
}
use haruki_event_tracker.Prelude.Result.{Result, ok, err}
use haruki_event_tracker.Prelude.Text.{Text}
use haruki_event_tracker.Api.Error.{ApiError}
use haruki_event_tracker.Api.Cache.Keys.{static_value_key, static_lookup_flight_key}
use haruki_event_tracker.Api.Cache.Local.Values.{AllValues}
use haruki_event_tracker.Api.Cache.Redis.{L2ValueRead}
use haruki_event_tracker.Api.Cache.Store.{
  SharedFetchResult, CacheOptions, Store, Env, Exec, ◌>>=◌, ◌>>◌, pure, get_value, store_l1_value,
  fetch, write_l2_static,
}
use haruki_event_tracker.Api.Cache.Store.Hoare.{Keeps}
use haruki_event_tracker.Api.Cache.Lookup.{
  cached_bytes_are_valid, waited_bytes, lookup_with_singleflight,
}
use haruki_event_tracker.Api.Cache.Lookup.Actions.{
  Cached, Keeps-store_l1_value, Keeps-get_value, Keeps-lookup_with_singleflight,
}

module _ (env : Env) (options : CacheOptions) where
  abbrev keep_static : Text → Text → Bool → Exec (Result ApiError Text)
  keep_static key bytes true = store_l1_value env key bytes >> pure (ok bytes)
  keep_static key bytes false = pure (ok bytes)

  abbrev cache_static : Text → ℕ → Result ApiError Text → Exec (Result ApiError Text)
  cache_static key ttl_secs (err e) = pure (err e)
  cache_static key ttl_secs (ok bytes) =
      if ltb options.max_value_bytes (length bytes)
      then pure (ok bytes)
      else write_l2_static env key bytes ttl_secs >>= keep_static key bytes

  unfoldable pub fetch_and_maybe_cache_static_bytes : Text → ℕ → Exec (Result ApiError Text)
  fetch_and_maybe_cache_static_bytes key ttl_secs = fetch env >>= cache_static key ttl_secs

  abbrev look_static : Text → ℕ → Option L2ValueRead → Exec (Result ApiError Text)
  look_static key ttl_secs none = fetch env
  look_static key ttl_secs (some (L2ValueRead.hit bytes)) =
      if cached_bytes_are_valid options bytes
      then store_l1_value env key bytes >> pure (ok bytes)
      else fetch_and_maybe_cache_static_bytes key ttl_secs
  look_static key ttl_secs (some L2ValueRead.not_found) =
      fetch_and_maybe_cache_static_bytes key ttl_secs
  look_static key ttl_secs (some L2ValueRead.miss) = fetch_and_maybe_cache_static_bytes key ttl_secs

  abbrev look_static_beyond : Text → Text → ℕ → Option Text → Exec (Result ApiError Text)
  look_static_beyond flight_key key ttl_secs (some bytes) = pure (ok bytes)
  look_static_beyond flight_key key ttl_secs none =
      lookup_with_singleflight env options flight_key
        (look_static key ttl_secs (env.read_value key))

  unfoldable pub get_or_fetch_static_bytes : Text → ℤ → Text → ℕ → Exec (Result ApiError Text)
  unfolding fetch_and_maybe_cache_static_bytes lookup_with_singleflight
  get_or_fetch_static_bytes server event_id suffix ttl_secs =
      if nat_beq ttl_secs 0
      then fetch env
      else get_value env (static_value_key server event_id suffix)
        >>= look_static_beyond (static_lookup_flight_key server event_id suffix)
            (static_value_key server event_id suffix) ttl_secs

module _ (env : Env) (options : CacheOptions) (key : Text)
    (value : (b : Text) → env.read_value key ≡ some (L2ValueRead.hit b) → env.fetch ≡ ok b)
    (shared : (flight_key : Text) (r : SharedFetchResult)
      → env.flight flight_key ≡ some (some r)
      → waited_bytes r ≡ env.fetch) where
  -- What process memory keeps under the key is what the fetch gives.
  abbrev IsFetched : Text → Text → Type 0
  IsFetched k b = k ≡ key → env.fetch ≡ ok b

  abbrev Fetches : Exec (Result ApiError Text) → Type 0
  Fetches = Keeps (Cached IsFetched) (λ r. r ≡ env.fetch)

  Fetches-keep_static :
      (b : Text) (w : Bool) → env.fetch ≡ ok b → Fetches (keep_static env options key b w)
  Fetches-keep_static b true q s h =
      ((Keeps-store_l1_value IsFetched env key b (λ k. q) s h).0, sym q)
  Fetches-keep_static b false q s h = (h, sym q)

  Fetches-cache_static :
      (ttl_secs : ℕ) (r : Result ApiError Text)
      → env.fetch ≡ r
      → Fetches (cache_static env options key ttl_secs r)
  Fetches-cache_static ttl_secs (err e) q = λ s h. (h, sym q)
  Fetches-cache_static ttl_secs (ok b) q =
      elim (Bool-cases (ltb options.max_value_bytes (length b))) [
        | inl large ↦ rw large (λ s h. (h, sym q))
        | inr small ↦
            rw small (λ s h. Fetches-keep_static b (env.write_static key b ttl_secs) q _ h)
      ]

  Fetches-fetch_and_maybe_cache_static_bytes :
      (ttl_secs : ℕ) → Fetches (fetch_and_maybe_cache_static_bytes env options key ttl_secs)
  unfolding fetch_and_maybe_cache_static_bytes
  Fetches-fetch_and_maybe_cache_static_bytes ttl_secs s h =
      Fetches-cache_static ttl_secs env.fetch refl _ h

  Fetches-look_static :
      (ttl_secs : ℕ) (r : Option L2ValueRead)
      → env.read_value key ≡ r
      → Fetches (look_static env options key ttl_secs r)
  Fetches-look_static ttl_secs none q = λ s h. (h, refl)
  Fetches-look_static ttl_secs (some (L2ValueRead.hit b)) q =
      elim (Bool-cases (cached_bytes_are_valid options b)) [
        | inl valid ↦ rw valid (λ s h.
            ((Keeps-store_l1_value IsFetched env key b (λ k. value b q) s h).0, sym (value b q)))
        | inr invalid ↦ rw invalid (Fetches-fetch_and_maybe_cache_static_bytes ttl_secs)
      ]
  Fetches-look_static ttl_secs (some L2ValueRead.not_found) q =
      Fetches-fetch_and_maybe_cache_static_bytes ttl_secs
  Fetches-look_static ttl_secs (some L2ValueRead.miss) q =
      Fetches-fetch_and_maybe_cache_static_bytes ttl_secs

  Fetches-look_static_beyond :
      (flight_key : Text) (ttl_secs : ℕ) (found : Option Text)
      → ((b : Text) → found ≡ some b → IsFetched key b)
      → Fetches (look_static_beyond env options flight_key key ttl_secs found)
  Fetches-look_static_beyond flight_key ttl_secs (some b) p = λ s h. (h, sym (p b refl refl))
  Fetches-look_static_beyond flight_key ttl_secs none p =
      Keeps-lookup_with_singleflight IsFetched env options (λ r. r ≡ env.fetch) shared flight_key _
        (Fetches-look_static ttl_secs (env.read_value key) refl)

-- When process memory, Redis and the flights give for a static response nothing but what the fetch
-- gives, a lookup returns that, whichever calls of Redis fail, a negative entry included, and
-- process memory still gives nothing else.
pub get_or_fetch_static_bytes_transparent :
    (env : Env) (options : CacheOptions) (server : Text) (event_id : ℤ) (suffix : Text)
    (ttl_secs : ℕ) (s : Store)
    → AllValues (λ k b. k ≡ static_value_key server event_id suffix → env.fetch ≡ ok b) s.l1
    → ((b : Text)
        → env.read_value (static_value_key server event_id suffix) ≡ some (L2ValueRead.hit b)
        → env.fetch ≡ ok b)
    → ((flight_key : Text) (r : SharedFetchResult)
        → env.flight flight_key ≡ some (some r)
        → waited_bytes r ≡ env.fetch)
    → ((get_or_fetch_static_bytes env options server event_id suffix ttl_secs s).0 ≡ env.fetch)
      × AllValues
          (λ k b. k ≡ static_value_key server event_id suffix → env.fetch ≡ ok b)
          (get_or_fetch_static_bytes env options server event_id suffix ttl_secs s).1.l1
unfolding get_or_fetch_static_bytes
get_or_fetch_static_bytes_transparent env options server event_id suffix ttl_secs s h value shared =
    elim (Bool-cases (nat_beq ttl_secs 0)) [
      | inl off ↦ rw off (refl, h)
      | inr on ↦
          let key = static_value_key server event_id suffix in
          let (k, p) = Keeps-get_value (IsFetched env options key value shared) env key s h in
          let (kept, result) =
            Fetches-look_static_beyond env options key value shared
              (static_lookup_flight_key server event_id suffix) ttl_secs _ p _ k in
          rw on (result, kept)
    ]
