-- ===== src/Api/Cache/Lookup/Sources.antt =====
-- Where the result of a lookup comes from: a property that every source of bytes has, the result
-- has, and the local cache keeps the relation of keys and bytes that it had.
use haruki_event_tracker.Prelude.{
  ℕ, nat_beq, ltb, ℤ, negsuc, Bool, true, false, length, Option, none, some, ◌≡◌, refl, sym, subst,
  list_eq, nat_eq, Bool-cases, inl, inr,
}
use haruki_event_tracker.Prelude.Result.{Result, ok, err}
use haruki_event_tracker.Prelude.Text.{Text}
use haruki_event_tracker.Api.Error.{ApiError}
use haruki_event_tracker.Api.Cache.Keys.{
  control_cache_key, value_key, dirty_flight_key, lookup_flight_key,
}
use haruki_event_tracker.Api.Cache.Local.{L1Control}
use haruki_event_tracker.Api.Cache.Local.Values.{}
use haruki_event_tracker.Api.Cache.Redis.{L2CombinedRead, L2ValueRead}
use haruki_event_tracker.Api.Cache.Store.{
  SharedFetchResult, CacheWriteContext, CacheOptions, Store, Env, Exec, fetch, get_control,
}
use haruki_event_tracker.Api.Cache.Store.Hoare.{Keeps}
use haruki_event_tracker.Api.Cache.Lookup.{
  cached_bytes_are_valid, waited_bytes, write_context, cache_fetched, after_fetch,
  fetch_and_maybe_cache_bytes, keep_written, look_beyond, fetch_bytes_with_singleflight, take_valid,
  look_value, look_combined, look_with_control, get_or_fetch_bytes_with_options,
}
use haruki_event_tracker.Api.Cache.Lookup.Actions.{
  Cached, Keeps-store_l1_value, Keeps-store_l1_control, Keeps-get_value, Keeps-get_control,
  Keeps-with_flight, Keeps-lookup_with_singleflight,
}

-- What process memory says of the mark is true of the epoch, when it says that there is none.
abbrev pub IsUsable : (ℤ → Type 0) → Option L1Control → Type 0
IsUsable Clean none = Unit
IsUsable Clean (some c) = c.dirty ≡ false → Clean c.epoch

module _ (P : Text → Text → Type 0) where
  module _ (env : Env) (options : CacheOptions) (server : Text) (event_id : ℤ) (suffix : Text)
      (Q : Result ApiError Text → Type 0) (Clean : ℤ → Type 0) where
    -- `P` relates the keys of this response to bytes, `Q` is a property of results, `Clean` holds
    -- of the epochs that are read without the mark; what the fetch, Redis and the flights give has
    -- them, as far as Redis is read.
    pub record Sources : Type 0 where
      pub fetched : Q env.fetch
      pub stored :
          (epoch : ℤ) (b : Text) → env.fetch ≡ ok b → P (value_key server event_id epoch suffix) b
      pub served :
          (epoch : ℤ) (b : Text)
          → Clean epoch
          → P (value_key server event_id epoch suffix) b
          → Q (ok b)
      pub value_hit :
          (epoch : ℤ) (b : Text)
          → Clean epoch
          → env.read_value (value_key server event_id epoch suffix) ≡ some (L2ValueRead.hit b)
          → cached_bytes_are_valid options b ≡ true
          → P (value_key server event_id epoch suffix) b
      pub value_not_found :
          (epoch : ℤ)
          → Clean epoch
          → env.read_value (value_key server event_id epoch suffix) ≡ some L2ValueRead.not_found
          → Q (err ApiError.not_found)
      pub combined_hit :
          (epoch : ℤ) (key b : Text)
          → env.read_combined server event_id suffix ≡ some (L2CombinedRead.hit epoch key b)
          → (key ≡ value_key server event_id epoch suffix)
            × Clean epoch
            × (cached_bytes_are_valid options b ≡ true → P key b)
      pub combined_not_found :
          (epoch : ℤ)
          → env.read_combined server event_id suffix ≡ some (L2CombinedRead.not_found epoch)
          → Q (err ApiError.not_found)
      pub combined_miss :
          (epoch : ℤ) (key : Text)
          → env.read_combined server event_id suffix ≡ some (L2CombinedRead.miss epoch key)
          → key ≡ value_key server event_id epoch suffix
      pub shared :
          (flight_key : Text) (r : SharedFetchResult)
          → env.flight flight_key ≡ some (some r)
          → Q (waited_bytes r)

    module _ (ttl_secs : ℕ) (src : Sources) where
      abbrev Lookup : Exec (Result ApiError Text) → Type 0
      Lookup = Keeps (Cached P) Q

      Lookup-fetch : Lookup (fetch env)
      Lookup-fetch s h = (h, src.fetched)

      Lookup-keep_written :
          (key b : Text) (w : Option Bool)
          → P key b
          → Q (ok b)
          → Lookup (keep_written env options key b w)
      Lookup-keep_written key b (some true) p q s h =
          ((Keeps-store_l1_value P env key b p s h).0, q)
      Lookup-keep_written key b (some false) p q s h = (h, q)
      Lookup-keep_written key b none p q s h = (h, q)

      -- The key of a write context, when there is one, is one of this response.
      abbrev IsOwn : Option CacheWriteContext → Type 0
      IsOwn none = Unit
      IsOwn (some ctx) = (epoch : ℤ) × (ctx.value_key ≡ value_key server event_id epoch suffix)

      Lookup-cache_fetched :
          (b : Text) (ctx : Option CacheWriteContext)
          → env.fetch ≡ ok b
          → IsOwn ctx
          → Lookup (cache_fetched env options b ctx)
      Lookup-cache_fetched b none e o s h = (h, subst Q e src.fetched)
      Lookup-cache_fetched b (some ctx) e (epoch, o) s h =
          Lookup-keep_written ctx.value_key b (env.write_if_clean ctx ctx.value_key b ctx.ttl_secs)
            (subst (λ k. P k b) (sym o) (src.stored epoch b e)) (subst Q e src.fetched) _ h

      Lookup-after_fetch :
          (r : Result ApiError Text) (ctx : Option CacheWriteContext)
          → env.fetch ≡ r
          → IsOwn ctx
          → Lookup (after_fetch env options ctx r)
      Lookup-after_fetch (ok b) ctx e o =
          elim (Bool-cases (ltb options.max_value_bytes (length b))) [
            | inl large ↦ rw large (λ s h. (h, subst Q e src.fetched))
            | inr small ↦ rw small (Lookup-cache_fetched b ctx e o)
          ]
      Lookup-after_fetch (err ApiError.not_found) none e o = λ s h. (h, src.fetched)
      Lookup-after_fetch (err ApiError.not_found) (some ctx) e o =
          elim (Bool-cases (ltb 0 env.cfg.negative_ttl_secs)) [
            | inl remembered ↦ rw remembered (λ s h. (h, src.fetched))
            | inr off ↦ rw off (λ s h. (h, src.fetched))
          ]
      Lookup-after_fetch (err other) ctx e o = λ s h. (h, subst Q e src.fetched)

      Lookup-fetch_and_maybe_cache_bytes :
          (ctx : Option CacheWriteContext)
          → IsOwn ctx
          → Lookup (fetch_and_maybe_cache_bytes env options ctx)
      unfolding fetch_and_maybe_cache_bytes
      Lookup-fetch_and_maybe_cache_bytes ctx o s h = Lookup-after_fetch env.fetch ctx refl o _ h

      -- Beside a mark, nothing is to be written.
      Lookup-fetch_bytes_with_singleflight :
          (flight_key : Text) → Lookup (fetch_bytes_with_singleflight env options flight_key none)
      unfolding fetch_bytes_with_singleflight
      Lookup-fetch_bytes_with_singleflight flight_key =
          Keeps-with_flight P env options Q src.shared flight_key (env.flight flight_key)
            (fetch env) (fetch_and_maybe_cache_bytes env options none) refl Lookup-fetch
            (Lookup-fetch_and_maybe_cache_bytes none tt)

      abbrev own_context : ℤ → Text → Option CacheWriteContext
      own_context epoch key = some (write_context server event_id epoch suffix ttl_secs key)

      Lookup-take_valid :
          (epoch : ℤ) (key b : Text)
          → key ≡ value_key server event_id epoch suffix
          → Clean epoch
          → (cached_bytes_are_valid options b ≡ true → P key b)
          → Lookup (take_valid env options server event_id suffix ttl_secs epoch key b)
      Lookup-take_valid epoch key b k c p = elim (Bool-cases (cached_bytes_are_valid options b)) [
        | inl valid ↦ rw valid (λ s h. (
          (Keeps-store_l1_value P env key b (p valid) s h).0,
          src.served epoch b c (subst (λ j. P j b) k (p valid)),
        ))
        | inr invalid ↦
            rw invalid (Lookup-fetch_and_maybe_cache_bytes (own_context epoch key) (epoch, k))
      ]

      Lookup-look_value :
          (epoch : ℤ) (r : Option L2ValueRead)
          → Clean epoch
          → env.read_value (value_key server event_id epoch suffix) ≡ r
          → Lookup (
              look_value env options server event_id suffix ttl_secs epoch
                (value_key server event_id epoch suffix)
                r)
      Lookup-look_value epoch none c e = Lookup-fetch
      Lookup-look_value epoch (some (L2ValueRead.hit b)) c e =
          Lookup-take_valid epoch _ b refl c (src.value_hit epoch b c e)
      Lookup-look_value epoch (some L2ValueRead.not_found) c e =
          λ s h. (h, src.value_not_found epoch c e)
      Lookup-look_value epoch (some L2ValueRead.miss) c e =
          Lookup-fetch_and_maybe_cache_bytes (own_context epoch _) (epoch, refl)

      Lookup-look_combined :
          (r : Option L2CombinedRead)
          → env.read_combined server event_id suffix ≡ r
          → Lookup (look_combined env options server event_id suffix ttl_secs r)
      Lookup-look_combined none e = Lookup-fetch
      Lookup-look_combined (some (L2CombinedRead.dirty epoch)) e = λ s h.
          Lookup-fetch_bytes_with_singleflight (dirty_flight_key server event_id epoch suffix) _
            (Keeps-store_l1_control P env _ epoch true s h).0
      Lookup-look_combined (some (L2CombinedRead.hit epoch key b)) e = λ s h.
          let (k, c, p) = src.combined_hit epoch key b e in
          Lookup-take_valid epoch key b k c p _ (Keeps-store_l1_control P env _ epoch false s h).0
      Lookup-look_combined (some (L2CombinedRead.not_found epoch)) e = λ s h.
          ((Keeps-store_l1_control P env _ epoch false s h).0, src.combined_not_found epoch e)
      Lookup-look_combined (some (L2CombinedRead.miss epoch key)) e = λ s h.
          Lookup-fetch_and_maybe_cache_bytes (own_context epoch key)
            (epoch, src.combined_miss epoch key e) _
            (Keeps-store_l1_control P env _ epoch false s h).0

      Lookup-look_beyond :
          (epoch : ℤ) (found : Option Text)
          → Clean epoch
          → ((b : Text) → found ≡ some b → P (value_key server event_id epoch suffix) b)
          → Lookup (look_beyond env options server event_id suffix ttl_secs epoch found)
      Lookup-look_beyond epoch (some b) c p = λ s h. (h, src.served epoch b c (p b refl))
      Lookup-look_beyond epoch none c p =
          Keeps-lookup_with_singleflight P env options Q src.shared
            (lookup_flight_key server event_id epoch suffix) _
            (Lookup-look_value epoch (env.read_value (value_key server event_id epoch suffix)) c
              refl)

      Lookup-look_with_control :
          (c : Option L1Control)
          → IsUsable Clean c
          → Lookup (look_with_control env options server event_id suffix ttl_secs c)
      Lookup-look_with_control (some c) u = elim (Bool-cases c.dirty) [
        | inl d ↦
            rw d (
              Lookup-fetch_bytes_with_singleflight
                (dirty_flight_key server event_id c.epoch suffix))
        | inr d ↦ rw d (λ s h.
            let (k, p) = Keeps-get_value P env (value_key server event_id c.epoch suffix) s h in
            Lookup-look_beyond c.epoch _ (u d) p _ k)
      ]
      Lookup-look_with_control none u =
          Keeps-lookup_with_singleflight P env options Q src.shared
            (lookup_flight_key server event_id (negsuc 0) suffix) _
            (Lookup-look_combined (env.read_combined server event_id suffix) refl)

      -- When every source of bytes has the property, the result of a lookup has it, on every path
      -- and for every failure of Redis, and the local cache keeps the relation.
      pub get_or_fetch_bytes_sources :
          (s : Store)
          → IsUsable Clean (get_control env (control_cache_key server event_id) s).0
          → Cached P s
          → Cached P
              (get_or_fetch_bytes_with_options env options server event_id suffix ttl_secs s).1
            × Q (get_or_fetch_bytes_with_options env options server event_id suffix ttl_secs s).0
      unfolding get_or_fetch_bytes_with_options
      get_or_fetch_bytes_sources s u h = elim (Bool-cases (nat_beq ttl_secs 0)) [
        | inl off ↦ rw off (Lookup-fetch s h)
        | inr on ↦ rw on (
            Lookup-look_with_control _ u _
              (Keeps-get_control P env (control_cache_key server event_id) s h).0)
      ]
