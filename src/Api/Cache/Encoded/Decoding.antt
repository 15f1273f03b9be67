-- ===== src/Api/Cache/Encoded/Decoding.antt =====
-- What an encoded lookup returns stands for the fetched response.
use haruki_event_tracker.Prelude.{
  ℕ, ltb, ℤ, Bool, true, false, length, Option, none, some, ◌≡◌, ◌⊎◌, refl, sym, ap, ◌∙◌, list_eq,
  nat_eq, Bool-cases, inl, inr,
}
use haruki_event_tracker.Prelude.Result.{Result, ok, err}
use haruki_event_tracker.Prelude.Text.{Text}
use haruki_event_tracker.Api.Error.{ApiError}
use haruki_event_tracker.Api.Cache.Keys.{value_key, gzip_key}
use haruki_event_tracker.Api.Cache.Keys.Gzip.{value_key-gzip_key}
use haruki_event_tracker.Api.Cache.Local.{}
use haruki_event_tracker.Api.Cache.Redis.{}
use haruki_event_tracker.Api.Cache.Store.{
  CachedJson, CachedJsonEncoding, L2EncodedRead, CacheWriteContext, CacheOptions, Env, Exec,
}
use haruki_event_tracker.Api.Cache.Store.Hoare.{Keeps}
use haruki_event_tracker.Api.Cache.Lookup.{}
use haruki_event_tracker.Api.Cache.Lookup.Actions.{Cached, Keeps-store_l1_value}
use haruki_event_tracker.Api.Cache.Lookup.Transparency.{}
use haruki_event_tracker.Api.Cache.Encoded.{
  keep_gzip, encode_gzip, encode_response, encode_result, fetch_encoded, store_gzip, keep_encoded,
  cache_encoded, encode_and_cache, after_fetch_encoded, fetch_and_maybe_cache_encoded,
}

module _ (env : Env) where
  -- The compressed form of the fetched bytes.
  abbrev pub IsGzip : Text → Type 0
  IsGzip z = (b : Text) × (env.fetch ≡ ok b) × (env.gzip b env.cfg.gzip_level ≡ ok z)

  abbrev pub IsEncodedAs : CachedJsonEncoding → Text → Type 0
  IsEncodedAs CachedJsonEncoding.identity b = env.fetch ≡ ok b
  IsEncodedAs CachedJsonEncoding.gzip z = IsGzip z

  -- The fetched bytes as they are or compressed, the error of the fetch, or that of compression.
  abbrev pub IsEncoding : Result ApiError CachedJson → Type 0
  IsEncoding (err e) =
      (env.fetch ≡ err e)
      ⊎ ((b : Text) × (env.fetch ≡ ok b) × (env.gzip b env.cfg.gzip_level ≡ err e))
  IsEncoding (ok json) = IsEncodedAs json.encoding json.bytes

  -- What process memory keeps under a key of the response is its bytes, or their compressed form.
  abbrev pub IsStored : Text → ℤ → Text → Text → Text → Type 0
  IsStored server event_id suffix key b =
      ((epoch : ℤ) → key ≡ value_key server event_id epoch suffix → env.fetch ≡ ok b)
      × ((epoch : ℤ) → key ≡ gzip_key (value_key server event_id epoch suffix) → IsGzip b)

  -- What a read of Redis says of the response is right.
  abbrev pub IsRightRead : Option L2EncodedRead → Type 0
  IsRightRead (some (L2EncodedRead.gzip z)) = IsGzip z
  IsRightRead (some (L2EncodedRead.identity b)) = env.fetch ≡ ok b
  IsRightRead (some L2EncodedRead.not_found) = env.fetch ≡ err ApiError.not_found
  IsRightRead _ = Unit

module _ (env : Env) (options : CacheOptions) (server : Text) (event_id : ℤ) (suffix : Text)
    (ttl_secs : ℕ) where
  abbrev pub Encodes : Exec (Result ApiError CachedJson) → Type 0
  Encodes = Keeps (Cached (IsStored env server event_id suffix)) (IsEncoding env)

  abbrev pub IsKey : Text → Type 0
  IsKey key = (epoch : ℤ) × (key ≡ value_key server event_id epoch suffix)

  abbrev pub IsOwn : Option CacheWriteContext → Type 0
  IsOwn none = Unit
  IsOwn (some ctx) = IsKey ctx.value_key

  pub value-IsStored :
      (key b : Text) → IsKey key → env.fetch ≡ ok b → IsStored env server event_id suffix key b
  value-IsStored key b (epoch, k) f =
      (λ e q. f, λ e q. absurd (value_key-gzip_key server event_id epoch e suffix (sym k ∙ q)))

  pub gzip-IsStored :
      (key z : Text)
      → IsKey key
      → IsGzip env z
      → IsStored env server event_id suffix (gzip_key key) z
  gzip-IsStored key z (epoch, k) g = (
    λ e q. absurd (value_key-gzip_key server event_id e epoch suffix (sym q ∙ ap gzip_key k)),
    λ e q. g,
  )

  Encodes-keep_gzip :
      (key z : Text) (w : Option Bool)
      → IsKey key
      → IsGzip env z
      → Encodes (keep_gzip env options (gzip_key key) z w)
  Encodes-keep_gzip key z (some true) k g s h = (
    (Keeps-store_l1_value (IsStored env server event_id suffix) env (gzip_key key) z
        (gzip-IsStored key z k g) s h).0,
    g,
  )
  Encodes-keep_gzip key z (some false) k g s h = (h, g)
  Encodes-keep_gzip key z none k g s h = (h, g)

  Encodes-encode_gzip :
      (b : Text) (ctx : Option CacheWriteContext) (r : Result ApiError Text)
      → env.fetch ≡ ok b
      → env.gzip b env.cfg.gzip_level ≡ r
      → IsOwn ctx
      → Encodes (encode_gzip env options ctx r)
  Encodes-encode_gzip b ctx (err e) f g o = λ s h. (h, inr (b, f, g))
  Encodes-encode_gzip b none (ok z) f g o = λ s h. (h, (b, f, g))
  Encodes-encode_gzip b (some ctx) (ok z) f g o = λ s h.
      Encodes-keep_gzip ctx.value_key z
        (env.write_if_clean ctx (gzip_key ctx.value_key) z ctx.ttl_secs) o (b, f, g) _ h

  pub Encodes-encode_response :
      (b : Text) (ctx : Option CacheWriteContext)
      → env.fetch ≡ ok b
      → IsOwn ctx
      → Encodes (encode_response env options b ctx)
  unfolding encode_response
  Encodes-encode_response b ctx f o =
      elim (Bool-cases (ltb (length b) env.cfg.precompress_min_bytes)) [
        | inl small ↦ rw small (λ s h. (h, f))
        | inr large ↦ rw large (Encodes-encode_gzip b ctx (env.gzip b env.cfg.gzip_level) f refl o)
      ]

  Encodes-encode_result :
      (r : Result ApiError Text) → env.fetch ≡ r → Encodes (encode_result env options r)
  Encodes-encode_result (ok b) f = Encodes-encode_response b none f tt
  Encodes-encode_result (err e) f = λ s h. (h, inl f)

  pub Encodes-fetch_encoded : Encodes (fetch_encoded env options)
  Encodes-fetch_encoded s h = Encodes-encode_result env.fetch refl _ h

  Encodes-store_gzip :
      (key z : Text) (c : CachedJsonEncoding)
      → IsKey key
      → IsEncodedAs env c z
      → Keeps
          (Cached (IsStored env server event_id suffix))
          (λ _. Unit {0})
          (store_gzip env options key c z)
  Encodes-store_gzip key z CachedJsonEncoding.gzip k g =
      Keeps-store_l1_value (IsStored env server event_id suffix) env (gzip_key key) z
        (gzip-IsStored key z k g)
  Encodes-store_gzip key z CachedJsonEncoding.identity k g = λ s h. (h, tt)

  Encodes-keep_encoded :
      (key b : Text) (encoded : CachedJson) (w : Option Bool)
      → IsKey key
      → env.fetch ≡ ok b
      → IsEncoding env (ok encoded)
      → Encodes (keep_encoded env options key b encoded w)
  Encodes-keep_encoded key b encoded (some true) k f g = λ s h.
      let stored =
        (Keeps-store_l1_value (IsStored env server event_id suffix) env key b
          (value-IsStored key b k f) s h).0 in
      ((Encodes-store_gzip key encoded.bytes encoded.encoding k g _ stored).0, g)
  Encodes-keep_encoded key b encoded (some false) k f g = λ s h. (h, g)
  Encodes-keep_encoded key b encoded none k f g = λ s h. (h, g)

  Encodes-cache_encoded :
      (ctx : CacheWriteContext) (b : Text) (r : Result ApiError CachedJson)
      → IsKey ctx.value_key
      → env.fetch ≡ ok b
      → IsEncoding env r
      → Encodes (cache_encoded env options ctx b r)
  Encodes-cache_encoded ctx b (err e) k f g = λ s h. (h, g)
  Encodes-cache_encoded ctx b (ok encoded) k f g = λ s h.
      Encodes-keep_encoded ctx.value_key b encoded
        (env.write_if_clean ctx ctx.value_key b ctx.ttl_secs) k f g _ h

  Encodes-encode_and_cache :
      (ctx : Option CacheWriteContext) (b : Text)
      → IsOwn ctx
      → env.fetch ≡ ok b
      → Encodes (encode_and_cache env options ctx b)
  Encodes-encode_and_cache none b o f = Encodes-encode_response b none f tt
  Encodes-encode_and_cache (some ctx) b o f = λ s h.
      let (k, g) = Encodes-encode_response b (some ctx) f o s h in
      Encodes-cache_encoded ctx b _ o f g _ k

  Encodes-after_fetch_encoded :
      (ctx : Option CacheWriteContext) (r : Result ApiError Text)
      → IsOwn ctx
      → env.fetch ≡ r
      → Encodes (after_fetch_encoded env options ctx r)
  Encodes-after_fetch_encoded ctx (ok b) o f =
      elim (Bool-cases (ltb options.max_value_bytes (length b))) [
        | inl large ↦ rw large (Encodes-encode_response b none f tt)
        | inr small ↦ rw small (Encodes-encode_and_cache ctx b o f)
      ]
  Encodes-after_fetch_encoded none (err ApiError.not_found) o f = λ s h. (h, inl f)
  Encodes-after_fetch_encoded (some ctx) (err ApiError.not_found) o f =
      elim (Bool-cases (ltb 0 env.cfg.negative_ttl_secs)) [
        | inl remembered ↦ rw remembered (λ s h. (h, inl f))
        | inr off ↦ rw off (λ s h. (h, inl f))
      ]
  Encodes-after_fetch_encoded ctx (err other) o f = λ s h. (h, inl f)

  pub Encodes-fetch_and_maybe_cache_encoded :
      (ctx : Option CacheWriteContext)
      → IsOwn ctx
      → Encodes (fetch_and_maybe_cache_encoded env options ctx)
  unfolding fetch_and_maybe_cache_encoded
  Encodes-fetch_and_maybe_cache_encoded ctx o s h =
      Encodes-after_fetch_encoded ctx env.fetch o refl _ h
