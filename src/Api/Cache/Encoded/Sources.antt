-- ===== src/Api/Cache/Encoded/Sources.antt =====
-- The sources of an encoded lookup: process memory, Redis and the flights.
use haruki_event_tracker.Prelude.{
  ℕ, ℤ, negsuc, Bool, true, false, Option, none, some, ◌≡◌, refl, sym, ap, subst, list_eq, nat_eq,
  Bool-cases, inl, inr,
}
use haruki_event_tracker.Prelude.Result.{Result, ok, err}
use haruki_event_tracker.Prelude.Text.{Text}
use haruki_event_tracker.Api.Error.{ApiError}
use haruki_event_tracker.Api.Cache.Keys.{
  control_cache_key, value_key, gzip_key, gzip_flight_key, gzip_lookup_flight_key,
}
use haruki_event_tracker.Api.Cache.Keys.Gzip.{}
use haruki_event_tracker.Api.Cache.Local.{L1Control}
use haruki_event_tracker.Api.Cache.Redis.{L2CombinedRead}
use haruki_event_tracker.Api.Cache.Store.{
  CachedJson, SharedFetchResult, L2EncodedRead, CacheWriteContext, CacheOptions, Env, Exec,
  store_l1_control, store_l1_value,
}
use haruki_event_tracker.Api.Cache.Store.Hoare.{Keeps}
use haruki_event_tracker.Api.Cache.Lookup.{write_context}
use haruki_event_tracker.Api.Cache.Lookup.Actions.{
  Cached, Keeps-store_l1_value, Keeps-store_l1_control, Keeps-get_value,
}
use haruki_event_tracker.Api.Cache.Lookup.Transparency.{combined_answer, IsKeyed}
use haruki_event_tracker.Api.Cache.Encoded.{
  waited_json, fetch_encoded, fetch_and_maybe_cache_encoded, with_encoded_flight,
  lookup_encoded_with_singleflight, fetch_encoded_with_singleflight, look_encoded,
  look_encoded_combined, look_encoded_beyond, look_gzip_beyond, look_encoded_with_control,
}
use haruki_event_tracker.Api.Cache.Local.Values.{}
use haruki_event_tracker.Api.Cache.Store.{}
use haruki_event_tracker.Api.Cache.Encoded.Decoding.{
  IsEncoding, IsStored, IsRightRead, Encodes, value-IsStored, gzip-IsStored, Encodes-fetch_encoded,
  Encodes-encode_response, Encodes-fetch_and_maybe_cache_encoded,
}

module _ (env : Env) (options : CacheOptions) (server : Text) (event_id : ℤ) (suffix : Text)
    (ttl_secs : ℕ)
    (value : (epoch : ℤ)
      → IsRightRead env (
          env.read_encoded
            (value_key server event_id epoch suffix)
            (gzip_key (value_key server event_id epoch suffix))))
    (keyed : IsKeyed server event_id suffix (env.read_combined server event_id suffix))
    (combined : (r : Result ApiError Text)
      → combined_answer (env.read_combined server event_id suffix) ≡ some r
      → r ≡ env.fetch)
    (shared : (flight_key : Text) (r : SharedFetchResult)
      → env.flight flight_key ≡ some (some r)
      → IsEncoding env (waited_json r)) where
  abbrev EncodesHere : Exec (Result ApiError CachedJson) → Type 0
  EncodesHere = Encodes env options server event_id suffix ttl_secs

  abbrev store_here :
      (key b : Text)
      → IsStored env server event_id suffix key b
      → Keeps
          (Cached (IsStored env server event_id suffix))
          (λ _. Unit {0})
          (store_l1_value env key b)
  store_here = Keeps-store_l1_value (IsStored env server event_id suffix) env

  abbrev control_here :
      (epoch : ℤ) (dirty : Bool)
      → Keeps
          (Cached (IsStored env server event_id suffix))
          (λ _. Unit {0})
          (store_l1_control env (control_cache_key server event_id) epoch dirty)
  control_here =
      Keeps-store_l1_control (IsStored env server event_id suffix) env
        (control_cache_key server event_id)

  abbrev context_here : ℤ → Text → Option CacheWriteContext
  context_here epoch key = some (write_context server event_id epoch suffix ttl_secs key)

  Encodes-with_encoded_flight :
      (flight_key : Text) (f : Option (Option SharedFetchResult))
      (alone own : Exec (Result ApiError CachedJson))
      → env.flight flight_key ≡ f
      → EncodesHere alone
      → EncodesHere own
      → EncodesHere (with_encoded_flight env options f flight_key alone own)
  Encodes-with_encoded_flight flight_key none alone own e a o = λ s h. o s h
  Encodes-with_encoded_flight flight_key (some none) alone own e a o = a
  Encodes-with_encoded_flight flight_key (some (some r)) alone own e a o =
      λ s h. (h, shared flight_key r e)

  Encodes-lookup_encoded_with_singleflight :
      (flight_key : Text) (lookup : Exec (Result ApiError CachedJson))
      → EncodesHere lookup
      → EncodesHere (lookup_encoded_with_singleflight env options flight_key lookup)
  unfolding lookup_encoded_with_singleflight
  Encodes-lookup_encoded_with_singleflight flight_key lookup l =
      Encodes-with_encoded_flight flight_key (env.flight flight_key) lookup lookup refl l l

  Encodes-fetch_encoded_with_singleflight :
      (flight_key : Text)
      → EncodesHere (fetch_encoded_with_singleflight env options flight_key none)
  unfolding fetch_encoded_with_singleflight
  Encodes-fetch_encoded_with_singleflight flight_key =
      Encodes-with_encoded_flight flight_key (env.flight flight_key) (fetch_encoded env options)
        (fetch_and_maybe_cache_encoded env options none) refl
        (Encodes-fetch_encoded env options server event_id suffix ttl_secs)
        (Encodes-fetch_and_maybe_cache_encoded env options server event_id suffix ttl_secs none tt)

  Encodes-look_encoded :
      (epoch : ℤ) (key : Text) (r : Option L2EncodedRead)
      → key ≡ value_key server event_id epoch suffix
      → IsRightRead env r
      → EncodesHere
          (look_encoded env options server event_id suffix ttl_secs epoch key (gzip_key key) r)
  Encodes-look_encoded epoch key none k p =
      Encodes-fetch_encoded env options server event_id suffix ttl_secs
  Encodes-look_encoded epoch key (some (L2EncodedRead.gzip z)) k p = λ s h. (
    (store_here (gzip_key key) z
        (gzip-IsStored env options server event_id suffix ttl_secs key z (epoch, k) p) s h).0,
    p,
  )
  Encodes-look_encoded epoch key (some (L2EncodedRead.identity b)) k p = λ s h.
      Encodes-encode_response env options server event_id suffix ttl_secs b (context_here epoch key)
        p (epoch, k) _
        (store_here key b
          (value-IsStored env options server event_id suffix ttl_secs key b (epoch, k) p) s h).0
  Encodes-look_encoded epoch key (some L2EncodedRead.not_found) k p = λ s h. (h, inl p)
  Encodes-look_encoded epoch key (some L2EncodedRead.miss) k p =
      Encodes-fetch_and_maybe_cache_encoded env options server event_id suffix ttl_secs
        (context_here epoch key) (epoch, k)

  Encodes-look_encoded_combined :
      (r : Option L2CombinedRead)
      → env.read_combined server event_id suffix ≡ r
      → EncodesHere (look_encoded_combined env options server event_id suffix ttl_secs r)
  Encodes-look_encoded_combined none e =
      Encodes-fetch_encoded env options server event_id suffix ttl_secs
  Encodes-look_encoded_combined (some (L2CombinedRead.dirty epoch)) e = λ s h.
      Encodes-fetch_encoded_with_singleflight (gzip_flight_key server event_id epoch suffix) _
        (control_here epoch true s h).0
  Encodes-look_encoded_combined (some (L2CombinedRead.hit epoch key b)) e = λ s h.
      let k = subst (IsKeyed server event_id suffix) e keyed in
      let f = sym (combined (ok b) (ap combined_answer e)) in
      Encodes-encode_response env options server event_id suffix ttl_secs b (context_here epoch key)
        f (epoch, k) _
        (store_here key b
          (value-IsStored env options server event_id suffix ttl_secs key b (epoch, k) f)
          (store_l1_control env (control_cache_key server event_id) epoch false s).1
          (control_here epoch false s h).0).0
  Encodes-look_encoded_combined (some (L2CombinedRead.not_found epoch)) e = λ s h. (
    (control_here epoch false s h).0,
    inl (sym (combined (err ApiError.not_found) (ap combined_answer e))),
  )
  Encodes-look_encoded_combined (some (L2CombinedRead.miss epoch key)) e = λ s h.
      Encodes-fetch_and_maybe_cache_encoded env options server event_id suffix ttl_secs
        (context_here epoch key) (epoch, subst (IsKeyed server event_id suffix) e keyed) _
        (control_here epoch false s h).0

  Encodes-look_encoded_beyond :
      (epoch : ℤ) (found : Option Text)
      → ((b : Text)
          → found ≡ some b
          → IsStored env server event_id suffix (value_key server event_id epoch suffix) b)
      → EncodesHere (
          look_encoded_beyond env options server event_id suffix ttl_secs epoch
            (value_key server event_id epoch suffix)
            found)
  Encodes-look_encoded_beyond epoch (some b) p =
      Encodes-encode_response env options server event_id suffix ttl_secs b (context_here epoch _)
        ((p b refl).0 epoch refl) (epoch, refl)
  Encodes-look_encoded_beyond epoch none p =
      Encodes-lookup_encoded_with_singleflight (gzip_lookup_flight_key server event_id epoch suffix)
        _ (Encodes-look_encoded epoch (value_key server event_id epoch suffix) _ refl (value epoch))

  Encodes-look_gzip_beyond :
      (epoch : ℤ) (found : Option Text)
      → ((z : Text)
          → found ≡ some z
          → IsStored env server event_id suffix
              (gzip_key (value_key server event_id epoch suffix))
              z)
      → EncodesHere (
          look_gzip_beyond env options server event_id suffix ttl_secs epoch
            (value_key server event_id epoch suffix)
            found)
  Encodes-look_gzip_beyond epoch (some z) p = λ s h. (h, (p z refl).1 epoch refl)
  Encodes-look_gzip_beyond epoch none p = λ s h.
      let (k, q) =
        Keeps-get_value (IsStored env server event_id suffix) env
          (value_key server event_id epoch suffix) s h in
      Encodes-look_encoded_beyond epoch _ q _ k

  pub Encodes-look_encoded_with_control :
      (c : Option L1Control)
      → EncodesHere (look_encoded_with_control env options server event_id suffix ttl_secs c)
  Encodes-look_encoded_with_control (some c) = elim (Bool-cases c.dirty) [
    | inl d ↦
        rw d
          (Encodes-fetch_encoded_with_singleflight (gzip_flight_key server event_id c.epoch suffix))
    | inr d ↦ rw d (λ s h.
        let (k, q) =
          Keeps-get_value (IsStored env server event_id suffix) env
            (gzip_key (value_key server event_id c.epoch suffix)) s h in
        Encodes-look_gzip_beyond c.epoch _ q _ k)
  ]
  Encodes-look_encoded_with_control none =
      Encodes-lookup_encoded_with_singleflight
        (gzip_lookup_flight_key server event_id (negsuc 0) suffix) _
        (Encodes-look_encoded_combined (env.read_combined server event_id suffix) refl)
