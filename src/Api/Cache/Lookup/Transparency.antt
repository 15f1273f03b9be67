-- ===== src/Api/Cache/Lookup/Transparency.antt =====
-- What callers of a lookup rely on: that the cache does not change the answer, and that what it
-- serves passes the caller's validator.
use haruki_event_tracker.Prelude.{
  ℕ, ℤ, true, Option, none, some, ◌≡◌, subst, arith, list_eq, nat_eq,
}
use haruki_event_tracker.Prelude.Result.{Result, ok, err}
use haruki_event_tracker.Prelude.Text.{Text}
use haruki_event_tracker.Api.Error.{ApiError}
use haruki_event_tracker.Api.Cache.Keys.{control_cache_key, value_key}
use haruki_event_tracker.Api.Cache.Local.{L1Control}
use haruki_event_tracker.Api.Cache.Local.Values.{AllValues}
use haruki_event_tracker.Api.Cache.Redis.{L2CombinedRead, L2ValueRead}
use haruki_event_tracker.Api.Cache.Store.{SharedFetchResult, CacheOptions, Store, Env, get_control}
use haruki_event_tracker.Api.Cache.Lookup.{
  cached_bytes_are_valid, waited_bytes, get_or_fetch_bytes_with_options,
}
use haruki_event_tracker.Api.Cache.Lookup.Sources.{IsUsable, get_or_fetch_bytes_sources}

-- What a read of Redis says of the response, if anything.
abbrev pub combined_answer : Option L2CombinedRead → Option (Result ApiError Text)
combined_answer (some (L2CombinedRead.hit epoch key b)) = some (ok b)
combined_answer (some (L2CombinedRead.not_found epoch)) = some (err ApiError.not_found)
combined_answer _ = none

-- The key that comes with a read is that of its epoch.
abbrev pub IsKeyed : Text → ℤ → Text → Option L2CombinedRead → Type 0
IsKeyed server event_id suffix (some (L2CombinedRead.hit epoch key b)) =
    key ≡ value_key server event_id epoch suffix
IsKeyed server event_id suffix (some (L2CombinedRead.miss epoch key)) =
    key ≡ value_key server event_id epoch suffix
IsKeyed server event_id suffix _ = Unit

module _ (Clean : ℤ → Type 0) (server : Text) (event_id : ℤ) (suffix : Text) where
  -- The value kept under a key of this response and of a clean epoch is this one.
  abbrev pub IsResponse : Result ApiError Text → Text → Text → Type 0
  IsResponse r key b =
      (epoch : ℤ) → Clean epoch → key ≡ value_key server event_id epoch suffix → r ≡ ok b

  module _ (env : Env) (options : CacheOptions) where
    -- A read of the value alone says nothing but what the fetch gives, or bytes that are not valid.
    abbrev pub IsValueRead : Option L2ValueRead → Type 0
    IsValueRead (some (L2ValueRead.hit b)) =
        cached_bytes_are_valid options b ≡ true → env.fetch ≡ ok b
    IsValueRead (some L2ValueRead.not_found) = env.fetch ≡ err ApiError.not_found
    IsValueRead _ = Unit

    -- So does a read with the epoch, and that epoch is clean; a read of the mark says nothing.
    abbrev pub IsCombinedRead : Option L2CombinedRead → Type 0
    IsCombinedRead (some (L2CombinedRead.hit epoch key b)) =
        Clean epoch × (cached_bytes_are_valid options b ≡ true → env.fetch ≡ ok b)
    IsCombinedRead (some (L2CombinedRead.not_found epoch)) = env.fetch ≡ err ApiError.not_found
    IsCombinedRead _ = Unit

any-IsUsable : (c : Option L1Control) → IsUsable (λ _. Unit {0}) c
any-IsUsable none = tt
any-IsUsable (some c) = λ d. tt

-- With a validator: when the fetch and the flights give only valid bytes and process memory has no
-- others, a lookup returns only valid bytes, whatever bytes Redis holds, and process memory gets no
-- others.
pub get_or_fetch_bytes_valid :
    (env : Env) (options : CacheOptions) (server : Text) (event_id : ℤ) (suffix : Text)
    (ttl_secs : ℕ) (s : Store)
    → AllValues (λ key b. cached_bytes_are_valid options b ≡ true) s.l1
    → ((b : Text) → env.fetch ≡ ok b → cached_bytes_are_valid options b ≡ true)
    → IsKeyed server event_id suffix (env.read_combined server event_id suffix)
    → ((flight_key : Text) (r : SharedFetchResult) (b : Text)
        → env.flight flight_key ≡ some (some r)
        → waited_bytes r ≡ ok b
        → cached_bytes_are_valid options b ≡ true)
    → ((b : Text)
        → (get_or_fetch_bytes_with_options env options server event_id suffix ttl_secs s).0 ≡ ok b
        → cached_bytes_are_valid options b ≡ true)
      × AllValues
          (λ key b. cached_bytes_are_valid options b ≡ true)
          (get_or_fetch_bytes_with_options env options server event_id suffix ttl_secs s).1.l1
get_or_fetch_bytes_valid env options server event_id suffix ttl_secs s h fetched keyed shared =
    let (kept, result) =
      get_or_fetch_bytes_sources (λ key b. cached_bytes_are_valid options b ≡ true) env options
        server event_id suffix
        (λ r. (b : Text) → r ≡ ok b → cached_bytes_are_valid options b ≡ true) (λ _. Unit {0})
        ttl_secs
        (record {
          fetched = fetched;
          stored = λ epoch b e. fetched b e;
          served = λ epoch b u p c e.
              subst (λ x. cached_bytes_are_valid options x ≡ true) (ground arith) p;
          value_hit = λ epoch b u e valid. valid;
          value_not_found = λ epoch u e b q. absurd (ground arith);
          combined_hit =
              λ epoch key b e. (subst (IsKeyed server event_id suffix) e keyed, tt, λ valid. valid);
          combined_not_found = λ epoch e b q. absurd (ground arith);
          combined_miss = λ epoch key e. subst (IsKeyed server event_id suffix) e keyed;
          shared = λ flight_key r e b q. shared flight_key r b e q;
        })
        s (any-IsUsable (get_control env (control_cache_key server event_id) s).0) h in
    (result, kept)
