-- ===== src/Api/Cache/Encoded/Transparency.antt =====
-- What callers of an encoded lookup rely on.
use haruki_event_tracker.Prelude.{ℕ, nat_beq, ℤ, some, ◌≡◌, list_eq, nat_eq, Bool-cases, inl, inr}
use haruki_event_tracker.Prelude.Result.{Result}
use haruki_event_tracker.Prelude.Text.{Text}
use haruki_event_tracker.Api.Error.{ApiError}
use haruki_event_tracker.Api.Cache.Keys.{control_cache_key, value_key, gzip_key}
use haruki_event_tracker.Api.Cache.Keys.Gzip.{}
use haruki_event_tracker.Api.Cache.Local.{}
use haruki_event_tracker.Api.Cache.Redis.{}
use haruki_event_tracker.Api.Cache.Store.{SharedFetchResult, CacheOptions, Env}
use haruki_event_tracker.Api.Cache.Store.Hoare.{}
use haruki_event_tracker.Api.Cache.Lookup.{}
use haruki_event_tracker.Api.Cache.Lookup.Actions.{Keeps-get_control}
use haruki_event_tracker.Api.Cache.Lookup.Transparency.{combined_answer, IsKeyed}
use haruki_event_tracker.Api.Cache.Encoded.{
  waited_json, get_or_fetch_precompressed_bytes_with_options,
}
use haruki_event_tracker.Api.Cache.Local.Values.{AllValues}
use haruki_event_tracker.Api.Cache.Store.{Store}
use haruki_event_tracker.Api.Cache.Encoded.Decoding.{
  IsEncoding, IsStored, IsRightRead, Encodes-fetch_encoded,
}
use haruki_event_tracker.Api.Cache.Encoded.Sources.{Encodes-look_encoded_with_control}

-- When process memory, Redis and the flights give for this response nothing but what the fetch
-- gives, compressed or not, an encoded lookup returns the fetched bytes as they are or compressed,
-- or the error of the fetch or of compression, whichever calls of Redis fail; and process memory
-- still gives nothing else.
pub get_or_fetch_precompressed_transparent :
    (env : Env) (options : CacheOptions) (server : Text) (event_id : ℤ) (suffix : Text)
    (ttl_secs : ℕ) (s : Store)
    → AllValues (IsStored env server event_id suffix) s.l1
    → ((epoch : ℤ)
        → IsRightRead env (
            env.read_encoded
              (value_key server event_id epoch suffix)
              (gzip_key (value_key server event_id epoch suffix))))
    → IsKeyed server event_id suffix (env.read_combined server event_id suffix)
    → ((r : Result ApiError Text)
        → combined_answer (env.read_combined server event_id suffix) ≡ some r
        → r ≡ env.fetch)
    → ((flight_key : Text) (r : SharedFetchResult)
        → env.flight flight_key ≡ some (some r)
        → IsEncoding env (waited_json r))
    → IsEncoding env
        (get_or_fetch_precompressed_bytes_with_options env options server event_id suffix ttl_secs
          s).0
      × AllValues
          (IsStored env server event_id suffix)
          (get_or_fetch_precompressed_bytes_with_options env options server event_id suffix ttl_secs
            s).1.l1
unfolding get_or_fetch_precompressed_bytes_with_options
get_or_fetch_precompressed_transparent env options server event_id suffix ttl_secs s h value keyed
      combined shared =
    elim (Bool-cases (nat_beq ttl_secs 0)) [
      | inl off ↦
          let (kept, result) =
            Encodes-fetch_encoded env options server event_id suffix ttl_secs s h in
          rw off (result, kept)
      | inr on ↦
          let k =
            (Keeps-get_control (IsStored env server event_id suffix) env
              (control_cache_key server event_id) s h).0 in
          let (kept, result) =
            Encodes-look_encoded_with_control env options server event_id suffix ttl_secs value
              keyed combined shared _ _ k in
          rw on (result, kept)
    ]
