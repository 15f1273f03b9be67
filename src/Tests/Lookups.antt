-- ===== src/Tests/Lookups.antt =====
-- Runs of the local cache, the lookups and the flights.
use haruki_event_tracker.Prelude.{
  ℤ, ◌∙◌, list_beq_iff, ap, ltb, pos, true, false, [], ◌∷◌, length, none, some, ◌≡◌, refl, arith,
  list_eq, nat_eq,
}
use haruki_event_tracker.Prelude.HashMap
use haruki_event_tracker.Prelude.HashMap.{HashMap}
use haruki_event_tracker.Prelude.Result.{ok}
use haruki_event_tracker.Prelude.Text.{Text, codes, to_string}
use haruki_event_tracker.Api.Error.{}
use haruki_event_tracker.Api.Cache.Config.{ApiCacheConfig}
use haruki_event_tracker.Api.Cache.Keys.{static_value_key, control_cache_key, value_key}
use haruki_event_tracker.Api.Cache.Local
use haruki_event_tracker.Api.Cache.Local.Sorting.{}
use haruki_event_tracker.Api.Cache.Local.Values.{AllValues}
use haruki_event_tracker.Api.Cache.Redis.{L2ValueRead, L2CombinedRead}
use haruki_event_tracker.Api.Cache.Store.{L2EncodedRead, CacheOptions, Store, Env, get_control}
use haruki_event_tracker.Api.Cache.Lookup.{cached_bytes_are_valid, get_or_fetch_bytes_with_options}
use haruki_event_tracker.Api.Cache.Lookup.Transparency.{get_or_fetch_bytes_valid}
use haruki_event_tracker.Api.Cache.Lookup.Static.{
  get_or_fetch_static_bytes, get_or_fetch_static_bytes_transparent,
}
use haruki_event_tracker.Api.Cache.Encoded.{get_or_fetch_precompressed_bytes_with_options}
use haruki_event_tracker.Api.Cache.Encoded.Decoding.{IsEncoding, IsStored}
use haruki_event_tracker.Api.Cache.Encoded.Transparency.{get_or_fetch_precompressed_transparent}
use haruki_event_tracker.Api.Cache.SingleFlight.{
  Guarded, no_flights, Flight, begin, begin_new, wait_step, entering, checking, sleeping, Reach,
  here, next, begins, waits,
}
use haruki_event_tracker.Api.Cache.SingleFlight.Invariant.{begin_waits}
use haruki_event_tracker.Api.Cache.SingleFlight.Waking.{Wakes, waiting_ends}

abbrev pub settings : ApiCacheConfig
settings = record {
  enabled = true;
  redis_url = codes "";
  pool_size = 2;
  command_timeout_ms = 100;
  local_control_ttl_ms = 100;
  local_value_ttl_ms = 250;
  local_max_entries = 4096;
  precompress_gzip_enabled = true;
  precompress_min_bytes = 1;
  gzip_level = 1;
  default_ttl_secs = 2;
  latest_rank_ttl_secs = 1;
  trace_rank_ttl_secs = 60;
  batch_trace_rank_ttl_secs = 60;
  user_data_ttl_secs = 30;
  replay_overview_ttl_secs = 3600;
  negative_ttl_secs = 1;
  max_value_bytes = 100;
  batch_max_value_bytes = 100;
}

-- Redis is empty, every write succeeds, and the lookup owns its flight.
abbrev pub fresh_env : Env
fresh_env = record {
  cfg = settings;
  hash = λ k. 0;
  clock = λ n. n;
  fetch = ok (codes "v");
  read_combined = λ server event_id suffix. none;
  read_value = λ key. some L2ValueRead.miss;
  read_encoded = λ key gzip. some L2EncodedRead.miss;
  write_if_clean = λ ctx key bytes ttl_secs. some true;
  write_static = λ key bytes ttl_secs. true;
  flight = λ key. none;
  gzip = λ bytes level. ok (codes "z");
}

abbrev options : CacheOptions
options = record {
  max_value_bytes = 100;
  is_batch = false;
  validate_cached_bytes = some (λ b. ltb 0 (length b));
}

abbrev pub empty_store : Store
empty_store = record {
  l1 = record { max_entries = 4096; max_per_shard = 256; controls = λ i. []; values = λ i. [] };
  calls = [];
  reads = 0;
}

-- At the epoch 4 Redis has the response, at others and without the epoch bytes that are not valid;
-- process memory has an old response for the epoch 3.
abbrev pub IsFour : ℤ → Type 0
IsFour epoch = epoch ≡ pos 4

abbrev pub key_at : ℤ → Text
key_at epoch = value_key (codes "jp") (pos 7) epoch (codes "s")

abbrev pub filled_env : Env
filled_env = record fresh_env {
  read_combined = λ server event_id suffix.
      some (L2CombinedRead.hit (pos 4) (value_key server event_id (pos 4) suffix) (codes "v"));
  read_value = λ key. some (L2ValueRead.hit []);
}

abbrev pub old_store : Store
old_store = record empty_store {
  l1 = record empty_store.l1 {
    values = λ i. (key_at (pos 3), record { bytes = codes "u"; expires_at = 50 }) ∷ [];
  };
}

pub no_control :
    (get_control filled_env (control_cache_key (codes "jp") (pos 7)) old_store).0 ≡ none
unfolding Local.get_control HashMap.get
no_control = refl

-- The key of the epoch 3 is none of the epoch 4.
pub other_epoch : (epoch : ℤ) → IsFour epoch → key_at (pos 3) ≡ key_at epoch → ⊥
unfolding value_key to_string
other_epoch epoch e k =
    let same = (list_beq_iff ⦃e = nat_eq⦄ (key_at (pos 3)) (key_at (pos 4))).1 (k ∙ ap key_at e) in
    absurd (ground (arith, same))

-- The fetched text is valid, so every one that is served is.
fetched_is_valid : (b : Text) → fresh_env.fetch ≡ ok b → cached_bytes_are_valid options b ≡ true
unfolding cached_bytes_are_valid
fetched_is_valid b e = ground (arith, e)

get_or_fetch_bytes_valid_example :
    ((b : Text)
      → (get_or_fetch_bytes_with_options fresh_env options
          (codes "jp")
          (pos 7)
          (codes "s")
          60
          empty_store).0
        ≡ ok b
      → cached_bytes_are_valid options b ≡ true)
    × AllValues
        (λ key b. cached_bytes_are_valid options b ≡ true)
        (get_or_fetch_bytes_with_options fresh_env options
          (codes "jp")
          (pos 7)
          (codes "s")
          60
          empty_store).1.l1
get_or_fetch_bytes_valid_example =
    get_or_fetch_bytes_valid fresh_env options (codes "jp") (pos 7) (codes "s") 60 empty_store
      (λ i. tt) fetched_is_valid tt (λ k r b e. absurd (ground (arith, e)))

get_or_fetch_static_bytes_transparent_example :
    ((get_or_fetch_static_bytes fresh_env options (codes "jp") (pos 7) (codes "s") 60 empty_store).0
      ≡ ok (codes "v"))
    × AllValues
        (λ k b. k ≡ static_value_key (codes "jp") (pos 7) (codes "s") → fresh_env.fetch ≡ ok b)
        (get_or_fetch_static_bytes fresh_env options
          (codes "jp")
          (pos 7)
          (codes "s")
          60
          empty_store).1.l1
get_or_fetch_static_bytes_transparent_example =
    get_or_fetch_static_bytes_transparent fresh_env options (codes "jp") (pos 7) (codes "s") 60
      empty_store (λ i. tt) (λ b e. absurd (ground (arith, e)))
      (λ k r e. absurd (ground (arith, e)))

get_or_fetch_precompressed_transparent_example :
    IsEncoding fresh_env
      (get_or_fetch_precompressed_bytes_with_options fresh_env options
        (codes "jp")
        (pos 7)
        (codes "s")
        60
        empty_store).0
    × AllValues
        (IsStored fresh_env (codes "jp") (pos 7) (codes "s"))
        (get_or_fetch_precompressed_bytes_with_options fresh_env options
          (codes "jp")
          (pos 7)
          (codes "s")
          60
          empty_store).1.l1
get_or_fetch_precompressed_transparent_example =
    get_or_fetch_precompressed_transparent fresh_env options (codes "jp") (pos 7) (codes "s") 60
      empty_store (λ i. tt) (λ epoch. tt) tt (λ r e. absurd (ground (arith, e)))
      (λ k r e. absurd (ground (arith, e)))

-- One flight under way, and a second lookup of its key that waits and has gone to sleep.
abbrev one_flight : Guarded
one_flight = record {
  flights = (begin (codes "k") no_flights.flights).1;
  guards = (codes "k", 0) ∷ [];
  unnotified = [];
  waiters = sleeping 0 0 ∷ [];
}

one_flight-Reach : Reach one_flight
unfolding begin begin_new wait_step HashMap.get
one_flight-Reach =
    next
      (next (next (next here (begins (codes "k"))) (begins (codes "k")))
        (waits [] [] (entering 0) refl))
      (waits [] [] (checking 0 0) refl)

one_guard : HashMap.get (codes "k") one_flight.guards ≡ some 0
unfolding HashMap.get
one_guard = refl

begin_waits_example : begin (codes "k") one_flight.flights ≡ (Flight.waiter 0, one_flight.flights)
begin_waits_example = begin_waits (codes "k") 0 one_flight-Reach one_guard

waiting_ends_example : Wakes one_flight 0 0
waiting_ends_example = waiting_ends [] [] 0 0 one_flight-Reach refl
