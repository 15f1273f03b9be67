-- ===== src/Api/Cache/Store.antt =====
-- src/api/cache.rs: what one lookup does outside itself. The local cache and the log of the calls
-- are state; what Redis answers, who owns a flight, the fetched response and the clock are fixed
-- by an environment, so that theorems hold for every answer and every failure. The counters of
-- hits and misses are not modelled.
pub mod Hoare
use haruki_event_tracker.Prelude.{
  ℕ, ◌+◌, ℤ, Bool, true, false, List, [], ◌∷◌, Option, none, some, if◌then◌else◌, list_eq, nat_eq,
}
use haruki_event_tracker.Prelude.HashMap.{HashMap}
use haruki_event_tracker.Prelude.Result.{Result, ok, err}
use haruki_event_tracker.Prelude.Text.{Text}
use haruki_event_tracker.Api.Error.{ApiError}
use haruki_event_tracker.Api.Cache.Config.{ApiCacheConfig}
use haruki_event_tracker.Api.Cache.Local
use haruki_event_tracker.Api.Cache.Local.{L1Control, L1Value, L1Cache}
use haruki_event_tracker.Api.Cache.Redis.{L2CombinedRead, L2ValueRead}

pub data CachedJsonEncoding : Type 0 where
  identity gzip : CachedJsonEncoding

pub record CachedJson : Type 0 where
  pub bytes : Text
  pub encoding : CachedJsonEncoding

abbrev pub identity_json : Text → CachedJson
identity_json b = record { bytes = b; encoding = CachedJsonEncoding.identity }

abbrev pub gzip_json : Text → CachedJson
gzip_json b = record { bytes = b; encoding = CachedJsonEncoding.gzip }

pub data SharedFetchResult : Type 0 where
  value : CachedJson → SharedFetchResult
  not_found : SharedFetchResult

pub data L2EncodedRead : Type 0 where
  gzip : Text → L2EncodedRead
  identity : Text → L2EncodedRead
  not_found : L2EncodedRead
  miss : L2EncodedRead

pub record CacheWriteContext : Type 0 where
  pub server : Text
  pub event_id : ℤ
  pub epoch : ℤ
  pub value_key : Text
  pub negative_key : Text
  pub ttl_secs : ℕ

pub record CacheOptions : Type 0 where
  pub max_value_bytes : ℕ
  pub is_batch : Bool
  pub validate_cached_bytes : Option (Text → Bool)

-- The calls of Redis that write, the fetch, and what the owner of a flight publishes.
pub data Call : Type 0 where
  fetched : Call
  write_clean : CacheWriteContext → Text → Text → ℕ → Call
  write_static : Text → Text → ℕ → Call
  publish : Text → Option SharedFetchResult → Call

pub record Store : Type 0 where
  pub l1 : L1Cache
  -- Newest first.
  pub calls : List Call
  -- How often the clock was read.
  pub reads : ℕ

-- What a read of Redis answers is `none` when it fails.
pub record Env : Type 0 where
  pub cfg : ApiCacheConfig
  pub hash : Text → ℕ
  pub clock : ℕ → ℕ
  pub fetch : Result ApiError Text
  pub read_combined : Text → ℤ → Text → Option L2CombinedRead
  pub read_value : Text → Option L2ValueRead
  pub read_encoded : Text → Text → Option L2EncodedRead
  -- By key: whether the script wrote.
  pub write_if_clean : CacheWriteContext → Text → Text → ℕ → Option Bool
  pub write_static : Text → Text → ℕ → Bool
  -- For a waiter of a flight, what its owner publishes; `none` for the owner.
  pub flight : Text → Option (Option SharedFetchResult)
  -- `gzip_bytes`
  pub gzip : Text → ℕ → Result ApiError Text

abbrev pub Exec : Type 0 → Type 0
Exec A = Store → A × Store

infixl 5 ◌>>=◌ ◌>>◌
abbrev pub ◌>>=◌ : {A B : Type 0} → Exec A → (A → Exec B) → Exec B
m >>= f = λ s. let r = m s in f r.0 r.1

abbrev pub ◌>>◌ : {A B : Type 0} → Exec A → Exec B → Exec B
m >> n = m >>= λ _. n

abbrev pub pure : {A : Type 0} → A → Exec A
pure a s = (a, s)

abbrev pub log : Call → Exec (Unit {0})
log c s = (tt, record s { calls = c ∷ s.calls })

-- An operation of the local cache at the instant that the clock shows.
abbrev pub local : {A : Type 0} → Env → (ℕ → L1Cache → A × L1Cache) → Exec A
local env f s =
    let r = f (env.clock s.reads) s.l1 in (r.0, record s { l1 = r.1; reads = s.reads + 1 })

module _ (env : Env) where
  abbrev pub get_control : Text → Exec (Option L1Control)
  get_control key = local env (λ now l1. Local.get_control env.hash now key l1)

  abbrev pub get_value : Text → Exec (Option Text)
  get_value key = local env (λ now l1. Local.get_value env.hash now key l1)

  abbrev pub store_l1_control : Text → ℤ → Bool → Exec (Unit {0})
  store_l1_control key epoch dirty =
      local env (λ now l1. (tt, Local.store_l1_control env.hash env.cfg now key epoch dirty l1))

  abbrev pub store_l1_value : Text → Text → Exec (Unit {0})
  store_l1_value key bytes =
      local env (λ now l1. (tt, Local.store_l1_value env.hash env.cfg now key bytes l1))

  abbrev pub fetch : Exec (Result ApiError Text)
  fetch = log Call.fetched >> pure env.fetch

  abbrev pub write_l2_if_clean : CacheWriteContext → Text → Text → ℕ → Exec (Option Bool)
  write_l2_if_clean ctx key bytes ttl_secs =
      log (Call.write_clean ctx key bytes ttl_secs)
      >> pure (env.write_if_clean ctx key bytes ttl_secs)

  abbrev pub write_l2_static : Text → Text → ℕ → Exec Bool
  write_l2_static key bytes ttl_secs =
      log (Call.write_static key bytes ttl_secs) >> pure (env.write_static key bytes ttl_secs)
