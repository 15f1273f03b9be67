-- ===== src/Api/Cache/Lookup/Actions.antt =====
-- What the actions that lookups share keep of the values in process memory.
use haruki_event_tracker.Prelude.{ℤ, Bool, Option, none, some, ◌≡◌, refl, list_eq, nat_eq}
use haruki_event_tracker.Prelude.Result.{Result}
use haruki_event_tracker.Prelude.Text.{Text}
use haruki_event_tracker.Api.Error.{ApiError}
use haruki_event_tracker.Api.Cache.Keys.{}
use haruki_event_tracker.Api.Cache.Local.{}
use haruki_event_tracker.Api.Cache.Local.Values.{
  AllValues, get_value-AllValues, get_value-P, store_l1_value-AllValues, get_control-AllValues,
  store_l1_control-AllValues,
}
use haruki_event_tracker.Api.Cache.Redis.{}
use haruki_event_tracker.Api.Cache.Store.{
  SharedFetchResult, CacheOptions, Store, Env, Exec, get_control, get_value, store_l1_control,
  store_l1_value,
}
use haruki_event_tracker.Api.Cache.Store.Hoare.{Keeps}
use haruki_event_tracker.Api.Cache.Lookup.{waited_bytes, with_flight, lookup_with_singleflight}

module _ (P : Text → Text → Type 0) where
  abbrev pub Cached : Store → Type 0
  Cached s = AllValues P s.l1

  module _ (env : Env) where
    pub Keeps-store_l1_value :
        (key bytes : Text)
        → P key bytes
        → Keeps Cached (λ _. Unit {0}) (store_l1_value env key bytes)
    Keeps-store_l1_value key bytes p s h =
        (store_l1_value-AllValues P env.hash env.cfg _ key bytes s.l1 p h, tt)

    pub Keeps-store_l1_control :
        (key : Text) (epoch : ℤ) (dirty : Bool)
        → Keeps Cached (λ _. Unit {0}) (store_l1_control env key epoch dirty)
    Keeps-store_l1_control key epoch dirty s h =
        (store_l1_control-AllValues P env.hash env.cfg _ key epoch dirty s.l1 h, tt)

    pub Keeps-get_value :
        (key : Text)
        → Keeps Cached
            (λ found. (bytes : Text) → found ≡ some bytes → P key bytes)
            (get_value env key)
    Keeps-get_value key s h = (
      get_value-AllValues P env.hash _ key s.l1 h,
      λ bytes e. get_value-P P env.hash _ key bytes s.l1 h e,
    )

    pub Keeps-get_control : (key : Text) → Keeps Cached (λ _. Unit {0}) (get_control env key)
    Keeps-get_control key s h = (get_control-AllValues P env.hash _ key s.l1 h, tt)

  module _ (env : Env) (options : CacheOptions) (Q : Result ApiError Text → Type 0)
      (shared : (flight_key : Text) (r : SharedFetchResult)
        → env.flight flight_key ≡ some (some r)
        → Q (waited_bytes r)) where
    pub Keeps-with_flight :
        (flight_key : Text) (f : Option (Option SharedFetchResult))
        (alone own : Exec (Result ApiError Text))
        → env.flight flight_key ≡ f
        → Keeps Cached Q alone
        → Keeps Cached Q own
        → Keeps Cached Q (with_flight env options f flight_key alone own)
    Keeps-with_flight flight_key none alone own e a o = λ s h. o s h
    Keeps-with_flight flight_key (some none) alone own e a o = a
    Keeps-with_flight flight_key (some (some r)) alone own e a o = λ s h. (h, shared flight_key r e)

    pub Keeps-lookup_with_singleflight :
        (flight_key : Text) (lookup : Exec (Result ApiError Text))
        → Keeps Cached Q lookup
        → Keeps Cached Q (lookup_with_singleflight env options flight_key lookup)
    unfolding lookup_with_singleflight
    Keeps-lookup_with_singleflight flight_key lookup l =
        Keeps-with_flight flight_key (env.flight flight_key) lookup lookup refl l l
