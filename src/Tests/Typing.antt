-- ===== src/Tests/Typing.antt =====
-- A run of a typed lookup.
use haruki_event_tracker.Prelude.{ℕ, pos, [], ◌∷◌, Option, none, some, list_eq, nat_eq}
use haruki_event_tracker.Prelude.Result.{Result, ok}
use haruki_event_tracker.Prelude.Text.{Text}
use haruki_event_tracker.Api.Error.{ApiError}
use haruki_event_tracker.Api.Cache.Keys.{value_key}
use haruki_event_tracker.Api.Cache.Redis.{L2CombinedRead}
use haruki_event_tracker.Api.Cache.Store.{Env}
use haruki_event_tracker.Tests.Lookups.{filled_env}

-- A number is written as one character.
abbrev write_number : ℕ → Result ApiError Text
write_number n = ok (n ∷ [])

abbrev read_number : Text → Option ℕ
read_number [] = none
read_number (n ∷ rest) = some n

-- Redis has the number at the epoch 4.
abbrev number_env : Env
number_env = record filled_env {
  read_combined = λ server event_id suffix.
      some (L2CombinedRead.hit (pos 4) (value_key server event_id (pos 4) suffix) (5 ∷ []));
}
