-- ===== src/Api/Cache/Typed/Roundtrip.antt =====
-- A typed lookup gives the fetched value back.
use haruki_event_tracker.Prelude.{list_eq, nat_eq}
use haruki_event_tracker.Prelude.Result.{Result}
use haruki_event_tracker.Prelude.Text.{Text}
use haruki_event_tracker.Api.Cache.Store.{Store}
