-- ===== src/Tracker/Parser.antt =====
-- src/tracker/parser.rs: the status of the current event from the master data and the clock, and
-- the cache of parsed documents. Times are milliseconds; the clock is an argument.
pub mod Windows
pub mod Current
pub mod Remain
pub mod Cached
use haruki_event_tracker.Prelude.{
  ℕ, zero, suc, ◌+◌, ◌-◌, ◌*◌, ◌/◌, ◌%◌, ℤ, pos, negsuc, ◌+ℤ◌, ◌-ℤ◌, ltb_ℤ, leb_ℤ, beq_ℤ, Bool,
  true, false, not, ◌&&◌, List, [], ◌∷◌, ◌++◌, Option, none, some, if◌then◌else◌, ltb, int_eq,
}
use haruki_event_tracker.Prelude.HashMap
use haruki_event_tracker.Prelude.HashMap.{HashMap}
use haruki_event_tracker.Prelude.Result.{Result, ok, err, ◌>>=◌}
use haruki_event_tracker.Prelude.Text.{Text, codes, decimal, to_string}
use haruki_event_tracker.Model.Enums.{
  SekaiServerRegion, jp, en, tw, kr, cn, SekaiEventStatus, not_started, ongoing, aggregating, ended,
  SekaiEventType, world_bloom, event_type_beq, SekaiWorldBloomType, finale, bloom_type_beq,
}
use haruki_event_tracker.Model.Event.{Event, EventStatus, WorldBloom, WorldBloomChapterStatus}

-- The ladder of `get_world_bloom_character_statuses`.
unfoldable pub chapter_phase : ℤ → WorldBloom → SekaiEventStatus
chapter_phase now chapter =
    if leb_ℤ chapter.chapter_end_at now
    then ended
    else if ltb_ℤ chapter.aggregate_at now && ltb_ℤ now chapter.chapter_end_at
    then aggregating
    else if ltb_ℤ chapter.chapter_start_at now && ltb_ℤ now chapter.aggregate_at
    then ongoing
    else not_started

-- The chapters of the event that are not the finale, by character; a later chapter of a character
-- overwrites an earlier one.
pub character_statuses :
    SekaiServerRegion
    → ℤ
    → ℤ
    → List WorldBloom
    → HashMap ℤ WorldBloomChapterStatus
    → HashMap ℤ WorldBloomChapterStatus
unfolding chapter_phase
character_statuses server event_id now [] out = out
character_statuses server event_id now (chapter ∷ chapters) out =
    character_statuses server event_id now chapters (
      if not (beq_ℤ chapter.event_id event_id)
      then out
      else if bloom_type_beq chapter.world_bloom_chapter_type finale
      then out
      else HashMap.insert chapter.game_character_id
          (record {
            server = server;
            event_id = event_id;
            character_id = chapter.game_character_id;
            chapter_status = chapter_phase now chapter;
          })
          out)

module _ {E : Type 0} where
  unfoldable pub get_world_bloom_character_statuses :
      SekaiServerRegion
      → Result E (List WorldBloom)
      → ℤ
      → ℤ
      → Result E (HashMap ℤ WorldBloomChapterStatus)
  unfolding character_statuses
  get_world_bloom_character_statuses server load_world_bloom_chapter_data event_id now = do
    chapters ← load_world_bloom_chapter_data
    ok (character_statuses server event_id now chapters [])

-- The window in which an event is current.
abbrev pub is_active : ℤ → Event → Bool
is_active now event = ltb_ℤ event.start_at now && ltb_ℤ now event.closed_at

-- The status of an event whose window covers the clock.
unfoldable pub event_phase : ℤ → Event → SekaiEventStatus
unfolding ◌+ℤ◌
event_phase now event =
    if ltb_ℤ event.start_at now && ltb_ℤ now event.aggregate_at
    then ongoing
    else if ltb_ℤ event.aggregate_at now && ltb_ℤ now (event.aggregate_at +ℤ pos 600000)
    then aggregating
    else ended

-- `a / k` on `i64` rounds towards zero.
abbrev div_trunc : ℤ → ℕ → ℤ
div_trunc (pos n) k = pos (n / k)
div_trunc (negsuc n) k = pos 0 -ℤ pos (suc n / k)

pub record TimeUnit : Type 0 where
  pub second : Text
  pub minute : Text
  pub hour : Text
  pub day : Text

abbrev pub time_units : SekaiServerRegion → TimeUnit
time_units jp = record {
  second = codes "秒";
  minute = codes "分";
  hour = codes "小时";
  day = codes "天";
}
time_units cn = record {
  second = codes "秒";
  minute = codes "分";
  hour = codes "小时";
  day = codes "天";
}
time_units tw = record {
  second = codes "秒";
  minute = codes "分";
  hour = codes "小時";
  day = codes "天";
}
time_units en = record { second = codes "s"; minute = codes "m"; hour = codes "h"; day = codes "d" }
time_units kr = record {
  second = codes "초";
  minute = codes "분";
  hour = codes "시간";
  day = codes "일";
}

-- `event_time_remain` on a whole number of seconds, with fuel; `none` when the fuel runs out. The
-- source takes an `f64`, which its caller converts from an `i64` number of seconds.
unfoldable pub remain_fuel : ℕ → ℤ → Bool → TimeUnit → Option Text
remain_fuel zero remain show_seconds t = none
remain_fuel (suc f) (negsuc n) show_seconds t =
    some (if show_seconds then to_string (negsuc n) ++ t.second else codes "0" ++ t.minute)
remain_fuel (suc f) (pos n) show_seconds t =
    let rest = remain_fuel f (pos (n - 86400 * (n / 86400))) show_seconds t in
    if ltb n 60
    then some (if show_seconds then decimal n ++ t.second else codes "0" ++ t.minute)
    else if ltb n 3600
    then some (
        if show_seconds
        then decimal (n / 60) ++ t.minute ++ decimal (n % 60) ++ t.second
        else decimal (n / 60) ++ t.minute)
    else if ltb n 86400
    then (let rem = n - 3600 * (n / 3600) in
        some (
          if show_seconds
          then decimal (n / 3600)
            ++ t.hour
            ++ decimal (rem / 60)
            ++ t.minute
            ++ decimal (rem % 60)
            ++ t.second
          else decimal (n / 3600) ++ t.hour ++ decimal (rem / 60) ++ t.minute))
    else elim rest [ none ↦ none | some text ↦ some (decimal (n / 86400) ++ t.day ++ text) ]

-- Two calls are enough: the second is made on less than a day.
unfoldable pub event_time_remain : ℤ → Bool → SekaiServerRegion → Option Text
event_time_remain remain show_seconds server = remain_fuel 2 remain show_seconds (time_units server)

-- The text that is stored beside an ongoing event.
pub remain_text : ℤ → SekaiServerRegion → Event → Text
unfolding event_time_remain ◌-ℤ◌
remain_text now server event =
    if ltb_ℤ event.start_at now && ltb_ℤ now event.aggregate_at
    then elim (event_time_remain (div_trunc (event.aggregate_at -ℤ now) 1000) true server) [
      | none ↦ []
      | some text ↦ text
    ]
    else []

module _ {E : Type 0} where
  -- The loop of `get_current_event_status` over the events; `later` is the clock when the chapter
  -- statuses are computed.
  pub current_event :
      SekaiServerRegion
      → Result E (List WorldBloom)
      → ℤ
      → ℤ
      → List Event
      → Result E (Option EventStatus)
  unfolding event_phase remain_text get_world_bloom_character_statuses
  current_event server chapters now later [] = ok none
  current_event server chapters now later (event ∷ events) =
      if not (is_active now event) then current_event server chapters now later events else (do
        chapter_statuses ←
            if event_type_beq event.event_type world_bloom
            then get_world_bloom_character_statuses server chapters event.id later
            else ok []
        ok (
            some (record {
              server = server;
              event_id = event.id;
              event_type = event.event_type;
              event_status = event_phase now event;
              remain = remain_text now server event;
              assetbundle_name = event.assetbundle_name;
              chapter_statuses = chapter_statuses;
              detail = event;
            })))

  unfoldable pub get_current_event_status :
      SekaiServerRegion
      → Result E (List Event)
      → Result E (List WorldBloom)
      → ℤ
      → ℤ
      → Result E (Option EventStatus)
  unfolding current_event
  get_current_event_status server load_event_data load_world_bloom_chapter_data now later = do
    events ← load_event_data
    current_event server load_world_bloom_chapter_data now later events
