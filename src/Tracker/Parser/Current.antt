-- ===== src/Tracker/Parser/Current.antt =====
-- Which event `get_current_event_status` reports.
use haruki_event_tracker.Prelude.{
  ℤ, true, false, List, [], ◌∷◌, ◌++◌, Option, none, some, ◌≡◌, inl, inr, refl, All, Bool-cases,
  if◌then◌else◌,
}
use haruki_event_tracker.Prelude.HashMap.{HashMap}
use haruki_event_tracker.Prelude.Result.{Result, ok, err, ◌>>=◌}
use haruki_event_tracker.Model.Enums.{SekaiServerRegion, world_bloom, event_type_beq}
use haruki_event_tracker.Model.Event.{Event, EventStatus, WorldBloom, WorldBloomChapterStatus}
use haruki_event_tracker.Tracker.Parser.{
  is_active, event_phase, remain_text, get_world_bloom_character_statuses, current_event,
  get_current_event_status,
}

-- The event is the first of the list whose window covers the clock.
abbrev pub IsFirstActive : ℤ → List Event → Event → Type 0
IsFirstActive now events event =
    (before : List Event) × (after : List Event) × (events ≡ before ++ event ∷ after)
    × All (λ e. is_active now e ≡ false) before
    × (is_active now event ≡ true)

FirstActive-cons :
    (now : ℤ) (event : Event) (events : List Event) (e : Event)
    → is_active now event ≡ false
    → IsFirstActive now events e
    → IsFirstActive now (event ∷ events) e
FirstActive-cons now event events e h (before, after, split, idle, active) =
    (event ∷ before, after, (λ i. event ∷ split i), (h, idle), active)

module _ {E : Type 0} where
  -- The chapter statuses that stand beside an event: none unless it is a World Bloom event.
  abbrev pub statuses_for :
      SekaiServerRegion
      → Result E (List WorldBloom)
      → ℤ
      → Event
      → Result E (HashMap ℤ WorldBloomChapterStatus)
  statuses_for server chapters later event =
      if event_type_beq event.event_type world_bloom
      then get_world_bloom_character_statuses server chapters event.id later
      else ok []

  -- What each outcome says of the events.
  abbrev pub Reports :
      SekaiServerRegion
      → Result E (List WorldBloom)
      → ℤ
      → ℤ
      → List Event
      → Result E (Option EventStatus)
      → Type 0
  Reports server chapters now later events (ok none) = All (λ e. is_active now e ≡ false) events
  Reports server chapters now later events (ok (some st)) =
      (event : Event) × IsFirstActive now events event
      × (st.event_id ≡ event.id)
      × (st.event_status ≡ event_phase now event)
      × (st.detail ≡ event)
      × (statuses_for server chapters later event ≡ ok st.chapter_statuses)
  Reports server chapters now later events (err e) =
      (event : Event) × IsFirstActive now events event
      × (statuses_for server chapters later event ≡ err e)

  Reports-cons :
      (server : SekaiServerRegion) (chapters : Result E (List WorldBloom)) (now later : ℤ)
      (event : Event) (events : List Event) (r : Result E (Option EventStatus))
      → is_active now event ≡ false
      → Reports server chapters now later events r
      → Reports server chapters now later (event ∷ events) r
  Reports-cons server chapters now later event events (ok none) h k = (h, k)
  Reports-cons server chapters now later event events (ok (some st)) h k =
      (k.0, FirstActive-cons now event events k.0 h k.1, k.2, k.3, k.4, k.5)
  Reports-cons server chapters now later event events (err x) h k =
      (k.0, FirstActive-cons now event events k.0 h k.1, k.2)

  Reports-first :
      (server : SekaiServerRegion) (chapters : Result E (List WorldBloom)) (now later : ℤ)
      (event : Event) (events : List Event)
      (statuses : Result E (HashMap ℤ WorldBloomChapterStatus))
      → is_active now event ≡ true
      → statuses_for server chapters later event ≡ statuses
      → Reports server chapters now later (event ∷ events) (
          statuses >>= λ chapter_statuses. ok (
            some (record {
              server = server;
              event_id = event.id;
              event_type = event.event_type;
              event_status = event_phase now event;
              remain = remain_text now server event;
              assetbundle_name = event.assetbundle_name;
              chapter_statuses = chapter_statuses;
              detail = event;
            })))
  Reports-first server chapters now later event events (ok m) h e =
      (event, ([], events, refl, tt, h), refl, refl, refl, e)
  Reports-first server chapters now later event events (err x) h e =
      (event, ([], events, refl, tt, h), e)

  current_event-Reports :
      (server : SekaiServerRegion) (chapters : Result E (List WorldBloom)) (now later : ℤ)
      (events : List Event)
      → Reports server chapters now later events (current_event server chapters now later events)
  unfolding current_event
  current_event-Reports server chapters now later [] = tt
  current_event-Reports server chapters now later (event ∷ events) =
      elim (Bool-cases (is_active now event)) [
        | inl e ↦ rw e (Reports-first server chapters now later event events _ e refl)
        | inr e ↦ rw e (
            Reports-cons server chapters now later event events
              (current_event server chapters now later events) e
              (current_event-Reports server chapters now later events))
      ]

  -- With the event list loaded: no event is reported only when no window covers the clock.
  -- Otherwise the first event whose window does is reported, with its phase and, for a World Bloom
  -- event, the statuses of its chapters; if those cannot be loaded the result is that error.
  pub get_current_event_status-Reports :
      (server : SekaiServerRegion) (events : List Event) (chapters : Result E (List WorldBloom))
      (now later : ℤ)
      → Reports server chapters now later events
          (get_current_event_status server (ok events) chapters now later)
  unfolding get_current_event_status
  get_current_event_status-Reports server events chapters now later =
      current_event-Reports server chapters now later events
