-- ===== src/Api/Cache/SingleFlight.antt =====
-- src/api/cache.rs: lookups that share one flight, `SingleFlight`. An entry (`Arc<InFlightEntry>`)
-- is a number; `next` numbers have been given out. A guard that is dropped finishes with `none`. Of
-- `Notify`, a parameter of this code, what its documentation says is modelled: a future made by
-- `notified()` is woken by every later `notify_waiters`, and by nothing else.
pub mod Guards
pub mod Waiting
pub mod Invariant
pub mod Waking
use haruki_event_tracker.Prelude.{
  ℕ, ◌+◌, ltb, nat_beq, Bool, true, false, List, [], ◌∷◌, ◌++◌, Option, none, some, ◌≡◌,
  if◌then◌else◌, list_eq, nat_eq,
}
use haruki_event_tracker.Prelude.HashMap
use haruki_event_tracker.Prelude.HashMap.{HashMap}
use haruki_event_tracker.Prelude.Text.{Text}
use haruki_event_tracker.Api.Cache.Store.{SharedFetchResult}

pub record InFlightState : Type 0 where
  pub done : Bool
  pub result : Option SharedFetchResult

pub record SingleFlight : Type 0 where
  pub inner : HashMap Text ℕ
  pub entries : ℕ → InFlightState
  -- How often the waiters of an entry were notified.
  pub notified : ℕ → ℕ
  pub next : ℕ

pub data Flight : Type 0 where
  owner : ℕ → Flight
  waiter : ℕ → Flight

abbrev pub set_at : {A : Type 0} → ℕ → A → (ℕ → A) → ℕ → A
set_at id a f j = if nat_beq j id then a else f j

-- A new entry under a key that has none.
unfoldable pub begin_new : Text → SingleFlight → SingleFlight
unfolding HashMap.insert
begin_new key f = record {
  inner = HashMap.insert key f.next f.inner;
  entries = set_at f.next (record { done = false; result = none }) f.entries;
  notified = set_at f.next 0 f.notified;
  next = f.next + 1;
}

unfoldable pub begin : Text → SingleFlight → Flight × SingleFlight
unfolding begin_new HashMap.get
begin key f = elim (HashMap.get key f.inner) [
  | some entry ↦ (Flight.waiter entry, f)
  | none ↦ (Flight.owner f.next, begin_new key f)
]

-- `is_some_and(|current| Arc::ptr_eq(current, entry))`
abbrev pub is_current : ℕ → Option ℕ → Bool
is_current entry none = false
is_current entry (some current) = nat_beq current entry

-- The three parts of `finish`: under the lock of the entry, under that of the map, and after both.
unfoldable pub publish : ℕ → Option SharedFetchResult → SingleFlight → SingleFlight
publish entry result f = record f {
  entries = set_at entry (record { done = true; result = result }) f.entries;
}

unfoldable pub unmap : Text → ℕ → SingleFlight → SingleFlight
unfolding HashMap.get HashMap.remove
unmap key entry f = record f {
  inner =
      if is_current entry (HashMap.get key f.inner) then HashMap.remove key f.inner else f.inner;
}

unfoldable pub notify_waiters : ℕ → SingleFlight → SingleFlight
notify_waiters entry f = record f { notified = set_at entry (f.notified entry + 1) f.notified }

unfoldable pub finish : Text → ℕ → Option SharedFetchResult → SingleFlight → SingleFlight
unfolding publish unmap notify_waiters
finish key entry result f = notify_waiters entry (unmap key entry (publish entry result f))

-- Where a waiter is in the loop of `wait_bytes`: at its top; past `notified()`, with the number of
-- notifications that it came after; awaiting the next one; or done.
pub data Waiter : Type 0 where
  entering : ℕ → Waiter
  checking : ℕ → ℕ → Waiter
  sleeping : ℕ → ℕ → Waiter
  returned : Option SharedFetchResult → Waiter

unfoldable pub wait_step : SingleFlight → Waiter → Waiter
wait_step f (entering entry) = checking entry (f.notified entry)
wait_step f (checking entry count) =
    if (f.entries entry).done then returned (f.entries entry).result else sleeping entry count
wait_step f (sleeping entry count) =
    if ltb count (f.notified entry) then entering entry else sleeping entry count
wait_step f (returned result) = returned result

-- Once round the loop.
unfoldable pub wait_round : SingleFlight → Waiter → Waiter
unfolding wait_step
wait_round f w = wait_step f (wait_step f (wait_step f w))

-- The flights; the guards that have not yet left the map, by key; the entries that are out of the map
-- and whose waiters are still to be notified; and the waiters.
pub record Guarded : Type 0 where
  pub flights : SingleFlight
  pub guards : HashMap Text ℕ
  pub unnotified : List ℕ
  pub waiters : List Waiter

abbrev pub no_flights : Guarded
no_flights = record {
  flights = record {
    inner = [];
    entries = λ i. record { done = false; result = none };
    notified = λ i. 0;
    next = 0;
  };
  guards = [];
  unnotified = [];
  waiters = [];
}

-- The guards and the waiters after a `begin`.
abbrev pub with_guard : Text → Flight → HashMap Text ℕ → HashMap Text ℕ
with_guard key (Flight.owner entry) guards = (key, entry) ∷ guards
with_guard key (Flight.waiter entry) guards = guards

abbrev pub with_waiter : Flight → List Waiter → List Waiter
with_waiter (Flight.owner entry) waiters = waiters
with_waiter (Flight.waiter entry) waiters = entering entry ∷ waiters

pub data Step (s : Guarded) : Guarded → Type 0 where
  begins :
      (key : Text)
      → Step s (record s {
        flights = (begin key s.flights).1;
        guards = with_guard key (begin key s.flights).0 s.guards;
        waiters = with_waiter (begin key s.flights).0 s.waiters;
      })
  -- A guard finishes, with a result or dropped, in three steps that interleave with all others.
  publishes :
      (before after : HashMap Text ℕ) (key : Text) (entry : ℕ) (result : Option SharedFetchResult)
      → s.guards ≡ before ++ ((key, entry) ∷ after)
      → (s.flights.entries entry).done ≡ false
      → Step s (record s { flights = publish entry result s.flights })
  unmaps :
      (before after : HashMap Text ℕ) (key : Text) (entry : ℕ)
      → s.guards ≡ before ++ ((key, entry) ∷ after)
      → (s.flights.entries entry).done ≡ true
      → Step s (record s {
        flights = unmap key entry s.flights;
        guards = before ++ after;
        unnotified = entry ∷ s.unnotified;
      })
  notifies :
      (before after : List ℕ) (entry : ℕ)
      → s.unnotified ≡ before ++ (entry ∷ after)
      → Step s (record s { flights = notify_waiters entry s.flights; unnotified = before ++ after })
  waits :
      (before after : List Waiter) (w : Waiter)
      → s.waiters ≡ before ++ (w ∷ after)
      → Step s (record s { waiters = before ++ (wait_step s.flights w ∷ after) })

pub data Reach : Guarded → Type 0 where
  here : Reach no_flights
  next : {s t : Guarded} → Reach s → Step s t → Reach t
