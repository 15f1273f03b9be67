-- ===== src/Api/Cache/SingleFlight/Waiting.antt =====
-- What a waiter knows of its entry, which no step of a flight takes from it.
use haruki_event_tracker.Prelude.{
  ℕ, ◌<◌, ◌≤◌, Bool, false, nat_beq, List, [], any, true, false, ◌∷◌, ◌++◌, Option, ◌≡◌, arith,
  list_eq, nat_eq,
}
use haruki_event_tracker.Prelude.HashMap.{}
use haruki_event_tracker.Prelude.Text.{Text}
use haruki_event_tracker.Api.Cache.Store.{SharedFetchResult}
use haruki_event_tracker.Api.Cache.SingleFlight.{
  SingleFlight, begin_new, publish, unmap, notify_waiters, Waiter, entering, checking, sleeping,
  returned,
}
use haruki_event_tracker.Api.Cache.SingleFlight.Guards.{}

-- What a waiter knows of its entry.
abbrev pub IsWaiting : SingleFlight → Waiter → Type 0
IsWaiting f (entering e) = e < f.next
IsWaiting f (checking e c) = (e < f.next) × (c ≤ f.notified e)
IsWaiting f (sleeping e c) = (e < f.next) × (c ≡ 0)
IsWaiting f (returned r) = Unit

abbrev pub is_among : ℕ → List ℕ → Bool
is_among e = any (nat_beq e)

pub begin_new-IsWaiting :
    (f : SingleFlight) (key : Text) (w : Waiter) → IsWaiting f w → IsWaiting (begin_new key f) w
unfolding begin_new
begin_new-IsWaiting f key (entering e) h = omega (arith, h)
begin_new-IsWaiting f key (checking e c) h = ground (arith, h.0, h.1)
begin_new-IsWaiting f key (sleeping e c) h = (omega (arith, h.0), h.1)
begin_new-IsWaiting f key (returned r) h = tt

pub publish-IsWaiting :
    (f : SingleFlight) (entry : ℕ) (r : Option SharedFetchResult) (w : Waiter)
    → IsWaiting f w
    → IsWaiting (publish entry r f) w
unfolding publish
publish-IsWaiting f entry r (entering e) h = h
publish-IsWaiting f entry r (checking e c) h = h
publish-IsWaiting f entry r (sleeping e c) h = h
publish-IsWaiting f entry r (returned x) h = tt

pub unmap-IsWaiting :
    (f : SingleFlight) (key : Text) (entry : ℕ) (w : Waiter)
    → IsWaiting f w
    → IsWaiting (unmap key entry f) w
unfolding unmap
unmap-IsWaiting f key entry (entering e) h = h
unmap-IsWaiting f key entry (checking e c) h = h
unmap-IsWaiting f key entry (sleeping e c) h = h
unmap-IsWaiting f key entry (returned x) h = tt

pub notify-IsWaiting :
    (f : SingleFlight) (entry : ℕ) (w : Waiter)
    → IsWaiting f w
    → IsWaiting (notify_waiters entry f) w
unfolding notify_waiters
notify-IsWaiting f entry (entering e) h = h
notify-IsWaiting f entry (checking e c) h = ground (arith, h.0, h.1)
notify-IsWaiting f entry (sleeping e c) h = h
notify-IsWaiting f entry (returned x) h = tt

pub is_among-take_out :
    (before after : List ℕ) (e f : ℕ)
    → nat_beq f e ≡ false
    → is_among f (before ++ (e ∷ after)) ≡ true
    → is_among f (before ++ after) ≡ true
is_among-take_out [] after e f n h = ground arith
is_among-take_out (b ∷ before) after e f n h = ground (arith, is_among-take_out before after e f n)
