-- ===== src/Tracker/Persist/Marks.antt =====
-- The dirty mark of the API cache over the log of a tick's calls, with their outcomes. A failed
-- `begin_event_update`, `finish_event_update` or `abort_event_update` is only logged, and the tick
-- goes on: then ranking rows land beside no mark, or the mark stays until it expires.
use haruki_event_tracker.Prelude.{Bool, true, false, not, List, [], ◌∷◌, ◌≡◌, ap, subst, arith}
use haruki_event_tracker.Tracker.World.{
  Effect, begin_update, finish_update, abort_update, upsert_users, insert_rankings, insert_bloom,
}
use haruki_event_tracker.Tracker.Persist.Phases.{UpdatePhase, idle, broken, next_phase, phase_of}

-- The mark that the calls leave in Redis, if it does not expire.
abbrev pub marked : List (Effect × Bool) → Bool
marked [] = false
marked ((begin_update, true) ∷ log) = true
marked ((finish_update, true) ∷ log) = false
marked ((abort_update, true) ∷ log) = false
marked (_ ∷ log) = marked log

-- The latest attempt to open an update failed.
abbrev pub begin_failed : List (Effect × Bool) → Bool
begin_failed [] = false
begin_failed ((begin_update, landed) ∷ log) = not landed
begin_failed (_ ∷ log) = begin_failed log

-- The latest attempt to close an update failed.
abbrev pub close_failed : List (Effect × Bool) → Bool
close_failed [] = false
close_failed ((finish_update, landed) ∷ log) = not landed
close_failed ((abort_update, landed) ∷ log) = not landed
close_failed (_ ∷ log) = close_failed log

abbrev pub is_write : Effect → Bool
is_write upsert_users = true
is_write insert_rankings = true
is_write insert_bloom = true
is_write _ = false

-- Every write was made beside the mark, unless the attempt to set it had failed.
abbrev pub AreMarked : List (Effect × Bool) → Type 0
AreMarked [] = Unit
AreMarked ((e, landed) ∷ log) =
    (is_write e ≡ true → marked log ≡ false → begin_failed log ≡ true) × AreMarked log

-- The updates that the log calls for are closed; the mark is left only by a close that failed, and
-- missing beside a write only after a begin that failed.
abbrev pub IsClosed : List (Effect × Bool) → Type 0
IsClosed log = (phase_of log ≡ idle) × (marked log ≡ true → close_failed log ≡ true) × AreMarked log

-- What the mark is in each phase.
abbrev MarkAt : UpdatePhase → List (Effect × Bool) → Type 0
MarkAt idle log = marked log ≡ true → close_failed log ≡ true
MarkAt broken log = Unit
MarkAt _ log = marked log ≡ false → begin_failed log ≡ true

next-MarkAt :
    (p : UpdatePhase) (e : Effect) (landed : Bool) (log : List (Effect × Bool))
    → MarkAt p log
    → MarkAt (next_phase p e landed) ((e, landed) ∷ log)
next-MarkAt p e landed log h = ground arith

phase-MarkAt : (log : List (Effect × Bool)) → MarkAt (phase_of log) log
phase-MarkAt [] = λ h. h
phase-MarkAt ((e, landed) ∷ log) = next-MarkAt (phase_of log) e landed log (phase-MarkAt log)

abbrev is_broken : UpdatePhase → Bool
is_broken broken = true
is_broken _ = false

next_phase-broken : (e : Effect) (landed : Bool) → next_phase broken e landed ≡ broken
next_phase-broken e landed = ground arith

-- A write that does not break the order is made in an update that was called for.
write-MarkAt :
    (p : UpdatePhase) (e : Effect) (landed : Bool) (log : List (Effect × Bool))
    → is_broken (next_phase p e landed) ≡ false
    → MarkAt p log
    → is_write e ≡ true
    → marked log ≡ false
    → begin_failed log ≡ true
write-MarkAt p e landed log u h w m = ground arith

earlier_unbroken :
    (p : UpdatePhase) (e : Effect) (landed : Bool)
    → is_broken (next_phase p e landed) ≡ false
    → is_broken p ≡ false
earlier_unbroken p e landed u = ground arith

phase-AreMarked : (log : List (Effect × Bool)) → is_broken (phase_of log) ≡ false → AreMarked log
phase-AreMarked [] u = tt
phase-AreMarked ((e, landed) ∷ log) u = (
  write-MarkAt (phase_of log) e landed log u (phase-MarkAt log),
  phase-AreMarked log (earlier_unbroken (phase_of log) e landed u),
)

pub idle-IsClosed : (log : List (Effect × Bool)) → phase_of log ≡ idle → IsClosed log
idle-IsClosed log h =
    (h, subst (λ p. MarkAt p log) h (phase-MarkAt log), phase-AreMarked log (ap is_broken h))
