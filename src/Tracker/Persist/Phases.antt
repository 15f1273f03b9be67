-- ===== src/Tracker/Persist/Phases.antt =====
-- Where the tracker has an update of the API cache, read off the log of a tick's calls.
use haruki_event_tracker.Prelude.{Bool, true, false, List, [], ◌∷◌, ◌≡◌, if◌then◌else◌}
use haruki_event_tracker.Prelude.HashMap.{}
use haruki_event_tracker.Prelude.Result.{}
use haruki_event_tracker.Prelude.Text.{}
use haruki_event_tracker.Model.Tracker.{}
use haruki_event_tracker.Tracker.Base.{EventTrackerBase}
use haruki_event_tracker.Db.Bloom.{}
use haruki_event_tracker.Tracker.World.{
  fetch_rankings, check_border, check_ended, load_ranks, create_tables, extend_tables,
  set_ended_flag, notify_update, Effect, begin_update, finish_update, abort_update, upsert_users,
  insert_rankings, insert_bloom, heartbeat, store_border, save_ranks, World,
}
use haruki_event_tracker.Tracker.World.Hoare.{}
use haruki_event_tracker.Tracker.Persist.{}

-- Where an update of an event stands by what the tracker has called, whether or not Redis did it,
-- since the tracker goes on after a failure: none is called for; one is and nothing, only users, or
-- rows were written in it; or the order of the calls was wrong.
pub data UpdatePhase : Type 0 where
  idle clean users rows broken : UpdatePhase

-- One call; the outcome counts for writes, and Persist/Marks follows that of the calls of the cache.
-- Writes need an open update, a finish needs something written, and an abort must not
-- hide rows; the tick's other calls are made when no update is open.
abbrev pub next_phase : UpdatePhase → Effect → Bool → UpdatePhase
next_phase idle begin_update landed = clean
next_phase clean upsert_users true = users
next_phase users upsert_users true = users
next_phase rows upsert_users true = rows
next_phase users insert_rankings true = rows
next_phase users insert_bloom true = rows
next_phase rows insert_bloom true = rows
next_phase clean upsert_users false = clean
next_phase users upsert_users false = users
next_phase rows upsert_users false = rows
next_phase users insert_rankings false = users
next_phase users insert_bloom false = users
next_phase rows insert_bloom false = rows
next_phase users finish_update landed = idle
next_phase rows finish_update landed = idle
next_phase clean abort_update landed = idle
next_phase users abort_update landed = idle
next_phase idle fetch_rankings landed = idle
next_phase idle check_border landed = idle
next_phase idle check_ended landed = idle
next_phase idle load_ranks landed = idle
next_phase idle create_tables landed = idle
next_phase idle extend_tables landed = idle
next_phase idle set_ended_flag landed = idle
next_phase idle (notify_update event_id) landed = idle
next_phase idle (heartbeat now status) landed = idle
next_phase idle (store_border key hash) landed = idle
next_phase idle (save_ranks changed) landed = idle
next_phase _ _ landed = broken

-- Over a log, newest first.
abbrev pub phase_of : List (Effect × Bool) → UpdatePhase
phase_of [] = idle
phase_of ((e, succeeded) ∷ log) = next_phase (phase_of log) e succeeded

abbrev pub In : UpdatePhase → EventTrackerBase × World → Type 0
In p s = phase_of s.1.log ≡ p

-- After the rankings: rows have landed, or nothing was called.
abbrev pub opened : Bool → Bool → UpdatePhase
opened true batch_called = if batch_called then rows else clean
opened false batch_called = idle
