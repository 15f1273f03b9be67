-- ===== src/Api/Cache/System.antt =====
-- The protocol of the cache of one event, as steps that interleave: one tracker that opens and
-- closes updates (`begin_event_update` and its kin, called by src/tracker/base.rs) and writes, in any
-- order and with any failures, and any number
-- of lookups of src/api/cache.rs, each of which reads the epoch and the mark, fetches from the
-- database, and writes what it fetched. `D` is the database's content and `respond` the response
-- to a suffix, `none` for the error NotFound.
use haruki_event_tracker.Prelude.{
  ℕ, ◌+◌, ◌^◌, ◌<◌, ℤ, pos, Bool, true, false, not, ◌||◌, List, [], ◌∷◌, ◌++◌, Option, none, some,
  ◌≡◌, list_eq, nat_eq,
}
use haruki_event_tracker.Prelude.HashMap
use haruki_event_tracker.Prelude.HashMap.{HashMap}
use haruki_event_tracker.Prelude.Text.{Text, codes}
use haruki_event_tracker.Api.Cache.Keys.{value_key, negative_key}
use haruki_event_tracker.Api.Cache.Redis.{
  Redis, current_epoch, write_l2_if_clean, begin_event_update, incr_epoch, del_dirty,
}

-- A fetched response: the epoch it is to be written under, the suffix, and the response.
pub record Fetched : Type 0 where
  pub epoch : ℕ
  pub suffix : Text
  pub response : Option Text

pub record System (D : Type 0) : Type 0 where
  pub redis : Redis
  pub db : D
  -- Something was written since the epoch was last raised.
  pub wrote : Bool
  -- Since then, there was a time when something was written and no mark was set: a write after a
  -- begin that failed, an abort after a write, or a mark that expired before the finish.
  pub exposed : Bool
  -- The epochs that lookups have read without a mark, also those held in process memory.
  pub seen : List ℕ
  pub pending : List Fetched

module _ (server : Text) (event_id : ℤ) where
  -- The key that a fetched response goes to, and what is written there.
  abbrev pub response_key : ℕ → Text → Option Text → Text
  response_key epoch suffix none = negative_key server event_id (pos epoch) suffix
  response_key epoch suffix (some bytes) = value_key server event_id (pos epoch) suffix

  abbrev pub response_bytes : Option Text → Text
  response_bytes none = codes "1"
  response_bytes (some bytes) = bytes

  -- The write at the end of `fetch_and_maybe_cache_bytes`.
  unfoldable pub write_fetched : Fetched → Redis → Redis
  unfolding write_l2_if_clean
  write_fetched f r =
      (write_l2_if_clean (pos f.epoch) (response_key f.epoch f.suffix f.response)
        (response_bytes f.response) r).1

  module _ {D : Type 0} (respond : D → Text → Option Text) (Served : Text → Type 0) where
    pub data Step (s : System D) : System D → Type 0 where
      -- `begin_event_update`, when Redis does it. A begin that fails is no step.
      begin_update : Step s (record s { redis = begin_event_update s.redis })
      -- A commit to the database, of users or of rows, beside the mark or without it.
      write_rows :
          (db : D)
          → Step s (record s { db = db; wrote = true; exposed = s.exposed || not s.redis.dirty })
      -- The first command of `finish_event_update`, which is refused when it would overflow.
      raise_epoch :
          current_epoch s.redis + 1 < 2 ^ 63
          → Step s (record s { redis = incr_epoch s.redis; wrote = false; exposed = false })
      -- The mark goes: the second command of `finish_event_update`, `abort_event_update`, whatever
      -- was written before it, or the end of the mark's lifetime.
      unmark : Step s (record s { redis = del_dirty s.redis; exposed = s.exposed || s.wrote })
      look : s.redis.dirty ≡ false → Step s (record s { seen = current_epoch s.redis ∷ s.seen })
      fetch :
          (before after : List ℕ) (epoch : ℕ) (suffix : Text)
          → s.seen ≡ before ++ (epoch ∷ after)
          → Served suffix
          → Step s (record s {
            pending =
                record { epoch = epoch; suffix = suffix; response = respond s.db suffix }
                ∷ s.pending;
          })
      write_back :
          (before after : List Fetched) (f : Fetched)
          → s.pending ≡ before ++ (f ∷ after)
          → Step s (record s { redis = write_fetched f s.redis; pending = before ++ after })
      give_up :
          (before after : List Fetched) (f : Fetched)
          → s.pending ≡ before ++ (f ∷ after)
          → Step s (record s { pending = before ++ after })
      -- A stored response expires.
      expire :
          (key : Text)
          → Step s
              (record s { redis = record s.redis { strings = HashMap.remove key s.redis.strings } })

    abbrev pub start : D → System D
    start db = record {
      redis = record { epoch = none; dirty = false; strings = [] };
      db = db;
      wrote = false;
      exposed = false;
      seen = [];
      pending = [];
    }

    pub data Reach (db : D) : System D → Type 0 where
      here : Reach db (start db)
      next : {s t : System D} → Reach db s → Step s t → Reach db t
