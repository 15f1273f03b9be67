-- ===== src/Db/Bloom.antt =====
-- `batch_insert_world_bloom_rankings` of src/db/query/batch.rs: the pre-transaction diff against
-- the last rows of each user and character. The user-key upsert and the transaction are calls of
-- the database, whose results are arguments.
use haruki_event_tracker.Prelude.{
  ℤ, beq_ℤ, Bool, true, false, List, [], ◌∷◌, Option, none, some, if◌then◌else◌, int_eq, list_eq,
  nat_eq,
}
use haruki_event_tracker.Prelude.HashMap
use haruki_event_tracker.Prelude.HashMap.{HashMap}
use haruki_event_tracker.Prelude.Text.{Text, parse_i64}
use haruki_event_tracker.Model.Tracker.{
  PlayerState, WorldBloomKey, PlayerWorldBloomRankingRecordSchema, bloom_key_eq,
}

-- `(timestamp, user_id_key, character_id, score, rank)`
pub record BloomRow : Type 0 where
  pub timestamp : ℤ
  pub user_id_key : ℤ
  pub character_id : ℤ
  pub score : ℤ
  pub rank : ℤ

-- Feeds the memo from user ids to keys; a user id that is no `i64` is left out.
unfoldable pub remember_keys : HashMap Text ℤ → HashMap ℤ ℤ → HashMap ℤ ℤ
remember_keys [] cache = cache
remember_keys ((user_id, key) ∷ user_lookup) cache =
    remember_keys user_lookup
      (elim (parse_i64 user_id) [ none ↦ cache | some uid ↦ HashMap.insert uid key cache ])

abbrev pub differs : Option PlayerState → ℤ → ℤ → Bool
differs none score rank = true
differs (some p) score rank =
    if beq_ℤ p.score score then (if beq_ℤ p.rank rank then false else true) else true

module _ {Json : Type 0} where
  abbrev pub key_of : ℤ → PlayerWorldBloomRankingRecordSchema Json → WorldBloomKey
  key_of user_key r = record { user_id_key = user_key; character_id = r.character_id }

  -- The rows to insert, and the states to commit with them; `none` when a user has no key.
  unfoldable pub bloom_diff :
      HashMap Text ℤ
      → HashMap WorldBloomKey PlayerState
      → List (PlayerWorldBloomRankingRecordSchema Json)
      → Option (List BloomRow × HashMap WorldBloomKey PlayerState)
  bloom_diff user_lookup prev_state [] = some ([], [])
  bloom_diff user_lookup prev_state (r ∷ rs) = elim (HashMap.get r.base.user_id user_lookup) [
    | none ↦ none
    | some user_key ↦ elim (bloom_diff user_lookup prev_state rs) [
      | none ↦ none
      | some (changed, new_state) ↦
          if differs (HashMap.get (key_of user_key r) prev_state) r.base.score r.base.rank
          then some (
            record {
              timestamp = r.base.timestamp;
              user_id_key = user_key;
              character_id = r.character_id;
              score = r.base.score;
              rank = r.base.rank;
            }
                ∷ changed,
            (key_of user_key r, record { score = r.base.score; rank = r.base.rank }) ∷ new_state,
          )
          else some (changed, new_state)
    ]
  ]
