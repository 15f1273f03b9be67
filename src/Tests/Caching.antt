-- ===== src/Tests/Caching.antt =====
-- Runs of the response cache.
use haruki_event_tracker.Prelude.{
  ℕ, zero, suc, pos, [], ◌∷◌, Option, none, some, ◌≡◌, refl, arith, list_eq, nat_eq, true, false,
}
use haruki_event_tracker.Prelude.HashMap
use haruki_event_tracker.Prelude.Text.{Text, codes, to_string}
use haruki_event_tracker.Api.Cache.Keys.{lower_server, negative_key}
use haruki_event_tracker.Api.Cache.Keys.Injective.{IsPlain, value_key-injective}
use haruki_event_tracker.Api.Cache.Redis.{
  read_l2_combined, write_l2_if_clean, begin_event_update, incr_epoch, del_dirty,
}
use haruki_event_tracker.Api.Cache.System.{
  System, Fetched, Reach, here, next, begin_update, write_rows, raise_epoch, unmark, look, fetch,
  write_back, write_fetched,
}
use haruki_event_tracker.Api.Cache.Entries.{AreSeparate}
use haruki_event_tracker.Api.Cache.Answers.{answer, read_l2_combined_coherent}

abbrev answers : ℕ → Text → Option Text
answers zero s = none
answers (suc n) s = some (codes "v")

abbrev Asked : Text → Type 0
Asked s = s ≡ codes "s"

Asked-AreSeparate : AreSeparate Asked
Asked-AreSeparate s s' h h' e = absurd (ground arith)

jp-IsPlain : IsPlain (lower_server (codes "jp"))
unfolding lower_server
jp-IsPlain = (refl, (refl, tt))

value_key-injective_example :
    (lower_server (codes "jp") ≡ lower_server (codes "jp"))
    × (pos 7 ≡ pos 7)
    × (pos 0 ≡ pos 0)
    × (codes "s" ≡ codes "s")
value_key-injective_example =
    value_key-injective (codes "jp") (codes "jp") (pos 7) (pos 7) (pos 0) (pos 0) (codes "s")
      (codes "s") jp-IsPlain jp-IsPlain (ground arith) (ground arith) (ground arith) (ground arith)
      refl

abbrev fetched : ℕ → ℕ → Fetched
fetched epoch db = record { epoch = epoch; suffix = codes "s"; response = answers db (codes "s") }

-- A response is stored, an update makes it stale, and the new one is stored.
abbrev opened : System ℕ
opened = record {
  redis = begin_event_update (
      write_fetched (codes "jp") (pos 7) (fetched 0 0)
        (record { epoch = none; dirty = false; strings = [] }));
  db = 1;
  wrote = true;
  exposed = false;
  seen = 0 ∷ [];
  pending = [];
}

opened-Reach : Reach (codes "jp") (pos 7) answers Asked 0 opened
unfolding begin_event_update write_fetched write_l2_if_clean HashMap.insert
opened-Reach =
    next
      (next
        (next (next (next here (look refl)) (fetch [] [] 0 (codes "s") refl refl))
          (write_back [] [] (fetched 0 0) refl))
        begin_update)
      (write_rows 1)

-- The update closes, and the next lookup stores the new response under the epoch 1.
abbrev renewed : System ℕ
renewed = record {
  redis = write_fetched (codes "jp") (pos 7) (fetched 1 1) (del_dirty (incr_epoch opened.redis));
  db = 1;
  wrote = false;
  exposed = false;
  seen = 1 ∷ 0 ∷ [];
  pending = [];
}

renewed-Reach : Reach (codes "jp") (pos 7) answers Asked 0 renewed
unfolding begin_event_update incr_epoch del_dirty write_fetched write_l2_if_clean HashMap.insert
renewed-Reach =
    next
      (next (next (next (next opened-Reach (raise_epoch (ground arith))) unmark) (look refl))
        (fetch [] (0 ∷ []) 1 (codes "s") refl refl))
      (write_back [] [] (fetched 1 1) refl)

renewed_answer :
    answer (read_l2_combined (codes "jp") (pos 7) renewed.redis (codes "s"))
    ≡ some (some (codes "v"))
unfolding begin_event_update incr_epoch del_dirty write_fetched write_l2_if_clean HashMap.insert
    read_l2_combined HashMap.get negative_key to_string
renewed_answer = refl

read_l2_combined_coherent_example : answers 1 (codes "s") ≡ some (codes "v")
read_l2_combined_coherent_example =
    read_l2_combined_coherent answers Asked (codes "jp") (pos 7) 0 renewed (codes "s")
      (some (codes "v")) jp-IsPlain (ground arith) Asked-AreSeparate renewed-Reach refl refl
      renewed_answer
