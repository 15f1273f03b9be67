-- ===== src/Api/Cache/Answers.antt =====
-- What a read of Redis answers, in every state that the protocol reaches.
use mathlib.Core.List.{}
use haruki_event_tracker.Prelude.{
  ℕ, ℤ, pos, IsI64, Bool, true, false, ◌++◌, Option, none, some, ◌≡◌, refl, ap, sym, ◌∙◌, arith,
  if◌then◌else◌, list_eq, nat_eq, inl, inr, Bool-cases,
}
use haruki_event_tracker.Prelude.HashMap
use haruki_event_tracker.Prelude.HashMap.{HashMap}
use haruki_event_tracker.Prelude.Text.{Text, codes}
use haruki_event_tracker.Api.Cache.Keys.{lower_server, base_key, value_key, negative_key}
use haruki_event_tracker.Api.Cache.Keys.Injective.{IsPlain}
use haruki_event_tracker.Api.Cache.Redis.{
  Redis, L2CombinedRead, reply_with, read_of, read_script, script_key, current_epoch,
  read_l2_combined,
}
use haruki_event_tracker.Api.Cache.System.{Reach, System}
use haruki_event_tracker.Api.Cache.Entries.{AreSeparate, Holds}
use haruki_event_tracker.Api.Cache.Invariant.{Reach-Inv}

-- The response that a read gives: `some none` is the error NotFound, `none` no answer.
abbrev pub answer : L2CombinedRead → Option (Option Text)
answer (L2CombinedRead.dirty epoch) = none
answer (L2CombinedRead.hit epoch key bytes) = some (some bytes)
answer (L2CombinedRead.not_found epoch) = some none
answer (L2CombinedRead.miss epoch key) = none

-- What a reply without the mark answers is held.
reply_answer :
    (server : Text) (event_id : ℤ) (e : ℕ) (s : Text) (v : Option Text) (n : Bool) (o : Option Text)
    → answer (read_of server event_id s (reply_with e v n)) ≡ some o
    → (v ≡ o) × (v ≡ none → n ≡ true)
reply_answer server event_id e s (some w) n o h = (ground arith, λ q. absurd (ground arith))
reply_answer server event_id e s none true o h = (ground arith, λ q. refl)
reply_answer server event_id e s none false o h = absurd (ground arith)

clean_read :
    (server : Text) (event_id : ℤ) (r : Redis) (s : Text) (o : Option Text)
    → r.dirty ≡ false
    → answer (read_l2_combined server event_id r s) ≡ some o
    → answer (
        read_of server event_id s (
          reply_with
            (current_epoch r)
            (HashMap.get (value_key server event_id (pos (current_epoch r)) s) r.strings)
            (HashMap.contains_key
              (negative_key server event_id (pos (current_epoch r)) s)
              r.strings)))
      ≡ some o
unfolding read_l2_combined read_script value_key negative_key
clean_read server event_id r s o d h =
    sym (
      ap
        (λ b. answer (
          read_of server event_id s (
            if b
            then record {
              epoch = current_epoch r;
              dirty = 1;
              value = codes "";
              negative = 0;
              has_value = 0;
            }
            else reply_with (current_epoch r)
                (HashMap.get (script_key (base_key server event_id) (current_epoch r) s) r.strings)
                (HashMap.contains_key
                  (script_key (base_key server event_id) (current_epoch r) s ++ codes ":not_found")
                  r.strings))))
        d)
    ∙ h

reply_Holds :
    (server : Text) (event_id : ℤ) (r : Redis) (s : Text) (o : Option Text)
    → answer (
        read_of server event_id s (
          reply_with
            (current_epoch r)
            (HashMap.get (value_key server event_id (pos (current_epoch r)) s) r.strings)
            (HashMap.contains_key
              (negative_key server event_id (pos (current_epoch r)) s)
              r.strings)))
      ≡ some o
    → Holds server event_id r (current_epoch r) s o
reply_Holds server event_id r s none h =
    let (p, q) =
      reply_answer server event_id (current_epoch r) s
        (HashMap.get (value_key server event_id (pos (current_epoch r)) s) r.strings)
        (HashMap.contains_key (negative_key server event_id (pos (current_epoch r)) s) r.strings)
        none h in
    q p
reply_Holds server event_id r s (some v) h =
    (reply_answer server event_id (current_epoch r) s
      (HashMap.get (value_key server event_id (pos (current_epoch r)) s) r.strings)
      (HashMap.contains_key (negative_key server event_id (pos (current_epoch r)) s) r.strings)
      (some v) h).0

-- An answer comes without the mark, and Redis holds it under its epoch.
pub read_l2_combined-Holds :
    (server : Text) (event_id : ℤ) (r : Redis) (s : Text) (o : Option Text)
    → answer (read_l2_combined server event_id r s) ≡ some o
    → (r.dirty ≡ false) × Holds server event_id r (current_epoch r) s o
unfolding read_l2_combined read_script
read_l2_combined-Holds server event_id r s o h = elim (Bool-cases r.dirty) [
  | inl d ↦ absurd (ground arith)
  | inr d ↦ (d, reply_Holds server event_id r s o (clean_read server event_id r s o d h))
]

-- For a server and suffixes whose keys do not run together, in every state that one tracker and any
-- number of lookups reach, whichever of the tracker's calls fail or are made too late: an answer
-- from Redis, be it a response or the error NotFound, is what the database would answer now, unless
-- since the epoch was last raised there was a time when something was written and no mark was set.
pub read_l2_combined_coherent :
    {D : Type 0} (respond : D → Text → Option Text) (Served : Text → Type 0) (server : Text)
    (event_id : ℤ) (db : D) (t : System D) (s : Text) (o : Option Text)
    → IsPlain (lower_server server)
    → IsI64 event_id
    → AreSeparate Served
    → Reach server event_id respond Served db t
    → t.exposed ≡ false
    → Served s
    → answer (read_l2_combined server event_id t.redis s) ≡ some o
    → respond t.db s ≡ o
read_l2_combined_coherent respond Served server event_id db t s o plain he sep reach x hs h =
    let i = Reach-Inv respond Served server event_id plain he sep reach in
    let (clean, held) = read_l2_combined-Holds server event_id t.redis s o h in
    (i.stored (current_epoch t.redis) s o i.small hs held).1
      (elim (Bool-cases t.wrote) [ inl w ↦ absurd (ground (arith, i.covered w x)) | inr w ↦ w ])
      refl
