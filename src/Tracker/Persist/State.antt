-- ===== src/Tracker/Persist/State.antt =====
-- When a persist advances the states that later ticks are diffed against.
use haruki_event_tracker.Prelude.{
  int_eq, suc, ℤ, Bool, true, false, [], ◌∷◌, is_empty, ◌≡◌, refl, ◌∙◌, ◌⊎◌, sym, arith, inl, inr,
  Bool-cases,
}
use haruki_event_tracker.Prelude.HashMap
use haruki_event_tracker.Prelude.HashMap.{HashMap}
use haruki_event_tracker.Prelude.Result.{Result, ok, err}
use haruki_event_tracker.Prelude.Text.{}
use haruki_event_tracker.Model.Tracker.{
  HandledRankingData, RankState, WorldBloomKey, PlayerState, bloom_key_eq,
}
use haruki_event_tracker.Tracker.Base.{EventTrackerBase}
use haruki_event_tracker.Db.Bloom.{}
use haruki_event_tracker.Tracker.World.{
  Effect, begin_update, insert_rankings, insert_bloom, World, Env, ◌>>=◌, ◌>>◌, when, cache_call,
  TrackerError,
}
use haruki_event_tracker.Tracker.World.Hoare.{Post, Triple, >>=-Triple, >>-Keeps, Triple-mono}
use haruki_event_tracker.Tracker.Persist.{
  Plan, plan, will_write, batch_insert_event_rankings, write_main, commit_ranks, write_world_bloom,
  finish_persist, persist_plan, persist_ranking_data,
}
use haruki_event_tracker.Model.Sekai.{}
use haruki_event_tracker.Tracker.Diff.{}
use haruki_event_tracker.Tracker.Diff.Changes.{}
use haruki_event_tracker.Tracker.Diff.Commit.{}
use haruki_event_tracker.Tracker.Records.{}
use haruki_event_tracker.Tracker.Persist.Keeps.{
  rows_landed, bloom_landed, called, KeptByCalls, KeptByBloom, cache_call-Keeps, when-Keeps,
  write_main-Keeps, finish_persist-Keeps, write_world_bloom-Keeps,
}

abbrev pub Ranks : HashMap ℤ RankState → EventTrackerBase × World → Type 0
Ranks r s = s.0.prev_rank_state ≡ r

abbrev RowsLanded : EventTrackerBase × World → Type 0
RowsLanded s = rows_landed s.1.log ≡ true

pub Ranks-calls : (r : HashMap ℤ RankState) → KeptByCalls (Ranks r)
Ranks-calls r e succeeded b w h = h

pub Ranks-bloom : (r : HashMap ℤ RankState) → KeptByBloom (Ranks r)
Ranks-bloom r = (λ user_keys calls b w h. h, λ states b w h l. h)

RowsLanded-calls : KeptByCalls RowsLanded
RowsLanded-calls insert_rankings true b w h = refl
RowsLanded-calls insert_rankings false b w h = h
RowsLanded-calls e succeeded b w h = h

RowsLanded-bloom : KeptByBloom RowsLanded
RowsLanded-bloom = (λ user_keys calls b w h. h, λ states b w h l. h)

-- The chapter states are those before, or chapter rows have landed.
abbrev BloomSound : HashMap WorldBloomKey PlayerState → EventTrackerBase × World → Type 0
BloomSound m s = (s.0.prev_world_bloom_state ≡ m) ⊎ (bloom_landed s.1.log ≡ true)

bloom_landed-called :
    (e : Effect) (succeeded : Bool) (w : World)
    → bloom_landed w.log ≡ true
    → bloom_landed (called e succeeded w).log ≡ true
bloom_landed-called insert_bloom true w h = refl
bloom_landed-called insert_bloom false w h = h
bloom_landed-called e succeeded w h = h

BloomSound-calls : (m : HashMap WorldBloomKey PlayerState) → KeptByCalls (BloomSound m)
BloomSound-calls m e succeeded b w (inl h) = inl h
BloomSound-calls m e succeeded b w (inr h) = inr (bloom_landed-called e succeeded w h)

BloomSound-bloom : (m : HashMap WorldBloomKey PlayerState) → KeptByBloom (BloomSound m)
BloomSound-bloom m = (λ user_keys calls b w h. h, λ states b w h l. inr l)

extend-is_empty : (m d : HashMap ℤ RankState) → is_empty d ≡ true → HashMap.extend m d ≡ m
unfolding HashMap.extend
extend-is_empty m [] h = refl
extend-is_empty m (c ∷ d) h = absurd (ground arith)

Post-sum :
    {A : Type 0} (P C : EventTrackerBase × World → Type 0) (r : Result TrackerError A)
    (s : EventTrackerBase × World)
    → Post (λ _. C) (λ t. P t ⊎ C t) (r, s)
    → P s ⊎ C s
Post-sum P C (ok a) s h = inr h
Post-sum P C (err e) s h = h

commit_ranks-Keeps :
    {Json : Type 0} (I : EventTrackerBase × World → Type 0) (p : Plan Json)
    → ((ranks : HashMap ℤ RankState) (b : EventTrackerBase) (w : World)
        → I (b, w)
        → I (record b { prev_rank_state = ranks }, w))
    → Triple I (commit_ranks p) (λ _. I) I
commit_ranks-Keeps I p hr s i = elim (Bool-cases (is_empty p.changed_ranks)) [
  | inl e ↦ rw e i
  | inr e ↦ rw e (hr (HashMap.extend s.0.prev_rank_state p.changed_ranks) s.0 s.1 i)
]

module _ {Json : Type 0} (env : Env Json) where
  -- A persist whose first part runs from `P` to `M`, and whose commit from `M` to `C`.
  pub persist_plan-Triple :
      (P M C : EventTrackerBase × World → Type 0) (d : HandledRankingData Json) (p : Plan Json)
      (only_world_bloom write_idle_heartbeat : Bool) (now : ℤ)
      → KeptByCalls P
      → KeptByCalls C
      → KeptByBloom C
      → Triple P (write_main env p) (λ _. M) P
      → Triple M (commit_ranks p) (λ _. C) C
      → Triple P
          (persist_plan env d p only_world_bloom write_idle_heartbeat now)
          (λ _. C)
          (λ s. P s ⊎ C s)
  unfolding persist_plan
  persist_plan-Triple P M C d p only_world_bloom write_idle_heartbeat now hp hc hb hm ht =
      >>=-Triple (λ _. C) (λ _. C) (λ s. P s ⊎ C s)
        (when (will_write p) (cache_call env begin_update)
          >> write_main env p
          >>= (λ batch_called. commit_ranks p >> write_world_bloom env p batch_called))
        (finish_persist env d p only_world_bloom write_idle_heartbeat now)
        (>>=-Triple (λ _. M) (λ _. C) (λ s. P s ⊎ C s)
          (when (will_write p) (cache_call env begin_update) >> write_main env p)
          (λ batch_called. commit_ranks p >> write_world_bloom env p batch_called)
          (Triple-mono (λ _. M) (λ _. M) P (λ s. P s ⊎ C s)
            (when (will_write p) (cache_call env begin_update) >> write_main env p) (λ _ s m. m)
            (λ s h. inl h)
            (>>=-Triple (λ _. P) (λ _. M) P (when (will_write p) (cache_call env begin_update))
              (λ _. write_main env p)
              (when-Keeps env P hp (will_write p) (cache_call env begin_update)
                (cache_call-Keeps env P hp begin_update))
              (λ _. hm)))
          (λ batch_called.
            Triple-mono (λ _. C) (λ _. C) C (λ s. P s ⊎ C s)
              (commit_ranks p >> write_world_bloom env p batch_called) (λ _ s c. c) (λ s h. inr h)
              (>>-Keeps (commit_ranks p) (write_world_bloom env p batch_called) ht
                (write_world_bloom-Keeps env C hc hb p batch_called))))
        (λ batch_called.
          Triple-mono (λ _. C) (λ _. C) C (λ s. P s ⊎ C s)
            (finish_persist env d p only_world_bloom write_idle_heartbeat now batch_called)
            (λ _ s c. c) (λ s h. inr h)
            (finish_persist-Keeps env C hc d p only_world_bloom write_idle_heartbeat now
              batch_called))

  insert-landed :
      (p : Plan Json) (r : HashMap ℤ RankState)
      → is_empty p.records ≡ false
      → Triple (Ranks r) (write_main env p) (λ _. RowsLanded) (Ranks r)
  unfolding write_main batch_insert_event_rankings
  insert-landed p r e s h = elim (Bool-cases (env.succeeds s.1.calls)) [
    | inl a ↦ elim (Bool-cases (env.succeeds (suc s.1.calls))) [
      | inl c ↦ rw (e, a, c) refl
      | inr c ↦ elim (Bool-cases env.api_cache) [
        | inl k ↦ rw (e, a, c, k) h
        | inr k ↦ rw (e, a, c, k) h
      ]
    ]
    | inr a ↦ elim (Bool-cases env.api_cache) [ inl k ↦ rw (e, a, k) h | inr k ↦ rw (e, a, k) h ]
  ]

  pub commit_ranks-Ranks :
      (p : Plan Json) (r : HashMap ℤ RankState)
      → Triple
          (Ranks r)
          (commit_ranks p)
          (λ _. Ranks (HashMap.extend r p.changed_ranks))
          (Ranks (HashMap.extend r p.changed_ranks))
  unfolding HashMap.extend
  commit_ranks-Ranks p r s h = elim (Bool-cases (is_empty p.changed_ranks)) [
    | inl e ↦ rw e (h ∙ sym (extend-is_empty r p.changed_ranks e))
    | inr e ↦ rw (e, h) refl
  ]

  -- A persist with rows to record advances the rank state only once the rows have landed: else it
  -- is the one before, and the next tick finds the same changes.
  pub persist_ranking_data_ranks :
      (d : HandledRankingData Json) (only_world_bloom write_idle_heartbeat : Bool) (now : ℤ)
      (b : EventTrackerBase) (w : World)
      → is_empty (plan b d only_world_bloom).records ≡ false
      → let after =
          (persist_ranking_data env d only_world_bloom write_idle_heartbeat now (b, w)).1 in
        (after.0.prev_rank_state ≡ b.prev_rank_state) ⊎ (rows_landed after.1.log ≡ true)
  unfolding persist_ranking_data
  persist_ranking_data_ranks d only_world_bloom write_idle_heartbeat now b w e =
      let p = plan b d only_world_bloom in
      Post-sum (Ranks b.prev_rank_state) RowsLanded _ _ (
        persist_plan-Triple (Ranks b.prev_rank_state) RowsLanded RowsLanded d p only_world_bloom
          write_idle_heartbeat now (Ranks-calls b.prev_rank_state) RowsLanded-calls RowsLanded-bloom
          (insert-landed p b.prev_rank_state e)
          (commit_ranks-Keeps RowsLanded p (λ ranks b' w' h. h)) (b, w) refl)

  -- The states of the chapters are those before, unless chapter rows have landed.
  pub persist_ranking_data_chapters :
      (d : HandledRankingData Json) (only_world_bloom write_idle_heartbeat : Bool) (now : ℤ)
      (b : EventTrackerBase) (w : World)
      → let after =
          (persist_ranking_data env d only_world_bloom write_idle_heartbeat now (b, w)).1 in
        (after.0.prev_world_bloom_state ≡ b.prev_world_bloom_state)
        ⊎ (bloom_landed after.1.log ≡ true)
  unfolding persist_ranking_data
  persist_ranking_data_chapters d only_world_bloom write_idle_heartbeat now b w =
      let p = plan b d only_world_bloom in
      let I = BloomSound b.prev_world_bloom_state in
      let hc = BloomSound-calls b.prev_world_bloom_state in
      elim (Post-sum I I _ _ (
        persist_plan-Triple I I I d p only_world_bloom write_idle_heartbeat now hc hc
          (BloomSound-bloom b.prev_world_bloom_state) (write_main-Keeps env I hc p)
          (commit_ranks-Keeps I p (λ ranks b' w' h. h)) (b, w) (inl refl))) [
            | inl h ↦ h
            | inr h ↦ h
          ]
