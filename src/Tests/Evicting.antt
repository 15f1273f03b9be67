-- ===== src/Tests/Evicting.antt =====
-- Runs of the eviction of the local cache.
use haruki_event_tracker.Prelude.{
  ℕ, ◌+◌, ◌/◌, ◌≤◌, ltb, max, [], ◌∷◌, length, ◌≡◌, refl, arith, list_eq, nat_eq,
}
use haruki_event_tracker.Prelude.HashMap.{HashMap}
use haruki_event_tracker.Prelude.Text.{Text, codes}
use haruki_event_tracker.Api.Cache.Local.{L1Value, L1Cache, retain, evict_if_full, insert_value}
use haruki_event_tracker.Api.Cache.Local.Bounds.{evict_if_full_keeps, insert_value_bounds}
use haruki_event_tracker.Api.Cache.Local.Ties.{evict_if_full_ties}

abbrev lasting : ℕ → L1Value
lasting t = record { bytes = codes "v"; expires_at = t }

-- A shard with three values, the first of which has expired at 10.
abbrev shard_of_three : HashMap Text L1Value
shard_of_three = (codes "a", lasting 5) ∷ (codes "b", lasting 20) ∷ (codes "c", lasting 30) ∷ []

evict_if_full_keeps_example :
    length (retain (λ v. v.expires_at) (λ at. ltb 10 at) shard_of_three)
    ≤ length (evict_if_full (λ v. v.expires_at) 2 10 shard_of_three)
      + max (length (retain (λ v. v.expires_at) (λ at. ltb 10 at) shard_of_three) / 4) 1
evict_if_full_keeps_example = evict_if_full_keeps (λ v. v.expires_at) 2 10 shard_of_three

-- A cache of two values per shard, and one shard that is full.
abbrev full_cache : L1Cache
full_cache = record {
  max_entries = 32;
  max_per_shard = 2;
  controls = λ i. [];
  values = λ i. (codes "b", lasting 20) ∷ (codes "c", lasting 30) ∷ [];
}

insert_value_bounds_example :
    length ((insert_value (λ k. 0) 10 (codes "d") (lasting 40) full_cache).values 0) ≤ max 2 2
insert_value_bounds_example =
    insert_value_bounds (λ k. 0) 10 (codes "d") (lasting 40) full_cache
      (λ i. ((λ e. absurd (ground (arith, e)), tt), (tt, tt))) (λ i. omega arith) 0

-- Three values in a shard for two, which expire together.
abbrev tied : HashMap Text L1Value
tied = (codes "a", lasting 20) ∷ (codes "b", lasting 20) ∷ (codes "c", lasting 20) ∷ []

evict_if_full_ties_example : evict_if_full (λ v. v.expires_at) 2 10 tied ≡ tied
evict_if_full_ties_example =
    evict_if_full_ties (λ v. v.expires_at) 2 10 20 tied (omega arith) (refl, (refl, (refl, tt)))
