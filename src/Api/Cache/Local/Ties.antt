-- ===== src/Api/Cache/Local/Ties.antt =====
-- A full shard whose entries all expire at one instant.
use haruki_event_tracker.Prelude.{
  ℕ, ◌<◌, ltb, leb, Bool, true, ◌||◌, List, [], ◌∷◌, length, get_elem?, All, ◌≡◌, refl, ap, ◌∙◌,
  arith, Bool-cases, Option-cases, inl, inr,
}
use haruki_event_tracker.Prelude.HashMap.{HashMap}
use haruki_event_tracker.Prelude.Text.{Text}
use haruki_event_tracker.Api.Cache.Local.{retain, deadlines, to_drop, drop_oldest, evict_if_full}
use haruki_event_tracker.Api.Cache.Local.Sorting.{sort, All-sort, All-get_elem?}
use haruki_event_tracker.Api.Cache.Local.Bounds.{drop_oldest-retain}

module _ {ℓ} {V : Type ℓ} (expires_at : V → ℕ) where
  -- Nothing is dropped when every entry is to be kept.
  retain_all :
      (keep : ℕ → Bool) (m : HashMap Text V)
      → All (λ at. keep at ≡ true) (deadlines expires_at m)
      → retain expires_at keep m ≡ m
  retain_all keep [] h = refl
  retain_all keep (e ∷ m) h = rw h.0 (ap (λ x. e ∷ x) (retain_all keep m h.1))

  same-All :
      (t : ℕ) (keep : ℕ → Bool) (ds : List ℕ)
      → keep t ≡ true
      → All (λ at. at ≡ t) ds
      → All (λ at. keep at ≡ true) ds
  same-All t keep [] k h = tt
  same-All t keep (d ∷ ds) k h = (ap keep h.0 ∙ k, same-All t keep ds k h.1)

  drop_oldest_same :
      (t : ℕ) (m : HashMap Text V)
      → All (λ at. at ≡ t) (deadlines expires_at m)
      → drop_oldest expires_at m ≡ m
  drop_oldest_same t m h =
      elim (Option-cases
        (get_elem? (sort (deadlines expires_at m)) (to_drop expires_at (length m)))) [
          | inl n ↦ rw (n, drop_oldest) refl
          | inr (c, n) ↦
              let cutoff =
                All-get_elem? _ (sort (deadlines expires_at m)) (to_drop expires_at (length m)) c
                  (All-sort (λ at. at ≡ t) (deadlines expires_at m) h) n in
              drop_oldest-retain expires_at m c n
              ∙ retain_all (λ at. leb c at) m
                  (same-All t (λ at. leb c at) _ (ground (arith, cutoff)) h)
        ]

  -- When every entry of a shard expires at one instant that is still to come, eviction drops
  -- nothing, however full the shard is.
  pub evict_if_full_ties :
      (max_per_shard now t : ℕ) (m : HashMap Text V)
      → now < t
      → All (λ at. at ≡ t) (deadlines expires_at m)
      → evict_if_full expires_at max_per_shard now m ≡ m
  unfolding evict_if_full
  evict_if_full_ties max_per_shard now t m b h =
      let fresh =
        retain_all (λ at. ltb now at) m (same-All t (λ at. ltb now at) _ (ground (arith, b)) h) in
      elim (Bool-cases (ltb (length m) max_per_shard)) [
        | inl room ↦ rw room refl
        | inr full ↦ elim (Bool-cases (ltb (length m) max_per_shard || leb (length m) 1)) [
          | inl small ↦ rw (full, fresh, small) refl
          | inr packed ↦ rw (full, fresh, packed) (drop_oldest_same t m h)
        ]
      ]
