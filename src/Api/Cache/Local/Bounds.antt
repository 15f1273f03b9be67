-- ===== src/Api/Cache/Local/Bounds.antt =====
-- How many entries a shard of the local cache keeps.
use haruki_event_tracker.Prelude.{
  ℕ, zero, suc, ◌+◌, ◌/◌, max, ◌≤◌, ◌<◌, ltb, leb, nat_beq, Bool, ◌||◌, List, [], ◌∷◌, map, length,
  get_elem?, All, some, ◌≡◌, refl, arith, list_eq, nat_eq, Bool-cases, inl, inr, length-filter-le,
}
use haruki_event_tracker.Prelude.HashMap
use haruki_event_tracker.Prelude.HashMap.{HashMap}
use haruki_event_tracker.Prelude.Text.{Text}
use haruki_event_tracker.Api.Cache.Local.{
  L1Value, L1Cache, shard, insert_value, retain, deadlines, to_drop, drop_oldest, evict_if_full,
}
use haruki_event_tracker.Api.Cache.Local.Sorting.{
  sort, count_from, AreDistinct, count_from_rank, count_from_rank_distinct, length-sort,
}

get_elem?-below : (xs : List ℕ) (i : ℕ) → i < length xs → (c : ℕ) × (get_elem? xs i ≡ some c)
get_elem?-below [] i h = absurd (ground arith)
get_elem?-below (x ∷ xs) zero h = (x, refl)
get_elem?-below (x ∷ xs) (suc i) h = get_elem?-below xs i (omega arith)

length-map {ℓ κ} :
    {A : Type ℓ} {B : Type κ} (f : A → B) (xs : List A) → length (map f xs) ≡ length xs
length-map f [] = refl
length-map f (x ∷ xs) = ground (arith, length-map f xs)

length-insert-le {ℓ} :
    {V : Type ℓ} (k : Text) (v : V) (m : HashMap Text V)
    → length (HashMap.insert k v m) ≤ 1 + length m
unfolding HashMap.insert
length-insert-le k v [] = omega arith
length-insert-le k v ((j, w) ∷ m) = ground (arith, length-insert-le k v m)

module _ {ℓ} {V : Type ℓ} (expires_at : V → ℕ) where
  length-retain :
      (c : ℕ) (m : HashMap Text V)
      → length (retain expires_at (λ at. leb c at) m) ≡ count_from c (deadlines expires_at m)
  length-retain c [] = refl
  length-retain c (e ∷ m) = ground (arith, length-retain c m)

  retain-All :
      (P : ℕ → Type 0) (keep : ℕ → Bool) (m : HashMap Text V)
      → All P (deadlines expires_at m)
      → All P (deadlines expires_at (retain expires_at keep m))
  retain-All P keep [] h = tt
  retain-All P keep (e ∷ m) h = elim (Bool-cases (keep (expires_at e.1))) [
    | inl kept ↦ rw kept (h.0, retain-All P keep m h.1)
    | inr dropped ↦ rw dropped (retain-All P keep m h.1)
  ]

  retain-AreDistinct :
      (keep : ℕ → Bool) (m : HashMap Text V)
      → AreDistinct (deadlines expires_at m)
      → AreDistinct (deadlines expires_at (retain expires_at keep m))
  retain-AreDistinct keep [] h = tt
  retain-AreDistinct keep (e ∷ m) h = elim (Bool-cases (keep (expires_at e.1))) [
    | inl kept ↦ rw kept (retain-All _ keep m h.0, retain-AreDistinct keep m h.1)
    | inr dropped ↦ rw dropped (retain-AreDistinct keep m h.1)
  ]

  -- There is a deadline of the rank to drop.
  cutoff :
      (m : HashMap Text V)
      → 1 < length m
      → (c : ℕ) × (get_elem? (sort (deadlines expires_at m)) (to_drop expires_at (length m))
          ≡ some c)
  cutoff m h =
      get_elem?-below (sort (deadlines expires_at m)) (to_drop expires_at (length m))
        (ground (arith, length-sort (deadlines expires_at m), length-map (λ e. expires_at e.1) m))

  pub drop_oldest-retain :
      (m : HashMap Text V) (c : ℕ)
      → get_elem? (sort (deadlines expires_at m)) (to_drop expires_at (length m)) ≡ some c
      → drop_oldest expires_at m ≡ retain expires_at (λ at. leb c at) m
  drop_oldest-retain m c e = rw (e, drop_oldest) refl

  -- Dropping the oldest keeps all but the number to drop, or more.
  drop_oldest_keeps :
      (m : HashMap Text V)
      → 1 < length m
      → length m ≤ length (drop_oldest expires_at m) + to_drop expires_at (length m)
  drop_oldest_keeps m h =
      let (c, e) = cutoff m h in
      rw (drop_oldest-retain m c e) (
        ground (
          arith,
          length-retain c m,
          count_from_rank (deadlines expires_at m) _ c e,
          length-map (λ e. expires_at e.1) m,
        ))

  drop_oldest_drops :
      (m : HashMap Text V)
      → 1 < length m
      → AreDistinct (deadlines expires_at m)
      → length (drop_oldest expires_at m) + to_drop expires_at (length m) ≡ length m
  drop_oldest_drops m h d =
      let (c, e) = cutoff m h in
      rw (drop_oldest-retain m c e) (
        ground (
          arith,
          length-retain c m,
          count_from_rank_distinct (deadlines expires_at m) _ c d e,
          length-map (λ e. expires_at e.1) m,
        ))

  -- Of the entries of a shard that have not expired, eviction keeps all but a quarter, or all but
  -- one, or more.
  pub evict_if_full_keeps :
      (max_per_shard now : ℕ) (m : HashMap Text V)
      → length (retain expires_at (λ at. ltb now at) m)
        ≤ length (evict_if_full expires_at max_per_shard now m)
          + max (length (retain expires_at (λ at. ltb now at) m) / 4) 1
  unfolding evict_if_full
  evict_if_full_keeps max_per_shard now m =
      let fresh = retain expires_at (λ at. ltb now at) m in
      elim (Bool-cases (ltb (length m) max_per_shard)) [
        | inl room ↦ rw room (omega (arith, length-filter-le (λ e. ltb now (expires_at e.1)) m))
        | inr full ↦ elim (Bool-cases (ltb (length fresh) max_per_shard || leb (length fresh) 1)) [
          | inl room ↦ rw (full, room) (omega arith)
          | inr packed ↦ rw (full, packed) (ground (arith, drop_oldest_keeps fresh (ground arith)))
        ]
      ]

  -- A shard whose entries expire at different instants has room for one more after eviction:
  -- within the larger of its limit and 2.
  pub evict_if_full_room :
      (max_per_shard now : ℕ) (m : HashMap Text V)
      → AreDistinct (deadlines expires_at m)
      → length m ≤ max max_per_shard 2
      → length (evict_if_full expires_at max_per_shard now m) < max max_per_shard 2
  unfolding evict_if_full
  evict_if_full_room max_per_shard now m d h =
      let fresh = retain expires_at (λ at. ltb now at) m in
      let shrinks = length-filter-le (λ e. ltb now (expires_at e.1)) m in
      elim (Bool-cases (ltb (length m) max_per_shard)) [
        | inl room ↦ rw room (ground arith)
        | inr full ↦ elim (Bool-cases (ltb (length fresh) max_per_shard || leb (length fresh) 1)) [
          | inl room ↦ rw (full, room) (ground arith)
          | inr packed ↦
              rw (full, packed)
                (ground (
                  arith,
                  drop_oldest_drops fresh (ground arith)
                      (retain-AreDistinct (λ at. ltb now at) m d),
                ))
        ]
      ]

-- Every shard of values stays within the larger of the limit per shard and 2 when a value is
-- inserted, if it was, and if no two values of a shard expire at the same instant.
pub insert_value_bounds :
    (hash : Text → ℕ) (now : ℕ) (key : Text) (value : L1Value) (l1 : L1Cache)
    → ((i : ℕ) → AreDistinct (deadlines (λ v. v.expires_at) (l1.values i)))
    → ((i : ℕ) → length (l1.values i) ≤ max l1.max_per_shard 2)
    → (i : ℕ) → length ((insert_value hash now key value l1).values i) ≤ max l1.max_per_shard 2
unfolding insert_value
insert_value_bounds hash now key value l1 d h i = elim (Bool-cases (nat_beq l1.max_entries 0)) [
  | inl off ↦ rw off (h i)
  | inr on ↦ elim (Bool-cases (nat_beq i (shard hash key))) [
    | inl here ↦
        rw (on, here)
          (ground (
            arith,
            evict_if_full_room (λ v. v.expires_at) l1.max_per_shard now _ (d (shard hash key))
                (h (shard hash key)),
            length-insert-le key value (
                evict_if_full (λ v. v.expires_at) l1.max_per_shard now
                  (l1.values (shard hash key))),
          ))
    | inr other ↦ rw (on, other) (h i)
  ]
]
