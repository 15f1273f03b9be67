-- ===== src/Api/Cache/Local.antt =====
-- src/api/cache.rs: the process-local cache, `L1Cache`. Its sixteen shards are maps under an index;
-- the hash that picks a shard is a parameter, and so is the clock, `now`, in milliseconds.
pub mod Sorting
pub mod Bounds
pub mod Ties
pub mod Values
use haruki_event_tracker.Prelude.{
  ℕ, ◌+◌, ◌-◌, ◌/◌, ◌%◌, ◌^◌, min, max, nat_beq, ltb, leb, ℤ, Bool, true, false, ◌||◌, List, [],
  map, length, filter, get_elem?, Option, none, some, if◌then◌else◌, list_eq, nat_eq,
}
use haruki_event_tracker.Prelude.HashMap
use haruki_event_tracker.Prelude.HashMap.{HashMap}
use haruki_event_tracker.Prelude.Text.{Text}
use haruki_event_tracker.Api.Cache.Config.{ApiCacheConfig}
use haruki_event_tracker.Api.Cache.Local.Sorting.{sort}

abbrev pub l1_shards : ℕ
l1_shards = 16

pub record L1Control : Type 0 where
  pub epoch : ℤ
  pub dirty : Bool
  pub expires_at : ℕ

pub record L1Value : Type 0 where
  pub bytes : Text
  pub expires_at : ℕ

pub record L1Cache : Type 0 where
  pub max_entries : ℕ
  pub max_per_shard : ℕ
  pub controls : ℕ → HashMap Text L1Control
  pub values : ℕ → HashMap Text L1Value

-- `max_entries.div_ceil(L1_SHARDS).max(1)`
unfoldable pub new : ℕ → L1Cache
new max_entries = record {
  max_entries = max_entries;
  max_per_shard = max ((max_entries + 15) / l1_shards) 1;
  controls = λ i. [];
  values = λ i. [];
}

abbrev pub shard : (Text → ℕ) → Text → ℕ
shard hash key = hash key / 2 ^ 32 % l1_shards

-- The maps of all shards, with that of one replaced.
abbrev pub set_shard {ℓ} :
    {V : Type ℓ} → ℕ → HashMap Text V → (ℕ → HashMap Text V) → ℕ → HashMap Text V
set_shard i m shards j = if nat_beq j i then m else shards j

module _ {ℓ} {V : Type ℓ} (expires_at : V → ℕ) where
  -- `retain`, on the expiry.
  abbrev pub retain : (ℕ → Bool) → HashMap Text V → HashMap Text V
  retain keep m = filter (λ e. keep (expires_at e.1)) m

  -- A lookup of a shard: an entry that has expired is removed.
  abbrev pub get_unexpired : ℕ → Text → HashMap Text V → Option V × HashMap Text V
  get_unexpired now key m = elim (HashMap.get key m) [
    | some v ↦ if ltb now (expires_at v) then (some v, m) else (none, HashMap.remove key m)
    | none ↦ (none, m)
  ]

  abbrev pub deadlines : HashMap Text V → List ℕ
  deadlines m = map (λ e. expires_at e.1) m

  abbrev pub to_drop : ℕ → ℕ
  to_drop len = min (max (len / 4) 1) (len - 1)

  -- `select_nth_unstable` leaves the element of that rank at the index.
  abbrev pub drop_oldest : HashMap Text V → HashMap Text V
  drop_oldest m = elim (get_elem? (sort (deadlines m)) (to_drop (length m))) [
    | some cutoff ↦ retain (λ at. leb cutoff at) m
    | none ↦ m
  ]

  unfoldable pub evict_if_full : ℕ → ℕ → HashMap Text V → HashMap Text V
  unfolding sort
  evict_if_full max_per_shard now m =
      if ltb (length m) max_per_shard
      then m
      else (let fresh = retain (λ at. ltb now at) m in
          if ltb (length fresh) max_per_shard || leb (length fresh) 1
          then fresh
          else drop_oldest fresh)

module _ (hash : Text → ℕ) where
  unfoldable pub get_control : ℕ → Text → L1Cache → Option L1Control × L1Cache
  unfolding HashMap.get
  get_control now key l1 =
      let found = get_unexpired (λ v. v.expires_at) now key (l1.controls (shard hash key)) in
      (found.0, record l1 { controls = set_shard (shard hash key) found.1 l1.controls })

  unfoldable pub get_value : ℕ → Text → L1Cache → Option Text × L1Cache
  unfolding HashMap.get
  get_value now key l1 =
      let found = get_unexpired (λ v. v.expires_at) now key (l1.values (shard hash key)) in
      (
        elim found.0 [ none ↦ none | some v ↦ some v.bytes ],
        record l1 { values = set_shard (shard hash key) found.1 l1.values },
      )

  unfoldable pub insert_control : ℕ → Text → L1Control → L1Cache → L1Cache
  unfolding HashMap.insert evict_if_full
  insert_control now key value l1 = if nat_beq l1.max_entries 0 then l1 else record l1 {
    controls =
        set_shard (shard hash key)
          (HashMap.insert key value
            (evict_if_full (λ v. v.expires_at) l1.max_per_shard now (l1.controls (shard hash key))))
          l1.controls;
  }

  unfoldable pub insert_value : ℕ → Text → L1Value → L1Cache → L1Cache
  unfolding HashMap.insert evict_if_full
  insert_value now key value l1 = if nat_beq l1.max_entries 0 then l1 else record l1 {
    values =
        set_shard (shard hash key)
          (HashMap.insert key value
            (evict_if_full (λ v. v.expires_at) l1.max_per_shard now (l1.values (shard hash key))))
          l1.values;
  }

  unfoldable pub store_l1_control : ApiCacheConfig → ℕ → Text → ℤ → Bool → L1Cache → L1Cache
  unfolding insert_control
  store_l1_control cfg now key epoch dirty l1 =
      if nat_beq cfg.local_control_ttl_ms 0
      then l1
      else insert_control now key
          (record { epoch = epoch; dirty = dirty; expires_at = now + cfg.local_control_ttl_ms }) l1

  unfoldable pub store_l1_value : ApiCacheConfig → ℕ → Text → Text → L1Cache → L1Cache
  unfolding insert_value
  store_l1_value cfg now key bytes l1 =
      if nat_beq cfg.local_value_ttl_ms 0
      then l1
      else insert_value now key
          (record { bytes = bytes; expires_at = now + cfg.local_value_ttl_ms }) l1
