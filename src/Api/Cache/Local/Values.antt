-- ===== src/Api/Cache/Local/Values.antt =====
-- A relation of keys and bytes that every value of the local cache satisfies, through its
-- operations.
use haruki_event_tracker.Prelude.{
  ℕ, ℤ, nat_beq, ltb, leb, Bool, ◌||◌, [], ◌∷◌, length, filter, get_elem?, All, some, ◌≡◌, sym,
  subst, arith, list_eq, nat_eq, list_beq, list_beq_iff, Bool-cases, Option-cases, inl, inr,
}
use haruki_event_tracker.Prelude.HashMap
use haruki_event_tracker.Prelude.HashMap.{HashMap}
use haruki_event_tracker.Prelude.Text.{Text}
use haruki_event_tracker.Api.Cache.Config.{ApiCacheConfig}
use haruki_event_tracker.Api.Cache.Local
use haruki_event_tracker.Api.Cache.Local.{
  L1Value, L1Cache, shard, set_shard, retain, deadlines, to_drop, drop_oldest, evict_if_full,
  get_unexpired,
}
use haruki_event_tracker.Api.Cache.Local.Sorting.{sort}

module _ (P : Text → Text → Type 0) where
  abbrev pub AllEntries : HashMap Text L1Value → Type 0
  AllEntries = All (λ e. P e.0 e.1.bytes)

  abbrev pub AllValues : L1Cache → Type 0
  AllValues l1 = (i : ℕ) → AllEntries (l1.values i)

  get-P :
      (key : Text) (v : L1Value) (m : HashMap Text L1Value)
      → AllEntries m
      → HashMap.get key m ≡ some v
      → P key v.bytes
  unfolding HashMap.get
  get-P key v [] h e = absurd (ground arith)
  get-P key v ((j, w) ∷ m) h e = elim (Bool-cases (list_beq ⦃e = nat_eq⦄ j key)) [
    | inl same ↦
        let held : w ≡ v = ground arith in
        subst (λ k. P k v.bytes) ((list_beq_iff ⦃e = nat_eq⦄ j key).0 same)
          (subst (λ u. P j u.bytes) held h.0)
    | inr other ↦ get-P key v m h.1 (ground arith)
  ]

  insert-AllEntries :
      (key : Text) (v : L1Value) (m : HashMap Text L1Value)
      → P key v.bytes
      → AllEntries m
      → AllEntries (HashMap.insert key v m)
  unfolding HashMap.insert
  insert-AllEntries key v [] p h = (p, tt)
  insert-AllEntries key v ((j, w) ∷ m) p h = elim (Bool-cases (list_beq ⦃e = nat_eq⦄ j key)) [
    | inl same ↦
        rw same (subst (λ k. P k v.bytes) (sym ((list_beq_iff ⦃e = nat_eq⦄ j key).0 same)) p, h.1)
    | inr other ↦ rw other (h.0, insert-AllEntries key v m p h.1)
  ]

  remove-AllEntries :
      (key : Text) (m : HashMap Text L1Value) → AllEntries m → AllEntries (HashMap.remove key m)
  unfolding HashMap.remove
  remove-AllEntries key [] h = tt
  remove-AllEntries key ((j, w) ∷ m) h = elim (Bool-cases (list_beq ⦃e = nat_eq⦄ j key)) [
    | inl same ↦ rw same h.1
    | inr other ↦ rw other (h.0, remove-AllEntries key m h.1)
  ]

  filter-AllEntries :
      (keep : Text × L1Value → Bool) (m : HashMap Text L1Value)
      → AllEntries m
      → AllEntries (filter keep m)
  filter-AllEntries keep [] h = tt
  filter-AllEntries keep (e ∷ m) h = elim (Bool-cases (keep e)) [
    | inl kept ↦ rw kept (h.0, filter-AllEntries keep m h.1)
    | inr dropped ↦ rw dropped (filter-AllEntries keep m h.1)
  ]

  drop_oldest-AllEntries :
      (m : HashMap Text L1Value) → AllEntries m → AllEntries (drop_oldest (λ v. v.expires_at) m)
  drop_oldest-AllEntries m h =
      elim (Option-cases (
        get_elem? (sort (deadlines (λ v. v.expires_at) m))
          (to_drop {V = L1Value} (λ v. v.expires_at) (length m)))) [
            | inl n ↦ rw (n, drop_oldest) h
            | inr (c, n) ↦ rw (n, drop_oldest) (filter-AllEntries (λ e. leb c e.1.expires_at) m h)
          ]

  evict-AllEntries :
      (limit now : ℕ) (m : HashMap Text L1Value)
      → AllEntries m
      → AllEntries (evict_if_full (λ v. v.expires_at) limit now m)
  unfolding evict_if_full
  evict-AllEntries limit now m h =
      let kept = filter-AllEntries (λ e. ltb now e.1.expires_at) m h in
      elim (Bool-cases (ltb (length m) limit)) [
        | inl room ↦ rw room h
        | inr full ↦
            elim (Bool-cases (
              ltb (length (retain (λ v. v.expires_at) (λ at. ltb now at) m)) limit
              || leb (length (retain (λ v. v.expires_at) (λ at. ltb now at) m)) 1)) [
                | inl room ↦ rw (full, room) kept
                | inr packed ↦ rw (full, packed) (drop_oldest-AllEntries _ kept)
              ]
      ]

  set_shard-AllEntries :
      (i : ℕ) (m : HashMap Text L1Value) (shards : ℕ → HashMap Text L1Value)
      → ((j : ℕ) → AllEntries (shards j))
      → AllEntries m
      → (j : ℕ) → AllEntries (set_shard i m shards j)
  set_shard-AllEntries i m shards h k j = elim (Bool-cases (nat_beq j i)) [
    | inl same ↦ rw same k
    | inr other ↦ rw other (h j)
  ]

  get_unexpired-AllEntries :
      (now : ℕ) (key : Text) (m : HashMap Text L1Value)
      → AllEntries m
      → AllEntries (get_unexpired (λ v. v.expires_at) now key m).1
  get_unexpired-AllEntries now key m h = elim (Option-cases (HashMap.get key m)) [
    | inl n ↦ rw (n, get_unexpired) h
    | inr (v, n) ↦ elim (Bool-cases (ltb now v.expires_at)) [
      | inl live ↦ rw (n, get_unexpired, live) h
      | inr stale ↦ rw (n, get_unexpired, stale) (remove-AllEntries key m h)
    ]
  ]

  get_unexpired-P :
      (now : ℕ) (key : Text) (v : L1Value) (m : HashMap Text L1Value)
      → AllEntries m
      → (get_unexpired (λ v. v.expires_at) now key m).0 ≡ some v
      → P key v.bytes
  get_unexpired-P now key v m h e = elim (Option-cases (HashMap.get key m)) [
    | inl n ↦ absurd (ground arith)
    | inr (w, n) ↦ get-P key v m h (ground arith)
  ]

  module _ (hash : Text → ℕ) where
    pub get_value-AllValues :
        (now : ℕ) (key : Text) (l1 : L1Cache)
        → AllValues l1
        → AllValues (Local.get_value hash now key l1).1
    unfolding Local.get_value
    get_value-AllValues now key l1 h =
        set_shard-AllEntries (shard hash key) _ l1.values h
          (get_unexpired-AllEntries now key (l1.values (shard hash key)) (h (shard hash key)))

    -- A value that is found satisfies the relation with its key.
    pub get_value-P :
        (now : ℕ) (key bytes : Text) (l1 : L1Cache)
        → AllValues l1
        → (Local.get_value hash now key l1).0 ≡ some bytes
        → P key bytes
    unfolding Local.get_value
    get_value-P now key bytes l1 h e =
        elim (Option-cases
          (get_unexpired (λ v. v.expires_at) now key (l1.values (shard hash key))).0) [
            | inl n ↦ absurd (ground arith)
            | inr (v, n) ↦
                let same : v.bytes ≡ bytes = ground arith in
                subst (P key) same (get_unexpired-P now key v _ (h (shard hash key)) n)
          ]

    pub store_l1_value-AllValues :
        (cfg : ApiCacheConfig) (now : ℕ) (key bytes : Text) (l1 : L1Cache)
        → P key bytes
        → AllValues l1
        → AllValues (Local.store_l1_value hash cfg now key bytes l1)
    unfolding Local.store_l1_value Local.insert_value
    store_l1_value-AllValues cfg now key bytes l1 p h =
        elim (Bool-cases (nat_beq cfg.local_value_ttl_ms 0)) [
          | inl off ↦ rw off h
          | inr on ↦ elim (Bool-cases (nat_beq l1.max_entries 0)) [
            | inl none_kept ↦ rw (on, none_kept) h
            | inr kept ↦
                rw (on, kept)
                  (set_shard-AllEntries (shard hash key) _ l1.values h (
                    insert-AllEntries key _ _ p
                      (evict-AllEntries l1.max_per_shard now _ (h (shard hash key)))))
          ]
        ]

    pub get_control-AllValues :
        (now : ℕ) (key : Text) (l1 : L1Cache)
        → AllValues l1
        → AllValues (Local.get_control hash now key l1).1
    unfolding Local.get_control
    get_control-AllValues now key l1 h = h

    pub store_l1_control-AllValues :
        (cfg : ApiCacheConfig) (now : ℕ) (key : Text) (epoch : ℤ) (dirty : Bool) (l1 : L1Cache)
        → AllValues l1
        → AllValues (Local.store_l1_control hash cfg now key epoch dirty l1)
    unfolding Local.store_l1_control Local.insert_control
    store_l1_control-AllValues cfg now key epoch dirty l1 h =
        elim (Bool-cases (nat_beq cfg.local_control_ttl_ms 0)) [
          | inl off ↦ rw off h
          | inr on ↦ elim (Bool-cases (nat_beq l1.max_entries 0)) [
            | inl none_kept ↦ rw (on, none_kept) h
            | inr kept ↦ rw (on, kept) h
          ]
        ]
