-- ===== src/Prelude/HashMap.antt =====
-- `std::collections::HashMap` as an association list. The order of the entries is that of
-- insertion; the source's order is unspecified, so theorems speak of `get` and of membership.
use mathlib.Core.Path.{◌≡◌, refl}
use mathlib.Core.Bool.{Bool, true, false}
use mathlib.Core.List.{List, [], ◌∷◌, map}
use mathlib.Core.Option.{Option, none, some}
use native.Mathlib.Omega.{arith}
use haruki_event_tracker.Prelude.Tests.{if◌then◌else◌}
use haruki_event_tracker.Prelude.Equality.{Eq}

abbrev pub HashMap {ℓ κ} : Type ℓ → Type κ → Type (ℓ ⊔ κ)
HashMap K V = List (K × V)

module _ {ℓ κ} {K : Type ℓ} {V : Type κ} where
  abbrev pub keys : HashMap K V → List K
  keys = map (λ e. e.0)

  abbrev pub values : HashMap K V → List V
  values = map (λ e. e.1)

abbrev pub is_some {ℓ} : {A : Type ℓ} → Option A → Bool
is_some none = false
is_some (some a) = true

module _ {ℓ κ} {K : Type ℓ} {V : Type κ} ⦃e : Eq K⦄ where
  unfoldable pub get : K → HashMap K V → Option V
  get k [] = none
  get k ((j, v) ∷ m) = if e.beq j k then some v else get k m

  abbrev pub contains_key : K → HashMap K V → Bool
  contains_key k m = is_some (get k m)

  unfoldable pub insert : K → V → HashMap K V → HashMap K V
  insert k v [] = (k, v) ∷ []
  insert k v ((j, w) ∷ m) = if e.beq j k then (j, v) ∷ m else (j, w) ∷ insert k v m

  unfoldable pub remove : K → HashMap K V → HashMap K V
  remove k [] = []
  remove k ((j, w) ∷ m) = if e.beq j k then m else (j, w) ∷ remove k m

  -- `extend`: the entries of the second map are inserted into the first, in order.
  unfoldable pub extend : HashMap K V → HashMap K V → HashMap K V
  unfolding insert
  extend m [] = m
  extend m ((k, v) ∷ d) = extend (insert k v m) d

  -- `get(k).copied().unwrap_or(d)`
  abbrev pub get_or : K → V → HashMap K V → V
  get_or k d m = elim (get k m) [ none ↦ d | some v ↦ v ]

  -- No key stands twice.
  abbrev pub Distinct : HashMap K V → Type κ
  Distinct [] = Unit
  Distinct ((k, v) ∷ m) = (get k m ≡ none) × Distinct m

  pub get-insert :
      (k j : K) (v : V) (m : HashMap K V)
      → get j (insert k v m) ≡ (if e.beq k j then some v else get j m)
  unfolding get insert
  get-insert k j v [] = refl
  get-insert k j v ((i, w) ∷ m) =
      ground (arith, e.beq_iff k j, e.beq_iff i k, e.beq_iff i j, get-insert k j v m)

  pub get-insert_self : (k : K) (v : V) (m : HashMap K V) → get k (insert k v m) ≡ some v
  get-insert_self k v m = ground (arith, get-insert k k v m, e.beq_iff k k)

  pub insert-Distinct : (k : K) (v : V) (m : HashMap K V) → Distinct m → Distinct (insert k v m)
  unfolding insert get
  insert-Distinct k v [] d = (refl, tt)
  insert-Distinct k v ((i, w) ∷ m) d =
      ground (arith, e.beq_iff i k, e.beq_iff k i, get-insert k i v m, insert-Distinct k v m)

  pub get-remove :
      (k j : K) (m : HashMap K V)
      → Distinct m
      → get j (remove k m) ≡ (if e.beq k j then none else get j m)
  unfolding get remove
  get-remove k j [] d = ground arith
  get-remove k j ((i, w) ∷ m) d =
      ground (arith, e.beq_iff k j, e.beq_iff i k, e.beq_iff i j, get-remove k j m d.1)

  pub remove-Distinct : (k : K) (m : HashMap K V) → Distinct m → Distinct (remove k m)
  unfolding remove get
  remove-Distinct k [] d = tt
  remove-Distinct k ((i, w) ∷ m) d =
      ground (arith, get-remove k i m d.1, e.beq_iff k i, e.beq_iff i k, remove-Distinct k m d.1)

  -- A later entry of the extension wins: with distinct keys, the extension shadows the map.
  pub get-extend :
      (j : K) (d m : HashMap K V)
      → Distinct d
      → get j (extend m d) ≡ elim (get j d) [ none ↦ get j m | some v ↦ some v ]
  unfolding extend get
  get-extend j [] m h = refl
  get-extend j ((k, v) ∷ d) m h =
      ground (arith, get-extend j d (insert k v m) h.1, get-insert k j v m, e.beq_iff k j)
