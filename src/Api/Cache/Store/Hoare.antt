-- ===== src/Api/Cache/Store/Hoare.antt =====
-- Assertions on the actions of a lookup: an invariant of the store, and what the result satisfies.
use haruki_event_tracker.Prelude.{}
use haruki_event_tracker.Api.Cache.Store.{Store, Exec, ◌>>=◌, pure}

-- From a store with the invariant, the action ends in one, with a result of which `Q` holds.
abbrev pub Keeps : (Store → Type 0) → {A : Type 0} → (A → Type 0) → Exec A → Type 0
Keeps I Q m = (s : Store) → I s → I (m s).1 × Q (m s).0

module _ (I : Store → Type 0) {A : Type 0} (Q : A → Type 0) where
  pub Keeps-pure : (a : A) → Q a → Keeps I Q (pure a)
  Keeps-pure a q s i = (i, q)

  pub Keeps->>= :
      {B : Type 0} (R : B → Type 0) (m : Exec B) (f : B → Exec A)
      → Keeps I R m
      → ((b : B) → R b → Keeps I Q (f b))
      → Keeps I Q (m >>= f)
  Keeps->>= R m f h k s i = let (j, r) = h s i in k (m s).0 r (m s).1 j
