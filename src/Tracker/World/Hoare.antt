-- ===== src/Tracker/World/Hoare.antt =====
-- Triples of a precondition, an action and two postconditions, one for each way out.
use haruki_event_tracker.Prelude.{Bool, true, false, ◌≡◌, refl, if◌then◌else◌}
use haruki_event_tracker.Prelude.Result.{Result, ok, err}
use haruki_event_tracker.Tracker.World.{TrackerError, World, Exec, continue, ◌>>=◌, ◌>>◌}

module _ {S : Type 0} where
  abbrev pub Post :
      {A : Type 0}
      → (A → S × World → Type 0)
      → (S × World → Type 0)
      → Result TrackerError A × (S × World)
      → Type 0
  Post Q E (ok a, s) = Q a s
  Post Q E (err e, s) = E s

  abbrev pub Triple :
      {A : Type 0}
      → (S × World → Type 0)
      → Exec S A
      → (A → S × World → Type 0)
      → (S × World → Type 0)
      → Type 0
  Triple P m Q E = (s : S × World) → P s → Post Q E (m s)

  continue-Post :
      {A B : Type 0} (f : A → Exec S B) (Q : A → S × World → Type 0) (R : B → S × World → Type 0)
      (E : S × World → Type 0)
      → ((a : A) → Triple (Q a) (f a) R E)
      → (r : Result TrackerError A) (s : S × World) → Post Q E (r, s)
      → Post R E (continue r f s)
  continue-Post f Q R E h (ok a) s q = h a s q
  continue-Post f Q R E h (err e) s q = q

  pub >>=-Triple :
      {A B : Type 0} {P : S × World → Type 0} (Q : A → S × World → Type 0)
      (R : B → S × World → Type 0) (E : S × World → Type 0) (m : Exec S A) (f : A → Exec S B)
      → Triple P m Q E
      → ((a : A) → Triple (Q a) (f a) R E)
      → Triple P (m >>= f) R E
  >>=-Triple Q R E m f hm hf s p = continue-Post f Q R E hf (m s).0 (m s).1 (hm s p)

  pub if-Triple :
      {A : Type 0} (Q : A → S × World → Type 0) (E : S × World → Type 0) {P : S × World → Type 0}
      (b : Bool) (m n : Exec S A)
      → (b ≡ true → Triple P m Q E)
      → (b ≡ false → Triple P n Q E)
      → Triple P (if b then m else n) Q E
  if-Triple Q E true m n h k = h refl
  if-Triple Q E false m n h k = k refl

  -- A chain of actions that all keep one condition.
  pub >>-Keeps :
      {A B : Type 0} {P : S × World → Type 0} (m : Exec S A) (n : Exec S B)
      {P' : S × World → Type 0}
      → Triple P m (λ _. P') P'
      → Triple P' n (λ _. P') P'
      → Triple P (m >> n) (λ _. P') P'
  >>-Keeps m n {P'} hm hn = >>=-Triple (λ _. P') (λ _. P') P' m (λ _. n) hm (λ _. hn)

  Post-mono :
      {A : Type 0} (Q R : A → S × World → Type 0) (E F : S × World → Type 0)
      → ((a : A) (s : S × World) → Q a s → R a s)
      → ((s : S × World) → E s → F s)
      → (r : Result TrackerError A) (s : S × World) → Post Q E (r, s)
      → Post R F (r, s)
  Post-mono Q R E F hq he (ok a) s q = hq a s q
  Post-mono Q R E F hq he (err e) s q = he s q

  pub Triple-mono :
      {A : Type 0} {P : S × World → Type 0} (Q R : A → S × World → Type 0)
      (E F : S × World → Type 0) (m : Exec S A)
      → ((a : A) (s : S × World) → Q a s → R a s)
      → ((s : S × World) → E s → F s)
      → Triple P m Q E
      → Triple P m R F
  Triple-mono Q R E F m hq he h s p = Post-mono Q R E F hq he (m s).0 (m s).1 (h s p)
