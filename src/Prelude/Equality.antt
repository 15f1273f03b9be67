-- ===== src/Prelude/Equality.antt =====
-- Types with a Boolean equality test (Rust's `Eq`), and the instances that keys are built from.
use mathlib.Core.Path.{◌≡◌, refl}
use mathlib.Core.Logic.{◌↔◌}
use mathlib.Core.Bool.{Bool, true, false}
use mathlib.Core.List.{List, [], ◌∷◌}
use Prim.Native.Nat.{ℕ}
use native.Mathlib.Omega.{arith}
use haruki_event_tracker.Prelude.Tests.{nat_beq, nat_beq_iff, if◌then◌else◌}
use haruki_event_tracker.Prelude.Int.{ℤ, beq_ℤ, beq_ℤ_iff}

pub record Eq {ℓ} (A : Type ℓ) : Type ℓ where
  pub beq : A → A → Bool
  pub beq_iff : (a b : A) → (beq a b ≡ true) ↔ (a ≡ b)

pub ==_refl {ℓ} : {A : Type ℓ} ⦃e : Eq A⦄ (a : A) → e.beq a a ≡ true
==_refl ⦃e⦄ a = (e.beq_iff a a).1 refl

instance abbrev pub nat_eq : Eq ℕ
nat_eq = record { beq = nat_beq; beq_iff = nat_beq_iff }

instance abbrev pub int_eq : Eq ℤ
int_eq = record { beq = beq_ℤ; beq_iff = beq_ℤ_iff }

abbrev pub list_beq {ℓ} : {A : Type ℓ} ⦃e : Eq A⦄ → List A → List A → Bool
list_beq [] [] = true
list_beq ⦃e⦄ (x ∷ xs) (y ∷ ys) = if e.beq x y then list_beq ⦃e = e⦄ xs ys else false
list_beq _ _ = false

pub list_beq_iff {ℓ} :
    {A : Type ℓ} ⦃e : Eq A⦄ (xs ys : List A) → (list_beq ⦃e = e⦄ xs ys ≡ true) ↔ (xs ≡ ys)
list_beq_iff ⦃e⦄ [] [] = (λ _. refl, λ _. refl)
list_beq_iff ⦃e⦄ [] (y ∷ ys) = (λ p. cc, λ p. cc)
list_beq_iff ⦃e⦄ (x ∷ xs) [] = (λ p. cc, λ p. cc)
list_beq_iff ⦃e⦄ (x ∷ xs) (y ∷ ys) = ground (arith, e.beq_iff x y, list_beq_iff ⦃e = e⦄ xs ys)

instance abbrev pub list_eq {ℓ} : {A : Type ℓ} ⦃e : Eq A⦄ → Eq (List A)
list_eq ⦃e⦄ = record { beq = list_beq ⦃e = e⦄; beq_iff = list_beq_iff ⦃e = e⦄ }

infix 50 ◌==◌
abbrev pub ◌==◌ {ℓ} : {A : Type ℓ} ⦃e : Eq A⦄ → A → A → Bool
◌==◌ ⦃e⦄ = e.beq
