-- ===== src/Api/Cache/Local/Sorting.antt =====
-- Natural numbers in order, and how many of them are not below one of them.
use haruki_event_tracker.Prelude.{
  ℕ, zero, suc, ◌+◌, ◌≤◌, ◌<◌, leb, true, List, [], ◌∷◌, length, get_elem?, All, All-mono, some,
  ◌≡◌, ◌≢◌, refl, subst, arith, if◌then◌else◌, Bool-cases, inl, inr,
}

abbrev insert_sorted : ℕ → List ℕ → List ℕ
insert_sorted x [] = x ∷ []
insert_sorted x (y ∷ ys) = if leb x y then x ∷ y ∷ ys else y ∷ insert_sorted x ys

unfoldable pub sort : List ℕ → List ℕ
sort [] = []
sort (x ∷ xs) = insert_sorted x (sort xs)

-- How many numbers are at least `c`.
abbrev pub count_from : ℕ → List ℕ → ℕ
count_from c [] = 0
count_from c (x ∷ xs) = if leb c x then 1 + count_from c xs else count_from c xs

count_from-insert_sorted :
    (c x : ℕ) (ys : List ℕ) → count_from c (insert_sorted x ys) ≡ count_from c (x ∷ ys)
count_from-insert_sorted c x [] = refl
count_from-insert_sorted c x (y ∷ ys) = ground (arith, count_from-insert_sorted c x ys)

pub count_from-sort : (c : ℕ) (xs : List ℕ) → count_from c (sort xs) ≡ count_from c xs
unfolding sort
count_from-sort c [] = refl
count_from-sort c (x ∷ xs) =
    ground (arith, count_from-insert_sorted c x (sort xs), count_from-sort c xs)

length-insert_sorted : (x : ℕ) (ys : List ℕ) → length (insert_sorted x ys) ≡ 1 + length ys
length-insert_sorted x [] = refl
length-insert_sorted x (y ∷ ys) = ground (arith, length-insert_sorted x ys)

pub length-sort : (xs : List ℕ) → length (sort xs) ≡ length xs
unfolding sort
length-sort [] = refl
length-sort (x ∷ xs) = ground (arith, length-insert_sorted x (sort xs), length-sort xs)

All-insert_sorted :
    (P : ℕ → Type 0) (x : ℕ) (ys : List ℕ) → P x → All P ys → All P (insert_sorted x ys)
All-insert_sorted P x [] p h = (p, tt)
All-insert_sorted P x (y ∷ ys) p h = elim (Bool-cases (leb x y)) [
  | inl le ↦ rw le (p, h)
  | inr gt ↦ rw gt (h.0, All-insert_sorted P x ys p h.1)
]

pub All-sort : (P : ℕ → Type 0) (xs : List ℕ) → All P xs → All P (sort xs)
unfolding sort
All-sort P [] h = tt
All-sort P (x ∷ xs) h = All-insert_sorted P x (sort xs) h.0 (All-sort P xs h.1)

-- Every number is related to all that follow it.
abbrev pub AllPairs : (ℕ → ℕ → Type 0) → List ℕ → Type 0
AllPairs R [] = Unit
AllPairs R (x ∷ xs) = All (R x) xs × AllPairs R xs

abbrev pub AreDistinct : List ℕ → Type 0
AreDistinct = AllPairs (λ x y. x ≢ y)

insert_sorted-Ascending :
    (x : ℕ) (ys : List ℕ)
    → AllPairs (λ a b. a ≤ b) ys
    → AllPairs (λ a b. a ≤ b) (insert_sorted x ys)
insert_sorted-Ascending x [] h = (tt, tt)
insert_sorted-Ascending x (y ∷ ys) h = elim (Bool-cases (leb x y)) [
  | inl le ↦
      let first : x ≤ y = ground arith in
      rw le ((first, All-mono _ _ (λ b p. omega (arith, p, first)) ys h.0), h)
  | inr gt ↦ rw gt (All-insert_sorted _ x ys (ground arith) h.0, insert_sorted-Ascending x ys h.1)
]

sort-Ascending : (xs : List ℕ) → AllPairs (λ a b. a ≤ b) (sort xs)
unfolding sort
sort-Ascending [] = tt
sort-Ascending (x ∷ xs) = insert_sorted-Ascending x (sort xs) (sort-Ascending xs)

below : (x y : ℕ) → x ≢ y → leb x y ≡ true → x < y
below x y n h = ground (arith, n)

insert_sorted-Strict :
    (x : ℕ) (ys : List ℕ)
    → All (λ y. x ≢ y) ys
    → AllPairs (λ a b. a < b) ys
    → AllPairs (λ a b. a < b) (insert_sorted x ys)
insert_sorted-Strict x [] n h = (tt, tt)
insert_sorted-Strict x (y ∷ ys) n h = elim (Bool-cases (leb x y)) [
  | inl le ↦
      rw le ((below x y n.0 le, All-mono _ _ (λ b p. omega (arith, p, below x y n.0 le)) ys h.0), h)
  | inr gt ↦ rw gt (All-insert_sorted _ x ys (ground arith) h.0, insert_sorted-Strict x ys n.1 h.1)
]

sort-Strict : (xs : List ℕ) → AreDistinct xs → AllPairs (λ a b. a < b) (sort xs)
unfolding sort
sort-Strict [] h = tt
sort-Strict (x ∷ xs) h = insert_sorted-Strict x (sort xs) (All-sort _ xs h.0) (sort-Strict xs h.1)

count_from-All : (c : ℕ) (xs : List ℕ) → All (λ x. c ≤ x) xs → count_from c xs ≡ length xs
count_from-All c [] h = refl
count_from-All c (x ∷ xs) h = ground (arith, count_from-All c xs h.1)

pub All-get_elem? :
    (P : ℕ → Type 0) (xs : List ℕ) (i c : ℕ) → All P xs → get_elem? xs i ≡ some c → P c
All-get_elem? P [] i c h e = absurd (ground arith)
All-get_elem? P (x ∷ xs) zero c h e = subst P (ground arith) h.0
All-get_elem? P (x ∷ xs) (suc i) c h e = All-get_elem? P xs i c h.1 e

ascending_count :
    (xs : List ℕ) (i c : ℕ)
    → AllPairs (λ a b. a ≤ b) xs
    → get_elem? xs i ≡ some c
    → length xs ≤ count_from c xs + i
ascending_count [] i c h e = ground arith
ascending_count (x ∷ xs) zero c h e = ground (arith, count_from-All x xs h.0)
ascending_count (x ∷ xs) (suc i) c h e = ground (arith, ascending_count xs i c h.1 e)

strict_count :
    (xs : List ℕ) (i c : ℕ)
    → AllPairs (λ a b. a < b) xs
    → get_elem? xs i ≡ some c
    → count_from c xs + i ≡ length xs
strict_count [] i c h e = absurd (ground arith)
strict_count (x ∷ xs) zero c h e =
    ground (arith, count_from-All x xs (All-mono _ _ (λ b p. omega (arith, p)) xs h.0))
strict_count (x ∷ xs) (suc i) c h e =
    ground (arith, All-get_elem? _ xs i c h.0 e, strict_count xs i c h.1 e)

-- All but at most `i` numbers are not below that of rank `i`.
pub count_from_rank :
    (xs : List ℕ) (i c : ℕ) → get_elem? (sort xs) i ≡ some c → length xs ≤ count_from c xs + i
count_from_rank xs i c e = ground (
  arith,
  ascending_count (sort xs) i c (sort-Ascending xs) e,
  count_from-sort c xs,
  length-sort xs,
)

-- When no number stands twice, exactly `i` are below it.
pub count_from_rank_distinct :
    (xs : List ℕ) (i c : ℕ)
    → AreDistinct xs
    → get_elem? (sort xs) i ≡ some c
    → count_from c xs + i ≡ length xs
count_from_rank_distinct xs i c d e =
    ground
      (arith, strict_count (sort xs) i c (sort-Strict xs d) e, count_from-sort c xs, length-sort xs)
