-- ===== src/Api/Cache/SingleFlight/Waking.antt =====
-- No wake-up of a waiter is lost.
use haruki_event_tracker.Prelude.{
  ℕ, ◌<◌, ltb, true, false, List, ◌∷◌, ◌++◌, Option, some, ◌≡◌, ◌⊎◌, inl, inr, refl, ap, sym, ◌∙◌,
  [], if◌then◌else◌, nat_beq_iff, subst, arith, Bool-cases, All, All-take_out, list_eq, nat_eq,
  nat_beq,
}
use haruki_event_tracker.Prelude.HashMap
use haruki_event_tracker.Prelude.HashMap.{HashMap}
use haruki_event_tracker.Prelude.Text.{Text}
use haruki_event_tracker.Api.Cache.Store.{SharedFetchResult}
use haruki_event_tracker.Api.Cache.SingleFlight.{
  SingleFlight, Guarded, publish, unmap, notify_waiters, finish, Waiter, sleeping, returned,
  wait_step, wait_round, Reach,
}
use haruki_event_tracker.Api.Cache.SingleFlight.Waiting.{IsWaiting, is_among}
use haruki_event_tracker.Api.Cache.SingleFlight.Invariant.{Inv, Reach-Inv}

-- A notification that comes after an entry is done sends its waiter once round the loop, and out.
round_returns :
    (f : SingleFlight) (entry : ℕ)
    → ltb 0 (f.notified entry) ≡ true
    → (f.entries entry).done ≡ true
    → wait_round f (sleeping entry 0) ≡ returned (f.entries entry).result
unfolding wait_round wait_step
round_returns f entry n d = rw (n, wait_step, d) refl

notify_returns :
    (f : SingleFlight) (entry : ℕ)
    → (f.entries entry).done ≡ true
    → wait_round (notify_waiters entry f) (sleeping entry 0) ≡ returned (f.entries entry).result
unfolding notify_waiters
notify_returns f entry d = round_returns (notify_waiters entry f) entry (ground arith) d

finish_returns :
    (f : SingleFlight) (key : Text) (entry : ℕ) (result : Option SharedFetchResult)
    → wait_round (finish key entry result f) (sleeping entry 0) ≡ returned result
unfolding finish publish unmap
finish_returns f key entry result =
    let same : nat_beq entry entry ≡ true = ground arith in
    notify_returns (unmap key entry (publish entry result f)) entry (ground arith)
    ∙ ap
        (λ b.
          returned (if b then record { done = true; result = result } else f.entries entry).result)
        same

-- How the sleep of a waiter ends. It was notified and returns what was published after once round
-- its loop; or its entry has a guard, and it returns what that guard publishes, or nothing for a guard
-- that is dropped, once the guard has finished; or the guard has left the map, and it returns what
-- was published once the guard has notified it.
abbrev pub Wakes : Guarded → ℕ → ℕ → Type 0
Wakes s entry count =
    (wait_round s.flights (sleeping entry count) ≡ returned (s.flights.entries entry).result)
    ⊎ (((key : Text) × (HashMap.get key s.guards ≡ some entry)
          × ((s.flights.entries entry).done ≡ false
              → (result : Option SharedFetchResult)
              → wait_round (finish key entry result s.flights) (sleeping entry count)
                ≡ returned result)
          × ((s.flights.entries entry).done ≡ true
              → wait_round (notify_waiters entry (unmap key entry s.flights)) (sleeping entry count)
                ≡ returned (s.flights.entries entry).result))
        ⊎ ((is_among entry s.unnotified ≡ true)
            × (wait_round (notify_waiters entry s.flights) (sleeping entry count)
                ≡ returned (s.flights.entries entry).result)))

among_done :
    (s : Guarded) (e : ℕ) (xs : List ℕ)
    → All (λ x. ((s.flights.entries x).done ≡ true) × (x < s.flights.next)) xs
    → is_among e xs ≡ true
    → (s.flights.entries e).done ≡ true
among_done s e [] h a = absurd (ground arith)
among_done s e (x ∷ xs) h a = elim (Bool-cases (nat_beq e x)) [
  | inl same ↦
      subst (λ y. (s.flights.entries y).done ≡ true) (sym ((nat_beq_iff e x).0 same)) (h.0.0)
  | inr other ↦ among_done s e xs h.1 (ground arith)
]

unseen-Wakes : (s : Guarded) (entry : ℕ) → Inv s → entry < s.flights.next → Wakes s entry 0
unfolding unmap
unseen-Wakes s entry i b = elim (Bool-cases (ltb 0 (s.flights.notified entry))) [
  | inl n ↦ inl (
      round_returns s.flights entry n (elim (Bool-cases (s.flights.entries entry).done) [
        | inl d ↦ d
        | inr d ↦ absurd (ground (arith, i.told entry d))
      ]))
  | inr n ↦ inr (elim (i.pending entry b (ground arith)) [
    | inl g ↦ inl (
      g.0,
      g.1,
      λ d result. finish_returns s.flights g.0 entry result,
      λ d. notify_returns (unmap g.0 entry s.flights) entry d,
    )
    | inr a ↦
        inr (a, notify_returns s.flights entry (among_done s entry s.unnotified i.published a))
  ])
]

-- In every state that flights, guards and waiters reach, in whatever order their steps interleave, the
-- sleep of a waiter ends: it was notified already, or by the guard of its entry it is when that has
-- finished, and then it returns what is published within once round its loop.
pub waiting_ends :
    {s : Guarded} (before after : List Waiter) (entry count : ℕ)
    → Reach s
    → s.waiters ≡ before ++ (sleeping entry count ∷ after)
    → Wakes s entry count
waiting_ends {s} before after entry count r e =
    let (w, rest) =
      All-take_out (IsWaiting s.flights) before (sleeping entry count) after
        (subst (All (IsWaiting s.flights)) e (Reach-Inv r).waiting) in
    subst (Wakes s entry) (sym w.1) (unseen-Wakes s entry (Reach-Inv r) w.0)
