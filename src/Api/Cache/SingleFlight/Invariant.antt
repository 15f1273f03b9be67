-- ===== src/Api/Cache/SingleFlight/Invariant.antt =====
-- One flight per key, and what waiters know of theirs.
use haruki_event_tracker.Prelude.{
  ℕ, ◌<◌, ltb, false, nat_beq, List, All, All-mono, All-take_out, All-put, ◌⊎◌, true, false, ◌∷◌,
  ◌++◌, Option, none, some, ◌≡◌, refl, ap, sym, ◌∙◌, subst, arith, if◌then◌else◌, list_eq, nat_eq,
  list_beq, list_beq_iff, Bool-cases, Option-cases, inl, inr,
}
use haruki_event_tracker.Prelude.HashMap
use haruki_event_tracker.Prelude.HashMap.{
  HashMap, Distinct, is_some, get-insert, get-remove, insert-Distinct, remove-Distinct,
}
use haruki_event_tracker.Prelude.Text.{Text}
use haruki_event_tracker.Api.Cache.Store.{SharedFetchResult}
use haruki_event_tracker.Api.Cache.SingleFlight.{
  Guarded, Flight, begin, begin_new, publish, unmap, notify_waiters, is_current, Waiter, entering,
  checking, sleeping, returned, wait_step, with_guard, with_waiter, begins, publishes, unmaps,
  notifies, waits, Reach, here, next,
}
use haruki_event_tracker.Api.Cache.SingleFlight.Guards.{
  get-without, get-middle_self, without-Distinct,
}
use haruki_event_tracker.Api.Cache.SingleFlight.Waiting.{
  IsWaiting, is_among, begin_new-IsWaiting, publish-IsWaiting, unmap-IsWaiting, notify-IsWaiting,
  is_among-take_out,
}

pub record Inv (s : Guarded) : Type 0 where
  pub kept : Distinct s.flights.inner
  pub distinct : Distinct s.guards
  -- The flights in the map are those of the guards.
  pub agree : (k : Text) → HashMap.get k s.flights.inner ≡ HashMap.get k s.guards
  pub started : (k : Text) (e : ℕ) → HashMap.get k s.guards ≡ some e → e < s.flights.next
  pub single :
      (k j : Text) (e : ℕ)
      → HashMap.get k s.guards ≡ some e
      → HashMap.get j s.guards ≡ some e
      → k ≡ j
  -- An entry whose waiters were not notified has a guard, or is still to be notified.
  pub pending :
      (e : ℕ)
      → e < s.flights.next
      → s.flights.notified e ≡ 0
      → ((k : Text) × (HashMap.get k s.guards ≡ some e)) ⊎ (is_among e s.unnotified ≡ true)
  pub told : (e : ℕ) → (s.flights.entries e).done ≡ false → s.flights.notified e ≡ 0
  pub published : All (λ e. ((s.flights.entries e).done ≡ true) × (e < s.flights.next)) s.unnotified
  pub waiting : All (IsWaiting s.flights) s.waiters

begin_new-Inv :
    (s : Guarded) (key : Text)
    → HashMap.get key s.flights.inner ≡ none
    → Inv s
    → Inv
        (record s { flights = begin_new key s.flights; guards = (key, s.flights.next) ∷ s.guards })
unfolding begin_new HashMap.get
begin_new-Inv s key n i = record {
  kept = insert-Distinct key s.flights.next s.flights.inner i.kept;
  distinct = (sym (i.agree key) ∙ n, i.distinct);
  agree = λ k. ground (arith, get-insert key k s.flights.next s.flights.inner, i.agree k);
  started = λ k e h. ground (arith, i.started k e);
  single = λ k j e h h'. elim (Bool-cases (list_beq ⦃e = nat_eq⦄ key k)) [
    | inl p ↦ elim (Bool-cases (list_beq ⦃e = nat_eq⦄ key j)) [
      | inl q ↦ sym ((list_beq_iff ⦃e = nat_eq⦄ key k).0 p) ∙ (list_beq_iff ⦃e = nat_eq⦄ key j).0 q
      | inr q ↦ absurd (ground (arith, i.started j e))
    ]
    | inr p ↦ elim (Bool-cases (list_beq ⦃e = nat_eq⦄ key j)) [
      | inl q ↦ absurd (ground (arith, i.started k e))
      | inr q ↦ i.single k j e (ground arith) (ground arith)
    ]
  ];
  pending = λ e b d. elim (Bool-cases (nat_beq e s.flights.next)) [
    | inl p ↦ inl (key, ground (arith, list_beq_iff ⦃e = nat_eq⦄ key key))
    | inr p ↦ elim (i.pending e (ground arith) (ground arith)) [
      | inl g ↦ inl (
        g.0,
        elim (Bool-cases (list_beq ⦃e = nat_eq⦄ key g.0)) [
          | inl q ↦ absurd (
              ground (
                arith,
                i.agree key,
                g.1,
                ap (λ x. HashMap.get x s.guards) ((list_beq_iff ⦃e = nat_eq⦄ key g.0).0 q),
              ))
          | inr q ↦ rw q (g.1)
        ],
      )
      | inr a ↦ inr a
    ]
  ];
  told = λ e d. ground (arith, i.told e);
  published =
      All-mono _ _ (λ e p. (ground (arith, p.0, p.1), omega (arith, p.1))) s.unnotified i.published;
  waiting = All-mono _ _ (begin_new-IsWaiting s.flights key) s.waiters i.waiting;
}

begin-Inv :
    (s : Guarded) (key : Text)
    → Inv s
    → Inv (record s {
      flights = (begin key s.flights).1;
      guards = with_guard key (begin key s.flights).0 s.guards;
      waiters = with_waiter (begin key s.flights).0 s.waiters;
    })
unfolding begin
begin-Inv s key i = elim (Option-cases (HashMap.get key s.flights.inner)) [
  | inl n ↦ rw (n, begin) (begin_new-Inv s key n i)
  | inr (e, n) ↦
      rw (n, begin)
        (record {
          kept = i.kept;
          distinct = i.distinct;
          agree = i.agree;
          started = i.started;
          single = i.single;
          pending = i.pending;
          told = i.told;
          published = i.published;
          waiting = (i.started key e (sym (i.agree key) ∙ n), i.waiting);
        })
]

publish-Inv :
    (s : Guarded) (entry : ℕ) (result : Option SharedFetchResult)
    → Inv s
    → Inv (record s { flights = publish entry result s.flights })
unfolding publish
publish-Inv s entry result i = record {
  kept = i.kept;
  distinct = i.distinct;
  agree = i.agree;
  started = i.started;
  single = i.single;
  pending = i.pending;
  told = λ e d. ground (arith, i.told e);
  published = All-mono _ _ (λ e p. (ground (arith, p.0), p.1)) s.unnotified i.published;
  waiting = All-mono _ _ (publish-IsWaiting s.flights entry result) s.waiters i.waiting;
}

unmap-Inv :
    (s : Guarded) (before after : HashMap Text ℕ) (key : Text) (entry : ℕ)
    → s.guards ≡ before ++ ((key, entry) ∷ after)
    → (s.flights.entries entry).done ≡ true
    → Inv s
    → Inv (record s {
      flights = unmap key entry s.flights;
      guards = before ++ after;
      unnotified = entry ∷ s.unnotified;
    })
unfolding unmap
unmap-Inv s before after key entry e done i =
    let d : Distinct (before ++ ((key, entry) ∷ after)) = subst Distinct e i.distinct in
    let held : HashMap.get key s.guards ≡ some entry =
      ap (HashMap.get key) e ∙ get-middle_self before after key entry d in
    let without : (j : Text)
        → HashMap.get j (before ++ after)
          ≡ (if list_beq ⦃e = nat_eq⦄ key j then none else HashMap.get j s.guards) =
      λ j.
        get-without before after key entry j d
        ∙ ap (λ m. if list_beq ⦃e = nat_eq⦄ key j then none else HashMap.get j m) (sym e) in
    let current : is_current entry (HashMap.get key s.flights.inner) ≡ true =
      ap (is_current entry) (i.agree key ∙ held) ∙ ground arith in
    record {
      kept = rw current (remove-Distinct key s.flights.inner i.kept);
      distinct = without-Distinct before after key entry d;
      agree = λ j.
          rw current
            (ground (arith, get-remove key j s.flights.inner i.kept, i.agree j, without j));
      started = λ k f h. i.started k f (ground (arith, without k));
      single = λ k j f h h'. i.single k j f (ground (arith, without k)) (ground (arith, without j));
      pending = λ f b n. elim (Bool-cases (nat_beq f entry)) [
        | inl same ↦ inr (ground arith)
        | inr other ↦ elim (i.pending f b n) [
          | inl g ↦ inl (
            g.0,
            elim (Bool-cases (list_beq ⦃e = nat_eq⦄ key g.0)) [
              | inl q ↦ absurd (
                  ground (
                    arith,
                    held,
                    g.1,
                    ap (λ x. HashMap.get x s.guards) ((list_beq_iff ⦃e = nat_eq⦄ key g.0).0 q),
                  ))
              | inr q ↦ ground (arith, without g.0, g.1)
            ],
          )
          | inr a ↦ inr (ground (arith, a))
        ]
      ];
      told = i.told;
      published = ((done, i.started key entry held), i.published);
      waiting = All-mono _ _ (unmap-IsWaiting s.flights key entry) s.waiters i.waiting;
    }

notify-Inv :
    (s : Guarded) (before after : List ℕ) (entry : ℕ)
    → s.unnotified ≡ before ++ (entry ∷ after)
    → Inv s
    → Inv (record s { flights = notify_waiters entry s.flights; unnotified = before ++ after })
unfolding notify_waiters
notify-Inv s before after entry e i =
    let P : ℕ → Type 0 = λ x. ((s.flights.entries x).done ≡ true) × (x < s.flights.next) in
    let (out, rest) = All-take_out P before entry after (subst (All P) e i.published) in
    record {
      kept = i.kept;
      distinct = i.distinct;
      agree = i.agree;
      started = i.started;
      single = i.single;
      pending = λ f b n. elim (Bool-cases (nat_beq f entry)) [
        | inl same ↦ absurd (ground arith)
        | inr other ↦ elim (i.pending f b (ground (arith, other, n))) [
          | inl g ↦ inl g
          | inr a ↦
              inr (
                is_among-take_out before after entry f other (subst (λ x. is_among f x ≡ true) e a))
        ]
      ];
      told = λ f d. elim (Bool-cases (nat_beq f entry)) [
        | inl same ↦ absurd (ground (arith, out.0))
        | inr other ↦ ground (arith, i.told f)
      ];
      published = rest;
      waiting = All-mono _ _ (notify-IsWaiting s.flights entry) s.waiters i.waiting;
    }

-- A waiter that goes to sleep has seen no notification.
wait_step-IsWaiting :
    (s : Guarded) (w : Waiter)
    → Inv s
    → IsWaiting s.flights w
    → IsWaiting s.flights (wait_step s.flights w)
unfolding wait_step
wait_step-IsWaiting s (entering e) i h = (h, omega arith)
wait_step-IsWaiting s (checking e c) i h = elim (Bool-cases (s.flights.entries e).done) [
  | inl d ↦ rw d tt
  | inr d ↦ rw d (h.0, omega (arith, h.1, i.told e d))
]
wait_step-IsWaiting s (sleeping e c) i h = elim (Bool-cases (ltb c (s.flights.notified e))) [
  | inl d ↦ rw d (h.0)
  | inr d ↦ rw d h
]
wait_step-IsWaiting s (returned r) i h = tt

wait-Inv :
    (s : Guarded) (before after : List Waiter) (w : Waiter)
    → s.waiters ≡ before ++ (w ∷ after)
    → Inv s
    → Inv (record s { waiters = before ++ (wait_step s.flights w ∷ after) })
wait-Inv s before after w e i =
    let all = subst (All (IsWaiting s.flights)) e i.waiting in
    record {
      kept = i.kept;
      distinct = i.distinct;
      agree = i.agree;
      started = i.started;
      single = i.single;
      pending = i.pending;
      told = i.told;
      published = i.published;
      waiting =
          All-put _ before w (wait_step s.flights w) after
            (wait_step-IsWaiting s w i (All-take_out _ before w after all).0) all;
    }

pub Reach-Inv : {s : Guarded} → Reach s → Inv s
unfolding HashMap.get
Reach-Inv here = record {
  kept = tt;
  distinct = tt;
  agree = λ k. refl;
  started = λ k e h. absurd (ground arith);
  single = λ k j e h h'. absurd (ground arith);
  pending = λ e b d. absurd (ground arith);
  told = λ e d. refl;
  published = tt;
  waiting = tt;
}
Reach-Inv (next r (begins key)) = begin-Inv _ key (Reach-Inv r)
Reach-Inv (next r (publishes before after key entry result e d)) =
    publish-Inv _ entry result (Reach-Inv r)
Reach-Inv (next r (unmaps before after key entry e d)) =
    unmap-Inv _ before after key entry e d (Reach-Inv r)
Reach-Inv (next r (notifies before after entry e)) = notify-Inv _ before after entry e (Reach-Inv r)
Reach-Inv (next r (waits before after w e)) = wait-Inv _ before after w e (Reach-Inv r)

-- While a guard has not left the map, a lookup of its key waits for it: no key has two owners.
pub begin_waits :
    {s : Guarded} (key : Text) (entry : ℕ)
    → Reach s
    → HashMap.get key s.guards ≡ some entry
    → begin key s.flights ≡ (Flight.waiter entry, s.flights)
unfolding begin
begin_waits {s} key entry r h =
    let held : HashMap.get key s.flights.inner ≡ some entry = (Reach-Inv r).agree key ∙ h in
    rw (held, begin) refl
