-- ===== src/Api/Socket/Counts.antt =====
-- What the operations of the hub do to its counts.
use haruki_event_tracker.Prelude.{
  ℕ, ◌+◌, ◌-◌, nat_beq, Bool, false, List, [], ◌∷◌, ◌++◌, ◌≡◌, refl, ap, ◌∙◌, arith, if◌then◌else◌,
  Bool-cases, Option-cases, inl, inr,
}
use haruki_event_tracker.Prelude.HashMap
use haruki_event_tracker.Prelude.HashMap.{
  HashMap, Distinct, get-insert, get-remove, insert-Distinct, remove-Distinct,
}
use haruki_event_tracker.Api.Realtime.{
  RealtimeTopic, RealtimeHub, topic_beq, topic_beq_iff, topic_eq, topic_online,
  add_topic_subscription, broadcast_online, remove_topic_subscription, remove_all, take_one,
  set_count,
}
use haruki_event_tracker.Api.Socket.{contains}

abbrev pub one_if : Bool → ℕ
one_if b = if b then 1 else 0

-- How many of the sockets have joined a topic.
abbrev pub subscribers : RealtimeTopic → List (List RealtimeTopic) → ℕ
subscribers t [] = 0
subscribers t (topics ∷ rest) = one_if (contains t topics) + subscribers t rest

pub add-topic_online :
    (u t : RealtimeTopic) (hub : RealtimeHub)
    → topic_online t (add_topic_subscription u hub).1 ≡ topic_online t hub + one_if (topic_beq u t)
unfolding topic_online add_topic_subscription broadcast_online
add-topic_online u t hub = elim (Bool-cases (topic_beq u t)) [
  | inl same ↦ ground (
    arith,
    get-insert u t (HashMap.get_or u 0 hub.online_by_topic + 1) hub.online_by_topic,
    ap (λ x. HashMap.get_or x 0 hub.online_by_topic) ((topic_beq_iff u t).0 same),
  )
  | inr other ↦
      ground
        (arith, get-insert u t (HashMap.get_or u 0 hub.online_by_topic + 1) hub.online_by_topic)
]

set_count-get_or :
    (u t : RealtimeTopic) (count : ℕ) (m : HashMap RealtimeTopic ℕ)
    → Distinct m
    → HashMap.get_or t 0 (set_count u count m)
      ≡ (if topic_beq u t then count else HashMap.get_or t 0 m)
set_count-get_or u t count m d = elim (Bool-cases (nat_beq count 0)) [
  | inl gone ↦ rw gone (ground (arith, get-remove u t m d))
  | inr left ↦ rw left (ground (arith, get-insert u t count m))
]

set_count-Distinct :
    (u : RealtimeTopic) (count : ℕ) (m : HashMap RealtimeTopic ℕ)
    → Distinct m
    → Distinct (set_count u count m)
set_count-Distinct u count m d = elim (Bool-cases (nat_beq count 0)) [
  | inl gone ↦ rw gone (remove-Distinct u m d)
  | inr left ↦ rw left (insert-Distinct u count m d)
]

-- What taking one subscription of a topic away leaves alone, and the counts afterwards.
pub remove_topic_counts :
    (u : RealtimeTopic) (hub : RealtimeHub)
    → Distinct hub.online_by_topic
    → ((remove_topic_subscription u hub).online_total ≡ hub.online_total)
      × Distinct (remove_topic_subscription u hub).online_by_topic
      × ((t : RealtimeTopic)
          → topic_online t (remove_topic_subscription u hub)
            ≡ topic_online t hub - one_if (topic_beq u t))
unfolding topic_online remove_topic_subscription broadcast_online
remove_topic_counts u hub d = elim (Option-cases (HashMap.get u hub.online_by_topic)) [
  | inl n ↦
      rw (n, take_one)
        (
          refl,
          d,
          λ t. elim (Bool-cases (topic_beq u t)) [
            | inl same ↦
                ground (
                  arith,
                  n,
                  ap (λ x. HashMap.get x hub.online_by_topic) ((topic_beq_iff u t).0 same),
                )
            | inr other ↦ ground arith
          ],
        )
  | inr (count, n) ↦
      rw (n, take_one)
        (
          refl,
          set_count-Distinct u (count - 1) hub.online_by_topic d,
          λ t. elim (Bool-cases (topic_beq u t)) [
            | inl same ↦ ground (
              arith,
              n,
              set_count-get_or u t (count - 1) hub.online_by_topic d,
              ap (λ x. HashMap.get x hub.online_by_topic) ((topic_beq_iff u t).0 same),
            )
            | inr other ↦ ground (arith, set_count-get_or u t (count - 1) hub.online_by_topic d)
          ],
        )
]

pub topic_beq_sym : (a b : RealtimeTopic) → topic_beq a b ≡ topic_beq b a
topic_beq_sym a b = ground arith

-- A set.
abbrev pub NoDuplicates : List RealtimeTopic → Type 0
NoDuplicates [] = Unit
NoDuplicates (u ∷ us) = (contains u us ≡ false) × NoDuplicates us

pub remove_all_counts :
    (topics : List RealtimeTopic) (hub : RealtimeHub)
    → NoDuplicates topics
    → Distinct hub.online_by_topic
    → ((remove_all topics hub).online_total ≡ hub.online_total)
      × Distinct (remove_all topics hub).online_by_topic
      × ((t : RealtimeTopic)
          → topic_online t (remove_all topics hub)
            ≡ topic_online t hub - one_if (contains t topics))
remove_all_counts [] hub n d = (refl, d, λ t. omega arith)
remove_all_counts (u ∷ us) hub n d =
    let (total, kept, counts) = remove_topic_counts u hub d in
    let (totals, keeps, all) = remove_all_counts us (remove_topic_subscription u hub) n.1 kept in
    (
      totals ∙ total,
      keeps,
      λ t. elim (Bool-cases (topic_beq u t)) [
        | inl same ↦ ground (
          arith,
          all t,
          counts t,
          topic_beq_sym u t,
          n.0,
          ap (λ x. contains x us) ((topic_beq_iff u t).0 same),
        )
        | inr other ↦ ground (arith, all t, counts t, topic_beq_sym u t)
      ],
    )

pub subscribers-middle :
    (t : RealtimeTopic) (before : List (List RealtimeTopic)) (topics : List RealtimeTopic)
    (after : List (List RealtimeTopic))
    → subscribers t (before ++ (topics ∷ after))
      ≡ one_if (contains t topics) + subscribers t (before ++ after)
subscribers-middle t [] topics after = refl
subscribers-middle t (b ∷ before) topics after =
    omega (arith, subscribers-middle t before topics after)
