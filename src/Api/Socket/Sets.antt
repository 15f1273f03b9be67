-- ===== src/Api/Socket/Sets.antt =====
-- The set of one socket and the counts of the hub.
use haruki_event_tracker.Prelude.{
  ◌+◌, ◌≤◌, true, false, List, [], ◌∷◌, filter, ◌≡◌, refl, ap, arith, if◌then◌else◌, Bool-cases,
  inl, inr,
}
use haruki_event_tracker.Prelude.HashMap.{Distinct, insert-Distinct}
use haruki_event_tracker.Api.Realtime.{
  RealtimeTopic, RealtimeHub, topic_beq, topic_beq_iff, topic_eq, topic_online,
  add_topic_subscription, broadcast_online,
}
use haruki_event_tracker.Api.Socket.{contains, join, leave}
use haruki_event_tracker.Api.Socket.Counts.{
  one_if, add-topic_online, remove_topic_counts, topic_beq_sym, NoDuplicates,
}

without : RealtimeTopic → List RealtimeTopic → List RealtimeTopic
without u topics = filter (λ t. if topic_beq u t then false else true) topics

contains-without :
    (t u : RealtimeTopic) (topics : List RealtimeTopic)
    → contains t (without u topics) ≡ (if topic_beq u t then false else contains t topics)
unfolding without
contains-without t u [] = ground arith
contains-without t u (x ∷ topics) = elim (Bool-cases (topic_beq u x)) [
  | inl same ↦ rw same (
      ground (
        arith,
        contains-without t u topics,
        topic_beq_sym t u,
        ap (topic_beq t) ((topic_beq_iff u x).0 same),
      ))
  | inr other ↦ elim (Bool-cases (topic_beq u t)) [
    | inl same ↦ rw other (
        ground (
          arith,
          contains-without t u topics,
          other,
          same,
          ap (λ y. topic_beq y x) ((topic_beq_iff u t).0 same),
        ))
    | inr apart ↦ rw other (ground (arith, contains-without t u topics, apart))
  ]
]

without-NoDuplicates :
    (u : RealtimeTopic) (topics : List RealtimeTopic)
    → NoDuplicates topics
    → NoDuplicates (without u topics)
unfolding without
without-NoDuplicates u [] n = tt
without-NoDuplicates u (x ∷ topics) n = elim (Bool-cases (topic_beq u x)) [
  | inl same ↦ rw same (without-NoDuplicates u topics n.1)
  | inr other ↦
      rw other (ground (arith, contains-without x u topics, n.0), without-NoDuplicates u topics n.1)
]

-- A socket's topics and the counts of the hub move together.
abbrev pub Moves : List RealtimeTopic → RealtimeHub → List RealtimeTopic → RealtimeHub → Type 0
Moves topics hub topics' hub' =
    (hub'.online_total ≡ hub.online_total)
    × Distinct hub'.online_by_topic
    × NoDuplicates topics'
    × ((t : RealtimeTopic)
        → topic_online t hub' + one_if (contains t topics)
          ≡ topic_online t hub + one_if (contains t topics'))

-- The topics of a socket are counted.
abbrev pub Counted : List RealtimeTopic → RealtimeHub → Type 0
Counted topics hub = (t : RealtimeTopic) → one_if (contains t topics) ≤ topic_online t hub

add-Distinct :
    (u : RealtimeTopic) (hub : RealtimeHub)
    → Distinct hub.online_by_topic
    → ((add_topic_subscription u hub).1.online_total ≡ hub.online_total)
      × Distinct (add_topic_subscription u hub).1.online_by_topic
unfolding add_topic_subscription broadcast_online
add-Distinct u hub d = (refl, insert-Distinct u _ hub.online_by_topic d)

pub join-Moves :
    (u : RealtimeTopic) (topics : List RealtimeTopic) (hub : RealtimeHub)
    → NoDuplicates topics
    → Distinct hub.online_by_topic
    → Moves topics hub (join u (topics, hub)).0 (join u (topics, hub)).1
join-Moves u topics hub n d = elim (Bool-cases (contains u topics)) [
  | inl known ↦ rw known (refl, d, n, λ t. refl)
  | inr fresh ↦
      let (total, kept) = add-Distinct u hub d in
      rw fresh (
        total,
        kept,
        (fresh, n),
        λ t. elim (Bool-cases (topic_beq u t)) [
          | inl same ↦ ground (
            arith,
            add-topic_online u t hub,
            topic_beq_sym u t,
            fresh,
            ap (λ x. contains x topics) ((topic_beq_iff u t).0 same),
          )
          | inr other ↦ ground (arith, add-topic_online u t hub, topic_beq_sym u t)
        ],
      )
]

pub leave-Moves :
    (u : RealtimeTopic) (topics : List RealtimeTopic) (hub : RealtimeHub)
    → NoDuplicates topics
    → Distinct hub.online_by_topic
    → Counted topics hub
    → Moves topics hub (leave u (topics, hub)).0 (leave u (topics, hub)).1
unfolding without
leave-Moves u topics hub n d c = elim (Bool-cases (contains u topics)) [
  | inr unknown ↦ rw unknown (refl, d, n, λ t. refl)
  | inl known ↦
      let (total, kept, counts) = remove_topic_counts u hub d in
      rw known (
        total,
        kept,
        without-NoDuplicates u topics n,
        λ t. elim (Bool-cases (topic_beq u t)) [
          | inl same ↦ ground (
            arith,
            counts t,
            contains-without t u topics,
            c t,
            known,
            same,
            ap (λ x. contains x topics) ((topic_beq_iff u t).0 same),
          )
          | inr other ↦ ground (arith, counts t, contains-without t u topics, other)
        ],
      )
]
