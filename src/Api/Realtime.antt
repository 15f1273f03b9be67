-- ===== src/Api/Realtime.antt =====
-- src/api/realtime.rs: who is online. The messages that were broadcast are kept, newest first; a
-- `usize` wraps at 2 ^ 64.
use haruki_event_tracker.Prelude.{
  ℕ, ◌+◌, ◌-◌, ◌%◌, ◌^◌, nat_beq, ℤ, beq_ℤ, beq_ℤ_iff, Bool, true, ◌&&◌, List, [], ◌∷◌, Option,
  none, some, ◌≡◌, ◌↔◌, arith, if◌then◌else◌, Eq,
}
use haruki_event_tracker.Prelude.HashMap
use haruki_event_tracker.Prelude.HashMap.{HashMap}
use haruki_event_tracker.Model.Enums.{SekaiServerRegion, region_beq, region_beq_iff}

pub record RealtimeTopic : Type 0 where
  pub server : SekaiServerRegion
  pub event_id : ℤ

abbrev pub topic_beq : RealtimeTopic → RealtimeTopic → Bool
topic_beq a b = region_beq a.server b.server && beq_ℤ a.event_id b.event_id

pub topic_beq_iff : (a b : RealtimeTopic) → (topic_beq a b ≡ true) ↔ (a ≡ b)
topic_beq_iff a b =
    ground (arith, region_beq_iff a.server b.server, beq_ℤ_iff a.event_id b.event_id)

instance abbrev pub topic_eq : Eq RealtimeTopic
topic_eq = record { beq = topic_beq; beq_iff = topic_beq_iff }

pub data RealtimeMessage : Type 0 where
  updated : RealtimeTopic → ℤ → RealtimeMessage
  -- The topic, how many are online, and how many of them at the topic.
  online : RealtimeTopic → ℕ → ℕ → RealtimeMessage

pub record RealtimeHub : Type 0 where
  pub sent : List RealtimeMessage
  pub online_total : ℕ
  pub online_by_topic : HashMap RealtimeTopic ℕ

abbrev pub new : RealtimeHub
new = record { sent = []; online_total = 0; online_by_topic = [] }

-- The hub, and what the caller gets.
unfoldable pub connection_opened : RealtimeHub → ℕ × RealtimeHub
connection_opened hub =
    (hub.online_total + 1, record hub { online_total = (hub.online_total + 1) % 2 ^ 64 })

abbrev pub total_online : RealtimeHub → ℕ
total_online hub = hub.online_total

unfoldable pub topic_online : RealtimeTopic → RealtimeHub → ℕ
unfolding HashMap.get
topic_online topic hub = HashMap.get_or topic 0 hub.online_by_topic

unfoldable pub notify_update : RealtimeTopic → ℤ → RealtimeHub → RealtimeHub
notify_update topic timestamp hub = record hub {
  sent = RealtimeMessage.updated topic timestamp ∷ hub.sent;
}

unfoldable pub broadcast_online : RealtimeTopic → ℕ → RealtimeHub → RealtimeHub
broadcast_online topic at_topic hub = record hub {
  sent = RealtimeMessage.online topic (total_online hub) at_topic ∷ hub.sent;
}

unfoldable pub add_topic_subscription : RealtimeTopic → RealtimeHub → ℕ × RealtimeHub
unfolding HashMap.get HashMap.insert broadcast_online
add_topic_subscription topic hub =
    let count = HashMap.get_or topic 0 hub.online_by_topic + 1 in
    (
      count,
      broadcast_online topic count
          (record hub { online_by_topic = HashMap.insert topic count hub.online_by_topic }),
    )

-- The map once the count of a topic is this one.
abbrev pub set_count : RealtimeTopic → ℕ → HashMap RealtimeTopic ℕ → HashMap RealtimeTopic ℕ
set_count topic count counts =
    if nat_beq count 0 then HashMap.remove topic counts else HashMap.insert topic count counts

abbrev pub take_one : RealtimeTopic → Option ℕ → RealtimeHub → RealtimeHub
take_one topic none hub = hub
take_one topic (some count) hub =
    broadcast_online topic (count - 1)
      (record hub { online_by_topic = set_count topic (count - 1) hub.online_by_topic })

unfoldable pub remove_topic_subscription : RealtimeTopic → RealtimeHub → RealtimeHub
unfolding HashMap.get HashMap.insert HashMap.remove broadcast_online
remove_topic_subscription topic hub = take_one topic (HashMap.get topic hub.online_by_topic) hub

abbrev pub remove_all : List RealtimeTopic → RealtimeHub → RealtimeHub
remove_all [] hub = hub
remove_all (topic ∷ topics) hub = remove_all topics (remove_topic_subscription topic hub)

unfoldable pub connection_closed : List RealtimeTopic → RealtimeHub → RealtimeHub
unfolding remove_topic_subscription
connection_closed topics hub =
    remove_all topics (record hub { online_total = (hub.online_total + (2 ^ 64 - 1)) % 2 ^ 64 })
