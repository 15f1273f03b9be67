-- ===== src/Tests/Sockets.antt =====
-- A run of the websockets.
use haruki_event_tracker.Prelude.{pos, [], ◌∷◌, length, some, ◌≡◌, refl, arith}
use haruki_event_tracker.Prelude.Text.{codes}
use haruki_event_tracker.Model.Enums.{jp}
use haruki_event_tracker.Api.Realtime
use haruki_event_tracker.Api.Realtime.{
  RealtimeTopic, connection_opened, total_online, topic_online, broadcast_online,
  add_topic_subscription,
}
use haruki_event_tracker.Api.Socket.{
  WsRequest, Sockets, subscribe_topic, Reach, here, next, opens, subscribes,
}
use haruki_event_tracker.Api.Socket.Counts.{subscribers}
use haruki_event_tracker.Api.Socket.Online.{hub_counts}

abbrev request : WsRequest
request = record {
  id = codes "1";
  path = codes "";
  kind = codes "subscribe";
  server = some jp;
  event_id = some (pos 7);
}

abbrev topic : RealtimeTopic
topic = record { server = jp; event_id = pos 7 }

-- A socket that has joined a topic.
abbrev joined : Sockets
joined = record {
  hub = (subscribe_topic request ([], (connection_opened Realtime.new).1)).1.1;
  joined = (topic ∷ []) ∷ [];
}

joined-Reach : Reach joined
unfolding subscribe_topic
joined-Reach = next (next here (opens (omega arith))) (subscribes [] [] [] request refl)

hub_counts_example :
    (total_online joined.hub ≡ length joined.joined)
    × ((t : RealtimeTopic) → topic_online t joined.hub ≡ subscribers t joined.joined)
hub_counts_example = hub_counts joined-Reach
