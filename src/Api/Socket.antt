-- ===== src/Api/Socket.antt =====
-- src/api/ws.rs: the requests of a websocket that subscribe and unsubscribe, and what a socket
-- forwards of the broadcast messages. A socket keeps its topics in a set, here a list without
-- duplicates. Parsing of requests, the proxied requests and the transport are not modelled.
pub mod Counts
pub mod Sets
pub mod Online
use haruki_event_tracker.Prelude.{
  ℕ, ◌+◌, ◌^◌, ◌<◌, nat_beq, ℤ, pos, negsuc, Bool, true, false, List, [], ◌∷◌, ◌++◌, any, filter,
  length, Option, none, some, ◌≡◌, if◌then◌else◌, list_eq, nat_eq, list_beq,
}
use haruki_event_tracker.Prelude.Text.{Text, codes}
use haruki_event_tracker.Model.Enums.{SekaiServerRegion}
use haruki_event_tracker.Api.Realtime
use haruki_event_tracker.Api.Realtime.{
  RealtimeTopic, RealtimeMessage, RealtimeHub, topic_beq, topic_online, total_online,
  add_topic_subscription, remove_topic_subscription, connection_opened, connection_closed,
  notify_update,
}

pub record WsRequest : Type 0 where
  pub id : Text
  pub path : Text
  pub kind : Text
  pub server : Option SekaiServerRegion
  pub event_id : Option ℤ

pub record OnlinePayload : Type 0 where
  pub total : ℕ
  pub topic : ℕ

-- The data of a response are those of the two requests here.
pub record WsResponse : Type 0 where
  pub id : Text
  pub ok : Bool
  pub «data» : Option OnlinePayload
  pub error : Option Text
  pub status : ℕ

pub record WsEvent : Type 0 where
  pub kind : Text
  pub server : Option SekaiServerRegion
  pub event_id : Option ℤ
  pub timestamp : Option ℤ
  pub online : Option OnlinePayload

abbrev pub contains : RealtimeTopic → List RealtimeTopic → Bool
contains topic topics = any (topic_beq topic) topics

abbrev pub is_positive : ℤ → Bool
is_positive (pos n) = if nat_beq n 0 then false else true
is_positive (negsuc n) = false

abbrev pub bad_request : Text → Text → WsResponse
bad_request id error = record {
  id = id;
  ok = false;
  «data» = none;
  error = some error;
  status = 400;
}

abbrev pub online_response : Text → RealtimeTopic → RealtimeHub → WsResponse
online_response id topic hub = record {
  id = id;
  ok = true;
  «data» = some (record { total = total_online hub; topic = topic_online topic hub });
  error = none;
  status = 200;
}

-- The topic of a request, or the error.
abbrev pub topic_of : WsRequest → Option SekaiServerRegion → Option ℤ → Option RealtimeTopic × Text
topic_of request none event_id = (none, codes "server is required")
topic_of request (some server) none = (none, codes "eventId is required")
topic_of request (some server) (some event_id) =
    if is_positive event_id
    then (some (record { server = server; event_id = event_id }), codes "")
    else (none, codes "eventId is required")

-- The topics of the socket and the hub.
abbrev pub Joined : Type 0
Joined = List RealtimeTopic × RealtimeHub

abbrev pub join : RealtimeTopic → Joined → Joined
join topic (topics, hub) =
    if contains topic topics
    then (topics, hub)
    else (topic ∷ topics, (add_topic_subscription topic hub).1)

abbrev pub leave : RealtimeTopic → Joined → Joined
leave topic (topics, hub) =
    if contains topic topics
    then (
      filter (λ t. if topic_beq topic t then false else true) topics,
      remove_topic_subscription topic hub,
    )
    else (topics, hub)

abbrev pub respond :
    Text
    → Option RealtimeTopic × Text
    → (RealtimeTopic → Joined → Joined)
    → Joined
    → WsResponse × Joined
respond id (none, error) act s = (bad_request id error, s)
respond id (some topic, error) act s =
    let after = act topic s in (online_response id topic after.1, after)

unfoldable pub subscribe_topic : WsRequest → Joined → WsResponse × Joined
unfolding add_topic_subscription topic_online
subscribe_topic request s =
    respond request.id (topic_of request request.server request.event_id) join s

unfoldable pub unsubscribe_topic : WsRequest → Joined → WsResponse × Joined
unfolding remove_topic_subscription topic_online
unsubscribe_topic request s =
    respond request.id (topic_of request request.server request.event_id) leave s

-- The event that a socket sends for a broadcast message, if it does.
unfoldable pub handle_realtime_message : List RealtimeTopic → RealtimeMessage → Option WsEvent
handle_realtime_message topics (RealtimeMessage.updated topic timestamp) =
    if contains topic topics
    then some (record {
      kind = codes "updated";
      server = some topic.server;
      event_id = some topic.event_id;
      timestamp = some timestamp;
      online = none;
    })
    else none
handle_realtime_message topics (RealtimeMessage.online topic total at_topic) =
    if contains topic topics
    then some (record {
      kind = codes "online";
      server = some topic.server;
      event_id = some topic.event_id;
      timestamp = none;
      online = some (record { total = total; topic = at_topic });
    })
    else none

-- The hub and the topics of the open sockets.
pub record Sockets : Type 0 where
  pub hub : RealtimeHub
  pub joined : List (List RealtimeTopic)

abbrev pub no_sockets : Sockets
no_sockets = record { hub = Realtime.new; joined = [] }

pub data Step (s : Sockets) : Sockets → Type 0 where
  -- There are never more than a `usize` counts.
  opens :
      length s.joined + 1 < 2 ^ 64
      → Step s (record { hub = (connection_opened s.hub).1; joined = [] ∷ s.joined })
  subscribes :
      (before after : List (List RealtimeTopic)) (topics : List RealtimeTopic) (request : WsRequest)
      → s.joined ≡ before ++ (topics ∷ after)
      → Step s (record {
        hub = (subscribe_topic request (topics, s.hub)).1.1;
        joined = before ++ ((subscribe_topic request (topics, s.hub)).1.0 ∷ after);
      })
  unsubscribes :
      (before after : List (List RealtimeTopic)) (topics : List RealtimeTopic) (request : WsRequest)
      → s.joined ≡ before ++ (topics ∷ after)
      → Step s (record {
        hub = (unsubscribe_topic request (topics, s.hub)).1.1;
        joined = before ++ ((unsubscribe_topic request (topics, s.hub)).1.0 ∷ after);
      })
  closes :
      (before after : List (List RealtimeTopic)) (topics : List RealtimeTopic)
      → s.joined ≡ before ++ (topics ∷ after)
      → Step s (record { hub = connection_closed topics s.hub; joined = before ++ after })
  notifies :
      (topic : RealtimeTopic) (timestamp : ℤ)
      → Step s (record s { hub = notify_update topic timestamp s.hub })

pub data Reach : Sockets → Type 0 where
  here : Reach no_sockets
  next : {s t : Sockets} → Reach s → Step s t → Reach t
