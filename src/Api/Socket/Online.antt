-- ===== src/Api/Socket/Online.antt =====
-- The counts of the hub are those of the open sockets.
use haruki_event_tracker.Prelude.{
  ◌+◌, ◌-◌, ◌%◌, ◌^◌, ◌<◌, List, ◌∷◌, ◌++◌, length, length-append, All, All-take_out, All-put,
  Option, none, some, ◌≡◌, refl, ap, subst, arith,
}
use haruki_event_tracker.Prelude.HashMap
use haruki_event_tracker.Prelude.HashMap.{
  HashMap, Distinct, get-insert, get-remove, insert-Distinct, remove-Distinct,
}
use haruki_event_tracker.Api.Realtime.{
  RealtimeTopic, RealtimeHub, topic_eq, topic_online, total_online, connection_opened,
  connection_closed, notify_update,
}
use haruki_event_tracker.Api.Socket.{
  topic_of, join, leave, respond, subscribe_topic, unsubscribe_topic, Sockets, Step, opens,
  subscribes, unsubscribes, closes, notifies, Reach, here, next,
}
use haruki_event_tracker.Prelude.Text.{Text}
use haruki_event_tracker.Api.Socket.{Joined}
use haruki_event_tracker.Api.Socket.Counts.{
  subscribers, subscribers-middle, remove_all_counts, NoDuplicates,
}
use haruki_event_tracker.Api.Socket.Sets.{Moves, Counted, join-Moves, leave-Moves}

pub record Inv (s : Sockets) : Type 0 where
  pub total : s.hub.online_total ≡ length s.joined
  pub small : length s.joined < 2 ^ 64
  pub distinct : Distinct s.hub.online_by_topic
  pub sets : All NoDuplicates s.joined
  pub counts : (t : RealtimeTopic) → topic_online t s.hub ≡ subscribers t s.joined

-- The sockets with the topics of one of them replaced.
replace-Inv :
    (s : Sockets) (before after : List (List RealtimeTopic)) (topics topics' : List RealtimeTopic)
    (hub : RealtimeHub)
    → s.joined ≡ before ++ (topics ∷ after)
    → Moves topics s.hub topics' hub
    → Inv s
    → Inv (record { hub = hub; joined = before ++ (topics' ∷ after) })
replace-Inv s before after topics topics' hub e (total, kept, set, moves) i = record {
  total = ground (
    arith,
    i.total,
    total,
    ap length e,
    length-append before (topics ∷ after),
    length-append before (topics' ∷ after),
  );
  small = ground (
    arith,
    i.small,
    ap length e,
    length-append before (topics ∷ after),
    length-append before (topics' ∷ after),
  );
  distinct = kept;
  sets = All-put NoDuplicates before topics topics' after set (subst (All NoDuplicates) e i.sets);
  counts = λ t. ground (
    arith,
    moves t,
    i.counts t,
    ap (subscribers t) e,
    subscribers-middle t before topics after,
    subscribers-middle t before topics' after,
  );
}

counted :
    (s : Sockets) (before after : List (List RealtimeTopic)) (topics : List RealtimeTopic)
    → s.joined ≡ before ++ (topics ∷ after)
    → Inv s
    → Counted topics s.hub
counted s before after topics e i t =
    omega (arith, i.counts t, ap (subscribers t) e, subscribers-middle t before topics after)

own_set :
    (s : Sockets) (before after : List (List RealtimeTopic)) (topics : List RealtimeTopic)
    → s.joined ≡ before ++ (topics ∷ after)
    → Inv s
    → NoDuplicates topics
own_set s before after topics e i =
    (All-take_out NoDuplicates before topics after (subst (All NoDuplicates) e i.sets)).0

close-Inv :
    (s : Sockets) (before after : List (List RealtimeTopic)) (topics : List RealtimeTopic)
    → s.joined ≡ before ++ (topics ∷ after)
    → Inv s
    → Inv (record { hub = connection_closed topics s.hub; joined = before ++ after })
unfolding connection_closed topic_online
close-Inv s before after topics e i =
    let (total, kept, counts) =
      remove_all_counts topics
        (record s.hub { online_total = (s.hub.online_total + (2 ^ 64 - 1)) % 2 ^ 64 })
        (own_set s before after topics e i) i.distinct in
    record {
      total = ground (
        arith,
        total,
        i.total,
        i.small,
        ap length e,
        length-append before (topics ∷ after),
        length-append before after,
      );
      small = ground (
        arith,
        i.small,
        ap length e,
        length-append before (topics ∷ after),
        length-append before after,
      );
      distinct = kept;
      sets = (All-take_out NoDuplicates before topics after (subst (All NoDuplicates) e i.sets)).1;
      counts = λ t. ground (
        arith,
        counts t,
        i.counts t,
        ap (subscribers t) e,
        subscribers-middle t before topics after,
      );
    }

respond-Moves :
    (id : Text) (found : Option RealtimeTopic × Text) (act : RealtimeTopic → Joined → Joined)
    (topics : List RealtimeTopic) (hub : RealtimeHub)
    → NoDuplicates topics
    → Distinct hub.online_by_topic
    → ((u : RealtimeTopic) → Moves topics hub (act u (topics, hub)).0 (act u (topics, hub)).1)
    → Moves topics hub
        (respond id found act (topics, hub)).1.0
        (respond id found act (topics, hub)).1.1
respond-Moves id (none, error) act topics hub n d m = (refl, d, n, λ t. refl)
respond-Moves id (some topic, error) act topics hub n d m = m topic

Step-Inv : {s t : Sockets} → Step s t → Inv s → Inv t
unfolding connection_opened subscribe_topic unsubscribe_topic notify_update topic_online
Step-Inv {s} (opens b) i = record {
  total = ground (arith, i.total);
  small = omega (arith, b);
  distinct = i.distinct;
  sets = (tt, i.sets);
  counts = λ t. omega (arith, i.counts t);
}
Step-Inv {s} (subscribes before after topics request e) i =
    replace-Inv s before after topics _ _ e
      (respond-Moves request.id (topic_of request request.server request.event_id) join topics s.hub
        (own_set s before after topics e i) i.distinct
        (λ u. join-Moves u topics s.hub (own_set s before after topics e i) i.distinct))
      i
Step-Inv {s} (unsubscribes before after topics request e) i =
    replace-Inv s before after topics _ _ e
      (respond-Moves request.id (topic_of request request.server request.event_id) leave topics
        s.hub (own_set s before after topics e i) i.distinct
        (λ u.
          leave-Moves u topics s.hub (own_set s before after topics e i) i.distinct
            (counted s before after topics e i)))
      i
Step-Inv {s} (closes before after topics e) i = close-Inv s before after topics e i
Step-Inv {s} (notifies topic timestamp) i = record {
  total = i.total;
  small = i.small;
  distinct = i.distinct;
  sets = i.sets;
  counts = i.counts;
}

Reach-Inv : {s : Sockets} → Reach s → Inv s
unfolding topic_online HashMap.get
Reach-Inv here = record {
  total = refl;
  small = omega arith;
  distinct = tt;
  sets = tt;
  counts = λ t. refl;
}
Reach-Inv (next r st) = Step-Inv st (Reach-Inv r)

-- Whatever sockets open, close, subscribe and unsubscribe, rightly or not, the hub's total is the
-- number of open sockets, and its count of a topic is the number of open sockets that have joined
-- it.
pub hub_counts :
    {s : Sockets}
    → Reach s
    → (total_online s.hub ≡ length s.joined)
      × ((t : RealtimeTopic) → topic_online t s.hub ≡ subscribers t s.joined)
hub_counts r = ((Reach-Inv r).total, (Reach-Inv r).counts)
