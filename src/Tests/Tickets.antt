-- ===== src/Tests/Tickets.antt =====
-- Runs of the websocket tickets.
use haruki_event_tracker.Prelude.{◌≡◌, refl, none, [], ◌∷◌, list_eq, nat_eq}
use haruki_event_tracker.Prelude.HashMap
use haruki_event_tracker.Prelude.HashMap.{HashMap}
use haruki_event_tracker.Prelude.Text.{Text, codes}
use haruki_event_tracker.Api.WsTicket.{WsTicket, unexpired, consume, consume_once}

abbrev tickets : HashMap Text WsTicket
tickets = (codes "t", record { subject = codes "s"; expires_at = 90 }) ∷ []

no_other : HashMap.get {V = WsTicket} (codes "t") [] ≡ none
unfolding HashMap.get
no_other = refl

consume_once_example :
    ((consume (λ s. s) tickets (codes "t") 50).0 ≡ unexpired 50 (HashMap.get (codes "t") tickets))
    × ((consume (λ s. s) (consume (λ s. s) tickets (codes "t") 50).1 (codes "t") 60).0 ≡ none)
consume_once_example = consume_once (λ s. s) tickets (codes "t") 50 60 (no_other, tt) refl
