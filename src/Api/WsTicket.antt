-- ===== src/Api/WsTicket.antt =====
-- src/api/ws_ticket.rs: tickets that open one websocket. `trim` stands for `str::trim`; a new
-- ticket's text comes from the random source and is an argument. Instants count nanoseconds.
use haruki_event_tracker.Prelude.{
  ℕ, ◌+◌, ltb, false, [], ◌∷◌, Option, none, some, ◌≡◌, refl, ap, ◌∙◌, subst, list_beq,
  list_beq_iff, arith, filter, is_empty, if◌then◌else◌, list_eq, nat_eq, inl, inr, Bool-cases,
}
use haruki_event_tracker.Prelude.HashMap
use haruki_event_tracker.Prelude.HashMap.{HashMap, Distinct, get-insert_self, get-remove}
use haruki_event_tracker.Prelude.Text.{Text}

pub record WsTicket : Type 0 where
  pub subject : Text
  pub expires_at : ℕ

-- 45 seconds.
abbrev pub ticket_ttl : ℕ
ticket_ttl = 45000000000

-- `tickets.retain(|_, ticket| ticket.expires_at > now)`
unfoldable pub prune_expired : HashMap Text WsTicket → ℕ → HashMap Text WsTicket
prune_expired tickets now = filter (λ e. ltb now e.1.expires_at) tickets

-- The clock is read twice: for the expiry, and when the store is locked.
unfoldable pub issue : HashMap Text WsTicket → Text → Text → ℕ → ℕ → HashMap Text WsTicket
unfolding prune_expired HashMap.insert
issue tickets subject ticket start now =
    HashMap.insert ticket (record { subject = subject; expires_at = start + ticket_ttl })
      (prune_expired tickets now)

abbrev pub unexpired : ℕ → Option WsTicket → Option WsTicket
unexpired now none = none
unexpired now (some t) = if ltb now t.expires_at then some t else none

unfoldable pub consume :
    (Text → Text) → HashMap Text WsTicket → Text → ℕ → Option WsTicket × HashMap Text WsTicket
unfolding prune_expired HashMap.get HashMap.remove
consume trim tickets ticket now = if is_empty (trim ticket) then (none, tickets) else (
  unexpired now (HashMap.get (trim ticket) (prune_expired tickets now)),
  HashMap.remove (trim ticket) (prune_expired tickets now),
)

unexpired_twice :
    (now : ℕ) (o : Option WsTicket) → unexpired now (unexpired now o) ≡ unexpired now o
unexpired_twice now none = refl
unexpired_twice now (some t) = ground arith

get-prune_none :
    (k : Text) (m : HashMap Text WsTicket) (now : ℕ)
    → HashMap.get k m ≡ none
    → HashMap.get k (prune_expired m now) ≡ none
unfolding prune_expired HashMap.get
get-prune_none k [] now h = refl
get-prune_none k ((j, t) ∷ m) now h = ground (arith, get-prune_none k m now)

get-prune :
    (k : Text) (m : HashMap Text WsTicket) (now : ℕ)
    → Distinct m
    → HashMap.get k (prune_expired m now) ≡ unexpired now (HashMap.get k m)
unfolding prune_expired HashMap.get
get-prune k [] now d = refl
get-prune k ((j, t) ∷ m) now d = elim (Bool-cases (list_beq ⦃e = nat_eq⦄ j k)) [
  | inl same ↦
      let absent : HashMap.get k m ≡ none =
        subst (λ x. HashMap.get x m ≡ none) ((list_beq_iff ⦃e = nat_eq⦄ j k).0 same) d.0 in
      ground (arith, get-prune_none k m now absent)
  | inr other ↦ ground (arith, get-prune k m now d.1)
]

prune-Distinct : (m : HashMap Text WsTicket) (now : ℕ) → Distinct m → Distinct (prune_expired m now)
unfolding prune_expired HashMap.get
prune-Distinct [] now d = tt
prune-Distinct ((j, t) ∷ m) now d = elim (Bool-cases (ltb now t.expires_at)) [
  | inl e ↦ rw e (get-prune_none j m now d.0, prune-Distinct m now d.1)
  | inr e ↦ rw e (prune-Distinct m now d.1)
]

get-remove_self :
    (k : Text) (m : HashMap Text WsTicket) → Distinct m → HashMap.get k (HashMap.remove k m) ≡ none
get-remove_self k m d = get-remove k k m d ∙ ground (arith, list_beq_iff ⦃e = nat_eq⦄ k k)

-- Consuming a ticket that is not blank gives it exactly when the store has it and it has not
-- expired, and whatever came out, consuming it again at any time gives nothing.
pub consume_once :
    (trim : Text → Text) (tickets : HashMap Text WsTicket) (ticket : Text) (now later : ℕ)
    → Distinct tickets
    → is_empty (trim ticket) ≡ false
    → ((consume trim tickets ticket now).0 ≡ unexpired now (HashMap.get (trim ticket) tickets))
      × ((consume trim (consume trim tickets ticket now).1 ticket later).0 ≡ none)
unfolding consume
consume_once trim tickets ticket now later d e = rw e (
  ap (unexpired now) (get-prune (trim ticket) tickets now d)
      ∙ unexpired_twice now (HashMap.get (trim ticket) tickets),
  ap (unexpired later) (
      get-prune_none (trim ticket) (HashMap.remove (trim ticket) (prune_expired tickets now)) later
        (get-remove_self (trim ticket) (prune_expired tickets now) (prune-Distinct tickets now d))),
)
