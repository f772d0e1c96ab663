-- ===== src/Services/EventLaws.antt =====
-- What the routes of services/event-service do to the rows.
use ticketremaster_b.Base.{
  ℕ, ◌≡◌, refl, inl, inr, Option, none, some, List, [], ◌∷◌, ◌||◌, arith, if-cases,
}
use ticketremaster_b.Base.Table.{Table, lookup, insert, insert_inv}
use ticketremaster_b.Web.{Result, ok, err, internal_error}
use ticketremaster_b.Services.Events.{
  Event, NewEvent, EventPatch, to_event, copied, parse_date, create_dated, create_event,
  patched_event, is_empty_event_patch, date_or, update_dated, update_uncancelled,
  update_event_found, update_event, duplicate_found, duplicate_event, utc_now, cancel_at,
  cancel_uncancelled, cancel_event_found, cancel_event, publish_at, publish_event,
}

-- No event is cancelled.
abbrev pub NoneCancelled : Table Event → Type 0
NoneCancelled events = (k : ℕ) (e : Event) → lookup k events ≡ some e → e.cancelled_at ≡ none

insert-NoneCancelled :
    (k : ℕ) (e : Event) (events : Table Event)
    → e.cancelled_at ≡ none
    → NoneCancelled events
    → NoneCancelled (insert k e events)
insert-NoneCancelled k e events c h j x at = elim (insert_inv k j e x events at) [
  | inl (_, is) ↦ (cc)
  | inr old ↦ h j x old
]

-- The writing requests; see the routes for their arguments.
pub data EventRequest : Type 0 where
  creating : ℕ → Option NewEvent → EventRequest
  updating : ℕ → EventPatch → EventRequest
  duplicating : (ℕ → ℕ) → (new_id event_id : ℕ) → Option ℕ → EventRequest
  cancelling : (clock event_id : ℕ) → EventRequest

-- The events after a request.
unfoldable pub serve : EventRequest → Table Event → Table Event
serve (creating k body) events = (create_event k body events).1
serve (updating k p) events = (update_event k p events).1
serve (duplicating copy_name new k name) events = (duplicate_event copy_name new k name events).1
serve (cancelling clock k) events = (cancel_event clock k events).1

unfoldable pub serve_all : List EventRequest → Table Event → Table Event
serve_all [] events = events
serve_all (r ∷ rest) events = serve_all rest (serve r events)

-- The clock raises, so that nothing is written.
cancel_event_same :
    (clock k : ℕ) (found : Option Event) (events : Table Event)
    → (cancel_event_found clock k found events).1 ≡ events
unfolding cancel_event_found
cancel_event_same clock k none events = refl
cancel_event_same clock k (some e) events = by_state e.cancelled_at
  where
    by_state : (c : Option ℕ) → (cancel_uncancelled clock k e c events).1 ≡ events
    by_state none = unfold cancel_uncancelled utc_now cancel_at in refl
    by_state (some t) = unfold cancel_uncancelled in refl

create-NoneCancelled :
    (k : ℕ) (body : NewEvent) (date : Result ℕ) (events : Table Event)
    → NoneCancelled events
    → NoneCancelled (create_dated k body date events).1
unfolding create_dated
create-NoneCancelled k body (err c) events h = h
create-NoneCancelled k body (ok date) events h =
    insert-NoneCancelled k (to_event date body) events refl h

update-NoneCancelled :
    (k : ℕ) (p : EventPatch) (found : Option Event) (events : Table Event)
    → lookup k events ≡ found
    → NoneCancelled events
    → NoneCancelled (update_event_found k p found events).1
unfolding update_event_found
update-NoneCancelled k p none events at h = h
update-NoneCancelled k p (some e) events at h = by_state e.cancelled_at (h k e at)
  where
    by_date : (d : Result ℕ) → e.cancelled_at ≡ none → NoneCancelled (update_dated k p e d events).1
    by_date (err c) open_now = unfold update_dated in h
    by_date (ok date) open_now =
        unfold update_dated patched_event in
        insert-NoneCancelled k (patched_event p date e) events open_now h

    by_state :
        (c : Option ℕ) → e.cancelled_at ≡ none → NoneCancelled (update_uncancelled k p e c events).1
    by_state none open_now = unfold update_uncancelled in by_date (date_or p.date e.date) open_now
    by_state (some t) open_now = unfold update_uncancelled in h

duplicate-NoneCancelled :
    (new name : ℕ) (found : Option Event) (events : Table Event)
    → NoneCancelled events
    → NoneCancelled (duplicate_found new name found events).1
unfolding duplicate_found
duplicate-NoneCancelled new name none events h = h
duplicate-NoneCancelled new name (some e) events h =
    insert-NoneCancelled new (copied name e) events refl h

abbrev Leaves : Result Event × Table Event → Type 0
Leaves r = NoneCancelled r.1

serve-NoneCancelled :
    (r : EventRequest) (events : Table Event)
    → NoneCancelled events
    → NoneCancelled (serve r events)
unfolding serve create_event update_event duplicate_event cancel_event
serve-NoneCancelled (creating k none) events h = h
serve-NoneCancelled (creating k (some body)) events h =
    create-NoneCancelled k body (parse_date body.date) events h
serve-NoneCancelled (updating k p) events h =
    if-cases Leaves (is_empty_event_patch p || p.unsupported) _ _ (λ _. h)
      (λ _. update-NoneCancelled k p (lookup k events) events refl h)
serve-NoneCancelled (duplicating copy_name new k name) events h =
    duplicate-NoneCancelled new _ (lookup k events) events h
serve-NoneCancelled (cancelling clock k) events h =
    rw (cancel_event_same clock k (lookup k events) events) h

-- No event is ever cancelled, neither by the route that deletes an event nor by the one that
-- cancels it: after any requests every event is as little cancelled as all were before, since the
-- two routes raise an exception where they ask for the time.
pub serve_all-NoneCancelled :
    (requests : List EventRequest) (events : Table Event)
    → NoneCancelled events
    → NoneCancelled (serve_all requests events)
unfolding serve_all
serve_all-NoneCancelled [] events h = h
serve_all-NoneCancelled (r ∷ rest) events h =
    serve_all-NoneCancelled rest (serve r events) (serve-NoneCancelled r events h)

-- Both routes, and the one that publishes, answer an event that is there and not cancelled with an
-- internal error, and change nothing.
pub cancel_event_fails :
    (clock k : ℕ) (events : Table Event) (e : Event)
    → lookup k events ≡ some e
    → e.cancelled_at ≡ none
    → (cancel_event clock k events ≡ (err internal_error, events))
      × (publish_event clock k events ≡ err internal_error)
unfolding cancel_event cancel_event_found cancel_uncancelled cancel_at utc_now publish_event
    publish_at
cancel_event_fails clock k events e at open_now = ground (arith, at, open_now)
