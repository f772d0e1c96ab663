-- ===== src/Services/Events.antt =====
-- services/event-service: models.py and routes.py. Prices are whole cents; texts are numbers.
use ticketremaster_b.Base.{
  ℕ, Bool, true, false, Option, none, some, ◌&&◌, ◌||◌, not, ltb, if◌then◌else◌,
}
use ticketremaster_b.Base.Int.{ℤ}
use ticketremaster_b.Base.Table.{Table, lookup, insert}
use ticketremaster_b.Web.{
  Result, ok, err, validation_error, internal_error, event_not_found, event_cancelled,
  event_in_past, event_already_cancelled, invalid_date, Stamp, null, unparsable, at,
}
use ticketremaster_b.Services.Tickets.{field_or}

-- `class Event`, without its key and `createdAt`
pub record Event : Type 0 where
  pub venue_id : ℕ
  pub name : ℕ
  pub date : ℕ
  pub description : Option ℕ
  pub event_type : ℕ
  pub image : Option ℕ
  pub price : ℤ
  pub cancelled_at : Option ℕ

-- The body of POST /events with its required fields.
pub record NewEvent : Type 0 where
  pub venue_id : ℕ
  pub name : ℕ
  pub date : Stamp
  pub description : Option ℕ
  pub event_type : ℕ
  pub image : Option ℕ
  pub price : ℤ

-- The default of the column `image`.
abbrev pub default_image : ℕ
default_image = 0

abbrev pub to_event : ℕ → NewEvent → Event
to_event date body = record {
  venue_id = body.venue_id;
  name = body.name;
  date = date;
  description = body.description;
  event_type = body.event_type;
  image = some (field_or body.image default_image);
  price = body.price;
  cancelled_at = none;
}

-- `parse_datetime`, then the column `date`, which is not nullable
unfoldable pub parse_date : Stamp → Result ℕ
parse_date null = err internal_error
parse_date unparsable = err invalid_date
parse_date (at n) = ok n

unfoldable pub create_dated : ℕ → NewEvent → Result ℕ → Table Event → Result Event × Table Event
create_dated event_id body (err c) events = (err c, events)
create_dated event_id body (ok date) events =
    (ok (to_event date body), insert event_id (to_event date body) events)

-- `create_event`, by `uuid4`; the type is not compared with VALID_EVENT_TYPES
unfoldable pub create_event : ℕ → Option NewEvent → Table Event → Result Event × Table Event
create_event event_id none events = (err validation_error, events)
create_event event_id (some body) events = create_dated event_id body (parse_date body.date) events

-- `get_event`
unfoldable pub get_event : ℕ → Table Event → Result Event
get_event event_id events = elim (lookup event_id events) [
  | none ↦ err event_not_found
  | some e ↦ ok e
]

-- The body of PUT /admin/events/<id>: the fields that it has.
pub record EventPatch : Type 0 where
  pub venue_id : Option ℕ
  pub name : Option ℕ
  pub date : Option Stamp
  pub description : Option (Option ℕ)
  pub event_type : Option ℕ
  pub image : Option (Option ℕ)
  pub price : Option ℤ
  pub unsupported : Bool

abbrev pub no_event_patch : EventPatch
no_event_patch = record {
  venue_id = none;
  name = none;
  date = none;
  description = none;
  event_type = none;
  image = none;
  price = none;
  unsupported = false;
}

-- the `setattr` loop, with the date already parsed
unfoldable pub patched_event : EventPatch → ℕ → Event → Event
patched_event p date e = record e {
  venue_id = field_or p.venue_id e.venue_id;
  name = field_or p.name e.name;
  date = date;
  description = field_or p.description e.description;
  event_type = field_or p.event_type e.event_type;
  image = field_or p.image e.image;
  price = field_or p.price e.price;
}

abbrev missing {ℓ} : {A : Type ℓ} → Option A → Bool
missing none = true
missing (some a) = false

unfoldable pub is_empty_event_patch : EventPatch → Bool
is_empty_event_patch p =
    missing p.venue_id
    && missing p.name
    && missing p.date
    && missing p.description
    && missing p.event_type
    && missing p.image
    && missing p.price
    && not p.unsupported

abbrev pub date_or : Option Stamp → ℕ → Result ℕ
date_or none date = ok date
date_or (some s) date = parse_date s

unfoldable pub update_dated :
    ℕ → EventPatch → Event → Result ℕ → Table Event → Result Event × Table Event
update_dated event_id p e (err c) events = (err c, events)
update_dated event_id p e (ok date) events =
    (ok (patched_event p date e), insert event_id (patched_event p date e) events)

unfoldable pub update_uncancelled :
    ℕ → EventPatch → Event → Option ℕ → Table Event → Result Event × Table Event
update_uncancelled event_id p e (some t) events = (err event_cancelled, events)
update_uncancelled event_id p e none events =
    update_dated event_id p e (date_or p.date e.date) events

unfoldable pub update_event_found :
    ℕ → EventPatch → Option Event → Table Event → Result Event × Table Event
update_event_found event_id p none events = (err event_not_found, events)
update_event_found event_id p (some e) events =
    update_uncancelled event_id p e e.cancelled_at events

-- `update_event`
unfoldable pub update_event : ℕ → EventPatch → Table Event → Result Event × Table Event
update_event event_id p events =
    if is_empty_event_patch p || p.unsupported
    then (err validation_error, events)
    else update_event_found event_id p (lookup event_id events) events

-- The new row of `duplicate_event`; an image that is null becomes the default of the column.
abbrev pub copied : ℕ → Event → Event
copied name e = record e {
  name = name;
  image = some (field_or e.image default_image);
  cancelled_at = none;
}

unfoldable pub duplicate_found : ℕ → ℕ → Option Event → Table Event → Result Event × Table Event
duplicate_found new_id name none events = (err event_not_found, events)
duplicate_found new_id name (some e) events =
    (ok (copied name e), insert new_id (copied name e) events)

-- `duplicate_event`; `copy_name` is the name of a body that has none
unfoldable pub duplicate_event :
    (ℕ → ℕ) → ℕ → ℕ → Option ℕ → Table Event → Result Event × Table Event
duplicate_event copy_name new_id event_id name events =
    let found = lookup event_id events in
    duplicate_found new_id
      (elim name [ some n ↦ n | none ↦ elim found [ none ↦ 0 | some e ↦ copy_name e.name ] ]) found
      events

-- `datetime.now(datetime.timezone.utc)` where `datetime` is the class of that name, which has no
-- attribute `timezone`: it raises AttributeError.
unfoldable pub utc_now : ℕ → Result ℕ
utc_now clock = err internal_error

unfoldable pub publish_at : Event → Result ℕ → Result Event
publish_at e (err c) = err c
publish_at e (ok now) = if ltb e.date now then err event_in_past else ok e

-- `publish_event`, which stores nothing: `updatedAt` is no column
unfoldable pub publish_event : ℕ → ℕ → Table Event → Result Event
publish_event clock event_id events = elim (lookup event_id events) [
  | none ↦ err event_not_found
  | some e ↦ elim e.cancelled_at [
    | some t ↦ err event_cancelled
    | none ↦ publish_at e (utc_now clock)
  ]
]

unfoldable pub cancel_at : ℕ → Event → Result ℕ → Table Event → Result Event × Table Event
cancel_at event_id e (err c) events = (err c, events)
cancel_at event_id e (ok now) events = (
  ok (record e { cancelled_at = some now }),
  insert event_id (record e { cancelled_at = some now }) events,
)

unfoldable pub cancel_uncancelled :
    ℕ → ℕ → Event → Option ℕ → Table Event → Result Event × Table Event
cancel_uncancelled clock event_id e (some t) events = (err event_already_cancelled, events)
cancel_uncancelled clock event_id e none events = cancel_at event_id e (utc_now clock) events

unfoldable pub cancel_event_found : ℕ → ℕ → Option Event → Table Event → Result Event × Table Event
cancel_event_found clock event_id none events = (err event_not_found, events)
cancel_event_found clock event_id (some e) events =
    cancel_uncancelled clock event_id e e.cancelled_at events

-- `delete_event` and `cancel_event`, which do the same
unfoldable pub cancel_event : ℕ → ℕ → Table Event → Result Event × Table Event
cancel_event clock event_id events =
    cancel_event_found clock event_id (lookup event_id events) events
