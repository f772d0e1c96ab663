-- ===== src/Seats/Routes.antt =====
-- services/seat-inventory-service/routes.py: the REST routes over the same rows.
use ticketremaster_b.Base.{
  ℕ, suc, Bool, false, Option, none, some, List, [], ◌∷◌, ◌&&◌, ◌||◌, ◌==◌, same, if◌then◌else◌,
}
use ticketremaster_b.Base.Table.{Table, insert}
use ticketremaster_b.Seats.Model.{SeatStatus, available, is_held, SeatInventory, SeatState}

-- `status` of an entry: left out, a text, or what is refused (no text, or an empty one).
pub data EntryStatus : Type 0 where
  absent bad_status : EntryStatus
  text : SeatStatus → EntryStatus

-- An entry of `seats`; `seatId` is 0 where it is missing or empty.
pub data SeatEntry : Type 0 where
  not_object : SeatEntry
  entry : ℕ → EntryStatus → SeatEntry

-- The field `seats`: missing or empty, truthy and no list, or a list.
pub data SeatsField : Type 0 where
  falsy not_list : SeatsField
  entries : SeatEntry → List SeatEntry → SeatsField

pub data BatchReply : Type 0 where
  created : ℕ → BatchReply
  missing_fields seats_not_list entry_not_object entry_without_seat : BatchReply
  bad_seat_status already_exists db_error : BatchReply

pub data Normalized : Type 0 where
  normal : List (ℕ × SeatStatus) → Normalized
  invalid : BatchReply → Normalized

abbrev add_seat : ℕ → SeatStatus → Normalized → Normalized
add_seat seat_id status (normal seats) = normal ((seat_id, status) ∷ seats)
add_seat seat_id status (invalid r) = invalid r

abbrev entry_status : EntryStatus → Option SeatStatus
entry_status absent = some available
entry_status (text status) = some status
entry_status bad_status = none

abbrev with_seat : ℕ → Option SeatStatus → Normalized → Normalized
with_seat seat_id none rest = invalid bad_seat_status
with_seat seat_id (some status) rest = add_seat seat_id status rest

-- The loop that checks the entries; the first that is refused decides.
unfoldable pub normalize : List SeatEntry → Normalized
normalize [] = normal []
normalize (not_object ∷ rest) = invalid entry_not_object
normalize (entry seat_id status ∷ rest) =
    let later = normalize rest in
    if seat_id == 0
    then invalid entry_without_seat
    else with_seat seat_id (entry_status status) later

-- `SeatInventory.query.filter_by(eventId=event_id).first()` finds a row
unfoldable pub has_event : ℕ → Table SeatInventory → Bool
has_event event_id [] = false
has_event event_id ((k, row) ∷ rest) = (row.event_id == event_id) || has_event event_id rest

abbrev pub new_row : ℕ → ℕ → SeatStatus → SeatInventory
new_row event_id seat_id status = record {
  event_id = event_id;
  seat_id = seat_id;
  status = status;
  held_by_user_id = none;
  hold_token = none;
  held_until = none;
}

-- `bulk_save_objects`; `uuid i` is the identifier that `uuid4` gives to the i-th row.
unfoldable pub save_rows :
    ℕ → (ℕ → ℕ) → ℕ → List (ℕ × SeatStatus) → Table SeatInventory → Table SeatInventory
save_rows event_id uuid i [] rows = rows
save_rows event_id uuid i ((seat_id, status) ∷ rest) rows =
    save_rows event_id uuid (suc i) rest (insert (uuid i) (new_row event_id seat_id status) rows)

-- `uq_seat_inventory_event_seat` within one batch
unfoldable pub repeated_seat : List (ℕ × SeatStatus) → Bool
repeated_seat [] = false
repeated_seat ((seat_id, status) ∷ rest) = seen seat_id rest || repeated_seat rest
  where
    seen : ℕ → List (ℕ × SeatStatus) → Bool
    seen k [] = false
    seen k ((j, _) ∷ more) = (j == k) || seen k more

abbrev count : List (ℕ × SeatStatus) → ℕ
count [] = 0
count (x ∷ xs) = suc (count xs)

module _ (event_id : ℕ) (uuid : ℕ → ℕ) (db_fault : Bool) where
  unfoldable pub save_batch : Normalized → SeatState → BatchReply × SeatState
  save_batch (invalid r) s = (r, s)
  save_batch (normal seats) s =
      if has_event event_id s.rows
      then (already_exists, s)
      else if db_fault || repeated_seat seats
      then (db_error, s)
      else (created (count seats), record s { rows = save_rows event_id uuid 0 seats s.rows })

  -- `create_inventory_batch`
  unfoldable pub create_inventory_batch : SeatsField → SeatState → BatchReply × SeatState
  create_inventory_batch falsy s = (missing_fields, s)
  create_inventory_batch not_list s = (if event_id == 0 then missing_fields else seats_not_list, s)
  create_inventory_batch (entries first rest) s =
      if event_id == 0 then (missing_fields, s) else save_batch (normalize (first ∷ rest)) s

-- `get_my_hold`: the first row of the event that the user holds
unfoldable pub find_hold : ℕ → ℕ → Table SeatInventory → Option (ℕ × SeatInventory)
find_hold event_id user_id [] = none
find_hold event_id user_id ((k, row) ∷ rest) =
    if (row.event_id == event_id) && same row.held_by_user_id (some user_id) && is_held row.status
    then some (k, row)
    else find_hold event_id user_id rest

pub data MyHold : Type 0 where
  user_required no_hold : MyHold
  my_hold : ℕ → SeatInventory → MyHold

abbrev hold_reply : Option (ℕ × SeatInventory) → MyHold
hold_reply none = no_hold
hold_reply (some (k, row)) = my_hold k row

unfoldable pub get_my_hold : ℕ → ℕ → SeatState → MyHold
get_my_hold event_id user_id s =
    if user_id == 0 then user_required else hold_reply (find_hold event_id user_id s.rows)

-- What `to_dict(include_internal=False)` shows of a row.
pub record PublicSeat : Type 0 where
  pub inventory_id : ℕ
  pub seat_id : ℕ
  pub status : SeatStatus
  pub held_until : Option ℕ

unfoldable pub to_public : ℕ → SeatInventory → PublicSeat
to_public k row = record {
  inventory_id = k;
  seat_id = row.seat_id;
  status = row.status;
  held_until = row.held_until;
}

-- `list_inventory_by_event`, in the order of the table
unfoldable pub list_inventory_by_event : ℕ → Table SeatInventory → List PublicSeat
list_inventory_by_event event_id [] = []
list_inventory_by_event event_id ((k, row) ∷ rest) =
    let later = list_inventory_by_event event_id rest in
    if row.event_id == event_id then to_public k row ∷ later else later
