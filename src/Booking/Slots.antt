-- ===== src/Booking/Slots.antt =====
-- The availability report of repo/internal/service/resource.go, and the rows of a day from
-- repo/internal/repository/booking.go.
use task.Base.{
  ℕ, zero, suc, ◌+◌, ◌-◌, ◌*◌, Bool, true, false, not, ◌&&◌, ◌||◌, List, [], ◌∷◌, select, sort_by,
  ltb, leb, ◌==◌, if◌then◌else◌,
}
use task.Domain.Errors.{Result, ok, ◌>>=◌, ◌>>◌, query}
use task.Domain.Status.{waitlisted, canceled, status_eq, is_active}
use task.Domain.Models.{Resource, Booking, day, hour, minute}
use task.Booking.Table.{Db, get_resource, overlaps, day_start, sum_active_party_sizes_in_window}

pub record SlotCapacity : Type 0 where
  pub start_time : ℕ
  pub end_time : ℕ
  pub capacity : ℕ
  pub active_party_size : ℕ
  pub remaining_seats : ℕ
  pub available : Bool

-- The inner loop of `ComputeSlotCapacities`.
unfoldable pub active_in_slot : ℕ → ℕ → List Booking → ℕ
unfolding is_active status_eq
active_in_slot cur end [] = 0
active_in_slot cur end (b ∷ booked) =
    let rest = active_in_slot cur end booked in
    if not (is_active b.status)
    then rest
    else if status_eq b.status waitlisted
    then rest
    else if not (ltb b.start_time end) || not (ltb cur b.end_time)
    then rest
    else b.party_size + rest

-- One turn of the outer loop. `capacity - active` on numbers is clamped at 0, as the source does.
unfoldable pub slot_at : (cur end capacity : ℕ) → List Booking → SlotCapacity
slot_at cur end capacity booked =
    let active = active_in_slot cur end booked in
    let remaining = capacity - active in
    record {
      start_time = cur;
      end_time = end;
      capacity = capacity;
      active_party_size = active;
      remaining_seats = remaining;
      available = ltb 0 remaining;
    }

-- The end of the slot that begins at `cur`.
abbrev pub slot_end : (cur close slot : ℕ) → ℕ
slot_end cur close slot = if ltb close (cur + slot) then close else cur + slot

-- The outer loop, on fuel.
unfoldable pub slots_from : (fuel cur close slot capacity : ℕ) → List Booking → List SlotCapacity
slots_from zero cur close slot capacity booked = []
slots_from (suc fuel) cur close slot capacity booked = elim (ltb cur close) [
  | false ↦ []
  | true ↦
      slot_at cur (slot_end cur close slot) capacity booked
      ∷ slots_from fuel (cur + slot) close slot capacity booked
]

-- `ComputeSlotCapacities`; each turn moves `cur` on, so the length of the window is enough fuel.
unfoldable pub compute_slot_capacities :
    (open_ close slot capacity : ℕ) → List Booking → List SlotCapacity
compute_slot_capacities open_ close slot capacity booked =
    if not (ltb open_ close) || slot == 0
    then []
    else slots_from (close - open_) open_ close slot capacity booked

-- `ListByResourceOnDate`
unfoldable pub list_by_resource_on_date : ℕ → ℕ → List Booking → List Booking
unfolding status_eq
list_by_resource_on_date resource t rows =
    sort_by (λ b c. leb b.start_time c.start_time)
      (select
        (λ b.
          b.resource_id == resource
          && not (status_eq b.status canceled)
          && overlaps (day_start t) (day_start t + day) b)
        rows)

pub record AvailabilityResult : Type 0 where
  pub resource : Resource
  pub booked : List Booking
  pub slots : List SlotCapacity
  pub total_capacity : ℕ
  pub peak_active_party : ℕ
  pub min_remaining : ℕ

-- The loop over the slots that takes the peak and the least remainder.
unfoldable pub peak_from : (peak min_remaining : ℕ) → List SlotCapacity → ℕ × ℕ
peak_from peak least [] = (peak, least)
peak_from peak least (sl ∷ slots) =
    peak_from (if ltb peak sl.active_party_size then sl.active_party_size else peak)
      (if ltb sl.remaining_seats least then sl.remaining_seats else least) slots

abbrev pub open_hour_utc : ℕ
open_hour_utc = 8

abbrev pub close_hour_utc : ℕ
close_hour_utc = 22

abbrev pub slot_minutes : ℕ
slot_minutes = 60

-- `ResourceService.Availability` after its two queries. With no slots the least remainder is the
-- capacity, which is where the loop begins.
unfoldable pub report_of : Resource → ℕ → List Booking → AvailabilityResult
report_of res t booked =
    let slots =
      compute_slot_capacities (day_start t + open_hour_utc * hour)
        (day_start t + close_hour_utc * hour) (slot_minutes * minute) res.capacity booked in
    let peak = peak_from 0 res.capacity slots in
    record {
      resource = res;
      booked = booked;
      slots = slots;
      total_capacity = res.capacity;
      peak_active_party = peak.0;
      min_remaining = peak.1;
    }

-- `ResourceService.Availability`; the two flags say whether its two queries fail in the driver.
unfoldable pub availability :
    (down down' : Bool) (resource_id t : ℕ) → Db → Result AvailabilityResult
availability down down' resource_id t db = do
  res ← query down tt >> get_resource resource_id db
  booked ← query down' (list_by_resource_on_date resource_id t db.bookings)
  ok (report_of res t booked)

-- `ResourceService.RemainingSeats`: capacity, active seats and what remains, clamped at 0.
unfoldable pub remaining_seats_in :
    (down down' : Bool) (resource_id start end : ℕ) → Db → Result (ℕ × ℕ × ℕ)
remaining_seats_in down down' resource_id start end db = do
  res ← query down tt >> get_resource resource_id db
  active ← query down' (sum_active_party_sizes_in_window resource_id start end db.bookings)
  ok (res.capacity, active, res.capacity - active)
