-- ===== src/Booking/Availability.antt =====
-- The report of `Availability` of repo/internal/service/resource.go as a whole.
use task.Base.{ℕ, ◌+◌, ◌-◌, ◌*◌, ◌≤◌, ◌≡◌, Bool, All, arith, inl, inr}
use task.Domain.Errors.{ok, Result-cases}
use task.Domain.Models.{Resource, hour, minute}
use task.Booking.Table.{Db, day_start, get_resource, sum_active_party_sizes_in_window}
use task.Booking.Slots.{
  SlotCapacity, slot_at, AvailabilityResult, report_of, availability, list_by_resource_on_date,
  open_hour_utc, close_hour_utc, slot_minutes,
}
use task.Booking.Report.{
  Tiles, compute_slot_capacities-Tiles, compute_slot_capacities-All, peak_from_least,
  active_in_slot-eq-sum_active,
}

-- A slot shows as active what `Create` would count for its window.
abbrev pub AsAdmitted : ℕ → Db → SlotCapacity → Type 0
AsAdmitted id db sl =
    sl.active_party_size ≡ sum_active_party_sizes_in_window id sl.start_time sl.end_time db.bookings

-- What the report of a day promises.
pub record Reports (id t : ℕ) (db : Db) (a : AvailabilityResult) : Type 0 where
  pub tiles :
      Tiles
        (day_start t + close_hour_utc * hour)
        a.total_capacity
        (day_start t + open_hour_utc * hour)
        a.slots
  pub as_admitted : All (AsAdmitted id db) a.slots
  pub least : a.min_remaining ≡ a.total_capacity - a.peak_active_party

slot-AsAdmitted :
    (id t capacity : ℕ) (db : Db) (c e : ℕ)
    → day_start t + open_hour_utc * hour ≤ c
    → e ≤ day_start t + close_hour_utc * hour
    → AsAdmitted id db (slot_at c e capacity (list_by_resource_on_date id t db.bookings))
unfolding slot_at
slot-AsAdmitted id t capacity db c e p q =
    active_in_slot-eq-sum_active id t c e db.bookings (omega arith) (omega arith)

report_of-Reports :
    (id t : ℕ) (db : Db) (res : Resource)
    → Reports id t db (report_of res t (list_by_resource_on_date id t db.bookings))
unfolding report_of
report_of-Reports id t db res =
    let booked = list_by_resource_on_date id t db.bookings in
    let from = day_start t + open_hour_utc * hour in
    let to = day_start t + close_hour_utc * hour in
    let tiles =
      compute_slot_capacities-Tiles from to (slot_minutes * minute) res.capacity booked
        (omega arith) (omega arith) in
    record {
      tiles = tiles;
      as_admitted =
          compute_slot_capacities-All (AsAdmitted id db) from to (slot_minutes * minute)
            res.capacity booked (slot-AsAdmitted id t res.capacity db);
      least = peak_from_least res.capacity to 0 res.capacity from _ (omega arith) tiles;
    }

-- A report that comes back has slots from 08:00 to 22:00 without a gap; each shows as active the
-- seats that `Create` would count for it, and what they leave of the capacity; and the least
-- remainder is what the peak leaves of the capacity.
pub availability-Reports :
    (down down' : Bool) (id t : ℕ) (db : Db) {a : AvailabilityResult}
    → availability down down' id t db ≡ ok a
    → Reports id t db a
unfolding availability
availability-Reports down down' id t db {a} h = elim (Result-cases (get_resource id db)) [
  | inr (e, eq) ↦ absurd (ground arith)
  | inl (res, eq) ↦
      let same : a ≡ report_of res t (list_by_resource_on_date id t db.bookings) = ground arith in
      rw same (report_of-Reports id t db res)
]
