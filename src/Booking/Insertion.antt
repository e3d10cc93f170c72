-- ===== src/Booking/Insertion.antt =====
-- What a call of `Create` or `Transition` that returned has done to the table.
use task.Base.{
  ℕ, ◌≡◌, true, false, ◌&&◌, some, [], ◌∷◌, ◌++◌, arith, inl, inr, Option-cases, has, fetch, change,
  ◌==◌,
}
use task.Domain.Errors.{ok, Result-cases}
use task.Domain.Status.{BookingStatus, can_transition}
use task.Domain.Models.{Booking}
use task.Booking.Table.{Db, stamped, insert_booking, update_status, resource_has_overlap}
use task.Booking.Service.{
  BookingService, Faults, CreateInput, admit_booking, create_booking, transition, promotes,
  cutoff_active, locked_by_cutoff,
}
use task.Booking.Seats.{booking_key, with_status}

-- `Create` has appended one new row, under a new key.
pub record Inserted (s : BookingService) (down : Faults) (now stamp new_id : ℕ)
    (input : CreateInput) (db : Db) (row : Booking) (db' : Db) : Type 0 where
  pub b : Booking
  pub admitted : admit_booking s down now input db ≡ ok b
  pub row_stamped : row ≡ stamped new_id stamp b
  pub fresh : has booking_key row.id db.bookings ≡ false
  pub after : db' ≡ record db { bookings = db.bookings ++ row ∷ [] }

pub create-Inserted :
    (s : BookingService) (down : Faults) (now stamp new_id : ℕ) (input : CreateInput) (db : Db)
    {row : Booking} {db' : Db}
    → create_booking s down now stamp new_id input db ≡ ok (row, db')
    → Inserted s down now stamp new_id input db row db'
unfolding create_booking insert_booking
create-Inserted s down now stamp new_id input db h =
    elim (Result-cases (admit_booking s down now input db)) [
      | inr (e, eq) ↦ absurd (ground arith)
      | inl (b, eq) ↦ record {
        b = b;
        admitted = eq;
        row_stamped = ground arith;
        fresh = ground arith;
        after = ground arith;
      }
    ]

-- `Transition` has changed the status of one row, which its owner asked for.
pub record Moved (s : BookingService) (now stamp actor id : ℕ) (target : BookingStatus) (db : Db)
    (row : Booking) (db' : Db) : Type 0 where
  pub b : Booking
  pub old : fetch booking_key id db.bookings ≡ some b
  pub owner : (b.user_id == actor) ≡ true
  pub permitted : can_transition b.status target ≡ true
  pub in_time : (cutoff_active s.policy now b.start_time && locked_by_cutoff target) ≡ false
  pub vacant :
      (promotes b.status target
        && resource_has_overlap b.resource_id b.start_time b.end_time (some b.id) db.bookings)
      ≡ false
  pub row_changed : row ≡ with_status target now b
  pub after :
      db' ≡ record db { bookings = change booking_key id (with_status target stamp) db.bookings }

pub transition-Moved :
    (s : BookingService) (down : Faults) (now stamp actor id : ℕ) (target : BookingStatus) (db : Db)
    {row : Booking} {db' : Db}
    → transition s down now stamp actor id target db ≡ ok (row, db')
    → Moved s now stamp actor id target db row db'
unfolding transition update_status
transition-Moved s down now stamp actor id target db h =
    elim (Option-cases (fetch booking_key id db.bookings)) [
      | inl eq ↦ absurd (ground arith)
      | inr (b, eq) ↦ record {
        b = b;
        old = eq;
        owner = ground arith;
        permitted = ground arith;
        in_time = ground arith;
        vacant = ground arith;
        row_changed = ground arith;
        after = ground arith;
      }
    ]
