-- ===== src/Booking/Promotion.antt =====
-- Seats under `Transition` of repo/internal/service/booking.go: a booking gains seats only when it
-- is promoted from the waitlist, and then no other booking holds any in its window.
use task.Base.{
  ℕ, ◌+◌, ◌≤◌, ◌≡◌, refl, ◌⊎◌, inl, inr, true, false, Bool-cases, ◌&&◌, some, arith, fetch, change,
  change-Distinct, fetch-change, fetch-change_ne, fetch-key, ◌==◌, ==_iff,
}
use task.Domain.Errors.{ok}
use task.Domain.Status.{BookingStatus, pending_confirmation, waitlisted, checked_in, can_transition}
use task.Domain.Models.{Resource, Booking}
use task.Booking.Table.{Db, get_resource, holds_seats, resource_has_overlap}
use task.Booking.Service.{BookingService, Faults, transition, promotes}
use task.Booking.Insertion.{transition-Moved}
use task.Booking.Seats.{
  booking_key, seats_of, seats_at, seats_at-update, seats_at-free, with_status,
}
use task.Booking.Capacity.{IsSeated}

-- A permitted transition ends without seats, began with them, or is a promotion.
seats_gained :
    (from to : BookingStatus)
    → can_transition from to ≡ true
    → (holds_seats to ≡ false) ⊎ (holds_seats from ≡ true) ⊎ (promotes from to ≡ true)
unfolding can_transition holds_seats
seats_gained pending_confirmation to h = inr (inl refl)
seats_gained checked_in to h = inr (inl refl)
seats_gained waitlisted pending_confirmation h = inr (inr refl)
seats_gained waitlisted to h = ground arith
seats_gained _ to h = ground arith

promoted_from_none : (from to : BookingStatus) → promotes from to ≡ true → holds_seats from ≡ false
unfolding holds_seats
promoted_from_none waitlisted to h = refl
promoted_from_none _ to h = ground arith

module _ {db : Db} (v : IsSeated db) (id : ℕ) {b : Booking}
    (old : fetch booking_key id db.bookings ≡ some b) (target : BookingStatus) (stamp : ℕ) where
  -- What the new form of the row takes, given what the old one took.
  moved_fits :
      can_transition b.status target ≡ true
      → (promotes b.status target
          && resource_has_overlap b.resource_id b.start_time b.end_time (some b.id) db.bookings)
        ≡ false
      → (place : ℕ) (r : Resource) (t : ℕ) → get_resource place db ≡ ok r
      → seats_at place t db.bookings + seats_of place t (with_status target stamp b)
        ≤ r.capacity + seats_of place t b
  moved_fits permitted vacant place r t e = elim (seats_gained b.status target permitted) [
    | inl released ↦ ground (arith, v.seated place r t e)
    | inr (inl held) ↦ ground (arith, v.seated place r t e)
    | inr (inr promoted) ↦ ground (
      arith,
      v.seated place r t e,
      promoted_from_none b.status target promoted,
      fetch-key booking_key id db.bookings {a = b} old,
      seats_at-free b.resource_id b.start_time b.end_time t id db.bookings {b = b} v.distinct old,
      v.sized id b r old,
      ==_iff b.resource_id place,
    )
  ]

  moved_sized :
      (j : ℕ) (c : Booking) (r : Resource)
      → fetch booking_key j (change booking_key id (with_status target stamp) db.bookings) ≡ some c
      → get_resource c.resource_id db ≡ ok r
      → c.party_size ≤ r.capacity
  moved_sized j c r e place = elim (Bool-cases (j == id)) [
    | inl same ↦ ground (
      arith,
      (==_iff j id).0 same,
      fetch-change booking_key id (with_status target stamp) (λ a. refl) db.bookings {a = b} old,
      v.sized id b r old,
    )
    | inr differ ↦ ground (
      arith,
      fetch-change_ne booking_key id j (with_status target stamp) (λ a. refl) db.bookings,
      v.sized j c r,
    )
  ]

-- A successful `Transition` keeps the seats within the capacity: a booking promoted from the
-- waitlist finds them free.
pub transition-IsSeated :
    (s : BookingService) (down : Faults) (now stamp actor id : ℕ) (target : BookingStatus) (db : Db)
    {row : Booking} {db' : Db}
    → IsSeated db
    → transition s down now stamp actor id target db ≡ ok (row, db')
    → IsSeated db'
transition-IsSeated s down now stamp actor id target db v h =
    let m = transition-Moved s down now stamp actor id target db h in
    rw m.after (record {
      distinct =
          change-Distinct booking_key id (with_status target stamp) (λ a. refl) db.bookings
            v.distinct;
      sized = moved_sized v id m.old target stamp;
      seated = λ place r t e. omega (
        arith,
        moved_fits v id m.old target stamp m.permitted m.vacant place r t e,
        seats_at-update place t id stamp target db.bookings v.distinct m.old,
      );
    })
