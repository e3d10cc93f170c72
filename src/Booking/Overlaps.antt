-- ===== src/Booking/Overlaps.antt =====
-- No double booking under repo/internal/service/booking.go: the bookings of one user that are not
-- canceled do not overlap.
use task.Base.{
  ℕ, ◌≡◌, ◌≢◌, refl, true, false, not, ◌&&◌, Bool, none, some, List, arith, fetch, ◌==◌, ==_iff,
  any-fetch, fetch-insert, fetch-change, fetch-change_ne,
}
use task.Domain.Errors.{ok}
use task.Domain.Status.{BookingStatus, canceled, can_transition, status_eq}
use task.Domain.Models.{Booking}
use task.Booking.Table.{Db, overlaps, user_has_overlap, stamped}
use task.Booking.Service.{BookingService, Faults, CreateInput, create_booking, transition}
use task.Booking.Admission.{admit-Admitted}
use task.Booking.Insertion.{create-Inserted, transition-Moved}
use task.Booking.Seats.{booking_key, with_status}

-- Two bookings of one user that are not canceled and have a moment in common.
abbrev pub clash : Booking → Booking → Bool
clash b c =
    c.user_id == b.user_id
    && not (status_eq b.status canceled)
    && not (status_eq c.status canceled)
    && overlaps b.start_time b.end_time c

-- No two rows clash.
abbrev pub IsApart : List Booking → Type 0
IsApart rows =
    (i j : ℕ) (b c : Booking)
    → fetch booking_key i rows ≡ some b
    → fetch booking_key j rows ≡ some c
    → i ≢ j
    → clash b c ≡ false

clash_comm : (b c : Booking) → clash b c ≡ clash c b
clash_comm b c = ground arith

free_of_clash :
    (b c : Booking) (j : ℕ) (rows : List Booking)
    → user_has_overlap b.user_id b.start_time b.end_time none rows ≡ false
    → fetch booking_key j rows ≡ some c
    → clash b c ≡ false
unfolding user_has_overlap
free_of_clash b c j rows free e = ground (arith, any-fetch booking_key _ j rows {a = c} free e)

clash-stamped : (id now : ℕ) (b c : Booking) → clash (stamped id now b) c ≡ clash b c
unfolding stamped
clash-stamped id now b c = refl

-- A successful `Create` books no user twice for one moment.
pub create-IsApart :
    (s : BookingService) (down : Faults) (now stamp new_id : ℕ) (input : CreateInput) (db : Db)
    {row : Booking} {db' : Db}
    → IsApart db.bookings
    → create_booking s down now stamp new_id input db ≡ ok (row, db')
    → IsApart db'.bookings
create-IsApart s down now stamp new_id input db {row} v h =
    let ins = create-Inserted s down now stamp new_id input db h in
    let b = ins.b in
    let adm = admit-Admitted s down now input db ins.admitted in
    rw ins.after (λ i j c d ei ej ne. ground (
      arith,
      ins.row_stamped,
      v i j c d,
      fetch-insert booking_key i db.bookings row ins.fresh,
      fetch-insert booking_key j db.bookings row ins.fresh,
      ==_iff row.id i,
      ==_iff row.id j,
      free_of_clash b c i db.bookings adm.free,
      free_of_clash b d j db.bookings adm.free,
      clash-stamped new_id stamp b c,
      clash-stamped new_id stamp b d,
      clash_comm row c,
    ))

kept_uncanceled :
    (from to : BookingStatus) → can_transition from to ≡ true → status_eq from canceled ≡ false
unfolding can_transition status_eq
kept_uncanceled canceled to h = ground arith
kept_uncanceled _ to h = refl

-- A successful `Transition` makes no two bookings of one user clash.
pub transition-IsApart :
    (s : BookingService) (down : Faults) (now stamp actor id : ℕ) (target : BookingStatus) (db : Db)
    {row : Booking} {db' : Db}
    → IsApart db.bookings
    → transition s down now stamp actor id target db ≡ ok (row, db')
    → IsApart db'.bookings
transition-IsApart s down now stamp actor id target db v h =
    let m = transition-Moved s down now stamp actor id target db h in
    let b = m.b in
    let f = with_status target stamp in
    rw m.after (λ i j c d ei ej ne. ground (
      arith,
      v i j c d,
      v id j b d,
      v i id c b,
      m.old,
      kept_uncanceled b.status target m.permitted,
      fetch-change booking_key id f (λ a. refl) db.bookings {a = b} m.old,
      fetch-change_ne booking_key id i f (λ a. refl) db.bookings,
      fetch-change_ne booking_key id j f (λ a. refl) db.bookings,
      ==_iff i id,
      ==_iff j id,
    ))
