-- ===== src/Booking/Limits.antt =====
-- The daily limit of repo/internal/service/booking.go: a user's active bookings of one UTC day.
use task.Base.{
  ℕ, ◌+◌, ◌≤◌, ◌<◌, ◌≡◌, refl, true, ◌&&◌, Bool, List, [], ◌∷◌, ◌++◌, arith, Distinct, ltb, leb,
  ◌==◌, ==_iff, mark, length-select, sum_of, sum_of-append, sum_of-change, change,
}
use task.Domain.Errors.{ok}
use task.Domain.Status.{
  BookingStatus, pending_confirmation, waitlisted, checked_in, can_transition, is_active,
}
use task.Domain.Models.{Booking, day}
use task.Booking.Table.{Db, day_start, count_active_by_user_on_date, stamped}
use task.Booking.Service.{BookingService, Faults, CreateInput, create_booking, transition}
use task.Booking.Admission.{admit-Admitted}
use task.Booking.Insertion.{create-Inserted, transition-Moved}
use task.Booking.Seats.{booking_key, with_status}

-- No user has more than `max` active bookings that start on one day.
abbrev pub IsLimited : ℕ → List Booking → Type 0
IsLimited max rows = (user t : ℕ) → count_active_by_user_on_date user t rows ≤ max

abbrev counted : ℕ → ℕ → Booking → Bool
counted user t b =
    b.user_id == user
    && is_active b.status
    && leb (day_start t) b.start_time
    && ltb b.start_time (day_start t + day)

count-eq-sum :
    (user t : ℕ) (rows : List Booking)
    → count_active_by_user_on_date user t rows ≡ sum_of (mark (counted user t)) rows
unfolding count_active_by_user_on_date
count-eq-sum user t rows = length-select (counted user t) rows

-- Two moments of one day have one midnight.
same_day : (t u : ℕ) → day_start t ≤ u → u < day_start t + day → day_start t ≡ day_start u
same_day t u p q = omega arith

same_count :
    (user t u : ℕ) (rows : List Booking)
    → day_start t ≡ day_start u
    → count_active_by_user_on_date user t rows ≡ count_active_by_user_on_date user u rows
unfolding count_active_by_user_on_date
same_count user t u rows e = rw e

count-insert :
    (user t : ℕ) (rows : List Booking) (b : Booking)
    → count_active_by_user_on_date user t (rows ++ b ∷ [])
      ≡ count_active_by_user_on_date user t rows + mark (counted user t) b
count-insert user t rows b =
    rw (count-eq-sum user t (rows ++ b ∷ []), count-eq-sum user t rows)
      (omega (arith, sum_of-append (mark (counted user t)) rows (b ∷ [])))

-- A successful `Create` keeps every user within the limit of the policy.
pub create-IsLimited :
    (s : BookingService) (down : Faults) (now stamp new_id : ℕ) (input : CreateInput) (db : Db)
    {row : Booking} {db' : Db}
    → IsLimited s.policy.max_active_per_day db.bookings
    → create_booking s down now stamp new_id input db ≡ ok (row, db')
    → IsLimited s.policy.max_active_per_day db'.bookings
unfolding stamped
create-IsLimited s down now stamp new_id input db {row} v h user t =
    let ins = create-Inserted s down now stamp new_id input db h in
    let b = ins.b in
    let adm = admit-Admitted s down now input db ins.admitted in
    rw ins.after (
      ground (
        arith,
        ins.row_stamped,
        adm.under_limit,
        v user t,
        count-insert user t db.bookings row,
        same_day t b.start_time,
        same_count user t b.start_time db.bookings,
        ==_iff b.user_id user,
      ))

kept_active :
    (from to : BookingStatus)
    → can_transition from to ≡ true
    → is_active to ≡ true
    → is_active from ≡ true
unfolding can_transition is_active
kept_active pending_confirmation to h a = refl
kept_active waitlisted to h a = refl
kept_active checked_in to h a = refl
kept_active _ to h a = ground arith

-- A successful `Transition` keeps every user within any limit.
pub transition-IsLimited :
    (s : BookingService) (down : Faults) (now stamp actor id : ℕ) (target : BookingStatus) (db : Db)
    {row : Booking} {db' : Db} (max : ℕ)
    → Distinct booking_key db.bookings
    → IsLimited max db.bookings
    → transition s down now stamp actor id target db ≡ ok (row, db')
    → IsLimited max db'.bookings
transition-IsLimited s down now stamp actor id target db max d v h user t =
    let m = transition-Moved s down now stamp actor id target db h in
    let b = m.b in
    let after = change booking_key id (with_status target stamp) db.bookings in
    rw m.after (
      ground (
        arith,
        v user t,
        count-eq-sum user t db.bookings,
        count-eq-sum user t after,
        kept_active b.status target m.permitted,
        sum_of-change booking_key (mark (counted user t)) id (with_status target stamp) db.bookings
            {a = b} d m.old,
      ))
