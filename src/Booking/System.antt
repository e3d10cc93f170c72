-- ===== src/Booking/System.antt =====
-- The booking service of repo/internal/service/booking.go over a sequence of calls, one at a time.
use task.Base.{ℕ, List, inl, inr, run, run-keeps}
use task.Domain.Errors.{Result, ok, err, Result-cases}
use task.Domain.Status.{BookingStatus}
use task.Domain.Models.{Booking}
use task.Booking.Table.{Db}
use task.Booking.Service.{BookingService, Faults, CreateInput, create_booking, transition}
use task.Booking.Capacity.{IsSeated, create-IsSeated}
use task.Booking.Promotion.{transition-IsSeated}
use task.Booking.Limits.{IsLimited, create-IsLimited, transition-IsLimited}
use task.Booking.Overlaps.{IsApart, create-IsApart, transition-IsApart}

-- A call of the service, with the clock, the new UUID and the faults that it meets.
pub data Request : Type 0 where
  create : Faults → (now stamp new_id : ℕ) → CreateInput → Request
  move : Faults → (now stamp actor id : ℕ) → BookingStatus → Request

-- The rows after a call: a call that fails writes nothing.
abbrev pub committed : Db → Result (Booking × Db) → Db
committed db (ok (b, db')) = db'
committed db (err e) = db

unfoldable pub serve : BookingService → Db → Request → Db
serve s db (create down now stamp new_id input) =
    committed db (create_booking s down now stamp new_id input db)
serve s db (move down now stamp actor id target) =
    committed db (transition s down now stamp actor id target db)

-- What holds of the bookings between two calls.
pub record IsSound (s : BookingService) (db : Db) : Type 0 where
  pub seats : IsSeated db
  pub limit : IsLimited s.policy.max_active_per_day db.bookings
  pub apart : IsApart db.bookings

serve-IsSound :
    (s : BookingService) (db : Db) (r : Request) → IsSound s db → IsSound s (serve s db r)
unfolding serve
serve-IsSound s db (create down now stamp new_id input) v =
    elim (Result-cases (create_booking s down now stamp new_id input db)) [
      | inr (e, failed) ↦ rw failed v
      | inl ((b, db'), done) ↦ rw done (record {
        seats = create-IsSeated s down now stamp new_id input db v.seats done;
        limit = create-IsLimited s down now stamp new_id input db v.limit done;
        apart = create-IsApart s down now stamp new_id input db v.apart done;
      })
    ]
serve-IsSound s db (move down now stamp actor id target) v =
    elim (Result-cases (transition s down now stamp actor id target db)) [
      | inr (e, failed) ↦ rw failed v
      | inl ((b, db'), done) ↦ rw done (record {
        seats = transition-IsSeated s down now stamp actor id target db v.seats done;
        limit =
            transition-IsLimited s down now stamp actor id target db s.policy.max_active_per_day
              v.seats.distinct v.limit done;
        apart = transition-IsApart s down now stamp actor id target db v.apart done;
      })
    ]

-- Whatever calls come, one after the other, succeed or fail: at no moment are more seats of a
-- resource taken than it has, no user is over the daily limit, and no user is booked twice for one
-- moment, if that held at the start.
pub serve_all-IsSound :
    (s : BookingService) (db : Db) (rs : List Request)
    → IsSound s db
    → IsSound s (run (serve s) db rs)
serve_all-IsSound s db rs v = run-keeps (IsSound s) (serve s) (serve-IsSound s) db rs v
