-- ===== src/Api/Booked.antt =====
-- What the booking handlers of repo/internal/api/handlers/booking.go answer when nothing around them fails.
use task.Base.{◌≡◌, true}
use task.Domain.Errors.{ok}
use task.Domain.Models.{Booking}
use task.Booking.Table.{Db}
use task.Booking.Service.{BookingService, CreateInput, create_booking}
use task.Api.Requests.{Response, answer, refuse}
use task.Api.Spared.{Spared}
use task.Api.Bookings.{Meets}
use task.Api.Blamed.{is_client_error}

-- The answer is a booking with 201 and the rows of a success, or a status of 400, 403, 404 or 409 and
-- the rows as they were.
abbrev pub Booked : BookingService → Meets → Db → Response Booking × Db → Type 0
Booked s w db (answer status b, db') =
    (status ≡ 201)
    × ((input : CreateInput) × (create_booking s w.down w.now w.stamp w.new_id input db
          ≡ ok (b, db')))
Booked s w db (refuse status, db') = (is_client_error status ≡ true) × (db' ≡ db)
