-- ===== src/Booking/Examples.antt =====
-- Concrete runs of repo/internal/service/booking.go and repo/internal/service/resource.go.
use task.Base.{
  ◌<◌, ltb, ◌&&◌, if◌then◌else◌, ◌+◌, ℕ, ◌+◌, ◌-◌, ◌*◌, ◌≡◌, refl, false, List, [], ◌∷◌, none, some,
  str_eq, if◌then◌else◌, arith, run, change,
}
use task.Base.Int.{pos}
use task.Domain.Errors.{ok, err, cutoff}
use task.Domain.Status.{status_eq, pending_confirmation, checked_in, canceled, is_active}
use task.Domain.Models.{User, Resource, Booking, minute, hour, validate_booking}
use task.Booking.Table.{
  Db, insert_booking, count_active_by_user_on_date, user_has_overlap,
  sum_active_party_sizes_in_window,
}
use task.Booking.Service.{
  BookingService, default_booking_policy, NotesEncrypter, Faults, Call, CreateInput, admit_booking,
  initial_status, encrypt_notes, transition,
}
use task.Booking.Seats.{booking_key, with_status, seats_at}
use task.Booking.System.{Request, create, move, serve, IsSound, serve_all-IsSound}
use task.Booking.Admission.{Acceptable}
use task.Booking.Race.{admitted_together_oversell}
use task.Booking.Slots.{list_by_resource_on_date, availability, report_of}
use task.Booking.Availability.{Reports, availability-Reports}
use task.Booking.Outcomes.{cancel_outcome, check_in_outcome}

abbrev person : ℕ → User
person n = record {
  id = n;
  username = "ann";
  password_hash = "";
  is_blacklisted = false;
  blacklist_reason = "";
  is_admin = false;
  must_rotate_password = false;
  anonymized_at = none;
  failed_attempts = 0;
  locked_until = none;
  last_login_at = none;
  created_at = 0;
  updated_at = 0;
}

abbrev slip : Resource
slip = record { id = 9; name = "slip"; description = ""; capacity = 4; created_at = 0 }

abbrev rows : Db
rows = record {
  users = person 1 ∷ person 2 ∷ [];
  resources = slip ∷ [];
  groups = [];
  bookings = [];
}

-- An encrypter that knows one text.
abbrev one_text : NotesEncrypter
one_text = record {
  encrypt = λ text. if str_eq text "gate 7" then some (1 ∷ []) else none;
  decrypt = λ blob. some "gate 7";
}

abbrev service : BookingService
service = record { encrypter = some one_text; policy = default_booking_policy }

abbrev up : Faults
up c = false

all_up : (c : Call) → up c ≡ false
all_up c = refl

-- A request of user `n` for three of the four seats, from 10:00 to 12:00 on the first day.
abbrev wish : ℕ → CreateInput
wish n = record {
  user_id = n;
  resource_id = 9;
  group_id = none;
  party_size = pos 3;
  start_time = 10 * hour;
  end_time = 12 * hour;
  notes = "";
  secure_notes = "gate 7";
}

abbrev admitted : ℕ → Booking
admitted n = record {
  id = 0;
  user_id = n;
  resource_id = 9;
  group_id = none;
  party_size = 3;
  start_time = 10 * hour;
  end_time = 12 * hour;
  status = pending_confirmation;
  notes = "";
  secure_notes = 1 ∷ [];
  secure_notes_plain = "";
  created_at = 0;
  updated_at = 0;
}

abbrev booked : (id n : ℕ) → Booking
booked id n = record (admitted n) { id = id }

rows-IsSound : IsSound service rows
unfolding seats_at count_active_by_user_on_date
rows-IsSound = record {
  seats = record {
    distinct = tt;
    sized = λ id b r e k. absurd (cc e);
    seated = λ id r t e. omega arith;
  };
  limit = λ user t. omega arith;
  apart = λ i j b c e f ne. absurd (cc e);
}

abbrev requests : List Request
requests =
    create up 0 0 5 (wish 1)
    ∷ create up 0 0 6 (wish 2)
    ∷ move up 0 0 1 5 canceled
    ∷ move up 0 0 2 6 pending_confirmation
    ∷ []

serve_all-IsSound_example : IsSound service (run (serve service) rows requests)
serve_all-IsSound_example = serve_all-IsSound service rows requests rows-IsSound

wish-Acceptable : (n : ℕ) → Acceptable (wish n) rows
wish-Acceptable n = record { group = refl; window = refl; text = refl }

admitted_together_oversell_example :
    (row row' : Booking) × (db' db'' : Db) × (insert_booking 5 0 (admitted 1) rows ≡ ok (row, db'))
    × (insert_booking 6 0 (admitted 2) db' ≡ ok (row', db''))
    × (slip.capacity < seats_at 9 (11 * hour) db''.bookings)
unfolding admit_booking count_active_by_user_on_date user_has_overlap
    sum_active_party_sizes_in_window encrypt_notes initial_status validate_booking
admitted_together_oversell_example =
    admitted_together_oversell service up 0 0 5 6 (wish 1) (wish 2) rows {b = admitted 1}
      {b' = admitted 2} {r = slip} (11 * hour) refl refl refl refl refl
      (omega arith, omega arith, omega arith, omega arith) refl (omega arith) (wish-Acceptable 1)
      (wish-Acceptable 2) refl refl refl

abbrev rows_booked : Db
rows_booked = record rows { bookings = booked 5 1 ∷ [] }

availability-Reports_example :
    Reports 9 0 rows_booked (report_of slip 0 (list_by_resource_on_date 9 0 (booked 5 1 ∷ [])))
unfolding availability
availability-Reports_example =
    availability-Reports false false 9 0 rows_booked
      {a = report_of slip 0 (list_by_resource_on_date 9 0 (booked 5 1 ∷ []))} refl

cancel_outcome_example : transition service up (10 * hour - minute) 0 1 5 canceled rows_booked ≡ (
    if ltb (10 * hour - minute) (10 * hour) && ltb (10 * hour) (10 * hour - minute + 10 * minute)
    then err cutoff
    else ok (
      with_status canceled (10 * hour - minute) (booked 5 1),
      record rows_booked {
        bookings = change booking_key 5 (with_status canceled 0) (booked 5 1 ∷ []);
      },
    ))
unfolding is_active
cancel_outcome_example =
    cancel_outcome service up (10 * hour - minute) 0 5 rows_booked {b = booked 5 1} refl all_up refl

check_in_outcome_example :
    transition service up (10 * hour - minute) 0 1 5 checked_in rows_booked
    ≡ ok (
      with_status checked_in (10 * hour - minute) (booked 5 1),
      record rows_booked {
        bookings = change booking_key 5 (with_status checked_in 0) (booked 5 1 ∷ []);
      },
    )
unfolding status_eq
check_in_outcome_example =
    check_in_outcome service up (10 * hour - minute) 0 5 rows_booked {b = booked 5 1} refl all_up 1
