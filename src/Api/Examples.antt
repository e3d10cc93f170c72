-- ===== src/Api/Examples.antt =====
-- Concrete runs of repo/internal/api/handlers.
use task.Base.{◌*◌, false, some, none, [], ◌∷◌, str_eq, if◌then◌else◌}
use task.Base.Int.{pos}
use task.Domain.Models.{User, hour}
use task.Booking.Table.{Db}
use task.Booking.Service.{NotesEncrypter, BookingService, CreateInput, default_booking_policy}
use task.Api.Requests.{Parsers}
use task.Api.Bookings.{BookingRequest, Meets}
use task.Api.Booked.{Booked}

-- Parsers that know a few texts.
abbrev few : Parsers
few = record {
  uuid = λ s. if str_eq s "slip-9" then some 9 else none;
  rfc3339 = λ s. none;
  datetime_local = λ s. if str_eq s "1970-01-01T10:00" then some (10 * hour) else some (12 * hour);
  date_only = λ s. none;
  atoi = λ s. none;
}

abbrev person : User
person = record {
  id = 1;
  username = "ann";
  password_hash = "";
  is_blacklisted = false;
  blacklist_reason = "";
  is_admin = false;
  must_rotate_password = false;
  anonymized_at = none;
  failed_attempts = 0;
  locked_until = none;
  last_login_at = none;
  created_at = 0;
  updated_at = 0;
}

abbrev rows : Db
rows = record {
  users = person ∷ [];
  resources = record { id = 9; name = "slip"; description = ""; capacity = 4; created_at = 0 } ∷ [];
  groups = 6 ∷ [];
  bookings = [];
}

abbrev cipher : NotesEncrypter
cipher = record { encrypt = λ text. some (1 ∷ []); decrypt = λ blob. some "gate 7" }

abbrev service : BookingService
service = record { encrypter = some cipher; policy = default_booking_policy }

abbrev meets : Meets
meets = record { down = λ c. false; now = 0; stamp = 0; new_id = 5 }

abbrev request : BookingRequest
request = record {
  resource_id = "slip-9";
  group_id = "";
  party_size = pos 3;
  start_time = "1970-01-01T10:00";
  end_time = "1970-01-01T12:00";
  notes = "";
  secure_notes = "gate 7";
}

abbrev wish : CreateInput
wish = record {
  user_id = 1;
  resource_id = 9;
  group_id = none;
  party_size = pos 3;
  start_time = 10 * hour;
  end_time = 12 * hour;
  notes = "";
  secure_notes = "gate 7";
}
