-- ===== src/Booking/Table.antt =====
-- The SQL of repo/internal/repository/booking.go over tables as lists of rows, and the queries that
-- bookings make of resource.go and user.go. A list holds the rows in the order of insertion.
use task.Base.{
  ℕ, ◌+◌, ◌-◌, ◌/◌, ◌%◌, Bool, codes, String, true, not, ◌&&◌, ◌||◌, Option, none, some, List, [],
  ◌∷◌, ◌++◌, length, select, find_first, any, update_where, sum_of, ltb, leb, ◌==◌, if◌then◌else◌,
}
use task.Domain.Errors.{Result, ok, err, database, not_found, found}
use task.Domain.Status.{
  BookingStatus, pending_confirmation, checked_in, canceled, status_eq, is_active,
}
use task.Domain.Models.{User, Resource, Booking, nil_id, day}

-- The rows that the booking service reads and writes.
pub record Db : Type 0 where
  pub users : List User
  pub resources : List Resource
  pub groups : List ℕ
  pub bookings : List Booking

abbrev pub get_user : ℕ → Db → Result User
get_user id db = found (find_first (λ u. u.id == id) db.users)

abbrev pub get_resource : ℕ → Db → Result Resource
get_resource id db = found (find_first (λ r. r.id == id) db.resources)

abbrev pub get_booking : ℕ → Db → Result Booking
get_booking id db = found (find_first (λ b. b.id == id) db.bookings)

-- `start_time < $3 AND end_time > $2`
abbrev pub overlaps : ℕ → ℕ → Booking → Bool
overlaps start end b = ltb b.start_time end && ltb start b.end_time

-- `status IN ('pending_confirmation','checked_in')`
unfoldable pub holds_seats : BookingStatus → Bool
unfolding status_eq
holds_seats s = status_eq s pending_confirmation || status_eq s checked_in

-- `($4::uuid IS NULL OR id <> $4)`
abbrev pub not_excluded : Option ℕ → Booking → Bool
not_excluded none b = true
not_excluded (some id) b = not (b.id == id)

abbrev pub day_start : ℕ → ℕ
day_start t = t - t % day

-- `status IN ('pending_confirmation','waitlisted','checked_in')` is the test of `IsActive`.
unfoldable pub count_active_by_user_on_date : ℕ → ℕ → List Booking → ℕ
unfolding is_active
count_active_by_user_on_date user t rows = length (
    select
      (λ b.
        b.user_id == user
        && is_active b.status
        && leb (day_start t) b.start_time
        && ltb b.start_time (day_start t + day))
      rows)

unfoldable pub user_has_overlap : ℕ → ℕ → ℕ → Option ℕ → List Booking → Bool
unfolding status_eq
user_has_overlap user start end exclude rows =
    any
      (λ b.
        b.user_id == user
        && not (status_eq b.status canceled)
        && overlaps start end b
        && not_excluded exclude b)
      rows

unfoldable pub resource_has_overlap : ℕ → ℕ → ℕ → Option ℕ → List Booking → Bool
unfolding holds_seats
resource_has_overlap resource start end exclude rows =
    any
      (λ b.
        b.resource_id == resource
        && holds_seats b.status
        && overlaps start end b
        && not_excluded exclude b)
      rows

-- One row's share of `SUM(party_size)`, where the WHERE clause passes.
abbrev pub seats_in_window : ℕ → ℕ → ℕ → Booking → ℕ
seats_in_window resource start end b =
    if b.resource_id == resource && holds_seats b.status && overlaps start end b
    then b.party_size
    else 0

unfoldable pub sum_active_party_sizes_in_window : ℕ → ℕ → ℕ → List Booking → ℕ
unfolding holds_seats
sum_active_party_sizes_in_window resource start end rows =
    sum_of (seats_in_window resource start end) rows

-- A foreign key to `group_reservations`, which may be NULL.
abbrev pub known_group : Option ℕ → List ℕ → Bool
known_group none groups = true
known_group (some g) groups = any (λ h. h == g) groups

-- The row that `bookingRepo.Create` inserts, with its new UUID, its stamps and its defaults.
unfoldable pub stamped : ℕ → ℕ → Booking → Booking
stamped id now b = record b {
  id = if b.id == nil_id then id else b.id;
  created_at = now;
  updated_at = now;
  party_size = if b.party_size == 0 then 1 else b.party_size;
}

-- The check `chk_window`, on times that the database keeps in microseconds.
abbrev pub has_window : (start end : ℕ) → Bool
has_window start end = ltb (start / 1000) (end / 1000)

-- The database keeps no text with the code point 0.
abbrev pub is_storable : String → Bool
is_storable text = not (any (λ c. c == 0) (codes text))

-- `bookingRepo.Create`: the primary key, the foreign keys, the window and the text may refuse the row.
-- The size of the party is positive here.
unfoldable pub insert_booking : ℕ → ℕ → Booking → Db → Result (Booking × Db)
insert_booking id now b db =
    let row = stamped id now b in
    if any (λ c. c.id == row.id) db.bookings
      || not (any (λ u. u.id == row.user_id) db.users)
      || not (any (λ r. r.id == row.resource_id) db.resources)
      || not (known_group row.group_id db.groups)
      || not (has_window row.start_time row.end_time)
      || not (is_storable row.notes)
    then err database
    else ok (row, record db { bookings = db.bookings ++ row ∷ [] })

-- `bookingRepo.UpdateStatus`
unfoldable pub update_status : ℕ → ℕ → BookingStatus → Db → Result Db
update_status now id status db =
    if any (λ b. b.id == id) db.bookings
    then ok (record db {
      bookings =
          update_where (λ b. b.id == id) (λ b. record b { status = status; updated_at = now })
            db.bookings;
    })
    else err not_found
