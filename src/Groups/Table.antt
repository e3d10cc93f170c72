-- ===== src/Groups/Table.antt =====
-- GroupReservation of repo/internal/domain/models.go with its methods, the SQL of
-- repo/internal/repository/group.go, and repo/internal/service/group.go.
use task.Base.{
  take, drop, ℕ, ◌+◌, Bool, true, false, ◌||◌, Option, List, [], ◌∷◌, ◌++◌, String, any, find_first,
  update_where, delete_where, sort_by, leb, ltb, ◌==◌, str_eq, if◌then◌else◌,
}
use task.Domain.Errors.{
  Result, ok, err, database, not_found, found, invalid_input, fail_if, query, ◌>>=◌, ◌>>◌,
}
use task.Domain.Models.{Booking, nil_id}
use task.Domain.Status.{BookingStatus}
use task.Groups.Masking.{mask_name, mask_email}

pub record GroupReservation : Type 0 where
  pub id : ℕ
  pub name : String
  pub organizer_id : Option ℕ
  pub organizer_name : String
  pub organizer_email : String
  pub capacity : ℕ
  pub notes : String
  pub created_at : ℕ
  pub updated_at : ℕ
  pub bookings : List Booking

unfoldable pub masked_view : GroupReservation → GroupReservation
masked_view g = record g {
  organizer_name = mask_name g.organizer_name;
  organizer_email = mask_email g.organizer_email;
}

-- `(*GroupReservation).Validate`
unfoldable pub validate_group : GroupReservation → Result (Unit {0})
validate_group g = do
  fail_if (str_eq g.name "") invalid_input
  fail_if (str_eq g.organizer_email "") invalid_input
  fail_if (g.capacity == 0) invalid_input
  ok tt

abbrev pub is_canceled : BookingStatus → Bool
is_canceled BookingStatus.canceled = true
is_canceled _ = false

abbrev pub headcount : List Booking → ℕ
headcount [] = 0
headcount (b ∷ bookings) = (if is_canceled b.status then 0 else b.party_size) + headcount bookings

unfoldable pub current_headcount : GroupReservation → ℕ
current_headcount g = headcount g.bookings

unfoldable pub insert_group :
    (new_id now : ℕ)
    → GroupReservation
    → List GroupReservation
    → Result (GroupReservation × List GroupReservation)
insert_group new_id now g rows =
    let row : GroupReservation = record g {
      id = if g.id == nil_id then new_id else g.id;
      created_at = now;
      updated_at = now;
    } in
    if any (λ (h : GroupReservation). h.id == row.id) rows
    then err database
    else ok (row, rows ++ row ∷ [])

abbrev pub get_group : ℕ → List GroupReservation → Result GroupReservation
get_group id rows = found (find_first (λ (g : GroupReservation). g.id == id) rows)

-- A limit that is at most 0 is 0; a negative offset is an error of the database.
unfoldable pub list_groups : (limit offset : ℕ) → List GroupReservation → List GroupReservation
list_groups limit offset rows =
    let n = if limit == 0 || ltb 200 limit then 50 else limit in
    take n (drop offset (sort_by (λ (a b : GroupReservation). leb b.created_at a.created_at) rows))

abbrev pub replaced : (now : ℕ) → GroupReservation → GroupReservation → GroupReservation
replaced now g old = record old {
  name = g.name;
  organizer_id = g.organizer_id;
  organizer_name = g.organizer_name;
  organizer_email = g.organizer_email;
  capacity = g.capacity;
  notes = g.notes;
  updated_at = now;
}

unfoldable pub update_group :
    (now : ℕ) → GroupReservation → List GroupReservation → Result (List GroupReservation)
update_group now g rows =
    if any (λ (h : GroupReservation). h.id == g.id) rows
    then ok (update_where (λ (h : GroupReservation). h.id == g.id) (replaced now g) rows)
    else err not_found

unfoldable pub delete_group : (id : ℕ) → List GroupReservation → Result (List GroupReservation)
delete_group id rows =
    if any (λ (h : GroupReservation). h.id == id) rows
    then ok (delete_where (λ (h : GroupReservation). h.id == id) rows)
    else err not_found

-- `GroupService.Create`
unfoldable pub create_group :
    (down : Bool)
    → (new_id now : ℕ) → GroupReservation
    → List GroupReservation
    → Result (GroupReservation × List GroupReservation)
create_group down new_id now g rows = do
  validate_group g
  query down tt
  insert_group new_id now g rows

-- `GroupService.Get`: the bookings of the group, or the error of their query, are given.
unfoldable pub get_group_with_bookings :
    (down : Bool)
    → (list_by_group : ℕ → Result (List Booking)) → ℕ
    → List GroupReservation
    → Result GroupReservation
get_group_with_bookings down list_by_group id rows = do
  query down tt
  g ← get_group id rows
  bookings ← list_by_group id
  ok (record g { bookings = bookings })
