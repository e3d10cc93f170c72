-- ===== src/Booking/Service.antt =====
-- repo/internal/service/booking.go. `Faults` says which calls of the database fail in the driver;
-- a failed call has no effect. Each call of the clock and the new UUID are arguments.
use task.Base.{
  ℕ, ◌+◌, ◌-◌, ◌*◌, Bool, not, ◌&&◌, ◌||◌, String, str_eq, Option, none, some, List, [], ltb, leb,
  ◌==◌, if◌then◌else◌, length,
}
use task.Base.Int.{ℤ, pos, sub_ℕ, ltb_ℤ, or_one}
use task.Domain.Errors.{
  Result, ok, err, ◌>>=◌, ◌>>◌, fail_if, query, blacklisted, invalid_input, capacity_exceed,
  lead_time, daily_limit, overlap, internal, forbidden, invalid_transition, cutoff, conflict,
  database,
}
use task.Domain.Status.{
  BookingStatus, pending_confirmation, waitlisted, canceled, status_eq, can_transition,
}
use task.Domain.Models.{Booking, nil_id, validate_booking, minute, hour}
use task.Booking.Table.{
  Db, get_user, get_resource, get_booking, count_active_by_user_on_date, user_has_overlap,
  resource_has_overlap, sum_active_party_sizes_in_window, insert_booking, update_status,
}

pub record BookingPolicy : Type 0 where
  pub min_lead_time : ℕ
  pub change_cutoff : ℕ
  pub max_active_per_day : ℕ

abbrev pub default_booking_policy : BookingPolicy
default_booking_policy = record {
  min_lead_time = 2 * hour;
  change_cutoff = 10 * minute;
  max_active_per_day = 3;
}

-- The interface `notesEncrypter`; `none` is an error.
pub record NotesEncrypter : Type 0 where
  pub encrypt : String → Option (List ℕ)
  pub decrypt : List ℕ → Option String

pub record BookingService : Type 0 where
  pub encrypter : Option NotesEncrypter
  pub policy : BookingPolicy

-- `PartySize` comes from the request, and may be 0 or negative.
pub record CreateInput : Type 0 where
  pub user_id : ℕ
  pub resource_id : ℕ
  pub group_id : Option ℕ
  pub party_size : ℤ
  pub start_time : ℕ
  pub end_time : ℕ
  pub notes : String
  pub secure_notes : String

-- The calls of the database that `Create` and `Transition` make.
pub data Call : Type 0 where
  users_get resources_get count_active user_overlap sum_active create : Call
  bookings_get resource_overlap update : Call

abbrev pub Faults : Type 0
Faults = Call → Bool

-- Step 7 of `Create`.
unfoldable pub encrypt_notes : Option NotesEncrypter → String → Result (List ℕ)
encrypt_notes encrypter text = if str_eq text "" then ok [] else elim encrypter [
  | none ↦ err internal
  | some e ↦ elim (e.encrypt text) [ none ↦ err internal | some blob ↦ ok blob ]
]

-- Step 6 of `Create`: `remaining := resource.Capacity - activeParty` may be negative.
unfoldable pub initial_status : ℕ → ℕ → ℕ → BookingStatus
initial_status capacity active party =
    if ltb_ℤ (sub_ℕ capacity active) (pos party) then waitlisted else pending_confirmation

-- `BookingService.Create` up to the INSERT: what it reads and decides. `id` and the two stamps of
-- the row are set by the INSERT.
unfoldable pub admit_booking :
    BookingService → Faults → (now : ℕ) → CreateInput → Db → Result Booking
unfolding initial_status
admit_booking s down now input db = do
  user ← query (down users_get) tt >> get_user input.user_id db
  fail_if user.is_blacklisted blacklisted
  resource ← query (down resources_get) tt >> get_resource input.resource_id db
  fail_if (not (ltb input.start_time input.end_time)) invalid_input
  let party = or_one input.party_size
  fail_if (ltb resource.capacity party) capacity_exceed
  fail_if (ltb input.start_time (now + s.policy.min_lead_time)) lead_time
  count ←
      query (down count_active)
        (count_active_by_user_on_date input.user_id input.start_time db.bookings)
  fail_if (leb s.policy.max_active_per_day count) daily_limit
  busy ←
      query (down user_overlap)
        (user_has_overlap input.user_id input.start_time input.end_time none db.bookings)
  fail_if busy overlap
  active ← query (down sum_active) (
      sum_active_party_sizes_in_window input.resource_id input.start_time input.end_time
        db.bookings)
  blob ← encrypt_notes s.encrypter input.secure_notes
  let b : Booking = record {
    id = nil_id;
    user_id = input.user_id;
    resource_id = input.resource_id;
    group_id = input.group_id;
    party_size = party;
    start_time = input.start_time;
    end_time = input.end_time;
    status = initial_status resource.capacity active party;
    notes = input.notes;
    secure_notes = blob;
    secure_notes_plain = "";
    created_at = 0;
    updated_at = 0;
  }
  validate_booking b
  ok b

-- `BookingService.Create`: the INSERT is a later call of the database, in no transaction with the
-- reads.
unfoldable pub create_booking :
    BookingService → Faults → (now stamp new_id : ℕ) → CreateInput → Db → Result (Booking × Db)
create_booking s down now stamp new_id input db = do
  b ← admit_booking s down now input db
  query (down create) tt
  insert_booking new_id stamp b db

-- `GetForOwner`: the notes are deciphered for the owner alone, and a failure to decipher is logged
-- and hides them.
unfoldable pub reveal_notes : Option NotesEncrypter → Booking → Booking
reveal_notes none b = b
reveal_notes (some e) b = elim (e.decrypt b.secure_notes) [
  | none ↦ b
  | some plain ↦ record b { secure_notes_plain = plain }
]

unfoldable pub get_for_owner :
    BookingService → Faults → (actor booking_id : ℕ) → Db → Result Booking
unfolding reveal_notes
get_for_owner s down actor booking_id db = do
  b ← query (down bookings_get) tt >> get_booking booking_id db
  ok (if b.user_id == actor && ltb 0 (length b.secure_notes) then reveal_notes s.encrypter b else b)

-- `timeToStart > 0 && timeToStart < s.policy.ChangeCutoff`, for a signed `timeToStart`.
unfoldable pub cutoff_active : BookingPolicy → ℕ → ℕ → Bool
cutoff_active policy now start_time =
    ltb now start_time && ltb (start_time - now) policy.change_cutoff

abbrev pub locked_by_cutoff : BookingStatus → Bool
locked_by_cutoff t =
    status_eq t canceled || status_eq t waitlisted || status_eq t pending_confirmation

-- Whether the transition promotes a booking from the waitlist.
abbrev pub promotes : BookingStatus → BookingStatus → Bool
promotes from to = status_eq from waitlisted && status_eq to pending_confirmation

-- `BookingService.Transition`
unfoldable pub transition :
    BookingService
    → Faults
    → (now stamp actor booking_id : ℕ) → BookingStatus
    → Db
    → Result (Booking × Db)
unfolding cutoff_active
transition s down now stamp actor booking_id target db = do
  b ← query (down bookings_get) tt >> get_booking booking_id db
  fail_if (not (b.user_id == actor)) forbidden
  fail_if (not (can_transition b.status target)) invalid_transition
  fail_if (cutoff_active s.policy now b.start_time && locked_by_cutoff target) cutoff
  fail_if (promotes b.status target && down resource_overlap) database
  fail_if
      (promotes b.status target
        && resource_has_overlap b.resource_id b.start_time b.end_time (some b.id) db.bookings)
      conflict
  db' ← query (down update) tt >> update_status stamp booking_id target db
  ok (record b { status = target; updated_at = now }, db')
