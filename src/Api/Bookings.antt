-- ===== src/Api/Bookings.antt =====
-- repo/internal/api/handlers/booking.go. The binding of a request is given: `none` is an error of it. A
-- handler that changes rows answers with them.
use task.Base.{ℕ, Option, none, some, String, str_eq, ◌==◌, if◌then◌else◌}
use task.Base.Int.{ℤ}
use task.Domain.Errors.{Error, Result, ok, err}
use task.Domain.Models.{User, Booking}
use task.Domain.Status.{BookingStatus}
use task.Booking.Table.{Db}
use task.Booking.Service.{
  BookingService, Faults, CreateInput, create_booking, get_for_owner, transition,
}
use task.Api.Requests.{Parsers, parse_time, Response, answer, refuse, respond, ◌or_400◌}
use task.Api.Refusals.{write_service_error}

-- Fields that are not in the request are empty texts and 0.
pub record BookingRequest : Type 0 where
  pub resource_id : String
  pub group_id : String
  pub party_size : ℤ
  pub start_time : String
  pub end_time : String
  pub notes : String
  pub secure_notes : String

-- The group of the request: none is named, or the text of its identifier is read.
abbrev pub parse_group : Parsers → String → Option (Option ℕ)
parse_group p text =
    if str_eq text ""
    then some none
    else elim (p.uuid text) [ none ↦ none | some id ↦ some (some id) ]

-- The input of the service, if every part of the request can be read.
unfoldable pub create_input : Parsers → (user_id : ℕ) → BookingRequest → Option CreateInput
create_input p user_id req = elim (p.uuid req.resource_id) [
  | none ↦ none
  | some rid ↦ elim (parse_time p req.start_time) [
    | none ↦ none
    | some start ↦ elim (parse_time p req.end_time) [
      | none ↦ none
      | some end_time ↦ elim (parse_group p req.group_id) [
        | none ↦ none
        | some group ↦ some (record {
          user_id = user_id;
          resource_id = rid;
          group_id = group;
          party_size = req.party_size;
          start_time = start;
          end_time = end_time;
          notes = req.notes;
          secure_notes = req.secure_notes;
        })
      ]
    ]
  ]
]

-- The rows after a call: those of a success, or those from before.
abbrev pub reply :
    {A : Type 0} → (Error → ℕ) → (status : ℕ) → Db → Result (A × Db) → Response A × Db
reply status_of_error status db (ok (a, db')) = (answer status a, db')
reply status_of_error status db (err e) = (refuse (status_of_error e), db)

-- What a call of the service meets beside the request.
pub record Meets : Type 0 where
  pub down : Faults
  pub now : ℕ
  pub stamp : ℕ
  pub new_id : ℕ

abbrev pub created : BookingService → Meets → Db → Option CreateInput → Response Booking × Db
created s w db none = (refuse 400, db)
created s w db (some input) =
    reply write_service_error 201 db (create_booking s w.down w.now w.stamp w.new_id input db)

-- `Create`
unfoldable pub create :
    BookingService → Parsers → Meets → User → Option BookingRequest → Db → Response Booking × Db
create s p w user none db = (refuse 400, db)
create s p w user (some req) db = created s w db (create_input p user.id req)

abbrev pub own_booking : User → Response Booking → Response Booking
own_booking user (refuse status) = refuse status
own_booking user (answer status b) = if b.user_id == user.id then answer status b else refuse 403

-- `Get`
unfoldable pub get :
    BookingService → Parsers → Faults → User → (id : String) → Db → Response Booking
get s p down user text db = p.uuid text or_400 λ id.
    own_booking user (respond write_service_error 200 (λ b. b) (get_for_owner s down user.id id db))

abbrev pub moved :
    BookingService
    → Meets
    → User
    → Db
    → (id : Option ℕ) → (target : Option BookingStatus) → Response Booking × Db
moved s w user db none target = (refuse 400, db)
moved s w user db (some id) none = (refuse 400, db)
moved s w user db (some id) (some target) =
    reply write_service_error 200 db (transition s w.down w.now w.stamp user.id id target db)

-- `Transition`: the target is what was bound.
unfoldable pub transition_booking :
    BookingService
    → Parsers
    → Meets
    → User
    → (id : String) → Option BookingStatus
    → Db
    → Response Booking × Db
transition_booking s p w user text target db = moved s w user db (p.uuid text) target
