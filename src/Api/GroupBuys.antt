-- ===== src/Api/GroupBuys.antt =====
-- repo/internal/api/handlers/groupbuy.go. The binding of a request is given, with `none` for an error of
-- it.
use task.Base.{ℕ, Bool, Option, none, some, String, str_eq, if◌then◌else◌}
use task.Base.Int.{ℤ, pos, or_one}
use task.Domain.Errors.{Result, ok, err, query, ◌>>◌}
use task.Domain.Models.{User}
use task.Domain.GroupBuys.{GroupBuy, Participant}
use task.GroupBuy.Table.{Db, get_group_buy}
use task.GroupBuy.Service.{
  Call, CreateGroupBuyInput, create_group_buy, join as join_group_buy, Progress,
  progress as progress_of,
}
use task.Analytics.Table.{Db as Events, AnalyticsEventType, view, favorite}
use task.Analytics.Service.{AnalyticsService, track}
use task.Api.Requests.{Parsers, parse_time, Response, answer, refuse, respond, ◌or_400◌}
use task.Api.Refusals.{write_service_error, write_group_buy_error}

-- Fields that are not in the request are empty texts and 0.
pub record CreateGroupBuyRequest : Type 0 where
  pub resource_id : String
  pub title : String
  pub description : String
  pub threshold : ℤ
  pub capacity : ℤ
  pub starts_at : String
  pub ends_at : String
  pub deadline : String

-- The deadline of the request: none is named, or its text is read.
abbrev pub parse_deadline : Parsers → String → Option (Option ℕ)
parse_deadline p text =
    if str_eq text ""
    then some none
    else elim (parse_time p text) [ none ↦ none | some t ↦ some (some t) ]

-- The input of the service, if every part of the request can be read.
unfoldable pub group_buy_input :
    Parsers → (organizer_id : ℕ) → CreateGroupBuyRequest → Option CreateGroupBuyInput
group_buy_input p organizer_id req = elim (p.uuid req.resource_id) [
  | none ↦ none
  | some rid ↦ elim (parse_time p req.starts_at) [
    | none ↦ none
    | some start ↦ elim (parse_time p req.ends_at) [
      | none ↦ none
      | some end_time ↦ elim (parse_deadline p req.deadline) [
        | none ↦ none
        | some due ↦ some (record {
          organizer_id = organizer_id;
          resource_id = rid;
          title = req.title;
          description = req.description;
          threshold = req.threshold;
          capacity = req.capacity;
          starts_at = start;
          ends_at = end_time;
          deadline = due;
        })
      ]
    ]
  ]
]

-- What a request meets: faults of the group buys and of the tracking, clocks, identifiers, and what
-- others commit during a join.
pub record Meets : Type 0 where
  pub down : Call → Bool
  pub tracking_down : Bool
  pub now : ℕ
  pub stamp : ℕ
  pub new_id : ℕ
  pub event_id : ℕ
  pub others : ℕ → Db → Db

abbrev pub opened : Db → Result (GroupBuy × Db) → Response GroupBuy × Db
opened db (ok (g, db')) = (answer 201 g, db')
opened db (err e) = (refuse (write_service_error e), db)

abbrev pub create_with : Meets → Db → Option CreateGroupBuyInput → Response GroupBuy × Db
create_with w db none = (refuse 400, db)
create_with w db (some input) = opened db (create_group_buy w.down w.now w.stamp w.new_id input db)

-- `Create`
unfoldable pub create :
    Parsers → Meets → User → Option CreateGroupBuyRequest → Db → Response GroupBuy × Db
create p w user none db = (refuse 400, db)
create p w user (some req) db = create_with w db (group_buy_input p user.id req)

abbrev pub tracked :
    AnalyticsService → Meets → AnalyticsEventType → (id user_id : ℕ) → Events → Events
tracked s w kind id user_id events =
    elim (track s w.tracking_down w.event_id w.now kind "group_buy" id user_id events) [
      | ok (e, events') ↦ events'
      | err x ↦ events
    ]

-- The response, and the rows of the group buys and of the analytics after it.
abbrev pub Joining : Type 0
Joining = Response (GroupBuy × Participant) × Db × Events

abbrev pub joined :
    AnalyticsService
    → Meets
    → User
    → (id : ℕ) → Events
    → Result (GroupBuy × Participant) × Db
    → Joining
joined s w user id events (ok pair, db) =
    (answer 200 pair, db, tracked s w favorite id user.id events)
joined s w user id events (err e, db) = (refuse (write_group_buy_error e), db, events)

abbrev pub join_at : AnalyticsService → Meets → User → Option ℕ → ℤ → Db → Events → Joining
join_at s w user none quantity db events = (refuse 400, db, events)
join_at s w user (some id) quantity db events = joined s w user id events (
    join_group_buy (w.down Call.users_get) w.new_id w.now w.stamp w.others id user.id
      (pos (or_one quantity)) db)

-- `Join`: `quantity` is what the binding leaves, which is 0 without one.
unfoldable pub join :
    AnalyticsService → Parsers → Meets → User → (id : String) → ℤ → Db → Events → Joining
join s p w user text quantity db events = join_at s w user (p.uuid text) quantity db events

abbrev pub viewed :
    AnalyticsService
    → Meets
    → Option User
    → (id : ℕ) → Events
    → Result GroupBuy
    → Response GroupBuy × Events
viewed s w user id events (err e) = (refuse (write_service_error e), events)
viewed s w none id events (ok g) = (answer 200 g, events)
viewed s w (some u) id events (ok g) = (answer 200 g, tracked s w view id u.id events)

-- `Get`: anyone may ask, but only the views of users are counted.
unfoldable pub get :
    AnalyticsService
    → Parsers
    → Meets
    → Option User
    → (id : String) → Db
    → Events
    → Response GroupBuy × Events
get s p w user text db events = elim (p.uuid text) [
  | none ↦ (refuse 400, events)
  | some id ↦ viewed s w user id events (query (w.down Call.get) tt >> get_group_buy id db)
]

-- `Progress`
unfoldable pub progress : Parsers → Meets → (id : String) → Db → Response Progress
progress p w text db = p.uuid text or_400 λ id.
    respond write_service_error 200 (λ r. r) (progress_of (w.down Call.get) w.now id db)
