-- ===== src/GroupBuy/Service.antt =====
-- repo/internal/service/groupbuy.go. A call of the database that fails in the driver has no effect;
-- clocks, new UUIDs and what others commit between two calls are arguments.
use task.Base.{
  ℕ, zero, suc, ◌+◌, ◌-◌, ◌*◌, ◌/◌, Bool, true, false, not, ◌&&◌, Option, none, some, List, [], ◌∷◌,
  ◌++◌, String, ltb, ◌==◌, if◌then◌else◌,
}
use task.Base.Int.{ℤ, pos, leb_ℤ, pos_part}
use task.Domain.Errors.{
  Error, Result, ok, err, found, fail_if, query, ◌>>=◌, ◌>>◌, optimistic_lock, internal,
  blacklisted,
}
use task.Domain.Models.{User, nil_id, hour, second}
use task.Domain.GroupBuys.{
  GroupBuyStatus, open_, met, expired, finalized, failed, GroupBuy, Participant, confirmed,
  threshold_met, validate_group_buy,
}
use task.GroupBuy.Table.{
  Db, get_group_buy, insert_group_buy, join_atomic, mark_failed_and_release_slots, update_status,
  list_expiring_before,
}
use task.Base.{find_first}

-- `GroupBuyDefaults`
abbrev pub default_threshold : ℕ
default_threshold = 5

abbrev pub default_deadline : ℕ
default_deadline = 24 * hour

pub record CreateGroupBuyInput : Type 0 where
  pub organizer_id : ℕ
  pub resource_id : ℕ
  pub title : String
  pub description : String
  pub threshold : ℤ
  pub capacity : ℤ
  pub starts_at : ℕ
  pub ends_at : ℕ
  pub deadline : Option ℕ

abbrev pub deadline_or_default : (now starts_at : ℕ) → Option ℕ → ℕ
deadline_or_default now starts_at (some d) = d
deadline_or_default now starts_at none =
    let d = now + default_deadline in if ltb starts_at d then starts_at else d

pub data Call : Type 0 where
  users_get resources_get create get : Call

-- `GroupBuyService.Create`. A capacity of 0 or less is refused by the validation, so it is carried
-- as 0.
unfoldable pub create_group_buy :
    (Call → Bool) → (now stamp new_id : ℕ) → CreateGroupBuyInput → Db → Result (GroupBuy × Db)
create_group_buy down now stamp new_id input db = do
  user ← query (down users_get) tt >> found (find_first (λ u. u.id == input.organizer_id) db.users)
  fail_if user.is_blacklisted blacklisted
  resource ←
      query (down resources_get) tt
      >> found (find_first (λ r. r.id == input.resource_id) db.resources)
  let g : GroupBuy = record {
    id = nil_id;
    resource_id = input.resource_id;
    organizer_id = some input.organizer_id;
    title = input.title;
    description = input.description;
    threshold =
        if leb_ℤ input.threshold (pos 0) then default_threshold else pos_part input.threshold;
    capacity = pos_part input.capacity;
    remaining_slots = 0;
    starts_at = input.starts_at;
    ends_at = input.ends_at;
    deadline = deadline_or_default now input.starts_at input.deadline;
    status = open_;
    version = 0;
    created_at = 0;
    updated_at = 0;
  }
  validate_group_buy now g
  query (down create) (insert_group_buy new_id stamp g db)

abbrev pub is_met : GroupBuyStatus → Bool
is_met met = true
is_met _ = false

abbrev pub notify : ℕ → String → Db → Db
notify user kind db = record db {
  notifications = db.notifications ++ record { user_id = user; kind = kind } ∷ [];
}

-- `notifyOrganizerProgress`
unfoldable pub notify_organizer_progress : GroupBuy → Db → Db
notify_organizer_progress g db =
    if not (threshold_met g)
    then db
    else if not (is_met g.status)
    then db
    else elim g.organizer_id [ none ↦ db | some user ↦ notify user "group_buy_threshold_met" db ]

abbrev pub is_optimistic_lock : Error → Bool
is_optimistic_lock optimistic_lock = true
is_optimistic_lock _ = false

-- One turn of the loop of `Join` answered `r`; `again` is the rest of the loop.
abbrev pub after_attempt :
    Db
    → (last : Bool) → (again : Result (GroupBuy × Participant) × Db)
    → Result (GroupBuy × Participant × Db)
    → Result (GroupBuy × Participant) × Db
after_attempt db last again (ok (g, part, db')) = (ok (g, part), notify_organizer_progress g db')
after_attempt db last again (err e) =
    if is_optimistic_lock e && not last then again else (err e, db)

-- The loop of `Join`, with the attempts that are left. `others n` is what other requests commit
-- between the read and the write of the attempt with `n` more to come.
unfoldable pub join_loop :
    (attempts : ℕ) (new_id now stamp : ℕ) (others : ℕ → Db → Db) (gb_id user_id : ℕ)
    → ℤ
    → Db
    → Result (GroupBuy × Participant) × Db
join_loop zero new_id now stamp others gb_id user_id qty db = (err internal, db)
join_loop (suc left) new_id now stamp others gb_id user_id qty db =
    let db' = others left db in
    let again = join_loop left new_id now stamp others gb_id user_id qty db' in
    after_attempt db' (left == 0) again (join_atomic new_id now stamp gb_id user_id qty db db')

abbrev pub max_retries : ℕ
max_retries = 3

abbrev pub refused : {A : Type 0} → Db → Result User → (User → Result A × Db) → Result A × Db
refused db (err e) k = (err e, db)
refused db (ok u) k = if u.is_blacklisted then (err blacklisted, db) else k u

-- `GroupBuyService.Join`
unfoldable pub join :
    (down : Bool) (new_id now stamp : ℕ) (others : ℕ → Db → Db) (gb_id user_id : ℕ)
    → ℤ
    → Db
    → Result (GroupBuy × Participant) × Db
join down new_id now stamp others gb_id user_id qty db =
    refused db (query down tt >> found (find_first (λ u. u.id == user_id) db.users))
      (λ u. join_loop max_retries new_id now stamp others gb_id user_id qty db)

-- The status that `SweepExpired` chooses for a row that it has listed.
unfoldable pub sweep_target : GroupBuy → GroupBuyStatus
sweep_target g =
    if threshold_met g then finalized else if ltb 0 (confirmed g) then failed else expired

abbrev pub sweep_kind : GroupBuyStatus → String
sweep_kind finalized = "group_buy_finalized"
sweep_kind failed = "group_buy_failed"
sweep_kind _ = "group_buy_expired"

abbrev pub is_failed : GroupBuyStatus → Bool
is_failed failed = true
is_failed _ = false

-- What is left of one turn of the loop when its UPDATE has answered.
abbrev pub sweep_notify : GroupBuy → Db → Result Db → Db
sweep_notify g db (err e) = db
sweep_notify g db (ok db') = elim g.organizer_id [
  | none ↦ db'
  | some user ↦ notify user (sweep_kind (sweep_target g)) db'
]

-- One turn of the loop of `SweepExpired`, for the row as it was listed.
unfoldable pub sweep_one : (stamp : ℕ) → GroupBuy → Db → Db
sweep_one stamp g db = sweep_notify g db (
    if is_failed (sweep_target g)
    then mark_failed_and_release_slots stamp g.id db
    else update_status stamp g.id (sweep_target g) db)

unfoldable pub sweep_listed : (stamp : ℕ) → List GroupBuy → Db → Db
sweep_listed stamp [] db = db
sweep_listed stamp (g ∷ gs) db = sweep_listed stamp gs (sweep_one stamp g db)

-- `SweepExpired`, with nothing committed by others while it runs.
unfoldable pub sweep_expired : (down : Bool) (now stamp : ℕ) → Db → Result Db
sweep_expired down now stamp db = do
  expiring ← query down (list_expiring_before now db)
  ok (sweep_listed stamp expiring db)

-- The counts of `Progress`; its ratio is a float and is left out.
pub record Progress : Type 0 where
  pub group_buy_id : ℕ
  pub threshold : ℕ
  pub confirmed_seats : ℕ
  pub remaining_slots : ℕ
  pub capacity : ℕ
  pub is_threshold_met : Bool
  pub deadline : ℕ
  pub seconds_left : ℕ
  pub status : GroupBuyStatus

-- `GroupBuyService.Progress`
unfoldable pub progress : (down : Bool) (now id : ℕ) → Db → Result Progress
progress down now id db = do
  g ← query down tt >> get_group_buy id db
  let p : Progress = record {
    group_buy_id = g.id;
    threshold = g.threshold;
    confirmed_seats = confirmed g;
    remaining_slots = g.remaining_slots;
    capacity = g.capacity;
    is_threshold_met = threshold_met g;
    deadline = g.deadline;
    seconds_left = (g.deadline - now) / second;
    status = g.status;
  }
  ok p
