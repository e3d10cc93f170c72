-- ===== src/Inbox/Table.antt =====
-- The SQL of repo/internal/repository/notification.go. A violated foreign key is a failed query, and a
-- limit that is at most 0 is 0.
use task.Base.{
  ℕ, Bool, true, false, not, ◌&&◌, ◌||◌, Option, none, some, List, [], ◌∷◌, ◌++◌, String, any,
  select, update_where, sort_by, take, length, leb, ltb, ◌==◌, if◌then◌else◌,
}
use task.Domain.Errors.{Result, ok, err, database, not_found}
use task.Domain.Models.{nil_id}

pub record Notification : Type 0 where
  pub id : ℕ
  pub user_id : ℕ
  pub kind : String
  pub title : String
  pub body : String
  pub read_at : Option ℕ
  pub created_at : ℕ

-- The four constants of the domain; the column has a CHECK for them.
pub data TodoStatus : Type 0 where
  open_todo in_progress done dismissed : TodoStatus

abbrev pub todo_eq : TodoStatus → TodoStatus → Bool
todo_eq open_todo open_todo = true
todo_eq in_progress in_progress = true
todo_eq done done = true
todo_eq dismissed dismissed = true
todo_eq _ _ = false

pub record Todo : Type 0 where
  pub id : ℕ
  pub user_id : ℕ
  pub task_type : String
  pub title : String
  pub payload : List ℕ
  pub status : TodoStatus
  pub due_at : Option ℕ
  pub created_at : ℕ
  pub updated_at : ℕ

pub record NotificationDelivery : Type 0 where
  pub id : ℕ
  pub notification_id : Option ℕ
  pub user_id : Option ℕ
  pub channel : String
  pub status : String
  pub detail : String
  pub delivered_at : ℕ

pub record Db : Type 0 where
  pub notifications : List Notification
  pub todos : List Todo
  pub deliveries : List NotificationDelivery

-- The INSERT leaves `read_at` NULL.
unfoldable pub create_notification :
    (new_id now : ℕ) → Notification → Db → Result (Notification × Db)
create_notification new_id now n db =
    let row : Notification = record n {
      id = if n.id == nil_id then new_id else n.id;
      created_at = if n.created_at == 0 then now else n.created_at;
    } in
    if any (λ (m : Notification). m.id == row.id) db.notifications
    then err database
    else ok
        (row, record db { notifications = db.notifications ++ record row { read_at = none } ∷ [] })

abbrev pub is_unread : Notification → Bool
is_unread n = elim n.read_at [ none ↦ true | some t ↦ false ]

abbrev pub is_listed : (user_id : ℕ) → (unread_only : Bool) → Notification → Bool
is_listed user_id unread_only n = n.user_id == user_id && (not unread_only || is_unread n)

unfoldable pub list_notifications :
    (user_id : ℕ) → (unread_only : Bool) → (limit : ℕ) → Db → List Notification
list_notifications user_id unread_only limit db =
    let n = if limit == 0 || ltb 200 limit then 50 else limit in
    take n (
      sort_by (λ (a b : Notification). leb b.created_at a.created_at)
        (select (is_listed user_id unread_only) db.notifications))

abbrev pub is_own : (user_id id : ℕ) → Notification → Bool
is_own user_id id n = n.id == id && n.user_id == user_id

unfoldable pub mark_read : (now user_id id : ℕ) → Db → Result Db
mark_read now user_id id db =
    if any (is_own user_id id) db.notifications
    then ok (record db {
      notifications =
          update_where (is_own user_id id) (λ n. record n { read_at = some now }) db.notifications;
    })
    else err not_found

unfoldable pub count_unread : (user_id : ℕ) → Db → ℕ
count_unread user_id db = length (select (is_listed user_id true) db.notifications)

-- The empty status, which the source turns into open, is not of the type.
unfoldable pub create_todo : (new_id now : ℕ) → Todo → Db → Result (Todo × Db)
create_todo new_id now t db =
    let row : Todo = record t {
      id = if t.id == nil_id then new_id else t.id;
      payload = if length t.payload == 0 then 123 ∷ 125 ∷ [] else t.payload;
      created_at = now;
      updated_at = now;
    } in
    if any (λ (u : Todo). u.id == row.id) db.todos
    then err database
    else ok (row, record db { todos = db.todos ++ row ∷ [] })

-- `none` is the empty status, which lists all.
abbrev pub has_status : Option TodoStatus → Todo → Bool
has_status none t = true
has_status (some s) t = todo_eq t.status s

unfoldable pub list_todos : (user_id : ℕ) → Option TodoStatus → (limit : ℕ) → Db → List Todo
list_todos user_id status limit db =
    let n = if limit == 0 || ltb 200 limit then 50 else limit in
    take n (
      sort_by (λ (a b : Todo). leb b.created_at a.created_at)
        (select (λ (t : Todo). t.user_id == user_id && has_status status t) db.todos))

abbrev pub is_own_todo : (user_id id : ℕ) → Todo → Bool
is_own_todo user_id id t = t.id == id && t.user_id == user_id

-- Any status may follow any other.
unfoldable pub update_todo_status : (now user_id id : ℕ) → TodoStatus → Db → Result Db
update_todo_status now user_id id status db =
    if any (is_own_todo user_id id) db.todos
    then ok (record db {
      todos =
          update_where (is_own_todo user_id id)
            (λ t. record t { status = status; updated_at = now }) db.todos;
    })
    else err not_found

unfoldable pub log_delivery : (new_id now : ℕ) → NotificationDelivery → Db → Result Db
log_delivery new_id now d db =
    let row : NotificationDelivery = record d {
      id = if d.id == nil_id then new_id else d.id;
      delivered_at = if d.delivered_at == 0 then now else d.delivered_at;
    } in
    if any (λ (e : NotificationDelivery). e.id == row.id) db.deliveries
    then err database
    else ok (record db { deliveries = db.deliveries ++ row ∷ [] })

unfoldable pub list_notification_deliveries : (limit : ℕ) → Db → List NotificationDelivery
list_notification_deliveries limit db =
    let n = if limit == 0 || ltb 500 limit then 100 else limit in
    take n
      (sort_by (λ (a b : NotificationDelivery). leb b.delivered_at a.delivered_at) db.deliveries)
