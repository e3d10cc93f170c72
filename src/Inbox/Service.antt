-- ===== src/Inbox/Service.antt =====
-- repo/internal/service/notification.go. The encoding of a to-do's payload is given.
use task.Base.{ℕ, Bool, Option, none, some, List, [], String}
use task.Domain.Errors.{Result, ok, err, internal, query, ◌>>=◌, ◌>>◌}
use task.Inbox.Table.{
  Notification, NotificationDelivery, Todo, open_todo, Db, create_notification, log_delivery,
  create_todo,
}

-- What a call of `Notify` meets: two identifiers, two times and two faults.
pub record Notifying : Type 0 where
  pub notification_id : ℕ
  pub delivery_id : ℕ
  pub created_at : ℕ
  pub logged_at : ℕ
  pub create_down : Bool
  pub log_down : Bool

-- The error of `LogDelivery` is dropped.
abbrev pub logged : Notification → Db → Result Db → Notification × Db
logged n db (ok db') = (n, db')
logged n db (err e) = (n, db)

abbrev pub in_app : Notification → NotificationDelivery
in_app n = record {
  id = 0;
  notification_id = some n.id;
  user_id = some n.user_id;
  channel = "in_app";
  status = "delivered";
  detail = "stored in notifications table";
  delivered_at = 0;
}

unfoldable pub notify :
    Notifying → (user_id : ℕ) → String → String → String → Db → Result (Notification × Db)
notify w user_id kind title body db = do
  let n : Notification = record {
    id = 0;
    user_id = user_id;
    kind = kind;
    title = title;
    body = body;
    read_at = none;
    created_at = 0;
  }
  query w.create_down tt
  (stored, db') ← create_notification w.notification_id w.created_at n db
  ok (
      logged stored db'
        (query w.log_down tt >> log_delivery w.delivery_id w.logged_at (in_app stored) db'))

-- `CreateTodo`: the payload is nil, or its encoding failed, or it is given in bytes.
unfoldable pub new_todo :
    (down : Bool)
    → (new_id now user_id : ℕ) → String
    → String
    → Option (Result (List ℕ))
    → Option ℕ
    → Db
    → Result (Todo × Db)
new_todo down new_id now user_id task_type title (some (err e)) due db = err internal
new_todo down new_id now user_id task_type title (some (ok raw)) due db =
    let t : Todo = record {
      id = 0;
      user_id = user_id;
      task_type = task_type;
      title = title;
      payload = raw;
      status = open_todo;
      due_at = due;
      created_at = 0;
      updated_at = 0;
    } in
    query down tt >> create_todo new_id now t db
new_todo down new_id now user_id task_type title none due db =
    let t : Todo = record {
      id = 0;
      user_id = user_id;
      task_type = task_type;
      title = title;
      payload = [];
      status = open_todo;
      due_at = due;
      created_at = 0;
      updated_at = 0;
    } in
    query down tt >> create_todo new_id now t db
