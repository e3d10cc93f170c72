-- ===== src/Inbox/Reading.antt =====
-- What reading a notification of repo/internal/repository/notification.go does to the lists and the count.
use task.Base.{
  ℕ, ◌+◌, ◌≡◌, ◌≢◌, refl, inl, inr, Bool, true, ◌&&◌, some, List, [], ◌∷◌, arith, Bool-cases, any,
  select, update_where, length,
}
use task.Domain.Errors.{ok}
use task.Inbox.Table.{
  Notification, Db, is_unread, is_listed, is_own, list_notifications, mark_read, count_unread,
}

abbrev read_at_time : (now : ℕ) → Notification → Notification
read_at_time now n = record n { read_at = some now }

abbrev pub is_settled : (user_id id : ℕ) → Notification → Bool
is_settled user_id id n = is_own user_id id n && is_unread n

-- The rows of another user are listed as before.
select_elsewhere :
    (now user_id id other : ℕ) (unread_only : Bool)
    → user_id ≢ other
    → (rows : List Notification)
    → select
        (is_listed other unread_only)
        (update_where (is_own user_id id) (read_at_time now) rows)
      ≡ select (is_listed other unread_only) rows
select_elsewhere now user_id id other unread_only apart [] = refl
select_elsewhere now user_id id other unread_only apart (n ∷ rows) =
    ground (arith, apart, select_elsewhere now user_id id other unread_only apart rows)

-- The unread rows of the reader are those that are left and those that were just read.
count_split :
    (now user_id id : ℕ) (rows : List Notification)
    → length (select (is_listed user_id true) rows)
      ≡ length (
          select
            (is_listed user_id true)
            (update_where (is_own user_id id) (read_at_time now) rows))
        + length (select (is_settled user_id id) rows)
count_split now user_id id [] = refl
count_split now user_id id (n ∷ rows) = ground (arith, count_split now user_id id rows)

written_rows :
    (now user_id id : ℕ) (db db' : Db)
    → mark_read now user_id id db ≡ ok db'
    → update_where (is_own user_id id) (read_at_time now) db.notifications ≡ db'.notifications
unfolding mark_read
written_rows now user_id id db db' done =
    elim (Bool-cases (any (is_own user_id id) db.notifications)) [
      | inl owned ↦ cc (rw owned at done)
      | inr foreign ↦ cc (rw foreign at done)
    ]

-- When MarkRead succeeds, the user's count of unread notifications drops by the number of unread rows
-- with that user and that id, and any other user has the same count and the same lists as before.
pub count_unread-mark_read :
    (now user_id id other : ℕ) (db db' : Db)
    → user_id ≢ other
    → mark_read now user_id id db ≡ ok db'
    → (count_unread user_id db
        ≡ count_unread user_id db' + length (select (is_settled user_id id) db.notifications))
      × (count_unread other db' ≡ count_unread other db)
      × ((unread_only : Bool) (limit : ℕ)
          → list_notifications other unread_only limit db'
            ≡ list_notifications other unread_only limit db)
unfolding count_unread list_notifications
count_unread-mark_read now user_id id other db db' apart done =
    let rows = written_rows now user_id id db db' done in
    (
      rw (← rows) (count_split now user_id id db.notifications),
      rw (← rows, select_elsewhere now user_id id other true apart db.notifications) refl,
      λ unread_only limit.
          rw (← rows, select_elsewhere now user_id id other unread_only apart db.notifications)
            refl,
    )
