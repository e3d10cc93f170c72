-- ===== src/GroupBuy/Table.antt =====
-- The SQL of repo/internal/repository/groupbuy.go. Each function is one transaction, or one read.
use task.Base.{
  ℕ, ◌+◌, ◌-◌, Bool, not, ◌&&◌, ◌||◌, none, some, List, [], ◌∷◌, ◌++◌, String, select, find_first,
  any, update_where, ltb, leb, ◌==◌, if◌then◌else◌,
}
use task.Base.Int.{ℤ, or_one}
use task.Domain.Errors.{
  Result, ok, err, found, fail_if, ◌>>=◌, ◌>>◌, conflict, deadline_passed, oversold,
  optimistic_lock, already_joined, not_found, database,
}
use task.Domain.Models.{User, Resource, nil_id}
use task.Domain.GroupBuys.{GroupBuyStatus, met, failed, is_running, GroupBuy, Participant}

-- An in-app message; its title and body are text for people.
pub record Notification : Type 0 where
  pub user_id : ℕ
  pub kind : String

pub record Db : Type 0 where
  pub users : List User
  pub resources : List Resource
  pub group_buys : List GroupBuy
  pub participants : List Participant
  pub notifications : List Notification

abbrev pub get_group_buy : ℕ → Db → Result GroupBuy
get_group_buy id db = found (find_first (λ g. g.id == id) db.group_buys)

-- `groupBuyRepo.Create`
unfoldable pub insert_group_buy : (new_id now : ℕ) → GroupBuy → Db → GroupBuy × Db
insert_group_buy new_id now g db =
    let row : GroupBuy = record g {
      id = if g.id == nil_id then new_id else g.id;
      created_at = now;
      updated_at = now;
      remaining_slots = g.capacity;
      version = 0;
    } in
    (row, record db { group_buys = db.group_buys ++ row ∷ [] })

-- `JoinAtomic` up to the UPDATE: the row that it read, and the checks on it. `now` is the clock.
unfoldable pub join_read : (now gb_id qty : ℕ) → Db → Result GroupBuy
join_read now gb_id qty db = do
  g ← get_group_buy gb_id db
  fail_if (not (is_running g.status)) conflict
  fail_if (not (ltb now g.deadline)) deadline_passed
  fail_if (ltb g.remaining_slots qty) oversold
  ok g

-- The SET clause of the UPDATE.
unfoldable pub decremented : (stamp qty : ℕ) → GroupBuy → GroupBuy
decremented stamp qty g = record g {
  remaining_slots = g.remaining_slots - qty;
  version = g.version + 1;
  status = if leb g.threshold (g.capacity - (g.remaining_slots - qty)) then met else g.status;
  updated_at = stamp;
}

-- UNIQUE (group_buy_id, user_id)
abbrev pub has_joined : (gb_id user_id : ℕ) → List Participant → Bool
has_joined gb_id user_id ps = any (λ p. p.group_buy_id == gb_id && p.user_id == user_id) ps

-- `JoinAtomic` from the UPDATE to the COMMIT. The UPDATE locks the row until the transaction ends,
-- so no other join of the same group buy comes in between; a violated constraint rolls it back. The
-- foreign key to the users is looked at after the unique index.
unfoldable pub join_write :
    (new_id now stamp gb_id user_id qty version : ℕ) → Db → Result (GroupBuy × Participant × Db)
join_write new_id now stamp gb_id user_id qty version db =
    elim (find_first (λ g. g.id == gb_id) db.group_buys) [
      | none ↦ err optimistic_lock
      | some g ↦
          if not (g.version == version) || ltb g.remaining_slots qty
          then err optimistic_lock
          else if has_joined gb_id user_id db.participants
          then err already_joined
          else if not (any (λ u. u.id == user_id) db.users)
          then err database
          else let part : Participant = record {
            id = new_id;
            group_buy_id = gb_id;
            user_id = user_id;
            quantity = qty;
            joined_at = now;
          } in
            ok (
              decremented stamp qty g,
              part,
              record db {
                group_buys =
                    update_where (λ h. h.id == gb_id) (decremented stamp qty) db.group_buys;
                participants = db.participants ++ part ∷ [];
              },
            )
    ]

-- `JoinAtomic` over the rows that it reads and the rows that it writes to: they differ by what
-- others have committed in between.
unfoldable pub join_atomic :
    (new_id now stamp gb_id user_id : ℕ)
    → ℤ
    → (before later : Db) → Result (GroupBuy × Participant × Db)
join_atomic new_id now stamp gb_id user_id qty before later = do
  g ← join_read now gb_id (or_one qty) before
  join_write new_id now stamp gb_id user_id (or_one qty) g.version later

abbrev pub mark_failed_row : ℕ → GroupBuy → GroupBuy
mark_failed_row stamp g = record g {
  status = failed;
  remaining_slots = g.capacity;
  version = g.version + 1;
  updated_at = stamp;
}

-- `MarkFailedAndReleaseSlots`
unfoldable pub mark_failed_and_release_slots : (stamp id : ℕ) → Db → Result Db
mark_failed_and_release_slots stamp id db =
    if any (λ g. g.id == id && is_running g.status) db.group_buys
    then ok (record db {
      group_buys =
          update_where (λ g. g.id == id && is_running g.status) (mark_failed_row stamp)
            db.group_buys;
    })
    else err not_found

abbrev pub with_status : GroupBuyStatus → ℕ → GroupBuy → GroupBuy
with_status status stamp g = record g { status = status; updated_at = stamp }

-- `UpdateStatus`: the version stays.
unfoldable pub update_status : (stamp id : ℕ) → GroupBuyStatus → Db → Result Db
update_status stamp id status db =
    if any (λ g. g.id == id) db.group_buys
    then ok (record db {
      group_buys = update_where (λ g. g.id == id) (with_status status stamp) db.group_buys;
    })
    else err not_found

-- `ListExpiringBefore`
unfoldable pub list_expiring_before : ℕ → Db → List GroupBuy
list_expiring_before t db = select (λ g. leb g.deadline t && is_running g.status) db.group_buys

-- `ListParticipants` gives them in the order of insertion.
unfoldable pub list_participants : ℕ → Db → List Participant
list_participants gb_id db = select (λ p. p.group_buy_id == gb_id) db.participants
