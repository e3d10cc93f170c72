-- ===== src/GroupBuy/System.antt =====
-- Requests that join a group buy and the sweep job, interleaved at the calls of the database:
-- repo/internal/repository/groupbuy.go and repo/internal/service/groupbuy.go.
use task.Base.{
  ℕ, ◌+◌, ◌≤◌, ◌≡◌, ◌⊎◌, false, List, [], ◌∷◌, ◌==◌, if◌then◌else◌, sum_of, fetch, Distinct, some,
}
use task.Base.Int.{ℤ, or_one}
use task.Domain.Errors.{ok}
use task.Domain.GroupBuys.{GroupBuy, Participant}
use task.GroupBuy.Table.{Db, join_read, join_write, list_expiring_before}
use task.GroupBuy.Service.{sweep_one, is_failed}

-- A request between the read and the write of `JoinAtomic`.
pub record Held : Type 0 where
  pub gb_id : ℕ
  pub user_id : ℕ
  pub qty : ℕ
  pub version : ℕ

abbrev pub In : {A : Type 0} → A → List A → Type 0
In a [] = ⊥
In a (x ∷ xs) = (a ≡ x) ⊎ In a xs

-- The rows, the requests that have read, and the rows that the sweep job has listed and not yet
-- handled. A request stays listed after its write: that it may write again only adds behaviours.
pub record System : Type 0 where
  pub db : Db
  pub held : List Held
  pub queue : List GroupBuy

pub data Step (s : System) : System → Type 0 where
  reads :
      (now gb_id user_id : ℕ) (qty : ℤ) {g : GroupBuy}
      → join_read now gb_id (or_one qty) s.db ≡ ok g
      → Step s (record s {
        held =
            record { gb_id = gb_id; user_id = user_id; qty = or_one qty; version = g.version }
            ∷ s.held;
      })
  writes :
      (new_id now stamp : ℕ) (h : Held) {g : GroupBuy} {p : Participant} {db' : Db}
      → In h s.held
      → join_write new_id now stamp h.gb_id h.user_id h.qty h.version s.db ≡ ok (g, p, db')
      → Step s (record s { db = db' })
  lists : (now : ℕ) → s.queue ≡ [] → Step s (record s { queue = list_expiring_before now s.db })
  sweeps :
      (stamp : ℕ) {g : GroupBuy} {gs : List GroupBuy}
      → s.queue ≡ g ∷ gs
      → Step s (record s { db = sweep_one stamp g s.db; queue = gs })

pub data Reach (s : System) : System → Type 0 where
  here : Reach s s
  after : {t u : System} → Reach s t → Step t u → Reach s u

abbrev pub group_key : GroupBuy → ℕ
group_key g = g.id

-- The seats that participants hold of a group buy.
abbrev pub seats_of : ℕ → Participant → ℕ
seats_of id p = if p.group_buy_id == id then p.quantity else 0

unfoldable pub joined : ℕ → List Participant → ℕ
joined id ps = sum_of (seats_of id) ps

-- A failed group buy has released its seats, though its participants stay on record.
abbrev pub committed : GroupBuy → List Participant → ℕ
committed g ps = if is_failed g.status then 0 else joined g.id ps

-- 1 for a failed group buy: a request that read it earlier holds an older version.
abbrev pub bumped : GroupBuy → ℕ
bumped g = if is_failed g.status then 1 else 0

-- What holds of one row.
pub record RowFair (s : System) (g : GroupBuy) : Type 0 where
  pub balanced : g.remaining_slots + committed g s.db.participants ≡ g.capacity
  pub within : joined g.id s.db.participants ≤ g.capacity
  pub guarded : (h : Held) → In h s.held → h.gb_id ≡ g.id → h.version + bumped g ≤ g.version
  pub unfailed : (q : GroupBuy) → In q s.queue → q.id ≡ g.id → is_failed g.status ≡ false

pub record IsFair (s : System) : Type 0 where
  pub distinct : Distinct group_key s.db.group_buys
  pub queue_distinct : Distinct group_key s.queue
  pub rows : (id : ℕ) (g : GroupBuy) → fetch group_key id s.db.group_buys ≡ some g → RowFair s g
