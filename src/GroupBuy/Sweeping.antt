-- ===== src/GroupBuy/Sweeping.antt =====
-- Every step of repo/internal/service/groupbuy.go and repo/internal/repository/groupbuy.go keeps the
-- seats of a group buy balanced.
use task.Base.{
  ℕ, ◌≡◌, refl, sym, inl, inr, true, false, ◌&&◌, List, [], ◌∷◌, ◌==◌, if◌then◌else◌, Distinct,
  arith, Option-cases, Bool-cases, ==_refl, change, has, update_where, update_where_none, any,
}
use task.Domain.GroupBuys.{GroupBuy, GroupBuyStatus, is_running}
use task.GroupBuy.Table.{
  Db, mark_failed_row, mark_failed_and_release_slots, update_status, with_status,
}
use task.GroupBuy.Service.{sweep_one, is_failed, sweep_target, sweep_notify}
use task.GroupBuy.System.{In, System, group_key, RowFair}
use task.GroupBuy.Change.{running_unfailed}

-- What one turn of the sweep does to the row of that key.
unfoldable pub swept : ℕ → GroupBuyStatus → GroupBuy → GroupBuy
swept stamp target b =
    if is_failed target
    then (if is_running b.status then mark_failed_row stamp b else b)
    else with_status target stamp b

pub swept_key :
    (stamp : ℕ) (target : GroupBuyStatus) (g : GroupBuy)
    → group_key (swept stamp target g) ≡ group_key g
unfolding swept
swept_key stamp target g = ground arith

swept_failed :
    (stamp id : ℕ) (target : GroupBuyStatus) (rows : List GroupBuy)
    → is_failed target ≡ true
    → change group_key id (swept stamp target) rows
      ≡ update_where (λ g. g.id == id && is_running g.status) (mark_failed_row stamp) rows
unfolding swept
swept_failed stamp id target [] h = refl
swept_failed stamp id target (g ∷ rows) h = ground (arith, swept_failed stamp id target rows h)

swept_ended :
    (stamp id : ℕ) (target : GroupBuyStatus) (rows : List GroupBuy)
    → is_failed target ≡ false
    → change group_key id (swept stamp target) rows
      ≡ update_where (λ g. g.id == id) (with_status target stamp) rows
unfolding swept
swept_ended stamp id target [] h = refl
swept_ended stamp id target (g ∷ rows) h = ground (arith, swept_ended stamp id target rows h)

mark_failed-rows :
    (stamp id : ℕ) (db : Db) (g : GroupBuy) {db' : Db}
    → db' ≡ sweep_notify g db (mark_failed_and_release_slots stamp id db)
    → (db'.group_buys
        ≡ update_where
            (λ k. k.id == id && is_running k.status)
            (mark_failed_row stamp)
            db.group_buys)
      × (db'.participants ≡ db.participants)
unfolding mark_failed_and_release_slots
mark_failed-rows stamp id db g e =
    elim (Bool-cases (any (λ k. k.id == id && is_running k.status) db.group_buys)) [
      | inl there ↦ elim (Option-cases g.organizer_id) [
        | inl orphan ↦ ground arith
        | inr (user, o) ↦ ground arith
      ]
      | inr nowhere ↦ ground (
        arith,
        update_where_none (λ k. k.id == id && is_running k.status) (mark_failed_row stamp)
            db.group_buys nowhere,
      )
    ]

update_status-rows :
    (stamp id : ℕ) (target : GroupBuyStatus) (db : Db) (g : GroupBuy) {db' : Db}
    → db' ≡ sweep_notify g db (update_status stamp id target db)
    → (db'.group_buys ≡ update_where (λ k. k.id == id) (with_status target stamp) db.group_buys)
      × (db'.participants ≡ db.participants)
unfolding update_status
update_status-rows stamp id target db g e =
    elim (Bool-cases (any (λ k. k.id == id) db.group_buys)) [
      | inl there ↦ elim (Option-cases g.organizer_id) [
        | inl orphan ↦ ground arith
        | inr (user, o) ↦ ground arith
      ]
      | inr nowhere ↦ ground (
        arith,
        update_where_none (λ k. k.id == id) (with_status target stamp) db.group_buys nowhere,
      )
    ]

-- The rows after one turn of the sweep, whether its UPDATE found a row or not.
pub sweep_one-rows :
    (stamp : ℕ) (g : GroupBuy) (db : Db)
    → ((sweep_one stamp g db).group_buys
        ≡ change group_key g.id (swept stamp (sweep_target g)) db.group_buys)
      × ((sweep_one stamp g db).participants ≡ db.participants)
unfolding sweep_one
sweep_one-rows stamp g db = elim (Bool-cases (is_failed (sweep_target g))) [
  | inl fails ↦
      rw (fails, swept_failed stamp g.id (sweep_target g) db.group_buys fails)
        (mark_failed-rows stamp g.id db g refl)
  | inr ends ↦
      rw (ends, swept_ended stamp g.id (sweep_target g) db.group_buys ends)
        (update_status-rows stamp g.id (sweep_target g) db g refl)
]

In-has : (q : GroupBuy) (qs : List GroupBuy) → In q qs → has group_key q.id qs ≡ true
In-has q [] m = absurd m
In-has q (k ∷ qs) (inl e) = ground (arith, ==_refl q.id)
In-has q (k ∷ qs) (inr m) = ground (arith, In-has q qs m)

pub swept_row :
    (s : System) (stamp : ℕ) (q : GroupBuy) (qs : List GroupBuy) (b : GroupBuy) (db' : Db)
    → s.queue ≡ q ∷ qs
    → Distinct group_key s.queue
    → RowFair s b
    → b.id ≡ q.id
    → db'.participants ≡ s.db.participants
    → RowFair (record s { db = db'; queue = qs }) (swept stamp (sweep_target q) b)
unfolding swept
swept_row s stamp q qs b db' e d r same parts =
    let live = r.unfailed q (rw e (inl refl)) (sym same) in
    record {
      balanced = ground (arith, r.balanced, r.within, live, running_unfailed b.status);
      within = ground (arith, r.within);
      guarded = λ h m e'. ground (arith, r.guarded h m, live);
      unfailed = λ k m e'. absurd (ground (arith, In-has k qs m));
    }
