-- ===== src/GroupBuy/Interleaving.antt =====
-- Any interleaving of the steps of repo/internal/service/groupbuy.go and repo/internal/repository/groupbuy.go keeps the
-- seats of a group buy balanced.
use task.Base.{
  ℕ, ◌+◌, ◌≤◌, ◌≡◌, refl, ap, inl, inr, Bool, true, false, ◌&&◌, List, [], ◌∷◌, fetch, Distinct,
  some, arith, Bool-cases, ==_refl, leb, fetch-key, fetch-has, has, select,
}
use task.Domain.GroupBuys.{GroupBuy, is_running}
use task.GroupBuy.Table.{list_expiring_before}
use task.GroupBuy.Service.{sweep_one, sweep_target}
use task.GroupBuy.System.{
  In, System, Step, reads, writes, lists, sweeps, Reach, here, after, group_key, joined, committed,
  IsFair,
}
use task.GroupBuy.Change.{running_unfailed, reads-IsFair, change-IsFair}
use task.GroupBuy.Fair.{writes-IsFair}
use task.GroupBuy.Sweeping.{swept, swept_key, swept_row, sweep_one-rows}

has-select :
    (id : ℕ) (p : GroupBuy → Bool) (rows : List GroupBuy)
    → has group_key id rows ≡ false
    → has group_key id (select p rows) ≡ false
has-select id p [] h = refl
has-select id p (g ∷ rows) h = ground (arith, has-select id p rows)

select-Distinct :
    (p : GroupBuy → Bool) (rows : List GroupBuy)
    → Distinct group_key rows
    → Distinct group_key (select p rows)
select-Distinct p [] d = tt
select-Distinct p (g ∷ rows) d = elim (Bool-cases (p g)) [
  | inl passes ↦ rw passes (has-select g.id p rows d.0, select-Distinct p rows d.1)
  | inr fails ↦ rw fails (select-Distinct p rows d.1)
]

-- A row that a SELECT lists passes its test, and is the row of its key.
listed :
    (p : GroupBuy → Bool) (q : GroupBuy) (rows : List GroupBuy)
    → Distinct group_key rows
    → In q (select p rows)
    → (p q ≡ true) × (fetch group_key q.id rows ≡ some q)
listed p q [] d m = absurd m
listed p q (g ∷ rows) d m = elim (Bool-cases (p g)) [
  | inl passes ↦ elim (rw passes at m) [
    | inl here' ↦ ground (arith, here', ==_refl g.id)
    | inr there ↦
        let found = listed p q rows d.1 there in
        ground (arith, found, fetch-has group_key q.id rows {a = q} found.1)
  ]
  | inr fails ↦
      let found = listed p q rows d.1 (rw fails at m) in
      ground (arith, found, fetch-has group_key q.id rows {a = q} found.1)
]

lists-IsFair :
    (s : System) (now : ℕ) → IsFair s → IsFair (record s { queue = list_expiring_before now s.db })
unfolding list_expiring_before
lists-IsFair s now v = record {
  distinct = v.distinct;
  queue_distinct =
      select-Distinct (λ g. leb g.deadline now && is_running g.status) s.db.group_buys v.distinct;
  rows = λ id k f.
      let r = v.rows id k f in
      record {
        balanced = r.balanced;
        within = r.within;
        guarded = r.guarded;
        unfailed = λ q m same.
            let found = listed _ q s.db.group_buys v.distinct m in
            ground (
              arith,
              found,
              fetch-key group_key id s.db.group_buys {a = k} f,
              running_unfailed q.status,
            );
      };
}

sweeps-IsFair :
    (s : System) (stamp : ℕ) (q : GroupBuy) (qs : List GroupBuy)
    → s.queue ≡ q ∷ qs
    → IsFair s
    → IsFair (record s { db = sweep_one stamp q s.db; queue = qs })
sweeps-IsFair s stamp q qs e v =
    let after = sweep_one-rows stamp q s.db in
    change-IsFair s q.id (swept stamp (sweep_target q)) (swept_key stamp (sweep_target q))
      (sweep_one stamp q s.db) qs after.0 (λ j ne. ap (joined j) after.1) (λ k m. rw e (inr m))
      (rw e at v.queue_distinct).1
      (λ k found.
        swept_row s stamp q qs k (sweep_one stamp q s.db) e v.queue_distinct (v.rows q.id k found)
          (fetch-key group_key q.id s.db.group_buys {a = k} found) after.1)
      v

Step-IsFair : {s t : System} → Step s t → IsFair s → IsFair t
Step-IsFair {s} (reads now gb_id user_id qty {g} e) v =
    reads-IsFair s now gb_id user_id qty {g = g} e v
Step-IsFair {s} (writes new_id now stamp h m e) v = writes-IsFair s new_id now stamp h m e v
Step-IsFair {s} (lists now e) v = lists-IsFair s now v
Step-IsFair {s} (sweeps stamp {g} {gs} e) v = sweeps-IsFair s stamp g gs e v

Reach-IsFair : {s t : System} → IsFair s → Reach s t → IsFair t
Reach-IsFair v here = v
Reach-IsFair v (after r st) = Step-IsFair st (Reach-IsFair v r)

-- From a fair state, in which the keys of the rows and of the sweep's list are distinct, the seats of
-- each row are balanced and no more than its capacity, and what is held or listed agrees with the rows:
-- however requests to join and the sweep job interleave, the seats that the participants of a group
-- buy hold are never more than its capacity; and until it has failed, they and the slots that
-- remain add up to the capacity.
pub no_oversell :
    {s t : System} (id : ℕ) (g : GroupBuy)
    → IsFair s
    → Reach s t
    → fetch group_key id t.db.group_buys ≡ some g
    → (joined g.id t.db.participants ≤ g.capacity)
      × (g.remaining_slots + committed g t.db.participants ≡ g.capacity)
no_oversell id g v r found =
    let row = (Reach-IsFair v r).rows id g found in (row.within, row.balanced)
