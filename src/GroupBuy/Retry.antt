-- ===== src/GroupBuy/Retry.antt =====
-- The loop of `Join` in repo/internal/service/groupbuy.go.
use task.Base.{
  ℕ, zero, suc, ◌≡◌, ◌≢◌, inl, inr, true, arith, Bool-cases, Option-cases, find_first, ==_refl,
  ◌==◌,
}
use task.Base.Int.{ℤ, or_one}
use task.Domain.Errors.{err, Result-cases, internal, optimistic_lock}
use task.GroupBuy.Table.{Db, join_read, join_write, join_atomic}
use task.GroupBuy.Service.{join_loop, after_attempt, is_optimistic_lock}

read_not_internal : (now id qty : ℕ) (db : Db) → join_read now id qty db ≢ err internal
unfolding join_read
read_not_internal now id qty db h =
    elim (Option-cases (find_first (λ g. g.id == id) db.group_buys)) [
      | inl eq ↦ ground arith
      | inr (g, eq) ↦ ground arith
    ]

write_not_internal :
    (new_id now stamp id user_id qty version : ℕ) (db : Db)
    → join_write new_id now stamp id user_id qty version db ≢ err internal
unfolding join_write
write_not_internal new_id now stamp id user_id qty version db h =
    elim (Option-cases (find_first (λ g. g.id == id) db.group_buys)) [
      | inl eq ↦ ground arith
      | inr (g, eq) ↦ ground arith
    ]

atomic_not_internal :
    (new_id now stamp id user_id : ℕ) (qty : ℤ) (db db' : Db)
    → join_atomic new_id now stamp id user_id qty db db' ≢ err internal
unfolding join_atomic
atomic_not_internal new_id now stamp id user_id qty db db' h =
    elim (Result-cases (join_read now id (or_one qty) db)) [
      | inl (g, eq) ↦
          ground (arith, write_not_internal new_id now stamp id user_id (or_one qty) g.version db')
      | inr (e, eq) ↦ ground (arith, read_not_internal now id (or_one qty) db)
    ]

-- With at least one attempt, the loop never falls through to the error after it, whatever others
-- commit meanwhile: the last attempt gives its own answer.
join_loop_answers :
    (left new_id now stamp : ℕ) (others : ℕ → Db → Db) (id user_id : ℕ) (qty : ℤ) (db : Db)
    → (join_loop (suc left) new_id now stamp others id user_id qty db).0 ≢ err internal
unfolding join_loop
join_loop_answers zero new_id now stamp others id user_id qty db h =
    elim (Result-cases (join_atomic new_id now stamp id user_id qty db (others 0 db))) [
      | inl (r, eq) ↦ ground arith
      | inr (e, eq) ↦
          ground (arith, atomic_not_internal new_id now stamp id user_id qty db (others 0 db))
    ]
join_loop_answers (suc left) new_id now stamp others id user_id qty db h =
    elim (Result-cases (join_atomic new_id now stamp id user_id qty db (others (suc left) db))) [
      | inl (r, eq) ↦ ground arith
      | inr (e, eq) ↦ elim (Bool-cases (is_optimistic_lock e)) [
        | inl again ↦ ground (
          arith,
          join_loop_answers left new_id now stamp others id user_id qty (others (suc left) db),
        )
        | inr stop ↦
            ground
              (arith, atomic_not_internal new_id now stamp id user_id qty db (others (suc left) db))
      ]
    ]

atomic_undisturbed :
    (new_id now stamp id user_id : ℕ) (qty : ℤ) (db : Db)
    → join_atomic new_id now stamp id user_id qty db db ≢ err optimistic_lock
unfolding join_atomic join_read join_write
atomic_undisturbed new_id now stamp id user_id qty db h =
    elim (Option-cases (find_first (λ g. g.id == id) db.group_buys)) [
      | inl eq ↦ ground arith
      | inr (g, eq) ↦ ground (arith, ==_refl g.version)
    ]

-- When nothing is committed between the read and the write of an attempt, the loop answers what its
-- first attempt answers, and that is never a lost race for the version.
join_loop_undisturbed :
    (left new_id now stamp id user_id : ℕ) (qty : ℤ) (db : Db)
    → (join_loop (suc left) new_id now stamp (λ _ d. d) id user_id qty db
        ≡ after_attempt db true
            (err internal, db)
            (join_atomic new_id now stamp id user_id qty db db))
      × ((join_loop (suc left) new_id now stamp (λ _ d. d) id user_id qty db).0
          ≢ err optimistic_lock)
unfolding join_loop
join_loop_undisturbed left new_id now stamp id user_id qty db =
    elim (Result-cases (join_atomic new_id now stamp id user_id qty db db)) [
      | inl (r, eq) ↦ ground arith
      | inr (e, eq) ↦ elim (Bool-cases (is_optimistic_lock e)) [
        | inl again ↦ absurd (ground (arith, atomic_undisturbed new_id now stamp id user_id qty db))
        | inr stop ↦ ground arith
      ]
    ]
