-- ===== src/GroupBuy/Change.antt =====
-- How one UPDATE of repo/internal/service/groupbuy.go and repo/internal/repository/groupbuy.go bears on the
-- balance of seats, and what a read adds.
use task.Base.{
  ℕ, ◌+◌, ◌≡◌, refl, ◌≢◌, inl, inr, true, false, List, [], ◌∷◌, ◌++◌, ◌==◌, sum_of-append, fetch,
  Distinct, some, arith, Option-cases, Bool-cases, ==_iff, change, change-Distinct, fetch-change,
  fetch-change_ne, fetch-change-none, fetch-key,
}
use task.Base.Int.{ℤ, or_one}
use task.Domain.Errors.{ok}
use task.Domain.GroupBuys.{GroupBuy, GroupBuyStatus, Participant, is_running, failed}
use task.GroupBuy.Table.{Db, join_read}
use task.GroupBuy.Service.{is_failed}
use task.GroupBuy.System.{In, System, group_key, seats_of, joined, RowFair, IsFair}

pub running_unfailed : (s : GroupBuyStatus) → is_running s ≡ true → is_failed s ≡ false
unfolding is_running
running_unfailed failed h = cc
running_unfailed _ h = refl

pub joined-append :
    (id : ℕ) (ps : List Participant) (p : Participant)
    → joined id (ps ++ p ∷ []) ≡ joined id ps + seats_of id p
unfolding joined
joined-append id ps p = omega (arith, sum_of-append (seats_of id) ps (p ∷ []))

-- What `join_read` has found.
pub read_found :
    (now gb_id qty : ℕ) (db : Db) {g : GroupBuy}
    → join_read now gb_id qty db ≡ ok g
    → (fetch group_key gb_id db.group_buys ≡ some g) × (is_running g.status ≡ true)
unfolding join_read
read_found now gb_id qty db h = elim (Option-cases (fetch group_key gb_id db.group_buys)) [
  | inl eq ↦ absurd (ground arith)
  | inr (g, eq) ↦ ground arith
]

pub reads-IsFair :
    (s : System) (now gb_id user_id : ℕ) (qty : ℤ) {g : GroupBuy}
    → join_read now gb_id (or_one qty) s.db ≡ ok g
    → IsFair s
    → IsFair (record s {
      held =
          record { gb_id = gb_id; user_id = user_id; qty = or_one qty; version = g.version }
          ∷ s.held;
    })
reads-IsFair s now gb_id user_id qty {g} e v =
    let found = read_found now gb_id (or_one qty) s.db e in
    record {
      distinct = v.distinct;
      queue_distinct = v.queue_distinct;
      rows = λ id k f.
          let r = v.rows id k f in
          record {
            balanced = r.balanced;
            within = r.within;
            guarded = λ h m same. elim m [
              | inl new ↦ ground (
                arith,
                found,
                fetch-key group_key id s.db.group_buys {a = k} f,
                running_unfailed g.status,
              )
              | inr old ↦ r.guarded h old same
            ];
            unfailed = r.unfailed;
          };
    }

-- An UPDATE of one row, with the participants and the queue that it leaves.
module _ (s : System) (id : ℕ) (f : GroupBuy → GroupBuy)
    (same_key : (g : GroupBuy) → group_key (f g) ≡ group_key g) (db' : Db) (queue' : List GroupBuy)
    (rows_after : db'.group_buys ≡ change group_key id f s.db.group_buys)
    (others_after : (j : ℕ) → j ≢ id → joined j db'.participants ≡ joined j s.db.participants)
    (queue_after : (q : GroupBuy) → In q queue' → In q s.queue)
    (queue_distinct' : Distinct group_key queue') where
  pub change-IsFair :
      ((g : GroupBuy)
        → fetch group_key id s.db.group_buys ≡ some g
        → RowFair (record s { db = db'; queue = queue' }) (f g))
      → IsFair s
      → IsFair (record s { db = db'; queue = queue' })
  change-IsFair this v = record {
    distinct = rw rows_after (change-Distinct group_key id f same_key s.db.group_buys v.distinct);
    queue_distinct = queue_distinct';
    rows = λ j k e. elim (Bool-cases (j == id)) [
      | inl at_id ↦ elim (Option-cases (fetch group_key id s.db.group_buys)) [
        | inl absent ↦ absurd (
            ground (
              arith,
              rows_after,
              (==_iff j id).0 at_id,
              fetch-change-none group_key id f same_key s.db.group_buys absent,
            ))
        | inr (g, found) ↦
            let changed : k ≡ f g = ground (
              arith,
              rows_after,
              (==_iff j id).0 at_id,
              fetch-change group_key id f same_key s.db.group_buys {a = g} found,
            ) in
            rw changed (this g found)
      ]
      | inr away ↦
          let ne : j ≢ id = ground arith in
          let found : fetch group_key j s.db.group_buys ≡ some k =
            ground
              (arith, rows_after, fetch-change_ne group_key id j f same_key s.db.group_buys ne) in
          let key_of_k = fetch-key group_key j s.db.group_buys {a = k} found in
          let r = v.rows j k found in
          record {
            balanced = ground (arith, r.balanced, others_after j ne);
            within = ground (arith, r.within, others_after j ne);
            guarded = r.guarded;
            unfailed = λ q m. r.unfailed q (queue_after q m);
          }
    ];
  }
