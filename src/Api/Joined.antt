-- ===== src/Api/Joined.antt =====
-- What Join of repo/internal/api/handlers/groupbuy.go answers.
use task.Base.{
  any, any-some, ℕ, zero, suc, ◌≡◌, refl, true, false, Bool, Bool-cases, Option-cases, inl, inr,
  not, ◌&&◌, ◌||◌, ◌==◌, ltb, find_first, String, arith,
}
use task.Base.Int.{ℤ, pos, or_one}
use task.Domain.Errors.{
  Error, Result, ok, err, not_found, conflict, deadline_passed, oversold, optimistic_lock,
  already_joined, blacklisted,
}
use task.Domain.Models.{User}
use task.Domain.GroupBuys.{GroupBuy, Participant, is_running}
use task.GroupBuy.Table.{Db, join_read, join_write, join_atomic, has_joined}
use task.GroupBuy.Service.{
  Call, join_loop, after_attempt, is_optimistic_lock, join as join_group_buy,
}
use task.Analytics.Table.{Db as Events}
use task.Analytics.Service.{AnalyticsService}
use task.Api.Requests.{Parsers, Response, answer, refuse}
use task.Api.Refusals.{write_service_error, write_group_buy_error}
use task.Api.Spared.{Spared, ok-Spared, err-Spared, bind-Spared, guard-Spared}
use task.Api.Blamed.{is_client_error}
use task.Api.GroupBuys.{Meets, join, joined}

abbrev Blames : Error → Type 0
Blames e = is_client_error (write_group_buy_error e) ≡ true

blamed : (e met : Error) → Blames met → met ≡ e → Blames e
blamed e met h same = rw (← same) h

read-Spared : (now id qty : ℕ) (db : Db) → Spared Blames (join_read now id qty db)
unfolding join_read write_group_buy_error write_service_error
read-Spared now id qty db = elim (Option-cases (find_first (λ g. g.id == id) db.group_buys)) [
  | inl gone ↦ rw gone (err-Spared not_found refl)
  | inr (g, there) ↦ rw there (
      guard-Spared (not (is_running g.status)) conflict _ refl (
        guard-Spared (not (ltb now g.deadline)) deadline_passed _ refl
          (guard-Spared (ltb g.remaining_slots qty) oversold _ refl (ok-Spared g))))
]

write-Spared :
    (new_id now stamp id user_id qty version : ℕ) (db : Db)
    → any (λ (u : User). u.id == user_id) db.users ≡ true
    → Spared Blames (join_write new_id now stamp id user_id qty version db)
unfolding join_write write_group_buy_error write_service_error
write-Spared new_id now stamp id user_id qty version db stored = record {
  spares = λ e h. elim (Option-cases (find_first (λ g. g.id == id) db.group_buys)) [
    | inl gone ↦ blamed e optimistic_lock refl (ground arith)
    | inr (g, there) ↦ elim (Bool-cases (not (g.version == version) || ltb g.remaining_slots qty)) [
      | inl lost ↦ blamed e optimistic_lock refl (ground arith)
      | inr held ↦ elim (Bool-cases (has_joined id user_id db.participants)) [
        | inl twice ↦ blamed e already_joined refl (ground arith)
        | inr once ↦ absurd (ground arith)
      ]
    ]
  ];
}

atomic-Spared :
    (new_id now stamp id user_id : ℕ) (qty : ℤ) (before later : Db)
    → any (λ (u : User). u.id == user_id) later.users ≡ true
    → Spared Blames (join_atomic new_id now stamp id user_id qty before later)
unfolding join_atomic
atomic-Spared new_id now stamp id user_id qty before later stored =
    bind-Spared (join_read now id (or_one qty) before) _ (read-Spared now id (or_one qty) before)
      (λ g _. write-Spared new_id now stamp id user_id (or_one qty) g.version later stored)

after-Spared :
    (db : Db) (last : Bool) (again : Result (GroupBuy × Participant) × Db)
    (r : Result (GroupBuy × Participant × Db))
    → Spared Blames r
    → (last ≡ false → Spared Blames again.0)
    → Spared Blames (after_attempt db last again r).0
after-Spared db last again (ok (g, part, db')) h more = ok-Spared (g, part)
after-Spared db last again (err e) h more = elim (Bool-cases (is_optimistic_lock e && not last)) [
  | inl retry ↦ rw retry (more (ground arith))
  | inr stop ↦ rw stop (err-Spared e (h.spares e refl))
]

-- What others commit leaves the user's row in the table.
abbrev pub Keeps : (user_id : ℕ) → (ℕ → Db → Db) → Type 0
Keeps user_id others =
    (left : ℕ) (db : Db)
    → any (λ (u : User). u.id == user_id) db.users ≡ true
    → any (λ (u : User). u.id == user_id) (others left db).users ≡ true

loop-Spared :
    (left new_id now stamp : ℕ) (others : ℕ → Db → Db) (id user_id : ℕ) (qty : ℤ) (db : Db)
    → Keeps user_id others
    → any (λ (u : User). u.id == user_id) db.users ≡ true
    → Spared Blames (join_loop (suc left) new_id now stamp others id user_id qty db).0
unfolding join_loop
loop-Spared zero new_id now stamp others id user_id qty db keeps stored =
    after-Spared _ _ _ _
      (atomic-Spared new_id now stamp id user_id qty db (others 0 db) (keeps 0 db stored))
      (λ (h : true ≡ false). absurd (cc))
loop-Spared (suc left) new_id now stamp others id user_id qty db keeps stored =
    let still = keeps (suc left) db stored in
    after-Spared _ _ _ _
      (atomic-Spared new_id now stamp id user_id qty db (others (suc left) db) still)
      (λ _.
        loop-Spared left new_id now stamp others id user_id qty (others (suc left) db) keeps still)

-- The answer is a success, or a status of 400, 403, 404 or 409.
abbrev pub is_settled : {A : Type 0} → Response A → Bool
is_settled (answer status a) = status == 200
is_settled (refuse status) = is_client_error status

joined-settled :
    (s : AnalyticsService) (w : Meets) (user : User) (id : ℕ) (events : Events)
    (r : Result (GroupBuy × Participant) × Db)
    → Spared Blames r.0
    → is_settled (joined s w user id events r).0 ≡ true
joined-settled s w user id events (ok pair, db) h = refl
joined-settled s w user id events (err e, db) h = h.spares e refl

service-Spared :
    (new_id now stamp : ℕ) (others : ℕ → Db → Db) (id user_id : ℕ) (qty : ℤ) (db : Db)
    → Keeps user_id others
    → Spared Blames (join_group_buy false new_id now stamp others id user_id qty db).0
unfolding join_group_buy write_group_buy_error write_service_error
service-Spared new_id now stamp others id user_id qty db keeps =
    elim (Option-cases (find_first (λ u. u.id == user_id) db.users)) [
      | inl gone ↦ rw gone (err-Spared not_found refl)
      | inr (u, there) ↦ elim (Bool-cases u.is_blacklisted) [
        | inl barred ↦ rw (there, barred) (err-Spared blacklisted refl)
        | inr free ↦
            rw (there, free)
              (loop-Spared 2 new_id now stamp others id user_id qty db keeps
                (any-some (λ (u : User). u.id == user_id) db.users there))
      ]
    ]

-- When the database answers, and what other requests and jobs commit between the reads and the writes
-- of the attempts does not delete the row of the user, POST /api/group-buys/:id/join never answers with a
-- server error: whatever the request, and whatever else is committed, it answers 200, or 400, 403, 404 or
-- 409.
pub join-settled :
    (s : AnalyticsService) (p : Parsers) (w : Meets) (user : User) (text : String) (quantity : ℤ)
    (db : Db) (events : Events)
    → w.down Call.users_get ≡ false
    → Keeps user.id w.others
    → is_settled (join s p w user text quantity db events).0 ≡ true
unfolding join
join-settled s p w user text quantity db events up keeps = elim (Option-cases (p.uuid text)) [
  | inl bad ↦ rw bad refl
  | inr (id, read) ↦
      rw (read, up)
        (joined-settled s w user id events _ (
          service-Spared w.new_id w.now w.stamp w.others id user.id (pos (or_one quantity)) db
            keeps))
]
