-- ===== src/Auth/Lockout.antt =====
-- Locking an account: `Login` of repo/internal/service/auth.go, `RecordFailedLogin` of
-- repo/internal/repository/user.go.
use task.Base.{
  ℕ, ◌+◌, ◌≤◌, ◌<◌, ◌≡◌, refl, ◌∙◌, inl, inr, true, false, Option, some, String, arith,
  Option-cases, find_first, str_eq, ◌==◌, find_first-update, ==_refl,
}
use task.Domain.Errors.{ok, err, locked}
use task.Domain.Models.{User, is_locked}
use task.Auth.Table.{Db, get_by_username, failed_row, record_failed_login}
use task.Auth.Gate.{login_known, gate_passed}
use task.Auth.Service.{
  AuthService, Call, Faults, LoginInput, login, login_gate, check_password, login_failed,
  lock_until, get_by_username_, record_failed,
}

-- An update of users that keeps their names is found by name.
get_by_username-failed :
    (lower : String → String) (name : String) (stamp : ℕ) (lock : Option ℕ) (db : Db) {u : User}
    → get_by_username lower name db ≡ ok u
    → get_by_username lower name (record_failed_login stamp u.id lock db)
      ≡ ok (failed_row stamp lock u)
unfolding get_by_username record_failed_login
get_by_username-failed lower name stamp lock db {u} h =
    elim (Option-cases (find_first (λ v. str_eq (lower v.username) (lower name)) db.users)) [
      | inl eq ↦ absurd (ground arith)
      | inr (v, eq) ↦
          let seen =
            find_first-update (λ w. str_eq (lower w.username) (lower name)) (λ w. w.id == u.id)
              (failed_row stamp lock) (λ w. refl) db.users in
          ground (arith, seen, ==_refl u.id)
    ]

locked_refused :
    (s : AuthService) (down : Faults) (now stamp : ℕ) (token : Option String) (input : LoginInput)
    (db : Db) {u : User}
    → down get_by_username_ ≡ false
    → get_by_username s.lib.lower (s.lib.trim_space input.username) db ≡ ok u
    → is_locked u now ≡ true
    → login s down now stamp token input db ≡ (err locked, db)
unfolding login_gate
locked_refused s down now stamp token input db up e shut =
    login_known s down now stamp token input db up e ∙ rw shut

failure_recorded :
    (s : AuthService) (down : Faults) (now stamp : ℕ) (token : Option String) (input : LoginInput)
    (u : User) (db : Db)
    → down record_failed ≡ false
    → s.lib.compare_hash_and_password u.password_hash input.password ≡ false
    → s.cfg.lockout_threshold ≤ u.failed_attempts + 1
    → check_password s down now stamp token input u db
      ≡ (err locked, record_failed_login stamp u.id (some (now + s.cfg.lockout_duration)) db)
unfolding check_password login_failed lock_until
failure_recorded s down now stamp token input u db up wrong many = ground arith

-- A login with the wrong password, for a user who has failed one time less than the threshold or more
-- often, is answered with the lock; and until the lockout time is over, every login for that user,
-- in any spelling of the name that the database takes for the same, is refused for the lock, also with
-- the right password, and changes nothing. The gate was passed, and the calls of the database do not fail.
pub lockout_holds :
    (s : AuthService) (down : Faults) (now now' stamp stamp' : ℕ) (token token' : Option String)
    (input input' : LoginInput) (db mid : Db) {u : User}
    → ((c : Call) → down c ≡ false)
    → get_by_username s.lib.lower (s.lib.trim_space input.username) db ≡ ok u
    → login_gate s down now input u db ≡ (ok tt, mid)
    → s.lib.compare_hash_and_password u.password_hash input.password ≡ false
    → s.cfg.lockout_threshold ≤ u.failed_attempts + 1
    → s.lib.lower (s.lib.trim_space input'.username) ≡ s.lib.lower (s.lib.trim_space input.username)
    → now' < now + s.cfg.lockout_duration
    → let (answer, db') = login s down now stamp token input db in
      (answer ≡ err locked) × (login s down now' stamp' token' input' db' ≡ (err locked, db'))
unfolding is_locked get_by_username
lockout_holds s down now now' stamp stamp' token token' input input' db mid {u} up known gate wrong
      many same soon =
    let (_, users, _, _) = gate_passed s down now input u db gate in
    let lock = some (now + s.cfg.lockout_duration) in
    let first : login s down now stamp token input db
        ≡ (err locked, record_failed_login stamp u.id lock mid) =
      login_known s down now stamp token input db (up get_by_username_) known
      ∙ (rw gate
          (failure_recorded s down now stamp token input u mid (up record_failed) wrong many)) in
    let found =
      get_by_username-failed s.lib.lower (s.lib.trim_space input'.username) stamp lock mid {u = u}
        (ground (arith, users, known, same)) in
    rw first (
      refl,
      locked_refused s down now' stamp' token' input' (record_failed_login stamp u.id lock mid)
          (up get_by_username_) found (ground arith),
    )
