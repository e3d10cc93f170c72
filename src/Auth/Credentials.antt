-- ===== src/Auth/Credentials.antt =====
-- Round trips of passwords: `Register`, `ChangePassword` and `Login` of repo/internal/service/auth.go.
use mathlib.Core.Path.{subst}
use Prim.Native.String.{len}
use task.Base.{
  ℕ, ◌+◌, ◌≡◌, refl, sym, ◌∙◌, inl, inr, true, false, ◌||◌, some, none, [], ◌∷◌, ◌++◌, String,
  arith, Bool-cases, Option-cases, find_first, any, str_eq, ltb, ◌==◌, find_first-update,
  update_where, find_first-append_new, any-none, str_eq_refl, ==_refl,
}
use task.Domain.Errors.{Result, ok, Result-cases}
use task.Domain.Models.{User, Session, captcha_required_for, is_locked}
use task.Domain.Password.{validate_password}
use task.Auth.Table.{
  Db, insert_user, get_by_username, reset_failed_login, rehashed, update_password_hash,
  insert_session, get_session,
}
use task.Auth.Gate.{login_known}
use task.Auth.Service.{
  AuthService, Library, Call, Faults, LoginInput, register, login, login_gate, check_password,
  login_succeeded, change_password, get_by_username_, reset_failed, sessions_create, users_get,
  update_hash,
}

-- What the service relies on in the package bcrypt: a hash matches the password that it was made from.
pub record Matches (lib : Library) : Type 0 where
  pub law :
      (p h : String)
      → lib.generate_from_password p ≡ some h
      → lib.compare_hash_and_password h p ≡ true

-- A user whom `Register` has created is found by that name, with a hash of the password, unlocked, and
-- with no failed attempt.
registered :
    (s : AuthService) (down : Faults) (now new_id : ℕ) (username password : String) (db : Db)
    {u : User} {db' : Db}
    → Matches s.lib
    → register s down now new_id username password db ≡ ok (u, db')
    → (get_by_username s.lib.lower (s.lib.trim_space username) db' ≡ ok u)
      × (s.lib.compare_hash_and_password u.password_hash password ≡ true)
      × (u.failed_attempts ≡ 0)
      × (u.locked_until ≡ none)
      × (db'.sessions ≡ db.sessions)
      × (validate_password s.lib.unicode password ≡ ok tt)
unfolding register get_by_username insert_user
registered s down now new_id username password db {u} {db'} m h =
    let name = s.lib.trim_space username in
    elim (Bool-cases (ltb (len name) 3 || ltb 64 (len name))) [
      | inl bad ↦ absurd (ground arith)
      | inr good ↦ elim (Result-cases (validate_password s.lib.unicode password)) [
        | inr (e, weak) ↦ absurd (ground arith)
        | inl (_, strong) ↦ elim (Bool-cases (down get_by_username_)) [
          | inl dead ↦ absurd (ground arith)
          | inr up ↦
              elim (Option-cases
                (find_first (λ v. str_eq (s.lib.lower v.username) (s.lib.lower name)) db.users)) [
                  | inr (v, taken) ↦ absurd (ground arith)
                  | inl free ↦ elim (Option-cases (s.lib.generate_from_password password)) [
                    | inl long ↦ absurd (ground arith)
                    | inr (hash, made) ↦
                        let new =
                          find_first-append_new
                            (λ v. str_eq (s.lib.lower v.username) (s.lib.lower name)) db.users u
                            free in
                        (
                          ground (arith, new, str_eq_refl (s.lib.lower name)),
                          ground (arith, m.law password hash),
                          ground arith,
                          ground arith,
                          ground arith,
                          strong,
                        )
                  ]
                ]
        ]
      ]
    ]

-- What a login gives that has the right password and meets no obstacle.
pub record LoggedIn (s : AuthService) (now : ℕ) (id : String) (u : User)
    (r : Result (User × Session) × Db) : Type 0 where
  pub user : User
  pub sess : Session
  pub rows : Db
  pub answer : r ≡ (ok (user, sess), rows)
  pub same_user : user.id ≡ u.id
  pub own : sess.user_id ≡ u.id
  pub named : sess.id ≡ id
  pub kept : get_session id rows ≡ ok sess

session_created :
    (s : AuthService) (down : Faults) (now stamp : ℕ) (id : String) (input : LoginInput) (u : User)
    (db : Db)
    → ((c : Call) → down c ≡ false)
    → any (λ r. str_eq r.id id) db.sessions ≡ false
    → s.lib.compare_hash_and_password u.password_hash input.password ≡ true
    → LoggedIn s now id u (check_password s down now stamp (some id) input u db)
unfolding check_password login_succeeded insert_session reset_failed_login
session_created s down now stamp id input u db up fresh right =
    let sess : Session = record {
      id = id;
      user_id = u.id;
      created_at = now;
      last_activity_at = now;
      expires_at = now + s.cfg.session_inactivity;
      user_agent = input.user_agent;
      ip = input.ip;
    } in
    let db' = reset_failed_login stamp u.id now db in
    record {
      user = record u { failed_attempts = 0; locked_until = none; last_login_at = some now };
      sess = sess;
      rows = record db' { sessions = db.sessions ++ sess ∷ [] };
      answer = ground (arith, up reset_failed, up sessions_create);
      same_user = refl;
      own = refl;
      named = refl;
      kept = ground (
        arith,
        find_first-append_new (λ r. str_eq r.id id) db.sessions sess
            (any-none (λ r. str_eq r.id id) db.sessions fresh),
        str_eq_refl id,
      );
    }

pub login_succeeds :
    (s : AuthService) (down : Faults) (now stamp : ℕ) (id : String) (input : LoginInput) (u : User)
    (db : Db)
    → ((c : Call) → down c ≡ false)
    → any (λ r. str_eq r.id id) db.sessions ≡ false
    → get_by_username s.lib.lower (s.lib.trim_space input.username) db ≡ ok u
    → is_locked u now ≡ false
    → captcha_required_for u ≡ false
    → s.lib.compare_hash_and_password u.password_hash input.password ≡ true
    → LoggedIn s now id u (login s down now stamp (some id) input db)
unfolding login_gate
login_succeeds s down now stamp id input u db up fresh known free easy right =
    let whole : login s down now stamp (some id) input db
        ≡ check_password s down now stamp (some id) input u db =
      login_known s down now stamp (some id) input db (up get_by_username_) known
      ∙ rw (free, easy) in
    subst (LoggedIn s now id u) (sym whole)
      (session_created s down now stamp id input u db up fresh right)

-- Who registers can log in: when `Register` answers with a user, a login with the same name and password,
-- at any time, gives a session of that user, and stores it under the new token. The token is not taken,
-- the calls of the database do not fail, and a hash matches the password that it was made from.
pub register_then_login :
    (s : AuthService) (down : Faults) (now new_id now' stamp : ℕ) (id : String) (input : LoginInput)
    (db : Db) {u : User} {db' : Db}
    → Matches s.lib
    → ((c : Call) → down c ≡ false)
    → any (λ r. str_eq r.id id) db.sessions ≡ false
    → register s down now new_id input.username input.password db ≡ ok (u, db')
    → LoggedIn s now' id u (login s down now' stamp (some id) input db')
unfolding is_locked captcha_required_for
register_then_login s down now new_id now' stamp id input db {u} {db'} m up fresh h =
    let (known, right, zero, free, kept, _) =
      registered s down now new_id input.username input.password db m h in
    login_succeeds s down now' stamp id input u db' up (rw kept fresh) known (ground arith)
      (ground arith) right

get_by_username-rehashed :
    (lower : String → String) (name : String) (stamp : ℕ) (hash : String) (db : Db) {u : User}
    → get_by_username lower name db ≡ ok u
    → get_by_username lower name
        (record db { users = update_where (λ v. v.id == u.id) (rehashed stamp hash) db.users })
      ≡ ok (rehashed stamp hash u)
unfolding get_by_username
get_by_username-rehashed lower name stamp hash db {u} h =
    elim (Option-cases (find_first (λ v. str_eq (lower v.username) (lower name)) db.users)) [
      | inl eq ↦ absurd (ground arith)
      | inr (v, eq) ↦
          let seen =
            find_first-update (λ w. str_eq (lower w.username) (lower name)) (λ w. w.id == u.id)
              (rehashed stamp hash) (λ w. refl) db.users in
          ground (arith, seen, ==_refl u.id)
    ]

renamed :
    {s : AuthService} {now stamp : ℕ} {id hash : String} {u : User}
    {r : Result (User × Session) × Db}
    → LoggedIn s now id (rehashed stamp hash u) r
    → LoggedIn s now id u r
renamed g = record {
  user = g.user;
  sess = g.sess;
  rows = g.rows;
  answer = g.answer;
  same_user = g.same_user;
  own = g.own;
  named = g.named;
  kept = g.kept;
}

-- After `ChangePassword`, the user logs in with the new password, unless locked or asked for a captcha.
-- The token is not taken, the calls of the database do not fail, and a hash matches its password.
pub change_password_then_login :
    (s : AuthService) (down : Faults) (now stamp stamp' : ℕ) (id current : String)
    (input : LoginInput) (u : User) (db : Db) {db' : Db}
    → Matches s.lib
    → ((c : Call) → down c ≡ false)
    → any (λ r. str_eq r.id id) db.sessions ≡ false
    → get_by_username s.lib.lower (s.lib.trim_space input.username) db ≡ ok u
    → is_locked u now ≡ false
    → captcha_required_for u ≡ false
    → change_password s down stamp u.id current input.password db ≡ ok db'
    → LoggedIn s now id u (login s down now stamp' (some id) input db')
unfolding change_password update_password_hash is_locked captcha_required_for
change_password_then_login s down now stamp stamp' id current input u db {db'} m up fresh known free
      easy h =
    elim (Option-cases (find_first (λ v. v.id == u.id) db.users)) [
      | inl gone ↦ absurd (ground (arith, up users_get))
      | inr (v, there) ↦
          elim (Bool-cases (s.lib.compare_hash_and_password v.password_hash current)) [
            | inr wrong ↦ absurd (ground (arith, up users_get))
            | inl right ↦ elim (Result-cases (validate_password s.lib.unicode input.password)) [
              | inr (e, weak) ↦ absurd (ground (arith, up users_get))
              | inl (_, strong) ↦
                  elim (Option-cases (s.lib.generate_from_password input.password)) [
                    | inl long ↦ absurd (ground (arith, up users_get))
                    | inr (hash, made) ↦
                        let rows : db' ≡ record db {
                          users = update_where (λ w. w.id == u.id) (rehashed stamp hash) db.users;
                        } =
                          ground (arith, up users_get, up update_hash) in
                        rw rows (
                          renamed (
                            login_succeeds s down now stamp' id input (rehashed stamp hash u)
                              (record db {
                                users =
                                    update_where (λ w. w.id == u.id) (rehashed stamp hash) db.users;
                              })
                              up fresh
                              (get_by_username-rehashed s.lib.lower
                                (s.lib.trim_space input.username) stamp hash db known)
                              free easy (m.law input.password hash made)))
                  ]
            ]
          ]
    ]
