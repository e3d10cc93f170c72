-- ===== src/Auth/Table.antt =====
-- The SQL of repo/internal/repository/user.go, session.go and captcha.go that authentication uses.
use task.Base.{
  ℕ, ◌+◌, true, false, not, ◌&&◌, ◌||◌, Option, none, some, List, [], ◌∷◌, ◌++◌, String, codes,
  length, find_first, any, update_where, delete_where, ltb, ◌==◌, str_eq, if◌then◌else◌,
}
use task.Domain.Errors.{Result, ok, err, database, not_found, found}
use task.Domain.Models.{User, Session, CaptchaChallenge, nil_id}

pub record Db : Type 0 where
  pub users : List User
  pub sessions : List Session
  pub captchas : List CaptchaChallenge

-- `userRepo.Create`: `username` is UNIQUE and of 3 to 64 characters, `id` is the primary key.
unfoldable pub insert_user : (new_id now : ℕ) → User → Db → Result (User × Db)
insert_user new_id now u db =
    let row : User = record u {
      id = if u.id == nil_id then new_id else u.id;
      created_at = now;
      updated_at = now;
    } in
    let chars = length (codes u.username) in
    if any (λ v. str_eq v.username row.username || v.id == row.id) db.users
      || ltb chars 3
      || ltb 64 chars
    then err database
    else ok (row, record db { users = db.users ++ row ∷ [] })

abbrev pub get_by_id : ℕ → Db → Result User
get_by_id id db = found (find_first (λ u. u.id == id) db.users)

-- `GetByUsername`: LOWER is the database's; the first of several rows is taken.
unfoldable pub get_by_username : (lower : String → String) → String → Db → Result User
get_by_username lower name db =
    found (find_first (λ u. str_eq (lower u.username) (lower name)) db.users)

abbrev pub coalesce : Option ℕ → Option ℕ → Option ℕ
coalesce (some t) _ = some t
coalesce none t = t

abbrev pub failed_row : (stamp : ℕ) → Option ℕ → User → User
failed_row stamp lock u = record u {
  failed_attempts = u.failed_attempts + 1;
  locked_until = coalesce lock u.locked_until;
  updated_at = stamp;
}

unfoldable pub record_failed_login : (stamp id : ℕ) → Option ℕ → Db → Db
record_failed_login stamp id lock db = record db {
  users = update_where (λ u. u.id == id) (failed_row stamp lock) db.users;
}

abbrev pub reset_row : (stamp login_at : ℕ) → User → User
reset_row stamp login_at u = record u {
  failed_attempts = 0;
  locked_until = none;
  last_login_at = some login_at;
  updated_at = stamp;
}

unfoldable pub reset_failed_login : (stamp id login_at : ℕ) → Db → Db
reset_failed_login stamp id login_at db = record db {
  users = update_where (λ u. u.id == id) (reset_row stamp login_at) db.users;
}

abbrev pub rehashed : (stamp : ℕ) → String → User → User
rehashed stamp hash u = record u {
  password_hash = hash;
  must_rotate_password = false;
  updated_at = stamp;
}

-- `UpdatePasswordHash`
unfoldable pub update_password_hash : (stamp id : ℕ) → String → Db → Result Db
update_password_hash stamp id hash db =
    if any (λ u. u.id == id) db.users
    then ok (record db { users = update_where (λ u. u.id == id) (rehashed stamp hash) db.users })
    else err not_found

-- `sessionRepo.Create`: `id` is the primary key.
unfoldable pub insert_session : Session → Db → Result Db
insert_session s db =
    if any (λ r. str_eq r.id s.id) db.sessions
    then err database
    else ok (record db { sessions = db.sessions ++ s ∷ [] })

abbrev pub get_session : String → Db → Result Session
get_session id db = found (find_first (λ s. str_eq s.id id) db.sessions)

abbrev pub touched : (at new_expires : ℕ) → Session → Session
touched at new_expires s = record s { last_activity_at = at; expires_at = new_expires }

-- `Touch`
unfoldable pub touch_session : String → (at new_expires : ℕ) → Db → Db
touch_session id at new_expires db = record db {
  sessions = update_where (λ s. str_eq s.id id) (touched at new_expires) db.sessions;
}

unfoldable pub delete_session : String → Db → Db
delete_session id db = record db { sessions = delete_where (λ s. str_eq s.id id) db.sessions }

-- `DeleteExpired`
unfoldable pub delete_expired : (before : ℕ) → Db → Db
delete_expired before db = record db {
  sessions = delete_where (λ s. ltb s.expires_at before) db.sessions;
}

-- `captchaRepo.Create`: `token` is the primary key.
unfoldable pub insert_captcha : CaptchaChallenge → Db → Result Db
insert_captcha c db =
    if any (λ r. str_eq r.token c.token) db.captchas
    then err database
    else ok (record db { captchas = db.captchas ++ c ∷ [] })

abbrev pub get_captcha : String → Db → Result CaptchaChallenge
get_captcha token db = found (find_first (λ c. str_eq c.token token) db.captchas)

-- `Consume`
unfoldable pub consume_captcha : String → Db → Result Db
consume_captcha token db =
    if any (λ c. str_eq c.token token && not c.consumed) db.captchas
    then ok (record db {
      captchas =
          update_where (λ c. str_eq c.token token && not c.consumed)
            (λ c. record c { consumed = true }) db.captchas;
    })
    else err not_found
