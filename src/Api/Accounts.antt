-- ===== src/Api/Accounts.antt =====
-- repo/internal/api/handlers/auth.go. The binding of a request is given: `none` is an error of it.
use task.Base.{ℕ, ◌/◌, Bool, true, Option, none, some, String}
use task.Base.Int.{ℤ, pos, negsuc}
use task.Domain.Errors.{
  Error, Result, ok, err, password_policy, invalid_input, conflict, credential_invalid, locked,
  captcha_required, captcha_invalid,
}
use task.Domain.Models.{User, Session, CaptchaChallenge, second}
use task.Auth.Table.{Db}
use task.Auth.Service.{
  AuthService, Faults, LoginInput, register as register_user, login as login_user, change_password,
  logout as logout_session, issue_captcha, ignoring,
}
use task.Api.Requests.{Response, answer, refuse}

-- What a request to these handlers meets beside the text of it: the clocks, the random generator, and the
-- setting COOKIE_SECURE.
pub record Meets : Type 0 where
  pub down : Faults
  pub now : ℕ
  pub stamp : ℕ
  pub new_id : ℕ
  pub token : Option String
  pub a : Option ℕ
  pub b : Option ℕ
  pub captcha_token : Option String
  pub cookie_secure : Bool
  pub user_agent : String
  pub client_ip : String

pub record Cookie : Type 0 where
  pub value : String
  pub max_age : ℤ
  pub secure : Bool
  pub http_only : Bool

pub record Reply (A : Type 0) : Type 0 where
  pub response : Response A
  pub cookie : Option Cookie
  pub db : Db

abbrev pub plain_reply : {A : Type 0} → Response A → Db → Reply A
plain_reply r db = record { response = r; cookie = none; db = db }

-- The answer with a fresh challenge, or 500 if none can be made.
abbrev pub with_challenge : {A : Type 0} → Db → Result (CaptchaChallenge × Db) → Reply A
with_challenge db (err e) = plain_reply (refuse 500) db
with_challenge db (ok (c, db')) = plain_reply (refuse 401) db'

-- `Captcha` and `writeAuthError` both mint one.
abbrev pub minted : AuthService → Meets → Db → Result (CaptchaChallenge × Db)
minted s w db = issue_captcha s w.down w.now w.a w.b w.captcha_token db

unfoldable pub write_auth_error : {A : Type 0} → AuthService → Meets → Error → Db → Reply A
write_auth_error s w password_policy db = plain_reply (refuse 400) db
write_auth_error s w invalid_input db = plain_reply (refuse 400) db
write_auth_error s w conflict db = plain_reply (refuse 409) db
write_auth_error s w credential_invalid db = plain_reply (refuse 401) db
write_auth_error s w locked db = plain_reply (refuse 423) db
write_auth_error s w captcha_required db = with_challenge db (minted s w db)
write_auth_error s w captcha_invalid db = with_challenge db (minted s w db)
write_auth_error s w _ db = plain_reply (refuse 500) db

abbrev pub registered : AuthService → Meets → Db → Result (User × Db) → Reply User
registered s w db (ok (u, db')) = plain_reply (answer 201 u) db'
registered s w db (err e) = write_auth_error s w e db

-- `Register`: a name and a password.
unfoldable pub register : AuthService → Meets → Option (String × String) → Db → Reply User
register s w none db = plain_reply (refuse 400) db
register s w (some (username, password)) db =
    registered s w db (register_user s w.down w.now w.new_id username password db)

pub record LoginRequest : Type 0 where
  pub username : String
  pub password : String
  pub captcha_token : String
  pub captcha_answer : String

abbrev pub session_cookie : AuthService → Meets → Session → Cookie
session_cookie s w sess = record {
  value = sess.id;
  max_age = pos (s.cfg.session_inactivity / second);
  secure = w.cookie_secure;
  http_only = true;
}

-- The body is the user and the time at which the session ends.
abbrev pub logged_in : AuthService → Meets → Result (User × Session) × Db → Reply (User × ℕ)
logged_in s w (ok (u, sess), db) = record {
  response = answer 200 (u, sess.expires_at);
  cookie = some (session_cookie s w sess);
  db = db;
}
logged_in s w (err e, db) = write_auth_error s w e db

abbrev pub login_input : Meets → LoginRequest → LoginInput
login_input w req = record {
  username = req.username;
  password = req.password;
  captcha_token = req.captcha_token;
  captcha_answer = req.captcha_answer;
  user_agent = w.user_agent;
  ip = w.client_ip;
}

-- `Login`
unfoldable pub login : AuthService → Meets → Option LoginRequest → Db → Reply (User × ℕ)
login s w none db = plain_reply (refuse 400) db
login s w (some req) db =
    logged_in s w (login_user s w.down w.now w.stamp w.token (login_input w req) db)

abbrev pub ended : Meets → Option String → Db → Db
ended w none db = db
ended w (some id) db = ignoring db (logout_session w.down id db)

-- `Logout`: the cookie is cleared, and an error of the service is dropped.
unfoldable pub logout : Meets → (cookie : Option String) → Db → Reply (Unit {0})
logout w cookie db = record {
  response = answer 200 tt;
  cookie =
      some (record { value = ""; max_age = negsuc 0; secure = w.cookie_secure; http_only = true });
  db = ended w cookie db;
}

abbrev pub changed : AuthService → Meets → Db → Result Db → Reply (Unit {0})
changed s w db (ok db') = plain_reply (answer 200 tt) db'
changed s w db (err e) = write_auth_error s w e db

-- `ChangePassword`: the current password and the new one.
unfoldable pub change_own_password :
    AuthService → Meets → User → Option (String × String) → Db → Reply (Unit {0})
change_own_password s w user none db = plain_reply (refuse 400) db
change_own_password s w user (some (current, next)) db =
    changed s w db (change_password s w.down w.stamp user.id current next db)

-- `Captcha`
abbrev pub challenge_reply : Db → Result (CaptchaChallenge × Db) → Reply CaptchaChallenge
challenge_reply db (err e) = plain_reply (refuse 500) db
challenge_reply db (ok (c, db')) = plain_reply (answer 200 c) db'

unfoldable pub captcha : AuthService → Meets → Db → Reply CaptchaChallenge
captcha s w db = challenge_reply db (minted s w db)
