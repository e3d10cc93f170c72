-- ===== src/Auth/Examples.antt =====
-- Concrete runs of repo/internal/service/auth.go.
use task.Base.{
  ℕ, ◌+◌, ◌*◌, ◌≤◌, ◌≡◌, ◌↔◌, refl, inl, Bool, true, false, ◌&&◌, some, none, [], ◌∷◌, String,
  arith, str_eq, leb, ◌==◌, str_eq_refl,
}
use task.Domain.Errors.{ok, err, locked, captcha_invalid, session_expired, unauthorized}
use task.Domain.Models.{User, Session, CaptchaChallenge, captcha_required_for, is_locked}
use task.Domain.Password.{Unicode, validate_password}
use task.Domain.Models.{hour}
use task.Domain.Password.{classes_of, classify}
use task.Auth.Gate.{Admitted, login-Admitted}
use task.Auth.Lockout.{lockout_holds}
use task.Auth.Captcha.{captcha_single_use}
use task.Auth.Sessions.{expired_session_ends, resolve_again_iff}
use task.Auth.Credentials.{Matches, LoggedIn, register_then_login, change_password_then_login}
use task.Auth.Table.{
  Db, insert_user, get_by_username, reset_failed_login, rehashed, update_password_hash,
  insert_session, touched, touch_session, delete_session, consume_captcha,
}
use task.Auth.Service.{
  AuthService, Library, default_auth_settings, Call, Faults, LoginInput, register, login,
  login_gate, check_password, login_succeeded, verify_captcha, resolve_session, change_password,
}

abbrev ascii : Unicode
ascii = record {
  is_lower = λ c. leb 97 c && leb c 122;
  is_upper = λ c. leb 65 c && leb c 90;
  is_digit = λ c. leb 48 c && leb c 57;
  is_space = λ c. c == 32;
  is_punct = λ c. leb 33 c && leb c 47;
  is_symbol = λ c. false;
}

abbrev plain : Library
plain = record {
  trim_space = λ s. s;
  lower = λ s. s;
  generate_from_password = λ p. some p;
  compare_hash_and_password = str_eq;
  unicode = ascii;
  decimal = λ n. "7";
}

plain-Matches : Matches plain
plain-Matches = record { law = λ p h e. ground (arith, str_eq_refl p) }

abbrev service : AuthService
service = record { cfg = default_auth_settings; lib = plain }

abbrev up : Faults
up c = false

all_up : (c : Call) → up c ≡ false
all_up c = refl

-- A user who has failed to log in so many times.
abbrev ann : ℕ → User
ann failures = record {
  id = 1;
  username = "ann";
  password_hash = "Correct-Horse1";
  is_blacklisted = false;
  blacklist_reason = "";
  is_admin = false;
  must_rotate_password = false;
  anonymized_at = none;
  failed_attempts = failures;
  locked_until = none;
  last_login_at = none;
  created_at = 0;
  updated_at = 0;
}

abbrev riddle : Bool → CaptchaChallenge
riddle used = record {
  token = "c1";
  question = "What is 3 + 4?";
  answer = "7";
  created_at = 0;
  expires_at = 100;
  consumed = used;
}

abbrev rows : ℕ → Db
rows failures = record { users = ann failures ∷ []; sessions = []; captchas = riddle false ∷ [] }

abbrev asking : String → LoginInput
asking password = record {
  username = "ann";
  password = password;
  captcha_token = "c1";
  captcha_answer = "7";
  user_agent = "cli";
  ip = "127.0.0.1";
}

abbrev given : ℕ → Session
given now = record {
  id = "s1";
  user_id = 1;
  created_at = now;
  last_activity_at = now;
  expires_at = now + default_auth_settings.session_inactivity;
  user_agent = "cli";
  ip = "127.0.0.1";
}

abbrev entered : User
entered = record (ann 0) { last_login_at = some 50; updated_at = 60 }

abbrev rows_after : Db
rows_after = record { users = entered ∷ []; sessions = given 50 ∷ []; captchas = riddle true ∷ [] }

login-Admitted_example :
    Admitted service 50 (asking "Correct-Horse1") (rows 2) rows_after (given 50)
unfolding login login_gate verify_captcha consume_captcha check_password login_succeeded
    get_by_username insert_session reset_failed_login is_locked captcha_required_for
login-Admitted_example =
    login-Admitted service up 50 60 (some "s1") (asking "Correct-Horse1") (rows 2)
      {u' = record (ann 0) { last_login_at = some 50 }} {sess = given 50} {db' = rows_after} refl

lockout_holds_example :
    let (answer, db') = login service up 50 60 (some "s1") (asking "wrong") (rows 4) in
    (answer ≡ err locked)
    × (login service up 51 61 (some "s2") (asking "Correct-Horse1") db' ≡ (err locked, db'))
unfolding login_gate verify_captcha consume_captcha get_by_username is_locked captcha_required_for
lockout_holds_example =
    lockout_holds service up 50 51 60 61 (some "s1") (some "s2") (asking "wrong")
      (asking "Correct-Horse1") (rows 4) (record (rows 4) { captchas = riddle true ∷ [] })
      {u = ann 4} all_up refl refl refl (omega arith) refl (omega arith)

captcha_single_use_example :
    (((verify_captcha service up "c1" "7" 50 (rows 2)).0 ≡ ok tt)
      ↔ ((riddle false).answer ≡ (riddle false).answer))
    × (let db' = (verify_captcha service up "c1" "7" 50 (rows 2)).1 in
        verify_captcha service up "c1" "7" 51 db' ≡ (err captcha_invalid, db'))
captcha_single_use_example =
    captcha_single_use service up up "c1" "7" "7" 50 51 (rows 2) {c = riddle false} refl refl refl
      refl refl (omega arith)

expired_session_ends_example :
    (resolve_session service up (3 * hour) "s1" rows_after
      ≡ (err session_expired, delete_session "s1" rows_after))
    × (resolve_session service up 71 "s1" (delete_session "s1" rows_after)
        ≡ (err unauthorized, delete_session "s1" rows_after))
expired_session_ends_example =
    expired_session_ends service up (3 * hour) 71 "s1" rows_after {k = given 50} refl all_up refl
      (inl (omega arith))

resolve_again_iff_example :
    let db' = touch_session "s1" 70 (70 + default_auth_settings.session_inactivity) rows_after in
    let sess = touched 70 (70 + default_auth_settings.session_inactivity) (given 50) in
    ((resolve_session service up 90 "s1" db').0
      ≡ ok (entered, touched 90 (90 + default_auth_settings.session_inactivity) sess))
    ↔ ((90 ≤ 70 + default_auth_settings.session_inactivity)
        × (90 ≤ 50 + default_auth_settings.session_absolute_ttl))
unfolding resolve_session touch_session
resolve_again_iff_example =
    resolve_again_iff service up 70 90 "s1" rows_after {u = entered}
      {sess = touched 70 (70 + default_auth_settings.session_inactivity) (given 50)}
      {db' = touch_session "s1" 70 (70 + default_auth_settings.session_inactivity) rows_after}
      all_up refl

abbrev nobody : Db
nobody = record { users = []; sessions = []; captchas = [] }

abbrev joined_row : User
joined_row = record (ann 0) { id = 1; created_at = 10; updated_at = 10 }

register_then_login_example : LoggedIn service 50 "s1" joined_row (
    login service up 50 60
      (some "s1")
      (asking "Correct-Horse1")
      (record nobody { users = joined_row ∷ [] }))
unfolding register validate_password classes_of classify get_by_username insert_user
register_then_login_example =
    register_then_login service up 10 1 50 60 "s1" (asking "Correct-Horse1") nobody {u = joined_row}
      {db' = record nobody { users = joined_row ∷ [] }} plain-Matches all_up refl refl

change_password_then_login_example : LoggedIn service 50 "s1" (ann 0) (
    login service up 50 60
      (some "s1")
      (asking "Battery+Staple2")
      (record (rows 0) { users = rehashed 40 "Battery+Staple2" (ann 0) ∷ [] }))
unfolding change_password update_password_hash validate_password classes_of classify get_by_username
    is_locked captcha_required_for
change_password_then_login_example =
    change_password_then_login service up 50 40 60 "s1" "Correct-Horse1" (asking "Battery+Staple2")
      (ann 0) (rows 0)
      {db' = record (rows 0) { users = rehashed 40 "Battery+Staple2" (ann 0) ∷ [] }} plain-Matches
      all_up refl refl refl refl refl
