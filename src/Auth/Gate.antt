-- ===== src/Auth/Gate.antt =====
-- What a login that succeeds has passed: repo/internal/service/auth.go.
-- A captcha that has been answered: it was there, unused, in time, and its answer was given; and now
-- it is used.
use task.Base.{
  ℕ, ◌+◌, ◌≡◌, refl, sym, ap, ◌∙◌, ◌⊎◌, inl, inr, true, false, not, ◌&&◌, ◌||◌, Option, [], ◌∷◌,
  ◌++◌, String, arith, Bool-cases, Option-cases, find_first, str_eq, ltb, find_first-update,
  find_first-holds, str_eq_iff,
}
use task.Domain.Errors.{Error, Result, ok, err, credential_invalid, database}
use task.Domain.Models.{User, Session, CaptchaChallenge, captcha_required_for, is_locked}
use task.Auth.Table.{
  Db, get_by_username, reset_failed_login, insert_session, get_captcha, consume_captcha,
}
use task.Auth.Service.{
  AuthService, Faults, LoginInput, login, login_gate, check_password, login_succeeded, login_failed,
  lock_until, verify_captcha, captchas_get, and_then, get_by_username_, reset_failed,
}

pub record Answered (s : AuthService) (now : ℕ) (token answer : String) (db db' : Db) : Type 0 where
  pub challenge : CaptchaChallenge
  pub issued : get_captcha token db ≡ ok challenge
  pub unused : challenge.consumed ≡ false
  pub in_time : ltb challenge.expires_at now ≡ false
  pub right : s.lib.trim_space answer ≡ challenge.answer
  pub used : get_captcha token db' ≡ ok (record challenge { consumed = true })
  pub same_users : db'.users ≡ db.users
  pub same_sessions : db'.sessions ≡ db.sessions

verify_captcha-Answered :
    (s : AuthService) (down : Faults) (token answer : String) (now : ℕ) (db : Db) {db' : Db}
    → verify_captcha s down token answer now db ≡ (ok tt, db')
    → Answered s now token answer db db'
unfolding verify_captcha consume_captcha
verify_captcha-Answered s down token answer now db {db'} h = elim (Bool-cases (down captchas_get)) [
  | inl dead ↦ absurd (ground arith)
  | inr up ↦ elim (Option-cases (find_first (λ c. str_eq c.token token) db.captchas)) [
    | inl eq ↦ absurd (ground arith)
    | inr (c, eq) ↦
        let seen =
          find_first-update (λ d. str_eq d.token token)
            (λ d. str_eq d.token token && not d.consumed) (λ d. record d { consumed = true })
            (λ d. refl) db.captchas in
        let mine = find_first-holds (λ d. str_eq d.token token) db.captchas eq in
        record {
          challenge = c;
          issued = ground arith;
          unused = ground arith;
          in_time = ground arith;
          right = ground (arith, str_eq_iff (s.lib.trim_space answer) c.answer);
          used = ground (arith, seen, mine);
          same_users = ground arith;
          same_sessions = ground arith;
        }
  ]
]

-- What a login that succeeds has passed.
pub record Admitted (s : AuthService) (now : ℕ) (input : LoginInput) (db db' : Db) (sess : Session)
    : Type 0 where
  pub user : User
  pub known : get_by_username s.lib.lower (s.lib.trim_space input.username) db ≡ ok user
  pub unlocked : is_locked user now ≡ false
  pub matched : s.lib.compare_hash_and_password user.password_hash input.password ≡ true
  pub answered :
      captcha_required_for user ≡ true
      → (mid : Db) × Answered s now input.captcha_token input.captcha_answer db mid
        × (db'.captchas ≡ mid.captchas)
  pub own : sess.user_id ≡ user.id
  pub lasts : sess.expires_at ≡ now + s.cfg.session_inactivity
  pub stored : db'.sessions ≡ db.sessions ++ sess ∷ []

login_succeeded-rows :
    (s : AuthService) (down : Faults) (now stamp : ℕ) (token : Option String) (input : LoginInput)
    (u : User) (db : Db) {u' : User} {sess : Session} {db' : Db}
    → login_succeeded s down now stamp token input u db ≡ (ok (u', sess), db')
    → (db'.captchas ≡ db.captchas)
      × (db'.sessions ≡ db.sessions ++ sess ∷ [])
      × (sess.user_id ≡ u.id)
      × (sess.expires_at ≡ now + s.cfg.session_inactivity)
unfolding login_succeeded insert_session reset_failed_login
login_succeeded-rows s down now stamp token input u db h = elim (Option-cases token) [
  | inl eq ↦ absurd (ground arith)
  | inr (id, eq) ↦ elim (Bool-cases (down reset_failed)) [
    | inl lost ↦ ground arith
    | inr up ↦ ground arith
  ]
]

check_password-rows :
    (s : AuthService) (down : Faults) (now stamp : ℕ) (token : Option String) (input : LoginInput)
    (u : User) (db : Db) {u' : User} {sess : Session} {db' : Db}
    → check_password s down now stamp token input u db ≡ (ok (u', sess), db')
    → (s.lib.compare_hash_and_password u.password_hash input.password ≡ true)
      × (db'.captchas ≡ db.captchas)
      × (db'.sessions ≡ db.sessions ++ sess ∷ [])
      × (sess.user_id ≡ u.id)
      × (sess.expires_at ≡ now + s.cfg.session_inactivity)
unfolding check_password login_failed
check_password-rows s down now stamp token input u db {u'} {sess} {db'} h =
    elim (Bool-cases (s.lib.compare_hash_and_password u.password_hash input.password)) [
      | inr wrong ↦ elim (Option-cases (lock_until s.cfg now u)) [
        | inl eq ↦ absurd (ground arith)
        | inr (t, eq) ↦ absurd (ground arith)
      ]
      | inl right ↦
          let (captchas, sessions, own, lasts) =
            login_succeeded-rows s down now stamp token input u db {u' = u'} {sess = sess}
              {db' = db'} (ground arith) in
          (right, captchas, sessions, own, lasts)
    ]

-- The rows between the gate and the check of the password.
pub gate_passed :
    (s : AuthService) (down : Faults) (now : ℕ) (input : LoginInput) (u : User) (db : Db) {mid : Db}
    → login_gate s down now input u db ≡ (ok tt, mid)
    → (is_locked u now ≡ false)
      × (mid.users ≡ db.users)
      × (mid.sessions ≡ db.sessions)
      × (captcha_required_for u ≡ true
          → Answered s now input.captcha_token input.captcha_answer db mid)
unfolding login_gate
gate_passed s down now input u db {mid} h = elim (Bool-cases (is_locked u now)) [
  | inl shut ↦ absurd (ground arith)
  | inr free ↦ elim (Bool-cases (captcha_required_for u)) [
    | inr easy ↦ (free, ground arith, ground arith, λ need. absurd (ground arith))
    | inl need ↦
        elim (Bool-cases (str_eq input.captcha_token "" || str_eq input.captcha_answer "")) [
          | inl blank ↦ absurd (ground arith)
          | inr given ↦
              let answered =
                verify_captcha-Answered s down input.captcha_token input.captcha_answer now db
                  {db' = mid} (ground arith) in
              (free, answered.same_users, answered.same_sessions, λ _. answered)
        ]
  ]
]

-- A step that is known to have passed has rows that it leaves.
pub and_then-passed :
    {A B : Type 0} (r : Result A × Db) (k : A → Db → Result B × Db) {b : B} {db' : Db}
    → and_then r k ≡ (ok b, db')
    → (a : A) × (mid : Db) × (r ≡ (ok a, mid)) × (k a mid ≡ (ok b, db'))
and_then-passed (ok a, mid) k h = (a, mid, refl, h)
and_then-passed (err e, mid) k h = absurd (ground arith)

pub login_known :
    (s : AuthService) (down : Faults) (now stamp : ℕ) (token : Option String) (input : LoginInput)
    (db : Db) {u : User}
    → down get_by_username_ ≡ false
    → get_by_username s.lib.lower (s.lib.trim_space input.username) db ≡ ok u
    → login s down now stamp token input db
      ≡ and_then
          (login_gate s down now input u db)
          (λ _ db'. check_password s down now stamp token input u db')
unfolding login
login_known s down now stamp token input db up eq = rw (up, eq)

-- A login gets to no password without a row, and then leaves all as it was.
pub login-cases :
    (s : AuthService) (down : Faults) (now stamp : ℕ) (token : Option String) (input : LoginInput)
    (db : Db)
    → ((e : Error) × (login s down now stamp token input db ≡ (err e, db)))
      ⊎ ((u : User) × (get_by_username s.lib.lower (s.lib.trim_space input.username) db ≡ ok u)
          × (down get_by_username_ ≡ false))
unfolding login get_by_username
login-cases s down now stamp token input db = elim (Bool-cases (down get_by_username_)) [
  | inl dead ↦ inl (database, rw dead)
  | inr up ↦
      elim (Option-cases (
        find_first
          (λ u. str_eq (s.lib.lower u.username) (s.lib.lower (s.lib.trim_space input.username)))
          db.users)) [
            | inl eq ↦ inl (credential_invalid, rw (up, eq))
            | inr (u, eq) ↦ inr (u, rw eq, up)
          ]
]

-- A login succeeds only for a known user who is not locked, with the password of that user, and, when
-- the user has failed twice or more, with the right answer to a challenge that was unused and in time,
-- which is then used. The session that it gives belongs to that user, is stored, and ends after the
-- inactivity time.
pub login-Admitted :
    (s : AuthService) (down : Faults) (now stamp : ℕ) (token : Option String) (input : LoginInput)
    (db : Db) {u' : User} {sess : Session} {db' : Db}
    → login s down now stamp token input db ≡ (ok (u', sess), db')
    → Admitted s now input db db' sess
login-Admitted s down now stamp token input db {u'} {sess} {db'} h =
    elim (login-cases s down now stamp token input db) [
      | inl (e, eq) ↦ absurd (ground arith)
      | inr (u, eq, up) ↦
          let (_, mid, gate, rest) =
            and_then-passed (login_gate s down now input u db)
              (λ _ mid. check_password s down now stamp token input u mid)
              (sym (login_known s down now stamp token input db up eq) ∙ h) in
          let (free, _, kept, asked) = gate_passed s down now input u db gate in
          let (right, captchas, sessions, own, lasts) =
            check_password-rows s down now stamp token input u mid rest in
          record {
            user = u;
            known = eq;
            unlocked = free;
            matched = right;
            answered = λ need. (mid, asked need, captchas);
            own = own;
            lasts = lasts;
            stored = sessions ∙ ap (λ rows. rows ++ sess ∷ []) kept;
          }
    ]
