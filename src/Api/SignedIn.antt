-- ===== src/Api/SignedIn.antt =====
-- A login through repo/internal/api/handlers/auth.go, and the requests with its cookie that come to
-- repo/internal/api/middleware/auth.go.
use task.Base.{
  ℕ, ◌+◌, ◌-◌, ◌≤◌, ◌≡◌, refl, ap, ◌∙◌, true, false, ◌||◌, Option, some, none, String, arith, any,
  any-none, find_first, find_first-holds, find_first-append_new, str_eq, str_eq_refl, ltb, ◌==◌,
  ==_iff,
}
use task.Domain.Errors.{
  Error, Result, ok, err, found, not_found, invalid_input, capacity_exceed, conflict, unauthorized,
  forbidden, blacklisted, locked, captcha_required, captcha_invalid, password_policy,
  credential_invalid, session_expired, idempotency_mismatch, oversold, optimistic_lock,
  deadline_passed, already_joined, lead_time, cutoff, daily_limit, overlap, invalid_transition,
  database, internal,
}
use task.Domain.Models.{User, Session, CaptchaChallenge}
use task.Auth.Table.{Db, get_by_id, get_session}
use task.Auth.Service.{AuthService, Call, LoginInput, login as login_user, sessions_get, users_get}
use task.Auth.Gate.{login-Admitted}
use task.Auth.Sessions.{resolve_stored}
use task.Middleware.Gates.{passed, Env, authenticator}
use task.Api.Requests.{answer}
use task.Api.Accounts.{
  Meets, Cookie, LoginRequest, logged_in, login_input, write_auth_error, with_challenge, minted,
  login,
}
use task.Api.Entered.{found-any, login-session}

refused_challenge :
    {A : Type 0} (db : Db) (r : Result (CaptchaChallenge × Db)) {body : A}
    → (with_challenge {A = A} db r).response ≡ answer 200 body
    → ⊥
refused_challenge db (err e) h = cc
refused_challenge db (ok (c, db')) h = cc

-- An error of the service is never answered 200.
refused_error :
    {A : Type 0} (s : AuthService) (w : Meets) (e : Error) (db : Db) {body : A}
    → (write_auth_error {A = A} s w e db).response ≡ answer 200 body
    → ⊥
unfolding write_auth_error
refused_error s w captcha_required db h = refused_challenge db (minted s w db) h
refused_error s w captcha_invalid db h = refused_challenge db (minted s w db) h
refused_error s w not_found db h = cc
refused_error s w invalid_input db h = cc
refused_error s w capacity_exceed db h = cc
refused_error s w conflict db h = cc
refused_error s w unauthorized db h = cc
refused_error s w forbidden db h = cc
refused_error s w blacklisted db h = cc
refused_error s w locked db h = cc
refused_error s w password_policy db h = cc
refused_error s w credential_invalid db h = cc
refused_error s w session_expired db h = cc
refused_error s w idempotency_mismatch db h = cc
refused_error s w oversold db h = cc
refused_error s w optimistic_lock db h = cc
refused_error s w deadline_passed db h = cc
refused_error s w already_joined db h = cc
refused_error s w lead_time db h = cc
refused_error s w cutoff db h = cc
refused_error s w daily_limit db h = cc
refused_error s w overlap db h = cc
refused_error s w invalid_transition db h = cc
refused_error s w database db h = cc
refused_error s w internal db h = cc

-- A request with the cookie of a session that is stored and neither too idle nor too old.
cookie_admits :
    (env : Env) (id : String) (db : Db) {k : Session} {v : User}
    → env.cookie ≡ some id
    → str_eq id "" ≡ false
    → ((c : Call) → env.down c ≡ false)
    → get_session id db ≡ ok k
    → get_by_id k.user_id db ≡ ok v
    → env.now ≤ k.expires_at
    → env.now ≤ k.created_at + env.auth.cfg.session_absolute_ttl
    → (authenticator env true db).0 ≡ passed (some v)
unfolding authenticator
cookie_admits env id db {k} {v} sent given up stored own soon young =
    let run = resolve_stored env.auth env.down env.now id db given (up sessions_get) stored in
    let live = up users_get in
    let fresh : (ltb k.expires_at env.now
          || ltb env.auth.cfg.session_absolute_ttl (env.now - k.created_at))
        ≡ false =
      ground arith in
    rw (sent, given, run, fresh, live, own) refl

-- An answer 200 is that of a login.
welcomed :
    (s : AuthService) (w : Meets) (out : Result (User × Session) × Db) {u : User} {ends : ℕ}
    → (logged_in s w out).response ≡ answer 200 (u, ends)
    → (sess : Session) × (db' : Db) × (out ≡ (ok (u, sess), db')) × (sess.expires_at ≡ ends)
welcomed s w (ok (v, sess), db) {u} h = let same : v ≡ u = cc in (sess, db, rw same refl, cc)
welcomed s w (err e, db) h = absurd (refused_error s w e db h)

-- What a client sends of a cookie that it was given.
unfoldable pub sent_value : Option Cookie → Option String
sent_value none = none
sent_value (some c) = some c.value

-- What a successful login stores lets its cookie in.
session_admits :
    (env : Env) (w : Meets) (input : LoginInput) (db : Db) (id : String) {u : User} {sess : Session}
    {db' : Db}
    → str_eq id "" ≡ false
    → any (λ r. str_eq r.id id) db.sessions ≡ false
    → login_user env.auth w.down w.now w.stamp (some id) input db ≡ (ok (u, sess), db')
    → env.cookie ≡ some sess.id
    → ((c : Call) → env.down c ≡ false)
    → env.now ≤ sess.expires_at
    → env.now ≤ w.now + env.auth.cfg.session_absolute_ttl
    → (v : User) × (v.id ≡ u.id) × ((authenticator env true db').0 ≡ passed (some v))
session_admits env w input db id {u} {sess} {db'} given fresh run sent up soon young =
    let (named, begun, own, kept) =
      login-session env.auth w.down w.now w.stamp id input db {u' = u} {sess = sess} {db' = db'}
        run in
    let rows = (login-Admitted env.auth w.down w.now w.stamp (some id) input db run).stored in
    let (v, there) = found-any (λ v. v.id == u.id) db'.users kept in
    let same : v.id ≡ u.id =
      (==_iff v.id u.id).0 (find_first-holds (λ v. v.id == u.id) db'.users {a = v} there) in
    (
      v,
      same,
      cookie_admits env id db' {k = sess} {v = v} (sent ∙ ap some named) given up
          (ap (λ rows. found (find_first (λ r. str_eq r.id id) rows)) rows
            ∙ ap found (
                find_first-append_new (λ r. str_eq r.id id) db.sessions sess
                  (any-none (λ r. str_eq r.id id) db.sessions fresh) (rw named (str_eq_refl id))))
          (rw (own, there) refl) soon (rw begun young),
    )

-- A login that is answered 200, with a fresh random token that names no stored session, signs the user
-- in: a request with the cookie of that answer passes the gate that wants a session, as that user, as
-- long as it comes by the end that the answer named and within the absolute time after the login, with
-- a database that answers.
pub login_then_admitted :
    (env : Env) (w : Meets) (req : LoginRequest) (db : Db) (id : String) {u : User} {ends : ℕ}
    → w.token ≡ some id
    → str_eq id "" ≡ false
    → any (λ r. str_eq r.id id) db.sessions ≡ false
    → (login env.auth w (some req) db).response ≡ answer 200 (u, ends)
    → env.cookie ≡ sent_value (login env.auth w (some req) db).cookie
    → ((c : Call) → env.down c ≡ false)
    → env.now ≤ ends
    → env.now ≤ w.now + env.auth.cfg.session_absolute_ttl
    → (v : User) × (v.id ≡ u.id)
      × ((authenticator env true (login env.auth w (some req) db).db).0 ≡ passed (some v))
unfolding login sent_value
login_then_admitted env w req db id {u} {ends} drawn given fresh welcome sent up soon young =
    let out = login_user env.auth w.down w.now w.stamp w.token (login_input w req) db in
    let (sess, db', run, last) = welcomed env.auth w out welcome in
    let (v, same, let_in) =
      session_admits env w (login_input w req) db id {u = u} {sess = sess} {db' = db'} given fresh
        (rw (← drawn) run) (rw run at sent) up (rw last soon) young in
    (v, same, ap (λ out. (authenticator env true (logged_in env.auth w out).db).0) run ∙ let_in)
