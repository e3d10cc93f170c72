-- ===== src/Middleware/Access.antt =====
-- Who passes the gates of a route of repo/internal/api/router.go.
use task.Base.{
  ◌≡◌, refl, ap, sym, ◌∙◌, inl, inr, Bool, true, false, not, ◌&&◌, Option, none, some, List, [],
  ◌∷◌, String, arith, Bool-cases, str_eq,
}
use task.Domain.Errors.{Result, ok, err}
use task.Domain.Models.{User, Session}
use task.Auth.Table.{Db}
use task.Auth.Service.{resolve_session}
use task.Middleware.Cache.{is_admin_user}
use task.Middleware.Gates.{
  Passage, passed, stopped, Env, no_session, resolved, with_cookie, authenticator, require_admin,
  require_not_blacklisted, is_rotation_path, require_password_rotated, Gate, soft, must, rotated,
  not_blacklisted, admin_only, idempotent, cached, gate, onward, run_gates,
}

abbrev pub is_known : Option User → Bool
is_known none = false
is_known (some u) = true

-- The user does not have to rotate the password, or the path is one of those that stay open.
abbrev pub is_rotated : String → Option User → Bool
is_rotated path none = true
is_rotated path (some u) = not (u.must_rotate_password && not (is_rotation_path path))

-- What is sure behind a gate, if so much was sure before it.
abbrev pub known_after : Gate → Bool → Bool
known_after soft b = false
known_after must b = true
known_after rotated b = b
known_after not_blacklisted b = true
known_after admin_only b = true
known_after idempotent b = b
known_after cached b = b

abbrev pub rotated_after : Gate → Bool → Bool
rotated_after soft b = false
rotated_after must b = false
rotated_after rotated b = true
rotated_after _ b = b

abbrev pub admin_after : Gate → Bool → Bool
admin_after soft b = false
admin_after must b = false
admin_after admin_only b = true
admin_after _ b = b

abbrev pub after_all : (Gate → Bool → Bool) → List Gate → Bool → Bool
after_all sure [] b = b
after_all sure (g ∷ gates) b = after_all sure gates (sure g b)

-- A gate's answer is to let the request on.
abbrev LetsOn : Passage × Db → Option User → Db → Type 0
LetsOn answer user db = answer ≡ (passed user, db)

resolved-known :
    (r : Result (User × Session) × Db) {user : Option User} {db : Db}
    → resolved true r ≡ (passed user, db)
    → is_known user ≡ true
resolved-known (ok (u, sess), d) h = ground arith
resolved-known (err e, d) h = ground arith

no_session-known :
    (html : Bool) (db : Db) {user : Option User} {db' : Db}
    → LetsOn (no_session true html, db) user db'
    → is_known user ≡ true
no_session-known true db h = ground arith
no_session-known false db h = ground arith

with_cookie-known :
    (env : Env) (cookie : Option String) (db : Db) {user : Option User} {db' : Db}
    → with_cookie env true cookie db ≡ (passed user, db')
    → is_known user ≡ true
with_cookie-known env none db {user} {db'} h = no_session-known env.html db h
with_cookie-known env (some id) db {user} {db'} h = elim (Bool-cases (str_eq id "")) [
  | inl empty ↦ no_session-known env.html db (rw empty at h)
  | inr given ↦ resolved-known (resolve_session env.auth env.down env.now id db) (rw given at h)
]

-- What a request that a gate lets on has passed.
abbrev Steps : (Env → Option User → Bool) → (Gate → Bool → Bool) → Type 0
Steps holds sure =
    (env : Env) (g : Gate) (user user' : Option User) (db db' : Db) (b : Bool)
    → gate env g user db ≡ (passed user', db')
    → (b ≡ true → holds env user ≡ true)
    → sure g b ≡ true
    → holds env user' ≡ true

same_user :
    (user user' : Option User) (db db' : Db) → LetsOn (passed user, db) user' db' → user ≡ user'
same_user user user' db db' h = cc h

not_blacklisted-same :
    (user user' : Option User) (db db' : Db)
    → LetsOn (require_not_blacklisted user, db) user' db'
    → (user ≡ user') × (is_known user ≡ true)
unfolding require_not_blacklisted
not_blacklisted-same none user' db db' h = absurd (cc h)
not_blacklisted-same (some u) user' db db' h = elim (Bool-cases u.is_blacklisted) [
  | inl out ↦ absurd (ground arith)
  | inr fine ↦ (same_user (some u) user' db db' (ground arith), refl)
]

admin-same :
    (user user' : Option User) (db db' : Db)
    → LetsOn (require_admin user, db) user' db'
    → (user ≡ user') × (is_admin_user user ≡ true)
unfolding require_admin
admin-same none user' db db' h = absurd (cc h)
admin-same (some u) user' db db' h = elim (Bool-cases u.is_admin) [
  | inl admin ↦ (same_user (some u) user' db db' (ground arith), admin)
  | inr other ↦ absurd (ground arith)
]

rotated-same :
    (path : String) (user user' : Option User) (db db' : Db)
    → LetsOn (require_password_rotated path user, db) user' db'
    → (user ≡ user') × (is_rotated path user ≡ true)
unfolding require_password_rotated
rotated-same path none user' db db' h = (same_user none user' db db' h, refl)
rotated-same path (some u) user' db db' h =
    elim (Bool-cases (u.must_rotate_password && not (is_rotation_path path))) [
      | inl stale ↦ absurd (ground arith)
      | inr fresh ↦ (same_user (some u) user' db db' (ground arith), rw fresh refl)
    ]

is_known_admin : (user : Option User) → is_admin_user user ≡ true → is_known user ≡ true
is_known_admin none h = cc
is_known_admin (some u) h = refl

known-Steps : Steps (λ env user. is_known user) known_after
unfolding authenticator
known-Steps env soft user user' db db' b h before sure = cc
known-Steps env must user user' db db' b h before sure = with_cookie-known env env.cookie db h
known-Steps env rotated user user' db db' b h before sure =
    ap is_known (sym (rotated-same env.path user user' db db' h).0) ∙ before sure
known-Steps env not_blacklisted user user' db db' b h before sure =
    let s = not_blacklisted-same user user' db db' h in ap is_known (sym s.0) ∙ s.1
known-Steps env admin_only user user' db db' b h before sure =
    let s = admin-same user user' db db' h in ap is_known (sym s.0) ∙ is_known_admin user s.1
known-Steps env idempotent user user' db db' b h before sure =
    ap is_known (sym (same_user user user' db db' h)) ∙ before sure
known-Steps env cached user user' db db' b h before sure =
    ap is_known (sym (same_user user user' db db' h)) ∙ before sure

admin-Steps : Steps (λ env user. is_admin_user user) admin_after
admin-Steps env soft user user' db db' b h before sure = cc
admin-Steps env must user user' db db' b h before sure = cc
admin-Steps env rotated user user' db db' b h before sure =
    ap is_admin_user (sym (rotated-same env.path user user' db db' h).0) ∙ before sure
admin-Steps env not_blacklisted user user' db db' b h before sure =
    ap is_admin_user (sym (not_blacklisted-same user user' db db' h).0) ∙ before sure
admin-Steps env admin_only user user' db db' b h before sure =
    let s = admin-same user user' db db' h in ap is_admin_user (sym s.0) ∙ s.1
admin-Steps env idempotent user user' db db' b h before sure =
    ap is_admin_user (sym (same_user user user' db db' h)) ∙ before sure
admin-Steps env cached user user' db db' b h before sure =
    ap is_admin_user (sym (same_user user user' db db' h)) ∙ before sure

rotated-Steps : Steps (λ env user. is_rotated env.path user) rotated_after
rotated-Steps env soft user user' db db' b h before sure = cc
rotated-Steps env must user user' db db' b h before sure = cc
rotated-Steps env rotated user user' db db' b h before sure =
    let s = rotated-same env.path user user' db db' h in ap (is_rotated env.path) (sym s.0) ∙ s.1
rotated-Steps env not_blacklisted user user' db db' b h before sure =
    ap (is_rotated env.path) (sym (not_blacklisted-same user user' db db' h).0) ∙ before sure
rotated-Steps env admin_only user user' db db' b h before sure =
    ap (is_rotated env.path) (sym (admin-same user user' db db' h).0) ∙ before sure
rotated-Steps env idempotent user user' db db' b h before sure =
    ap (is_rotated env.path) (sym (same_user user user' db db' h)) ∙ before sure
rotated-Steps env cached user user' db db' b h before sure =
    ap (is_rotated env.path) (sym (same_user user user' db db' h)) ∙ before sure

onward-passed :
    (next : Option User → Db → Passage × Db) (answer : Passage × Db) {user' : Option User}
    {db' : Db}
    → onward next answer ≡ (passed user', db')
    → (user : Option User) × (db : Db) × (answer ≡ (passed user, db))
      × (next user db ≡ (passed user', db'))
onward-passed next (passed user, db) h = (user, db, refl, h)
onward-passed next (stopped status, db) h = absurd (ground arith)

-- Behind a list of gates is sure what each gate in turn makes sure.
run-Steps :
    (holds : Env → Option User → Bool) (sure : Gate → Bool → Bool)
    → Steps holds sure
    → (env : Env) (gates : List Gate) (user user' : Option User) (db db' : Db) (b : Bool)
    → run_gates env gates user db ≡ (passed user', db')
    → (b ≡ true → holds env user ≡ true)
    → after_all sure gates b ≡ true
    → holds env user' ≡ true
unfolding run_gates
run-Steps holds sure step env [] user user' db db' b h before end =
    ap (holds env) (sym (same_user user user' db db' h)) ∙ before end
run-Steps holds sure step env (g ∷ gates) user user' db db' b h before end =
    let (middle, d, here, there) = onward-passed (run_gates env gates) (gate env g user db) h in
    run-Steps holds sure step env gates middle user' d db' (sure g b) there
      (λ now. step env g user middle db d b here before now) end

-- A request that passes a route's gates, where the gates make so much sure.
pub record Passed (env : Env) (gates : List Gate) (user : Option User) : Type 0 where
  pub known : after_all known_after gates false ≡ true → is_known user ≡ true
  pub rotation : after_all rotated_after gates false ≡ true → is_rotated env.path user ≡ true
  pub admin : after_all admin_after gates false ≡ true → is_admin_user user ≡ true

pub run_gates-Passed :
    (env : Env) (gates : List Gate) (user : Option User) (db db' : Db)
    → run_gates env gates none db ≡ (passed user, db')
    → Passed env gates user
run_gates-Passed env gates user db db' h = record {
  known =
      run-Steps (λ e u. is_known u) known_after known-Steps env gates none user db db' false h
        (λ e. cc);
  rotation =
      run-Steps (λ e u. is_rotated e.path u) rotated_after rotated-Steps env gates none user db db'
        false h (λ e. cc);
  admin =
      run-Steps (λ e u. is_admin_user u) admin_after admin-Steps env gates none user db db' false h
        (λ e. cc);
}
