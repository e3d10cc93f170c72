-- ===== src/Middleware/Guarded.antt =====
-- What the gates of repo/internal/api/router.go guarantee to the handlers.
use task.Base.{
  ℕ, zero, suc, ◌≡◌, refl, ap, sym, ◌∙◌, Bool, true, false, not, ◌&&◌, ◌||◌, Option, none, some,
  List, [], ◌∷◌, String, arith, any, str_eq, codes, ◌==◌,
}
use task.Domain.Models.{User}
use task.Auth.Table.{Db}
use task.Middleware.Cache.{is_admin_user}
use task.Middleware.Gates.{passed, Env, run_gates}
use task.Middleware.Router.{Method, Route, routes}
use task.Middleware.Access.{
  is_known, is_rotated, known_after, rotated_after, admin_after, after_all, run_gates-Passed,
}

abbrev pub starts_with : List ℕ → List ℕ → Bool
starts_with [] s = true
starts_with (c ∷ prefix) [] = false
starts_with (c ∷ prefix) (d ∷ s) = c == d && starts_with prefix s

-- The pattern lies under /api/admin/.
abbrev pub is_admin_route : Route → Bool
is_admin_route r = starts_with (codes "/api/admin/") (codes r.pattern)

-- Registration, login, logout and tracking need no session.
abbrev pub is_open : Route → Bool
is_open r =
    any (λ p. str_eq p r.pattern)
      ("/api/auth/register" ∷ "/api/auth/login" ∷ "/api/auth/logout" ∷ "/api/analytics/track" ∷ [])

abbrev pub is_write : Route → Bool
is_write r = elim r.method [ Method.get ↦ false | Method.post ↦ true ]

-- The gates of the route make sure what the handler relies on.
abbrev checks : Route → Bool
checks r =
    (not (is_admin_route r)
      || (after_all known_after r.gates false
          && after_all rotated_after r.gates false
          && after_all admin_after r.gates false))
    && (not (is_write r && not (is_open r)) || after_all known_after r.gates false)

abbrev every : (Route → Bool) → List Route → Bool
every p [] = true
every p (r ∷ rs) = p r && every p rs

all_checked : every checks routes ≡ true
unfolding routes
all_checked = refl

abbrev pub get_elem? : List Route → ℕ → Option Route
get_elem? [] i = none
get_elem? (r ∷ rs) zero = some r
get_elem? (r ∷ rs) (suc i) = get_elem? rs i

every-get_elem? :
    (p : Route → Bool) (rs : List Route) (i : ℕ) {r : Route}
    → every p rs ≡ true
    → get_elem? rs i ≡ some r
    → p r ≡ true
every-get_elem? p [] i e h = cc
every-get_elem? p (x ∷ rs) zero {r} e h = let same : x ≡ r = cc h in ap p (sym same) ∙ ground arith
every-get_elem? p (x ∷ rs) (suc i) {r} e h = every-get_elem? p rs i {r = r} (ground arith) h

owe :
    (admin write k n a known rotation is_admin : Bool)
    → ((not admin || (k && n && a)) && (not write || k)) ≡ true
    → (k ≡ true → known ≡ true)
    → (n ≡ true → rotation ≡ true)
    → (a ≡ true → is_admin ≡ true)
    → ((not admin || (known && rotation && is_admin)) && (not write || known)) ≡ true
owe admin write k n a known rotation is_admin h hk hn ha = ground arith

-- A user with a session that passed the rotation gate and has the flag of an admin.
abbrev pub is_cleared : String → Option User → Bool
is_cleared path user = is_known user && is_rotated path user && is_admin_user user

-- What the gates owe to the handler of a route.
abbrev pub owed : Route → String → Option User → Bool
owed r path user =
    (not (is_admin_route r) || is_cleared path user)
    && (not (is_write r && not (is_open r)) || is_known user)

-- Every request that passes the gates of a route under /api/admin has a user who is an admin and does
-- not have to rotate the password (unless the path is one of the three that stay open), and every
-- request that passes those of a POST route has a user, except registration, login, logout and tracking.
pub gates_owe :
    (i : ℕ) (r : Route) (env : Env) (user : Option User) (db db' : Db)
    → get_elem? routes i ≡ some r
    → run_gates env r.gates none db ≡ (passed user, db')
    → owed r env.path user ≡ true
gates_owe i r env user db db' at h =
    let sure = every-get_elem? checks routes i {r = r} all_checked at in
    let p = run_gates-Passed env r.gates user db db' h in
    owe (is_admin_route r) (is_write r && not (is_open r)) (after_all known_after r.gates false)
      (after_all rotated_after r.gates false) (after_all admin_after r.gates false) (is_known user)
      (is_rotated env.path user) (is_admin_user user) sure p.known p.rotation p.admin
