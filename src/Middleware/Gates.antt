-- ===== src/Middleware/Gates.antt =====
-- The gates of repo/internal/api/middleware/auth.go. A gate lets a request on, with the user that is
-- known so far, or answers it with a status.
use task.Base.{
  ℕ, Bool, true, false, not, ◌&&◌, ◌||◌, Option, none, some, List, [], ◌∷◌, String, str_eq,
  if◌then◌else◌,
}
use task.Domain.Errors.{Result, ok, err}
use task.Domain.Models.{User, Session}
use task.Auth.Table.{Db}
use task.Auth.Service.{AuthService, Faults, resolve_session}

pub data Passage : Type 0 where
  passed : Option User → Passage
  stopped : (status : ℕ) → Passage

-- What the gates read of a request and its surroundings; `html` is what `isHTMLRoute` says.
pub record Env : Type 0 where
  pub auth : AuthService
  pub down : Faults
  pub now : ℕ
  pub cookie : Option String
  pub html : Bool
  pub path : String

abbrev pub no_session : (required html : Bool) → Passage
no_session true true = stopped 302
no_session true false = stopped 401
no_session false html = passed none

abbrev pub resolved : (required : Bool) → Result (User × Session) × Db → Passage × Db
resolved required (ok (u, sess), db) = (passed (some u), db)
resolved true (err e, db) = (stopped 401, db)
resolved false (err e, db) = (passed none, db)

abbrev pub with_cookie : Env → (required : Bool) → Option String → Db → Passage × Db
with_cookie env required none db = (no_session required env.html, db)
with_cookie env required (some id) db =
    if str_eq id ""
    then (no_session required env.html, db)
    else resolved required (resolve_session env.auth env.down env.now id db)

unfoldable pub authenticator : Env → (required : Bool) → Db → Passage × Db
authenticator env required db = with_cookie env required env.cookie db

unfoldable pub require_admin : Option User → Passage
require_admin none = stopped 401
require_admin (some u) = if u.is_admin then passed (some u) else stopped 403

unfoldable pub require_not_blacklisted : Option User → Passage
require_not_blacklisted none = stopped 401
require_not_blacklisted (some u) = if u.is_blacklisted then stopped 403 else passed (some u)

abbrev pub is_rotation_path : String → Bool
is_rotation_path path =
    str_eq path "/api/auth/change-password"
    || str_eq path "/api/auth/logout"
    || str_eq path "/api/auth/me"

unfoldable pub require_password_rotated : String → Option User → Passage
require_password_rotated path none = passed none
require_password_rotated path (some u) =
    if u.must_rotate_password && not (is_rotation_path path) then stopped 403 else passed (some u)

-- `cached` and `idempotent` are the middleware of the other files, which run behind these gates.
pub data Gate : Type 0 where
  soft must rotated not_blacklisted admin_only idempotent cached : Gate

abbrev pub gate : Env → Gate → Option User → Db → Passage × Db
gate env soft user db = authenticator env false db
gate env must user db = authenticator env true db
gate env rotated user db = (require_password_rotated env.path user, db)
gate env not_blacklisted user db = (require_not_blacklisted user, db)
gate env admin_only user db = (require_admin user, db)
gate env idempotent user db = (passed user, db)
gate env cached user db = (passed user, db)

abbrev pub onward : (Option User → Db → Passage × Db) → Passage × Db → Passage × Db
onward next (passed user, db) = next user db
onward next (stopped status, db) = (stopped status, db)

-- The gates in their order; the first that stops the request ends it.
unfoldable pub run_gates : Env → List Gate → Option User → Db → Passage × Db
run_gates env [] user db = (passed user, db)
run_gates env (g ∷ gates) user db = onward (run_gates env gates) (gate env g user db)
