-- ===== src/Auth/Service/Sessions.antt =====
-- ResolveSession and Logout of repo/internal/service/auth.go.
use task.Base.{ℕ, ◌+◌, ◌-◌, ◌||◌, String, ltb, str_eq, if◌then◌else◌}
use task.Domain.Errors.{Result, ok, err, query, ◌>>◌, not_found, unauthorized, session_expired}
use task.Domain.Models.{User, Session}
use task.Auth.Table.{Db, get_by_id, get_session, touch_session, delete_session}
use task.Auth.Service.Setup.{AuthService, sessions_get, sessions_delete, users_get, touch, Faults}

-- `ResolveSession` when the query of the session's user has answered.
abbrev pub owner_found :
    AuthService → Faults → (now : ℕ) → Db → Session → Result User → Result (User × Session) × Db
owner_found s down now db sess (err e) = (err e, db)
owner_found s down now db sess (ok u) =
    let until = now + s.cfg.session_inactivity in
    (
      ok (u, record sess { last_activity_at = now; expires_at = until }),
      if down touch then db else touch_session sess.id now until db,
    )

-- `ResolveSession` when the query of the session has answered.
abbrev pub session_found :
    AuthService → Faults → (now : ℕ) → String → Db → Result Session → Result (User × Session) × Db
session_found s down now id db (ok sess) =
    if ltb sess.expires_at now || ltb s.cfg.session_absolute_ttl (now - sess.created_at)
    then (err session_expired, if down sessions_delete then db else delete_session id db)
    else owner_found s down now db sess (query (down users_get) tt >> get_by_id sess.user_id db)
session_found s down now id db (err not_found) = (err unauthorized, db)
session_found s down now id db (err e) = (err e, db)

-- `ResolveSession`
unfoldable pub resolve_session :
    AuthService → Faults → (now : ℕ) → String → Db → Result (User × Session) × Db
resolve_session s down now id db =
    if str_eq id ""
    then (err unauthorized, db)
    else session_found s down now id db (query (down sessions_get) tt >> get_session id db)

-- `Logout`
unfoldable pub logout : Faults → String → Db → Result Db
logout down id db =
    if str_eq id "" then ok db else query (down sessions_delete) (delete_session id db)
