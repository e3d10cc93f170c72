-- ===== src/Auth/Administration.antt =====
-- The administrators' UPDATEs of repo/internal/repository/user.go. `stamp` is NOW().
use task.Base.{ℕ, Bool, String, any, update_where, ◌==◌, if◌then◌else◌}
use task.Domain.Errors.{Result, ok, err, not_found}
use task.Domain.Models.{User}
use task.Auth.Table.{Db}

abbrev pub with_user : (id : ℕ) → (User → User) → Db → Db
with_user id change db = record db { users = update_where (λ u. u.id == id) change db.users }

-- The number of changed rows is not looked at.
unfoldable pub set_admin : (stamp id : ℕ) → Bool → Db → Db
set_admin stamp id admin db =
    with_user id (λ u. record u { is_admin = admin; updated_at = stamp }) db

unfoldable pub set_blacklist : (stamp id : ℕ) → Bool → String → Db → Result Db
set_blacklist stamp id blacklisted reason db =
    if any (λ (u : User). u.id == id) db.users
    then ok (
        with_user id
          (λ u. record u {
            is_blacklisted = blacklisted;
            blacklist_reason = reason;
            updated_at = stamp;
          })
          db)
    else err not_found

unfoldable pub set_must_rotate_password : (stamp id : ℕ) → Bool → Db → Db
set_must_rotate_password stamp id must db =
    with_user id (λ u. record u { must_rotate_password = must; updated_at = stamp }) db
