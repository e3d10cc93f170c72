-- ===== src/Auth/Service/Accounts.antt =====
-- Register and ChangePassword of repo/internal/service/auth.go.
use Prim.Native.String.{len}
use task.Base.{ℕ, false, not, ◌||◌, none, some, String, ltb}
use task.Domain.Errors.{
  Result, ok, err, fail_if, query, ◌>>=◌, ◌>>◌, not_found, invalid_input, conflict,
  credential_invalid, internal,
}
use task.Domain.Models.{User, nil_id}
use task.Domain.Password.{validate_password}
use task.Auth.Table.{Db, insert_user, get_by_id, get_by_username, update_password_hash}
use task.Auth.Service.Setup.{
  AuthService, get_by_username_, users_create, users_get, update_hash, Faults,
}

-- `Register`
unfoldable pub register :
    AuthService → Faults → (now new_id : ℕ) → (username password : String) → Db → Result (User × Db)
register s down now new_id username password db =
    let name = s.lib.trim_space username in
    do
      fail_if (ltb (len name) 3 || ltb 64 (len name)) invalid_input
      validate_password s.lib.unicode password
      elim (query (down get_by_username_) tt >> get_by_username s.lib.lower name db) [
        | ok existing ↦ err conflict
        | err not_found ↦ ok tt
        | err e ↦ err e
      ]
      hash ← elim (s.lib.generate_from_password password) [ none ↦ err internal | some h ↦ ok h ]
      let u : User = record {
        id = nil_id;
        username = name;
        password_hash = hash;
        is_blacklisted = false;
        blacklist_reason = "";
        is_admin = false;
        must_rotate_password = false;
        anonymized_at = none;
        failed_attempts = 0;
        locked_until = none;
        last_login_at = none;
        created_at = 0;
        updated_at = 0;
      }
      query (down users_create) tt >> insert_user new_id now u db

-- `ChangePassword`
unfoldable pub change_password :
    AuthService → Faults → (stamp user_id : ℕ) → (current next : String) → Db → Result Db
change_password s down stamp user_id current next db = do
  u ← query (down users_get) tt >> get_by_id user_id db
  fail_if (not (s.lib.compare_hash_and_password u.password_hash current)) credential_invalid
  validate_password s.lib.unicode next
  hash ← elim (s.lib.generate_from_password next) [ none ↦ err internal | some h ↦ ok h ]
  query (down update_hash) tt >> update_password_hash stamp user_id hash db
