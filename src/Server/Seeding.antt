-- ===== src/Server/Seeding.antt =====
-- The accounts that repo/cmd/server/main.go creates: seedAdminUser, generateInitialPassword and
-- seedDemoUsers. base64, crypto/rand, bcrypt and the file system are given.
use Prim.Native.String.{◌++◌ as append}
use task.Base.{ℕ, Bool, true, false, ◌||◌, Option, none, some, List, [], ◌∷◌, String, if◌then◌else◌}
use task.Domain.Errors.{Result, ok, err, internal, query, not_found, ◌>>=◌, ◌>>◌}
use task.Domain.Models.{User, nil_id}
use task.Auth.Table.{Db, insert_user, get_by_username}
use task.Auth.Administration.{set_admin}
use task.Auth.Service.{Library}

-- The users, and the file at `initialAdminPasswordPath`.
pub record State : Type 0 where
  pub db : Db
  pub secret : Option String

-- What the seeding of one account meets: the calls that fail, the clock and the new UUID.
pub record Visit : Type 0 where
  pub get_down : Bool
  pub set_admin_down : Bool
  pub create_down : Bool
  pub write_down : Bool
  pub now : ℕ
  pub new_id : ℕ

abbrev pub account : (username hash : String) → (is_admin must_rotate : Bool) → User
account username hash is_admin must_rotate = record {
  id = nil_id;
  username = username;
  password_hash = hash;
  is_blacklisted = false;
  blacklist_reason = "";
  is_admin = is_admin;
  must_rotate_password = must_rotate;
  anonymized_at = none;
  failed_attempts = 0;
  locked_until = none;
  last_login_at = none;
  created_at = 0;
  updated_at = 0;
}

-- `generateInitialPassword`: `buf` is what the random generator gives for 18 bytes.
unfoldable pub generate_initial_password :
    (encode : List ℕ → String) → (buf : Option (List ℕ)) → Option String
generate_initial_password encode none = none
generate_initial_password encode (some buf) = some (append (encode buf) "A1!")

-- An account that exists is made an admin, and an error of that is ignored.
unfoldable pub promote : Visit → User → State → State
promote v u st =
    if u.is_admin || v.set_admin_down
    then st
    else record st { db = set_admin v.now u.id true st.db }

-- The hash and the INSERT of a new account.
unfoldable pub create_account :
    Library → Visit → (username password : String) → (is_admin must_rotate : Bool) → Db → Result Db
create_account lib v username password is_admin must_rotate db =
    elim (lib.generate_from_password password) [
      | none ↦ err internal
      | some hash ↦
          (query v.create_down tt
            >> insert_user v.new_id v.now (account username hash is_admin must_rotate) db)
          >>= λ (u, db'). ok db'
    ]

abbrev pub admin_name : String
admin_name = "harbormaster"

-- `seedAdminUser` when the account is not there: a secret that cannot be written is only logged.
unfoldable pub create_admin :
    Library → Visit → (password : Option String) → State → Result (Unit {0}) × State
create_admin lib v none st = (err internal, st)
create_admin lib v (some password) st =
    elim (create_account lib v admin_name password true true st.db) [
      | err e ↦ (err e, st)
      | ok db' ↦ (
        ok tt,
        record {
          db = db';
          secret = if v.write_down then st.secret else some (append password "\n");
        },
      )
    ]

abbrev pub admin_found :
    Library → Visit → (password : Option String) → State → Result User → Result (Unit {0}) × State
admin_found lib v password st (ok u) = (ok tt, promote v u st)
admin_found lib v password st (err not_found) = create_admin lib v password st
admin_found lib v password st (err e) = (err e, st)

-- `seedAdminUser`
unfoldable pub seed_admin_user :
    Library
    → (encode : List ℕ → String) → (buf : Option (List ℕ)) → Visit
    → State
    → Result (Unit {0}) × State
seed_admin_user lib encode buf v st =
    admin_found lib v (generate_initial_password encode buf) st
      (query v.get_down tt >> get_by_username lib.lower admin_name st.db)

pub record DemoAccount : Type 0 where
  pub username : String
  pub password : String
  pub is_admin : Bool

abbrev pub accounts : List DemoAccount
accounts =
    record { username = "admin"; password = "Admin@Harbor2026!"; is_admin = true }
    ∷ record { username = "demouser"; password = "User@Harbor2026!"; is_admin = false }
    ∷ []

abbrev pub demo_stored : State → Result Db → Result (Unit {0}) × State
demo_stored st (ok db') = (ok tt, record st { db = db' })
demo_stored st (err e) = (err e, st)

abbrev pub demo_found :
    Library → Visit → DemoAccount → State → Result User → Result (Unit {0}) × State
demo_found lib v acc st (ok u) = (ok tt, if acc.is_admin then promote v u st else st)
demo_found lib v acc st (err not_found) =
    demo_stored st (create_account lib v acc.username acc.password acc.is_admin false st.db)
demo_found lib v acc st (err e) = (err e, st)

-- One turn of the loop.
unfoldable pub seed_demo_user : Library → Visit → DemoAccount → State → Result (Unit {0}) × State
seed_demo_user lib v acc st =
    demo_found lib v acc st (query v.get_down tt >> get_by_username lib.lower acc.username st.db)

-- The loop stops at the first error.
abbrev pub continue :
    Result (Unit {0}) × State → (State → Result (Unit {0}) × State) → Result (Unit {0}) × State
continue (ok _, st) k = k st
continue (err e, st) k = (err e, st)

unfoldable pub seed_each :
    Library → (String → Visit) → List DemoAccount → State → Result (Unit {0}) × State
seed_each lib visit [] st = (ok tt, st)
seed_each lib visit (acc ∷ rest) st =
    continue (seed_demo_user lib (visit acc.username) acc st) (seed_each lib visit rest)

-- `seedDemoUsers`
unfoldable pub seed_demo_users : Library → (String → Visit) → State → Result (Unit {0}) × State
seed_demo_users lib visit st = seed_each lib visit accounts st

-- What `main` does of this when it seeds: an error of either part is only logged.
unfoldable pub bootstrap :
    Library
    → (encode : List ℕ → String) → (buf : Option (List ℕ)) → Visit
    → (String → Visit)
    → State
    → State
bootstrap lib encode buf v visit st =
    (seed_demo_users lib visit (seed_admin_user lib encode buf v st).1).1
