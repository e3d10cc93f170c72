-- ===== src/Server/Examples.antt =====
-- Concrete runs of repo/cmd/server/main.go and of repo/internal/infrastructure.
use Prim.Native.String.{◌++◌ as append}
use task.Base.{
  ℕ, ◌≤◌, ◌≡◌, ◌↔◌, refl, Bool, true, false, some, none, List, [], ◌∷◌, String, arith, str_eq, leb,
  ◌&&◌, ◌==◌, str_eq_refl, All, any, codes, if◌then◌else◌,
}
use task.Domain.Errors.{ok}
use task.Domain.Models.{User}
use task.Domain.Password.{Unicode, validate_password}
use task.Auth.Table.{get_by_username, insert_user}
use task.Auth.Service.{AuthService, Library, default_auth_settings, Faults, LoginInput, login}
use task.Auth.Credentials.{Matches, LoggedIn}
use task.Server.Database.{World, connected, connect}
use task.Server.Connecting.{FirstReady, connect_iff}
use task.Server.Seeding.{
  State, Visit, account, DemoAccount, accounts, admin_name, seed_admin_user, seed_demo_users,
  bootstrap, seed_each, seed_demo_user, create_account, create_admin, generate_initial_password,
}
use task.Server.Present.{Present}
use task.Server.Boot.{seed_once}
use task.Server.FirstBoot.{initial_password, Seeded, first_boot_login}
use task.Server.InitialPassword.{initial_password_iff}

-- The database answers at the third attempt.
abbrev slow : World
slow = record {
  over_before = λ n. false;
  over_waiting = λ n. false;
  opens = λ n. leb 2 n;
  pings = λ n. leb 3 n;
}

connect_iff_example : (connect slow ≡ connected 3) ↔ ((1 ≤ 3) × (3 ≤ 30) × FirstReady slow 1 3)
connect_iff_example = connect_iff slow 3

abbrev ascii : Unicode
ascii = record {
  is_lower = λ c. leb 97 c && leb c 122;
  is_upper = λ c. leb 65 c && leb c 90;
  is_digit = λ c. leb 48 c && leb c 57;
  is_space = λ c. c == 32;
  is_punct = λ c. leb 33 c && leb c 47;
  is_symbol = λ c. false;
}

-- What base64 makes of 18 bytes that are 0.
abbrev zeros : List ℕ → String
zeros buf = "AAAAAAAAAAAAAAAAAAAAAAAA"

initial_password_iff_example :
    (validate_password ascii (initial_password zeros []) ≡ ok tt)
    ↔ (any ascii.is_lower (codes (zeros [])) ≡ true)
initial_password_iff_example =
    initial_password_iff ascii zeros []
      (record {
        upper_a = (refl, refl);
        digit_one = (refl, refl, refl);
        mark = (refl, refl);
        mark_only = (refl, refl, refl);
      })
      refl

abbrev plain : Library
plain = record {
  trim_space = λ s. s;
  lower = λ s. s;
  generate_from_password = λ p. some p;
  compare_hash_and_password = str_eq;
  unicode = ascii;
  decimal = λ n. "7";
}

plain-Matches : Matches plain
plain-Matches = record { law = λ p h e. ground (arith, str_eq_refl p) }

abbrev visit_at : ℕ → Visit
visit_at n = record {
  get_down = false;
  set_admin_down = false;
  create_down = false;
  write_down = false;
  now = 5;
  new_id = n;
}

abbrev empty : State
empty = record { db = record { users = []; sessions = []; captchas = [] }; secret = none }

abbrev secret : String
secret = initial_password zeros []

abbrev row : (id : ℕ) → (username password : String) → (is_admin must_rotate : Bool) → User
row id username password is_admin must_rotate =
    record (account username password is_admin must_rotate) {
      id = id;
      created_at = 5;
      updated_at = 5;
    }

-- The state after the admin is seeded, and after the demo users are.
abbrev after_admin : State
after_admin = record {
  db = record { users = row 1 "harbormaster" secret true true ∷ []; sessions = []; captchas = [] };
  secret = some (append secret "\n");
}

abbrev after_demo : State
after_demo = record after_admin {
  db = record {
    users =
        row 1 "harbormaster" secret true true
        ∷ row 2 "admin" "Admin@Harbor2026!" true false
        ∷ row 3 "demouser" "User@Harbor2026!" false false
        ∷ [];
    sessions = [];
    captchas = [];
  };
}

abbrev demo_visit : String → Visit
demo_visit name = visit_at (if str_eq name "admin" then 2 else 3)

seed_once_example :
    Present plain admin_name true after_demo.db
    × All (λ (acc : DemoAccount). Present plain acc.username acc.is_admin after_demo.db) accounts
    × (bootstrap plain zeros none (visit_at 7) demo_visit after_demo ≡ after_demo)
unfolding seed_admin_user seed_demo_users seed_each seed_demo_user create_admin create_account
    insert_user get_by_username generate_initial_password
seed_once_example =
    seed_once plain zeros (some []) none (visit_at 1) (visit_at 7) demo_visit demo_visit empty
      after_admin after_demo refl (λ name. refl) refl (λ name. refl) refl refl

abbrev service : AuthService
service = record { cfg = default_auth_settings; lib = plain }

abbrev up : Faults
up c = false

abbrev typed : LoginInput
typed = record {
  username = "harbormaster";
  password = secret;
  captcha_token = "";
  captcha_answer = "";
  user_agent = "curl";
  ip = "10.0.0.1";
}

first_boot_login_example :
    (seeded : Seeded service secret empty after_admin) × LoggedIn service 9 "token" seeded.row
      (login service up 9 9 (some "token") typed after_admin.db)
unfolding seed_admin_user create_admin create_account insert_user get_by_username
    generate_initial_password
first_boot_login_example =
    first_boot_login service zeros [] (visit_at 1) empty after_admin up 9 9 "token" typed
      plain-Matches refl refl refl refl (λ c. refl) refl refl refl
