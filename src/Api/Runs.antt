-- ===== src/Api/Runs.antt =====
-- A login through repo/internal/api/handlers/auth.go and a later request with its cookie, a request
-- for a document through repo/internal/api/handlers/document.go, and one to join a group buy through
-- repo/internal/api/handlers/groupbuy.go.
use task.Base.{
  inr, inl, Bool-cases, ◌==◌, if◌then◌else◌, ◌+◌, ◌≡◌, refl, true, false, some, none, [], ◌∷◌,
  arith, str_eq,
}
use task.Base.Int.{pos}
use task.Domain.Models.{User, is_locked, captcha_required_for}
use task.Auth.Table.{Db, get_by_username, insert_session, reset_failed_login}
use task.Auth.Service.{
  AuthService, default_auth_settings, login as login_user, login_gate, check_password,
  login_succeeded,
}
use task.Middleware.Gates.{Env, passed, authenticator}
use task.Api.Accounts.{Meets, LoginRequest, login}
use task.Domain.Errors.{ok}
use task.Documents.Examples.{pass, stored, first_version, known, stored-Refines}
use task.Analytics.Table.{Db as Events}
use task.Analytics.Service.{AnalyticsService}
use task.Api.Requests.{Parsers}
use task.Api.Documents.{Meets as DocumentMeets, content}
use task.Api.Shelf.{seen, permitted, content-Refines}
use task.GroupBuy.Table.{Db as GroupBuyDb}
use task.Domain.GroupBuys.{GroupBuy, open_}
use task.Api.GroupBuys.{Meets as GroupBuyMeets, join}
use task.Api.Joined.{is_settled, Keeps, join-settled}
use task.Api.SignedIn.{login_then_admitted, sent_value}

abbrev service : AuthService
service = record {
  cfg = default_auth_settings;
  lib = record {
    trim_space = λ s. s;
    lower = λ s. s;
    generate_from_password = λ p. some p;
    compare_hash_and_password = str_eq;
    unicode = record {
      is_lower = λ c. false;
      is_upper = λ c. false;
      is_digit = λ c. false;
      is_space = λ c. false;
      is_punct = λ c. false;
      is_symbol = λ c. false;
    };
    decimal = λ n. "7";
  };
}

abbrev bob : User
bob = record {
  id = 4;
  username = "bob";
  password_hash = "Blue-Bicycle9";
  is_blacklisted = false;
  blacklist_reason = "";
  is_admin = false;
  must_rotate_password = false;
  anonymized_at = none;
  failed_attempts = 1;
  locked_until = none;
  last_login_at = none;
  created_at = 0;
  updated_at = 0;
}

abbrev before : Db
before = record { users = bob ∷ []; sessions = []; captchas = [] }

abbrev meets : Meets
meets = record {
  down = λ c. false;
  now = 50;
  stamp = 60;
  new_id = 9;
  token = some "s1";
  a = none;
  b = none;
  captcha_token = none;
  cookie_secure = true;
  user_agent = "cli";
  client_ip = "127.0.0.1";
}

abbrev request : LoginRequest
request = record {
  username = "bob";
  password = "Blue-Bicycle9";
  captcha_token = "";
  captcha_answer = "";
}

abbrev later : Env
later = record {
  auth = service;
  down = λ c. false;
  now = 70;
  cookie = some "s1";
  html = false;
  path = "/api/bookings";
}

login_then_admitted_example :
    (v : User) × (v.id ≡ 4)
    × ((authenticator later true (login service meets (some request) before).db).0
        ≡ passed (some v))
unfolding login sent_value login_user login_gate check_password login_succeeded get_by_username
    insert_session reset_failed_login is_locked captcha_required_for
login_then_admitted_example =
    login_then_admitted later meets request before "s1"
      {u = record bob { failed_attempts = 0; last_login_at = some 50 }}
      {ends = 50 + default_auth_settings.session_inactivity} refl refl refl refl refl (λ c. refl)
      (omega arith) (omega arith)

abbrev texts : Parsers
texts = record {
  uuid = λ s. some 1;
  rfc3339 = λ s. none;
  datetime_local = λ s. none;
  date_only = λ s. none;
  atoi = λ s. some (pos 1);
}

abbrev reading : DocumentMeets
reading = record { down = λ c. false; is_integer = λ n. true; event_id = 3; now = 80 }

abbrev counts : AnalyticsService
counts = record { digest = λ id. "f00d"; anomaly_x = 3 }

abbrev owner : User
owner = record bob { id = 5 }

abbrev no_events : Events
no_events = record { events = []; hourly = []; alerts = [] }

content-Refines_example :
    (seen (content counts texts reading owner "berth" "" stored no_events).0
      ≡ permitted owner (some pass) (ok first_version))
    × (seen (content counts texts reading owner "berth" "1" stored no_events).0
        ≡ permitted owner (some pass) (ok first_version))
content-Refines_example =
    content-Refines counts texts reading owner stored no_events (λ c. refl) known "berth" "1"
      {id = 1} {k = 1} stored-Refines refl refl refl refl

abbrev cruise : GroupBuy
cruise = record {
  id = 1;
  resource_id = 2;
  organizer_id = some 5;
  title = "cruise";
  description = "";
  threshold = 2;
  capacity = 6;
  remaining_slots = 6;
  starts_at = 900;
  ends_at = 950;
  deadline = 800;
  status = open_;
  version = 0;
  created_at = 0;
  updated_at = 0;
}

abbrev on_sale : GroupBuyDb
on_sale = record {
  users = bob ∷ [];
  resources = [];
  group_buys = cruise ∷ [];
  participants = [];
  notifications = [];
}

-- Another request changes the row before the second attempt writes.
abbrev busy : GroupBuyMeets
busy = record {
  down = λ c. false;
  tracking_down = false;
  now = 70;
  stamp = 71;
  new_id = 9;
  event_id = 3;
  others = λ left db.
      if left == 2 then record db { group_buys = record cruise { version = 1 } ∷ [] } else db;
}

busy-Keeps : Keeps bob.id busy.others
busy-Keeps left db stored = elim (Bool-cases (left == 2)) [
  | inl second ↦ rw second stored
  | inr other ↦ rw other stored
]

join-settled_example :
    is_settled (join counts texts busy bob "cruise" (pos 3) on_sale no_events).0 ≡ true
join-settled_example =
    join-settled counts texts busy bob "cruise" (pos 3) on_sale no_events refl busy-Keeps
