-- ===== src/Middleware/Examples.antt =====
-- Concrete requests of repo/internal/api/router.go and its middleware.
use task.Base.{ℕ, ◌+◌, ◌*◌, ◌≡◌, refl, true, false, some, none, List, [], ◌∷◌, arith, str_eq}
use task.Domain.Models.{User, Session, second}
use task.Auth.Table.{Db, touch_session}
use task.Auth.Service.{AuthService, default_auth_settings, resolve_session}
use task.Groups.Masking.{split_at, mask_email}
use task.Groups.Table.{GroupReservation, list_groups, masked_view}
use task.Middleware.Cache.{Request, new_cache, get, is_admin_bypass, read_through_cache}
use task.Middleware.Shared.{listing, group_list_leaks}
use task.Middleware.Gates.{Env, authenticator, require_password_rotated, require_admin, run_gates}
use task.Middleware.Router.{Route, get as get_method, routes}
use task.Middleware.Gates.{must, rotated, admin_only}
use task.Middleware.Guarded.{owed, gates_owe}

abbrev service : AuthService
service = record {
  cfg = default_auth_settings;
  lib = record {
    trim_space = λ s. s;
    lower = λ s. s;
    generate_from_password = λ p. some p;
    compare_hash_and_password = str_eq;
    unicode = record {
      is_lower = λ c. false;
      is_upper = λ c. false;
      is_digit = λ c. false;
      is_space = λ c. false;
      is_punct = λ c. false;
      is_symbol = λ c. false;
    };
    decimal = λ n. "7";
  };
}

abbrev admin : User
admin = record {
  id = 1;
  username = "root";
  password_hash = "";
  is_blacklisted = false;
  blacklist_reason = "";
  is_admin = true;
  must_rotate_password = false;
  anonymized_at = none;
  failed_attempts = 0;
  locked_until = none;
  last_login_at = none;
  created_at = 0;
  updated_at = 0;
}

abbrev session : Session
session = record {
  id = "s1";
  user_id = 1;
  created_at = 50;
  last_activity_at = 50;
  expires_at = 50 + default_auth_settings.session_inactivity;
  user_agent = "cli";
  ip = "127.0.0.1";
}

abbrev stored : Db
stored = record { users = admin ∷ []; sessions = session ∷ []; captchas = [] }

abbrev env : Env
env = record {
  auth = service;
  down = λ c. false;
  now = 70;
  cookie = some "s1";
  html = false;
  path = "/api/admin/cache/stats";
}

abbrev stats_route : Route
stats_route = record {
  method = get_method;
  pattern = "/api/admin/cache/stats";
  gates = must ∷ rotated ∷ admin_only ∷ [];
  handler = "Admin.CacheStats";
}

gates_owe_example : owed stats_route "/api/admin/cache/stats" (some admin) ≡ true
unfolding routes run_gates authenticator require_admin require_password_rotated resolve_session
    touch_session
gates_owe_example =
    gates_owe 61 stats_route env (some admin) stored
      (touch_session "s1" 70 (70 + default_auth_settings.session_inactivity) stored) refl refl

abbrev crew : GroupReservation
crew = record {
  id = 3;
  name = "Crew";
  organizer_id = some 9;
  organizer_name = "Nora";
  organizer_email = "nora@example.com";
  capacity = 8;
  notes = "";
  created_at = 5;
  updated_at = 5;
  bookings = [];
}

masked_crew : (masked_view crew).organizer_email ≡ "n***@example.com"
unfolding masked_view mask_email split_at
masked_crew = refl

abbrev from_viewer : Request
from_viewer = record {
  is_get = true;
  path = "/api/groups";
  raw_query = "";
  bypass = false;
  user = none;
}

abbrev from_admin : Request
from_admin = record from_viewer { user = some admin }

abbrev encode : List GroupReservation → List ℕ
encode groups = 123 ∷ 125 ∷ []

group_list_leaks_example :
    (read_through_cache
      (40 * second)
      (41 * second)
      from_viewer
      (listing encode none 50 0 (crew ∷ []))
      (read_through_cache 6 7 from_admin
        (listing encode (some admin) 50 0 (crew ∷ []))
        (new_cache 0)).1).0.body
    ≡ encode (list_groups 50 0 (crew ∷ []))
unfolding is_admin_bypass get new_cache
group_list_leaks_example =
    group_list_leaks encode 50 0 (crew ∷ []) (new_cache 0) admin 6 7 (40 * second) (41 * second)
      from_admin from_viewer (listing encode none 50 0 (crew ∷ [])) (λ groups. refl) refl
      (record { is_read = refl; no_bypass = refl }) (record { is_read = refl; no_bypass = refl })
      refl refl (omega arith)
