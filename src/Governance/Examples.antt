-- ===== src/Governance/Examples.antt =====
-- Concrete runs of repo/internal/service/governance.go.
use task.Base.{ℕ, ◌≡◌, refl, true, false, some, none, [], ◌∷◌, delete_where}
use task.Base.Int.{pos}
use task.Domain.Models.{User}
use task.Analytics.Service.{AnalyticsService}
use task.Governance.Table.{DeletionRequest, DeletionStatus, pending, canceled}
use task.Governance.Deletion.{State, Faults, run_deletion_executor}
use task.Governance.Erasure.{erased, executor_erases}
use task.Governance.Csv.{Text, ParsedResourceRow}
use task.Governance.Import.{Insertion, import_resources_csv}
use task.Governance.Importing.{data_rows, Imported, import_resources_csv-Imported}

abbrev user : ℕ → User
user id = record {
  id = id;
  username = "ann";
  password_hash = "";
  is_blacklisted = false;
  blacklist_reason = "";
  is_admin = false;
  must_rotate_password = false;
  anonymized_at = none;
  failed_attempts = 0;
  locked_until = none;
  last_login_at = none;
  created_at = 1;
  updated_at = 1;
}

abbrev request : (id user_id : ℕ) → DeletionStatus → DeletionRequest
request id user_id status = record {
  id = id;
  user_id = user_id;
  requested_at = 2;
  process_after = 9;
  status = status;
  completed_at = none;
}

abbrev asked : State
asked = record {
  usage = record { events = []; hourly = []; alerts = [] };
  db = record {
    dictionary = [];
    tags = [];
    taggings = [];
    consents = [];
    deletions = request 1 7 pending ∷ request 2 8 canceled ∷ [];
    users = user 7 ∷ user 8 ∷ [];
  };
}

abbrev hashing : AnalyticsService
hashing = record { digest = λ id. "x"; anomaly_x = 3 }

abbrev healthy : DeletionRequest → Faults
healthy d = record { anonymise_down = false; delete_down = false }

executor_erases_example :
    (run_deletion_executor hashing false 9 healthy asked).1.db.users
    ≡ delete_where (erased 9 healthy asked.db) asked.db.users
executor_erases_example = executor_erases hashing 9 healthy asked

-- The user who canceled stays.
one_left : delete_where (erased 9 healthy asked.db) asked.db.users ≡ user 8 ∷ []
one_left = refl

abbrev reader : Text
reader = record {
  read_all = λ body. some (
      ("name" ∷ "description" ∷ "capacity" ∷ "created_at" ∷ [])
      ∷ ("Pier 1" ∷ "north" ∷ "4" ∷ "2026-01-02" ∷ [])
      ∷ []);
  lower = λ s. s;
  trim_space = λ s. s;
  has_prefix = λ s p. false;
  has_suffix = λ s p. false;
  atoi = λ s. some (pos 4);
  parses = λ layout s. true;
}

abbrev drawing : ParsedResourceRow → Insertion
drawing p = record { new_id = 5; down = false }

import_resources_csv-Imported_example :
    Imported (data_rows (reader.read_all [])) [] (import_resources_csv reader false drawing 3 [] [])
import_resources_csv-Imported_example = import_resources_csv-Imported reader false drawing 3 [] []
