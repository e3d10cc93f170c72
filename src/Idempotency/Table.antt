-- ===== src/Idempotency/Table.antt =====
-- The SQL of repo/internal/repository/idempotency.go.
use task.Base.{
  ℕ, ◌+◌, Bool, true, false, not, ◌&&◌, Option, none, some, List, [], ◌∷◌, ◌++◌, String, find_first,
  any, update_where, delete_where, ltb, ◌==◌, str_eq, if◌then◌else◌,
}
use task.Domain.Errors.{
  Error, Result, ok, err, conflict, idempotency_mismatch, database, not_found, found,
}

-- The two status constants of repo/internal/domain/governance.go.
pub data IdempotencyStatus : Type 0 where
  pending completed : IdempotencyStatus

abbrev pub is_pending : IdempotencyStatus → Bool
is_pending pending = true
is_pending completed = false

-- What a reservation belongs to: `none` is a request without a session.
pub record Slot : Type 0 where
  pub user_id : Option ℕ
  pub key : String

pub record IdempotencyRecord : Type 0 where
  pub key : String
  pub user_id : Option ℕ
  pub request_hash : String
  pub status_code : ℕ
  pub response_body : List ℕ
  pub content_type : String
  pub status : IdempotencyStatus
  pub created_at : ℕ
  pub expires_at : ℕ

abbrev pub same_user : Option ℕ → Option ℕ → Bool
same_user (some a) (some b) = a == b
same_user none none = true
same_user _ _ = false

-- `key = $2 AND scopeMatch`
unfoldable pub matches : Slot → IdempotencyRecord → Bool
matches slot r = str_eq r.key slot.key && same_user r.user_id slot.user_id

-- `getScoped`
abbrev pub get_scoped : Slot → List IdempotencyRecord → Result IdempotencyRecord
get_scoped slot rows = found (find_first (matches slot) rows)

-- The INSERT of `Reserve` and whether it inserted: the unique indexes are on the slot.
unfoldable pub claim :
    (now ttl : ℕ) → Slot → String → List IdempotencyRecord → Bool × List IdempotencyRecord
claim now ttl slot hash rows =
    if any (matches slot) rows
    then (false, rows)
    else let row : IdempotencyRecord = record {
      key = slot.key;
      user_id = slot.user_id;
      request_hash = hash;
      status_code = 0;
      response_body = [];
      content_type = "";
      status = pending;
      created_at = now;
      expires_at = now + ttl;
    } in
      (true, rows ++ row ∷ [])

-- What `Reserve` answers: that the caller owns the slot, or a row, or an error.
pub data Reservation : Type 0 where
  reserved : Reservation
  existing : IdempotencyRecord → Reservation
  failed : Error → Reservation

-- `Reserve` after an INSERT that did nothing.
abbrev pub inspect : String → Result IdempotencyRecord → Reservation
inspect hash (err e) = failed e
inspect hash (ok r) =
    if not (str_eq r.request_hash hash)
    then failed idempotency_mismatch
    else if is_pending r.status
    then failed conflict
    else existing r

-- `Reserve` from the INSERT's answer on: `others` is what is committed before the SELECT.
abbrev pub claimed :
    Slot
    → String
    → (others : List IdempotencyRecord → List IdempotencyRecord) → Bool × List IdempotencyRecord
    → Reservation × List IdempotencyRecord
claimed slot hash others (true, rows) = (reserved, rows)
claimed slot hash others (false, rows) = (inspect hash (get_scoped slot (others rows)), others rows)

-- `Reserve`
unfoldable pub reserve :
    (lost : Bool) (now ttl : ℕ)
    → Slot
    → String
    → (others : List IdempotencyRecord → List IdempotencyRecord) → List IdempotencyRecord
    → Reservation × List IdempotencyRecord
reserve true now ttl slot hash others rows = (failed database, rows)
reserve false now ttl slot hash others rows =
    claimed slot hash others (claim now ttl slot hash rows)

abbrev pub completed_row :
    (status_code : ℕ) → List ℕ → String → IdempotencyRecord → IdempotencyRecord
completed_row code body content_type r = record r {
  status = completed;
  status_code = code;
  response_body = body;
  content_type = content_type;
}

-- `WHERE key = $2 AND scopeMatch AND status = 'pending'`
abbrev pub holds : Slot → IdempotencyRecord → Bool
holds slot r = matches slot r && is_pending r.status

-- `Complete`
unfoldable pub complete :
    Slot
    → (status_code : ℕ) → List ℕ
    → String
    → List IdempotencyRecord
    → Result (List IdempotencyRecord)
complete slot code body content_type rows =
    if any (holds slot) rows
    then ok (update_where (holds slot) (completed_row code body content_type) rows)
    else err not_found

-- `ReleasePending`
unfoldable pub release_pending : Slot → List IdempotencyRecord → List IdempotencyRecord
release_pending slot rows = delete_where (holds slot) rows

-- `DeleteExpired`
unfoldable pub delete_expired : (before : ℕ) → List IdempotencyRecord → List IdempotencyRecord
delete_expired before rows = delete_where (λ r. ltb r.expires_at before) rows
