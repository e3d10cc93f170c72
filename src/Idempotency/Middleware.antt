-- ===== src/Idempotency/Middleware.antt =====
-- repo/internal/api/middleware/idempotency.go. The hash of the request is an argument.
use task.Base.{ℕ, ◌*◌, Bool, true, false, Option, none, some, List, String}
use task.Domain.Errors.{Result, ok, err, conflict, idempotency_mismatch}
use task.Domain.Models.{hour}
use task.Idempotency.Table.{
  Slot, IdempotencyRecord, pending, completed, Reservation, reserved, existing, failed, reserve,
  complete, release_pending,
}

abbrev pub ttl : ℕ
ttl = 24 * hour

-- What is sent to the client; the texts of the JSON bodies are for people.
pub data Reply : Type 0 where
  response : (status_code : ℕ) → List ℕ → (content_type : String) → Reply
  replay : (status_code : ℕ) → List ℕ → (content_type : String) → Reply
  key_reused in_flight lookup_failed : Reply

-- What the handler does: it writes a response, which `captureWriter` keeps, or it panics.
pub data Run : Type 0 where
  answers : (status_code : ℕ) → List ℕ → (content_type : String) → Run
  panics : Run

-- The switch on what `Reserve` answered: a reply, or the handler is run.
unfoldable pub decide : Reservation → Option Reply
decide reserved = none
decide (failed idempotency_mismatch) = some key_reused
decide (failed conflict) = some in_flight
decide (failed e) = some lookup_failed
decide (existing r) = elim r.status [
  | completed ↦ some (replay r.status_code r.response_body r.content_type)
  | pending ↦ some lookup_failed
]

abbrev pub saved : List IdempotencyRecord → Result (List IdempotencyRecord) → List IdempotencyRecord
saved rows (ok rows') = rows'
saved rows (err e) = rows

-- After the handler: `Complete`, whose error is ignored, or `ReleasePending`; `lost` says that the
-- statement fails.
unfoldable pub settle : (lost : Bool) → Slot → Run → List IdempotencyRecord → List IdempotencyRecord
settle true slot run rows = rows
settle false slot (answers code body content_type) rows =
    saved rows (complete slot code body content_type rows)
settle false slot panics rows = release_pending slot rows

abbrev pub reply_of : Run → Option Reply
reply_of (answers code body content_type) = some (response code body content_type)
reply_of panics = none

-- The rest of `Idempotency` when `Reserve` has answered and the switch has decided.
abbrev pub decided :
    (lost : Bool)
    → Slot
    → Run
    → List IdempotencyRecord
    → Option Reply
    → Option Reply × Bool × List IdempotencyRecord
decided lost slot run rows (some reply) = (some reply, false, rows)
decided lost slot run rows none = (reply_of run, true, settle lost slot run rows)

-- `Idempotency` for a request with a key, with nothing committed by others while it runs: what is
-- sent (nothing when the panic goes on), and whether the handler ran.
unfoldable pub idempotency :
    (lost lost' : Bool) (now : ℕ)
    → Slot
    → String
    → Run
    → List IdempotencyRecord
    → Option Reply × Bool × List IdempotencyRecord
idempotency lost lost' now slot hash run rows =
    let (reservation, rows') = reserve lost now ttl slot hash (λ r. r) rows in
    decided lost' slot run rows' (decide reservation)
