-- ===== src/Idempotency/System.antt =====
-- Requests with idempotency keys, interleaved at the calls of the database:
-- repo/internal/repository/idempotency.go and repo/internal/api/middleware/idempotency.go.
use task.Base.{ℕ, ◌≡◌, Bool, true, ◌&&◌, List, [], ◌∷◌, String, str_eq, if◌then◌else◌, any}
use task.Idempotency.Table.{Slot, IdempotencyRecord, same_user, claim}
use task.Idempotency.Middleware.{answers, panics, ttl, settle}

unfoldable pub same_slot : Slot → Slot → Bool
same_slot a b = str_eq a.key b.key && same_user a.user_id b.user_id

abbrev pub without : Slot → List Slot → List Slot
without a [] = []
without a (b ∷ bs) = if same_slot b a then bs else b ∷ without a bs

abbrev pub same_slot_of : Slot → Slot → Bool
same_slot_of a b = same_slot b a

-- The rows, the requests whose handler runs, all requests whose handler was ever started, and those
-- whose handler panicked, whatever it had done by then.
pub record System : Type 0 where
  pub rows : List IdempotencyRecord
  pub running : List Slot
  pub started : List Slot
  pub panicked : List Slot

-- What a request may do at one moment. A request that finds the slot taken, or whose INSERT fails,
-- changes nothing and is left out.
pub data Step (s : System) : System → Type 0 where
  starts :
      (now : ℕ) (slot : Slot) (hash : String) {rows : List IdempotencyRecord}
      → claim now ttl slot hash s.rows ≡ (true, rows)
      → Step s (record s { rows = rows; running = slot ∷ s.running; started = slot ∷ s.started })
  returns :
      (lost : Bool) (slot : Slot) (code : ℕ) (body : List ℕ) (content_type : String)
      → any (same_slot_of slot) s.running ≡ true
      → Step s (record s {
        rows = settle lost slot (answers code body content_type) s.rows;
        running = without slot s.running;
      })
  crashes :
      (lost : Bool) (slot : Slot)
      → any (same_slot_of slot) s.running ≡ true
      → Step s (record s {
        rows = settle lost slot panics s.rows;
        running = without slot s.running;
        panicked = slot ∷ s.panicked;
      })

pub data Reach (s : System) : System → Type 0 where
  here : Reach s s
  after : {t u : System} → Reach s t → Step t u → Reach s u
