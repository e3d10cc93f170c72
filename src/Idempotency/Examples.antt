-- ===== src/Idempotency/Examples.antt =====
-- Concrete runs of repo/internal/api/middleware/idempotency.go.
use task.Base.{◌+◌, ◌≤◌, ◌≡◌, refl, true, false, some, List, [], ◌∷◌, arith, str_eq, if◌then◌else◌}
use task.Idempotency.Table.{Slot, IdempotencyRecord, pending, matches, claim, release_pending}
use task.Idempotency.Middleware.{
  answers, panics, ttl, settle, response, replay, key_reused, idempotency,
}
use task.Idempotency.System.{same_slot, without, System, starts, crashes, Reach, here, after}
use task.Idempotency.Counts.{requests_of}
use task.Idempotency.AtMostOnce.{IsOnce, at_most_once}
use task.Idempotency.Replay.{replay_first}

abbrev slot : Slot
slot = record { user_id = some 1; key = "k" }

abbrev empty : System
empty = record { rows = []; running = []; started = []; panicked = [] }

empty-IsOnce : IsOnce empty
empty-IsOnce sl = record { single = omega arith; recorded = omega arith; held = omega arith }

abbrev claimed_rows : List IdempotencyRecord
claimed_rows =
    record {
      key = "k";
      user_id = some 1;
      request_hash = "h";
      status_code = 0;
      response_body = [];
      content_type = "";
      status = pending;
      created_at = 5;
      expires_at = 5 + ttl;
    }
    ∷ []

abbrev busy : System
busy = record { rows = claimed_rows; running = slot ∷ []; started = slot ∷ []; panicked = [] }

-- A request starts and its handler panics; it is sent again and starts.
abbrev idle : System
idle = record {
  rows = settle false slot panics claimed_rows;
  running = without slot (slot ∷ []);
  started = slot ∷ [];
  panicked = slot ∷ [];
}

begun : Reach empty busy
unfolding claim matches
begun = after here (starts 5 slot "h" refl)

crashed : Reach empty idle
unfolding same_slot
crashed = after begun (crashes false slot refl)

abbrev again : System
again = record {
  rows = claimed_rows;
  running = slot ∷ without slot (slot ∷ []);
  started = slot ∷ slot ∷ [];
  panicked = slot ∷ [];
}

restarted : Reach empty again
unfolding claim matches release_pending settle same_slot
restarted = after crashed (starts 5 slot "h" refl)

at_most_once_example :
    (requests_of slot again.started ≤ 1 + requests_of slot again.panicked)
    × (requests_of slot again.running ≤ 1)
at_most_once_example = at_most_once empty again slot empty-IsOnce restarted

replay_first_example :
    let (reply, ran, rows) =
      idempotency false false 5 slot "h" (answers 201 (1 ∷ []) "text/plain") [] in
    (reply ≡ some (response 201 (1 ∷ []) "text/plain"))
    × (ran ≡ true)
    × (idempotency false false 9 slot "h" panics rows ≡ (
      some (if str_eq "h" "h" then replay 201 (1 ∷ []) "text/plain" else key_reused),
      false,
      rows,
    ))
replay_first_example = replay_first 5 9 slot "h" "h" 201 (1 ∷ []) "text/plain" panics false [] refl
