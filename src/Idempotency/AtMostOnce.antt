-- ===== src/Idempotency/AtMostOnce.antt =====
-- How often the handler of an idempotency key is started: repo/internal/repository/idempotency.go and
-- repo/internal/api/middleware/idempotency.go.
use task.Base.{
  ℕ, ◌+◌, ◌≤◌, ◌≡◌, inl, inr, Bool, true, false, List, [], ◌∷◌, String, arith, any, if◌then◌else◌,
  sum_of-append, mark, update_where, Bool-cases, update_where_none,
}
use task.Idempotency.Table.{
  Slot, IdempotencyRecord, pending, matches, holds, claim, complete, completed_row, release_pending,
}
use task.Idempotency.Middleware.{answers, panics, ttl, settle}
use task.Idempotency.System.{
  same_slot, same_slot_of, without, System, Step, starts, returns, crashes, Reach, here, after,
}
use task.Idempotency.Counts.{
  rows_of, pending_of, requests_of, completed_counts, released_counts, requests_of-without,
  rows_of-zero, pending_le_rows, requests_of-any,
}

-- What holds of one slot: at most one row; no more starts than rows and panics; and no more requests
-- that run than rows that are pending.
pub record SlotOnce (s : System) (sl : Slot) : Type 0 where
  pub single : rows_of sl s.rows ≤ 1
  pub recorded : requests_of sl s.started ≤ rows_of sl s.rows + requests_of sl s.panicked
  pub held : requests_of sl s.running ≤ pending_of sl s.rows

abbrev pub IsOnce : System → Type 0
IsOnce s = (sl : Slot) → SlotOnce s sl

pub settle_answers :
    (slot : Slot) (code : ℕ) (body : List ℕ) (content_type : String) (rows : List IdempotencyRecord)
    → settle false slot (answers code body content_type) rows
      ≡ update_where (holds slot) (completed_row code body content_type) rows
unfolding settle complete
settle_answers slot code body content_type rows = elim (Bool-cases (any (holds slot) rows)) [
  | inl there ↦ ground arith
  | inr gone ↦
      ground (arith, update_where_none (holds slot) (completed_row code body content_type) rows)
]

claimed_row :
    (slot sl : Slot) (hash : String) (now : ℕ) (rows : List IdempotencyRecord)
    {rows' : List IdempotencyRecord}
    → claim now ttl slot hash rows ≡ (true, rows')
    → (any (matches slot) rows ≡ false)
      × (rows_of sl rows' ≡ rows_of sl rows + (if same_slot slot sl then 1 else 0))
      × (pending_of sl rows' ≡ pending_of sl rows + (if same_slot slot sl then 1 else 0))
unfolding claim matches same_slot
claimed_row slot sl hash now rows h =
    let row : IdempotencyRecord = record {
      key = slot.key;
      user_id = slot.user_id;
      request_hash = hash;
      status_code = 0;
      response_body = [];
      content_type = "";
      status = pending;
      created_at = now;
      expires_at = now + ttl;
    } in
    ground (
      arith,
      sum_of-append (mark (matches sl)) rows (row ∷ []),
      sum_of-append (mark (holds sl)) rows (row ∷ []),
    )

starts-IsOnce :
    (s : System) (now : ℕ) (slot : Slot) (hash : String) {rows : List IdempotencyRecord}
    → claim now ttl slot hash s.rows ≡ (true, rows)
    → IsOnce s
    → IsOnce (record s { rows = rows; running = slot ∷ s.running; started = slot ∷ s.started })
starts-IsOnce s now slot hash e v sl =
    let (free, added, queued) = claimed_row slot sl hash now s.rows e in
    let none_yet = rows_of-zero slot sl s.rows in
    record {
      single = ground (arith, (v sl).single, added, none_yet, free);
      recorded = ground (arith, (v sl).recorded, added);
      held = ground (arith, (v sl).held, queued);
    }

returns-IsOnce :
    (s : System) (lost : Bool) (slot : Slot) (code : ℕ) (body : List ℕ) (content_type : String)
    → any (same_slot_of slot) s.running ≡ true
    → IsOnce s
    → IsOnce (record s {
      rows = settle lost slot (answers code body content_type) s.rows;
      running = without slot s.running;
    })
unfolding settle
returns-IsOnce s true slot code body content_type m v sl = record {
  single = (v sl).single;
  recorded = (v sl).recorded;
  held = ground (arith, (v sl).held, requests_of-without slot sl s.running);
}
returns-IsOnce s false slot code body content_type m v sl =
    let (rows, queued) = completed_counts slot sl code body content_type s.rows in
    let left = requests_of-without slot sl s.running in
    rw (settle_answers slot code body content_type s.rows) (record {
      single = ground (arith, (v sl).single, rows);
      recorded = ground (arith, (v sl).recorded, rows);
      held = ground (arith, (v sl).held, (v sl).single, pending_le_rows sl s.rows, queued, left);
    })

crashes-IsOnce :
    (s : System) (lost : Bool) (slot : Slot)
    → any (same_slot_of slot) s.running ≡ true
    → IsOnce s
    → IsOnce (record s {
      rows = settle lost slot panics s.rows;
      running = without slot s.running;
      panicked = slot ∷ s.panicked;
    })
unfolding settle release_pending
crashes-IsOnce s true slot m v sl = record {
  single = (v sl).single;
  recorded = ground (arith, (v sl).recorded);
  held = ground (arith, (v sl).held, requests_of-without slot sl s.running);
}
crashes-IsOnce s false slot m v sl =
    let (rows, queued) = released_counts slot sl s.rows in
    let left = requests_of-without slot sl s.running in
    record {
      single = ground (arith, (v sl).single, rows);
      recorded = ground (
        arith,
        (v sl).recorded,
        (v sl).single,
        (v sl).held,
        rows,
        pending_le_rows sl s.rows,
        requests_of-any slot sl s.running,
      );
      held = ground (arith, (v sl).held, (v sl).single, pending_le_rows sl s.rows, queued, left);
    }

Step-IsOnce : {s t : System} → Step s t → IsOnce s → IsOnce t
Step-IsOnce {s} (starts now slot hash e) v = starts-IsOnce s now slot hash e v
Step-IsOnce {s} (returns lost slot code body content_type m) v =
    returns-IsOnce s lost slot code body content_type m v
Step-IsOnce {s} (crashes lost slot m) v = crashes-IsOnce s lost slot m v

Reach-IsOnce : {s t : System} → Reach s t → IsOnce s → IsOnce t
Reach-IsOnce here v = v
Reach-IsOnce (after r st) v = Step-IsOnce st (Reach-IsOnce r v)

-- From a state in which each key has at most one row, no more starts of its handler than rows and
-- panics, and no more running requests than pending rows: however requests start, return and panic,
-- also when the statement that settles one fails, the handler is started for each user and key at most
-- once more often than it panics, so only once if it never does; and never twice at the same time.
pub at_most_once :
    (s t : System) (sl : Slot)
    → IsOnce s
    → Reach s t
    → (requests_of sl t.started ≤ 1 + requests_of sl t.panicked) × (requests_of sl t.running ≤ 1)
at_most_once s t sl v r =
    let w = Reach-IsOnce r v sl in
    (
      omega (arith, w.single, w.recorded),
      omega (arith, w.single, w.held, pending_le_rows sl t.rows),
    )
