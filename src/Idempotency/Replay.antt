-- ===== src/Idempotency/Replay.antt =====
-- A second request with the same key is answered from the first: repo/internal/api/middleware/idempotency.go.
use task.Base.{
  ℕ, ◌+◌, ◌≡◌, refl, inl, inr, Bool, true, false, some, List, [], ◌∷◌, ◌++◌, String, arith, any,
  find_first, str_eq, ==_refl, str_eq_refl, if◌then◌else◌, update_where, Bool-cases, Option-cases,
  find_first-update, find_first-append_new, any-none, any-some,
}
use task.Idempotency.Table.{
  Slot, IdempotencyRecord, pending, completed, matches, holds, claim, reserve, completed_row,
}
use task.Idempotency.Middleware.{
  Run, answers, ttl, response, replay, key_reused, decide, idempotency,
}
use task.Idempotency.AtMostOnce.{settle_answers}

abbrev pub reserved_row : (now : ℕ) (slot : Slot) (hash : String) → IdempotencyRecord
reserved_row now slot hash = record {
  key = slot.key;
  user_id = slot.user_id;
  request_hash = hash;
  status_code = 0;
  response_body = [];
  content_type = "";
  status = pending;
  created_at = now;
  expires_at = now + ttl;
}

first_answered :
    (now : ℕ) (slot : Slot) (hash : String) (code : ℕ) (body : List ℕ) (content_type : String)
    (rows : List IdempotencyRecord)
    → any (matches slot) rows ≡ false
    → idempotency false false now slot hash (answers code body content_type) rows ≡ (
      some (response code body content_type),
      true,
      update_where
          (holds slot)
          (completed_row code body content_type)
          (rows ++ reserved_row now slot hash ∷ []),
    )
unfolding idempotency reserve decide claim
first_answered now slot hash code body content_type rows free =
    rw (free, settle_answers slot code body content_type (rows ++ reserved_row now slot hash ∷ []))

matches-reserved_row :
    (now : ℕ) (slot : Slot) (hash : String) → matches slot (reserved_row now slot hash) ≡ true
unfolding matches
matches-reserved_row now slot hash = elim (Option-cases slot.user_id) [
  | inl eq ↦ ground (arith, str_eq_refl slot.key)
  | inr (u, eq) ↦ ground (arith, str_eq_refl slot.key, ==_refl u)
]

kept_row :
    (now : ℕ) (slot : Slot) (hash : String) (code : ℕ) (body : List ℕ) (content_type : String)
    (rows : List IdempotencyRecord)
    → any (matches slot) rows ≡ false
    → find_first (matches slot) (
        update_where
          (holds slot)
          (completed_row code body content_type)
          (rows ++ reserved_row now slot hash ∷ []))
      ≡ some (completed_row code body content_type (reserved_row now slot hash))
unfolding matches
kept_row now slot hash code body content_type rows free =
    let mine = matches-reserved_row now slot hash in
    let new =
      find_first-append_new (matches slot) rows (reserved_row now slot hash)
        (any-none (matches slot) rows free) mine in
    let seen =
      find_first-update (matches slot) (holds slot) (completed_row code body content_type)
        (λ r. refl) (rows ++ reserved_row now slot hash ∷ []) in
    ground (arith, new, seen, mine)

replayed :
    (lost : Bool) (now : ℕ) (slot : Slot) (hash : String) (run : Run)
    (rows : List IdempotencyRecord) {r : IdempotencyRecord}
    → find_first (matches slot) rows ≡ some r
    → r.status ≡ completed
    → idempotency false lost now slot hash run rows ≡ (
      some (
          if str_eq r.request_hash hash
          then replay r.status_code r.response_body r.content_type
          else key_reused),
      false,
      rows,
    )
unfolding idempotency reserve decide claim
replayed lost now slot hash run rows {r} e done =
    let there = any-some (matches slot) rows e in
    elim (Bool-cases (str_eq r.request_hash hash)) [
      | inl same ↦ rw (there, e, same, done)
      | inr other ↦ rw (there, e, other)
    ]

-- A handler that has answered is not run again: the next request with the same user and key, at any
-- time, also after the 24 hours for which the row was made, runs no handler and changes nothing; it is
-- answered with the first response when its hash is the same, and is refused as a reuse of the key when
-- it is not. The slot was free, and no statement that the two requests run fails.
pub replay_first :
    (now now' : ℕ) (slot : Slot) (hash hash' : String) (code : ℕ) (body : List ℕ)
    (content_type : String) (run' : Run) (lost : Bool) (rows : List IdempotencyRecord)
    → any (matches slot) rows ≡ false
    → let (reply, ran, rows') =
        idempotency false false now slot hash (answers code body content_type) rows in
      (reply ≡ some (response code body content_type))
      × (ran ≡ true)
      × (idempotency false lost now' slot hash' run' rows' ≡ (
        some (if str_eq hash hash' then replay code body content_type else key_reused),
        false,
        rows',
      ))
replay_first now now' slot hash hash' code body content_type run' lost rows free =
    rw (first_answered now slot hash code body content_type rows free) (
      refl,
      refl,
      replayed lost now' slot hash' run'
          (update_where (holds slot) (completed_row code body content_type)
            (rows ++ reserved_row now slot hash ∷ []))
          (kept_row now slot hash code body content_type rows free) refl,
    )
