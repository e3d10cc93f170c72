-- ===== src/Idempotency/Counts.antt =====
-- How each statement of repo/internal/repository/idempotency.go changes the number of rows and requests of a
-- slot.
use task.Base.{
  ℕ, ◌+◌, ◌-◌, ◌≤◌, ◌≡◌, refl, true, false, Option, none, some, List, [], ◌∷◌, String, arith, any,
  str_eq_iff, if◌then◌else◌, sum_of, mark, update_where, delete_where,
}
use task.Idempotency.Table.{Slot, IdempotencyRecord, same_user, matches, holds, completed_row}
use task.Idempotency.System.{same_slot, same_slot_of, without}

same_user_trans : (a b c : Option ℕ) → same_user a b ≡ true → same_user a c ≡ same_user b c
same_user_trans none none none h = refl
same_user_trans none none (some c) h = refl
same_user_trans none (some b) c h = cc h
same_user_trans (some a) none c h = cc h
same_user_trans (some a) (some b) none h = refl
same_user_trans (some a) (some b) (some c) h = ground arith

-- A row of one slot belongs to another slot only if the two are the same.
matches_other :
    (slot sl : Slot) (r : IdempotencyRecord)
    → matches slot r ≡ true
    → matches sl r ≡ same_slot slot sl
unfolding matches same_slot
matches_other slot sl r h =
    ground (arith, str_eq_iff r.key slot.key, same_user_trans r.user_id slot.user_id sl.user_id)

same_slot_other : (slot sl a : Slot) → same_slot a slot ≡ true → same_slot a sl ≡ same_slot slot sl
unfolding same_slot
same_slot_other slot sl a h =
    ground (arith, str_eq_iff a.key slot.key, same_user_trans a.user_id slot.user_id sl.user_id)

same_user_right : (a b c : Option ℕ) → same_user a b ≡ true → same_user c a ≡ same_user c b
same_user_right none none c h = refl
same_user_right none (some b) c h = cc h
same_user_right (some a) none c h = cc h
same_user_right (some a) (some b) none h = refl
same_user_right (some a) (some b) (some c) h = ground arith

matches_same :
    (slot sl : Slot) (r : IdempotencyRecord)
    → same_slot slot sl ≡ true
    → matches sl r ≡ matches slot r
unfolding matches same_slot
matches_same slot sl r h =
    ground (arith, str_eq_iff slot.key sl.key, same_user_right slot.user_id sl.user_id r.user_id)

same_slot_same : (slot sl a : Slot) → same_slot slot sl ≡ true → same_slot a sl ≡ same_slot a slot
unfolding same_slot
same_slot_same slot sl a h =
    ground (arith, str_eq_iff slot.key sl.key, same_user_right slot.user_id sl.user_id a.user_id)

matches_completed :
    (sl : Slot) (code : ℕ) (body : List ℕ) (content_type : String) (r : IdempotencyRecord)
    → matches sl (completed_row code body content_type r) ≡ matches sl r
unfolding matches
matches_completed sl code body content_type r = refl

abbrev pub rows_of : Slot → List IdempotencyRecord → ℕ
rows_of sl rows = sum_of (mark (matches sl)) rows

abbrev pub pending_of : Slot → List IdempotencyRecord → ℕ
pending_of sl rows = sum_of (mark (holds sl)) rows

abbrev pub requests_of : Slot → List Slot → ℕ
requests_of sl xs = sum_of (mark (same_slot_of sl)) xs

pub completed_counts :
    (slot sl : Slot) (code : ℕ) (body : List ℕ) (content_type : String)
    (rows : List IdempotencyRecord)
    → let rows' = update_where (holds slot) (completed_row code body content_type) rows in
      (rows_of sl rows' ≡ rows_of sl rows)
      × (pending_of sl rows' ≡ (if same_slot slot sl then 0 else pending_of sl rows))
completed_counts slot sl code body content_type [] = ground arith
completed_counts slot sl code body content_type (r ∷ rows) = ground (
  arith,
  matches_other slot sl r,
  matches_same slot sl r,
  matches_completed sl code body content_type r,
  completed_counts slot sl code body content_type rows,
)

pub released_counts :
    (slot sl : Slot) (rows : List IdempotencyRecord)
    → let rows' = delete_where (holds slot) rows in
      (rows_of sl rows' + (if same_slot slot sl then pending_of sl rows else 0) ≡ rows_of sl rows)
      × (pending_of sl rows' ≡ (if same_slot slot sl then 0 else pending_of sl rows))
released_counts slot sl [] = ground arith
released_counts slot sl (r ∷ rows) =
    ground (arith, matches_other slot sl r, matches_same slot sl r, released_counts slot sl rows)

pub requests_of-without :
    (slot sl : Slot) (xs : List Slot)
    → requests_of sl (without slot xs) ≡ requests_of sl xs - (if same_slot slot sl then 1 else 0)
requests_of-without slot sl [] = ground arith
requests_of-without slot sl (a ∷ xs) =
    ground
      (arith, same_slot_other slot sl a, same_slot_same slot sl a, requests_of-without slot sl xs)

pub rows_of-zero :
    (slot sl : Slot) (rows : List IdempotencyRecord)
    → same_slot slot sl ≡ true
    → any (matches slot) rows ≡ false
    → (rows_of sl rows ≡ 0) × (pending_of sl rows ≡ 0)
rows_of-zero slot sl [] e h = ground arith
rows_of-zero slot sl (r ∷ rows) e h =
    ground (arith, matches_same slot sl r, rows_of-zero slot sl rows)

pub pending_le_rows :
    (sl : Slot) (rows : List IdempotencyRecord) → pending_of sl rows ≤ rows_of sl rows
pending_le_rows sl [] = ground arith
pending_le_rows sl (r ∷ rows) = ground (arith, pending_le_rows sl rows)

pub requests_of-any :
    (slot sl : Slot) (xs : List Slot)
    → same_slot slot sl ≡ true
    → any (same_slot_of slot) xs ≡ true
    → 1 ≤ requests_of sl xs
requests_of-any slot sl [] e h = ground arith
requests_of-any slot sl (a ∷ xs) e h =
    ground (arith, same_slot_other slot sl a, requests_of-any slot sl xs)
