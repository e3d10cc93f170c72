-- ===== src/Backups/Chain.antt =====
-- How the plan of repo/internal/service/backup.go changes when a backup is taken.
use task.Base.{
  ℕ, ◌<◌, ◌≡◌, refl, inl, inr, Bool, true, false, List, [], ◌∷◌, ◌++◌, arith, All, All-select,
  All-sort_by, select, insert_by, sort_by, leb, ltb,
}
use task.Domain.Errors.{Result, ok, err, Result-cases, ◌>>=◌, query}
use task.Backups.Table.{
  Kind, full, incremental, is_full, Backup, first_row, last_full, latest_first,
  is_incremental_after, incrementals_after, insert,
}
use task.Backups.Service.{World, backup_row, dump_each, backup_tables, take_backup, plan_restore}

module _ {A : Type 0} (before : A → A → Bool) (b : A) where
  insert_by-append :
      (x : A) (ys : List A)
      → before x b ≡ true
      → insert_by before x (ys ++ b ∷ []) ≡ insert_by before x ys ++ b ∷ []
  insert_by-append x [] first = rw first refl
  insert_by-append x (y ∷ ys) first = ground (arith, insert_by-append x ys first)

  -- A row that stands behind all others is sorted to the end.
  sort_by-last :
      (xs : List A)
      → All (λ x. before x b ≡ true) xs
      → sort_by before (xs ++ b ∷ []) ≡ sort_by before xs ++ b ∷ []
  sort_by-last [] v = refl
  sort_by-last (x ∷ xs) v = rw (sort_by-last xs v.1) (insert_by-append x (sort_by before xs) v.0)

  -- A row that stands before all others is sorted to the front.
  sort_by-first :
      (xs : List A)
      → All (λ x. before x b ≡ false) xs
      → sort_by before (xs ++ b ∷ []) ≡ b ∷ sort_by before xs
  sort_by-first [] v = refl
  sort_by-first (x ∷ xs) v = rw (sort_by-first xs v.1, v.0) refl

abbrev latest : Backup → Backup → Bool
latest a b = leb b.taken_at a.taken_at

abbrev earliest : Backup → Backup → Bool
earliest a b = leb a.taken_at b.taken_at

select-append :
    {A : Type 0} (p : A → Bool) (xs ys : List A) → select p (xs ++ ys) ≡ select p xs ++ select p ys
select-append p [] ys = refl
select-append p (x ∷ xs) ys = ground (arith, select-append p xs ys)

abbrev pub Earlier : (now : ℕ) → Backup → Type 0
Earlier now b = b.taken_at < now

later_test : (m n : ℕ) → m < n → ltb m n ≡ true
later_test m n h = ground (arith, h)

newest_leads :
    (now : ℕ) (b : Backup) (rows : List Backup)
    → b.taken_at ≡ now
    → All (Earlier now) rows
    → All (λ (a : Backup). leb b.taken_at a.taken_at ≡ false) rows
newest_leads now b [] at v = tt
newest_leads now b (a ∷ rows) at v = (ground (arith, v.0), newest_leads now b rows at v.1)

newest_ends :
    (now : ℕ) (b : Backup) (rows : List Backup)
    → b.taken_at ≡ now
    → All (Earlier now) rows
    → All (λ (a : Backup). leb a.taken_at b.taken_at ≡ true) rows
newest_ends now b [] at v = tt
newest_ends now b (a ∷ rows) at v = (ground (arith, v.0), newest_ends now b rows at v.1)

none_after :
    (now : ℕ) (rows : List Backup)
    → All (Earlier now) rows
    → select (is_incremental_after now) rows ≡ []
none_after now [] v = refl
none_after now (a ∷ rows) v = ground (arith, v.0, none_after now rows v.1)

bind-ok {ℓ κ} :
    {V : Type ℓ} {W : Type κ} (res : Result V) (next : V → Result W) {x : W}
    → (res >>= next) ≡ ok x
    → (v : V) × (res ≡ ok v) × (next v ≡ ok x)
bind-ok (err e) next h = cc
bind-ok (ok v) next h = (v, refl, h)

-- The new row of the index.
insert_row :
    (new_id now : ℕ) (b b' : Backup) (rows rows' : List Backup)
    → b.taken_at ≡ now
    → insert new_id now b rows ≡ ok (b', rows')
    → (rows' ≡ rows ++ b' ∷ []) × (b'.kind ≡ b.kind) × (b'.taken_at ≡ now)
unfolding insert
insert_row new_id now b b' rows rows' at done = ground arith

take_backup_row :
    (w : World) (kind : Kind) (since : ℕ) (b : Backup) (index index' : List Backup)
    → take_backup w kind since index ≡ ok (b, index')
    → (index' ≡ index ++ b ∷ []) × (b.kind ≡ kind) × (b.taken_at ≡ w.now)
unfolding take_backup
take_backup_row w kind since b index index' done =
    let encoded = bind-ok w.mkdir _ done in
    let body = bind-ok (w.encode kind w.now since (dump_each w since backup_tables)) _ encoded.2 in
    let stored = bind-ok (w.write_file (w.name_of kind w.now) body.0) _ body.2 in
    let inserted = bind-ok (query w.insert_down tt) _ stored.2 in
    insert_row w.new_id w.now (backup_row w kind (dump_each w since backup_tables) body.0) b index
      index' refl inserted.2

-- The plan after a backup: a full one starts it anew, an incremental one is its last step.
abbrev pub extended : Kind → Backup → Result (List Backup) → Result (List Backup)
extended full b plan = ok (b ∷ [])
extended incremental b plan = plan >>= λ steps. ok (steps ++ b ∷ [])

plan_restore-append_full :
    (b : Backup) (index : List Backup)
    → is_full b.kind ≡ true
    → All (Earlier b.taken_at) index
    → plan_restore false false (index ++ b ∷ []) ≡ ok (b ∷ [])
unfolding plan_restore last_full incrementals_after
plan_restore-append_full b index kind v =
    rw
      (
        select-append (λ (a : Backup). is_full a.kind) index (b ∷ []),
        kind,
        sort_by-first latest b (select (λ (a : Backup). is_full a.kind) index)
            (newest_leads b.taken_at b _ refl (All-select (Earlier b.taken_at) _ index v)),
        select-append (is_incremental_after b.taken_at) index (b ∷ []),
        none_after b.taken_at index v,
        kind,
      )
      refl

first_All :
    (P : Backup → Type 0) (f : Backup) (rows : List Backup)
    → first_row rows ≡ ok f
    → All P rows
    → P f
first_All P f [] h v = cc
first_All P f (a ∷ rows) h v = let same : a ≡ f = cc in rw (← same) v.0

last_full_is_past :
    (now : ℕ) (f : Backup) (index : List Backup)
    → All (Earlier now) index
    → last_full index ≡ ok f
    → f.taken_at < now
unfolding last_full
last_full_is_past now f index v h =
    first_All (Earlier now) f (latest_first (select (λ (a : Backup). is_full a.kind) index)) h
      (All-sort_by (Earlier now) _ _ (All-select (Earlier now) _ index v))

append-empty : (rows : List Backup) → rows ++ [] ≡ rows
append-empty [] = refl
append-empty (a ∷ rows) = rw (append-empty rows) refl

last_full-append :
    (b : Backup) (index : List Backup)
    → is_full b.kind ≡ false
    → last_full (index ++ b ∷ []) ≡ last_full index
unfolding last_full
last_full-append b index kind =
    rw
      (
        select-append (λ (a : Backup). is_full a.kind) index (b ∷ []),
        kind,
        append-empty (select (λ (a : Backup). is_full a.kind) index),
      )
      refl

plan_restore-append_incremental :
    (b : Backup) (index : List Backup)
    → is_full b.kind ≡ false
    → All (Earlier b.taken_at) index
    → plan_restore false false (index ++ b ∷ [])
      ≡ extended incremental b (plan_restore false false index)
unfolding plan_restore incrementals_after
plan_restore-append_incremental b index kind v = elim (Result-cases (last_full index)) [
  | inr (e, none_found) ↦ rw (last_full-append b index kind, none_found) refl
  | inl (f, start) ↦
      rw
        (
          last_full-append b index kind,
          start,
          select-append (is_incremental_after f.taken_at) index (b ∷ []),
          kind,
          later_test f.taken_at b.taken_at (last_full_is_past b.taken_at f index v start),
          sort_by-last earliest b (select (is_incremental_after f.taken_at) index)
              (newest_ends b.taken_at b _ refl (All-select (Earlier b.taken_at) _ index v)),
        )
        refl
]

-- When a backup of either kind is stored later than all in the index and the index can be read, a full
-- one makes the plan of a restore that backup alone, and an incremental one is appended to the plan,
-- which is refused after it exactly if it was refused before.
pub plan_restore-take_backup :
    (w : World) (kind : Kind) (since : ℕ) (b : Backup) (index index' : List Backup)
    → All (Earlier w.now) index
    → take_backup w kind since index ≡ ok (b, index')
    → plan_restore false false index' ≡ extended kind b (plan_restore false false index)
plan_restore-take_backup w full since b index index' v done =
    let row = take_backup_row w full since b index index' done in
    rw (row.0) (plan_restore-append_full b index (rw (row.1) refl) (rw (row.2) v))
plan_restore-take_backup w incremental since b index index' v done =
    let row = take_backup_row w incremental since b index index' done in
    rw (row.0) (plan_restore-append_incremental b index (rw (row.1) refl) (rw (row.2) v))
