-- ===== src/Governance/Erasure.antt =====
-- Whom RunDeletionExecutor of repo/internal/service/governance.go erases.
use task.Base.{
  ℕ, ◌≡◌, refl, inl, inr, Bool, false, not, ◌&&◌, ◌||◌, List, [], ◌∷◌, arith, any, select,
  delete_where, Bool-cases, ◌==◌, ap, sym, ◌∙◌,
}
use mathlib.Core.Path.{fun_ext}
use task.Domain.Models.{User}
use task.Analytics.Service.{AnalyticsService}
use task.Governance.Table.{Db, DeletionRequest, is_due, list_due_pending, hard_delete}
use task.Governance.Deletion.{
  State, Faults, deleted, hard_delete_one, delete_each, run_deletion_executor,
}

-- Both statements of the erasure succeed.
abbrev pub served : Faults → Bool
served f = not f.anonymise_down && not f.delete_down

-- One of the requests is served and is the user's.
abbrev pub erased_by : (DeletionRequest → Faults) → List DeletionRequest → ℕ → Bool
erased_by meet due id = any (λ d. served (meet d) && id == d.user_id) due

module _ {A : Type 0} where
  delete_where_none : (p : A → Bool) (xs : List A) → any p xs ≡ false → delete_where p xs ≡ xs
  delete_where_none p [] h = refl
  delete_where_none p (x ∷ xs) h = ground (arith, delete_where_none p xs)

  delete_where_twice :
      (p q : A → Bool) (xs : List A)
      → delete_where q (delete_where p xs) ≡ delete_where (λ x. p x || q x) xs
  delete_where_twice p q [] = refl
  delete_where_twice p q (x ∷ xs) = ground (arith, delete_where_twice p q xs)

  delete_where-false : (xs : List A) → delete_where (λ x. false) xs ≡ xs
  delete_where-false [] = refl
  delete_where-false (x ∷ xs) = ap (λ ys. x ∷ ys) (delete_where-false xs)

hard_delete-users :
    (id : ℕ) (s : State) (db : Db)
    → s.db ≡ db
    → (deleted s (hard_delete id db)).db.users ≡ delete_where (λ (u : User). u.id == id) db.users
unfolding hard_delete
hard_delete-users id s db same = elim (Bool-cases (any (λ (u : User). u.id == id) db.users)) [
  | inl there ↦ rw there refl
  | inr absent ↦ rw absent (
      ap (λ (d : Db). d.users) same
      ∙ sym (delete_where_none (λ (u : User). u.id == id) db.users absent))
]

one_erased :
    (a : AnalyticsService) (f : Faults) (d : DeletionRequest) (s : State)
    → (hard_delete_one a f d s).db.users
      ≡ delete_where (λ (u : User). served f && u.id == d.user_id) s.db.users
unfolding hard_delete_one
one_erased a f d s = elim (Bool-cases f.anonymise_down) [
  | inl broken ↦ rw (broken, delete_where-false s.db.users) refl
  | inr up ↦ elim (Bool-cases f.delete_down) [
    | inl broken ↦ rw (up, broken, delete_where-false s.db.users) refl
    | inr deletes ↦ rw (up, deletes) (hard_delete-users d.user_id _ s.db refl)
  ]
]

delete_each-users :
    (a : AnalyticsService) (meet : DeletionRequest → Faults) (due : List DeletionRequest)
    (s : State)
    → (delete_each a meet due s).db.users
      ≡ delete_where (λ (u : User). erased_by meet due u.id) s.db.users
unfolding delete_each
delete_each-users a meet [] s = sym (delete_where-false s.db.users)
delete_each-users a meet (d ∷ due) s =
    delete_each-users a meet due (hard_delete_one a (meet d) d s)
    ∙ (ap (delete_where (λ (u : User). erased_by meet due u.id)) (one_erased a (meet d) d s)
        ∙ delete_where_twice _ _ s.db.users)

-- The user has a pending request whose grace time is over and whose statements succeed.
abbrev pub erased : (now : ℕ) → (DeletionRequest → Faults) → Db → User → Bool
erased now meet db u =
    any (λ d. is_due now d && (served (meet d) && u.id == d.user_id)) db.deletions

due_erased :
    (now : ℕ) (meet : DeletionRequest → Faults) (rows : List DeletionRequest) (id : ℕ)
    → erased_by meet (select (is_due now) rows) id
      ≡ any (λ d. is_due now d && (served (meet d) && id == d.user_id)) rows
due_erased now meet [] id = refl
due_erased now meet (d ∷ rows) id = ground (arith, due_erased now meet rows id)

-- A run of the deletion executor whose listing succeeds leaves exactly the users, in their order, who
-- have no pending request with an elapsed grace time for which both statements of the erasure succeed.
pub executor_erases :
    (a : AnalyticsService) (now : ℕ) (meet : DeletionRequest → Faults) (s : State)
    → (run_deletion_executor a false now meet s).1.db.users
      ≡ delete_where (erased now meet s.db) s.db.users
unfolding run_deletion_executor list_due_pending
executor_erases a now meet s =
    delete_each-users a meet (select (is_due now) s.db.deletions) s
    ∙ ap (λ (p : User → Bool). delete_where p s.db.users)
        (fun_ext (λ (u : User). due_erased now meet s.db.deletions u.id))
