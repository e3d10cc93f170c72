-- ===== src/Documents/Reading.antt =====
-- The readers of repo/internal/repository/document.go against the abstract store.
use task.Base.{
  ℕ, suc, ◌≡◌, ◌<◌, refl, inl, inr, ◌&&◌, Option, some, none, List, [], ◌∷◌, arith, Bool-cases,
  find_first, ◌==◌, if◌then◌else◌, insert_by, ap, sort_by, length,
}
use task.Domain.Errors.{Result, ok, err, found, not_found}
use task.Documents.Table.{
  Db, Document, DocumentRevision, of_document, newer, limit_one, get_revision, get_current_revision,
}
use task.Documents.History.{Version, version_of, Numbered, Histories, Agrees, Refines}

abbrev pub history : Option (List Version) → List Version
history none = []
history (some versions) = versions

-- The version with a number, where the list starts at the number `next`.
abbrev pub version_at : (next : ℕ) → List Version → ℕ → Result Version
version_at next [] k = err not_found
version_at next (v ∷ versions) k = if next == k then ok v else version_at (suc next) versions k

abbrev pub latest : List Version → Result Version
latest [] = err not_found
latest (v ∷ []) = ok v
latest (v ∷ w ∷ versions) = latest (w ∷ versions)

-- What a reader sees of an answer.
abbrev pub shown : Result DocumentRevision → Result Version
shown (err e) = err e
shown (ok r) = ok (version_of r)

find_in_document :
    (id k : ℕ) (rows : List DocumentRevision)
    → find_first (λ r. r.document_id == id && r.revision == k) rows
      ≡ find_first (λ r. r.revision == k) (of_document id rows)
find_in_document id k [] = refl
find_in_document id k (r ∷ rows) = ground (arith, find_in_document id k rows)

find_numbered :
    (next total k : ℕ) (rows : List DocumentRevision) (versions : List Version)
    → Numbered next total rows versions
    → shown (found (find_first (λ r. r.revision == k) rows)) ≡ version_at next versions k
find_numbered next total k [] [] h = refl
find_numbered next total k [] (v ∷ versions) h = absurd h
find_numbered next total k (r ∷ rows) [] h = absurd h
find_numbered next total k (r ∷ rows) (v ∷ versions) h =
    let later = find_numbered (suc next) total k rows versions h.3 in
    elim (Bool-cases (next == k)) [
      | inl hit ↦ rw (h.0, hit, h.1) refl
      | inr miss ↦ rw (h.0, miss) later
    ]

-- The newest row stays in front of an older one.
limit_one-insert_by :
    (r top : DocumentRevision) (sorted : List DocumentRevision)
    → limit_one sorted ≡ some top
    → r.revision < top.revision
    → limit_one (insert_by newer r sorted) ≡ some top
limit_one-insert_by r top [] h lt = cc
limit_one-insert_by r top (x ∷ sorted) h lt = ground arith

newest :
    (next total : ℕ) (r : DocumentRevision) (rows : List DocumentRevision)
    → (v : Version) (versions : List Version) → Numbered next total (r ∷ rows) (v ∷ versions)
    → (top : DocumentRevision) × (limit_one (sort_by newer (r ∷ rows)) ≡ some top)
      × (next < suc top.revision)
      × (ok (version_of top) ≡ latest (v ∷ versions))
newest next total r [] v [] h = (r, refl, omega (arith, h.0), ap ok h.1)
newest next total r [] v (w ∷ versions) h = absurd h.3
newest next total r (x ∷ rows) v [] h = absurd h.3
newest next total r (x ∷ rows) v (w ∷ versions) h =
    let (top, e, lt, same) = newest (suc next) total x rows w versions h.3 in
    (
      top,
      limit_one-insert_by r top (sort_by newer (x ∷ rows)) e (omega (arith, h.0)),
      omega arith,
      same,
    )

current_numbered :
    (total : ℕ) (rows : List DocumentRevision) (versions : List Version)
    → Numbered 1 total rows versions
    → shown (found (limit_one (sort_by newer rows))) ≡ latest versions
current_numbered total [] [] h = refl
current_numbered total [] (v ∷ versions) h = absurd h
current_numbered total (r ∷ rows) [] h = absurd h
current_numbered total (r ∷ rows) (v ∷ versions) h =
    let (top, e, lt, same) = newest 1 total r rows v versions h in rw e same

-- The rows of a document carry its history; there are none if the store has no such document.
rows_numbered :
    (o : Option Document) (rows : List DocumentRevision) (h : Option (List Version))
    → Agrees o rows h
    → Numbered 1 (length (history h)) rows (history h)
rows_numbered none rows none a = rw a tt
rows_numbered none rows (some versions) a = absurd a
rows_numbered (some d) rows none a = absurd a
rows_numbered (some d) rows (some versions) a = a.1

-- In a database that implements a store of histories, GetRevision answers the version with that
-- number, GetCurrentRevision the last version, and both answer not found where there is none.
pub reads-Refines :
    (db : Db) (s : Histories) (id k : ℕ)
    → Refines db s
    → (shown (get_revision id k db) ≡ version_at 1 (history (s id)) k)
      × (shown (get_current_revision id db) ≡ latest (history (s id)))
unfolding get_revision get_current_revision
reads-Refines db s id k ref =
    let n = rows_numbered _ (of_document id db.revisions) (s id) (ref.agrees id) in
    (rw (find_in_document id k db.revisions) (find_numbered 1 _ k _ _ n), current_numbered _ _ _ n)
