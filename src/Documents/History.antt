-- ===== src/Documents/History.antt =====
-- repo/internal/repository/document.go against an abstract store: for each document the list of the
-- versions published so far, which only grows at its end.
use task.Base.{
  ℕ, suc, ◌+◌, ◌≡◌, ◌<◌, refl, inl, inr, false, ◌&&◌, ◌||◌, Option, some, none, List, [], ◌∷◌, ◌++◌,
  String, arith, Bool-cases, any, ltb, ◌==◌, if◌then◌else◌, update_where, Distinct, fetch, length,
}
use task.Documents.Table.{
  Db, Document, DocumentRevision, document_key, of_document, supersede, supersede_current,
}

-- What a reader sees of a revision.
pub record Version : Type 0 where
  pub content : List ℕ
  pub content_type : String

abbrev pub version_of : DocumentRevision → Version
version_of r = record { content = r.content; content_type = r.content_type }

-- The rows carry the versions in order, with the numbers from `next` on, and a row is superseded
-- exactly if its number is below `total`.
abbrev pub Numbered : (next total : ℕ) → List DocumentRevision → List Version → Type 0
Numbered next total [] [] = Unit
Numbered next total (r ∷ rows) (v ∷ versions) =
    (r.revision ≡ next)
    × (version_of r ≡ v)
    × (r.superseded ≡ ltb next total)
    × Numbered (suc next) total rows versions
Numbered next total _ _ = ⊥

-- The abstract store: `none` is a document that does not exist.
abbrev pub Histories : Type 0
Histories = ℕ → Option (List Version)

abbrev pub extended : Option (List Version) → Version → Option (List Version)
extended none v = none
extended (some versions) v = some (versions ++ v ∷ [])

abbrev pub extend : ℕ → Version → Histories → Histories
extend id v s j = if id == j then extended (s j) v else s j

abbrev pub Agrees : Option Document → List DocumentRevision → Option (List Version) → Type 0
Agrees none rows none = rows ≡ []
Agrees (some d) rows (some versions) =
    (d.current_revision ≡ length versions) × Numbered 1 (length versions) rows versions
Agrees _ _ _ = ⊥

pub record Refines (db : Db) (s : Histories) : Type 0 where
  pub distinct : Distinct document_key db.documents
  pub agrees :
      (id : ℕ) → Agrees (fetch document_key id db.documents) (of_document id db.revisions) (s id)

pub Numbered-append :
    (next total : ℕ) (rows : List DocumentRevision) (versions : List Version) (r : DocumentRevision)
    → Numbered next total rows versions
    → r.revision ≡ next + length versions
    → r.superseded ≡ ltb r.revision total
    → Numbered next total (rows ++ r ∷ []) (versions ++ version_of r ∷ [])
Numbered-append next total [] [] r h e q = ground arith
Numbered-append next total [] (v ∷ versions) r h e q = absurd h
Numbered-append next total (x ∷ rows) [] r h e q = absurd h
Numbered-append next total (x ∷ rows) (v ∷ versions) r h e q =
    (h.0, h.1, h.2, Numbered-append (suc next) total rows versions r h.3 (omega arith) q)

-- Superseding the last row makes room for one more.
pub Numbered-supersede :
    (now new_id next total : ℕ) (rows : List DocumentRevision) (versions : List Version)
    → Numbered next total rows versions
    → next + length versions ≡ total + 1
    → Numbered next
        (total + 1)
        (update_where (λ r. r.revision == total) (supersede now new_id) rows)
        versions
Numbered-supersede now new_id next total [] [] h e = tt
Numbered-supersede now new_id next total [] (v ∷ versions) h e = absurd h
Numbered-supersede now new_id next total (x ∷ rows) [] h e = absurd h
Numbered-supersede now new_id next total (x ∷ rows) (v ∷ versions) h e =
    let later = Numbered-supersede now new_id (suc next) total rows versions h.3 (omega arith) in
    elim (Bool-cases (x.revision == total)) [
      | inl last ↦ (ground arith, ground arith, ground arith, later)
      | inr older ↦ (ground arith, ground arith, ground arith, later)
    ]

pub of_document-append :
    (id : ℕ) (rows : List DocumentRevision) (r : DocumentRevision)
    → of_document id (rows ++ r ∷ [])
      ≡ (if r.document_id == id then of_document id rows ++ r ∷ [] else of_document id rows)
of_document-append id [] r = refl
of_document-append id (x ∷ rows) r = ground (arith, of_document-append id rows r)

pub of_document-supersede :
    (now new_id id current : ℕ) (rows : List DocumentRevision)
    → of_document id (supersede_current now new_id id current rows)
      ≡ update_where (λ r. r.revision == current) (supersede now new_id) (of_document id rows)
of_document-supersede now new_id id current [] = refl
of_document-supersede now new_id id current (x ∷ rows) =
    ground (arith, of_document-supersede now new_id id current rows)

pub of_document-supersede_ne :
    (now new_id id current j : ℕ) (rows : List DocumentRevision)
    → (id == j) ≡ false
    → of_document j (supersede_current now new_id id current rows) ≡ of_document j rows
of_document-supersede_ne now new_id id current j [] h = refl
of_document-supersede_ne now new_id id current j (x ∷ rows) h =
    ground (arith, of_document-supersede_ne now new_id id current j rows h)

-- No row of the document has the number after the last.
pub Numbered-any :
    (next total k : ℕ) (rows : List DocumentRevision) (versions : List Version)
    → Numbered next total rows versions
    → next + length versions < suc k
    → any (λ r. r.revision == k) rows ≡ false
Numbered-any next total k [] versions h e = refl
Numbered-any next total k (x ∷ rows) [] h e = absurd h
Numbered-any next total k (x ∷ rows) (v ∷ versions) h e =
    ground (arith, Numbered-any (suc next) total k rows versions h.3 (omega arith))

-- The INSERT violates no constraint.
pub insert_clash :
    (now new_id id current k : ℕ) (rows : List DocumentRevision)
    → any (λ r. r.id == new_id) rows ≡ false
    → any (λ r. r.revision == k) (of_document id rows) ≡ false
    → any
        (λ r. r.id == new_id || (r.document_id == id && r.revision == k))
        (supersede_current now new_id id current rows)
      ≡ false
insert_clash now new_id id current k [] h e = refl
insert_clash now new_id id current k (x ∷ rows) h e =
    ground (arith, insert_clash now new_id id current k rows)
