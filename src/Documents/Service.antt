-- ===== src/Documents/Service.antt =====
-- repo/internal/service/document.go, without the rendering: what is stored and what is answered.
use task.Base.{ℕ, Bool, ◌&&◌, List, [], String, find_first, ◌==◌, str_eq}
use task.Domain.Errors.{Result, ok, err, not_found, found, query, ◌>>=◌, ◌>>◌}
use task.Documents.Table.{
  Db, Document, DocumentRevision, DocumentType, confirmation_pdf, checkin_pass_png, type_eq,
  insert_document, append_revision, list_by_owner,
}

-- The database's calls in one generation, each of which may fail.
pub data Call : Type 0 where
  listing creating appending : Call

abbrev pub Faults : Type 0
Faults = Call → Bool

-- What `uuid.New` and `time.Now` give: one identifier for a document, one for a revision.
pub record Entropy : Type 0 where
  pub document_id : ℕ
  pub revision_id : ℕ
  pub create_time : ℕ
  pub append_time : ℕ

-- What a document is generated for.
pub record Subject : Type 0 where
  pub owner_id : ℕ
  pub related_type : String
  pub related_id : ℕ
  pub doc_type : DocumentType

abbrev pub is_about : Subject → Document → Bool
is_about s d =
    str_eq d.related_type s.related_type
    && d.related_id == s.related_id
    && type_eq d.doc_type s.doc_type

unfoldable pub find_existing : Faults → Subject → Db → Result Document
find_existing down s db = do
  docs ← query (down listing) (list_by_owner s.owner_id db)
  found (find_first (is_about s) docs)

abbrev pub new_document : Subject → String → Document
new_document s title = record {
  id = 0;
  owner_user_id = s.owner_id;
  doc_type = s.doc_type;
  related_type = s.related_type;
  related_id = s.related_id;
  current_revision = 0;
  title = title;
  created_at = 0;
  updated_at = 0;
  revisions = [];
}

-- A call of `AppendRevision`, and the database after it.
abbrev pub saved : Db → Result (DocumentRevision × Db) → Result DocumentRevision × Db
saved db (ok (rev, db')) = (ok rev, db')
saved db (err x) = (err x, db)

abbrev pub append_call :
    Faults → Entropy → ℕ → List ℕ → String → Db → Result (DocumentRevision × Db)
append_call down e id content content_type db =
    query (down appending) tt
    >> append_revision e.revision_id e.append_time id content content_type db

abbrev pub appended : Faults → Entropy → ℕ → List ℕ → String → Db → Result DocumentRevision × Db
appended down e id content content_type db =
    saved db (append_call down e id content content_type db)

abbrev pub Generated : Type 0
Generated = Result (Document × DocumentRevision) × Db

-- The answer with `existing.CurrentRevision = rev.Revision`.
abbrev pub answer_existing : Document → Result DocumentRevision × Db → Generated
answer_existing d (ok rev, db) = (ok (record d { current_revision = rev.revision }, rev), db)
answer_existing d (err x, db) = (err x, db)

-- The answer after a Create: `d` as `Create` left it.
abbrev pub answer_new : Document → Result DocumentRevision × Db → Generated
answer_new d (ok rev, db) = (ok (d, rev), db)
answer_new d (err x, db) = (err x, db)

abbrev pub created : Faults → Entropy → List ℕ → String → Result (Document × Db) → Db → Generated
created down e content content_type (err x) db = (err x, db)
created down e content content_type (ok (d, db')) db =
    answer_new d (appended down e d.id content content_type db')

abbrev pub create_call : Faults → Entropy → Subject → String → Db → Result (Document × Db)
create_call down e s title db =
    query (down creating) tt
    >> insert_document e.document_id e.create_time (new_document s title) db

-- `upsertDocument` once the existing document was looked for.
unfoldable pub upsert_found :
    Faults → Entropy → Subject → String → List ℕ → String → Result Document → Db → Generated
upsert_found down e s title content content_type (ok existing) db =
    answer_existing existing (appended down e existing.id content content_type db)
upsert_found down e s title content content_type (err not_found) db =
    created down e content content_type (create_call down e s title db) db
upsert_found down e s title content content_type (err x) db = (err x, db)

unfoldable pub upsert_document :
    Faults → Entropy → Subject → String → List ℕ → String → Db → Generated
upsert_document down e s title content content_type db =
    upsert_found down e s title content content_type (find_existing down s db) db

-- What `GenerateConfirmation` and `GenerateCheckinPass` are given to make a subject of.
abbrev pub subject_of : (owner_id : ℕ) → String → (related_id : ℕ) → DocumentType → Subject
subject_of owner_id related_type related_id t = record {
  owner_id = owner_id;
  related_type = related_type;
  related_id = related_id;
  doc_type = t;
}

-- The bytes of the rendering, or its error, are given.
unfoldable pub generate_confirmation :
    Faults
    → Entropy
    → (owner_id : ℕ) → String
    → (related_id : ℕ) → String
    → Result (List ℕ)
    → Db
    → Generated
generate_confirmation down e owner_id related_type related_id title (err x) db = (err x, db)
generate_confirmation down e owner_id related_type related_id title (ok pdf) db =
    let subject = subject_of owner_id related_type related_id confirmation_pdf in
    upsert_document down e subject title pdf "application/pdf" db

unfoldable pub generate_checkin_pass :
    Faults
    → Entropy
    → (owner_id : ℕ) → String
    → (related_id : ℕ) → String
    → Result (List ℕ)
    → Db
    → Generated
generate_checkin_pass down e owner_id related_type related_id title (err x) db = (err x, db)
generate_checkin_pass down e owner_id related_type related_id title (ok png) db =
    let subject = subject_of owner_id related_type related_id checkin_pass_png in
    upsert_document down e subject title png "image/png" db
