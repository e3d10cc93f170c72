-- ===== src/Documents/Table.antt =====
-- The SQL of repo/internal/repository/document.go and the records of repo/internal/domain/document.go.
-- Rows stand in the order of their insertion. A violated foreign key is a failed query.
use task.Base.{
  ℕ, ◌+◌, Bool, true, false, ◌&&◌, ◌||◌, Option, none, some, List, [], ◌∷◌, ◌++◌, String, any,
  select, find_first, update_where, sort_by, fetch, change, leb, ◌==◌, if◌then◌else◌,
}
use task.Domain.Errors.{Result, ok, err, database, found, ◌>>=◌}
use task.Domain.Models.{nil_id}

pub data DocumentType : Type 0 where
  confirmation_pdf checkin_pass_png : DocumentType

abbrev pub type_eq : DocumentType → DocumentType → Bool
type_eq confirmation_pdf confirmation_pdf = true
type_eq checkin_pass_png checkin_pass_png = true
type_eq _ _ = false

pub record DocumentRevision : Type 0 where
  pub id : ℕ
  pub document_id : ℕ
  pub revision : ℕ
  pub content : List ℕ
  pub content_type : String
  pub superseded : Bool
  pub superseded_at : Option ℕ
  pub superseded_by : Option ℕ
  pub created_at : ℕ

pub record Document : Type 0 where
  pub id : ℕ
  pub owner_user_id : ℕ
  pub doc_type : DocumentType
  pub related_type : String
  pub related_id : ℕ
  pub current_revision : ℕ
  pub title : String
  pub created_at : ℕ
  pub updated_at : ℕ
  pub revisions : List DocumentRevision

pub record Db : Type 0 where
  pub documents : List Document
  pub revisions : List DocumentRevision

abbrev pub document_key : Document → ℕ
document_key d = d.id

-- `Create`: the primary key is the only constraint besides the foreign key.
unfoldable pub insert_document : (new_id now : ℕ) → Document → Db → Result (Document × Db)
insert_document new_id now d db =
    let row : Document = record d {
      id = if d.id == nil_id then new_id else d.id;
      current_revision = 0;
      created_at = now;
      updated_at = now;
    } in
    if any (λ e. e.id == row.id) db.documents
    then err database
    else ok (row, record db { documents = db.documents ++ row ∷ [] })

abbrev pub get_document : ℕ → Db → Result Document
get_document id db = found (fetch document_key id db.documents)

-- The rows of one document, oldest first.
abbrev pub of_document : ℕ → List DocumentRevision → List DocumentRevision
of_document id rows = select (λ r. r.document_id == id) rows

-- ORDER BY revision DESC
abbrev pub newer : DocumentRevision → DocumentRevision → Bool
newer a b = leb b.revision a.revision

-- The listing of `GetWithRevisions` leaves the content out.
abbrev pub without_content : DocumentRevision → DocumentRevision
without_content r = record r { content = [] }

abbrev pub without_contents : List DocumentRevision → List DocumentRevision
without_contents [] = []
without_contents (r ∷ rows) = without_content r ∷ without_contents rows

unfoldable pub get_with_revisions : ℕ → Db → Result Document
get_with_revisions id db = do
  d ← get_document id db
  ok (record d { revisions = without_contents (sort_by newer (of_document id db.revisions)) })

-- LIMIT 1
abbrev pub limit_one : List DocumentRevision → Option DocumentRevision
limit_one [] = none
limit_one (r ∷ rows) = some r

unfoldable pub get_current_revision : ℕ → Db → Result DocumentRevision
get_current_revision id db = found (limit_one (sort_by newer (of_document id db.revisions)))

unfoldable pub get_revision : (id revision : ℕ) → Db → Result DocumentRevision
get_revision id revision db =
    found (find_first (λ r. r.document_id == id && r.revision == revision) db.revisions)

-- The first UPDATE of `AppendRevision`.
abbrev pub supersede : (now new_id : ℕ) → DocumentRevision → DocumentRevision
supersede now new_id r = record r {
  superseded = true;
  superseded_at = some now;
  superseded_by = some new_id;
}

abbrev pub supersede_current :
    (now new_id id current : ℕ) → List DocumentRevision → List DocumentRevision
supersede_current now new_id id current rows =
    update_where (λ r. r.document_id == id && r.revision == current) (supersede now new_id) rows

-- The second UPDATE of `AppendRevision`.
abbrev pub bumped : (now next : ℕ) → Document → Document
bumped now next d = record d { current_revision = next; updated_at = now }

-- `AppendRevision` from the locked row on: one transaction, so a failed INSERT leaves no trace.
-- The INSERT fails on the primary key and on UNIQUE (document_id, revision).
unfoldable pub append_locked :
    (new_id now : ℕ) → Document → List ℕ → String → Db → Result (DocumentRevision × Db)
append_locked new_id now d content content_type db =
    let next = d.current_revision + 1 in
    let older = supersede_current now new_id d.id d.current_revision db.revisions in
    let row : DocumentRevision = record {
      id = new_id;
      document_id = d.id;
      revision = next;
      content = content;
      content_type = content_type;
      superseded = false;
      superseded_at = none;
      superseded_by = none;
      created_at = now;
    } in
    if any (λ r. r.id == new_id || (r.document_id == d.id && r.revision == next)) older
    then err database
    else ok (
      row,
      record {
        documents = change document_key d.id (bumped now next) db.documents;
        revisions = older ++ row ∷ [];
      },
    )

unfoldable pub append_revision :
    (new_id now id : ℕ) → List ℕ → String → Db → Result (DocumentRevision × Db)
append_revision new_id now id content content_type db = do
  d ← get_document id db
  append_locked new_id now d content content_type db

-- `ListByOwner`: ORDER BY created_at DESC.
unfoldable pub list_by_owner : ℕ → Db → List Document
list_by_owner owner db =
    sort_by (λ a b. leb b.created_at a.created_at)
      (select (λ d. d.owner_user_id == owner) db.documents)
