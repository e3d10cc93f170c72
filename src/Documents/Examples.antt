-- ===== src/Documents/Examples.antt =====
-- Concrete runs of repo/internal/service/document.go and repo/internal/repository/document.go.
use task.Base.{
  List, ℕ, ◌≡◌, refl, inl, inr, false, some, none, [], ◌∷◌, ◌++◌, ◌==◌, if◌then◌else◌, Bool-cases,
  length, fetch,
}
use task.Domain.Errors.{ok}
use task.Documents.Table.{
  Db, Document, DocumentRevision, confirmation_pdf, append_revision, list_by_owner, document_key,
  of_document,
}
use task.Documents.History.{Version, Histories, extend, Agrees, Refines}
use task.Documents.Refinement.{append_revision-Refines}
use task.Documents.Publishing.{Published}
use task.Documents.Upsert.{upsert_new-Published}
use task.Documents.Service.{Faults, Entropy, Subject, find_existing, upsert_document}
use task.Documents.Pdf.{bytes, content_stream, render_simple_pdf}
use task.Documents.PdfLayout.{
  Entries, Shows, StandsAt, Placed, object_texts, render_simple_pdf-Placed,
}

abbrev pub pass : Document
pass = record {
  id = 1;
  owner_user_id = 5;
  doc_type = confirmation_pdf;
  related_type = "booking";
  related_id = 8;
  current_revision = 1;
  title = "Berth 4";
  created_at = 10;
  updated_at = 10;
  revisions = [];
}

abbrev first_revision : DocumentRevision
first_revision = record {
  id = 2;
  document_id = 1;
  revision = 1;
  content = 37 ∷ [];
  content_type = "application/pdf";
  superseded = false;
  superseded_at = none;
  superseded_by = none;
  created_at = 10;
}

abbrev pub stored : Db
stored = record { documents = pass ∷ []; revisions = first_revision ∷ [] }

abbrev pub first_version : Version
first_version = record { content = 37 ∷ []; content_type = "application/pdf" }

abbrev second_version : Version
second_version = record { content = 38 ∷ []; content_type = "application/pdf" }

abbrev pub known : Histories
known id = if 1 == id then some (first_version ∷ []) else none

known-Agrees :
    (id : ℕ)
    → Agrees (fetch document_key id stored.documents) (of_document id stored.revisions) (known id)
known-Agrees id = elim (Bool-cases (1 == id)) [
  | inl same ↦ rw same (refl, (refl, refl, refl, tt))
  | inr other ↦ rw other refl
]

pub stored-Refines : Refines stored known
stored-Refines = record { distinct = (refl, tt); agrees = known-Agrees }

append_revision-Refines_example :
    (rev : DocumentRevision) × (db' : Db) × (append_revision 3 20 1
        (38 ∷ [])
        "application/pdf"
        stored
      ≡ ok (rev, db'))
    × (rev.revision ≡ 2)
    × Refines db' (extend 1 second_version known)
append_revision-Refines_example =
    append_revision-Refines 3 20 1 (38 ∷ []) "application/pdf" stored known (first_version ∷ [])
      stored-Refines refl refl

abbrev up : Faults
up c = false

abbrev entropy : Entropy
entropy = record { document_id = 6; revision_id = 3; create_time = 20; append_time = 21 }

abbrev about : ℕ → Subject
about booking = record {
  owner_id = 5;
  related_type = "booking";
  related_id = booking;
  doc_type = confirmation_pdf;
}

upsert_new-Published_example :
    (d : Document) × (rev : DocumentRevision) × (db' : Db) × (upsert_document up entropy
        (about 9)
        "Berth 5"
        (38 ∷ [])
        "application/pdf"
        stored
      ≡ (ok (d, rev), db'))
    × Published known second_version d.id rev db'
    × (rev.revision ≡ 1)
    × (d.current_revision ≡ 0)
unfolding find_existing list_by_owner
upsert_new-Published_example =
    upsert_new-Published up (λ c. refl) entropy (about 9) "Berth 5" (38 ∷ []) "application/pdf"
      stored known stored-Refines refl refl refl

render_simple_pdf-Placed_example :
    let file = render_simple_pdf (72 ∷ []) (50 ∷ []) ((75 ∷ [], 86 ∷ []) ∷ []) in
    (offsets entries start : List ℕ) × (table : ℕ) × Placed file offsets
      (object_texts (length (content_stream (72 ∷ []) (50 ∷ []) ((75 ∷ [], 86 ∷ []) ∷ []))))
    × Entries offsets entries
    × Shows table start
    × StandsAt file table (
        bytes "xref\n0 6\n0000000000 65535 f \n"
        ++ (entries
            ++ (bytes "trailer\n<< /Size 6 /Root 1 0 R >>\nstartxref\n"
                ++ (start ++ bytes "\n%%EOF\n"))))
render_simple_pdf-Placed_example =
    render_simple_pdf-Placed (72 ∷ []) (50 ∷ []) ((75 ∷ [], 86 ∷ []) ∷ [])
