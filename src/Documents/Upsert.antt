-- ===== src/Documents/Upsert.antt =====
-- upsertDocument of repo/internal/service/document.go against the store of histories.
use task.Base.{ℕ, ◌≡◌, refl, false, Option, some, none, List, [], String, arith, has, ==_refl, ◌∙◌}
use mathlib.Core.Path.{subst}
use task.Domain.Errors.{ok, err, not_found}
use task.Documents.Table.{Db, Document, DocumentRevision, document_key, of_document}
use task.Documents.History.{Version, Histories, Agrees, Refines}
use task.Documents.Reading.{history}
use task.Documents.Publishing.{
  find_existing-fetch, fetch_absent, opened, created_row, insert_document-Refines, Published,
  known_history, append-Published,
}
use task.Documents.Service.{
  Call, Faults, Entropy, Subject, find_existing, upsert_found, upsert_document,
}

unknown : (rows : List DocumentRevision) (o : Option (List Version)) → Agrees none rows o → o ≡ none
unknown rows none a = refl
unknown rows (some versions) a = absurd a

module _ (down : Faults) (up : (c : Call) → down c ≡ false) (e : Entropy) (subject : Subject)
    (title : String) (content : List ℕ) (content_type : String) (db : Db) (s : Histories)
    (ref : Refines db s)
    (fresh_revision : has (λ (r : DocumentRevision). r.id) e.revision_id db.revisions ≡ false) where
  abbrev published : Version
  published = record { content = content; content_type = content_type }

  -- In a database that implements a store of histories, with no failing query and an unused
  -- identifier for the revision: a generation for a subject that has a document succeeds, answers
  -- this document with the number of the new revision, and the revision is the next one of the
  -- document's history, is what a reader then finds as the current one, and leaves every other
  -- history alone.
  pub upsert_existing-Published :
      (d : Document)
      → find_existing down subject db ≡ ok d
      → (rev : DocumentRevision) × (db' : Db) × (upsert_document down e subject title content
            content_type db
          ≡ (ok (record d { current_revision = rev.revision }, rev), db'))
        × Published s published d.id rev db'
  unfolding upsert_document upsert_found
  upsert_existing-Published d look =
      let row = find_existing-fetch down subject db ref.distinct look in
      let known = known_history _ _ (s d.id) (ref.agrees d.id) row in
      let (rev, db', run, done) =
        append-Published e d.id content content_type db s (history (s d.id)) ref known
          fresh_revision in
      (rev, db', rw (look, up Call.appending, run) refl, done)

  never_opened : (id : ℕ) → has document_key id db.documents ≡ false → s id ≡ none
  never_opened id free = unknown _ (s id) (
      subst (λ o. Agrees o (of_document id db.revisions) (s id)) (fetch_absent id db.documents free)
        (ref.agrees id))

  -- In a database that implements a store of histories, with no failing query and with unused
  -- identifiers for the document and the revision, a generation for a subject that has no document succeeds, and a reader then finds its content as the current
  -- revision of the answered document; every other history is as it was. The stored revision has
  -- the number 1, but the answered document still carries the revision number 0.
  pub upsert_new-Published :
      find_existing down subject db ≡ err not_found
      → has document_key e.document_id db.documents ≡ false
      → (d : Document) × (rev : DocumentRevision) × (db' : Db) × (upsert_document down e subject
            title content content_type db
          ≡ (ok (d, rev), db'))
        × Published s published d.id rev db'
        × (rev.revision ≡ 1)
        × (d.current_revision ≡ 0)
  unfolding upsert_document upsert_found created_row
  upsert_new-Published look fresh =
      let id : ℕ = e.document_id in
      let (db₁, made, same, ref₁) = insert_document-Refines e subject title db s ref fresh in
      let (rev, db₂, run, done) =
        append-Published e id content content_type db₁ (opened id s) [] ref₁ (rw (==_refl id) refl)
          (rw same fresh_revision) in
      (
        created_row e subject title,
        rev,
        db₂,
        rw (look, up Call.creating, made, up Call.appending, run) refl,
        record {
          later = done.later;
          refines = done.refines;
          grown = rw (done.grown, never_opened id fresh, ==_refl id) refl;
          others = λ j h. done.others j h ∙ ground arith;
          numbered = rw (done.numbered, never_opened id fresh, ==_refl id) refl;
          current = done.current;
        },
        rw (done.numbered, ==_refl id) refl,
        refl,
      )
