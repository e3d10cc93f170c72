-- ===== src/Documents/Refinement.antt =====
-- AppendRevision of repo/internal/repository/document.go implements appending to a history.
use task.Base.{
  ℕ, ◌+◌, ◌≡◌, refl, inl, inr, false, Option, some, none, List, [], ◌∷◌, ◌++◌, String, arith,
  Bool-cases, ◌==◌, fetch, has, change, change-Distinct, fetch-change, fetch-change_ne, fetch-key,
  ==_iff, ==_refl, length, length-append,
}
use mathlib.Core.Path.{subst}
use task.Domain.Errors.{ok}
use task.Documents.Table.{
  Db, Document, DocumentRevision, document_key, of_document, supersede_current, bumped,
  append_locked, append_revision,
}
use task.Documents.History.{
  Version, Numbered, Histories, extend, Agrees, Refines, Numbered-append, Numbered-any,
  Numbered-supersede, of_document-append, of_document-supersede, of_document-supersede_ne,
  insert_clash,
}

-- What a document that the store knows looks like in the tables.
known :
    (o : Option Document) (rows : List DocumentRevision) (versions : List Version)
    → Agrees o rows (some versions)
    → (d : Document) × (o ≡ some d)
      × (d.current_revision ≡ length versions)
      × Numbered 1 (length versions) rows versions
known none rows versions h = absurd h
known (some d) rows versions h = (d, refl, h.0, h.1)

module _ (new_id now id : ℕ) (content : List ℕ) (content_type : String) (db : Db) where
  abbrev new_row : ℕ → DocumentRevision
  new_row next = record {
    id = new_id;
    document_id = id;
    revision = next;
    content = content;
    content_type = content_type;
    superseded = false;
    superseded_at = none;
    superseded_by = none;
    created_at = now;
  }

  abbrev after : ℕ → Db
  after current = record {
    documents = change document_key id (bumped now (current + 1)) db.documents;
    revisions = supersede_current now new_id id current db.revisions ++ new_row (current + 1) ∷ [];
  }

  append_locked-eq :
      (d : Document) (versions : List Version)
      → d.id ≡ id
      → d.current_revision ≡ length versions
      → Numbered 1 (length versions) (of_document id db.revisions) versions
      → has (λ (r : DocumentRevision). r.id) new_id db.revisions ≡ false
      → append_locked new_id now d content content_type db
        ≡ ok (new_row (length versions + 1), after (length versions))
  unfolding append_locked
  append_locked-eq d versions e c n fresh =
      let clash =
        insert_clash now new_id id (length versions) (length versions + 1) db.revisions fresh
          (Numbered-any 1 (length versions) (length versions + 1) _ versions n (omega arith)) in
      rw (e, c, clash) refl

  -- The document itself has one version more.
  after-Agrees :
      (versions : List Version) {d : Document}
      → fetch document_key id db.documents ≡ some d
      → Numbered 1 (length versions) (of_document id db.revisions) versions
      → Agrees
          (fetch document_key id (after (length versions)).documents)
          (of_document id (after (length versions)).revisions)
          (some (versions ++ record { content = content; content_type = content_type } ∷ []))
  after-Agrees versions {d} e n =
      let older = of_document-supersede now new_id id (length versions) db.revisions in
      let grown =
        Numbered-append 1 (length versions + 1) _ versions (new_row (length versions + 1))
          (Numbered-supersede now new_id 1 (length versions) (of_document id db.revisions) versions
            n (omega arith))
          (omega arith) (ground arith) in
      rw
        (
          fetch-change document_key id (bumped now (length versions + 1)) (λ a. refl) db.documents
              e,
          of_document-append id (supersede_current now new_id id (length versions) db.revisions)
              (new_row (length versions + 1)),
          ==_refl id,
          older,
          length-append versions (record { content = content; content_type = content_type } ∷ []),
        )
        (refl, grown)

  -- The other documents are as they were.
  after-Agrees_ne :
      (current j : ℕ) (o : Option (List Version))
      → (id == j) ≡ false
      → Agrees (fetch document_key j db.documents) (of_document j db.revisions) o
      → Agrees
          (fetch document_key j (after current).documents)
          (of_document j (after current).revisions)
          o
  after-Agrees_ne current j o other h =
      rw
        (
          fetch-change_ne document_key id j (bumped now (current + 1)) (λ a. refl) db.documents
              (ground arith),
          of_document-append j (supersede_current now new_id id current db.revisions)
              (new_row (current + 1)),
          other,
          of_document-supersede_ne now new_id id current j db.revisions other,
        )
        h

  after-Refines :
      (s : Histories) (versions : List Version) {d : Document}
      → Refines db s
      → s id ≡ some versions
      → fetch document_key id db.documents ≡ some d
      → Numbered 1 (length versions) (of_document id db.revisions) versions
      → Refines
          (after (length versions))
          (extend id (record { content = content; content_type = content_type }) s)
  after-Refines s versions ref e f n = record {
    distinct =
        change-Distinct document_key id (bumped now (length versions + 1)) (λ a. refl) db.documents
          ref.distinct;
    agrees = λ j. elim (Bool-cases (id == j)) [
      | inl same ↦
          subst
            (λ k.
              Agrees (fetch document_key k (after (length versions)).documents)
                (of_document k (after (length versions)).revisions)
                (extend id (record { content = content; content_type = content_type }) s k))
            ((==_iff id j).0 same) (rw (==_refl id, e) (after-Agrees versions f n))
      | inr other ↦ rw other (after-Agrees_ne (length versions) j (s j) other (ref.agrees j))
    ];
  }

-- In a database that implements a store of histories, appending a revision to a document that
-- exists, with an identifier not used for a revision, succeeds with the next number, and the new
-- database implements the store in which this document's history has the new version at its end and
-- every other history is as it was.
pub append_revision-Refines :
    (new_id now id : ℕ) (content : List ℕ) (content_type : String)
    → (db : Db) (s : Histories) (versions : List Version) → Refines db s
    → s id ≡ some versions
    → has (λ (r : DocumentRevision). r.id) new_id db.revisions ≡ false
    → (rev : DocumentRevision) × (db' : Db) × (append_revision new_id now id content content_type db
        ≡ ok (rev, db'))
      × (rev.revision ≡ length versions + 1)
      × Refines db' (extend id (record { content = content; content_type = content_type }) s)
unfolding append_revision
append_revision-Refines new_id now id content content_type db s versions ref e fresh =
    let (d, f, c, n) =
      known _ (of_document id db.revisions) versions (subst (Agrees _ _) e (ref.agrees id)) in
    (
      new_row new_id now id content content_type db (length versions + 1),
      after new_id now id content content_type db (length versions),
      rw f (
          append_locked-eq new_id now id content content_type db d versions
            (fetch-key document_key id db.documents f) c n fresh),
      refl,
      after-Refines new_id now id content content_type db s versions ref e f n,
    )
