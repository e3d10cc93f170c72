-- ===== src/Documents/Publishing.antt =====
-- upsertDocument of repo/internal/service/document.go: what a reader finds after a generation.
use task.Base.{
  ℕ, ◌+◌, ◌≡◌, ◌≢◌, refl, inl, inr, false, Option, some, none, List, [], ◌∷◌, ◌++◌, String, arith,
  Bool-cases, find_first, ◌==◌, if◌then◌else◌, Distinct, fetch, has, ==_iff, ==_refl, length, All,
  All-select, All-sort_by, All-find_first, fetch_own, insert-Distinct, fetch-insert, ◌∙◌,
}
use mathlib.Core.Path.{subst}
use task.Domain.Errors.{ok, found}
use task.Documents.Table.{
  Db, Document, DocumentRevision, document_key, of_document, insert_document, append_revision,
  list_by_owner, get_current_revision,
}
use task.Documents.History.{Version, Histories, extend, Agrees, Refines}
use task.Documents.Refinement.{append_revision-Refines}
use task.Documents.Reading.{history, latest, shown, reads-Refines}
use task.Documents.Service.{
  listing, Faults, Entropy, Subject, is_about, find_existing, new_document,
}

found_row :
    (docs : List Document) (s : Subject) (rows : List Document) {d : Document}
    → All (λ e. fetch document_key e.id docs ≡ some e) rows
    → find_first (is_about s) rows ≡ some d
    → fetch document_key d.id docs ≡ some d
found_row docs s rows v h =
    All-find_first (λ e. fetch document_key e.id docs ≡ some e) (is_about s) rows v h

own_rows :
    (owner : ℕ) (db : Db)
    → Distinct document_key db.documents
    → All (λ e. fetch document_key e.id db.documents ≡ some e) (list_by_owner owner db)
unfolding list_by_owner
own_rows owner db distinct =
    All-sort_by _ _ _ (All-select _ _ db.documents (fetch_own document_key db.documents distinct))

found-some : {d : Document} (o : Option Document) → found o ≡ ok d → o ≡ some d
found-some none h = cc
found-some (some e) h = cc

-- What is found is a row of the table.
pub find_existing-fetch :
    (down : Faults) (s : Subject) (db : Db) {d : Document}
    → Distinct document_key db.documents
    → find_existing down s db ≡ ok d
    → fetch document_key d.id db.documents ≡ some d
unfolding find_existing
find_existing-fetch down s db {d} distinct h = elim (Bool-cases (down listing)) [
  | inl broken ↦ cc (rw broken at h)
  | inr up ↦
      found_row db.documents s (list_by_owner s.owner_id db) (own_rows s.owner_id db distinct)
        (found-some _ (rw up at h))
]

-- The store after a document was created with no revision.
abbrev pub opened : ℕ → Histories → Histories
opened id s j = if id == j then some [] else s j

absent : (o : Option (List Version)) (rows : List DocumentRevision) → Agrees none rows o → rows ≡ []
absent none rows a = a
absent (some versions) rows a = absurd a

pub fetch_absent :
    (id : ℕ) (rows : List Document)
    → has document_key id rows ≡ false
    → fetch document_key id rows ≡ none
fetch_absent id [] h = refl
fetch_absent id (d ∷ rows) h = ground (arith, fetch_absent id rows)

unfoldable pub created_row : Entropy → Subject → String → Document
created_row e s title = record (new_document s title) {
  id = e.document_id;
  created_at = e.create_time;
  updated_at = e.create_time;
}

pub insert_document-Refines :
    (e : Entropy) (subject : Subject) (title : String) (db : Db) (s : Histories)
    → Refines db s
    → has document_key e.document_id db.documents ≡ false
    → (db' : Db) × (insert_document e.document_id e.create_time (new_document subject title) db
        ≡ ok (created_row e subject title, db'))
      × (db'.revisions ≡ db.revisions)
      × Refines db' (opened e.document_id s)
unfolding insert_document created_row
insert_document-Refines e subject title db s ref fresh =
    let row : Document = created_row e subject title in
    let db' : Db = record db { documents = db.documents ++ row ∷ [] } in
    let agrees : (j : ℕ)
        → Agrees (fetch document_key j db'.documents) (of_document j db.revisions)
            (opened e.document_id s j) =
      λ j. elim (Bool-cases (e.document_id == j)) [
        | inl same ↦
            rw
              (
                fetch-insert document_key j db.documents row fresh,
                same,
                absent (s j) (of_document j db.revisions) (
                    subst (λ o. Agrees o (of_document j db.revisions) (s j))
                      (fetch_absent j db.documents (
                        subst (λ k. has document_key k db.documents ≡ false)
                          ((==_iff e.document_id j).0 same) fresh))
                      (ref.agrees j)),
              )
              (refl, tt)
        | inr other ↦ rw (fetch-insert document_key j db.documents row fresh, other) (ref.agrees j)
      ] in
    (
      db',
      rw fresh refl,
      refl,
      record {
        distinct = insert-Distinct document_key db.documents row ref.distinct fresh;
        agrees = agrees;
      },
    )

latest-append : (versions : List Version) (v : Version) → latest (versions ++ v ∷ []) ≡ ok v
latest-append [] v = refl
latest-append (w ∷ []) v = refl
latest-append (w ∷ x ∷ versions) v = latest-append (x ∷ versions) v

-- What a generation of one version into a document leaves behind.
pub record Published (s : Histories) (v : Version) (id : ℕ) (rev : DocumentRevision) (db' : Db)
    : Type 0 where
  pub later : Histories
  pub refines : Refines db' later
  pub grown : later id ≡ some (history (s id) ++ v ∷ [])
  pub others : (j : ℕ) → j ≢ id → later j ≡ s j
  pub numbered : rev.revision ≡ length (history (s id)) + 1
  pub current : shown (get_current_revision id db') ≡ ok v

pub known_history :
    (o : Option Document) (rows : List DocumentRevision) (h : Option (List Version)) {d : Document}
    → Agrees o rows h
    → o ≡ some d
    → h ≡ some (history h)
known_history none rows h a e = cc
known_history (some d) rows none a e = absurd a
known_history (some d) rows (some versions) a e = refl

pub append-Published :
    (e : Entropy) (id : ℕ) (content : List ℕ) (content_type : String)
    → (db : Db) (s : Histories) (versions : List Version) → Refines db s
    → s id ≡ some versions
    → has (λ (r : DocumentRevision). r.id) e.revision_id db.revisions ≡ false
    → (rev : DocumentRevision) × (db' : Db) × (append_revision e.revision_id e.append_time id
          content content_type db
        ≡ ok (rev, db'))
      × Published s (record { content = content; content_type = content_type }) id rev db'
append-Published e id content content_type db s versions ref known fresh =
    let v : Version = record { content = content; content_type = content_type } in
    let (rev, db', run, number, ref') =
      append_revision-Refines e.revision_id e.append_time id content content_type db s versions ref
        known fresh in
    (
      rev,
      db',
      run,
      record {
        later = extend id v s;
        refines = ref';
        grown = rw (==_refl id, known) refl;
        others = λ j h. ground arith;
        numbered = rw known number;
        current =
            ((reads-Refines db' (extend id v s) id 0 ref').1
              ∙ rw (==_refl id, known) (latest-append versions v));
      },
    )
