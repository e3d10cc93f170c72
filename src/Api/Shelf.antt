-- ===== src/Api/Shelf.antt =====
-- What repo/internal/api/handlers/document.go serves of the histories of documents.
use task.Base.{
  ℕ, ◌≡◌, refl, true, false, inl, inr, Bool-cases, Option-cases, Option, none, some, List, String,
  str_eq, ◌==◌, if◌then◌else◌, fetch, sort_by, ap, ◌∙◌,
}
use task.Base.Int.{pos}
use task.Domain.Errors.{Result, ok, err}
use task.Domain.Models.{User}
use task.Documents.Table.{
  Db, Document, DocumentRevision, document_key, get_with_revisions, without_contents, newer,
  of_document, get_current_revision, get_revision,
}
use task.Documents.History.{Version, version_of, Histories, Refines}
use task.Documents.Reading.{history, version_at, latest, shown, reads-Refines}
use task.Analytics.Table.{Db as Events}
use task.Analytics.Service.{AnalyticsService}
use task.Api.Requests.{Parsers, Response, answer, refuse, respond}
use task.Api.Refusals.{write_service_error}
use task.Api.Documents.{Call, Meets, Served, content, served, wanted}

-- What a client sees of an answer.
abbrev pub seen : Response Served → Response Version
seen (answer status (title, rev)) = answer status (version_of rev)
seen (refuse status) = refuse status

-- What a user may see of a document, where `v` is the version that is asked for.
abbrev pub permitted : User → Option Document → Result Version → Response Version
permitted user none v = refuse 404
permitted user (some d) v =
    if d.owner_user_id == user.id then respond write_service_error 200 (λ v. v) v else refuse 403

seen-served :
    (s : AnalyticsService) (w : Meets) (user : User) (id : ℕ) (meta : Document) (events : Events)
    (r : Result DocumentRevision)
    → seen (served s w user id meta events (some r)).0
      ≡ respond write_service_error 200 (λ v. v) (shown r)
seen-served s w user id meta events (ok rev) = refl
seen-served s w user id meta events (err e) = refl

module _ (s : AnalyticsService) (p : Parsers) (w : Meets) (user : User) (db : Db) (events : Events)
    (up : (c : Call) → w.down c ≡ false) where
  listed : ℕ → List DocumentRevision
  listed id = without_contents (sort_by newer (of_document id db.revisions))

  -- The handler once the identifier is read.
  content-permitted :
      (text revision : String) {id : ℕ} {r : Result DocumentRevision}
      → p.uuid text ≡ some id
      → wanted p w id revision db ≡ some r
      → seen (content s p w user text revision db events).0
        ≡ permitted user (fetch document_key id db.documents) (shown r)
  unfolding content get_with_revisions write_service_error
  content-permitted text revision {id} {r} read asked =
      elim (Option-cases (fetch document_key id db.documents)) [
        | inl gone ↦ rw (read, up Call.fetching, gone) refl
        | inr (d, there) ↦ elim (Bool-cases (d.owner_user_id == user.id)) [
          | inr other ↦ rw (read, up Call.fetching, there, other) refl
          | inl own ↦
              rw (read, up Call.fetching, there, own)
                (ap (λ o. seen (served s w user id (record d { revisions = listed id }) events o).0)
                    asked
                  ∙ seen-served s w user id (record d { revisions = listed id }) events r)
        ]
      ]

  -- In a database that implements a store of histories and answers, a request for the content of a
  -- document gets 404 if there is no such document, 403 if it is another user's, and else the last
  -- version of its history, or, with a number of a revision that the driver takes, the version with
  -- that number; 404 again if the history has none.
  pub content-Refines :
      (store : Histories) (text number : String) {id k : ℕ}
      → Refines db store
      → p.uuid text ≡ some id
      → str_eq number "" ≡ false
      → p.atoi number ≡ some (pos k)
      → w.is_integer (pos k) ≡ true
      → (seen (content s p w user text "" db events).0
          ≡ permitted user (fetch document_key id db.documents) (latest (history (store id))))
        × (seen (content s p w user text number db events).0
            ≡ permitted user
                (fetch document_key id db.documents)
                (version_at 1 (history (store id)) k))
  content-Refines store text number {id} {k} ref read given atoi fits =
      let (by_number, last) = reads-Refines db store id k ref in
      (
        content-permitted text "" {r = get_current_revision id db} read (rw (up Call.reading) refl)
            ∙ ap (permitted user (fetch document_key id db.documents)) last,
        content-permitted text number {r = get_revision id k db} read
              (rw (given, atoi, fits, up Call.reading) refl)
            ∙ ap (permitted user (fetch document_key id db.documents)) by_number,
      )
