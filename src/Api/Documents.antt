-- ===== src/Api/Documents.antt =====
-- repo/internal/api/handlers/document.go. The binding of a request is given, with `none` for an error of
-- it, and so is what the renderer makes of a request.
use task.Base.{ℕ, Bool, Option, none, some, List, String, str_eq, ◌==◌, if◌then◌else◌}
use task.Base.Int.{ℤ, pos, negsuc}
use task.Domain.Errors.{Result, ok, err, not_found, database, query, ◌>>◌}
use task.Domain.Models.{User}
use task.Documents.Table.{
  Db, Document, DocumentRevision, get_with_revisions, get_current_revision, get_revision,
  list_by_owner,
}
use task.Documents.Service.{
  Entropy, Generated, generate_confirmation, generate_checkin_pass, Faults as WriteFaults,
}
use task.Analytics.Table.{Db as Events, AnalyticsEvent, download}
use task.Analytics.Service.{AnalyticsService, track}
use task.Api.Requests.{Parsers, Response, answer, refuse, respond, ◌or_400◌}
use task.Api.Refusals.{write_service_error}

pub record GenerateRequest : Type 0 where
  pub related_type : String
  pub related_id : String
  pub title : String
  pub fields : List (String × String)

-- The revision that is answered is its number alone.
abbrev pub generated : Db → Generated → Response (Document × ℕ) × Db
generated db (ok (d, rev), db') = (answer 201 (d, rev.revision), db')
generated db (err e, db') = (refuse (write_service_error e), db')

abbrev pub Renderer : Type 0
Renderer = String → List (String × String) → Result (List ℕ)

-- `Confirmation`
unfoldable pub confirmation :
    Renderer
    → Parsers
    → WriteFaults
    → Entropy
    → User
    → Option GenerateRequest
    → Db
    → Response (Document × ℕ) × Db
confirmation render p down e user none db = (refuse 400, db)
confirmation render p down e user (some req) db = elim (p.uuid req.related_id) [
  | none ↦ (refuse 400, db)
  | some rid ↦ generated db (
      generate_confirmation down e user.id req.related_type rid req.title
        (render req.title req.fields) db)
]

-- `CheckinPass`
unfoldable pub checkin_pass :
    Renderer
    → Parsers
    → WriteFaults
    → Entropy
    → User
    → Option GenerateRequest
    → Db
    → Response (Document × ℕ) × Db
checkin_pass render p down e user none db = (refuse 400, db)
checkin_pass render p down e user (some req) db = elim (p.uuid req.related_id) [
  | none ↦ (refuse 400, db)
  | some rid ↦ generated db (
      generate_checkin_pass down e user.id req.related_type rid req.title
        (render req.title req.fields) db)
]

-- The calls of the database, and whether the driver takes a number for a column of type INTEGER.
pub data Call : Type 0 where
  listing fetching reading tracking : Call

pub record Meets : Type 0 where
  pub down : Call → Bool
  pub is_integer : ℤ → Bool
  pub event_id : ℕ
  pub now : ℕ

-- `List`
unfoldable pub list_documents : Meets → User → Db → Response (List Document)
list_documents w user db =
    respond write_service_error 200 (λ docs. docs)
      (query (w.down listing) (list_by_owner user.id db))

abbrev pub own_document : User → Result Document → Response Document
own_document user (err e) = refuse (write_service_error e)
own_document user (ok d) = if d.owner_user_id == user.id then answer 200 d else refuse 403

abbrev pub fetched : Meets → (id : ℕ) → Db → Result Document
fetched w id db = query (w.down fetching) tt >> get_with_revisions id db

-- `Get`
unfoldable pub get : Parsers → Meets → User → (id : String) → Db → Response Document
get p w user text db = p.uuid text or_400 λ id. own_document user (fetched w id db)

-- `GetRevision` of a number that may be negative; the numbers of revisions are not.
abbrev pub numbered : (id : ℕ) → ℤ → Db → Result DocumentRevision
numbered id (pos n) db = get_revision id n db
numbered id (negsuc n) db = err not_found

-- The revision that the query asks for, if the text of its number can be read.
abbrev pub wanted :
    Parsers → Meets → (id : ℕ) → (revision : String) → Db → Option (Result DocumentRevision)
wanted p w id revision db =
    if str_eq revision ""
    then some (query (w.down reading) tt >> get_current_revision id db)
    else elim (p.atoi revision) [
      | none ↦ none
      | some n ↦
          some
            (if w.is_integer n then query (w.down reading) tt >> numbered id n db else err database)
    ]

-- The title, which names the file, and the revision.
abbrev pub Served : Type 0
Served = String × DocumentRevision

abbrev pub tracked : Events → Result (AnalyticsEvent × Events) → Events
tracked events (ok (e, events')) = events'
tracked events (err x) = events

abbrev pub served :
    AnalyticsService
    → Meets
    → User
    → (id : ℕ) → Document
    → Events
    → Option (Result DocumentRevision)
    → Response Served × Events
served s w user id meta events none = (refuse 400, events)
served s w user id meta events (some (err e)) = (refuse (write_service_error e), events)
served s w user id meta events (some (ok rev)) = (
  answer 200 (meta.title, rev),
  tracked events (track s (w.down tracking) w.event_id w.now download "document" id user.id events),
)

abbrev pub content_of :
    AnalyticsService
    → Parsers
    → Meets
    → User
    → (id : ℕ) → (revision : String) → Db
    → Events
    → Result Document
    → Response Served × Events
content_of s p w user id revision db events (err e) = (refuse (write_service_error e), events)
content_of s p w user id revision db events (ok meta) =
    if meta.owner_user_id == user.id
    then served s w user id meta events (wanted p w id revision db)
    else (refuse 403, events)

abbrev pub content_at :
    AnalyticsService
    → Parsers
    → Meets
    → User
    → Option ℕ
    → (revision : String) → Db
    → Events
    → Response Served × Events
content_at s p w user none revision db events = (refuse 400, events)
content_at s p w user (some id) revision db events =
    content_of s p w user id revision db events (fetched w id db)

-- `Content`: an empty text is a query without `revision`.
unfoldable pub content :
    AnalyticsService
    → Parsers
    → Meets
    → User
    → (id revision : String) → Db
    → Events
    → Response Served × Events
content s p w user text revision db events = content_at s p w user (p.uuid text) revision db events
