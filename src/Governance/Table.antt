-- ===== src/Governance/Table.antt =====
-- The SQL of repo/internal/repository/governance.go and HardDelete of repo/internal/repository/user.go,
-- with the records of repo/internal/domain/governance.go.
use task.Base.{
  ℕ, Bool, true, false, ◌&&◌, Option, none, some, List, [], ◌∷◌, ◌++◌, String, any, select,
  update_where, delete_where, sort_by, leb, ◌==◌, str_eq, if◌then◌else◌,
}
use task.Domain.Errors.{Result, ok, err, found, database, not_found}
use task.Domain.Models.{User, nil_id}

pub record DataDictionaryEntry : Type 0 where
  pub id : ℕ
  pub entity : String
  pub field_name : String
  pub data_type : String
  pub description : String
  pub sensitive : Bool
  pub tags : List String

pub record Tag : Type 0 where
  pub id : ℕ
  pub name : String
  pub description : String

pub record Tagging : Type 0 where
  pub id : ℕ
  pub tag_id : ℕ
  pub target_type : String
  pub target_id : ℕ

pub record ConsentRecord : Type 0 where
  pub id : ℕ
  pub user_id : ℕ
  pub scope : String
  pub granted : Bool
  pub version : String
  pub granted_at : Option ℕ
  pub withdrawn_at : Option ℕ
  pub created_at : ℕ

-- The CHECK on the column `status`.
pub data DeletionStatus : Type 0 where
  pending completed canceled : DeletionStatus

abbrev pub is_pending : DeletionStatus → Bool
is_pending pending = true
is_pending _ = false

pub record DeletionRequest : Type 0 where
  pub id : ℕ
  pub user_id : ℕ
  pub requested_at : ℕ
  pub process_after : ℕ
  pub status : DeletionStatus
  pub completed_at : Option ℕ

pub record Db : Type 0 where
  pub dictionary : List DataDictionaryEntry
  pub tags : List Tag
  pub taggings : List Tagging
  pub consents : List ConsentRecord
  pub deletions : List DeletionRequest
  pub users : List User

abbrev pub same_field : DataDictionaryEntry → DataDictionaryEntry → Bool
same_field a b = str_eq a.entity b.entity && str_eq a.field_name b.field_name

abbrev pub overwritten : DataDictionaryEntry → DataDictionaryEntry → DataDictionaryEntry
overwritten e old = record old {
  data_type = e.data_type;
  description = e.description;
  sensitive = e.sensitive;
  tags = e.tags;
}

-- The entry as it is left in memory, and the table: ON CONFLICT (entity, field) DO UPDATE.
unfoldable pub upsert_dictionary :
    (new_id : ℕ) → DataDictionaryEntry → Db → Result (DataDictionaryEntry × Db)
upsert_dictionary new_id e db =
    let row : DataDictionaryEntry = record e { id = if e.id == nil_id then new_id else e.id } in
    if any (same_field row) db.dictionary
    then ok (
      row,
      record db { dictionary = update_where (same_field row) (overwritten row) db.dictionary },
    )
    else if any (λ d. d.id == row.id) db.dictionary
    then err database
    else ok (row, record db { dictionary = db.dictionary ++ row ∷ [] })

abbrev pub has_name : Tag → Tag → Bool
has_name t other = str_eq other.name t.name

-- ON CONFLICT (name) DO NOTHING
unfoldable pub create_tag : (new_id : ℕ) → Tag → Db → Result (Tag × Db)
create_tag new_id t db =
    let row : Tag = record t { id = if t.id == nil_id then new_id else t.id } in
    if any (has_name row) db.tags
    then ok (row, db)
    else if any (λ (u : Tag). u.id == row.id) db.tags
    then err database
    else ok (row, record db { tags = db.tags ++ row ∷ [] })

abbrev pub same_tagging : Tagging → Tagging → Bool
same_tagging a b =
    a.tag_id == b.tag_id && str_eq a.target_type b.target_type && a.target_id == b.target_id

-- ON CONFLICT DO NOTHING; the tag has to exist.
unfoldable pub tag : (new_id tag_id : ℕ) → String → (target_id : ℕ) → Db → Result Db
tag new_id tag_id target_type target_id db =
    let row : Tagging = record {
      id = new_id;
      tag_id = tag_id;
      target_type = target_type;
      target_id = target_id;
    } in
    if any (same_tagging row) db.taggings
    then ok db
    else if any (λ (t : Tag). t.id == tag_id) db.tags
    then ok (record db { taggings = db.taggings ++ row ∷ [] })
    else err database

-- The JOIN of `ListTaggings`; the order by name is left to the database's collation.
unfoldable pub list_taggings :
    (text_le : String → String → Bool) → String → (target_id : ℕ) → Db → List Tag
list_taggings text_le target_type target_id db =
    let is_tagged : Tag → Bool = λ t.
      any
        (λ (g : Tagging).
          g.tag_id == t.id && str_eq g.target_type target_type && g.target_id == target_id)
        db.taggings in
    sort_by (λ (a b : Tag). text_le a.name b.name) (select is_tagged db.tags)

-- `UpsertConsent` only inserts. The user has to exist.
unfoldable pub insert_consent : (new_id now : ℕ) → ConsentRecord → Db → Result Db
insert_consent new_id now c db =
    let row : ConsentRecord = record c {
      id = if c.id == nil_id then new_id else c.id;
      created_at = if c.created_at == 0 then now else c.created_at;
    } in
    if any (λ (u : User). u.id == c.user_id) db.users
    then ok (record db { consents = db.consents ++ row ∷ [] })
    else err database

unfoldable pub list_consent : (user_id : ℕ) → Db → List ConsentRecord
list_consent user_id db =
    sort_by (λ (a b : ConsentRecord). leb b.created_at a.created_at)
      (select (λ (c : ConsentRecord). c.user_id == user_id) db.consents)

-- `CreateDeletionRequest`; the user has to exist.
unfoldable pub create_deletion_request :
    (new_id : ℕ) → DeletionRequest → Db → Result (DeletionRequest × Db)
create_deletion_request new_id d db =
    let row : DeletionRequest = record d { id = if d.id == nil_id then new_id else d.id } in
    if any (λ (u : User). u.id == d.user_id) db.users
    then ok (row, record db { deletions = db.deletions ++ row ∷ [] })
    else err database

abbrev pub first_of : List DeletionRequest → Option DeletionRequest
first_of [] = none
first_of (d ∷ rows) = some d

abbrev pub is_open_for : ℕ → DeletionRequest → Bool
is_open_for user_id d = d.user_id == user_id && is_pending d.status

unfoldable pub get_deletion_request : (user_id : ℕ) → Db → Result DeletionRequest
get_deletion_request user_id db = found (
    first_of (
      sort_by (λ (a b : DeletionRequest). leb b.requested_at a.requested_at)
        (select (is_open_for user_id) db.deletions)))

abbrev pub is_due : (now : ℕ) → DeletionRequest → Bool
is_due now d = is_pending d.status && leb d.process_after now

unfoldable pub list_due_pending : (now : ℕ) → Db → List DeletionRequest
list_due_pending now db = select (is_due now) db.deletions

unfoldable pub mark_deletion_complete : (id at : ℕ) → Db → Db
mark_deletion_complete id at db = record db {
  deletions =
      update_where (λ (d : DeletionRequest). d.id == id)
        (λ d. record d { status = completed; completed_at = some at }) db.deletions;
}

unfoldable pub cancel_deletion : (user_id : ℕ) → Db → Db
cancel_deletion user_id db = record db {
  deletions = update_where (is_open_for user_id) (λ d. record d { status = canceled }) db.deletions;
}

-- The DELETE of `HardDelete`, with the cascades on the tables of this state.
unfoldable pub hard_delete : (id : ℕ) → Db → Result Db
hard_delete id db =
    if any (λ (u : User). u.id == id) db.users
    then ok (record db {
      users = delete_where (λ (u : User). u.id == id) db.users;
      deletions = delete_where (λ (d : DeletionRequest). d.user_id == id) db.deletions;
      consents = delete_where (λ (c : ConsentRecord). c.user_id == id) db.consents;
    })
    else err not_found
