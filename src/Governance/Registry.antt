-- ===== src/Governance/Registry.antt =====
-- The dictionary, the tags and the consents of repo/internal/service/governance.go.
use task.Base.{ℕ, Bool, true, false, ◌||◌, none, some, String, str_eq}
use task.Domain.Errors.{Result, invalid_input, query, fail_if, ◌>>◌}
use task.Governance.Table.{
  Db, DataDictionaryEntry, Tag, ConsentRecord, upsert_dictionary, create_tag, insert_consent,
}

unfoldable pub upsert_dictionary_entry :
    (down : Bool) → (new_id : ℕ) → DataDictionaryEntry → Db → Result (DataDictionaryEntry × Db)
upsert_dictionary_entry down new_id e db = do
  fail_if (str_eq e.entity "" || str_eq e.field_name "") invalid_input
  query down tt
  upsert_dictionary new_id e db

-- `CreateTag`
unfoldable pub new_tag : (down : Bool) → (new_id : ℕ) → String → String → Db → Result (Tag × Db)
new_tag down new_id name description db =
    query down tt
    >> create_tag new_id (record { id = 0; name = name; description = description }) db

unfoldable pub grant_consent :
    (down : Bool) → (new_id now stamp user_id : ℕ) → String → String → Db → Result Db
grant_consent down new_id now stamp user_id scope version db =
    let c : ConsentRecord = record {
      id = 0;
      user_id = user_id;
      scope = scope;
      granted = true;
      version = version;
      granted_at = some now;
      withdrawn_at = none;
      created_at = 0;
    } in
    query down tt >> insert_consent new_id stamp c db

unfoldable pub withdraw_consent :
    (down : Bool) → (new_id now stamp user_id : ℕ) → String → String → Db → Result Db
withdraw_consent down new_id now stamp user_id scope version db =
    let c : ConsentRecord = record {
      id = 0;
      user_id = user_id;
      scope = scope;
      granted = false;
      version = version;
      granted_at = none;
      withdrawn_at = some now;
      created_at = 0;
    } in
    query down tt >> insert_consent new_id stamp c db
