-- ===== src/Webhooks/Table.antt =====
-- The SQL of repo/internal/repository/webhook.go, and the records of repo/internal/domain/governance.go
-- that it stores. A violated foreign key is a failed query.
use task.Base.{
  take, ℕ, Bool, true, false, ◌&&◌, ◌||◌, List, [], ◌∷◌, ◌++◌, String, any, select, find_first,
  update_where, sort_by, leb, ltb, ◌==◌, if◌then◌else◌,
}
use task.Domain.Errors.{Result, ok, err, found, database}
use task.Domain.Models.{nil_id}

pub record Webhook : Type 0 where
  pub id : ℕ
  pub name : String
  pub target_url : String
  pub event_filter : List String
  pub field_mapping : List (String × String)
  pub secret : String
  pub enabled : Bool
  pub created_at : ℕ

-- The CHECK on the column `status`.
pub data DeliveryStatus : Type 0 where
  pending delivered failed dead : DeliveryStatus

abbrev pub is_pending : DeliveryStatus → Bool
is_pending pending = true
is_pending _ = false

pub record WebhookDelivery : Type 0 where
  pub id : ℕ
  pub webhook_id : ℕ
  pub event_type : String
  pub payload : List ℕ
  pub attempts : ℕ
  pub next_attempt_at : ℕ
  pub status : DeliveryStatus
  pub last_response : String
  pub created_at : ℕ

pub record Db : Type 0 where
  pub webhooks : List Webhook
  pub deliveries : List WebhookDelivery

-- A creation time of 0 is no time.
unfoldable pub insert_webhook : (new_id now : ℕ) → Webhook → Db → Result (Webhook × Db)
insert_webhook new_id now w db =
    let row : Webhook = record w {
      id = if w.id == nil_id then new_id else w.id;
      created_at = if w.created_at == 0 then now else w.created_at;
    } in
    if any (λ v. v.id == row.id) db.webhooks
    then err database
    else ok (row, record db { webhooks = db.webhooks ++ row ∷ [] })

unfoldable pub list_webhooks : Db → List Webhook
list_webhooks db = sort_by (λ a b. leb b.created_at a.created_at) db.webhooks

abbrev pub get_webhook : ℕ → Db → Result Webhook
get_webhook id db = found (find_first (λ (w : Webhook). w.id == id) db.webhooks)

unfoldable pub disable : ℕ → Db → Db
disable id db = record db {
  webhooks =
      update_where (λ (w : Webhook). w.id == id) (λ w. record w { enabled = false }) db.webhooks;
}

-- The delivery is given with its status and the time of its first attempt.
unfoldable pub enqueue_delivery : (new_id now : ℕ) → WebhookDelivery → Db → Result Db
enqueue_delivery new_id now d db =
    let row : WebhookDelivery = record d { id = new_id; created_at = now } in
    if any (λ e. e.id == new_id) db.deliveries
    then err database
    else ok (record db { deliveries = db.deliveries ++ row ∷ [] })

-- A limit that is out of range is replaced.
abbrev pub clamp_limit : (default_limit max_limit limit : ℕ) → ℕ
clamp_limit default_limit max_limit limit =
    if limit == 0 || ltb max_limit limit then default_limit else limit

abbrev pub is_due : ℕ → WebhookDelivery → Bool
is_due before d = is_pending d.status && leb d.next_attempt_at before

unfoldable pub dequeue_pending : (before limit : ℕ) → Db → List WebhookDelivery
dequeue_pending before limit db =
    let due =
      sort_by (λ a b. leb a.next_attempt_at b.next_attempt_at)
        (select (is_due before) db.deliveries) in
    take (clamp_limit 25 100 limit) due

abbrev pub attempted : ℕ → DeliveryStatus → String → ℕ → WebhookDelivery → WebhookDelivery
attempted attempts status last_response next_attempt d = record d {
  attempts = attempts;
  status = status;
  last_response = last_response;
  next_attempt_at = next_attempt;
}

unfoldable pub update_delivery_attempt :
    (id attempts : ℕ) → DeliveryStatus → String → (next_attempt : ℕ) → Db → Db
update_delivery_attempt id attempts status last_response next_attempt db = record db {
  deliveries =
      update_where (λ (d : WebhookDelivery). d.id == id)
        (attempted attempts status last_response next_attempt) db.deliveries;
}

unfoldable pub list_deliveries : (limit : ℕ) → Db → List WebhookDelivery
list_deliveries limit db =
    take (clamp_limit 50 200 limit) (sort_by (λ a b. leb b.created_at a.created_at) db.deliveries)
