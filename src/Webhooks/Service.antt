-- ===== src/Webhooks/Service.antt =====
-- repo/internal/service/webhook.go: creating a webhook, emitting an event, and the delivery cycle.
use task.Base.{
  ℕ, zero, suc, ◌+◌, ◌*◌, ◌^◌, Bool, true, not, ◌&&◌, ◌||◌, Option, none, some, List, [], ◌∷◌,
  String, any, str_eq, leb, if◌then◌else◌,
}
use task.Domain.Errors.{Error, Result, ok, err, query, fail_if, invalid_input, ◌>>◌}
use task.Domain.Models.{second, hour}
use task.Webhooks.Target.{Net, Url, validate_webhook_target_url}
use task.Webhooks.Mapping.{Json, apply_field_mapping}
use task.Webhooks.Table.{
  Webhook, WebhookDelivery, Db, DeliveryStatus, pending, delivered, failed, dead, insert_webhook,
  list_webhooks, get_webhook, enqueue_delivery, dequeue_pending, update_delivery_attempt,
}

abbrev pub webhook_max_attempts : ℕ
webhook_max_attempts = 5

-- An `int` that is at most 0 is 0.
unfoldable pub webhook_backoff : ℕ → ℕ
webhook_backoff zero = 0
webhook_backoff (suc n) = 2 ^ n * second

unfoldable pub next_webhook_status : ℕ → DeliveryStatus
next_webhook_status attempts = if leb webhook_max_attempts attempts then dead else pending

-- `Create`, with the database as it is after it.
abbrev pub create_valid :
    (down : Bool) → (new_id now : ℕ) → Webhook → Db → Result Url → Result (Webhook × Db)
create_valid down new_id now w db (err e) = err invalid_input
create_valid down new_id now w db (ok parsed) =
    query down tt
    >> insert_webhook new_id now (record w { target_url = parsed.text; enabled = true }) db

unfoldable pub create :
    Net → (down : Bool) → (new_id now : ℕ) → Webhook → Db → Result (Webhook × Db)
create net down new_id now w db = do
  fail_if (str_eq w.name "") invalid_input
  create_valid down new_id now w db (validate_webhook_target_url net w.target_url)

abbrev pub listed : String → List String → Bool
listed event_type filter = any (λ f. str_eq f "*" || str_eq f event_type) filter

unfoldable pub filter_accepts : List String → String → Bool
filter_accepts [] event_type = true
filter_accepts (f ∷ filter) event_type = listed event_type (f ∷ filter)

abbrev pub new_delivery : Json → ℕ → String → List ℕ → Webhook → WebhookDelivery
new_delivery json now event_type body h = record {
  id = 0;
  webhook_id = h.id;
  event_type = event_type;
  payload = apply_field_mapping json body h.field_mapping;
  attempts = 0;
  next_attempt_at = now;
  status = pending;
  last_response = "";
  created_at = 0;
}

-- What a call of `EnqueueDelivery` meets: the identifier that it draws, its time, and a fault.
pub record Queueing : Type 0 where
  pub new_id : ℕ
  pub at : ℕ
  pub down : Bool

-- The error of `EnqueueDelivery` is dropped.
abbrev pub ignoring : Db → Result Db → Db
ignoring db (ok db') = db'
ignoring db (err e) = db

abbrev pub enqueue : Json → (now : ℕ) → String → List ℕ → Queueing → Webhook → Db → Db
enqueue json now event_type body q h db =
    ignoring db (
      query q.down tt
      >> enqueue_delivery q.new_id q.at (new_delivery json now event_type body h) db)

abbrev pub wants : String → Webhook → Bool
wants event_type h = h.enabled && filter_accepts h.event_filter event_type

-- One round of the loop of `Emit`.
abbrev pub offer : Json → (now : ℕ) → String → List ℕ → Queueing → Webhook → Db → Db
offer json now event_type body q h db =
    if wants event_type h then enqueue json now event_type body q h db else db

-- The circumstances of a call may depend on the webhook.
unfoldable pub fan_out :
    Json → (now : ℕ) → String → List ℕ → (Webhook → Queueing) → List Webhook → Db → Db
fan_out json now event_type body meet [] db = db
fan_out json now event_type body meet (h ∷ hooks) db =
    fan_out json now event_type body meet hooks (offer json now event_type body (meet h) h db)

-- `Emit`: the listing may fail, and so may the encoding of the payload.
unfoldable pub emit :
    Json
    → (down : Bool) → (now : ℕ) → String
    → Option (List ℕ)
    → (Webhook → Queueing)
    → Db
    → Result Db
emit json down now event_type none meet db = query down tt >> err Error.internal
emit json down now event_type (some body) meet db =
    query down tt >> ok (fan_out json now event_type body meet (list_webhooks db) db)

-- How the receiver answers.
pub data Answer : Type 0 where
  transport_error : String → Answer
  responded : (status_code : ℕ) → (shown : String) → Answer

-- The world that one attempt meets. `bad_request` is the error of building the request, if any;
-- `update_down` says that the final UPDATE fails, whose error is dropped.
pub record World : Type 1 where
  pub net : Net
  pub get_down : Bool
  pub bad_request : Option String
  pub answer : Answer
  pub now : ℕ
  pub blocked : String
  pub update_down : Bool

abbrev pub save : World → (id attempts : ℕ) → DeliveryStatus → String → ℕ → Db → Db
save w id attempts status response next_attempt db =
    if w.update_down
    then db
    else update_delivery_attempt id attempts status response next_attempt db

abbrev pub failure_with : World → (id attempts : ℕ) → String → DeliveryStatus → Db → Db
failure_with w id attempts reason dead db = save w id attempts dead reason w.now db
failure_with w id attempts reason _ db =
    save w id attempts pending reason (w.now + webhook_backoff attempts) db

unfoldable pub handle_failure : World → (id attempts : ℕ) → String → Db → Db
handle_failure w id attempts reason db =
    failure_with w id attempts reason (next_webhook_status attempts) db

abbrev pub is_success : ℕ → Bool
is_success status_code = leb 200 status_code && not (leb 300 status_code)

abbrev pub settle_answer : World → WebhookDelivery → Answer → Db → Db
settle_answer w d (transport_error reason) db = handle_failure w d.id (d.attempts + 1) reason db
settle_answer w d (responded status_code shown) db =
    if is_success status_code
    then save w d.id (d.attempts + 1) delivered shown w.now db
    else handle_failure w d.id (d.attempts + 1) shown db

abbrev pub send : World → WebhookDelivery → Option String → Db → Db
send w d (some reason) db = save w d.id (d.attempts + 1) failed reason (w.now + hour) db
send w d none db = settle_answer w d w.answer db

abbrev pub guarded : World → WebhookDelivery → Result Url → Db → Db
guarded w d (err e) db = handle_failure w d.id (d.attempts + 1) w.blocked db
guarded w d (ok u) db = send w d w.bad_request db

abbrev pub attempt_hook : World → WebhookDelivery → Result Webhook → Db → Db
attempt_hook w d (err e) db =
    save w d.id (d.attempts + 1) failed "missing webhook" (w.now + hour) db
attempt_hook w d (ok hook) db = guarded w d (validate_webhook_target_url w.net hook.target_url) db

unfoldable pub attempt : World → WebhookDelivery → Db → Db
attempt w d db = attempt_hook w d (query w.get_down tt >> get_webhook d.webhook_id db) db

-- Each attempt meets a world of its own.
unfoldable pub attempt_each : (WebhookDelivery → World) → List WebhookDelivery → Db → Db
attempt_each worlds [] db = db
attempt_each worlds (d ∷ due) db = attempt_each worlds due (attempt (worlds d) d db)

unfoldable pub run_delivery_cycle :
    (down : Bool) → (now : ℕ) → (WebhookDelivery → World) → Db → Result Db
run_delivery_cycle down now worlds db =
    query down tt >> ok (attempt_each worlds (dequeue_pending now 25 db) db)
