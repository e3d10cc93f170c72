-- ===== src/Webhooks/Retrying.antt =====
-- A delivery of repo/internal/service/webhook.go whose every attempt fails.
use task.Base.{
  ℕ, ◌+◌, ◌≡◌, refl, inl, inr, Bool, true, false, not, Option, some, none, String, Bool-cases,
  fetch, fetch-change, fetch-key, leb, if◌then◌else◌, ap, sym, ◌∙◌,
}
use mathlib.Core.Path.{subst}
use task.Domain.Errors.{Result, ok, err, query, ◌>>◌}
use task.Webhooks.Target.{Url, validate_webhook_target_url}
use task.Webhooks.Table.{
  Webhook, WebhookDelivery, Db, DeliveryStatus, pending, dead, update_delivery_attempt, attempted,
  get_webhook,
}
use task.Webhooks.Service.{
  Answer, transport_error, responded, World, is_success, next_webhook_status, webhook_backoff,
  handle_failure, settle_answer, send, guarded, attempt_hook, attempt,
}
use task.Webhooks.Settled.{delivery_key}

-- The receiver does not take the delivery.
abbrev pub refuses : Answer → Bool
refuses (transport_error reason) = true
refuses (responded status_code shown) = not (is_success status_code)

-- An attempt that the database serves, and in which the target is blocked or does not take the delivery.
abbrev pub fails_at : World → Result Url → Bool
fails_at w (err e) = true
fails_at w (ok u) = elim w.bad_request [ none ↦ refuses w.answer | some reason ↦ false ]

pub record Failing (hook : Webhook) (w : World) : Type 1 where
  pub get_up : w.get_down ≡ false
  pub update_up : w.update_down ≡ false
  pub fails : fails_at w (validate_webhook_target_url w.net hook.target_url) ≡ true

-- The database after a failed attempt, and the row that the UPDATE writes.
abbrev pub next_time : World → ℕ → DeliveryStatus → ℕ
next_time w attempts pending = w.now + webhook_backoff attempts
next_time w attempts _ = w.now

handle_failure-eq :
    (w : World) (id attempts : ℕ) (reason : String) (db : Db)
    → w.update_down ≡ false
    → handle_failure w id attempts reason db
      ≡ update_delivery_attempt id attempts
          (next_webhook_status attempts)
          reason
          (next_time w attempts (next_webhook_status attempts))
          db
unfolding handle_failure next_webhook_status
handle_failure-eq w id attempts reason db up = elim (Bool-cases (leb 5 attempts)) [
  | inl last ↦ rw (last, up) refl
  | inr more ↦ rw (more, up) refl
]

abbrev settled_by : World → WebhookDelivery → Db → String → Db
settled_by w d db reason =
    update_delivery_attempt d.id (d.attempts + 1) (next_webhook_status (d.attempts + 1)) reason
      (next_time w (d.attempts + 1) (next_webhook_status (d.attempts + 1))) db

settle_answer-fails :
    (w : World) (d : WebhookDelivery) (a : Answer) (db : Db)
    → w.update_down ≡ false
    → refuses a ≡ true
    → (reason : String) × (settle_answer w d a db ≡ settled_by w d db reason)
settle_answer-fails w d (transport_error reason) db up h =
    (reason, handle_failure-eq w d.id (d.attempts + 1) reason db up)
settle_answer-fails w d (responded code shown) db up h = (
  shown,
  elim (Bool-cases (is_success code)) [
    | inl good ↦ absurd (cc (rw good at h))
    | inr bad ↦ rw bad (handle_failure-eq w d.id (d.attempts + 1) shown db up)
  ],
)

send-fails :
    (w : World) (d : WebhookDelivery) (o : Option String) (db : Db)
    → w.update_down ≡ false
    → (elim o [ none ↦ refuses w.answer | some reason ↦ false ]) ≡ true
    → (reason : String) × (send w d o db ≡ settled_by w d db reason)
send-fails w d none db up h = settle_answer-fails w d w.answer db up h
send-fails w d (some reason) db up h = absurd (cc h)

guarded-fails :
    (w : World) (d : WebhookDelivery) (target : Result Url) (db : Db)
    → w.update_down ≡ false
    → fails_at w target ≡ true
    → (reason : String) × (guarded w d target db ≡ settled_by w d db reason)
guarded-fails w d (err e) db up h =
    (w.blocked, handle_failure-eq w d.id (d.attempts + 1) w.blocked db up)
guarded-fails w d (ok u) db up h = send-fails w d w.bad_request db up h

attempt-fails :
    (w : World) (d : WebhookDelivery) (hook : Webhook) (db : Db)
    → Failing hook w
    → get_webhook d.webhook_id db ≡ ok hook
    → (reason : String) × (attempt w d db ≡ settled_by w d db reason)
unfolding attempt
attempt-fails w d hook db f look =
    let (reason, e) =
      guarded-fails w d (validate_webhook_target_url w.net hook.target_url) db f.update_up
        f.fails in
    let served : (query w.get_down tt >> get_webhook d.webhook_id db) ≡ ok hook =
      rw (f.get_up, look) refl in
    (reason, ap (λ h. attempt_hook w d h db) served ∙ e)

-- How a delivery stands after so many failed attempts.
pub record Stands (id attempts : ℕ) (hook : Webhook) (db : Db) : Type 0 where
  pub row : WebhookDelivery
  pub stored : fetch delivery_key id db.deliveries ≡ some row
  pub tried : row.attempts ≡ attempts
  pub status : row.status ≡ (if leb 5 attempts then dead else pending)
  pub hooked : get_webhook row.webhook_id db ≡ ok hook

settled_by-Stands :
    (hook : Webhook) (db : Db) (w : World) (d : WebhookDelivery) (reason : String)
    → fetch delivery_key d.id db.deliveries ≡ some d
    → get_webhook d.webhook_id db ≡ ok hook
    → Stands d.id (d.attempts + 1) hook (settled_by w d db reason)
unfolding update_delivery_attempt next_webhook_status
settled_by-Stands hook db w d reason there hooked =
    let attempts = d.attempts + 1 in
    let status = next_webhook_status attempts in
    let write = attempted attempts status reason (next_time w attempts status) in
    record {
      row = write d;
      stored = fetch-change delivery_key d.id write (λ a. refl) db.deliveries there;
      tried = refl;
      status = refl;
      hooked = hooked;
    }

-- A failed attempt of a delivery that is stored and pending.
pub attempt-Stands :
    (id n : ℕ) (hook : Webhook) (db : Db) (w : World) (s : Stands id n hook db)
    → Failing hook w
    → Stands id (n + 1) hook (attempt w s.row db)
attempt-Stands id n hook db w s f =
    let (reason, e) = attempt-fails w s.row hook db f s.hooked in
    let key = fetch-key delivery_key id db.deliveries s.stored in
    let own = subst (λ k. fetch delivery_key k db.deliveries ≡ some s.row) (sym key) s.stored in
    rw (e, sym s.tried)
      (subst (λ k. Stands k (s.row.attempts + 1) hook (settled_by w s.row db reason)) key
        (settled_by-Stands hook db w s.row reason own s.hooked))
