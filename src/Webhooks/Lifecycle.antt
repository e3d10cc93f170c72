-- ===== src/Webhooks/Lifecycle.antt =====
-- How a delivery of repo/internal/service/webhook.go moves through its attempts.
use task.Base.{
  ℕ, ◌+◌, ◌≤◌, ◌<◌, ◌≡◌, inl, inr, Option, some, none, List, [], ◌∷◌, String, arith, Bool-cases,
  All, All-update, leb, ◌==◌,
}
use task.Domain.Errors.{Result, ok, err}
use task.Webhooks.Target.{Url}
use task.Webhooks.Table.{
  Webhook, WebhookDelivery, Db, DeliveryStatus, pending, delivered, failed, dead,
  update_delivery_attempt, attempted,
}
use task.Webhooks.Service.{
  Answer, transport_error, responded, World, next_webhook_status, save, handle_failure, is_success,
  settle_answer, send, guarded, attempt_hook, attempt, attempt_each,
}

-- How many attempts a delivery with a status has had.
abbrev pub Within : DeliveryStatus → ℕ → Type 0
Within pending attempts = attempts < 5
Within delivered attempts = (0 < attempts) × (attempts ≤ 5)
Within failed attempts = (0 < attempts) × (attempts ≤ 5)
Within dead attempts = attempts ≡ 5

abbrev pub Sound : WebhookDelivery → Type 0
Sound d = Within d.status d.attempts

abbrev pub SoundDb : Db → Type 0
SoundDb db = All Sound db.deliveries

-- All that an attempt can do: nothing, if its UPDATE is lost, or one UPDATE of its own delivery.
module _ {κ} (P : Db → Type κ) (w : World) (d : WebhookDelivery) (db : Db) (lost : P db)
    (stored : (status : DeliveryStatus) (response : String) (next_attempt : ℕ)
      → (d.attempts < 5 → Within status (d.attempts + 1))
      → P (update_delivery_attempt d.id (d.attempts + 1) status response next_attempt db)) where
  save-cases :
      (status : DeliveryStatus) (response : String) (next_attempt : ℕ)
      → (d.attempts < 5 → Within status (d.attempts + 1))
      → P (save w d.id (d.attempts + 1) status response next_attempt db)
  save-cases status response next_attempt within = elim (Bool-cases w.update_down) [
    | inl down ↦ rw down lost
    | inr up ↦ rw up (stored status response next_attempt within)
  ]

  handle_failure-cases : (reason : String) → P (handle_failure w d.id (d.attempts + 1) reason db)
  unfolding handle_failure next_webhook_status
  handle_failure-cases reason = elim (Bool-cases (leb 5 (d.attempts + 1))) [
    | inl last ↦ rw last (save-cases dead reason w.now (λ few. ground arith))
    | inr more ↦ rw more (save-cases pending reason _ (λ few. ground arith))
  ]

  settle_answer-cases : (a : Answer) → P (settle_answer w d a db)
  settle_answer-cases (transport_error reason) = handle_failure-cases reason
  settle_answer-cases (responded code shown) = elim (Bool-cases (is_success code)) [
    | inl good ↦ rw good (save-cases delivered shown w.now (λ few. omega arith))
    | inr bad ↦ rw bad (handle_failure-cases shown)
  ]

  send-cases : (bad_request : Option String) → P (send w d bad_request db)
  send-cases (some reason) = save-cases failed reason _ (λ few. omega arith)
  send-cases none = settle_answer-cases w.answer

  guarded-cases : (target : Result Url) → P (guarded w d target db)
  guarded-cases (err e) = handle_failure-cases w.blocked
  guarded-cases (ok u) = send-cases w.bad_request

  attempt_hook-cases : (hook : Result Webhook) → P (attempt_hook w d hook db)
  attempt_hook-cases (err e) = save-cases failed "missing webhook" _ (λ few. omega arith)
  attempt_hook-cases (ok hook) = guarded-cases _

  pub attempt-cases : P (attempt w d db)
  unfolding attempt
  attempt-cases = attempt_hook-cases _

update-Sound :
    (id attempts : ℕ) (status : DeliveryStatus) (response : String) (next_attempt : ℕ) (db : Db)
    → Within status attempts
    → SoundDb db
    → SoundDb (update_delivery_attempt id attempts status response next_attempt db)
unfolding update_delivery_attempt
update-Sound id attempts status response next_attempt db within sound =
    All-update Sound (λ d. d.id == id) (attempted attempts status response next_attempt)
      (λ a hit old. within) db.deliveries sound

attempt-Sound :
    (w : World) (d : WebhookDelivery) (db : Db)
    → d.attempts < 5
    → SoundDb db
    → SoundDb (attempt w d db)
attempt-Sound w d db few sound =
    attempt-cases SoundDb w d db sound λ status response next_attempt within.
      update-Sound d.id (d.attempts + 1) status response next_attempt db (within few) sound

pub attempt_each-Sound :
    (worlds : WebhookDelivery → World) (due : List WebhookDelivery) (db : Db)
    → All (λ d. d.attempts < 5) due
    → SoundDb db
    → SoundDb (attempt_each worlds due db)
unfolding attempt_each
attempt_each-Sound worlds [] db few sound = sound
attempt_each-Sound worlds (d ∷ due) db few sound =
    attempt_each-Sound worlds due _ few.1 (attempt-Sound (worlds d) d db few.0 sound)
