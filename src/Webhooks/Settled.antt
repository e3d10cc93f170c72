-- ===== src/Webhooks/Settled.antt =====
-- The delivery cycle of repo/internal/service/webhook.go leaves deliveries alone that are not pending.
use task.Base.{
  ℕ, ◌+◌, ◌≡◌, ◌≢◌, refl, Bool, true, false, some, List, [], ◌∷◌, arith, All, All-sort_by, Distinct,
  fetch, fetch-change_ne, fetch_own, sym, ap, ◌∙◌,
}
use task.Webhooks.Table.{
  WebhookDelivery, Db, is_pending, is_due, clamp_limit, dequeue_pending, update_delivery_attempt,
  attempted,
}
use task.Webhooks.Service.{World, attempt, attempt_each, run_delivery_cycle, ignoring}
use task.Webhooks.Lifecycle.{attempt-cases}
use task.Webhooks.Events.{All-select_hit, All-take}

abbrev pub delivery_key : WebhookDelivery → ℕ
delivery_key d = d.id

pub attempt-others :
    (w : World) (d : WebhookDelivery) (db : Db) (j : ℕ)
    → j ≢ d.id
    → fetch delivery_key j (attempt w d db).deliveries ≡ fetch delivery_key j db.deliveries
unfolding update_delivery_attempt
attempt-others w d db j other =
    attempt-cases (λ db'. fetch delivery_key j db'.deliveries ≡ fetch delivery_key j db.deliveries)
      w d db refl
      λ status response next_attempt within.
        fetch-change_ne delivery_key d.id j
          (attempted (d.attempts + 1) status response next_attempt) (λ a. refl) db.deliveries other

attempt_each-others :
    (worlds : WebhookDelivery → World) (due : List WebhookDelivery) (db : Db) (j : ℕ)
    → All (λ d. j ≢ delivery_key d) due
    → fetch delivery_key j (attempt_each worlds due db).deliveries
      ≡ fetch delivery_key j db.deliveries
unfolding attempt_each
attempt_each-others worlds [] db j other = refl
attempt_each-others worlds (d ∷ due) db j other =
    attempt_each-others worlds due (attempt (worlds d) d db) j other.1
    ∙ attempt-others (worlds d) d db j other.0

due_other :
    (now : ℕ) (rows : List WebhookDelivery) (j : ℕ) {s : WebhookDelivery} (d : WebhookDelivery)
    → fetch delivery_key j rows ≡ some s
    → is_pending s.status ≡ false
    → fetch delivery_key d.id rows ≡ some d
    → is_due now d ≡ true
    → j ≢ d.id
due_other now rows j {s} d found settled own due same =
    let e : s ≡ d = cc (sym found ∙ (ap (λ k. fetch delivery_key k rows) same ∙ own)) in
    ground (arith, ap (λ (t : WebhookDelivery). t.status) e)

-- In a table with distinct identifiers, a delivery cycle leaves every delivery as it is whose status
-- is not pending: one that was delivered, that failed or that is dead is never attempted again.
pub cycle_settled :
    (down : Bool) (now : ℕ) (worlds : WebhookDelivery → World) (db : Db) (j : ℕ)
    {s : WebhookDelivery}
    → Distinct delivery_key db.deliveries
    → fetch delivery_key j db.deliveries ≡ some s
    → is_pending s.status ≡ false
    → fetch delivery_key j (ignoring db (run_delivery_cycle down now worlds db)).deliveries ≡ some s
unfolding run_delivery_cycle dequeue_pending
cycle_settled true now worlds db j {s} distinct found settled = found
cycle_settled false now worlds db j {s} distinct found settled =
    attempt_each-others worlds _ db j (
      All-take (λ d. j ≢ delivery_key d) (clamp_limit 25 100 25) _
        (All-sort_by _ _ _ (
          All-select_hit (λ d. fetch delivery_key d.id db.deliveries ≡ some d)
            (λ d. j ≢ delivery_key d) (is_due now)
            (λ d own due. due_other now db.deliveries j {s = s} d found settled own due)
            db.deliveries (fetch_own delivery_key db.deliveries distinct))))
    ∙ found
