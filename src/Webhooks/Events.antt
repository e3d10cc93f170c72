-- ===== src/Webhooks/Events.antt =====
-- The webhook service over time: repo/internal/service/webhook.go under any sequence of calls.
use task.Base.{
  take, ℕ, zero, suc, ◌<◌, ◌≡◌, refl, inl, inr, Bool, true, false, Option, some, none, List, [],
  ◌∷◌, String, arith, Bool-cases, All, All-append, All-sort_by, select, any, str_eq, ◌==◌, run,
  run-keeps,
}
use task.Domain.Errors.{Result, ok, err}
use task.Webhooks.Target.{Net, Url}
use task.Webhooks.Mapping.{Json}
use task.Webhooks.Table.{
  Webhook, WebhookDelivery, Db, DeliveryStatus, pending, is_pending, is_due, clamp_limit,
  insert_webhook, disable, enqueue_delivery, dequeue_pending,
}
use task.Webhooks.Service.{
  World, Queueing, run_delivery_cycle, enqueue, ignoring, fan_out, offer, emit, create, wants,
  create_valid,
}
use task.Webhooks.Lifecycle.{Within, Sound, SoundDb, attempt_each-Sound}

-- The rows that pass a test, with what the test says of them.
pub All-select_hit {κ μ} :
    {A : Type 0} (P : A → Type κ) (Q : A → Type μ) (p : A → Bool)
    → ((a : A) → P a → p a ≡ true → Q a)
    → (xs : List A) → All P xs
    → All Q (select p xs)
All-select_hit P Q p h [] v = tt
All-select_hit P Q p h (x ∷ xs) v = elim (Bool-cases (p x)) [
  | inl hit ↦ rw hit (h x v.0 hit, All-select_hit P Q p h xs v.1)
  | inr miss ↦ rw miss (All-select_hit P Q p h xs v.1)
]

pub All-take {κ} :
    {A : Type 0} (P : A → Type κ) (n : ℕ) (xs : List A) → All P xs → All P (take n xs)
All-take P zero xs v = tt
All-take P (suc n) [] v = tt
All-take P (suc n) (x ∷ xs) v = (v.0, All-take P n xs v.1)

few_attempts :
    (status : DeliveryStatus) (n : ℕ) → Within status n → is_pending status ≡ true → n < 5
few_attempts pending n h e = h
few_attempts DeliveryStatus.delivered n h e = cc
few_attempts DeliveryStatus.failed n h e = cc
few_attempts DeliveryStatus.dead n h e = cc

due_few : (now : ℕ) (d : WebhookDelivery) → Sound d → is_due now d ≡ true → d.attempts < 5
due_few now d sound h = few_attempts d.status d.attempts sound (ground arith)

dequeue_pending-few :
    (now limit : ℕ) (db : Db)
    → SoundDb db
    → All (λ d. d.attempts < 5) (dequeue_pending now limit db)
unfolding dequeue_pending
dequeue_pending-few now limit db sound =
    All-take (λ (d : WebhookDelivery). d.attempts < 5) (clamp_limit 25 100 limit) _
      (All-sort_by _ _ _
        (All-select_hit Sound (λ d. d.attempts < 5) (is_due now) (due_few now) db.deliveries sound))

run_delivery_cycle-Sound :
    (down : Bool) (now : ℕ) (worlds : WebhookDelivery → World) (db : Db)
    → SoundDb db
    → SoundDb (ignoring db (run_delivery_cycle down now worlds db))
unfolding run_delivery_cycle
run_delivery_cycle-Sound true now worlds db sound = sound
run_delivery_cycle-Sound false now worlds db sound =
    attempt_each-Sound worlds _ db (dequeue_pending-few now 25 db sound) sound

enqueue-Sound :
    (json : Json) (now : ℕ) (event_type : String) (body : List ℕ) (q : Queueing) (h : Webhook)
    (db : Db)
    → SoundDb db
    → SoundDb (enqueue json now event_type body q h db)
unfolding enqueue_delivery
enqueue-Sound json now event_type body q h db sound = elim (Bool-cases q.down) [
  | inl broken ↦ rw broken sound
  | inr up ↦ elim (Bool-cases (any (λ e. e.id == q.new_id) db.deliveries)) [
    | inl clash ↦ rw (up, clash) sound
    | inr free ↦ rw (up, free) (All-append Sound db.deliveries _ (omega arith, tt) sound)
  ]
]

offer-Sound :
    (json : Json) (now : ℕ) (event_type : String) (body : List ℕ) (q : Queueing) (h : Webhook)
    (db : Db)
    → SoundDb db
    → SoundDb (offer json now event_type body q h db)
offer-Sound json now event_type body q h db sound = elim (Bool-cases (wants event_type h)) [
  | inl wanted ↦ rw wanted (enqueue-Sound json now event_type body q h db sound)
  | inr not_wanted ↦ rw not_wanted sound
]

fan_out-Sound :
    (json : Json) (now : ℕ) (event_type : String) (body : List ℕ) (meet : Webhook → Queueing)
    → (hooks : List Webhook) (db : Db) → SoundDb db
    → SoundDb (fan_out json now event_type body meet hooks db)
unfolding fan_out
fan_out-Sound json now event_type body meet [] db sound = sound
fan_out-Sound json now event_type body meet (h ∷ hooks) db sound =
    fan_out-Sound json now event_type body meet hooks _
      (offer-Sound json now event_type body (meet h) h db sound)

emit-Sound :
    (json : Json) (down : Bool) (now : ℕ) (event_type : String) (body : Option (List ℕ))
    (meet : Webhook → Queueing) (db : Db)
    → SoundDb db
    → SoundDb (ignoring db (emit json down now event_type body meet db))
unfolding emit
emit-Sound json true now event_type none meet db sound = sound
emit-Sound json false now event_type none meet db sound = sound
emit-Sound json true now event_type (some body) meet db sound = sound
emit-Sound json false now event_type (some body) meet db sound =
    fan_out-Sound json now event_type body meet _ db sound

-- The database after a call of `Create`.
abbrev pub created : Db → Result (Webhook × Db) → Db
created db (ok (w, db')) = db'
created db (err e) = db

create_valid-deliveries :
    (down : Bool) (new_id now : ℕ) (w : Webhook) (db : Db) (target : Result Url)
    → (created db (create_valid down new_id now w db target)).deliveries ≡ db.deliveries
unfolding insert_webhook
create_valid-deliveries down new_id now w db (err e) = refl
create_valid-deliveries true new_id now w db (ok u) = refl
create_valid-deliveries false new_id now w db (ok u) = ground arith

create-deliveries :
    (net : Net) (down : Bool) (new_id now : ℕ) (w : Webhook) (db : Db)
    → (created db (create net down new_id now w db)).deliveries ≡ db.deliveries
unfolding create
create-deliveries net down new_id now w db = elim (Bool-cases (str_eq w.name "")) [
  | inl nameless ↦ rw nameless refl
  | inr named ↦ rw named (create_valid-deliveries down new_id now w db _)
]

-- The calls of the service that change the database, each with what it meets.
pub data Event : Type 1 where
  creating : Net → (down : Bool) → (new_id now : ℕ) → Webhook → Event
  disabling : ℕ → Event
  emitting :
      Json → (down : Bool) → (now : ℕ) → String → Option (List ℕ) → (Webhook → Queueing) → Event
  cycling : (down : Bool) → (now : ℕ) → (WebhookDelivery → World) → Event

unfoldable pub step : Db → Event → Db
step db (creating net down new_id now w) = created db (create net down new_id now w db)
step db (disabling id) = disable id db
step db (emitting json down now event_type body meet) =
    ignoring db (emit json down now event_type body meet db)
step db (cycling down now worlds) = ignoring db (run_delivery_cycle down now worlds db)

step-Sound : (db : Db) (e : Event) → SoundDb db → SoundDb (step db e)
unfolding step disable
step-Sound db (creating net down new_id now w) sound =
    rw (create-deliveries net down new_id now w db) sound
step-Sound db (disabling id) sound = sound
step-Sound db (emitting json down now event_type body meet) sound =
    emit-Sound json down now event_type body meet db sound
step-Sound db (cycling down now worlds) sound = run_delivery_cycle-Sound down now worlds db sound

-- Whatever calls are made, whatever the receivers answer and whichever queries fail: from a database
-- in which it is so, every delivery has had at most five attempts, fewer than five while it is
-- pending, at least one if it is delivered or failed, and exactly five if it is dead.
pub run_events-Sound : (events : List Event) (db : Db) → SoundDb db → SoundDb (run step db events)
run_events-Sound events db sound = run-keeps SoundDb step step-Sound db events sound
