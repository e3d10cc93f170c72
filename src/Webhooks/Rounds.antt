-- ===== src/Webhooks/Rounds.antt =====
-- Delivery cycles of repo/internal/service/webhook.go, one after the other, and a delivery whose attempts
-- all fail.
use task.Base.{
  take, ℕ, zero, suc, ◌+◌, ◌≤◌, ◌<◌, ◌≡◌, refl, sym, ap, ◌∙◌, inl, inr, Bool, true, false, not,
  ◌&&◌, some, List, [], ◌∷◌, arith, All, All-sort_by, Distinct, any, fetch, fetch_own, has, mark,
  sum_of, sum_of-sort_by, select, sort_by, Bool-cases, ◌==◌, ==_iff, ==_refl, change-Distinct, leb,
  if◌then◌else◌,
}
use mathlib.Core.Path.{subst}
use task.Webhooks.Table.{
  Webhook, WebhookDelivery, Db, is_pending, is_due, clamp_limit, dequeue_pending,
  update_delivery_attempt, attempted, pending, dead,
}
use task.Webhooks.Service.{World, attempt, attempt_each, run_delivery_cycle, ignoring}
use task.Webhooks.Lifecycle.{attempt-cases}
use task.Webhooks.Events.{All-select_hit, All-take}
use task.Webhooks.Settled.{delivery_key, attempt-others}
use task.Webhooks.Retrying.{Failing, Stands, attempt-Stands}

-- How often a delivery is in a list.
abbrev times : ℕ → List WebhookDelivery → ℕ
times id rows = sum_of (mark (λ (d : WebhookDelivery). d.id == id)) rows

times-absent :
    (id : ℕ) (rows : List WebhookDelivery) → has delivery_key id rows ≡ false → times id rows ≡ 0
times-absent id [] h = refl
times-absent id (d ∷ rows) h = ground (arith, times-absent id rows)

times-once : (id : ℕ) (rows : List WebhookDelivery) → Distinct delivery_key rows → times id rows ≤ 1
times-once id [] d = omega arith
times-once id (r ∷ rows) d = elim (Bool-cases (r.id == id)) [
  | inl same ↦
      let absent : has delivery_key id rows ≡ false =
        subst (λ k. has delivery_key k rows ≡ false) ((==_iff r.id id).0 same) d.0 in
      ground (arith, times-absent id rows absent)
  | inr other ↦ ground (arith, times-once id rows d.1)
]

times-select :
    (id : ℕ) (p : WebhookDelivery → Bool) (rows : List WebhookDelivery)
    → times id (select p rows) ≤ times id rows
times-select id p [] = omega arith
times-select id p (r ∷ rows) = ground (arith, times-select id p rows)

times-take : (id n : ℕ) (rows : List WebhookDelivery) → times id (take n rows) ≤ times id rows
times-take id zero rows = omega arith
times-take id (suc n) [] = omega arith
times-take id (suc n) (r ∷ rows) = ground (arith, times-take id n rows)

-- The delivery is in the list of a cycle.
abbrev pub in_cycle : (id now : ℕ) → Db → Bool
in_cycle id now db = any (λ (d : WebhookDelivery). d.id == id) (dequeue_pending now 25 db)

times-dequeue :
    (id now : ℕ) (db : Db)
    → Distinct delivery_key db.deliveries
    → times id (dequeue_pending now 25 db) ≤ 1
unfolding dequeue_pending
times-dequeue id now db distinct =
    let sorted =
      sum_of-sort_by (λ a b. leb a.next_attempt_at b.next_attempt_at)
        (mark (λ (d : WebhookDelivery). d.id == id)) (select (is_due now) db.deliveries) in
    omega (
      arith,
      times-take id (clamp_limit 25 100 25) (
          sort_by (λ a b. leb a.next_attempt_at b.next_attempt_at)
            (select (is_due now) db.deliveries)),
      sorted,
      times-select id (is_due now) db.deliveries,
      times-once id db.deliveries distinct,
    )

-- A delivery that is listed under the identifier is the stored row, and is pending.
abbrev Listed : ℕ → WebhookDelivery → WebhookDelivery → Type 0
Listed id row d = d.id ≡ id → (d ≡ row) × (is_pending d.status ≡ true)

row-Listed :
    (id now : ℕ) (rows : List WebhookDelivery) (row d : WebhookDelivery)
    → fetch delivery_key id rows ≡ some row
    → fetch delivery_key d.id rows ≡ some d
    → is_due now d ≡ true
    → Listed id row d
row-Listed id now rows row d found own due same =
    (cc (sym own ∙ (ap (λ k. fetch delivery_key k rows) same ∙ found)), ground arith)

dequeue-Listed :
    (id now : ℕ) (db : Db) (row : WebhookDelivery)
    → Distinct delivery_key db.deliveries
    → fetch delivery_key id db.deliveries ≡ some row
    → All (Listed id row) (dequeue_pending now 25 db)
unfolding dequeue_pending
dequeue-Listed id now db row distinct found = All-take (Listed id row) (clamp_limit 25 100 25) _ (
    All-sort_by _ _ _ (
      All-select_hit (λ d. fetch delivery_key d.id db.deliveries ≡ some d) (Listed id row)
        (is_due now) (λ d own due. row-Listed id now db.deliveries row d found own due)
        db.deliveries (fetch_own delivery_key db.deliveries distinct)))

-- A delivery that is taken is pending.
taken_pending :
    (id : ℕ) (row : WebhookDelivery) (due : List WebhookDelivery)
    → All (Listed id row) due
    → any (λ (d : WebhookDelivery). d.id == id) due ≡ true
    → is_pending row.status ≡ true
taken_pending id row [] v h = cc
taken_pending id row (d ∷ due) v h = elim (Bool-cases (d.id == id)) [
  | inl same ↦
      let (e, open_still) = v.0 ((==_iff d.id id).0 same) in
      subst (λ (r : WebhookDelivery). is_pending r.status ≡ true) e open_still
  | inr other ↦ taken_pending id row due v.1 (ground arith)
]

few_left :
    (n : ℕ) (row : WebhookDelivery)
    → row.status ≡ (if leb 5 n then dead else pending)
    → is_pending row.status ≡ true
    → n < 5
few_left n row e h = ground arith

attempt-webhooks :
    (w : World) (d : WebhookDelivery) (db : Db) → (attempt w d db).webhooks ≡ db.webhooks
unfolding update_delivery_attempt
attempt-webhooks w d db =
    attempt-cases (λ db'. db'.webhooks ≡ db.webhooks) w d db refl
      λ status response next_attempt within. refl

attempt-Distinct :
    (w : World) (d : WebhookDelivery) (db : Db)
    → Distinct delivery_key db.deliveries
    → Distinct delivery_key (attempt w d db).deliveries
unfolding update_delivery_attempt
attempt-Distinct w d db distinct =
    attempt-cases (λ db'. Distinct delivery_key db'.deliveries) w d db distinct
      λ status response next_attempt within.
        change-Distinct delivery_key d.id (attempted (d.attempts + 1) status response next_attempt)
          (λ a. refl) db.deliveries distinct

attempt_each-Distinct :
    (worlds : WebhookDelivery → World) (due : List WebhookDelivery) (db : Db)
    → Distinct delivery_key db.deliveries
    → Distinct delivery_key (attempt_each worlds due db).deliveries
unfolding attempt_each
attempt_each-Distinct worlds [] db distinct = distinct
attempt_each-Distinct worlds (d ∷ due) db distinct =
    attempt_each-Distinct worlds due (attempt (worlds d) d db)
      (attempt-Distinct (worlds d) d db distinct)

module _ (id n : ℕ) (hook : Webhook) (worlds : WebhookDelivery → World) where
  other-Stands :
      (d : WebhookDelivery) (db : Db)
      → (d.id == id) ≡ false
      → (s : Stands id n hook db)
      → (s' : Stands id n hook (attempt (worlds d) d db)) × (s'.row ≡ s.row)
  other-Stands d db other s = (
    record {
      row = s.row;
      stored =
          attempt-others (worlds d) d db id
            (λ same. absurd (cc (rw (sym same, ==_refl id) at other)))
          ∙ s.stored;
      tried = s.tried;
      status = s.status;
      hooked = rw (attempt-webhooks (worlds d) d db) s.hooked;
    },
    refl,
  )

  untouched-Stands :
      (due : List WebhookDelivery) (db : Db)
      → any (λ (d : WebhookDelivery). d.id == id) due ≡ false
      → Stands id n hook db
      → Stands id n hook (attempt_each worlds due db)
  unfolding attempt_each
  untouched-Stands [] db h s = s
  untouched-Stands (d ∷ due) db h s =
      untouched-Stands due (attempt (worlds d) d db) (ground arith)
        (other-Stands d db (ground arith) s).0

any-times :
    (id : ℕ) (rows : List WebhookDelivery)
    → times id rows ≤ 0
    → any (λ (d : WebhookDelivery). d.id == id) rows ≡ false
any-times id [] h = refl
any-times id (d ∷ rows) h = ground (arith, any-times id rows)

module _ (id n : ℕ) (hook : Webhook) (worlds : WebhookDelivery → World)
    (fails : (d : WebhookDelivery) → d.id ≡ id → Failing hook (worlds d)) where
  -- The delivery itself is attempted once, and fails.
  hit-Stands :
      (d : WebhookDelivery) (due : List WebhookDelivery) (db : Db) (s : Stands id n hook db)
      → (d.id == id) ≡ true
      → d ≡ s.row
      → times id (d ∷ due) ≤ 1
      → Stands id (n + 1) hook (attempt_each worlds (d ∷ due) db)
  unfolding attempt_each
  hit-Stands d due db s same e once =
      let key : d.id ≡ id = (==_iff d.id id).0 same in
      let tried : Stands id (n + 1) hook (attempt (worlds d) d db) =
        subst (λ r. Stands id (n + 1) hook (attempt (worlds d) r db)) (sym e)
          (attempt-Stands id n hook db (worlds d) s (fails d key)) in
      untouched-Stands id (n + 1) hook worlds due (attempt (worlds d) d db)
        (any-times id due (ground (arith, once))) tried

  each-Stands :
      (due : List WebhookDelivery) (db : Db) (row : WebhookDelivery) (s : Stands id n hook db)
      → s.row ≡ row
      → All (Listed id row) due
      → times id due ≤ 1
      → any (λ (d : WebhookDelivery). d.id == id) due ≡ true
      → Stands id (n + 1) hook (attempt_each worlds due db)
  unfolding attempt_each
  each-Stands [] db row s e v once h = absurd (cc)
  each-Stands (d ∷ due) db row s e v once h = elim (Bool-cases (d.id == id)) [
    | inl same ↦ hit-Stands d due db s same ((v.0 ((==_iff d.id id).0 same)).0 ∙ sym e) once
    | inr other ↦
        let (s', kept) = other-Stands id n hook worlds d db other s in
        each-Stands due (attempt (worlds d) d db) row s' (kept ∙ e) v.1 (ground (arith, once))
          (ground arith)
  ]

-- Delivery cycles one after the other, of which so many have taken the delivery; in these, the attempts
-- of the delivery fail. A cycle whose query fails takes nothing.
pub data Rounds (id : ℕ) (hook : Webhook) (db : Db) : ℕ → Db → Type 1 where
  begin : Rounds id hook db 0 db
  takes :
      {k : ℕ} {mid : Db} (now : ℕ) (worlds : WebhookDelivery → World)
      → Rounds id hook db k mid
      → in_cycle id now mid ≡ true
      → ((d : WebhookDelivery) → d.id ≡ id → Failing hook (worlds d))
      → Rounds id hook db (k + 1) (ignoring mid (run_delivery_cycle false now worlds mid))
  passes :
      {k : ℕ} {mid : Db} (down : Bool) (now : ℕ) (worlds : WebhookDelivery → World)
      → Rounds id hook db k mid
      → (not down && in_cycle id now mid) ≡ false
      → Rounds id hook db k (ignoring mid (run_delivery_cycle down now worlds mid))

-- What is kept from cycle to cycle.
record Kept (id n : ℕ) (hook : Webhook) (db : Db) : Type 0 where
  pub distinct : Distinct delivery_key db.deliveries
  pub few : n ≤ 5
  pub stands : Stands id n hook db

takes-Kept :
    (id n now : ℕ) (hook : Webhook) (worlds : WebhookDelivery → World) (db : Db)
    → in_cycle id now db ≡ true
    → ((d : WebhookDelivery) → d.id ≡ id → Failing hook (worlds d))
    → Kept id n hook db
    → Kept id (n + 1) hook (ignoring db (run_delivery_cycle false now worlds db))
unfolding run_delivery_cycle
takes-Kept id n now hook worlds db listed fails kept =
    let s = kept.stands in
    let due = dequeue_pending now 25 db in
    let rows = dequeue-Listed id now db s.row kept.distinct s.stored in
    let left = few_left n s.row s.status (taken_pending id s.row due rows listed) in
    record {
      distinct = attempt_each-Distinct worlds due db kept.distinct;
      few = omega (arith, left);
      stands =
          each-Stands id n hook worlds fails due db s.row s refl rows
            (times-dequeue id now db kept.distinct) listed;
    }

passes-Kept :
    (id n now : ℕ) (hook : Webhook) (down : Bool) (worlds : WebhookDelivery → World) (db : Db)
    → (not down && in_cycle id now db) ≡ false
    → Kept id n hook db
    → Kept id n hook (ignoring db (run_delivery_cycle down now worlds db))
unfolding run_delivery_cycle
passes-Kept id n now hook true worlds db h kept = kept
passes-Kept id n now hook false worlds db h kept = record {
  distinct = attempt_each-Distinct worlds (dequeue_pending now 25 db) db kept.distinct;
  few = kept.few;
  stands = untouched-Stands id n hook worlds (dequeue_pending now 25 db) db h kept.stands;
}

Rounds-Kept :
    (id n : ℕ) (hook : Webhook) (db : Db) {k : ℕ} {db' : Db}
    → Rounds id hook db k db'
    → Kept id n hook db
    → Kept id (n + k) hook db'
Rounds-Kept id n hook db begin kept = subst (λ m. Kept id m hook db) (omega arith) kept
Rounds-Kept id n hook db (takes {k} {mid} now worlds r listed fails) kept =
    subst (λ m. Kept id m hook (ignoring mid (run_delivery_cycle false now worlds mid)))
      (omega arith)
      (takes-Kept id (n + k) now hook worlds mid listed fails (Rounds-Kept id n hook db r kept))
Rounds-Kept id n hook db (passes {k} {mid} down now worlds r h) kept =
    passes-Kept id (n + k) now hook down worlds mid h (Rounds-Kept id n hook db r kept)

-- In a table with distinct identifiers, a delivery that has been attempted `n` times, pending before its
-- fifth attempt: however many delivery cycles follow, if each attempt in the cycles that take it fails
-- while the database answers, then after `k` such cycles it has been attempted `n + k` times, is pending
-- below five attempts and dead at five, and there are never more: no later cycle takes it.
pub dies_after_five :
    (id n : ℕ) (hook : Webhook) (db : Db) {k : ℕ} {db' : Db}
    → n ≤ 5
    → Distinct delivery_key db.deliveries
    → Stands id n hook db
    → Rounds id hook db k db'
    → (n + k ≤ 5) × Stands id (n + k) hook db'
dies_after_five id n hook db few distinct s r =
    let kept = Rounds-Kept id n hook db r (record { distinct = distinct; few = few; stands = s }) in
    (kept.few, kept.stands)
