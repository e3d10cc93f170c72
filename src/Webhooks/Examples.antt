-- ===== src/Webhooks/Examples.antt =====
-- Concrete runs of repo/internal/service/webhook.go.
use task.Base.{
  ◌*◌, ◌≤◌, ℕ, ◌≡◌, refl, true, false, some, none, List, [], ◌∷◌, arith, fetch, run, str_eq,
}
use task.Webhooks.Target.{Net, validate_webhook_target_url}
use task.Webhooks.Mapping.{Json}
use task.Webhooks.Table.{
  Webhook, WebhookDelivery, Db, DeliveryStatus, pending, delivered, dequeue_pending,
  update_delivery_attempt,
}
use task.Domain.Models.{minute}
use task.Webhooks.Service.{
  responded, World, run_delivery_cycle, ignoring, attempt_each, attempt, handle_failure,
  next_webhook_status, webhook_backoff,
}
use task.Webhooks.Lifecycle.{SoundDb}
use task.Webhooks.Events.{Event, disabling, emitting, cycling, step, run_events-Sound}
use task.Webhooks.Settled.{delivery_key, cycle_settled}
use task.Webhooks.Retrying.{Failing, Stands}
use task.Webhooks.Rounds.{Rounds, begin, takes, passes, dies_after_five}

abbrev local : Net
local = record {
  Ip = ℕ;
  Network = ℕ;
  parse = λ s. some (record { scheme = "http"; hostname = s; text = s });
  lookup_ip = λ s. some (10 ∷ []);
  parse_cidr = λ s. some 10;
  contains = λ network ip. true;
  equal_fold = str_eq;
}

abbrev identity : Json
identity = record { Value = ℕ; unmarshal = λ body. none; marshal = λ m. none }

abbrev hook : Webhook
hook = record {
  id = 1;
  name = "audit";
  target_url = "app";
  event_filter = [];
  field_mapping = [];
  secret = "";
  enabled = true;
  created_at = 5;
}

abbrev delivery : ℕ → DeliveryStatus → ℕ → WebhookDelivery
delivery id status attempts = record {
  id = id;
  webhook_id = 1;
  event_type = "booking.created";
  payload = [];
  attempts = attempts;
  next_attempt_at = 7;
  status = status;
  last_response = "";
  created_at = 6;
}

abbrev refused : ℕ → World
refused now = record {
  net = local;
  get_down = false;
  bad_request = none;
  answer = responded 500 "500 down";
  now = now;
  blocked = "";
  update_down = false;
}

abbrev stored : Db
stored = record {
  webhooks = hook ∷ [];
  deliveries = delivery 4 pending 3 ∷ delivery 5 delivered 1 ∷ [];
}

abbrev calls : List Event
calls =
    emitting identity false 8 "booking.created" (some [])
      (λ h. record { new_id = 9; at = 8; down = false })
    ∷ cycling false 10 (λ d. refused 10)
    ∷ disabling 1
    ∷ []

run_events-Sound_example : SoundDb (run step stored calls)
run_events-Sound_example = run_events-Sound calls stored (omega arith, (omega arith, tt))

cycle_settled_example :
    fetch delivery_key 5
      (ignoring stored (run_delivery_cycle false 10 (λ d. refused 10) stored)).deliveries
    ≡ some (delivery 5 delivered 1)
cycle_settled_example =
    cycle_settled false 10 (λ d. refused 10) stored 5 (refl, (refl, tt)) refl refl

refused-Failing : (now : ℕ) → Failing hook (refused now)
unfolding validate_webhook_target_url
refused-Failing now = record { get_up = refl; update_up = refl; fails = refl }

delivery-Stands : Stands 4 3 hook stored
delivery-Stands = record {
  row = delivery 4 pending 3;
  stored = refl;
  tried = refl;
  status = refl;
  hooked = refl;
}

abbrev cycle : ℕ → Db → Db
cycle now db = ignoring db (run_delivery_cycle false now (λ d. refused now) db)

-- The fourth and the fifth attempt, a minute apart, and a cycle after them.
cycles : Rounds 4 hook stored 2 (cycle (3 * minute) (cycle (2 * minute) (cycle minute stored)))
unfolding dequeue_pending run_delivery_cycle attempt_each attempt handle_failure
    update_delivery_attempt validate_webhook_target_url next_webhook_status webhook_backoff
cycles =
    passes false (3 * minute) (λ d. refused (3 * minute))
      (takes (2 * minute) (λ d. refused (2 * minute))
        (takes minute (λ d. refused minute) begin refl (λ d same. refused-Failing minute)) refl
        (λ d same. refused-Failing (2 * minute)))
      refl

dies_after_five_example :
    (5 ≤ 5) × Stands 4 5 hook (cycle (3 * minute) (cycle (2 * minute) (cycle minute stored)))
dies_after_five_example =
    dies_after_five 4 3 hook stored {k = 2} (omega arith) (refl, (refl, tt)) delivery-Stands cycles
