-- ===== src/Billing/Tests.antt =====
-- The theorems on billing at a tenant on a trial, a small catalog and a provider that fails.
use wardnet_cloud.Prelude.{
  ℕ, String, ◌≡◌, refl, Bool, true, false, List, [], ◌∷◌, Option, none, some, if◌then◌else◌,
}
use wardnet_cloud.Prelude.Int.{ℤ, pos}
use wardnet_cloud.Prelude.Table.{exists}
use wardnet_cloud.Contract.License.{Time, trialing, active, Entitlement, default_entitlement}
use wardnet_cloud.Event.{DomainEvent}
use wardnet_cloud.Subscriptions.Repository.{Subscription}
use wardnet_cloud.Subscriptions.Service.{State}
use mathlib.Core.Option
use wardnet_cloud.Prelude.Int.{ltb_ℤ}
use wardnet_cloud.Prelude.Text.{Str}
use wardnet_cloud.Billing.Gateway.Signature.Authentic.{Authentic}
use wardnet_cloud.Billing.Types.{
  SubscriptionData, subscription_upsert, StripeEvent, PlanData, CatalogPlan, CatalogPromo,
  ScheduledChange,
}
use wardnet_cloud.Billing.Repository.{is_event_processed}
use wardnet_cloud.Billing.Ports.{PortLaws}
use wardnet_cloud.Billing.Licenses.{subscription_ports, subscription_ports-PortLaws}
use wardnet_cloud.Billing.Run.{fine, unanswered, Core, ok}
use wardnet_cloud.Billing.Webhook.{apply_event}
use wardnet_cloud.Billing.Webhook.Spec.{outcome}
use wardnet_cloud.Billing.Webhook.Calls.{calm}
use wardnet_cloud.Billing.Webhook.Applies.{view}
use wardnet_cloud.Billing.Webhook.Delivery.{
  Attempt, deliver, apply_event_converges, apply_event_acknowledged,
}
use wardnet_cloud.Billing.Plans.{Env, answered, refused, unavailable}

abbrev all : DomainEvent → Bool
all event = true

abbrev trial : Subscription
trial = record {
  id = "s1";
  tenant_id = "t1";
  status = trialing;
  entitlement = default_entitlement;
  trial_expires_at = some (pos 2000000);
  current_period_end = none;
  created_at = pos 1000;
  updated_at = pos 1000;
}

abbrev core : Core State
core = record {
  customers = [];
  processed = "evt0" ∷ [];
  license = record { rows = trial ∷ []; published = [] };
  resyncs = 0;
  promoted = [];
}

abbrev paid_up : SubscriptionData
paid_up = record {
  tenant_id = some "t1";
  stripe_subscription_id = "sub1";
  stripe_customer_id = "cus1";
  price_id = some "price1";
  entitlement = some (record { max_networks = 3; max_daemons = 3 });
  status = active;
  current_period_end = some (pos 5000000);
}

abbrev event : StripeEvent
event = record { id = "evt1"; kind = subscription_upsert paid_up }

-- The first delivery records the references, and then its command gets no answer.
abbrev first : Attempt
first = record { id = "s2"; now = pos 3000; faults = fine ∷ fine ∷ fine ∷ fine ∷ unanswered ∷ [] }

event-new : is_event_processed "evt1" core.processed ≡ false
unfolding is_event_processed exists
event-new = refl

apply_event_acknowledged_example :
    (apply_event
      (subscription_ports all)
      "s3"
      (pos 4000)
      event
      (calm (deliver (subscription_ports all) event (first ∷ []) core))).0
    ≡ ok tt
apply_event_acknowledged_example =
    apply_event_acknowledged (subscription_ports all) event "s3" (pos 4000) (first ∷ []) core

apply_event_converges_example :
    view (subscription_ports all) (
      deliver
        (subscription_ports all)
        event
        (first ∷ [])
        (apply_event
          (subscription_ports all)
          "s3"
          (pos 4000)
          event
          (calm (deliver (subscription_ports all) event (first ∷ []) core))).1.core)
    ≡ outcome event.kind (view (subscription_ports all) core)
apply_event_converges_example =
    apply_event_converges (subscription_ports all) (subscription_ports-PortLaws all) event "s3"
      (pos 4000) [] (first ∷ []) (first ∷ []) core event-new
      (apply_event_acknowledged (subscription_ports all) event "s3" (pos 4000) (first ∷ []) core)

subscription_ports-PortLaws_example : PortLaws (subscription_ports all)
subscription_ports-PortLaws_example = subscription_ports-PortLaws all

abbrev price : String → Option ℕ → Option Entitlement → PlanData
price id level entitlement = record {
  price_id = id;
  product_id = "prod";
  name = id;
  level = level;
  entitlement = entitlement;
  amount_cents = pos 500;
  currency = "usd";
  interval = "month";
  active = true;
}

abbrev prices : List PlanData
prices =
    price "a" (some 1) (some default_entitlement)
    ∷ price "b" (some 2) (some default_entitlement)
    ∷ price "c" (some 2) (some default_entitlement)
    ∷ price "d" (some 1) none
    ∷ []

-- A promotion of `off` cents until a time.
abbrev promo : String → ℕ → Time → CatalogPromo ℕ
promo id off end = record {
  coupon_id = id;
  name = id;
  percent_off = none;
  amount_off = some (pos off);
  currency = some "usd";
  applies_to_products = [];
  start = none;
  redeem_by = some end;
}

abbrev plan : String → ℕ → CatalogPlan
plan id level = record {
  price_id = id;
  product_id = "prod";
  name = id;
  level = level;
  entitlement = default_entitlement;
  amount_cents = pos 500;
  currency = "usd";
  interval = "month";
}

abbrev promos : List (CatalogPromo ℕ)
promos = promo "p1" 100 (pos 9000) ∷ promo "p2" 200 (pos 9000) ∷ promo "p3" 300 (pos 10) ∷ []

abbrev no_percent : ℕ → ℤ → ℤ
no_percent pct amount = pos 0

-- An upgrade that the provider refuses while a downgrade is pending.
abbrev pending : ScheduledChange
pending = record { price_id = "a"; effective_at = pos 8000 }

abbrev env : Env ℕ
env = record {
  percent_of = no_percent;
  now = λ log. pos 5000;
  db_ok = λ log. true;
  customer_id = λ log t. some "cus1";
  billing_ref = λ log t. some (record {
    customer_id = some "cus1";
    stripe_subscription_id = some "sub1";
    price_id = some "b";
  });
  read_catalog = λ log. record {
    plans = plan "a" 1 ∷ plan "b" 2 ∷ plan "c" 3 ∷ [];
    promos = [];
    last_synced_at = some (pos 4000);
  };
  current = λ log t. none;
  checkout = λ log. refused unavailable;
  setup = λ log. refused unavailable;
  details = λ log sub. answered (record {
    item_id = "item1";
    price_id = "b";
    current_period_end = pos 8000;
    schedule_id = some "sched1";
    trialing = false;
  });
  pending = λ log id. answered (some pending);
  release = λ log id. answered tt;
  upgrade = λ log. refused unavailable;
  downgrade = λ log. answered (pos 8000);
}

abbrev plain : {A : Type 0} → A → A
plain a = a

-- Every signature is the right one, for one time only.
abbrev hmac_at : ℤ → ℤ → Str → List ℕ → Bool
hmac_at at t payload bytes = if ltb_ℤ t at then false else true
