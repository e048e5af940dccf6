-- ===== src/Billing/Gateway.antt =====
-- crates/billing/src/gateway.rs: what is made of the objects of the payment provider. An object is
-- given with the fields that are read; `parse_u32` reads a number in a text, `timestamp_opt` a time in a
-- number of seconds, where `none` is no time.
pub mod Signature
use wardnet_cloud.Prelude.{
  ℕ, String, Bool, true, false, ◌||◌, List, [], ◌∷◌, map, Option, none, some, if◌then◌else◌, str_eq,
}
use wardnet_cloud.Prelude.Int.{ℤ, ltb_ℤ}
use wardnet_cloud.Prelude.Text.{Str, codes, strip_prefix}
use wardnet_cloud.Prelude.Table.{select_one}
use wardnet_cloud.Prelude.Bytes.{◌>>=◌}
use wardnet_cloud.Contract.License.{
  Time, SubscriptionStatus, active, past_due, canceled, Entitlement,
}
use wardnet_cloud.Billing.Types.{
  SubscriptionData, StripeEventKind, subscription_upsert, subscription_deleted, payment_failed,
  card_setup_completed, catalog_changed, ignored, StripeEvent, PlanData, PromotionData,
  SubscriptionDetails, ScheduledChange,
}
use mathlib.Core.Option
use mathlib.Core.Option.{get_or}

abbrev pub Metadata : Type 0
Metadata = List (String × String)

abbrev get : String → Metadata → Option String
get key m = Option.map (λ (e : String × String). e.1) (select_one (λ e. str_eq e.0 key) m)

pub record StripePrice : Type 0 where
  pub id : String
  pub metadata : Metadata

pub record StripeSubscriptionItem : Type 0 where
  pub id : Option String
  pub price : Option StripePrice
  pub current_period_end : Option ℤ

pub record StripeSubscription : Type 0 where
  pub id : String
  pub customer : String
  pub status : String
  pub current_period_end : Option ℤ
  pub metadata : Metadata
  pub items : List StripeSubscriptionItem
  pub schedule : Option String

pub record StripePriceFull : Type 0 where
  pub id : String
  pub unit_amount : Option ℤ
  pub currency : String
  pub recurring : Option String
  pub active : Bool
  pub product : Option (String × Option String)
  pub metadata : Metadata

pub record StripeCoupon (Percent : Type 0) : Type 0 where
  pub id : String
  pub name : Option String
  pub percent_off : Option Percent
  pub amount_off : Option ℤ
  pub currency : Option String
  pub redeem_by : Option ℤ
  pub applies_to : Option (List String)
  pub metadata : Metadata

-- The subscription of an invoice, at the place of the older and of the newer version.
pub record StripeInvoice : Type 0 where
  pub subscription : Option String
  pub parent_subscription : Option String

pub record CheckoutSessionObject : Type 0 where
  pub mode : Option String
  pub customer : Option String
  pub setup_intent : Option String

pub record StripeSchedulePhase : Type 0 where
  pub start_date : Option ℤ
  pub prices : List (Option String)

abbrev or_else {ℓ} : {A : Type ℓ} → Option A → Option A → Option A
or_else none b = b
or_else (some a) b = some a

abbrev first {ℓ} : {A : Type ℓ} → List A → Option A
first [] = none
first (a ∷ rest) = some a

unfoldable pub map_status : String → SubscriptionStatus
map_status status =
    if str_eq status "active" || str_eq status "trialing"
    then active
    else if str_eq status "past_due" || str_eq status "unpaid"
    then past_due
    else canceled

abbrev pub subscription_id : StripeInvoice → Option String
subscription_id i = or_else i.subscription i.parent_subscription

abbrev starts_with : String → String → Bool
starts_with prefix s = elim (strip_prefix (codes prefix) (codes s)) [
  | none ↦ false
  | some rest ↦ true
]

unfoldable pub is_catalog_event : String → Bool
is_catalog_event t =
    starts_with "price." t
    || (starts_with "product." t || (starts_with "coupon." t || starts_with "promotion_code." t))

abbrev failed_invoice : StripeInvoice → StripeEventKind
failed_invoice i = elim (subscription_id i) [ none ↦ ignored | some id ↦ payment_failed id ]

abbrev card_setup : Option String → Option String → Option String → StripeEventKind
card_setup (some mode) (some customer) (some setup_intent) =
    if str_eq mode "setup" then card_setup_completed customer setup_intent else ignored
card_setup _ _ _ = ignored

module _ (parse_u32 : String → Option ℕ) (timestamp_opt : ℤ → Option Time) where
  unfoldable pub entitlement_from_meta : Metadata → Option Entitlement
  entitlement_from_meta m = do
    max_networks ← Option.bind (get "max_networks" m) parse_u32
    max_daemons ← Option.bind (get "max_daemons" m) parse_u32
    some (record { max_networks = max_networks; max_daemons = max_daemons })

  unfoldable pub map_subscription : StripeSubscription → SubscriptionData
  unfolding entitlement_from_meta map_status
  map_subscription sub =
      let item = first sub.items in
      let price = Option.bind item (λ (i : StripeSubscriptionItem). i.price) in
      record {
        tenant_id = get "tenant_id" sub.metadata;
        stripe_subscription_id = sub.id;
        stripe_customer_id = sub.customer;
        price_id = Option.map (λ (p : StripePrice). p.id) price;
        entitlement = Option.bind price (λ (p : StripePrice). entitlement_from_meta p.metadata);
        status = map_status sub.status;
        current_period_end =
            Option.bind
              (or_else sub.current_period_end
                (Option.bind item (λ (i : StripeSubscriptionItem). i.current_period_end)))
              timestamp_opt;
      }

  unfoldable pub map_plan : StripePriceFull → Option PlanData
  unfolding entitlement_from_meta
  map_plan price = do
    product ← price.product
    amount_cents ← price.unit_amount
    interval ← price.recurring
    some (record {
      price_id = price.id;
      product_id = product.0;
      name = get_or product.1 "";
      level = Option.bind (get "level" price.metadata) parse_u32;
      entitlement = entitlement_from_meta price.metadata;
      amount_cents = amount_cents;
      currency = price.currency;
      interval = interval;
      active = price.active;
    })

  unfoldable pub map_coupon :
      {Percent : Type 0} → (String → Option Time) → StripeCoupon Percent → PromotionData Percent
  map_coupon parse_from_rfc3339 c = record {
    coupon_id = c.id;
    name = get_or c.name "";
    percent_off = c.percent_off;
    amount_off = c.amount_off;
    currency = c.currency;
    applies_to_products = get_or c.applies_to [];
    start = Option.bind (get "wardnet_promo_start" c.metadata) parse_from_rfc3339;
    redeem_by = Option.bind c.redeem_by timestamp_opt;
    auto_apply = elim (get "wardnet_auto_apply" c.metadata) [
      | none ↦ false
      | some v ↦ str_eq v "true"
    ];
  }

  -- The answer of `get_subscription`; a missing field is a failure.
  unfoldable pub get_subscription : StripeSubscription → Option SubscriptionDetails
  get_subscription sub = do
    item ← first sub.items
    item_id ← item.id
    price ← item.price
    period_end_ts ← or_else sub.current_period_end item.current_period_end
    current_period_end ← timestamp_opt period_end_ts
    some (record {
      item_id = item_id;
      price_id = price.id;
      current_period_end = current_period_end;
      schedule_id = sub.schedule;
      trialing = str_eq sub.status "trialing";
    })

  starts_from : ℤ → StripeSchedulePhase → Bool
  starts_from cutoff p = elim p.start_date [
    | none ↦ false
    | some s ↦ if ltb_ℤ s cutoff then false else true
  ]

  -- The phase that starts at the end of the current period, or after it.
  unfoldable pub pending_scheduled_change : List StripeSchedulePhase → Time → Option ScheduledChange
  unfolding starts_from
  pending_scheduled_change phases current_period_end = do
    phase ← select_one (starts_from current_period_end) phases
    price ← first phase.prices
    price_id ← price
    start ← phase.start_date
    effective_at ← timestamp_opt start
    some (record { price_id = price_id; effective_at = effective_at })

  -- An event with its body, which is read as the object that its type names.
  module _ {Body : Type 0} (as_subscription : Body → Option StripeSubscription)
      (as_invoice : Body → Option StripeInvoice)
      (as_session : Body → Option CheckoutSessionObject) where
    unfoldable pub kind_of : String → Body → Option StripeEventKind
    unfolding map_subscription is_catalog_event
    kind_of event_type body =
        if str_eq event_type "customer.subscription.created"
          || str_eq event_type "customer.subscription.updated"
        then Option.map (λ sub. subscription_upsert (map_subscription sub)) (as_subscription body)
        else if str_eq event_type "customer.subscription.deleted"
        then Option.map (λ (sub : StripeSubscription). subscription_deleted sub.id)
            (as_subscription body)
        else if str_eq event_type "invoice.payment_failed"
        then Option.map failed_invoice (as_invoice body)
        else if str_eq event_type "checkout.session.completed"
        then Option.map (λ (s : CheckoutSessionObject). card_setup s.mode s.customer s.setup_intent)
            (as_session body)
        else if is_catalog_event event_type
        then some catalog_changed
        else some ignored

    unfoldable pub normalize_event : String → String → Body → Option StripeEvent
    unfolding kind_of
    normalize_event id event_type body =
        Option.map (λ kind. record { id = id; kind = kind }) (kind_of event_type body)
