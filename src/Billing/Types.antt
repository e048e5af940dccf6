-- ===== src/Billing/Types.antt =====
-- crates/billing/src/gateway.rs and repository.rs: the data that the billing service works on.
-- A percentage (an `f64`) is a value of a type that is given, since its arithmetic is rounded.
use wardnet_cloud.Prelude.{ℕ, String, Bool, List, Option, none}
use wardnet_cloud.Prelude.Int.{ℤ}
use wardnet_cloud.Contract.License.{Time, SubscriptionStatus, Entitlement}

-- The fields that are read from a subscription of the provider.
pub record SubscriptionData : Type 0 where
  pub tenant_id : Option String
  pub stripe_subscription_id : String
  pub stripe_customer_id : String
  pub price_id : Option String
  pub entitlement : Option Entitlement
  pub status : SubscriptionStatus
  pub current_period_end : Option Time

pub data StripeEventKind : Type 0 where
  subscription_upsert : SubscriptionData → StripeEventKind
  subscription_deleted : String → StripeEventKind
  payment_failed : String → StripeEventKind
  card_setup_completed : String → String → StripeEventKind
  catalog_changed : StripeEventKind
  ignored : StripeEventKind

pub record StripeEvent : Type 0 where
  pub id : String
  pub kind : StripeEventKind

pub record PlanData : Type 0 where
  pub price_id : String
  pub product_id : String
  pub name : String
  pub level : Option ℕ
  pub entitlement : Option Entitlement
  pub amount_cents : ℤ
  pub currency : String
  pub interval : String
  pub active : Bool

pub record SubscriptionDetails : Type 0 where
  pub item_id : String
  pub price_id : String
  pub current_period_end : Time
  pub schedule_id : Option String
  pub trialing : Bool

pub record ScheduledChange : Type 0 where
  pub price_id : String
  pub effective_at : Time

pub record CheckoutSession : Type 0 where
  pub url : String
  pub customer_id : Option String

pub record CatalogPlan : Type 0 where
  pub price_id : String
  pub product_id : String
  pub name : String
  pub level : ℕ
  pub entitlement : Entitlement
  pub amount_cents : ℤ
  pub currency : String
  pub interval : String

pub record PromotionData (Percent : Type 0) : Type 0 where
  pub coupon_id : String
  pub name : String
  pub percent_off : Option Percent
  pub amount_off : Option ℤ
  pub currency : Option String
  pub applies_to_products : List String
  pub start : Option Time
  pub redeem_by : Option Time
  pub auto_apply : Bool

pub record CatalogPromo (Percent : Type 0) : Type 0 where
  pub coupon_id : String
  pub name : String
  pub percent_off : Option Percent
  pub amount_off : Option ℤ
  pub currency : Option String
  pub applies_to_products : List String
  pub start : Option Time
  pub redeem_by : Option Time

pub record CatalogSnapshot (Percent : Type 0) : Type 0 where
  pub plans : List CatalogPlan
  pub promos : List (CatalogPromo Percent)
  pub last_synced_at : Option Time

-- A tenant's recorded provider references, and their absence (`Default`).
pub record BillingRef : Type 0 where
  pub customer_id : Option String
  pub stripe_subscription_id : Option String
  pub price_id : Option String

abbrev pub no_refs : BillingRef
no_refs = record { customer_id = none; stripe_subscription_id = none; price_id = none }
