-- ===== src/Billing/Webhook/Spec.antt =====
-- What a webhook event means, with no calls and no failures: the provider references of each tenant
-- and the terms of its license, before and after.
use wardnet_cloud.Prelude.{String, Option, none, some, if◌then◌else◌, str_eq}
use wardnet_cloud.Contract.License.{Entitlement}
use wardnet_cloud.Billing.Types.{
  SubscriptionData, StripeEventKind, subscription_upsert, subscription_deleted, payment_failed,
  card_setup_completed, catalog_changed, ignored,
}
use wardnet_cloud.Billing.Repository.{Customers, upsert_subscription, tenant_for_subscription}
use wardnet_cloud.Billing.Ports.{Terms, lapsed}
use wardnet_cloud.Billing.Webhook.{or_else, is_canceled, is_paid_status}

pub record View : Type 0 where
  pub customers : Customers
  pub license : String → Option Terms

abbrev pub set_terms : String → Option Terms → (String → Option Terms) → String → Option Terms
set_terms t x license u = if str_eq u t then x else license u

abbrev pub put : String → Option Terms → View → View
put t x v = record v { license = set_terms t x v.license }

abbrev pub refs : String → SubscriptionData → View → View
refs t d v = record v {
  customers =
      upsert_subscription t d.stripe_customer_id d.stripe_subscription_id d.price_id v.customers;
}

abbrev pub new_terms : SubscriptionData → Entitlement → Option Terms
new_terms d e =
    some (record { status = d.status; entitlement = e; current_period_end = d.current_period_end })

-- The entitlement to grant: a paid license keeps its own where the provider names none, and no
-- other is granted without one.
abbrev pub granted : Option Entitlement → Option Terms → Option Entitlement
granted (some e) current = some e
granted none none = none
granted none (some m) = if is_paid_status m.status then some m.entitlement else none

unfoldable pub granting : String → SubscriptionData → Option Entitlement → View → View
granting t d none v = v
granting t d (some e) v = put t (new_terms d e) (refs t d v)

unfoldable pub canceling : Option String → View → View
canceling none v = v
canceling (some t) v = put t none v

unfoldable pub resolved : Option String → Option String → SubscriptionData → View → View
unfolding granting canceling
resolved known none d v = v
resolved known (some t) d v =
    if is_canceled d.status
    then canceling known v
    else granting t d (granted d.entitlement (v.license t)) v

unfoldable pub lapsing : Option String → View → View
lapsing none v = v
lapsing (some t) v = put t (lapsed (v.license t)) v

unfoldable pub outcome : StripeEventKind → View → View
unfolding resolved canceling lapsing
outcome (subscription_upsert d) v =
    let known = tenant_for_subscription d.stripe_subscription_id v.customers in
    resolved known (or_else known d.tenant_id) d v
outcome (subscription_deleted sub) v = canceling (tenant_for_subscription sub v.customers) v
outcome (payment_failed sub) v = lapsing (tenant_for_subscription sub v.customers) v
outcome (card_setup_completed customer setup_intent) v = v
outcome catalog_changed v = v
outcome ignored v = v
