-- ===== src/Billing/Repository.antt =====
-- crates/billing/src/repository.rs: the tables of billing and their SQL statements.
-- The provider of every row is PROVIDER_STRIPE, the one value that the code binds, so that column
-- and its tests are left out, as are `created_at`, `updated_at` and `processed_at`, which no
-- statement reads. Reading the catalog sorts the plans by level.
use wardnet_cloud.Prelude.{
  String, Bool, false, List, [], ◌∷◌, ◌++◌, Option, none, some, if◌then◌else◌, str_eq, leb,
}
use wardnet_cloud.Prelude.Table.{select_one, exists, update}
use wardnet_cloud.Billing.Types.{CatalogPlan, BillingRef}
use mathlib.Core.Option

pub record Customer : Type 0 where
  pub tenant_id : String
  pub stripe_customer_id : Option String
  pub stripe_subscription_id : Option String
  pub price_id : Option String

abbrev pub Customers : Type 0
Customers = List Customer

abbrev pub of_tenant : String → Customer → Bool
of_tenant tenant_id r = str_eq r.tenant_id tenant_id

-- `column = $1`, which is not true of a NULL column.
abbrev pub holds : Option String → String → Bool
holds none v = false
holds (some u) v = str_eq u v

abbrev pub of_subscription : String → Customer → Bool
of_subscription id r = holds r.stripe_subscription_id id

abbrev pub of_customer : String → Customer → Bool
of_customer id r = holds r.stripe_customer_id id

unfoldable pub upsert_customer : String → String → Customers → Customers
upsert_customer tenant_id stripe_customer_id rows =
    if exists (of_tenant tenant_id) rows
    then update (of_tenant tenant_id)
        (λ r. record r { stripe_customer_id = some stripe_customer_id }) rows
    else rows ++ new ∷ []
  where
    new : Customer
    new = record {
      tenant_id = tenant_id;
      stripe_customer_id = some stripe_customer_id;
      stripe_subscription_id = none;
      price_id = none;
    }

-- The columns that ON CONFLICT sets.
abbrev pub with_refs : String → String → Option String → Customer → Customer
with_refs stripe_customer_id stripe_subscription_id price_id r = record r {
  stripe_customer_id = some stripe_customer_id;
  stripe_subscription_id = some stripe_subscription_id;
  price_id = price_id;
}

abbrev pub new_customer : String → String → String → Option String → Customer
new_customer tenant_id stripe_customer_id stripe_subscription_id price_id = record {
  tenant_id = tenant_id;
  stripe_customer_id = some stripe_customer_id;
  stripe_subscription_id = some stripe_subscription_id;
  price_id = price_id;
}

unfoldable pub upsert_subscription :
    String → String → String → Option String → Customers → Customers
upsert_subscription tenant_id stripe_customer_id stripe_subscription_id price_id rows =
    if exists (of_tenant tenant_id) rows
    then update (of_tenant tenant_id) (with_refs stripe_customer_id stripe_subscription_id price_id)
        rows
    else rows ++ new_customer tenant_id stripe_customer_id stripe_subscription_id price_id ∷ []

-- WHERE tenant_id = $1 AND stripe_customer_id IS NOT NULL: a tenant has one row at most.
unfoldable pub customer_id : String → Customers → Option String
customer_id tenant_id rows =
    Option.bind (select_one (of_tenant tenant_id) rows) (λ r. r.stripe_customer_id)

unfoldable pub billing_ref : String → Customers → Option BillingRef
billing_ref tenant_id rows = Option.map to_ref (select_one (of_tenant tenant_id) rows)
  where
    to_ref : Customer → BillingRef
    to_ref r = record {
      customer_id = r.stripe_customer_id;
      stripe_subscription_id = r.stripe_subscription_id;
      price_id = r.price_id;
    }

unfoldable pub tenant_for_subscription : String → Customers → Option String
tenant_for_subscription stripe_subscription_id rows =
    Option.map (λ r. r.tenant_id) (select_one (of_subscription stripe_subscription_id) rows)

unfoldable pub subscription_for_customer : String → Customers → Option String
subscription_for_customer stripe_customer_id rows =
    Option.bind (select_one (of_customer stripe_customer_id) rows) (λ r. r.stripe_subscription_id)

-- The ledger of the events that were processed.
unfoldable pub is_event_processed : String → List String → Bool
is_event_processed event_id ledger = exists (λ id. str_eq id event_id) ledger

unfoldable pub record_event : String → List String → List String
record_event event_id ledger =
    if exists (λ id. str_eq id event_id) ledger then ledger else ledger ++ event_id ∷ []

-- The catalog, whole: `replace_catalog` is one transaction, and a read sorts by the level.
insert_by_level : CatalogPlan → List CatalogPlan → List CatalogPlan
insert_by_level p [] = p ∷ []
insert_by_level p (q ∷ qs) = if leb p.level q.level then p ∷ (q ∷ qs) else q ∷ insert_by_level p qs

unfoldable pub order_by_level : List CatalogPlan → List CatalogPlan
unfolding insert_by_level
order_by_level [] = []
order_by_level (p ∷ ps) = insert_by_level p (order_by_level ps)
