-- ===== src/Billing/Catalog.antt =====
-- crates/billing/src/service.rs and repository.rs: which plans and promotions the catalog keeps
-- (`validate_plans`, `validate_promos`, `sync_catalog`, `replace_catalog`, `read_catalog`). The ids of
-- the provider's prices are distinct, so that no INSERT meets an old key.
pub mod Validation
use wardnet_cloud.Prelude.{
  ℕ, String, Bool, true, false, ◌&&◌, ◌||◌, ◌==◌, leb, List, [], ◌∷◌, map, Option, none, some,
  if◌then◌else◌, str_eq,
}
use wardnet_cloud.Prelude.Int.{ℤ, pos, negsuc, ◌-ℤ◌, leb_ℤ, ltb_ℤ}
use wardnet_cloud.Prelude.Table.{select, select_one, count}
use wardnet_cloud.Contract.License.{Time, Entitlement}
use wardnet_cloud.Billing.Types.{
  PlanData, PromotionData, CatalogPlan, CatalogPromo, CatalogSnapshot,
}
use wardnet_cloud.Billing.Repository.{order_by_level}
use mathlib.Core.Option
use mathlib.Core.Option.{get_or}

to_plan : PlanData → Option ℕ → Option Entitlement → Option CatalogPlan
to_plan p (some level) (some entitlement) = some (record {
  price_id = p.price_id;
  product_id = p.product_id;
  name = p.name;
  level = level;
  entitlement = entitlement;
  amount_cents = p.amount_cents;
  currency = p.currency;
  interval = p.interval;
})
to_plan p _ _ = none

prepend {ℓ} : {A : Type ℓ} → Option A → List A → List A
prepend none xs = xs
prepend (some x) xs = x ∷ xs

unfoldable pub well_formed : List PlanData → List CatalogPlan
unfolding to_plan prepend
well_formed [] = []
well_formed (p ∷ ps) = prepend (to_plan p p.level p.entitlement) (well_formed ps)

abbrev pub at_level : ℕ → CatalogPlan → Bool
at_level level p = p.level == level

-- `by_level` holds how many of the well-formed plans have each level.
unfoldable pub validate_plans : List PlanData → List CatalogPlan
validate_plans raw =
    let plans = well_formed raw in select (λ p. count (at_level p.level) plans == 1) plans

-- The columns are `i32`; a value out of range fails the transaction, and the old catalog stays.
abbrev fits_i32 : ℕ → Bool
fits_i32 n = leb n 2147483647

abbrev pub plan_fits : CatalogPlan → Bool
plan_fits p =
    fits_i32 p.level && (fits_i32 p.entitlement.max_networks && fits_i32 p.entitlement.max_daemons)

all_fit : List CatalogPlan → Bool
all_fit [] = true
all_fit (p ∷ ps) = plan_fits p && all_fit ps

module _ {Percent : Type 0} where
  abbrev pub to_promo : PromotionData Percent → CatalogPromo Percent
  to_promo c = record {
    coupon_id = c.coupon_id;
    name = c.name;
    percent_off = c.percent_off;
    amount_off = c.amount_off;
    currency = c.currency;
    applies_to_products = c.applies_to_products;
    start = c.start;
    redeem_by = c.redeem_by;
  }

  unfoldable pub validate_promos : List (PromotionData Percent) → List (CatalogPromo Percent)
  validate_promos raw = map to_promo (select (λ c. c.auto_apply) raw)

  unfoldable pub replace_catalog :
      List CatalogPlan
      → List (CatalogPromo Percent)
      → Time
      → CatalogSnapshot Percent
      → Bool × CatalogSnapshot Percent
  unfolding all_fit
  replace_catalog plans promos now old =
      if all_fit plans
      then (true, record { plans = plans; promos = promos; last_synced_at = some now })
      else (false, old)

  unfoldable pub read_catalog : CatalogSnapshot Percent → CatalogSnapshot Percent
  read_catalog c = record c { plans = order_by_level c.plans }

  -- The listings of the provider, where it answered both.
  unfoldable pub sync_catalog :
      Option (List PlanData)
      → Option (List (PromotionData Percent))
      → Time
      → CatalogSnapshot Percent
      → Bool × CatalogSnapshot Percent
  unfolding replace_catalog
  sync_catalog (some raw_plans) (some raw_promos) now old =
      replace_catalog (validate_plans raw_plans) (validate_promos raw_promos) now old
  sync_catalog _ _ now old = (false, old)
