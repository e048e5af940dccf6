-- ===== src/Billing/Promos.antt =====
-- crates/billing/src/service.rs: the promotions of a plan (`promo_is_live`, `discounted_amount`,
-- `best_live_promo`, `live_coupon_for_price`) and the plans that are shown (`plan_view`, `plans`).
-- `percent_of pct cents` is the rounded `f64` product `cents * pct / 100`.
pub mod Best
use wardnet_cloud.Prelude.{
  ℕ, String, Bool, true, false, ◌&&◌, ◌||◌, List, [], ◌∷◌, map, Option, none, some, if◌then◌else◌,
  str_eq,
}
use wardnet_cloud.Prelude.Int.{ℤ, pos, negsuc, ◌-ℤ◌, leb_ℤ, ltb_ℤ}
use wardnet_cloud.Prelude.Table.{select, select_one}
use wardnet_cloud.Prelude.Bytes.{◌>>=◌}
use wardnet_cloud.Contract.License.{Time, Entitlement}
use wardnet_cloud.Billing.Types.{CatalogPlan, CatalogPromo, CatalogSnapshot}
use wardnet_cloud.Billing.Run.{Outcome, ok, err, stale}
use mathlib.Core.Option
use mathlib.Core.Option.{get_or}

-- crates/common/src/contract.rs
pub record PromoView : Type 0 where
  pub amount_cents_after : ℤ
  pub label : String
  pub ends_at : Time

pub record PlanView : Type 0 where
  pub price_id : String
  pub name : String
  pub level : ℕ
  pub entitlement : Entitlement
  pub amount_cents : ℤ
  pub currency : String
  pub interval : String
  pub promo : Option PromoView

abbrev is_none_or : Option Time → (Time → Bool) → Bool
is_none_or none test = true
is_none_or (some t) test = test t

abbrev is_some_and : Option Time → (Time → Bool) → Bool
is_some_and none test = false
is_some_and (some t) test = test t

any : (String → Bool) → List String → Bool
any test [] = false
any test (s ∷ ss) = test s || any test ss

is_empty : List String → Bool
is_empty [] = true
is_empty (s ∷ ss) = false

max_zero : ℤ → ℤ
max_zero (pos n) = pos n
max_zero (negsuc n) = pos 0

abbrev is_currency : Option String → String → Bool
is_currency none currency = false
is_currency (some c) currency = str_eq c currency

abbrev pub of_price : String → CatalogPlan → Bool
of_price price_id p = str_eq p.price_id price_id

module _ {Percent : Type 0} where
  unfoldable pub promo_is_live : CatalogPromo Percent → CatalogPlan → Time → Bool
  unfolding any is_empty
  promo_is_live c plan now =
      is_none_or c.start (λ s. leb_ℤ s now)
      && (is_some_and c.redeem_by (λ e. leb_ℤ now e)
          && (is_empty c.applies_to_products
              || any (λ p. str_eq p plan.product_id) c.applies_to_products))

  module _ (percent_of : Percent → ℤ → ℤ) where
    amount_discount : Option ℤ → Option String → ℤ → String → ℤ
    unfolding max_zero
    amount_discount none _ amount currency = amount
    amount_discount (some off) promo_currency amount currency =
        if is_currency promo_currency currency then max_zero (amount -ℤ off) else amount

    percent_discount : Option Percent → CatalogPromo Percent → ℤ → String → ℤ
    unfolding max_zero amount_discount
    percent_discount (some pct) c amount currency = max_zero (amount -ℤ percent_of pct amount)
    percent_discount none c amount currency =
        amount_discount c.amount_off c.currency amount currency

    unfoldable pub discounted_amount : ℤ → String → CatalogPromo Percent → ℤ
    unfolding percent_discount
    discounted_amount amount currency c = percent_discount c.percent_off c amount currency

    -- `min_by_key`: the first of the elements with the least key.
    least :
        (CatalogPromo Percent → ℤ)
        → Option (CatalogPromo Percent)
        → List (CatalogPromo Percent)
        → Option (CatalogPromo Percent)
    least key best [] = best
    least key none (c ∷ cs) = least key (some c) cs
    least key (some b) (c ∷ cs) = least key (some (if ltb_ℤ (key c) (key b) then c else b)) cs

    unfoldable pub best_live_promo :
        CatalogPlan → List (CatalogPromo Percent) → Time → Option (CatalogPromo Percent)
    unfolding least
    best_live_promo plan promos now =
        least (discounted_amount plan.amount_cents plan.currency) none
          (select (λ c. promo_is_live c plan now) promos)

    unfoldable pub live_coupon_for_price : CatalogSnapshot Percent → String → Time → Option String
    unfolding best_live_promo
    live_coupon_for_price snapshot price_id now = do
      plan ← select_one (of_price price_id) snapshot.plans
      c ← best_live_promo plan snapshot.promos now
      some c.coupon_id

    unfoldable pub plan_view : CatalogPlan → List (CatalogPromo Percent) → Time → PlanView
    plan_view plan promos now = record {
      price_id = plan.price_id;
      name = plan.name;
      level = plan.level;
      entitlement = plan.entitlement;
      amount_cents = plan.amount_cents;
      currency = plan.currency;
      interval = plan.interval;
      promo = Option.map promo_view (best_live_promo plan promos now);
    }
      where
        promo_view : CatalogPromo Percent → PromoView
        promo_view c = record {
          amount_cents_after = discounted_amount plan.amount_cents plan.currency c;
          label = c.name;
          ends_at = get_or c.redeem_by now;
        }

    -- The catalog is refused if it was never synced, or too long ago.
    plans_since : Option Time → ℤ → CatalogSnapshot Percent → Time → Outcome (List PlanView)
    unfolding plan_view
    plans_since none bound snapshot now = err stale
    plans_since (some ts) bound snapshot now =
        if leb_ℤ (now -ℤ ts) bound
        then ok (map (λ plan. plan_view plan snapshot.promos now) snapshot.plans)
        else err stale

    unfoldable pub plans : ℤ → CatalogSnapshot Percent → Time → Outcome (List PlanView)
    unfolding plans_since
    plans catalog_stale snapshot now =
        plans_since snapshot.last_synced_at catalog_stale snapshot now
