-- ===== src/Billing/Plans/Checkout.antt =====
-- crates/billing/src/service.rs: `start_checkout`, `start_card_update` and `billing_subscription`.
use wardnet_cloud.Prelude.{
  ℕ, String, Bool, true, false, ◌&&◌, leb, ◌∷◌, Option, none, some, if◌then◌else◌,
}
use wardnet_cloud.Prelude.Int.{◌+ℤ◌, ltb_ℤ}
use wardnet_cloud.Prelude.Table.{select_one}
use wardnet_cloud.Contract.License.{Time, SubscriptionStatus, trialing, SubscriptionView}
use wardnet_cloud.Billing.Types.{ScheduledChange, CatalogPlan, BillingRef, no_refs}
use wardnet_cloud.Billing.Promos.{of_price, live_coupon_for_price}
use wardnet_cloud.Billing.Run.{invalid_request, ok}
use wardnet_cloud.Billing.Plans.{
  create_checkout_session, create_setup_session, upsert_customer, Run, ◌>>=◌, ◌>>◌, pure, Env,
  required, or_internal, or_promo_aware, lift, trial_preserve_min, query, call, fetch_details,
}
use wardnet_cloud.Billing.Plans.Change.{read_pending}
use mathlib.Core.Option
use mathlib.Core.Option.{get_or}

-- crates/common/src/contract.rs
pub record PendingChangeView : Type 0 where
  pub price_id : String
  pub name : String
  pub level : ℕ
  pub effective_at : Time

pub record BillingSubscriptionView : Type 0 where
  pub current_price_id : Option String
  pub pending_change : Option PendingChangeView
  pub trialing : Bool

abbrev pub is_trialing : SubscriptionStatus → Bool
is_trialing trialing = true
is_trialing _ = false

abbrev pub within_trial : CatalogPlan → SubscriptionView → Bool
within_trial target s =
    leb target.entitlement.max_networks s.entitlement.max_networks
    && leb target.entitlement.max_daemons s.entitlement.max_daemons

abbrev pub keep_if {ℓ} : {A : Type ℓ} → Bool → A → Option A
keep_if b a = if b then some a else none

-- The end of the trial to defer the first charge to, if it is to be deferred.
unfoldable pub trial_end : Option SubscriptionView → Option CatalogPlan → Time → Option Time
trial_end none target now = none
trial_end (some s) none now = none
trial_end (some s) (some target) now =
    if is_trialing s.status
    then Option.bind s.trial_expires_at (λ expires.
      keep_if (within_trial target s && ltb_ℤ (now +ℤ trial_preserve_min) expires) expires)
    else none

module _ {Percent : Type 0} (env : Env Percent) where
  unfoldable pub stamp_customer : String → Option String → Run (Unit {0})
  stamp_customer tenant_id none = pure tt
  stamp_customer tenant_id (some cid) =
      λ log. query env (λ older. tt) (upsert_customer tenant_id cid ∷ log)

  unfoldable pub start_checkout : String → String → String → Bool → Run String
  unfolding stamp_customer
  start_checkout tenant_id email price_id accept_full_price = do
    customer_id ← query env (λ log. env.customer_id log tenant_id)
    snapshot ← query env env.read_catalog
    now ← (λ log. (ok (env.now log), log))
    let coupon =
        if accept_full_price
        then none
        else live_coupon_for_price env.percent_of snapshot price_id now
    current ← query env (λ log. env.current log tenant_id)
    reply ← call env env.checkout (λ r.
        create_checkout_session customer_id email price_id tenant_id coupon
          (trial_end current (select_one (of_price price_id) snapshot.plans) now))
    session ← lift (or_promo_aware snapshot price_id reply)
    stamp_customer tenant_id session.customer_id
    pure session.url

  -- The currency of the tenant's plan, where it has one in the catalog.
  unfoldable pub currency_of : Option String → Run String
  currency_of none = pure "usd"
  currency_of (some price_id) = do
    snapshot ← query env env.read_catalog
    pure (
        get_or
          (Option.map (λ (p : CatalogPlan). p.currency)
            (select_one (of_price price_id) snapshot.plans))
          "usd")

  unfoldable pub start_card_update : String → Run String
  unfolding currency_of
  start_card_update tenant_id = do
    found ← query env (λ log. env.billing_ref log tenant_id)
    let bref = get_or found no_refs
    customer_id ←
        lift (required (invalid_request "tenant has no billing account yet") bref.customer_id)
    currency ← currency_of bref.price_id
    reply ← call env env.setup (λ r. create_setup_session customer_id currency)
    lift (or_internal reply)

  -- A pending change as the catalog names it; a price that it does not have is named by its id.
  unfoldable pub pending_view : Option ScheduledChange → Run (Option PendingChangeView)
  pending_view none = pure none
  pending_view (some change) = do
    snapshot ← query env env.read_catalog
    let plan = select_one (of_price change.price_id) snapshot.plans
    pure (
        some (record {
          price_id = change.price_id;
          name = get_or (Option.map (λ (p : CatalogPlan). p.name) plan) change.price_id;
          level = get_or (Option.map (λ (p : CatalogPlan). p.level) plan) 0;
          effective_at = change.effective_at;
        }))

  unfoldable pub live_state : Option String → Run (Bool × Option PendingChangeView)
  unfolding pending_view
  live_state none = pure (false, none)
  live_state (some sub) = do
    details ← fetch_details env sub
    change ← read_pending env details.schedule_id details.current_period_end
    pending ← pending_view change
    pure (details.trialing, pending)

  unfoldable pub subscription_view : Option BillingRef → Run BillingSubscriptionView
  unfolding live_state
  subscription_view none =
      pure (record { current_price_id = none; pending_change = none; trialing = false })
  subscription_view (some bref) = do
    state ← live_state bref.stripe_subscription_id
    pure (record { current_price_id = bref.price_id; pending_change = state.1; trialing = state.0 })

  unfoldable pub billing_subscription : String → Run BillingSubscriptionView
  unfolding subscription_view
  billing_subscription tenant_id = do
    bref ← query env (λ log. env.billing_ref log tenant_id)
    subscription_view bref
