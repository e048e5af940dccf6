-- ===== src/Billing/Plans.antt =====
-- The tasks of crates/billing/src/service.rs that answer a user, against an environment.
-- The database and the provider are the environment: whether a statement succeeds, what a read
-- yields and what the provider answers may depend on all that was done before, which the log keeps,
-- the newest first. An entry of the log for a call that is answered says what was answered.
pub mod Change
pub mod Restore
pub mod Checkout
use wardnet_cloud.Prelude.{
  ℕ, String, Bool, true, false, ◌&&◌, ltb, leb, List, [], ◌∷◌, Option, none, some, if◌then◌else◌,
  ◌*◌,
}
use wardnet_cloud.Prelude.Int.{ℤ, pos, ◌+ℤ◌, ltb_ℤ}
use wardnet_cloud.Prelude.Table.{select_one}
use wardnet_cloud.Contract.License.{
  Time, SubscriptionStatus, trialing, Entitlement, SubscriptionView,
}
use wardnet_cloud.Billing.Types.{
  SubscriptionDetails, ScheduledChange, CheckoutSession, CatalogPlan, CatalogSnapshot, BillingRef,
  no_refs,
}
use wardnet_cloud.Billing.Promos.{of_price, live_coupon_for_price}
use wardnet_cloud.Billing.Run.{
  BillingError, invalid_request, promo_unavailable, internal, Outcome, ok, err,
}
use mathlib.Core.Option
use mathlib.Core.Option.{get_or}

-- An error of the provider: `CouponRejected`, or any other.
pub data GatewayError : Type 0 where
  coupon_rejected unavailable : GatewayError

pub data Reply {ℓ} (A : Type ℓ) : Type ℓ where
  answered : A → Reply A
  refused : GatewayError → Reply A

pub data Act : Type 0 where
  statement : Act
  upsert_customer : String → String → Act
  get_subscription : String → Act
  create_checkout_session :
      Option String → String → String → String → Option String → Option Time → Act
  create_setup_session : String → String → Act
  pending_scheduled_change : String → Time → Reply (Option ScheduledChange) → Act
  release_schedule : String → Reply (Unit {0}) → Act
  upgrade_subscription : String → String → String → Option String → Bool → Reply (Unit {0}) → Act
  schedule_downgrade : String → String → String → Time → Reply Time → Act

abbrev pub Log : Type 0
Log = List Act

abbrev pub Run {ℓ} : Type ℓ → Type ℓ
Run A = Log → Outcome A × Log

module _ {ℓ κ} {A : Type ℓ} {B : Type κ} where
  abbrev pub and_then : (A → Run B) → Outcome A → Run B
  and_then f (ok a) w = f a w
  and_then f (err e) w = (err e, w)

  infixl 5 ◌>>=◌
  abbrev pub ◌>>=◌ : Run A → (A → Run B) → Run B
  m >>= f = λ w. and_then f (m w).0 (m w).1

infixl 5 ◌>>◌
abbrev pub ◌>>◌ {ℓ} : {B : Type ℓ} → Run (Unit {0}) → Run B → Run B
m >> k = m >>= λ _. k

abbrev pub pure {ℓ} : {A : Type ℓ} → A → Run A
pure a w = (ok a, w)

abbrev pub fail {ℓ} : {A : Type ℓ} → BillingError → Run A
fail e w = (err e, w)

pub record Env (Percent : Type 0) : Type 0 where
  pub percent_of : Percent → ℤ → ℤ
  pub now : Log → Time
  pub db_ok : Log → Bool
  pub customer_id : Log → String → Option String
  pub billing_ref : Log → String → Option BillingRef
  pub read_catalog : Log → CatalogSnapshot Percent
  pub current : Log → String → Option SubscriptionView
  pub checkout : Log → Reply CheckoutSession
  pub setup : Log → Reply String
  pub details : Log → String → Reply SubscriptionDetails
  pub pending : Log → String → Reply (Option ScheduledChange)
  pub release : Log → String → Reply (Unit {0})
  pub upgrade : Log → Reply (Unit {0})
  pub downgrade : Log → Reply Time

-- `ok_or_else`, and `map_err(BillingError::Internal)`.
unfoldable pub required {ℓ} : {A : Type ℓ} → BillingError → Option A → Outcome A
required e none = err e
required e (some a) = ok a

unfoldable pub or_internal {ℓ} : {A : Type ℓ} → Reply A → Outcome A
or_internal (answered a) = ok a
or_internal (refused e) = err internal

abbrev pub lift {ℓ} : {A : Type ℓ} → Outcome A → Run A
lift o w = (o, w)

unfoldable pub promo_aware_error :
    {Percent : Type 0} → GatewayError → CatalogSnapshot Percent → String → BillingError
promo_aware_error unavailable snapshot price_id = internal
promo_aware_error coupon_rejected snapshot price_id =
    elim (select_one (of_price price_id) snapshot.plans) [
      | none ↦ internal
      | some plan ↦ promo_unavailable plan.amount_cents plan.currency
    ]

unfoldable pub or_promo_aware {ℓ} :
    {Percent : Type 0} {A : Type ℓ} → CatalogSnapshot Percent → String → Reply A → Outcome A
unfolding promo_aware_error
or_promo_aware snapshot price_id (answered a) = ok a
or_promo_aware snapshot price_id (refused e) = err (promo_aware_error e snapshot price_id)

abbrev pub trial_preserve_min : ℤ
trial_preserve_min = pos (48 * 3600)

pub data PlanChangeEffect : Type 0 where
  upgraded downgrade_scheduled downgrade_canceled : PlanChangeEffect

pub record ChangePlanResponse : Type 0 where
  pub effect : PlanChangeEffect
  pub effective_at : Option Time
  pub current_price_id : Option String

module _ {Percent : Type 0} (env : Env Percent) where
  -- A read of a table, and a call of the provider.
  unfoldable pub query {ℓ} : {A : Type ℓ} → (Log → A) → Run A
  query f log =
      if env.db_ok log then (ok (f log), statement ∷ log) else (err internal, statement ∷ log)

  unfoldable pub call {ℓ} : {A : Type ℓ} → (Log → Reply A) → (Reply A → Act) → Run (Reply A)
  call answer act log = (ok (answer log), act (answer log) ∷ log)

  unfoldable pub fetch_details : String → Run SubscriptionDetails
  unfolding call or_internal
  fetch_details sub = do
    reply ← call (λ log. env.details log sub) (λ r. get_subscription sub)
    lift (or_internal reply)
