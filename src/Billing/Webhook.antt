-- ===== src/Billing/Webhook.antt =====
-- crates/billing/src/service.rs: `apply_event` and what it calls, on an event that was verified.
-- The license aggregate stands behind its port; `id` and `now` are the fresh row id and the clock
-- that its commands read.
pub mod Spec
pub mod Calls
pub mod Again
pub mod Applies
pub mod Refines
pub mod Kinds
pub mod Calm
pub mod Delivery
use wardnet_cloud.Prelude.{String, Bool, true, false, Option, none, some, ◌∷◌, ◌+◌}
use wardnet_cloud.Contract.License.{
  Time, SubscriptionStatus, active, past_due, canceled, Entitlement, default_entitlement,
  SubscriptionView,
}
use wardnet_cloud.Billing.Types.{
  SubscriptionData, StripeEventKind, subscription_upsert, subscription_deleted, payment_failed,
  card_setup_completed, catalog_changed, ignored, StripeEvent,
}
use wardnet_cloud.Billing.Repository.{
  upsert_subscription, tenant_for_subscription, subscription_for_customer, is_event_processed,
}
use wardnet_cloud.Billing.Repository
use mathlib.Core.Option
use mathlib.Core.Option.{get_or}
use wardnet_cloud.Billing.Ports.{SubscriptionPorts}
use wardnet_cloud.Billing.Run.{Core, Run, ◌>>=◌, ◌>>◌, pure, read, write}

abbrev pub or_else {ℓ} : {A : Type ℓ} → Option A → Option A → Option A
or_else none b = b
or_else (some a) b = some a

-- `matches!(…, Some(Active | PastDue))`.
abbrev pub is_paid_status : SubscriptionStatus → Bool
is_paid_status active = true
is_paid_status past_due = true
is_paid_status _ = false

abbrev pub is_canceled : SubscriptionStatus → Bool
is_canceled canceled = true
is_canceled _ = false

abbrev pub is_paid : Option SubscriptionView → Bool
is_paid none = false
is_paid (some v) = is_paid_status v.status

abbrev pub put_license : {S : Type 0} → S → Core S → Core S
put_license s c = record c { license = s }

abbrev command : {S : Type 0} → (S → S) → Run S (Unit {0})
command act = write (λ c. put_license (act c.license) c)

-- The entitlement of an update: the provider's, or that of the license.
abbrev pub kept_entitlement : SubscriptionData → Option SubscriptionView → Entitlement
kept_entitlement d current =
    get_or (or_else d.entitlement (Option.map (λ v. v.entitlement) current)) default_entitlement

module _ (P : SubscriptionPorts) (id : String) (now : Time) where
  unfoldable pub record_ref : String → SubscriptionData → Run P.State (Unit {0})
  record_ref t d = write (λ c. record c {
    customers =
        upsert_subscription t d.stripe_customer_id d.stripe_subscription_id d.price_id c.customers;
  })

  unfoldable pub update_license : String → SubscriptionData → Entitlement → Run P.State (Unit {0})
  unfolding record_ref
  update_license t d e = do
    record_ref t d
    command (λ s. (P.update_paid t d.status e d.current_period_end now s).1)

  unfoldable pub convert_license :
      String → SubscriptionData → Option Entitlement → Run P.State (Unit {0})
  unfolding record_ref
  convert_license t d none = pure tt
  convert_license t d (some e) = do
    record_ref t d
    command (λ s. P.convert_trial_to_paid id t d.status e d.current_period_end now s)

  -- The branch on whether the license is a paid one.
  unfoldable pub grant :
      String → SubscriptionData → Option SubscriptionView → Bool → Run P.State (Unit {0})
  unfolding update_license convert_license
  grant t d current true = update_license t d (kept_entitlement d current)
  grant t d current false = convert_license t d d.entitlement

  unfoldable pub cancel_known : Option String → Run P.State (Unit {0})
  cancel_known none = pure tt
  cancel_known (some t) = command (P.cancel t now)

  -- The branch on whether the provider reports a cancellation, for the tenant that was resolved.
  unfoldable pub reconcile :
      Option String → String → SubscriptionData → Bool → Run P.State (Unit {0})
  unfolding grant cancel_known
  reconcile known t d true = cancel_known known
  reconcile known t d false = do
    current ← read (λ c. P.current t c.license)
    grant t d current (is_paid current)

  unfoldable pub attribute :
      Option String → Option String → SubscriptionData → Run P.State (Unit {0})
  unfolding reconcile
  attribute known none d = pure tt
  attribute known (some t) d = reconcile known t d (is_canceled d.status)

  unfoldable pub apply_upsert : SubscriptionData → Run P.State (Unit {0})
  unfolding attribute
  apply_upsert d = do
    known ← read (λ c. tenant_for_subscription d.stripe_subscription_id c.customers)
    attribute known (or_else known d.tenant_id) d

  unfoldable pub past_due_known : Option String → Run P.State (Unit {0})
  past_due_known none = pure tt
  past_due_known (some t) = command (λ s. (P.mark_past_due t now s).1)

  -- The provider is asked to make the card the default of the customer and of its subscription.
  unfoldable pub apply_event_kind : StripeEventKind → Run P.State (Unit {0})
  unfolding apply_upsert cancel_known past_due_known
  apply_event_kind (subscription_upsert d) = apply_upsert d
  apply_event_kind (subscription_deleted sub) = do
    known ← read (λ c. tenant_for_subscription sub c.customers)
    cancel_known known
  apply_event_kind (payment_failed sub) = do
    known ← read (λ c. tenant_for_subscription sub c.customers)
    past_due_known known
  apply_event_kind (card_setup_completed customer setup_intent) = do
    sub ← read (λ c. subscription_for_customer customer c.customers)
    write (λ c. record c { promoted = (customer, sub, setup_intent) ∷ c.promoted })
  apply_event_kind catalog_changed =
      λ w. pure tt (record w { core = record w.core { resyncs = w.core.resyncs + 1 } })
  apply_event_kind ignored = pure tt

  unfoldable pub skip_processed : StripeEvent → Bool → Run P.State (Unit {0})
  unfolding apply_event_kind
  skip_processed event true = pure tt
  skip_processed event false = do
    apply_event_kind event.kind
    write (λ c. record c { processed = Repository.record_event event.id c.processed })

  unfoldable pub apply_event : StripeEvent → Run P.State (Unit {0})
  unfolding skip_processed
  apply_event event = do
    done ← read (λ c. is_event_processed event.id c.processed)
    skip_processed event done
