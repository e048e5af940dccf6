-- ===== src/Billing/Webhook/Kinds.antt =====
-- Every webhook event against what it means, under any faults of the calls.
use wardnet_cloud.Prelude.{String, ◌≡◌, refl, sym, Bool, true, false, ◌∷◌, ◌+◌, Option, none, some}
use wardnet_cloud.Contract.License.{Time}
use wardnet_cloud.Billing.Types.{
  SubscriptionData, StripeEventKind, subscription_upsert, subscription_deleted, payment_failed,
  card_setup_completed, catalog_changed, ignored,
}
use wardnet_cloud.Billing.Repository.{tenant_for_subscription, subscription_for_customer}
use wardnet_cloud.Billing.Ports.{SubscriptionPorts, PortLaws}
use wardnet_cloud.Billing.Run.{ok, World, write}
use wardnet_cloud.Billing.Webhook.{
  or_else, is_canceled, is_paid, grant, cancel_known, reconcile, attribute, apply_upsert,
  past_due_known, apply_event_kind,
}
use wardnet_cloud.Billing.Webhook.Spec.{outcome}
use wardnet_cloud.Billing.Webhook.Calls.{Ends, after_read}
use wardnet_cloud.Billing.Webhook.Applies.{view, Applies, applied, stopped, Applies-write}
use wardnet_cloud.Billing.Webhook.Again.{known, outcome-unnamed, outcome-dead}
use wardnet_cloud.Billing.Webhook.Refines.{
  cancel_known-Applies, past_due_known-Applies, grant-Applies,
}

module _ (P : SubscriptionPorts) (laws : PortLaws P) where
  module _ (id : String) (now : Time) (d : SubscriptionData) where
    reconcile-Applies :
        (t : String) (dead : Bool) (w : World P.State)
        → or_else (known d (view P w.core)) d.tenant_id ≡ some t
        → is_canceled d.status ≡ dead
        → Ends
            (Applies P (subscription_upsert d) w.core)
            (reconcile P id now (known d (view P w.core)) t d dead w)
    unfolding reconcile
    reconcile-Applies t true w found dead =
        cancel_known-Applies P laws id now (subscription_upsert d) w (known d (view P w.core))
          (sym (outcome-dead t d (view P w.core) found dead))
    reconcile-Applies t false w found live =
        let kind = subscription_upsert d in
        after_read (Applies P kind w.core) (λ c. P.current t c.license)
          (λ current. grant P id now t d current (is_paid current)) w
          (stopped P kind w.core w.core refl refl)
          (λ fs.
            grant-Applies P laws id now t d (record w { faults = fs }) found live
              (P.current t w.core.license) (is_paid (P.current t w.core.license)) refl refl)

    attribute-Applies :
        (named : Option String) (w : World P.State)
        → or_else (known d (view P w.core)) d.tenant_id ≡ named
        → Ends
            (Applies P (subscription_upsert d) w.core)
            (attribute P id now (known d (view P w.core)) named d w)
    unfolding attribute
    attribute-Applies none w unnamed =
        applied P (subscription_upsert d) w.core (ok tt) w.core
          (sym (outcome-unnamed d (view P w.core) unnamed)) refl
    attribute-Applies (some t) w found = reconcile-Applies t (is_canceled d.status) w found refl

  pub apply_event_kind-Applies :
      (id : String) (now : Time) (kind : StripeEventKind) (w : World P.State)
      → Ends (Applies P kind w.core) (apply_event_kind P id now kind w)
  unfolding apply_event_kind apply_upsert outcome
  apply_event_kind-Applies id now (subscription_upsert d) w =
      let kind = subscription_upsert d in
      after_read (Applies P kind w.core)
        (λ c. tenant_for_subscription d.stripe_subscription_id c.customers)
        (λ known. attribute P id now known (or_else known d.tenant_id) d) w
        (stopped P kind w.core w.core refl refl)
        (λ fs. attribute-Applies id now d _ (record w { faults = fs }) refl)
  apply_event_kind-Applies id now (subscription_deleted sub) w =
      let kind = subscription_deleted sub in
      after_read (Applies P kind w.core) (λ c. tenant_for_subscription sub c.customers)
        (cancel_known P id now) w (stopped P kind w.core w.core refl refl)
        (λ fs. cancel_known-Applies P laws id now kind (record w { faults = fs }) _ refl)
  apply_event_kind-Applies id now (payment_failed sub) w =
      let kind = payment_failed sub in
      after_read (Applies P kind w.core) (λ c. tenant_for_subscription sub c.customers)
        (past_due_known P id now) w (stopped P kind w.core w.core refl refl)
        (λ fs. past_due_known-Applies P laws id now kind (record w { faults = fs }) _ refl)
  apply_event_kind-Applies id now (card_setup_completed customer setup_intent) w =
      let kind = card_setup_completed customer setup_intent in
      after_read (Applies P kind w.core) (λ c. subscription_for_customer customer c.customers)
        (λ sub. write (λ c. record c { promoted = (customer, sub, setup_intent) ∷ c.promoted })) w
        (stopped P kind w.core w.core refl refl)
        (λ fs. Applies-write P kind w.core _ (record w { faults = fs }) refl refl refl refl)
  apply_event_kind-Applies id now catalog_changed w =
      applied P catalog_changed w.core (ok tt) (record w.core { resyncs = w.core.resyncs + 1 }) refl
        refl
  apply_event_kind-Applies id now ignored w = applied P ignored w.core (ok tt) w.core refl refl
