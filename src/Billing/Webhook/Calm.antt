-- ===== src/Billing/Webhook/Calm.antt =====
-- A webhook event is acknowledged where no call fails.
use wardnet_cloud.Prelude.{String, refl, Bool, true, false, Option, none, some, ◌+◌}
use wardnet_cloud.Contract.License.{Time, Entitlement, SubscriptionView}
use wardnet_cloud.Billing.Types.{
  SubscriptionData, StripeEventKind, subscription_upsert, subscription_deleted, payment_failed,
  card_setup_completed, catalog_changed, ignored, StripeEvent,
}
use wardnet_cloud.Billing.Ports.{SubscriptionPorts}
use wardnet_cloud.Billing.Webhook.{
  is_canceled, is_paid, record_ref, update_license, convert_license, grant, cancel_known, reconcile,
  attribute, apply_upsert, past_due_known, apply_event_kind, skip_processed, apply_event,
}
use wardnet_cloud.Billing.Webhook.Calls.{
  Answers, Answers-write, Answers-pure, Answers-read, Answers-bind,
}

module _ (P : SubscriptionPorts) (id : String) (now : Time) where
  cancel_known-Answers : (k : Option String) → Answers (cancel_known P id now k)
  unfolding cancel_known
  cancel_known-Answers none = Answers-pure
  cancel_known-Answers (some t) = Answers-write _

  past_due_known-Answers : (k : Option String) → Answers (past_due_known P id now k)
  unfolding past_due_known
  past_due_known-Answers none = Answers-pure
  past_due_known-Answers (some t) = Answers-write _

  convert-Answers :
      (t : String) (d : SubscriptionData) (o : Option Entitlement)
      → Answers (convert_license P id now t d o)
  unfolding convert_license
  convert-Answers t d none = Answers-pure
  convert-Answers t d (some e) =
      Answers-bind (record_ref P id now t d) _ (Answers-write _) (Answers-write _)

  grant-Answers :
      (t : String) (d : SubscriptionData) (current : Option SubscriptionView) (paid : Bool)
      → Answers (grant P id now t d current paid)
  unfolding grant update_license
  grant-Answers t d current true =
      Answers-bind (record_ref P id now t d) _ (Answers-write _) (Answers-write _)
  grant-Answers t d current false = convert-Answers t d d.entitlement

  reconcile-Answers :
      (k : Option String) (t : String) (d : SubscriptionData) (dead : Bool)
      → Answers (reconcile P id now k t d dead)
  unfolding reconcile
  reconcile-Answers k t d true = cancel_known-Answers k
  reconcile-Answers k t d false =
      Answers-read _ (λ current. grant P id now t d current (is_paid current))
        (λ current. grant-Answers t d current (is_paid current))

  attribute-Answers :
      (k named : Option String) (d : SubscriptionData) → Answers (attribute P id now k named d)
  unfolding attribute
  attribute-Answers k none d = Answers-pure
  attribute-Answers k (some t) d = reconcile-Answers k t d (is_canceled d.status)

  kind-Answers : (kind : StripeEventKind) → Answers (apply_event_kind P id now kind)
  unfolding apply_event_kind apply_upsert
  kind-Answers (subscription_upsert d) = Answers-read _ _ (λ k. attribute-Answers k _ d)
  kind-Answers (subscription_deleted sub) = Answers-read _ _ cancel_known-Answers
  kind-Answers (payment_failed sub) = Answers-read _ _ past_due_known-Answers
  kind-Answers (card_setup_completed customer setup_intent) =
      Answers-read _ _ (λ sub. Answers-write _)
  kind-Answers catalog_changed = λ c. (record c { resyncs = c.resyncs + 1 }, refl)
  kind-Answers ignored = Answers-pure

  skip-Answers : (event : StripeEvent) (done : Bool) → Answers (skip_processed P id now event done)
  unfolding skip_processed
  skip-Answers event true = Answers-pure
  skip-Answers event false =
      Answers-bind (apply_event_kind P id now event.kind) _ (kind-Answers event.kind)
        (Answers-write _)

  pub apply_event-Answers : (event : StripeEvent) → Answers (apply_event P id now event)
  unfolding apply_event
  apply_event-Answers event = Answers-read _ _ (skip-Answers event)
