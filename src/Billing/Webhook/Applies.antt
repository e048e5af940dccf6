-- ===== src/Billing/Webhook/Applies.antt =====
-- What a webhook task has done under any faults, against what its event means.
use wardnet_cloud.Prelude.{◌≡◌}
use wardnet_cloud.Billing.Types.{StripeEventKind}
use wardnet_cloud.Billing.Ports.{SubscriptionPorts, terms_of}
use wardnet_cloud.Billing.Run.{Outcome, ok, err, internal, Core, World, write}
use wardnet_cloud.Billing.Webhook.Spec.{View, outcome}
use wardnet_cloud.Billing.Webhook.Calls.{Ends, last_write}
use wardnet_cloud.Billing.Webhook.Again.{outcome_twice}

-- What billing and its license port show of the tenants.
abbrev pub view : (P : SubscriptionPorts) → Core P.State → View
view P c = record { customers = c.customers; license = λ t. terms_of P t c.license }

module _ (P : SubscriptionPorts) (kind : StripeEventKind) (c0 : Core P.State) where
  -- A task that answers has brought the outcome about, and one that fails leaves it to come. The
  -- ledger is left alone.
  abbrev pub Applies : Outcome (Unit {0}) → Core P.State → Type 0
  Applies o c =
      (o ≡ ok tt → view P c ≡ outcome kind (view P c0))
      × (outcome kind (view P c) ≡ outcome kind (view P c0))
      × (c.processed ≡ c0.processed)

  pub applied :
      (o : Outcome (Unit {0})) (c : Core P.State)
      → view P c ≡ outcome kind (view P c0)
      → c.processed ≡ c0.processed
      → Applies o c
  applied o c h kept = ((λ e. h), rw h (outcome_twice kind (view P c0)), kept)

  pub stopped :
      (c : Core P.State)
      → outcome kind (view P c) ≡ outcome kind (view P c0)
      → c.processed ≡ c0.processed
      → Applies (err internal) c
  stopped c h kept = ((λ e. cc), h, kept)

  -- A last call that brings the outcome about.
  pub Applies-write :
      (f : Core P.State → Core P.State) (w : World P.State)
      → outcome kind (view P w.core) ≡ outcome kind (view P c0)
      → view P (f w.core) ≡ outcome kind (view P c0)
      → w.core.processed ≡ c0.processed
      → (f w.core).processed ≡ c0.processed
      → Ends Applies (write f w)
  Applies-write f w before after kept kept' =
      last_write Applies f w (stopped w.core before kept)
        (applied (err internal) (f w.core) after kept') (applied (ok tt) (f w.core) after kept')
