-- ===== src/Billing/Webhook/Delivery.antt =====
-- At-least-once delivery of one webhook event: the provider delivers it until it is acknowledged,
-- and possibly again after that.
use wardnet_cloud.Prelude.{
  String, ◌≡◌, refl, ap, inl, inr, Bool, true, false, List, [], ◌∷◌, Bool-cases, ◌∙◌, str_eq,
  str_eq_refl,
}
use wardnet_cloud.Prelude.Table.{exists, exists-append_self}
use wardnet_cloud.Contract.License.{Time}
use wardnet_cloud.Billing.Types.{StripeEvent}
use wardnet_cloud.Billing.Repository.{is_event_processed, record_event}
use wardnet_cloud.Billing.Ports.{SubscriptionPorts, PortLaws}
use wardnet_cloud.Billing.Run.{Fault, Outcome, ok, err, BillingError, internal, Core, World}
use wardnet_cloud.Billing.Webhook.{apply_event_kind, skip_processed, apply_event}
use wardnet_cloud.Billing.Webhook.Spec.{View, outcome}
use wardnet_cloud.Billing.Webhook.Calls.{Ends, after_read, after_run, last_write, calm}
use wardnet_cloud.Billing.Webhook.Again.{outcome_twice}
use wardnet_cloud.Billing.Webhook.Applies.{view, Applies}
use wardnet_cloud.Billing.Webhook.Kinds.{apply_event_kind-Applies}
use wardnet_cloud.Billing.Webhook.Calm.{apply_event-Answers}

-- A delivery: the row id and the clock that it reads, and the faults of its calls.
pub record Attempt : Type 0 where
  pub id : String
  pub now : Time
  pub faults : List Fault

pub processed-record :
    (id : String) (ledger : List String) → is_event_processed id (record_event id ledger) ≡ true
unfolding is_event_processed record_event
processed-record id ledger = elim (Bool-cases (exists (λ x. str_eq x id) ledger)) [
  | inl old ↦ rw old old
  | inr new ↦ rw new (exists-append_self (λ x. str_eq x id) ledger id (str_eq_refl id))
]

unfoldable pub deliver :
    (P : SubscriptionPorts) → StripeEvent → List Attempt → Core P.State → Core P.State
deliver P event [] c = c
deliver P event (a ∷ more) c =
    deliver P event more
      (apply_event P a.id a.now event (record { core = c; faults = a.faults })).1.core

-- A recorded event is skipped.
skip_recorded :
    (P : SubscriptionPorts) (event : StripeEvent) (id : String) (now : Time) (w : World P.State)
    → is_event_processed event.id w.core.processed ≡ true
    → (apply_event P id now event w).1.core ≡ w.core
unfolding apply_event
skip_recorded P event id now w e =
    after_read (λ o c. c ≡ w.core) (λ c. is_event_processed event.id c.processed)
      (skip_processed P id now event) w refl (λ fs. skipped fs _ e)
  where
    skipped :
        (fs : List Fault) (done : Bool)
        → done ≡ true
        → (skip_processed P id now event done (record w { faults = fs })).1.core ≡ w.core
    skipped fs true e = unfold skip_processed in refl
    skipped fs false e = cc

deliver_recorded :
    (P : SubscriptionPorts) (event : StripeEvent) (attempts : List Attempt) (c : Core P.State)
    → is_event_processed event.id c.processed ≡ true
    → deliver P event attempts c ≡ c
unfolding deliver
deliver_recorded P event [] c e = refl
deliver_recorded P event (a ∷ more) c e =
    rw (skip_recorded P event a.id a.now (record { core = c; faults = a.faults }) e)
      (deliver_recorded P event more c e)

module _ (P : SubscriptionPorts) (laws : PortLaws P) (event : StripeEvent) (v0 : View) where
  -- Between deliveries the outcome is still to come, and has come if the ledger has the event.
  record Pending (c : Core P.State) : Type 0 where
    pub to_come : outcome event.kind (view P c) ≡ outcome event.kind v0
    pub come : is_event_processed event.id c.processed ≡ true → view P c ≡ outcome event.kind v0

  record Acked (o : Outcome (Unit {0})) (c : Core P.State) : Type 0 where
    pub pending : Pending c
    pub recorded : o ≡ ok tt → is_event_processed event.id c.processed ≡ true

  failed : (e : BillingError) (c : Core P.State) → Pending c → Acked (err e) c
  failed e c h = record { pending = h; recorded = λ x. cc }

  skip-Acked :
      (id : String) (now : Time) (done : Bool) (w : World P.State)
      → is_event_processed event.id w.core.processed ≡ done
      → Pending w.core
      → Ends Acked (skip_processed P id now event done w)
  unfolding skip_processed
  skip-Acked id now true w e h = record { pending = h; recorded = λ x. e }
  skip-Acked id now false w e h =
      after_run (Applies P event.kind w.core) Acked (apply_event_kind P id now event.kind) _ w
        (apply_event_kind-Applies P laws id now event.kind w)
        (λ err c r. failed err c (unrecorded c r.1 r.2))
        (λ c fs r.
          let before = unrecorded c r.1 r.2 in
          let after = recorded_now c (r.0 refl ∙ h.to_come) in
          last_write Acked _ (record { core = c; faults = fs }) (failed internal c before)
            (failed internal _ after)
            (record { pending = after; recorded = λ x. processed-record event.id c.processed }))
    where
      unrecorded :
          (c : Core P.State)
          → outcome event.kind (view P c) ≡ outcome event.kind (view P w.core)
          → c.processed ≡ w.core.processed
          → Pending c
      unrecorded c same kept = record { to_come = same ∙ h.to_come; come = λ x. cc (kept, e) }

      recorded_now :
          (c : Core P.State)
          → view P c ≡ outcome event.kind v0
          → Pending (record c { processed = record_event event.id c.processed })
      recorded_now c shown = record {
        to_come = rw shown (outcome_twice event.kind v0);
        come = λ x. shown;
      }

  apply_event-Acked :
      (id : String) (now : Time) (w : World P.State)
      → Pending w.core
      → Ends Acked (apply_event P id now event w)
  unfolding apply_event
  apply_event-Acked id now w h =
      after_read Acked (λ c. is_event_processed event.id c.processed)
        (skip_processed P id now event) w (failed internal w.core h)
        (λ fs.
          skip-Acked id now (is_event_processed event.id w.core.processed)
            (record w { faults = fs }) refl h)

  deliver-Pending :
      (attempts : List Attempt) (c : Core P.State)
      → Pending c
      → Pending (deliver P event attempts c)
  unfolding deliver
  deliver-Pending [] c h = h
  deliver-Pending (a ∷ more) c h =
      deliver-Pending more _
        (apply_event-Acked a.id a.now (record { core = c; faults = a.faults }) h).pending

  -- A delivery that is acknowledged left the outcome, and recorded the event.
  acknowledged :
      (o : Outcome (Unit {0})) (c : Core P.State)
      → Acked o c
      → o ≡ ok tt
      → (view P c ≡ outcome event.kind v0) × (is_event_processed event.id c.processed ≡ true)
  acknowledged o c h e = (h.pending.come (h.recorded e), h.recorded e)

module _ (P : SubscriptionPorts) (laws : PortLaws P) (event : StripeEvent) where
  start :
      (c : Core P.State)
      → is_event_processed event.id c.processed ≡ false
      → Pending P laws event (view P c) c
  start c new = record { to_come = refl; come = λ e. cc (e, new) }

  -- However often an event is delivered, with the row id and the clock of each delivery and with
  -- calls that fail before or after they are carried out, and whatever it is delivered again later:
  -- once a delivery is acknowledged, the references of the tenants and the terms of their licenses
  -- are the ones that the event means for those before the first delivery, and they stay so.
  pub apply_event_converges :
      (id : String) (now : Time) (faults : List Fault) (before after : List Attempt)
      (c : Core P.State)
      → is_event_processed event.id c.processed ≡ false
      → (apply_event P id now event (record { core = deliver P event before c; faults = faults })).0
        ≡ ok tt
      → view P (
          deliver P event after
            (apply_event P id now event
              (record { core = deliver P event before c; faults = faults })).1.core)
        ≡ outcome event.kind (view P c)
  apply_event_converges id now faults before after c new acked =
      let v0 = view P c in
      let w : World P.State = record { core = deliver P event before c; faults = faults } in
      let pending = deliver-Pending P laws event v0 before c (start c new) in
      let (shown, recorded) =
        acknowledged P laws event v0 _ _ (apply_event-Acked P laws event v0 id now w pending)
          acked in
      ap (view P) (deliver_recorded P event after _ recorded) ∙ shown

module _ (P : SubscriptionPorts) (event : StripeEvent) where
  -- A delivery none of whose calls fails is acknowledged, whatever deliveries came before.
  pub apply_event_acknowledged :
      (id : String) (now : Time) (before : List Attempt) (c : Core P.State)
      → (apply_event P id now event (calm (deliver P event before c))).0 ≡ ok tt
  apply_event_acknowledged id now before c =
      let (c', e) = apply_event-Answers P id now event (deliver P event before c) in ap (λ r. r.0) e
