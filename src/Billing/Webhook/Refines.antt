-- ===== src/Billing/Webhook/Refines.antt =====
-- The webhook tasks against what the events mean, under any faults of the calls.
use wardnet_cloud.Prelude.{
  String, ◌≡◌, ◌≢◌, refl, sym, ap, Bool, true, false, Option, none, some, if◌then◌else◌, str_eq,
  str_eq_iff, ◌∙◌,
}
use wardnet_cloud.Contract.License.{Time, Entitlement, SubscriptionView, default_entitlement}
use wardnet_cloud.Billing.Types.{SubscriptionData, StripeEventKind, subscription_upsert}
use wardnet_cloud.Billing.Repository.{upsert_subscription}
use wardnet_cloud.Billing.Ports.{SubscriptionPorts, Terms, terms, terms_of, lapsed, PortLaws}
use wardnet_cloud.Billing.Run.{ok, Core, World, ◌>>◌}
use wardnet_cloud.Billing.Webhook.{
  or_else, is_canceled, is_paid, is_paid_status, put_license, command, record_ref, kept_entitlement,
  update_license, convert_license, grant, cancel_known, past_due_known,
}
use wardnet_cloud.Billing.Webhook.Spec.{
  set_terms, put, refs, new_terms, granted, granting, canceling, lapsing, outcome,
}
use wardnet_cloud.Billing.Webhook.Calls.{Ends, after_execute}
use wardnet_cloud.Billing.Webhook.Applies.{view, Applies, applied, stopped, Applies-write}
use wardnet_cloud.Billing.Webhook.Again.{known, outcome-refs, outcome-resolved}
use mathlib.Core.Path.{fun_ext}
use mathlib.Core.Option
use mathlib.Core.Option.{get_or}

module _ (P : SubscriptionPorts) (laws : PortLaws P) where
  license_set :
      (t : String) (x : Option Terms) (s s' : P.State)
      → terms_of P t s' ≡ x
      → ((u : String) → u ≢ t → P.current u s' ≡ P.current u s)
      → (λ u. terms_of P u s') ≡ set_terms t x (λ u. terms_of P u s)
  license_set t x s s' self other = fun_ext λ u. at u (str_eq u t) refl
    where
      at :
          (u : String) (b : Bool)
          → str_eq u t ≡ b
          → terms_of P u s' ≡ (if b then x else terms_of P u s)
      at u true e = let same : u ≡ t = (str_eq_iff u t).0 e in rw same self
      at u false e = ap (Option.map terms) (other u (λ same. cc (e, (str_eq_iff u t).1 same)))

  view-license :
      (c : Core P.State) (t : String) (x : Option Terms) (s' : P.State)
      → terms_of P t s' ≡ x
      → ((u : String) → u ≢ t → P.current u s' ≡ P.current u c.license)
      → view P (put_license s' c) ≡ put t x (view P c)
  view-license c t x s' self other =
      ap (λ l. record { customers = c.customers; license = l })
        (license_set t x c.license s' self other)

  module _ (id : String) (now : Time) (t : String) (c : Core P.State) where
    view-convert :
        (d : SubscriptionData) (e : Entitlement)
        → is_canceled d.status ≡ false
        → view P (
            put_license
              (P.convert_trial_to_paid id t d.status e d.current_period_end now c.license)
              c)
          ≡ put t (new_terms d e) (view P c)
    view-convert d e live =
        view-license c t _ _
          (laws.convert_self id t d.status e d.current_period_end now c.license
            (λ same. cc (ap is_canceled same, live)))
          (λ u other.
            laws.convert_other id t u d.status e d.current_period_end now c.license
              (λ same. cc (ap is_canceled same, live)) other)

    view-update :
        (d : SubscriptionData) (e : Entitlement) (v : SubscriptionView)
        → is_canceled d.status ≡ false
        → P.current t c.license ≡ some v
        → view P (put_license (P.update_paid t d.status e d.current_period_end now c.license).1 c)
          ≡ put t (new_terms d e) (view P c)
    view-update d e v live there =
        view-license c t _ _
          (laws.update_self t d.status e d.current_period_end now c.license
              (λ same. cc (ap is_canceled same, live))
            ∙ rw there refl)
          (λ u other. laws.update_other t u d.status e d.current_period_end now c.license other)

    view-cancel : view P (put_license (P.cancel t now c.license) c) ≡ put t none (view P c)
    view-cancel =
        view-license c t none _ (ap (Option.map terms) (laws.cancel_self t now c.license))
          (λ u other. laws.cancel_other t u now c.license other)

    view-past_due :
        view P (put_license (P.mark_past_due t now c.license).1 c)
        ≡ put t (lapsed (terms_of P t c.license)) (view P c)
    view-past_due =
        view-license c t _ _ (laws.past_due_self t now c.license)
          (λ u other. laws.past_due_other t u now c.license other)

  module _ (id : String) (now : Time) (kind : StripeEventKind) (w : World P.State) where
    pub cancel_known-Applies :
        (k : Option String)
        → canceling k (view P w.core) ≡ outcome kind (view P w.core)
        → Ends (Applies P kind w.core) (cancel_known P id now k w)
    unfolding cancel_known canceling
    cancel_known-Applies none h = applied P kind w.core (ok tt) w.core h refl
    cancel_known-Applies (some t) h =
        Applies-write P kind w.core _ w refl (view-cancel id now t w.core ∙ h) refl refl

    pub past_due_known-Applies :
        (k : Option String)
        → lapsing k (view P w.core) ≡ outcome kind (view P w.core)
        → Ends (Applies P kind w.core) (past_due_known P id now k w)
    unfolding past_due_known lapsing
    past_due_known-Applies none h = applied P kind w.core (ok tt) w.core h refl
    past_due_known-Applies (some t) h =
        Applies-write P kind w.core _ w refl (view-past_due id now t w.core ∙ h) refl refl

  -- The two writes of a grant.
  module _ (id : String) (now : Time) (t : String) (d : SubscriptionData) (e : Entitlement)
      (w : World P.State) where
    recorded : Core P.State → Core P.State
    recorded c = record c {
      customers =
          upsert_subscription t d.stripe_customer_id d.stripe_subscription_id d.price_id
            c.customers;
    }

    grants-Applies :
        (act : P.State → P.State)
        → outcome (subscription_upsert d) (refs t d (view P w.core))
          ≡ outcome (subscription_upsert d) (view P w.core)
        → put t (new_terms d e) (refs t d (view P w.core))
          ≡ outcome (subscription_upsert d) (view P w.core)
        → view P (put_license (act w.core.license) (recorded w.core))
          ≡ put t (new_terms d e) (refs t d (view P w.core))
        → Ends
            (Applies P (subscription_upsert d) w.core)
            ((record_ref P id now t d >> command act) w)
    unfolding record_ref recorded
    grants-Applies act again whole shown =
        let kind = subscription_upsert d in
        after_execute (Applies P kind w.core) (λ c. (tt, recorded c)) (λ _. command act) w
          (stopped P kind w.core w.core refl refl)
          (stopped P kind w.core (recorded w.core) again refl)
          (λ fs. Applies-write P kind w.core _ _ again (shown ∙ whole) refl refl)

  granted-kept :
      (o : Option Entitlement) (v : SubscriptionView)
      → is_paid_status v.status ≡ true
      → granted o (some (terms v))
        ≡ some (
            get_or
              (or_else o (Option.map (λ (v : SubscriptionView). v.entitlement) (some v)))
              default_entitlement)
  granted-kept (some e) v paid = refl
  granted-kept none v paid = rw paid refl

  granted_unpaid :
      (current : Option SubscriptionView)
      → is_paid current ≡ false
      → granted none (Option.map terms current) ≡ none
  granted_unpaid none unpaid = refl
  granted_unpaid (some v) unpaid = rw unpaid refl

  module _ (id : String) (now : Time) (t : String) (d : SubscriptionData) (w : World P.State)
      (found : or_else (known d (view P w.core)) d.tenant_id ≡ some t)
      (live : is_canceled d.status ≡ false) where
    settled-Applies :
        (e : Entitlement) (act : P.State → P.State)
        → granted d.entitlement (terms_of P t w.core.license) ≡ some e
        → view P (put_license (act w.core.license) (recorded id now t d e w w.core))
          ≡ put t (new_terms d e) (refs t d (view P w.core))
        → Ends
            (Applies P (subscription_upsert d) w.core)
            ((record_ref P id now t d >> command act) w)
    unfolding granting
    settled-Applies e act settled shown =
        grants-Applies id now t d e w act (outcome-refs t d (view P w.core) found live e settled)
          (sym (outcome-resolved t d (view P w.core) found live ∙ rw settled refl)) shown

    declined :
        (current : Option SubscriptionView)
        → d.entitlement ≡ none
        → P.current t w.core.license ≡ current
        → is_paid current ≡ false
        → view P w.core ≡ outcome (subscription_upsert d) (view P w.core)
    unfolding granting
    declined current named there unpaid =
        let none_granted : granted d.entitlement (terms_of P t w.core.license) ≡ none =
          rw (named, there) (granted_unpaid current unpaid) in
        sym (outcome-resolved t d (view P w.core) found live ∙ rw none_granted refl)

    convert-Applies :
        (o : Option Entitlement) (current : Option SubscriptionView)
        → d.entitlement ≡ o
        → P.current t w.core.license ≡ current
        → is_paid current ≡ false
        → Ends (Applies P (subscription_upsert d) w.core) (convert_license P id now t d o w)
    unfolding convert_license recorded
    convert-Applies (some e) current named there unpaid =
        settled-Applies e _ (rw named refl)
          (view-convert id now t (recorded id now t d e w w.core) d e live)
    convert-Applies none current named there unpaid =
        applied P (subscription_upsert d) w.core (ok tt) w.core
          (declined current named there unpaid) refl

    pub grant-Applies :
        (current : Option SubscriptionView) (paid : Bool)
        → P.current t w.core.license ≡ current
        → is_paid current ≡ paid
        → Ends (Applies P (subscription_upsert d) w.core) (grant P id now t d current paid w)
    unfolding grant update_license recorded
    grant-Applies none true there e = cc
    grant-Applies (some v) true there e =
        settled-Applies (kept_entitlement d (some v)) _ (rw there (granted-kept d.entitlement v e))
          (view-update id now t (recorded id now t d (kept_entitlement d (some v)) w w.core) d
            (kept_entitlement d (some v)) v live there)
    grant-Applies current false there e = convert-Applies d.entitlement current refl there e
