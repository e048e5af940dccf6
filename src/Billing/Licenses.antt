-- ===== src/Billing/Licenses.antt =====
-- The license aggregate (crates/subscriptions/src/service.rs) as the implementation of the ports
-- that billing uses.
use wardnet_cloud.Prelude.{
  String, ◌≡◌, ◌≢◌, refl, ap, Bool, true, Option, none, some, arith, str_eq_iff,
}
use wardnet_cloud.Prelude.Table.{
  select_one, update, update-none, exists-select_one, select_one-update_self,
  select_one-update_other,
}
use wardnet_cloud.Contract.License.{Time, SubscriptionStatus, canceled}
use wardnet_cloud.Event.{DomainEvent}
use wardnet_cloud.Subscriptions.Repository.{
  Subscription, Subscriptions, live_of, to_view, is_live_status, find_current, update_current,
  as_updated, mark_past_due_current, as_past_due, cancel_current,
}
use wardnet_cloud.Subscriptions.Conversion.{
  find_current-convert_trial_to_paid, find_current-cancel_current,
}
use wardnet_cloud.Subscriptions.Service.{
  State, reader_current, current, convert_trial_to_paid, update_paid, mark_past_due, cancel,
  publish,
}
use wardnet_cloud.Billing.Ports.{SubscriptionPorts, PortLaws, Terms, terms}
use mathlib.Core.Option

abbrev pub subscription_ports : (DomainEvent → Bool) → SubscriptionPorts
subscription_ports accepts = record {
  State = State;
  current = reader_current;
  convert_trial_to_paid = convert_trial_to_paid;
  update_paid = update_paid;
  mark_past_due = mark_past_due;
  cancel = cancel accepts;
}

-- An UPDATE of the live rows of a tenant that keeps them live, as its license shows it.
module _ (t : String) (change : Subscription → Subscription) where
  changed_self :
      (g : Terms → Terms)
      → ((r : Subscription) → live_of t r ≡ true → live_of t (change r) ≡ true)
      → ((r : Subscription) → terms (to_view (change r)) ≡ g (terms (to_view r)))
      → (rows : Subscriptions)
      → Option.map terms
          (Option.map to_view (select_one (live_of t) (update (live_of t) change rows)))
        ≡ Option.map g (Option.map terms (Option.map to_view (select_one (live_of t) rows)))
  changed_self g keeps shows rows = found (select_one (live_of t) rows) refl
    where
      found :
          (o : Option Subscription)
          → select_one (live_of t) rows ≡ o
          → Option.map terms
              (Option.map to_view (select_one (live_of t) (update (live_of t) change rows)))
            ≡ Option.map g (Option.map terms (Option.map to_view o))
      found none e =
          rw (update-none (live_of t) change rows (exists-select_one (live_of t) rows e), e) refl
      found (some r) e =
          rw (select_one-update_self (live_of t) change keeps rows e) (ap some (shows r))

  changed_other :
      (u : String)
      → u ≢ t
      → ((r : Subscription) → (change r).tenant_id ≡ r.tenant_id)
      → (rows : Subscriptions)
      → select_one (live_of u) (update (live_of t) change rows) ≡ select_one (live_of u) rows
  changed_other u other keeps rows =
      select_one-update_other (live_of u) (live_of t) change
        (λ r e. ground (arith, str_eq_iff r.tenant_id t, str_eq_iff r.tenant_id u))
        (λ r e. ground (
          arith,
          keeps r,
          str_eq_iff r.tenant_id t,
          str_eq_iff r.tenant_id u,
          str_eq_iff (change r).tenant_id u,
        ))
        rows

still_live : (status : SubscriptionStatus) → status ≢ canceled → is_live_status status ≡ true
still_live status live = ground arith

module _ (accepts : DomainEvent → Bool) where
  cancel-rows :
      (t : String) (now : Time) (s : State)
      → (cancel accepts t now s).rows ≡ (cancel_current t now s.rows).1
  unfolding cancel publish
  cancel-rows t now s = ground arith

  canceled_self :
      (t : String) (now : Time) (s : State) → find_current t (cancel accepts t now s).rows ≡ none
  canceled_self t now s = rw (cancel-rows t now s) (find_current-cancel_current t t now s.rows).0

  canceled_other :
      (t u : String) (now : Time) (s : State)
      → u ≢ t
      → find_current u (cancel accepts t now s).rows ≡ find_current u s.rows
  canceled_other t u now s other =
      rw (cancel-rows t now s) ((find_current-cancel_current t u now s.rows).3 other)

  -- The license service keeps what billing expects of its port: converting and updating give the
  -- tenant the terms of the call, a failed payment leaves a license that is past due with the terms
  -- it had, canceling leaves none, and no call changes the license of another tenant; converting and
  -- updating are with a status that is not canceled.
  pub subscription_ports-PortLaws : PortLaws (subscription_ports accepts)
  unfolding reader_current current find_current convert_trial_to_paid update_paid mark_past_due
      update_current mark_past_due_current to_view
  subscription_ports-PortLaws = record {
    convert_self = λ id t status e end now s live.
        ap (λ o. Option.map terms (Option.map to_view o))
          (find_current-convert_trial_to_paid t t _ now s.rows refl live).0;
    convert_other = λ id t u status e end now s live other.
        ap (Option.map to_view)
          ((find_current-convert_trial_to_paid t u _ now s.rows refl live).1 other);
    update_self = λ t status e end now s live.
        changed_self t (as_updated status e end now) _
          (λ r h. ground (arith, still_live status live)) (λ r. refl) s.rows;
    update_other = λ t u status e end now s other.
        ap (Option.map to_view)
          (changed_other t (as_updated status e end now) u other (λ r. refl) s.rows);
    past_due_self =
        λ t now s. changed_self t (as_past_due now) _ (λ r h. ground arith) (λ r. refl) s.rows;
    past_due_other = λ t u now s other.
        ap (Option.map to_view) (changed_other t (as_past_due now) u other (λ r. refl) s.rows);
    cancel_self = λ t now s. ap (Option.map to_view) (canceled_self t now s);
    cancel_other = λ t u now s other. ap (Option.map to_view) (canceled_other t u now s other);
  }
