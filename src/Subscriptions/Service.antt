-- ===== src/Subscriptions/Service.antt =====
-- crates/subscriptions/src/service.rs and reactor.rs: the license rules over the table.
-- `Utc::now()` is an argument, and so is the new row's UUID. Publishing is best effort: whether the
-- bus takes an event is the argument `accepts`, and what it took is kept in order in `published`.
use wardnet_cloud.Prelude.{
  ℕ, ◌+◌, ◌*◌, String, Bool, true, false, List, [], ◌∷◌, ◌++◌, Option, none, some, if◌then◌else◌,
  length,
}
use wardnet_cloud.Prelude.Int.{ℤ, pos, negsuc, ◌+ℤ◌, ◌-ℤ◌, ltb_ℤ}
use wardnet_cloud.Contract.License.{
  Time, SubscriptionStatus, trialing, active, past_due, canceled, Entitlement, default_entitlement,
  SubscriptionView,
}
use wardnet_cloud.Event.{DomainEvent, tenant_created, tenant_deregistered, subscription_deactivated}
use wardnet_cloud.Subscriptions.Repository.{Subscription, Subscriptions}
use wardnet_cloud.Subscriptions.Repository
use mathlib.Core.Option

pub record TrialPolicy : Type 0 where
  pub trial_days : ℤ
  pub trial_grace_days : ℤ
  pub payment_grace_days : ℤ

-- `Duration::days`, in seconds.
unfoldable pub days : ℤ → ℤ
days (pos n) = pos (n * 86400)
days (negsuc n) = negsuc (n * 86400 + 86399)

pub record State : Type 0 where
  pub rows : Subscriptions
  pub published : List DomainEvent

module _ (accepts : DomainEvent → Bool) where
  -- A publish that fails is logged and swallowed.
  unfoldable pub publish : DomainEvent → State → State
  publish event s = if accepts event then record s { published = s.published ++ event ∷ [] } else s

  unfoldable pub cancel : String → Time → State → State
  unfolding publish
  cancel tenant_id now s =
      let (done, rows) = Repository.cancel_current tenant_id now s.rows in
      let s' = record s { rows = rows } in
      if done then publish (subscription_deactivated tenant_id) s' else s'

  unfoldable pub cancel_all : List String → Time → State → State
  unfolding cancel
  cancel_all [] now s = s
  cancel_all (t ∷ ts) now s = cancel_all ts now (cancel t now s)

  -- The result is the number of rows that were listed.
  unfoldable pub expire_overdue : TrialPolicy → Time → State → ℕ × State
  unfolding cancel_all
  expire_overdue policy now s =
      let tenant_ids =
        Repository.list_overdue (now -ℤ days policy.trial_grace_days)
          (now -ℤ days policy.payment_grace_days) s.rows in
      (length tenant_ids, cancel_all tenant_ids now s)

unfoldable pub create_trial : TrialPolicy → String → String → Time → State → Bool × State
create_trial policy id tenant_id now s =
    let (created, rows) = Repository.create_trial sub s.rows in (created, record s { rows = rows })
  where
    sub : Subscription
    sub = record {
      id = id;
      tenant_id = tenant_id;
      status = trialing;
      entitlement = default_entitlement;
      trial_expires_at = some (now +ℤ days policy.trial_days);
      current_period_end = none;
      created_at = now;
      updated_at = now;
    }

unfoldable pub current : String → State → Option Subscription
current tenant_id s = Repository.find_current tenant_id s.rows

-- `is_some_and(|t| now < t + grace)`.
abbrev pub within : Option Time → ℤ → Time → Bool
within none grace now = false
within (some t) grace now = ltb_ℤ now (t +ℤ grace)

abbrev pub active_by : TrialPolicy → SubscriptionStatus → Option Time → Option Time → Time → Bool
active_by policy active trial_end period_end now = true
active_by policy trialing trial_end period_end now =
    within trial_end (days policy.trial_grace_days) now
active_by policy past_due trial_end period_end now =
    within period_end (days policy.payment_grace_days) now
active_by policy canceled trial_end period_end now = false

unfoldable pub is_active : TrialPolicy → Subscription → Time → Bool
is_active policy sub now =
    active_by policy sub.status sub.trial_expires_at sub.current_period_end now

-- The `SubscriptionReader` port.
unfoldable pub reader_current : String → State → Option SubscriptionView
unfolding current
reader_current tenant_id s = Option.map Repository.to_view (current tenant_id s)

abbrev is_some_and {ℓ} : {A : Type ℓ} → Option A → (A → Bool) → Bool
is_some_and none test = false
is_some_and (some a) test = test a

unfoldable pub reader_is_active : TrialPolicy → String → Time → State → Bool
unfolding current is_active
reader_is_active policy tenant_id now s =
    is_some_and (current tenant_id s) (λ sub. is_active policy sub now)

-- The `SubscriptionCommands` port; its `cancel` is the `cancel` above.
unfoldable pub convert_trial_to_paid :
    String → String → SubscriptionStatus → Entitlement → Option Time → Time → State → State
convert_trial_to_paid id tenant_id status entitlement period_end now s = record s {
  rows = Repository.convert_trial_to_paid tenant_id paid now s.rows;
}
  where
    paid : Subscription
    paid = record {
      id = id;
      tenant_id = tenant_id;
      status = status;
      entitlement = entitlement;
      trial_expires_at = none;
      current_period_end = period_end;
      created_at = now;
      updated_at = now;
    }

unfoldable pub update_paid :
    String → SubscriptionStatus → Entitlement → Option Time → Time → State → Bool × State
update_paid tenant_id status entitlement period_end now s =
    let (done, rows) =
      Repository.update_current tenant_id status entitlement period_end now s.rows in
    (done, record s { rows = rows })

unfoldable pub mark_past_due : String → Time → State → Bool × State
mark_past_due tenant_id now s =
    let (done, rows) = Repository.mark_past_due_current tenant_id now s.rows in
    (done, record s { rows = rows })

-- reactor.rs, `apply_to_subscription`; the loop of `run_subscription_reactor` over the events given.
unfoldable pub apply_to_subscription :
    (DomainEvent → Bool) → TrialPolicy → String → Time → DomainEvent → State → State
apply_to_subscription accepts policy id now (tenant_created t) s =
    (create_trial policy id t now s).1
apply_to_subscription accepts policy id now (tenant_deregistered t) s = cancel accepts t now s
apply_to_subscription accepts policy id now (subscription_deactivated t) s = s
