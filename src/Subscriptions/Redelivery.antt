-- ===== src/Subscriptions/Redelivery.antt =====
-- The reactor under at-least-once delivery of events.
use wardnet_cloud.Prelude.{
  String, ◌≡◌, refl, Bool, true, false, arith, inl, inr, Bool-cases, str_eq_refl, ap,
}
use wardnet_cloud.Prelude.Table.{exists, update-none, exists-append_self, exists-update_self}
use wardnet_cloud.Contract.License.{Time}
use wardnet_cloud.Event.{DomainEvent, tenant_created, tenant_deregistered, subscription_deactivated}
use wardnet_cloud.Subscriptions.Repository.{
  Subscriptions, of_tenant, live_of, as_canceled, cancel_current,
}
use wardnet_cloud.Subscriptions.Repository
use wardnet_cloud.Subscriptions.Service.{
  TrialPolicy, State, publish, cancel, create_trial, apply_to_subscription,
}

-- Opening a trial for a tenant that has any row does nothing, and a tenant has one afterwards.
create_trial_old :
    (policy : TrialPolicy) (id t : String) (now : Time) (s : State)
    → exists (of_tenant t) s.rows ≡ true
    → create_trial policy id t now s ≡ (false, s)
unfolding create_trial Repository.create_trial
create_trial_old policy id t now s e = rw e

create_trial-exists :
    (policy : TrialPolicy) (id t : String) (now : Time) (s : State)
    → exists (of_tenant t) (create_trial policy id t now s).1.rows ≡ true
unfolding create_trial Repository.create_trial
create_trial-exists policy id t now s = elim (Bool-cases (exists (of_tenant t) s.rows)) [
  | inl old ↦ rw old old
  | inr new ↦ rw new (exists-append_self (of_tenant t) s.rows _ (str_eq_refl t))
]

cancel_none :
    (accepts : DomainEvent → Bool) (t : String) (now : Time) (s : State)
    → exists (live_of t) s.rows ≡ false
    → cancel accepts t now s ≡ s
unfolding cancel cancel_current
cancel_none accepts t now s e = rw (e, update-none (live_of t) (as_canceled now) s.rows e)

exists-cancel :
    (accepts : DomainEvent → Bool) (t : String) (now : Time) (s : State)
    → exists (live_of t) (cancel accepts t now s).rows ≡ false
unfolding cancel publish cancel_current
exists-cancel accepts t now s =
    ground (arith, exists-update_self (live_of t) (as_canceled now) (λ r. ground arith) s.rows)

-- An event that is delivered twice does what one delivery does: the second, at whatever time and
-- with whatever fresh row id and state of the bus, changes neither the table nor what was published.
pub apply_to_subscription_twice :
    (accepts accepts' : DomainEvent → Bool) (policy : TrialPolicy) (id id' : String)
    (now now' : Time) (event : DomainEvent) (s : State)
    → apply_to_subscription accepts' policy id' now' event
        (apply_to_subscription accepts policy id now event s)
      ≡ apply_to_subscription accepts policy id now event s
unfolding apply_to_subscription
apply_to_subscription_twice accepts accepts' policy id id' now now' (tenant_created t) s =
    ap (λ r. r.1) (create_trial_old policy id' t now' _ (create_trial-exists policy id t now s))
apply_to_subscription_twice accepts accepts' policy id id' now now' (tenant_deregistered t) s =
    cancel_none accepts' t now' _ (exists-cancel accepts t now s)
apply_to_subscription_twice accepts accepts' policy id id' now now' (subscription_deactivated t) s =
    refl
