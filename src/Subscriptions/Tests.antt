-- ===== src/Subscriptions/Tests.antt =====
-- The theorems on subscriptions at a concrete trial and a concrete paid plan.
use wardnet_cloud.Prelude.{
  ◌≤◌, String, ◌≡◌, refl, Bool, true, false, [], ◌∷◌, Option, none, some, arith, inl,
}
use wardnet_cloud.Prelude.Int.{pos, ◌-ℤ◌}
use wardnet_cloud.Prelude.Table.{count, select_one}
use wardnet_cloud.Contract.License.{Time, trialing, active, default_entitlement}
use wardnet_cloud.Event.{DomainEvent, tenant_created}
use wardnet_cloud.Subscriptions.Repository.{
  Subscription, live_of, create_trial, convert_trial_to_paid, find_current,
}
use wardnet_cloud.Subscriptions.OneLive.{Reach-OneLive, start, next, trial, convert}
use wardnet_cloud.Subscriptions.Service.{
  TrialPolicy, State, is_active, expire_overdue, current, apply_to_subscription, days,
}
use wardnet_cloud.Subscriptions.Expiry.{overdue_at, no_end_never_reaped, expire_overdue_safe}
use wardnet_cloud.Subscriptions.Redelivery.{apply_to_subscription_twice}

abbrev policy : TrialPolicy
policy = record { trial_days = pos 14; trial_grace_days = pos 3; payment_grace_days = pos 7 }

abbrev row : String → String → Option Time → Subscription
row id tenant end = record {
  id = id;
  tenant_id = tenant;
  status = trialing;
  entitlement = default_entitlement;
  trial_expires_at = end;
  current_period_end = none;
  created_at = pos 1000;
  updated_at = pos 1000;
}

abbrev first : Subscription
first = row "s1" "t1" (some (pos 2000000))

abbrev paid : Subscription
paid = record (row "s2" "t1" none) { status = active }

abbrev all : DomainEvent → Bool
all event = true

Reach-OneLive_example :
    count (live_of "t1") (convert_trial_to_paid "t1" paid (pos 3000) (create_trial first []).1) ≤ 1
Reach-OneLive_example =
    Reach-OneLive (next (next start (trial first)) (convert "t1" paid (pos 3000))) "t1"

overdue_now : overdue_at policy (pos 9000000) first ≡ true
unfolding ◌-ℤ◌ days
overdue_now = refl

no_end_never_reaped_example :
    (is_active policy (row "s3" "t3" none) (pos 9000000) ≡ false)
    × (overdue_at policy (pos 9000000) (row "s3" "t3" none) ≡ false)
no_end_never_reaped_example =
    no_end_never_reaped policy (pos 9000000) (row "s3" "t3" none) (inl (refl, refl))

abbrev state : State
state = record { rows = first ∷ []; published = [] }

state-OneLive : (t : String) → count (live_of t) state.rows ≤ 1
unfolding count
state-OneLive t = ground arith

state-current : current "t1" state ≡ some first
unfolding current find_current select_one
state-current = refl

expire_overdue_safe_example : current "t1" (expire_overdue all policy (pos 9000000) state).1 ≡ none
expire_overdue_safe_example =
    (expire_overdue_safe all policy (pos 9000000) "t1" state first state-OneLive state-current).1
      overdue_now

apply_to_subscription_twice_example :
    apply_to_subscription all policy "s9"
      (pos 5000)
      (tenant_created "t9")
      (apply_to_subscription all policy "s8" (pos 4000) (tenant_created "t9") state)
    ≡ apply_to_subscription all policy "s8" (pos 4000) (tenant_created "t9") state
apply_to_subscription_twice_example =
    apply_to_subscription_twice all all policy "s8" "s9" (pos 4000) (pos 5000) (tenant_created "t9")
      state
