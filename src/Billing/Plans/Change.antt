-- ===== src/Billing/Plans/Change.antt =====
-- crates/billing/src/service.rs: `change_plan` and `restore_pending`.
use wardnet_cloud.Prelude.{
  ℕ, String, Bool, true, false, ltb, ◌==◌, Option, none, some, if◌then◌else◌,
}
use wardnet_cloud.Prelude.Table.{select_one}
use wardnet_cloud.Contract.License.{Time}
use wardnet_cloud.Billing.Types.{SubscriptionDetails, ScheduledChange, CatalogPlan, CatalogSnapshot}
use wardnet_cloud.Billing.Promos.{of_price, live_coupon_for_price}
use wardnet_cloud.Billing.Run.{invalid_request, internal, Outcome}
use wardnet_cloud.Billing.Plans.{
  Reply, answered, refused, pending_scheduled_change, release_schedule, upgrade_subscription,
  schedule_downgrade, Log, Run, ◌>>=◌, ◌>>◌, pure, fail, Env, required, or_internal, lift,
  promo_aware_error, upgraded, downgrade_scheduled, downgrade_canceled, ChangePlanResponse, query,
  call, fetch_details,
}
use mathlib.Core.Option

abbrev pub is_some {ℓ} : {A : Type ℓ} → Option A → Bool
is_some none = false
is_some (some a) = true

-- The comparison of the levels of the wanted and of the current plan.
pub data Direction : Type 0 where
  same higher lower : Direction

unfoldable pub compare_levels : ℕ → ℕ → Direction
compare_levels target current =
    if target == current then same else if ltb current target then higher else lower

module _ {Percent : Type 0} (env : Env Percent) where
  -- A failure to restore is only logged.
  unfoldable pub restore_pending : String → String → Option ScheduledChange → Time → Run (Unit {0})
  restore_pending sub current_price none boundary = pure tt
  restore_pending sub current_price (some prior) boundary = do
    reply ← call env env.downgrade (schedule_downgrade sub current_price prior.price_id boundary)
    pure tt

  unfoldable pub read_pending : Option String → Time → Run (Option ScheduledChange)
  read_pending none period_end = pure none
  read_pending (some schedule_id) period_end = do
    reply ←
        call env (λ log. env.pending log schedule_id)
          (pending_scheduled_change schedule_id period_end)
    lift (or_internal reply)

  unfoldable pub release : Option String → Run (Unit {0})
  release none = pure tt
  release (some schedule_id) = do
    reply ← call env (λ log. env.release log schedule_id) (release_schedule schedule_id)
    lift (or_internal reply)

  -- What is known when the change is made.
  pub record Change : Type 0 where
    pub subscription_id : String
    pub snapshot : CatalogSnapshot Percent
    pub price_id : String
    pub accept_full_price : Bool
    pub details : SubscriptionDetails
    pub prior_pending : Option ScheduledChange

  abbrev pub restore : Change → Run (Unit {0})
  restore c =
      restore_pending c.subscription_id c.details.price_id c.prior_pending
        c.details.current_period_end

  unfoldable pub after_upgrade : Change → Reply (Unit {0}) → Run ChangePlanResponse
  unfolding restore_pending
  after_upgrade c (answered u) =
      pure (record { effect = upgraded; effective_at = none; current_price_id = some c.price_id })
  after_upgrade c (refused e) = do restore c; fail (promo_aware_error e c.snapshot c.price_id)

  unfoldable pub after_downgrade : Change → Reply Time → Run ChangePlanResponse
  unfolding restore_pending
  after_downgrade c (answered at) = pure (record {
    effect = downgrade_scheduled;
    effective_at = some at;
    current_price_id = some c.details.price_id;
  })
  after_downgrade c (refused e) = do restore c; fail internal

  unfoldable pub coupon_for : Change → Log → Option String
  coupon_for c log =
      if c.accept_full_price
      then none
      else live_coupon_for_price env.percent_of c.snapshot c.price_id (env.now log)

  unfoldable pub make_change : Change → Direction → Run ChangePlanResponse
  unfolding after_upgrade after_downgrade coupon_for
  make_change c same =
      if is_some c.details.schedule_id
      then pure (record {
        effect = downgrade_canceled;
        effective_at = none;
        current_price_id = some c.details.price_id;
      })
      else fail (invalid_request "already on this plan")
  make_change c higher = λ log.
      (do
        reply ← call env env.upgrade (
            upgrade_subscription c.subscription_id c.details.item_id c.price_id (coupon_for c log)
              c.details.trialing)
        after_upgrade c reply)
        log
  make_change c lower = do
    reply ← call env env.downgrade (
        schedule_downgrade c.subscription_id c.details.price_id c.price_id
          c.details.current_period_end)
    after_downgrade c reply

  -- The change that is pending under the schedule, if there is one, is read and released first.
  unfoldable pub release_then : Change → Direction → Option String → Run ChangePlanResponse
  unfolding read_pending release make_change
  release_then c direction schedule_id = do
    prior ← read_pending schedule_id c.details.current_period_end
    release schedule_id
    make_change (record c { prior_pending = prior }) direction

  unfoldable pub reschedule : Change → Direction → Run ChangePlanResponse
  unfolding release_then
  reschedule c direction = release_then c direction c.details.schedule_id

  abbrev pub current_level : SubscriptionDetails → CatalogSnapshot Percent → Outcome ℕ
  current_level details snapshot = required (invalid_request "current plan not in catalog") (
      Option.map (λ (p : CatalogPlan). p.level)
        (select_one (of_price details.price_id) snapshot.plans))

  unfoldable pub change_plan : String → String → Bool → Run ChangePlanResponse
  unfolding reschedule compare_levels
  change_plan tenant_id price_id accept_full_price = do
    bref ← query env (λ log. env.billing_ref log tenant_id)
    sub ← lift (
        required (invalid_request "no paid subscription to change")
          (Option.bind bref (λ r. r.stripe_subscription_id)))
    snapshot ← query env env.read_catalog
    target ←
        lift (
          required (invalid_request "unknown plan") (select_one (of_price price_id) snapshot.plans))
    details ← fetch_details env sub
    level ← lift (current_level details snapshot)
    reschedule
        (record {
          subscription_id = sub;
          snapshot = snapshot;
          price_id = price_id;
          accept_full_price = accept_full_price;
          details = details;
          prior_pending = none;
        })
        (compare_levels target.level level)
