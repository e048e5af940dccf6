-- ===== src/Subscriptions/Repository.antt =====
-- crates/subscriptions/src/repository.rs: the `subscriptions` table and its SQL statements.
-- A call takes the table and returns it changed; `now` is the database's `now()` where a statement
-- uses it. Row ids are UUIDs, taken to be new, so the primary key never clashes.
use wardnet_cloud.Prelude.{
  String, Bool, true, false, ◌&&◌, ◌||◌, List, [], ◌∷◌, ◌++◌, map, Option, none, some,
  if◌then◌else◌, str_eq,
}
use wardnet_cloud.Prelude.Int.{ltb_ℤ}
use wardnet_cloud.Prelude.Table.{select, select_one, exists, update}
use wardnet_cloud.Contract.License.{
  Time, SubscriptionStatus, trialing, past_due, canceled, Entitlement, SubscriptionView,
}

pub record Subscription : Type 0 where
  pub id : String
  pub tenant_id : String
  pub status : SubscriptionStatus
  pub entitlement : Entitlement
  pub trial_expires_at : Option Time
  pub current_period_end : Option Time
  pub created_at : Time
  pub updated_at : Time

abbrev pub Subscriptions : Type 0
Subscriptions = List Subscription

-- `From<Subscription> for SubscriptionView`.
unfoldable pub to_view : Subscription → SubscriptionView
to_view s = record {
  id = s.id;
  status = s.status;
  entitlement = s.entitlement;
  trial_expires_at = s.trial_expires_at;
  current_period_end = s.current_period_end;
  created_at = s.created_at;
  updated_at = s.updated_at;
}

-- `status <> 'canceled'`.
abbrev pub is_live_status : SubscriptionStatus → Bool
is_live_status canceled = false
is_live_status _ = true

abbrev pub is_trialing : SubscriptionStatus → Bool
is_trialing trialing = true
is_trialing _ = false

abbrev pub is_past_due : SubscriptionStatus → Bool
is_past_due past_due = true
is_past_due _ = false

abbrev pub of_tenant : String → Subscription → Bool
of_tenant tenant_id r = str_eq r.tenant_id tenant_id

-- WHERE tenant_id = $1 AND status <> 'canceled'.
abbrev pub live_of : String → Subscription → Bool
live_of tenant_id r = str_eq r.tenant_id tenant_id && is_live_status r.status

-- INSERT … SELECT … WHERE NOT EXISTS (any row of the tenant).
unfoldable pub create_trial : Subscription → Subscriptions → Bool × Subscriptions
create_trial sub rows =
    if exists (of_tenant sub.tenant_id) rows then (false, rows) else (true, rows ++ sub ∷ [])

unfoldable pub find_current : String → Subscriptions → Option Subscription
find_current tenant_id rows = select_one (live_of tenant_id) rows

-- SET status = 'canceled', updated_at = now().
abbrev pub as_canceled : Time → Subscription → Subscription
as_canceled now r = record r { status = canceled; updated_at = now }

-- SET … = EXCLUDED.…: the id, the tenant and `created_at` of the row that is there are kept.
abbrev pub excluded : Subscription → Subscription → Subscription
excluded new r = record r {
  status = new.status;
  entitlement = new.entitlement;
  trial_expires_at = new.trial_expires_at;
  current_period_end = new.current_period_end;
  updated_at = new.updated_at;
}

-- `INSERT_SUBSCRIPTION`: the partial unique index covers live rows only, so a conflict needs a new
-- row that is live and a live row of the same tenant.
unfoldable pub insert_subscription : Subscription → Subscriptions → Subscriptions
insert_subscription paid rows =
    if is_live_status paid.status && exists (live_of paid.tenant_id) rows
    then update (live_of paid.tenant_id) (excluded paid) rows
    else rows ++ paid ∷ []

unfoldable pub convert_trial_to_paid : String → Subscription → Time → Subscriptions → Subscriptions
convert_trial_to_paid tenant_id paid now rows =
    insert_subscription paid (update (live_of tenant_id) (as_canceled now) rows)

abbrev pub as_updated :
    SubscriptionStatus → Entitlement → Option Time → Time → Subscription → Subscription
as_updated status entitlement period_end now r = record r {
  status = status;
  entitlement = entitlement;
  current_period_end = period_end;
  updated_at = now;
}

-- The Boolean results are `rows_affected() > 0`.
unfoldable pub update_current :
    String
    → SubscriptionStatus
    → Entitlement
    → Option Time
    → Time
    → Subscriptions
    → Bool × Subscriptions
update_current tenant_id status entitlement period_end now rows = (
  exists (live_of tenant_id) rows,
  update (live_of tenant_id) (as_updated status entitlement period_end now) rows,
)

abbrev pub as_past_due : Time → Subscription → Subscription
as_past_due now r = record r { status = past_due; updated_at = now }

unfoldable pub mark_past_due_current : String → Time → Subscriptions → Bool × Subscriptions
mark_past_due_current tenant_id now rows =
    (exists (live_of tenant_id) rows, update (live_of tenant_id) (as_past_due now) rows)

unfoldable pub cancel_current : String → Time → Subscriptions → Bool × Subscriptions
cancel_current tenant_id now rows =
    (exists (live_of tenant_id) rows, update (live_of tenant_id) (as_canceled now) rows)

-- `column < cutoff`, which is not true of a NULL column.
abbrev pub is_before : Option Time → Time → Bool
is_before none cutoff = false
is_before (some t) cutoff = ltb_ℤ t cutoff

abbrev pub is_overdue : Time → Time → Subscription → Bool
is_overdue trial_cutoff payment_cutoff r =
    (is_trialing r.status && is_before r.trial_expires_at trial_cutoff)
    || (is_past_due r.status && is_before r.current_period_end payment_cutoff)

unfoldable pub list_overdue : Time → Time → Subscriptions → List String
list_overdue trial_cutoff payment_cutoff rows =
    map (λ r. r.tenant_id) (select (is_overdue trial_cutoff payment_cutoff) rows)
