-- ===== src/Subscriptions/OneLive.antt =====
-- The invariant of the `subscriptions` table (`uq_subscriptions_live`): at most one live row for
-- each tenant, whatever statements run.
use wardnet_cloud.Prelude.{
  ◌≤◌, String, ◌≡◌, refl, true, false, ◌&&◌, [], ◌∷◌, ◌++◌, Option, arith, inl, inr, if◌then◌else◌,
  Bool-cases, str_eq_iff,
}
use wardnet_cloud.Prelude.Table.{
  exists, count, update, count-exists, exists-false_mono, count-update-le, count-append,
}
use wardnet_cloud.Contract.License.{Time, SubscriptionStatus, Entitlement}
use wardnet_cloud.Subscriptions.Repository.{
  Subscription, Subscriptions, is_live_status, live_of, of_tenant, as_canceled, excluded,
  as_updated, as_past_due, create_trial, insert_subscription, convert_trial_to_paid, update_current,
  mark_past_due_current, cancel_current,
}

abbrev pub OneLive : Subscriptions → Type 0
OneLive rows = (t : String) → count (live_of t) rows ≤ 1

-- Every UPDATE of the module sends a live row of a tenant to a row of the same tenant.
update-OneLive :
    (tenant_id : String) (change : Subscription → Subscription)
    → ((r : Subscription) → (change r).tenant_id ≡ r.tenant_id)
    → (rows : Subscriptions) → OneLive rows
    → OneLive (update (live_of tenant_id) change rows)
update-OneLive tenant_id change same rows one t = omega (
  arith,
  count-update-le (live_of t) (live_of t) (live_of tenant_id) change (λ r e. still r (same r) e)
      rows,
  one t,
)
  where
    still :
        (r : Subscription)
        → (change r).tenant_id ≡ r.tenant_id
        → live_of t (if live_of tenant_id r then change r else r) ≡ true
        → live_of t r ≡ true
    still r e h = ground (
      arith,
      str_eq_iff r.tenant_id tenant_id,
      str_eq_iff r.tenant_id t,
      str_eq_iff (change r).tenant_id t,
    )

append-OneLive :
    (new : Subscription) (rows : Subscriptions)
    → OneLive rows
    → (is_live_status new.status ≡ true → exists (live_of new.tenant_id) rows ≡ false)
    → OneLive (rows ++ new ∷ [])
unfolding count
append-OneLive new rows one fresh t = elim (Bool-cases (live_of t new)) [
  | inl hit ↦ omega (arith, count-append (live_of t) rows (new ∷ []), none_there hit, ap_one hit)
  | inr miss ↦ rw (count-append (live_of t) rows (new ∷ []), miss) (ground (arith, one t))
]
  where
    ap_one : live_of t new ≡ true → count (live_of t) (new ∷ []) ≤ 1
    ap_one h = rw h (omega arith)

    none_there : live_of t new ≡ true → count (live_of t) rows ≡ 0
    none_there h =
        count-exists (live_of t) (live_of new.tenant_id)
          (λ r e. ground (
            arith,
            str_eq_iff r.tenant_id t,
            str_eq_iff new.tenant_id t,
            str_eq_iff r.tenant_id new.tenant_id,
          ))
          rows (fresh (ground arith))

create_trial-OneLive :
    (sub : Subscription) (rows : Subscriptions) → OneLive rows → OneLive (create_trial sub rows).1
unfolding create_trial
create_trial-OneLive sub rows one = elim (Bool-cases (exists (of_tenant sub.tenant_id) rows)) [
  | inl some_row ↦ rw some_row one
  | inr no_row ↦ rw no_row (
      append-OneLive sub rows one (λ _.
        exists-false_mono (live_of sub.tenant_id) (of_tenant sub.tenant_id) (λ r e. ground arith)
          rows no_row))
]

insert_subscription-OneLive :
    (paid : Subscription) (rows : Subscriptions)
    → OneLive rows
    → OneLive (insert_subscription paid rows)
unfolding insert_subscription
insert_subscription-OneLive paid rows one =
    elim (Bool-cases (is_live_status paid.status && exists (live_of paid.tenant_id) rows)) [
      | inl conflict ↦
          rw conflict (update-OneLive paid.tenant_id (excluded paid) (λ r. refl) rows one)
      | inr free ↦ rw free (append-OneLive paid rows one (λ live. ground arith))
    ]

-- The statements that change the table.
pub data Step (rows : Subscriptions) : Subscriptions → Type 0 where
  trial : (sub : Subscription) → Step rows (create_trial sub rows).1
  convert :
      (t : String) (paid : Subscription) (now : Time)
      → Step rows (convert_trial_to_paid t paid now rows)
  patch :
      (t : String) (status : SubscriptionStatus) (e : Entitlement) (period_end : Option Time)
      (now : Time)
      → Step rows (update_current t status e period_end now rows).1
  overdue : (t : String) (now : Time) → Step rows (mark_past_due_current t now rows).1
  cancel : (t : String) (now : Time) → Step rows (cancel_current t now rows).1

pub data Reach : Subscriptions → Type 0 where
  start : Reach []
  next : {rows rows' : Subscriptions} → Reach rows → Step rows rows' → Reach rows'

Step-OneLive : {rows rows' : Subscriptions} → Step rows rows' → OneLive rows → OneLive rows'
unfolding convert_trial_to_paid update_current mark_past_due_current cancel_current
Step-OneLive {rows} (trial sub) one = create_trial-OneLive sub rows one
Step-OneLive {rows} (convert t paid now) one =
    insert_subscription-OneLive paid _ (update-OneLive t (as_canceled now) (λ r. refl) rows one)
Step-OneLive {rows} (patch t status e period_end now) one =
    update-OneLive t (as_updated status e period_end now) (λ r. refl) rows one
Step-OneLive {rows} (overdue t now) one = update-OneLive t (as_past_due now) (λ r. refl) rows one
Step-OneLive {rows} (cancel t now) one = update-OneLive t (as_canceled now) (λ r. refl) rows one

-- Whatever statements run, in any order and for any tenants, from the empty table: each tenant has
-- at most one row that is not canceled.
pub Reach-OneLive : {rows : Subscriptions} → Reach rows → (t : String) → count (live_of t) rows ≤ 1
unfolding count
Reach-OneLive start t = omega arith
Reach-OneLive (next r s) t = Step-OneLive s (Reach-OneLive r) t
