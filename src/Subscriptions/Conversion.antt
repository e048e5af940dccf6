-- ===== src/Subscriptions/Conversion.antt =====
-- What the license statements do to a tenant's current subscription.
use wardnet_cloud.Prelude.{
  String, ◌≡◌, ◌≢◌, refl, true, false, [], ◌∷◌, ◌++◌, none, some, arith, inl, inr, Bool-cases,
  str_eq_iff, str_eq_refl, ◌∙◌,
}
use wardnet_cloud.Prelude.Table.{
  exists, select_one, update, exists-update_self, exists-false_mono, select_one-append,
  select_one-update_other, select_one-exists, exists-select_one,
}
use wardnet_cloud.Contract.License.{Time, canceled}
use wardnet_cloud.Subscriptions.Repository.{
  Subscription, Subscriptions, live_of, of_tenant, as_canceled, create_trial, find_current,
  insert_subscription, convert_trial_to_paid, cancel_current,
}

-- After a tenant's live rows are canceled none of them is live.
canceled-none_live :
    (t : String) (now : Time) (rows : Subscriptions)
    → exists (live_of t) (update (live_of t) (as_canceled now) rows) ≡ false
canceled-none_live t now rows =
    exists-update_self (live_of t) (as_canceled now) (λ r. ground arith) rows

select_one_self :
    (t : String) (r : Subscription) → live_of t r ≡ true → select_one (live_of t) (r ∷ []) ≡ some r
unfolding select_one
select_one_self t r h = rw h

other_live : (t u : String) (r : Subscription) → u ≢ t → live_of t r ≡ true → live_of u r ≡ false
other_live t u r other e = ground (arith, str_eq_iff r.tenant_id t, str_eq_iff r.tenant_id u)

cancel_other :
    (t u : String) (now : Time) (rows : Subscriptions)
    → u ≢ t
    → select_one (live_of u) (update (live_of t) (as_canceled now) rows)
      ≡ select_one (live_of u) rows
cancel_other t u now rows other =
    select_one-update_other (live_of u) (live_of t) (as_canceled now)
      (λ r e. other_live t u r other e) (λ r e. ground arith) rows

-- The tenant has no live row left when the paid row is inserted, so it is appended.
convert_rows :
    (t : String) (paid : Subscription) (now : Time) (rows : Subscriptions)
    → paid.tenant_id ≡ t
    → convert_trial_to_paid t paid now rows ≡ update (live_of t) (as_canceled now) rows ++ paid ∷ []
unfolding convert_trial_to_paid insert_subscription
convert_rows t paid now rows same = rw (same, canceled-none_live t now rows) (ground arith)

select_one-snoc_other :
    (u : String) (r : Subscription) (rows : Subscriptions)
    → live_of u r ≡ false
    → select_one (live_of u) (rows ++ r ∷ []) ≡ select_one (live_of u) rows
unfolding select_one
select_one-snoc_other u r [] miss = ground arith
select_one-snoc_other u r (s ∷ rows) miss = ground (arith, select_one-snoc_other u r rows)

-- Converting with a row of the tenant that is not canceled makes that very row its current
-- subscription, whatever it had before; the current subscription of every other tenant stays.
pub find_current-convert_trial_to_paid :
    (t u : String) (paid : Subscription) (now : Time) (rows : Subscriptions)
    → paid.tenant_id ≡ t
    → paid.status ≢ canceled
    → (find_current t (convert_trial_to_paid t paid now rows) ≡ some paid)
      × (u ≢ t → find_current u (convert_trial_to_paid t paid now rows) ≡ find_current u rows)
unfolding find_current
find_current-convert_trial_to_paid t u paid now rows same live = (
  rw (convert_rows t paid now rows same) (
      select_one-append (live_of t) _ (paid ∷ []) (canceled-none_live t now rows)
      ∙ select_one_self t paid (ground (arith, str_eq_iff paid.tenant_id t))),
  (λ other. rw (convert_rows t paid now rows same) (
      select_one-snoc_other u paid _ (ground (arith, str_eq_iff paid.tenant_id u))
      ∙ cancel_other t u now rows other)),
)

-- Canceling leaves the tenant with no current subscription, says whether it had one, and keeps the
-- current subscription of every other tenant.
pub find_current-cancel_current :
    (t u : String) (now : Time) (rows : Subscriptions)
    → (find_current t (cancel_current t now rows).1 ≡ none)
      × ((cancel_current t now rows).0 ≡ false → find_current t rows ≡ none)
      × ((cancel_current t now rows).0 ≡ true → find_current t rows ≢ none)
      × (u ≢ t → find_current u (cancel_current t now rows).1 ≡ find_current u rows)
unfolding find_current cancel_current
find_current-cancel_current t u now rows = (
  select_one-exists (live_of t) _ (canceled-none_live t now rows),
  select_one-exists (live_of t) rows,
  (λ e gone. cc (e, exists-select_one (live_of t) rows gone)),
  (λ other. cancel_other t u now rows other),
)

-- A trial is opened only for a tenant with no row at all, canceled ones included, and is then its
-- current subscription; otherwise the table stays as it is.
create_trial_once :
    (sub : Subscription) (rows : Subscriptions)
    → sub.status ≢ canceled
    → ((create_trial sub rows).0 ≡ true
        → (exists (of_tenant sub.tenant_id) rows ≡ false)
          × (find_current sub.tenant_id (create_trial sub rows).1 ≡ some sub))
      × ((create_trial sub rows).0 ≡ false → (create_trial sub rows).1 ≡ rows)
unfolding find_current create_trial
create_trial_once sub rows live = elim (Bool-cases (exists (of_tenant sub.tenant_id) rows)) [
  | inl old ↦ rw old ((λ e. cc), (λ e. refl))
  | inr new ↦ rw new (
    (λ e. (
      refl,
      select_one-append (live_of sub.tenant_id) rows (sub ∷ []) (
            exists-false_mono (live_of sub.tenant_id) (of_tenant sub.tenant_id)
              (λ r h. ground arith) rows new)
          ∙ select_one_self sub.tenant_id sub (ground (arith, str_eq_refl sub.tenant_id)),
    )),
    (λ e. cc),
  )
]
