-- ===== src/Subscriptions/Expiry.antt =====
-- The reaper and the grace windows: `expire_overdue` against `is_active`.
use wardnet_cloud.Prelude.{
  String, ◌≡◌, ◌≢◌, refl, Bool, true, false, ◌&&◌, ◌||◌, List, [], ◌∷◌, map, Option, none, some,
  arith, inl, inr, ◌↔◌, Bool-cases, str_eq, str_eq_iff, str_eq_refl, ◌⊎◌, ◌∙◌,
}
use wardnet_cloud.Prelude.Int.{
  ℤ, ◌+ℤ◌, ◌-ℤ◌, ◌<ℤ◌, ◌≤ℤ◌, ltb_ℤ, int_laws, ltb_ℤ→lt, lt→ltb_ℤ, le→ltb_ℤ, ltb_ℤ→le,
}
use wardnet_cloud.Prelude.Table.{
  select, exists, exists_unique, exists-false_mono, exists-found, select_one-test,
}
use wardnet_cloud.Contract.License.{Time, SubscriptionStatus, trialing, active, past_due, canceled}
use wardnet_cloud.Event.{DomainEvent}
use wardnet_cloud.Subscriptions.Repository.{
  Subscription, Subscriptions, of_tenant, live_of, is_trialing, is_past_due, is_before, is_overdue,
  list_overdue, find_current, cancel_current,
}
use wardnet_cloud.Subscriptions.OneLive.{OneLive}
use wardnet_cloud.Subscriptions.Conversion.{find_current-cancel_current}
use wardnet_cloud.Subscriptions.Service.{
  TrialPolicy, State, days, active_by, is_active, cancel, cancel_all, expire_overdue, current,
  publish,
}

-- `t < now - grace` against `now < t + grace`.
cutoff_before : (t now grace : ℤ) → (ltb_ℤ t (now -ℤ grace) ≡ true) ↔ (t +ℤ grace <ℤ now)
cutoff_before t now grace = (
  (λ e. omega (int_laws, ltb_ℤ→lt t (now -ℤ grace) e)),
  (λ h. lt→ltb_ℤ t (now -ℤ grace) (omega int_laws)),
)

window_closed : (t now grace : ℤ) → (ltb_ℤ now (t +ℤ grace) ≡ false) ↔ (t +ℤ grace ≤ℤ now)
window_closed t now grace = ((λ e. ltb_ℤ→le now (t +ℤ grace) e), (λ h. le→ltb_ℤ now (t +ℤ grace) h))

-- The end date that a row's grace window runs from, and the window, where it has one.
abbrev pub end_by : SubscriptionStatus → Option Time → Option Time → Option Time
end_by trialing trial_end period_end = trial_end
end_by past_due trial_end period_end = period_end
end_by _ trial_end period_end = none

abbrev pub grace_by : TrialPolicy → SubscriptionStatus → ℤ
grace_by policy trialing = days policy.trial_grace_days
grace_by policy _ = days policy.payment_grace_days

abbrev pub end_of : Subscription → Option Time
end_of r = end_by r.status r.trial_expires_at r.current_period_end

abbrev pub IsPast : TrialPolicy → Time → SubscriptionStatus → Option Time → Type 0
IsPast policy now status none = ⊥
IsPast policy now status (some t) = t +ℤ grace_by policy status <ℤ now

abbrev pub HasLapsed : TrialPolicy → Time → SubscriptionStatus → Option Time → Type 0
HasLapsed policy now status none = Unit
HasLapsed policy now status (some t) = t +ℤ grace_by policy status ≤ℤ now

abbrev pub overdue_at : TrialPolicy → Time → Subscription → Bool
overdue_at policy now =
    is_overdue (now -ℤ days policy.trial_grace_days) (now -ℤ days policy.payment_grace_days)

overdue_cases :
    (policy : TrialPolicy) (now : Time) (status : SubscriptionStatus) (t c : Option Time)
    → ((is_trialing status && is_before t (now -ℤ days policy.trial_grace_days))
          || (is_past_due status && is_before c (now -ℤ days policy.payment_grace_days))
        ≡ true)
      ↔ IsPast policy now status (end_by status t c)
overdue_cases policy now trialing none c = ground arith
overdue_cases policy now trialing (some t) c =
    let (to, from) = cutoff_before t now (days policy.trial_grace_days) in
    ((λ e. to (ground arith)), (λ h. ground (arith, from h)))
overdue_cases policy now past_due t none = ground arith
overdue_cases policy now past_due t (some c) = cutoff_before c now (days policy.payment_grace_days)
overdue_cases policy now active t c = ground arith
overdue_cases policy now canceled t c = ground arith

-- Which rows that are not canceled are refused service.
abbrev pub IsLapsed : TrialPolicy → Time → SubscriptionStatus → Option Time → Type 0
IsLapsed policy now active end = ⊥
IsLapsed policy now status end = HasLapsed policy now status end

active_cases :
    (policy : TrialPolicy) (now : Time) (status : SubscriptionStatus) (t c : Option Time)
    → status ≢ canceled
    → (active_by policy status t c now ≡ false) ↔ IsLapsed policy now status (end_by status t c)
active_cases policy now trialing none c live = ((λ e. tt), (λ h. refl))
active_cases policy now trialing (some t) c live =
    window_closed t now (days policy.trial_grace_days)
active_cases policy now past_due t none live = ((λ e. tt), (λ h. refl))
active_cases policy now past_due t (some c) live =
    window_closed c now (days policy.payment_grace_days)
active_cases policy now active t c live = ((λ e. cc), (λ h. absurd h))
active_cases policy now canceled t c live = absurd (live refl)

past→lapsed :
    (policy : TrialPolicy) (now : Time) (status : SubscriptionStatus) (end : Option Time)
    → (status ≡ trialing) ⊎ (status ≡ past_due)
    → IsPast policy now status end
    → IsLapsed policy now status end
past→lapsed policy now trialing (some t) h p = omega arith
past→lapsed policy now past_due (some t) h p = omega arith
past→lapsed policy now status none h p = absurd p
past→lapsed policy now active (some t) h p = ground arith
past→lapsed policy now canceled (some t) h p = ground arith

overdue_status :
    (policy : TrialPolicy) (now : Time) (r : Subscription)
    → overdue_at policy now r ≡ true
    → (r.status ≡ trialing) ⊎ (r.status ≡ past_due)
overdue_status policy now r e = ground arith

-- The reaper's list against the entitlement check, for a row that is not canceled. A row is listed
-- exactly if it has an end date and its grace window ended strictly before `now`; it is refused
-- service exactly if it is no paid live row and its window ended at or before `now`, or has no end
-- date. So no row is listed that is still entitled.
overdue-is_active :
    (policy : TrialPolicy) (now : Time) (r : Subscription)
    → r.status ≢ canceled
    → ((overdue_at policy now r ≡ true) ↔ IsPast policy now r.status (end_of r))
      × ((is_active policy r now ≡ false) ↔ IsLapsed policy now r.status (end_of r))
      × (overdue_at policy now r ≡ true → is_active policy r now ≡ false)
unfolding is_active
overdue-is_active policy now r live =
    let over = overdue_cases policy now r.status r.trial_expires_at r.current_period_end in
    let act = active_cases policy now r.status r.trial_expires_at r.current_period_end live in
    (
      over,
      act,
      (λ e.
          act.1 (
            past→lapsed policy now r.status (end_of r) (overdue_status policy now r e) (over.0 e))),
    )

-- A trial or past-due row with no end date is refused service, and no reaper run ever lists it.
pub no_end_never_reaped :
    (policy : TrialPolicy) (now : Time) (r : Subscription)
    → ((r.status ≡ trialing) × (r.trial_expires_at ≡ none))
      ⊎ ((r.status ≡ past_due) × (r.current_period_end ≡ none))
    → (is_active policy r now ≡ false) × (overdue_at policy now r ≡ false)
unfolding is_active
no_end_never_reaped policy now r h = ground arith

rows-cancel :
    (accepts : DomainEvent → Bool) (t : String) (now : Time) (s : State)
    → (cancel accepts t now s).rows ≡ (cancel_current t now s.rows).1
unfolding cancel publish
rows-cancel accepts t now s = ground arith

current-cancel :
    (accepts : DomainEvent → Bool) (t u : String) (now : Time) (s : State)
    → (str_eq t u ≡ true → current u (cancel accepts t now s) ≡ none)
      × (str_eq t u ≡ false → current u (cancel accepts t now s) ≡ current u s)
unfolding current
current-cancel accepts t u now s =
    let c = find_current-cancel_current t u now s.rows in
    let rows = rows-cancel accepts t now s in
    (
      (λ e. rw (rows, ← (str_eq_iff t u).0 e) c.0),
      (λ e. rw rows (c.3 (λ same. cc (e, str_eq_refl t, same)))),
    )

-- Whether tenant `u` is among those listed.
abbrev pub listed : String → List String → Bool
listed u ts = exists (λ t. str_eq t u) ts

cancel_all_lem :
    (accepts : DomainEvent → Bool) (now : Time) (u : String) (ts : List String) (s : State)
    → (listed u ts ≡ true → current u (cancel_all accepts ts now s) ≡ none)
      × (listed u ts ≡ false → current u (cancel_all accepts ts now s) ≡ current u s)
      × (current u s ≡ none → current u (cancel_all accepts ts now s) ≡ none)
unfolding cancel_all exists
cancel_all_lem accepts now u [] s = ((λ e. cc), (λ e. refl), (λ e. e))
cancel_all_lem accepts now u (t ∷ ts) s =
    let (gone, kept, still) = cancel_all_lem accepts now u ts (cancel accepts t now s) in
    let (hit, miss) = current-cancel accepts t u now s in
    elim (Bool-cases (str_eq t u)) [
      | inl e ↦ ((λ _. still (hit e)), (λ none_listed. cc (e, none_listed)), (λ _. still (hit e)))
      | inr e ↦ (
        (λ l. gone (ground arith)),
        (λ l. kept (ground arith) ∙ miss e),
        (λ h. still (miss e ∙ h)),
      )
    ]

-- The tenants that the reaper lists, as a test on the rows.
listed-overdue :
    (u : String) (test : Subscription → Bool) (rows : Subscriptions)
    → listed u (map (λ r. r.tenant_id) (select test rows))
      ≡ exists (λ r. test r && of_tenant u r) rows
unfolding select exists
listed-overdue u test [] = refl
listed-overdue u test (r ∷ rows) = ground (arith, listed-overdue u test rows)

overdue-live :
    (policy : TrialPolicy) (now : Time) (u : String) (r : Subscription)
    → overdue_at policy now r && of_tenant u r ≡ true
    → live_of u r && overdue_at policy now r ≡ true
overdue-live policy now u r e = ground arith

-- A run of the reaper cancels the current subscription of every tenant that has an overdue row, and
-- leaves every subscription alone that still entitles its tenant: in a table with at most one live
-- row for a tenant, a current subscription that is active stays current, and one that is overdue is
-- current no more.
pub expire_overdue_safe :
    (accepts : DomainEvent → Bool) (policy : TrialPolicy) (now : Time) (u : String) (s : State)
    (sub : Subscription)
    → OneLive s.rows
    → current u s ≡ some sub
    → (is_active policy sub now ≡ true
        → current u (expire_overdue accepts policy now s).1 ≡ some sub)
      × (overdue_at policy now sub ≡ true
          → current u (expire_overdue accepts policy now s).1 ≡ none)
unfolding expire_overdue list_overdue current find_current
expire_overdue_safe accepts policy now u s sub one e = (
  (λ act.
      (run.1 (
        listed-overdue u over s.rows
        ∙ exists-false_mono _ _ (overdue-live policy now u) s.rows
            (exists_unique (live_of u) over s.rows sub e (one u) (spared act))))
      ∙ e),
  (λ due. run.0 (
      listed-overdue u over s.rows
      ∙ exists-found (live_of u) (λ r. over r && of_tenant u r) s.rows sub e
          (ground (arith, select_one-test (live_of u) s.rows e)))),
)
  where
    over : Subscription → Bool
    over = overdue_at policy now

    run :
        let ts =
          list_overdue
            (now -ℤ days policy.trial_grace_days)
            (now -ℤ days policy.payment_grace_days)
            s.rows in
        (listed u ts ≡ true → current u (cancel_all accepts ts now s) ≡ none)
        × (listed u ts ≡ false → current u (cancel_all accepts ts now s) ≡ current u s)
        × (current u s ≡ none → current u (cancel_all accepts ts now s) ≡ none)
    run = cancel_all_lem accepts now u _ s

    spared : is_active policy sub now ≡ true → over sub ≡ false
    spared act = elim (Bool-cases (over sub)) [
      | inl due ↦ absurd (
          cc (
            act,
            (overdue-is_active policy now sub
                  (ground (arith, select_one-test (live_of u) s.rows e))).2
                due,
          ))
      | inr fine ↦ fine
    ]
