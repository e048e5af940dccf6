-- ===== src/Billing/Webhook/Again.antt =====
-- Applying a webhook event again, or after a first attempt that only recorded the references.
use wardnet_cloud.Prelude.{
  String, ◌≡◌, refl, ap, ◌⊎◌, inl, inr, Bool, true, false, [], ◌∷◌, ◌++◌, Option, none, some,
  if◌then◌else◌, arith, Bool-cases, str_eq, str_eq_iff, str_eq_refl, ◌∙◌,
}
use wardnet_cloud.Prelude.Table.{exists, select_one, update, exists-update_same, exists-append_self}
use wardnet_cloud.Contract.License.{Entitlement}
use wardnet_cloud.Billing.Types.{
  SubscriptionData, StripeEventKind, subscription_upsert, subscription_deleted, payment_failed,
  card_setup_completed, catalog_changed, ignored,
}
use wardnet_cloud.Billing.Repository.{
  Customers, of_tenant, of_subscription, with_refs, new_customer, upsert_subscription,
  tenant_for_subscription,
}
use wardnet_cloud.Billing.Ports.{Terms, lapsed}
use wardnet_cloud.Billing.Webhook.{or_else, is_canceled, is_paid_status}
use wardnet_cloud.Billing.Webhook.Spec.{
  View, set_terms, put, refs, new_terms, granted, granting, canceling, resolved, lapsing, outcome,
}
use mathlib.Core.Path.{fun_ext}

-- The subscription is recorded for no other tenant.
abbrev pub Mine : String → Option String → Type 0
Mine t o = (o ≡ none) ⊎ (o ≡ some t)

module _ (t customer sub : String) (price : Option String) where
  found_updated :
      (rows : Customers)
      → exists (of_tenant t) rows ≡ true
      → Mine t (tenant_for_subscription sub rows)
      → tenant_for_subscription sub (update (of_tenant t) (with_refs customer sub price) rows)
        ≡ some t
  unfolding exists update tenant_for_subscription select_one
  found_updated [] e mine = absurd (ground arith)
  found_updated (r ∷ rows) e mine = elim (Bool-cases (of_tenant t r)) [
    | inl own ↦ ground (arith, str_eq_refl sub, str_eq_iff r.tenant_id t)
    | inr other ↦ elim (Bool-cases (of_subscription sub r)) [
      | inl hit ↦ ground (arith, str_eq_iff r.tenant_id t)
      | inr miss ↦
          rw (other, miss)
            (found_updated rows (ground arith) (rw (miss, tenant_for_subscription) at mine))
    ]
  ]

  found_appended :
      (rows : Customers)
      → Mine t (tenant_for_subscription sub rows)
      → tenant_for_subscription sub (rows ++ new_customer t customer sub price ∷ []) ≡ some t
  unfolding tenant_for_subscription select_one
  found_appended [] mine = ground (arith, str_eq_refl sub)
  found_appended (r ∷ rows) mine = elim (Bool-cases (of_subscription sub r)) [
    | inl hit ↦ ground arith
    | inr miss ↦ rw miss (found_appended rows (rw (miss, tenant_for_subscription) at mine))
  ]

  update_twice :
      (rows : Customers)
      → update
          (of_tenant t)
          (with_refs customer sub price)
          (update (of_tenant t) (with_refs customer sub price) rows)
        ≡ update (of_tenant t) (with_refs customer sub price) rows
  unfolding update
  update_twice [] = refl
  update_twice (r ∷ rows) = ground (arith, update_twice rows)

  append_twice :
      (rows : Customers)
      → exists (of_tenant t) rows ≡ false
      → update
          (of_tenant t)
          (with_refs customer sub price)
          (rows ++ new_customer t customer sub price ∷ [])
        ≡ rows ++ new_customer t customer sub price ∷ []
  unfolding update exists
  append_twice [] e = ground arith
  append_twice (r ∷ rows) e = ground (arith, append_twice rows)

  -- The references are found again, and recording them again changes nothing.
  tenant-upsert :
      (rows : Customers)
      → Mine t (tenant_for_subscription sub rows)
      → tenant_for_subscription sub (upsert_subscription t customer sub price rows) ≡ some t
  unfolding upsert_subscription
  tenant-upsert rows mine = elim (Bool-cases (exists (of_tenant t) rows)) [
    | inl old ↦ rw old (found_updated rows old mine)
    | inr new ↦ rw new (found_appended rows mine)
  ]

  upsert_twice :
      (rows : Customers)
      → upsert_subscription t customer sub price (upsert_subscription t customer sub price rows)
        ≡ upsert_subscription t customer sub price rows
  unfolding upsert_subscription
  upsert_twice rows = elim (Bool-cases (exists (of_tenant t) rows)) [
    | inl old ↦
        rw
          (
            old,
            exists-update_same (of_tenant t) (of_tenant t) (with_refs customer sub price)
                (λ r. refl) rows,
            old,
          )
          (update_twice rows)
    | inr new ↦
        rw
          (
            new,
            exists-append_self (of_tenant t) rows (new_customer t customer sub price)
                (str_eq_refl t),
          )
          (append_twice rows new)
  ]

set_terms_twice :
    (t : String) (x y : Option Terms) (license : String → Option Terms)
    → set_terms t y (set_terms t x license) ≡ set_terms t y license
set_terms_twice t x y license = fun_ext λ u. twice (str_eq u t) u
  where
    twice :
        (b : Bool) (u : String)
        → (if b then y else (if b then x else license u)) ≡ (if b then y else license u)
    twice true u = refl
    twice false u = refl

put_twice : (t : String) (x y : Option Terms) (v : View) → put t y (put t x v) ≡ put t y v
put_twice t x y v = ap (λ l. record v { license = l }) (set_terms_twice t x y v.license)

refs_twice : (t : String) (d : SubscriptionData) (v : View) → refs t d (refs t d v) ≡ refs t d v
refs_twice t d v =
    ap (λ c. record v { customers = c })
      (upsert_twice t d.stripe_customer_id d.stripe_subscription_id d.price_id v.customers)

grant_twice :
    (t : String) (x : Option Terms) (d : SubscriptionData) (v : View)
    → put t x (refs t d (put t x (refs t d v))) ≡ put t x (refs t d v)
grant_twice t x d v =
    ap (λ w. put t x (put t x w)) (refs_twice t d v) ∙ put_twice t x x (refs t d v)

granted_again :
    (d : SubscriptionData) (o : Option Entitlement) (current : Option Terms) (e : Entitlement)
    → granted o current ≡ some e
    → (granted o (new_terms d e) ≡ some e) ⊎ (granted o (new_terms d e) ≡ none)
granted_again d (some e') current e settled = inl settled
granted_again d none current e settled = paid (is_paid_status d.status)
  where
    paid :
        (b : Bool) → ((if b then some e else none) ≡ some e) ⊎ ((if b then some e else none) ≡ none)
    paid true = inl refl
    paid false = inr refl

-- Granting again, where the entitlement was settled before.
granting_again :
    (t : String) (d : SubscriptionData) (e : Entitlement) (v : View)
    → granted d.entitlement (v.license t) ≡ some e
    → granting t d (granted d.entitlement (new_terms d e)) (granting t d (some e) v)
      ≡ granting t d (some e) v
unfolding granting
granting_again t d e v settled = elim (granted_again d d.entitlement (v.license t) e settled) [
  | inl same ↦ rw same (grant_twice t (new_terms d e) d v)
  | inr kept ↦ rw kept refl
]

-- The subscription of an event is recorded for the tenant that it is resolved to, or for none.
Mine-or_else :
    (t : String) (known named : Option String) → or_else known named ≡ some t → Mine t known
Mine-or_else t none named e = inl refl
Mine-or_else t (some u) named e = inr e

license_self :
    (t : String) (x : Option Terms) (license : String → Option Terms) → set_terms t x license t ≡ x
license_self t x license = rw (str_eq_refl t) refl

abbrev pub known : SubscriptionData → View → Option String
known d v = tenant_for_subscription d.stripe_subscription_id v.customers

module _ (t : String) (d : SubscriptionData) (v : View) where
  -- Once the references are recorded they resolve to the tenant.
  known-refs : or_else (known d v) d.tenant_id ≡ some t → known d (refs t d v) ≡ some t
  known-refs found =
      tenant-upsert t d.stripe_customer_id d.stripe_subscription_id d.price_id v.customers
        (Mine-or_else t _ d.tenant_id found)

  module _ (found : or_else (known d v) d.tenant_id ≡ some t)
      (live : is_canceled d.status ≡ false) where
    pub outcome-resolved :
        outcome (subscription_upsert d) v ≡ granting t d (granted d.entitlement (v.license t)) v
    unfolding outcome resolved
    outcome-resolved = rw (found, live) refl

    module _ (e : Entitlement) (settled : granted d.entitlement (v.license t) ≡ some e) where
      -- After an attempt that only recorded the references, the event still has its outcome.
      pub outcome-refs :
          outcome (subscription_upsert d) (refs t d v) ≡ outcome (subscription_upsert d) v
      unfolding outcome resolved granting
      outcome-refs =
          rw (known-refs found, found, live, settled)
            (ap (put t (new_terms d e)) (refs_twice t d v))

      outcome-granting :
          outcome (subscription_upsert d) (granting t d (some e) v) ≡ granting t d (some e) v
      unfolding outcome resolved granting
      outcome-granting = rw (known-refs found, live, str_eq_refl t) (granting_again t d e v settled)

canceling_twice :
    (known : Option String) (v : View) → canceling known (canceling known v) ≡ canceling known v
unfolding canceling
canceling_twice none v = refl
canceling_twice (some t) v = put_twice t none none v

canceling-customers :
    (known : Option String) (v : View) → (canceling known v).customers ≡ v.customers
unfolding canceling
canceling-customers none v = refl
canceling-customers (some t) v = refl

lapsing-customers : (known : Option String) (v : View) → (lapsing known v).customers ≡ v.customers
unfolding lapsing
lapsing-customers none v = refl
lapsing-customers (some t) v = refl

past_due_twice : (m : Option Terms) → lapsed (lapsed m) ≡ lapsed m
past_due_twice none = refl
past_due_twice (some m) = refl

lapsing_twice :
    (known : Option String) (v : View) → lapsing known (lapsing known v) ≡ lapsing known v
unfolding lapsing
lapsing_twice none v = refl
lapsing_twice (some t) v =
    rw (license_self t (lapsed (v.license t)) v.license, past_due_twice (v.license t))
      (put_twice t _ _ v)

pub outcome-unnamed :
    (d : SubscriptionData) (v : View)
    → or_else (known d v) d.tenant_id ≡ none
    → outcome (subscription_upsert d) v ≡ v
unfolding outcome resolved
outcome-unnamed d v unnamed = rw unnamed refl

pub outcome-dead :
    (t : String) (d : SubscriptionData) (v : View)
    → or_else (known d v) d.tenant_id ≡ some t
    → is_canceled d.status ≡ true
    → outcome (subscription_upsert d) v ≡ canceling (known d v) v
unfolding outcome resolved
outcome-dead t d v found dead = rw (found, dead) refl

known-canceling :
    (d : SubscriptionData) (k : Option String) (v : View) → known d (canceling k v) ≡ known d v
known-canceling d k v =
    ap (tenant_for_subscription d.stripe_subscription_id) (canceling-customers k v)

dead_twice :
    (t : String) (d : SubscriptionData) (v : View)
    → or_else (known d v) d.tenant_id ≡ some t
    → is_canceled d.status ≡ true
    → outcome (subscription_upsert d) (canceling (known d v) v) ≡ canceling (known d v) v
dead_twice t d v found dead =
    let same = known-canceling d (known d v) v in
    outcome-dead t d (canceling (known d v) v) (rw same found) dead
    ∙ rw same (canceling_twice (known d v) v)

live_twice :
    (t : String) (d : SubscriptionData) (v : View)
    → or_else (known d v) d.tenant_id ≡ some t
    → is_canceled d.status ≡ false
    → (g : Option Entitlement) → granted d.entitlement (v.license t) ≡ g
    → outcome (subscription_upsert d) (granting t d g v) ≡ granting t d g v
unfolding granting
live_twice t d v found live none settled =
    outcome-resolved t d v found live ∙ ap (λ g. granting t d g v) settled
live_twice t d v found live (some e) settled = outcome-granting t d v found live e settled

upsert_twice_as :
    (d : SubscriptionData) (v : View) (named : Option String) (dead : Bool)
    → or_else (known d v) d.tenant_id ≡ named
    → is_canceled d.status ≡ dead
    → outcome (subscription_upsert d) (outcome (subscription_upsert d) v)
      ≡ outcome (subscription_upsert d) v
upsert_twice_as d v none dead unnamed e = let same = outcome-unnamed d v unnamed in rw same same
upsert_twice_as d v (some t) true found dead =
    rw (outcome-dead t d v found dead) (dead_twice t d v found dead)
upsert_twice_as d v (some t) false found live =
    rw (outcome-resolved t d v found live) (live_twice t d v found live _ refl)

deleted_twice :
    (sub : String) (v : View)
    → outcome (subscription_deleted sub) (outcome (subscription_deleted sub) v)
      ≡ outcome (subscription_deleted sub) v
unfolding outcome
deleted_twice sub v =
    rw (canceling-customers (tenant_for_subscription sub v.customers) v)
      (canceling_twice (tenant_for_subscription sub v.customers) v)

failed_twice :
    (sub : String) (v : View)
    → outcome (payment_failed sub) (outcome (payment_failed sub) v) ≡ outcome (payment_failed sub) v
unfolding outcome
failed_twice sub v =
    rw (lapsing-customers (tenant_for_subscription sub v.customers) v)
      (lapsing_twice (tenant_for_subscription sub v.customers) v)

-- An event that is applied to what it left leaves the same.
pub outcome_twice :
    (kind : StripeEventKind) (v : View) → outcome kind (outcome kind v) ≡ outcome kind v
outcome_twice (subscription_upsert d) v = upsert_twice_as d v _ _ refl refl
outcome_twice (subscription_deleted sub) v = deleted_twice sub v
outcome_twice (payment_failed sub) v = failed_twice sub v
outcome_twice (card_setup_completed customer setup_intent) v = unfold outcome in refl
outcome_twice catalog_changed v = unfold outcome in refl
outcome_twice ignored v = unfold outcome in refl
