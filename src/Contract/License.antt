-- ===== src/Contract/License.antt =====
-- crates/common/src/contract.rs: `SubscriptionStatus` with its database text, `Entitlement`, and the
-- views of a subscription and of a tenant that cross the service boundary.
use wardnet_cloud.Prelude.{
  ℕ, String, ◌≡◌, refl, ◌⊎◌, inl, inr, Bool, true, false, Option, arith, if◌then◌else◌, str_eq,
  str_eq_iff,
}
use wardnet_cloud.Prelude.Int.{ℤ}

-- A `DateTime<Utc>` as the seconds since the Unix epoch.
abbrev pub Time : Type 0
Time = ℤ

pub data SubscriptionStatus : Type 0 where
  trialing active past_due canceled : SubscriptionStatus

unfoldable pub as_str : SubscriptionStatus → String
as_str trialing = "trialing"
as_str active = "active"
as_str past_due = "past_due"
as_str canceled = "canceled"

unfoldable pub from_db : String → SubscriptionStatus
from_db s =
    if str_eq s "trialing"
    then trialing
    else if str_eq s "active"
    then active
    else if str_eq s "past_due"
    then past_due
    else canceled

pub record Entitlement : Type 0 where
  pub max_networks : ℕ
  pub max_daemons : ℕ

abbrev pub default_entitlement : Entitlement
default_entitlement = record { max_networks = 1; max_daemons = 1 }

pub record SubscriptionView : Type 0 where
  pub id : String
  pub status : SubscriptionStatus
  pub entitlement : Entitlement
  pub trial_expires_at : Option Time
  pub current_period_end : Option Time
  pub created_at : Time
  pub updated_at : Time

-- `SubscriptionView::is_active`: the consumer's test, with no grace window.
abbrev not_canceled : SubscriptionStatus → Bool
not_canceled canceled = false
not_canceled _ = true

unfoldable pub view_is_active : SubscriptionView → Bool
view_is_active v = not_canceled v.status

-- The `email` of a `TenantView` takes no part in any decision; it is kept as it is sent.
pub record TenantView : Type 0 where
  pub id : String
  pub email : String
  pub subscription : Option SubscriptionView
  pub created_at : Time

as_str-from_db : (p : SubscriptionStatus) → from_db (as_str p) ≡ p
unfolding from_db as_str
as_str-from_db trialing = refl
as_str-from_db active = refl
as_str-from_db past_due = refl
as_str-from_db canceled = refl

-- Reading is safe-closed: a text is read as a status that grants service only if it is the very
-- text that `as_str` writes for that status; and each status is read back from its own text.
from_db_safe_closed :
    (s : String) (p : SubscriptionStatus)
    → (from_db (as_str p) ≡ p) × (from_db s ≡ p → (p ≡ canceled) ⊎ (s ≡ as_str p))
unfolding from_db as_str
from_db_safe_closed s p = (as_str-from_db p, read s p)
  where
    read : (s : String) (p : SubscriptionStatus) → from_db s ≡ p → (p ≡ canceled) ⊎ (s ≡ as_str p)
    read s trialing e =
        inr
          (ground (arith, str_eq_iff s "trialing", str_eq_iff s "active", str_eq_iff s "past_due"))
    read s active e =
        inr
          (ground (arith, str_eq_iff s "trialing", str_eq_iff s "active", str_eq_iff s "past_due"))
    read s past_due e =
        inr
          (ground (arith, str_eq_iff s "trialing", str_eq_iff s "active", str_eq_iff s "past_due"))
    read s canceled e = inl refl
