-- ===== src/Tenants/Identities/Tasks.antt =====
-- The tasks of the sign-in service (crates/tenants/src/identities.rs): its two tables, the throttle of
-- logins, and the Tenants service that it asks.
use wardnet_cloud.Prelude.{ℕ, String, Bool, true, false, List, Option, none, some}
use wardnet_cloud.Prelude.Int.{ℤ}
use wardnet_cloud.Tenants.Service.{TenantsError}
use wardnet_cloud.Tenants.Service
use wardnet_cloud.Tenants.Identities.Repository.{TenantIdentity, Session}

pub data IdentitiesError : Type 0 where
  bad_request bad_code unauthorized conflict rate_limited internal : IdentitiesError

-- `From<TenantsError>`.
abbrev pub converted : TenantsError → IdentitiesError
converted TenantsError.bad_request = bad_request
converted TenantsError.entitlement_exceeded = bad_request
converted TenantsError.invalid_code = bad_code
converted TenantsError.forbidden = conflict
converted TenantsError.conflict = conflict
converted TenantsError.not_found = unauthorized
converted TenantsError.rate_limited = rate_limited
converted TenantsError.internal = internal

pub data Outcome {ℓ} (A : Type ℓ) : Type ℓ where
  ok : A → Outcome A
  err : IdentitiesError → Outcome A

-- An entry of the throttle: an address, the start of its window, and the logins in it.
pub record Attempts : Type 0 where
  pub remote_ip : String
  pub started : ℤ
  pub attempts : ℕ

pub record Web : Type 0 where
  pub tenants : Service.State
  pub identities : List TenantIdentity
  pub sessions : List Session
  pub login_attempts : List Attempts

abbrev pub Run {ℓ} : Type ℓ → Type ℓ
Run A = Web → Outcome A × Web

module _ {ℓ κ} {A : Type ℓ} {B : Type κ} where
  abbrev pub and_then : (A → Run B) → Outcome A → Run B
  and_then f (ok a) w = f a w
  and_then f (err e) w = (err e, w)

  infixl 5 ◌>>=◌
  abbrev pub ◌>>=◌ : Run A → (A → Run B) → Run B
  m >>= f = λ w. and_then f (m w).0 (m w).1

infixl 5 ◌>>◌
abbrev pub ◌>>◌ {ℓ} : {B : Type ℓ} → Run (Unit {0}) → Run B → Run B
m >> k = m >>= λ _. k

abbrev pub pure {ℓ} : {A : Type ℓ} → A → Run A
pure a w = (ok a, w)

abbrev pub fail {ℓ} : {A : Type ℓ} → IdentitiesError → Run A
fail e w = (err e, w)

abbrev pub lift {ℓ} : {A : Type ℓ} → Outcome A → Run A
lift o w = (o, w)

abbrev pub required {ℓ} : {A : Type ℓ} → IdentitiesError → Option A → Outcome A
required e none = err e
required e (some a) = ok a

abbrev pub guard : Bool → IdentitiesError → Run (Unit {0})
guard true e = pure tt
guard false e = fail e

abbrev pub from_tenants {ℓ} : {A : Type ℓ} → Service.Outcome A → Outcome A
from_tenants (Service.ok a) = ok a
from_tenants (Service.err e) = err (converted e)

-- A method of the Tenants service.
abbrev pub on_tenants {ℓ} : {A : Type ℓ} → Service.Run A → Run A
on_tenants m w = (from_tenants (m w.tenants).0, record w { tenants = (m w.tenants).1 })

abbrev pub on_identities {ℓ} :
    {A : Type ℓ} → (List TenantIdentity → A × List TenantIdentity) → Run A
on_identities f w = (ok (f w.identities).0, record w { identities = (f w.identities).1 })

abbrev pub on_sessions {ℓ} : {A : Type ℓ} → (List Session → A × List Session) → Run A
on_sessions f w = (ok (f w.sessions).0, record w { sessions = (f w.sessions).1 })

abbrev pub read {ℓ} : {A : Type ℓ} → (Web → A) → Run A
read f w = (ok (f w), w)
