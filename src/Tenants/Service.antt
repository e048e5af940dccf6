-- ===== src/Tenants/Service.antt =====
-- crates/tenants/src/service.rs: the rules over the Tenants database.
-- `Utc::now()`, fresh UUIDs and fresh codes are arguments, and so are the functions of other crates:
-- trimming and lower-casing of a text, base64 and the hash of a code. What the port of the license
-- aggregate answers is an argument too, where `none` is a failed read. Whether the bus takes an event
-- is `accepts`, and what it took is kept in order in `published`; mail is kept in `mailed`.
use wardnet_cloud.Prelude.{
  ℕ, String, Bool, true, false, not, ◌||◌, ◌==◌, ltb, List, [], ◌∷◌, ◌++◌, Option, none, some,
  if◌then◌else◌, str_eq, length,
}
use wardnet_cloud.Prelude.Int.{ℤ, pos, ◌+ℤ◌, ◌-ℤ◌}
use wardnet_cloud.Prelude.Text.{Str}
use wardnet_cloud.Contract.License.{Time}
use wardnet_cloud.Contract.Provisioning.{ProvisioningState, deprovisioning}
use wardnet_cloud.Event.{DomainEvent, tenant_created, tenant_deregistered}
use wardnet_cloud.Common.Validation.{is_valid_name, validate_public_key, Checked}
use wardnet_cloud.Tenants.Repository.{
  Tenant, Network, Daemon, CodePurpose, Db, is_none, is_deprovisioning, find_tenant, find_by_slug,
  RegisterNetworkOutcome, CreateTenantOutcome,
}
use wardnet_cloud.Tenants.Repository
use wardnet_cloud.Tenants.Enrollment.{
  EnrollOutcome, enrolled, bad_code, find_pending_tenant, issue_code,
}
use wardnet_cloud.Tenants.Enrollment

pub data TenantsError : Type 0 where
  bad_request conflict not_found forbidden entitlement_exceeded invalid_code rate_limited internal :
      TenantsError

pub data Outcome {ℓ} (A : Type ℓ) : Type ℓ where
  ok : A → Outcome A
  err : TenantsError → Outcome A

pub record State : Type 0 where
  pub db : Db
  pub published : List DomainEvent
  pub mailed : List (Str × Str × CodePurpose)

abbrev pub Run {ℓ} : Type ℓ → Type ℓ
Run A = State → Outcome A × State

module _ {ℓ κ} {A : Type ℓ} {B : Type κ} where
  abbrev pub and_then : (A → Run B) → Outcome A → Run B
  and_then f (ok a) s = f a s
  and_then f (err e) s = (err e, s)

  infixl 5 ◌>>=◌
  abbrev pub ◌>>=◌ : Run A → (A → Run B) → Run B
  m >>= f = λ s. and_then f (m s).0 (m s).1

infixl 5 ◌>>◌
abbrev pub ◌>>◌ {ℓ} : {B : Type ℓ} → Run (Unit {0}) → Run B → Run B
m >> k = m >>= λ _. k

abbrev pub pure {ℓ} : {A : Type ℓ} → A → Run A
pure a s = (ok a, s)

abbrev pub fail {ℓ} : {A : Type ℓ} → TenantsError → Run A
fail e s = (err e, s)

abbrev pub lift {ℓ} : {A : Type ℓ} → Outcome A → Run A
lift o s = (o, s)

abbrev pub required {ℓ} : {A : Type ℓ} → TenantsError → Option A → Outcome A
required e none = err e
required e (some a) = ok a

abbrev pub guard : Bool → TenantsError → Run (Unit {0})
guard true e = pure tt
guard false e = fail e

-- A read of the database, and a statement.
abbrev pub query {ℓ} : {A : Type ℓ} → (Db → A) → Run A
query f s = (ok (f s.db), s)

abbrev pub execute {ℓ} : {A : Type ℓ} → (Db → A × Db) → Run A
execute f s = (ok (f s.db).0, record s { db = (f s.db).1 })

abbrev pub code_ttl_secs : ℤ
code_ttl_secs = pos 300

abbrev pub pending_ttl_secs : ℤ
pending_ttl_secs = pos 900

abbrev pub code_requests_per_ip_per_hour : ℕ
code_requests_per_ip_per_hour = 10

abbrev contains_at : Str → Bool
contains_at [] = false
contains_at (c ∷ s) = c == b'@' || contains_at s

module _ (trim to_lowercase : Str → Str) where
  -- util.rs
  unfoldable pub normalize_email : Str → Outcome Str
  normalize_email email =
      let e = to_lowercase (trim email) in
      if ltb (length e) 3 || not (contains_at e) then err bad_request else ok e

module _ (accepts : DomainEvent → Bool) where
  unfoldable pub publish_best_effort : DomainEvent → Run (Unit {0})
  publish_best_effort event s =
      if accepts event
      then (ok tt, record s { published = s.published ++ event ∷ [] })
      else (ok tt, s)

  after_create : Tenant → CreateTenantOutcome → Run Tenant
  unfolding publish_best_effort
  after_create tenant CreateTenantOutcome.email_taken = fail conflict
  after_create tenant CreateTenantOutcome.created = do
    publish_best_effort (tenant_created tenant.id)
    pure tenant

  unfoldable pub register_tenant : (Str → Outcome Str) → String → Time → Str → Run Tenant
  unfolding after_create
  register_tenant normalize id now raw = do
    email ← lift (normalize raw)
    let tenant = Enrollment.new_tenant id email now
    outcome ← execute (Repository.create_tenant tenant)
    after_create tenant outcome

  after_tombstone : String → Bool → Run Bool
  unfolding publish_best_effort
  after_tombstone tenant_id false = pure false
  after_tombstone tenant_id true = do publish_best_effort (tenant_deregistered tenant_id); pure true

  unfoldable pub deregister_tenant : Time → String → Run Bool
  unfolding after_tombstone
  deregister_tenant now tenant_id = do
    found ← query (find_tenant tenant_id)
    tenant ← lift (required not_found found)
    done ← execute (Repository.set_deregistered tenant_id now)
    after_tombstone tenant_id done

  after_enroll : EnrollOutcome → Run String
  unfolding publish_best_effort
  after_enroll bad_code = fail invalid_code
  after_enroll (enrolled tenant_id true) = do
    publish_best_effort (tenant_created tenant_id)
    pure tenant_id
  after_enroll (enrolled tenant_id false) = pure tenant_id

  abbrev key_checked : Checked (List ℕ) → Outcome (Unit {0})
  key_checked (Checked.ok bytes) = ok tt
  key_checked (Checked.bad_request m) = err bad_request

  unfoldable pub enroll :
      (Str → Option (List ℕ)) → (Str → String) → String → Time → Str → Str → Run String
  unfolding after_enroll
  enroll decode hash_code new_id now code public_key = do
    lift (key_checked (validate_public_key decode public_key))
    outcome ← execute (Enrollment.enroll (hash_code code) public_key new_id now pending_ttl_secs)
    after_enroll outcome

unfoldable pub find_tenant_by_email : (Str → Outcome Str) → Str → Run (Option Tenant)
find_tenant_by_email normalize raw = do
  email ← lift (normalize raw)
  query (Repository.find_by_email email)

unfoldable pub tenant_is_live : String → Run Bool
tenant_is_live tenant_id = query (λ db. live (find_tenant tenant_id db))
  where
    live : Option Tenant → Bool
    live none = false
    live (some t) = is_none t.deregistered_at

unfoldable pub consume_code : (Str → String) → CodePurpose → Time → Str → Run (Option Str)
consume_code hash_code purpose now code =
    execute (Enrollment.consume_code (hash_code code) purpose now)

unfoldable pub deprovision_networks_for : Time → String → Run (Unit {0})
deprovision_networks_for now tenant_id = do
  n ← execute (Repository.set_deprovisioning_for_tenant tenant_id now)
  pure tt

unfoldable pub sweep_deregistered : Run ℕ
sweep_deregistered = execute Repository.delete_tombstoned_empty

abbrev owned_by : String → Option Network → Option Network
owned_by tenant_id none = none
owned_by tenant_id (some n) = if str_eq n.tenant_id tenant_id then some n else none

unfoldable pub list_network_daemons : String → String → Run (List Daemon)
list_network_daemons tenant_id network_id = do
  found ← query (Repository.find_network network_id)
  network ← lift (required not_found (owned_by tenant_id found))
  query (Repository.daemons_of_network network.id)

unless_deprovisioning : Time → String → ProvisioningState → Run (Unit {0})
unless_deprovisioning now id deprovisioning = pure tt
unless_deprovisioning now id state = do
  done ← execute (Repository.set_deprovisioning id now)
  pure tt

unfoldable pub delete_network : Time → String → Str → Run (Unit {0})
unfolding unless_deprovisioning
delete_network now tenant_id slug = do
  found ← query (find_by_slug slug)
  network ← lift (required not_found (owned_by tenant_id found))
  unless_deprovisioning now network.id network.provisioning_state

abbrev mail : Str → Str → CodePurpose → Run (Unit {0})
mail email code purpose s = (ok tt, record s { mailed = s.mailed ++ (email, code, purpose) ∷ [] })

-- `code` is the fresh code. A failure to mail it is an `internal` error after the code was stored.
unfoldable pub issue_signup_code :
    (Str → Outcome Str) → (Str → String) → Str → Time → Str → String → CodePurpose → Run Str
issue_signup_code normalize hash_code code now raw remote_ip purpose = do
  email ← lift (normalize raw)
  requests ← query (Enrollment.count_code_requests_from_ip remote_ip (now -ℤ pos 3600))
  guard (ltb requests code_requests_per_ip_per_hour) rate_limited
  execute (λ db. (tt, Enrollment.log_code_request remote_ip now db))
  execute (λ db. (tt, issue_code (hash_code code) email none purpose (now +ℤ code_ttl_secs) db))
  mail email code purpose
  pure code

unfoldable pub issue_tenant_code : (Str → String) → Str → Time → String → Run Str
issue_tenant_code hash_code code now tenant_id = do
  found ← query (find_tenant tenant_id)
  tenant ← lift (required not_found found)
  guard (is_none tenant.deregistered_at) forbidden
  execute (λ db. (
    tt,
    issue_code (hash_code code) tenant.email (some tenant_id) CodePurpose.enrollment
        (now +ℤ code_ttl_secs) db,
  ))
  mail tenant.email code CodePurpose.enrollment
  pure code

unfoldable pub check_availability : Str → Run Bool
check_availability slug =
    query (λ db. if is_valid_name slug then is_none (find_by_slug slug db) else false)
