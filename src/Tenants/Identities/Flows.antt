-- ===== src/Tenants/Identities/Flows.antt =====
-- crates/tenants/src/identities.rs: signing up, signing in and changing a password. `normalize` is
-- `normalize_email` on the trimming and lower-casing of a text, `accepts` says whether the bus takes an
-- event, `ids` is a fresh id and `raw` a fresh token.
pub mod Reset
use wardnet_cloud.Prelude.{String, Bool, true, false, not, Option, none, some, if◌then◌else◌}
use wardnet_cloud.Prelude.Text.{Str, same}
use wardnet_cloud.Contract.License.{Time}
use wardnet_cloud.Event.{DomainEvent}
use wardnet_cloud.Tenants.Repository.{Tenant, CodePurpose, signup, password_reset, password_change}
use wardnet_cloud.Tenants.Repository
use wardnet_cloud.Tenants.Service
use wardnet_cloud.Tenants.Service.{TenantsError}
use wardnet_cloud.Tenants.Identities.Repository.{
  TenantIdentity, InsertIdentityOutcome, find_by_provider_subject, insert, delete_sessions,
}
use wardnet_cloud.Tenants.Identities.Tasks.{
  IdentitiesError, bad_request, bad_code, unauthorized, conflict, internal, Outcome, ok, err, Web,
  Run, ◌>>=◌, ◌>>◌, pure, fail, lift, required, guard, on_tenants, on_identities, on_sessions, read,
  from_tenants, converted,
}
use wardnet_cloud.Tenants.Identities.{
  provider_password, check_password, VerifiedIdentity, throttle, create_session, new_identity,
  upsert_password, logout_all,
}

abbrev pub is_some {ℓ} : {A : Type ℓ} → Option A → Bool
is_some none = false
is_some (some a) = true

module _ (normalize : Str → Service.Outcome Str) (accepts : DomainEvent → Bool)
    (hash_code : Str → String) (hash_token : Str → String) (hash_password : Str → Option String)
    (verify_password : String → Str → Bool) where
  -- A tenant that was created between the look-up and the registration is taken instead.
  after_register : Str → Service.Outcome Tenant → Run String
  after_register email (Service.ok tenant) = pure tenant.id
  after_register email (Service.err TenantsError.conflict) = do
    found ← on_tenants (Service.find_tenant_by_email normalize email)
    tenant ← lift (required internal found)
    pure tenant.id
  after_register email (Service.err e) = fail (converted e)

  register : String → Time → Str → Run (Service.Outcome Tenant)
  register id now email w =
      let r = Service.register_tenant accepts normalize id now email w.tenants in
      (ok r.0, record w { tenants = r.1 })

  tenant_of_email : String → Time → Str → Option Tenant → Run String
  unfolding after_register register
  tenant_of_email id now email (some tenant) = pure tenant.id
  tenant_of_email id now email none = do
    outcome ← register id now email
    after_register email outcome

  link_new : String → Time → VerifiedIdentity → Option String → Run (String × Bool)
  unfolding tenant_of_email
  link_new id now verified secret_hash = do
    guard verified.email_verified unauthorized
    email ← lift (from_tenants (normalize verified.email))
    found ← on_tenants (Service.find_tenant_by_email normalize email)
    tenant_id ← tenant_of_email id now email found
    outcome ←
        on_identities
          (insert (new_identity tenant_id verified.provider verified.subject secret_hash email now))
    pure (tenant_id, false)

  resolved :
      String → Time → VerifiedIdentity → Option String → Option TenantIdentity → Run (String × Bool)
  unfolding link_new
  resolved id now verified secret_hash (some existing) = pure (existing.tenant_id, true)
  resolved id now verified secret_hash none = link_new id now verified secret_hash

  unfoldable pub resolve_identity :
      String → Time → VerifiedIdentity → Option String → Run (String × Bool)
  unfolding resolved
  resolve_identity id now verified secret_hash = do
    existing ← read (λ w. find_by_provider_subject verified.provider verified.subject w.identities)
    resolved id now verified secret_hash existing

  abbrev password_identity : Str → VerifiedIdentity
  password_identity email = record {
    provider = provider_password;
    subject = email;
    email = email;
    email_verified = true;
  }

  unfoldable pub password_signup : String → Str → Time → Str → Str → Str → Run Str
  unfolding resolve_identity
  password_signup id raw now email code password = do
    lift (check_password password)
    burned ← on_tenants (Service.consume_code hash_code signup now code)
    code_email ← lift (required bad_code burned)
    wanted ← lift (from_tenants (normalize email))
    guard (same code_email wanted) bad_code
    existing ← read (λ w. find_by_provider_subject provider_password code_email w.identities)
    guard (not (is_some existing)) conflict
    hash ← lift (required internal (hash_password password))
    (tenant_id, existed) ← resolve_identity id now (password_identity code_email) (some hash)
    guard (not existed) conflict
    create_session hash_token raw now tenant_id

  abbrev pub verified_by : Str → TenantIdentity → Bool
  verified_by password identity = elim identity.secret_hash [
    | none ↦ false
    | some hash ↦ verify_password hash password
  ]

  unfoldable pub password_login : Str → Time → Str → Str → String → Run Str
  password_login raw now email password remote_ip = do
    throttle remote_ip now
    subject ← lift (from_tenants (normalize email))
    found ← read (λ w. find_by_provider_subject provider_password subject w.identities)
    identity ← lift (required unauthorized found)
    guard (verified_by password identity) unauthorized
    create_session hash_token raw now identity.tenant_id

  unfoldable pub request_password_reset : Str → Time → Str → String → Run Str
  request_password_reset code now email remote_ip =
      on_tenants
        (Service.issue_signup_code normalize hash_code code now email remote_ip password_reset)

  -- A code that proved an email with no live account resets nothing.
  reset_account : Time → Str → Str → Option Tenant → Run (Unit {0})
  unfolding upsert_password logout_all
  reset_account now email new_password none = pure tt
  reset_account now email new_password (some tenant) = do
    hash ← lift (required internal (hash_password new_password))
    upsert_password tenant.id email hash now
    logout_all tenant.id

  unfoldable pub reset_password : Time → Str → Str → Run (Unit {0})
  unfolding reset_account
  reset_password now code new_password = do
    lift (check_password new_password)
    burned ← on_tenants (Service.consume_code hash_code password_reset now code)
    email ← lift (required bad_code burned)
    found ← on_tenants (Service.find_tenant_by_email normalize email)
    reset_account now email new_password found

  unfoldable pub set_password_authenticated :
      (Str → Str → Bool) → Str → Time → String → Str → Str → Run Str
  unfolding upsert_password logout_all
  set_password_authenticated eq_ignore_ascii_case raw now tenant_id code new_password = do
    lift (check_password new_password)
    found ← read (λ w. Repository.find_tenant tenant_id w.tenants.db)
    tenant ← lift (required unauthorized found)
    burned ← on_tenants (Service.consume_code hash_code password_change now code)
    proven_email ← lift (required bad_code burned)
    guard (eq_ignore_ascii_case proven_email tenant.email) bad_code
    hash ← lift (required internal (hash_password new_password))
    upsert_password tenant.id tenant.email hash now
    logout_all tenant.id
    create_session hash_token raw now tenant.id

  -- `exchanged` is the answer of the provider, which is a known one.
  unfoldable pub oidc_callback : String → Str → Time → Option VerifiedIdentity → Run Str
  oidc_callback id raw now exchanged = do
    identity ← lift (required internal exchanged)
    (tenant_id, existed) ← resolve_identity id now identity none
    create_session hash_token raw now tenant_id
