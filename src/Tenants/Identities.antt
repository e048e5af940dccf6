-- ===== src/Tenants/Identities.antt =====
-- crates/tenants/src/identities.rs and identities/reactor.rs: the sign-in of users. Hashing and
-- checking of passwords, the hash of a token, the comparison without case and the answer of a
-- sign-in provider are arguments, and so are fresh tokens, ids and the clock. `none` is a failure.
pub mod Repository
pub mod Tasks
pub mod Flows
pub mod Logins
pub mod Sessions
pub mod Throttle
pub mod Link
mod Tests
use wardnet_cloud.Prelude.{
  ℕ, ◌+◌, String, Bool, true, false, not, ◌&&◌, ltb, leb, List, [], ◌∷◌, ◌++◌, Option, none, some,
  if◌then◌else◌, str_eq, length,
}
use wardnet_cloud.Prelude.Int.{ℤ, pos, ◌+ℤ◌, ◌-ℤ◌, ltb_ℤ}
use wardnet_cloud.Prelude.Text.{Str, same}
use wardnet_cloud.Prelude.Table.{select, select_one, exists, update}
use wardnet_cloud.Contract.License.{Time}
use wardnet_cloud.Event.{DomainEvent, tenant_created, tenant_deregistered, subscription_deactivated}
use wardnet_cloud.Tenants.Repository.{Tenant, signup, password_reset, password_change}
use wardnet_cloud.Tenants.Service
use wardnet_cloud.Tenants.Service.{TenantsError}
use wardnet_cloud.Tenants.Identities.Repository.{
  TenantIdentity, Session, InsertIdentityOutcome, already_exists, UnlinkOutcome, removed,
  would_remove_last, not_linked, find_by_provider_subject, insert, update_secret_hash,
  unlink_guarded, list_for_tenant, touch_and_get_tenant, tenant_for, create, delete_session,
  delete_sessions, delete_logins,
}
use wardnet_cloud.Tenants.Identities.Tasks.{
  IdentitiesError, bad_request, bad_code, unauthorized, conflict, rate_limited, internal, Outcome,
  ok, err, Attempts, Web, Run, ◌>>=◌, ◌>>◌, pure, fail, lift, required, guard, on_tenants,
  on_identities, on_sessions, read, converted,
}

abbrev pub provider_password : String
provider_password = "password"

abbrev pub min_password_len : ℕ
min_password_len = 8

abbrev pub session_ttl_secs : ℤ
session_ttl_secs = pos 2592000

abbrev pub login_attempts_per_ip : ℕ
login_attempts_per_ip = 10

abbrev pub login_window_secs : ℤ
login_window_secs = pos 300

abbrev pub check_password : Str → Outcome (Unit {0})
check_password password = if ltb (length password) min_password_len then err bad_request else ok tt

-- What a sign-in provider says of a user.
pub record VerifiedIdentity : Type 0 where
  pub provider : String
  pub subject : Str
  pub email : Str
  pub email_verified : Bool

-- The throttle: the windows that are over are dropped first, so the entry found is in its window.
abbrev pub in_window : ℤ → Attempts → Bool
in_window now a = ltb_ℤ (now -ℤ a.started) login_window_secs

abbrev pub from_ip : String → Attempts → Bool
from_ip remote_ip a = str_eq a.remote_ip remote_ip

unfoldable pub counted : String → ℤ → List Attempts → Option Attempts → Bool × List Attempts
counted remote_ip now kept none =
    (true, kept ++ record { remote_ip = remote_ip; started = now; attempts = 1 } ∷ [])
counted remote_ip now kept (some a) =
    if leb login_attempts_per_ip a.attempts
    then (false, kept)
    else (true, update (from_ip remote_ip) (λ b. record b { attempts = b.attempts + 1 }) kept)

unfoldable pub login_allowed : String → ℤ → List Attempts → Bool × List Attempts
unfolding counted
login_allowed remote_ip now attempts =
    let kept = select (in_window now) attempts in
    counted remote_ip now kept (select_one (from_ip remote_ip) kept)

unfoldable pub throttle : String → Time → Run (Unit {0})
unfolding login_allowed
throttle remote_ip now w =
    let (allowed, attempts) = login_allowed remote_ip now w.login_attempts in
    guard allowed rate_limited (record w { login_attempts = attempts })

-- `raw` is a fresh token.
module _ (hash_token : Str → String) where
  unfoldable pub create_session : Str → Time → String → Run Str
  create_session raw now tenant_id = do
    live ← on_tenants (Service.tenant_is_live tenant_id)
    guard live unauthorized
    on_sessions (λ rows. (
      tt,
      create
          (record {
            token_hash = hash_token raw;
            tenant_id = tenant_id;
            expires_at = now +ℤ session_ttl_secs;
            created_at = now;
          })
          rows,
    ))
    pure raw

  unfoldable pub touch_session : Str → Time → Run (Option String)
  touch_session raw_token now w =
      on_sessions
        (touch_and_get_tenant w.tenants.db.tenants (hash_token raw_token) now
          (now +ℤ session_ttl_secs))
        w

  unfoldable pub exchange_session :
      {Token : Type 0} → (String → Option Token) → Time → Str → Run Token
  unfolding touch_session
  exchange_session sign now raw_token = do
    found ← touch_session raw_token now
    tenant_id ← lift (required unauthorized found)
    lift (required internal (sign tenant_id))

  unfoldable pub tenant_for_session : Time → Str → Run (Option String)
  tenant_for_session now raw_token =
      read (λ w. tenant_for w.tenants.db.tenants (hash_token raw_token) now w.sessions)

  unfoldable pub logout : Str → Run (Unit {0})
  logout raw_token = do done ← on_sessions (delete_session (hash_token raw_token)); pure tt

unfoldable pub logout_all : String → Run (Unit {0})
logout_all tenant_id = do n ← on_sessions (delete_sessions tenant_id); pure tt

unfoldable pub purge_for : String → Run (Unit {0})
unfolding logout_all
purge_for tenant_id = do logout_all tenant_id; n ← on_identities (delete_logins tenant_id); pure tt

unlinked : UnlinkOutcome → Outcome (Unit {0})
unlinked removed = ok tt
unlinked not_linked = ok tt
unlinked would_remove_last = err conflict

unfoldable pub unlink_identity : String → String → Run (Unit {0})
unfolding unlinked
unlink_identity tenant_id provider = do
  outcome ← on_identities (unlink_guarded tenant_id provider)
  lift (unlinked outcome)

unfoldable pub list_identities : String → Run (List TenantIdentity)
list_identities tenant_id = read (λ w. list_for_tenant tenant_id w.identities)

-- identities/reactor.rs: a deregistered tenant is signed out and its login methods are deleted.
unfoldable pub apply_to_identities : DomainEvent → Web → Web
unfolding purge_for
apply_to_identities (tenant_deregistered tenant_id) w = (purge_for tenant_id w).1
apply_to_identities (tenant_created tenant_id) w = w
apply_to_identities (subscription_deactivated tenant_id) w = w

abbrev pub new_identity : String → String → Str → Option String → Str → Time → TenantIdentity
new_identity tenant_id provider subject secret_hash email now = record {
  tenant_id = tenant_id;
  provider = provider;
  subject = subject;
  secret_hash = secret_hash;
  email = email;
  created_at = now;
}

-- The upsert of a password: an update, an insert if no row is there, and an update if a row came in
-- between.
after_insert : Str → String → InsertIdentityOutcome → Run (Unit {0})
after_insert email hash InsertIdentityOutcome.created = pure tt
after_insert email hash already_exists = do
  done ← on_identities (update_secret_hash provider_password email hash)
  pure tt

insert_password : String → Str → String → Time → Bool → Run (Unit {0})
unfolding after_insert
insert_password tenant_id email hash now true = pure tt
insert_password tenant_id email hash now false = do
  outcome ←
      on_identities (insert (new_identity tenant_id provider_password email (some hash) email now))
  after_insert email hash outcome

unfoldable pub upsert_password : String → Str → String → Time → Run (Unit {0})
unfolding insert_password
upsert_password tenant_id email hash now = do
  done ← on_identities (update_secret_hash provider_password email hash)
  insert_password tenant_id email hash now done
