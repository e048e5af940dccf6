-- ===== src/Tenants/Identities/Repository.antt =====
-- crates/tenants/src/repository: identity.rs and session.rs, the login methods of the accounts and the
-- sessions of the browsers. A session is kept by the hash of its token. The tables refer to a tenant
-- and are deleted with it.
use wardnet_cloud.Prelude.{
  ℕ, String, Bool, ◌&&◌, ◌==◌, List, [], ◌∷◌, ◌++◌, Option, some, if◌then◌else◌, str_eq,
}
use wardnet_cloud.Prelude.Int.{ltb_ℤ}
use wardnet_cloud.Prelude.Text.{Str, same}
use wardnet_cloud.Prelude.Table.{select, select_one, exists, count, update, delete}
use wardnet_cloud.Contract.License.{Time}
use wardnet_cloud.Tenants.Repository.{Tenant, is_none, tenant_at}
use mathlib.Core.Option

pub record TenantIdentity : Type 0 where
  pub tenant_id : String
  pub provider : String
  pub subject : Str
  pub secret_hash : Option String
  pub email : Str
  pub created_at : Time

pub data InsertIdentityOutcome : Type 0 where
  created already_exists : InsertIdentityOutcome

pub data UnlinkOutcome : Type 0 where
  removed would_remove_last not_linked : UnlinkOutcome

pub record Session : Type 0 where
  pub token_hash : String
  pub tenant_id : String
  pub expires_at : Time
  pub created_at : Time

abbrev pub is_login : String → Str → TenantIdentity → Bool
is_login provider subject i = str_eq i.provider provider && same i.subject subject

abbrev pub login_of : String → TenantIdentity → Bool
login_of tenant_id i = str_eq i.tenant_id tenant_id

abbrev pub login_by : String → String → TenantIdentity → Bool
login_by tenant_id provider i = login_of tenant_id i && str_eq i.provider provider

unfoldable pub find_by_provider_subject : String → Str → List TenantIdentity → Option TenantIdentity
find_by_provider_subject provider subject rows = select_one (is_login provider subject) rows

-- ON CONFLICT (provider, subject) DO NOTHING.
unfoldable pub insert :
    TenantIdentity → List TenantIdentity → InsertIdentityOutcome × List TenantIdentity
insert identity rows =
    if exists (is_login identity.provider identity.subject) rows
    then (already_exists, rows)
    else (created, rows ++ identity ∷ [])

abbrev pub with_secret : String → TenantIdentity → TenantIdentity
with_secret hash i = record i { secret_hash = some hash }

unfoldable pub update_secret_hash :
    String → Str → String → List TenantIdentity → Bool × List TenantIdentity
update_secret_hash provider subject hash rows = (
  exists (is_login provider subject) rows,
  update (is_login provider subject) (with_secret hash) rows,
)

unfoldable pub delete_logins : String → List TenantIdentity → ℕ × List TenantIdentity
delete_logins tenant_id rows = (count (login_of tenant_id) rows, delete (login_of tenant_id) rows)

insert_by_age : TenantIdentity → List TenantIdentity → List TenantIdentity
insert_by_age i [] = i ∷ []
insert_by_age i (j ∷ js) =
    if ltb_ℤ j.created_at i.created_at then j ∷ insert_by_age i js else i ∷ (j ∷ js)

oldest_first : List TenantIdentity → List TenantIdentity
unfolding insert_by_age
oldest_first [] = []
oldest_first (i ∷ is) = insert_by_age i (oldest_first is)

unfoldable pub list_for_tenant : String → List TenantIdentity → List TenantIdentity
unfolding oldest_first
list_for_tenant tenant_id rows = oldest_first (select (login_of tenant_id) rows)

-- The rows of the tenant are locked while they are counted and deleted.
unfoldable pub unlink_guarded :
    String → String → List TenantIdentity → UnlinkOutcome × List TenantIdentity
unlink_guarded tenant_id provider rows =
    let victims = count (login_by tenant_id provider) rows in
    if victims == 0
    then (not_linked, rows)
    else if count (login_of tenant_id) rows == victims
    then (would_remove_last, rows)
    else (removed, delete (login_by tenant_id provider) rows)

-- Sessions.
abbrev pub hashed_as : String → Session → Bool
hashed_as token_hash s = str_eq s.token_hash token_hash

abbrev pub session_of : String → Session → Bool
session_of tenant_id s = str_eq s.tenant_id tenant_id

abbrev pub is_live_tenant : List Tenant → String → Bool
is_live_tenant tenants id = exists (λ t. tenant_at id t && is_none t.deregistered_at) tenants

abbrev pub is_current : List Tenant → String → Time → Session → Bool
is_current tenants token_hash now s =
    hashed_as token_hash s && (ltb_ℤ now s.expires_at && is_live_tenant tenants s.tenant_id)

abbrev pub slid : Time → Session → Session
slid expires_at s = record s { expires_at = expires_at }

unfoldable pub create : Session → List Session → List Session
create session rows = rows ++ session ∷ []

unfoldable pub touch_and_get_tenant :
    List Tenant → String → Time → Time → List Session → Option String × List Session
touch_and_get_tenant tenants token_hash now new_expires_at rows = (
  Option.map (λ (s : Session). s.tenant_id) (select_one (is_current tenants token_hash now) rows),
  update (is_current tenants token_hash now) (slid new_expires_at) rows,
)

unfoldable pub tenant_for : List Tenant → String → Time → List Session → Option String
tenant_for tenants token_hash now rows =
    Option.map (λ (s : Session). s.tenant_id) (select_one (is_current tenants token_hash now) rows)

unfoldable pub delete_session : String → List Session → Bool × List Session
delete_session token_hash rows =
    (exists (hashed_as token_hash) rows, delete (hashed_as token_hash) rows)

unfoldable pub delete_sessions : String → List Session → ℕ × List Session
delete_sessions tenant_id rows =
    (count (session_of tenant_id) rows, delete (session_of tenant_id) rows)
