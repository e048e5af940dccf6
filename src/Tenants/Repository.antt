-- ===== src/Tenants/Repository.antt =====
-- crates/tenants/src/repository: tenant.rs, network.rs and daemon.rs, the tables of the Tenants
-- database and their SQL statements. A call takes the database and returns it changed; `now` is the
-- time that a statement writes. Ids are fresh UUIDs. Deleting a row deletes what refers to it.
use wardnet_cloud.Prelude.{
  ℕ, String, Bool, true, false, not, ◌&&◌, ◌||◌, leb, List, [], ◌∷◌, ◌++◌, map, Option, none, some,
  if◌then◌else◌, str_eq,
}
use wardnet_cloud.Prelude.Text.{Str, same}
use wardnet_cloud.Prelude.Table.{select, select_one, exists, count, update, delete}
use wardnet_cloud.Contract.License.{Time}
use wardnet_cloud.Contract.Provisioning.{ProvisioningState, provisioning, active, deprovisioning}

pub record Tenant : Type 0 where
  pub id : String
  pub email : Str
  pub created_at : Time
  pub deregistered_at : Option Time

pub record Network : Type 0 where
  pub id : String
  pub tenant_id : String
  pub slug : Str
  pub display_name : Str
  pub region : String
  pub provisioning_state : ProvisioningState
  pub created_at : Time
  pub updated_at : Time

pub record Daemon : Type 0 where
  pub id : String
  pub tenant_id : String
  pub network_id : String
  pub public_key : Str
  pub created_at : Time

-- What an enrollment code may be used for (crates/common/src/contract.rs).
pub data CodePurpose : Type 0 where
  signup password_reset password_change enrollment : CodePurpose

pub record Code : Type 0 where
  pub code_hash : String
  pub email : Str
  pub tenant_id : Option String
  pub purpose : CodePurpose
  pub expires_at : Time
  pub used_at : Option Time

pub record PendingEnrollment : Type 0 where
  pub public_key : Str
  pub tenant_id : String
  pub expires_at : Time

pub record CodeRequest : Type 0 where
  pub remote_ip : String
  pub created_at : Time

pub record Db : Type 0 where
  pub tenants : List Tenant
  pub networks : List Network
  pub daemons : List Daemon
  pub codes : List Code
  pub pending : List PendingEnrollment
  pub code_log : List CodeRequest

abbrev pub is_none {ℓ} : {A : Type ℓ} → Option A → Bool
is_none none = true
is_none (some a) = false

abbrev pub tenant_at : String → Tenant → Bool
tenant_at id t = str_eq t.id id

-- WHERE email = $1 AND deregistered_at IS NULL.
abbrev pub live_email : Str → Tenant → Bool
live_email email t = same t.email email && is_none t.deregistered_at

pub data CreateTenantOutcome : Type 0 where
  created email_taken : CreateTenantOutcome

-- ON CONFLICT on the unique index over the emails of live tenants; a new tenant is live.
unfoldable pub create_tenant : Tenant → Db → CreateTenantOutcome × Db
create_tenant tenant db =
    if exists (live_email tenant.email) db.tenants
    then (email_taken, db)
    else (created, record db { tenants = db.tenants ++ tenant ∷ [] })

unfoldable pub find_tenant : String → Db → Option Tenant
find_tenant id db = select_one (tenant_at id) db.tenants

unfoldable pub find_by_email : Str → Db → Option Tenant
find_by_email email db = select_one (live_email email) db.tenants

unfoldable pub list_live_ids : Db → List String
list_live_ids db = map (λ t. t.id) (select (λ t. is_none t.deregistered_at) db.tenants)

unfoldable pub set_deregistered : String → Time → Db → Bool × Db
set_deregistered id now db =
    let test = λ (t : Tenant). tenant_at id t && is_none t.deregistered_at in
    (
      exists test db.tenants,
      record db { tenants = update test (λ t. record t { deregistered_at = some now }) db.tenants },
    )

abbrev pub of_tenant : String → Network → Bool
of_tenant tenant_id n = str_eq n.tenant_id tenant_id

-- A tombstoned tenant with no network.
abbrev pub is_swept : List Network → Tenant → Bool
is_swept networks t = not (is_none t.deregistered_at) && not (exists (of_tenant t.id) networks)

-- The rows that refer to a tenant that is no more are deleted with it: ON DELETE CASCADE.
abbrev pub has_tenant : List Tenant → String → Bool
has_tenant tenants id = exists (tenant_at id) tenants

unfoldable pub delete_tombstoned_empty : Db → ℕ × Db
delete_tombstoned_empty db =
    let left = delete (is_swept db.networks) db.tenants in
    (
      count (is_swept db.networks) db.tenants,
      record db {
        tenants = left;
        networks = select (λ n. has_tenant left n.tenant_id) db.networks;
        daemons = select (λ d. has_tenant left d.tenant_id) db.daemons;
        codes = select (λ c. scoped left c.tenant_id) db.codes;
        pending = select (λ p. has_tenant left p.tenant_id) db.pending;
      },
    )
  where
    scoped : List Tenant → Option String → Bool
    scoped left none = true
    scoped left (some id) = has_tenant left id

-- Networks.
abbrev pub network_at : String → Network → Bool
network_at id n = str_eq n.id id

abbrev pub slug_at : Str → Network → Bool
slug_at slug n = same n.slug slug

unfoldable pub find_network : String → Db → Option Network
find_network id db = select_one (network_at id) db.networks

unfoldable pub find_by_slug : Str → Db → Option Network
find_by_slug slug db = select_one (slug_at slug) db.networks

-- Rows are listed by the time of their creation, which is the order of the table.
unfoldable pub list_by_tenant : String → Db → List Network
list_by_tenant tenant_id db = select (of_tenant tenant_id) db.networks

unfoldable pub count_by_tenant : String → Db → ℕ
count_by_tenant tenant_id db = count (of_tenant tenant_id) db.networks

pub data RegisterNetworkOutcome : Type 0 where
  created slug_taken network_limit daemon_limit daemon_exists : RegisterNetworkOutcome

abbrev pub daemon_of : String → Daemon → Bool
daemon_of tenant_id d = str_eq d.tenant_id tenant_id

abbrev pub key_at : Str → Daemon → Bool
key_at public_key d = same d.public_key public_key

abbrev pub pending_at : Str → PendingEnrollment → Bool
pending_at public_key p = same p.public_key public_key

-- The two counts of the transaction, against the limits.
unfoldable pub limit_reached : String → ℕ → ℕ → Db → Option RegisterNetworkOutcome
limit_reached tenant_id max_networks max_daemons db =
    if leb max_networks (count (of_tenant tenant_id) db.networks)
    then some network_limit
    else if leb max_daemons (count (daemon_of tenant_id) db.daemons)
    then some daemon_limit
    else none

-- The two inserts with ON CONFLICT DO NOTHING, and the end of the pending binding.
unfoldable pub insert_both : Network → Daemon → Db → RegisterNetworkOutcome × Db
insert_both network daemon db =
    if exists (slug_at network.slug) db.networks
    then (slug_taken, db)
    else if exists (key_at daemon.public_key) db.daemons
    then (daemon_exists, db)
    else (
      RegisterNetworkOutcome.created,
      record db {
        networks = db.networks ++ network ∷ [];
        daemons = db.daemons ++ record daemon { network_id = network.id } ∷ [];
        pending = delete (pending_at daemon.public_key) db.pending;
      },
    )

-- One transaction. Every early return rolls it back.
unfoldable pub register_network : Network → Daemon → ℕ → ℕ → Db → RegisterNetworkOutcome × Db
register_network network daemon max_networks max_daemons db =
    elim (limit_reached network.tenant_id max_networks max_daemons db) [
      | some outcome ↦ (outcome, db)
      | none ↦ insert_both network daemon db
    ]

abbrev pub is_provisioning : ProvisioningState → Bool
is_provisioning provisioning = true
is_provisioning _ = false

abbrev pub is_active : ProvisioningState → Bool
is_active active = true
is_active _ = false

abbrev pub is_deprovisioning : ProvisioningState → Bool
is_deprovisioning deprovisioning = true
is_deprovisioning _ = false

abbrev pub same_state : ProvisioningState → ProvisioningState → Bool
same_state provisioning s = is_provisioning s
same_state active s = is_active s
same_state deprovisioning s = is_deprovisioning s

abbrev pub with_state : ProvisioningState → Time → Network → Network
with_state state now n = record n { provisioning_state = state; updated_at = now }

unfoldable pub mark_active : String → Time → Db → Bool × Db
mark_active id now db =
    let test = λ (n : Network). network_at id n && is_provisioning n.provisioning_state in
    (
      exists test db.networks,
      record db { networks = update test (with_state active now) db.networks },
    )

-- The daemons of a network are deleted with it.
unfoldable pub delete_if_deprovisioning : String → Db → Bool × Db
delete_if_deprovisioning id db =
    let test = λ (n : Network). network_at id n && is_deprovisioning n.provisioning_state in
    let left = delete test db.networks in
    (
      exists test db.networks,
      record db {
        networks = left;
        daemons = select (λ d. exists (network_at d.network_id) left) db.daemons;
      },
    )

abbrev pub in_service : ProvisioningState → Bool
in_service s = is_active s || is_provisioning s

unfoldable pub set_deprovisioning : String → Time → Db → Bool × Db
set_deprovisioning id now db =
    let test = λ (n : Network). network_at id n && in_service n.provisioning_state in
    (
      exists test db.networks,
      record db { networks = update test (with_state deprovisioning now) db.networks },
    )

unfoldable pub set_deprovisioning_for_tenant : String → Time → Db → ℕ × Db
set_deprovisioning_for_tenant tenant_id now db =
    let test = λ (n : Network). of_tenant tenant_id n && in_service n.provisioning_state in
    (
      count test db.networks,
      record db { networks = update test (with_state deprovisioning now) db.networks },
    )

-- Daemons.
unfoldable pub find_daemon : Str → Db → Option Daemon
find_daemon public_key db = select_one (key_at public_key) db.daemons

unfoldable pub daemons_of_tenant : String → Db → List Daemon
daemons_of_tenant tenant_id db = select (daemon_of tenant_id) db.daemons

unfoldable pub daemons_of_network : String → Db → List Daemon
daemons_of_network network_id db = select (λ d. str_eq d.network_id network_id) db.daemons

unfoldable pub remove_daemon : Str → String → Db → ℕ × Db
remove_daemon public_key network_id db =
    let test = λ (d : Daemon). key_at public_key d && str_eq d.network_id network_id in
    (count test db.daemons, record db { daemons = delete test db.daemons })
