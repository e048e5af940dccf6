-- ===== src/Tenants/Grants/Minting.antt =====
-- Which daemons get a token.
use wardnet_cloud.Prelude.{String, ◌≡◌, Bool, true, Option, none, some}
use wardnet_cloud.Prelude.Text.{Str}
use wardnet_cloud.Contract.License.{Time}
use wardnet_cloud.Tenants.Repository.{Tenant, Daemon, Db, find_tenant, find_daemon}
use wardnet_cloud.Tenants.Enrollment.{find_pending_tenant}
use wardnet_cloud.Tenants.Service.{State}
use wardnet_cloud.Tenants.Grants.{ClaimsSpec, audience_of}

-- A daemon of the network, or a key with an enrollment that has not expired and no daemon yet.
abbrev pub Scoped : Time → Str → Db → String → Option String → Type 0
Scoped now key db tenant_id (some network) =
    (d : Daemon) × (find_daemon key db ≡ some d)
    × (d.tenant_id ≡ tenant_id)
    × (d.network_id ≡ network)
Scoped now key db tenant_id none =
    (find_daemon key db ≡ none) × (find_pending_tenant key now db ≡ some tenant_id)

abbrev pub Live : Db → String → Type 0
Live db tenant_id = (t : Tenant) × (find_tenant tenant_id db ≡ some t) × (t.deregistered_at ≡ none)

abbrev pub daemon_claims : Str → String → Option String → ClaimsSpec
daemon_claims key tenant_id network = record {
  tenant_id = tenant_id;
  subject = key;
  network = network;
  cnf_ed25519_b64 = some key;
  audience = audience_of network;
}

module _ {Token : Type 0} (sign : ClaimsSpec → Option Token)
    (is_active : String → Option Bool) where
  abbrev pub Grants : Time → Str → State → Token → Type 0
  Grants now key s token =
      (tenant_id : String) × (network : Option String) × Scoped now key s.db tenant_id network
      × Live s.db tenant_id
      × (is_active tenant_id ≡ some true)
      × (sign (daemon_claims key tenant_id network) ≡ some token)
