-- ===== src/Tenants/Grants.antt =====
-- crates/tenants/src/service.rs: `mint_jwt` and `register_network`, which ask the license aggregate.
-- Its port answers `current` and `is_active`, where `none` is a failed read. `sign` is the signer of
-- the tokens (crates/common/src/token), `regions` the regions that are served.
pub mod Limits
pub mod Minting
use wardnet_cloud.Prelude.{
  ℕ, String, Bool, true, false, not, ◌||◌, List, [], ◌∷◌, Option, none, some, if◌then◌else◌, str_eq,
}
use wardnet_cloud.Prelude.Text.{Str}
use wardnet_cloud.Contract.License.{Time, Entitlement, SubscriptionView}
use wardnet_cloud.Contract.Provisioning.{provisioning}
use wardnet_cloud.Common.Validation.{is_valid_name}
use wardnet_cloud.Tenants.Repository.{
  Tenant, Network, Daemon, Db, is_none, find_tenant, find_daemon, RegisterNetworkOutcome,
}
use wardnet_cloud.Tenants.Repository
use wardnet_cloud.Tenants.Enrollment.{find_pending_tenant}
use wardnet_cloud.Tenants.Service.{
  TenantsError, bad_request, conflict, not_found, forbidden, entitlement_exceeded, invalid_code,
  internal, Outcome, ok, err, State, Run, ◌>>=◌, ◌>>◌, pure, fail, lift, required, guard, query,
  execute,
}

-- A daemon's token: its tenant, its key as subject and as the key that must sign its requests, the
-- network, and the services that it reaches. It holds for an hour.
pub record ClaimsSpec : Type 0 where
  pub tenant_id : String
  pub subject : Str
  pub network : Option String
  pub cnf_ed25519_b64 : Option Str
  pub audience : List String

-- A registered daemon with its network, or a key that is still to be registered.
abbrev scope_of : Option Daemon → Option String → Outcome (String × Option String)
scope_of (some d) pending = ok (d.tenant_id, some d.network_id)
scope_of none (some tenant_id) = ok (tenant_id, none)
scope_of none none = err invalid_code

abbrev pub audience_of : Option String → List String
audience_of (some network) = "tenants" ∷ "ddns" ∷ "tunneller" ∷ []
audience_of none = "tenants" ∷ []

module _ {Token : Type 0} (sign : ClaimsSpec → Option Token)
    (is_active : String → Option Bool) where
  unfoldable pub mint_jwt : Time → Str → Run Token
  mint_jwt now public_key = do
    daemon ← query (find_daemon public_key)
    pending ← query (find_pending_tenant public_key now)
    scope ← lift (scope_of daemon pending)
    found ← query (find_tenant scope.0)
    tenant ← lift (required not_found found)
    guard (is_none tenant.deregistered_at) forbidden
    entitled ← lift (required internal (is_active scope.0))
    guard entitled forbidden
    lift (
        required internal (
          sign (record {
            tenant_id = scope.0;
            subject = public_key;
            network = scope.1;
            cnf_ed25519_b64 = some public_key;
            audience = audience_of scope.1;
          })))

abbrev is_empty : Str → Bool
is_empty [] = true
is_empty (c ∷ s) = false

-- `map(str::trim).filter(|s| !s.is_empty()).unwrap_or(slug)`.
abbrev name_or : (Str → Str) → Str → Option Str → Str
name_or trim slug none = slug
name_or trim slug (some name) = if is_empty (trim name) then slug else trim name

abbrev pub new_network : String → String → Str → Str → String → Time → Network
new_network id tenant_id slug display_name region now = record {
  id = id;
  tenant_id = tenant_id;
  slug = slug;
  display_name = display_name;
  region = region;
  provisioning_state = provisioning;
  created_at = now;
  updated_at = now;
}

abbrev pub new_daemon : String → String → String → Str → Time → Daemon
new_daemon id tenant_id network_id public_key now = record {
  id = id;
  tenant_id = tenant_id;
  network_id = network_id;
  public_key = public_key;
  created_at = now;
}

answer_for : Network → RegisterNetworkOutcome → Outcome Network
answer_for network RegisterNetworkOutcome.created = ok network
answer_for network RegisterNetworkOutcome.slug_taken = err conflict
answer_for network RegisterNetworkOutcome.network_limit = err entitlement_exceeded
answer_for network RegisterNetworkOutcome.daemon_limit = err entitlement_exceeded
answer_for network RegisterNetworkOutcome.daemon_exists = err conflict

module _ (regions : String → Bool) (trim : Str → Str)
    (current : String → Option (Option SubscriptionView)) where
  -- `region` is trimmed already; `ids` are the fresh ids of the network and of the daemon.
  unfoldable pub register_network :
      String × String → Time → String → Str → Str → Option Str → String → Run Network
  unfolding answer_for
  register_network ids now tenant_id public_key slug display_name region = do
    guard (is_valid_name slug) bad_request
    guard (regions region) bad_request
    found ← query (find_tenant tenant_id)
    tenant ← lift (required not_found found)
    license ← lift (required internal (current tenant_id))
    subscription ← lift (required forbidden license)
    let network = new_network ids.0 tenant_id slug (name_or trim slug display_name) region now
    let daemon = new_daemon ids.1 tenant_id ids.0 public_key now
    outcome ← execute (
        Repository.register_network network daemon subscription.entitlement.max_networks
          subscription.entitlement.max_daemons)
    lift (answer_for network outcome)
