-- ===== src/Tenants/Tests.antt =====
-- The theorems on the Tenants service at a tenant with a network of one daemon and a code.
use wardnet_cloud.Prelude.{ℕ, String, ◌≡◌, ◌≢◌, ◌⊎◌, refl, false, [], ◌∷◌, none, some, arith}
use wardnet_cloud.Prelude.Int.{ℤ, pos}
use wardnet_cloud.Prelude.Text.{Str, same}
use wardnet_cloud.Prelude.Table.{count, exists, select_one, update}
use wardnet_cloud.Contract.Provisioning.{active}
use wardnet_cloud.Tenants.Repository.{
  Tenant, Network, Daemon, Code, enrollment, Db, RegisterNetworkOutcome, limit_reached, insert_both,
  set_deprovisioning_for_tenant,
}
use wardnet_cloud.Tenants.Repository
use wardnet_cloud.Tenants.Enrollment.{
  EnrollOutcome, bad_code, enrolled, resolve, issue_code, consume_code,
}
use wardnet_cloud.Tenants.Enrollment
use wardnet_cloud.Tenants.Enrollment.Burned.{Redeems, by_enroll, redeemed_once}
use wardnet_cloud.Tenants.Enrollment.Burned
use wardnet_cloud.Tenants.Service.{err, conflict, not_found, State}
use wardnet_cloud.Tenants.Grants.Limits.{networks_of, registrations_exceed}
use wardnet_cloud.Tenants.Grants.Minting.{Grants}
use wardnet_cloud.Tenants.Reconcile.{to_active, transition_network}
use wardnet_cloud.Tenants.Reconcile.Lifecycle.{OutOfService, deprovisioning_final}
use wardnet_cloud.Tenants.Reconcile.Lifecycle

abbrev tenant : Tenant
tenant = record { id = "t1"; email = 97 ∷ []; created_at = pos 1; deregistered_at = none }

abbrev network : String → ℕ → Network
network id letter = record {
  id = id;
  tenant_id = "t1";
  slug = letter ∷ [];
  display_name = letter ∷ [];
  region = "eu";
  provisioning_state = active;
  created_at = pos 2;
  updated_at = pos 2;
}

abbrev daemon : String → String → ℕ → Daemon
daemon id network_id letter = record {
  id = id;
  tenant_id = "t1";
  network_id = network_id;
  public_key = letter ∷ [];
  created_at = pos 2;
}

abbrev code : Code
code = record {
  code_hash = "h1";
  email = 97 ∷ [];
  tenant_id = some "t1";
  purpose = enrollment;
  expires_at = pos 600;
  used_at = none;
}

abbrev db : Db
db = record {
  tenants = tenant ∷ [];
  networks = network "n1" 97 ∷ [];
  daemons = daemon "d1" "n1" 107 ∷ [];
  codes = code ∷ [];
  pending = [];
  code_log = [];
}

abbrev state : Db → State
state db = record { db = db; published = []; mailed = [] }

-- One network is left to the tenant, and two registrations pass the test for it.
registrations_exceed_example :
    (networks_of "t1"
        (insert_both
          (network "n3" 99)
          (daemon "d3" "n3" 109)
          (insert_both (network "n2" 98) (daemon "d2" "n2" 108) db).1).1
      ≡ 3)
    × (limit_reached "t1" 2 5 (insert_both (network "n2" 98) (daemon "d2" "n2" 108) db).1 ≢ none)
unfolding exists limit_reached count same
registrations_exceed_example =
    registrations_exceed (network "n2" 98) (network "n3" 99) (daemon "d2" "n2" 108)
      (daemon "d3" "n3" 109) 2 5 db refl refl refl refl refl refl refl refl refl refl refl

abbrev used : Db
used = (Enrollment.enroll "h1" (109 ∷ []) "t9" (pos 5) (pos 600) db).1

abbrev issued : Db
issued = issue_code "h2" (97 ∷ []) (some "t1") enrollment (pos 900) used

redeemed_once_example :
    ((key : Str) (id : String) (now : ℤ) (ttl : ℤ)
      → Enrollment.enroll "h1" key id now ttl issued ≡ (bad_code, issued))
    × ((purpose : Repository.CodePurpose) (now : ℤ)
        → (consume_code "h1" purpose now issued).0 ≡ none)
unfolding Enrollment.enroll resolve select_one count
redeemed_once_example =
    redeemed_once (omega arith) (by_enroll (109 ∷ []) "t9" (pos 5) (pos 600) db "t1" false refl) (
      Burned.next Burned.here
        (Burned.issue "h2" (97 ∷ []) (some "t1") enrollment (pos 900) used refl))

abbrev torn_down : Db
torn_down = (set_deprovisioning_for_tenant "t1" (pos 9) db).1

deprovisioning_final_example :
    OutOfService "n1" torn_down
    × (((transition_network (pos 12) "n1" to_active (state torn_down)).0 ≡ err not_found)
        ⊎ ((transition_network (pos 12) "n1" to_active (state torn_down)).0 ≡ err conflict))
    × ((transition_network (pos 12) "n1" to_active (state torn_down)).1 ≡ state torn_down)
unfolding set_deprovisioning_for_tenant exists update
deprovisioning_final_example =
    deprovisioning_final {id = "n1"} {a = torn_down} refl (state torn_down) Lifecycle.here (pos 12)
