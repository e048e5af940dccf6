-- ===== src/Tenants/Reconcile.antt =====
-- The mesh plane of crates/tenants: `reconcile_page`, `mark_network_active` and `finish_deprovision`
-- of service.rs, the endpoints of api/reconcile.rs, and reactor.rs. `before` is the order of the ids
-- in the database.
pub mod Lifecycle
use wardnet_cloud.Prelude.{
  ℕ, zero, suc, String, Bool, true, false, ◌&&◌, ◌||◌, ltb, List, [], ◌∷◌, Option, none, some,
  if◌then◌else◌, str_eq, take,
}
use wardnet_cloud.Prelude.Int.{ℤ, pos, negsuc}
use wardnet_cloud.Prelude.Table.{select}
use wardnet_cloud.Contract.License.{Time}
use wardnet_cloud.Contract.Provisioning.{
  ProvisioningState, provisioning, active, deprovisioning, from_db,
}
use wardnet_cloud.Event.{DomainEvent, tenant_created, tenant_deregistered, subscription_deactivated}
use wardnet_cloud.Tenants.Repository.{Network, Db, find_network, same_state}
use wardnet_cloud.Tenants.Repository
use wardnet_cloud.Tenants.Service.{
  TenantsError, bad_request, conflict, not_found, Outcome, ok, err, State, Run, ◌>>=◌, pure, fail,
  lift, required, query, execute, deprovision_networks_for,
}
use mathlib.Core.Option
use mathlib.Core.Option.{get_or}

module _ (before : String → String → Bool) where
  insert_by_id : Network → List Network → List Network
  insert_by_id n [] = n ∷ []
  insert_by_id n (m ∷ ms) = if before n.id m.id then n ∷ (m ∷ ms) else m ∷ insert_by_id n ms

  order_by_id : List Network → List Network
  unfolding insert_by_id
  order_by_id [] = []
  order_by_id (n ∷ ns) = insert_by_id n (order_by_id ns)

  abbrev is_after : Option String → String → Bool
  is_after none id = true
  is_after (some after_id) id = before after_id id

  unfoldable pub list_for_reconcile :
      ProvisioningState → String → Option String → ℕ → Db → List Network
  unfolding order_by_id
  list_for_reconcile state region after_id limit db = take limit (
      order_by_id (
        select
          (λ n.
            same_state state n.provisioning_state
            && (str_eq n.region region && is_after after_id n.id))
          db.networks))

  -- `unwrap_or(100).clamp(1, 500)`.
  abbrev clamped : Option ℤ → ℕ
  clamped none = 100
  clamped (some (negsuc n)) = 1
  clamped (some (pos zero)) = 1
  clamped (some (pos (suc n))) = if ltb 500 (suc n) then 500 else suc n

  unfoldable pub list_page : String → String → Option String → Option ℤ → Run (List Network)
  unfolding list_for_reconcile
  list_page state_text region after_id limit = do
    state ← lift (required bad_request (from_db state_text))
    query (list_for_reconcile state region after_id (clamped limit))

unfoldable pub network_state : String → Db → Option ProvisioningState
network_state id db = Option.map (λ (n : Network). n.provisioning_state) (find_network id db)

after_activate : Bool → Option ProvisioningState → Outcome (Unit {0})
after_activate true state = ok tt
after_activate false none = err not_found
after_activate false (some active) = ok tt
after_activate false (some state) = err conflict

after_finish : Bool → Option ProvisioningState → Outcome (Unit {0})
after_finish true state = ok tt
after_finish false none = ok tt
after_finish false (some state) = err conflict

-- The bodies that are understood; `other` is any other text.
pub data Target : Type 0 where
  to_active to_deprovisioned other : Target

abbrev pub target_of : String → Target
target_of s =
    if str_eq s "active"
    then to_active
    else if str_eq s "deprovisioned"
    then to_deprovisioned
    else other

unfoldable pub transition_network : Time → String → Target → Run (Unit {0})
unfolding after_activate after_finish
transition_network now id to_active = do
  done ← execute (Repository.mark_active id now)
  state ← query (network_state id)
  lift (after_activate done state)
transition_network now id to_deprovisioned = do
  done ← execute (Repository.delete_if_deprovisioning id)
  state ← query (network_state id)
  lift (after_finish done state)
transition_network now id other = fail bad_request

-- reactor.rs: the networks of a tenant whose license ended.
unfoldable pub apply_to_network : Time → DomainEvent → State → State
apply_to_network now (subscription_deactivated tenant_id) s =
    (deprovision_networks_for now tenant_id s).1
apply_to_network now (tenant_created tenant_id) s = s
apply_to_network now (tenant_deregistered tenant_id) s = s
