-- ===== src/Tunneller/Node.antt =====
-- One node: its registry over the shared `tunnel_routes` table.
-- crates/tunneller/src/api/tunnel.rs (`tunnel_connect`), router/mod.rs (`LocalRouter::route`),
-- reconcile.rs (`abort_reaper_tick`, `should_abort`, `ttl_reaper_tick`) and the clean-up at the end
-- of tunnel/handler.rs (`run`). What a call of Tenants or of the database answers is an argument:
-- `none` is a failed read, and a write that fails changes nothing.
pub mod Policy
pub mod Routing
pub mod Reaper
use wardnet_cloud.Prelude.{
  ℕ, String, Bool, true, false, not, ◌&&◌, List, [], ◌∷◌, Option, none, some, if◌then◌else◌, str_eq,
}
use wardnet_cloud.Prelude.Int.{ℤ, ◌-ℤ◌}
use wardnet_cloud.Prelude.Text.{Str}
use wardnet_cloud.Contract.License.{Time, SubscriptionView, TenantView, view_is_active}
use wardnet_cloud.Contract.Provisioning.{
  ProvisioningState, provisioning, active, deprovisioning, NetworkView,
}
use wardnet_cloud.Tunneller.Registry.{Registry, Registration, ForwardRequest, ForwardResult}
use wardnet_cloud.Tunneller.Registry
use wardnet_cloud.Tunneller.Routes.{TunnelRoute, TunnelRoutes}
use wardnet_cloud.Tunneller.Routes

pub record Node : Type 0 where
  pub registry : Registry
  pub routes : TunnelRoutes

abbrev is_deprovisioning : ProvisioningState → Bool
is_deprovisioning deprovisioning = true
is_deprovisioning _ = false

-- `subscription.as_ref().is_none_or(|s| !s.is_active())`.
abbrev not_entitled : Option SubscriptionView → Bool
not_entitled none = true
not_entitled (some s) = not (view_is_active s)

abort_for_tenant : Option TenantView → Bool
abort_for_tenant none = true
abort_for_tenant (some t) = not_entitled t.subscription

unfoldable pub should_abort : Option NetworkView → Option TenantView → Bool
unfolding abort_for_tenant view_is_active
should_abort none tenant = true
should_abort (some n) tenant =
    if is_deprovisioning n.provisioning_state then true else abort_for_tenant tenant

-- The admission of a daemon's tunnel. The errors are the handler's, in its order.
pub data Denied : Type 0 where
  internal no_network network_deprovisioning no_tenant not_active : Denied

pub data Admission : Type 0 where
  admitted : NetworkView → Admission
  denied : Denied → Admission

abbrev Reads : Type 0 → Type 0
Reads A = Option (Option A)

admit_tenant : NetworkView → Reads TenantView → Admission
admit_tenant n none = denied internal
admit_tenant n (some none) = denied no_tenant
admit_tenant n (some (some t)) =
    if not_entitled t.subscription then denied not_active else admitted n

-- The tenant is read only after the network.
unfoldable pub admit : Reads NetworkView → (String → Reads TenantView) → Admission
unfolding admit_tenant view_is_active
admit none get_tenant = denied internal
admit (some none) get_tenant = denied no_network
admit (some (some n)) get_tenant =
    if is_deprovisioning n.provisioning_state
    then denied network_deprovisioning
    else admit_tenant n (get_tenant n.tenant_id)

-- The upgrade callback: claim the row, then register; a failed claim leaves everything as it is.
unfoldable pub establish :
    Bool → String → Time → String → NetworkView → Node → Option Registration × Node
establish claimed node_addr now network_id n s =
    if claimed
    then (let routes = Routes.upsert n.slug node_addr network_id n.tenant_id now s.routes in
        let (reg, registry) = Registry.register n.slug s.registry in
        (some reg, record { registry = registry; routes = routes }))
    else (none, s)

-- The end of `run`: the row is deleted only by a handler that still owned the slug and was not
-- aborted.
unfoldable pub finish : Bool → String → Str → Registration → Node → Node
finish written node_addr slug reg s =
    let (still_owned, registry) = Registry.unregister slug reg.generation s.registry in
    let s' = record s { registry = Registry.drop_receiver reg.channel registry } in
    if still_owned && not (registry.cancelled reg.channel) && written
    then record s' { routes = (Routes.delete slug node_addr s.routes).1 }
    else s'

-- Where `route` sends a stream.
pub data Routed : Type 0 where
  local : ForwardResult → Routed
  remote : String → Routed
  stale no_route lookup_failed : Routed

route_found : String → Reads TunnelRoute → Routed
route_found node_addr none = lookup_failed
route_found node_addr (some none) = no_route
route_found node_addr (some (some r)) =
    if not (str_eq r.node_addr node_addr) then remote r.node_addr else stale

-- `readable` says whether the lookup in the table succeeds.
unfoldable pub route : Bool → String → Str → ForwardRequest → Node → Routed × Node
unfolding route_found
route readable node_addr slug req s =
    if Registry.is_connected slug s.registry
    then (let (result, registry) = Registry.forward slug req s.registry in
        (local result, record s { registry = registry }))
    else (
      route_found node_addr (if readable then some (Routes.find_by_slug slug s.routes) else none),
      s,
    )

-- What the reads and the write for one row answer in a pass of the reaper.
pub record Answers : Type 0 where
  pub network : TunnelRoute → Option (Option NetworkView)
  pub tenant : TunnelRoute → Option (Option TenantView)
  pub written : TunnelRoute → Bool

module _ (answers : Answers) (node_addr : String) (now : Time) where
  abort_row : TunnelRoute → Node → Node
  abort_row row s = record {
    registry = (Registry.abort row.slug s.registry).1;
    routes =
        if answers.written row then (Routes.delete row.slug node_addr s.routes).1 else s.routes;
  }

  touch_row : TunnelRoute → Node → Node
  touch_row row s = record s {
    routes =
        if answers.written row then (Routes.touch row.slug node_addr now s.routes).1 else s.routes;
  }

  decide_row : TunnelRoute → Option (Option NetworkView) → Option (Option TenantView) → Node → Node
  unfolding abort_row touch_row
  decide_row row (some network) (some tenant) s =
      if should_abort network tenant then abort_row row s else touch_row row s
  decide_row row _ _ s = s

  unfoldable pub reap_row : TunnelRoute → Node → Node
  unfolding decide_row
  reap_row row s = decide_row row (answers.network row) (answers.tenant row) s

  unfoldable pub reap_rows : TunnelRoutes → Node → Node
  unfolding reap_row
  reap_rows [] s = s
  reap_rows (row ∷ rows) s = reap_rows rows (reap_row row s)

-- A failure to list the rows ends the pass.
unfoldable pub abort_reaper_tick :
    (TunnelRoutes → TunnelRoutes) → Bool → Answers → String → Time → Node → Node
abort_reaper_tick order_by_slug readable answers node_addr now s =
    if readable
    then reap_rows answers node_addr now (Routes.list_owned order_by_slug node_addr s.routes) s
    else s

-- The number of rows purged is logged.
unfoldable pub ttl_reaper_tick : Bool → ℤ → Time → TunnelRoutes → TunnelRoutes
ttl_reaper_tick written ttl now rows =
    if written then (Routes.reap_expired (now -ℤ ttl) rows).1 else rows
