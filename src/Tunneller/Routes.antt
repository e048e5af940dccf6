-- ===== src/Tunneller/Routes.antt =====
-- crates/tunneller/src/repository/routes.rs: the `tunnel_routes` table, `slug → node_addr`.
-- A call takes the table and returns it changed; `now` is the `Utc::now()` that a statement binds.
-- `ORDER BY slug` follows the database's collation, so the ordering of a result is the argument
-- `order_by_slug`.
pub mod Ownership
use wardnet_cloud.Prelude.{
  ℕ, String, Bool, ◌&&◌, List, [], ◌∷◌, ◌++◌, Option, if◌then◌else◌, str_eq,
}
use wardnet_cloud.Prelude.Int.{ltb_ℤ}
use wardnet_cloud.Prelude.Table
use wardnet_cloud.Prelude.Text.{Str, same}
use wardnet_cloud.Contract.License.{Time}

pub record TunnelRoute : Type 0 where
  pub slug : Str
  pub node_addr : String
  pub network_id : String
  pub tenant_id : String
  pub last_seen : Time

abbrev pub TunnelRoutes : Type 0
TunnelRoutes = List TunnelRoute

-- The tests of the statements' WHERE clauses.
abbrev pub has_slug : Str → TunnelRoute → Bool
has_slug slug r = same r.slug slug

abbrev pub owned_by : Str → String → TunnelRoute → Bool
owned_by slug node_addr r = same r.slug slug && str_eq r.node_addr node_addr

-- `ON CONFLICT (slug) DO UPDATE`: every column but the slug is taken over.
unfoldable pub upsert : Str → String → String → String → Time → TunnelRoutes → TunnelRoutes
upsert slug node_addr network_id tenant_id now rows =
    if Table.exists (has_slug slug) rows
    then Table.update (has_slug slug)
        (λ r. record r {
          node_addr = node_addr;
          network_id = network_id;
          tenant_id = tenant_id;
          last_seen = now;
        })
        rows
    else rows
      ++ record {
        slug = slug;
        node_addr = node_addr;
        network_id = network_id;
        tenant_id = tenant_id;
        last_seen = now;
      }
        ∷ []

unfoldable pub delete : Str → String → TunnelRoutes → Bool × TunnelRoutes
delete slug node_addr rows =
    (Table.exists (owned_by slug node_addr) rows, Table.delete (owned_by slug node_addr) rows)

unfoldable pub find_by_slug : Str → TunnelRoutes → Option TunnelRoute
find_by_slug slug rows = Table.select_one (has_slug slug) rows

unfoldable pub list_owned : (TunnelRoutes → TunnelRoutes) → String → TunnelRoutes → TunnelRoutes
list_owned order_by_slug node_addr rows =
    order_by_slug (Table.select (λ r. str_eq r.node_addr node_addr) rows)

unfoldable pub touch : Str → String → Time → TunnelRoutes → Bool × TunnelRoutes
touch slug node_addr now rows = (
  Table.exists (owned_by slug node_addr) rows,
  Table.update (owned_by slug node_addr) (λ r. record r { last_seen = now }) rows,
)

unfoldable pub reap_expired : Time → TunnelRoutes → ℕ × TunnelRoutes
reap_expired deadline rows = (
  Table.count (λ r. ltb_ℤ r.last_seen deadline) rows,
  Table.delete (λ r. ltb_ℤ r.last_seen deadline) rows,
)
