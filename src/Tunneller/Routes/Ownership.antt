-- ===== src/Tunneller/Routes/Ownership.antt =====
-- Which node a row of `tunnel_routes` belongs to, after a node claims it.
use wardnet_cloud.Prelude.{
  String, ◌≡◌, refl, true, false, [], ◌∷◌, ◌++◌, some, arith, Bool-cases, inl, inr, str_eq,
}
use wardnet_cloud.Prelude.Table.{
  exists, select_one, update, delete-none, update-none, select_one-append,
}
use wardnet_cloud.Prelude.Text.{Str, same_iff, same_refl}
use wardnet_cloud.Contract.License.{Time}
use wardnet_cloud.Tunneller.Routes.{
  TunnelRoute, TunnelRoutes, has_slug, owned_by, upsert, delete, touch, find_by_slug,
}

module _ (slug : Str) (node_addr network_id tenant_id : String) (now : Time) where
  abbrev row : TunnelRoute
  row = record {
    slug = slug;
    node_addr = node_addr;
    network_id = network_id;
    tenant_id = tenant_id;
    last_seen = now;
  }

  -- The UPDATE of an upsert, and its INSERT.
  abbrev taken : TunnelRoutes → TunnelRoutes
  taken rows =
      update (has_slug slug)
        (λ r. record r {
          node_addr = node_addr;
          network_id = network_id;
          tenant_id = tenant_id;
          last_seen = now;
        })
        rows

  find-taken :
      (rows : TunnelRoutes)
      → exists (has_slug slug) rows ≡ true
      → select_one (has_slug slug) (taken rows) ≡ some row
  unfolding exists select_one update
  find-taken [] e = cc
  find-taken (r ∷ rows) e = elim (Bool-cases (has_slug slug r)) [
    | inl hit ↦
        let at_slug : r.slug ≡ slug = (same_iff r.slug slug).0 hit in
        rw (hit, at_slug, same_refl slug) refl
    | inr miss ↦ simp (miss) (find-taken rows (ground arith))
  ]

  -- Once a node has claimed the row of a slug, a lookup finds the claim.
  pub find_by_slug-upsert :
      (rows : TunnelRoutes)
      → find_by_slug slug (upsert slug node_addr network_id tenant_id now rows) ≡ some row
  unfolding find_by_slug upsert select_one
  find_by_slug-upsert rows = elim (Bool-cases (exists (has_slug slug) rows)) [
    | inl there ↦ rw there (find-taken rows there)
    | inr missing ↦
        ground (arith, select_one-append (has_slug slug) rows (row ∷ []) missing, find-row)
  ]
    where
      find-row : select_one (has_slug slug) (row ∷ []) ≡ some row
      find-row = ground (arith, same_refl slug)

  module _ (other : String) (differs : str_eq node_addr other ≡ false) where
    taken-not_owned : (rows : TunnelRoutes) → exists (owned_by slug other) (taken rows) ≡ false
    unfolding exists update
    taken-not_owned [] = refl
    taken-not_owned (r ∷ rows) = elim (Bool-cases (has_slug slug r)) [
      | inl hit ↦ ground (arith, taken-not_owned rows)
      | inr miss ↦ ground (arith, taken-not_owned rows)
    ]

    inserted-not_owned :
        (rows : TunnelRoutes)
        → exists (has_slug slug) rows ≡ false
        → exists (owned_by slug other) (rows ++ row ∷ []) ≡ false
    unfolding exists
    inserted-not_owned [] e = ground arith
    inserted-not_owned (r ∷ rows) e = ground (arith, inserted-not_owned rows)

    pub upsert-not_owned :
        (rows : TunnelRoutes)
        → exists (owned_by slug other) (upsert slug node_addr network_id tenant_id now rows) ≡ false
    unfolding upsert
    upsert-not_owned rows = elim (Bool-cases (exists (has_slug slug) rows)) [
      | inl there ↦ rw there (taken-not_owned rows)
      | inr missing ↦ rw missing (inserted-not_owned rows missing)
    ]

-- Once a node has claimed the row of a slug, lookups find that node, and the delete and the
-- heartbeat of any other node for the slug affect no row and change nothing.
pub upsert_takes_over :
    (slug : Str) (node_addr network_id tenant_id other : String) (now later : Time)
    (rows : TunnelRoutes)
    → str_eq node_addr other ≡ false
    → let claimed = upsert slug node_addr network_id tenant_id now rows in
      (find_by_slug slug claimed ≡ some (row slug node_addr network_id tenant_id now))
      × (delete slug other claimed ≡ (false, claimed))
      × (touch slug other later claimed ≡ (false, claimed))
unfolding delete touch
upsert_takes_over slug node_addr network_id tenant_id other now later rows differs = (
  find_by_slug-upsert slug node_addr network_id tenant_id now rows,
  rw (gone, delete-none (owned_by slug other) claimed gone) refl,
  rw (gone, update-none (owned_by slug other) _ claimed gone) refl,
)
  where
    claimed : TunnelRoutes
    claimed = upsert slug node_addr network_id tenant_id now rows

    gone : exists (owned_by slug other) claimed ≡ false
    gone = upsert-not_owned slug node_addr network_id tenant_id now other differs rows
