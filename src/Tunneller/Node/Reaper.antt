-- ===== src/Tunneller/Node/Reaper.antt =====
-- What a pass of the abort reaper tears down, and what it leaves.
use wardnet_cloud.Prelude.{
  String, ◌≡◌, ◌≢◌, refl, Bool, true, false, [], ◌∷◌, Option, none, some, arith, Bool-cases, inl,
  inr, All, ◌∙◌,
}
use wardnet_cloud.Prelude.Table.{
  select_one, select_one-delete_other, exists, exists-delete_self, exists-delete_le,
  exists-update_keeps, delete, update,
}
use wardnet_cloud.Prelude.Text.{Str, same_iff}
use wardnet_cloud.Contract.License.{Time, TenantView}
use wardnet_cloud.Contract.Provisioning.{NetworkView}
use wardnet_cloud.Tunneller.Registry.{Registry, at, get, abort, is_connected}
use wardnet_cloud.Tunneller.Registry.Invariant.{by_slug-cleared}
use wardnet_cloud.Tunneller.Routes.{
  TunnelRoute, TunnelRoutes, has_slug, owned_by, touch, find_by_slug, list_owned,
}
use wardnet_cloud.Tunneller.Routes
use wardnet_cloud.Tunneller.Node.{
  Node, Answers, should_abort, reap_row, reap_rows, decide_row, abort_row, touch_row,
  abort_reaper_tick,
}

-- Both reads for a row came back, and they say that its tunnel is to go.
abbrev pub condemns : Option (Option NetworkView) → Option (Option TenantView) → Bool
condemns (some network) (some tenant) = should_abort network tenant
condemns _ _ = false

abbrev pub is_condemned : Answers → TunnelRoute → Bool
is_condemned answers row = condemns (answers.network row) (answers.tenant row)

abbrev pub owner : Option TunnelRoute → Option String
owner none = none
owner (some r) = some r.node_addr

by_slug-abort : (slug : Str) (s : Registry) → (abort slug s).1.by_slug ≡ delete (at slug) s.by_slug
unfolding abort
by_slug-abort slug s = by_slug-cleared slug s

get-abort_other : (u slug : Str) (s : Registry) → slug ≢ u → get u (abort slug s).1 ≡ get u s
unfolding get
get-abort_other u slug s ne = rw (by_slug-abort slug s) (
    select_one-delete_other (at u) (at slug)
      (λ r e. ground (arith, same_iff r.slug slug, same_iff r.slug u)) s.by_slug)

abort-gone : (slug : Str) (s : Registry) → is_connected slug (abort slug s).1 ≡ false
unfolding is_connected
abort-gone slug s = rw (by_slug-abort slug s) (exists-delete_self (at slug) s.by_slug)

abort-stays_gone :
    (u slug : Str) (s : Registry)
    → is_connected u s ≡ false
    → is_connected u (abort slug s).1 ≡ false
unfolding is_connected
abort-stays_gone u slug s gone =
    rw (by_slug-abort slug s) (exists-delete_le (at u) (at slug) s.by_slug gone)

owner-touch :
    (u slug : Str) (node_addr : String) (now : Time) (rows : TunnelRoutes)
    → owner (find_by_slug u (touch slug node_addr now rows).1) ≡ owner (find_by_slug u rows)
unfolding touch find_by_slug update select_one
owner-touch u slug node_addr now [] = refl
owner-touch u slug node_addr now (r ∷ rows) = elim (Bool-cases (owned_by slug node_addr r)) [
  | inl hit ↦ ground (arith, owner-touch u slug node_addr now rows)
  | inr miss ↦ ground (arith, owner-touch u slug node_addr now rows)
]

owner-delete_other :
    (u slug : Str) (node_addr : String) (rows : TunnelRoutes)
    → slug ≢ u
    → find_by_slug u (Routes.delete slug node_addr rows).1 ≡ find_by_slug u rows
unfolding Routes.delete find_by_slug
owner-delete_other u slug node_addr rows ne =
    select_one-delete_other (has_slug u) (owned_by slug node_addr)
      (λ r e. ground (arith, same_iff r.slug slug, same_iff r.slug u)) rows

not_owned-delete :
    (slug u : Str) (node_addr : String) (rows : TunnelRoutes)
    → exists (owned_by u node_addr) rows ≡ false
    → exists (owned_by u node_addr) (Routes.delete slug node_addr rows).1 ≡ false
unfolding Routes.delete
not_owned-delete slug u node_addr rows e =
    exists-delete_le (owned_by u node_addr) (owned_by slug node_addr) rows e

not_owned-touch :
    (slug u : Str) (node_addr : String) (now : Time) (rows : TunnelRoutes)
    → exists (owned_by u node_addr) rows ≡ false
    → exists (owned_by u node_addr) (touch slug node_addr now rows).1 ≡ false
unfolding touch
not_owned-touch slug u node_addr now rows e =
    exists-update_keeps (owned_by u node_addr) (owned_by slug node_addr) _ (λ r. refl) rows e

deleted_own :
    (slug : Str) (node_addr : String) (rows : TunnelRoutes)
    → exists (owned_by slug node_addr) (Routes.delete slug node_addr rows).1 ≡ false
unfolding Routes.delete
deleted_own slug node_addr rows = exists-delete_self (owned_by slug node_addr) rows

module _ (answers : Answers) (node_addr : String) (now : Time) where
  -- A row that is not condemned, or of another slug, leaves the slug's tunnel and owner alone.
  reap_row-spares :
      (u : Str) (row : TunnelRoute) (s : Node)
      → (row.slug ≡ u → is_condemned answers row ≡ false)
      → let t = reap_row answers node_addr now row s in
        (get u t.registry ≡ get u s.registry)
        × (owner (find_by_slug u t.routes) ≡ owner (find_by_slug u s.routes))
  unfolding reap_row decide_row abort_row touch_row
  reap_row-spares u row s keep = by_reads (answers.network row) (answers.tenant row) keep
    where
      touched :
          let t = touch_row answers node_addr now row s in
          (get u t.registry ≡ get u s.registry)
          × (owner (find_by_slug u t.routes) ≡ owner (find_by_slug u s.routes))
      touched = (refl, ground (arith, owner-touch u row.slug node_addr now s.routes))

      aborted :
          row.slug ≢ u
          → let t = abort_row answers node_addr now row s in
            (get u t.registry ≡ get u s.registry)
            × (owner (find_by_slug u t.routes) ≡ owner (find_by_slug u s.routes))
      aborted ne = (
        get-abort_other u row.slug s.registry ne,
        ground (arith, owner-delete_other u row.slug node_addr s.routes ne),
      )

      by_reads :
          (network : Option (Option NetworkView)) (tenant : Option (Option TenantView))
          → (row.slug ≡ u → condemns network tenant ≡ false)
          → let t = decide_row answers node_addr now row network tenant s in
            (get u t.registry ≡ get u s.registry)
            × (owner (find_by_slug u t.routes) ≡ owner (find_by_slug u s.routes))
      by_reads none tenant keep = (refl, refl)
      by_reads (some n) none keep = (refl, refl)
      by_reads (some n) (some t) keep = elim (Bool-cases (should_abort n t)) [
        | inl goes ↦ rw goes (aborted (λ same. ground (arith, keep same)))
        | inr stays ↦ rw stays touched
      ]

  reap_rows-spares :
      (u : Str) (rows : TunnelRoutes) (s : Node)
      → All (λ row. row.slug ≡ u → is_condemned answers row ≡ false) rows
      → let t = reap_rows answers node_addr now rows s in
        (get u t.registry ≡ get u s.registry)
        × (owner (find_by_slug u t.routes) ≡ owner (find_by_slug u s.routes))
  unfolding reap_rows
  reap_rows-spares u [] s keep = (refl, refl)
  reap_rows-spares u (row ∷ rows) s keep =
      let rest = reap_rows-spares u rows (reap_row answers node_addr now row s) keep.1 in
      let first = reap_row-spares u row s keep.0 in (rest.0 ∙ first.0, rest.1 ∙ first.1)

  -- Its tunnel is gone, and the node owns no row of it if its DELETE succeeded.
  abbrev pub IsDown : TunnelRoute → Node → Type 0
  IsDown row s =
      (is_connected row.slug s.registry ≡ false)
      × (answers.written row ≡ true → exists (owned_by row.slug node_addr) s.routes ≡ false)

  reap_row-downs :
      (row : TunnelRoute) (s : Node)
      → is_condemned answers row ≡ true
      → IsDown row (reap_row answers node_addr now row s)
  unfolding reap_row decide_row abort_row
  reap_row-downs row s goes = by_reads (answers.network row) (answers.tenant row) goes
    where
      by_reads :
          (network : Option (Option NetworkView)) (tenant : Option (Option TenantView))
          → condemns network tenant ≡ true
          → IsDown row (decide_row answers node_addr now row network tenant s)
      by_reads none tenant goes = absurd (ground arith)
      by_reads (some n) none goes = absurd (ground arith)
      by_reads (some n) (some t) goes = rw goes (
        abort-gone row.slug s.registry,
        (λ written. rw written (deleted_own row.slug node_addr s.routes)),
      )

  -- Once down, a slug stays down for the rest of the pass.
  reap_row-stays-IsDown :
      (row other : TunnelRoute) (s : Node)
      → IsDown row s
      → IsDown row (reap_row answers node_addr now other s)
  unfolding reap_row decide_row abort_row touch_row
  reap_row-stays-IsDown row other s down = by_reads (answers.network other) (answers.tenant other)
    where
      aborted : IsDown row (abort_row answers node_addr now other s)
      aborted = (
        abort-stays_gone row.slug other.slug s.registry down.0,
        (λ written.
            ground
              (arith, down.1 written, not_owned-delete other.slug row.slug node_addr s.routes)),
      )

      touched : IsDown row (touch_row answers node_addr now other s)
      touched = (
        down.0,
        (λ written.
            ground
              (arith, down.1 written, not_owned-touch other.slug row.slug node_addr now s.routes)),
      )

      by_reads :
          (network : Option (Option NetworkView)) (tenant : Option (Option TenantView))
          → IsDown row (decide_row answers node_addr now other network tenant s)
      by_reads none tenant = down
      by_reads (some n) none = down
      by_reads (some n) (some t) = elim (Bool-cases (should_abort n t)) [
        | inl goes ↦ rw goes aborted
        | inr stays ↦ rw stays touched
      ]

  reap_rows-stays-IsDown :
      (row : TunnelRoute) (rows : TunnelRoutes) (s : Node)
      → IsDown row s
      → IsDown row (reap_rows answers node_addr now rows s)
  unfolding reap_rows
  reap_rows-stays-IsDown row [] s down = down
  reap_rows-stays-IsDown row (other ∷ rows) s down =
      reap_rows-stays-IsDown row rows _ (reap_row-stays-IsDown row other s down)

  reap_rows-downs :
      (rows : TunnelRoutes) (s : Node)
      → All
          (λ row.
            is_condemned answers row ≡ true → IsDown row (reap_rows answers node_addr now rows s))
          rows
  unfolding reap_rows
  reap_rows-downs [] s = tt
  reap_rows-downs (row ∷ rows) s = (
    (λ goes. reap_rows-stays-IsDown row rows _ (reap_row-downs row s goes)),
    reap_rows-downs rows (reap_row answers node_addr now row s),
  )

-- A pass of the abort reaper is fail-safe: a slug none of whose listed rows had both reads succeed
-- with the verdict to tear it down keeps its tunnel entry in the registry and the owner of its row,
-- whatever happens to the other slugs. This covers reads that fail, and a list that cannot be read.
pub abort_reaper_tick_safe :
    (order_by_slug : TunnelRoutes → TunnelRoutes) (readable : Bool) (answers : Answers)
    (node_addr : String) (now : Time) (u : Str) (s : Node)
    → All
        (λ row. row.slug ≡ u → is_condemned answers row ≡ false)
        (list_owned order_by_slug node_addr s.routes)
    → let t = abort_reaper_tick order_by_slug readable answers node_addr now s in
      (get u t.registry ≡ get u s.registry)
      × (owner (find_by_slug u t.routes) ≡ owner (find_by_slug u s.routes))
unfolding abort_reaper_tick
abort_reaper_tick_safe order_by_slug false answers node_addr now u s keep = (refl, refl)
abort_reaper_tick_safe order_by_slug true answers node_addr now u s keep =
    reap_rows-spares answers node_addr now u _ s keep

-- A pass that could list the node's rows ends with every condemned row torn down: no tunnel is
-- connected under its slug, and the node owns no row of the slug if the DELETE succeeded.
pub abort_reaper_tick_complete :
    (order_by_slug : TunnelRoutes → TunnelRoutes) (answers : Answers) (node_addr : String)
    (now : Time) (s : Node)
    → All
        (λ row.
          is_condemned answers row ≡ true
          → IsDown answers node_addr now row
              (abort_reaper_tick order_by_slug true answers node_addr now s))
        (list_owned order_by_slug node_addr s.routes)
unfolding abort_reaper_tick
abort_reaper_tick_complete order_by_slug answers node_addr now s =
    reap_rows-downs answers node_addr now _ s
