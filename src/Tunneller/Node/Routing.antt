-- ===== src/Tunneller/Node/Routing.antt =====
-- Where a stream for a slug goes, and what a handler leaves behind when it ends.
use wardnet_cloud.Prelude.{
  String, ◌≡◌, ◌↔◌, refl, Bool, true, false, Option, none, some, arith, Bool-cases, Option-cases,
  inl, inr, str_eq, if◌then◌else◌, ◌+◌, ◌<◌,
}
use wardnet_cloud.Prelude.Text.{Str}
use wardnet_cloud.Tunneller.Registry.{
  ForwardRequest, is_connected, forward, Entry, Registration, u64_mod, get, register, drop_receiver,
  Registry,
}
use wardnet_cloud.Tunneller.Routes.{TunnelRoute, find_by_slug, TunnelRoutes, upsert, delete}
use wardnet_cloud.Tunneller.Node.{Node, local, remote, route, route_found, finish}
use wardnet_cloud.Tunneller.Registry.Invariant.{IsValid, Reach}
use wardnet_cloud.Tunneller.Registry.Ownership.{unregister_superseded, unregister_own}
use wardnet_cloud.Tunneller.Routes.Ownership.{upsert_takes_over}
use wardnet_cloud.Contract.License.{Time}

-- A stream for a slug that the node holds a tunnel of is handed to that tunnel, whatever the table
-- says. Any other goes to a peer exactly if the table could be read and its row for the slug names
-- that peer, which is never the node itself; and it changes nothing.
route_lem :
    (readable : Bool) (node_addr : String) (slug : Str) (req : ForwardRequest) (s : Node)
    → (is_connected slug s.registry ≡ true
        → (route readable node_addr slug req s).0 ≡ local (forward slug req s.registry).0)
      × (is_connected slug s.registry ≡ false
          → ((route readable node_addr slug req s).1 ≡ s)
            × ((peer : String)
                → ((route readable node_addr slug req s).0 ≡ remote peer) ↔ (
                    (readable ≡ true)
                    × (str_eq peer node_addr ≡ false)
                    × ((r : TunnelRoute) × (find_by_slug slug s.routes ≡ some r)
                        × (r.node_addr ≡ peer)))))
unfolding route
route_lem readable node_addr slug req s = (
  (λ connected. rw connected refl),
  (λ away. (rw away refl, (λ peer. rw away (to_peer readable peer, from_peer readable peer)))),
)
  where
    found : Bool → Option (Option TunnelRoute)
    found readable = if readable then some (find_by_slug slug s.routes) else none

    to_peer :
        (readable : Bool) (peer : String)
        → route_found node_addr (found readable) ≡ remote peer
        → (readable ≡ true)
          × (str_eq peer node_addr ≡ false)
          × ((r : TunnelRoute) × (find_by_slug slug s.routes ≡ some r) × (r.node_addr ≡ peer))
    to_peer false peer e = absurd (ground arith)
    to_peer true peer e = elim (Option-cases (find_by_slug slug s.routes)) [
      | inl missing ↦ absurd (ground arith)
      | inr (r, there) ↦ elim (Bool-cases (str_eq r.node_addr node_addr)) [
        | inl own ↦ absurd (ground arith)
        | inr other ↦
            let same : r.node_addr ≡ peer = ground arith in
            (refl, rw (← same) other, (r, there, same))
      ]
    ]

    from_peer :
        (readable : Bool) (peer : String)
        → (readable ≡ true)
          × (str_eq peer node_addr ≡ false)
          × ((r : TunnelRoute) × (find_by_slug slug s.routes ≡ some r) × (r.node_addr ≡ peer))
        → route_found node_addr (found readable) ≡ remote peer
    from_peer readable peer (read, other, (r, there, same)) =
        rw (read, there) (ground (arith, same))

-- A handler whose daemon reconnected to the same node leaves, when it ends, every row of the table
-- and the new tunnel in place: the slug stays connected, whether or not its DELETE would have
-- succeeded (fewer than 2^64 registrations in between).
finish_superseded :
    (written : Bool) (node_addr : String) (slug : Str) (s t : Registry) (displaced : Entry)
    (routes : TunnelRoutes)
    → Reach (register slug s).1 t
    → t.registrations < s.registrations + u64_mod
    → get slug t ≡ some displaced
    → let u =
        finish written node_addr slug
          (register slug s).0
          (record { registry = (register slug t).1; routes = routes }) in
      (u.routes ≡ routes) × (is_connected slug u.registry ≡ true)
unfolding finish is_connected drop_receiver
finish_superseded written node_addr slug s t displaced routes reach few found =
    let (kept, connected, fired) = unregister_superseded slug s t displaced reach few found in
    rw kept (refl, connected)

gone_connected :
    (written : Bool) (node_addr : String) (slug : Str) (s : Node) (own : Entry) (reg : Registration)
    → IsValid s.registry
    → get slug s.registry ≡ some own
    → reg.generation ≡ own.generation
    → is_connected slug (finish written node_addr slug reg s).registry ≡ false
unfolding finish is_connected drop_receiver
gone_connected written node_addr slug s own reg v found mine =
    rw mine (ground (arith, (unregister_own slug slug s.registry own v found).1))

-- A daemon that moved to another node: once that node has claimed the row of the slug, the end of
-- the old node's handler, though it still holds its registration, leaves the claim in place, and the
-- old node sends the slug's streams to the new one from then on.
pub finish_moved :
    (written : Bool) (node_addr new_addr network_id tenant_id : String) (now : Time) (slug : Str)
    (req : ForwardRequest) (s : Node) (own : Entry) (reg : Registration)
    → IsValid s.registry
    → get slug s.registry ≡ some own
    → reg.generation ≡ own.generation
    → str_eq new_addr node_addr ≡ false
    → let claimed = upsert slug new_addr network_id tenant_id now s.routes in
      let t = finish written node_addr slug reg (record s { routes = claimed }) in
      (t.routes ≡ claimed) × ((route true node_addr slug req t).0 ≡ remote new_addr)
unfolding finish drop_receiver
finish_moved written node_addr new_addr network_id tenant_id now slug req s own reg v found mine
      differs =
    (
      kept,
      (((route_lem true node_addr slug req t).1 gone).1 new_addr).1
          (refl, differs, (claim, rw kept taken_over.0, refl)),
    )
  where
    claimed : TunnelRoutes
    claimed = upsert slug new_addr network_id tenant_id now s.routes

    claim : TunnelRoute
    claim = record {
      slug = slug;
      node_addr = new_addr;
      network_id = network_id;
      tenant_id = tenant_id;
      last_seen = now;
    }

    taken_over :
        (find_by_slug slug claimed ≡ some claim)
        × (delete slug node_addr claimed ≡ (false, claimed))
    taken_over =
        let all =
          upsert_takes_over slug new_addr network_id tenant_id node_addr now now s.routes differs in
        (all.0, all.1)

    t : Node
    t = finish written node_addr slug reg (record s { routes = claimed })

    kept : t.routes ≡ claimed
    kept = ground (arith, taken_over.1)

    gone : is_connected slug t.registry ≡ false
    gone =
        gone_connected written node_addr slug (record s { routes = claimed }) own reg v found mine
