-- ===== src/Tunneller/Tests.antt =====
-- The theorems on the tunneller at two nodes and one daemon.
use wardnet_cloud.Prelude.{◌<◌, ◌+◌, ◌≡◌, refl, true, false, [], ◌∷◌, none, some, arith, inr, All}
use wardnet_cloud.Prelude.Int.{pos}
use wardnet_cloud.Prelude.Table.{select_one, exists, delete, select}
use wardnet_cloud.Prelude.Text.{Str, codes, same, contains}
use wardnet_cloud.Contract.License.{trialing, default_entitlement, SubscriptionView, TenantView}
use wardnet_cloud.Contract.Provisioning.{active, NetworkView}
use wardnet_cloud.Tunneller.Registry.{
  Registry, ForwardRequest, Entry, u64_mod, new, register, get, is_connected, cancel_entry,
}
use wardnet_cloud.Tunneller.Registry.Invariant.{
  IsValid, here, next, registers, Reach-IsValid, new-IsValid,
}
use wardnet_cloud.Tunneller.Registry.Ownership.{unregister_superseded}
use wardnet_cloud.Tunneller.Routes.{TunnelRoute, TunnelRoutes, upsert, list_owned, find_by_slug}
use wardnet_cloud.Tunneller.Node.{Node, Answers, finish, route, remote, abort_reaper_tick}
use wardnet_cloud.Tunneller.Node.Routing.{finish_moved}
use wardnet_cloud.Tunneller.Node.Reaper.{
  abort_reaper_tick_safe, abort_reaper_tick_complete, is_condemned, IsDown,
}
use wardnet_cloud.Tunneller.Forward.{SpiffeId}
use wardnet_cloud.Tunneller.Sni.{extract_slug, parse_sni}
use wardnet_cloud.Tunneller.Sni.Slug.{extract_slug_iff}
use wardnet_cloud.Tunneller.Sni.Panics.{Ends, parse_sni_never_panics}
use wardnet_cloud.Common.Validation.{
  is_valid_name, all_name_chars, starts_with_hyphen, ends_with_hyphen, is_reserved,
}
use wardnet_cloud.Tunneller.Handler.{accept, started}
use wardnet_cloud.Tunneller.Handler.Pending.{IsTimed, Reach-IsTimed, turn, start, request}

abbrev alice : Str
alice = codes "alice"

abbrev req : ForwardRequest
req = record { stream = 7; dest_port = 443 }

abbrev network : NetworkView
network = record {
  id = "n1";
  tenant_id = "t1";
  slug = alice;
  display_name = "Alice";
  region = "us";
  provisioning_state = active;
  created_at = pos 1;
  updated_at = pos 1;
}

abbrev subscription : SubscriptionView
subscription = record {
  id = "s1";
  status = trialing;
  entitlement = default_entitlement;
  trial_expires_at = some (pos 9);
  current_period_end = none;
  created_at = pos 1;
  updated_at = pos 1;
}

abbrev tenant : TenantView
tenant = record {
  id = "t1";
  email = "a@example.com";
  subscription = some subscription;
  created_at = pos 1;
}

abbrev joined : Registry
joined = (register alice new).1

abbrev entry : Entry
entry = record { slug = alice; channel = 0; generation = 0 }

joined-entry : get alice joined ≡ some entry
unfolding get select_one register new same cancel_entry delete
joined-entry = refl

joined-IsValid : IsValid joined
joined-IsValid = Reach-IsValid (next here (registers alice)) new-IsValid

few : joined.registrations < new.registrations + u64_mod
unfolding new register select_one
few = omega arith

unregister_superseded_example : is_connected alice (register alice joined).1 ≡ true
unregister_superseded_example =
    (unregister_superseded alice new joined entry here few joined-entry).1

abbrev route_row : TunnelRoute
route_row = record {
  slug = alice;
  node_addr = "b:1";
  network_id = "n1";
  tenant_id = "t1";
  last_seen = pos 5;
}

abbrev node : Node
node = record { registry = joined; routes = route_row ∷ [] }

not_joined : is_connected alice new ≡ false
unfolding is_connected exists new
not_joined = refl

row_found : find_by_slug alice (route_row ∷ []) ≡ some route_row
unfolding find_by_slug select_one same
row_found = refl

finish_moved_example :
    (route true "a:1" alice req (
      finish true "a:1" alice
        (record { channel = 0; generation = 0 })
        (record node { routes = upsert alice "b:1" "n1" "t1" (pos 6) node.routes }))).0
    ≡ remote "b:1"
finish_moved_example =
    (finish_moved true "a:1" "b:1" "n1" "t1" (pos 6) alice req node entry
      (record { channel = 0; generation = 0 }) joined-IsValid joined-entry refl refl).1

abbrev by_slug : TunnelRoutes → TunnelRoutes
by_slug rows = rows

abbrev unread : Answers
unread = record { network = λ r. none; tenant = λ r. none; written = λ r. true }

abbrev gone : Answers
gone = record { network = λ r. some none; tenant = λ r. some none; written = λ r. true }

listed : list_owned by_slug "b:1" node.routes ≡ route_row ∷ []
unfolding list_owned select
listed = refl

abort_reaper_tick_safe_example :
    get alice (abort_reaper_tick by_slug true unread "b:1" (pos 9) node).registry ≡ get alice joined
abort_reaper_tick_safe_example =
    (abort_reaper_tick_safe by_slug true unread "b:1" (pos 9) alice node
      (rw listed ((λ same. refl), tt))).0

abort_reaper_tick_complete_example :
    All
      (λ row.
        is_condemned gone row ≡ true
        → IsDown gone "b:1" (pos 9) row (abort_reaper_tick by_slug true gone "b:1" (pos 9) node))
      (list_owned by_slug "b:1" node.routes)
abort_reaper_tick_complete_example = abort_reaper_tick_complete by_slug gone "b:1" (pos 9) node

alice-valid : is_valid_name alice ≡ true
unfolding is_valid_name all_name_chars starts_with_hyphen ends_with_hyphen is_reserved contains same
alice-valid = refl

abbrev peer : SpiffeId
peer = record { trust_domain = "wardnet.io"; env = "prod"; scope = "us"; service = "tunneller" }

abbrev suffix : Str
suffix = codes ".my.wardnet.services"

extract_slug_iff_example :
    extract_slug (codes "jellyfin.alice.my.wardnet.services") suffix ≡ some alice
extract_slug_iff_example =
    (extract_slug_iff (codes "jellyfin.alice.my.wardnet.services") suffix alice).1
      (alice-valid, inr (codes "jellyfin", refl))

parse_sni_never_panics_example : Ends (parse_sni (22 ∷ 3 ∷ 1 ∷ 0 ∷ 1 ∷ 1 ∷ []))
parse_sni_never_panics_example = parse_sni_never_panics (22 ∷ 3 ∷ 1 ∷ 0 ∷ 1 ∷ 1 ∷ [])

Reach-IsTimed_example : IsTimed (accept req (pos 5) true started)
Reach-IsTimed_example = Reach-IsTimed (turn start (request req (pos 5) true))
