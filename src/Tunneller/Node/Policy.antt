-- ===== src/Tunneller/Node/Policy.antt =====
-- Which tunnels may stand: the admission of a daemon against the decision of the abort reaper.
use wardnet_cloud.Prelude.{
  String, ◌≡◌, ◌≢◌, ◌↔◌, refl, false, Option, none, some, arith, inl, inr, Option-cases,
}
use wardnet_cloud.Contract.License.{canceled, SubscriptionView, TenantView}
use wardnet_cloud.Contract.Provisioning.{deprovisioning, NetworkView}
use wardnet_cloud.Tunneller.Node.{should_abort, admit, admitted}

-- A network that is there and not being torn down, of a tenant that is there and has a current
-- subscription that is not canceled.
pub record IsServed (network : Option NetworkView) (tenant : Option TenantView) : Type 0 where
  pub n : NetworkView
  pub t : TenantView
  pub s : SubscriptionView
  pub network_there : network ≡ some n
  pub tenant_there : tenant ≡ some t
  pub subscribed : t.subscription ≡ some s
  pub standing : n.provisioning_state ≢ deprovisioning
  pub live : s.status ≢ canceled

should_abort_sound :
    (network : Option NetworkView) (tenant : Option TenantView)
    → should_abort network tenant ≡ false
    → IsServed network tenant
unfolding should_abort
should_abort_sound none tenant e = cc
should_abort_sound (some n) none e = absurd (ground arith)
should_abort_sound (some n) (some t) e = elim (Option-cases t.subscription) [
  | inl missing ↦ absurd (ground arith)
  | inr (s, there) ↦ record {
    n = n;
    t = t;
    s = s;
    network_there = refl;
    tenant_there = refl;
    subscribed = there;
    standing = ground arith;
    live = ground arith;
  }
]

should_abort_complete :
    (network : Option NetworkView) (tenant : Option TenantView)
    → IsServed network tenant
    → should_abort network tenant ≡ false
unfolding should_abort
should_abort_complete none tenant v = absurd (let e = v.network_there in cc)
should_abort_complete (some n) none v = absurd (let e = v.tenant_there in cc)
should_abort_complete (some n) (some t) v =
    let same_n : n ≡ v.n = let e = v.network_there in cc in
    let same_t : t ≡ v.t = let e = v.tenant_there in cc in
    let sub = v.subscribed in
    let standing = v.standing in let live = v.live in rw (same_n, same_t) (ground arith)

-- The abort reaper keeps a tunnel exactly if its network is there and not deprovisioning, and its
-- tenant is there with a current subscription that is not canceled.
should_abort_iff :
    (network : Option NetworkView) (tenant : Option TenantView)
    → (should_abort network tenant ≡ false) ↔ IsServed network tenant
should_abort_iff network tenant =
    (should_abort_sound network tenant, should_abort_complete network tenant)

-- A daemon's tunnel is admitted exactly if the network and its tenant could be read and the abort
-- reaper, asked about what was read, would keep the tunnel: neither is stricter than the other.
admit-should_abort :
    (network : Option (Option NetworkView)) (get_tenant : String → Option (Option TenantView))
    (n : NetworkView)
    → ((admit network get_tenant ≡ admitted n)
        → (network ≡ some (some n))
          × ((t : Option TenantView) × (get_tenant n.tenant_id ≡ some t)
              × (should_abort (some n) t ≡ false)))
      × ((t : Option TenantView)
          → network ≡ some (some n)
          → get_tenant n.tenant_id ≡ some t
          → should_abort (some n) t ≡ false
          → admit network get_tenant ≡ admitted n)
unfolding admit should_abort
admit-should_abort network get_tenant n = (admitted_case network, kept_case)
  where
    admitted_case :
        (network : Option (Option NetworkView))
        → admit network get_tenant ≡ admitted n
        → (network ≡ some (some n))
          × ((t : Option TenantView) × (get_tenant n.tenant_id ≡ some t)
              × (should_abort (some n) t ≡ false))
    admitted_case none e = cc
    admitted_case (some none) e = cc
    admitted_case (some (some m)) e = elim (Option-cases (get_tenant m.tenant_id)) [
      | inl unread ↦ absurd (ground arith)
      | inr (none, read) ↦ absurd (ground arith)
      | inr (some t, read) ↦
          let same : m ≡ n = ground arith in
          (ground arith, (some t, rw (← same) read, ground arith))
    ]

    kept_case :
        (t : Option TenantView)
        → network ≡ some (some n)
        → get_tenant n.tenant_id ≡ some t
        → should_abort (some n) t ≡ false
        → admit network get_tenant ≡ admitted n
    kept_case none e read keep = absurd (ground arith)
    kept_case (some t) e read keep = rw (e, admit, read) (ground arith)
