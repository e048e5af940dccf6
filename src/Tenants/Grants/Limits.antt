-- ===== src/Tenants/Grants/Limits.antt =====
-- The registration of a network against the limits of the tenant's license.
use wardnet_cloud.Prelude.{
  ℕ, ◌+◌, ◌≤◌, ◌<◌, String, ◌≡◌, ◌≢◌, refl, inl, inr, Bool, true, false, [], ◌∷◌, ◌++◌, none, arith,
  Bool-cases, str_eq, str_eq_refl, str_eq_iff, ◌∙◌, sym, ◌||◌,
}
use wardnet_cloud.Prelude.Text.{same}
use wardnet_cloud.Prelude.Table.{exists, count, count-append, exists-append}
use wardnet_cloud.Tenants.Repository.{
  Network, Daemon, Db, RegisterNetworkOutcome, of_tenant, daemon_of, slug_at, key_at, limit_reached,
  insert_both,
}

abbrev pub networks_of : String → Db → ℕ
networks_of t db = count (of_tenant t) db.networks

abbrev pub daemons_of : String → Db → ℕ
daemons_of t db = count (daemon_of t) db.daemons

module _ (network : Network) (daemon : Daemon) (own : daemon.tenant_id ≡ network.tenant_id) where
  counts_one :
      (t : String) (db : Db)
      → str_eq network.tenant_id t ≡ true
      → (insert_both network daemon db).0 ≡ RegisterNetworkOutcome.created
      → (networks_of t (insert_both network daemon db).1 ≡ networks_of t db + 1)
        × (daemons_of t (insert_both network daemon db).1 ≡ daemons_of t db + 1)
  unfolding insert_both count
  counts_one t db e made = elim (Bool-cases (exists (slug_at network.slug) db.networks)) [
    | inl taken ↦ absurd (ground arith)
    | inr free ↦ elim (Bool-cases (exists (key_at daemon.public_key) db.daemons)) [
      | inl old ↦ absurd (ground arith)
      | inr new ↦
          rw (free, new)
            (
              ground (arith, count-append (of_tenant t) db.networks (network ∷ [])),
              ground (
                arith,
                count-append (daemon_of t) db.daemons
                    (record daemon { network_id = network.id } ∷ []),
              ),
            )
    ]
  ]

  made_when_free :
      (db : Db)
      → exists (slug_at network.slug) db.networks ≡ false
      → exists (key_at daemon.public_key) db.daemons ≡ false
      → ((insert_both network daemon db).0 ≡ RegisterNetworkOutcome.created)
        × ((insert_both network daemon db).1.networks ≡ db.networks ++ network ∷ [])
        × ((insert_both network daemon db).1.daemons
            ≡ db.daemons ++ record daemon { network_id = network.id } ∷ [])
  unfolding insert_both
  made_when_free db free new = rw (free, new) (refl, refl, refl)

below_limits :
    (t : String) (max_networks max_daemons : ℕ) (db : Db)
    → limit_reached t max_networks max_daemons db ≡ none
    → (networks_of t db < max_networks) × (daemons_of t db < max_daemons)
unfolding limit_reached
below_limits t max_networks max_daemons db h = ground arith

-- What a registration answers and leaves.
pub record Registers (network : Network) (daemon : Daemon) (max_networks max_daemons : ℕ) (db : Db)
    (r : RegisterNetworkOutcome × Db) : Type 0 where
  pub refused : r.0 ≢ RegisterNetworkOutcome.created → r.1 ≡ db
  pub within :
      r.0 ≡ RegisterNetworkOutcome.created
      → (networks_of network.tenant_id r.1 ≤ max_networks)
        × (daemons_of network.tenant_id r.1 ≤ max_daemons)
  pub one_more :
      r.0 ≡ RegisterNetworkOutcome.created
      → (networks_of network.tenant_id r.1 ≡ networks_of network.tenant_id db + 1)
        × (daemons_of network.tenant_id r.1 ≡ daemons_of network.tenant_id db + 1)
  pub unowned :
      r.0 ≡ RegisterNetworkOutcome.created
      → (exists (slug_at network.slug) db.networks ≡ false)
        × (exists (key_at daemon.public_key) db.daemons ≡ false)

-- Two transactions of a tenant, for two slugs and two keys, that both count before either inserts
-- are both made, and leave the tenant with one network more than its license allows.
pub registrations_exceed :
    (n m : Network) (d e : Daemon) (max_networks max_daemons : ℕ) (db : Db)
    → d.tenant_id ≡ n.tenant_id
    → e.tenant_id ≡ n.tenant_id
    → m.tenant_id ≡ n.tenant_id
    → same n.slug m.slug ≡ false
    → same d.public_key e.public_key ≡ false
    → exists (slug_at n.slug) db.networks ≡ false
    → exists (slug_at m.slug) db.networks ≡ false
    → exists (key_at d.public_key) db.daemons ≡ false
    → exists (key_at e.public_key) db.daemons ≡ false
    → limit_reached n.tenant_id max_networks max_daemons db ≡ none
    → networks_of n.tenant_id db + 1 ≡ max_networks
    → (networks_of n.tenant_id (insert_both m e (insert_both n d db).1).1 ≡ max_networks + 1)
      × (limit_reached n.tenant_id max_networks max_daemons (insert_both n d db).1 ≢ none)
registrations_exceed n m d e max_networks max_daemons db own own' tenant slugs keys free free' new
      new' below full =
    let t = n.tenant_id in
    let mid = (insert_both n d db).1 in
    let first = made_when_free n d own db free new in
    let one = counts_one n d own t db (str_eq_refl t) first.0 in
    let own'' : e.tenant_id ≡ m.tenant_id = own' ∙ sym tenant in
    let second =
      made_when_free m e own'' mid
        (rw first.1 (exists-append (slug_at m.slug) db.networks n ∙ neither free' slugs))
        (rw first.2 (
          exists-append (key_at e.public_key) db.daemons (record d { network_id = n.id })
          ∙ neither new' keys)) in
    let two = counts_one m e own'' t mid ((str_eq_iff m.tenant_id t).1 tenant) second.0 in
    (
      omega (arith, full, one.0, two.0),
      (λ spare.
          absurd
            (omega (arith, full, one.0, (below_limits t max_networks max_daemons mid spare).0))),
    )
  where
    neither : {a b : Bool} → a ≡ false → b ≡ false → (a || b) ≡ false
    neither {a} {b} h k = ground arith
