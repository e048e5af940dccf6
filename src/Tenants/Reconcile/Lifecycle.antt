-- ===== src/Tenants/Reconcile/Lifecycle.antt =====
-- The provisioning state of a network over the statements of all tasks.
use wardnet_cloud.Prelude.{
  ℕ, String, ◌≡◌, refl, ◌⊎◌, inl, inr, Bool, true, false, ◌&&◌, Option, none, some, arith,
  Bool-cases,
}
use mathlib.Core.Option
use wardnet_cloud.Prelude.Table.{
  select_one, exists-found, select_one-test, exists, exists-append, exists-update_le,
  exists-delete_le, exists-select_le, exists-false_mono, update-none,
}
use wardnet_cloud.Contract.License.{Time}
use wardnet_cloud.Contract.Provisioning.{provisioning, active, deprovisioning}
use wardnet_cloud.Tenants.Repository.{
  Network, Daemon, Db, RegisterNetworkOutcome, network_at, slug_at, key_at, is_provisioning,
  in_service, with_state, limit_reached, insert_both, register_network, mark_active,
  delete_if_deprovisioning, set_deprovisioning, set_deprovisioning_for_tenant,
  delete_tombstoned_empty, find_network,
}
use wardnet_cloud.Tenants.Service.{conflict, not_found, err, State}
use wardnet_cloud.Tenants.Reconcile.{network_state, after_activate, to_active, transition_network}

abbrev serving : String → Network → Bool
serving id n = network_at id n && in_service n.provisioning_state

-- No row of the network is provisioning or active.
abbrev pub OutOfService : String → Db → Type 0
OutOfService id db = exists (serving id) db.networks ≡ false

-- The statements on the networks, by whatever tasks. A new network has another id.
pub data Step (id : String) : Db → Db → Type 0 where
  registers :
      (n : Network) (d : Daemon) (max_networks max_daemons : ℕ) (db : Db)
      → network_at id n ≡ false
      → Step id db (register_network n d max_networks max_daemons db).1
  activates : (i : String) (now : Time) (db : Db) → Step id db (mark_active i now db).1
  finishes : (i : String) (db : Db) → Step id db (delete_if_deprovisioning i db).1
  deprovisions : (i : String) (now : Time) (db : Db) → Step id db (set_deprovisioning i now db).1
  deprovisions_tenant :
      (t : String) (now : Time) (db : Db) → Step id db (set_deprovisioning_for_tenant t now db).1
  sweeps : (db : Db) → Step id db (delete_tombstoned_empty db).1

pub data Reach (id : String) (db : Db) : Db → Type 0 where
  here : Reach id db db
  next : {a b : Db} → Reach id db a → Step id a b → Reach id db b

inserted-OutOfService :
    (id : String) (n : Network) (d : Daemon) (db : Db)
    → network_at id n ≡ false
    → OutOfService id db
    → OutOfService id (insert_both n d db).1
unfolding insert_both
inserted-OutOfService id n d db other out =
    elim (Bool-cases (exists (slug_at n.slug) db.networks)) [
      | inl taken ↦ rw taken out
      | inr free ↦ elim (Bool-cases (exists (key_at d.public_key) db.daemons)) [
        | inl old ↦ rw (free, old) out
        | inr new ↦ rw (free, new) (rw (exists-append (serving id) db.networks n, out, other) refl)
      ]
    ]

registered-OutOfService :
    (id : String) (n : Network) (d : Daemon) (db : Db) (o : Option RegisterNetworkOutcome)
    → network_at id n ≡ false
    → OutOfService id db
    → OutOfService id
        (elim o as (λ x. RegisterNetworkOutcome × Db) [
          | some outcome ↦ (outcome, db)
          | none ↦ insert_both n d db
        ]).1
registered-OutOfService id n d db (some outcome) other out = out
registered-OutOfService id n d db none other out = inserted-OutOfService id n d db other out

Step-OutOfService : {id : String} {a b : Db} → Step id a b → OutOfService id a → OutOfService id b
unfolding register_network mark_active delete_if_deprovisioning set_deprovisioning
    set_deprovisioning_for_tenant delete_tombstoned_empty
Step-OutOfService {id} (registers n d max_networks max_daemons db other) out =
    registered-OutOfService id n d db (limit_reached n.tenant_id max_networks max_daemons db) other
      out
Step-OutOfService {id} (activates i now db) out =
    exists-update_le (serving id) _ (with_state active now) (λ r h k. ground arith) db.networks out
Step-OutOfService {id} (finishes i db) out = exists-delete_le (serving id) _ db.networks out
Step-OutOfService {id} (deprovisions i now db) out =
    exists-update_le (serving id) _ (with_state deprovisioning now) (λ r h k. ground arith)
      db.networks out
Step-OutOfService {id} (deprovisions_tenant t now db) out =
    exists-update_le (serving id) _ (with_state deprovisioning now) (λ r h k. ground arith)
      db.networks out
Step-OutOfService {id} (sweeps db) out = exists-select_le (serving id) _ db.networks out

Reach-OutOfService : {id : String} {a b : Db} → Reach id a b → OutOfService id a → OutOfService id b
Reach-OutOfService here out = out
Reach-OutOfService (next r s) out = Step-OutOfService s (Reach-OutOfService r out)

late_report-unchanged :
    (id : String) (now : Time) (db : Db) → OutOfService id db → mark_active id now db ≡ (false, db)
unfolding mark_active
late_report-unchanged id now db out =
    let test : Network → Bool = λ n. network_at id n && is_provisioning n.provisioning_state in
    let none_left = exists-false_mono test (serving id) (λ r h. ground arith) db.networks out in
    let same = update-none test (with_state active now) db.networks none_left in
    rw (none_left, same) refl

found-in_service :
    (id : String) (db : Db)
    → OutOfService id db
    → (n : Network) → select_one (network_at id) db.networks ≡ some n
    → in_service n.provisioning_state ≡ false
found-in_service id db out n found = elim (Bool-cases (in_service n.provisioning_state)) [
  | inl up ↦
      let here = select_one-test (network_at id) db.networks found in
      let both : serving id n ≡ true = ground (arith, here, up) in
      let there = exists-found (network_at id) (serving id) db.networks n found both in
      absurd (ground (arith, there, out))
  | inr down ↦ down
]

after_activate-refuses :
    (id : String) (db : Db) (found : Option Network)
    → ((n : Network) → found ≡ some n → in_service n.provisioning_state ≡ false)
    → (after_activate false (Option.map (λ (n : Network). n.provisioning_state) found)
        ≡ err not_found)
      ⊎ (after_activate false (Option.map (λ (n : Network). n.provisioning_state) found)
          ≡ err conflict)
unfolding after_activate
after_activate-refuses id db none down = inl refl
after_activate-refuses id db (some n) down =
    elim n.provisioning_state
        as (λ p.
          in_service p ≡ false
          → (after_activate false (some p) ≡ err not_found)
            ⊎ (after_activate false (some p) ≡ err conflict)) [
              | provisioning ↦ λ h. absurd (cc)
              | active ↦ λ h. absurd (cc)
              | deprovisioning ↦ λ h. inr refl
            ]
      (down n refl)

-- Once no row of a network is in service, because it is being torn down or is gone, it never comes
-- into service again, whatever statements run: a provisioner that reports it as active late is
-- refused, and its report changes nothing.
pub deprovisioning_final :
    {id : String} {a : Db}
    → OutOfService id a
    → (s : State) → Reach id a s.db
    → (now : Time)
    → OutOfService id s.db
      × (((transition_network now id to_active s).0 ≡ err not_found)
          ⊎ ((transition_network now id to_active s).0 ≡ err conflict))
      × ((transition_network now id to_active s).1 ≡ s)
unfolding transition_network network_state find_network
deprovisioning_final {id} out s reached now =
    let gone = Reach-OutOfService reached out in
    let same = late_report-unchanged id now s.db gone in
    let refused =
      after_activate-refuses id s.db (select_one (network_at id) s.db.networks)
        (found-in_service id s.db gone) in
    (gone, rw same refused, rw same refl)
