-- ===== src/Ddns/Repository/Claims.antt =====
-- The claim of a network's A record, and what leaves it alone.
use wardnet_cloud.Prelude.{
  String, ◌≡◌, refl, ap, ◌∙◌, Bool, true, false, List, [], ◌∷◌, ◌++◌, arith, Bool-cases, inl, inr,
  str_eq, str_eq_iff,
}
use wardnet_cloud.Prelude.Table.{
  exists, update, update-none, exists-append, exists-update_same, exists-update-false,
  exists-update_self, exists-implied,
}
use wardnet_cloud.Contract.License.{Time}
use wardnet_cloud.Ddns.Repository.{
  Operational, Operationals, of_network, unclaimed, holds_acme, set_acme, record_ip, claim_a_record,
  cas_acme_records,
}

-- The writes of any replica, but for the reaper's DELETE.
pub data Write : Operationals → Operationals → Type 0 where
  reports :
      {rows : Operationals}
      → (network_id ip : String) (now : Time) → Write rows (record_ip network_id ip now rows)
  claims :
      {rows : Operationals}
      → (network_id fqdn record_id : String) (now : Time)
      → Write rows (claim_a_record network_id fqdn record_id now rows).1
  sets_acme :
      {rows : Operationals}
      → (network_id : String) (expected new_ids : List String) (now : Time)
      → Write rows (cas_acme_records network_id expected new_ids now rows).1

pub data Writes (rows : Operationals) : Operationals → Type 0 where
  none_yet : Writes rows rows
  then_ : {s t : Operationals} → Writes rows s → Write s t → Writes rows t

-- The network has a row, and none of its rows is without an A record.
abbrev IsClaimed : String → Operationals → Type 0
IsClaimed n rows = (exists (of_network n) rows ≡ true) × (exists (unclaimed n) rows ≡ false)

-- An UPDATE that keeps a row's network and does not take its A record from it.
update-claimed :
    (n : String) (test : Operational → Bool) (change : Operational → Operational)
    → ((r : Operational) → of_network n (change r) ≡ of_network n r)
    → ((r : Operational) → unclaimed n r ≡ false → unclaimed n (change r) ≡ false)
    → (rows : Operationals) → IsClaimed n rows
    → IsClaimed n (update test change rows)
update-claimed n test change same keep rows c = (
  exists-update_same (of_network n) test change same rows ∙ c.0,
  exists-update-false (unclaimed n) test change keep rows c.1,
)

insert-claimed :
    (n : String) (r : Operational) (rows : Operationals)
    → unclaimed n r ≡ false
    → IsClaimed n rows
    → IsClaimed n (rows ++ r ∷ [])
insert-claimed n r rows new c = (
  ground (arith, c.0, exists-append (of_network n) rows r),
  ground (arith, c.1, new, exists-append (unclaimed n) rows r),
)

-- A row inserted because its network had none is of another network.
other_network :
    (n m : String) (rows : Operationals)
    → exists (of_network n) rows ≡ true
    → exists (of_network m) rows ≡ false
    → str_eq m n ≡ false
other_network n m rows there missing = elim (Bool-cases (str_eq m n)) [
  | inr other ↦ other
  | inl same ↦
      let e : m ≡ n = (str_eq_iff m n).0 same in
      absurd (ground (arith, there, missing, ap (λ x. exists (of_network x) rows) e))
]

set_acme-claimed :
    (n m : String) (expected new_ids : List String) (now : Time) (rows : Operationals)
    → IsClaimed n rows
    → IsClaimed n (set_acme m expected new_ids now rows).1
set_acme-claimed n m expected new_ids now rows c =
    update-claimed n (holds_acme m expected) _ (λ r. refl) (λ r e. e) rows c

record_ip-claimed :
    (n m ip : String) (now : Time) (rows : Operationals)
    → IsClaimed n rows
    → IsClaimed n (record_ip m ip now rows)
unfolding record_ip
record_ip-claimed n m ip now rows c = elim (Bool-cases (exists (of_network m) rows)) [
  | inl there ↦ rw there (update-claimed n (of_network m) _ (λ r. refl) (λ r e. e) rows c)
  | inr missing ↦
      rw missing (insert-claimed n _ rows (ground (arith, other_network n m rows c.0 missing)) c)
]

cas_acme_records-claimed :
    (n m : String) (expected new_ids : List String) (now : Time) (rows : Operationals)
    → IsClaimed n rows
    → IsClaimed n (cas_acme_records m expected new_ids now rows).1
unfolding cas_acme_records
cas_acme_records-claimed n m [] new_ids now rows c =
    elim (Bool-cases (exists (of_network m) rows)) [
      | inl there ↦ rw there (set_acme-claimed n m [] new_ids now rows c)
      | inr missing ↦
          rw missing
            (insert-claimed n _ rows (ground (arith, other_network n m rows c.0 missing)) c)
    ]
cas_acme_records-claimed n m (id ∷ ids) new_ids now rows c =
    set_acme-claimed n m (id ∷ ids) new_ids now rows c

Write-claimed : (n : String) {s t : Operationals} → Write s t → IsClaimed n s → IsClaimed n t
unfolding claim_a_record
Write-claimed n {s} (reports m ip now) c = record_ip-claimed n m ip now s c
Write-claimed n {s} (claims m fqdn record_id now) c =
    update-claimed n (unclaimed m) _ (λ r. refl) (λ r e. ground arith) s c
Write-claimed n {s} (sets_acme m expected new_ids now) c =
    cas_acme_records-claimed n m expected new_ids now s c

Writes-claimed : (n : String) {s t : Operationals} → Writes s t → IsClaimed n s → IsClaimed n t
Writes-claimed n none_yet c = c
Writes-claimed n (then_ ws w) c = Write-claimed n w (Writes-claimed n ws c)

claimed :
    (n fqdn record_id : String) (now : Time) (rows : Operationals)
    → (claim_a_record n fqdn record_id now rows).0 ≡ true
    → IsClaimed n (claim_a_record n fqdn record_id now rows).1
unfolding claim_a_record
claimed n fqdn record_id now rows won = (
  exists-update_same (of_network n) (unclaimed n) _ (λ r. refl) rows
      ∙ exists-implied (unclaimed n) (of_network n) (λ r e. ground arith) rows won,
  exists-update_self (unclaimed n) _ (λ r. ground arith) rows,
)

-- The claim of a network's A record is exclusive: once a replica has won it, every later claim of the
-- network loses and changes nothing, whatever IP reports, claims and ACME writes of any replica come
-- between, as long as the row is not deleted.
pub claim_exclusive :
    (n fqdn record_id fqdn' record_id' : String) (now later : Time) (rows rows' : Operationals)
    → (claim_a_record n fqdn record_id now rows).0 ≡ true
    → Writes (claim_a_record n fqdn record_id now rows).1 rows'
    → claim_a_record n fqdn' record_id' later rows' ≡ (false, rows')
unfolding claim_a_record
claim_exclusive n fqdn record_id fqdn' record_id' now later rows rows' won ws =
    let c = Writes-claimed n ws (claimed n fqdn record_id now rows won) in
    rw (c.1, update-none (unclaimed n) _ rows' c.1) refl
