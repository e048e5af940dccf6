-- ===== src/Ddns/Repository.antt =====
-- crates/ddns/src/repository/operational.rs: the `operational` table.
-- A call takes the table and returns what it answers with the table changed; `now` is the time bound.
pub mod Claims
use wardnet_cloud.Prelude.{
  String, Bool, true, false, ◌&&◌, List, [], ◌∷◌, ◌++◌, Option, none, some, if◌then◌else◌, str_eq,
}
use wardnet_cloud.Prelude.Table
use wardnet_cloud.Contract.License.{Time}

pub record Operational : Type 0 where
  pub network_id : String
  pub ip : Option String
  pub fqdn : Option String
  pub cf_a_record_id : Option String
  pub cf_acme_record_ids : List String
  pub updated_at : Time

abbrev pub Operationals : Type 0
Operationals = List Operational

abbrev pub of_network : String → Operational → Bool
of_network network_id r = str_eq r.network_id network_id

abbrev pub is_null : Option String → Bool
is_null none = true
is_null (some s) = false

-- Equality of two TEXT[] values.
unfoldable pub same_ids : List String → List String → Bool
same_ids [] [] = true
same_ids (a ∷ s) (b ∷ t) = str_eq a b && same_ids s t
same_ids _ _ = false

unfoldable pub find_by_id : String → Operationals → Option Operational
find_by_id network_id rows = Table.select_one (of_network network_id) rows

-- The columns that a statement does not name keep their defaults, NULL and '{}'.
unfoldable pub record_ip : String → String → Time → Operationals → Operationals
record_ip network_id ip now rows =
    if Table.exists (of_network network_id) rows
    then Table.update (of_network network_id) (λ r. record r { ip = some ip; updated_at = now })
        rows
    else rows
      ++ record {
        network_id = network_id;
        ip = some ip;
        fqdn = none;
        cf_a_record_id = none;
        cf_acme_record_ids = [];
        updated_at = now;
      }
        ∷ []

abbrev pub unclaimed : String → Operational → Bool
unclaimed network_id r = of_network network_id r && is_null r.cf_a_record_id

unfoldable pub claim_a_record : String → String → String → Time → Operationals → Bool × Operationals
claim_a_record network_id fqdn record_id now rows = (
  Table.exists (unclaimed network_id) rows,
  Table.update (unclaimed network_id)
      (λ r. record r { fqdn = some fqdn; cf_a_record_id = some record_id; updated_at = now }) rows,
)

abbrev pub holds_acme : String → List String → Operational → Bool
holds_acme network_id ids r = of_network network_id r && same_ids r.cf_acme_record_ids ids

abbrev set_acme : String → List String → List String → Time → Operationals → Bool × Operationals
set_acme network_id expected new_ids now rows = (
  Table.exists (holds_acme network_id expected) rows,
  Table.update (holds_acme network_id expected)
      (λ r. record r { cf_acme_record_ids = new_ids; updated_at = now }) rows,
)

-- With nothing expected the statement is an upsert, which also makes a missing row.
unfoldable pub cas_acme_records :
    String → List String → List String → Time → Operationals → Bool × Operationals
cas_acme_records network_id [] new_ids now rows =
    if Table.exists (of_network network_id) rows then set_acme network_id [] new_ids now rows else (
      true,
      rows
          ++ record {
            network_id = network_id;
            ip = none;
            fqdn = none;
            cf_a_record_id = none;
            cf_acme_record_ids = new_ids;
            updated_at = now;
          }
            ∷ [],
    )
cas_acme_records network_id (id ∷ ids) new_ids now rows =
    set_acme network_id (id ∷ ids) new_ids now rows

unfoldable pub delete : String → Operationals → Operationals
delete network_id rows = Table.delete (of_network network_id) rows
