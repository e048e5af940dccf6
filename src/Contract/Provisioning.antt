-- ===== src/Contract/Provisioning.antt =====
-- crates/common/src/contract.rs, `ProvisioningState` with its database text, and `NetworkView`.
use wardnet_cloud.Prelude.{
  String, ◌≡◌, ◌↔◌, Option, none, some, arith, if◌then◌else◌, str_eq, str_eq_iff,
}
use wardnet_cloud.Prelude.Text.{Str}
use wardnet_cloud.Contract.License.{Time}

pub data ProvisioningState : Type 0 where
  provisioning active deprovisioning : ProvisioningState

pub ProvisioningState-discrete : Discrete ProvisioningState
ProvisioningState-discrete = hlevel

unfoldable pub as_str : ProvisioningState → String
as_str provisioning = "provisioning"
as_str active = "active"
as_str deprovisioning = "deprovisioning"

-- `none` stands for the error of an unrecognized value.
unfoldable pub from_db : String → Option ProvisioningState
from_db s =
    if str_eq s "provisioning"
    then some provisioning
    else if str_eq s "active"
    then some active
    else if str_eq s "deprovisioning"
    then some deprovisioning
    else none

pub record NetworkView : Type 0 where
  pub id : String
  pub tenant_id : String
  pub slug : Str
  pub display_name : String
  pub region : String
  pub provisioning_state : ProvisioningState
  pub created_at : Time
  pub updated_at : Time

-- The text that a state is stored as is read back as that state, and no other text is read at all:
-- `from_db` accepts exactly the texts that `as_str` writes.
from_db-as_str : (s : String) (p : ProvisioningState) → (from_db s ≡ some p) ↔ (s ≡ as_str p)
unfolding from_db as_str
from_db-as_str s p = (read s p, written s p)
  where
    read : (s : String) (p : ProvisioningState) → from_db s ≡ some p → s ≡ as_str p
    read s provisioning e =
        ground
          (arith, str_eq_iff s "provisioning", str_eq_iff s "active", str_eq_iff s "deprovisioning")
    read s active e =
        ground
          (arith, str_eq_iff s "provisioning", str_eq_iff s "active", str_eq_iff s "deprovisioning")
    read s deprovisioning e =
        ground
          (arith, str_eq_iff s "provisioning", str_eq_iff s "active", str_eq_iff s "deprovisioning")

    written : (s : String) (p : ProvisioningState) → s ≡ as_str p → from_db s ≡ some p
    written s provisioning e = rw e
    written s active e = rw e
    written s deprovisioning e = rw e
