-- ===== src/Tenants/Enrollment.antt =====
-- crates/tenants/src/repository/enrollment.rs: the one-time codes, the pending bindings of keys to
-- tenants, and the log of the requests for codes. A code is found by the hash of its text; the hash
-- of a new code is new, since it is the key of its table.
pub mod Burned
use wardnet_cloud.Prelude.{
  ℕ, String, Bool, true, false, ◌&&◌, List, [], ◌∷◌, ◌++◌, Option, none, some, if◌then◌else◌,
  str_eq,
}
use wardnet_cloud.Prelude.Int.{ℤ, ◌+ℤ◌, ltb_ℤ}
use wardnet_cloud.Prelude.Text.{Str}
use wardnet_cloud.Prelude.Table.{select_one, exists, count, update}
use wardnet_cloud.Contract.License.{Time}
use wardnet_cloud.Tenants.Repository.{
  Tenant, CodePurpose, signup, password_reset, password_change, enrollment, Code, PendingEnrollment,
  CodeRequest, Db, is_none, tenant_at, live_email, pending_at,
}
use mathlib.Core.Option

unfoldable pub issue_code : String → Str → Option String → CodePurpose → Time → Db → Db
issue_code code_hash email tenant_id purpose expires_at db = record db {
  codes = db.codes ++ new ∷ [];
}
  where
    new : Code
    new = record {
      code_hash = code_hash;
      email = email;
      tenant_id = tenant_id;
      purpose = purpose;
      expires_at = expires_at;
      used_at = none;
    }

abbrev pub same_purpose : CodePurpose → CodePurpose → Bool
same_purpose signup signup = true
same_purpose password_reset password_reset = true
same_purpose password_change password_change = true
same_purpose enrollment enrollment = true
same_purpose _ _ = false

-- WHERE code_hash = $1 AND used_at IS NULL AND expires_at > now AND purpose = …
abbrev pub usable : String → CodePurpose → Time → Code → Bool
usable code_hash purpose now c =
    str_eq c.code_hash code_hash
    && (is_none c.used_at && (ltb_ℤ now c.expires_at && same_purpose c.purpose purpose))

abbrev pub as_used : Time → Code → Code
as_used now c = record c { used_at = some now }

-- UPDATE … SET used_at … RETURNING: the row found is the one that is burned, as the hash is a key.
abbrev pub burn : (Code → Bool) → Time → Db → Option Code × Db
burn test now db =
    (select_one test db.codes, record db { codes = update test (as_used now) db.codes })

pub data EnrollOutcome : Type 0 where
  enrolled : String → Bool → EnrollOutcome
  bad_code : EnrollOutcome

abbrev pub bind_key : Str → String → Time → Db → Db
bind_key public_key tenant_id expires_at db = record db {
  pending =
      if exists (pending_at public_key) db.pending
      then update (pending_at public_key)
          (λ p. record p { tenant_id = tenant_id; expires_at = expires_at }) db.pending
      else db.pending
        ++ record { public_key = public_key; tenant_id = tenant_id; expires_at = expires_at } ∷ [];
}

abbrev is_live : Option Tenant → Bool
is_live none = false
is_live (some t) = is_none t.deregistered_at

abbrev pub new_tenant : String → Str → Time → Tenant
new_tenant id email now = record {
  id = id;
  email = email;
  created_at = now;
  deregistered_at = none;
}

-- The tenant of a code: the one that it names, the live one of its email, or a new one. The database
-- is given as the burning of the code left it.
unfoldable pub resolve : Option String → Str → String → Time → Db → Option (String × Bool) × Db
resolve (some id) email new_id now db =
    if is_live (select_one (tenant_at id) db.tenants) then (some (id, false), db) else (none, db)
resolve none email new_id now db = elim (select_one (live_email email) db.tenants) [
  | none ↦
      (some (new_id, true), record db { tenants = db.tenants ++ new_tenant new_id email now ∷ [] })
  | some t ↦ (some (t.id, false), db)
]

-- `old` is the database to roll back to.
abbrev pub finish : Str → Time → ℤ → Db → Option (String × Bool) × Db → EnrollOutcome × Db
finish public_key now ttl old (none, db) = (bad_code, old)
finish public_key now ttl old (some (id, created), db) =
    (enrolled id created, bind_key public_key id (now +ℤ ttl) db)

abbrev pub with_code : Str → String → Time → ℤ → Db → Option Code × Db → EnrollOutcome × Db
with_code public_key new_id now ttl old (none, db) = (bad_code, old)
with_code public_key new_id now ttl old (some c, db) =
    finish public_key now ttl old (resolve c.tenant_id c.email new_id now db)

unfoldable pub enroll : String → Str → String → Time → ℤ → Db → EnrollOutcome × Db
unfolding resolve
enroll code_hash public_key new_tenant_id now pending_ttl_secs db =
    with_code public_key new_tenant_id now pending_ttl_secs db
      (burn (usable code_hash enrollment now) now db)

-- The web flows take codes that no tenant is named by.
unfoldable pub consume_code : String → CodePurpose → Time → Db → Option Str × Db
consume_code code_hash purpose now db =
    let (code, db') = burn (λ c. usable code_hash purpose now c && is_none c.tenant_id) now db in
    (Option.map (λ (c : Code). c.email) code, db')

unfoldable pub find_pending_tenant : Str → Time → Db → Option String
find_pending_tenant public_key now db =
    Option.map (λ (p : PendingEnrollment). p.tenant_id)
      (select_one (λ p. pending_at public_key p && ltb_ℤ now p.expires_at) db.pending)

unfoldable pub count_code_requests_from_ip : String → Time → Db → ℕ
count_code_requests_from_ip remote_ip since db =
    count (λ r. str_eq r.remote_ip remote_ip && ltb_ℤ since r.created_at) db.code_log

unfoldable pub log_code_request : String → Time → Db → Db
log_code_request remote_ip created_at db = record db {
  code_log = db.code_log ++ record { remote_ip = remote_ip; created_at = created_at } ∷ [];
}
