-- ===== src/Tenants/Identities/Tests.antt =====
-- The theorems on the sign-in of users at an account with two login methods and a session.
use wardnet_cloud.Tenants.Identities.{VerifiedIdentity}
use wardnet_cloud.Tenants.Identities.Link.{Rows, Linked, link_rounds, link_rounds-Linked}
use wardnet_cloud.Prelude.{ℕ, zero, suc}
use wardnet_cloud.Prelude.{
  ◌+◌, ◌≤◌, String, ◌≡◌, refl, true, false, List, [], ◌∷◌, none, some, arith,
}
use wardnet_cloud.Prelude.Int.{pos, ◌-ℤ◌}
use wardnet_cloud.Prelude.Text.{Str, same}
use wardnet_cloud.Prelude.Table.{select, exists, select_one}
use wardnet_cloud.Tenants.Repository.{Code, password_reset, find_by_email, find_tenant}
use wardnet_cloud.Tenants.Enrollment
use wardnet_cloud.Tenants.Service
use wardnet_cloud.Tenants.Identities.Repository.{
  TenantIdentity, find_by_provider_subject, unlink_guarded, session_of,
}
use wardnet_cloud.Tenants.Identities.Tasks.{Outcome, ok, Attempts, Web}
use wardnet_cloud.Tenants.Identities.{counted, login_allowed, logout_all}
use wardnet_cloud.Tenants.Identities.Flows.{reset_password, password_login}
use wardnet_cloud.Tenants.Identities.Flows.Reset.{reset_then_login}
use wardnet_cloud.Tenants.Identities.Logins.{HasLogin, Reach-HasLogin}
use wardnet_cloud.Tenants.Identities.Logins
use wardnet_cloud.Tenants.Identities.Sessions
use wardnet_cloud.Tenants.Identities.Throttle.{let_in, all_within, let_in_bounded}

abbrev email : Str
email = 97 ∷ 64 ∷ 98 ∷ []

abbrev login : String → Str → TenantIdentity
login provider subject = record {
  tenant_id = "t1";
  provider = provider;
  subject = subject;
  secret_hash = some "old";
  email = email;
  created_at = pos 1;
}

abbrev code : Code
code = record {
  code_hash = "h";
  email = email;
  tenant_id = none;
  purpose = password_reset;
  expires_at = pos 600;
  used_at = none;
}

abbrev web : Web
web = record {
  tenants = record {
    db = record {
      tenants =
          record { id = "t1"; email = email; created_at = pos 1; deregistered_at = none } ∷ [];
      networks = [];
      daemons = [];
      codes = code ∷ [];
      pending = [];
      code_log = [];
    };
    published = [];
    mailed = [];
  };
  identities = login "password" email ∷ login "github" (55 ∷ []) ∷ [];
  sessions =
      record { token_hash = "s"; tenant_id = "t1"; expires_at = pos 9000; created_at = pos 1 } ∷ [];
  login_attempts = [];
}

abbrev left : List TenantIdentity
left = (unlink_guarded "t1" "github" web.identities).1

Reach-HasLogin_example : HasLogin "t1" (unlink_guarded "t1" "password" left).1
unfolding exists
Reach-HasLogin_example =
    Reach-HasLogin "t1"
      (Logins.next (Logins.next Logins.here (Logins.unlinks "t1" "github" web.identities))
        (Logins.unlinks "t1" "password" left))
      refl

abbrev hash_token : Str → String
hash_token raw = "s"

abbrev signed_off : Web
signed_off = (logout_all "t1" web).1

abbrev new_password : Str
new_password = 1 ∷ 2 ∷ 3 ∷ 4 ∷ 5 ∷ 6 ∷ 7 ∷ 8 ∷ []

abbrev reset : Outcome (Unit {0}) × Web
reset =
    reset_password (λ e. Service.ok e) (λ e. true) (λ c. "h") hash_token (λ p. some "new")
      (λ h p. true) (pos 10) (7 ∷ []) new_password web

reset_then_login_example :
    (reset.0 ≡ ok tt)
    × (exists (session_of "t1") reset.1.sessions ≡ false)
    × ((password_login
          (λ e. Service.ok e)
          (λ e. true)
          (λ c. "h")
          hash_token
          (λ p. some "new")
          (λ h p. true)
          (9 ∷ [])
          (pos 30)
          email
          new_password
          "ip"
          reset.1).0
        ≡ ok (9 ∷ []))
unfolding login_allowed counted Enrollment.consume_code find_by_email find_tenant
    find_by_provider_subject Service.tenant_is_live select_one select same
reset_then_login_example =
    reset_then_login (λ e. Service.ok e) (λ e. true) (λ c. "h") hash_token (λ p. some "new")
      (λ h p. true) (pos 10) (7 ∷ []) new_password web email
      (record { id = "t1"; email = email; created_at = pos 1; deregistered_at = none }) "new" refl
      refl refl refl refl refl (9 ∷ []) (pos 30) "ip" true refl refl

abbrev entry : Attempts
entry = record { remote_ip = "ip"; started = pos 100; attempts = 9 }

let_in_bounded_example :
    let_in "ip" (("ip", pos 150) ∷ ("other", pos 160) ∷ ("ip", pos 170) ∷ []) (entry ∷ []) + 9 ≤ 10
unfolding all_within select_one ◌-ℤ◌
let_in_bounded_example =
    let_in_bounded "ip" entry (entry ∷ [])
      (("ip", pos 150) ∷ ("other", pos 160) ∷ ("ip", pos 170) ∷ []) refl (omega arith) refl

abbrev google : VerifiedIdentity
google = record { provider = "google"; subject = 53 ∷ []; email = email; email_verified = true }

-- In the first round, another task inserts the row in between.
abbrev meanwhile : ℕ → Rows → Rows
meanwhile zero rows = login "google" (53 ∷ []) ∷ rows
meanwhile (suc n) rows = rows

link_rounds-Linked_example :
    Linked
      (λ round rows. rows)
      meanwhile
      "t1"
      (pos 9)
      google
      email
      (link_rounds (λ round rows. rows) meanwhile "t1" (pos 9) google email 2 0 web.identities)
link_rounds-Linked_example =
    link_rounds-Linked (λ round rows. rows) meanwhile "t1" (pos 9) google email 1 (λ rows. refl) 2 0
      web.identities (omega arith) (omega arith)
