-- ===== src/Tenants/Identities/Flows/Reset.antt =====
-- What a password reset leaves: the account that signs in, and the sessions.
use wardnet_cloud.Prelude.{
  String, ◌≡◌, refl, ◌∙◌, inl, inr, Bool, true, false, List, [], ◌∷◌, ◌++◌, Option, none, some,
  Bool-cases, if◌then◌else◌,
}
use wardnet_cloud.Prelude.Text.{Str, same_refl}
use wardnet_cloud.Prelude.Table.{
  exists, select_one, update, delete, exists-delete_self, update-none, select_one-append,
  select_one-update_self, exists-select_one, select_one-test, exists-found,
}
use wardnet_cloud.Contract.License.{Time}
use wardnet_cloud.Event.{DomainEvent}
use wardnet_cloud.Tenants.Repository.{Tenant, password_reset, find_by_email, find_tenant}
use wardnet_cloud.Tenants.Enrollment
use wardnet_cloud.Tenants.Service
use wardnet_cloud.Tenants.Identities.Repository.{
  TenantIdentity, is_login, with_secret, find_by_provider_subject, insert, update_secret_hash,
  session_of, delete_sessions,
}
use wardnet_cloud.Tenants.Identities.Tasks.{ok, err, unauthorized, Web}
use wardnet_cloud.Tenants.Identities.{
  provider_password, check_password, new_identity, insert_password, after_insert, upsert_password,
  logout_all, login_allowed, throttle, create_session,
}
use wardnet_cloud.Tenants.Identities.Flows.{
  reset_password, reset_account, password_login, verified_by,
}

abbrev upserted : String → Str → String → Time → List TenantIdentity → List TenantIdentity
upserted t email hash now rows =
    if exists (is_login provider_password email) rows
    then update (is_login provider_password email) (with_secret hash) rows
    else rows ++ new_identity t provider_password email (some hash) email now ∷ []

upsert_password_lem :
    (t : String) (email : Str) (hash : String) (now : Time) (w : Web)
    → upsert_password t email hash now w
      ≡ (ok tt, record w { identities = upserted t email hash now w.identities })
unfolding upsert_password insert_password after_insert update_secret_hash insert
upsert_password_lem t email hash now w =
    elim (Bool-cases (exists (is_login provider_password email) w.identities)) [
      | inl there ↦ rw there refl
      | inr absent ↦
          let kept =
            update-none (is_login provider_password email) (with_secret hash) w.identities absent in
          rw (absent, kept, absent) refl
    ]

-- The account that the password of the email signs in to: that of the row there is.
abbrev pub holder : String → Option TenantIdentity → String
holder t none = t
holder t (some i) = i.tenant_id

upserted_found :
    (t : String) (email : Str) (hash : String) (now : Time) (rows : List TenantIdentity)
    (o : Option TenantIdentity)
    → select_one (is_login provider_password email) rows ≡ o
    → (j : TenantIdentity) × (select_one
          (is_login provider_password email)
          (upserted t email hash now rows)
        ≡ some j)
      × (j.secret_hash ≡ some hash)
      × (j.tenant_id ≡ holder t o)
unfolding select_one
upserted_found t email hash now rows (some i) e =
    let there =
      exists-found (is_login provider_password email) (is_login provider_password email) rows i e
        (select_one-test (is_login provider_password email) rows e) in
    (
      with_secret hash i,
      rw there (
          select_one-update_self (is_login provider_password email) (with_secret hash) (λ r h. h)
            rows e),
      refl,
      refl,
    )
upserted_found t email hash now rows none e =
    let absent = exists-select_one (is_login provider_password email) rows e in
    let new = new_identity t provider_password email (some hash) email now in
    (
      new,
      rw absent (
          select_one-append (is_login provider_password email) rows (new ∷ []) absent
          ∙ rw (same_refl email) refl),
      refl,
      refl,
    )

module _ (normalize : Str → Service.Outcome Str) (accepts : DomainEvent → Bool)
    (hash_code : Str → String) (hash_token : Str → String) (hash_password : Str → Option String)
    (verify_password : String → Str → Bool) where
  abbrev after_reset : Time → Str → Str → String → String → Web → Web
  after_reset now code email hash t w = record w {
    tenants = record w.tenants {
      db = (Enrollment.consume_code (hash_code code) password_reset now w.tenants.db).1;
    };
    identities = upserted t email hash now w.identities;
    sessions = (delete_sessions t w.sessions).1;
  }

  reset_password_lem :
      (now : Time) (code new_password : Str) (w : Web) (email : Str) (tenant : Tenant)
      (hash : String)
      → check_password new_password ≡ ok tt
      → (Enrollment.consume_code (hash_code code) password_reset now w.tenants.db).0 ≡ some email
      → normalize email ≡ Service.ok email
      → find_by_email email w.tenants.db ≡ some tenant
      → hash_password new_password ≡ some hash
      → reset_password normalize accepts hash_code hash_token hash_password verify_password now code
          new_password w
        ≡ (ok tt, after_reset now code email hash tenant.id w)
  unfolding reset_password reset_account logout_all find_by_email Enrollment.consume_code
      Service.consume_code Service.find_tenant_by_email update exists delete_sessions delete
      update_secret_hash
  reset_password_lem now code new_password w email tenant hash long burned normal found hashed =
      rw (long, burned, normal, found, hashed, upsert_password_lem tenant.id email hash now _) refl

  verified_by_hash :
      (password : Str) (hash : String) (i : TenantIdentity)
      → i.secret_hash ≡ some hash
      → verify_password hash password ≡ true
      → verified_by normalize accepts hash_code hash_token hash_password verify_password password i
        ≡ true
  verified_by_hash password hash i secret checks = rw (secret, checks) refl

  create_session-live :
      (raw : Str) (now : Time) (t : String) (w : Web) (b : Bool)
      → (Service.tenant_is_live t w.tenants).0 ≡ Service.ok b
      → (create_session hash_token raw now t w).0 ≡ (if b then ok raw else err unauthorized)
  unfolding create_session
  create_session-live raw now t w true live = rw live refl
  create_session-live raw now t w false live = rw live refl

  -- A password reset with a code that proves the email of an account, and with a password that can be
  -- hashed, is done and signs the account out everywhere. The new password then signs in, while the
  -- throttle lets it, to the account that the password row of the email belongs to, which is this
  -- account if there was no such row; where that account is closed, it is refused. (An account that is
  -- deregistered keeps its row until it is purged, although another account has its email.)
  pub reset_then_login :
      (now : Time) (code new_password : Str) (w : Web) (email : Str) (tenant : Tenant)
      (hash : String)
      → check_password new_password ≡ ok tt
      → (Enrollment.consume_code (hash_code code) password_reset now w.tenants.db).0 ≡ some email
      → normalize email ≡ Service.ok email
      → find_by_email email w.tenants.db ≡ some tenant
      → hash_password new_password ≡ some hash
      → verify_password hash new_password ≡ true
      → (raw : Str) (later : Time) (remote_ip : String) (b : Bool)
      → (login_allowed remote_ip later w.login_attempts).0 ≡ true
      → (Service.tenant_is_live
          (holder tenant.id (find_by_provider_subject provider_password email w.identities))
          w.tenants).0
        ≡ Service.ok b
      → let r =
          reset_password normalize accepts hash_code hash_token hash_password verify_password now
            code new_password w in
        (r.0 ≡ ok tt)
        × (exists (session_of tenant.id) r.1.sessions ≡ false)
        × ((password_login normalize accepts hash_code hash_token hash_password verify_password raw
              later email new_password remote_ip r.1).0
            ≡ (if b then ok raw else err unauthorized))
  unfolding password_login throttle create_session find_by_provider_subject Service.tenant_is_live
      find_tenant Enrollment.consume_code delete_sessions delete
  reset_then_login now code new_password w email tenant hash long burned normal found hashed checks
        raw later remote_ip b allowed live =
      let done =
        reset_password_lem now code new_password w email tenant hash long burned normal found
          hashed in
      let (j, there, secret, owner) = upserted_found tenant.id email hash now w.identities _ refl in
      (
        rw done refl,
        rw done (exists-delete_self (session_of tenant.id) w.sessions),
        rw done (
            rw (allowed, normal, there, verified_by_hash new_password hash j secret checks)
              (create_session-live raw later j.tenant_id _ b (rw owner live))),
      )
