-- ===== src/Tenants/Identities/Link.antt =====
-- `link_identity` of crates/tenants/src/identities.rs, for a login method that its provider has
-- verified. Other tasks write the table between its statements: `before_find` and `before_insert` of a
-- round are what they make of it. The loop is on fuel, whose end is `none`.
use wardnet_cloud.Prelude.{
  ℕ, zero, suc, ◌+◌, ◌≤◌, ◌<◌, String, ◌≡◌, ◌≢◌, refl, ◌∙◌, inl, inr, true, false, List, [], ◌∷◌,
  ◌++◌, Option, none, some, arith, Bool-cases, str_eq, str_eq_iff, str_eq_refl, if◌then◌else◌,
}
use wardnet_cloud.Prelude.Text.{Str, same_refl}
use wardnet_cloud.Prelude.Table.{exists, select_one, exists-select_one, select_one-append}
use wardnet_cloud.Contract.License.{Time}
use wardnet_cloud.Tenants.Service
use wardnet_cloud.Tenants.Identities.Repository.{
  TenantIdentity, InsertIdentityOutcome, already_exists, is_login, find_by_provider_subject, insert,
}
use wardnet_cloud.Tenants.Identities.Tasks.{
  Outcome, ok, err, conflict, unauthorized, internal, from_tenants,
}
use wardnet_cloud.Tenants.Identities.{VerifiedIdentity, new_identity}

abbrev pub Rows : Type 0
Rows = List TenantIdentity

module _ (before_find before_insert : ℕ → Rows → Rows) (tenant_id : String) (now : Time)
    (verified : VerifiedIdentity) (email : Str) where
  abbrev wanted : TenantIdentity
  wanted = new_identity tenant_id verified.provider verified.subject none email now

  abbrev owned : TenantIdentity → Outcome (Unit {0})
  owned existing = if str_eq existing.tenant_id tenant_id then ok tt else err conflict

  abbrev after_insert :
      InsertIdentityOutcome
      → Rows
      → Option (Outcome (Unit {0})) × Rows
      → Option (Outcome (Unit {0})) × Rows
  after_insert InsertIdentityOutcome.created rows again = (some (ok tt), rows)
  after_insert already_exists rows again = again

  abbrev after_find :
      Option TenantIdentity
      → Rows
      → Option (Outcome (Unit {0})) × Rows
      → Option (Outcome (Unit {0})) × Rows
  after_find (some existing) rows again = (some (owned existing), rows)
  after_find none rows again = again

  unfoldable pub link_rounds : ℕ → ℕ → Rows → Option (Outcome (Unit {0})) × Rows
  link_rounds zero round rows = (none, rows)
  link_rounds (suc fuel) round rows =
      let found_rows = before_find round rows in
      let rows' = before_insert round found_rows in
      let inserted = insert wanted rows' in
      let again = link_rounds fuel (round + 1) inserted.1 in
      after_find (find_by_provider_subject verified.provider verified.subject found_rows) found_rows
        (after_insert inserted.0 inserted.1 again)

  -- What an answer says of the row of the login method.
  pub record Linked (r : Option (Outcome (Unit {0})) × Rows) : Type 0 where
    pub answer : Outcome (Unit {0})
    pub answered : r.0 ≡ some answer
    pub row : TenantIdentity
    pub there : find_by_provider_subject verified.provider verified.subject r.1 ≡ some row
    pub own : answer ≡ ok tt → row.tenant_id ≡ tenant_id
    pub foreign : answer ≢ ok tt → row.tenant_id ≢ tenant_id

  -- No other task inserts or deletes the row of the login method before the insert of the round.
  abbrev pub Quiet : ℕ → Type 0
  Quiet round =
      (rows : Rows)
      → exists (is_login verified.provider verified.subject) (before_insert round rows)
        ≡ exists (is_login verified.provider verified.subject) rows

  found-Linked :
      (e : TenantIdentity) (rows : Rows)
      → find_by_provider_subject verified.provider verified.subject rows ≡ some e
      → Linked (some (owned e), rows)
  found-Linked e rows there = elim (Bool-cases (str_eq e.tenant_id tenant_id)) [
    | inl own ↦ record {
      answer = owned e;
      answered = refl;
      row = e;
      there = there;
      own = λ h. (str_eq_iff e.tenant_id tenant_id).0 own;
      foreign = λ h. absurd (h (rw own refl));
    }
    | inr other ↦ record {
      answer = owned e;
      answered = refl;
      row = e;
      there = there;
      own = λ h. absurd (ground (arith, rw other at h));
      foreign = λ h k. ground (arith, (str_eq_iff e.tenant_id tenant_id).1 k, other);
    }
  ]

  created-Linked :
      (rows : Rows)
      → exists (is_login verified.provider verified.subject) rows ≡ false
      → Linked (some (ok tt), rows ++ wanted ∷ [])
  unfolding find_by_provider_subject select_one
  created-Linked rows absent = record {
    answer = ok tt;
    answered = refl;
    row = wanted;
    there =
        select_one-append (is_login verified.provider verified.subject) rows (wanted ∷ []) absent
        ∙ rw (str_eq_refl verified.provider, same_refl verified.subject) refl;
    own = λ h. refl;
    foreign = λ h. absurd (h refl);
  }

  -- Linking a login method ends if in some round that the fuel allows no other task writes the row
  -- between the look-up and the insert, whatever they write otherwise. The row of the method is then
  -- there, the account's own if the answer is a success, and another account's if it is a refusal.
  pub link_rounds-Linked :
      (quiet : ℕ)
      → Quiet quiet
      → (fuel round : ℕ) (rows : Rows) → round ≤ quiet
      → quiet < round + fuel
      → Linked (link_rounds fuel round rows)
  unfolding link_rounds insert find_by_provider_subject
  link_rounds-Linked quiet calm zero round rows before within =
      absurd (omega (arith, before, within))
  link_rounds-Linked quiet calm (suc fuel) round rows before within =
      looked_up (find_by_provider_subject verified.provider verified.subject found_rows) refl
        (λ next.
          link_rounds-Linked quiet calm fuel (round + 1) (insert wanted rows').1 next
            (omega (arith, within)))
    where
      found_rows : Rows
      found_rows = before_find round rows

      rows' : Rows
      rows' = before_insert round found_rows

      again : Option (Outcome (Unit {0})) × Rows
      again = link_rounds fuel (round + 1) (insert wanted rows').1

      passed :
          select_one (is_login verified.provider verified.subject) found_rows ≡ none
          → exists (is_login verified.provider verified.subject) rows' ≡ true
          → round ≢ quiet
      passed missing taken e = ground (
        arith,
        rw e at taken,
        calm found_rows,
        exists-select_one (is_login verified.provider verified.subject) found_rows missing,
      )

      looked_up :
          (o : Option TenantIdentity)
          → find_by_provider_subject verified.provider verified.subject found_rows ≡ o
          → (round + 1 ≤ quiet → Linked again)
          → Linked (
              after_find o found_rows
                (after_insert (insert wanted rows').0 (insert wanted rows').1 again))
      looked_up (some e) there next = found-Linked e found_rows there
      looked_up none missing next =
          elim (Bool-cases (exists (is_login verified.provider verified.subject) rows')) [
            | inl taken ↦ rw taken (rw taken at next (omega (arith, before, passed missing taken)))
            | inr free ↦ rw free (created-Linked rows' free)
          ]

-- `exchanged` is the answer of the provider, which is a known one.
unfoldable pub link_identity :
    (Str → Service.Outcome Str)
    → (ℕ → Rows → Rows)
    → (ℕ → Rows → Rows)
    → String
    → Time
    → ℕ
    → Option VerifiedIdentity
    → Rows
    → Option (Outcome (Unit {0})) × Rows
unfolding link_rounds
link_identity normalize before_find before_insert tenant_id now fuel none rows =
    (some (err internal), rows)
link_identity normalize before_find before_insert tenant_id now fuel (some verified) rows =
    if verified.email_verified
    then elim (from_tenants (normalize verified.email)) [
      | err e ↦ (some (err e), rows)
      | ok email ↦ link_rounds before_find before_insert tenant_id now verified email fuel 0 rows
    ]
    else (some (err unauthorized), rows)
