-- ===== src/Tenants/Identities/Logins.antt =====
-- The login methods of an account over the statements of all tasks.
use wardnet_cloud.Prelude.{
  ◌≤◌, ◌<◌, String, ◌≡◌, refl, ◌∙◌, sym, inl, inr, Bool, true, false, ◌==◌, List, [], ◌∷◌, arith,
  Bool-cases, str_eq, str_eq_iff,
}
use wardnet_cloud.Prelude.Text.{Str}
use wardnet_cloud.Prelude.Table.{exists, count, delete, exists-append, exists-update_same}
use wardnet_cloud.Tenants.Identities.Repository.{
  TenantIdentity, insert, update_secret_hash, with_secret, unlink_guarded, login_of, login_by,
  is_login,
}

abbrev pub HasLogin : String → List TenantIdentity → Type 0
HasLogin t rows = exists (login_of t) rows ≡ true

-- The statements on the login methods of accounts that stay, by whatever tasks.
pub data Step : List TenantIdentity → List TenantIdentity → Type 0 where
  inserts : (i : TenantIdentity) (rows : List TenantIdentity) → Step rows (insert i rows).1
  sets_secret :
      (provider : String) (subject : Str) (hash : String) (rows : List TenantIdentity)
      → Step rows (update_secret_hash provider subject hash rows).1
  unlinks :
      (t provider : String) (rows : List TenantIdentity)
      → Step rows (unlink_guarded t provider rows).1

pub data Reach (rows : List TenantIdentity) : List TenantIdentity → Type 0 where
  here : Reach rows rows
  next : {a b : List TenantIdentity} → Reach rows a → Step a b → Reach rows b

module _ {ℓ} {Row : Type ℓ} (p q : Row → Bool) where
  count_within : ((r : Row) → q r ≡ true → p r ≡ true) → (rs : List Row) → count q rs ≤ count p rs
  unfolding count
  count_within h [] = omega arith
  count_within h (r ∷ rs) = ground (arith, h r, count_within h rs)

  -- A DELETE of some, but not of all, of the rows of `p`.
  exists-delete_some :
      ((r : Row) → q r ≡ true → p r ≡ true)
      → (rs : List Row) → count q rs < count p rs
      → exists p (delete q rs) ≡ true
  unfolding count exists delete
  exists-delete_some h [] more = absurd (omega (arith, more))
  exists-delete_some h (r ∷ rs) more = ground (arith, h r, exists-delete_some h rs)

  exists-delete_spared :
      ((r : Row) → p r ≡ true → q r ≡ false)
      → (rs : List Row) → exists p rs ≡ true
      → exists p (delete q rs) ≡ true
  unfolding exists delete
  exists-delete_spared h [] there = absurd (ground arith)
  exists-delete_spared h (r ∷ rs) there = ground (arith, h r, exists-delete_spared h rs)

str_eq_apart : (a u t : String) → str_eq u t ≡ false → str_eq a t ≡ true → str_eq a u ≡ false
str_eq_apart a u t apart own = elim (Bool-cases (str_eq a u)) [
  | inl also ↦ absurd (ground (arith, rw ((str_eq_iff a u).0 also) at own, apart))
  | inr not_also ↦ not_also
]

HasLogin-insert :
    (t : String) (i : TenantIdentity) (rows : List TenantIdentity)
    → HasLogin t rows
    → HasLogin t (insert i rows).1
unfolding insert
HasLogin-insert t i rows has = elim (Bool-cases (exists (is_login i.provider i.subject) rows)) [
  | inl taken ↦ rw taken has
  | inr free ↦ rw free (rw (exists-append (login_of t) rows i, has) refl)
]

HasLogin-unlink_guarded :
    (t u provider : String) (rows : List TenantIdentity)
    → HasLogin t rows
    → HasLogin t (unlink_guarded u provider rows).1
unfolding unlink_guarded
HasLogin-unlink_guarded t u provider rows has =
    elim (Bool-cases (count (login_by u provider) rows == 0)) [
      | inl none_there ↦ rw none_there has
      | inr some_there ↦
          elim (Bool-cases (count (login_of u) rows == count (login_by u provider) rows)) [
            | inl all ↦ rw (some_there, all) has
            | inr others ↦ rw (some_there, others) (spared others)
          ]
    ]
  where
    spared :
        (count (login_of u) rows == count (login_by u provider) rows) ≡ false
        → HasLogin t (delete (login_by u provider) rows)
    spared others = elim (Bool-cases (str_eq u t)) [
      | inl own ↦
          let same_one = (str_eq_iff u t).0 own in
          let fewer = count_within (login_of u) (login_by u provider) (λ r e. ground arith) rows in
          let more : count (login_by u provider) rows < count (login_of u) rows =
            ground (arith, fewer, others) in
          rw (sym same_one)
            (exists-delete_some (login_of u) (login_by u provider) (λ r e. ground arith) rows more)
      | inr foreign ↦
          exists-delete_spared (login_of t) (login_by u provider)
            (λ r e. ground (arith, str_eq_apart r.tenant_id u t foreign e)) rows has
    ]

Step-HasLogin : (t : String) {a b : List TenantIdentity} → Step a b → HasLogin t a → HasLogin t b
unfolding update_secret_hash
Step-HasLogin t (inserts i rows) has = HasLogin-insert t i rows has
Step-HasLogin t (sets_secret provider subject hash rows) has =
    exists-update_same (login_of t) (is_login provider subject) (with_secret hash) (λ r. refl) rows
    ∙ has
Step-HasLogin t (unlinks u provider rows) has = HasLogin-unlink_guarded t u provider rows has

-- An account with a login method keeps one, however many of them are linked and unlinked, in whatever
-- order and by whatever requests, until its tenant is deregistered.
pub Reach-HasLogin :
    (t : String) {a b : List TenantIdentity} → Reach a b → HasLogin t a → HasLogin t b
Reach-HasLogin t here has = has
Reach-HasLogin t (next r s) has = Step-HasLogin t s (Reach-HasLogin t r has)
