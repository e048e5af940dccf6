-- ===== src/Tenants/Enrollment/Burned.antt =====
-- A one-time code works once.
use wardnet_cloud.Prelude.{
  ◌≤◌, String, ◌≡◌, refl, inl, inr, Bool, true, false, ◌&&◌, List, [], ◌∷◌, Option, none, some,
  arith, Bool-cases, str_eq, ◌||◌,
}
use wardnet_cloud.Prelude.Int.{ℤ}
use wardnet_cloud.Prelude.Text.{Str}
use wardnet_cloud.Prelude.Table.{
  exists, count, select_one, update, select_one-exists, exists-append, exists-update-false,
  exists-false_mono, count-exists_true, exists-found, select_one-test, exists-select_le,
}
use wardnet_cloud.Contract.License.{Time}
use wardnet_cloud.Tenants.Repository.{
  Code, CodePurpose, enrollment, Db, is_none, delete_tombstoned_empty,
}
use wardnet_cloud.Tenants.Enrollment.{
  usable, as_used, enrolled, bad_code, issue_code, resolve, with_code, finish, enroll, consume_code,
}
use mathlib.Core.Option

abbrev pub hashed : String → Code → Bool
hashed h c = str_eq c.code_hash h

-- A code of the hash that was not used.
abbrev pub unused : String → Code → Bool
unused h c = hashed h c && is_none c.used_at

-- No code of the hash is left to be used.
abbrev pub Spent : String → Db → Type 0
Spent h db = exists (unused h) db.codes ≡ false

Spent-burn :
    (h : String) (test : Code → Bool) (now : Time) (codes : List Code)
    → exists (unused h) codes ≡ false
    → exists (unused h) (update test (as_used now) codes) ≡ false
Spent-burn h test now codes spent =
    exists-update-false (unused h) test (as_used now) (λ r e. ground arith) codes spent

-- Burning the only code of the hash leaves none.
burned_once :
    (h : String) (test : Code → Bool) (now : Time) (codes : List Code) (c : Code)
    → ((r : Code) → test r ≡ true → hashed h r ≡ true)
    → select_one test codes ≡ some c
    → count (hashed h) codes ≤ 1
    → exists (unused h) (update test (as_used now) codes) ≡ false
unfolding select_one count exists update
burned_once h test now [] c only found one = cc
burned_once h test now (r ∷ rs) c only found one = elim (Bool-cases (test r)) [
  | inl hit ↦ rw hit (used r (Spent-burn h test now rs (none_left hit)))
  | inr miss ↦
      let rest = rw (miss, select_one) at found in
      rw miss
        (other (unhashed rest) (burned_once h test now rs c only rest (omega (arith, one_rest))))
]
  where
    one_rest : count (hashed h) rs ≤ 1
    one_rest = ground arith

    none_left : test r ≡ true → exists (unused h) rs ≡ false
    none_left hit =
        exists-false_mono (unused h) (hashed h) (λ x e. ground arith) rs
          (elim (Bool-cases (exists (hashed h) rs)) [
            | inl more ↦ absurd (ground (arith, only r hit, count-exists_true (hashed h) rs more))
            | inr gone ↦ gone
          ])

    used :
        (x : Code)
        → exists (unused h) (update test (as_used now) rs) ≡ false
        → (unused h (as_used now x) || exists (unused h) (update test (as_used now) rs)) ≡ false
    used x rest = ground arith

    unhashed : select_one test rs ≡ some c → hashed h r ≡ false
    unhashed rest = elim (Bool-cases (hashed h r)) [
      | inl own ↦ absurd (
          ground (
            arith,
            count-exists_true (hashed h) rs
                (exists-found test (hashed h) rs c rest (only c (select_one-test test rs rest))),
          ))
      | inr foreign ↦ foreign
    ]

    other :
        hashed h r ≡ false
        → exists (unused h) (update test (as_used now) rs) ≡ false
        → (unused h r || exists (unused h) (update test (as_used now) rs)) ≡ false
    other foreign rest = ground arith

-- The statements on the codes, by whatever tasks. A new code has another hash than the one followed.
pub data Step (h : String) : Db → Db → Type 0 where
  issue :
      (g : String) (email : Str) (tenant_id : Option String) (purpose : CodePurpose)
      (expires_at : Time) (db : Db)
      → str_eq g h ≡ false
      → Step h db (issue_code g email tenant_id purpose expires_at db)
  enrolls :
      (g : String) (key : Str) (id : String) (now : Time) (ttl : ℤ) (db : Db)
      → Step h db (enroll g key id now ttl db).1
  consumes :
      (g : String) (purpose : CodePurpose) (now : Time) (db : Db)
      → Step h db (consume_code g purpose now db).1
  sweeps : (db : Db) → Step h db (delete_tombstoned_empty db).1

pub data Reach (h : String) (db : Db) : Db → Type 0 where
  here : Reach h db db
  next : {a b : Db} → Reach h db a → Step h a b → Reach h db b

resolve-codes :
    (named : Option String) (email : Str) (id : String) (now : Time) (db : Db)
    → (resolve named email id now db).1.codes ≡ db.codes
unfolding resolve
resolve-codes (some t) email id now db = ground arith
resolve-codes none email id now db = ground arith

Spent-finish :
    (h : String) (key : Str) (now : Time) (ttl : ℤ) (old : Db) (o : Option (String × Bool))
    (db : Db)
    → Spent h old
    → Spent h db
    → Spent h (finish key now ttl old (o, db)).1
Spent-finish h key now ttl old none db was is = was
Spent-finish h key now ttl old (some (t, created)) db was is = is

Spent-with_code :
    (h : String) (key : Str) (id : String) (now : Time) (ttl : ℤ) (old : Db) (o : Option Code)
    (db : Db)
    → Spent h old
    → Spent h db
    → Spent h (with_code key id now ttl old (o, db)).1
Spent-with_code h key id now ttl old none db was is = was
Spent-with_code h key id now ttl old (some c) db was is =
    Spent-finish h key now ttl old (resolve c.tenant_id c.email id now db).0
      (resolve c.tenant_id c.email id now db).1 was
      (rw (resolve-codes c.tenant_id c.email id now db) is)

Step-Spent : {h : String} {a b : Db} → Step h a b → Spent h a → Spent h b
unfolding issue_code enroll consume_code delete_tombstoned_empty
Step-Spent {h} (issue g email tenant_id purpose expires_at db other) spent =
    rw (exists-append (unused h) db.codes _, spent, other) refl
Step-Spent {h} (enrolls g key id now ttl db) spent =
    Spent-with_code h key id now ttl db _ _ spent (Spent-burn h _ now db.codes spent)
Step-Spent {h} (consumes g purpose now db) spent = Spent-burn h _ now db.codes spent
Step-Spent {h} (sweeps db) spent = exists-select_le (unused h) _ db.codes spent

Reach-Spent : {h : String} {a b : Db} → Reach h a b → Spent h a → Spent h b
Reach-Spent here spent = spent
Reach-Spent (next r s) spent = Step-Spent s (Reach-Spent r spent)

usable-unused :
    (h : String) (purpose : CodePurpose) (now : Time) (c : Code)
    → usable h purpose now c ≡ true
    → unused h c ≡ true
usable-unused h purpose now c e = ground arith

-- A spent code is not found by any statement that would burn it.
Spent-select_one :
    (h : String) (db : Db) (test : Code → Bool)
    → ((c : Code) → test c ≡ true → unused h c ≡ true)
    → Spent h db
    → select_one test db.codes ≡ none
Spent-select_one h db test only spent =
    select_one-exists test db.codes (exists-false_mono test (unused h) only db.codes spent)

-- A statement that redeems the code of the hash.
pub data Redeems (h : String) : Db → Db → Type 0 where
  by_enroll :
      (key : Str) (id : String) (now : Time) (ttl : ℤ) (db : Db) (t : String) (created : Bool)
      → (enroll h key id now ttl db).0 ≡ enrolled t created
      → Redeems h db (enroll h key id now ttl db).1
  by_consume :
      (purpose : CodePurpose) (now : Time) (db : Db) (email : Str)
      → (consume_code h purpose now db).0 ≡ some email
      → Redeems h db (consume_code h purpose now db).1

enrolled_burns :
    (h : String) (key : Str) (id : String) (now : Time) (ttl : ℤ) (db db' : Db) (o : Option Code)
    (t : String) (created : Bool)
    → select_one (usable h enrollment now) db.codes ≡ o
    → count (hashed h) db.codes ≤ 1
    → (with_code key id now ttl db (o, db')).0 ≡ enrolled t created
    → exists (unused h) (update (usable h enrollment now) (as_used now) db.codes) ≡ false
enrolled_burns h key id now ttl db db' none t created found one e = cc
enrolled_burns h key id now ttl db db' (some c) t created found one e =
    burned_once h (usable h enrollment now) now db.codes c (λ r hit. ground arith) found one

finish-burned :
    (h : String) (key : Str) (now : Time) (ttl : ℤ) (old : Db) (o : Option (String × Bool))
    (db : Db) (t : String) (created : Bool)
    → (finish key now ttl old (o, db)).0 ≡ enrolled t created
    → Spent h db
    → Spent h (finish key now ttl old (o, db)).1
finish-burned h key now ttl old none db t created e spent = cc
finish-burned h key now ttl old (some (u, made)) db t created e spent = spent

-- What a web flow takes.
abbrev free_of : String → CodePurpose → Time → Code → Bool
free_of h purpose now c = usable h purpose now c && is_none c.tenant_id

consumed_burns :
    (h : String) (purpose : CodePurpose) (now : Time) (codes : List Code) (o : Option Code)
    (email : Str)
    → select_one (free_of h purpose now) codes ≡ o
    → count (hashed h) codes ≤ 1
    → Option.map (λ (c : Code). c.email) o ≡ some email
    → exists (unused h) (update (free_of h purpose now) (as_used now) codes) ≡ false
consumed_burns h purpose now codes none email found one e = cc
consumed_burns h purpose now codes (some c) email found one e =
    burned_once h (free_of h purpose now) now codes c (λ r hit. ground arith) found one

Redeems-Spent : {h : String} {a b : Db} → count (hashed h) a.codes ≤ 1 → Redeems h a b → Spent h b
unfolding enroll consume_code
Redeems-Spent {h} one (by_enroll key id now ttl db t created e) =
    let burned = enrolled_burns h key id now ttl db _ _ t created refl one e in
    finished (select_one (usable h enrollment now) db.codes) e burned
  where
    finished :
        (o : Option Code)
        → (with_code key id now ttl db
            (o, record db { codes = update (usable h enrollment now) (as_used now) db.codes })).0
          ≡ enrolled t created
        → exists (unused h) (update (usable h enrollment now) (as_used now) db.codes) ≡ false
        → Spent h
            (with_code key id now ttl db
              (o, record db { codes = update (usable h enrollment now) (as_used now) db.codes })).1
    finished none e burned = cc
    finished (some c) e burned =
        let db' = record db { codes = update (usable h enrollment now) (as_used now) db.codes } in
        finish-burned h key now ttl db (resolve c.tenant_id c.email id now db').0
          (resolve c.tenant_id c.email id now db').1 t created e
          (rw (resolve-codes c.tenant_id c.email id now db') burned)
Redeems-Spent {h} one (by_consume purpose now db email e) =
    consumed_burns h purpose now db.codes _ email refl one e

-- A code that was redeemed, by the enrollment of a daemon or by a web flow, is refused ever after,
-- for whatever purpose and at whatever time, whatever codes are issued and redeemed and whatever
-- tenants are swept in between; its hash is that of one code at most.
pub redeemed_once :
    {h : String} {a b c : Db}
    → count (hashed h) a.codes ≤ 1
    → Redeems h a b
    → Reach h b c
    → ((key : Str) (id : String) (now : Time) (ttl : ℤ) → enroll h key id now ttl c ≡ (bad_code, c))
      × ((purpose : CodePurpose) (now : Time) → (consume_code h purpose now c).0 ≡ none)
unfolding enroll consume_code
redeemed_once {h} {c = c} one redeemed reached =
    let spent = Reach-Spent reached (Redeems-Spent one redeemed) in
    (
      (λ key id now ttl.
          rw (Spent-select_one h c (usable h enrollment now) (usable-unused h enrollment now) spent)
            refl),
      (λ purpose now.
          rw (Spent-select_one h c (free_of h purpose now) (λ r e. ground arith) spent) refl),
    )
