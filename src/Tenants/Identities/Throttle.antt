-- ===== src/Tenants/Identities/Throttle.antt =====
-- The throttle of password logins (`login_allowed` of crates/tenants/src/identities.rs).
use wardnet_cloud.Prelude.{
  ℕ, ◌+◌, ◌≤◌, String, ◌≡◌, refl, ◌∙◌, inl, inr, Bool, true, false, ◌&&◌, leb, List, [], ◌∷◌, ◌++◌,
  Option, none, some, arith, Bool-cases, str_eq, str_eq_refl, str_eq_iff, if◌then◌else◌,
}
use wardnet_cloud.Prelude.Int.{ℤ, ◌-ℤ◌, ltb_ℤ}
use wardnet_cloud.Prelude.Table.{
  select, select_one, select_one-update_self, select_one-update_other,
}
use wardnet_cloud.Tenants.Identities.Tasks.{Attempts}
use wardnet_cloud.Tenants.Identities.{
  login_attempts_per_ip, login_window_secs, in_window, from_ip, counted, login_allowed,
}

-- A login that is tried: where from, and when.
abbrev pub Try : Type 0
Try = String × ℤ

-- How many logins from an address are let in.
unfoldable pub let_in : String → List Try → List Attempts → ℕ
let_in ip [] rows = 0
let_in ip (t ∷ ts) rows =
    let rest = let_in ip ts (login_allowed t.0 t.1 rows).1 in
    (if str_eq t.0 ip && (login_allowed t.0 t.1 rows).0 then 1 else 0) + rest

-- All of them within the window that starts at a time.
unfoldable pub all_within : ℤ → List Try → Bool
all_within started [] = true
all_within started (t ∷ ts) = ltb_ℤ (t.1 -ℤ started) login_window_secs && all_within started ts

module _ {ℓ} {Row : Type ℓ} (p : Row → Bool) where
  select_one-select_kept :
      (q : Row → Bool) (rs : List Row) {r : Row}
      → select_one p rs ≡ some r
      → q r ≡ true
      → select_one p (select q rs) ≡ some r
  unfolding select_one select
  select_one-select_kept q [] found kept = cc
  select_one-select_kept q (x ∷ rs) {r} found kept = elim (Bool-cases (p x)) [
    | inl hit ↦ ground arith
    | inr miss ↦ ground (arith, select_one-select_kept q rs {r = r} (ground arith) kept)
  ]

  select_one-append_some :
      (rs ss : List Row) {r : Row} → select_one p rs ≡ some r → select_one p (rs ++ ss) ≡ some r
  unfolding select_one
  select_one-append_some [] ss found = cc
  select_one-append_some (x ∷ rs) ss {r} found = elim (Bool-cases (p x)) [
    | inl hit ↦ ground arith
    | inr miss ↦ ground (arith, select_one-append_some rs ss {r = r} (ground arith))
  ]

-- What a call leaves of the entry of an address.
record After (ip j : String) (a : Attempts) (r : Bool × List Attempts) : Type 0 where
  pub entry : Attempts
  pub found : select_one (from_ip ip) r.1 ≡ some entry
  pub started : entry.started ≡ a.started
  pub counts : (if str_eq j ip && r.0 then 1 else 0) + a.attempts ≡ entry.attempts
  pub bounded : entry.attempts ≤ login_attempts_per_ip

unchanged :
    (ip j : String) (a : Attempts) (r : Bool × List Attempts)
    → select_one (from_ip ip) r.1 ≡ some a
    → (str_eq j ip && r.0) ≡ false
    → a.attempts ≤ login_attempts_per_ip
    → After ip j a r
unchanged ip j a r found not_let_in bounded = record {
  entry = a;
  found = found;
  started = refl;
  counts = rw not_let_in (omega arith);
  bounded = bounded;
}

counted_own :
    (ip : String) (now : ℤ) (a : Attempts) (kept : List Attempts)
    → select_one (from_ip ip) kept ≡ some a
    → a.attempts ≤ login_attempts_per_ip
    → After ip ip a (counted ip now kept (some a))
unfolding counted
counted_own ip now a kept found bounded = elim (Bool-cases (leb login_attempts_per_ip a.attempts)) [
  | inl full ↦ rw full (unchanged ip ip a (false, kept) found (ground arith) bounded)
  | inr spare ↦ rw spare (record {
    entry = record a { attempts = a.attempts + 1 };
    found =
        select_one-update_self (from_ip ip) (λ b. record b { attempts = b.attempts + 1 }) (λ r h. h)
          kept found;
    started = refl;
    counts = rw (str_eq_refl ip) (omega arith);
    bounded = ground (arith, spare);
  })
]

counted_other :
    (ip j : String) (now : ℤ) (a : Attempts) (kept : List Attempts) (o : Option Attempts)
    → str_eq j ip ≡ false
    → select_one (from_ip ip) kept ≡ some a
    → a.attempts ≤ login_attempts_per_ip
    → After ip j a (counted j now kept o)
unfolding counted
counted_other ip j now a kept none other found bounded =
    unchanged ip j a _ (select_one-append_some (from_ip ip) kept _ found) (ground arith) bounded
counted_other ip j now a kept (some b) other found bounded =
    elim (Bool-cases (leb login_attempts_per_ip b.attempts)) [
      | inl full ↦ rw full (unchanged ip j a (false, kept) found (ground arith) bounded)
      | inr spare ↦ rw spare (
          unchanged ip j a _
            (select_one-update_other (from_ip ip) (from_ip j)
                (λ b. record b { attempts = b.attempts + 1 })
                (λ r h. rw ((str_eq_iff r.remote_ip j).0 h) other)
                (λ r h. rw ((str_eq_iff r.remote_ip j).0 h) other) kept
              ∙ found)
            (ground arith) bounded)
    ]

login_allowed-After :
    (ip j : String) (now : ℤ) (a : Attempts) (rows : List Attempts)
    → select_one (from_ip ip) rows ≡ some a
    → in_window now a ≡ true
    → a.attempts ≤ login_attempts_per_ip
    → After ip j a (login_allowed j now rows)
unfolding login_allowed
login_allowed-After ip j now a rows found within bounded =
    let there = select_one-select_kept (from_ip ip) (in_window now) rows found within in
    elim (Bool-cases (str_eq j ip)) [
      | inl own ↦
          rw ((str_eq_iff j ip).0 own, there)
            (counted_own ip now a (select (in_window now) rows) there bounded)
      | inr other ↦
          counted_other ip j now a (select (in_window now) rows)
            (select_one (from_ip j) (select (in_window now) rows)) other there bounded
    ]

-- Once an address has an entry in the throttle, no more logins from it are let in within the window
-- that the entry started than the limit leaves to it, however they are mixed with logins from other
-- addresses.
pub let_in_bounded :
    (ip : String) (a : Attempts) (rows : List Attempts) (tries : List Try)
    → select_one (from_ip ip) rows ≡ some a
    → a.attempts ≤ login_attempts_per_ip
    → all_within a.started tries ≡ true
    → let_in ip tries rows + a.attempts ≤ login_attempts_per_ip
unfolding let_in all_within
let_in_bounded ip a rows [] found bounded within = omega (arith, bounded)
let_in_bounded ip a rows (t ∷ ts) found bounded within =
    let next = login_allowed-After ip t.0 t.1 a rows found (ground (arith, within)) bounded in
    let rest : let_in ip ts (login_allowed t.0 t.1 rows).1 + next.entry.attempts
        ≤ login_attempts_per_ip =
      let_in_bounded ip next.entry (login_allowed t.0 t.1 rows).1 ts next.found next.bounded
        (rw next.started (ground (arith, within))) in
    omega (arith, rest, next.counts)
