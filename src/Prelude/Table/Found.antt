-- ===== src/Prelude/Table/Found.antt =====
-- Which row a SELECT finds.
use wardnet_cloud.Prelude.{
  ◌≤◌, ◌<◌, ◌≡◌, refl, Bool, true, false, ◌&&◌, List, [], ◌∷◌, ◌++◌, none, some, arith, All, subst,
  Bool-cases, inl, inr,
}
use wardnet_cloud.Prelude.Table.Statements.{select_one, exists, count, update, delete}
use wardnet_cloud.Prelude.Table.Counts.{exists-false_mono, count-delete-le}

module _ {ℓ} {Row : Type ℓ} (p : Row → Bool) where
  -- A row is found exactly where one exists.
  pub select_one-exists : (rs : List Row) → exists p rs ≡ false → select_one p rs ≡ none
  unfolding exists select_one
  select_one-exists [] e = refl
  select_one-exists (r ∷ rs) e = ground (arith, select_one-exists rs)

  pub exists-select_one : (rs : List Row) → select_one p rs ≡ none → exists p rs ≡ false
  unfolding exists select_one
  exists-select_one [] e = refl
  exists-select_one (r ∷ rs) e = ground (arith, exists-select_one rs)

  pub select_one-test : (rs : List Row) {r : Row} → select_one p rs ≡ some r → p r ≡ true
  unfolding select_one
  select_one-test [] e = cc
  select_one-test (r ∷ rs) e = elim (Bool-cases (p r)) [
    | inl hit ↦ ground arith
    | inr miss ↦ select_one-test rs (ground arith)
  ]

  pub select_one-append :
      (rs ss : List Row) → exists p rs ≡ false → select_one p (rs ++ ss) ≡ select_one p ss
  unfolding exists select_one
  select_one-append [] ss e = refl
  select_one-append (r ∷ rs) ss e = ground (arith, select_one-append rs ss)

  pub count-exists_true : (rs : List Row) → exists p rs ≡ true → 0 < count p rs
  unfolding exists count
  count-exists_true [] e = cc
  count-exists_true (r ∷ rs) e = ground (arith, count-exists_true rs)

  pub exists_of_count : (rs : List Row) → 0 < count p rs → exists p rs ≡ true
  unfolding exists count
  exists_of_count [] e = absurd (omega arith)
  exists_of_count (r ∷ rs) e = ground (arith, exists_of_count rs)

  -- No row satisfies the test of a DELETE that has run, nor of an UPDATE that falsifies it.
  pub exists-delete_self : (rs : List Row) → exists p (delete p rs) ≡ false
  unfolding exists delete
  exists-delete_self [] = refl
  exists-delete_self (r ∷ rs) = ground (arith, exists-delete_self rs)

  pub exists-update_self :
      (change : Row → Row)
      → ((r : Row) → p (change r) ≡ false)
      → (rs : List Row) → exists p (update p change rs) ≡ false
  unfolding exists update
  exists-update_self change h [] = refl
  exists-update_self change h (r ∷ rs) = ground (arith, h r, exists-update_self change h rs)

  -- A statement whose test and change leave the rows of `p` alone does not change what is found.
  pub select_one-update_other :
      (test : Row → Bool) (change : Row → Row)
      → ((r : Row) → test r ≡ true → p r ≡ false)
      → ((r : Row) → test r ≡ true → p (change r) ≡ false)
      → (rs : List Row) → select_one p (update test change rs) ≡ select_one p rs
  unfolding select_one update
  select_one-update_other test change h k [] = refl
  select_one-update_other test change h k (r ∷ rs) =
      ground (arith, h r, k r, select_one-update_other test change h k rs)

  pub select_one-delete_other :
      (test : Row → Bool)
      → ((r : Row) → test r ≡ true → p r ≡ false)
      → (rs : List Row) → select_one p (delete test rs) ≡ select_one p rs
  unfolding select_one delete
  select_one-delete_other test h [] = refl
  select_one-delete_other test h (r ∷ rs) = ground (arith, h r, select_one-delete_other test h rs)

  -- An UPDATE of the rows of `p` that stay rows of `p` changes the row found.
  pub select_one-update_self :
      (change : Row → Row)
      → ((r : Row) → p r ≡ true → p (change r) ≡ true)
      → (rs : List Row) {r : Row} → select_one p rs ≡ some r
      → select_one p (update p change rs) ≡ some (change r)
  unfolding select_one update
  select_one-update_self change h [] {r} e = cc
  select_one-update_self change h (s ∷ rs) {r} e = elim (Bool-cases (p s)) [
    | inl hit ↦ ground (arith, h s)
    | inr miss ↦ ground (arith, select_one-update_self change h rs {r = r} (ground arith))
  ]

-- A row that is found and is the only one of its kind has what every row of the kind has.
pub exists_unique {ℓ} :
    {Row : Type ℓ} (p q : Row → Bool) (rs : List Row) (r : Row)
    → select_one p rs ≡ some r
    → count p rs ≤ 1
    → q r ≡ false
    → exists (λ x. p x && q x) rs ≡ false
unfolding select_one count exists
exists_unique p q [] r e one miss = refl
exists_unique p q (x ∷ rs) r e one miss = elim (Bool-cases (p x)) [
  | inl hit ↦
      ground (arith, exists-false_mono (λ y. p y && q y) p (λ y h. ground arith) rs (no_more hit))
  | inr other ↦ ground (arith, exists_unique p q rs r (ground arith) (ground arith) miss)
]
  where
    no_more : p x ≡ true → exists p rs ≡ false
    no_more hit = elim (Bool-cases (exists p rs)) [
      | inl more ↦ absurd (ground (arith, count-exists_true p rs more))
      | inr none_there ↦ none_there
    ]

pub exists-found {ℓ} :
    {Row : Type ℓ} (p q : Row → Bool) (rs : List Row) (r : Row)
    → select_one p rs ≡ some r
    → q r ≡ true
    → exists q rs ≡ true
unfolding select_one exists
exists-found p q [] r e hit = cc
exists-found p q (x ∷ rs) r e hit = elim (Bool-cases (p x)) [
  | inl found ↦ ground arith
  | inr other ↦ ground (arith, exists-found p q rs r (ground arith) hit)
]

pub All-delete {ℓ κ} :
    {Row : Type ℓ} (P : Row → Type κ) (test : Row → Bool) (rs : List Row)
    → All P rs
    → All P (delete test rs)
unfolding delete
All-delete P test [] h = tt
All-delete P test (r ∷ rs) h = elim (Bool-cases (test r)) [
  | inl hit ↦ rw hit (All-delete P test rs h.1)
  | inr miss ↦ rw miss (h.0, All-delete P test rs h.1)
]

pub All-select_one {ℓ κ} :
    {Row : Type ℓ} (P : Row → Type κ) (p : Row → Bool) (rs : List Row) (r : Row)
    → All P rs
    → select_one p rs ≡ some r
    → P r
unfolding select_one
All-select_one P p [] r h e = cc
All-select_one P p (x ∷ rs) r h e = elim (Bool-cases (p x)) [
  | inl hit ↦ let found : x ≡ r = ground arith in subst P found h.0
  | inr miss ↦ All-select_one P p rs r h.1 (rw (miss, select_one) at e)
]

-- Deleting the only row of a kind leaves none.
pub exists-delete_unique {ℓ} :
    {Row : Type ℓ} (p test : Row → Bool) (rs : List Row) (r : Row)
    → select_one p rs ≡ some r
    → count p rs ≤ 1
    → test r ≡ true
    → exists p (delete test rs) ≡ false
unfolding select_one count exists delete
exists-delete_unique p test [] r e one hit = refl
exists-delete_unique p test (x ∷ rs) r e one hit = elim (Bool-cases (p x)) [
  | inl found ↦ ground (arith, none_left found)
  | inr other ↦ ground (arith, exists-delete_unique p test rs r (ground arith) (ground arith) hit)
]
  where
    none_left : p x ≡ true → exists p (delete test rs) ≡ false
    none_left found = elim (Bool-cases (exists p (delete test rs))) [
      | inl more ↦
          absurd
            (ground (arith, count-exists_true p (delete test rs) more, count-delete-le p test rs))
      | inr gone ↦ gone
    ]
