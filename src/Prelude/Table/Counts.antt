-- ===== src/Prelude/Table/Counts.antt =====
-- How many rows pass a test, before and after a statement.
use wardnet_cloud.Prelude.{
  ◌+◌, ◌≤◌, ◌≡◌, refl, Bool, true, false, ◌||◌, List, [], ◌∷◌, ◌++◌, arith, if◌then◌else◌,
}
use wardnet_cloud.Prelude.Table.Statements.{select, exists, count, update, delete}

module _ {ℓ} {Row : Type ℓ} (p q : Row → Bool) where
  pub count-exists :
      ((r : Row) → p r ≡ true → q r ≡ true) → (rs : List Row) → exists q rs ≡ false → count p rs ≡ 0
  unfolding exists count
  count-exists h [] e = refl
  count-exists h (r ∷ rs) e = ground (arith, h r, count-exists h rs)

  pub exists-false_mono :
      ((r : Row) → p r ≡ true → q r ≡ true)
      → (rs : List Row) → exists q rs ≡ false
      → exists p rs ≡ false
  unfolding exists
  exists-false_mono h [] e = refl
  exists-false_mono h (r ∷ rs) e = ground (arith, h r, exists-false_mono h rs)

  pub exists-implied :
      ((r : Row) → p r ≡ true → q r ≡ true)
      → (rs : List Row) → exists p rs ≡ true
      → exists q rs ≡ true
  unfolding exists
  exists-implied h [] e = absurd (ground arith)
  exists-implied h (r ∷ rs) e = ground (arith, h r, exists-implied h rs)

  -- A SELECT that takes every row of `p`.
  pub exists-select_of :
      ((r : Row) → p r ≡ true → q r ≡ true)
      → (rs : List Row) → exists p rs ≡ true
      → exists p (select q rs) ≡ true
  unfolding exists select
  exists-select_of h [] e = absurd (ground arith)
  exists-select_of h (r ∷ rs) e = ground (arith, h r, exists-select_of h rs)

  pub count-select-le : (rs : List Row) → count p (select q rs) ≤ count p rs
  unfolding count select
  count-select-le [] = omega arith
  count-select-le (r ∷ rs) = ground (arith, count-select-le rs)

  -- An UPDATE under which only rows of `q` can be rows of `p` afterwards.
  pub count-update-le :
      (test : Row → Bool) (change : Row → Row)
      → ((r : Row) → p (if test r then change r else r) ≡ true → q r ≡ true)
      → (rs : List Row) → count p (update test change rs) ≤ count q rs
  unfolding count update
  count-update-le test change h [] = omega arith
  count-update-le test change h (r ∷ rs) = ground (arith, h r, count-update-le test change h rs)

module _ {ℓ} {Row : Type ℓ} (p : Row → Bool) where
  pub count-append : (rs ss : List Row) → count p (rs ++ ss) ≡ count p rs + count p ss
  unfolding count
  count-append [] ss = omega arith
  count-append (r ∷ rs) ss = omega (arith, count-append rs ss)

  -- An UPDATE that affects no row changes nothing.
  pub update-none :
      (change : Row → Row) (rs : List Row) → exists p rs ≡ false → update p change rs ≡ rs
  unfolding exists update
  update-none change [] e = refl
  update-none change (r ∷ rs) e = ground (arith, update-none change rs)

  pub delete-none : (rs : List Row) → exists p rs ≡ false → delete p rs ≡ rs
  unfolding exists delete
  delete-none [] e = refl
  delete-none (r ∷ rs) e = ground (arith, delete-none rs)

  pub count-delete-le : (test : Row → Bool) (rs : List Row) → count p (delete test rs) ≤ count p rs
  unfolding count delete
  count-delete-le test [] = omega arith
  count-delete-le test (r ∷ rs) = ground (arith, count-delete-le test rs)

  pub exists-delete_le :
      (test : Row → Bool) (rs : List Row) → exists p rs ≡ false → exists p (delete test rs) ≡ false
  unfolding exists delete
  exists-delete_le test [] e = refl
  exists-delete_le test (r ∷ rs) e = ground (arith, exists-delete_le test rs)

  -- An UPDATE that does not change what a test says.
  pub exists-update_keeps :
      (test : Row → Bool) (change : Row → Row)
      → ((r : Row) → p (change r) ≡ p r)
      → (rs : List Row) → exists p rs ≡ false
      → exists p (update test change rs) ≡ false
  unfolding exists update
  exists-update_keeps test change h [] e = refl
  exists-update_keeps test change h (r ∷ rs) e =
      ground (arith, h r, exists-update_keeps test change h rs)

  -- An UPDATE under which only rows that passed the test before can pass it.
  pub exists-update_le :
      (test : Row → Bool) (change : Row → Row)
      → ((r : Row) → test r ≡ true → p (change r) ≡ true → p r ≡ true)
      → (rs : List Row) → exists p rs ≡ false
      → exists p (update test change rs) ≡ false
  unfolding exists update
  exists-update_le test change h [] e = refl
  exists-update_le test change h (r ∷ rs) e = ground (arith, h r, exists-update_le test change h rs)

  pub exists-select_le :
      (test : Row → Bool) (rs : List Row) → exists p rs ≡ false → exists p (select test rs) ≡ false
  unfolding exists select
  exists-select_le test [] e = refl
  exists-select_le test (r ∷ rs) e = ground (arith, exists-select_le test rs)

  pub exists-delete_of :
      (test : Row → Bool) (rs : List Row)
      → ((r : Row) → p r ≡ true → test r ≡ true)
      → exists p (delete test rs) ≡ false
  unfolding exists delete
  exists-delete_of test [] h = refl
  exists-delete_of test (r ∷ rs) h = ground (arith, h r, exists-delete_of test rs h)

  pub exists-append_self : (rs : List Row) (r : Row) → p r ≡ true → exists p (rs ++ r ∷ []) ≡ true
  unfolding exists
  exists-append_self [] r h = ground arith
  exists-append_self (s ∷ rs) r h = ground (arith, exists-append_self rs r h)

  -- An UPDATE that does not change what a test says, and one that makes no row pass it.
  pub exists-update_same :
      (test : Row → Bool) (change : Row → Row)
      → ((r : Row) → p (change r) ≡ p r)
      → (rs : List Row) → exists p (update test change rs) ≡ exists p rs
  unfolding exists update
  exists-update_same test change h [] = refl
  exists-update_same test change h (r ∷ rs) =
      ground (arith, h r, exists-update_same test change h rs)

  pub exists-update-false :
      (test : Row → Bool) (change : Row → Row)
      → ((r : Row) → p r ≡ false → p (change r) ≡ false)
      → (rs : List Row) → exists p rs ≡ false
      → exists p (update test change rs) ≡ false
  unfolding exists update
  exists-update-false test change h [] e = refl
  exists-update-false test change h (r ∷ rs) e =
      ground (arith, h r, exists-update-false test change h rs)

  pub exists-append : (rs : List Row) (r : Row) → exists p (rs ++ r ∷ []) ≡ (exists p rs || p r)
  unfolding exists
  exists-append [] r = ground arith
  exists-append (s ∷ rs) r = ground (arith, exists-append rs r)
