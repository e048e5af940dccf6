-- ===== src/Prelude/Table/Statements.antt =====
-- The statements.
use wardnet_cloud.Prelude.{
  ℕ, ◌+◌, Bool, false, ◌||◌, List, [], ◌∷◌, Option, none, some, if◌then◌else◌,
}

module _ {ℓ} {Row : Type ℓ} where
  -- SELECT … WHERE test, all rows.
  unfoldable pub select : (Row → Bool) → List Row → List Row
  select test [] = []
  select test (r ∷ rs) = let rest = select test rs in if test r then r ∷ rest else rest

  -- SELECT … WHERE test, `fetch_optional`: the first row.
  unfoldable pub select_one : (Row → Bool) → List Row → Option Row
  select_one test [] = none
  select_one test (r ∷ rs) = if test r then some r else select_one test rs

  -- SELECT EXISTS.
  unfoldable pub exists : (Row → Bool) → List Row → Bool
  exists test [] = false
  exists test (r ∷ rs) = test r || exists test rs

  -- SELECT COUNT(*); also the rows affected by an UPDATE or a DELETE under the same test.
  unfoldable pub count : (Row → Bool) → List Row → ℕ
  count test [] = 0
  count test (r ∷ rs) = (if test r then 1 else 0) + count test rs

  -- UPDATE … SET change WHERE test.
  unfoldable pub update : (Row → Bool) → (Row → Row) → List Row → List Row
  update test change [] = []
  update test change (r ∷ rs) = (if test r then change r else r) ∷ update test change rs

  -- DELETE … WHERE test.
  unfoldable pub delete : (Row → Bool) → List Row → List Row
  delete test [] = []
  delete test (r ∷ rs) = let rest = delete test rs in if test r then rest else r ∷ rest
