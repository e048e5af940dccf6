-- ===== src/Billing/Promos/Best.antt =====
-- Which promotion is applied to a plan.
use wardnet_cloud.Prelude.{◌≡◌, ◌⊎◌, true, List, [], ◌∷◌, Option, none, some, All}
use wardnet_cloud.Prelude.Int.{ℤ, ◌≤ℤ◌}
use wardnet_cloud.Contract.License.{Time}
use wardnet_cloud.Billing.Types.{CatalogPlan, CatalogPromo}
use wardnet_cloud.Billing.Promos.{promo_is_live, discounted_amount}

-- The element is one of the list.
abbrev pub Among : {A : Type 0} → A → List A → Type 0
Among a [] = ⊥
Among a (x ∷ xs) = (a ≡ x) ⊎ Among a xs

module _ {Percent : Type 0} (percent_of : Percent → ℤ → ℤ) where
  -- What is said of the promotion that is chosen for the plan, if one is.
  abbrev pub Chosen :
      CatalogPlan → List (CatalogPromo Percent) → Time → Option (CatalogPromo Percent) → Type 0
  Chosen plan promos now none = All (λ c. promo_is_live c plan now ≡ true → ⊥) promos
  Chosen plan promos now (some b) =
      (promo_is_live b plan now ≡ true)
      × Among b promos
      × All
          (λ c.
            promo_is_live c plan now ≡ true
            → discounted_amount percent_of plan.amount_cents plan.currency b
              ≤ℤ discounted_amount percent_of plan.amount_cents plan.currency c)
          promos
