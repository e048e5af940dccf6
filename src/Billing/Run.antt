-- ===== src/Billing/Run.antt =====
-- The tasks of the billing service.
-- A call of a repository, of a port or of the provider may fail: its fault says whether it was
-- carried out, and whether an answer came back. The faults still to come are part of the world, and
-- where none is listed the calls go well. A failed call is an `internal` error.
use wardnet_cloud.Prelude.{ℕ, String, List, [], ◌∷◌, Option}
use wardnet_cloud.Prelude.Int.{ℤ}
use wardnet_cloud.Billing.Repository.{Customers}

pub data Fault : Type 0 where
  -- Carried out and answered; not carried out; carried out, and the answer was lost.
  fine lost unanswered : Fault

pub data BillingError : Type 0 where
  invalid_request : String → BillingError
  promo_unavailable : ℤ → String → BillingError
  stale internal : BillingError

pub data Outcome {ℓ} (A : Type ℓ) : Type ℓ where
  ok : A → Outcome A
  err : BillingError → Outcome A

-- What billing keeps, beside the license aggregate behind its port: the two tables, how often the
-- catalog worker was woken, and the cards that the provider was asked to make the default.
pub record Core (S : Type 0) : Type 0 where
  pub customers : Customers
  pub processed : List String
  pub license : S
  pub resyncs : ℕ
  pub promoted : List (String × Option String × String)

pub record World (S : Type 0) : Type 0 where
  pub core : Core S
  pub faults : List Fault

abbrev pub Run {ℓ} : Type 0 → Type ℓ → Type ℓ
Run S A = World S → Outcome A × World S

module _ {ℓ κ} {S : Type 0} {A : Type ℓ} {B : Type κ} where
  abbrev pub and_then : (A → Run S B) → Outcome A → Run S B
  and_then f (ok a) w = f a w
  and_then f (err e) w = (err e, w)

  infixl 5 ◌>>=◌
  abbrev pub ◌>>=◌ : Run S A → (A → Run S B) → Run S B
  m >>= f = λ w. and_then f (m w).0 (m w).1

infixl 5 ◌>>◌
abbrev pub ◌>>◌ {ℓ} : {S : Type 0} {B : Type ℓ} → Run S (Unit {0}) → Run S B → Run S B
m >> k = m >>= λ _. k

abbrev pub pure {ℓ} : {S : Type 0} {A : Type ℓ} → A → Run S A
pure a w = (ok a, w)

abbrev pub fail {ℓ} : {S : Type 0} {A : Type ℓ} → BillingError → Run S A
fail e w = (err e, w)

-- A call that does `act` to what is kept, under the fault given.
abbrev pub under {ℓ} :
    {S : Type 0} {A : Type ℓ} → Fault → (Core S → A × Core S) → List Fault → Run S A
under fine act rest w = (ok (act w.core).0, record { core = (act w.core).1; faults = rest })
under lost act rest w = (err internal, record w { faults = rest })
under unanswered act rest w = (err internal, record { core = (act w.core).1; faults = rest })

next : List Fault → Fault
next [] = fine
next (f ∷ fs) = f

later : List Fault → List Fault
later [] = []
later (f ∷ fs) = fs

unfoldable pub execute {ℓ} : {S : Type 0} {A : Type ℓ} → (Core S → A × Core S) → Run S A
unfolding next later
execute act w = under (next w.faults) act (later w.faults) w

abbrev pub read {ℓ} : {S : Type 0} {A : Type ℓ} → (Core S → A) → Run S A
read f = execute (λ c. (f c, c))

abbrev pub write : {S : Type 0} → (Core S → Core S) → Run S (Unit {0})
write f = execute (λ c. (tt, f c))
