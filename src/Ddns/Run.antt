-- ===== src/Ddns/Run.antt =====
-- The tasks of the DDNS service, against an environment.
-- The provider (crates/common/src/dns_provider.rs) and the other replicas are the environment: what
-- the provider answers, whether a statement succeeds, and what the others have written to the table
-- before it runs, may depend on everything that the service did so far. A statement or a call that
-- fails is an `internal` error; a failed statement changes nothing.
use wardnet_cloud.Prelude.{String, Bool, List, ◌∷◌, Option, none, some, if◌then◌else◌}
use wardnet_cloud.Contract.License.{Time}
use wardnet_cloud.Ddns.Repository.{Operationals}

-- What the service does to the world outside. `upsert_a` and `upsert_txt` with a record id update
-- that record in place, without one they create a record.
pub data Action : Type 0 where
  find_a : String → Action
  upsert_a : String → String → Option String → Action
  upsert_txt : String → String → Option String → Action
  delete_id : String → Action
  statement : Action

pub record World : Type 0 where
  pub rows : Operationals
  -- The newest action first.
  pub done : List Action

pub data DdnsError : Type 0 where
  conflict internal : DdnsError

pub data Outcome {ℓ} (A : Type ℓ) : Type ℓ where
  ok : A → Outcome A
  err : DdnsError → Outcome A

-- A task of the service that answers with an `A`.
abbrev pub Run {ℓ} : Type ℓ → Type ℓ
Run A = World → Outcome A × World

abbrev pub and_then {ℓ κ} : {A : Type ℓ} {B : Type κ} → (A → Run B) → Outcome A → Run B
and_then f (ok a) w = f a w
and_then f (err e) w = (err e, w)

infixl 5 ◌>>=◌ ◌>>◌
abbrev pub ◌>>=◌ {ℓ κ} : {A : Type ℓ} {B : Type κ} → Run A → (A → Run B) → Run B
m >>= f = λ w. and_then f (m w).0 (m w).1

abbrev pub ◌>>◌ {ℓ} : {B : Type ℓ} → Run (Unit {0}) → Run B → Run B
m >> k = m >>= λ _. k

abbrev pub pure {ℓ} : {A : Type ℓ} → A → Run A
pure a w = (ok a, w)

abbrev pub fail {ℓ} : {A : Type ℓ} → DdnsError → Run A
fail e w = (err e, w)

-- `if let Err(e) = …` that only logs.
abbrev pub best_effort {ℓ} : {A : Type ℓ} → Run A → Run (Unit {0})
best_effort m w = (ok tt, (m w).1)

pub record Env : Type 0 where
  pub others : List Action → Operationals → Operationals
  pub db_ok : List Action → Bool
  pub answer : List Action → Action → Option (Option String)
  pub now : List Action → Time

unfoldable pub or_internal {ℓ} : {A : Type ℓ} → Option A → Outcome A
or_internal none = err internal
or_internal (some a) = ok a

unfoldable pub required : Option String → Run String
required none = fail internal
required (some id) = pure id

module _ (env : Env) where
  unfoldable pub execute {ℓ} : {A : Type ℓ} → (Time → Operationals → A × Operationals) → Run A
  execute sql w =
      let rows = env.others w.done w.rows in
      let done = statement ∷ w.done in
      if env.db_ok w.done
      then (
        ok (sql (env.now w.done) rows).0,
        record { rows = (sql (env.now w.done) rows).1; done = done },
      )
      else (err internal, record { rows = rows; done = done })

  unfoldable pub call : Action → Run (Option String)
  unfolding or_internal
  call a w = (or_internal (env.answer w.done a), record w { done = a ∷ w.done })
