-- ===== src/Billing/Webhook/Calls.antt =====
-- Reasoning about the calls of a task under any faults, and about a task whose calls all go well.
use wardnet_cloud.Prelude.{◌≡◌, refl, List, [], ◌∷◌}
use wardnet_cloud.Billing.Run.{
  Fault, fine, lost, unanswered, Outcome, ok, err, internal, Core, World, Run, and_then, ◌>>=◌,
  execute, read, write, pure, BillingError,
}

-- What the task answers and leaves satisfies `Q`.
abbrev pub Ends {ℓ κ} :
    {S : Type 0} {A : Type ℓ} → (Outcome A → Core S → Type κ) → Outcome A × World S → Type κ
Ends Q r = Q r.0 r.1.core

module _ {ℓ κ} {S : Type 0} {B : Type ℓ} (Q : Outcome B → Core S → Type κ) where
  pub after_execute {ι} :
      {A : Type ι} (act : Core S → A × Core S) (k : A → Run S B) (w : World S)
      → Q (err internal) w.core
      → Q (err internal) (act w.core).1
      → ((fs : List Fault)
          → Ends Q (k (act w.core).0 (record { core = (act w.core).1; faults = fs })))
      → Ends Q ((execute act >>= k) w)
  unfolding execute
  after_execute act k w before after go = split w.faults
    where
      split : (fs : List Fault) → Ends Q ((execute act >>= k) (record w { faults = fs }))
      split [] = go []
      split (fine ∷ fs) = go fs
      split (lost ∷ fs) = before
      split (unanswered ∷ fs) = after

  pub after_read {ι} :
      {A : Type ι} (f : Core S → A) (k : A → Run S B) (w : World S)
      → Q (err internal) w.core
      → ((fs : List Fault) → Ends Q (k (f w.core) (record w { faults = fs })))
      → Ends Q ((read f >>= k) w)
  after_read f k w before go = after_execute (λ c. (f c, c)) k w before before go

module _ {κ} {S : Type 0} (Q : Outcome (Unit {0}) → Core S → Type κ) where
  pub last_write :
      (f : Core S → Core S) (w : World S)
      → Q (err internal) w.core
      → Q (err internal) (f w.core)
      → Q (ok tt) (f w.core)
      → Ends Q (write f w)
  unfolding execute
  last_write f w before after done = split w.faults
    where
      split : (fs : List Fault) → Ends Q (write f (record w { faults = fs }))
      split [] = done
      split (fine ∷ fs) = done
      split (lost ∷ fs) = before
      split (unanswered ∷ fs) = after

-- A world in which every call goes well.
abbrev pub calm : {S : Type 0} → Core S → World S
calm c = record { core = c; faults = [] }

-- In such a world the task answers, and leaves such a world.
abbrev pub Answers : {S : Type 0} → Run S (Unit {0}) → Type 0
Answers {S = S} m = (c : Core S) → (c' : Core S) × (m (calm c) ≡ (ok tt, calm c'))

pub Answers-write : {S : Type 0} (f : Core S → Core S) → Answers (write f)
unfolding execute
Answers-write f c = (f c, refl)

pub Answers-pure : {S : Type 0} → Answers {S = S} (pure tt)
Answers-pure c = (c, refl)

pub Answers-read {ℓ} :
    {S : Type 0} {A : Type ℓ} (f : Core S → A) (k : A → Run S (Unit {0}))
    → ((a : A) → Answers (k a))
    → Answers (read f >>= k)
unfolding execute
Answers-read f k h c = h (f c) c

pub Answers-bind :
    {S : Type 0} (m : Run S (Unit {0})) (k : Unit {0} → Run S (Unit {0}))
    → Answers m
    → Answers (k tt)
    → Answers (m >>= k)
Answers-bind m k h g c = let (c', e) = h c in let (c'', e') = g c' in (c'', rw e e')

-- A first task whose end is known, and then another.
pub after_run {ℓ κ ι} :
    {S : Type 0} {B : Type ℓ} (R : Outcome (Unit {0}) → Core S → Type κ)
    (Q : Outcome B → Core S → Type ι) (m : Run S (Unit {0})) (k : Unit {0} → Run S B) (w : World S)
    → Ends R (m w)
    → ((e : BillingError) (c : Core S) → R (err e) c → Q (err e) c)
    → ((c : Core S) (fs : List Fault)
        → R (ok tt) c
        → Ends Q (k tt (record { core = c; faults = fs })))
    → Ends Q ((m >>= k) w)
after_run {S = S} R Q m k w h stop go = ends (m w).0 (m w).1 h
  where
    ends : (o : Outcome (Unit {0})) (w' : World S) → R o w'.core → Ends Q (and_then k o w')
    ends (ok u) w' r = go w'.core w'.faults r
    ends (err e) w' r = stop e w'.core r
