-- ===== src/Billing/Ports.antt =====
-- crates/common/src/ports.rs: `SubscriptionReader` and `SubscriptionCommands`, the ports through
-- which billing drives the license aggregate, and what an implementation promises of them.
-- The commands take the fresh row id and the clock that the implementation reads.
use wardnet_cloud.Prelude.{String, ◌≡◌, ◌≢◌, Bool, Option, none, some}
use wardnet_cloud.Contract.License.{
  Time, SubscriptionStatus, canceled, past_due, Entitlement, SubscriptionView,
}
use mathlib.Core.Option

pub record SubscriptionPorts : Type 1 where
  pub State : Type 0
  pub current : String → State → Option SubscriptionView
  pub convert_trial_to_paid :
      String → String → SubscriptionStatus → Entitlement → Option Time → Time → State → State
  pub update_paid :
      String → SubscriptionStatus → Entitlement → Option Time → Time → State → Bool × State
  pub mark_past_due : String → Time → State → Bool × State
  pub cancel : String → Time → State → State

-- What billing sees of a license, and sets by its commands.
pub record Terms : Type 0 where
  pub status : SubscriptionStatus
  pub entitlement : Entitlement
  pub current_period_end : Option Time

abbrev pub terms : SubscriptionView → Terms
terms v = record {
  status = v.status;
  entitlement = v.entitlement;
  current_period_end = v.current_period_end;
}

-- The terms of the current license of a tenant.
abbrev pub terms_of : (P : SubscriptionPorts) → String → P.State → Option Terms
terms_of P t s = Option.map terms (P.current t s)

-- The terms of a license whose payment failed.
abbrev pub lapsed : Option Terms → Option Terms
lapsed none = none
lapsed (some m) = some (record m { status = past_due })

pub record PortLaws (P : SubscriptionPorts) : Type 0 where
  pub convert_self :
      (id t : String) (status : SubscriptionStatus) (e : Entitlement) (end : Option Time)
      (now : Time) (s : P.State)
      → status ≢ canceled
      → terms_of P t (P.convert_trial_to_paid id t status e end now s)
        ≡ some (record { status = status; entitlement = e; current_period_end = end })
  pub convert_other :
      (id t u : String) (status : SubscriptionStatus) (e : Entitlement) (end : Option Time)
      (now : Time) (s : P.State)
      → status ≢ canceled
      → u ≢ t
      → P.current u (P.convert_trial_to_paid id t status e end now s) ≡ P.current u s
  pub update_self :
      (t : String) (status : SubscriptionStatus) (e : Entitlement) (end : Option Time) (now : Time)
      (s : P.State)
      → status ≢ canceled
      → terms_of P t (P.update_paid t status e end now s).1
        ≡ Option.map
            (λ (m : Terms). record { status = status; entitlement = e; current_period_end = end })
            (terms_of P t s)
  pub update_other :
      (t u : String) (status : SubscriptionStatus) (e : Entitlement) (end : Option Time)
      (now : Time) (s : P.State)
      → u ≢ t
      → P.current u (P.update_paid t status e end now s).1 ≡ P.current u s
  pub past_due_self :
      (t : String) (now : Time) (s : P.State)
      → terms_of P t (P.mark_past_due t now s).1 ≡ lapsed (terms_of P t s)
  pub past_due_other :
      (t u : String) (now : Time) (s : P.State)
      → u ≢ t
      → P.current u (P.mark_past_due t now s).1 ≡ P.current u s
  pub cancel_self : (t : String) (now : Time) (s : P.State) → P.current t (P.cancel t now s) ≡ none
  pub cancel_other :
      (t u : String) (now : Time) (s : P.State)
      → u ≢ t
      → P.current u (P.cancel t now s) ≡ P.current u s
