-- ===== src/Billing/Plans/Restore.antt =====
-- A plan change that fails does not drop the change that was pending.
use wardnet_cloud.Prelude.{◌≡◌, [], ◌∷◌, Option, none, some}
use wardnet_cloud.Billing.Types.{ScheduledChange}
use wardnet_cloud.Billing.Run.{Outcome, ok, err}
use wardnet_cloud.Billing.Plans.{
  answered, pending_scheduled_change, release_schedule, schedule_downgrade, Log, Run,
}
use wardnet_cloud.Billing.Plans.Change.{Change}

-- The change that was read as pending just before a schedule was released, if that was done.
abbrev pub pending_of : Log → Option ScheduledChange
pending_of (pending_scheduled_change schedule_id period_end (answered o) ∷ older) = o
pending_of _ = none

abbrev pub released_change : Log → Option ScheduledChange
released_change [] = none
released_change (release_schedule schedule_id (answered u) ∷ older) = pending_of older
released_change (_ ∷ older) = released_change older

-- The newest call asks the provider to schedule the change.
abbrev pub Reschedules : ScheduledChange → Log → Type 0
Reschedules p (schedule_downgrade sub current_price price period_end r ∷ older) = price ≡ p.price_id
Reschedules p _ = ⊥

-- What holds of a failure.
abbrev pub Failing : Log → Type 0
Failing log = (p : ScheduledChange) → released_change log ≡ some p → Reschedules p log

abbrev pub Keeps {ℓ} : {A : Type ℓ} → Outcome A × Log → Type 0
Keeps (ok a, log) = Unit
Keeps (err e, log) = Failing log

-- The task keeps what is pending, where no schedule was released before.
record KeepsRun {ℓ} {A : Type ℓ} (m : Run A) : Type ℓ where
  pub apply : (log : Log) → released_change log ≡ none → Keeps (m log)
