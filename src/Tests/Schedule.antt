-- ===== src/Tests/Schedule.antt =====
-- A schedule of one run an hour.
use kube_rsync_machine.Common.{
  some, none, List, [], ◌∷◌, false, ℕ, ◌+◌, ◌*◌, ◌-◌, ◌≡◌, refl, true, none, arith,
}
use kube_rsync_machine.Controller.Clock.{Time}
use kube_rsync_machine.Controller.Schedule.{
  second, schedule_lookback, ScheduledMachine, last_due, lookback_start, next_due_schedule,
  create_scheduled_backup_job, schedule_due, reconcile_schedule,
}
use kube_rsync_machine.Controller.Schedule.Due.{IsFirstDue, first_schedule_lem}
use kube_rsync_machine.Controller.Schedule.Ticks.{Tick, after_ticks}
use Prim.Native.Nat.{max}

abbrev hour : ℕ
hour = 3600 * second

abbrev hourly : Time → Time
hourly t = t + hour

abbrev created : Time
created = 1000 * hour

abbrev machine : ScheduledMachine
machine = record { last_scheduled_at = none; creation_timestamp = created }

abbrev now : Time
now = 1002 * hour

-- The second of the two that are due.
starts : next_due_schedule hourly machine now ≡ (1002 * hour - second, true)
unfolding next_due_schedule last_due lookback_start
starts = refl

first_schedule_lem_example :
    IsFirstDue hourly now (max created (now - schedule_lookback) - second) (
      next_due_schedule hourly
        (record { last_scheduled_at = none; creation_timestamp = created })
        now)
first_schedule_lem_example = first_schedule_lem hourly (λ t. ground arith) created now

-- Two calls, of which the first may not update the status.
abbrev ticks : List Tick
ticks =
    record { now = now; creates = true; updates = false }
    ∷ record { now = now; creates = true; updates = true }
    ∷ []

-- The job is created once, and then recorded.
created_once :
    after_ticks hourly created ticks (record { last_scheduled_at = some created; jobs = [] })
    ≡ record { last_scheduled_at = some (created + hour); jobs = (created + hour) ∷ [] }
unfolding reconcile_schedule create_scheduled_backup_job schedule_due next_due_schedule
created_once = refl
