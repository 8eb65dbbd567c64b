-- ===== src/Controller/Schedule.antt =====
-- internal/controller/reconcilers.go: when a machine's schedule starts a run: `nextDueSchedule`,
-- `requeueAfter`, `createScheduledBackupJob` and `reconcileSchedule`. The reader of schedules and the
-- Kubernetes client are parameters. Times and durations are in nanoseconds; `now` is more than a
-- day after the zero time, so that no subtraction stops at 0.
pub mod Due
pub mod Ticks
pub mod CatchUp
use kube_rsync_machine.Common.{
  ℕ, ◌+◌, ◌-◌, ◌*◌, Bool, true, false, not, ◌||◌, Option, none, some, Result, ok, err,
  if◌then◌else◌, ltb, leb, ◌==◌, suc, zero,
}
use kube_rsync_machine.Common.Steps.{Steps, return_value, fail, either, ◌>>=◌}
use kube_rsync_machine.Controller.Clock.{Time}
use kube_rsync_machine.Controller.Guard.{ApiError, not_found, already_exists, conflict, other_error}

abbrev pub second : ℕ
second = 1000000000

abbrev pub owned_resource_reconcile_after : ℕ
owned_resource_reconcile_after = 600 * second

abbrev pub schedule_lookback : ℕ
schedule_lookback = 86400 * second

abbrev pub max_rounds : ℕ
max_rounds = 10000

-- What the schedule needs of an `RsyncMachine`.
pub record ScheduledMachine : Type 0 where
  pub last_scheduled_at : Option Time
  pub creation_timestamp : Time

-- The loop: the latest activation that is not after `now`.
unfoldable pub last_due : (Time → Time) → ℕ → Time → Time → Time → Time × Bool
last_due next zero now cursor last = (last, not (last == 0))
last_due next (suc rounds) now cursor last = elim (ltb now (next cursor)) [
  | true ↦ (last, not (last == 0))
  | false ↦ last_due next rounds now (next cursor) (next cursor)
]

unfoldable pub lookback_start : Time → Time → Time
lookback_start created now =
    if (created == 0) || ltb created (now - schedule_lookback)
    then now - schedule_lookback
    else created

-- `nextDueSchedule`; `next` is `schedule.Next`.
unfoldable pub next_due_schedule : (Time → Time) → ScheduledMachine → Time → Time × Bool
unfolding last_due lookback_start
next_due_schedule next machine now = elim machine.last_scheduled_at [
  | some at ↦ (next at, not (ltb now (next at)))
  | none ↦ last_due next max_rounds now (lookback_start machine.creation_timestamp now - second) 0
]

-- `requeueAfter`
unfoldable pub requeue_after : Time → Time → ℕ
requeue_after now next =
    if next == 0
    then owned_resource_reconcile_after
    else if leb next now
    then second
    else if ltb owned_resource_reconcile_after (next - now)
    then owned_resource_reconcile_after
    else next - now

-- The calls of the Kubernetes client: the job of an activation is created, and the status of the
-- machine is written with the time of the last activation, or with the condition that the schedule is invalid,
-- if that changes it.
pub record ScheduleClient (W : Type 0) : Type 0 where
  pub create_job : Time → Steps W ApiError (Unit {0})
  pub update_last_scheduled : Time → Steps W ApiError (Unit {0})
  pub set_invalid_schedule : W → W × Bool
  pub update_conditions : Steps W ApiError (Unit {0})

pub data ScheduleError : Type 0 where
  update_invalid_schedule_failed create_job_failed update_last_scheduled_failed :
      ApiError → ScheduleError

abbrev pub if_not_found :
    {W : Type 0}
    → (ApiError → ScheduleError)
    → Result ApiError (Unit {0})
    → Steps W ScheduleError (Unit {0})
if_not_found failed (ok u) = return_value u
if_not_found failed (err not_found) = return_value tt
if_not_found failed (err already_exists) = fail (failed already_exists)
if_not_found failed (err conflict) = fail (failed conflict)
if_not_found failed (err other_error) = fail (failed other_error)

abbrev pub if_exists : {W : Type 0} → Result ApiError (Unit {0}) → Steps W ScheduleError (Unit {0})
if_exists (ok u) = return_value u
if_exists (err already_exists) = return_value tt
if_exists (err not_found) = fail (create_job_failed not_found)
if_exists (err conflict) = fail (create_job_failed conflict)
if_exists (err other_error) = fail (create_job_failed other_error)

module _ {W : Type 0} (client : ScheduleClient W) where
  -- `createScheduledBackupJob`; the owner reference can be set.
  unfoldable pub create_scheduled_backup_job : Time → Steps W ScheduleError (Unit {0})
  create_scheduled_backup_job scheduled_at = either (client.create_job scheduled_at) if_exists

  abbrev pub invalid_schedule : Steps W ScheduleError ℕ
  invalid_schedule w =
      let changed = client.set_invalid_schedule w in
      if changed.1
      then (either client.update_conditions (if_not_found update_invalid_schedule_failed) >>= λ u.
            return_value owned_resource_reconcile_after)
          changed.0
      else (changed.0, ok owned_resource_reconcile_after)

  unfoldable pub schedule_due : (Time → Time) → Time → Time × Bool → Steps W ScheduleError ℕ
  unfolding create_scheduled_backup_job
  schedule_due next now (scheduled_at, false) = return_value (requeue_after now (next now))
  schedule_due next now (scheduled_at, true) = create_scheduled_backup_job scheduled_at >>= λ u.
      either (client.update_last_scheduled scheduled_at) (if_not_found update_last_scheduled_failed)
      >>= λ u. return_value (requeue_after now (next scheduled_at))

  -- `reconcileSchedule`; `schedule` is what `cron.ParseStandard` reads. It returns `RequeueAfter`.
  unfoldable pub reconcile_schedule :
      Option (Time → Time) → ScheduledMachine → Time → Steps W ScheduleError ℕ
  unfolding next_due_schedule
  reconcile_schedule none machine now = invalid_schedule
  reconcile_schedule (some next) machine now =
      schedule_due next now (next_due_schedule next machine now)
