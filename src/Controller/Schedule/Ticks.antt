-- ===== src/Controller/Schedule/Ticks.antt =====
-- One call of `reconcileSchedule` of internal/controller/reconcilers.go on a cluster whose API server
-- may refuse calls, and the activations of a schedule.
use kube_rsync_machine.Common.{
  ℕ, ◌<◌, ◌≤◌, ◌≡◌, refl, ap, ◌∙◌, Bool, true, false, not, ◌&&◌, List, [], ◌∷◌, ◌++◌, Option, some,
  Result, ok, err, if◌then◌else◌, any, any-append, All, All-imp, ltb, leb, ◌==◌, ==_iff, arith, suc,
  zero,
}
use kube_rsync_machine.Controller.Clock.{Time}
use kube_rsync_machine.Controller.Guard.{ApiError, already_exists, conflict, other_error}
use kube_rsync_machine.Controller.Schedule.{
  ScheduleClient, next_due_schedule, create_scheduled_backup_job, schedule_due, reconcile_schedule,
}
use kube_rsync_machine.Controller.Schedule.Due.{activation}

-- The machine's record, and the activations whose jobs were created.
pub record Cluster : Type 0 where
  pub last_scheduled_at : Option Time
  pub jobs : List Time

-- A call at a time, and whether the API server accepts the creation of a job and the update of the
-- status in it.
pub record Tick : Type 0 where
  pub now : Time
  pub creates : Bool
  pub updates : Bool

-- The name of a job is made from the minute of its activation, so that it is created once; two
-- activations of a cron schedule are in two minutes.
abbrev pub create : Tick → Time → Cluster → Cluster × Result ApiError (Unit {0})
create tick at w =
    if not tick.creates
    then (w, err other_error)
    else if any (λ x. x == at) w.jobs
    then (w, err already_exists)
    else (record w { jobs = w.jobs ++ at ∷ [] }, ok tt)

abbrev pub record_last : Tick → Time → Cluster → Cluster × Result ApiError (Unit {0})
record_last tick at w =
    if not tick.updates
    then (w, err conflict)
    else (record w { last_scheduled_at = some at }, ok tt)

abbrev pub schedule_client : Tick → ScheduleClient Cluster
schedule_client tick = record {
  create_job = create tick;
  update_last_scheduled = record_last tick;
  set_invalid_schedule = λ w. (w, false);
  update_conditions = λ w. (w, ok tt);
}

abbrev pub after_tick : (Time → Time) → Time → Tick → Cluster → Cluster
after_tick next created tick w =
    (reconcile_schedule (schedule_client tick) (some next)
      (record { last_scheduled_at = w.last_scheduled_at; creation_timestamp = created }) tick.now
      w).0

abbrev pub after_ticks : (Time → Time) → Time → List Tick → Cluster → Cluster
after_ticks next created [] w = w
after_ticks next created (tick ∷ ticks) w =
    after_ticks next created ticks (after_tick next created tick w)

-- The first activations after a time.
abbrev pub activations : (Time → Time) → ℕ → Time → List Time
activations next zero t = []
activations next (suc n) t = next t ∷ activations next n (next t)

abbrev pub recorded : Time → List Time → Cluster
recorded last jobs = record { last_scheduled_at = some last; jobs = jobs }

-- The call is not before the time and the API server accepts what it asks for.
abbrev pub is_good : Time → Tick → Bool
is_good from tick = leb from tick.now && tick.creates && tick.updates

module _ (next : Time → Time) (later : (t : Time) → t < next t) (created : Time) where
  pub activation-next : (n : ℕ) (t : Time) → activation next n (next t) ≡ next (activation next n t)
  activation-next zero t = refl
  activation-next (suc n) t = activation-next n (next t)

  pub activation_le : (n : ℕ) (t : Time) → t ≤ activation next n t
  activation_le zero t = omega arith
  activation_le (suc n) t = omega (arith, later t, activation_le n (next t))

  pub activations_append :
      (n : ℕ) (t : Time)
      → activations next (suc n) t ≡ activations next n t ++ activation next (suc n) t ∷ []
  activations_append zero t = refl
  activations_append (suc n) t = ap (λ xs. next t ∷ xs) (activations_append n (next t))

  activations_below : (n : ℕ) (t : Time) → All (λ x. x ≤ activation next n t) (activations next n t)
  activations_below zero t = tt
  activations_below (suc n) t = (activation_le n (next t), activations_below n (next t))

  not_there : (a : Time) (xs : List Time) → All (λ x. x < a) xs → any (λ x. x == a) xs ≡ false
  not_there a [] h = refl
  not_there a (x ∷ xs) (p, h) = ground (arith, p, ==_iff x a, not_there a xs h)

  pub new_activation :
      (n : ℕ) (t : Time) → any (λ x. x == activation next (suc n) t) (activations next n t) ≡ false
  new_activation n t = not_there (activation next (suc n) t) (activations next n t) (
      All-imp (λ x below. omega (arith, below, later (activation next n t), activation-next n t))
        (activations next n t) (activations_below n t))

  pub old_activation :
      (n : ℕ) (t : Time)
      → any (λ x. x == activation next (suc n) t) (activations next (suc n) t) ≡ true
  old_activation n t =
      ap (any (λ x. x == activation next (suc n) t)) (activations_append n t)
      ∙ any-append (λ x. x == activation next (suc n) t) (activations next n t)
          (activation next (suc n) t ∷ [])
      ∙ ground (arith, ==_iff (activation next (suc n) t) (activation next (suc n) t))

  -- One call.
  abbrev pub due_tick : Tick → Time → List Time → Bool → Cluster
  due_tick tick last jobs due =
      (schedule_due (schedule_client tick) next tick.now (next last, due) (recorded last jobs)).0

  pub tick_shown :
      (tick : Tick) (last : Time) (jobs : List Time) (due : Bool)
      → not (ltb tick.now (next last)) ≡ due
      → after_tick next created tick (recorded last jobs) ≡ due_tick tick last jobs due
  unfolding reconcile_schedule next_due_schedule
  tick_shown tick last jobs due e = ap (due_tick tick last jobs) e

  pub tick_early :
      (tick : Tick) (last : Time) (jobs : List Time)
      → tick.now < next last
      → after_tick next created tick (recorded last jobs) ≡ recorded last jobs
  unfolding schedule_due
  tick_early tick last jobs h = tick_shown tick last jobs false (ground (arith, h))

  -- The jobs after the creation of one that may be there.
  abbrev pub added : Time → List Time → List Time
  added at jobs = if any (λ x. x == at) jobs then jobs else jobs ++ at ∷ []

  pub due_tick-effect :
      (creates updates : Bool) (now last : Time) (jobs : List Time) (there : Bool)
      → any (λ x. x == next last) jobs ≡ there
      → due_tick (record { now = now; creates = creates; updates = updates }) last jobs true ≡ (
          if creates
          then recorded (if updates then next last else last) (added (next last) jobs)
          else recorded last jobs)
  unfolding create_scheduled_backup_job schedule_due
  due_tick-effect false updates now last jobs there e = refl
  due_tick-effect true false now last jobs true e = rw e refl
  due_tick-effect true false now last jobs false e = rw e refl
  due_tick-effect true true now last jobs true e = rw e refl
  due_tick-effect true true now last jobs false e = rw e refl
