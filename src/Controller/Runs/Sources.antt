-- ===== src/Controller/Runs/Sources.antt =====
-- `ApplySourceEventToBackupJob` of internal/controller/events.go as a whole.
use kube_rsync_machine.Common.{
  if◌then◌else◌, ◌≡◌, ◌≢◌, refl, ap, ◌∙◌, Bool, false, List, some, arith, Bool-cases, inl, inr,
}
use kube_rsync_machine.Common.Text.{GoString, codes, str_eq, str_ne}
use kube_rsync_machine.Control.Types.{SourceEvent}
use kube_rsync_machine.Controller.Clock.{Time, Clock, at, then_change}
use kube_rsync_machine.Controller.Conditions.{Condition, set_condition}
use kube_rsync_machine.Controller.Conditions.Laws.{set_condition_again}
use kube_rsync_machine.Controller.Conditions.Settled.{
  HasFields, set_condition-HasFields, HasFields-set_condition, set_condition_settled,
}
use kube_rsync_machine.Controller.Transfers.{
  update_transfer, transfer_phase, transfer_phase_preparing, transfer_phase_running,
  transfer_phase_succeeded, transfer_phase_failed, transfer_phase_skipped,
}
use kube_rsync_machine.Controller.Transfers.Laws.{HasTimes}
use kube_rsync_machine.Controller.Runs.{
  BackupJob, set_run_condition, is_foreign, update_source, source_id, set_transfer_conditions,
  apply_source_event_to_backup_job,
}
use kube_rsync_machine.Controller.Runs.Transfers.{
  of_source, AreDistinct, or_new, of_source-update_source, update_source-AreDistinct,
  update_source_again,
}

-- The run with other conditions.
abbrev pub with_conditions : List Condition → BackupJob → BackupJob
with_conditions conditions run = record run { conditions = conditions }

pub one_again :
    (clock clock' : Clock) (type status reason message : GoString) (run : BackupJob)
    → let run' = (set_run_condition clock type status reason message run).0 in
      set_run_condition clock' type status reason message run' ≡ (run', false)
unfolding set_run_condition
one_again clock clock' type status reason message run =
    rw (set_condition_again clock clock' type status reason message run.generation run.conditions)
      refl

pub two_again :
    (clock clock' : Clock) (type status reason message type' status' reason' message' : GoString)
    (run : BackupJob)
    → type' ≢ type
    → let set : Clock → BackupJob → BackupJob × Bool = λ c r.
      then_change
        (set_run_condition c type status reason message r)
        (set_run_condition c type' status' reason' message') in
      set clock' (set clock run).0 ≡ ((set clock run).0, false)
unfolding set_run_condition then_change
two_again clock clock' type status reason message type' status' reason' message' run ne =
    let first = (set_condition clock type status reason message run.generation run.conditions).0 in
    let second = (set_condition clock type' status' reason' message' run.generation first).0 in
    let set_first : HasFields type status reason message run.generation second =
      HasFields-set_condition clock type' status' reason' message' run.generation first type status
        reason message ne
        (set_condition-HasFields clock type status reason message run.generation run.conditions) in
    let set_second : HasFields type' status' reason' message' run.generation second =
      set_condition-HasFields clock type' status' reason' message' run.generation first in
    rw
      (
        set_condition_settled clock' type status reason message run.generation second set_first,
        set_condition_settled clock' type' status' reason' message' run.generation second
            set_second,
      )
      refl

set_transfer_conditions-frame :
    (clock : Clock) (event : SourceEvent) (phase : GoString) (run : BackupJob)
    → (set_transfer_conditions clock event phase run).0
      ≡ with_conditions (set_transfer_conditions clock event phase run).0.conditions run
unfolding set_transfer_conditions set_run_condition then_change
set_transfer_conditions-frame clock event phase run = ground arith

set_transfer_conditions_again :
    (clock : Clock) (now : Time) (event : SourceEvent) (phase : GoString) (run : BackupJob)
    → let run' = (set_transfer_conditions clock event phase run).0 in
      set_transfer_conditions (at clock now) event phase run' ≡ (run', false)
unfolding set_transfer_conditions str_eq
set_transfer_conditions_again clock now event phase run =
    elim (Bool-cases (str_eq phase transfer_phase_preparing)) [
      | inl e ↦ rw e (one_again clock (at clock now) _ _ _ _ run)
      | inr a ↦ elim (Bool-cases (str_eq phase transfer_phase_running)) [
        | inl e ↦ rw (a, e) (one_again clock (at clock now) _ _ _ _ run)
        | inr b ↦ elim (Bool-cases (str_eq phase transfer_phase_succeeded)) [
          | inl e ↦
              rw (a, b, e)
                (two_again clock (at clock now) _ _ _ _ _ _ _ _ run
                  (str_ne (codes "Transport") (codes "SnapshotCapture") refl))
          | inr c ↦ elim (Bool-cases (str_eq phase transfer_phase_failed)) [
            | inl e ↦
                rw (a, b, c, e)
                  (two_again clock (at clock now) _ _ _ _ _ _ _ _ run
                    (str_ne (codes "Failed") (codes "Transport") refl))
            | inr d ↦ elim (Bool-cases (str_eq phase transfer_phase_skipped)) [
              | inl e ↦ rw (a, b, c, d, e) (one_again clock (at clock now) _ _ _ _ run)
              | inr f ↦ rw (a, b, c, d, f) refl
            ]
          ]
        ]
      ]
    ]

-- A run that an event has nothing to change in.
settled_run :
    (clock : Clock) (event : SourceEvent) (run : BackupJob)
    → update_source clock event (transfer_phase event.phase) (source_id event) run.transfers
      ≡ (run.transfers, false)
    → set_transfer_conditions clock event (transfer_phase event.phase) run ≡ (run, false)
    → apply_source_event_to_backup_job clock event run ≡ (run, false)
unfolding apply_source_event_to_backup_job then_change
settled_run clock event run e f =
    elim (Bool-cases (is_foreign event.run_namespace event.run_name event.run_kind run)) [
      | inl foreign ↦ rw foreign refl
      | inr own ↦ rw (own, e, f) refl
    ]

-- The run after an event of its own.
abbrev handled : Clock → SourceEvent → BackupJob → BackupJob
handled clock event run =
    let phase = transfer_phase event.phase in
    (set_transfer_conditions clock event phase (record run {
      transfers = (update_source clock event phase (source_id event) run.transfers).0;
    })).0

handled-transfers :
    (clock : Clock) (event : SourceEvent) (run : BackupJob)
    → (handled clock event run).transfers
      ≡ (update_source clock event (transfer_phase event.phase) (source_id event) run.transfers).0
handled-transfers clock event run =
    ap (λ r. r.transfers) (set_transfer_conditions-frame clock event (transfer_phase event.phase) _)

apply_own :
    (clock : Clock) (event : SourceEvent) (run : BackupJob)
    → is_foreign event.run_namespace event.run_name event.run_kind run ≡ false
    → (apply_source_event_to_backup_job clock event run).0 ≡ handled clock event run
unfolding apply_source_event_to_backup_job then_change
apply_own clock event run own = rw own refl

-- An event of a source that is delivered again, at any later time, changes nothing in the run and
-- says so, if the times it carries are valid.
pub apply_source_event_again :
    (clock : Clock) (now : Time) (event : SourceEvent) (run : BackupJob)
    → HasTimes clock event
    → let run' = (apply_source_event_to_backup_job clock event run).0 in
      apply_source_event_to_backup_job (at clock now) event run' ≡ (run', false)
unfolding apply_source_event_to_backup_job
apply_source_event_again clock now event run h =
    elim (Bool-cases (is_foreign event.run_namespace event.run_name event.run_kind run)) [
      | inl foreign ↦ rw (foreign, foreign) refl
      | inr own ↦
          rw (apply_own clock event run own, apply_source_event_to_backup_job)
            (settled_run (at clock now) event (handled clock event run)
              (rw (handled-transfers clock event run) (
                update_source_again clock now event (transfer_phase event.phase) (source_id event)
                  run.transfers h))
              (set_transfer_conditions_again clock now event (transfer_phase event.phase) _))
    ]

-- An event of a source for this run updates the transfer of that source, a new one if there is
-- none, and no other; the run keeps one transfer for each source, and its phase.
pub apply_source_event_lem :
    (clock : Clock) (event : SourceEvent) (run : BackupJob)
    → is_foreign event.run_namespace event.run_name event.run_kind run ≡ false
    → AreDistinct run.transfers
    → let run' = (apply_source_event_to_backup_job clock event run).0 in
      let old = or_new (source_id event) (of_source (source_id event) run.transfers) in
      AreDistinct run'.transfers
      × ((source : GoString)
          → of_source source run'.transfers ≡ (
              if str_eq (source_id event) source
              then some (update_transfer clock old event (transfer_phase event.phase)).0
              else of_source source run.transfers))
      × (run'.phase ≡ run.phase)
apply_source_event_lem clock event run own d =
    let phase = transfer_phase event.phase in
    let source = source_id event in
    let same : (apply_source_event_to_backup_job clock event run).0.transfers
        ≡ (update_source clock event phase source run.transfers).0 =
      ap (λ r. r.transfers) (apply_own clock event run own) ∙ handled-transfers clock event run in
    (
      rw same (update_source-AreDistinct clock event phase source run.transfers d),
      (λ other. rw same (of_source-update_source clock event phase source other run.transfers)),
      ap (λ r. r.phase) (apply_own clock event run own)
          ∙ ap (λ r. r.phase) (set_transfer_conditions-frame clock event phase _),
    )
