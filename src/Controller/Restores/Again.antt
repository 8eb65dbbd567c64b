-- ===== src/Controller/Restores/Again.antt =====
-- `ApplySourceEventToRestoreJob` of internal/controller/events.go, applied again.
use kube_rsync_machine.Common.{◌≡◌, refl, ap, ◌∙◌, true, false, arith, Bool-cases, inl, inr}
use kube_rsync_machine.Common.Eq.{ℕ_eq, GoString_eq}
use kube_rsync_machine.Common.Text.{GoString, codes, str_eq, str_eq_iff}
use kube_rsync_machine.Control.Types.{SourceEvent}
use kube_rsync_machine.Controller.Clock.{
  Time, Clock, at, assign, assign_again, assign_there, assign_value, then_change,
}
use kube_rsync_machine.Controller.Transfers.{transfer_phase, nonempty, nonzero}
use kube_rsync_machine.Controller.Transfers.Laws.{HasTimes}
use kube_rsync_machine.Controller.Runs.{update_source, source_id}
use kube_rsync_machine.Controller.Runs.Transfers.{update_source_again}
use kube_rsync_machine.Controller.Restores.{
  RestoreJob, is_foreign_restore, end_restore, run_restore, by_restore_phase,
  apply_source_event_to_restore_job,
}

-- The phase changes nothing else than itself and the end of the run, and is there the second time.
by_restore_phase-frame :
    (clock : Clock) (event : SourceEvent) (run : RestoreJob)
    → let run' = (by_restore_phase clock event run).0 in
      run' ≡ record run { phase = run'.phase; completed_at = run'.completed_at }
unfolding by_restore_phase end_restore run_restore
by_restore_phase-frame clock event run = ground arith

run_restore-phase : (run : RestoreJob) → (run_restore run).0.phase ≡ codes "Running"
unfolding run_restore
run_restore-phase run = assign_value true (codes "Running") run.phase

run_restore_settled :
    (run : RestoreJob) → run.phase ≡ codes "Running" → run_restore run ≡ (run, false)
unfolding run_restore
run_restore_settled run e = rw (assign_there true (codes "Running") run.phase e) refl

end_restore-phase :
    (clock : Clock) (phase : GoString) (run : RestoreJob)
    → (end_restore clock phase run).0.phase ≡ phase
unfolding end_restore
end_restore-phase clock phase run = ground (arith, str_eq_iff run.phase phase)

end_restore_settled :
    (clock : Clock) (phase : GoString) (run : RestoreJob)
    → run.phase ≡ phase
    → end_restore clock phase run ≡ (run, false)
unfolding end_restore
end_restore_settled clock phase run e = ground (arith, e, str_eq_iff run.phase phase)

phase_again :
    (clock clock' : Clock) (event : SourceEvent) (run other : RestoreJob)
    → other.phase ≡ (by_restore_phase clock event run).0.phase
    → by_restore_phase clock' event other ≡ (other, false)
unfolding by_restore_phase
phase_again clock clock' event run other e =
    elim (Bool-cases (str_eq event.phase (codes "Running"))) [
      | inl a ↦
          rw a (run_restore_settled other (e ∙ rw (by_restore_phase, a) (run_restore-phase run)))
      | inr a ↦ elim (Bool-cases (str_eq event.phase (codes "Succeeded"))) [
        | inl b ↦
            rw (a, b)
              (end_restore_settled clock' (codes "Succeeded") other
                (e ∙ rw (by_restore_phase, a, b) (end_restore-phase clock (codes "Succeeded") run)))
        | inr b ↦ elim (Bool-cases (str_eq event.phase (codes "Failed"))) [
          | inl c ↦
              rw (a, b, c)
                (end_restore_settled clock' (codes "Failed") other (
                  e
                  ∙ rw (by_restore_phase, a, b, c) (end_restore-phase clock (codes "Failed") run)))
          | inr c ↦ rw (a, b, c) refl
        ]
      ]
    ]

-- A run that an event has nothing to change in.
settled_restore :
    (clock : Clock) (event : SourceEvent) (run : RestoreJob)
    → update_source clock event (transfer_phase event.phase) (source_id event) run.transfers
      ≡ (run.transfers, false)
    → by_restore_phase clock event run ≡ (run, false)
    → assign (nonzero event.rsync_exit_code) event.rsync_exit_code run.exit_code
      ≡ (run.exit_code, false)
    → assign (nonempty event.message) event.message run.message ≡ (run.message, false)
    → apply_source_event_to_restore_job clock event run ≡ (run, false)
unfolding apply_source_event_to_restore_job then_change
settled_restore clock event run e f g h = elim (Bool-cases (is_foreign_restore event run)) [
  | inl foreign ↦ rw foreign refl
  | inr own ↦ rw (own, e, f, g, h) refl
]

-- The run after the first two steps, and after all.
abbrev moved : Clock → SourceEvent → RestoreJob → RestoreJob
moved clock event run =
    (by_restore_phase clock event (record run {
      transfers =
          (update_source clock event (transfer_phase event.phase) (source_id event)
            run.transfers).0;
    })).0

abbrev handled : Clock → SourceEvent → RestoreJob → RestoreJob
handled clock event run = record (moved clock event run) {
  exit_code =
      (assign (nonzero event.rsync_exit_code) event.rsync_exit_code
        (moved clock event run).exit_code).0;
  message = (assign (nonempty event.message) event.message (moved clock event run).message).0;
}

moved-transfers :
    (clock : Clock) (event : SourceEvent) (run : RestoreJob)
    → (moved clock event run).transfers
      ≡ (update_source clock event (transfer_phase event.phase) (source_id event) run.transfers).0
moved-transfers clock event run = ap (λ r. r.transfers) (by_restore_phase-frame clock event _)

apply_own :
    (clock : Clock) (event : SourceEvent) (run : RestoreJob)
    → is_foreign_restore event run ≡ false
    → (apply_source_event_to_restore_job clock event run).0 ≡ handled clock event run
unfolding apply_source_event_to_restore_job then_change
apply_own clock event run own = rw own refl

-- An event of a source that is delivered again, at any later time, changes nothing in the restore
-- run and says so, if the times it carries are valid.
pub apply_restore_event_again :
    (clock : Clock) (now : Time) (event : SourceEvent) (run : RestoreJob)
    → HasTimes clock event
    → let run' = (apply_source_event_to_restore_job clock event run).0 in
      apply_source_event_to_restore_job (at clock now) event run' ≡ (run', false)
unfolding apply_source_event_to_restore_job
apply_restore_event_again clock now event run h = elim (Bool-cases (is_foreign_restore event run)) [
  | inl foreign ↦ rw (foreign, foreign) refl
  | inr own ↦
      rw (apply_own clock event run own, apply_source_event_to_restore_job)
        (settled_restore (at clock now) event (handled clock event run)
          (rw (moved-transfers clock event run) (
            update_source_again clock now event (transfer_phase event.phase) (source_id event)
              run.transfers h))
          (phase_again clock (at clock now) event _ (handled clock event run) refl)
          (assign_again (nonzero event.rsync_exit_code) event.rsync_exit_code
            (moved clock event run).exit_code)
          (assign_again (nonempty event.message) event.message (moved clock event run).message))
]
