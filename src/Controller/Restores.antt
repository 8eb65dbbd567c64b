-- ===== src/Controller/Restores.antt =====
-- internal/controller/events.go: `ApplySourceEventToRestoreJob`. The run is never nil: the caller
-- passes the address of a variable. Fields that the handler neither reads nor writes are left out.
pub mod Again
use kube_rsync_machine.Common.{
  ℕ, ◌≡◌, Bool, true, false, not, ◌&&◌, ◌||◌, List, [], ◌∷◌, ◌++◌, Option, none, some,
  if◌then◌else◌, ◌==◌,
}
use kube_rsync_machine.Common.Eq.{Eq, ℕ_eq, GoString_eq}
use kube_rsync_machine.Common.Text.{GoString, codes, str_eq, is_empty}
use kube_rsync_machine.Control.Types.{SourceEvent, run_kind_restore}
use kube_rsync_machine.Controller.Clock.{Time, Clock, assign, then_change}
use kube_rsync_machine.Controller.Transfers.{TransferStatus, transfer_phase, nonempty, nonzero}
use kube_rsync_machine.Controller.Runs.{update_source, source_id}

pub record RestoreJob : Type 0 where
  pub namespace : GoString
  pub name : GoString
  pub phase : GoString
  pub completed_at : Option Time
  pub exit_code : ℕ
  pub message : GoString
  pub transfers : List TransferStatus

-- The event is about another run.
abbrev pub is_foreign_restore : SourceEvent → RestoreJob → Bool
is_foreign_restore event run =
    not (str_eq event.run_namespace run.namespace)
    || not (str_eq event.run_name run.name)
    || not (str_eq event.run_kind run_kind_restore)

abbrev set_transfers : Clock → SourceEvent → RestoreJob → RestoreJob × Bool
set_transfers clock event run =
    let updated =
      update_source clock event (transfer_phase event.phase) (source_id event) run.transfers in
    (record run { transfers = updated.0 }, updated.1)

-- The phase and, where the run has ended and the phase is new, its end.
pub end_restore : Clock → GoString → RestoreJob → RestoreJob × Bool
end_restore clock phase run =
    if str_eq run.phase phase
    then (run, false)
    else (record run { phase = phase; completed_at = some clock.now }, true)

-- `case "Running":`
pub run_restore : RestoreJob → RestoreJob × Bool
run_restore run =
    let phase = assign true (codes "Running") run.phase in (record run { phase = phase.0 }, phase.1)

-- `switch event.Phase`
pub by_restore_phase : Clock → SourceEvent → RestoreJob → RestoreJob × Bool
unfolding end_restore run_restore
by_restore_phase clock event run =
    if str_eq event.phase (codes "Running")
    then run_restore run
    else if str_eq event.phase (codes "Succeeded")
    then end_restore clock (codes "Succeeded") run
    else if str_eq event.phase (codes "Failed")
    then end_restore clock (codes "Failed") run
    else (run, false)

-- The exit code and the message, where the event has them.
abbrev set_outcome : SourceEvent → RestoreJob → RestoreJob × Bool
set_outcome event run =
    let exit = assign (nonzero event.rsync_exit_code) event.rsync_exit_code run.exit_code in
    let message = assign (nonempty event.message) event.message run.message in
    (record run { exit_code = exit.0; message = message.0 }, exit.1 || message.1)

pub apply_source_event_to_restore_job : Clock → SourceEvent → RestoreJob → RestoreJob × Bool
unfolding by_restore_phase
apply_source_event_to_restore_job clock event run =
    if is_foreign_restore event run
    then (run, false)
    else then_change (then_change (set_transfers clock event run) (by_restore_phase clock event))
        (set_outcome event)
