-- ===== src/Controller/Runs.antt =====
-- internal/controller/events.go: the handlers of events for a `BackupJob`. The run is never nil: each
-- caller passes the address of a variable. Fields that no handler reads or writes are left out.
pub mod Transfers
pub mod Sources
pub mod Commands
use kube_rsync_machine.Common.{
  ℕ, ◌≡◌, Bool, true, false, not, ◌&&◌, ◌||◌, List, [], ◌∷◌, ◌++◌, Option, none, some,
  if◌then◌else◌, ◌==◌,
}
use kube_rsync_machine.Common.Eq.{Eq, ℕ_eq, GoString_eq}
use kube_rsync_machine.Common.Text.{GoString, codes, str_eq, is_empty}
use kube_rsync_machine.Control.Types.{
  TargetEvent, TargetCommandAckEvent, TargetCommand, SourceEvent, run_kind_backup,
}
use kube_rsync_machine.Controller.Clock.{
  Time, Clock, parse_meta_time, assign, then_change, Option_eq,
}
use kube_rsync_machine.Controller.Conditions.{Condition, set_condition}
use kube_rsync_machine.Controller.Transfers.{
  TransferStatus, new_transfer, update_transfer, transfer_phase, nonempty, transfer_phase_preparing,
  transfer_phase_running, transfer_phase_succeeded, transfer_phase_failed, transfer_phase_skipped,
}

pub record CommandStatus : Type 0 where
  pub id : GoString
  pub type : GoString
  pub sent_at : Option Time
  pub acknowledged_at : Option Time

pub record BackupJob : Type 0 where
  pub namespace : GoString
  pub name : GoString
  pub generation : ℕ
  pub phase : GoString
  pub completed_at : Option Time
  pub snapshot_path : GoString
  pub target_phase : GoString
  pub last_command : Option CommandStatus
  pub transfers : List TransferStatus
  pub conditions : List Condition

-- `setCondition(&run.Status.Conditions, ..., run.Generation)`
unfoldable pub set_run_condition :
    Clock → GoString → GoString → GoString → GoString → BackupJob → BackupJob × Bool
set_run_condition clock type status reason message run =
    let set = set_condition clock type status reason message run.generation run.conditions in
    (record run { conditions = set.0 }, set.1)

-- The event is about another run.
abbrev pub is_foreign : GoString → GoString → GoString → BackupJob → Bool
is_foreign namespace name kind run =
    not (str_eq namespace run.namespace)
    || not (str_eq name run.name)
    || not (str_eq kind run_kind_backup)

abbrev set_target_phase : TargetEvent → BackupJob → BackupJob × Bool
set_target_phase event run =
    let phase = assign true event.phase run.target_phase in
    (record run { target_phase = phase.0 }, phase.1)

-- `case "Ready":`
pub target_ready : Clock → BackupJob → BackupJob × Bool
unfolding set_run_condition
target_ready clock run =
    then_change
      (if str_eq run.phase (codes "Preparing") || is_empty run.phase
        then (record run { phase = codes "Running" }, true)
        else (run, false))
      (set_run_condition clock (codes "TargetReady") (codes "True") (codes "TargetReady")
        (codes "RsyncMachine reported ready"))

-- `case "Finalizing":`
pub target_finalizing : BackupJob → BackupJob × Bool
target_finalizing run =
    let phase = assign true (codes "Finalizing") run.phase in
    (record run { phase = phase.0 }, phase.1)

-- The run's phase and, if that is new, its end.
pub end_run : Clock → GoString → BackupJob → BackupJob × Bool
end_run clock phase run =
    if str_eq run.phase phase
    then (run, false)
    else (record run { phase = phase; completed_at = some clock.now }, true)

abbrev set_snapshot_path : TargetEvent → BackupJob → BackupJob × Bool
set_snapshot_path event run =
    let path = assign (nonempty event.snapshot) event.snapshot run.snapshot_path in
    (record run { snapshot_path = path.0 }, path.1)

-- `case "Completed":`
pub target_completed : Clock → TargetEvent → BackupJob → BackupJob × Bool
unfolding end_run set_run_condition
target_completed clock event run =
    then_change
      (then_change
        (then_change (end_run clock (codes "Succeeded") run) (
          set_run_condition clock (codes "Failed") (codes "False") (codes "RunSucceeded")
            (codes "BackupJob completed successfully")))
        (set_run_condition clock (codes "Transport") (codes "True") (codes "TransportComplete")
          (codes "Target transport finalized successfully")))
      (set_snapshot_path event)

abbrev or_default : GoString → GoString → GoString
or_default message default = if is_empty message then default else message

-- `case "Failed":`
pub target_failed : Clock → TargetEvent → BackupJob → BackupJob × Bool
unfolding end_run set_run_condition
target_failed clock event run =
    let message = or_default event.message (codes "Backup target reported failure") in
    then_change
      (then_change (end_run clock (codes "Failed") run)
        (set_run_condition clock (codes "Failed") (codes "True") (codes "RunFailed") message))
      (set_run_condition clock (codes "Transport") (codes "False") (codes "TransportFailed")
        message)

pub by_target_phase : Clock → TargetEvent → BackupJob → BackupJob × Bool
unfolding target_ready target_finalizing target_completed target_failed
by_target_phase clock event run =
    if str_eq event.phase (codes "Ready")
    then target_ready clock run
    else if str_eq event.phase (codes "Finalizing")
    then target_finalizing run
    else if str_eq event.phase (codes "Completed")
    then target_completed clock event run
    else if str_eq event.phase (codes "Failed")
    then target_failed clock event run
    else (run, false)

pub apply_target_event_to_backup_job : Clock → TargetEvent → BackupJob → BackupJob × Bool
unfolding by_target_phase
apply_target_event_to_backup_job clock event run =
    if is_foreign event.run_namespace event.run_name event.run_kind run
    then (run, false)
    else then_change (set_target_phase event run) (by_target_phase clock event)

-- The last command, by what it is: none, the event's, or another.
abbrev pub is_command : GoString → GoString → CommandStatus → Bool
is_command id type command = str_eq command.id id && str_eq command.type type

pub acknowledge_command :
    Clock → TargetCommandAckEvent → Option CommandStatus → Option CommandStatus × Bool
acknowledge_command clock event none = (
  some (record {
    id = event.command_id;
    type = event.command_type;
    sent_at = none;
    acknowledged_at = some (parse_meta_time clock event.acknowledged_at);
  }),
  true,
)
acknowledge_command clock event (some command) =
    let at =
      assign true (some (parse_meta_time clock event.acknowledged_at)) command.acknowledged_at in
    if is_command event.command_id event.command_type command
    then (some (record command { acknowledged_at = at.0 }), at.1)
    else (some command, false)

pub apply_target_command_ack_to_backup_job :
    Clock → TargetCommandAckEvent → BackupJob → BackupJob × Bool
unfolding acknowledge_command
apply_target_command_ack_to_backup_job clock event run =
    let command = acknowledge_command clock event run.last_command in
    if is_foreign event.run_namespace event.run_name event.run_kind run
    then (run, false)
    else (record run { last_command = command.0 }, command.1)

-- `MarkFinalizeCommandSent`
pub send_command : TargetCommand → Time → Option CommandStatus → Option CommandStatus × Bool
send_command command sent_at none = (
  some (record {
    id = command.command_id;
    type = command.type;
    sent_at = some sent_at;
    acknowledged_at = none;
  }),
  true,
)
send_command command sent_at (some last) =
    let at = assign true (some sent_at) last.sent_at in
    if is_command command.command_id command.type last
    then (some (record last { sent_at = at.0 }), at.1)
    else (
      some (record {
        id = command.command_id;
        type = command.type;
        sent_at = some sent_at;
        acknowledged_at = none;
      }),
      true,
    )

pub mark_finalize_command_sent : TargetCommand → Time → BackupJob → BackupJob × Bool
unfolding send_command
mark_finalize_command_sent command sent_at run =
    let sent = send_command command sent_at run.last_command in
    if is_empty command.command_id
    then (run, false)
    else (record run { last_command = sent.0 }, sent.1)

-- The transfer of a source, updated or appended.
pub update_source :
    Clock → SourceEvent → GoString → GoString → List TransferStatus → List TransferStatus × Bool
update_source clock event phase source [] =
    ((update_transfer clock (new_transfer source) event phase).0 ∷ [], true)
update_source clock event phase source (transfer ∷ transfers) =
    let rest = update_source clock event phase source transfers in
    let updated = update_transfer clock transfer event phase in
    if str_eq transfer.source source
    then (updated.0 ∷ transfers, updated.1)
    else (transfer ∷ rest.0, rest.1)

-- `event.SourceNamespace + "/" + event.SourceName`
abbrev pub source_id : SourceEvent → GoString
source_id event = event.source_namespace ++ b'/' ∷ event.source_name

pub set_transfer_conditions : Clock → SourceEvent → GoString → BackupJob → BackupJob × Bool
unfolding set_run_condition
set_transfer_conditions clock event phase run =
    let message = or_default event.message (codes "Source transfer " ++ phase) in
    if str_eq phase transfer_phase_preparing
    then set_run_condition clock (codes "SnapshotCapture") (codes "Unknown")
        (codes "SnapshotPreparing") message run
    else if str_eq phase transfer_phase_running
    then set_run_condition clock (codes "Transport") (codes "Unknown") (codes "TransportRunning")
        message run
    else if str_eq phase transfer_phase_succeeded
    then then_change
        (set_run_condition clock (codes "SnapshotCapture") (codes "True") (codes "SnapshotReady")
          (codes "Source capture is ready") run)
        (set_run_condition clock (codes "Transport") (codes "True") (codes "TransportComplete")
          message)
    else if str_eq phase transfer_phase_failed
    then then_change
        (set_run_condition clock (codes "Transport") (codes "False") (codes "TransportFailed")
          message run)
        (set_run_condition clock (codes "Failed") (codes "True") (codes "RunFailed") message)
    else if str_eq phase transfer_phase_skipped
    then set_run_condition clock (codes "SnapshotCapture") (codes "False") (codes "SnapshotSkipped")
        message run
    else (run, false)

pub apply_source_event_to_backup_job : Clock → SourceEvent → BackupJob → BackupJob × Bool
unfolding update_source set_transfer_conditions
apply_source_event_to_backup_job clock event run =
    let phase = transfer_phase event.phase in
    let updated = update_source clock event phase (source_id event) run.transfers in
    if is_foreign event.run_namespace event.run_name event.run_kind run
    then (run, false)
    else then_change (record run { transfers = updated.0 }, updated.1)
        (set_transfer_conditions clock event phase)
