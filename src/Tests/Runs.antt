-- ===== src/Tests/Runs.antt =====
-- The handlers of internal/controller/events.go at concrete inputs.
use kube_rsync_machine.Common.{
  if◌then◌else◌, ◌⊎◌, ◌-◌, ◌^◌, ◌≡◌, refl, true, false, ◌&&◌, ◌==◌, List, [], ◌∷◌, none, some,
  arith,
}
use kube_rsync_machine.Common.Text.{GoString, codes, str_eq}
use kube_rsync_machine.Control.Types.{
  SourceEvent, TargetCommand, TargetCommandAckEvent, run_kind_backup, run_kind_restore,
  new_finalize_backup_job_command, target_command_finalize,
}
use kube_rsync_machine.Controller.Clock.{Time, Clock, at, parse_meta_time}
use kube_rsync_machine.Controller.Conditions.{Condition, upsert_condition}
use kube_rsync_machine.Controller.Conditions.Laws.{find}
use kube_rsync_machine.Controller.Conditions.Upsert.{IsUpdated, upsert_condition_lem}
use kube_rsync_machine.Controller.Conditions.Laws as laws
use kube_rsync_machine.Controller.Transfers.{new_transfer, update_transfer, transfer_phase}
use kube_rsync_machine.Controller.Transfers.Laws.{HasTimes, IsTransfer, update_transfer-IsTransfer}
use kube_rsync_machine.Controller.Runs.{
  BackupJob, source_id, apply_source_event_to_backup_job, mark_finalize_command_sent,
  apply_target_command_ack_to_backup_job,
}
use kube_rsync_machine.Controller.Runs.Transfers.{of_source, AreDistinct}
use kube_rsync_machine.Controller.Runs.Sources.{apply_source_event_again, apply_source_event_lem}
use kube_rsync_machine.Controller.Runs.Commands.{sent_then_acknowledged}
use kube_rsync_machine.Controller.Restores.{RestoreJob, apply_source_event_to_restore_job}
use kube_rsync_machine.Controller.Restores.Again.{apply_restore_event_again}

-- Every text is a time.
abbrev clock : Clock
clock = record { now = 100; parse = λ value. some 50 }

abbrev pub job : BackupJob
job = record {
  namespace = codes "apps";
  name = codes "nightly";
  generation = 1;
  phase = codes "Running";
  completed_at = none;
  snapshot_path = [];
  target_phase = codes "Ready";
  last_command = none;
  transfers = [];
  conditions = [];
}

abbrev finished : SourceEvent
finished = record {
  run_namespace = codes "apps";
  run_name = codes "nightly";
  run_kind = run_kind_backup;
  source_namespace = codes "apps";
  source_name = codes "db";
  phase = codes "Succeeded";
  percent = 100;
  bytes_transferred = 2 ^ 64 - 1;
  rate_bytes_per_second = 0;
  files_transferred = 3;
  total_files = 3;
  total_file_size = 4096;
  bytes_sent = 0;
  bytes_received = 4096;
  speedup = 0;
  stats_complete = true;
  started_at = codes "2024-01-02T03:04:05Z";
  completed_at = codes "2024-01-02T03:05:05Z";
  rsync_exit_code = 0;
  message = [];
  capture_method = codes "snapshot";
  capture_time = [];
  volume_snapshot_name = [];
}

finished-HasTimes : HasTimes clock finished
finished-HasTimes = record {
  capture_time = λ e. (50, refl);
  started_at = λ e. (50, refl);
  completed_at = λ e. (50, refl);
}

abbrev after_finished : BackupJob
after_finished = (apply_source_event_to_backup_job clock finished job).0

apply_source_event_again_example :
    apply_source_event_to_backup_job (at clock 200) finished after_finished
    ≡ (after_finished, false)
apply_source_event_again_example = apply_source_event_again clock 200 finished job finished-HasTimes

apply_source_event_lem_example :
    AreDistinct after_finished.transfers
    × ((source : GoString)
        → of_source source after_finished.transfers ≡ (
            if str_eq (source_id finished) source
            then some
                (update_transfer clock
                  (new_transfer (source_id finished))
                  finished
                  (transfer_phase finished.phase)).0
            else of_source source job.transfers))
    × (after_finished.phase ≡ job.phase)
unfolding str_eq
apply_source_event_lem_example = apply_source_event_lem clock finished job refl tt

abbrev finalize : TargetCommand
finalize =
    new_finalize_backup_job_command (codes "finalize-1")
      (record { timestamp = codes "2024-01-02T03-04-05Z"; sources = []; bytes_transferred = 7 })

abbrev acknowledgement : TargetCommandAckEvent
acknowledgement = record {
  run_namespace = codes "apps";
  run_name = codes "nightly";
  run_kind = run_kind_backup;
  target_namespace = codes "apps";
  target_name = codes "nas";
  command_id = codes "finalize-1";
  command_type = target_command_finalize;
  acknowledged_at = codes "2024-01-02T03:06:05Z";
  message = [];
}

abbrev sent : BackupJob
sent = (mark_finalize_command_sent finalize 90 job).0

sent_then_acknowledged_example :
    ((apply_target_command_ack_to_backup_job clock acknowledgement sent).0.last_command ≡ (
      if str_eq finalize.command_id acknowledgement.command_id
        && str_eq finalize.type acknowledgement.command_type
      then some (record {
        id = finalize.command_id;
        type = finalize.type;
        sent_at = some 90;
        acknowledged_at = some (parse_meta_time clock acknowledgement.acknowledged_at);
      })
      else sent.last_command))
    × (((str_eq finalize.command_id acknowledgement.command_id
            && str_eq finalize.type acknowledgement.command_type)
          ≡ true)
        ⊎ (apply_target_command_ack_to_backup_job clock acknowledgement sent ≡ (sent, false)))
unfolding str_eq
sent_then_acknowledged_example =
    sent_then_acknowledged clock finalize 90 acknowledgement job refl refl

abbrev ready_condition : Condition
ready_condition = record {
  type = codes "Ready";
  status = codes "True";
  observed_generation = 1;
  last_transition_time = 70;
  reason = codes "Valid";
  message = [];
}

abbrev not_ready : Condition
not_ready = record {
  type = codes "Ready";
  status = codes "False";
  observed_generation = 1;
  last_transition_time = 0;
  reason = codes "MissingReference";
  message = [];
}

upsert_condition_lem_example :
    let conditions : List Condition = ready_condition ∷ [] in
    let (conditions', changed) = upsert_condition clock not_ready conditions in
    let stamp : Time =
      if not_ready.last_transition_time == 0 then clock.now else not_ready.last_transition_time in
    laws.AreDistinct conditions'
    × (c : Condition) × ((type : GoString)
        → find type conditions'
          ≡ (if str_eq not_ready.type type then some c else find type conditions))
    × IsUpdated stamp not_ready (find not_ready.type conditions) c changed
upsert_condition_lem_example =
    upsert_condition_lem clock not_ready (ready_condition ∷ []) (refl, tt)

new-IsTransfer : IsTransfer (new_transfer (codes "apps/db"))
new-IsTransfer = record {
  bytes_transferred = omega arith;
  rate_bytes_per_second = omega arith;
  files_transferred = omega arith;
  total_files = omega arith;
  total_file_size = omega arith;
  bytes_sent = omega arith;
  bytes_received = omega arith;
}

update_transfer-IsTransfer_example :
    IsTransfer
      (update_transfer clock (new_transfer (codes "apps/db")) finished (codes "Succeeded")).0
update_transfer-IsTransfer_example =
    update_transfer-IsTransfer clock (new_transfer (codes "apps/db")) finished (codes "Succeeded")
      new-IsTransfer

abbrev restore : RestoreJob
restore = record {
  namespace = codes "apps";
  name = codes "back";
  phase = codes "Running";
  completed_at = none;
  exit_code = 0;
  message = [];
  transfers = [];
}

abbrev restored : SourceEvent
restored = record finished { run_name = codes "back"; run_kind = run_kind_restore }

restored-HasTimes : HasTimes clock restored
restored-HasTimes = record {
  capture_time = λ e. (50, refl);
  started_at = λ e. (50, refl);
  completed_at = λ e. (50, refl);
}

abbrev after_restored : RestoreJob
after_restored = (apply_source_event_to_restore_job clock restored restore).0

apply_restore_event_again_example :
    apply_source_event_to_restore_job (at clock 200) restored after_restored
    ≡ (after_restored, false)
apply_restore_event_again_example =
    apply_restore_event_again clock 200 restored restore restored-HasTimes
