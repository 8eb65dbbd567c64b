-- ===== src/Tests/JobTransfers.antt =====
-- A reconciler that writes the same of a source's transfer twice.
use kube_rsync_machine.Common.{◌≡◌, refl, true, false, List, [], ◌∷◌, none}
use kube_rsync_machine.Common.Text.{codes, str_eq}
use kube_rsync_machine.Controller.Clock.{Clock, at, assign}
use kube_rsync_machine.Controller.Transfers.{TransferStatus, new_transfer}
use kube_rsync_machine.Controller.Runs.{BackupJob}
use kube_rsync_machine.Controller.JobTransfers.{
  transfer_phase_terminal, merge_phase, merge_backup_job_transfer_status, upsert_transfer,
  upsert_backup_job_transfer,
}
use kube_rsync_machine.Controller.JobTransfers.Again.{upsert_backup_job_transfer_again}
use kube_rsync_machine.Controller.JobTransfers.Ended.{ReconcilerStep, upserts, retries}

abbrev clock : Clock
clock = record { now = 100; parse = λ text. none }

abbrev succeeded : TransferStatus
succeeded = record (new_transfer (codes "apps/db")) {
  phase = codes "Succeeded";
  capture_method = codes "VolumeSnapshot";
}

abbrev preparing : TransferStatus
preparing = record (new_transfer (codes "apps/db")) {
  phase = codes "Preparing";
  message = codes "waits";
}

abbrev run : BackupJob
run = record {
  namespace = codes "apps";
  name = codes "nightly";
  generation = 1;
  phase = codes "Running";
  completed_at = none;
  snapshot_path = [];
  target_phase = codes "Ready";
  last_command = none;
  transfers = succeeded ∷ [];
  conditions = [];
}

-- What has succeeded is not prepared again, but the message is new.
stays :
    upsert_transfer preparing (succeeded ∷ [])
    ≡ (record succeeded { message = codes "waits" } ∷ [], true)
unfolding upsert_transfer merge_backup_job_transfer_status merge_phase transfer_phase_terminal
    assign str_eq
stays = refl

upsert_backup_job_transfer_again_example :
    let run' : BackupJob =
      (upsert_backup_job_transfer clock (codes "apps") (codes "db") preparing run).0 in
    upsert_backup_job_transfer (at clock 200) (codes "apps") (codes "db") preparing run'
    ≡ (run', false)
upsert_backup_job_transfer_again_example =
    upsert_backup_job_transfer_again clock 200 (codes "apps") (codes "db") preparing run

-- The source is prepared again, and another one is retried.
abbrev steps : List ReconcilerStep
steps = upserts clock (codes "apps") (codes "db") preparing ∷ retries clock (codes "apps/web") ∷ []
