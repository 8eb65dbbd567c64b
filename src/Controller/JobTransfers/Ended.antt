-- ===== src/Controller/JobTransfers/Ended.antt =====
-- `upsertBackupJobTransfer` of internal/controller/reconcilers.go on a transfer that has ended.
use kube_rsync_machine.Common.{◌≡◌, ◌⊎◌, Bool, false, List, [], ◌∷◌, some}
use kube_rsync_machine.Common.Text.{GoString, str_eq}
use kube_rsync_machine.Controller.Clock.{Clock}
use kube_rsync_machine.Controller.Transfers.{
  TransferStatus, transfer_phase_succeeded, transfer_phase_failed,
}
use kube_rsync_machine.Controller.Runs.{BackupJob}
use kube_rsync_machine.Controller.Runs.Transfers.{of_source}
use kube_rsync_machine.Controller.JobTransfers.{upsert_backup_job_transfer, retry_source}

-- The source has a transfer that is in the phase or has failed.
abbrev pub IsInPhase : GoString → GoString → List TransferStatus → Type 0
IsInPhase source phase transfers =
    (t : TransferStatus) × (of_source source transfers ≡ some t)
    × ((t.phase ≡ phase) ⊎ (t.phase ≡ transfer_phase_failed))

-- What the reconciler does to the transfers of a run: `upsertBackupJobTransfer`, or the retry of a
-- source after the recovery of space.
pub data ReconcilerStep : Type 0 where
  upserts : Clock → GoString → GoString → TransferStatus → ReconcilerStep
  retries : Clock → GoString → ReconcilerStep

abbrev pub after_step : ReconcilerStep → BackupJob → BackupJob
after_step (upserts clock namespace name status) run =
    (upsert_backup_job_transfer clock namespace name status run).0
after_step (retries clock source) run = retry_source clock source run

abbrev pub after_steps : List ReconcilerStep → BackupJob → BackupJob
after_steps [] run = run
after_steps (step ∷ steps) run = after_steps steps (after_step step run)

abbrev pub is_retry_of : GoString → ReconcilerStep → Bool
is_retry_of source (upserts clock namespace name status) = false
is_retry_of source (retries clock other) = str_eq other source

-- The transfer has succeeded or failed.
abbrev pub HasEnded : TransferStatus → Type 0
HasEnded t = (t.phase ≡ transfer_phase_succeeded) ⊎ (t.phase ≡ transfer_phase_failed)
