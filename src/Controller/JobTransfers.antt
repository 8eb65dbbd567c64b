-- ===== src/Controller/JobTransfers.antt =====
-- internal/controller/reconcilers.go: what the reconciler writes into the transfers of a
-- `BackupJob`: `upsertBackupJobTransfer` with `mergeBackupJobTransferStatus` and
-- `setTransferStatusConditions`. An exit code is its bit pattern.
pub mod Merged
pub mod Again
pub mod Ended
use kube_rsync_machine.Common.{
  ◌≡◌, Bool, true, false, not, ◌&&◌, ◌||◌, List, [], ◌∷◌, ◌++◌, Option, none, some, if◌then◌else◌,
}
use kube_rsync_machine.Common.Eq.{Eq, ℕ_eq, GoString_eq}
use kube_rsync_machine.Common.Text.{GoString, codes, str_eq, is_empty}
use kube_rsync_machine.Controller.Clock.{Clock, assign, then_change, Option_eq}
use kube_rsync_machine.Controller.Transfers.{
  TransferStatus, nonempty, nonzero, transfer_phase_preparing, transfer_phase_succeeded,
  transfer_phase_failed, transfer_phase_skipped,
}
use kube_rsync_machine.Controller.Runs.{BackupJob, set_run_condition}

-- `transferPhaseTerminal`
unfoldable pub transfer_phase_terminal : GoString → Bool
transfer_phase_terminal phase =
    str_eq phase transfer_phase_succeeded || str_eq phase transfer_phase_failed

unfoldable pub merge_phase : GoString → GoString → GoString × Bool
unfolding transfer_phase_terminal
merge_phase new old =
    assign (nonempty new && (str_eq new transfer_phase_failed || not (transfer_phase_terminal old)))
      new old

abbrev pub is_some : {A : Type 0} → Option A → Bool
is_some none = false
is_some (some x) = true

-- `mergeBackupJobTransferStatus`
unfoldable pub merge_backup_job_transfer_status :
    TransferStatus → TransferStatus → TransferStatus × Bool
unfolding merge_phase
merge_backup_job_transfer_status existing update =
    let phase = merge_phase update.phase existing.phase in
    let message = assign (nonempty update.message) update.message existing.message in
    let exit = assign (nonzero update.exit_code) update.exit_code existing.exit_code in
    let method =
      assign (nonempty update.capture_method) update.capture_method existing.capture_method in
    let snapshot =
      assign (nonempty update.volume_snapshot_name) update.volume_snapshot_name
        existing.volume_snapshot_name in
    let captured = assign (is_some update.capture_time) update.capture_time existing.capture_time in
    (
      record existing {
        phase = phase.0;
        message = message.0;
        exit_code = exit.0;
        capture_method = method.0;
        volume_snapshot_name = snapshot.0;
        capture_time = captured.0;
      },
      phase.1 || message.1 || exit.1 || method.1 || snapshot.1 || captured.1,
    )

-- The loop of `upsertBackupJobTransfer`, and the transfer that is appended after it.
unfoldable pub upsert_transfer : TransferStatus → List TransferStatus → List TransferStatus × Bool
unfolding merge_backup_job_transfer_status
upsert_transfer status [] = (status ∷ [], true)
upsert_transfer status (transfer ∷ transfers) =
    let merged = merge_backup_job_transfer_status transfer status in
    let rest = upsert_transfer status transfers in
    if str_eq transfer.source status.source
    then (merged.0 ∷ transfers, merged.1)
    else (transfer ∷ rest.0, rest.1)

abbrev pub capture_mode_volume_snapshot : GoString
capture_mode_volume_snapshot = codes "VolumeSnapshot"

abbrev pub transfer_message : TransferStatus → GoString
transfer_message status =
    if is_empty status.message then codes "Source transfer " ++ status.phase else status.message

-- `setTransferStatusConditions`
unfoldable pub set_transfer_status_conditions :
    Clock → TransferStatus → BackupJob → BackupJob × Bool
set_transfer_status_conditions clock status run =
    let message = transfer_message status in
    let by_snapshot = str_eq status.capture_method capture_mode_volume_snapshot in
    if str_eq status.phase transfer_phase_preparing
    then then_change
        (if by_snapshot
          then set_run_condition clock (codes "SnapshotCapture") (codes "Unknown")
              (codes "SnapshotPreparing") message run
          else (run, false))
        (set_run_condition clock (codes "Transport") (codes "Unknown") (codes "TransportRunning")
          message)
    else if str_eq status.phase transfer_phase_succeeded
    then then_change
        (set_run_condition clock (codes "Transport") (codes "True") (codes "TransportComplete")
          message run)
        (λ r.
          if by_snapshot
          then set_run_condition clock (codes "SnapshotCapture") (codes "True")
              (codes "SnapshotReady") (codes "VolumeSnapshot capture is ready") r
          else (r, false))
    else if str_eq status.phase transfer_phase_failed
    then then_change
        (if by_snapshot
          then set_run_condition clock (codes "SnapshotCapture") (codes "False")
              (codes "SnapshotFailed") message run
          else set_run_condition clock (codes "Transport") (codes "False") (codes "TransportFailed")
              message run)
        (set_run_condition clock (codes "Failed") (codes "True") (codes "RunFailed") message)
    else if str_eq status.phase transfer_phase_skipped
    then set_run_condition clock (codes "SnapshotCapture") (codes "False") (codes "SnapshotSkipped")
        message run
    else (run, false)

unfoldable pub upsert_status : Clock → TransferStatus → BackupJob → BackupJob × Bool
unfolding upsert_transfer set_transfer_status_conditions
upsert_status clock status run =
    let transfers = upsert_transfer status run.transfers in
    then_change (record run { transfers = transfers.0 }, transfers.1)
      (set_transfer_status_conditions clock status)

-- `upsertBackupJobTransfer`; the source's namespace and name are joined by '/'.
unfoldable pub upsert_backup_job_transfer :
    Clock → GoString → GoString → TransferStatus → BackupJob → BackupJob × Bool
unfolding upsert_status
upsert_backup_job_transfer clock namespace name status =
    upsert_status clock (record status { source = namespace ++ (codes "/" ++ name) })

-- The transfer of the source in `reconcileRecoverableSourceJobFailure`, and whether there is one.
unfoldable pub reset_transfer : GoString → List TransferStatus → List TransferStatus × Bool
reset_transfer source [] = ([], false)
reset_transfer source (transfer ∷ transfers) =
    let rest = reset_transfer source transfers in
    if str_eq transfer.source source
    then (
      record transfer {
        phase = transfer_phase_preparing;
        message = codes "Retrying after target space recovery";
        exit_code = 0;
      }
          ∷ transfers,
      true,
    )
    else (transfer ∷ rest.0, rest.1)

-- The status that `reconcileRecoverableSourceJobFailure` writes when it retries a source whose
-- transfer had found no space, once the target's recovery is acknowledged and the failed job deleted.
unfoldable pub retry_source : Clock → GoString → BackupJob → BackupJob
unfolding reset_transfer
retry_source clock source run =
    let reset = reset_transfer source run.transfers in
    let resumed = record run {
      phase = codes "Running";
      completed_at = none;
      transfers = reset.0;
    } in
    let failed =
      (set_run_condition clock (codes "Failed") (codes "False") (codes "RunStarted")
        (codes "BackupJob recovered target space and is retrying") resumed).0 in
    let transport =
      (set_run_condition clock (codes "Transport") (codes "Unknown") (codes "TransportRunning")
        (codes "Retrying source transfer after target space recovery") failed).0 in
    if reset.1 then transport else run
