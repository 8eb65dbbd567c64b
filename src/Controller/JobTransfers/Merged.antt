-- ===== src/Controller/JobTransfers/Merged.antt =====
-- `mergeBackupJobTransferStatus` of internal/controller/reconcilers.go and the loop that calls it,
-- called again.
use kube_rsync_machine.Common.{
  ◌≡◌, refl, ap, ◌∙◌, Bool, true, false, List, [], ◌∷◌, arith, Bool-cases, inl, inr, not, ◌||◌,
  ◌&&◌,
}
use kube_rsync_machine.Common.Eq.{ℕ_eq, GoString_eq}
use kube_rsync_machine.Common.Text.{GoString, str_eq, str_eq_refl}
use kube_rsync_machine.Controller.Clock.{assign, assign_self, assign_again, Option_eq}
use kube_rsync_machine.Controller.Transfers.{
  TransferStatus, nonempty, nonzero, transfer_phase_failed,
}
use kube_rsync_machine.Controller.JobTransfers.{
  transfer_phase_terminal, merge_phase, is_some, merge_backup_job_transfer_status, upsert_transfer,
}

merge_phase_again :
    (new old : GoString)
    → merge_phase new (merge_phase new old).0 ≡ ((merge_phase new old).0, false)
unfolding merge_phase assign
merge_phase_again new old = ground (arith, GoString_eq.beq_iff old new, GoString_eq.beq_iff new new)

merge_again :
    (old status : TransferStatus)
    → let merged = (merge_backup_job_transfer_status old status).0 in
      merge_backup_job_transfer_status merged status ≡ (merged, false)
unfolding merge_backup_job_transfer_status
merge_again old status =
    rw
      (
        merge_phase_again status.phase old.phase,
        assign_again (nonempty status.message) status.message old.message,
        assign_again (nonzero status.exit_code) status.exit_code old.exit_code,
        assign_again (nonempty status.capture_method) status.capture_method old.capture_method,
        assign_again (nonempty status.volume_snapshot_name) status.volume_snapshot_name
            old.volume_snapshot_name,
        assign_again (is_some status.capture_time) status.capture_time old.capture_time,
      )
      refl

merge_self :
    (status : TransferStatus) → merge_backup_job_transfer_status status status ≡ (status, false)
unfolding merge_backup_job_transfer_status merge_phase
merge_self status =
    rw
      (
        assign_self
            (nonempty status.phase
              && (str_eq status.phase transfer_phase_failed
                  || not (transfer_phase_terminal status.phase)))
            status.phase,
        assign_self (nonempty status.message) status.message,
        assign_self (nonzero status.exit_code) status.exit_code,
        assign_self (nonempty status.capture_method) status.capture_method,
        assign_self (nonempty status.volume_snapshot_name) status.volume_snapshot_name,
        assign_self (is_some status.capture_time) status.capture_time,
      )
      refl

pub merge-source :
    (old status : TransferStatus)
    → (merge_backup_job_transfer_status old status).0.source ≡ old.source
unfolding merge_backup_job_transfer_status
merge-source old status = refl

abbrev pub merged_first : List TransferStatus → TransferStatus × Bool → List TransferStatus × Bool
merged_first transfers merged = (merged.0 ∷ transfers, merged.1)

pub upsert_first :
    (status transfer : TransferStatus) (transfers : List TransferStatus)
    → str_eq transfer.source status.source ≡ true
    → upsert_transfer status (transfer ∷ transfers)
      ≡ merged_first transfers (merge_backup_job_transfer_status transfer status)
unfolding upsert_transfer
upsert_first status transfer transfers e = rw e refl

pub upsert_later :
    (status transfer : TransferStatus) (transfers : List TransferStatus)
    → str_eq transfer.source status.source ≡ false
    → upsert_transfer status (transfer ∷ transfers)
      ≡ (transfer ∷ (upsert_transfer status transfers).0, (upsert_transfer status transfers).1)
unfolding upsert_transfer
upsert_later status transfer transfers e = rw e refl

upsert_nil : (status : TransferStatus) → upsert_transfer status [] ≡ (status ∷ [], true)
unfolding upsert_transfer
upsert_nil status = refl

-- The second time no transfer changes.
pub upsert_transfer_again :
    (status : TransferStatus) (transfers : List TransferStatus)
    → let upserted = (upsert_transfer status transfers).0 in
      upsert_transfer status upserted ≡ (upserted, false)
upsert_transfer_again status [] = rw (upsert_nil status) (
    upsert_first status status [] (str_eq_refl status.source)
    ∙ ap (merged_first []) (merge_self status))
upsert_transfer_again status (transfer ∷ transfers) =
    elim (Bool-cases (str_eq transfer.source status.source)) [
      | inl e ↦
          let merged = (merge_backup_job_transfer_status transfer status).0 in
          let own : str_eq merged.source status.source ≡ true =
            ap (λ s. str_eq s status.source) (merge-source transfer status) ∙ e in
          rw (upsert_first status transfer transfers e) (
            upsert_first status merged transfers own
            ∙ ap (merged_first transfers) (merge_again transfer status))
      | inr e ↦
          rw
            (
              upsert_later status transfer transfers e,
              upsert_later status transfer (upsert_transfer status transfers).0 e,
              upsert_transfer_again status transfers,
            )
            refl
    ]
