-- ===== src/Controller/JobTransfers/Again.antt =====
-- `upsertBackupJobTransfer` of internal/controller/reconcilers.go, called again.
use kube_rsync_machine.Common.{
  ◌≡◌, ◌++◌, refl, ap, Bool, true, false, List, arith, Bool-cases, inl, inr,
}
use kube_rsync_machine.Common.Eq.{ℕ_eq, GoString_eq}
use kube_rsync_machine.Common.Text.{GoString, codes, str_eq, str_ne}
use kube_rsync_machine.Controller.Clock.{Time, Clock, at, then_change, Option_eq}
use kube_rsync_machine.Controller.Transfers.{
  TransferStatus, transfer_phase_preparing, transfer_phase_succeeded, transfer_phase_failed,
  transfer_phase_skipped,
}
use kube_rsync_machine.Controller.Runs.{BackupJob, set_run_condition}
use kube_rsync_machine.Controller.Runs.Sources.{one_again, two_again, with_conditions}
use kube_rsync_machine.Controller.JobTransfers.Merged.{upsert_transfer_again}
use kube_rsync_machine.Controller.JobTransfers.{
  upsert_transfer, capture_mode_volume_snapshot, set_transfer_status_conditions, upsert_status,
  upsert_backup_job_transfer,
}

pub set_transfer_status_conditions-frame :
    (clock : Clock) (status : TransferStatus) (run : BackupJob)
    → (set_transfer_status_conditions clock status run).0
      ≡ with_conditions (set_transfer_status_conditions clock status run).0.conditions run
unfolding set_transfer_status_conditions set_run_condition then_change
set_transfer_status_conditions-frame clock status run = ground arith

one_then_again :
    (clock clock' : Clock) (type status reason message : GoString) (run : BackupJob)
    → let set : Clock → BackupJob → BackupJob × Bool =
        λ c r. then_change (set_run_condition c type status reason message r) (λ r. (r, false)) in
      set clock' (set clock run).0 ≡ ((set clock run).0, false)
unfolding then_change
one_then_again clock clock' type status reason message run =
    rw (one_again clock clock' type status reason message run) refl

then_one_again :
    (clock clock' : Clock) (type status reason message : GoString) (run : BackupJob)
    → let set : Clock → BackupJob → BackupJob × Bool =
        λ c r. then_change (r, false) (set_run_condition c type status reason message) in
      set clock' (set clock run).0 ≡ ((set clock run).0, false)
unfolding then_change
then_one_again clock clock' type status reason message run =
    one_again clock clock' type status reason message run

by_snapshot_again :
    (clock : Clock) (now : Time) (status : TransferStatus) (run : BackupJob)
    → str_eq status.capture_method capture_mode_volume_snapshot ≡ true
    → let run' = (set_transfer_status_conditions clock status run).0 in
      set_transfer_status_conditions (at clock now) status run' ≡ (run', false)
unfolding set_transfer_status_conditions str_eq
by_snapshot_again clock now status run v =
    elim (Bool-cases (str_eq status.phase transfer_phase_preparing)) [
      | inl e ↦
          rw (v, e)
            (two_again clock (at clock now) _ _ _ _ _ _ _ _ run
              (str_ne (codes "Transport") (codes "SnapshotCapture") refl))
      | inr a ↦ elim (Bool-cases (str_eq status.phase transfer_phase_succeeded)) [
        | inl e ↦
            rw (v, a, e)
              (two_again clock (at clock now) _ _ _ _ _ _ _ _ run
                (str_ne (codes "SnapshotCapture") (codes "Transport") refl))
        | inr b ↦ elim (Bool-cases (str_eq status.phase transfer_phase_failed)) [
          | inl e ↦
              rw (v, a, b, e)
                (two_again clock (at clock now) _ _ _ _ _ _ _ _ run
                  (str_ne (codes "Failed") (codes "SnapshotCapture") refl))
          | inr c ↦ elim (Bool-cases (str_eq status.phase transfer_phase_skipped)) [
            | inl e ↦ rw (v, a, b, c, e) (one_again clock (at clock now) _ _ _ _ run)
            | inr d ↦ rw (v, a, b, c, d) refl
          ]
        ]
      ]
    ]

directly_again :
    (clock : Clock) (now : Time) (status : TransferStatus) (run : BackupJob)
    → str_eq status.capture_method capture_mode_volume_snapshot ≡ false
    → let run' = (set_transfer_status_conditions clock status run).0 in
      set_transfer_status_conditions (at clock now) status run' ≡ (run', false)
unfolding set_transfer_status_conditions str_eq
directly_again clock now status run v =
    elim (Bool-cases (str_eq status.phase transfer_phase_preparing)) [
      | inl e ↦ rw (v, e) (then_one_again clock (at clock now) _ _ _ _ run)
      | inr a ↦ elim (Bool-cases (str_eq status.phase transfer_phase_succeeded)) [
        | inl e ↦ rw (v, a, e) (one_then_again clock (at clock now) _ _ _ _ run)
        | inr b ↦ elim (Bool-cases (str_eq status.phase transfer_phase_failed)) [
          | inl e ↦
              rw (v, a, b, e)
                (two_again clock (at clock now) _ _ _ _ _ _ _ _ run
                  (str_ne (codes "Failed") (codes "Transport") refl))
          | inr c ↦ elim (Bool-cases (str_eq status.phase transfer_phase_skipped)) [
            | inl e ↦ rw (v, a, b, c, e) (one_again clock (at clock now) _ _ _ _ run)
            | inr d ↦ rw (v, a, b, c, d) refl
          ]
        ]
      ]
    ]

set_transfer_status_conditions_again :
    (clock : Clock) (now : Time) (status : TransferStatus) (run : BackupJob)
    → let run' = (set_transfer_status_conditions clock status run).0 in
      set_transfer_status_conditions (at clock now) status run' ≡ (run', false)
set_transfer_status_conditions_again clock now status run =
    elim (Bool-cases (str_eq status.capture_method capture_mode_volume_snapshot)) [
      | inl v ↦ by_snapshot_again clock now status run v
      | inr v ↦ directly_again clock now status run v
    ]

abbrev pub with_transfers : List TransferStatus → BackupJob → BackupJob
with_transfers transfers run = record run { transfers = transfers }

-- One call that has nothing to change.
settled_upsert :
    (clock : Clock) (status : TransferStatus) (run : BackupJob)
    → upsert_transfer status run.transfers ≡ (run.transfers, false)
    → set_transfer_status_conditions clock status run ≡ (run, false)
    → upsert_status clock status run ≡ (run, false)
unfolding upsert_status then_change
settled_upsert clock status run e f = rw (e, f) refl

pub upsert_status_shown :
    (clock : Clock) (status : TransferStatus) (run : BackupJob)
    → (upsert_status clock status run).0
      ≡ (set_transfer_status_conditions clock status
          (with_transfers (upsert_transfer status run.transfers).0 run)).0
unfolding upsert_status then_change
upsert_status_shown clock status run = refl

upsert_status_again :
    (clock : Clock) (now : Time) (status : TransferStatus) (run : BackupJob)
    → let run' = (upsert_status clock status run).0 in
      upsert_status (at clock now) status run' ≡ (run', false)
upsert_status_again clock now status run =
    let changed = with_transfers (upsert_transfer status run.transfers).0 run in
    let shown : (upsert_status clock status run).0
        ≡ (set_transfer_status_conditions clock status changed).0 =
      upsert_status_shown clock status run in
    let same : (set_transfer_status_conditions clock status changed).0.transfers
        ≡ (upsert_transfer status run.transfers).0 =
      ap (λ r. r.transfers) (set_transfer_status_conditions-frame clock status changed) in
    rw shown (
      settled_upsert (at clock now) status (set_transfer_status_conditions clock status changed).0
        (rw same (upsert_transfer_again status run.transfers))
        (set_transfer_status_conditions_again clock now status changed))

-- What the reconciler has written of a source's transfer and writes again, at any later time,
-- changes nothing in the backup run, and the second call says so.
pub upsert_backup_job_transfer_again :
    (clock : Clock) (now : Time) (namespace name : GoString) (status : TransferStatus)
    (run : BackupJob)
    → let run' = (upsert_backup_job_transfer clock namespace name status run).0 in
      upsert_backup_job_transfer (at clock now) namespace name status run' ≡ (run', false)
unfolding upsert_backup_job_transfer
upsert_backup_job_transfer_again clock now namespace name status run =
    upsert_status_again clock now (record status { source = namespace ++ (codes "/" ++ name) }) run
