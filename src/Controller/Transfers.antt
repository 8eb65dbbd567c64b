-- ===== src/Controller/Transfers.antt =====
-- internal/controller/events.go: `updateTransfer` and `transferPhase`. A signed counter is its bit
-- pattern, and so is the speedup, whose negative zero and NaN are left aside.
pub mod Laws
use kube_rsync_machine.Common.{
  ℕ, ◌≡◌, Bool, true, false, not, ◌&&◌, ◌||◌, [], Option, none, some, if◌then◌else◌, ◌==◌,
}
use kube_rsync_machine.Common.Eq.{Eq, ℕ_eq, GoString_eq}
use kube_rsync_machine.Common.Text.{GoString, codes, str_eq, is_empty}
use kube_rsync_machine.Control.Types.{SourceEvent}
use kube_rsync_machine.Controller.Clock.{
  Time, Clock, parse_meta_time, uint64_to_int64, assign, Option_eq,
}

pub record TransferStatus : Type 0 where
  pub source : GoString
  pub phase : GoString
  pub percent : ℕ
  pub bytes_transferred : ℕ
  pub rate_bytes_per_second : ℕ
  pub files_transferred : ℕ
  pub total_files : ℕ
  pub total_file_size : ℕ
  pub bytes_sent : ℕ
  pub bytes_received : ℕ
  pub speedup : ℕ
  pub message : GoString
  pub exit_code : ℕ
  pub started_at : Option Time
  pub completed_at : Option Time
  pub capture_method : GoString
  pub volume_snapshot_name : GoString
  pub capture_time : Option Time

-- `krmv1alpha1.TransferStatus{Source: sourceID}`
abbrev pub new_transfer : GoString → TransferStatus
new_transfer source = record {
  source = source;
  phase = [];
  percent = 0;
  bytes_transferred = 0;
  rate_bytes_per_second = 0;
  files_transferred = 0;
  total_files = 0;
  total_file_size = 0;
  bytes_sent = 0;
  bytes_received = 0;
  speedup = 0;
  message = [];
  exit_code = 0;
  started_at = none;
  completed_at = none;
  capture_method = [];
  volume_snapshot_name = [];
  capture_time = none;
}

abbrev pub transfer_phase_preparing : GoString
transfer_phase_preparing = codes "Preparing"

abbrev pub transfer_phase_running : GoString
transfer_phase_running = codes "Running"

abbrev pub transfer_phase_succeeded : GoString
transfer_phase_succeeded = codes "Succeeded"

abbrev pub transfer_phase_failed : GoString
transfer_phase_failed = codes "Failed"

abbrev pub transfer_phase_skipped : GoString
transfer_phase_skipped = codes "Skipped"

abbrev pub transfer_phase_pending : GoString
transfer_phase_pending = codes "Pending"

-- `transferPhase`: a phase of that name, or `Pending`.
unfoldable pub transfer_phase : GoString → GoString
transfer_phase phase =
    if str_eq phase transfer_phase_preparing
    then transfer_phase_preparing
    else if str_eq phase transfer_phase_running
    then transfer_phase_running
    else if str_eq phase transfer_phase_succeeded
    then transfer_phase_succeeded
    else if str_eq phase transfer_phase_failed
    then transfer_phase_failed
    else if str_eq phase transfer_phase_skipped
    then transfer_phase_skipped
    else transfer_phase_pending

abbrev pub nonzero : ℕ → Bool
nonzero n = not (n == 0)

abbrev pub nonempty : GoString → Bool
nonempty s = not (is_empty s)

unfoldable pub update_transfer :
    Clock → TransferStatus → SourceEvent → GoString → TransferStatus × Bool
update_transfer clock transfer event phase =
    let phase = assign true phase transfer.phase in
    let percent = assign (nonzero event.percent) event.percent transfer.percent in
    let bytes =
      assign (nonzero event.bytes_transferred || event.stats_complete)
        (uint64_to_int64 event.bytes_transferred) transfer.bytes_transferred in
    let rate =
      assign (nonzero event.rate_bytes_per_second) (uint64_to_int64 event.rate_bytes_per_second)
        transfer.rate_bytes_per_second in
    let files =
      assign (nonzero event.files_transferred || event.stats_complete)
        (uint64_to_int64 event.files_transferred) transfer.files_transferred in
    let total_files =
      assign (nonzero event.total_files) (uint64_to_int64 event.total_files) transfer.total_files in
    let total_size =
      assign (nonzero event.total_file_size) (uint64_to_int64 event.total_file_size)
        transfer.total_file_size in
    let sent =
      assign (nonzero event.bytes_sent) (uint64_to_int64 event.bytes_sent) transfer.bytes_sent in
    let received =
      assign (nonzero event.bytes_received) (uint64_to_int64 event.bytes_received)
        transfer.bytes_received in
    let speedup = assign (nonzero event.speedup) event.speedup transfer.speedup in
    let message = assign (nonempty event.message) event.message transfer.message in
    let exit = assign (nonzero event.rsync_exit_code) event.rsync_exit_code transfer.exit_code in
    let method =
      assign (nonempty event.capture_method) event.capture_method transfer.capture_method in
    let snapshot =
      assign (nonempty event.volume_snapshot_name) event.volume_snapshot_name
        transfer.volume_snapshot_name in
    let captured =
      assign (nonempty event.capture_time) (some (parse_meta_time clock event.capture_time))
        transfer.capture_time in
    let started =
      assign (nonempty event.started_at) (some (parse_meta_time clock event.started_at))
        transfer.started_at in
    let completed =
      assign (nonempty event.completed_at) (some (parse_meta_time clock event.completed_at))
        transfer.completed_at in
    (
      record transfer {
        phase = phase.0;
        percent = percent.0;
        bytes_transferred = bytes.0;
        rate_bytes_per_second = rate.0;
        files_transferred = files.0;
        total_files = total_files.0;
        total_file_size = total_size.0;
        bytes_sent = sent.0;
        bytes_received = received.0;
        speedup = speedup.0;
        message = message.0;
        exit_code = exit.0;
        capture_method = method.0;
        volume_snapshot_name = snapshot.0;
        capture_time = captured.0;
        started_at = started.0;
        completed_at = completed.0;
      },
      phase.1 || percent.1 || bytes.1 || rate.1 || files.1 || total_files.1 || total_size.1
          || sent.1 || received.1 || speedup.1 || message.1 || exit.1 || method.1 || snapshot.1
          || captured.1 || started.1 || completed.1,
    )
