-- ===== src/Controller/Transfers/Laws.antt =====
-- `updateTransfer` of internal/controller/events.go, applied once and again.
use kube_rsync_machine.Common.{ℕ, ◌^◌, ◌≡◌, ◌<◌, Bool, true, false, ◌||◌}
use kube_rsync_machine.Common.Eq.{ℕ_eq, GoString_eq}
use kube_rsync_machine.Common.Text.{GoString}
use kube_rsync_machine.Control.Types.{SourceEvent}
use kube_rsync_machine.Controller.Clock.{
  Time, Clock, at, IsTime, assign_time_again, uint64_to_int64, uint64_to_int64_le, assign,
  assign_value, assign_again, Option_eq,
}
use kube_rsync_machine.Controller.Transfers.{TransferStatus, update_transfer, nonzero, nonempty}

pub record HasTimes (clock : Clock) (event : SourceEvent) : Type 0 where
  pub capture_time : IsTime clock event.capture_time
  pub started_at : IsTime clock event.started_at
  pub completed_at : IsTime clock event.completed_at

-- Applying an event again at any later time changes nothing and says so, if its times are valid.
pub update_transfer_again :
    (clock : Clock) (now : Time) (transfer : TransferStatus) (event : SourceEvent)
    (phase : GoString)
    → HasTimes clock event
    → let transfer' = (update_transfer clock transfer event phase).0 in
      update_transfer (at clock now) transfer' event phase ≡ (transfer', false)
unfolding update_transfer
update_transfer_again clock now transfer event phase h = rw (
  assign_again true phase transfer.phase,
  assign_again (nonzero event.percent) event.percent transfer.percent,
  assign_again (nonzero event.bytes_transferred || event.stats_complete)
      (uint64_to_int64 event.bytes_transferred) transfer.bytes_transferred,
  assign_again (nonzero event.rate_bytes_per_second) (uint64_to_int64 event.rate_bytes_per_second)
      transfer.rate_bytes_per_second,
  assign_again (nonzero event.files_transferred || event.stats_complete)
      (uint64_to_int64 event.files_transferred) transfer.files_transferred,
  assign_again (nonzero event.total_files) (uint64_to_int64 event.total_files) transfer.total_files,
  assign_again (nonzero event.total_file_size) (uint64_to_int64 event.total_file_size)
      transfer.total_file_size,
  assign_again (nonzero event.bytes_sent) (uint64_to_int64 event.bytes_sent) transfer.bytes_sent,
  assign_again (nonzero event.bytes_received) (uint64_to_int64 event.bytes_received)
      transfer.bytes_received,
  assign_again (nonzero event.speedup) event.speedup transfer.speedup,
  assign_again (nonempty event.message) event.message transfer.message,
  assign_again (nonzero event.rsync_exit_code) event.rsync_exit_code transfer.exit_code,
  assign_again (nonempty event.capture_method) event.capture_method transfer.capture_method,
  assign_again (nonempty event.volume_snapshot_name) event.volume_snapshot_name
      transfer.volume_snapshot_name,
  assign_time_again clock now event.capture_time transfer.capture_time h.capture_time,
  assign_time_again clock now event.started_at transfer.started_at h.started_at,
  assign_time_again clock now event.completed_at transfer.completed_at h.completed_at,
)

-- The 64-bit counters are no negative numbers.
pub record IsTransfer (transfer : TransferStatus) : Type 0 where
  pub bytes_transferred : transfer.bytes_transferred < 2 ^ 63
  pub rate_bytes_per_second : transfer.rate_bytes_per_second < 2 ^ 63
  pub files_transferred : transfer.files_transferred < 2 ^ 63
  pub total_files : transfer.total_files < 2 ^ 63
  pub total_file_size : transfer.total_file_size < 2 ^ 63
  pub bytes_sent : transfer.bytes_sent < 2 ^ 63
  pub bytes_received : transfer.bytes_received < 2 ^ 63

assign_capped :
    (wanted : Bool) (value old : ℕ)
    → old < 2 ^ 63
    → (assign wanted (uint64_to_int64 value) old).0 < 2 ^ 63
assign_capped true value old h =
    rw (assign_value true (uint64_to_int64 value) old) (uint64_to_int64_le value)
assign_capped false value old h = rw (assign_value false (uint64_to_int64 value) old) h

-- Whatever an event reports, the counters stay below 2 ^ 63, so none of them turns negative.
pub update_transfer-IsTransfer :
    (clock : Clock) (transfer : TransferStatus) (event : SourceEvent) (phase : GoString)
    → IsTransfer transfer
    → IsTransfer (update_transfer clock transfer event phase).0
unfolding update_transfer
update_transfer-IsTransfer clock transfer event phase v = record {
  bytes_transferred = assign_capped _ _ _ v.bytes_transferred;
  rate_bytes_per_second = assign_capped _ _ _ v.rate_bytes_per_second;
  files_transferred = assign_capped _ _ _ v.files_transferred;
  total_files = assign_capped _ _ _ v.total_files;
  total_file_size = assign_capped _ _ _ v.total_file_size;
  bytes_sent = assign_capped _ _ _ v.bytes_sent;
  bytes_received = assign_capped _ _ _ v.bytes_received;
}
