-- ===== src/Control/Types.antt =====
-- internal/control/types.go. A pointer that may be nil is an `Option`; a signed or floating number
-- that the code only copies is its bit pattern.
use kube_rsync_machine.Common.{ℕ, ◌≡◌, ◌↔◌, Bool, true, ◌&&◌, List, Option, none, some, arith}
use kube_rsync_machine.Common.Text.{GoString, codes, str_eq, str_eq_iff}
use kube_rsync_machine.Common.Eq.{Eq}

abbrev pub run_kind_backup : GoString
run_kind_backup = codes "backup"

abbrev pub run_kind_restore : GoString
run_kind_restore = codes "restore"

abbrev pub target_command_finalize : GoString
target_command_finalize = codes "finalize_backup_run"

abbrev pub target_command_recover_space : GoString
target_command_recover_space = codes "recover_space"

abbrev pub target_command_abort_run : GoString
target_command_abort_run = codes "abort_run"

pub record RunKey : Type 0 where
  pub namespace : GoString
  pub name : GoString
  pub kind : GoString

unfoldable pub run_key_eq : RunKey → RunKey → Bool
run_key_eq a b = str_eq a.namespace b.namespace && str_eq a.name b.name && str_eq a.kind b.kind

pub run_key_eq_iff : (a b : RunKey) → (run_key_eq a b ≡ true) ↔ (a ≡ b)
unfolding run_key_eq
run_key_eq_iff a b = (
  (λ h. ground (
    arith,
    str_eq_iff a.namespace b.namespace,
    str_eq_iff a.name b.name,
    str_eq_iff a.kind b.kind,
  )),
  (λ h. ground (
    arith,
    str_eq_iff a.namespace b.namespace,
    str_eq_iff a.name b.name,
    str_eq_iff a.kind b.kind,
  )),
)

instance abbrev pub RunKey_eq : Eq RunKey
RunKey_eq = record { beq = run_key_eq; beq_iff = run_key_eq_iff }

pub record RegisterTargetRequest : Type 0 where
  pub run_namespace : GoString
  pub run_name : GoString
  pub run_kind : GoString
  pub target_namespace : GoString
  pub target_name : GoString

abbrev pub request_key : RegisterTargetRequest → RunKey
request_key r = record { namespace = r.run_namespace; name = r.run_name; kind = r.run_kind }

pub record ExpectedSource : Type 0 where
  pub namespace : GoString
  pub name : GoString
  pub destination_path : GoString

pub record FinalizeBackupJob : Type 0 where
  pub timestamp : GoString
  pub sources : List ExpectedSource
  pub bytes_transferred : ℕ

pub record RecoverSpace : Type 0 where
  pub failed_source_namespace : GoString
  pub failed_source_name : GoString
  pub reason : GoString
  pub min_available_bytes : ℕ
  pub protected_snapshots : List GoString

pub record AbortRun : Type 0 where
  pub reason : GoString

pub record TargetCommand : Type 0 where
  pub command_id : GoString
  pub type : GoString
  pub finalize : Option FinalizeBackupJob
  pub recover_space : Option RecoverSpace
  pub abort : Option AbortRun

abbrev pub new_finalize_backup_job_command : GoString → FinalizeBackupJob → TargetCommand
new_finalize_backup_job_command id finalize = record {
  command_id = id;
  type = target_command_finalize;
  finalize = some finalize;
  recover_space = none;
  abort = none;
}

abbrev pub new_recover_space_command : GoString → RecoverSpace → TargetCommand
new_recover_space_command id recover = record {
  command_id = id;
  type = target_command_recover_space;
  finalize = none;
  recover_space = some recover;
  abort = none;
}

abbrev pub new_abort_run_command : GoString → AbortRun → TargetCommand
new_abort_run_command id abort = record {
  command_id = id;
  type = target_command_abort_run;
  finalize = none;
  recover_space = none;
  abort = some abort;
}

-- `TargetEventAck` and `SourceEventAck`, which have the same fields.
pub record EventAck : Type 0 where
  pub last_sequence : ℕ
  pub message : GoString

pub record TargetCommandAckEvent : Type 0 where
  pub run_namespace : GoString
  pub run_name : GoString
  pub run_kind : GoString
  pub target_namespace : GoString
  pub target_name : GoString
  pub command_id : GoString
  pub command_type : GoString
  pub acknowledged_at : GoString
  pub message : GoString

abbrev pub ack_key : TargetCommandAckEvent → RunKey
ack_key e = record { namespace = e.run_namespace; name = e.run_name; kind = e.run_kind }

pub record RestorePoint : Type 0 where
  pub snapshot : GoString
  pub resolves_to : GoString
  pub tier : GoString
  pub created_at : GoString
  pub bytes_transferred : ℕ

pub record TargetCondition : Type 0 where
  pub type : GoString
  pub status : GoString
  pub reason : GoString
  pub message : GoString
  pub last_transition_time : GoString
  pub observed_generation : ℕ

pub record TargetEvent : Type 0 where
  pub run_namespace : GoString
  pub run_name : GoString
  pub run_kind : GoString
  pub target_namespace : GoString
  pub target_name : GoString
  pub phase : GoString
  pub message : GoString
  pub snapshot : GoString
  pub bytes_freed : ℕ
  pub paths : List GoString
  pub restore_points : List RestorePoint
  pub restore_scanned : Bool
  pub conditions : List TargetCondition
  pub available_bytes : ℕ
  pub capacity_bytes : ℕ

abbrev pub target_key : TargetEvent → RunKey
target_key e = record { namespace = e.run_namespace; name = e.run_name; kind = e.run_kind }

pub record SourceEvent : Type 0 where
  pub run_namespace : GoString
  pub run_name : GoString
  pub run_kind : GoString
  pub source_namespace : GoString
  pub source_name : GoString
  pub phase : GoString
  pub percent : ℕ
  pub bytes_transferred : ℕ
  pub rate_bytes_per_second : ℕ
  pub files_transferred : ℕ
  pub total_files : ℕ
  pub total_file_size : ℕ
  pub bytes_sent : ℕ
  pub bytes_received : ℕ
  pub speedup : ℕ
  pub stats_complete : Bool
  pub started_at : GoString
  pub completed_at : GoString
  pub rsync_exit_code : ℕ
  pub message : GoString
  pub capture_method : GoString
  pub capture_time : GoString
  pub volume_snapshot_name : GoString

abbrev pub source_key : SourceEvent → RunKey
source_key e = record { namespace = e.run_namespace; name = e.run_name; kind = e.run_kind }
