-- ===== src/Control/Validate.antt =====
-- internal/control: `RunKey.Validate` of types.go and the validators of service.go. The name tests
-- of k8s.io/apimachinery and the reading of RFC 3339 times are the section's parameters. Each error
-- carries what its text names.
use kube_rsync_machine.Common.{
  ℕ, Bool, true, false, ◌||◌, List, [], ◌∷◌, Option, none, some, Result, ok, err, ◌>>◌, refuse,
  guard, if◌then◌else◌, ◌==◌, suc, map_err,
}
use kube_rsync_machine.Common.Text.{GoString, is_empty, str_eq}
use kube_rsync_machine.Control.Types.{
  RunKey, TargetEvent, TargetCommandAckEvent, SourceEvent, TargetCommand, FinalizeBackupJob,
  RecoverSpace, ExpectedSource, target_key, ack_key, source_key, run_kind_backup, run_kind_restore,
  target_command_finalize, target_command_recover_space, target_command_abort_run,
}

pub data Field : Type 0 where
  run_namespace run_name run_kind target_namespace target_name target_phase : Field
  source_namespace source_name source_phase command_id command_type acknowledged_at : Field
  expected_source_namespace expected_source_name failed_source_namespace : Field
  failed_source_name finalize_timestamp recover_reason min_available_bytes : Field
  finalize_payload recover_payload abort_payload : Field

pub data ControlError : Type 0 where
  required invalid unsupported other_payloads : Field → ControlError
  expected_source : ℕ → ControlError → ControlError
  destination_path_required : ControlError
  protected_snapshot_required : ℕ → ControlError
  context_required : ControlError
  unsupported_event_kind : GoString → ControlError
  target_payload_required command_ack_payload_required source_payload_required : ControlError

-- What the code takes from elsewhere: `validation.IsDNS1123Label` and `IsDNS1123Subdomain`, true
-- when they report nothing, and whether `time.Parse(time.RFC3339, value)` succeeds.
pub record Names : Type 0 where
  pub is_dns1123_label : GoString → Bool
  pub is_dns1123_subdomain : GoString → Bool
  pub is_rfc3339 : GoString → Bool

-- `pointer != nil`
abbrev pub is_set {ℓ} : {A : Type ℓ} → Option A → Bool
is_set none = false
is_set (some a) = true

module _ (names : Names) where
  pub validate_namespace_name : Field → GoString → Result ControlError (Unit {0})
  validate_namespace_name field value = do
    refuse (is_empty value) (required field)
    guard (names.is_dns1123_label value) (invalid field)

  pub validate_object_name : Field → GoString → Result ControlError (Unit {0})
  validate_object_name field value = do
    refuse (is_empty value) (required field)
    guard (names.is_dns1123_subdomain value) (invalid field)

  pub validate_run_kind : GoString → Result ControlError (Unit {0})
  validate_run_kind kind =
      if str_eq kind run_kind_backup || str_eq kind run_kind_restore
      then ok tt
      else if is_empty kind
      then err (required run_kind)
      else err (unsupported run_kind)

  unfoldable pub validate_run_key : RunKey → Result ControlError (Unit {0})
  unfolding validate_namespace_name validate_object_name validate_run_kind
  validate_run_key key = do
    validate_namespace_name run_namespace key.namespace
    validate_object_name run_name key.name
    validate_run_kind key.kind

  unfoldable pub validate_target_event : TargetEvent → Result ControlError (Unit {0})
  unfolding validate_namespace_name validate_object_name
  validate_target_event event = do
    validate_run_key (target_key event)
    validate_namespace_name target_namespace event.target_namespace
    validate_object_name target_name event.target_name
    refuse (is_empty event.phase) (required target_phase)

  pub validate_command_id : GoString → Result ControlError (Unit {0})
  validate_command_id id = do
    refuse (is_empty id) (required command_id)
    guard (names.is_dns1123_subdomain id) (invalid command_id)

  pub validate_command_type : GoString → Result ControlError (Unit {0})
  validate_command_type type =
      if str_eq type target_command_finalize
        || str_eq type target_command_recover_space
        || str_eq type target_command_abort_run
      then ok tt
      else if is_empty type
      then err (required command_type)
      else err (unsupported command_type)

  unfoldable pub validate_target_command_ack_event :
      TargetCommandAckEvent → Result ControlError (Unit {0})
  unfolding validate_namespace_name validate_object_name validate_command_id validate_command_type
  validate_target_command_ack_event event = do
    validate_run_key (ack_key event)
    validate_namespace_name target_namespace event.target_namespace
    validate_object_name target_name event.target_name
    validate_command_id event.command_id
    validate_command_type event.command_type
    guard (names.is_rfc3339 event.acknowledged_at) (invalid acknowledged_at)

  unfoldable pub validate_source_event : SourceEvent → Result ControlError (Unit {0})
  unfolding validate_namespace_name validate_object_name
  validate_source_event event = do
    validate_run_key (source_key event)
    validate_namespace_name source_namespace event.source_namespace
    validate_object_name source_name event.source_name
    refuse (is_empty event.phase) (required source_phase)

  -- The loop of `validateFinalizeBackupJob`, from index `i` on.
  pub validate_expected_sources : ℕ → List ExpectedSource → Result ControlError (Unit {0})
  validate_expected_sources i [] = ok tt
  validate_expected_sources i (source ∷ sources) =
      let rest = validate_expected_sources (suc i) sources in
      (do
        map_err (expected_source i)
            (validate_namespace_name expected_source_namespace source.namespace)
        map_err (expected_source i) (validate_object_name expected_source_name source.name)
        refuse (is_empty source.destination_path) (expected_source i destination_path_required)
        rest)

  pub validate_finalize_backup_job : FinalizeBackupJob → Result ControlError (Unit {0})
  validate_finalize_backup_job finalize = do
    refuse (is_empty finalize.timestamp) (required finalize_timestamp)
    validate_expected_sources 0 finalize.sources

  -- The loop of `validateRecoverSpace`, from index `i` on.
  pub validate_protected_snapshots : ℕ → List GoString → Result ControlError (Unit {0})
  validate_protected_snapshots i [] = ok tt
  validate_protected_snapshots i (snapshot ∷ snapshots) =
      let rest = validate_protected_snapshots (suc i) snapshots in
      if is_empty snapshot then err (protected_snapshot_required i) else rest

  pub validate_recover_space : RecoverSpace → Result ControlError (Unit {0})
  validate_recover_space recover = do
    validate_namespace_name failed_source_namespace recover.failed_source_namespace
    validate_object_name failed_source_name recover.failed_source_name
    refuse (is_empty recover.reason) (required recover_reason)
    refuse (recover.min_available_bytes == 0) (required min_available_bytes)
    validate_protected_snapshots 0 recover.protected_snapshots

  pub validate_finalize_payload : Option FinalizeBackupJob → Bool → Result ControlError (Unit {0})
  validate_finalize_payload none others = err (required finalize_payload)
  validate_finalize_payload (some finalize) others = do
    refuse others (other_payloads finalize_payload)
    validate_finalize_backup_job finalize

  pub validate_recover_payload : Option RecoverSpace → Bool → Result ControlError (Unit {0})
  validate_recover_payload none others = err (required recover_payload)
  validate_recover_payload (some recover) others = do
    refuse others (other_payloads recover_payload)
    validate_recover_space recover

  unfoldable pub validate_target_command : TargetCommand → Result ControlError (Unit {0})
  unfolding validate_command_id validate_finalize_payload validate_recover_payload
  validate_target_command command = do
    validate_command_id command.command_id
    if str_eq command.type target_command_finalize
        then validate_finalize_payload command.finalize
            (is_set command.recover_space || is_set command.abort)
        else if str_eq command.type target_command_recover_space
        then validate_recover_payload command.recover_space
            (is_set command.finalize || is_set command.abort)
        else if str_eq command.type target_command_abort_run
        then (do
          guard (is_set command.abort) (required abort_payload)
          refuse (is_set command.finalize || is_set command.recover_space)
              (other_payloads abort_payload))
        else if is_empty command.type
        then err (required command_type)
        else err (unsupported command_type)
