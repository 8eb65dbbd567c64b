-- ===== src/Controller/Runs/Commands.antt =====
-- `MarkFinalizeCommandSent` and `ApplyTargetCommandAckToBackupJob` of internal/controller/events.go.
use kube_rsync_machine.Common.{
  if◌then◌else◌, ◌⊎◌, ◌≡◌, refl, ap, ◌∙◌, true, false, ◌&&◌, Option, none, some, arith, Bool-cases,
  inl, inr,
}
use kube_rsync_machine.Common.Text.{GoString, str_eq, str_eq_iff, is_empty}
use kube_rsync_machine.Control.Types.{TargetCommand, TargetCommandAckEvent}
use kube_rsync_machine.Controller.Clock.{Time, Clock, parse_meta_time, assign_value, Option_eq}
use kube_rsync_machine.Controller.Runs.{
  BackupJob, CommandStatus, is_command, is_foreign, acknowledge_command, send_command,
  apply_target_command_ack_to_backup_job, mark_finalize_command_sent,
}

-- The last command is this one, sent at that time.
record IsSent (command : TargetCommand) (sent_at : Time) (last : CommandStatus) : Type 0 where
  same_id : last.id ≡ command.command_id
  same_type : last.type ≡ command.type
  at_time : last.sent_at ≡ some sent_at

send_command-IsSent :
    (command : TargetCommand) (sent_at : Time) (last : Option CommandStatus)
    → (status : CommandStatus) × ((send_command command sent_at last).0 ≡ some status)
      × IsSent command sent_at status
unfolding send_command
send_command-IsSent command sent_at none =
    (_, refl, record { same_id = refl; same_type = refl; at_time = refl })
send_command-IsSent command sent_at (some last) =
    elim (Bool-cases (is_command command.command_id command.type last)) [
      | inr e ↦ rw e (_, refl, record { same_id = refl; same_type = refl; at_time = refl })
      | inl e ↦ rw e (
        _,
        refl,
        record {
          same_id = ground (arith, e, str_eq_iff last.id command.command_id);
          same_type = ground (arith, e, str_eq_iff last.type command.type);
          at_time = assign_value true (some sent_at) last.sent_at;
        },
      )
    ]

acknowledge_same :
    (clock : Clock) (event : TargetCommandAckEvent) (status : CommandStatus)
    → is_command event.command_id event.command_type status ≡ true
    → (acknowledge_command clock event (some status)).0
      ≡ some
          (record status { acknowledged_at = some (parse_meta_time clock event.acknowledged_at) })
unfolding acknowledge_command
acknowledge_same clock event status e = rw e (
    ap (λ t. some (record status { acknowledged_at = t }))
      (assign_value true (some (parse_meta_time clock event.acknowledged_at))
        status.acknowledged_at))

acknowledge_other :
    (clock : Clock) (event : TargetCommandAckEvent) (status : CommandStatus)
    → is_command event.command_id event.command_type status ≡ false
    → acknowledge_command clock event (some status) ≡ (some status, false)
unfolding acknowledge_command
acknowledge_other clock event status e = rw e refl

is_command_lem :
    (id type : GoString) (command : TargetCommand) (sent_at : Time) (status : CommandStatus)
    → IsSent command sent_at status
    → is_command id type status ≡ (str_eq command.command_id id && str_eq command.type type)
is_command_lem id type command sent_at status v = rw (v.same_id, v.same_type) refl

-- Once a command is marked as sent, an acknowledgement for the run that names its id and type is
-- recorded beside the time it was sent at; one that names another id or type changes nothing.
pub sent_then_acknowledged :
    (clock : Clock) (command : TargetCommand) (sent_at : Time) (event : TargetCommandAckEvent)
    (run : BackupJob)
    → is_empty command.command_id ≡ false
    → is_foreign event.run_namespace event.run_name event.run_kind run ≡ false
    → let sent = (mark_finalize_command_sent command sent_at run).0 in
      let acknowledged = apply_target_command_ack_to_backup_job clock event sent in
      let matches =
        str_eq command.command_id event.command_id && str_eq command.type event.command_type in
      (acknowledged.0.last_command ≡ (
        if matches
        then some (record {
          id = command.command_id;
          type = command.type;
          sent_at = some sent_at;
          acknowledged_at = some (parse_meta_time clock event.acknowledged_at);
        })
        else sent.last_command))
      × ((matches ≡ true) ⊎ (acknowledged ≡ (sent, false)))
unfolding mark_finalize_command_sent apply_target_command_ack_to_backup_job
sent_then_acknowledged clock command sent_at event run named own =
    let (status, e, v) = send_command-IsSent command sent_at run.last_command in
    let matches = is_command_lem event.command_id event.command_type command sent_at status v in
    elim (Bool-cases
      (str_eq command.command_id event.command_id && str_eq command.type event.command_type)) [
        | inl hit ↦ (
          rw (named, own, e, hit)
              (acknowledge_same clock event status (matches ∙ hit)
                ∙ rw (v.same_id, v.same_type, v.at_time) refl),
          inl hit,
        )
        | inr miss ↦ (
          rw (named, own, e, miss)
              (rw (acknowledge_other clock event status (matches ∙ miss)) refl),
          inr (
              rw (named, own, e) (rw (acknowledge_other clock event status (matches ∙ miss)) refl)),
        )
      ]
