-- ===== src/Control/Service.antt =====
-- internal/control/service.go: commands for the target of each run, logged once per command id and
-- sent to the streams that registered, and reports that are published on the hub. One call at a
-- time is modelled; `clone...` has no counterpart, since commands are values.
pub mod Log
pub mod Commands
pub mod Streams
pub mod Reports
use kube_rsync_machine.Common.{
  ℕ, suc, ◌≡◌, Bool, true, false, List, [], ◌∷◌, ◌++◌, Option, none, some, Result, ok, err, ◌>>=◌,
  ◌>>◌, guard, if◌then◌else◌, ltb, length, any, keep_if, not, ◌==◌,
}
use kube_rsync_machine.Common.Int.{pos}
use kube_rsync_machine.Common.Text.{GoString, str_eq, is_empty}
use kube_rsync_machine.Common.Maps.{lookup, insert}
use kube_rsync_machine.Control.Types.{
  RunKey, RunKey_eq, RegisterTargetRequest, request_key, TargetCommand, FinalizeBackupJob,
  RecoverSpace, AbortRun, new_finalize_backup_job_command, new_recover_space_command,
  new_abort_run_command, EventAck, TargetEvent, TargetCommandAckEvent, SourceEvent,
}
use kube_rsync_machine.Control.Validate.{
  Names, ControlError, context_required, target_namespace, target_name, validate_run_key,
  validate_namespace_name, validate_object_name, validate_target_command, validate_target_event,
  validate_target_command_ack_event, validate_source_event,
}
use kube_rsync_machine.Control.Hub.{
  Hub, ControlEvent, new_hub, publish_target, publish_target_command_ack, publish_source,
}

-- A stream's address and what its channel holds, oldest first.
pub record Stream : Type 0 where
  pub id : ℕ
  pub queue : List TargetCommand

-- `targetCommandLog`; `seen` is a set.
pub record CommandLog : Type 0 where
  pub commands : List TargetCommand
  pub seen : List GoString
  pub streams : List Stream

pub record Service : Type 0 where
  pub hub : Hub
  pub buffer : ℕ
  pub runs : List (RunKey × CommandLog)

-- `NewService`; `none` is a nil hub, and 64 is `defaultTargetCommandBuffer`.
unfoldable pub new_service : Option Hub → Service
new_service none = record { hub = new_hub (pos 256); buffer = 64; runs = [] }
new_service (some hub) = record { hub = hub; buffer = 64; runs = [] }

abbrev pub no_log : CommandLog
no_log = record { commands = []; seen = []; streams = [] }

abbrev pub or_no_log : Option CommandLog → CommandLog
or_no_log none = no_log
or_no_log (some log) = log

-- The log that `runLocked` returns.
abbrev pub log_locked : RunKey → Service → CommandLog
log_locked key service = or_no_log (lookup key service.runs)

unfoldable pub check_registration :
    Names → Bool → RegisterTargetRequest → Result ControlError (Unit {0})
check_registration names has_context request = do
  guard has_context context_required
  validate_run_key names (request_key request)
  validate_namespace_name names target_namespace request.target_namespace
  validate_object_name names target_name request.target_name

-- `RegisterTarget` up to the goroutine, for a stream at address `id`: the commands that are sent
-- before those of its channel.
unfoldable pub register_target :
    Names
    → Bool
    → ℕ
    → RegisterTargetRequest
    → Service
    → Service × Result ControlError (List TargetCommand)
register_target names has_context id request service =
    elim (check_registration names has_context request) [
      | err e ↦ (service, err e)
      | ok _ ↦
          let key = request_key request in
          let log = log_locked key service in
          (
            record service {
              runs =
                  insert key
                    (record log { streams = log.streams ++ record { id = id; queue = [] } ∷ [] })
                    service.runs;
            },
            ok log.commands,
          )
    ]

-- How far a call came: it returned, or it waits for a reader to make room in a full channel.
pub data Progress : Type 0 where
  returned : Result ControlError Bool → Progress
  waiting : Progress

-- `stream.ch <- command` for each stream, and whether all were sent.
pub send_all : ℕ → List Stream → TargetCommand → List Stream × Bool
send_all buffer [] command = ([], true)
send_all buffer (s ∷ streams) command =
    let (rest, sent) = send_all buffer streams command in
    if ltb (length s.queue) buffer
    then (record s { queue = s.queue ++ command ∷ [] } ∷ rest, sent)
    else (s ∷ streams, false)

unfoldable pub check_command : Names → RunKey → TargetCommand → Result ControlError (Unit {0})
check_command names key command = do
  validate_run_key names key
  validate_target_command names command

-- `_, exists := run.seen[command.CommandID]`
abbrev pub is_seen : GoString → CommandLog → Bool
is_seen id log = any (λ s. str_eq s id) log.seen

-- The new command in the log and in the streams.
pub log_command : RunKey → TargetCommand → Service → Service × Progress
unfolding send_all
log_command key command service =
    let log = log_locked key service in
    let (streams, sent) = send_all service.buffer log.streams command in
    (
      record service {
        runs =
            insert key
              (record {
                commands = log.commands ++ command ∷ [];
                seen = log.seen ++ command.command_id ∷ [];
                streams = streams;
              })
              service.runs;
      },
      (if sent then returned (ok true) else waiting),
    )

unfoldable pub enqueue_target_command :
    Names → RunKey → TargetCommand → Service → Service × Progress
enqueue_target_command names key command service = elim (check_command names key command) [
  | err e ↦ (service, returned (err e))
  | ok _ ↦
      if is_seen command.command_id (log_locked key service)
      then (service, returned (ok false))
      else log_command key command service
]

unfoldable pub enqueue_finalize :
    Names → RunKey → GoString → FinalizeBackupJob → Service → Service × Progress
enqueue_finalize names key id finalize =
    enqueue_target_command names key (new_finalize_backup_job_command id finalize)

unfoldable pub enqueue_recover :
    Names → RunKey → GoString → RecoverSpace → Service → Service × Progress
enqueue_recover names key id recover =
    enqueue_target_command names key (new_recover_space_command id recover)

unfoldable pub enqueue_abort : Names → RunKey → GoString → AbortRun → Service → Service × Progress
enqueue_abort names key id abort = enqueue_target_command names key (new_abort_run_command id abort)

abbrev without : ℕ → List Stream → List Stream
without id = keep_if (λ s. not (s.id == id))

-- `unregisterTarget`
unfoldable pub unregister_target : RunKey → ℕ → Service → Service
unregister_target key id service = elim (lookup key service.runs) [
  | none ↦ service
  | some log ↦ record service {
    runs = insert key (record log { streams = without id log.streams }) service.runs;
  }
]

abbrev acknowledge :
    Service
    → Option (Hub × Result ControlError ControlEvent)
    → Option (Service × Result ControlError EventAck)
acknowledge service none = none
acknowledge service (some (hub, err e)) = some (record service { hub = hub }, err e)
acknowledge service (some (hub, ok event)) =
    some
      (record service { hub = hub }, ok (record { last_sequence = event.sequence; message = [] }))

-- `ReportTarget`; `none` is a call that does not return, and `now` the time of the publication.
unfoldable pub report_target :
    Names → GoString → TargetEvent → Service → Option (Service × Result ControlError EventAck)
report_target names now event service = elim (validate_target_event names event) [
  | err e ↦ some (service, err e)
  | ok _ ↦ acknowledge service (publish_target names now event service.hub)
]

-- `if event.AcknowledgedAt == "" { event.AcknowledgedAt = ... }`
abbrev pub acknowledged : GoString → TargetCommandAckEvent → TargetCommandAckEvent
acknowledged now event = record event {
  acknowledged_at = if is_empty event.acknowledged_at then now else event.acknowledged_at;
}

-- `AcknowledgeTargetCommand`; `formatted` is the present time in RFC 3339.
unfoldable pub acknowledge_target_command :
    Names
    → GoString
    → GoString
    → TargetCommandAckEvent
    → Service
    → Option (Service × Result ControlError EventAck)
acknowledge_target_command names now formatted event service =
    elim (validate_target_command_ack_event names (acknowledged formatted event)) [
      | err e ↦ some (service, err e)
      | ok _ ↦
          acknowledge service
            (publish_target_command_ack names now (acknowledged formatted event) service.hub)
    ]

-- `ReportSource`
unfoldable pub report_source :
    Names → GoString → SourceEvent → Service → Option (Service × Result ControlError EventAck)
report_source names now event service = elim (validate_source_event names event) [
  | err e ↦ some (service, err e)
  | ok _ ↦ acknowledge service (publish_source names now event service.hub)
]
