-- ===== src/Tests/Service.antt =====
-- The service of internal/control/service.go at concrete inputs.
use kube_rsync_machine.Common.{
  ◌+◌, ◌%◌, ◌^◌, ◌≡◌, refl, true, false, List, [], ◌∷◌, ◌++◌, none, some, ok, err, arith, ◌⊎◌,
}
use kube_rsync_machine.Common.Text.{codes, str_eq}
use kube_rsync_machine.Common.Maps.{lookup}
use kube_rsync_machine.Control.Types.{
  RegisterTargetRequest, TargetCommand, run_kind_backup, new_abort_run_command,
}
use kube_rsync_machine.Control.Validate.{
  ControlError, validate_target_command, validate_target_event, validate_run_key,
}
use kube_rsync_machine.Control.Hub.Delivery.{published}
use kube_rsync_machine.Control.Service.{
  Service, returned, check_command, check_registration, enqueue_target_command, register_target,
  report_target, log_locked,
}
use kube_rsync_machine.Control.Service.Log.{IsService, enqueue_target_command-IsService}
use kube_rsync_machine.Control.Service.Commands.{after_enqueues, enqueue_target_command_once}
use kube_rsync_machine.Control.Service.Streams.{
  channel, HasRoom, registered, enqueue_all, register_target_complete,
}
use kube_rsync_machine.Control.Service.Reports.{target_report, report_target_lem}
use kube_rsync_machine.Tests.Hub.{any_names, nightly, ready, noon, small_hub}

abbrev idle : Service
idle = record { hub = small_hub; buffer = 4; runs = [] }

abbrev stop : TargetCommand
stop = new_abort_run_command (codes "stop-1") (record { reason = codes "deleted" })

abbrev stop_again : TargetCommand
stop_again = new_abort_run_command (codes "stop-2") (record { reason = codes "timeout" })

abbrev registration : RegisterTargetRequest
registration = record {
  run_namespace = codes "apps";
  run_name = codes "nightly";
  run_kind = run_kind_backup;
  target_namespace = codes "apps";
  target_name = codes "nas";
}

stop_valid : validate_target_command any_names stop ≡ ok tt
unfolding validate_target_command str_eq
stop_valid = refl

stop_checked : check_command any_names nightly stop ≡ ok tt
unfolding check_command validate_run_key validate_target_command str_eq
stop_checked = refl

registration_checked : check_registration any_names true registration ≡ ok tt
unfolding check_registration validate_run_key str_eq
registration_checked = refl

idle-IsService : IsService any_names idle
unfolding lookup
idle-IsService = λ key log h. cc

enqueue_target_command-IsService_example :
    IsService any_names (enqueue_target_command any_names nightly stop idle).0
enqueue_target_command-IsService_example =
    enqueue_target_command-IsService any_names nightly stop idle idle-IsService

enqueue_target_command_once_example :
    enqueue_target_command any_names nightly stop (
      after_enqueues any_names
        ((nightly, stop_again) ∷ [])
        (enqueue_target_command any_names nightly stop idle).0)
    ≡ (
      after_enqueues any_names
          ((nightly, stop_again) ∷ [])
          (enqueue_target_command any_names nightly stop idle).0,
      returned (ok false),
    )
enqueue_target_command_once_example =
    enqueue_target_command_once any_names nightly stop stop ((nightly, stop_again) ∷ []) idle
      stop_checked stop_checked refl

idle_channels : channel 7 (log_locked nightly idle).streams ≡ none
unfolding lookup
idle_channels = refl

idle-HasRoom : HasRoom 2 idle
unfolding lookup
idle-HasRoom = λ key. tt

register_target_complete_example :
    (given : List TargetCommand) × (service' : Service) × (queue : List TargetCommand)
    × (register_target any_names true 7 registration idle ≡ (registered 7 nightly idle, ok given))
    × (enqueue_all any_names
          ((nightly, stop) ∷ (nightly, stop_again) ∷ [])
          (registered 7 nightly idle)
        ≡ some service')
    × (channel 7 (log_locked nightly service').streams ≡ some queue)
    × (given ++ queue ≡ (log_locked nightly service').commands)
register_target_complete_example =
    register_target_complete any_names 7 registration ((nightly, stop) ∷ (nightly, stop_again) ∷ [])
      idle registration_checked idle_channels (omega arith) idle-HasRoom

report_target_lem_example :
    ((e : ControlError) × (validate_target_event any_names ready ≡ err e)
      × (report_target any_names noon ready idle ≡ some (idle, err e)))
    ⊎ ((validate_target_event any_names ready ≡ ok tt)
        × (report_target any_names noon ready idle
            ≡ some (
              record idle { hub = published noon (target_report ready) small_hub },
              ok (record { last_sequence = (0 + 1) % 2 ^ 64; message = [] }),
            )))
report_target_lem_example = report_target_lem any_names noon ready idle (omega arith)
