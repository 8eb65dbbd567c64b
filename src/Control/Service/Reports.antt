-- ===== src/Control/Service/Reports.antt =====
-- `ReportTarget` of internal/control/service.go.
use kube_rsync_machine.Common.{
  ◌+◌, ◌%◌, ◌^◌, ◌≡◌, ◌<◌, [], some, none, ok, err, Result, ◌⊎◌, inl, inr, Result-cases,
}
use kube_rsync_machine.Common.Text.{GoString, str_eq}
use kube_rsync_machine.Control.Types.{TargetEvent, target_key}
use kube_rsync_machine.Control.Validate.{
  Names, ControlError, validate_target_event, validate_run_key,
}
use kube_rsync_machine.Control.Hub.{ControlEvent, check_event, publish_target, event_kind_target}
use kube_rsync_machine.Control.Hub.Delivery.{published, publish_returns}
use kube_rsync_machine.Control.Service.{Service, report_target}

-- The event that `PublishTarget` makes of a report.
abbrev pub target_report : TargetEvent → ControlEvent
target_report event = record {
  sequence = 0;
  published_at = [];
  kind = event_kind_target;
  key = target_key event;
  target = some event;
  command_ack = none;
  source = none;
}

ok_ne_err : {e : ControlError} {r : Result ControlError (Unit {0})} → r ≡ ok tt → r ≡ err e → ⊥
ok_ne_err p q = cc

target_key_valid :
    (names : Names) (event : TargetEvent)
    → validate_target_event names event ≡ ok tt
    → validate_run_key names (target_key event) ≡ ok tt
unfolding validate_target_event
target_key_valid names event h = elim (Result-cases (validate_run_key names (target_key event))) [
  | inl (u, e) ↦ e
  | inr (f, e) ↦ absurd (ok_ne_err {e = f} h (rw (e, validate_target_event)))
]

check_target_report :
    (names : Names) (event : TargetEvent)
    → validate_run_key names (target_key event) ≡ ok tt
    → check_event names (target_report event) ≡ ok tt
unfolding check_event str_eq
check_target_report names event h = rw h

-- A report of a target always returns. If it is valid it becomes the hub's next event, and the
-- acknowledgement carries that event's number; if not, nothing changes.
pub report_target_lem :
    (names : Names) (now : GoString) (event : TargetEvent) (service : Service)
    → 0 < service.hub.subscriber_buffer
    → ((e : ControlError) × (validate_target_event names event ≡ err e)
        × (report_target names now event service ≡ some (service, err e)))
      ⊎ ((validate_target_event names event ≡ ok tt)
          × (report_target names now event service
              ≡ some (
                record service { hub = published now (target_report event) service.hub },
                ok (record {
                  last_sequence = (service.hub.next_sequence + 1) % 2 ^ 64;
                  message = [];
                }),
              )))
unfolding report_target publish_target
report_target_lem names now event service h =
    elim (Result-cases (validate_target_event names event)) [
      | inr (e, f) ↦ inl (e, f, rw (f, report_target))
      | inl (u, f) ↦ elim (publish_returns names now (target_report event) service.hub h) [
        | inl (e, refused, _) ↦
            absurd
              (ok_ne_err (check_target_report names event (target_key_valid names event f)) refused)
        | inr (_, returned) ↦ inr (f, rw (f, report_target, returned))
      ]
    ]
