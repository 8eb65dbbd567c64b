-- ===== src/Controller/Machines.antt =====
-- internal/controller/events.go: `ApplyTargetEventToRsyncMachine`. The machine is never nil: the
-- caller passes the address of a variable. Fields that the handler neither reads nor writes are left
-- out, and the 32-bit count is its bit pattern.
pub mod Laws
use kube_rsync_machine.Common.{
  ℕ, ◌%◌, ◌^◌, ◌≡◌, Bool, true, false, not, ◌||◌, List, [], ◌∷◌, Option, none, some, if◌then◌else◌,
  length, map,
}
use kube_rsync_machine.Common.Text.{GoString, str_eq}
use kube_rsync_machine.Control.Types.{TargetEvent, RestorePoint, TargetCondition}
use kube_rsync_machine.Controller.Clock.{Time, Clock, parse_meta_time, then_change}
use kube_rsync_machine.Controller.Conditions.{Condition, upsert_condition}

-- `krmv1alpha1.RestorePoint`
pub record MachinePoint : Type 0 where
  pub snapshot : GoString
  pub resolves_to : GoString
  pub tier : GoString
  pub created_at : Option Time
  pub bytes_transferred : ℕ

pub record RsyncMachine : Type 0 where
  pub namespace : GoString
  pub name : GoString
  pub restore_points_updated_at : Option Time
  pub restore_point_count : ℕ
  pub restore_points : List MachinePoint
  pub conditions : List Condition

-- The event is about another machine.
abbrev pub is_foreign_machine : TargetEvent → RsyncMachine → Bool
is_foreign_machine event machine =
    not (str_eq event.target_namespace machine.namespace)
    || not (str_eq event.target_name machine.name)

abbrev pub machine_point : Clock → RestorePoint → MachinePoint
machine_point clock point = record {
  snapshot = point.snapshot;
  resolves_to = point.resolves_to;
  tier = point.tier;
  created_at = some (parse_meta_time clock point.created_at);
  bytes_transferred = point.bytes_transferred;
}

abbrev pub machine_condition : Clock → TargetCondition → Condition
machine_condition clock condition = record {
  type = condition.type;
  status = condition.status;
  observed_generation = condition.observed_generation;
  last_transition_time = parse_meta_time clock condition.last_transition_time;
  reason = condition.reason;
  message = condition.message;
}

-- `len(...) > 0`
abbrev pub has_any {ℓ} : {A : Type ℓ} → List A → Bool
has_any [] = false
has_any (x ∷ xs) = true

abbrev pub set_points : Clock → TargetEvent → RsyncMachine → RsyncMachine × Bool
set_points clock event machine =
    if event.restore_scanned || has_any event.restore_points
    then (
      record machine {
        restore_points = map (machine_point clock) event.restore_points;
        restore_point_count = length event.restore_points % 2 ^ 32;
        restore_points_updated_at = some clock.now;
      },
      true,
    )
    else (machine, false)

-- The loop over the event's conditions.
pub upsert_all : Clock → List TargetCondition → List Condition → List Condition
upsert_all clock [] conditions = conditions
upsert_all clock (c ∷ cs) conditions =
    upsert_all clock cs (upsert_condition clock (machine_condition clock c) conditions).0

pub set_machine_conditions : Clock → TargetEvent → RsyncMachine → RsyncMachine × Bool
unfolding upsert_all
set_machine_conditions clock event machine =
    if has_any event.conditions
    then (
      record machine { conditions = upsert_all clock event.conditions machine.conditions },
      true,
    )
    else (machine, false)

pub apply_target_event_to_rsync_machine : Clock → TargetEvent → RsyncMachine → RsyncMachine × Bool
unfolding set_machine_conditions
apply_target_event_to_rsync_machine clock event machine =
    if is_foreign_machine event machine
    then (machine, false)
    else then_change (set_points clock event machine) (set_machine_conditions clock event)
