-- ===== src/Controller/Machines/Laws.antt =====
-- `ApplyTargetEventToRsyncMachine` of internal/controller/events.go as a whole.
use kube_rsync_machine.Common.{
  ◌≡◌, refl, false, ◌||◌, List, [], ◌∷◌, if◌then◌else◌, map, Bool-cases, inl, inr,
}
use kube_rsync_machine.Control.Types.{TargetEvent, TargetCondition}
use kube_rsync_machine.Controller.Clock.{Clock, then_change}
use kube_rsync_machine.Controller.Conditions.{Condition}
use kube_rsync_machine.Controller.Conditions.Laws.{AreDistinct}
use kube_rsync_machine.Controller.Conditions.Upsert.{upsert_condition_lem}
use kube_rsync_machine.Controller.Machines.{
  RsyncMachine, is_foreign_machine, machine_point, machine_condition, has_any, upsert_all,
  set_machine_conditions, apply_target_event_to_rsync_machine,
}

upsert_all-AreDistinct :
    (clock : Clock) (cs : List TargetCondition) (conditions : List Condition)
    → AreDistinct conditions
    → AreDistinct (upsert_all clock cs conditions)
unfolding upsert_all
upsert_all-AreDistinct clock [] conditions d = d
upsert_all-AreDistinct clock (c ∷ cs) conditions d =
    upsert_all-AreDistinct clock cs _
      (upsert_condition_lem clock (machine_condition clock c) conditions d).0

-- An event of a machine's own target leaves the machine with one condition of each type, replaces
-- its restore points by the event's exactly if the event reports a scan or lists any, and says
-- whether it brought restore points or conditions.
pub machine_event_lem :
    (clock : Clock) (event : TargetEvent) (machine : RsyncMachine)
    → is_foreign_machine event machine ≡ false
    → AreDistinct machine.conditions
    → let (machine', changed) = apply_target_event_to_rsync_machine clock event machine in
      let scanned = event.restore_scanned || has_any event.restore_points in
      AreDistinct machine'.conditions
      × (machine'.restore_points ≡ (
          if scanned
          then map (machine_point clock) event.restore_points
          else machine.restore_points))
      × (changed ≡ (scanned || has_any event.conditions))
unfolding apply_target_event_to_rsync_machine set_machine_conditions then_change
machine_event_lem clock event machine own d =
    elim (Bool-cases (event.restore_scanned || has_any event.restore_points)) [
      | inl a ↦ elim (Bool-cases (has_any event.conditions)) [
        | inl b ↦
            rw (own, a, b)
              (upsert_all-AreDistinct clock event.conditions machine.conditions d, refl, refl)
        | inr b ↦ rw (own, a, b) (d, refl, refl)
      ]
      | inr a ↦ elim (Bool-cases (has_any event.conditions)) [
        | inl b ↦
            rw (own, a, b)
              (upsert_all-AreDistinct clock event.conditions machine.conditions d, refl, refl)
        | inr b ↦ rw (own, a, b) (d, refl, refl)
      ]
    ]
