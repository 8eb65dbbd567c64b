-- ===== src/Controller/Conditions.antt =====
-- internal/controller/events.go: `upsertCondition`, `setCondition` and `conditionsEqual`.
pub mod Laws
pub mod Settled
pub mod Upsert
use kube_rsync_machine.Common.{
  ℕ, ◌≡◌, Bool, true, false, not, ◌&&◌, List, [], ◌∷◌, if◌then◌else◌, ◌==◌,
}
use kube_rsync_machine.Common.Text.{GoString, codes, str_eq, is_empty}
use kube_rsync_machine.Controller.Clock.{Time, Clock}

pub record Condition : Type 0 where
  pub type : GoString
  pub status : GoString
  pub observed_generation : ℕ
  pub last_transition_time : Time
  pub reason : GoString
  pub message : GoString

-- `conditionsEqual`: all but the time.
pub conditions_equal : Condition → Condition → Bool
conditions_equal left right =
    str_eq left.type right.type
    && str_eq left.status right.status
    && str_eq left.reason right.reason
    && str_eq left.message right.message
    && left.observed_generation == right.observed_generation

-- The condition that replaces an old one of its type.
pub replacement : Condition → Condition → Condition
replacement old condition = record condition {
  last_transition_time =
      if str_eq old.status condition.status && not (old.last_transition_time == 0)
      then old.last_transition_time
      else condition.last_transition_time;
}

-- The loop of `upsertCondition`.
pub upsert_stamped : Condition → List Condition → List Condition × Bool
unfolding conditions_equal replacement
upsert_stamped condition [] = (condition ∷ [], true)
upsert_stamped condition (old ∷ conditions) =
    let rest = upsert_stamped condition conditions in
    if str_eq old.type condition.type
    then (if conditions_equal old condition
        then (old ∷ conditions, false)
        else (replacement old condition ∷ conditions, true))
    else (old ∷ rest.0, rest.1)

pub stamped : Clock → Condition → Condition
stamped clock condition = record condition {
  last_transition_time =
      if condition.last_transition_time == 0 then clock.now else condition.last_transition_time;
}

pub upsert_condition : Clock → Condition → List Condition → List Condition × Bool
unfolding upsert_stamped stamped
upsert_condition clock condition conditions = upsert_stamped (stamped clock condition) conditions

pub set_condition :
    Clock → GoString → GoString → GoString → GoString → ℕ → List Condition → List Condition × Bool
unfolding upsert_condition
set_condition clock type status reason message generation = upsert_condition clock (record {
  type = type;
  status = status;
  observed_generation = generation;
  last_transition_time = clock.now;
  reason = if is_empty reason then codes "Observed" else reason;
  message = message;
})
