-- ===== src/Controller/Conditions/Upsert.antt =====
-- `upsertCondition` of internal/controller/events.go, against a description of its own.
use kube_rsync_machine.Common.{
  ◌≡◌, ◌≢◌, ◌⊎◌, ◌==◌, refl, Bool, true, false, List, Option, none, some, if◌then◌else◌, arith,
  Bool-cases, inl, inr,
}
use kube_rsync_machine.Common.Text.{GoString, str_eq, str_eq_iff}
use kube_rsync_machine.Controller.Clock.{Time, Clock}
use kube_rsync_machine.Controller.Conditions.{
  Condition, conditions_equal, replacement, stamped, upsert_condition,
}
use kube_rsync_machine.Controller.Conditions.Laws.{
  find, AreDistinct, updated, differs, find-upsert, upsert-changed, upsert-AreDistinct, AreAlike,
  equal_self, equal-AreAlike, alike_self, replacement-AreAlike,
}

-- What an update at the time `stamp` leaves of the old condition of its type, and whether it says
-- that it changed anything. A condition that differs at most in its time stays. Another is replaced;
-- the new one has the old time if that is known and the status is the same, and else the stamp.
abbrev pub IsUpdated : Time → Condition → Option Condition → Condition → Bool → Type 0
IsUpdated stamp condition none c changed =
    AreAlike c condition × (c.last_transition_time ≡ stamp) × (changed ≡ true)
IsUpdated stamp condition (some old) c changed =
    (AreAlike old condition × (c ≡ old) × (changed ≡ false))
    ⊎ (¬ (AreAlike old condition)
        × AreAlike c condition
        × (changed ≡ true)
        × (((old.status ≡ condition.status)
              × (old.last_transition_time ≢ 0)
              × (c.last_transition_time ≡ old.last_transition_time))
            ⊎ (((old.status ≢ condition.status) ⊎ (old.last_transition_time ≡ 0))
                × (c.last_transition_time ≡ stamp))))

replacement-time :
    (old c : Condition)
    → ((old.status ≡ c.status)
        × (old.last_transition_time ≢ 0)
        × ((replacement old c).last_transition_time ≡ old.last_transition_time))
      ⊎ (((old.status ≢ c.status) ⊎ (old.last_transition_time ≡ 0))
          × ((replacement old c).last_transition_time ≡ c.last_transition_time))
unfolding replacement
replacement-time old c = elim (Bool-cases (str_eq old.status c.status)) [
  | inl same ↦ ground (arith, same, str_eq_iff old.status c.status)
  | inr other ↦ ground (arith, other, str_eq_iff old.status c.status)
]

-- The condition at another time.
abbrev at_time : Time → Condition → Condition
at_time time c = record c { last_transition_time = time }

to_time : (time : Time) (x c : Condition) → AreAlike x c → AreAlike x (at_time time c)
to_time time x c v = record {
  same_type = v.same_type;
  same_status = v.same_status;
  same_generation = v.same_generation;
  same_reason = v.same_reason;
  same_message = v.same_message;
}

from_time : (time : Time) (x c : Condition) → AreAlike x (at_time time c) → AreAlike x c
from_time time x c v = record {
  same_type = v.same_type;
  same_status = v.same_status;
  same_generation = v.same_generation;
  same_reason = v.same_reason;
  same_message = v.same_message;
}

updated-IsUpdated :
    (stamp : Time) (c : Condition) (old : Option Condition)
    → let d = at_time stamp c in IsUpdated stamp c old (updated d old) (differs d old)
updated-IsUpdated stamp c none =
    (from_time stamp (at_time stamp c) c (alike_self (at_time stamp c)), refl, refl)
updated-IsUpdated stamp c (some old) =
    let d = at_time stamp c in
    elim (Bool-cases (conditions_equal old d)) [
      | inl e ↦ rw e (inl (from_time stamp old c (equal-AreAlike old d e), refl, refl))
      | inr e ↦ rw e (
          inr (
            (λ alike. cc (equal_self old d (to_time stamp old c alike), e)),
            from_time stamp (replacement old d) c (replacement-AreAlike old d d (alike_self d)),
            refl,
            replacement-time old d,
          ))
    ]

-- An update of a list with one condition of each type leaves one of each type. An old condition of
-- the updated type that differs at most in its time stays; another, or none, is replaced by the
-- given one, whose time is the old one's if that is known and the status is the same, and else its
-- own or, if it has none, the present. No other type's condition changes, and the result says
-- whether the old one was replaced.
pub upsert_condition_lem :
    (clock : Clock) (condition : Condition) (conditions : List Condition)
    → AreDistinct conditions
    → let (conditions', changed) = upsert_condition clock condition conditions in
      let stamp =
        if condition.last_transition_time == 0 then clock.now else condition.last_transition_time in
      AreDistinct conditions'
      × (c : Condition) × ((type : GoString)
          → find type conditions'
            ≡ (if str_eq condition.type type then some c else find type conditions))
      × IsUpdated stamp condition (find condition.type conditions) c changed
unfolding upsert_condition stamped
upsert_condition_lem clock condition conditions d =
    let old = find condition.type conditions in
    let new = stamped clock condition in
    (
      upsert-AreDistinct new conditions d,
      updated new old,
      (λ type. find-upsert new type conditions),
      rw (upsert-changed new conditions) (updated-IsUpdated new.last_transition_time condition old),
    )
