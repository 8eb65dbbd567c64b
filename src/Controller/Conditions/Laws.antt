-- ===== src/Controller/Conditions/Laws.antt =====
-- `upsertCondition` of internal/controller/events.go, applied once and again.
use kube_rsync_machine.Common.{
  ℕ, ◌≡◌, refl, Bool, true, false, not, List, [], ◌∷◌, Option, none, some, if◌then◌else◌, arith,
  Bool-cases, inl, inr,
}
use kube_rsync_machine.Common.Text.{GoString, str_eq, str_eq_iff}
use kube_rsync_machine.Controller.Clock.{Clock}
use kube_rsync_machine.Controller.Conditions.{
  Condition, conditions_equal, replacement, upsert_stamped, stamped, upsert_condition,
  set_condition,
}

-- The first condition of a type.
abbrev pub find : GoString → List Condition → Option Condition
find type [] = none
find type (c ∷ conditions) = if str_eq c.type type then some c else find type conditions

-- No type occurs twice.
abbrev pub AreDistinct : List Condition → Type 0
AreDistinct [] = Unit
AreDistinct (c ∷ conditions) = (find c.type conditions ≡ none) × AreDistinct conditions

-- The condition that an update leaves for its type: the old one where only the time differs, else
-- the new one with the old time where the status is the same.
abbrev pub updated : Condition → Option Condition → Condition
updated condition none = condition
updated condition (some old) =
    if conditions_equal old condition then old else replacement old condition

abbrev pub differs : Condition → Option Condition → Bool
differs condition none = true
differs condition (some old) = not (conditions_equal old condition)

pub find-upsert :
    (condition : Condition) (type : GoString) (conditions : List Condition)
    → find type (upsert_stamped condition conditions).0 ≡ (
        if str_eq condition.type type
        then some (updated condition (find condition.type conditions))
        else find type conditions)
unfolding upsert_stamped replacement
find-upsert condition type [] = refl
find-upsert condition type (old ∷ conditions) = elim (Bool-cases (str_eq old.type condition.type)) [
  | inl same ↦ elim (Bool-cases (conditions_equal old condition)) [
    | inl e ↦ ground (
      arith,
      same,
      e,
      str_eq_iff old.type condition.type,
      str_eq_iff condition.type type,
      str_eq_iff old.type type,
    )
    | inr e ↦ ground (
      arith,
      same,
      e,
      str_eq_iff old.type condition.type,
      str_eq_iff condition.type type,
      str_eq_iff old.type type,
    )
  ]
  | inr other ↦ ground (
    arith,
    other,
    find-upsert condition type conditions,
    str_eq_iff old.type condition.type,
    str_eq_iff condition.type type,
    str_eq_iff old.type type,
  )
]

pub upsert-changed :
    (condition : Condition) (conditions : List Condition)
    → (upsert_stamped condition conditions).1 ≡ differs condition (find condition.type conditions)
unfolding upsert_stamped
upsert-changed condition [] = refl
upsert-changed condition (old ∷ conditions) = ground (arith, upsert-changed condition conditions)

pub upsert-AreDistinct :
    (condition : Condition) (conditions : List Condition)
    → AreDistinct conditions
    → AreDistinct (upsert_stamped condition conditions).0
unfolding upsert_stamped replacement
upsert-AreDistinct condition [] d = (refl, tt)
upsert-AreDistinct condition (old ∷ conditions) (new, d) =
    elim (Bool-cases (str_eq old.type condition.type)) [
      | inl same ↦ elim (Bool-cases (conditions_equal old condition)) [
        | inl e ↦ rw (e, same) (new, d)
        | inr e ↦ rw (e, same) (ground (arith, same, new, str_eq_iff old.type condition.type), d)
      ]
      | inr other ↦ rw other (
        ground (
          arith,
          other,
          new,
          find-upsert condition old.type conditions,
          str_eq_iff old.type condition.type,
          str_eq_iff condition.type old.type,
        ),
        upsert-AreDistinct condition conditions d,
      )
    ]

-- The conditions agree but for their times.
pub record AreAlike (c d : Condition) : Type 0 where
  pub same_type : c.type ≡ d.type
  pub same_status : c.status ≡ d.status
  pub same_generation : c.observed_generation ≡ d.observed_generation
  pub same_reason : c.reason ≡ d.reason
  pub same_message : c.message ≡ d.message

equal-alike : (old c d : Condition) → AreAlike c d → conditions_equal old d ≡ conditions_equal old c
unfolding conditions_equal
equal-alike old c d v =
    rw (v.same_type, v.same_status, v.same_generation, v.same_reason, v.same_message) refl

pub equal_self : (c d : Condition) → AreAlike c d → conditions_equal c d ≡ true
unfolding conditions_equal
equal_self c d v = ground (
  arith,
  v.same_type,
  v.same_status,
  v.same_generation,
  v.same_reason,
  v.same_message,
  str_eq_iff c.type d.type,
  str_eq_iff c.status d.status,
  str_eq_iff c.reason d.reason,
  str_eq_iff c.message d.message,
)

pub replacement-AreAlike : (old c d : Condition) → AreAlike c d → AreAlike (replacement old c) d
unfolding replacement
replacement-AreAlike old c d v = record {
  same_type = v.same_type;
  same_status = v.same_status;
  same_generation = v.same_generation;
  same_reason = v.same_reason;
  same_message = v.same_message;
}

-- A condition that is there in all but its time is left alone.
upsert_found :
    (old d : Condition) (conditions : List Condition)
    → AreAlike old d
    → upsert_stamped d (old ∷ conditions) ≡ (old ∷ conditions, false)
unfolding upsert_stamped
upsert_found old d conditions v =
    ground (arith, equal_self old d v, v.same_type, str_eq_iff old.type d.type)

upsert_again :
    (c d : Condition) (conditions : List Condition)
    → AreAlike c d
    → upsert_stamped d (upsert_stamped c conditions).0 ≡ ((upsert_stamped c conditions).0, false)
unfolding upsert_stamped
upsert_again c d [] v = upsert_found c d [] v
upsert_again c d (old ∷ conditions) v = elim (Bool-cases (str_eq old.type c.type)) [
  | inl same ↦ elim (Bool-cases (conditions_equal old c)) [
    | inl e ↦ rw (e, same) (ground (arith, same, e, v.same_type, equal-alike old c d v))
    | inr e ↦
        rw (e, same)
          (upsert_found (replacement old c) d conditions (replacement-AreAlike old c d v))
  ]
  | inr other ↦ rw other (ground (arith, other, v.same_type, upsert_again c d conditions v))
]

pub alike_self : (c : Condition) → AreAlike c c
alike_self c = record {
  same_type = refl;
  same_status = refl;
  same_generation = refl;
  same_reason = refl;
  same_message = refl;
}

pub equal-AreAlike : (old c : Condition) → conditions_equal old c ≡ true → AreAlike old c
unfolding conditions_equal
equal-AreAlike old c h = record {
  same_type = ground (arith, str_eq_iff old.type c.type);
  same_status = ground (arith, str_eq_iff old.status c.status);
  same_generation = ground arith;
  same_reason = ground (arith, str_eq_iff old.reason c.reason);
  same_message = ground (arith, str_eq_iff old.message c.message);
}

-- Setting a condition again at another time changes nothing and says so.
pub set_condition_again :
    (clock clock' : Clock) (type status reason message : GoString) (generation : ℕ)
    (conditions : List Condition)
    → let conditions' = (set_condition clock type status reason message generation conditions).0 in
      set_condition clock' type status reason message generation conditions' ≡ (conditions', false)
unfolding set_condition upsert_condition stamped
set_condition_again clock clock' type status reason message generation conditions =
    upsert_again _ _ conditions (record {
      same_type = refl;
      same_status = refl;
      same_generation = refl;
      same_reason = refl;
      same_message = refl;
    })
