-- ===== src/Controller/Conditions/Settled.antt =====
-- Several calls of `setCondition` of internal/controller/events.go on one list.
use kube_rsync_machine.Common.{
  ℕ, ◌≡◌, ◌≢◌, refl, sym, ap, ◌∙◌, true, false, List, [], ◌∷◌, Option, none, some, if◌then◌else◌,
  arith, Bool-cases, inl, inr,
}
use kube_rsync_machine.Common.Text.{GoString, codes, str_eq, str_eq_iff, is_empty}
use kube_rsync_machine.Controller.Clock.{Clock}
use kube_rsync_machine.Controller.Conditions.{
  Condition, conditions_equal, upsert_stamped, stamped, upsert_condition, set_condition,
}
use kube_rsync_machine.Controller.Conditions.Laws.{
  find, AreAlike, find-upsert, updated, replacement-AreAlike, equal_self, equal-AreAlike,
  alike_self,
}

-- The list has a condition of that type, like the given one but for its time.
abbrev pub Has : Condition → List Condition → Type 0
Has c conditions = (old : Condition) × (find c.type conditions ≡ some old) × AreAlike old c

updated-AreAlike : (c : Condition) (old : Option Condition) → AreAlike (updated c old) c
updated-AreAlike c none = alike_self c
updated-AreAlike c (some old) = elim (Bool-cases (conditions_equal old c)) [
  | inl e ↦ rw e (equal-AreAlike old c e)
  | inr e ↦ rw e (replacement-AreAlike old c c (alike_self c))
]

upsert-Has : (c : Condition) (conditions : List Condition) → Has c (upsert_stamped c conditions).0
upsert-Has c conditions = (
  updated c (find c.type conditions),
  find-upsert c c.type conditions ∙ ground (arith, str_eq_iff c.type c.type),
  updated-AreAlike c (find c.type conditions),
)

Has-upsert :
    (c d : Condition) (conditions : List Condition)
    → d.type ≢ c.type
    → Has c conditions
    → Has c (upsert_stamped d conditions).0
Has-upsert c d conditions ne (old, e, v) =
    (old, find-upsert d c.type conditions ∙ ground (arith, e, ne, str_eq_iff d.type c.type), v)

alike_trans : (a b c : Condition) → AreAlike a b → AreAlike b c → AreAlike a c
alike_trans a b c v w = record {
  same_type = v.same_type ∙ w.same_type;
  same_status = v.same_status ∙ w.same_status;
  same_generation = v.same_generation ∙ w.same_generation;
  same_reason = v.same_reason ∙ w.same_reason;
  same_message = v.same_message ∙ w.same_message;
}

upsert_found :
    (d old : Condition) (conditions : List Condition)
    → find d.type conditions ≡ some old
    → AreAlike old d
    → upsert_stamped d conditions ≡ (conditions, false)
unfolding upsert_stamped
upsert_found d old [] e v = cc
upsert_found d old (x ∷ conditions) e v = elim (Bool-cases (str_eq x.type d.type)) [
  | inl same ↦
      let here : x ≡ old = ground (arith, e, same) in
      let equal : conditions_equal x d ≡ true = rw here (equal_self old d v) in
      rw (equal, same) refl
  | inr other ↦ ground (arith, other, e, upsert_found d old conditions, v)
]

upsert_settled :
    (c d : Condition) (conditions : List Condition)
    → AreAlike c d
    → Has c conditions
    → upsert_stamped d conditions ≡ (conditions, false)
upsert_settled c d conditions v (old, e, w) =
    upsert_found d old conditions (ap (λ t. find t conditions) (sym v.same_type) ∙ e)
      (alike_trans old c d w v)

-- The list has a condition with these fields.
abbrev pub HasFields : GoString → GoString → GoString → GoString → ℕ → List Condition → Type 0
HasFields type status reason message generation conditions =
    Has
      (record {
        type = type;
        status = status;
        observed_generation = generation;
        last_transition_time = 0;
        reason = if is_empty reason then codes "Observed" else reason;
        message = message;
      })
      conditions

module _ (clock : Clock) (type status reason message : GoString) (generation : ℕ)
    (conditions : List Condition) where
  pub set_condition-HasFields :
      HasFields type status reason message generation
        (set_condition clock type status reason message generation conditions).0
  unfolding set_condition upsert_condition stamped
  set_condition-HasFields =
      let (old, e, v) = upsert-Has _ conditions in
      (
        old,
        e,
        record {
          same_type = v.same_type;
          same_status = v.same_status;
          same_generation = v.same_generation;
          same_reason = v.same_reason;
          same_message = v.same_message;
        },
      )

  -- Setting a condition keeps what is set of another type.
  pub HasFields-set_condition :
      (other status' reason' message' : GoString)
      → type ≢ other
      → HasFields other status' reason' message' generation conditions
      → HasFields other status' reason' message' generation
          (set_condition clock type status reason message generation conditions).0
  unfolding set_condition upsert_condition stamped
  HasFields-set_condition other status' reason' message' ne v = Has-upsert _ _ conditions ne v

  pub set_condition_settled :
      HasFields type status reason message generation conditions
      → set_condition clock type status reason message generation conditions ≡ (conditions, false)
  unfolding set_condition upsert_condition stamped
  set_condition_settled v =
      upsert_settled _ _ conditions
        (record {
          same_type = refl;
          same_status = refl;
          same_generation = refl;
          same_reason = refl;
          same_message = refl;
        })
        v
