-- ===== src/Controller/Schedule/Due.antt =====
-- `nextDueSchedule` and `requeueAfter` of internal/controller/reconcilers.go.
use Prim.Native.Nat.{max}
use kube_rsync_machine.Common.{
  ℕ, ◌+◌, ◌-◌, ◌<◌, ◌≤◌, ◌≡◌, ◌⊎◌, refl, sym, subst, Bool, true, false, none, inl, inr, arith, suc,
  zero, ltb,
}
use kube_rsync_machine.Controller.Clock.{Time}
use kube_rsync_machine.Controller.Schedule.{
  second, schedule_lookback, owned_resource_reconcile_after, max_rounds, last_due, lookback_start,
  next_due_schedule, requeue_after,
}

-- The `n`-th activation after a time.
abbrev pub activation : (Time → Time) → ℕ → Time → Time
activation next zero t = t
activation next (suc n) t = activation next n (next t)

-- From a time that is due itself: the last one that is due, or as far as the rounds go.
abbrev pub IsLastDue : (Time → Time) → ℕ → Time → Time → Time × Bool → Type 0
IsLastDue next rounds now t r =
    (n : ℕ) × (n ≤ rounds)
    × (r ≡ (activation next n t, true))
    × (activation next n t ≤ now)
    × ((now < next (activation next n t)) ⊎ (n ≡ rounds))

pub ltb_cases : (a b : ℕ) → ((ltb a b ≡ true) × (a < b)) ⊎ ((ltb a b ≡ false) × (b ≤ a))
ltb_cases a b = ground arith

last_due_lem :
    (next : Time → Time)
    → ((t : Time) → t < next t)
    → (rounds : ℕ) (now t : Time) → 0 < t
    → t ≤ now
    → IsLastDue next rounds now t (last_due next rounds now t t)
unfolding last_due
last_due_lem next later zero now t positive due = (0, ground arith, ground arith, due, inr refl)
last_due_lem next later (suc rounds) now t positive due = elim (ltb_cases now (next t)) [
  | inl (e, above) ↦ (0, ground arith, rw (e, last_due) (ground arith), due, inl above)
  | inr (e, below) ↦
      let (n, n≤, same, n-due, end) =
        last_due_lem next later rounds now (next t) (ground (arith, later t)) below in
      (
        suc n,
        ground arith,
        rw (e, last_due) same,
        n-due,
        elim end [ inl above ↦ inl above | inr all ↦ inr (ground arith) ],
      )
]

-- What the schedule starts without an activation on record: the first rounds of the loop.
abbrev pub IsFirstDue : (Time → Time) → Time → Time → Time × Bool → Type 0
IsFirstDue next now start (at, false) = now < next start
IsFirstDue next now start (at, true) =
    (n : ℕ) × (n < max_rounds)
    × (at ≡ activation next (suc n) start)
    × (at ≤ now)
    × ((now < next at) ⊎ (suc n ≡ max_rounds))

first_due_lem :
    (next : Time → Time)
    → ((t : Time) → t < next t)
    → (rounds : ℕ) → suc rounds ≡ max_rounds
    → (now start : Time) → IsFirstDue next now start (last_due next (suc rounds) now start 0)
unfolding last_due
first_due_lem next later rounds all now start = elim (ltb_cases now (next start)) [
  | inl (e, above) ↦
      let shown : last_due next (suc rounds) now start 0 ≡ (0, false) = rw (e, last_due) refl in
      subst (IsFirstDue next now start) (sym shown) above
  | inr (e, below) ↦
      let (n, n≤, same, n-due, end) =
        last_due_lem next later rounds now (next start) (ground (arith, later start)) below in
      let shown : last_due next (suc rounds) now start 0 ≡ (activation next n (next start), true) =
        rw (e, last_due) same in
      subst (IsFirstDue next now start) (sym shown) (
        n,
        ground arith,
        refl,
        n-due,
        elim end [ inl above ↦ inl above | inr most ↦ inr (ground arith) ],
      )
]

lookback_start-max :
    (created now : Time) → lookback_start created now ≡ max created (now - schedule_lookback)
unfolding lookback_start
lookback_start-max created now = ground arith

-- For a schedule that always has a later activation, and a machine with none on record: of the
-- activations from a second before its creation, or a day and a second before now if that is later,
-- the last one that is due is started, or the 10000th of them; and nothing exactly if the first of
-- them is after now.
pub first_schedule_lem :
    (next : Time → Time)
    → ((t : Time) → t < next t)
    → (created now : Time)
    → IsFirstDue next now (max created (now - schedule_lookback) - second) (
        next_due_schedule next
          record { last_scheduled_at = none; creation_timestamp = created }
          now)
unfolding next_due_schedule
first_schedule_lem next later created now =
    rw (← (lookback_start-max created now))
      (first_due_lem next later 9999 refl now (lookback_start created now - second))

-- A machine is looked at again within ten minutes, and not after its next activation, unless that
-- is due already.
pub requeue_after_lem :
    (now next : Time)
    → (0 < requeue_after now next)
      × (requeue_after now next ≤ owned_resource_reconcile_after)
      × (now < next → now + requeue_after now next ≤ next)
unfolding requeue_after
requeue_after_lem now next = (ground arith, ground arith, λ h. ground arith)
