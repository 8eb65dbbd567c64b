-- ===== src/Controller/Clock.antt =====
-- internal/controller/events.go: times, counters, and fields that are written when they differ.
use kube_rsync_machine.Common.{
  ℕ, ◌-◌, ◌^◌, ◌≡◌, ◌<◌, ◌↔◌, refl, ap, Bool, true, false, not, ◌&&◌, ◌||◌, Option, none, some,
  if◌then◌else◌, ltb, arith, ==_iff, ◌==◌,
}
use kube_rsync_machine.Common.Eq.{Eq}
use kube_rsync_machine.Common.Text.{GoString, is_empty}

-- An instant; 0 is the zero time.
abbrev pub Time : Type 0
Time = ℕ

-- `metav1.Now()` during the call, and `time.Parse(time.RFC3339, ...)`.
pub record Clock : Type 0 where
  pub now : Time
  pub parse : GoString → Option Time

abbrev pub or_now : Time → Option Time → Time
or_now now none = now
or_now now (some time) = time

-- `parseMetaTime`
pub parse_meta_time : Clock → GoString → Time
parse_meta_time clock value =
    if is_empty value then clock.now else or_now clock.now (clock.parse value)

abbrev pub max_int64 : ℕ
max_int64 = 2 ^ 63 - 1

-- `uint64ToInt64`
pub uint64_to_int64 : ℕ → ℕ
uint64_to_int64 value = if ltb max_int64 value then max_int64 else value

pub option_nat_eq : Option ℕ → Option ℕ → Bool
option_nat_eq none none = true
option_nat_eq none (some b) = false
option_nat_eq (some a) none = false
option_nat_eq (some a) (some b) = a == b

pub option_nat_eq_iff : (a b : Option ℕ) → (option_nat_eq a b ≡ true) ↔ (a ≡ b)
unfolding option_nat_eq
option_nat_eq_iff none none = ground arith
option_nat_eq_iff none (some b) = ground arith
option_nat_eq_iff (some a) none = ground arith
option_nat_eq_iff (some a) (some b) = ground (arith, ==_iff a b)

instance abbrev pub Option_eq : Eq (Option ℕ)
Option_eq = record { beq = option_nat_eq; beq_iff = option_nat_eq_iff }

-- `if wanted && field != new { field = new; changed = true }`: the field, and `changed`.
unfoldable pub assign : {A : Type 0} → ⦃e : Eq A⦄ → Bool → A → A → A × Bool
assign ⦃e⦄ wanted new old = if wanted && not (e.beq old new) then (new, true) else (old, false)

-- One change after another; `changed` stays set.
unfoldable pub then_change : {A : Type 0} → A × Bool → (A → A × Bool) → A × Bool
then_change (a, changed) f = ((f a).0, changed || (f a).1)

pub assign_value :
    {A : Type 0} ⦃e : Eq A⦄ (wanted : Bool) (new old : A)
    → (assign wanted new old).0 ≡ (if wanted then new else old)
unfolding assign
assign_value ⦃e⦄ wanted new old = ground (arith, e.beq_iff old new)

pub assign_self : {A : Type 0} ⦃e : Eq A⦄ (wanted : Bool) (x : A) → assign wanted x x ≡ (x, false)
unfolding assign
assign_self ⦃e⦄ wanted x = ground (arith, e.beq_iff x x)

-- The second time nothing is left to change.
pub assign_again :
    {A : Type 0} ⦃e : Eq A⦄ (wanted : Bool) (new old : A)
    → assign wanted new (assign wanted new old).0 ≡ ((assign wanted new old).0, false)
unfolding assign
assign_again ⦃e⦄ wanted new old = ground (arith, e.beq_iff old new, e.beq_iff new new)

pub uint64_to_int64_le : (value : ℕ) → uint64_to_int64 value < 2 ^ 63
unfolding uint64_to_int64
uint64_to_int64_le value = ground arith

-- The clock at another moment.
abbrev pub at : Clock → Time → Clock
at clock now = record clock { now = now }

-- The time is left out or is a valid RFC 3339 time.
abbrev pub IsTime : Clock → GoString → Type 0
IsTime clock value = is_empty value ≡ false → (time : Time) × (clock.parse value ≡ some time)

-- A valid time does not depend on the moment it is read at.
pub parse_meta_time-at :
    (clock : Clock) (now : Time) (value : GoString)
    → IsTime clock value
    → is_empty value ≡ false
    → parse_meta_time (at clock now) value ≡ parse_meta_time clock value
unfolding parse_meta_time
parse_meta_time-at clock now value h e = rw (e, (h e).1) refl

assign_same :
    {A : Type 0} ⦃e : Eq A⦄ (wanted : Bool) (new new' old : A)
    → (wanted ≡ true → new' ≡ new)
    → assign wanted new' (assign wanted new old).0 ≡ ((assign wanted new old).0, false)
unfolding assign
assign_same ⦃e⦄ true new new' old h = rw (h refl) (assign_again true new old)
assign_same ⦃e⦄ false new new' old h = refl

-- Writing a time that was given, again at another moment.
pub assign_time_again :
    (clock : Clock) (now : Time) (value : GoString) (old : Option Time)
    → IsTime clock value
    → let first = assign (not (is_empty value)) (some (parse_meta_time clock value)) old in
      assign (not (is_empty value)) (some (parse_meta_time (at clock now) value)) first.0
      ≡ (first.0, false)
assign_time_again clock now value old h =
    assign_same (not (is_empty value)) (some (parse_meta_time clock value))
      (some (parse_meta_time (at clock now) value)) old
      (λ e. ap some (parse_meta_time-at clock now value h (ground arith)))

-- A field that has its value is not written.
pub assign_there :
    {A : Type 0} ⦃e : Eq A⦄ (wanted : Bool) (new old : A)
    → old ≡ new
    → assign wanted new old ≡ (old, false)
unfolding assign
assign_there ⦃e⦄ wanted new old h = ground (arith, h, e.beq_iff old new)
