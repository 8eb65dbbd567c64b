-- ===== src/Control/Hub/Snapshot.antt =====
-- `SnapshotAfter` of internal/control/eventhub.go.
use kube_rsync_machine.Common.{
  ℕ, zero, suc, ◌≡◌, refl, sym, ap, List, [], ◌∷◌, some, arith, ltb, Bool-cases, inl, inr, ok,
  All-imp, keep_if, keep_if_all, keep_if-true, lt→ltb, &&-eq-true, Option-cases, true, false, ◌==◌,
  ◌&&◌, ◌||◌,
}
use kube_rsync_machine.Common.Maps.{lookup, insert, lookup-insert, lookup-remove, remove}
use kube_rsync_machine.Control.Types.{RunKey, RunKey_eq, run_key_eq_iff}
use kube_rsync_machine.Control.Validate.{Names, validate_run_key}
use kube_rsync_machine.Control.Hub.{
  ControlEvent, RunEvents, Subscriber, Hub, run_locked, from_first_above, events_after,
  snapshot_after, unsubscribe, without, is_nil,
}
use kube_rsync_machine.Control.Hub.Replay.{IsIncreasing, IsHub, run_locked-IsReplay}

-- The search for the first event above a number finds, in a replay, all events above it.
from_first_above-IsIncreasing :
    (after : ℕ) (events : List ControlEvent)
    → IsIncreasing events
    → from_first_above after events ≡ keep_if (λ e. ltb after e.sequence) events
unfolding from_first_above
from_first_above-IsIncreasing after [] i = refl
from_first_above-IsIncreasing after (event ∷ events) (below, i) =
    elim (Bool-cases (ltb after event.sequence)) [
      | inl above ↦ rw above (
          ap (λ es. event ∷ es)
            (sym (
              keep_if_all _ events
                (All-imp (λ e h. lt→ltb after e.sequence (ground (arith, above))) events below))))
      | inr not_above ↦ rw not_above (from_first_above-IsIncreasing after events i)
    ]

suc_ne_zero : (n : ℕ) → (suc n == 0) ≡ false
suc_ne_zero n = ground arith

pub events_after_lem :
    (after : ℕ) (events : List ControlEvent)
    → IsIncreasing events
    → events_after events after ≡ keep_if (λ e. after == 0 || ltb after e.sequence) events
unfolding events_after
events_after_lem zero events i = sym (keep_if-true events)
events_after_lem (suc after) events i =
    simp (suc_ne_zero after) (from_first_above-IsIncreasing (suc after) events i)

-- In a hub that is in order a snapshot holds exactly the run's remembered events that are numbered
-- above `after`, in order; 0 asks for all of them.
pub snapshot_after_lem :
    (names : Names) (key : RunKey) (after : ℕ) (hub : Hub)
    → IsHub hub
    → validate_run_key names key ≡ ok tt
    → snapshot_after names key after hub
      ≡ ok (keep_if (λ e. after == 0 || ltb after e.sequence) (run_locked key hub).replay)
unfolding snapshot_after
snapshot_after_lem names key after hub v h =
    rw h (ap ok (events_after_lem after _ (run_locked-IsReplay hub key v).increasing))

is_nil_lem : (events : List ControlEvent) → is_nil events ≡ true → events ≡ []
is_nil_lem [] h = refl
is_nil_lem (e ∷ events) h = cc

replay_removed :
    (key j : RunKey) (run : RunEvents) (hub : Hub)
    → lookup key hub.runs ≡ some run
    → is_nil run.replay ≡ true
    → (run_locked j (record hub { runs = remove key hub.runs })).replay ≡ (run_locked j hub).replay
replay_removed key j run hub e empty =
    ground (arith, lookup-remove key j hub.runs, run_key_eq_iff key j, is_nil_lem run.replay empty)

replay_set :
    (key j : RunKey) (run : RunEvents) (left : List Subscriber) (hub : Hub)
    → lookup key hub.runs ≡ some run
    → (run_locked j
        (record hub { runs = insert key (record run { subscribers = left }) hub.runs })).replay
      ≡ (run_locked j hub).replay
replay_set key j run left hub e = ground (
  arith,
  lookup-insert key j (record { replay = run.replay; subscribers = left }) hub.runs,
  run_key_eq_iff key j,
)

replay-unsubscribe :
    (key j : RunKey) (id : ℕ) (hub : Hub)
    → (run_locked j (unsubscribe key id hub)).replay ≡ (run_locked j hub).replay
unfolding unsubscribe
replay-unsubscribe key j id hub = elim (Option-cases (lookup key hub.runs)) [
  | inl e ↦ rw (e, unsubscribe)
  | inr (run, e) ↦
      rw (e, unsubscribe)
        (elim (Bool-cases (is_nil (without id run.subscribers) && is_nil run.replay)) [
          | inl gone ↦ rw gone (replay_removed key j run hub e (&&-eq-true _ _ gone).1)
          | inr kept ↦ rw kept (replay_set key j run (without id run.subscribers) hub e)
        ])
]

-- A subscriber that leaves takes no event with it: every snapshot stays the same, also where the
-- run's entry is dropped from the map.
pub snapshot_after-unsubscribe :
    (names : Names) (key j : RunKey) (id after : ℕ) (hub : Hub)
    → snapshot_after names j after (unsubscribe key id hub) ≡ snapshot_after names j after hub
unfolding snapshot_after
snapshot_after-unsubscribe names key j id after hub = rw (replay-unsubscribe key j id hub)
