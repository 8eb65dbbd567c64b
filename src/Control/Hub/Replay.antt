-- ===== src/Control/Hub/Replay.antt =====
-- The invariant of the hub of internal/control/eventhub.go.
use kube_rsync_machine.Common.{
  ℕ, zero, suc, ◌+◌, ◌%◌, ◌^◌, ◌≡◌, ◌≤◌, ◌<◌, refl, subst, Bool, List, [], ◌∷◌, ◌++◌, some, arith,
  length, drop, last_n, Bool-cases, Result-cases, inl, inr, ◌⊎◌, ok, err, All, All-imp, All-append,
  All-drop, Result, length-last_n-le, Option-cases, ◌&&◌,
}
use kube_rsync_machine.Common.Text.{GoString}
use kube_rsync_machine.Common.Int.{ℤ}
use kube_rsync_machine.Common.Maps.{lookup, insert, lookup-insert, lookup-remove, remove}
use kube_rsync_machine.Control.Types.{RunKey, RunKey_eq, run_key_eq, run_key_eq_iff}
use kube_rsync_machine.Control.Validate.{Names, ControlError}
use kube_rsync_machine.Control.Hub.{
  ControlEvent, RunEvents, Hub, run_locked, remember, check_subscription, subscribe_after,
  unsubscribe, publish, new_hub_with_buffer, without, is_nil,
}
use kube_rsync_machine.Control.Hub.Delivery.{published, stamp, publish_returns, remember_lem}

-- Sequence numbers rise along the list.
abbrev pub IsIncreasing : List ControlEvent → Type 0
IsIncreasing [] = Unit
IsIncreasing (event ∷ events) =
    All (λ later. event.sequence < later.sequence) events × IsIncreasing events

pub IsIncreasing-append :
    (events : List ControlEvent) (event : ControlEvent)
    → IsIncreasing events
    → All (λ e. e.sequence < event.sequence) events
    → IsIncreasing (events ++ event ∷ [])
IsIncreasing-append [] event i b = (tt, tt)
IsIncreasing-append (e ∷ events) event i b =
    (All-append _ events (event ∷ []) i.0 (b.0, tt), IsIncreasing-append events event i.1 b.1)

pub IsIncreasing-drop :
    (n : ℕ) (events : List ControlEvent) → IsIncreasing events → IsIncreasing (drop n events)
IsIncreasing-drop zero events i = i
IsIncreasing-drop (suc n) [] i = i
IsIncreasing-drop (suc n) (e ∷ events) i = IsIncreasing-drop n events i.1

-- The replay of one run: numbered in order and no further than the hub, of that run only, and no
-- longer than the limit.
pub record IsReplay (limit last : ℕ) (key : RunKey) (replay : List ControlEvent) : Type 0 where
  pub increasing : IsIncreasing replay
  pub numbered : All (λ e. e.sequence ≤ last) replay
  pub keyed : All (λ e. e.key ≡ key) replay
  pub bounded : length replay ≤ limit

-- A channel has room for an event, and every run's replay is in order.
pub record IsHub (hub : Hub) : Type 0 where
  pub has_room : 0 < hub.subscriber_buffer
  pub replays :
      (key : RunKey) (run : RunEvents)
      → lookup key hub.runs ≡ some run
      → IsReplay hub.replay_limit hub.next_sequence key run.replay

empty-IsReplay : (limit last : ℕ) (key : RunKey) → IsReplay limit last key []
empty-IsReplay limit last key = record {
  increasing = tt;
  numbered = tt;
  keyed = tt;
  bounded = omega arith;
}

pub run_locked-IsReplay :
    (hub : Hub) (key : RunKey)
    → IsHub hub
    → IsReplay hub.replay_limit hub.next_sequence key (run_locked key hub).replay
run_locked-IsReplay hub key v = elim (Option-cases (lookup key hub.runs)) [
  | inl e ↦ rw e (empty-IsReplay hub.replay_limit hub.next_sequence key)
  | inr (run, e) ↦ rw e (v.replays key run e)
]

-- A new hub is in order, whatever limits it is given, negative ones included.
pub new_hub_with_buffer-IsHub : (limit buffer : ℤ) → IsHub (new_hub_with_buffer limit buffer)
unfolding new_hub_with_buffer lookup
new_hub_with_buffer-IsHub limit buffer = record {
  has_room = ground arith;
  replays = λ key run h. cc;
}

IsReplay-mono :
    {limit last : ℕ} {key : RunKey} {replay : List ControlEvent} (next : ℕ)
    → last ≤ next
    → IsReplay limit last key replay
    → IsReplay limit next key replay
IsReplay-mono {last = last} {replay = replay} next h v = record {
  increasing = v.increasing;
  numbered = All-imp (λ e b. omega arith) replay v.numbered;
  keyed = v.keyed;
  bounded = v.bounded;
}

last_n-IsReplay :
    (limit last : ℕ) (replay : List ControlEvent) (event : ControlEvent)
    → event.sequence ≡ last + 1
    → IsReplay limit last event.key replay
    → IsReplay limit (last + 1) event.key (last_n limit (replay ++ event ∷ []))
last_n-IsReplay limit last replay event e v = record {
  increasing = IsIncreasing-drop _ (replay ++ event ∷ []) (
      IsIncreasing-append replay event v.increasing
        (All-imp (λ f b. omega arith) replay v.numbered));
  numbered = All-drop _ _ (replay ++ event ∷ []) (
      All-append _ replay (event ∷ []) (All-imp (λ f b. omega arith) replay v.numbered)
        (omega arith, tt));
  keyed = All-drop _ _ (replay ++ event ∷ []) (All-append _ replay (event ∷ []) v.keyed (refl, tt));
  bounded = length-last_n-le limit (replay ++ event ∷ []);
}

-- What an entry of the map is after a key has been set.
lookup_after_insert :
    (key j : RunKey) (set run : RunEvents) (runs : List (RunKey × RunEvents))
    → lookup j (insert key set runs) ≡ some run
    → ((key ≡ j) × (set ≡ run)) ⊎ (lookup j runs ≡ some run)
lookup_after_insert key j set run runs h = elim (Bool-cases (run_key_eq key j)) [
  | inl e ↦ inl ((run_key_eq_iff key j).0 e, ground (arith, lookup-insert key j set runs))
  | inr e ↦ inr (ground (arith, lookup-insert key j set runs))
]

IsReplay-at :
    (limit last m : ℕ) (key j : RunKey) (replay : List ControlEvent)
    → last ≡ m
    → key ≡ j
    → IsReplay limit last key replay
    → IsReplay limit m j replay
IsReplay-at limit last m key j replay e f v =
    subst (λ k. IsReplay limit k j replay) e (subst (λ k. IsReplay limit last k replay) f v)

remember-IsReplay :
    (now : GoString) (event : ControlEvent) (hub : Hub)
    → IsHub hub
    → hub.next_sequence + 1 < 2 ^ 64
    → IsReplay hub.replay_limit
        (hub.next_sequence + 1)
        event.key
        (remember hub.replay_limit (run_locked event.key hub).replay (stamp now event hub))
remember-IsReplay now event hub v h =
    let old = run_locked-IsReplay hub event.key v in
    rw
      (remember_lem hub.replay_limit (run_locked event.key hub).replay (stamp now event hub)
        old.bounded)
      (last_n-IsReplay hub.replay_limit hub.next_sequence (run_locked event.key hub).replay
        (stamp now event hub) (omega arith) old)

-- A published event keeps the hub in order, until 2 ^ 64 events have been numbered.
pub published-IsHub :
    (now : GoString) (event : ControlEvent) (hub : Hub)
    → hub.next_sequence + 1 < 2 ^ 64
    → IsHub hub
    → IsHub (published now event hub)
published-IsHub now event hub h v = record {
  has_room = v.has_room;
  replays = λ key run found. elim (lookup_after_insert event.key key _ run hub.runs found) [
    | inl (same, set) ↦
        subst (λ r. IsReplay hub.replay_limit ((hub.next_sequence + 1) % 2 ^ 64) key r.replay) set
          (IsReplay-at hub.replay_limit (hub.next_sequence + 1) _ event.key key _ (omega arith) same
            (remember-IsReplay now event hub v h))
    | inr kept ↦
        IsReplay-mono ((hub.next_sequence + 1) % 2 ^ 64) (omega arith) (v.replays key run kept)
  ];
}

-- `publish` keeps the hub in order, whatever it is given, until 2 ^ 64 events have been numbered.
pub publish-IsHub :
    (names : Names) (now : GoString) (event : ControlEvent) (hub : Hub)
    → hub.next_sequence + 1 < 2 ^ 64
    → IsHub hub
    → (hub' : Hub) × (r : Result ControlError ControlEvent) × (publish names now event hub
        ≡ some (hub', r))
      × IsHub hub'
publish-IsHub names now event hub h v = elim (publish_returns names now event hub v.has_room) [
  | inl (e, _, returned) ↦ (hub, err e, returned, v)
  | inr (_, returned) ↦ (
    published now event hub,
    ok (stamp now event hub),
    returned,
    published-IsHub now event hub h v,
  )
]

-- Storing a run with the replay it had keeps the hub in order.
pub insert-IsHub :
    (hub : Hub) (key : RunKey) (set : RunEvents)
    → set.replay ≡ (run_locked key hub).replay
    → IsHub hub
    → IsHub (record hub { runs = insert key set hub.runs })
insert-IsHub hub key set same v = record {
  has_room = v.has_room;
  replays = λ j run found. elim (lookup_after_insert key j set run hub.runs found) [
    | inl (e, f) ↦
        subst (λ r. IsReplay hub.replay_limit hub.next_sequence j r.replay) f
          (rw same (
            IsReplay-at hub.replay_limit hub.next_sequence _ key j _ refl e
              (run_locked-IsReplay hub key v)))
    | inr kept ↦ v.replays j run kept
  ];
}

remove-IsHub :
    (hub : Hub) (key : RunKey) → IsHub hub → IsHub (record hub { runs = remove key hub.runs })
remove-IsHub hub key v = record {
  has_room = v.has_room;
  replays = λ j run found. v.replays j run (ground (arith, lookup-remove key j hub.runs));
}

-- A subscription, refused or not, keeps the hub in order.
pub subscribe_after-IsHub :
    (names : Names) (has_context : Bool) (id : ℕ) (key : RunKey) (after : ℕ) (hub : Hub)
    → IsHub hub
    → IsHub (subscribe_after names has_context id key after hub).0
unfolding subscribe_after
subscribe_after-IsHub names has_context id key after hub v =
    elim (Result-cases (check_subscription names has_context key)) [
      | inl (u, e) ↦ rw (e, subscribe_after) (insert-IsHub hub key _ refl v)
      | inr (f, e) ↦ rw (e, subscribe_after) v
    ]

-- The end of a subscription keeps the hub in order, also where the run's entry is dropped.
pub unsubscribe-IsHub :
    (key : RunKey) (id : ℕ) (hub : Hub) → IsHub hub → IsHub (unsubscribe key id hub)
unfolding unsubscribe
unsubscribe-IsHub key id hub v = elim (Option-cases (lookup key hub.runs)) [
  | inl e ↦ rw (e, unsubscribe) v
  | inr (run, e) ↦
      rw (e, unsubscribe)
        (elim (Bool-cases (is_nil (without id run.subscribers) && is_nil run.replay)) [
          | inl gone ↦ rw gone (remove-IsHub hub key v)
          | inr kept ↦ rw kept (
              insert-IsHub hub key
                (record { replay = run.replay; subscribers = without id run.subscribers })
                (rw e refl) v)
        ])
]
