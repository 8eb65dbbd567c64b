-- ===== src/Control/Hub.antt =====
-- internal/control/eventhub.go: events by run, with a bounded replay and subscribers. Each method
-- holds the mutex or works on its own, and one call at a time is modelled. Events are values, so
-- the `clone...` functions, which guard against sharing, have no counterpart.
pub mod Delivery
pub mod Replay
pub mod Snapshot
pub mod History
pub mod Subscription
use kube_rsync_machine.Common.{
  ℕ, ◌+◌, ◌-◌, ◌%◌, ◌^◌, ◌≡◌, Bool, true, false, not, ◌&&◌, ◌||◌, List, [], ◌∷◌, ◌++◌, Option, none,
  some, Result, ok, err, ◌>>=◌ as then_do, ◌>>◌, refuse, guard, if◌then◌else◌, ◌==◌, ltb, leb,
  length, drop, keep_if,
}
use kube_rsync_machine.Common.Int.{ℤ, pos, is_negative, to_ℕ}
use kube_rsync_machine.Common.Sort.{sort}
use kube_rsync_machine.Common.Text.{GoString, codes, str_eq}
use kube_rsync_machine.Common.Maps.{lookup, insert, remove}
use kube_rsync_machine.Control.Types.{
  RunKey, TargetEvent, TargetCommandAckEvent, SourceEvent, target_key, ack_key, source_key,
  run_key_eq, RunKey_eq,
}
use kube_rsync_machine.Control.Validate.{
  Names, ControlError, validate_run_key, is_set, unsupported_event_kind, target_payload_required,
  command_ack_payload_required, source_payload_required, context_required,
}

abbrev pub event_kind_target : GoString
event_kind_target = codes "target"

abbrev pub event_kind_target_command_ack : GoString
event_kind_target_command_ack = codes "target_command_ack"

abbrev pub event_kind_source : GoString
event_kind_source = codes "source"

pub record ControlEvent : Type 0 where
  pub sequence : ℕ
  pub published_at : GoString
  pub kind : GoString
  pub key : RunKey
  pub target : Option TargetEvent
  pub command_ack : Option TargetCommandAckEvent
  pub source : Option SourceEvent

-- A subscriber's address and what its channel holds, oldest first.
pub record Subscriber : Type 0 where
  pub id : ℕ
  pub queue : List ControlEvent

pub record RunEvents : Type 0 where
  pub replay : List ControlEvent
  pub subscribers : List Subscriber

pub record Hub : Type 0 where
  pub replay_limit : ℕ
  pub subscriber_buffer : ℕ
  pub next_sequence : ℕ
  pub runs : List (RunKey × RunEvents)
  pub all_subscribers : List Subscriber

-- `NewEventHubWithBuffer`
unfoldable pub new_hub_with_buffer : ℤ → ℤ → Hub
new_hub_with_buffer replay_limit buffer = record {
  replay_limit = if is_negative replay_limit then 0 else to_ℕ replay_limit;
  subscriber_buffer = if ltb (to_ℕ buffer) 1 then 1 else to_ℕ buffer;
  next_sequence = 0;
  runs = [];
  all_subscribers = [];
}

-- `NewEventHub`
unfoldable pub new_hub : ℤ → Hub
unfolding new_hub_with_buffer
new_hub replay_limit = new_hub_with_buffer replay_limit (pos 64)

-- `deliverLatest` on a channel of `buffer` places: send if there is room, else drop the oldest and
-- try again. `none` is the loop that never ends, with no place at all.
unfoldable pub deliver_latest : ℕ → List ControlEvent → ControlEvent → Option (List ControlEvent)
deliver_latest buffer [] event = if ltb 0 buffer then some (event ∷ []) else none
deliver_latest buffer (oldest ∷ queue) event =
    let retried = deliver_latest buffer queue event in
    if ltb (length (oldest ∷ queue)) buffer then some ((oldest ∷ queue) ++ event ∷ []) else retried

infixl 5 ◌>>=◌
abbrev ◌>>=◌ {ℓ κ} : {A : Type ℓ} {B : Type κ} → Option A → (A → Option B) → Option B
none >>= f = none
some a >>= f = f a

pub deliver_all : ℕ → List Subscriber → ControlEvent → Option (List Subscriber)
unfolding deliver_latest
deliver_all buffer [] event = some []
deliver_all buffer (s ∷ subscribers) event = do
  queue ← deliver_latest buffer s.queue event
  rest ← deliver_all buffer subscribers event
  some (record s { queue = queue } ∷ rest)

abbrev pub no_run : RunEvents
no_run = record { replay = []; subscribers = [] }

abbrev or_no_run : Option RunEvents → RunEvents
or_no_run none = no_run
or_no_run (some run) = run

-- The run that `runLocked` returns; where it is stored, the map has an entry for the key.
abbrev pub run_locked : RunKey → Hub → RunEvents
run_locked key hub = or_no_run (lookup key hub.runs)

-- The replay after one more event, cut to the limit.
pub remember : ℕ → List ControlEvent → ControlEvent → List ControlEvent
remember limit replay event =
    if ltb 0 limit
    then (let longer = replay ++ event ∷ [] in drop (length longer - limit) longer)
    else replay

-- The guards of `publish`.
unfoldable pub check_event : Names → ControlEvent → Result ControlError (Unit {0})
check_event names event =
    then_do
      (guard
        (str_eq event.kind event_kind_target
          || str_eq event.kind event_kind_target_command_ack
          || str_eq event.kind event_kind_source)
        (unsupported_event_kind event.kind))
      λ _. then_do (validate_run_key names event.key) λ _.
        then_do
          (refuse (str_eq event.kind event_kind_target && not (is_set event.target))
            target_payload_required)
          λ _.
            then_do
              (refuse
                (str_eq event.kind event_kind_target_command_ack && not (is_set event.command_ack))
                command_ack_payload_required)
              λ _.
                refuse (str_eq event.kind event_kind_source && not (is_set event.source))
                  source_payload_required

-- The rest of `publish`: number the event, store it, hand it to the subscribers.
unfoldable pub publish_checked : GoString → ControlEvent → Hub → Option (Hub × ControlEvent)
unfolding deliver_all remember
publish_checked now event hub =
    let sequence = (hub.next_sequence + 1) % 2 ^ 64 in
    let stamped : ControlEvent = record event { sequence = sequence; published_at = now } in
    let run = run_locked event.key hub in
    (do
      subscribers ← deliver_all hub.subscriber_buffer run.subscribers stamped
      all_subscribers ← deliver_all hub.subscriber_buffer hub.all_subscribers stamped
      some (
        record hub {
          next_sequence = sequence;
          runs =
              insert event.key
                (record {
                  replay = remember hub.replay_limit run.replay stamped;
                  subscribers = subscribers;
                })
                hub.runs;
          all_subscribers = all_subscribers;
        },
        stamped,
      ))

abbrev accept : Option (Hub × ControlEvent) → Option (Hub × Result ControlError ControlEvent)
accept none = none
accept (some (hub, event)) = some (hub, ok event)

-- `publish`; `now` is `time.Now().UTC()`, and `none` stands for a call that does not return.
unfoldable pub publish :
    Names → GoString → ControlEvent → Hub → Option (Hub × Result ControlError ControlEvent)
publish names now event hub = elim (check_event names event) [
  | err e ↦ some (hub, err e)
  | ok _ ↦ accept (publish_checked now event hub)
]

unfoldable pub publish_target :
    Names → GoString → TargetEvent → Hub → Option (Hub × Result ControlError ControlEvent)
publish_target names now event = publish names now (record {
  sequence = 0;
  published_at = [];
  kind = event_kind_target;
  key = target_key event;
  target = some event;
  command_ack = none;
  source = none;
})

unfoldable pub publish_target_command_ack :
    Names → GoString → TargetCommandAckEvent → Hub → Option (Hub × Result ControlError ControlEvent)
publish_target_command_ack names now event = publish names now (record {
  sequence = 0;
  published_at = [];
  kind = event_kind_target_command_ack;
  key = ack_key event;
  target = none;
  command_ack = some event;
  source = none;
})

unfoldable pub publish_source :
    Names → GoString → SourceEvent → Hub → Option (Hub × Result ControlError ControlEvent)
publish_source names now event = publish names now (record {
  sequence = 0;
  published_at = [];
  kind = event_kind_source;
  key = source_key event;
  target = none;
  command_ack = none;
  source = some event;
})

-- The loop of `cloneEventsAfter`: everything from the first event above `after` on.
pub from_first_above : ℕ → List ControlEvent → List ControlEvent
from_first_above after [] = []
from_first_above after (event ∷ events) =
    let later = from_first_above after events in
    if ltb after event.sequence then event ∷ events else later

pub events_after : List ControlEvent → ℕ → List ControlEvent
unfolding from_first_above
events_after events after = if after == 0 then events else from_first_above after events

-- `SnapshotAfter`; `Snapshot` passes 0.
unfoldable pub snapshot_after : Names → RunKey → ℕ → Hub → Result ControlError (List ControlEvent)
unfolding events_after
snapshot_after names key after hub =
    then_do (validate_run_key names key) λ _. ok (events_after (run_locked key hub).replay after)

-- The guards of `SubscribeAfter`.
pub check_subscription : Names → Bool → RunKey → Result ControlError (Unit {0})
check_subscription names has_context key =
    then_do (validate_run_key names key) λ _. guard has_context context_required

-- `SubscribeAfter` up to the goroutine, for a subscriber at address `id`: the events that are sent
-- before those of its channel.
unfoldable pub subscribe_after :
    Names → Bool → ℕ → RunKey → ℕ → Hub → Hub × Result ControlError (List ControlEvent)
subscribe_after names has_context id key after hub =
    elim (check_subscription names has_context key) [
      | err e ↦ (hub, err e)
      | ok _ ↦
          let run = run_locked key hub in
          (
            record hub {
              runs =
                  insert key
                    (record run {
                      subscribers = run.subscribers ++ record { id = id; queue = [] } ∷ [];
                    })
                    hub.runs;
            },
            ok (events_after run.replay after),
          )
    ]

pub all_replays : List (RunKey × RunEvents) → ℕ → List ControlEvent
unfolding events_after
all_replays [] after = []
all_replays ((key, run) ∷ runs) after = events_after run.replay after ++ all_replays runs after

abbrev pub by_sequence : ControlEvent → ControlEvent → Bool
by_sequence a b = leb a.sequence b.sequence

-- `SubscribeAllAfter` up to the goroutine.
unfoldable pub subscribe_all_after :
    Bool → ℕ → ℕ → Hub → Hub × Result ControlError (List ControlEvent)
unfolding all_replays
subscribe_all_after has_context id after hub =
    if has_context
    then (
      record hub { all_subscribers = hub.all_subscribers ++ record { id = id; queue = [] } ∷ [] },
      ok (sort by_sequence (all_replays hub.runs after)),
    )
    else (hub, err context_required)

abbrev pub without : ℕ → List Subscriber → List Subscriber
without id = keep_if (λ s. not (s.id == id))

abbrev pub is_nil {ℓ} : {A : Type ℓ} → List A → Bool
is_nil [] = true
is_nil (x ∷ xs) = false

-- `unsubscribe`
unfoldable pub unsubscribe : RunKey → ℕ → Hub → Hub
unsubscribe key id hub = elim (lookup key hub.runs) [
  | none ↦ hub
  | some run ↦
      let left = without id run.subscribers in
      record hub {
        runs =
            if is_nil left && is_nil run.replay
            then remove key hub.runs
            else insert key (record run { subscribers = left }) hub.runs;
      }
]

-- `unsubscribeAll`
unfoldable pub unsubscribe_all : ℕ → Hub → Hub
unsubscribe_all id hub = record hub { all_subscribers = without id hub.all_subscribers }
