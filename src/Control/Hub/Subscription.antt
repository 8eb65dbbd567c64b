-- ===== src/Control/Hub/Subscription.antt =====
-- `SubscribeAfter` of internal/control/eventhub.go, followed by publications.
use kube_rsync_machine.Common.{
  ℕ, ◌+◌, ◌^◌, ◌≡◌, ◌≤◌, ◌<◌, refl, ap, subst, Option, ◌∙◌, List, [], ◌∷◌, ◌++◌, none, some, arith,
  length, last_n_fits, ltb, ok, keep_if, length-keep_if-le, true, ◌==◌, ==_iff, ◌||◌,
}
use kube_rsync_machine.Common.Text.{GoString}
use kube_rsync_machine.Common.Maps.{insert, lookup-insert_self}
use kube_rsync_machine.Control.Types.{RunKey, RunKey_eq, run_key_eq}
use kube_rsync_machine.Control.Validate.{Names, validate_run_key}
use kube_rsync_machine.Control.Hub.{
  ControlEvent, Subscriber, Hub, run_locked, or_no_run, events_after, subscribe_after,
  check_subscription,
}
use kube_rsync_machine.Control.Hub.Replay.{IsHub, run_locked-IsReplay, insert-IsHub}
use kube_rsync_machine.Control.Hub.Snapshot.{events_after_lem}
use kube_rsync_machine.Control.Hub.History.{publish_all, publish_all_lem, of_run, channel}

-- The hub with the new subscriber.
abbrev pub subscribed : ℕ → RunKey → Hub → Hub
subscribed id key hub = record hub {
  runs =
      insert key
        (record {
          replay = (run_locked key hub).replay;
          subscribers = (run_locked key hub).subscribers ++ record { id = id; queue = [] } ∷ [];
        })
        hub.runs;
}

pub subscribe_after_ok :
    (names : Names) (id : ℕ) (key : RunKey) (after : ℕ) (hub : Hub)
    → validate_run_key names key ≡ ok tt
    → subscribe_after names true id key after hub
      ≡ (subscribed id key hub, ok (events_after (run_locked key hub).replay after))
unfolding subscribe_after check_subscription
subscribe_after_ok names id key after hub h =
    let checked : check_subscription names true key ≡ ok tt = rw (h, check_subscription) in
    rw (checked, subscribe_after)

channel-append :
    (id : ℕ) (subscribers : List Subscriber)
    → channel id subscribers ≡ none
    → channel id (subscribers ++ record { id = id; queue = [] } ∷ []) ≡ some []
channel-append id [] h = ground (arith, ==_iff id id)
channel-append id (s ∷ subscribers) h = ground (arith, channel-append id subscribers)

new_channel :
    (id : ℕ) (key : RunKey) (hub : Hub)
    → channel id (run_locked key hub).subscribers ≡ none
    → channel id (run_locked key (subscribed id key hub)).subscribers ≡ some []
new_channel id key hub fresh =
    ap (λ r. channel id (or_no_run r).subscribers) (lookup-insert_self key _ hub.runs)
    ∙ channel-append id (run_locked key hub).subscribers fresh

-- The events that the publications have accepted.
abbrev pub accepted : Option (Hub × List ControlEvent) → List ControlEvent
accepted none = []
accepted (some (hub, events)) = events

-- No more events are accepted than there are publications.
pub few_calls_fit :
    (names : Names) (key : RunKey) (calls : List (GoString × ControlEvent)) (hub : Hub)
    → IsHub hub
    → hub.next_sequence + length calls < 2 ^ 64
    → length (of_run key (accepted (publish_all names calls hub))) ≤ length calls
few_calls_fit names key calls hub v small =
    let (hub', events, returned, p, few) = publish_all_lem names calls hub v small in
    rw returned (omega (arith, few, length-keep_if-le (λ e. run_key_eq e.key key) events))

-- A subscriber at a new address is first given the remembered events of the run that are numbered
-- above `after`, in order. Of any publications that follow, if no more of the run's events are
-- accepted than its channel has places for, the channel then holds exactly these, in order: the
-- subscriber misses no event and is given none twice.
pub subscribe_after_gapless :
    (names : Names) (id : ℕ) (key : RunKey) (after : ℕ) (calls : List (GoString × ControlEvent))
    (hub : Hub)
    → IsHub hub
    → validate_run_key names key ≡ ok tt
    → channel id (run_locked key hub).subscribers ≡ none
    → hub.next_sequence + length calls < 2 ^ 64
    → length (of_run key (accepted (publish_all names calls (subscribed id key hub))))
      ≤ hub.subscriber_buffer
    → (hub' : Hub) × (events : List ControlEvent) × (subscribe_after names true id key after hub ≡ (
      subscribed id key hub,
      ok (keep_if (λ e. after == 0 || ltb after e.sequence) (run_locked key hub).replay),
    ))
      × (publish_all names calls (subscribed id key hub) ≡ some (hub', events))
      × (channel id (run_locked key hub').subscribers ≡ some (of_run key events))
subscribe_after_gapless names id key after calls hub v h fresh small room =
    let same = subscribe_after_ok names id key after hub h in
    let v' : IsHub (subscribed id key hub) = insert-IsHub hub key _ refl v in
    let (hub', events, returned, p, few) =
      publish_all_lem names calls (subscribed id key hub) v' small in
    let fits : length (of_run key events) ≤ hub.subscriber_buffer =
      subst (λ r. length (of_run key (accepted r)) ≤ hub.subscriber_buffer) returned room in
    (
      hub',
      events,
      same
          ∙ ap (λ es. (subscribed id key hub, ok es))
              (events_after_lem after _ (run_locked-IsReplay hub key v).increasing),
      returned,
      p.run_channels key id [] (new_channel id key hub fresh) (omega arith)
          ∙ ap some (last_n_fits hub.subscriber_buffer (of_run key events) (omega (arith, fits))),
    )
