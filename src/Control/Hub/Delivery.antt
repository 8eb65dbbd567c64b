-- ===== src/Control/Hub/Delivery.antt =====
-- `deliverLatest` and `publish` of internal/control/eventhub.go.
use kube_rsync_machine.Common.{
  ℕ, zero, suc, ◌+◌, ◌≡◌, ◌≤◌, ◌<◌, refl, List, [], ◌∷◌, ◌++◌, some, arith, length, last_n, ltb,
  Bool-cases, inl, inr, ◌⊎◌, ok, err, Result-cases, ◌%◌, ◌^◌, ap, sym, ◌∙◌, map, last_n_fits,
  last_n_cons, length-append, lt→ltb,
}
use kube_rsync_machine.Control.Hub.{
  ControlEvent, Subscriber, deliver_latest, deliver_all, Hub, remember, run_locked, publish,
  publish_checked, check_event,
}
use kube_rsync_machine.Common.Text.{GoString}
use kube_rsync_machine.Common.Maps.{insert}
use kube_rsync_machine.Control.Validate.{Names, ControlError}
use kube_rsync_machine.Control.Types.{RunKey_eq}

-- With at least one place the channel ends up with the newest events, as many as it has places for,
-- the delivered one last.
pub deliver_latest_lem :
    (buffer : ℕ) (queue : List ControlEvent) (event : ControlEvent)
    → 0 < buffer
    → deliver_latest buffer queue event ≡ some (last_n buffer (queue ++ event ∷ []))
unfolding deliver_latest
deliver_latest_lem buffer [] event h =
    ground (arith, lt→ltb 0 buffer h, last_n_fits buffer (event ∷ []) h)
deliver_latest_lem buffer (oldest ∷ queue) event h =
    elim (Bool-cases (ltb (length (oldest ∷ queue)) buffer)) [
      | inl room ↦ rw room (
          ap some (
            sym (
              last_n_fits buffer ((oldest ∷ queue) ++ event ∷ [])
                (ground (arith, length-append queue (event ∷ []))))))
      | inr full ↦ rw full (
          deliver_latest_lem buffer queue event h
          ∙ ap some (
              sym (
                last_n_cons buffer oldest (queue ++ event ∷ [])
                  (ground (arith, length-append queue (event ∷ []))))))
    ]

-- Every subscriber's channel after one delivery.
abbrev pub delivered : ℕ → ControlEvent → Subscriber → Subscriber
delivered buffer event s = record s { queue = last_n buffer (s.queue ++ event ∷ []) }

pub deliver_all_lem :
    (buffer : ℕ) (subscribers : List Subscriber) (event : ControlEvent)
    → 0 < buffer
    → deliver_all buffer subscribers event ≡ some (map (delivered buffer event) subscribers)
unfolding deliver_all
deliver_all_lem buffer [] event h = refl
deliver_all_lem buffer (s ∷ subscribers) event h =
    rw (deliver_latest_lem buffer s.queue event h, deliver_all_lem buffer subscribers event h)

-- The event as `publish` numbers it, and the hub that it leaves.
abbrev pub stamp : GoString → ControlEvent → Hub → ControlEvent
stamp now event hub = record event {
  sequence = (hub.next_sequence + 1) % 2 ^ 64;
  published_at = now;
}

abbrev pub published : GoString → ControlEvent → Hub → Hub
published now event hub = record hub {
  next_sequence = (hub.next_sequence + 1) % 2 ^ 64;
  runs =
      insert event.key
        (record {
          replay =
              remember hub.replay_limit (run_locked event.key hub).replay (stamp now event hub);
          subscribers =
              map (delivered hub.subscriber_buffer (stamp now event hub))
                (run_locked event.key hub).subscribers;
        })
        hub.runs;
  all_subscribers = map (delivered hub.subscriber_buffer (stamp now event hub)) hub.all_subscribers;
}

pub publish_checked_lem :
    (now : GoString) (event : ControlEvent) (hub : Hub)
    → 0 < hub.subscriber_buffer
    → publish_checked now event hub ≡ some (published now event hub, stamp now event hub)
unfolding publish_checked
publish_checked_lem now event hub h =
    rw
      (
        deliver_all_lem hub.subscriber_buffer (run_locked event.key hub).subscribers
            (stamp now event hub) h,
        deliver_all_lem hub.subscriber_buffer hub.all_subscribers (stamp now event hub) h,
      )
      refl

-- `publish` returns at every input, an error and the hub as it was, or the numbered event.
pub publish_returns :
    (names : Names) (now : GoString) (event : ControlEvent) (hub : Hub)
    → 0 < hub.subscriber_buffer
    → ((e : ControlError) × (check_event names event ≡ err e)
        × (publish names now event hub ≡ some (hub, err e)))
      ⊎ ((check_event names event ≡ ok tt)
          × (publish names now event hub
              ≡ some (published now event hub, ok (stamp now event hub))))
unfolding publish
publish_returns names now event hub h = elim (Result-cases (check_event names event)) [
  | inl (u, e) ↦ inr (e, rw (e, publish, publish_checked_lem now event hub h))
  | inr (f, e) ↦ inl (f, e, rw (e, publish))
]

-- A remembered replay is the newest events, as many as the limit allows.
pub remember_lem :
    (limit : ℕ) (replay : List ControlEvent) (event : ControlEvent)
    → length replay ≤ limit
    → remember limit replay event ≡ last_n limit (replay ++ event ∷ [])
unfolding remember
remember_lem zero [] event h = refl
remember_lem zero (oldest ∷ replay) event h = absurd (omega arith)
remember_lem (suc limit) replay event h = rw (lt→ltb 0 (suc limit) (omega arith))
