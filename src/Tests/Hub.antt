-- ===== src/Tests/Hub.antt =====
-- The hub of internal/control/eventhub.go at concrete inputs.
use kube_rsync_machine.Common.{
  ℕ, ◌≡◌, ◌≤◌, refl, true, false, not, ◌||◌, List, [], ◌∷◌, Option, none, some, Result, ok, arith,
  keep_if, length, ltb, ◌==◌,
}
use kube_rsync_machine.Common.Int.{pos}
use kube_rsync_machine.Common.Text.{GoString, codes, str_eq, is_empty}
use kube_rsync_machine.Common.Maps.{lookup, insert}
use kube_rsync_machine.Control.Types.{RunKey, TargetEvent, run_kind_backup, run_key_eq}
use kube_rsync_machine.Control.Validate.{Names, ControlError, validate_run_key}
use kube_rsync_machine.Control.Hub.{
  Hub, ControlEvent, new_hub_with_buffer, deliver_latest, publish, publish_checked, check_event,
  snapshot_after, subscribe_after, event_kind_target, run_locked,
}
use kube_rsync_machine.Control.Hub.Delivery.{published}
use kube_rsync_machine.Control.Hub.Replay.{IsHub, insert-IsHub, published-IsHub}
use kube_rsync_machine.Control.Hub.Snapshot.{snapshot_after_lem}
use kube_rsync_machine.Control.Hub.History.{
  publish_all, publish_all_lem, HasPublished, channel, of_run,
}
use kube_rsync_machine.Control.Hub.Subscription.{subscribed, few_calls_fit, subscribe_after_gapless}

-- Every name but the empty one is taken.
abbrev pub any_names : Names
any_names = record {
  is_dns1123_label = λ s. not (is_empty s);
  is_dns1123_subdomain = λ s. not (is_empty s);
  is_rfc3339 = λ s. not (is_empty s);
}

abbrev pub nightly : RunKey
nightly = record { namespace = codes "apps"; name = codes "nightly"; kind = run_kind_backup }

abbrev pub ready : TargetEvent
ready = record {
  run_namespace = codes "apps";
  run_name = codes "nightly";
  run_kind = run_kind_backup;
  target_namespace = codes "apps";
  target_name = codes "nas";
  phase = codes "Ready";
  message = [];
  snapshot = [];
  bytes_freed = 0;
  paths = [];
  restore_points = [];
  restore_scanned = false;
  conditions = [];
  available_bytes = 0;
  capacity_bytes = 0;
}

abbrev pub noon : GoString
noon = codes "2024-01-02T12:00:00Z"

abbrev report : ControlEvent
report = record {
  sequence = 0;
  published_at = [];
  kind = event_kind_target;
  key = nightly;
  target = some ready;
  command_ack = none;
  source = none;
}

abbrev pub small_hub : Hub
small_hub = record {
  replay_limit = 2;
  subscriber_buffer = 2;
  next_sequence = 0;
  runs = [];
  all_subscribers = [];
}

new_hub_small : new_hub_with_buffer (pos 2) (pos 2) ≡ small_hub
unfolding new_hub_with_buffer
new_hub_small = refl

pub small_hub-IsHub : IsHub small_hub
unfolding lookup
small_hub-IsHub = record { has_room = omega arith; replays = λ key run h. cc }

pub nightly_valid : validate_run_key any_names nightly ≡ ok tt
unfolding validate_run_key str_eq
nightly_valid = refl

abbrev numbered : ℕ → ControlEvent
numbered n = record report { sequence = n; published_at = noon }

abbrev snapshot_of :
    Option (Hub × List ControlEvent) → Option (Result ControlError (List ControlEvent))
snapshot_of none = none
snapshot_of (some (hub, events)) = some (snapshot_after any_names nightly 0 hub)

-- Three publications into two places leave the second and the third.
three_published :
    snapshot_of
      (publish_all any_names ((noon, report) ∷ (noon, report) ∷ (noon, report) ∷ []) small_hub)
    ≡ some (ok (numbered 2 ∷ numbered 3 ∷ []))
unfolding publish_all publish publish_checked check_event deliver_latest snapshot_after
    validate_run_key str_eq lookup insert run_key_eq
three_published = refl

-- A hub with one remembered event and one subscriber of its run.
abbrev one_event : Hub
one_event = subscribed 7 nightly (published noon report small_hub)

one_event-IsHub : IsHub one_event
one_event-IsHub =
    insert-IsHub (published noon report small_hub) nightly _ refl
      (published-IsHub noon report small_hub (omega arith) small_hub-IsHub)

snapshot_after_lem_example :
    snapshot_after any_names nightly 0 one_event
    ≡ ok (keep_if (λ e. 0 == 0 || ltb 0 e.sequence) (run_locked nightly one_event).replay)
snapshot_after_lem_example =
    snapshot_after_lem any_names nightly 0 one_event one_event-IsHub nightly_valid

publish_all_lem_example :
    (hub' : Hub) × (events : List ControlEvent) × (publish_all any_names
        ((noon, report) ∷ (noon, report) ∷ (noon, report) ∷ [])
        small_hub
      ≡ some (hub', events))
    × HasPublished small_hub events hub'
    × (length events ≤ 3)
publish_all_lem_example =
    publish_all_lem any_names ((noon, report) ∷ (noon, report) ∷ (noon, report) ∷ []) small_hub
      small_hub-IsHub (omega arith)

nobody : channel 7 (run_locked nightly small_hub).subscribers ≡ none
unfolding lookup
nobody = refl

subscribe_after_gapless_example :
    (hub' : Hub) × (events : List ControlEvent) × (subscribe_after any_names true 7 nightly 0
        small_hub
      ≡ (
        subscribed 7 nightly small_hub,
        ok (keep_if (λ e. 0 == 0 || ltb 0 e.sequence) (run_locked nightly small_hub).replay),
      ))
    × (publish_all any_names ((noon, report) ∷ (noon, report) ∷ []) (subscribed 7 nightly small_hub)
        ≡ some (hub', events))
    × (channel 7 (run_locked nightly hub').subscribers ≡ some (of_run nightly events))
subscribe_after_gapless_example =
    subscribe_after_gapless any_names 7 nightly 0 ((noon, report) ∷ (noon, report) ∷ []) small_hub
      small_hub-IsHub nightly_valid nobody (omega arith)
      (omega (
        arith,
        few_calls_fit any_names nightly ((noon, report) ∷ (noon, report) ∷ [])
            (subscribed 7 nightly small_hub) (insert-IsHub small_hub nightly _ refl small_hub-IsHub)
            (omega arith),
      ))
