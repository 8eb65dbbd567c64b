-- ===== src/Control/Hub/History.antt =====
-- Histories of publications on the hub of internal/control/eventhub.go.
use kube_rsync_machine.Common.{
  ℕ, ◌+◌, ◌%◌, ◌^◌, ◌≡◌, ◌≤◌, ◌<◌, refl, sym, ap, ◌∙◌, subst, List, [], ◌∷◌, ◌++◌, append_assoc,
  append-nil, map, Option, none, some, arith, length, last_n, last_n_fits, last_n-append,
  Bool-cases, inl, inr, ok, err, keep_if, Result, if◌then◌else◌, length-last_n-le, ◌==◌,
}
use kube_rsync_machine.Common.Text.{GoString}
use kube_rsync_machine.Common.Maps.{lookup, lookup-insert}
use kube_rsync_machine.Control.Types.{RunKey, RunKey_eq, run_key_eq, run_key_eq_iff}
use kube_rsync_machine.Control.Validate.{Names, ControlError}
use kube_rsync_machine.Control.Hub.{
  ControlEvent, Subscriber, Hub, run_locked, or_no_run, remember, publish,
}
use kube_rsync_machine.Control.Hub.Delivery.{
  published, stamp, delivered, publish_returns, remember_lem,
}
use kube_rsync_machine.Control.Hub.Replay.{IsHub, run_locked-IsReplay, published-IsHub}

infixl 5 ◌>>=◌
abbrev ◌>>=◌ {ℓ κ} : {A : Type ℓ} {B : Type κ} → Option A → (A → Option B) → Option B
none >>= f = none
some a >>= f = f a

abbrev pub accepted_first : Result ControlError ControlEvent → List ControlEvent → List ControlEvent
accepted_first (ok event) events = event ∷ events
accepted_first (err e) events = events

-- Calls of `publish` one after another, with the time of each: the last hub, and the events that
-- were accepted, as they were numbered.
unfoldable pub publish_all :
    Names → List (GoString × ControlEvent) → Hub → Option (Hub × List ControlEvent)
publish_all names [] hub = some (hub, [])
publish_all names ((now, event) ∷ calls) hub = do
  (hub', r) ← publish names now event hub
  (hub'', events) ← publish_all names calls hub'
  some (hub'', accepted_first r events)

-- The events of one run.
abbrev pub of_run : RunKey → List ControlEvent → List ControlEvent
of_run key = keep_if (λ e. run_key_eq e.key key)

-- What the channel of subscriber `id` holds.
abbrev pub channel : ℕ → List Subscriber → Option (List ControlEvent)
channel id [] = none
channel id (s ∷ subscribers) = if s.id == id then some s.queue else channel id subscribers

-- Numbered one by one after `last`.
abbrev pub IsConsecutive : ℕ → List ControlEvent → Type 0
IsConsecutive last [] = Unit
IsConsecutive last (event ∷ events) = (event.sequence ≡ last + 1) × IsConsecutive (last + 1) events

-- The hub has gone on by accepting these events, in this order: they are numbered without a gap;
-- each replay is the newest of what it was and the run's events among them; each channel that was
-- within its size holds the newest of what it held and the events meant for it.
pub record HasPublished (hub : Hub) (events : List ControlEvent) (hub' : Hub) : Type 0 where
  pub in_order : IsHub hub'
  pub numbered : IsConsecutive hub.next_sequence events
  pub last : hub'.next_sequence ≡ hub.next_sequence + length events
  pub same_limit : hub'.replay_limit ≡ hub.replay_limit
  pub same_buffer : hub'.subscriber_buffer ≡ hub.subscriber_buffer
  pub replays :
      (key : RunKey)
      → (run_locked key hub').replay
        ≡ last_n hub.replay_limit ((run_locked key hub).replay ++ of_run key events)
  pub run_channels :
      (key : RunKey) (id : ℕ) (queue : List ControlEvent)
      → channel id (run_locked key hub).subscribers ≡ some queue
      → length queue ≤ hub.subscriber_buffer
      → channel id (run_locked key hub').subscribers
        ≡ some (last_n hub.subscriber_buffer (queue ++ of_run key events))
  pub all_channels :
      (id : ℕ) (queue : List ControlEvent)
      → channel id hub.all_subscribers ≡ some queue
      → length queue ≤ hub.subscriber_buffer
      → channel id hub'.all_subscribers ≡ some (last_n hub.subscriber_buffer (queue ++ events))

last_n-append_nil : (n : ℕ) (xs : List ControlEvent) → length xs ≤ n → xs ≡ last_n n (xs ++ [])
last_n-append_nil n xs h = rw append-nil (sym (last_n_fits n xs h))

published_none : (hub : Hub) → IsHub hub → HasPublished hub [] hub
published_none hub v = record {
  in_order = v;
  numbered = tt;
  last = omega arith;
  same_limit = refl;
  same_buffer = refl;
  replays = λ key. last_n-append_nil _ _ (run_locked-IsReplay hub key v).bounded;
  run_channels = λ key id queue e h. e ∙ ap some (last_n-append_nil _ queue h);
  all_channels = λ id queue e h. e ∙ ap some (last_n-append_nil _ queue h);
}

channel-delivered :
    (buffer id : ℕ) (event : ControlEvent) (subscribers : List Subscriber)
    (queue : List ControlEvent)
    → channel id subscribers ≡ some queue
    → channel id (map (delivered buffer event) subscribers)
      ≡ some (last_n buffer (queue ++ event ∷ []))
channel-delivered buffer id event [] queue h = cc
channel-delivered buffer id event (s ∷ subscribers) queue h = elim (Bool-cases (s.id == id)) [
  | inl e ↦
      let same : s.queue ≡ queue = ground (arith, e) in
      rw e (ap (λ q. some (last_n buffer (q ++ event ∷ []))) same)
  | inr e ↦ rw e (channel-delivered buffer id event subscribers queue (ground (arith, e)))
]

no_wrap : (n : ℕ) → n + 1 < 2 ^ 64 → (n + 1) % 2 ^ 64 ≡ n + 1
no_wrap n h = omega arith

-- The run with key `key` after one publication.
run_locked-published :
    (now : GoString) (event : ControlEvent) (hub : Hub) (key : RunKey)
    → run_locked key (published now event hub)
      ≡ or_no_run (
          if run_key_eq event.key key
          then some (record {
            replay =
                remember hub.replay_limit (run_locked event.key hub).replay (stamp now event hub);
            subscribers =
                map
                  (delivered hub.subscriber_buffer (stamp now event hub))
                  (run_locked event.key hub).subscribers;
          })
          else lookup key hub.runs)
run_locked-published now event hub key = ap or_no_run (lookup-insert event.key key _ hub.runs)

-- One publication appends to the replay of its own run, and to no other.
replay_step :
    (now : GoString) (event : ControlEvent) (hub : Hub) (key : RunKey)
    → IsHub hub
    → (run_locked key (published now event hub)).replay
      ≡ last_n hub.replay_limit
          ((run_locked key hub).replay ++ of_run key (stamp now event hub ∷ []))
replay_step now event hub key v =
    ap (λ r. r.replay) (run_locked-published now event hub key)
    ∙ elim (Bool-cases (run_key_eq event.key key)) [
      | inl e ↦
          let same = (run_key_eq_iff event.key key).0 e in
          rw e (
            remember_lem hub.replay_limit (run_locked event.key hub).replay (stamp now event hub)
              (run_locked-IsReplay hub event.key v).bounded
            ∙ ap
                (λ k.
                  last_n hub.replay_limit ((run_locked k hub).replay ++ stamp now event hub ∷ []))
                same)
      | inr e ↦ rw e (last_n-append_nil _ _ (run_locked-IsReplay hub key v).bounded)
    ]

channel_step :
    (now : GoString) (event : ControlEvent) (hub : Hub) (key : RunKey) (id : ℕ)
    (queue : List ControlEvent)
    → channel id (run_locked key hub).subscribers ≡ some queue
    → length queue ≤ hub.subscriber_buffer
    → channel id (run_locked key (published now event hub)).subscribers
      ≡ some (last_n hub.subscriber_buffer (queue ++ of_run key (stamp now event hub ∷ [])))
channel_step now event hub key id queue found fits =
    ap (λ r. channel id r.subscribers) (run_locked-published now event hub key)
    ∙ elim (Bool-cases (run_key_eq event.key key)) [
      | inl e ↦
          let same = (run_key_eq_iff event.key key).0 e in
          rw e (
            channel-delivered hub.subscriber_buffer id (stamp now event hub)
              (run_locked event.key hub).subscribers queue
              (ap (λ k. channel id (run_locked k hub).subscribers) same ∙ found))
      | inr e ↦ rw e (found ∙ ap some (last_n-append_nil _ queue fits))
    ]

of_run_cons :
    (key : RunKey) (event : ControlEvent) (events : List ControlEvent)
    → of_run key (event ∷ events) ≡ of_run key (event ∷ []) ++ of_run key events
of_run_cons key event events = ground arith

-- Keeping the newest after each step, or of all at once, is the same.
last_n_step :
    (n : ℕ) (old new rest : List ControlEvent)
    → last_n n (last_n n (old ++ new) ++ rest) ≡ last_n n (old ++ (new ++ rest))
last_n_step n old new rest =
    last_n-append n (old ++ new) rest ∙ ap (last_n n) (append_assoc old new rest)

-- One more publication before the others.
published_first :
    (now : GoString) (event : ControlEvent) (hub hub' : Hub) (events : List ControlEvent)
    → IsHub hub
    → hub.next_sequence + 1 < 2 ^ 64
    → HasPublished (published now event hub) events hub'
    → HasPublished hub (stamp now event hub ∷ events) hub'
published_first now event hub hub' events v small p = record {
  in_order = p.in_order;
  numbered = (
    omega arith,
    subst (λ k. IsConsecutive k events) (no_wrap hub.next_sequence small) p.numbered,
  );
  last = omega (arith, p.last);
  same_limit = p.same_limit;
  same_buffer = p.same_buffer;
  replays = λ key.
      p.replays key
      ∙ ap (λ r. last_n hub.replay_limit (r ++ of_run key events)) (replay_step now event hub key v)
      ∙ last_n_step hub.replay_limit (run_locked key hub).replay
          (of_run key (stamp now event hub ∷ [])) (of_run key events)
      ∙ ap (λ es. last_n hub.replay_limit ((run_locked key hub).replay ++ es))
          (sym (of_run_cons key (stamp now event hub) events));
  run_channels = λ key id queue found fits.
      p.run_channels key id _ (channel_step now event hub key id queue found fits)
        (length-last_n-le hub.subscriber_buffer _)
      ∙ ap some (
          last_n_step hub.subscriber_buffer queue (of_run key (stamp now event hub ∷ []))
            (of_run key events)
          ∙ ap (λ es. last_n hub.subscriber_buffer (queue ++ es))
              (sym (of_run_cons key (stamp now event hub) events)));
  all_channels = λ id queue found fits.
      p.all_channels id _
        (channel-delivered hub.subscriber_buffer id (stamp now event hub) hub.all_subscribers queue
          found)
        (length-last_n-le hub.subscriber_buffer _)
      ∙ ap some (last_n_step hub.subscriber_buffer queue (stamp now event hub ∷ []) events);
}

-- Any history of publications, valid or not, returns, and has the effect of `HasPublished` for the
-- accepted events, which are no more than the calls, until 2 ^ 64 events have been numbered.
pub publish_all_lem :
    (names : Names) (calls : List (GoString × ControlEvent)) (hub : Hub)
    → IsHub hub
    → hub.next_sequence + length calls < 2 ^ 64
    → (hub' : Hub) × (events : List ControlEvent) × (publish_all names calls hub
        ≡ some (hub', events))
      × HasPublished hub events hub'
      × (length events ≤ length calls)
unfolding publish_all
publish_all_lem names [] hub v small = (hub, [], refl, published_none hub v, omega arith)
publish_all_lem names ((now, event) ∷ calls) hub v small =
    elim (publish_returns names now event hub v.has_room) [
      | inl (e, _, returned) ↦
          let (hub', events, rest, p, few) = publish_all_lem names calls hub v (omega arith) in
          (hub', events, rw (returned, rest), p, omega arith)
      | inr (_, returned) ↦
          let (hub', events, rest, p, few) =
            publish_all_lem names calls (published now event hub)
              (published-IsHub now event hub (omega arith) v) (omega arith) in
          (
            hub',
            stamp now event hub ∷ events,
            rw (returned, rest),
            published_first now event hub hub' events v (omega arith) p,
            omega arith,
          )
    ]
