-- ===== src/Control/Service/Streams.antt =====
-- `RegisterTarget` of internal/control/service.go, followed by enqueues.
use kube_rsync_machine.Common.{
  ℕ, suc, ◌+◌, ◌≡◌, ◌≤◌, refl, sym, ap, ◌∙◌, Bool, List, [], ◌∷◌, ◌++◌, append_assoc, append-nil,
  map, Option, none, some, arith, length, length-append, lt→ltb, All-imp, Bool-cases, Result-cases,
  inl, inr, ◌⊎◌, ok, err, All, All-append, Result, if◌then◌else◌, true, false, ◌==◌, ==_iff,
}
use kube_rsync_machine.Common.Maps.{insert}
use kube_rsync_machine.Control.Types.{RunKey, RunKey_eq, run_key_eq, run_key_eq_iff, TargetCommand}
use kube_rsync_machine.Control.Validate.{Names, ControlError}
use kube_rsync_machine.Control.Service.{
  waiting, Service, Stream, Progress, returned, log_locked, is_seen, check_command, log_command,
  send_all, enqueue_target_command, register_target, check_registration,
}
use kube_rsync_machine.Control.Service.Log.{log_locked-insert}
use kube_rsync_machine.Control.Types.{RegisterTargetRequest, request_key}

-- What the channel of stream `id` holds.
abbrev pub channel : ℕ → List Stream → Option (List TargetCommand)
channel id [] = none
channel id (s ∷ streams) = if s.id == id then some s.queue else channel id streams

-- Each channel can take `n` more commands.
abbrev pub HasRoom : ℕ → Service → Type 0
HasRoom n service =
    (key : RunKey) → All (λ s. length s.queue + n ≤ service.buffer) (log_locked key service).streams

abbrev if_returned : (Service → Option Service) → Service × Progress → Option Service
if_returned rest (service, returned r) = rest service
if_returned rest (service, waiting) = none

-- Calls of `EnqueueTargetCommand` one after another; `none` when one of them waits.
pub enqueue_all : Names → List (RunKey × TargetCommand) → Service → Option Service
enqueue_all names [] service = some service
enqueue_all names ((key, command) ∷ calls) service =
    if_returned (enqueue_all names calls) (enqueue_target_command names key command service)

abbrev sent_to : TargetCommand → Stream → Stream
sent_to command s = record s { queue = s.queue ++ command ∷ [] }

send_all_room :
    (buffer n : ℕ) (streams : List Stream) (command : TargetCommand)
    → All (λ s. length s.queue + suc n ≤ buffer) streams
    → send_all buffer streams command ≡ (map (sent_to command) streams, true)
unfolding send_all
send_all_room buffer n [] command h = refl
send_all_room buffer n (s ∷ streams) command (room, h) =
    rw (send_all_room buffer n streams command h, lt→ltb (length s.queue) buffer (omega arith)) refl

All-sent :
    (buffer n : ℕ) (streams : List Stream) (command : TargetCommand)
    → All (λ s. length s.queue + suc n ≤ buffer) streams
    → All (λ s. length s.queue + n ≤ buffer) (map (sent_to command) streams)
All-sent buffer n [] command h = tt
All-sent buffer n (s ∷ streams) command (room, h) =
    (omega (arith, length-append s.queue (command ∷ [])), All-sent buffer n streams command h)

-- The service after a new command, where every channel has room.
abbrev logged : RunKey → TargetCommand → Service → Service
logged key command service = record service {
  runs =
      insert key
        (record {
          commands = (log_locked key service).commands ++ command ∷ [];
          seen = (log_locked key service).seen ++ command.command_id ∷ [];
          streams = map (sent_to command) (log_locked key service).streams;
        })
        service.runs;
}

log_command_room :
    (n : ℕ) (key : RunKey) (command : TargetCommand) (service : Service)
    → HasRoom (suc n) service
    → log_command key command service ≡ (logged key command service, returned (ok true))
unfolding log_command
log_command_room n key command service h =
    rw (send_all_room service.buffer n (log_locked key service).streams command (h key)) refl

logged-HasRoom :
    (n : ℕ) (key : RunKey) (command : TargetCommand) (service : Service)
    → HasRoom (suc n) service
    → HasRoom n (logged key command service)
logged-HasRoom n key command service h j = elim (Bool-cases (run_key_eq key j)) [
  | inl e ↦
      rw (log_locked-insert key j _ service, e)
        (All-sent service.buffer n (log_locked key service).streams command (h key))
  | inr e ↦
      rw (log_locked-insert key j _ service, e)
        (All-imp (λ s r. omega arith) (log_locked j service).streams (h j))
]

HasRoom-le : (n : ℕ) (service : Service) → HasRoom (suc n) service → HasRoom n service
HasRoom-le n service h j = All-imp (λ s r. omega arith) (log_locked j service).streams (h j)

-- With room in every channel an enqueue returns: nothing has changed, or a new valid command has
-- been logged and sent.
pub enqueue_room :
    (names : Names) (n : ℕ) (key : RunKey) (command : TargetCommand) (service : Service)
    → HasRoom (suc n) service
    → (r : Result ControlError Bool) × ((enqueue_target_command names key command service
          ≡ (service, returned r))
        ⊎ (enqueue_target_command names key command service
            ≡ (logged key command service, returned r)))
unfolding enqueue_target_command
enqueue_room names n key command service h = elim (Result-cases (check_command names key command)) [
  | inl (u, e) ↦ elim (Bool-cases (is_seen command.command_id (log_locked key service))) [
    | inl old ↦ (ok false, inl (rw (e, old, enqueue_target_command)))
    | inr new ↦ (
      ok true,
      inr (rw (e, new, enqueue_target_command) (log_command_room n key command service h)),
    )
  ]
  | inr (f, e) ↦ (err f, inl (rw (e, enqueue_target_command)))
]

-- The stream `id` of the run has been given `first` and has the rest of the log in its channel.
pub record HasStream (id : ℕ) (key : RunKey) (first : List TargetCommand) (service : Service)
    : Type 0 where
  pub queue : List TargetCommand
  pub in_channel : channel id (log_locked key service).streams ≡ some queue
  pub complete : first ++ queue ≡ (log_locked key service).commands

channel-sent :
    (id : ℕ) (command : TargetCommand) (streams : List Stream) (queue : List TargetCommand)
    → channel id streams ≡ some queue
    → channel id (map (sent_to command) streams) ≡ some (queue ++ command ∷ [])
channel-sent id command [] queue h = cc
channel-sent id command (s ∷ streams) queue h =
    ground (arith, channel-sent id command streams queue)

logged-HasStream :
    (id : ℕ) (key j : RunKey) (first : List TargetCommand) (command : TargetCommand)
    (service : Service)
    → HasStream id j first service
    → HasStream id j first (logged key command service)
logged-HasStream id key j first command service v = elim (Bool-cases (run_key_eq key j)) [
  | inl e ↦
      let same = (run_key_eq_iff key j).0 e in
      record {
        queue = v.queue ++ command ∷ [];
        in_channel =
            rw (log_locked-insert key j _ service, e)
              (channel-sent id command _ v.queue (rw same v.in_channel));
        complete =
            rw (log_locked-insert key j _ service, e)
              (sym (append_assoc first v.queue (command ∷ []))
                ∙ ap (λ cs. cs ++ command ∷ []) (rw same v.complete));
      }
  | inr e ↦ record {
    queue = v.queue;
    in_channel = rw (log_locked-insert key j _ service, e) v.in_channel;
    complete = rw (log_locked-insert key j _ service, e) v.complete;
  }
]

enqueue_all-HasStream :
    (names : Names) (id : ℕ) (key : RunKey) (first : List TargetCommand)
    (calls : List (RunKey × TargetCommand)) (service : Service)
    → HasRoom (length calls) service
    → HasStream id key first service
    → (service' : Service) × (enqueue_all names calls service ≡ some service')
      × HasStream id key first service'
unfolding enqueue_all
enqueue_all-HasStream names id key first [] service room v = (service, refl, v)
enqueue_all-HasStream names id key first ((j, command) ∷ calls) service room v =
    let (r, cases) = enqueue_room names (length calls) j command service room in
    elim cases [
      | inl same ↦
          let (service', e, w) =
            enqueue_all-HasStream names id key first calls service
              (HasRoom-le (length calls) service room) v in
          (service', rw (same, e), w)
      | inr new ↦
          let (service', e, w) =
            enqueue_all-HasStream names id key first calls (logged j command service)
              (logged-HasRoom (length calls) j command service room)
              (logged-HasStream id j key first command service v) in
          (service', rw (new, e), w)
    ]

-- The service with the new stream.
abbrev pub registered : ℕ → RunKey → Service → Service
registered id key service = record service {
  runs =
      insert key
        (record {
          commands = (log_locked key service).commands;
          seen = (log_locked key service).seen;
          streams = (log_locked key service).streams ++ record { id = id; queue = [] } ∷ [];
        })
        service.runs;
}

register_target_ok :
    (names : Names) (id : ℕ) (request : RegisterTargetRequest) (service : Service)
    → check_registration names true request ≡ ok tt
    → register_target names true id request service ≡ (
      registered id (request_key request) service,
      ok (log_locked (request_key request) service).commands,
    )
unfolding register_target
register_target_ok names id request service h = rw (h, register_target)

channel-append :
    (id : ℕ) (streams : List Stream)
    → channel id streams ≡ none
    → channel id (streams ++ record { id = id; queue = [] } ∷ []) ≡ some []
channel-append id [] h = ground (arith, ==_iff id id)
channel-append id (s ∷ streams) h = ground (arith, channel-append id streams)

registered-HasRoom :
    (n id : ℕ) (key : RunKey) (service : Service)
    → n ≤ service.buffer
    → HasRoom n service
    → HasRoom n (registered id key service)
registered-HasRoom n id key service room h j = elim (Bool-cases (run_key_eq key j)) [
  | inl e ↦
      rw (log_locked-insert key j _ service, e)
        (All-append (λ (s : Stream). length s.queue + n ≤ service.buffer)
          (log_locked key service).streams (record { id = id; queue = [] } ∷ []) (h key)
          (omega arith, tt))
  | inr e ↦ rw (log_locked-insert key j _ service, e) (h j)
]

registered-HasStream :
    (id : ℕ) (key : RunKey) (service : Service)
    → channel id (log_locked key service).streams ≡ none
    → HasStream id key (log_locked key service).commands (registered id key service)
registered-HasStream id key service fresh =
    let self = (run_key_eq_iff key key).1 refl in
    record {
      queue = [];
      in_channel =
          rw (log_locked-insert key key _ service, self)
            (channel-append id (log_locked key service).streams fresh);
      complete =
          rw (log_locked-insert key key _ service, self)
            (append-nil (log_locked key service).commands);
    }

-- A target that registers at a new address is first given the commands that its run's log holds.
-- Of any enqueues that follow, on this run or others, which every channel has room for, all return,
-- and in the end what it was given and what its channel holds are together the run's log: no
-- command is missed, repeated or out of order.
pub register_target_complete :
    (names : Names) (id : ℕ) (request : RegisterTargetRequest)
    (calls : List (RunKey × TargetCommand)) (service : Service)
    → check_registration names true request ≡ ok tt
    → channel id (log_locked (request_key request) service).streams ≡ none
    → length calls ≤ service.buffer
    → HasRoom (length calls) service
    → let key = request_key request in
      (given : List TargetCommand) × (service' : Service) × (queue : List TargetCommand)
      × (register_target names true id request service ≡ (registered id key service, ok given))
      × (enqueue_all names calls (registered id key service) ≡ some service')
      × (channel id (log_locked key service').streams ≡ some queue)
      × (given ++ queue ≡ (log_locked key service').commands)
register_target_complete names id request calls service h fresh fits room =
    let key = request_key request in
    let (service', e, v) =
      enqueue_all-HasStream names id key (log_locked key service).commands calls
        (registered id key service) (registered-HasRoom (length calls) id key service fits room)
        (registered-HasStream id key service fresh) in
    (
      (log_locked key service).commands,
      service',
      v.queue,
      register_target_ok names id request service h,
      e,
      v.in_channel,
      v.complete,
    )
