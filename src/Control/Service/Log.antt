-- ===== src/Control/Service/Log.antt =====
-- The invariant of the command logs of internal/control/service.go.
use kube_rsync_machine.Common.{
  ◌≡◌, refl, sym, ap, ◌∙◌, subst, List, [], ◌∷◌, ◌++◌, map, some, arith, Bool-cases, Result-cases,
  inl, inr, ok, All, All-append, any, any-append, if◌then◌else◌, Option-cases, false,
}
use kube_rsync_machine.Common.Text.{GoString, str_eq, str_eq_iff}
use kube_rsync_machine.Common.Maps.{lookup, insert, lookup-insert}
use kube_rsync_machine.Control.Types.{RunKey, RunKey_eq, run_key_eq, TargetCommand}
use kube_rsync_machine.Control.Validate.{Names, validate_target_command}
use kube_rsync_machine.Control.Service.{
  Service, CommandLog, log_locked, or_no_log, is_seen, check_command, log_command,
  enqueue_target_command,
}

-- No id occurs twice.
abbrev pub IsDistinct : List GoString → Type 0
IsDistinct [] = Unit
IsDistinct (id ∷ ids) = (any (λ s. str_eq s id) ids ≡ false) × IsDistinct ids

-- `seen` holds the ids of the commands, each is there once, and each command is valid.
pub record IsLog (names : Names) (log : CommandLog) : Type 0 where
  pub seen_ids : log.seen ≡ map (λ c. c.command_id) log.commands
  pub distinct : IsDistinct log.seen
  pub valid : All (λ c. validate_target_command names c ≡ ok tt) log.commands

IsDistinct-append :
    (ids : List GoString) (id : GoString)
    → any (λ s. str_eq s id) ids ≡ false
    → IsDistinct ids
    → IsDistinct (ids ++ id ∷ [])
IsDistinct-append [] id h d = (refl, tt)
IsDistinct-append (x ∷ ids) id h (hx, d) = (
  ground (arith, any-append (λ s. str_eq s x) ids (id ∷ []), str_eq_iff x id, str_eq_iff id x),
  IsDistinct-append ids id (ground arith) d,
)

map-concat :
    (commands : List TargetCommand) (command : TargetCommand)
    → map (λ c. c.command_id) (commands ++ command ∷ [])
      ≡ map (λ c. c.command_id) commands ++ command.command_id ∷ []
map-concat [] command = refl
map-concat (c ∷ commands) command = ap (λ ids. c.command_id ∷ ids) (map-concat commands command)

abbrev pub IsService : Names → Service → Type 0
IsService names service =
    (key : RunKey) (log : CommandLog) → lookup key service.runs ≡ some log → IsLog names log

pub log_locked-IsLog :
    (names : Names) (service : Service) (key : RunKey)
    → IsService names service
    → IsLog names (log_locked key service)
log_locked-IsLog names service key v = elim (Option-cases (lookup key service.runs)) [
  | inl e ↦ rw e (record { seen_ids = refl; distinct = tt; valid = tt })
  | inr (log, e) ↦ rw e (v key log e)
]

-- The log of each run after one run's log has been set.
pub log_locked-insert :
    (key j : RunKey) (log : CommandLog) (service : Service)
    → log_locked j (record service { runs = insert key log service.runs })
      ≡ (if run_key_eq key j then log else log_locked j service)
log_locked-insert key j log service =
    ap or_no_log (lookup-insert key j log service.runs) ∙ ground arith

pub insert-IsService :
    (names : Names) (service : Service) (key : RunKey) (log : CommandLog)
    → IsLog names log
    → IsService names service
    → IsService names (record service { runs = insert key log service.runs })
insert-IsService names service key log w v j found h = elim (Bool-cases (run_key_eq key j)) [
  | inl e ↦
      let same : log ≡ found = ground (arith, lookup-insert key j log service.runs) in
      subst (IsLog names) same w
  | inr e ↦ v j found (ground (arith, lookup-insert key j log service.runs))
]

check_command_valid :
    (names : Names) (key : RunKey) (command : TargetCommand)
    → check_command names key command ≡ ok tt
    → validate_target_command names command ≡ ok tt
unfolding check_command
check_command_valid names key command h = ground arith

log_command-IsService :
    (names : Names) (key : RunKey) (command : TargetCommand) (service : Service)
    → validate_target_command names command ≡ ok tt
    → is_seen command.command_id (log_locked key service) ≡ false
    → IsService names service
    → IsService names (log_command key command service).0
unfolding log_command
log_command-IsService names key command service h new v =
    let log = log_locked key service in
    let w = log_locked-IsLog names service key v in
    insert-IsService names service key _
      (record {
        seen_ids =
            ap (λ ids. ids ++ command.command_id ∷ []) w.seen_ids
            ∙ sym (map-concat log.commands command);
        distinct = IsDistinct-append log.seen command.command_id new w.distinct;
        valid = All-append _ log.commands (command ∷ []) w.valid (h, tt);
      })
      v

-- Whatever is enqueued, every log holds valid commands only, and no command id twice.
pub enqueue_target_command-IsService :
    (names : Names) (key : RunKey) (command : TargetCommand) (service : Service)
    → IsService names service
    → IsService names (enqueue_target_command names key command service).0
unfolding enqueue_target_command
enqueue_target_command-IsService names key command service v =
    elim (Result-cases (check_command names key command)) [
      | inl (u, e) ↦ elim (Bool-cases (is_seen command.command_id (log_locked key service))) [
        | inl old ↦ rw (e, old, enqueue_target_command) v
        | inr new ↦
            rw (e, new, enqueue_target_command)
              (log_command-IsService names key command service
                (check_command_valid names key command e) new v)
      ]
      | inr (f, e) ↦ rw (e, enqueue_target_command) v
    ]
