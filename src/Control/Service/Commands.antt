-- ===== src/Control/Service/Commands.antt =====
-- `EnqueueTargetCommand` and `validateTargetCommand` of internal/control/service.go.
use kube_rsync_machine.Common.{
  ◌≡◌, List, [], ◌∷◌, ◌++◌, none, some, arith, Bool-cases, Result-cases, inl, inr, ◌⊎◌, ok,
  any-append, true, false,
}
use kube_rsync_machine.Common.Text.{GoString, str_eq, str_eq_iff}
use kube_rsync_machine.Common.Maps.{lookup-insert, lookup-insert_self}
use kube_rsync_machine.Control.Types.{RunKey, RunKey_eq, run_key_eq_iff, TargetCommand}
use kube_rsync_machine.Control.Validate.{Names, validate_target_command}
use kube_rsync_machine.Control.Service.{
  Service, returned, log_locked, is_seen, check_command, log_command, send_all,
  enqueue_target_command,
}
use kube_rsync_machine.Control.Types.{
  FinalizeBackupJob, RecoverSpace, AbortRun, target_command_finalize, target_command_recover_space,
  target_command_abort_run,
}
use kube_rsync_machine.Control.Validate.{validate_finalize_backup_job, validate_recover_space}

-- A history of calls of `EnqueueTargetCommand`.
abbrev pub after_enqueues : Names → List (RunKey × TargetCommand) → Service → Service
after_enqueues names [] service = service
after_enqueues names ((key, command) ∷ calls) service =
    after_enqueues names calls (enqueue_target_command names key command service).0

log_command-seen :
    (key j : RunKey) (command : TargetCommand) (id : GoString) (service : Service)
    → is_seen id (log_locked j service) ≡ true
    → is_seen id (log_locked j (log_command key command service).0) ≡ true
unfolding log_command
log_command-seen key j command id service h = ground (
  arith,
  lookup-insert key j
      (record {
        commands = (log_locked key service).commands ++ command ∷ [];
        seen = (log_locked key service).seen ++ command.command_id ∷ [];
        streams = (send_all service.buffer (log_locked key service).streams command).0;
      })
      service.runs,
  run_key_eq_iff key j,
  any-append (λ s. str_eq s id) (log_locked key service).seen (command.command_id ∷ []),
)

log_command-seen_self :
    (key : RunKey) (command : TargetCommand) (service : Service)
    → is_seen command.command_id (log_locked key (log_command key command service).0) ≡ true
unfolding log_command
log_command-seen_self key command service = ground (
  arith,
  lookup-insert_self key
      (record {
        commands = (log_locked key service).commands ++ command ∷ [];
        seen = (log_locked key service).seen ++ command.command_id ∷ [];
        streams = (send_all service.buffer (log_locked key service).streams command).0;
      })
      service.runs,
  str_eq_iff command.command_id command.command_id,
  any-append (λ s. str_eq s command.command_id) (log_locked key service).seen
      (command.command_id ∷ []),
)

enqueue-seen :
    (names : Names) (key j : RunKey) (command : TargetCommand) (id : GoString) (service : Service)
    → is_seen id (log_locked j service) ≡ true
    → is_seen id (log_locked j (enqueue_target_command names key command service).0) ≡ true
unfolding enqueue_target_command
enqueue-seen names key j command id service h =
    elim (Result-cases (check_command names key command)) [
      | inl (u, e) ↦ elim (Bool-cases (is_seen command.command_id (log_locked key service))) [
        | inl old ↦ rw (e, old, enqueue_target_command) h
        | inr new ↦
            rw (e, new, enqueue_target_command) (log_command-seen key j command id service h)
      ]
      | inr (f, e) ↦ rw (e, enqueue_target_command) h
    ]

after_enqueues-seen :
    (names : Names) (j : RunKey) (id : GoString) (calls : List (RunKey × TargetCommand))
    (service : Service)
    → is_seen id (log_locked j service) ≡ true
    → is_seen id (log_locked j (after_enqueues names calls service)) ≡ true
after_enqueues-seen names j id [] service h = h
after_enqueues-seen names j id ((key, command) ∷ calls) service h =
    after_enqueues-seen names j id calls _ (enqueue-seen names key j command id service h)

enqueue-seen_self :
    (names : Names) (key : RunKey) (command : TargetCommand) (service : Service)
    → check_command names key command ≡ ok tt
    → is_seen command.command_id
        (log_locked key (enqueue_target_command names key command service).0)
      ≡ true
unfolding enqueue_target_command
enqueue-seen_self names key command service e =
    elim (Bool-cases (is_seen command.command_id (log_locked key service))) [
      | inl old ↦ rw (e, old, enqueue_target_command) old
      | inr new ↦ rw (e, new, enqueue_target_command) (log_command-seen_self key command service)
    ]

-- A valid command is logged at most once: after it was enqueued for a run, and after any other
-- enqueues for any runs, a valid command with the same id for that run changes nothing and returns
-- false.
pub enqueue_target_command_once :
    (names : Names) (key : RunKey) (command again : TargetCommand)
    (calls : List (RunKey × TargetCommand)) (service : Service)
    → check_command names key command ≡ ok tt
    → check_command names key again ≡ ok tt
    → again.command_id ≡ command.command_id
    → let service' =
        after_enqueues names calls (enqueue_target_command names key command service).0 in
      enqueue_target_command names key again service' ≡ (service', returned (ok false))
unfolding enqueue_target_command
enqueue_target_command_once names key command again calls service e f same =
    let later = after_enqueues names calls (enqueue_target_command names key command service).0 in
    let kept : is_seen command.command_id (log_locked key later) ≡ true =
      after_enqueues-seen names key command.command_id calls _
        (enqueue-seen_self names key command service e) in
    let old : is_seen again.command_id (log_locked key later) ≡ true = rw same kept in
    rw (f, old, enqueue_target_command)

-- An accepted command is a finalize, a recover or an abort: it has the payload of its type, which
-- is valid, and no other.
pub validate_target_command_payload :
    (names : Names) (command : TargetCommand)
    → validate_target_command names command ≡ ok tt
    → ((f : FinalizeBackupJob) × (command.type ≡ target_command_finalize)
        × (command.finalize ≡ some f)
        × (command.recover_space ≡ none)
        × (command.abort ≡ none)
        × (validate_finalize_backup_job names f ≡ ok tt))
      ⊎ ((r : RecoverSpace) × (command.type ≡ target_command_recover_space)
          × (command.recover_space ≡ some r)
          × (command.finalize ≡ none)
          × (command.abort ≡ none)
          × (validate_recover_space names r ≡ ok tt))
      ⊎ ((a : AbortRun) × (command.type ≡ target_command_abort_run)
          × (command.abort ≡ some a)
          × (command.finalize ≡ none)
          × (command.recover_space ≡ none))
unfolding validate_target_command
validate_target_command_payload names command h = ground (
  arith,
  str_eq_iff command.type target_command_finalize,
  str_eq_iff command.type target_command_recover_space,
  str_eq_iff command.type target_command_abort_run,
)
