-- ===== src/Dataplane/Partials.antt =====
-- internal/dataplane/snapshot.go: `CleanupStalePartials`, which deletes the partial transfers of runs
-- that are no longer active.
pub mod Stale
use kube_rsync_machine.Common.{
  ◌≡◌, Bool, true, false, List, [], ◌∷◌, ◌++◌, Option, none, some, Result, ok, err, ◌>>=◌,
  if◌then◌else◌, any, map_err,
}
use kube_rsync_machine.Common.Sort.{sort}
use kube_rsync_machine.Common.Text.{GoString, codes, str_eq, str_leb, is_empty}
use kube_rsync_machine.Dataplane.Paths.{RunIdError, validate_run_id}
use kube_rsync_machine.Dataplane.Files.{
  FilePath, Files, FileError, not_exist, io_failure, System, removes, remove_all, read_dirs,
}

abbrev pub partial : GoString
partial = codes ".partial"

pub data PartialError : Type 0 where
  bad_active_run : RunIdError → PartialError
  partial_io : PartialError

-- The loop over the ids of active runs, which skips empty ones.
unfoldable pub active_set : List GoString → Result PartialError (List GoString)
active_set [] = ok []
active_set (id ∷ ids) =
    let rest = active_set ids in
    if is_empty id
    then rest
    else (do checked ← map_err bad_active_run (validate_run_id id); others ← rest; ok (id ∷ others))

abbrev pub is_active : List GoString → GoString → Bool
is_active active name = any (λ id. str_eq id name) active

-- The files, the names removed, and the error, if any.
abbrev pub Cleaned : Type 0
Cleaned = Files × List GoString × Option PartialError

-- The loop over the directories; at its end the names are sorted.
pub remove_stale : System → List GoString → List GoString → Files → List GoString → Cleaned
remove_stale system active [] files removed = (files, sort str_leb removed, none)
remove_stale system active (name ∷ names) files removed =
    let path : FilePath = partial ∷ name ∷ [] in
    let skipped = remove_stale system active names files removed in
    let gone = remove_stale system active names (remove_all path files) (removed ++ name ∷ []) in
    if is_active active name
    then skipped
    else if system.fails removes path
    then (files, removed, some partial_io)
    else gone

abbrev pub clean_listed :
    System → List GoString → Files → Result FileError (List GoString) → Cleaned
clean_listed system active files (err not_exist) = (files, [], none)
clean_listed system active files (err io_failure) = (files, [], some partial_io)
clean_listed system active files (ok names) = remove_stale system active names files []

unfoldable pub cleanup_stale_partials : System → List GoString → Files → Cleaned
unfolding active_set remove_stale
cleanup_stale_partials system ids files = elim (active_set ids) [
  | err e ↦ (files, [], some e)
  | ok active ↦ clean_listed system active files (read_dirs system (partial ∷ []) files)
]
