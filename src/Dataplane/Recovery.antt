-- ===== src/Dataplane/Recovery.antt =====
-- internal/dataplane/snapshot.go: `RecoverSpace` with `removableSnapshots`, which deletes the oldest
-- restore points until there is room.
pub mod Protected
use kube_rsync_machine.Common.{
  ℕ, ◌≡◌, Bool, true, false, not, ◌&&◌, ◌||◌, List, [], ◌∷◌, ◌++◌, Option, none, some, Result, ok,
  err, ◌>>=◌, if◌then◌else◌, leb, ltb, ◌==◌, length, any, map_err,
}
use kube_rsync_machine.Common.Sort.{sort}
use kube_rsync_machine.Common.Text.{GoString, str_eq, str_leb}
use kube_rsync_machine.Dataplane.Paths.{PathError, normalize_relative_path}
use kube_rsync_machine.Dataplane.Files.{
  FilePath, Files, FileError, not_exist, io_failure, System, removes, remove_all, read_dirs,
}
use kube_rsync_machine.Dataplane.Retention.{hourly, daily, weekly, monthly, snapshot_name}

-- What the disk says: the room that is left with these files (`AvailableBytes`), and the time at
-- which an entry was last modified (`entry.Info`).
pub record Disk : Type 0 where
  pub available : Files → Result FileError ℕ
  pub modified : FilePath → Result FileError ℕ

-- `snapshotInfo`, with the two parts of the name.
pub record SnapshotInfo : Type 0 where
  pub tier : GoString
  pub name : GoString
  pub mod_time : ℕ

abbrev pub info_name : SnapshotInfo → GoString
info_name info = snapshot_name info.tier info.name

pub data RecoverError : Type 0 where
  invalid_protected : PathError → RecoverError
  file_error : FileError → RecoverError
  below_minimum : ℕ → ℕ → ℕ → RecoverError

-- The loop over the entries of one tier.
pub tier_infos : Disk → GoString → List GoString → Result FileError (List SnapshotInfo)
tier_infos disk tier [] = ok []
tier_infos disk tier (name ∷ names) =
    let rest = tier_infos disk tier names in
    (do
      time ← disk.modified (tier ∷ name ∷ [])
      infos ← rest
      ok (record { tier = tier; name = name; mod_time = time } ∷ infos))

-- The loop over the tiers.
pub snapshot_infos : System → Disk → List GoString → Files → Result FileError (List SnapshotInfo)
unfolding tier_infos
snapshot_infos system disk [] files = ok []
snapshot_infos system disk (tier ∷ tiers) files =
    let rest = snapshot_infos system disk tiers files in
    elim (read_dirs system (tier ∷ []) files) [
      | err not_exist ↦ rest
      | err io_failure ↦ err io_failure
      | ok names ↦ (do infos ← tier_infos disk tier names; others ← rest; ok (infos ++ others))
    ]

-- Older first, then by name.
pub info_leb : SnapshotInfo → SnapshotInfo → Bool
info_leb a b =
    if a.mod_time == b.mod_time
    then str_leb (info_name a) (info_name b)
    else ltb a.mod_time b.mod_time

pub removable_snapshots : System → Disk → Files → Result FileError (List SnapshotInfo)
unfolding snapshot_infos
removable_snapshots system disk files =
    snapshot_infos system disk (hourly ∷ daily ∷ weekly ∷ monthly ∷ []) files >>= λ infos.
    ok (sort info_leb infos)

unfoldable pub normalize_all : List GoString → Result RecoverError (List GoString)
normalize_all [] = ok []
normalize_all (snapshot ∷ snapshots) =
    let rest = normalize_all snapshots in
    (do
      normalized ← map_err invalid_protected (normalize_relative_path snapshot)
      others ← rest
      ok (normalized ∷ others))

-- The files, the names removed, and the error, if any.
abbrev pub Recovered : Type 0
Recovered = Files × List GoString × Option RecoverError

abbrev pub is_protected : List GoString → SnapshotInfo → Bool
is_protected protected info = any (λ p. str_eq p (info_name info)) protected

-- After a removal: ask for the room, and stop or go on.
abbrev pub after_removal :
    ℕ → Files → List GoString → Result FileError ℕ → (ℕ → Recovered) → Recovered
after_removal minimum files removed (err e) rest = (files, removed, some (file_error e))
after_removal minimum files removed (ok available) rest =
    if leb minimum available then (files, removed, none) else rest available

-- The loop over the candidates; `available` is what was there when it was last asked.
pub recover_loop :
    System → Disk → ℕ → List GoString → List SnapshotInfo → Files → List GoString → ℕ → Recovered
recover_loop system disk minimum protected [] files removed available =
    (files, removed, some (below_minimum available minimum (length removed)))
recover_loop system disk minimum protected (c ∷ candidates) files removed available =
    let path : FilePath = c.tier ∷ c.name ∷ [] in
    let files' = remove_all path files in
    let removed' = removed ++ info_name c ∷ [] in
    let skipped = recover_loop system disk minimum protected candidates files removed available in
    let go_on = recover_loop system disk minimum protected candidates files' removed' in
    if is_protected protected c
    then skipped
    else if system.fails removes path
    then (files, removed, some (file_error io_failure))
    else after_removal minimum files' removed' (disk.available files') go_on

abbrev pub recover_with :
    Files
    → Result RecoverError (List GoString × List SnapshotInfo)
    → (List GoString → List SnapshotInfo → Recovered)
    → Recovered
recover_with files (err e) rest = (files, [], some e)
recover_with files (ok (protected, candidates)) rest = rest protected candidates

-- What `RecoverSpace` finds out before it removes anything.
pub survey :
    System → Disk → List GoString → Files → Result RecoverError (List GoString × List SnapshotInfo)
unfolding normalize_all removable_snapshots
survey system disk protected files = do
  normalized ← normalize_all protected
  candidates ← map_err file_error (removable_snapshots system disk files)
  ok (normalized, candidates)

abbrev pub if_short : ℕ → Files → Result FileError ℕ → (ℕ → Recovered) → Recovered
if_short minimum files (err e) rest = (files, [], some (file_error e))
if_short minimum files (ok available) rest =
    if leb minimum available then (files, [], none) else rest available

unfoldable pub recover_space : System → Disk → ℕ → List GoString → Files → Recovered
unfolding survey recover_loop
recover_space system disk minimum protected files =
    if_short minimum files (disk.available files) λ available.
      recover_with files (survey system disk protected files) λ normalized candidates.
        recover_loop system disk minimum normalized candidates files [] available
