-- ===== src/Dataplane/Files/Writes.antt =====
-- The calls of `os` by which internal/dataplane/snapshot.go makes and moves entries.
use kube_rsync_machine.Common.{
  ℕ, zero, suc, Bool, true, false, not, ◌&&◌, ◌||◌, [], ◌∷◌, ◌++◌, Option, none, some, Result, ok,
  err, if◌then◌else◌, any, length, take, drop,
}
use kube_rsync_machine.Common.Maps.{lookup, insert}
use kube_rsync_machine.Dataplane.Files.{
  FilePath, FilePath_eq, path_eq, Node, directory, Files, FileError, not_exist, io_failure, System,
  removes, renames, makes, is_under, is_directory, remove_all, parent, stat, follow, max_links,
}

-- The files and the error, if the call fails.
abbrev pub Written : Type 0
Written = Files × Option FileError

-- `_ = os.RemoveAll(p)`
unfoldable pub try_remove_all : System → FilePath → Files → Files
try_remove_all system p files = if system.fails removes p then files else remove_all p files

abbrev pub is_found_directory : Result FileError Node → Bool
is_found_directory (ok node) = is_directory node
is_found_directory (err e) = false

-- An entry can be made at the path: the directory above it is there.
unfoldable pub has_parent : System → FilePath → Files → Bool
has_parent system (s ∷ []) files = true
has_parent system p files =
    is_found_directory (follow system max_links (parent p) files (lookup (parent p) files))

-- An entry that is new: `os.Symlink` and `os.Link`.
unfoldable pub make_entry : System → FilePath → Node → Files → Written
make_entry system p node files =
    if system.fails makes p || not (has_parent system p files)
    then (files, some io_failure)
    else elim (lookup p files) [
      | none ↦ (insert p node files, none)
      | some old ↦ (files, some io_failure)
    ]

-- `os.Mkdir` in `os.MkdirAll`, which accepts a directory that is there.
unfoldable pub make_directory : System → FilePath → Files → Written
make_directory system p files = elim (lookup p files) [
  | none ↦
      if system.fails makes p then (files, some io_failure) else (insert p directory files, none)
  | some node ↦ if is_directory node then (files, none) else (files, some io_failure)
]

abbrev pub unless_error : Written → (Files → Written) → Written
unless_error (files, none) rest = rest files
unless_error (files, some e) rest = (files, some e)

-- `os.MkdirAll` of the first `n` components.
unfoldable pub make_directories : System → ℕ → FilePath → Files → Written
unfolding make_directory
make_directories system zero p files = (files, none)
make_directories system (suc n) p files =
    let above = make_directories system n p files in
    elim (stat system (take (suc n) p) files) [
      | ok node ↦ if is_directory node then (files, none) else (files, some io_failure)
      | err e ↦ unless_error above (make_directory system (take (suc n) p))
    ]

unfoldable pub mkdir_all : System → FilePath → Files → Written
unfolding make_directories
mkdir_all system p = make_directories system (length p) p

-- The tree at `p` under the new path `q`.
unfoldable pub move_tree : FilePath → FilePath → Files → Files
move_tree p q [] = []
move_tree p q ((r, node) ∷ files) =
    let rest = move_tree p q files in
    (if is_under p r then (q ++ drop (length p) r, node) else (r, node)) ∷ rest

-- What `os.Rename` may replace: nothing, an empty directory by a directory, others by others.
unfoldable pub can_replace : FilePath → Node → Files → Bool
can_replace q node files = elim (lookup q files) [
  | none ↦ true
  | some old ↦
      if is_directory old
      then is_directory node
        && not (any (λ entry. is_under q entry.0 && not (path_eq q entry.0)) files)
      else not (is_directory node)
]

-- `os.Rename` to a path that is not below the old one.
unfoldable pub rename : System → FilePath → FilePath → Files → Written
unfolding can_replace has_parent move_tree
rename system p q files = elim (lookup p files) [
  | none ↦ (files, some (if system.fails renames p then io_failure else not_exist))
  | some node ↦
      if system.fails renames p
        || is_under p q
        || not (has_parent system q files)
        || not (can_replace q node files)
      then (files, some io_failure)
      else (move_tree p q (remove_all q files), none)
]
