-- ===== src/Dataplane/Files.antt =====
-- The part of a target's file system that internal/dataplane/snapshot.go works on through `os`:
-- entries by their path below the target root. A failing call changes nothing. Only the last
-- component of a path is followed when it is a symbolic link.
pub mod Laws
pub mod Writes
pub mod Moves
use kube_rsync_machine.Common.{
  ℕ, zero, suc, ◌≡◌, ◌↔◌, refl, Bool, true, false, not, ◌&&◌, List, [], ◌∷◌, ◌++◌, Option, none,
  some, Result, ok, err, if◌then◌else◌, keep_if, arith,
}
use kube_rsync_machine.Common.Eq.{Eq}
use kube_rsync_machine.Common.Maps.{lookup}
use kube_rsync_machine.Common.Sort.{sort}
use kube_rsync_machine.Common.Text.{GoString, str_eq, str_eq_iff, has_prefix, split, str_leb}
use kube_rsync_machine.Dataplane.Paths.{slash, root_path, dot_dot, is_skipped}

-- The components of a path below the root, which is `[]`.
abbrev pub FilePath : Type 0
FilePath = List GoString

unfoldable pub path_eq : FilePath → FilePath → Bool
path_eq [] [] = true
path_eq [] (t ∷ q) = false
path_eq (s ∷ p) [] = false
path_eq (s ∷ p) (t ∷ q) = str_eq s t && path_eq p q

path_eq→eq : (p q : FilePath) → path_eq p q ≡ true → p ≡ q
unfolding path_eq
path_eq→eq [] [] h = refl
path_eq→eq [] (t ∷ q) h = cc
path_eq→eq (s ∷ p) [] h = cc
path_eq→eq (s ∷ p) (t ∷ q) h = ground (arith, path_eq→eq p q, str_eq_iff s t)

path_eq_refl : (p : FilePath) → path_eq p p ≡ true
unfolding path_eq
path_eq_refl [] = refl
path_eq_refl (s ∷ p) = ground (arith, path_eq_refl p, str_eq_iff s s)

pub path_eq_iff : (p q : FilePath) → (path_eq p q ≡ true) ↔ (p ≡ q)
path_eq_iff p q = (path_eq→eq p q, λ e. cc (e, path_eq_refl p))

instance abbrev pub FilePath_eq : Eq FilePath
FilePath_eq = record { beq = path_eq; beq_iff = path_eq_iff }

-- `file` carries the inode, which hard links share; `special` is any other kind.
pub data Node : Type 0 where
  directory : Node
  file : ℕ → Node
  symlink : GoString → Node
  special : Node

abbrev pub Files : Type 0
Files = List (FilePath × Node)

pub data FileError : Type 0 where
  not_exist io_failure : FileError

-- The system calls that can fail for reasons of their own.
pub data Call : Type 0 where
  stats lists removes links renames makes : Call

-- Which calls fail, and what a link with an absolute target leads to.
pub record System : Type 0 where
  pub fails : Call → FilePath → Bool
  pub outside : GoString → Result FileError Node

-- The first path is the second or a directory above it.
unfoldable pub is_under : FilePath → FilePath → Bool
is_under [] q = true
is_under (s ∷ p) [] = false
is_under (s ∷ p) (t ∷ q) = str_eq s t && is_under p q

-- `os.RemoveAll` where it works.
unfoldable pub remove_all : FilePath → Files → Files
unfolding is_under
remove_all p = keep_if (λ entry. not (is_under p entry.0))

-- The name of an entry that stands directly in the directory.
unfoldable pub child_name : FilePath → FilePath → Option GoString
child_name [] [] = none
child_name [] (s ∷ []) = some s
child_name [] (s ∷ t ∷ p) = none
child_name (d ∷ ds) [] = none
child_name (d ∷ ds) (s ∷ p) = if str_eq d s then child_name ds p else none

abbrev pub is_directory : Node → Bool
is_directory directory = true
is_directory (file inode) = false
is_directory (symlink target) = false
is_directory special = false

abbrev or_skip : Option GoString → List GoString → List GoString
or_skip none names = names
or_skip (some name) names = name ∷ names

-- The names of the directories in a directory.
unfoldable pub dir_names : FilePath → Files → List GoString
unfolding child_name
dir_names dir [] = []
dir_names dir ((p, node) ∷ files) =
    let rest = dir_names dir files in
    if is_directory node then or_skip (child_name dir p) rest else rest

-- `os.ReadDir`, which sorts by name, and the test `entry.IsDir()` that each loop over it makes. A
-- directory that is itself a link is not followed.
unfoldable pub read_dirs : System → FilePath → Files → Result FileError (List GoString)
unfolding dir_names
read_dirs system dir files =
    if system.fails lists dir then err io_failure else elim (lookup dir files) [
      | none ↦ err not_exist
      | some node ↦
          if is_directory node then ok (sort str_leb (dir_names dir files)) else err io_failure
    ]

-- `os.Lstat`
unfoldable pub lstat : System → FilePath → Files → Result FileError Node
lstat system p files =
    if system.fails stats p
    then err io_failure
    else elim (lookup p files) [ none ↦ err not_exist | some node ↦ ok node ]

unfoldable pub parent : FilePath → FilePath
parent [] = []
parent (s ∷ []) = []
parent (s ∷ t ∷ p) = s ∷ parent (t ∷ p)

-- A relative path from a directory on.
unfoldable pub walk : FilePath → List GoString → FilePath
unfolding parent
walk dir [] = dir
walk dir (s ∷ parts) =
    walk (if is_skipped s then dir else if str_eq s dot_dot then parent dir else dir ++ s ∷ [])
      parts

-- Following a link at the end of a path, at most `links` times.
unfoldable pub follow : System → ℕ → FilePath → Files → Option Node → Result FileError Node
unfolding walk
follow system n p files none = err not_exist
follow system n p files (some directory) = ok directory
follow system n p files (some (file inode)) = ok (file inode)
follow system n p files (some special) = ok special
follow system zero p files (some (symlink target)) = err io_failure
follow system (suc n) p files (some (symlink target)) =
    let q = walk (parent p) (split slash target) in
    let next = follow system n q files (lookup q files) in
    if has_prefix target root_path then system.outside target else next

-- The kernel follows 40 links.
abbrev pub max_links : ℕ
max_links = 40

-- `os.Stat`
unfoldable pub stat : System → FilePath → Files → Result FileError Node
unfolding follow
stat system p files =
    if system.fails stats p
    then err io_failure
    else follow system max_links p files (lookup p files)
