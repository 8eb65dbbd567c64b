-- ===== src/Dataplane/Retention/Latest.antt =====
-- `ApplyRetention` of internal/dataplane/snapshot.go as a whole, with `cleanupDanglingLatest`.
use kube_rsync_machine.Common.{
  ◌≡◌, refl, ◌∙◌, false, List, [], ◌∷◌, Option, none, some, ok, err, Bool-cases, inl, inr, ◌⊎◌,
  if◌then◌else◌, arith, All,
}
use kube_rsync_machine.Common.Maps.{lookup}
use kube_rsync_machine.Common.Text.{codes, GoString, str_eq, str_ne, split, join, contains}
use kube_rsync_machine.Common.Text.Split.{split-join}
use kube_rsync_machine.Dataplane.Paths.{slash, normalize_relative_path}
use kube_rsync_machine.Dataplane.Paths.Relative.{
  IsSegment, normalize_relative_path_names, All-one_segment,
}
use kube_rsync_machine.Dataplane.Files.{
  FilePath, FilePath_eq, Files, not_exist, Node, directory, symlink, System, stats, removes, links,
  is_under, remove_all, stat, lstat, follow,
}
use kube_rsync_machine.Dataplane.Files.Laws.{lookup-remove_all}
use kube_rsync_machine.Dataplane.Retention.{
  snapshot_name, RetentionPolicy, tiers_of, apply_retention, cleanup_dangling_latest, cleanup_link,
  remove_latest, latest, hourly, daily, weekly, monthly,
}
use kube_rsync_machine.Dataplane.Retention.Tiers.{IsQuiet, IsTier, not_above}
use kube_rsync_machine.Dataplane.Retention.Plan.{
  plan, remove_plan, plan_names, is_planned, lookup-remove_plan, prune_tiers_lem, AreDistinct,
}

-- What `latest` is: nothing, or a link to a directory entry of the hourly tier, which may be gone.
abbrev pub IsLatest : Files → Type 0
IsLatest files =
    (lookup latest files ≡ none)
    ⊎ ((name : GoString) × IsSegment name
        × (lookup latest files ≡ some (symlink (snapshot_name hourly name)))
        × ((lookup (hourly ∷ name ∷ []) files ≡ none)
            ⊎ (lookup (hourly ∷ name ∷ []) files ≡ some directory)))

-- The same, and the restore point is there.
abbrev pub IsResolved : Files → Type 0
IsResolved files =
    (lookup latest files ≡ none)
    ⊎ ((name : GoString) × (lookup latest files ≡ some (symlink (snapshot_name hourly name)))
        × (lookup (hourly ∷ name ∷ []) files ≡ some directory))

hourly-IsSegment : IsSegment hourly
unfolding contains
hourly-IsSegment = record {
  nonempty = refl;
  not_here = λ e. cc;
  not_parent = λ e. cc;
  one_segment = refl;
  no_backslash = refl;
}

normalize_hourly :
    (name : GoString)
    → IsSegment name
    → normalize_relative_path (snapshot_name hourly name) ≡ ok (snapshot_name hourly name)
unfolding join
normalize_hourly name seg =
    normalize_relative_path_names (hourly ∷ name ∷ []) (λ e. cc) (hourly-IsSegment, (seg, tt))

split-hourly :
    (name : GoString)
    → IsSegment name
    → split slash (snapshot_name hourly name) ≡ hourly ∷ name ∷ []
unfolding join
split-hourly name seg =
    split-join slash (hourly ∷ name ∷ []) (λ e. cc)
      (All-one_segment (hourly ∷ name ∷ []) (hourly-IsSegment, (seg, tt)))

-- One link is looked at, and it is kept or removed.
abbrev pub Cleaned : System → Files → Type 0
Cleaned system files =
    (files' : Files) × (cleanup_dangling_latest system files ≡ (files', none))
    × IsResolved files'
    × ((q : FilePath) → is_under latest q ≡ false → lookup q files' ≡ lookup q files)

lstat_lem :
    (system : System) (p : FilePath) (files : Files) (node : Node)
    → IsQuiet system
    → lookup p files ≡ some node
    → lstat system p files ≡ ok node
unfolding lstat
lstat_lem system p files node quiet e = rw (quiet stats p, lstat, e)

lstat-none :
    (system : System) (p : FilePath) (files : Files)
    → IsQuiet system
    → lookup p files ≡ none
    → lstat system p files ≡ err not_exist
unfolding lstat
lstat-none system p files quiet e = rw (quiet stats p, lstat, e)

stat_directory :
    (system : System) (p : FilePath) (files : Files)
    → IsQuiet system
    → lookup p files ≡ some directory
    → stat system p files ≡ ok directory
unfolding stat follow
stat_directory system p files quiet e = rw (quiet stats p, stat, e)

stat-none :
    (system : System) (p : FilePath) (files : Files)
    → IsQuiet system
    → lookup p files ≡ none
    → stat system p files ≡ err not_exist
unfolding stat follow
stat-none system p files quiet e = rw (quiet stats p, stat, e)

cleanup-Cleaned :
    (system : System) (files : Files) → IsQuiet system → IsLatest files → Cleaned system files
unfolding cleanup_dangling_latest is_under str_eq
cleanup-Cleaned system files quiet (inl e) = (
  files,
  rw (lstat-none system latest files quiet e, cleanup_dangling_latest),
  inl e,
  λ q h. refl,
)
cleanup-Cleaned system files quiet (inr (name, seg, e, inr there)) = (
  files,
  rw (
    lstat_lem system latest files _ quiet e,
    cleanup_dangling_latest,
    quiet links latest,
    normalize_hourly name seg,
    cleanup_link,
    split-hourly name seg,
    stat_directory system _ files quiet there,
  ),
  inr (name, e, there),
  λ q h. refl,
)
cleanup-Cleaned system files quiet (inr (name, seg, e, inl gone)) = (
  remove_all latest files,
  rw (
    lstat_lem system latest files _ quiet e,
    cleanup_dangling_latest,
    quiet links latest,
    normalize_hourly name seg,
    cleanup_link,
    split-hourly name seg,
    stat-none system _ files quiet gone,
    remove_latest,
    quiet removes latest,
  ),
  inl (lookup-remove_all latest latest files),
  λ q h. lookup-remove_all latest q files ∙ rw h refl,
)

tiers-AreDistinct : (policy : RetentionPolicy) → AreDistinct (tiers_of policy)
unfolding str_eq
tiers-AreDistinct policy = (
  (str_ne hourly daily refl, (str_ne hourly weekly refl, (str_ne hourly monthly refl, tt))),
  (
    (str_ne daily weekly refl, (str_ne daily monthly refl, tt)),
    ((str_ne weekly monthly refl, tt), (tt, tt)),
  ),
)

-- A restore point has two components, so `latest` is none.
latest_unplanned : (p : List (GoString × List GoString)) → is_planned p latest ≡ false
unfolding is_under
latest_unplanned [] = refl
latest_unplanned ((tier, names) ∷ rest) =
    ground (arith, latest_unplanned rest, not_above tier (codes "latest") names)

forget :
    (p : List (GoString × List GoString)) (q : FilePath) (found : Option Node)
    → found ≡ none
    → (if is_planned p q then none else found) ≡ none
forget p q found e = elim (Bool-cases (is_planned p q)) [
  | inl hit ↦ rw hit refl
  | inr miss ↦ rw miss e
]

IsLatest-remove_plan :
    (p : List (GoString × List GoString)) (files : Files)
    → IsLatest files
    → IsLatest (remove_plan p files)
IsLatest-remove_plan p files v = elim v [
  | inl e ↦ inl (link ∙ e)
  | inr (name, seg, e, inl gone) ↦ inr (
    name,
    seg,
    link ∙ e,
    inl (lookup-remove_plan p (hourly ∷ name ∷ []) files ∙ forget p (hourly ∷ name ∷ []) _ gone),
  )
  | inr (name, seg, e, inr there) ↦ inr (
    name,
    seg,
    link ∙ e,
    elim (Bool-cases (is_planned p (hourly ∷ name ∷ []))) [
      | inl hit ↦ inl (lookup-remove_plan p (hourly ∷ name ∷ []) files ∙ rw hit refl)
      | inr miss ↦ inr (lookup-remove_plan p (hourly ∷ name ∷ []) files ∙ rw miss there)
    ],
  )
]
  where
    link : lookup latest (remove_plan p files) ≡ lookup latest files
    link = lookup-remove_plan p latest files ∙ rw (latest_unplanned p) refl

-- When no system call fails, each tier is a directory or not there at all, and `latest` is what the
-- program makes of it, retention succeeds. It removes the planned restore points (see
-- `prune_tier_oldest`) with all that is below them and reports their names; nothing else changes but
-- `latest`, which is left a link to a restore point that is there, or is removed.
pub apply_retention_lem :
    (system : System) (policy : RetentionPolicy) (files : Files)
    → IsQuiet system
    → All (λ t. IsTier t.0 files) (tiers_of policy)
    → IsLatest files
    → let gone = plan (tiers_of policy) files in
      (files' : Files) × (apply_retention system policy files ≡ (files', plan_names gone, none))
      × IsResolved files'
      × ((q : FilePath)
          → is_under latest q ≡ false
          → lookup q files' ≡ (if is_planned gone q then none else lookup q files))
unfolding apply_retention
apply_retention_lem system policy files quiet tiers v =
    let gone = plan (tiers_of policy) files in
    let (files', cleaned, resolved, same) =
      cleanup-Cleaned system (remove_plan gone files) quiet (IsLatest-remove_plan gone files v) in
    (
      files',
      rw
          (
            prune_tiers_lem system (tiers_of policy) files [] quiet (tiers-AreDistinct policy)
                tiers,
            cleaned,
          )
          refl,
      resolved,
      λ q h. same q h ∙ lookup-remove_plan gone q files,
    )
