-- ===== src/Tests/Retention.antt =====
-- Retention of internal/dataplane/snapshot.go at concrete inputs.
use Prim.Native.Nat.{min}
use kube_rsync_machine.Common.{
  ◌≡◌, refl, true, false, List, [], ◌∷◌, ◌++◌, none, err, All, if◌then◌else◌, length, inl, inr, map,
}
use kube_rsync_machine.Common.Int.{pos, negsuc}
use kube_rsync_machine.Common.Maps.{lookup}
use kube_rsync_machine.Common.Text.{GoString, codes, str_eq, contains, str_leb, str_ltb}
use kube_rsync_machine.Common.Sort.{sort}
use kube_rsync_machine.Dataplane.Paths.Relative.{IsSegment}
use kube_rsync_machine.Dataplane.Files.{
  FilePath, FilePath_eq, path_eq, Files, directory, file, symlink, System, not_exist, is_under,
  dir_names,
}
use kube_rsync_machine.Dataplane.Retention.{
  RetentionPolicy, tiers_of, apply_retention, prune_tier, latest, hourly, daily, snapshot_name,
}
use kube_rsync_machine.Dataplane.Retention.Tiers.{IsQuiet, IsTier, remove_names}
use kube_rsync_machine.Dataplane.Retention.Plan.{plan, plan_names, is_planned}
use kube_rsync_machine.Dataplane.Retention.Newest.{prune_tier_oldest}
use kube_rsync_machine.Dataplane.Retention.Latest.{IsLatest, IsResolved, apply_retention_lem}

abbrev pub system : System
system = record { fails = λ call p. false; outside = λ target. err not_exist }

system-IsQuiet : IsQuiet system
system-IsQuiet = λ call p. refl

abbrev policy : RetentionPolicy
policy = record {
  hourly_count = pos 1;
  daily_count = pos 7;
  weekly_count = negsuc 0;
  monthly_count = pos 0;
}

abbrev pub one : GoString
one = codes "0102"

abbrev pub two : GoString
two = codes "0103"

-- Two hourly restore points, one with a file; `latest` is the second.
abbrev pub target : Files
target =
    (hourly ∷ [], directory)
    ∷ (hourly ∷ two ∷ [], directory)
    ∷ (hourly ∷ one ∷ [], directory)
    ∷ (hourly ∷ one ∷ codes "db" ∷ [], file 5)
    ∷ (daily ∷ [], directory)
    ∷ (latest, symlink (snapshot_name hourly two))
    ∷ []

-- The older one goes.
target_planned : plan_names (plan (tiers_of policy) target) ≡ snapshot_name hourly one ∷ []
unfolding dir_names str_eq str_leb str_ltb sort
target_planned = refl

two-IsSegment : IsSegment two
unfolding contains
two-IsSegment = record {
  nonempty = refl;
  not_here = λ e. cc;
  not_parent = λ e. cc;
  one_segment = refl;
  no_backslash = refl;
}

target-IsLatest : IsLatest target
unfolding lookup str_eq path_eq
target-IsLatest = inr (two, two-IsSegment, refl, inr refl)

target-IsTier : All (λ t. IsTier t.0 target) (tiers_of policy)
unfolding lookup str_eq path_eq dir_names
target-IsTier = (inl refl, (inl refl, (inr (refl, refl), (inr (refl, refl), tt))))

apply_retention_lem_example :
    (files' : Files) × (apply_retention system policy target
      ≡ (files', plan_names (plan (tiers_of policy) target), none))
    × IsResolved files'
    × ((q : FilePath)
        → is_under latest q ≡ false
        → lookup q files'
          ≡ (if is_planned (plan (tiers_of policy) target) q then none else lookup q target))
apply_retention_lem_example =
    apply_retention_lem system policy target system-IsQuiet target-IsTier target-IsLatest

prune_tier_oldest_example :
    (gone : List GoString) × (kept : List GoString) × (prune_tier system (hourly, pos 1) target []
      ≡ (remove_names hourly gone target, [] ++ map (snapshot_name hourly) gone, none))
    × (gone ++ kept ≡ sort str_leb (dir_names (hourly ∷ []) target))
    × (length kept ≡ min 1 (length (dir_names (hourly ∷ []) target)))
    × All (λ old. All (λ new. str_leb old new ≡ true) kept) gone
prune_tier_oldest_example =
    prune_tier_oldest system hourly 1 target [] system-IsQuiet target-IsTier.0
