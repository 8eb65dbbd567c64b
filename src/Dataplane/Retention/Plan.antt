-- ===== src/Dataplane/Retention/Plan.antt =====
-- The loop over all tiers in `ApplyRetention` of internal/dataplane/snapshot.go.
use kube_rsync_machine.Common.{
  ◌≡◌, ◌≢◌, refl, ap₂, ◌∙◌, Bool, false, ◌||◌, List, [], ◌∷◌, ◌++◌, append-nil, append_assoc, none,
  if◌then◌else◌, arith, any, map, All,
}
use kube_rsync_machine.Common.Int.{ℤ}
use kube_rsync_machine.Common.Maps.{lookup}
use kube_rsync_machine.Common.Text.{GoString}
use kube_rsync_machine.Dataplane.Files.{FilePath, FilePath_eq, Files, System, is_under}
use kube_rsync_machine.Dataplane.Retention.{snapshot_name, prune_tiers}
use kube_rsync_machine.Dataplane.Retention.Tiers.{
  IsQuiet, IsTier, planned, remove_names, prune_tier_lem, planned-remove_names, IsTier-remove_names,
  lookup-remove_names,
}

-- What the policy does not keep, tier by tier.
abbrev pub plan : List (GoString × ℤ) → Files → List (GoString × List GoString)
plan [] files = []
plan (t ∷ tiers) files = (t.0, planned t files) ∷ plan tiers files

pub remove_plan : List (GoString × List GoString) → Files → Files
remove_plan [] files = files
remove_plan ((tier, names) ∷ rest) files = remove_plan rest (remove_names tier names files)

abbrev pub plan_names : List (GoString × List GoString) → List GoString
plan_names [] = []
plan_names ((tier, names) ∷ rest) = map (snapshot_name tier) names ++ plan_names rest

-- Each tier is listed once.
abbrev pub AreDistinct : List (GoString × ℤ) → Type 0
AreDistinct [] = Unit
AreDistinct (t ∷ tiers) = All (λ u. t.0 ≢ u.0) tiers × AreDistinct tiers

plan-remove_names :
    (tier : GoString) (tiers : List (GoString × ℤ)) (names : List GoString) (files : Files)
    → All (λ u. tier ≢ u.0) tiers
    → plan tiers (remove_names tier names files) ≡ plan tiers files
plan-remove_names tier [] names files ne = refl
plan-remove_names tier (u ∷ tiers) names files (ne, rest) =
    ap₂ (λ ns p. (u.0, ns) ∷ p) (planned-remove_names tier u names files ne)
      (plan-remove_names tier tiers names files rest)

All-IsTier :
    (tier : GoString) (tiers : List (GoString × ℤ)) (names : List GoString) (files : Files)
    → All (λ u. tier ≢ u.0) tiers
    → All (λ u. IsTier u.0 files) tiers
    → All (λ u. IsTier u.0 (remove_names tier names files)) tiers
All-IsTier tier [] names files ne h = tt
All-IsTier tier (u ∷ tiers) names files (ne, rest) (t, h) =
    (IsTier-remove_names tier u.0 names files ne t, All-IsTier tier tiers names files rest h)

pub prune_tiers_lem :
    (system : System) (tiers : List (GoString × ℤ)) (files : Files) (removed : List GoString)
    → IsQuiet system
    → AreDistinct tiers
    → All (λ u. IsTier u.0 files) tiers
    → prune_tiers system tiers files removed
      ≡ (remove_plan (plan tiers files) files, removed ++ plan_names (plan tiers files), none)
unfolding prune_tiers remove_plan
prune_tiers_lem system [] files removed q d t = rw append-nil refl
prune_tiers_lem system ((tier, keep) ∷ tiers) files removed q (ne, d) (t, ts) =
    rw (prune_tier_lem system tier keep files removed q t) (
      prune_tiers_lem system tiers _ _ q d (All-IsTier tier tiers _ files ne ts)
      ∙ rw
          (
            plan-remove_names tier tiers (planned (tier, keep) files) files ne,
            append_assoc removed (map (snapshot_name tier) (planned (tier, keep) files)),
          )
          refl)

-- The path is one of the planned restore points, or below one.
abbrev pub is_planned : List (GoString × List GoString) → FilePath → Bool
is_planned [] q = false
is_planned ((tier, names) ∷ rest) q =
    any (λ n. is_under (tier ∷ n ∷ []) q) names || is_planned rest q

pub lookup-remove_plan :
    (p : List (GoString × List GoString)) (q : FilePath) (files : Files)
    → lookup q (remove_plan p files) ≡ (if is_planned p q then none else lookup q files)
unfolding remove_plan
lookup-remove_plan [] q files = refl
lookup-remove_plan ((tier, names) ∷ rest) q files = ground (
  arith,
  lookup-remove_plan rest q (remove_names tier names files),
  lookup-remove_names tier names q files,
)
