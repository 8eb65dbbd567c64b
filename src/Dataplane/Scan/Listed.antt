-- ===== src/Dataplane/Scan/Listed.antt =====
-- `ScanRestorePoints` of internal/dataplane/snapshot.go.
use mathlib.Core.List.{Memᴰ}
use kube_rsync_machine.Common.{
  ◌≡◌, ◌⊎◌, refl, sym, ◌∙◌, Bool, true, List, [], ◌∷◌, ◌++◌, ok, err, Result, map, any, any-append,
  All, All-append, All-imp, Result-cases, inl, inr, arith, subst,
}
use kube_rsync_machine.Common.Sort.{sort, All-sort, any-sort}
use kube_rsync_machine.Common.Text.{GoString, str_eq, str_eq_refl}
use kube_rsync_machine.Dataplane.Files.{
  Files, FileError, Node, not_exist, io_failure, System, read_dirs, stat,
}
use kube_rsync_machine.Dataplane.Retention.{latest, snapshot_name}
use kube_rsync_machine.Dataplane.Finalize.Tiers.{stat_cases}
use kube_rsync_machine.Dataplane.Scan.{
  Dates, ScannedPoint, latest_name, latest_snapshot_target, latest_points, latest_point, tier_point,
  tier_points, scan_tiers, all_tiers, point_leb, scan_restore_points,
}

-- The point is a directory of the tier.
abbrev pub IsTierPoint : System → Files → List GoString → ScannedPoint → Type 0
IsTierPoint system files tiers p =
    (name : GoString) × (names : List GoString) × Memᴰ p.tier tiers
    × (read_dirs system (p.tier ∷ []) files ≡ ok names)
    × Memᴰ name names
    × (p.snapshot ≡ snapshot_name p.tier name)

abbrev pub is_among : List ScannedPoint → GoString → Bool
is_among points snapshot = any (λ p. str_eq p.snapshot snapshot) points

-- The tier is missing, or each of its directories is among the points.
abbrev pub IsCovered : System → Files → List ScannedPoint → GoString → Type 0
IsCovered system files points tier =
    (read_dirs system (tier ∷ []) files ≡ err not_exist)
    ⊎ ((names : List GoString) × (read_dirs system (tier ∷ []) files ≡ ok names)
        × All (λ name. is_among points (snapshot_name tier name) ≡ true) names)

only_head : (tier t : GoString) (tiers : List GoString) → Memᴰ t (tier ∷ []) → Memᴰ t (tier ∷ tiers)
only_head tier t tiers (Memᴰ.head e) = Memᴰ.head e
only_head tier t tiers (Memᴰ.tail m) = elim m [ ]

points_of_names :
    (dates : Dates) (tier : GoString) (Q : ScannedPoint → Type 0) (names : List GoString)
    → ((name : GoString) → Memᴰ name names → Q (tier_point dates tier name))
    → All Q (map (tier_point dates tier) names)
points_of_names dates tier Q [] h = tt
points_of_names dates tier Q (name ∷ names) h =
    (h name (Memᴰ.head refl), points_of_names dates tier Q names (λ n m. h n (Memᴰ.tail m)))

mem_among :
    (dates : Dates) (tier name : GoString) (names : List GoString)
    → Memᴰ name names
    → is_among (map (tier_point dates tier) names) (snapshot_name tier name) ≡ true
mem_among dates tier name [] m = elim m [ ]
mem_among dates tier name (x ∷ names) (Memᴰ.head e) =
    rw (e, str_eq_refl (snapshot_name tier x)) refl
mem_among dates tier name (x ∷ names) (Memᴰ.tail m) =
    ground (arith, mem_among dates tier name names m)

all_of_mem :
    (P : GoString → Type 0) (xs : List GoString) → ((x : GoString) → Memᴰ x xs → P x) → All P xs
all_of_mem P [] h = tt
all_of_mem P (x ∷ xs) h = (h x (Memᴰ.head refl), all_of_mem P xs (λ y m. h y (Memᴰ.tail m)))

IsCovered-weaker :
    (system : System) (files : Files) (a b : List ScannedPoint) (tier : GoString)
    → ((s : GoString) → is_among a s ≡ true → is_among b s ≡ true)
    → IsCovered system files a tier
    → IsCovered system files b tier
IsCovered-weaker system files a b tier more (inl missing) = inl missing
IsCovered-weaker system files a b tier more (inr (names, read, there)) =
    inr (names, read, All-imp (λ name. more (snapshot_name tier name)) names there)

read_cases :
    (r : Result FileError (List GoString))
    → ((names : List GoString) × (r ≡ ok names)) ⊎ ((r ≡ err not_exist) ⊎ (r ≡ err io_failure))
read_cases (ok names) = inl (names, refl)
read_cases (err not_exist) = inr (inl refl)
read_cases (err io_failure) = inr (inr refl)

-- One tier: its points are its directories, all of them.
tier_points_ok :
    (system : System) (dates : Dates) (tier : GoString) (files : Files) (points : List ScannedPoint)
    → tier_points dates tier (read_dirs system (tier ∷ []) files) ≡ ok points
    → All (IsTierPoint system files (tier ∷ [])) points × IsCovered system files points tier
tier_points_ok system dates tier files points h =
    elim (read_cases (read_dirs system (tier ∷ []) files)) [
      | inl (names, read) ↦
          let same : points ≡ map (tier_point dates tier) names = ground arith in
          rw same (
            points_of_names dates tier (IsTierPoint system files (tier ∷ [])) names
                (λ name m. (name, names, Memᴰ.head refl, read, m, refl)),
            inr (names, read, all_of_mem _ names (λ name m. mem_among dates tier name names m)),
          )
      | inr (inl missing) ↦ let same : points ≡ [] = ground arith in rw same (tt, inl missing)
      | inr (inr failed) ↦ absurd (ground arith)
    ]

IsTierPoint-more :
    (system : System) (files : Files) (a b : List GoString) (p : ScannedPoint)
    → ((t : GoString) → Memᴰ t a → Memᴰ t b)
    → IsTierPoint system files a p
    → IsTierPoint system files b p
IsTierPoint-more system files a b p more (name, names, t, read, m, e) =
    (name, names, more p.tier t, read, m, e)

scan_tiers_ok :
    (system : System) (dates : Dates) (tiers : List GoString) (files : Files)
    (points : List ScannedPoint)
    → scan_tiers system dates tiers files ≡ ok points
    → All (IsTierPoint system files tiers) points × All (IsCovered system files points) tiers
unfolding scan_tiers
scan_tiers_ok system dates [] files points h =
    let same : points ≡ [] = ground arith in rw same (tt, tt)
scan_tiers_ok system dates (tier ∷ tiers) files points h =
    elim (Result-cases (tier_points dates tier (read_dirs system (tier ∷ []) files))) [
      | inr (error, e) ↦ absurd (ground arith)
      | inl (here, e) ↦ elim (Result-cases (scan_tiers system dates tiers files)) [
        | inr (error, f) ↦ absurd (ground arith)
        | inl (later, f) ↦
            let same : points ≡ here ++ later = ground arith in
            let (sound, covers) = tier_points_ok system dates tier files here e in
            let (sounds, coverss) = scan_tiers_ok system dates tiers files later f in
            subst
              (λ ps.
                All (IsTierPoint system files (tier ∷ tiers)) ps
                × All (IsCovered system files ps) (tier ∷ tiers))
              (sym same)
              (
                All-append (IsTierPoint system files (tier ∷ tiers)) here later
                    (All-imp
                      (λ p.
                        IsTierPoint-more system files (tier ∷ []) (tier ∷ tiers) p
                          (λ t m. only_head tier t tiers m))
                      here sound)
                    (All-imp
                      (λ p.
                        IsTierPoint-more system files tiers (tier ∷ tiers) p (λ t m. Memᴰ.tail m))
                      later sounds),
                (
                  IsCovered-weaker system files here (here ++ later) tier
                      (λ s k. ground (arith, any-append (λ p. str_eq p.snapshot s) here later))
                      covers,
                  All-imp
                      (λ t.
                        IsCovered-weaker system files later (here ++ later) t
                          (λ s k. ground (arith, any-append (λ p. str_eq p.snapshot s) here later)))
                      tiers coverss,
                ),
              )
      ]
    ]

-- What a scan that succeeds returns: the point "latest", if there is one, and points of tiers.
abbrev pub IsScanned : System → Files → ScannedPoint → Type 0
IsScanned system files p =
    ((p.snapshot ≡ latest_name)
      × (latest_snapshot_target system files ≡ ok p.resolves_to)
      × (node : Node) × (stat system latest files ≡ ok node))
    ⊎ IsTierPoint system files all_tiers p

latest_points_ok :
    (system : System) (dates : Dates) (target : GoString) (files : Files)
    (first : List ScannedPoint)
    → latest_snapshot_target system files ≡ ok target
    → latest_points system dates target files ≡ ok first
    → All (IsScanned system files) first
unfolding latest_points
latest_points_ok system dates target files first t h =
    elim (stat_cases (stat system latest files)) [
      | inl (node, s) ↦
          let same : first ≡ latest_point dates target ∷ [] = ground arith in
          subst (All (IsScanned system files)) (sym same) (inl (refl, t, node, s), tt)
      | inr (inl s) ↦
          let same : first ≡ [] = ground arith in subst (All (IsScanned system files)) (sym same) tt
      | inr (inr s) ↦ absurd (ground arith)
    ]

sorted_among :
    (first found : List ScannedPoint) (name : GoString)
    → is_among found name ≡ true
    → is_among (sort point_leb (first ++ found)) name ≡ true
sorted_among first found name h =
    any-sort point_leb (λ p. str_eq p.snapshot name) (first ++ found)
    ∙ any-append (λ p. str_eq p.snapshot name) first found
    ∙ ground arith

-- Whichever calls fail: a scan that succeeds lists "latest" only where it leads somewhere, with what
-- it resolves to, and otherwise directories of the tiers under their names; and every directory of
-- every tier that is there is listed.
pub scan_restore_points_ok :
    (system : System) (dates : Dates) (files : Files) (points : List ScannedPoint)
    → scan_restore_points system dates files ≡ ok points
    → All (IsScanned system files) points × All (IsCovered system files points) all_tiers
unfolding scan_restore_points
scan_restore_points_ok system dates files points h =
    elim (Result-cases (latest_snapshot_target system files)) [
      | inr (error, t) ↦ absurd (ground arith)
      | inl (target, t) ↦ elim (Result-cases (latest_points system dates target files)) [
        | inr (error, l) ↦ absurd (ground arith)
        | inl (first, l) ↦ elim (Result-cases (scan_tiers system dates all_tiers files)) [
          | inr (error, s) ↦ absurd (ground arith)
          | inl (found, s) ↦
              let same : points ≡ sort point_leb (first ++ found) = ground arith in
              let (sound, covers) = scan_tiers_ok system dates all_tiers files found s in
              subst
                (λ ps. All (IsScanned system files) ps × All (IsCovered system files ps) all_tiers)
                (sym same)
                (
                  All-sort point_leb (IsScanned system files) (first ++ found) (
                      All-append (IsScanned system files) first found
                        (latest_points_ok system dates target files first t l)
                        (All-imp (λ p k. inr k) found sound)),
                  All-imp
                      (λ tier.
                        IsCovered-weaker system files found (sort point_leb (first ++ found)) tier
                          (λ name k. sorted_among first found name k))
                      all_tiers covers,
                )
        ]
      ]
    ]
