-- ===== src/Controller/RunSet/Members.antt =====
-- The last loop of `CalculateTargetRunSet` of internal/controller/helpers.go.
use mathlib.Core.List.{Memᴰ}
use mathlib.Core.List.Memᴰ
use kube_rsync_machine.Common.{
  ◌≡◌, ◌⊎◌, refl, ◌∙◌, Bool, true, false, not, ◌&&◌, ◌||◌, List, [], ◌∷◌, ok, if◌then◌else◌, arith,
  All, All-imp, AllPairs, Bool-cases, Result-cases, inl, inr,
}
use kube_rsync_machine.Common.Text.{GoString, str_eq, str_eq_iff}
use kube_rsync_machine.Controller.Refs.{
  MachineObject, BackupSource, same_name, source_name, admits, is_mirror, delete_or_default,
}
use kube_rsync_machine.Controller.Refs.Names.{same_name_refl, same_name_iff}
use kube_rsync_machine.Controller.Destinations.{
  effective_destination_path_for_strategy, mirror_paths_overlap,
}
use kube_rsync_machine.Controller.Destinations.Overlap.{mirror_paths_overlap_comm}
use kube_rsync_machine.Controller.RunSet.{ResolvedSource, has_ref, resolve_source, resolve_sources}

-- The entry is one of the sources, which the machine admits, with its name and its destination.
pub record IsMember (machine : MachineObject) (sources : List BackupSource) (r : ResolvedSource)
    : Type 0 where
  pub listed : Memᴰ r.source sources
  pub admitted : admits machine r.source ≡ true
  pub named : r.ref ≡ source_name r.source
  pub placed :
      effective_destination_path_for_strategy machine r.source ≡ ok r.effective_destination_path

-- Destinations that a run may write to both: other paths, or for a mirror paths that do not
-- overlap, unless neither source deletes.
abbrev pub paths_apart : MachineObject → GoString → BackupSource → GoString → BackupSource → Bool
paths_apart machine p s q t =
    if is_mirror machine
    then not
        (mirror_paths_overlap p q && (delete_or_default s.delete || delete_or_default t.delete))
    else not (str_eq p q)

pub record AreApart (machine : MachineObject) (r q : ResolvedSource) : Type 0 where
  pub other_name : same_name r.ref q.ref ≡ false
  pub other_place :
      paths_apart machine r.effective_destination_path r.source q.effective_destination_path
        q.source
      ≡ true

-- What the detectors have excluded for two sources.
abbrev pub AreCompatible : MachineObject → BackupSource → BackupSource → Type 0
AreCompatible machine s t =
    (p q : GoString)
    → admits machine s ≡ true
    → admits machine t ≡ true
    → same_name (source_name s) (source_name t) ≡ false
    → effective_destination_path_for_strategy machine s ≡ ok p
    → effective_destination_path_for_strategy machine t ≡ ok q
    → paths_apart machine p s q t ≡ true

abbrev entry : BackupSource → GoString → ResolvedSource
entry source path = record {
  ref = source_name source;
  source = source;
  effective_destination_path = path;
}

-- What one round of the loop does.
abbrev IsSkipped : MachineObject → BackupSource → List ResolvedSource → List ResolvedSource → Type 0
IsSkipped machine source found next =
    (next ≡ found) × ((not (admits machine source) || has_ref (source_name source) found) ≡ true)

abbrev IsTaken : MachineObject → BackupSource → List ResolvedSource → List ResolvedSource → Type 0
IsTaken machine source found next =
    (path : GoString) × (next ≡ entry source path ∷ found)
    × (admits machine source ≡ true)
    × (has_ref (source_name source) found ≡ false)
    × (effective_destination_path_for_strategy machine source ≡ ok path)

resolve_source_cases :
    (machine : MachineObject) (source : BackupSource) (found next : List ResolvedSource)
    → resolve_source machine source found ≡ ok next
    → IsSkipped machine source found next ⊎ IsTaken machine source found next
unfolding resolve_source
resolve_source_cases machine source found next h =
    elim (Bool-cases (not (admits machine source) || has_ref (source_name source) found)) [
      | inl skip ↦ inl (ground arith, skip)
      | inr take ↦ elim (Result-cases (effective_destination_path_for_strategy machine source)) [
        | inl (path, e) ↦ inr (path, ground arith, ground arith, ground arith, e)
        | inr (error, e) ↦ absurd (ground arith)
      ]
    ]

-- An induction on the loop: a property that each round keeps, of the sources left and what is found.
module _ (machine : MachineObject) (P : List BackupSource → List ResolvedSource → Type 0)
    (skip : (s : BackupSource) (rest : List BackupSource) (found : List ResolvedSource)
      → (not (admits machine s) || has_ref (source_name s) found) ≡ true
      → P (s ∷ rest) found
      → P rest found)
    (add : (s : BackupSource) (rest : List BackupSource) (found : List ResolvedSource)
        (path : GoString)
      → admits machine s ≡ true
      → has_ref (source_name s) found ≡ false
      → effective_destination_path_for_strategy machine s ≡ ok path
      → P (s ∷ rest) found
      → P rest (entry s path ∷ found)) where
  resolve_sources_ind :
      (sources : List BackupSource) (found out : List ResolvedSource)
      → resolve_sources machine sources found ≡ ok out
      → P sources found
      → P [] out
  unfolding resolve_sources
  resolve_sources_ind [] found out h p = ground (arith, p)
  resolve_sources_ind (s ∷ rest) found out h p =
      elim (Result-cases (resolve_source machine s found)) [
        | inl (next, e) ↦
            let later : resolve_sources machine rest next ≡ ok out = ground arith in
            elim (resolve_source_cases machine s found next e) [
              | inl (same, there) ↦
                  resolve_sources_ind rest next out later (rw same (skip s rest found there p))
              | inr (path, more, a, fresh, placed) ↦
                  resolve_sources_ind rest next out later
                    (rw more (add s rest found path a fresh placed p))
            ]
        | inr (error, e) ↦ absurd (ground arith)
      ]

pub paths_apart_comm :
    (machine : MachineObject) (p : GoString) (s : BackupSource) (q : GoString) (t : BackupSource)
    → paths_apart machine p s q t ≡ paths_apart machine q t p s
paths_apart_comm machine p s q t =
    ground (arith, mirror_paths_overlap_comm p q, str_eq_iff p q, str_eq_iff q p)

pub AreApart-symmetric :
    (machine : MachineObject) (r q : ResolvedSource) → AreApart machine r q → AreApart machine q r
AreApart-symmetric machine r q a = record {
  other_name = ground (arith, a.other_name, same_name_iff r.ref q.ref, same_name_iff q.ref r.ref);
  other_place =
      paths_apart_comm machine q.effective_destination_path q.source r.effective_destination_path
        r.source
      ∙ a.other_place;
}

-- The new entry is apart from those found before.
entry_apart :
    (machine : MachineObject) (whole rest : List BackupSource) (s : BackupSource) (path : GoString)
    (found : List ResolvedSource)
    → admits machine s ≡ true
    → effective_destination_path_for_strategy machine s ≡ ok path
    → has_ref (source_name s) found ≡ false
    → All (IsMember machine whole) found
    → All (λ r. All (AreCompatible machine r.source) (s ∷ rest)) found
    → All (AreApart machine (entry s path)) found
entry_apart machine whole rest s path [] a placed fresh m c = tt
entry_apart machine whole rest s path (r ∷ found) a placed fresh (m, ms) (c, cs) =
    let other : same_name r.ref (source_name s) ≡ false = ground (arith, fresh) in
    let apart =
      c.0 r.effective_destination_path path m.admitted a (rw m.named at other) m.placed placed in
    (
      AreApart-symmetric machine r (entry s path)
          (record { other_name = other; other_place = apart }),
      entry_apart machine whole rest s path found a placed (ground (arith, fresh)) ms cs,
    )

abbrev Sound : MachineObject → List BackupSource → List BackupSource → List ResolvedSource → Type 0
Sound machine whole rest found =
    All (λ s. Memᴰ s whole) rest
    × All (IsMember machine whole) found
    × AllPairs (AreCompatible machine) rest
    × All (λ r. All (AreCompatible machine r.source) rest) found
    × AllPairs (AreApart machine) found

Sound-skipping :
    (machine : MachineObject) (whole : List BackupSource) (s : BackupSource)
    (rest : List BackupSource) (found : List ResolvedSource)
    → Sound machine whole (s ∷ rest) found
    → Sound machine whole rest found
Sound-skipping machine whole s rest found (l, m, p, c, a) =
    (l.1, m, p.1, All-imp (λ r h. h.1) found c, a)

Sound-adding :
    (machine : MachineObject) (whole : List BackupSource) (s : BackupSource)
    (rest : List BackupSource) (found : List ResolvedSource) (path : GoString)
    → admits machine s ≡ true
    → has_ref (source_name s) found ≡ false
    → effective_destination_path_for_strategy machine s ≡ ok path
    → Sound machine whole (s ∷ rest) found
    → Sound machine whole rest (entry s path ∷ found)
Sound-adding machine whole s rest found path ad fresh placed (l, m, p, c, a) = (
  l.1,
  (record { listed = l.0; admitted = ad; named = refl; placed = placed }, m),
  p.1,
  (p.0, All-imp (λ r h. h.1) found c),
  (entry_apart machine whole rest s path found ad placed fresh m c, a),
)

all_listed : (xs : List BackupSource) → All (λ s. Memᴰ s xs) xs
all_listed [] = tt
all_listed (x ∷ xs) = (Memᴰ.head refl, All-imp (λ s h. Memᴰ.tail h) xs (all_listed xs))

-- What the loop finds are members, each apart from the others.
pub resolve_sources_sound :
    (machine : MachineObject) (sources : List BackupSource) (found : List ResolvedSource)
    → AllPairs (AreCompatible machine) sources
    → resolve_sources machine sources [] ≡ ok found
    → All (IsMember machine sources) found × AllPairs (AreApart machine) found
resolve_sources_sound machine sources found p h =
    let (_, m, _, _, a) =
      resolve_sources_ind machine (Sound machine sources)
        (λ s rest fs _ k. Sound-skipping machine sources s rest fs k)
        (λ s rest fs path ad fresh placed k.
          Sound-adding machine sources s rest fs path ad fresh placed k)
        sources [] found h (all_listed sources, tt, p, tt, tt) in
    (m, a)

-- The source is left out, or has an entry.
abbrev pub covered : MachineObject → List ResolvedSource → BackupSource → Bool
covered machine found s = not (admits machine s) || has_ref (source_name s) found

covered_later :
    (machine : MachineObject) (s t : BackupSource) (rest : List BackupSource)
    (found : List ResolvedSource)
    → covered machine found t ≡ true
    → Memᴰ s (t ∷ rest) ⊎ (covered machine found s ≡ true)
    → Memᴰ s rest ⊎ (covered machine found s ≡ true)
covered_later machine s t rest found h (inr c) = inr c
covered_later machine s t rest found h (inl m) = elim (Memᴰ.cases_cons m) [
  | inl e ↦ inr (rw e h)
  | inr later ↦ inl later
]

covered_more :
    (machine : MachineObject) (s t : BackupSource) (path : GoString) (xs : List BackupSource)
    (found : List ResolvedSource)
    → Memᴰ s xs ⊎ (covered machine found s ≡ true)
    → Memᴰ s xs ⊎ (covered machine (entry t path ∷ found) s ≡ true)
covered_more machine s t path xs found (inl m) = inl m
covered_more machine s t path xs found (inr c) = inr (ground (arith, c))

nothing_left :
    (machine : MachineObject) (s : BackupSource) (found : List ResolvedSource)
    → Memᴰ s [] ⊎ (covered machine found s ≡ true)
    → covered machine found s ≡ true
nothing_left machine s found (inl m) = elim m [ ]
nothing_left machine s found (inr c) = c

-- No admitted source is left out.
pub resolve_sources_covers :
    (machine : MachineObject) (sources : List BackupSource) (found : List ResolvedSource)
    → resolve_sources machine sources [] ≡ ok found
    → (s : BackupSource) → Memᴰ s sources
    → covered machine found s ≡ true
resolve_sources_covers machine sources found h s m = nothing_left machine s found (
    resolve_sources_ind machine (λ rest fs. Memᴰ s rest ⊎ (covered machine fs s ≡ true))
      (λ t rest fs c k. covered_later machine s t rest fs c k)
      (λ t rest fs path ad fresh placed k.
        covered_later machine s t rest (entry t path ∷ fs)
          (ground (arith, same_name_refl (source_name t)))
          (covered_more machine s t path (t ∷ rest) fs k))
      sources [] found h (inl m))
