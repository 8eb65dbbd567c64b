-- ===== src/Controller/History/Newest.antt =====
-- `pruneBackupJobHistoryCandidates` of internal/controller/reconcilers.go.
use mathlib.Core.List.{Perm}
use kube_rsync_machine.Common.{
  ℕ, zero, suc, ◌≤◌, ◌<◌, ◌≡◌, ◌⊎◌, refl, sym, true, List, [], ◌∷◌, ◌++◌, All, All-drop, All-imp,
  Option, none, some, Option-cases, false, take, drop, take-append-drop, length, length-take-le,
  leb, leb→le, Bool-cases, inl, inr, arith,
}
use kube_rsync_machine.Common.Int.{ℤ, to_ℕ}
use kube_rsync_machine.Common.Sort.{sort, IsSorted, sort-perm, sort-IsSorted}
use kube_rsync_machine.Common.Text.Order.{str_ltb_trans, str_ltb_total, str_ltb_irrefl}
use kube_rsync_machine.Common.Text.{str_ltb}
use kube_rsync_machine.Controller.Clock.{Time}
use kube_rsync_machine.Controller.History.{
  PastJob, backup_run_history_time, namespaced_key, is_newer, newest_first,
  prune_backup_job_history_candidates,
}

newest_first_total : (a b : PastJob) → (newest_first a b ≡ true) ⊎ (newest_first b a ≡ true)
unfolding newest_first is_newer
newest_first_total a b = ground (
  arith,
  str_ltb_trans (namespaced_key a.run) (namespaced_key b.run) (namespaced_key a.run),
  str_ltb_irrefl (namespaced_key a.run),
)

newest_first_trans :
    (a b c : PastJob) → newest_first a b ≡ true → newest_first b c ≡ true → newest_first a c ≡ true
unfolding newest_first is_newer
newest_first_trans a b c h k = ground (
  arith,
  str_ltb_total (namespaced_key a.run) (namespaced_key b.run),
  str_ltb_trans (namespaced_key b.run) (namespaced_key a.run) (namespaced_key c.run),
)

-- Each of the jobs kept is at least as new as the job.
abbrev BelowAll : List PastJob → PastJob → Type 0
BelowAll kept job = All (λ k. newest_first k job ≡ true) kept

all_below_cons :
    (x : PastJob) (kept jobs : List PastJob)
    → All (λ y. newest_first x y ≡ true) jobs
    → All (BelowAll kept) jobs
    → All (BelowAll (x ∷ kept)) jobs
all_below_cons x kept [] h k = tt
all_below_cons x kept (job ∷ jobs) (p, h) (q, k) = ((p, q), all_below_cons x kept jobs h k)

all_below_none : (xs : List PastJob) → All (BelowAll []) xs
all_below_none [] = tt
all_below_none (x ∷ xs) = (tt, all_below_none xs)

-- In a sorted list what is dropped is older than what is taken.
below_taken :
    (n : ℕ) (xs : List PastJob) → IsSorted newest_first xs → All (BelowAll (take n xs)) (drop n xs)
below_taken zero xs s = all_below_none xs
below_taken (suc n) [] s = tt
below_taken (suc n) (x ∷ xs) (below, s) =
    all_below_cons x (take n xs) (drop n xs) (All-drop (λ y. newest_first x y ≡ true) n xs below)
      (below_taken n xs s)

drop_all : (n : ℕ) (xs : List PastJob) → length xs ≤ n → drop n xs ≡ []
drop_all zero [] h = refl
drop_all zero (x ∷ xs) h = absurd (omega arith)
drop_all (suc n) [] h = refl
drop_all (suc n) (x ∷ xs) h = drop_all n xs (omega arith)

candidates_drop :
    (runs : List PastJob) (keep : ℤ)
    → prune_backup_job_history_candidates runs keep ≡ drop (to_ℕ keep) (sort newest_first runs)
unfolding prune_backup_job_history_candidates
candidates_drop runs keep = elim (Bool-cases (leb (length (sort newest_first runs)) (to_ℕ keep))) [
  | inl few ↦ rw few (
      sym (
        drop_all (to_ℕ keep) (sort newest_first runs)
          (leb→le (length (sort newest_first runs)) (to_ℕ keep) few)))
  | inr many ↦ rw many refl
]

-- When the job ended, or was created where it has not ended.
abbrev pub ended_at : Option Time → Time → Time
ended_at none created = created
ended_at (some completed) created = completed

-- The job ended before the other; of two that ended together, its key is not the greater one.
abbrev pub IsOlder : PastJob → PastJob → Type 0
IsOlder job other =
    let end = ended_at job.run.completed_at job.creation_timestamp in
    let other_end = ended_at other.run.completed_at other.creation_timestamp in
    (end < other_end)
    ⊎ ((end ≡ other_end)
        × (str_ltb (other.run.namespace ++ b'/' ∷ other.run.name)
              (job.run.namespace ++ b'/' ∷ job.run.name)
            ≡ false))

ended_at-code :
    (job : PastJob)
    → backup_run_history_time job ≡ ended_at job.run.completed_at job.creation_timestamp
unfolding backup_run_history_time
ended_at-code job = elim (Option-cases job.run.completed_at) [
  | inl e ↦ rw e refl
  | inr (t, e) ↦ rw e refl
]

newest_first-IsOlder : (k job : PastJob) → newest_first k job ≡ true → IsOlder job k
unfolding newest_first is_newer namespaced_key
newest_first-IsOlder k job h = ground (arith, ended_at-code k, ended_at-code job)

-- Each of the jobs kept is at least as new as the job.
abbrev pub IsOldest : List PastJob → PastJob → Type 0
IsOldest kept job = All (IsOlder job) kept

BelowAll-IsOldest : (kept : List PastJob) (job : PastJob) → BelowAll kept job → IsOldest kept job
BelowAll-IsOldest kept job = All-imp (λ k. newest_first-IsOlder k job) kept

all_or_exactly : (n : ℕ) (xs : List PastJob) → (drop n xs ≡ []) ⊎ (length (take n xs) ≡ n)
all_or_exactly zero xs = inr refl
all_or_exactly (suc n) [] = inl refl
all_or_exactly (suc n) (x ∷ xs) = ground (arith, all_or_exactly n xs)

-- The runs are the candidates and `keep` others, none where `keep` is negative, or fewer where there
-- is no candidate; and each candidate ended before each of the others, or with it and its key is
-- not greater. A run that has not ended counts with the time of its creation.
pub prune_backup_job_history_candidates_lem :
    (runs : List PastJob) (keep : ℤ)
    → let candidates = prune_backup_job_history_candidates runs keep in
      (kept : List PastJob) × Perm (kept ++ candidates) runs
      × (length kept ≤ to_ℕ keep)
      × ((candidates ≡ []) ⊎ (length kept ≡ to_ℕ keep))
      × All (IsOldest kept) candidates
prune_backup_job_history_candidates_lem runs keep =
    let sorted = sort newest_first runs in
    (
      take (to_ℕ keep) sorted,
      rw (candidates_drop runs keep, take-append-drop (to_ℕ keep) sorted)
          (sort-perm newest_first runs),
      length-take-le (to_ℕ keep) sorted,
      rw (candidates_drop runs keep) (all_or_exactly (to_ℕ keep) sorted),
      rw (candidates_drop runs keep) (
          All-imp (BelowAll-IsOldest (take (to_ℕ keep) sorted)) (drop (to_ℕ keep) sorted) (
            below_taken (to_ℕ keep) sorted
              (sort-IsSorted newest_first newest_first_total newest_first_trans runs))),
    )
