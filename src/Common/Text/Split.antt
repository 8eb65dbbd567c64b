-- ===== src/Common/Text/Split.antt =====
-- `strings.Split` and `strings.Join` at a separator of one byte.
use Prim.Native.Nat.{ℕ}
use mathlib.Core.Path.{◌≡◌, refl, sym, ap, ap₂, ◌∙◌}
use mathlib.Core.Logic.{◌≢◌, inl, inr}
use mathlib.Core.Bool.{false}
use mathlib.Core.List.{List, [], ◌∷◌, ◌++◌}
use native.Mathlib.Omega.{arith}
use kube_rsync_machine.Common.Tests.{Bool-cases, ◌==◌, if◌then◌else◌}
use kube_rsync_machine.Common.Lists.{All}
use kube_rsync_machine.Common.Text.Equal.{GoString}
use kube_rsync_machine.Common.Text.Prefix.{contains, contains-append}

abbrev extend_head : ℕ → List GoString → List GoString
extend_head c [] = (c ∷ []) ∷ []
extend_head c (p ∷ ps) = (c ∷ p) ∷ ps

-- `strings.Split(s, sep)`: always at least one part.
unfoldable pub split : ℕ → GoString → List GoString
split sep [] = [] ∷ []
split sep (c ∷ s) = let rest = split sep s in if c == sep then [] ∷ rest else extend_head c rest

-- `strings.Join(parts, sep)`
unfoldable pub join : ℕ → List GoString → GoString
join sep [] = []
join sep (p ∷ []) = p
join sep (p ∷ q ∷ ps) = p ++ sep ∷ join sep (q ∷ ps)

-- The separator does not occur.
abbrev pub Lacks : ℕ → GoString → Type 0
Lacks sep s = contains s sep ≡ false

pub split-ne-nil : (sep : ℕ) (s : GoString) → split sep s ≢ []
unfolding split
split-ne-nil sep [] h = cc
split-ne-nil sep (c ∷ s) h = grind arith

split_cons :
    (sep c : ℕ) (s : GoString) (rest : List GoString)
    → contains s sep ≡ contains s sep
    → All (Lacks sep) rest
    → All (Lacks sep) (if c == sep then [] ∷ rest else extend_head c rest)
unfolding contains
split_cons sep c s [] e h = ground arith
split_cons sep c s (p ∷ ps) e h = ground arith

-- No part holds the separator.
pub split-Lacks : (sep : ℕ) (s : GoString) → All (Lacks sep) (split sep s)
unfolding split contains
split-Lacks sep [] = (refl, tt)
split-Lacks sep (c ∷ s) = split_cons sep c s (split sep s) refl (split-Lacks sep s)

pub split_lacking : (sep : ℕ) (s : GoString) → Lacks sep s → split sep s ≡ s ∷ []
unfolding split contains
split_lacking sep [] h = refl
split_lacking sep (c ∷ s) h = ground (arith, split_lacking sep s)

pub split_at_sep :
    (sep : ℕ) (p s : GoString) → Lacks sep p → split sep (p ++ sep ∷ s) ≡ p ∷ split sep s
unfolding split contains
split_at_sep sep [] s h = ground arith
split_at_sep sep (c ∷ p) s h = ground (arith, split_at_sep sep p s)

-- Splitting a join gives the parts back, if there is a part and none holds the separator.
pub split-join :
    (sep : ℕ) (ps : List GoString) → ps ≢ [] → All (Lacks sep) ps → split sep (join sep ps) ≡ ps
unfolding join
split-join sep [] ne h = absurd (ne refl)
split-join sep (p ∷ []) ne h = split_lacking sep p h.0
split-join sep (p ∷ q ∷ ps) ne h =
    cc (split_at_sep sep p (join sep (q ∷ ps)) h.0, split-join sep (q ∷ ps) (λ e. cc) h.1)

extend_head-Lacks :
    (b c : ℕ) (parts : List GoString)
    → (c == b) ≡ false
    → All (Lacks b) parts
    → All (Lacks b) (extend_head c parts)
unfolding contains
extend_head-Lacks b c [] e h = ground arith
extend_head-Lacks b c (p ∷ ps) e h = ground arith

-- A byte that the text lacks is in none of its parts.
pub split-Lacks_other : (sep b : ℕ) (s : GoString) → Lacks b s → All (Lacks b) (split sep s)
unfolding split contains
split-Lacks_other sep b [] h = (refl, tt)
split-Lacks_other sep b (c ∷ s) h = elim (Bool-cases (c == sep)) [
  | inl e ↦ rw e (refl, split-Lacks_other sep b s (ground arith))
  | inr e ↦ rw e (
      extend_head-Lacks b c (split sep s) (ground arith) (split-Lacks_other sep b s (ground arith)))
]

pub join-Lacks :
    (sep b : ℕ) (ps : List GoString) → (sep == b) ≡ false → All (Lacks b) ps → Lacks b (join sep ps)
unfolding join contains
join-Lacks sep b [] e h = refl
join-Lacks sep b (p ∷ []) e h = h.0
join-Lacks sep b (p ∷ q ∷ ps) e h =
    ground
      (arith, h.0, join-Lacks sep b (q ∷ ps) e h.1, contains-append p (sep ∷ join sep (q ∷ ps)) b)

join-extend_head :
    (sep c : ℕ) (parts : List GoString)
    → parts ≢ []
    → join sep (extend_head c parts) ≡ c ∷ join sep parts
unfolding join
join-extend_head sep c [] ne = absurd (ne refl)
join-extend_head sep c (p ∷ []) ne = refl
join-extend_head sep c (p ∷ q ∷ ps) ne = refl

join-new_part :
    (sep : ℕ) (parts : List GoString) → parts ≢ [] → join sep ([] ∷ parts) ≡ sep ∷ join sep parts
unfolding join
join-new_part sep [] ne = absurd (ne refl)
join-new_part sep (p ∷ ps) ne = refl

-- Joining the parts gives the text back.
pub join-split : (sep : ℕ) (s : GoString) → join sep (split sep s) ≡ s
unfolding split join
join-split sep [] = refl
join-split sep (c ∷ s) = elim (Bool-cases (c == sep)) [
  | inl e ↦
      let same : c ≡ sep = ground arith in
      rw e (
        join-new_part sep (split sep s) (split-ne-nil sep s)
        ∙ ap₂ (λ x xs. x ∷ xs) (sym same) (join-split sep s))
  | inr e ↦ rw e (
      join-extend_head sep c (split sep s) (split-ne-nil sep s)
      ∙ ap (λ xs. c ∷ xs) (join-split sep s))
]
