-- ===== src/Common/Text/Prefix.antt =====
-- `strings.HasPrefix` and `strings.ContainsRune` on a byte.
use Prim.Native.Nat.{ℕ}
use mathlib.Core.Path.{◌≡◌, refl}
use mathlib.Core.Logic.{◌⊎◌}
use mathlib.Core.Bool.{Bool, true, false, ◌&&◌, ◌||◌}
use mathlib.Core.List.{[], ◌∷◌, ◌++◌}
use native.Mathlib.Omega.{arith}
use kube_rsync_machine.Common.Tests.{◌==◌}
use kube_rsync_machine.Common.Text.Equal.{GoString}

-- `strings.HasPrefix(s, p)`
unfoldable pub has_prefix : GoString → GoString → Bool
has_prefix s [] = true
has_prefix [] (d ∷ p) = false
has_prefix (c ∷ s) (d ∷ p) = c == d && has_prefix s p

-- `strings.Contains(s, "c")` for a single byte.
unfoldable pub contains : GoString → ℕ → Bool
contains [] b = false
contains (c ∷ s) b = c == b || contains s b

-- The byte occurs in the text.
abbrev pub Has : GoString → ℕ → Type 0
Has [] b = ⊥
Has (c ∷ s) b = (c ≡ b) ⊎ Has s b

pub has_prefix-append : (p s : GoString) → has_prefix (p ++ s) p ≡ true
unfolding has_prefix
has_prefix-append [] [] = refl
has_prefix-append [] (c ∷ s) = refl
has_prefix-append (c ∷ p) s = ground (arith, has_prefix-append p s)

-- A text with the prefix `p` is `p` with a rest.
pub has_prefix→append : (s p : GoString) → has_prefix s p ≡ true → (r : GoString) × (s ≡ p ++ r)
unfolding has_prefix
has_prefix→append [] [] h = ([], refl)
has_prefix→append (c ∷ s) [] h = (c ∷ s, refl)
has_prefix→append [] (d ∷ p) h = cc
has_prefix→append (c ∷ s) (d ∷ p) h =
    let both : (c ≡ d) × (has_prefix s p ≡ true) = ground arith in
    let (r, e) = has_prefix→append s p both.1 in (r, cc (both.0, e))

pub contains-append :
    (s t : GoString) (b : ℕ) → contains (s ++ t) b ≡ (contains s b || contains t b)
unfolding contains
contains-append [] t b = refl
contains-append (c ∷ s) t b = ground (arith, contains-append s t b)
