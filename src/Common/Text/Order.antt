-- ===== src/Common/Text/Order.antt =====
-- The byte order of strings, `a < b`.
use mathlib.Core.Path.{◌≡◌, refl}
use mathlib.Core.Logic.{◌⊎◌}
use mathlib.Core.Bool.{Bool, true, false, not, ◌&&◌, ◌||◌}
use mathlib.Core.List.{[], ◌∷◌, ◌++◌}
use native.Mathlib.Omega.{arith}
use kube_rsync_machine.Common.Tests.{◌==◌, ltb}
use kube_rsync_machine.Common.Text.Equal.{GoString}

unfoldable pub str_ltb : GoString → GoString → Bool
str_ltb [] [] = false
str_ltb [] (d ∷ t) = true
str_ltb (c ∷ s) [] = false
str_ltb (c ∷ s) (d ∷ t) = ltb c d || (c == d && str_ltb s t)

unfoldable pub str_leb : GoString → GoString → Bool
str_leb a b = not (str_ltb b a)

pub str_ltb_irrefl : (a : GoString) → str_ltb a a ≡ false
unfolding str_ltb
str_ltb_irrefl [] = refl
str_ltb_irrefl (c ∷ s) = ground (arith, str_ltb_irrefl s)

pub str_ltb_trans :
    (a b c : GoString) → str_ltb a b ≡ true → str_ltb b c ≡ true → str_ltb a c ≡ true
unfolding str_ltb
str_ltb_trans [] [] c h k = cc
str_ltb_trans [] (y ∷ b) [] h k = cc
str_ltb_trans [] (y ∷ b) (z ∷ c) h k = refl
str_ltb_trans (x ∷ a) [] c h k = cc
str_ltb_trans (x ∷ a) (y ∷ b) [] h k = cc
str_ltb_trans (x ∷ a) (y ∷ b) (z ∷ c) h k = ground (arith, str_ltb_trans a b c)

-- Two strings that are not below one another are the same.
pub str_ltb_total : (a b : GoString) → str_ltb a b ≡ false → str_ltb b a ≡ false → a ≡ b
unfolding str_ltb
str_ltb_total [] [] h k = refl
str_ltb_total [] (y ∷ b) h k = cc
str_ltb_total (x ∷ a) [] h k = cc
str_ltb_total (x ∷ a) (y ∷ b) h k = ground (arith, str_ltb_total a b)

pub str_leb_trans :
    (a b c : GoString) → str_leb a b ≡ true → str_leb b c ≡ true → str_leb a c ≡ true
unfolding str_leb
str_leb_trans a b c h k = ground (arith, str_ltb_total a b, str_ltb_trans c a b)

pub str_leb_total : (a b : GoString) → (str_leb a b ≡ true) ⊎ (str_leb b a ≡ true)
unfolding str_leb
str_leb_total a b = ground (arith, str_ltb_trans a b a, str_ltb_irrefl a)

pub str_leb_antisymm : (a b : GoString) → str_leb a b ≡ true → str_leb b a ≡ true → a ≡ b
unfolding str_leb
str_leb_antisymm a b h k = ground (arith, str_ltb_total a b)

-- The order of two strings with a common front is the order of what follows.
pub str_ltb-append : (p s t : GoString) → str_ltb (p ++ s) (p ++ t) ≡ str_ltb s t
unfolding str_ltb
str_ltb-append [] s t = refl
str_ltb-append (c ∷ p) s t = ground (arith, str_ltb-append p s t)
