-- ===== src/Common/Eq.antt =====
-- Equality of keys as an interface, with the instances that the program's maps need.
use Prim.Native.Nat.{ℕ}
use mathlib.Core.Path.{◌≡◌}
use mathlib.Core.Logic.{◌↔◌}
use mathlib.Core.Bool.{Bool, true}
use kube_rsync_machine.Common.Tests.{◌==◌ as nat_eq, ==_iff}
use kube_rsync_machine.Common.Text.Equal.{GoString, str_eq, str_eq_iff}

pub record Eq {ℓ} (A : Type ℓ) : Type ℓ where
  pub beq : A → A → Bool
  pub beq_iff : (a b : A) → (beq a b ≡ true) ↔ (a ≡ b)

instance abbrev pub ℕ_eq : Eq ℕ
ℕ_eq = record { beq = nat_eq; beq_iff = ==_iff }

instance abbrev pub GoString_eq : Eq GoString
GoString_eq = record { beq = str_eq; beq_iff = str_eq_iff }
