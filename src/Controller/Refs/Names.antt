-- ===== src/Controller/Refs/Names.antt =====
-- `types.NamespacedName` and its `==`.
use kube_rsync_machine.Common.{◌≡◌, ◌↔◌, refl, ap₂, true, &&-eq-true}
use kube_rsync_machine.Common.Text.{GoString, str_eq, str_eq_iff, str_eq_refl}
use kube_rsync_machine.Controller.Refs.{NamespacedName, same_name}

abbrev make : GoString → GoString → NamespacedName
make namespace name = record { namespace = namespace; name = name }

same_name→eq : (a b : NamespacedName) → same_name a b ≡ true → a ≡ b
unfolding same_name
same_name→eq a b h =
    let both = &&-eq-true (str_eq a.namespace b.namespace) (str_eq a.name b.name) h in
    ap₂ make ((str_eq_iff a.namespace b.namespace).0 both.0) ((str_eq_iff a.name b.name).0 both.1)

pub same_name_refl : (a : NamespacedName) → same_name a a ≡ true
unfolding same_name
same_name_refl a = rw (str_eq_refl a.namespace, str_eq_refl a.name) refl

pub same_name_iff : (a b : NamespacedName) → (same_name a b ≡ true) ↔ (a ≡ b)
same_name_iff a b = (same_name→eq a b, λ e. cc (e, same_name_refl a))
