-- ===== src/Controller/Refs/Admission.antt =====
-- `namespaceAllowed` of internal/controller/helpers.go.
use kube_rsync_machine.Common.{◌≡◌, ◌↔◌, Bool, true, false, ◌&&◌, ◌||◌, List, [], ◌∷◌, any, arith}
use kube_rsync_machine.Common.Text.{GoString, codes, is_empty, str_eq, str_eq_iff}
use kube_rsync_machine.Controller.Refs.{item_allows, namespace_allowed}

-- The list names the item.
abbrev pub lists : GoString → List GoString → Bool
lists item items = any (λ x. str_eq x item) items

abbrev pub is_unset : List GoString → Bool
is_unset [] = true
is_unset (item ∷ items) = false

any-item_allows :
    (machine namespace : GoString) (items : List GoString)
    → str_eq namespace (codes ".") ≡ false
    → any (item_allows machine namespace) items ≡ (
        lists (codes "*") items
        || (str_eq namespace machine && lists (codes ".") items)
        || lists namespace items)
unfolding item_allows
any-item_allows machine namespace [] h = ground arith
any-item_allows machine namespace (item ∷ items) h = ground (
  arith,
  any-item_allows machine namespace items h,
  str_eq_iff item (codes "*"),
  str_eq_iff item (codes "."),
  str_eq_iff item namespace,
  str_eq_iff namespace item,
)

-- A machine admits a namespace other than "." exactly if the namespace is not empty and the list
-- holds "*" or the namespace itself, or the namespace is the machine's own and the list holds "."
-- or is empty.
pub namespace_allowed_iff :
    (machine namespace : GoString) (allowed : List GoString)
    → str_eq namespace (codes ".") ≡ false
    → (namespace_allowed machine allowed namespace ≡ true) ↔ (
        (is_empty namespace ≡ false)
        × ((lists (codes "*") allowed
              || (str_eq namespace machine && (is_unset allowed || lists (codes ".") allowed))
              || lists namespace allowed)
            ≡ true))
unfolding namespace_allowed str_eq
namespace_allowed_iff machine namespace [] h = ground (
  arith,
  any-item_allows machine namespace (codes "." ∷ []) h,
  str_eq_iff (codes ".") namespace,
  str_eq_iff namespace (codes "."),
)
namespace_allowed_iff machine namespace (item ∷ items) h =
    ground (arith, any-item_allows machine namespace (item ∷ items) h)
