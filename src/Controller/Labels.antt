-- ===== src/Controller/Labels.antt =====
-- The names that the controller makes up: `dnsLabelMax` of internal/controller/builders.go, which is
-- `dnsLabel` of internal/snapshot/helpers.go too, and `targetGuardLeaseName` of
-- internal/controller/helpers.go. The texts are ASCII. The hexadecimal SHA-256 of a text is a
-- parameter.
pub mod Valid
use kube_rsync_machine.Common.{
  ℕ, ◌+◌, ◌-◌, Bool, true, false, ◌&&◌, ◌||◌, List, [], ◌∷◌, ◌++◌, if◌then◌else◌, leb, ltb, ◌==◌,
  length, take,
}
use kube_rsync_machine.Common.Text.{GoString, codes, is_empty}
use kube_rsync_machine.Controller.Refs.{NamespacedName, name_string}

abbrev pub dash : ℕ
dash = b'-'

-- `strings.ToLower` of a byte.
unfoldable pub lower : ℕ → ℕ
lower c = if leb b'A' c && leb c b'Z' then c + 32 else c

unfoldable pub is_alphanumeric : ℕ → Bool
is_alphanumeric c = (leb b'a' c && leb c b'z') || (leb b'0' c && leb c b'9')

-- The loop over the characters.
unfoldable pub write_label : Bool → GoString → GoString
write_label last_dash [] = []
write_label last_dash (c ∷ value) =
    let after_letter = write_label false value in
    let after_dash = write_label true value in
    if is_alphanumeric (lower c)
    then lower c ∷ after_letter
    else if last_dash
    then after_dash
    else dash ∷ after_dash

-- `strings.Trim(value, "-")` is both of these.
unfoldable pub trim_left : GoString → GoString
trim_left [] = []
trim_left (c ∷ value) = let rest = trim_left value in if c == dash then rest else c ∷ value

unfoldable pub trim_right : GoString → GoString
trim_right [] = []
trim_right (c ∷ value) =
    let rest = trim_right value in if c == dash && is_empty rest then [] else c ∷ rest

abbrev pub or_krm : GoString → GoString
or_krm out = if is_empty out then codes "krm" else out

-- What is kept of a text that is too long, and its hash.
abbrev pub shortened : GoString → GoString → GoString
shortened prefix suffix = if is_empty prefix then suffix else prefix ++ dash ∷ suffix

abbrev pub or_guard : GoString → GoString
or_guard stem = if is_empty stem then codes "krm-target-guard" else stem

module _ (hex_sum : GoString → GoString) where
  -- The end of `dnsLabelMax`, for the trimmed text.
  unfoldable pub limit_label : ℕ → GoString → GoString
  limit_label max_length out =
      let suffix = take 10 (hex_sum out) in
      if leb (length out) max_length
      then out
      else if leb max_length (length suffix)
      then take max_length suffix
      else shortened (trim_right (take (max_length - length suffix - 1) out)) suffix

  unfoldable pub dns_label_max : GoString → ℕ → GoString
  dns_label_max value max_length =
      limit_label max_length (or_krm (trim_right (trim_left (write_label false value))))

  unfoldable pub dns_label : GoString → GoString
  dns_label value = dns_label_max value 63

  unfoldable pub target_guard_lease_name : NamespacedName → GoString
  target_guard_lease_name target =
      let suffix = take 10 (hex_sum (name_string target)) in
      let stem = dns_label (codes "krm-target-guard-" ++ target.name) in
      let max_stem = 63 - length suffix - 1 in
      or_guard (if ltb max_stem (length stem) then trim_right (take max_stem stem) else stem)
      ++ dash ∷ suffix
