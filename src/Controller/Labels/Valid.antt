-- ===== src/Controller/Labels/Valid.antt =====
-- `dnsLabelMax` of internal/controller/builders.go and `targetGuardLeaseName` of
-- internal/controller/helpers.go.
use kube_rsync_machine.Common.{
  ℕ, zero, suc, ◌≡◌, ◌≤◌, refl, Bool, true, false, not, ◌&&◌, ◌||◌, [], ◌∷◌, ◌++◌, leb, ltb, ◌==◌,
  length, take, length-append, length-take-le, All, All-append, All-take, All-imp, any, Bool-cases,
  inl, inr, arith,
}
use kube_rsync_machine.Common.Text.{GoString, codes, is_empty}
use kube_rsync_machine.Controller.Refs.{NamespacedName, name_string}
use kube_rsync_machine.Controller.Labels.{
  dash, lower, is_alphanumeric, write_label, trim_left, trim_right, or_krm, shortened, limit_label,
  dns_label_max, dns_label, or_guard, target_guard_lease_name,
}

-- A letter, a digit or '-'.
abbrev pub is_label_byte : ℕ → Bool
is_label_byte c = is_alphanumeric c || c == dash

abbrev pub starts_dash : GoString → Bool
starts_dash [] = false
starts_dash (c ∷ s) = c == dash

abbrev pub ends_dash : GoString → Bool
ends_dash [] = false
ends_dash (c ∷ []) = c == dash
ends_dash (c ∷ d ∷ s) = ends_dash (d ∷ s)

-- A label of DNS (RFC 1123).
pub record IsLabel (s : GoString) : Type 0 where
  pub nonempty : is_empty s ≡ false
  pub short : length s ≤ 63
  pub bytes : All (λ c. is_label_byte c ≡ true) s
  pub start : starts_dash s ≡ false
  pub end : ends_dash s ≡ false

-- What the code takes of a hexadecimal hash: ten digits.
pub record IsHash (hex_sum : GoString → GoString) : Type 0 where
  pub long : (s : GoString) → length (take 10 (hex_sum s)) ≡ 10
  pub digits : (s : GoString) → All (λ c. is_alphanumeric c ≡ true) (take 10 (hex_sum s))

All-write_label :
    (last_dash : Bool) (s : GoString) → All (λ c. is_label_byte c ≡ true) (write_label last_dash s)
unfolding write_label is_alphanumeric
All-write_label last_dash [] = tt
All-write_label last_dash (c ∷ s) = elim (Bool-cases (is_alphanumeric (lower c))) [
  | inl e ↦ rw e (ground arith, All-write_label false s)
  | inr e ↦ elim (Bool-cases last_dash) [
    | inl d ↦ rw (e, d) (All-write_label true s)
    | inr d ↦ rw (e, d) (refl, All-write_label true s)
  ]
]

module _ (P : ℕ → Type 0) where
  All-trim_left : (s : GoString) → All P s → All P (trim_left s)
  unfolding trim_left
  All-trim_left [] h = tt
  All-trim_left (c ∷ s) (p, h) = elim (Bool-cases (c == dash)) [
    | inl e ↦ rw e (All-trim_left s h)
    | inr e ↦ rw e (p, h)
  ]

  All-trim_right : (s : GoString) → All P s → All P (trim_right s)
  unfolding trim_right
  All-trim_right [] h = tt
  All-trim_right (c ∷ s) (p, h) = elim (Bool-cases (c == dash && is_empty (trim_right s))) [
    | inl e ↦ rw e tt
    | inr e ↦ rw e (p, All-trim_right s h)
  ]

starts_dash-trim_left : (s : GoString) → starts_dash (trim_left s) ≡ false
unfolding trim_left
starts_dash-trim_left [] = refl
starts_dash-trim_left (c ∷ s) = ground (arith, starts_dash-trim_left s)

starts_dash-trim_right : (s : GoString) → starts_dash s ≡ false → starts_dash (trim_right s) ≡ false
unfolding trim_right
starts_dash-trim_right [] h = refl
starts_dash-trim_right (c ∷ s) h = ground arith

ends_dash_cons :
    (c : ℕ) (s : GoString)
    → (c == dash && is_empty s) ≡ false
    → ends_dash s ≡ false
    → ends_dash (c ∷ s) ≡ false
ends_dash_cons c [] h k = ground arith
ends_dash_cons c (d ∷ s) h k = k

ends_dash-trim_right : (s : GoString) → ends_dash (trim_right s) ≡ false
unfolding trim_right
ends_dash-trim_right [] = refl
ends_dash-trim_right (c ∷ s) = elim (Bool-cases (c == dash && is_empty (trim_right s))) [
  | inl e ↦ rw e refl
  | inr e ↦ rw e (ends_dash_cons c (trim_right s) e (ends_dash-trim_right s))
]

length-trim_right-le : (s : GoString) → length (trim_right s) ≤ length s
unfolding trim_right
length-trim_right-le [] = omega arith
length-trim_right-le (c ∷ s) = ground (arith, length-trim_right-le s)

starts_dash-take : (n : ℕ) (s : GoString) → starts_dash s ≡ false → starts_dash (take n s) ≡ false
starts_dash-take zero s h = refl
starts_dash-take (suc n) [] h = refl
starts_dash-take (suc n) (c ∷ s) h = h

starts_dash-append : (s t : GoString) → is_empty s ≡ false → starts_dash (s ++ t) ≡ starts_dash s
starts_dash-append [] t h = cc
starts_dash-append (c ∷ s) t h = refl

ends_dash-append :
    (s : GoString) (c : ℕ) (t : GoString) → ends_dash (s ++ c ∷ t) ≡ ends_dash (c ∷ t)
ends_dash-append [] c t = refl
ends_dash-append (d ∷ []) c t = refl
ends_dash-append (d ∷ e ∷ s) c t = ends_dash-append (e ∷ s) c t

filled-append : (s : GoString) (c : ℕ) (t : GoString) → is_empty (s ++ c ∷ t) ≡ false
filled-append [] c t = refl
filled-append (d ∷ s) c t = refl

letters_no_dash :
    (s : GoString)
    → All (λ c. is_alphanumeric c ≡ true) s
    → (starts_dash s ≡ false) × (ends_dash s ≡ false)
unfolding is_alphanumeric
letters_no_dash [] h = (refl, refl)
letters_no_dash (c ∷ []) (p, h) = (ground arith, ground arith)
letters_no_dash (c ∷ d ∷ s) (p, h) = (ground arith, (letters_no_dash (d ∷ s) h).1)

-- A hash, of ten letters and digits, after a stem that is not too long.
dashed-IsLabel :
    (stem suffix : GoString)
    → is_empty stem ≡ false
    → length stem ≤ 52
    → All (λ c. is_label_byte c ≡ true) stem
    → starts_dash stem ≡ false
    → length suffix ≡ 10
    → All (λ c. is_alphanumeric c ≡ true) suffix
    → IsLabel (stem ++ dash ∷ suffix)
unfolding is_alphanumeric
dashed-IsLabel stem [] f l b s n d = absurd (omega arith)
dashed-IsLabel stem (c ∷ suffix) f l b s n d = record {
  nonempty = filled-append stem dash (c ∷ suffix);
  short = omega (arith, length-append stem (dash ∷ c ∷ suffix));
  bytes =
      All-append (λ x. is_label_byte x ≡ true) stem (dash ∷ c ∷ suffix) b
        (refl, All-imp (λ x p. ground arith) (c ∷ suffix) d);
  start = rw (starts_dash-append stem (dash ∷ c ∷ suffix) f) s;
  end = rw (ends_dash-append stem dash (c ∷ suffix)) (letters_no_dash (c ∷ suffix) d).1;
}

hashed-IsLabel :
    (suffix : GoString)
    → length suffix ≡ 10
    → All (λ c. is_alphanumeric c ≡ true) suffix
    → IsLabel suffix
hashed-IsLabel [] n d = absurd (omega arith)
hashed-IsLabel (c ∷ suffix) n d = record {
  nonempty = refl;
  short = omega arith;
  bytes = All-imp (λ x p. ground arith) (c ∷ suffix) d;
  start = (letters_no_dash (c ∷ suffix) d).0;
  end = (letters_no_dash (c ∷ suffix) d).1;
}

shortened-IsLabel :
    (prefix suffix : GoString)
    → length prefix ≤ 52
    → All (λ c. is_label_byte c ≡ true) prefix
    → starts_dash prefix ≡ false
    → length suffix ≡ 10
    → All (λ c. is_alphanumeric c ≡ true) suffix
    → IsLabel (shortened prefix suffix)
shortened-IsLabel prefix suffix l b s n d = elim (Bool-cases (is_empty prefix)) [
  | inl e ↦ rw e (hashed-IsLabel suffix n d)
  | inr e ↦ rw e (dashed-IsLabel prefix suffix e l b s n d)
]

-- The start of a text, without the dashes that it ends in.
cut_text :
    (n : ℕ) (out : GoString)
    → All (λ c. is_label_byte c ≡ true) out
    → starts_dash out ≡ false
    → (length (trim_right (take n out)) ≤ n)
      × All (λ c. is_label_byte c ≡ true) (trim_right (take n out))
      × (starts_dash (trim_right (take n out)) ≡ false)
cut_text n out b s = (
  omega (arith, length-trim_right-le (take n out), length-take-le n out),
  All-trim_right (λ c. is_label_byte c ≡ true) (take n out)
      (All-take (λ c. is_label_byte c ≡ true) n out b),
  starts_dash-trim_right (take n out) (starts_dash-take n out s),
)

limit_label-IsLabel :
    (hex_sum : GoString → GoString)
    → IsHash hex_sum
    → (out : GoString) → is_empty out ≡ false
    → All (λ c. is_label_byte c ≡ true) out
    → starts_dash out ≡ false
    → ends_dash out ≡ false
    → IsLabel (limit_label hex_sum 63 out)
unfolding limit_label
limit_label-IsLabel hex_sum hash out f b s e = elim (Bool-cases (leb (length out) 63)) [
  | inl fits ↦
      rw fits (record { nonempty = f; short = ground arith; bytes = b; start = s; end = e })
  | inr long ↦
      let cut = cut_text 52 out b s in
      rw (long, hash.long out)
        (shortened-IsLabel (trim_right (take 52 out)) (take 10 (hex_sum out)) cut.0 cut.1 cut.2
          (hash.long out) (hash.digits out))
]

or_krm-IsLabel :
    (hex_sum : GoString → GoString)
    → IsHash hex_sum
    → (out : GoString) → All (λ c. is_label_byte c ≡ true) out
    → starts_dash out ≡ false
    → ends_dash out ≡ false
    → IsLabel (limit_label hex_sum 63 (or_krm out))
unfolding is_alphanumeric
or_krm-IsLabel hex_sum hash [] b s e =
    limit_label-IsLabel hex_sum hash (codes "krm") refl (refl, (refl, (refl, tt))) refl refl
or_krm-IsLabel hex_sum hash (c ∷ out) b s e = limit_label-IsLabel hex_sum hash (c ∷ out) refl b s e

-- Whatever text it is given, `dnsLabel` makes a label of DNS, of at most 63 characters.
pub dns_label-IsLabel :
    (hex_sum : GoString → GoString)
    → IsHash hex_sum
    → (value : GoString) → IsLabel (dns_label hex_sum value)
unfolding dns_label dns_label_max
dns_label-IsLabel hex_sum hash value =
    let written = write_label false value in
    let bytes =
      All-trim_right (λ c. is_label_byte c ≡ true) (trim_left written)
        (All-trim_left (λ c. is_label_byte c ≡ true) written (All-write_label false value)) in
    or_krm-IsLabel hex_sum hash (trim_right (trim_left written)) bytes
      (starts_dash-trim_right (trim_left written) (starts_dash-trim_left written))
      (ends_dash-trim_right (trim_left written))

bytes_of :
    (s : GoString)
    → any (λ c. not (is_label_byte c)) s ≡ false
    → All (λ c. is_label_byte c ≡ true) s
bytes_of [] h = tt
bytes_of (c ∷ s) h = (ground arith, bytes_of s (ground arith))

guard_stem :
    (stem suffix : GoString)
    → length stem ≤ 52
    → All (λ c. is_label_byte c ≡ true) stem
    → starts_dash stem ≡ false
    → length suffix ≡ 10
    → All (λ c. is_alphanumeric c ≡ true) suffix
    → IsLabel (or_guard stem ++ dash ∷ suffix)
unfolding is_alphanumeric
guard_stem [] suffix l b s n d =
    dashed-IsLabel (codes "krm-target-guard") suffix refl (omega arith)
      (bytes_of (codes "krm-target-guard") refl) refl n d
guard_stem (c ∷ stem) suffix l b s n d = dashed-IsLabel (c ∷ stem) suffix refl l b s n d

-- The name of the lease of any machine is a label of DNS, of 1 to 63 lower-case letters, digits and
-- dashes that neither starts nor ends with a dash, if the hash is written in letters and digits and
-- has ten of them.
pub target_guard_lease_name-IsLabel :
    (hex_sum : GoString → GoString)
    → IsHash hex_sum
    → (target : NamespacedName) → IsLabel (target_guard_lease_name hex_sum target)
unfolding target_guard_lease_name
target_guard_lease_name-IsLabel hex_sum hash target =
    let stem = dns_label hex_sum (codes "krm-target-guard-" ++ target.name) in
    let label = dns_label-IsLabel hex_sum hash (codes "krm-target-guard-" ++ target.name) in
    let suffix = take 10 (hex_sum (name_string target)) in
    elim (Bool-cases (ltb 52 (length stem))) [
      | inl long ↦
          let cut = cut_text 52 stem label.bytes label.start in
          rw (hash.long (name_string target), long)
            (guard_stem (trim_right (take 52 stem)) suffix cut.0 cut.1 cut.2
              (hash.long (name_string target)) (hash.digits (name_string target)))
      | inr short ↦
          rw (hash.long (name_string target), short)
            (guard_stem stem suffix (ground arith) label.bytes label.start
              (hash.long (name_string target)) (hash.digits (name_string target)))
    ]
