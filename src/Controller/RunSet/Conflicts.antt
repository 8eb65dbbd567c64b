-- ===== src/Controller/RunSet/Conflicts.antt =====
-- `DetectDestinationPathConflicts` of internal/controller/helpers.go.
use kube_rsync_machine.Common.{
  ◌≡◌, refl, ap, ◌∙◌, Bool, true, false, not, ◌&&◌, ◌||◌, List, [], ◌∷◌, ◌++◌, ok, map, any,
  any-append, length, ltb, if◌then◌else◌, arith, All, Bool-cases, Result-cases, inl, inr,
}
use kube_rsync_machine.Common.Eq.{GoString_eq}
use kube_rsync_machine.Common.Maps.{lookup, insert, lookup-insert}
use kube_rsync_machine.Common.Sort.{sort-nil}
use kube_rsync_machine.Common.Text.{GoString, str_eq, str_eq_iff, str_leb}
use kube_rsync_machine.Controller.Refs.{
  NamespacedName, MachineObject, BackupSource, same_name, machine_name, source_name, admits,
  is_mirror,
}
use kube_rsync_machine.Controller.Refs.Names.{same_name_refl, same_name_iff}
use kube_rsync_machine.Controller.Destinations.{clean_relative_path}
use kube_rsync_machine.Controller.RunSet.{
  Claim, Claims, claim_key, claims_at, or_no_claims, append_claim, claim_source, claim_sources,
  claim_machines, add_name, add_names, conflict_of, conflicts_of, conflict_key,
  detect_destination_path_conflicts,
}

-- The source has a claim among these.
abbrev claims_of : NamespacedName → List Claim → Bool
claims_of ref = any (λ c. same_name ref c.source)

claims_at-insert :
    (k j : GoString) (found : List Claim) (claims : Claims)
    → claims_at j (insert k found claims) ≡ (if str_eq k j then found else claims_at j claims)
claims_at-insert k j found claims = elim (Bool-cases (str_eq k j)) [
  | inl e ↦ ap or_no_claims (lookup-insert k j found claims) ∙ rw e refl
  | inr e ↦ ap or_no_claims (lookup-insert k j found claims) ∙ rw e refl
]

-- An appended claim is there, and those of other keys and sources stay.
claims_at-append_claim :
    (machine : MachineObject) (source : BackupSource) (path key : GoString) (ref : NamespacedName)
    (claims : Claims)
    → claims_of ref (claims_at key (append_claim machine source path claims)) ≡ (
        claims_of ref (claims_at key claims)
        || (str_eq (claim_key (machine_name machine) source.namespace path) key
            && same_name ref (source_name source)))
unfolding append_claim
claims_at-append_claim machine source path key ref claims =
    let k = claim_key (machine_name machine) source.namespace path in
    let added : Claim = record {
      machine = machine_name machine;
      path = path;
      source = source_name source;
    } in
    ground (
      arith,
      claims_at-insert k key (claims_at k claims ++ added ∷ []) claims,
      any-append (λ c. same_name ref c.source) (claims_at k claims) (added ∷ []),
      str_eq_iff k key,
    )

-- Claims stay while the loop goes on.
claim_source_keeps :
    (machine : MachineObject) (source : BackupSource) (claims after : Claims) (key : GoString)
    (ref : NamespacedName)
    → claim_source machine source claims ≡ ok after
    → claims_of ref (claims_at key claims) ≡ true
    → claims_of ref (claims_at key after) ≡ true
unfolding claim_source
claim_source_keeps machine source claims after key ref h k =
    elim (Bool-cases (not (admits machine source) || is_mirror machine)) [
      | inl skip ↦ ground arith
      | inr take ↦ elim (Result-cases (clean_relative_path source.destination_path)) [
        | inl (path, e) ↦ ground (arith, claims_at-append_claim machine source path key ref claims)
        | inr (error, e) ↦ absurd (ground arith)
      ]
    ]

claim_sources_keeps :
    (machine : MachineObject) (sources : List BackupSource) (claims after : Claims) (key : GoString)
    (ref : NamespacedName)
    → claim_sources machine sources claims ≡ ok after
    → claims_of ref (claims_at key claims) ≡ true
    → claims_of ref (claims_at key after) ≡ true
unfolding claim_sources
claim_sources_keeps machine [] claims after key ref h k = ground arith
claim_sources_keeps machine (source ∷ sources) claims after key ref h k =
    elim (Result-cases (claim_source machine source claims)) [
      | inl (next, e) ↦
          claim_sources_keeps machine sources next after key ref (ground arith)
            (claim_source_keeps machine source claims next key ref e k)
      | inr (error, e) ↦ absurd (ground arith)
    ]

-- The source has the claim that its namespace and its path make, if it is admitted.
abbrev pub IsClaimed : MachineObject → Claims → BackupSource → Type 0
IsClaimed machine claims source =
    (path : GoString)
    → admits machine source ≡ true
    → clean_relative_path source.destination_path ≡ ok path
    → claims_of (source_name source)
        (claims_at (claim_key (machine_name machine) source.namespace path) claims)
      ≡ true

claim_source-IsClaimed :
    (machine : MachineObject) (source : BackupSource) (claims after : Claims)
    → is_mirror machine ≡ false
    → claim_source machine source claims ≡ ok after
    → IsClaimed machine after source
unfolding claim_source
claim_source-IsClaimed machine source claims after m h path a c =
    let key = claim_key (machine_name machine) source.namespace path in
    ground (
      arith,
      claims_at-append_claim machine source path key (source_name source) claims,
      str_eq_iff key key,
      same_name_refl (source_name source),
    )

claim_sources-IsClaimed :
    (machine : MachineObject) (sources : List BackupSource) (claims after : Claims)
    → is_mirror machine ≡ false
    → claim_sources machine sources claims ≡ ok after
    → All (IsClaimed machine after) sources
unfolding claim_sources
claim_sources-IsClaimed machine [] claims after m h = tt
claim_sources-IsClaimed machine (source ∷ sources) claims after m h =
    elim (Result-cases (claim_source machine source claims)) [
      | inl (next, e) ↦
          let rest : claim_sources machine sources next ≡ ok after = ground arith in
          (
            λ path a c.
                claim_sources_keeps machine sources next after
                  (claim_key (machine_name machine) source.namespace path) (source_name source) rest
                  (claim_source-IsClaimed machine source claims next m e path a c),
            claim_sources-IsClaimed machine sources next after m rest,
          )
      | inr (error, e) ↦ absurd (ground arith)
    ]

nothing_before : {A : Type 0} (xs ys : List A) → xs ++ ys ≡ [] → (xs ≡ []) × (ys ≡ [])
nothing_before [] ys h = (refl, h)
nothing_before (x ∷ xs) ys h = cc

-- No key of the claims has a conflict if there is none at all.
conflict_of-claims_at :
    (claims : Claims) (key : GoString)
    → conflicts_of claims ≡ []
    → conflict_of (claims_at key claims) ≡ []
unfolding conflicts_of lookup conflict_of
conflict_of-claims_at [] key h = refl
conflict_of-claims_at ((k, found) ∷ rest) key h = elim (Bool-cases (str_eq k key)) [
  | inl e ↦ rw e (nothing_before (conflict_of found) (conflicts_of rest) h).0
  | inr e ↦
      rw e (
        conflict_of-claims_at rest key (nothing_before (conflict_of found) (conflicts_of rest) h).1)
]

-- Two names of a list of at most one name are the same.
same_of_one :
    (refs : List NamespacedName) (a b : NamespacedName)
    → ltb 1 (length refs) ≡ false
    → any (same_name a) refs ≡ true
    → any (same_name b) refs ≡ true
    → same_name a b ≡ true
same_of_one [] a b one h k = cc
same_of_one (ref ∷ []) a b one h k =
    ground (arith, same_name_iff a ref, same_name_iff b ref, same_name_iff a b)
same_of_one (r ∷ q ∷ refs) a b one h k = absurd (ground arith)

any-add_names :
    (a : NamespacedName) (claims : List Claim)
    → claims_of a claims ≡ true
    → any (same_name a) (add_names (map (λ c. c.source) claims)) ≡ true
unfolding add_name
any-add_names a [] h = h
any-add_names a (c ∷ claims) h = ground (arith, any-add_names a claims, same_name_iff a c.source)

conflict_of-same :
    (claims : List Claim) (a b : NamespacedName)
    → conflict_of claims ≡ []
    → claims_of a claims ≡ true
    → claims_of b claims ≡ true
    → same_name a b ≡ true
unfolding conflict_of
conflict_of-same [] a b h ha hb = cc
conflict_of-same (c ∷ claims) a b h ha hb = ground (
  arith,
  same_of_one (add_names (map (λ d. d.source) (c ∷ claims))) a b,
  any-add_names a (c ∷ claims) ha,
  any-add_names b (c ∷ claims) hb,
)

-- Two claimed sources of one namespace with one path are one source, if there is no conflict.
pub claimed_same :
    (machine : MachineObject) (claims : Claims) (s t : BackupSource) (path : GoString)
    → conflicts_of claims ≡ []
    → IsClaimed machine claims s
    → IsClaimed machine claims t
    → admits machine s ≡ true
    → admits machine t ≡ true
    → s.namespace ≡ t.namespace
    → clean_relative_path s.destination_path ≡ ok path
    → clean_relative_path t.destination_path ≡ ok path
    → same_name (source_name s) (source_name t) ≡ true
claimed_same machine claims s t path h cs ct a b ns ps pt =
    let key = claim_key (machine_name machine) s.namespace path in
    conflict_of-same (claims_at key claims) (source_name s) (source_name t)
      (conflict_of-claims_at claims key h) (cs path a ps) (rw ns (ct path b pt))

-- The code finds no conflict: then every admitted source has its claim, and no key has two.
pub no_conflicts :
    (machine : MachineObject) (sources : List BackupSource)
    → is_mirror machine ≡ false
    → detect_destination_path_conflicts (machine ∷ []) sources ≡ ok []
    → (claims : Claims) × (conflicts_of claims ≡ []) × All (IsClaimed machine claims) sources
unfolding detect_destination_path_conflicts claim_machines
no_conflicts machine sources m h = elim (Result-cases (claim_sources machine sources [])) [
  | inl (claims, e) ↦ (
    claims,
    sort-nil (λ a b. str_leb (conflict_key a) (conflict_key b)) (conflicts_of claims)
        (ground arith),
    claim_sources-IsClaimed machine sources [] claims m e,
  )
  | inr (error, e) ↦ absurd (ground arith)
]
