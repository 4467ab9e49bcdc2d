-- ===== src/Cli/Deleted.antt =====
-- pkg/cli/gpu_delete.go: the clusters of the host before a delete and after it.
use sims.Prelude.{
  String, true, false, List, [], ◌∷◌, Option, none, some, ◌≡◌, refl, In, inl, inr, ◌⊎◌, Bool-cases,
  if◌then◌else◌, ◌==◌,
}
use sims.Prelude.Results.{Result, ok}
use sims.Text.{has_prefix, is_empty, is_empty_iff}
use sims.Cli.Host.{CliError}
use sims.Cli.Select.{
  sims_cluster_prefix, filter_sims_clusters, contains_name, contains_name_iff, filter_exact,
}
use sims.Cli.Resolved.{IsOnly, IsOnly-found, filter_complete}
use sims.Cli.Delete.{target, only_or_none, checked}

-- The clusters that are left when one is deleted.
abbrev pub without : String → List String → List String
without n [] = []
without n (m ∷ ms) = if m == n then without n ms else m ∷ without n ms

-- What a delete is to do, said of the clusters alone: delete the cluster that is named, or without a name
-- the only sims cluster; and nothing where that is not there.
abbrev pub Chosen : String → List String → String → Type 0
Chosen name before n =
    ((name ≡ "") × IsOnly n before) ⊎ ((is_empty name ≡ false) × In n before × (n ≡ name))

abbrev pub Nothing : String → List String → Type 0
Nothing name before =
    ((name ≡ "") × ((m : String) → In m before → has_prefix m sims_cluster_prefix ≡ false))
    ⊎ ((is_empty name ≡ false) × ¬ (In name before))

abbrev pub Deleted : String → List String → List String → Type 0
Deleted name before after =
    (Nothing name before × (after ≡ before))
    ⊎ ((n : String) × Chosen name before n × (after ≡ without n before))

-- The target of the code is that of the specification.
abbrev pub Targets : String → List String → Option String → Type 0
Targets name before none = Nothing name before
Targets name before (some n) = Chosen name before n

no_prefix :
    (m : String) (all : List String)
    → In m all
    → (In m (filter_sims_clusters all) → ⊥)
    → has_prefix m sims_cluster_prefix ≡ false
no_prefix m all i missing = elim (Bool-cases (has_prefix m sims_cluster_prefix)) [
  | inl sims ↦ absurd (missing (filter_complete all m i sims))
  | inr other ↦ other
]

found-Targets :
    (name : String) (all found : List String) (o : Option String)
    → name ≡ ""
    → filter_sims_clusters all ≡ found
    → checked all (only_or_none found) ≡ ok o
    → Targets name all o
found-Targets name all [] o e same h =
    let nothing : none ≡ o = cc in
    rw (← nothing) (inl (e, λ m i. no_prefix m all i (λ j. rw same at j)))
found-Targets name all (n ∷ []) o e same h =
    let listed : In n all = (filter_exact all n (rw same (inl refl))).0 in
    let chosen : some n ≡ o = unchecked ((contains_name_iff all n).1 listed) h in
    rw (← chosen) (inl (e, IsOnly-found n all (n ∷ []) sound complete refl))
  where
    unchecked : contains_name all n ≡ true → checked all (ok (some n)) ≡ ok o → some n ≡ o
    unchecked t h =
        let g : ◌≡◌ {A = Result CliError (Option String)} (ok (some n)) (ok o) = rw t at h in cc

    sound : (m : String) → In m (n ∷ []) → In m all × (has_prefix m sims_cluster_prefix ≡ true)
    sound m i = filter_exact all m (rw same i)

    complete : (m : String) → In m all → has_prefix m sims_cluster_prefix ≡ true → In m (n ∷ [])
    complete m i p = rw same at (filter_complete all m i p)
found-Targets name all (n ∷ m ∷ ns) o e same h = cc

pub target_exact :
    (name : String) (all : List String) (o : Option String)
    → target name all ≡ ok o
    → Targets name all o
unfolding target
target_exact name all o h = elim (Bool-cases (is_empty name)) [
  | inl omitted ↦
      found-Targets name all (filter_sims_clusters all) o ((is_empty_iff name).0 omitted) refl
        (rw omitted at h)
  | inr given ↦ elim (Bool-cases (contains_name all name)) [
    | inl is_there ↦
        let chosen : some name ≡ o = inj (rw (given, is_there) at h) in
        rw (← chosen) (inr (given, (contains_name_iff all name).0 is_there, refl))
    | inr missing ↦
        let nothing : none ≡ o = inj (rw (given, missing) at h) in
        rw (← nothing) (inr (given, λ i. differ ((contains_name_iff all name).1 i) missing))
  ]
]
  where
    inj : {a b : Option String} → ◌≡◌ {A = Result CliError (Option String)} (ok a) (ok b) → a ≡ b
    inj e = cc

    differ : contains_name all name ≡ true → contains_name all name ≡ false → ⊥
    differ p q = cc
