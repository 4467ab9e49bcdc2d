-- ===== src/Cli/Resolved.antt =====
-- pkg/cli: the choice of a cluster in gpu_dashboard.go, gpu_monitoring.go and gpu_status.go.
use sims.Prelude.{String, true, List, [], ◌∷◌, ◌≡◌, refl, ◌∙◌, In, inl, inr, Bool-cases, ◌⊎◌}
use sims.Prelude.Results.{Result, ok, err}
use sims.Text.{has_prefix, is_empty, is_empty_iff}
use sims.Cli.Host.{CliError}
use sims.Cli.Select.{
  sims_cluster_prefix, filter_sims_clusters, contains_name, contains_name_iff, only_one, existing,
  then_existing, resolve_name, resolve_and_check, filter_exact,
}

-- What the filter returns stands in the list, so that looking it up again changes nothing.
only_one_exists :
    (all found : List String)
    → ((n : String) → In n found → In n all)
    → only_one found ≡ then_existing all (only_one found)
only_one_exists all [] within = refl
only_one_exists all (n ∷ []) within = rw ((contains_name_iff all n).1 (within n (inl refl))) refl
only_one_exists all (n ∷ m ∷ ns) within = refl

-- The two ways to choose a cluster agree: with the same name and the same clusters, they choose the
-- same one or return the same error.
pub resolvers_agree :
    (name : String) (all : List String) → resolve_name name all ≡ resolve_and_check name all
unfolding resolve_name resolve_and_check
resolvers_agree name all = elim (Bool-cases (is_empty name)) [
  | inl omitted ↦
      rw omitted (only_one_exists all (filter_sims_clusters all) (λ n i. (filter_exact all n i).0))
  | inr given ↦ rw given refl
]

pub filter_complete :
    (all : List String) (name : String)
    → In name all
    → has_prefix name sims_cluster_prefix ≡ true
    → In name (filter_sims_clusters all)
unfolding filter_sims_clusters
filter_complete [] name i p = absurd i
filter_complete (n ∷ ns) name (inl e) p = rw (← e, p) (inl refl)
filter_complete (n ∷ ns) name (inr i) p = elim (Bool-cases (has_prefix n sims_cluster_prefix)) [
  | inl sims ↦ rw sims (inr (filter_complete ns name i p))
  | inr other ↦ rw other (filter_complete ns name i p)
]

-- The only cluster of the host whose name starts with the prefix.
abbrev pub IsOnly : String → List String → Type 0
IsOnly n all =
    In n all
    × (has_prefix n sims_cluster_prefix ≡ true)
    × ((m : String) → In m all → has_prefix m sims_cluster_prefix ≡ true → m ≡ n)

pub IsOnly-found :
    (n : String) (all found : List String)
    → ((m : String) → In m found → In m all × (has_prefix m sims_cluster_prefix ≡ true))
    → ((m : String) → In m all → has_prefix m sims_cluster_prefix ≡ true → In m found)
    → only_one found ≡ ok n
    → IsOnly n all
IsOnly-found n all [] sound complete h = cc
IsOnly-found n all (k ∷ []) sound complete h =
    let same : k ≡ n = cc in
    rw (← same) (
      (sound k (inl refl)).0,
      (sound k (inl refl)).1,
      λ m i p. elim (complete m i p) [ inl e ↦ e | inr none_left ↦ absurd none_left ],
    )
IsOnly-found n all (k ∷ l ∷ found) sound complete h = cc

named_exists :
    (name n : String) (all : List String) → existing all name ≡ ok n → In n all × (n ≡ name)
named_exists name n all h = elim (Bool-cases (contains_name all name)) [
  | inl there ↦ by_name (rw there at h) there
  | inr missing ↦ no_name (rw missing at h)
]
  where
    by_name :
        ◌≡◌ {A = Result CliError String} (ok name) (ok n)
        → contains_name all name ≡ true
        → In n all × (n ≡ name)
    by_name e there =
        let same : name ≡ n = cc in rw (← same) ((contains_name_iff all name).0 there, refl)

    no_name :
        {e : CliError} → ◌≡◌ {A = Result CliError String} (err e) (ok n) → In n all × (n ≡ name)
    no_name e = cc

name_resolved :
    (name : String) (all : List String) (n : String)
    → resolve_name name all ≡ ok n
    → ((name ≡ "") × IsOnly n all) ⊎ (In n all × (n ≡ name))
unfolding resolve_name
name_resolved name all n h = elim (Bool-cases (is_empty name)) [
  | inl omitted ↦ inl (
    (is_empty_iff name).0 omitted,
    IsOnly-found n all (filter_sims_clusters all) (filter_exact all) (filter_complete all)
        (rw omitted at h),
  )
  | inr given ↦ inr (named_exists name n all (rw given at h))
]

-- In both ways to choose a cluster: a command that was given a cluster's name uses that cluster, and it is
-- there; one that was given none uses the only cluster whose name starts with "sims-".
pub resolved_exact :
    (name : String) (all : List String) (n : String)
    → (resolve_name name all ≡ ok n) ⊎ (resolve_and_check name all ≡ ok n)
    → ((name ≡ "") × IsOnly n all) ⊎ (In n all × (n ≡ name))
resolved_exact name all n (inl by_name) = name_resolved name all n by_name
resolved_exact name all n (inr checked) =
    name_resolved name all n (resolvers_agree name all ∙ checked)
