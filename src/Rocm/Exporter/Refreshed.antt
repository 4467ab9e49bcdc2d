-- ===== src/Rocm/Exporter/Refreshed.antt =====
-- operators/fake-rocm-gpu-operator/internal/exporter: what a refresh of the cache publishes.
use sims.Prelude.{
  String, List, [], ◌∷◌, Option, none, some, ◌==◌, ◌≡◌, refl, sym, ◌∙◌, ap, ◌⊎◌, inl, inr, In,
  Bool-cases, eq_iff, some_inj,
}
use sims.Prelude.Float.{Float64}
use sims.Prelude.Maps.{Map, lookup, insert, get_or, lookup-insert, lookup-insert_self}
use sims.Prelude.Results.{Result, ok, err, Call}
use sims.K8s.{ApiError}
use sims.Rocm.Annotations.{Range, parse_utilization_with_default, utilization_annotation}
use sims.Rocm.Topology.{Assignment, Topology, ConfigMaps, TopologyError, load}
use sims.Rocm.Exporter.{Cache, pod_key, range_of, with_pod, fetch, fetch_ranges, refreshed, refresh}

module _ (fl : Float64) {W : Type 0} (api : ConfigMaps W)
    (get_pod : String → String → Call W (Result ApiError (Map String))) where
  abbrev key_of : Assignment → String
  key_of a = pod_key a.pod_namespace a.pod_name

  -- The range is that of the annotations which the API has returned for the pod of an assignment: the one
  -- that its annotation gives, or the default.
  abbrev pub IsOf : String → List Assignment → String → Range fl → Type 0
  IsOf default_util assignments key r =
      (a : Assignment) × In a assignments
      × (key_of a ≡ key)
      × ((v : W) × (m : Map String) × ((get_pod a.pod_namespace a.pod_name v).0 ≡ ok m)
          × (r
              ≡ range_of fl default_util (
                  parse_utilization_with_default fl (get_or "" m utilization_annotation)
                    default_util)))

  -- A range of the pod, or a pod that the API could not give.
  abbrev pub HasRange : Map (Range fl) → Assignment → Type 0
  HasRange ranges a =
      ((r : Range fl) × (lookup ranges (key_of a) ≡ some r))
      ⊎ ((v : W) × (e : ApiError) × ((get_pod a.pod_namespace a.pod_name v).0 ≡ err e))

  -- The ranges are those of the pods of the assignments: each is that of such a pod, and each such pod has
  -- one where the API gave it.
  abbrev pub Ranges : String → List Assignment → Map (Range fl) → Type 0
  Ranges default_util assignments ranges =
      ((key : String) (r : Range fl)
        → lookup ranges key ≡ some r
        → IsOf default_util assignments key r)
      × ((a : Assignment) → In a assignments → HasRange ranges a)

  module _ (default_util : String) where
    -- One fetch adds a range of its pod, or leaves the ranges.
    abbrev Fetched : Assignment → Map (Range fl) → Map (Range fl) → Type 0
    Fetched a ranges ranges' =
        ((key : String) (r : Range fl)
          → lookup ranges' key ≡ some r
          → (lookup ranges key ≡ some r) ⊎ IsOf default_util (a ∷ []) key r)
        × ((key : String) (r : Range fl) → lookup ranges key ≡ some r → lookup ranges' key ≡ some r)
        × HasRange ranges' a

    unseen : {r : Range fl} → ◌≡◌ {A = Option (Range fl)} none (some r) → ⊥
    unseen e = cc

    fetched :
        (a : Assignment) (ranges : Map (Range fl)) (w : W)
        → Fetched a ranges
            (fetch fl api get_pod default_util a (lookup ranges (key_of a)) ranges w).0
    fetched a ranges w = by_seen (lookup ranges (key_of a)) refl
      where
        by_seen :
            (o : Option (Range fl))
            → lookup ranges (key_of a) ≡ o
            → Fetched a ranges (fetch fl api get_pod default_util a o ranges w).0
        by_seen (some r) e = (λ key r h. inl h, λ key r h. h, inl (r, e))
        by_seen none e = by_pod (get_pod a.pod_namespace a.pod_name w).0 refl
          where
            by_pod :
                (p : Result ApiError (Map String))
                → (get_pod a.pod_namespace a.pod_name w).0 ≡ p
                → Fetched a ranges (with_pod fl default_util (key_of a) p ranges)
            by_pod (err x) q = (λ key r h. inl h, λ key r h. h, inr (w, x, q))
            by_pod (ok m) q = (back, kept, inl (given, lookup-insert_self ranges (key_of a) given))
              where
                given : Range fl
                given = range_of fl default_util (
                    parse_utilization_with_default fl (get_or "" m utilization_annotation)
                      default_util)

                back :
                    (key : String) (r : Range fl)
                    → lookup (insert ranges (key_of a) given) key ≡ some r
                    → (lookup ranges key ≡ some r) ⊎ IsOf default_util (a ∷ []) key r
                back key r h = elim (Bool-cases (key_of a == key)) [
                  | inl here ↦ inr (
                    a,
                    inl refl,
                    (eq_iff (key_of a) key).0 here,
                    (
                      w,
                      m,
                      q,
                      sym (some_inj (rw (lookup-insert ranges (key_of a) key given, here) at h)),
                    ),
                  )
                  | inr other ↦ inl (rw (lookup-insert ranges (key_of a) key given, other) at h)
                ]

                kept :
                    (key : String) (r : Range fl)
                    → lookup ranges key ≡ some r
                    → lookup (insert ranges (key_of a) given) key ≡ some r
                kept key r h = elim (Bool-cases (key_of a == key)) [
                  | inl here ↦
                      absurd
                        (unseen (sym e ∙ (ap (lookup ranges) ((eq_iff (key_of a) key).0 here) ∙ h)))
                  | inr other ↦ rw (lookup-insert ranges (key_of a) key given, other) h
                ]

    widen :
        (xs ys : List Assignment) (key : String) (r : Range fl)
        → ((a : Assignment) → In a xs → In a ys)
        → IsOf default_util xs key r
        → IsOf default_util ys key r
    widen xs ys key r more (a, i, named, given) = (a, more a i, named, given)

    still :
        (ranges ranges' : Map (Range fl)) (a : Assignment)
        → ((key : String) (r : Range fl) → lookup ranges key ≡ some r → lookup ranges' key ≡ some r)
        → HasRange ranges a
        → HasRange ranges' a
    still ranges ranges' a kept (inl (r, there)) = inl (r, kept (key_of a) r there)
    still ranges ranges' a kept (inr failed) = inr failed

    abbrev Fetches : List Assignment → Map (Range fl) → Map (Range fl) → Type 0
    Fetches todo ranges ranges' =
        ((key : String) (r : Range fl)
          → lookup ranges' key ≡ some r
          → (lookup ranges key ≡ some r) ⊎ IsOf default_util todo key r)
        × ((key : String) (r : Range fl) → lookup ranges key ≡ some r → lookup ranges' key ≡ some r)
        × ((a : Assignment) → In a todo → HasRange ranges' a)

    both :
        (a : Assignment) (todo : List Assignment) (ranges ranges1 ranges' : Map (Range fl))
        → Fetched a ranges ranges1
        → Fetches todo ranges1 ranges'
        → Fetches (a ∷ todo) ranges ranges'
    both a todo ranges ranges1 ranges' (back1, kept1, has1) (back2, kept2, has2) =
        (back, λ key r h. kept2 key r (kept1 key r h), has)
      where
        back :
            (key : String) (r : Range fl)
            → lookup ranges' key ≡ some r
            → (lookup ranges key ≡ some r) ⊎ IsOf default_util (a ∷ todo) key r
        back key r h = elim (back2 key r h) [
          | inl at_first ↦ elim (back1 key r at_first) [
            | inl before ↦ inl before
            | inr first ↦ inr (widen (a ∷ []) (a ∷ todo) key r only first)
          ]
          | inr later ↦ inr (widen todo (a ∷ todo) key r (λ b i. inr i) later)
        ]
          where
            only : (b : Assignment) → In b (a ∷ []) → In b (a ∷ todo)
            only b (inl e) = inl e
            only b (inr none_left) = absurd none_left

        has : (b : Assignment) → In b (a ∷ todo) → HasRange ranges' b
        has b (inl same) = rw same (still ranges1 ranges' a kept2 has1)
        has b (inr i) = has2 b i

    fetches :
        (todo : List Assignment) (ranges : Map (Range fl)) (w : W)
        → Fetches todo ranges (fetch_ranges fl api get_pod default_util todo ranges w).0
    unfolding fetch_ranges
    fetches [] ranges w = (λ key r h. inl h, λ key r h. h, λ a i. absurd i)
    fetches (a ∷ todo) ranges w =
        let (ranges1, w1) =
          fetch fl api get_pod default_util a (lookup ranges (key_of a)) ranges w in
        both a todo ranges ranges1 (fetch_ranges fl api get_pod default_util todo ranges1 w1).0
          (fetched a ranges w) (fetches todo ranges1 w1)

  -- What a refresh publishes: a topology that was loaded with the ranges of its pods, beside the settings
  -- of the cache.
  abbrev pub Refreshed : Result TopologyError Topology → Cache fl → Cache fl → Type 0
  Refreshed (err e) c c' = c' ≡ c
  Refreshed (ok top) c c' =
      (c'.state.topology ≡ top)
      × (c'.hostname ≡ c.hostname)
      × (c'.namespace ≡ c.namespace)
      × (c'.default_util ≡ c.default_util)
      × Ranges c.default_util (get_or [] top.nodes c.hostname) c'.state.pod_ranges

  no_ranges : (key : String) (r : Range fl) → ¬ (lookup [] key ≡ some r)
  unfolding lookup
  no_ranges key r h = cc

  refreshed_publishes :
      (c : Cache fl) (r : Result TopologyError Topology) (w : W)
      → Refreshed r c (refreshed fl api get_pod c r w).0
  refreshed_publishes c (err e) w = refl
  refreshed_publishes c (ok top) w =
      let (back, kept, has) = fetches c.default_util (get_or [] top.nodes c.hostname) [] w in
      (refl, refl, refl, refl, (λ key r h. or_absurd (back key r h) (no_ranges key r), has))
    where
      or_absurd : {A B : Type 0} → A ⊎ B → ¬ A → B
      or_absurd (inl a) never = absurd (never a)
      or_absurd (inr b) never = b

  -- A refresh publishes the topology that it loads and keeps the settings of the cache; where the topology
  -- cannot be loaded it leaves the cache as it was. The published ranges are those of the pods that have
  -- GPUs on the cache's node: each stands under the key of such a pod and is the one that the pod's
  -- annotation gives, or the default; and each such pod has one, unless the API failed to give the pod.
  pub refresh_publishes :
      (c : Cache fl) (w : W) → Refreshed (load api c.namespace w).0 c (refresh fl api get_pod c w).0
  unfolding refresh
  refresh_publishes c w =
      refreshed_publishes c (load api c.namespace w).0 (load api c.namespace w).1
